-- ===== src/Client.antt =====
-- The client side: src/dikw_core/client/task_follow.py.
pub mod Follow
pub mod Events
pub mod Served
pub mod Settled
pub mod Told
pub mod Ending
pub mod Tests
