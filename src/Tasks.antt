-- ===== src/Tasks.antt =====
-- Long-running tasks of the server: src/dikw_core/server/tasks and server/routes_tasks.py.
pub mod Model
pub mod Store
pub mod Run
pub mod Manager
pub mod Routes
pub mod Tests
