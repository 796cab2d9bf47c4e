-- ===== src/Links.antt =====
-- The links of knowledge and wisdom pages: src/dikw_core/domains/knowledge/links.py.
pub mod Normalize
pub mod Index
pub mod Resolve
pub mod Dicts
pub mod Safety
pub mod Lines
pub mod Parse
pub mod Tests
