-- ===== src/Templates.antt =====
-- The curated source templates: crates/collector/src/editor/templates.rs.
pub mod Spec
pub mod Network
pub mod Generic
pub mod Windows
pub mod Databases
pub mod Messaging
pub mod Registry
pub mod Params
pub mod Built
