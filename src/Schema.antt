-- ===== src/Schema.antt =====
-- The registry of the component types: crates/collector/src/editor/schema_registry.rs.
pub mod Spec
pub mod Receivers
pub mod Exporters
pub mod Extensions
pub mod Operators
pub mod Path
pub mod Types
pub mod PathLaws
