-- ===== src/Editor/View.antt =====
-- The drawing of the editor: crates/collector/src/editor/ui.rs. A drawing function gives what it
-- renders, in order; indexing a rectangle or an option that is not there is a panic.
pub mod Items
pub mod Lists
pub mod Forms
pub mod Draw
pub mod Safety
pub mod Rows
