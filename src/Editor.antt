-- ===== src/Editor.antt =====
-- The configuration editor's key handling: crates/collector/src/editor/app.rs. A handler takes the
-- app whose screen has been taken out (`std::mem::take`), and gives the app and the next screen.
pub mod State
pub mod Common
pub mod Lists
pub mod Top
pub mod Handle
pub mod Safety
pub mod SafeKeys
pub mod NoPanic
pub mod View
pub mod Session
pub mod Edits
pub mod Changes
pub mod Saves
pub mod Reports
pub mod Removal
pub mod Selections
pub mod Abstract
