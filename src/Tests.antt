-- ===== src/Tests.antt =====
-- Concrete runs of the editor and its parts: the data, and the theorems at these data.
pub mod Data
mod Documents
mod Forms
mod Sessions
mod Turns
mod Curated
mod Counters
