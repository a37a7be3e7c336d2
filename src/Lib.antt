-- ===== src/Lib.antt =====
-- sgcia, the companion of an OpenTelemetry collector: the editor of its YAML configuration and the
-- dashboard of its counters (crates/collector, crates/sg-core).
--
-- The editor loads a configuration as a document of JSON maps, shows it on screens that one key at a
-- time moves between, drawn again before each key, edits a component in a form whose fields come from
-- a registry of component types, builds receivers from curated templates, and saves the document after
-- the collector's own validator has accepted it. The dashboard shows the counters that it polls.
--
-- Files, and the code they model:
-- Prelude and its children: Boolean tests, lists, texts over the native numbers, and `Run`, the result
-- of code that can panic (an index out of range, an `expect` that fails).
-- Json, Json/Maps: serde_json::Value and serde_json::Map with preserve_order, by their documentation;
-- `remove` is swap_remove.
-- Schema/Spec, Receivers, Exporters, Extensions, Operators, Types, Path, and the proofs of PathLaws:
-- crates/collector/src/editor/schema_registry.rs, tables included.
-- Doc, Doc/Save, and the proofs of Strip, References, RoundTrip, Placeholder, Validation, Saving:
-- crates/collector/src/editor/model.rs. `of_value` is what `parse` makes of the YAML value. A disk maps
-- paths to contents, and two paths are one file exactly if they read the same; a `Platform` holds the
-- answers of the YAML library, of the file system and of the validator during one save, failures
-- included, and is quantified over.
-- Keys, Screen: the key codes of crossterm that the program tells apart, the `Toolkit` of
-- tui_input::Input, and the widgets and rectangles of ratatui; the text input and the geometry are
-- parameters.
-- Form, and the proofs of Form/Safety, Keeping, Writing, Reading, Resubmit, StringList, Operators,
-- Registered: `FormState` of crates/collector/src/editor/app.rs.
-- Templates/Spec, Network, Generic, Windows, Databases, Messaging, Registry, and the proofs of Params, Built
-- and its children: crates/collector/src/editor/templates.rs.
-- Editor/State, Common, Lists, Top, Handle: `App` of crates/collector/src/editor/app.rs. A handler takes
-- the app and the arguments of its screen, and gives the app and the next screen; `handle_key` is split
-- by screen, `handle_top_level` alone takes the disk.
-- Editor/View and its children Items, Lists, Forms, Draw, with the proofs of Safety and Rows:
-- crates/collector/src/editor/ui.rs. A drawing function gives the widgets that it renders, and where.
-- Editor/Session: `run` and its loop, crates/collector/src/editor/mod.rs. A turn of the loop holds what
-- the terminal, the file system and the validator answer in it.
-- Editor/Safety, SafeKeys, NoPanic, Edits, Changes, Saves, Reports, Removal: the proofs about one key:
-- the panics, the changes of the document and the disk, what is said of a save, and the removals.
-- Editor/Session/Invariants, Unsaved, Quit, Editor/Selections, Selections/Screens, Selections/Keys: the
-- proofs about sessions: what every turn keeps, the files, the way out, and the selections of the lists.
-- Editor/Abstract, Abstract/Refinement, Abstract/Following: a configuration as a function of ids with
-- the question that the screen asks, the steps on it, and the proof that each key takes only these.
-- Metrics, Metrics/Totals, Handles, Snapshots, Snapshots/Entries, Snapshots/Shown:
-- crates/sg-core/src/metrics.rs, with handles as places in a store.
-- Dashboard, View, Loop, and the proofs of Polling, Drawing, Session: crates/collector/src/dashboard
-- (app.rs, ui.rs, mod.rs, client.rs). A turn of the loop holds the branch that `select!` picks and what
-- the server answers.
-- Command: the commands and `main`, crates/collector/src/main.rs.
-- Tests and its children: the theorems at concrete data.
--
-- Bounds and fuel: counters are of 64 bits and wrap around. `set_path` runs on fuel one above the
-- number of characters of its path: each call of the source takes a shorter path. Positions in lists
-- are natural numbers, which no list of the program outgrows. Every other loop recurs on a list, a text
-- or a value.
--
-- The terminal: what `ratatui::init` does, a panic included, is a parameter of the two `run`s; the loops
-- end with the list of their turns, as where a later call of the terminal fails.
--
-- Not modelled: the parsing of the command line and the tracing output, which are libraries'; the
-- construction of the HTTP client; the geometry of the terminal, its restoring, and the time between
-- turns; the text of serialized JSON and YAML; links between files, and relative paths to one file; the
-- collector's extensions and the fleet server, which are Go, and the web interfaces. A save runs
-- against one disk, without other processes that write to it.
mod Prelude
pub mod Json
pub mod Schema
pub mod Doc
pub mod Screen
pub mod Keys
pub mod Form
pub mod Templates
pub mod Editor
pub mod Metrics
pub mod Dashboard
pub mod Command
mod Tests
