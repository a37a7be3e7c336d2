-- ===== src/Editor/Session.antt =====
-- A session of the editor: `run` and `run_app` of crates/collector/src/editor/mod.rs. What the
-- terminal, the file system and the validator do during one turn of the loop is a `Turn`.
pub mod Invariants
pub mod Unsaved
pub mod Quit
use securitygingercia.Prelude.{
  List, [], ◌∷◌, Option, none, some, if◌then◌else◌, Run, ret, ◌>>=◌, Result, ok, err,
}
use securitygingercia.Keys.{KeyEvent, Toolkit}
use securitygingercia.Doc.{EditorDoc}
use securitygingercia.Doc.Save.{Disk, Platform, Environment, FilePath, EditorError, load}
use securitygingercia.Screen.{Canvas, IsComplete}
use securitygingercia.Editor.State.{App, new}
use securitygingercia.Editor.Handle.{on_key}
use securitygingercia.Editor.View.Draw.{draw}

-- The answers of one turn: what the operating system does, where the drawing goes, and the key
-- that is read, if the event that is read is one.
pub record Turn (Rect : Type 0) : Type 0 where
  pub key : Option KeyEvent
  pub platform : Platform
  pub env : Environment
  pub canvas : Canvas Rect

module _ {Input Rect : Type 0} (kit : Toolkit Input) where
  unfoldable pub read_event : Turn Rect → App Input → Disk → Run (App Input × Disk)
  read_event turn app disk = elim turn.key [
    | none ↦ ret (app, disk)
    | some key ↦ on_key kit turn.platform turn.env key app disk
  ]

  -- The loop: it ends with the turns as well, where a call of the terminal fails.
  unfoldable pub run_app : List (Turn Rect) → App Input → Disk → Run (App Input × Disk)
  unfolding read_event
  run_app [] app disk = ret (app, disk)
  run_app (turn ∷ turns) app disk =
      let rest : Run (App Input × Disk) = (do
        (app', disk') ← read_event turn app disk
        run_app turns app' disk') in
      do
        frame ← draw kit turn.canvas turn.platform app
        if app.should_quit then ret (app, disk) else rest

  -- The editor on a file. `ratatui::init`, which panics where there is no usable terminal, is a
  -- parameter; `ratatui::restore` gives the terminal back and nothing to the program.
  unfoldable pub run :
      (init : Run (Unit {0}))
      → Platform
      → FilePath
      → List (Turn Rect)
      → Disk
      → Run (Result EditorError (App Input × Disk))
  unfolding run_app
  run init platform config turns disk = elim (load platform config disk) [
    | err e ↦ ret (err e)
    | ok doc ↦ do terminal ← init; left ← run_app turns (new config doc) disk; ret (ok left)
  ]
