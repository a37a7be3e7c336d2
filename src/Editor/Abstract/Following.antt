-- ===== src/Editor/Abstract/Following.antt =====
-- A session takes the steps of the abstract view that its keys stand for, one key at a time
-- (crates/collector/src/editor/app.rs and mod.rs).
use securitygingercia.Prelude.{Option}
use securitygingercia.Doc.Save.{Disk}
use securitygingercia.Keys.{Toolkit, KeyEvent}
use securitygingercia.Editor.State.{App}
use securitygingercia.Editor.Edits.{AreUnique}
use securitygingercia.Editor.Safety.{IsSafe}
use securitygingercia.Editor.Selections.{InRange}
use securitygingercia.Editor.Abstract.{position, Move}

module _ {Input : Type 0} (kit : Toolkit Input) where
  -- What every key keeps, and the move that it makes.
  abbrev Follows : Option KeyEvent → App Input → App Input × Disk → Type 0
  Follows key app (app', disk) =
      IsSafe app'.screen
      × InRange app'.doc app'.screen
      × AreUnique app'.doc
      × Move key (position app) (position app')
