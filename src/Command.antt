-- ===== src/Command.antt =====
-- The commands of the program: `Cli`, `Command` and `main` of crates/collector/src/main.rs, after
-- the arguments have been parsed. What each command meets is a `World`.
use securitygingercia.Prelude.{String, List, Run, ret, ◌>>=◌, Result}
use securitygingercia.Keys.{Toolkit}
use securitygingercia.Metrics.Snapshots.{MetricsSnapshot}
use securitygingercia.Doc.Save.{FilePath, Disk, Platform, EditorError}
use securitygingercia.Editor.Session
use securitygingercia.Editor.State
use securitygingercia.Dashboard
use securitygingercia.Dashboard.Loop

pub data Command : Type 0 where
  edit : (config : FilePath) → Command
  dashboard : (status_addr : String) → Command

pub record Cli : Type 0 where
  pub command : Command
  pub log_level : String

-- What `ratatui::init` does, the disk and the answers to the reading of the document, and the turns
-- of each loop.
pub record World (Rect : Type 0) : Type 0 where
  pub init : Run (Unit {0})
  pub disk : Disk
  pub platform : Platform
  pub turns : List (Session.Turn Rect)
  pub polls : List (Loop.Turn Rect)

-- What is left at the end.
pub data Exit (Input : Type 0) : Type 0 where
  edited : Result EditorError (State.App Input × Disk) → Exit Input
  watched : Dashboard.App MetricsSnapshot → Exit Input

module _ {Input Rect : Type 0} (kit : Toolkit Input) (world : World Rect) where
  unfoldable pub run_command : Command → Run (Exit Input)
  run_command (edit config) = do
    result ← Session.run kit world.init world.platform config world.turns world.disk
    ret (Exit.edited result)
  run_command (dashboard status_addr) = do
    app ← Loop.run world.init status_addr world.polls
    ret (Exit.watched app)

  unfoldable pub main : Cli → Run (Exit Input)
  unfolding run_command
  main cli = run_command cli.command
