-- ===== src/Dashboard.antt =====
-- The dashboard's state: `App` of crates/collector/src/dashboard/app.rs.
pub mod Polling
pub mod View
pub mod Loop
pub mod Drawing
pub mod Session
use securitygingercia.Prelude.{
  ℕ, String, Bool, true, false, Option, none, some, if◌then◌else◌, ◌||◌, Result, ok, err,
}
use securitygingercia.Keys.{KeyCode, KeyEvent, is_char}

-- A snapshot is what the dashboard was sent.
module _ (MetricsSnapshot : Type 0) where
  pub data AppEvent : Type 0 where
    poll_result : Result String MetricsSnapshot → AppEvent
    key : KeyEvent → AppEvent

  pub record App : Type 0 where
    pub status_addr : String
    pub last_snapshot : Option MetricsSnapshot
    pub last_error : Option String
    pub last_poll_at : Option ℕ
    pub should_quit : Bool

abbrev pub quits : KeyCode → Bool
quits KeyCode.esc = true
quits code = is_char b'q' code

module _ {MetricsSnapshot : Type 0} where
  unfoldable pub new : String → App MetricsSnapshot
  new status_addr = record {
    status_addr = status_addr;
    last_snapshot = none;
    last_error = none;
    last_poll_at = none;
    should_quit = false;
  }

  unfoldable pub handle_key : KeyEvent → App MetricsSnapshot → App MetricsSnapshot
  handle_key k app = if quits k.code then record app { should_quit = true } else app

  -- `update`, at a time.
  unfoldable pub update : ℕ → AppEvent MetricsSnapshot → App MetricsSnapshot → App MetricsSnapshot
  unfolding handle_key
  update now (AppEvent.poll_result (ok snapshot)) app = record app {
    last_snapshot = some snapshot;
    last_error = none;
    last_poll_at = some now;
  }
  update now (AppEvent.poll_result (err message)) app = record app {
    last_error = some message;
    last_poll_at = some now;
  }
  update now (AppEvent.key k) app = handle_key k app
