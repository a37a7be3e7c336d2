-- ===== src/Dashboard/Loop.antt =====
-- The loop of the dashboard and its client: crates/collector/src/dashboard/mod.rs and client.rs.
-- What `select!` picks in a turn, and what the server answers, are given with the turn.
use securitygingercia.Prelude.{
  ℕ, String, Bool, Option, none, some, List, [], ◌∷◌, ◌+++◌, if◌then◌else◌, Run, ret, ◌>>=◌, Result,
  ok, err, map_err,
}
use securitygingercia.Keys.{KeyEvent}
use securitygingercia.Screen.{Canvas}
use securitygingercia.Metrics.Snapshots.{MetricsSnapshot}
use securitygingercia.Dashboard.{AppEvent, App, new, update}
use securitygingercia.Dashboard.View.{draw}

-- What the HTTP client gives: the status, and the body read as the JSON of a snapshot.
pub record Response : Type 0 where
  pub is_success : Bool
  pub status : String
  pub json : Result String MetricsSnapshot

-- `client.get(url).send()`
abbrev pub Server : Type 0
Server = (url : String) → Result String Response

unfoldable pub fetch_status : Server → String → Result String MetricsSnapshot
fetch_status get addr = elim (get ("http://" +++ addr +++ "/status")) [
  | err e ↦ err ("connection failed: " +++ e)
  | ok resp ↦
      if resp.is_success
      then map_err (λ e. "invalid response: " +++ e) resp.json
      else err ("status API returned " +++ resp.status)
]

-- The poll, or an event of the terminal, which is a key or nothing that the loop looks at.
pub data Branch : Type 0 where
  tick : Server → Branch
  event : Option KeyEvent → Branch

pub record Turn (Rect : Type 0) : Type 0 where
  pub now : ℕ
  pub branch : Branch
  pub canvas : Canvas Rect

-- The arm of `select!` that is picked.
unfoldable pub select : (now : ℕ) → Branch → App MetricsSnapshot → App MetricsSnapshot
unfolding fetch_status
select now (tick server) app =
    update now (AppEvent.poll_result (fetch_status server app.status_addr)) app
select now (event none) app = app
select now (event (some key)) app = update now (AppEvent.key key) app

module _ {Rect : Type 0} where
  -- The loop: it ends with the turns as well, where the terminal fails.
  unfoldable pub run_loop : List (Turn Rect) → App MetricsSnapshot → Run (App MetricsSnapshot)
  unfolding select
  run_loop [] app = ret app
  run_loop (turn ∷ turns) app =
      let rest = run_loop turns (select turn.now turn.branch app) in
      do frame ← draw turn.canvas app; if app.should_quit then ret app else rest

  unfoldable pub run_app : String → List (Turn Rect) → Run (App MetricsSnapshot)
  unfolding run_loop
  run_app status_addr turns = run_loop turns (new status_addr)

  -- `ratatui::init`, which panics where there is no usable terminal, is a parameter.
  unfoldable pub run :
      (init : Run (Unit {0})) → String → List (Turn Rect) → Run (App MetricsSnapshot)
  unfolding run_app
  run init status_addr turns = do terminal ← init; run_app status_addr turns
