-- ===== src/Dashboard/Session.antt =====
-- What a run of the dashboard shows, and what a poll gives (`run_app` of
-- crates/collector/src/dashboard/mod.rs and crates/collector/src/dashboard/client.rs).
use securitygingercia.Prelude.{
  map_err, ◌+++◌, ◌↔◌, ap, branched, ℕ, String, true, false, none, some, List, [], ◌∷◌, ◌≡◌, refl,
  sym, ◌∙◌, subst, arith, ◌||◌, if◌then◌else◌, Bool-cases, inl, inr, All, ret, Returns, Returns->>=,
  Returns-map, Result, ok, err,
}
use securitygingercia.Doc.Validation.{Result-cases}
use securitygingercia.Keys.{KeyEvent}
use securitygingercia.Screen.{IsComplete}
use securitygingercia.Metrics.Snapshots.{MetricsSnapshot}
use securitygingercia.Dashboard.{AppEvent, App, new, update, quits, handle_key}
use securitygingercia.Dashboard.Polling.{update_all, update_all_lem, shown, error_of, asks_to_quit}
use securitygingercia.Dashboard.View.{draw}
use securitygingercia.Dashboard.Loop.{
  Server, Response, fetch_status, Branch, tick, event, Turn, select, run_loop, run_app,
}
use securitygingercia.Dashboard.Drawing.{IsDrawn, draw-Returns}

-- The events of a branch, before those of the turns after it, which there are unless it quits.
abbrev taken :
    String → ℕ → Branch → List (ℕ × AppEvent MetricsSnapshot) → List (ℕ × AppEvent MetricsSnapshot)
taken addr now (tick server) rest = (now, AppEvent.poll_result (fetch_status server addr)) ∷ rest
taken addr now (event none) rest = rest
taken addr now (event (some key)) rest =
    (now, AppEvent.key key) ∷ (if quits key.code then [] else rest)

-- The events of the turns, up to a key that quits.
unfoldable pub events_of :
    {Rect : Type 0} → String → List (Turn Rect) → List (ℕ × AppEvent MetricsSnapshot)
events_of addr [] = []
events_of addr (turn ∷ turns) = taken addr turn.now turn.branch (events_of addr turns)

handle_key-addr :
    (key : KeyEvent) (app : App MetricsSnapshot)
    → ((handle_key key app).status_addr ≡ app.status_addr)
      × ((handle_key key app).should_quit ≡ (app.should_quit || quits key.code))
unfolding handle_key
handle_key-addr key app = elim (Bool-cases (quits key.code)) [
  | inl e ↦ rw (e, handle_key) (refl, ground arith)
  | inr e ↦ rw (e, handle_key) (refl, ground arith)
]

update-addr :
    (now : ℕ) (result : Result String MetricsSnapshot) (app : App MetricsSnapshot)
    → ((update now (AppEvent.poll_result result) app).status_addr ≡ app.status_addr)
      × ((update now (AppEvent.poll_result result) app).should_quit ≡ app.should_quit)
unfolding update
update-addr now (ok snapshot) app = (refl, refl)
update-addr now (err message) app = (refl, refl)

module _ {Rect : Type 0} where
  abbrev pub AreComplete : List (Turn Rect) → Type 0
  AreComplete turns = All (λ turn. IsComplete turn.canvas) turns

  run_loop-quit :
      (turns : List (Turn Rect)) (app : App MetricsSnapshot)
      → AreComplete turns
      → app.should_quit ≡ true
      → Returns (λ left. left ≡ app) (run_loop turns app)
  unfolding run_loop
  run_loop-quit [] app c q = refl
  run_loop-quit (turn ∷ turns) app c q =
      Returns->>= IsDrawn (λ left. left ≡ app) (draw turn.canvas app) _
        (draw-Returns turn.canvas app c.0)
        (λ frame d.
          branched (λ left. left ≡ app) app.should_quit (ret app) _ (λ e. refl)
            (λ e. absurd (cc (q, e))))

  run_branch :
      (now : ℕ) (branch : Branch) (turns : List (Turn Rect)) (app : App MetricsSnapshot)
      → AreComplete turns
      → app.should_quit ≡ false
      → ((app' : App MetricsSnapshot)
          → app'.should_quit ≡ false
          → Returns
              (λ left. left ≡ update_all (events_of app'.status_addr turns) app')
              (run_loop turns app'))
      → Returns
          (λ left.
            left
            ≡ update_all (taken app.status_addr now branch (events_of app.status_addr turns)) app)
          (run_loop turns (select now branch app))
  unfolding select update_all update
  run_branch now (tick server) turns app c q ih =
      let result = fetch_status server app.status_addr in
      let app1 = update now (AppEvent.poll_result result) app in
      let (addr, quit) = update-addr now result app in
      Returns-map (λ left. left ≡ update_all (events_of app1.status_addr turns) app1) _
        (run_loop turns app1) (ih app1 (quit ∙ q))
        (λ left h. h ∙ ap (λ a. update_all (events_of a turns) app1) addr)
  run_branch now (event none) turns app c q ih = ih app q
  run_branch now (event (some key)) turns app c q ih =
      let app1 = handle_key key app in
      let (addr, quit) = handle_key-addr key app in
      let rest = events_of app.status_addr turns in
      elim (Bool-cases (quits key.code)) [
        | inl e ↦
            subst
              (λ b.
                Returns (λ left. left ≡ update_all (if b then [] else rest) app1)
                  (run_loop turns app1))
              (sym e) (run_loop-quit turns app1 c (quit ∙ ground (arith, e)))
        | inr e ↦
            subst
              (λ b.
                Returns (λ left. left ≡ update_all (if b then [] else rest) app1)
                  (run_loop turns app1))
              (sym e)
              (Returns-map (λ left. left ≡ update_all (events_of app1.status_addr turns) app1) _
                (run_loop turns app1) (ih app1 (quit ∙ ground (arith, q, e)))
                (λ left h. h ∙ ap (λ a. update_all (events_of a turns) app1) addr))
      ]

  run_loop-eq :
      (turns : List (Turn Rect)) (app : App MetricsSnapshot)
      → AreComplete turns
      → app.should_quit ≡ false
      → Returns
          (λ left. left ≡ update_all (events_of app.status_addr turns) app)
          (run_loop turns app)
  unfolding run_loop events_of update_all
  run_loop-eq [] app c q = refl
  run_loop-eq (turn ∷ turns) app c q =
      Returns->>= IsDrawn (λ left. left ≡ update_all (events_of app.status_addr (turn ∷ turns)) app)
        (draw turn.canvas app) _ (draw-Returns turn.canvas app c.0)
        (λ frame d.
          branched (λ left. left ≡ update_all (events_of app.status_addr (turn ∷ turns)) app)
            app.should_quit (ret app) _ (λ e. absurd (cc (q, e)))
            (λ e.
              run_branch turn.now turn.branch turns app c.1 q
                (λ app' q'. run_loop-eq turns app' c.1 q')))

-- What the dashboard ends on is what its events make of a new dashboard.
abbrev pub Shows : List (ℕ × AppEvent MetricsSnapshot) → App MetricsSnapshot → Type 0
Shows events app =
    (app.last_snapshot ≡ shown none events)
    × (app.last_error ≡ error_of none events)
    × (app.should_quit ≡ asks_to_quit events)

-- On a new dashboard, whatever the turns bring and whatever the servers answer, the loop does not
-- panic, and it ends with the snapshot of the last successful poll, the error of the last poll if
-- it failed, and quitting exactly if a key asked for it; the turns after that key do not count. A
-- split of the screen has a rectangle for each constraint.
pub run_app-Shows :
    {Rect : Type 0} (status_addr : String) (turns : List (Turn Rect))
    → AreComplete turns
    → Returns (Shows (events_of status_addr turns)) (run_app status_addr turns)
unfolding run_app new
run_app-Shows status_addr turns c =
    Returns-map (λ left. left ≡ update_all (events_of status_addr turns) (new status_addr))
      (Shows (events_of status_addr turns)) (run_loop turns (new status_addr))
      (run_loop-eq turns (new status_addr) c refl)
      (λ left h.
        subst (Shows (events_of status_addr turns)) (sym h)
          (update_all_lem (events_of status_addr turns) (new status_addr)))

-- A poll gives a snapshot exactly if the server answered at the status address, with success, and
-- with a body that reads as that snapshot.
pub fetch_status_iff :
    (server : Server) (addr : String) (snapshot : MetricsSnapshot)
    → (fetch_status server addr ≡ ok snapshot) ↔ (
        (response : Response) × (server ("http://" +++ addr +++ "/status") ≡ ok response)
        × (response.is_success ≡ true)
        × (response.json ≡ ok snapshot))
unfolding fetch_status
fetch_status_iff server addr snapshot = (fetched, answers)
  where
    url : String
    url = "http://" +++ addr +++ "/status"

    read :
        (response : Response)
        → (if response.is_success
            then map_err (λ e. "invalid response: " +++ e) response.json
            else err ("status API returned " +++ response.status))
          ≡ ok snapshot
        → (response.is_success ≡ true) × (response.json ≡ ok snapshot)
    read response h = elim (Bool-cases response.is_success) [
      | inr e ↦ absurd (cc (rw e at h))
      | inl e ↦ elim (Result-cases response.json) [
        | inl (s, j) ↦ (e, j ∙ rw (e, j) at h)
        | inr (x, j) ↦ absurd (cc (rw (e, j) at h))
      ]
    ]

    fetched :
        fetch_status server addr ≡ ok snapshot
        → (response : Response) × (server url ≡ ok response)
          × (response.is_success ≡ true)
          × (response.json ≡ ok snapshot)
    fetched h = elim (Result-cases (server url)) [
      | inr (e, r) ↦ absurd (cc (rw (r, fetch_status) at h))
      | inl (response, r) ↦
          let (e, j) = read response (rw (r, fetch_status) at h) in (response, r, e, j)
    ]

    answers :
        ((response : Response) × (server url ≡ ok response)
          × (response.is_success ≡ true)
          × (response.json ≡ ok snapshot))
        → fetch_status server addr ≡ ok snapshot
    answers (response, r, e, j) = rw (r, e, j, fetch_status) refl
