-- ===== src/Dashboard/Polling.antt =====
-- What the dashboard shows after its events (crates/collector/src/dashboard/app.rs).
use securitygingercia.Prelude.{
  ap, ◌∙◌, arith, ℕ, String, Bool, false, Option, none, some, List, [], ◌∷◌, ◌≡◌, refl, ◌||◌, ok,
  err, Bool-cases, inl, inr,
}
use securitygingercia.Keys.{KeyEvent}
use securitygingercia.Dashboard.{AppEvent, App, quits, handle_key, update}

module _ {MetricsSnapshot : Type 0} where
  -- The events, each at its time.
  unfoldable pub update_all :
      List (ℕ × AppEvent MetricsSnapshot) → App MetricsSnapshot → App MetricsSnapshot
  update_all [] app = app
  update_all ((now, event) ∷ rest) app = update_all rest (update now event app)

  -- The snapshot of the last poll that had one.
  unfoldable pub shown :
      Option MetricsSnapshot → List (ℕ × AppEvent MetricsSnapshot) → Option MetricsSnapshot
  shown s [] = s
  shown s ((now, AppEvent.poll_result (ok snapshot)) ∷ rest) = shown (some snapshot) rest
  shown s ((now, event) ∷ rest) = shown s rest

  -- The error of the last poll, if it has one.
  unfoldable pub error_of : Option String → List (ℕ × AppEvent MetricsSnapshot) → Option String
  error_of e [] = e
  error_of e ((now, AppEvent.poll_result (ok snapshot)) ∷ rest) = error_of none rest
  error_of e ((now, AppEvent.poll_result (err message)) ∷ rest) = error_of (some message) rest
  error_of e ((now, event) ∷ rest) = error_of e rest

  unfoldable pub asks_to_quit : List (ℕ × AppEvent MetricsSnapshot) → Bool
  asks_to_quit [] = false
  asks_to_quit ((now, AppEvent.key k) ∷ rest) = quits k.code || asks_to_quit rest
  asks_to_quit ((now, event) ∷ rest) = asks_to_quit rest

  handle_key_lem :
      (k : KeyEvent) (app : App MetricsSnapshot)
      → ((handle_key k app).last_snapshot ≡ app.last_snapshot)
        × ((handle_key k app).last_error ≡ app.last_error)
        × ((handle_key k app).should_quit ≡ (app.should_quit || quits k.code))
  unfolding handle_key
  handle_key_lem k app = elim (Bool-cases (quits k.code)) [
    | inl e ↦ rw (e, handle_key) (refl, refl, ground arith)
    | inr e ↦ rw (e, handle_key) (refl, refl, ground arith)
  ]

  -- After any events, the snapshot is that of the last successful poll, the error that of the last
  -- poll if it failed, and the dashboard quits exactly if it was asked to; where there was no poll
  -- and no such key, each is what it was.
  pub update_all_lem :
      (events : List (ℕ × AppEvent MetricsSnapshot)) (app : App MetricsSnapshot)
      → ((update_all events app).last_snapshot ≡ shown app.last_snapshot events)
        × ((update_all events app).last_error ≡ error_of app.last_error events)
        × ((update_all events app).should_quit ≡ (app.should_quit || asks_to_quit events))
  unfolding update_all shown error_of asks_to_quit update
  update_all_lem [] app = (refl, refl, ground arith)
  update_all_lem ((now, AppEvent.poll_result (ok snapshot)) ∷ rest) app =
      update_all_lem rest (update now (AppEvent.poll_result (ok snapshot)) app)
  update_all_lem ((now, AppEvent.poll_result (err message)) ∷ rest) app =
      update_all_lem rest (update now (AppEvent.poll_result (err message)) app)
  update_all_lem ((now, AppEvent.key k) ∷ rest) app =
      let (s, e, q) = update_all_lem rest (handle_key k app) in
      let (s', e', q') = handle_key_lem k app in
      (s ∙ ap (λ x. shown x rest) s', e ∙ ap (λ x. error_of x rest) e', ground (arith, q, q'))
