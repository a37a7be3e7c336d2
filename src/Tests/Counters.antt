-- ===== src/Tests/Counters.antt =====
-- The theorems on the counters and the dashboard, at a few batches, names and events.
use securitygingercia.Metrics.Snapshots.{MetricsSnapshot, Metrics, ℤ}
use securitygingercia.Metrics.Snapshots.Shown.{IsShown, new-IsStored, snapshot-IsShown}
use securitygingercia.Metrics.Snapshots
use securitygingercia.Dashboard.Loop
use securitygingercia.Dashboard.Loop.{Server, Response, Branch, tick, event, fetch_status}
use securitygingercia.Dashboard.Session.{
  AreComplete, Shows, events_of, run_app-Shows, fetch_status_iff,
}
use securitygingercia.Keys.{KeyCode}
use securitygingercia.Tests.Data.{canvas, canvas-IsComplete, press}
use securitygingercia.Prelude.{true, ◌↔◌, Returns}
use securitygingercia.Metrics.Totals.{events, failed, retried, sent, note_all}
use securitygingercia.Metrics.Handles.{snapshot-through, register-IsSound, IsSound}
use securitygingercia.Prelude.{ℕ, List, none, some, [], ◌∷◌, ◌≡◌, refl, eq_iff, arith, ok, err, ◌%◌}
use securitygingercia.Metrics.Totals.{
  sent, failed, retried, note_all, events, sends, failures, retries_of, latest,
  note_all-no_exporter,
}
use securitygingercia.Metrics.Handles.{IsSound, register-IsSound, snapshot-through}
use securitygingercia.Metrics.{
  lookup, Registry, ReceiverMetrics, no_receiver, no_exporter, register, handle, through, snapshot,
  word,
}

note_all-no_exporter_example :
    ((note_all (sent 10 ∷ retried ∷ failed 3 "boom" 7 ∷ []) no_exporter).events_in
      ≡ events (sent 10 ∷ retried ∷ failed 3 "boom" 7 ∷ []) % word)
    × ((note_all (sent 10 ∷ retried ∷ failed 3 "boom" 7 ∷ []) no_exporter).batches_sent
        ≡ sends (sent 10 ∷ retried ∷ failed 3 "boom" 7 ∷ []) % word)
    × ((note_all (sent 10 ∷ retried ∷ failed 3 "boom" 7 ∷ []) no_exporter).batches_failed
        ≡ failures (sent 10 ∷ retried ∷ failed 3 "boom" 7 ∷ []) % word)
    × ((note_all (sent 10 ∷ retried ∷ failed 3 "boom" 7 ∷ []) no_exporter).retries
        ≡ retries_of (sent 10 ∷ retried ∷ failed 3 "boom" 7 ∷ []) % word)
    × ((note_all (sent 10 ∷ retried ∷ failed 3 "boom" 7 ∷ []) no_exporter).last_error
        ≡ latest none (sent 10 ∷ retried ∷ failed 3 "boom" 7 ∷ []))
note_all-no_exporter_example = note_all-no_exporter (sent 10 ∷ retried ∷ failed 3 "boom" 7 ∷ [])

abbrev nothing : Registry ReceiverMetrics
nothing = record { names = []; store = [] }

nothing-IsSound : IsSound nothing
unfolding lookup
nothing-IsSound = record { bounded = λ k p e. cc; apart = λ j k p e f. cc }

abbrev two : Registry ReceiverMetrics
two = record {
  names = ("file_log/app", 1) ∷ ("syslog/udp", 0) ∷ [];
  store = no_receiver ∷ no_receiver ∷ [];
}

two-IsSound : IsSound two
unfolding register
two-IsSound =
    register-IsSound no_receiver ("syslog/udp" ∷ "file_log/app" ∷ []) nothing nothing-IsSound

snapshot-through_example :
    (snapshot "syslog/udp" (
        through
          (handle no_receiver "syslog/udp" two).0
          (λ m. record m { events_in = 5 })
          (handle no_receiver "syslog/udp" two).1)
      ≡ some (record { events_in = 5 }))
    × (snapshot "file_log/app" (
          through
            (handle no_receiver "syslog/udp" two).0
            (λ m. record m { events_in = 5 })
            (handle no_receiver "syslog/udp" two).1)
        ≡ snapshot "file_log/app" two)
unfolding snapshot lookup
snapshot-through_example =
    snapshot-through no_receiver "syslog/udp" "file_log/app" (λ m. record m { events_in = 5 }) two
      no_receiver two-IsSound refl (ground (arith, eq_iff "syslog/udp" "file_log/app"))

abbrev counted : Metrics
counted = Snapshots.new ("syslog/udp" ∷ "file_log/app" ∷ []) [] ("splunk_hec/soc" ∷ []) 5

snapshot-IsShown_example : IsShown 2000000007 counted (Snapshots.snapshot 2000000007 counted)
snapshot-IsShown_example =
    snapshot-IsShown 2000000007 counted
      (new-IsStored ("syslog/udp" ∷ "file_log/app" ∷ []) [] ("splunk_hec/soc" ∷ []) 5)

-- A status of one receiver, and servers that answer with it and that refuse.
abbrev status : MetricsSnapshot
status = record {
  started_at = 5;
  uptime_seconds = ℤ.pos 19;
  receivers = ("syslog/udp", record { events_in = 12 }) ∷ [];
  pipelines = [];
  exporters = [];
}

abbrev answering : Server
answering url = ok (record { is_success = true; status = "200 OK"; json = ok status })

abbrev refusing : Server
refusing url = err "refused"

abbrev dashboard_turn : Branch → Loop.Turn ℕ
dashboard_turn branch = record { now = 7; branch = branch; canvas = canvas }

abbrev pub dashboard_turns : List (Loop.Turn ℕ)
dashboard_turns =
    dashboard_turn (tick answering)
    ∷ dashboard_turn (tick refusing)
    ∷ dashboard_turn (event (some (press KeyCode.esc)))
    ∷ []

pub dashboard_turns-AreComplete : AreComplete dashboard_turns
dashboard_turns-AreComplete = (canvas-IsComplete, (canvas-IsComplete, (canvas-IsComplete, tt)))

run_app-Shows_example :
    Returns
      (Shows (events_of "127.0.0.1:7801" dashboard_turns))
      (Loop.run_app "127.0.0.1:7801" dashboard_turns)
run_app-Shows_example = run_app-Shows "127.0.0.1:7801" dashboard_turns dashboard_turns-AreComplete

fetch_status_iff_example : (fetch_status answering "127.0.0.1:7801" ≡ ok status) ↔ (
    (response : Response) × (answering "http://127.0.0.1:7801/status" ≡ ok response)
    × (response.is_success ≡ true)
    × (response.json ≡ ok status))
fetch_status_iff_example = fetch_status_iff answering "127.0.0.1:7801" status
