-- ===== src/Metrics/Snapshots.antt =====
-- The whole of the metrics, and what a snapshot takes of it: `Metrics` and `MetricsSnapshot` of
-- crates/sg-core/src/metrics.rs. A `HashMap` is the list of its entries, in some order.
pub mod Entries
pub mod Shown
use securitygingercia.Prelude.{
  ℕ, ◌-◌, ◌/◌, String, Bool, Option, none, some, List, [], ◌∷◌, not, ◌==◌, if◌then◌else◌, leb, keep,
  get_elem?, map,
}
use securitygingercia.Metrics.{
  LastError, ReceiverMetrics, PipelineMetrics, ExporterMetrics, no_receiver, no_pipeline,
  no_exporter, Registry, register, handle,
}

pub record ReceiverSnapshot : Type 0 where
  pub events_in : ℕ

pub record PipelineSnapshot : Type 0 where
  pub events_in : ℕ
  pub events_out : ℕ
  pub events_dropped : ℕ
  pub events_dead_lettered : ℕ
  pub parse_errors : ℕ

pub record ExporterSnapshot : Type 0 where
  pub events_in : ℕ
  pub batches_sent : ℕ
  pub batches_failed : ℕ
  pub retries : ℕ
  pub last_error : Option LastError

abbrev pub receiver_snapshot : ReceiverMetrics → ReceiverSnapshot
receiver_snapshot m = record { events_in = m.events_in }

abbrev pub pipeline_snapshot : PipelineMetrics → PipelineSnapshot
pipeline_snapshot m = record {
  events_in = m.events_in;
  events_out = m.events_out;
  events_dropped = m.events_dropped;
  events_dead_lettered = m.events_dead_lettered;
  parse_errors = m.parse_errors;
}

abbrev pub exporter_snapshot : ExporterMetrics → ExporterSnapshot
exporter_snapshot m = record {
  events_in = m.events_in;
  batches_sent = m.batches_sent;
  batches_failed = m.batches_failed;
  retries = m.retries;
  last_error = m.last_error;
}

pub record Metrics : Type 0 where
  pub receivers : Registry ReceiverMetrics
  pub pipelines : Registry PipelineMetrics
  pub exporters : Registry ExporterMetrics
  pub started_at : ℕ

-- The signed integers.
pub data ℤ : Type 0 where
  pos negsuc : ℕ → ℤ

abbrev minus : ℕ → ℤ
minus n = if leb n 0 then ℤ.pos 0 else ℤ.negsuc (n - 1)

-- `(now - started_at).num_seconds()`, truncated; the clock may have been set back.
unfoldable pub seconds_between : (started_at now : ℕ) → ℤ
seconds_between started_at now =
    if leb started_at now
    then ℤ.pos ((now - started_at) / 1000000000)
    else minus ((started_at - now) / 1000000000)

pub record MetricsSnapshot : Type 0 where
  pub started_at : ℕ
  pub uptime_seconds : ℤ
  pub receivers : List (String × ReceiverSnapshot)
  pub pipelines : List (String × PipelineSnapshot)
  pub exporters : List (String × ExporterSnapshot)

abbrev pub empty : {M : Type 0} → Registry M
empty = record { names = []; store = [] }

unfoldable pub new : List String → List String → List String → (now : ℕ) → Metrics
new receiver_names pipeline_names exporter_names now = record {
  receivers = register no_receiver receiver_names empty;
  pipelines = register no_pipeline pipeline_names empty;
  exporters = register no_exporter exporter_names empty;
  started_at = now;
}

-- The handle of a name, and the metrics with it.
unfoldable pub receiver : String → Metrics → ℕ × Metrics
receiver name m =
    let (place, r) = handle no_receiver name m.receivers in (place, record m { receivers = r })

unfoldable pub pipeline : String → Metrics → ℕ × Metrics
pipeline name m =
    let (place, r) = handle no_pipeline name m.pipelines in (place, record m { pipelines = r })

unfoldable pub exporter : String → Metrics → ℕ × Metrics
exporter name m =
    let (place, r) = handle no_exporter name m.exporters in (place, record m { exporters = r })

module _ {A : Type 0} where
  -- The entries of other keys.
  unfoldable pub without : String → List (String × A) → List (String × A)
  without name entries = keep (λ entry. not (entry.0 == name)) entries

  -- A key that came again has replaced the entry that it had.
  unfoldable pub live : List (String × A) → List (String × A)
  unfolding without
  live [] = []
  live ((name, a) ∷ rest) = (name, a) ∷ without name (live rest)

-- `iter().map(|(k, v)| (k.clone(), v.snapshot())).collect()`
unfoldable pub entries_from :
    {M S : Type 0} → (M → S) → List M → List (String × ℕ) → List (String × S)
entries_from show store [] = []
entries_from show store ((name, place) ∷ rest) =
    let others = entries_from show store rest in
    elim (get_elem? store place) [ none ↦ others | some m ↦ (name, show m) ∷ others ]

unfoldable pub entries : {M S : Type 0} → (M → S) → Registry M → List (String × S)
unfolding entries_from live
entries show r = entries_from show r.store (live r.names)

unfoldable pub snapshot : (now : ℕ) → Metrics → MetricsSnapshot
unfolding entries
snapshot now m = record {
  started_at = m.started_at;
  uptime_seconds = seconds_between m.started_at now;
  receivers = entries receiver_snapshot m.receivers;
  pipelines = entries pipeline_snapshot m.pipelines;
  exporters = entries exporter_snapshot m.exporters;
}
