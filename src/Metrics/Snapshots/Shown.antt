-- ===== src/Metrics/Snapshots/Shown.antt =====
-- What a whole snapshot shows of the metrics (crates/sg-core/src/metrics.rs).
use mathlib.Core.Option
use securitygingercia.Prelude.{
  ℕ, ◌+◌, ◌-◌, ◌*◌, ◌/◌, ◌≤◌, ◌<◌, String, Option, none, some, List, ◌≡◌, refl, sym, subst, arith,
  leb, Bool-cases, inl, inr, ◌⊎◌,
}
use securitygingercia.Metrics.{
  ReceiverMetrics, PipelineMetrics, ExporterMetrics, lookup, snapshot as shown, no_receiver,
  no_pipeline, no_exporter,
}
use securitygingercia.Metrics.Snapshots.{
  minus, Metrics, MetricsSnapshot, ReceiverSnapshot, PipelineSnapshot, ExporterSnapshot, ℤ,
  seconds_between, snapshot, receiver_snapshot, pipeline_snapshot, exporter_snapshot, new, empty,
}
use securitygingercia.Metrics.Snapshots.Entries.{AreStored, lookup-entries, register-AreStored}

-- The counters of a receiver, or no receiver.
abbrev pub ShowsReceiver : Option ReceiverMetrics → Option ReceiverSnapshot → Type 0
ShowsReceiver none none = Unit
ShowsReceiver (some m) (some s) = s.events_in ≡ m.events_in
ShowsReceiver _ _ = ⊥

abbrev pub ShowsPipeline : Option PipelineMetrics → Option PipelineSnapshot → Type 0
ShowsPipeline none none = Unit
ShowsPipeline (some m) (some s) =
    (s.events_in ≡ m.events_in)
    × (s.events_out ≡ m.events_out)
    × (s.events_dropped ≡ m.events_dropped)
    × (s.events_dead_lettered ≡ m.events_dead_lettered)
    × (s.parse_errors ≡ m.parse_errors)
ShowsPipeline _ _ = ⊥

abbrev pub ShowsExporter : Option ExporterMetrics → Option ExporterSnapshot → Type 0
ShowsExporter none none = Unit
ShowsExporter (some m) (some s) =
    (s.events_in ≡ m.events_in)
    × (s.batches_sent ≡ m.batches_sent)
    × (s.batches_failed ≡ m.batches_failed)
    × (s.retries ≡ m.retries)
    × (s.last_error ≡ m.last_error)
ShowsExporter _ _ = ⊥

-- The whole seconds from one time to another, in nanoseconds: rounded towards zero, and negative
-- where the clock has been set back.
abbrev pub AreSeconds : ℕ → ℕ → ℤ → Type 0
AreSeconds before after (ℤ.pos n) =
    ((before ≤ after) × (before + n * 1000000000 ≤ after) × (after < before + (n + 1) * 1000000000))
    ⊎ ((after < before) × (n ≡ 0) × (before < after + 1000000000))
AreSeconds before after (ℤ.negsuc n) =
    (after + (n + 1) * 1000000000 ≤ before) × (before < after + (n + 2) * 1000000000)

forth :
    (before after : ℕ)
    → before ≤ after
    → (before ≤ after)
      × (before + (after - before) / 1000000000 * 1000000000 ≤ after)
      × (after < before + ((after - before) / 1000000000 + 1) * 1000000000)
forth before after h = (h, omega arith, omega arith)

back :
    (before after n : ℕ)
    → after < before
    → after + n * 1000000000 ≤ before
    → before < after + (n + 1) * 1000000000
    → AreSeconds before after (minus n)
back before after n h l r = elim (Bool-cases (leb n 0)) [
  | inl e ↦ rw e (inr (h, refl, ground arith))
  | inr e ↦ rw e (ground arith, ground arith)
]

seconds_between-AreSeconds :
    (before after : ℕ) → AreSeconds before after (seconds_between before after)
unfolding seconds_between
seconds_between-AreSeconds before after = elim (Bool-cases (leb before after)) [
  | inl e ↦ rw (e, seconds_between) (inl (forth before after (ground arith)))
  | inr e ↦
      rw (e, seconds_between)
        (back before after ((before - after) / 1000000000) (ground arith) (ground arith)
          (ground arith))
]

receiver_shown : (m : Option ReceiverMetrics) → ShowsReceiver m (Option.map receiver_snapshot m)
receiver_shown none = tt
receiver_shown (some m) = refl

pipeline_shown : (m : Option PipelineMetrics) → ShowsPipeline m (Option.map pipeline_snapshot m)
pipeline_shown none = tt
pipeline_shown (some m) = (refl, refl, refl, refl, refl)

exporter_shown : (m : Option ExporterMetrics) → ShowsExporter m (Option.map exporter_snapshot m)
exporter_shown none = tt
exporter_shown (some m) = (refl, refl, refl, refl, refl)

-- Every place that is registered is in its store.
abbrev pub IsStored : Metrics → Type 0
IsStored m = AreStored m.receivers × AreStored m.pipelines × AreStored m.exporters

-- The metrics that are made of names are stored.
pub new-IsStored :
    (receivers pipelines exporters : List String) (now : ℕ)
    → IsStored (new receivers pipelines exporters now)
unfolding new
new-IsStored receivers pipelines exporters now = (
  register-AreStored no_receiver receivers empty tt,
  register-AreStored no_pipeline pipelines empty tt,
  register-AreStored no_exporter exporters empty tt,
)

-- The times, and under a name the counters of the receiver, the pipeline and the exporter.
abbrev pub IsShown : ℕ → Metrics → MetricsSnapshot → Type 0
IsShown now m s =
    (s.started_at ≡ m.started_at)
    × AreSeconds m.started_at now s.uptime_seconds
    × ((name : String) → ShowsReceiver (shown name m.receivers) (lookup name s.receivers))
    × ((name : String) → ShowsPipeline (shown name m.pipelines) (lookup name s.pipelines))
    × ((name : String) → ShowsExporter (shown name m.exporters) (lookup name s.exporters))

-- Where every place that is registered is in its store, a snapshot has the time of the start, the
-- whole seconds since then, rounded towards zero and negative where the clock was set back, and
-- under each name exactly the counters and the last error that the receiver, the pipeline or the
-- exporter of that name then has, and nothing under a name that is not registered.
pub snapshot-IsShown : (now : ℕ) (m : Metrics) → IsStored m → IsShown now m (snapshot now m)
unfolding snapshot
snapshot-IsShown now m h = (
  refl,
  seconds_between-AreSeconds m.started_at now,
  λ name.
      subst (ShowsReceiver (shown name m.receivers))
        (sym (lookup-entries receiver_snapshot name m.receivers h.0))
        (receiver_shown (shown name m.receivers)),
  λ name.
      subst (ShowsPipeline (shown name m.pipelines))
        (sym (lookup-entries pipeline_snapshot name m.pipelines h.1))
        (pipeline_shown (shown name m.pipelines)),
  λ name.
      subst (ShowsExporter (shown name m.exporters))
        (sym (lookup-entries exporter_snapshot name m.exporters h.2))
        (exporter_shown (shown name m.exporters)),
)
