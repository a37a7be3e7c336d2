-- ===== src/Metrics/Totals.antt =====
-- What an exporter's counters add up to (crates/sg-core/src/metrics.rs).
use securitygingercia.Prelude.{
  none, ℕ, suc, ◌+◌, ◌%◌, String, Option, some, List, [], ◌∷◌, ◌≡◌, refl, arith,
}
use securitygingercia.Metrics.{
  no_exporter, LastError, ExporterMetrics, record_retry, record_success, record_failure, add, word,
}

-- What a batch comes to.
pub data Batch : Type 0 where
  sent : (batch_len : ℕ) → Batch
  failed : (batch_len : ℕ) → (message : String) → (at : ℕ) → Batch
  retried : Batch

unfoldable pub note : Batch → ExporterMetrics → ExporterMetrics
note (sent n) m = record_success n m
note (failed n message at) m = record_failure n message at m
note retried m = record_retry m

unfoldable pub note_all : List Batch → ExporterMetrics → ExporterMetrics
unfolding note
note_all [] m = m
note_all (b ∷ bs) m = note_all bs (note b m)

unfoldable pub events : List Batch → ℕ
events [] = 0
events (sent n ∷ bs) = n + events bs
events (failed n message at ∷ bs) = n + events bs
events (retried ∷ bs) = events bs

unfoldable pub sends : List Batch → ℕ
sends [] = 0
sends (sent n ∷ bs) = suc (sends bs)
sends (b ∷ bs) = sends bs

unfoldable pub failures : List Batch → ℕ
failures [] = 0
failures (failed n message at ∷ bs) = suc (failures bs)
failures (b ∷ bs) = failures bs

unfoldable pub retries_of : List Batch → ℕ
retries_of [] = 0
retries_of (retried ∷ bs) = suc (retries_of bs)
retries_of (b ∷ bs) = retries_of bs

-- The error that is kept: the last one, or else the one that was there.
unfoldable pub latest : Option LastError → List Batch → Option LastError
latest e [] = e
latest e (failed n message at ∷ bs) = latest (some (record { message = message; at = at })) bs
latest e (b ∷ bs) = latest e bs

-- A counter that stands at a total stands, after an addition, at the larger one.
add_lem : (c a n : ℕ) → c ≡ a % word → add n c ≡ (a + n) % word
unfolding add
add_lem c a n e = omega (arith, e)

-- The counters stand at these totals.
abbrev Stands : ExporterMetrics → ℕ → ℕ → ℕ → ℕ → Type 0
Stands m e s f r =
    (m.events_in ≡ e % word)
    × (m.batches_sent ≡ s % word)
    × (m.batches_failed ≡ f % word)
    × (m.retries ≡ r % word)

note_all-Stands :
    (bs : List Batch) (m : ExporterMetrics) (e s f r : ℕ)
    → Stands m e s f r
    → Stands (note_all bs m) (e + events bs) (s + sends bs) (f + failures bs) (r + retries_of bs)
unfolding note_all note events sends failures retries_of record_success record_failure record_retry
note_all-Stands [] m e s f r (he, hs, hf, hr) =
    (omega (arith, he), omega (arith, hs), omega (arith, hf), omega (arith, hr))
note_all-Stands (sent n ∷ bs) m e s f r (he, hs, hf, hr) =
    let (ge, gs, gf, gr) =
      note_all-Stands bs (record_success n m) (e + n) (s + 1) f r
        (add_lem m.events_in e n he, add_lem m.batches_sent s 1 hs, hf, hr) in
    (omega (arith, ge), omega (arith, gs), gf, gr)
note_all-Stands (failed n message at ∷ bs) m e s f r (he, hs, hf, hr) =
    let (ge, gs, gf, gr) =
      note_all-Stands bs (record_failure n message at m) (e + n) s (f + 1) r
        (add_lem m.events_in e n he, hs, add_lem m.batches_failed f 1 hf, hr) in
    (omega (arith, ge), gs, omega (arith, gf), gr)
note_all-Stands (retried ∷ bs) m e s f r (he, hs, hf, hr) =
    let (ge, gs, gf, gr) =
      note_all-Stands bs (record_retry m) e s f (r + 1) (he, hs, hf, add_lem m.retries r 1 hr) in
    (ge, gs, gf, omega (arith, gr))

note_all-latest :
    (bs : List Batch) (m : ExporterMetrics) → (note_all bs m).last_error ≡ latest m.last_error bs
unfolding note_all note latest record_success record_failure record_retry
note_all-latest [] m = refl
note_all-latest (sent n ∷ bs) m = note_all-latest bs (record_success n m)
note_all-latest (failed n message at ∷ bs) m = note_all-latest bs (record_failure n message at m)
note_all-latest (retried ∷ bs) m = note_all-latest bs (record_retry m)

-- After any sends, failures and retries, the counters of a new exporter are the numbers of the
-- events, of the batches sent, of those that failed and of the retries, modulo 2 ^ 64, and its
-- error is that of the last failure.
pub note_all-no_exporter :
    (bs : List Batch)
    → ((note_all bs no_exporter).events_in ≡ events bs % word)
      × ((note_all bs no_exporter).batches_sent ≡ sends bs % word)
      × ((note_all bs no_exporter).batches_failed ≡ failures bs % word)
      × ((note_all bs no_exporter).retries ≡ retries_of bs % word)
      × ((note_all bs no_exporter).last_error ≡ latest none bs)
note_all-no_exporter bs =
    let (e, s, f, r) = note_all-Stands bs no_exporter 0 0 0 0 (refl, refl, refl, refl) in
    (
      omega (arith, e),
      omega (arith, s),
      omega (arith, f),
      omega (arith, r),
      note_all-latest bs no_exporter,
    )
