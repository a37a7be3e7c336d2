-- ===== src/Metrics.antt =====
-- The counters of crates/sg-core/src/metrics.rs. A counter is its value, of 64 bits; a handle is
-- the place of what it shares in a store, as an `Arc` is.
pub mod Totals
pub mod Handles
pub mod Snapshots
use securitygingercia.Prelude.{
  ℕ, ◌+◌, ◌%◌, ◌^◌, String, Option, none, some, List, [], ◌∷◌, ◌==◌, if◌then◌else◌, length,
  get_elem?, set, ◌++◌,
}

abbrev pub word : ℕ
word = 18446744073709551616

-- `fetch_add`, which wraps around.
unfoldable pub add : ℕ → ℕ → ℕ
add n counter = (counter + n) % word

abbrev pub inc : ℕ → ℕ
inc counter = add 1 counter

-- Times are those of the clock, in nanoseconds.
pub record LastError : Type 0 where
  pub message : String
  pub at : ℕ

pub record ReceiverMetrics : Type 0 where
  pub events_in : ℕ

pub record PipelineMetrics : Type 0 where
  pub events_in : ℕ
  pub events_out : ℕ
  pub events_dropped : ℕ
  pub events_dead_lettered : ℕ
  pub parse_errors : ℕ

pub record ExporterMetrics : Type 0 where
  pub events_in : ℕ
  pub batches_sent : ℕ
  pub batches_failed : ℕ
  pub retries : ℕ
  pub last_error : Option LastError

abbrev pub no_receiver : ReceiverMetrics
no_receiver = record { events_in = 0 }

abbrev pub no_pipeline : PipelineMetrics
no_pipeline = record {
  events_in = 0;
  events_out = 0;
  events_dropped = 0;
  events_dead_lettered = 0;
  parse_errors = 0;
}

abbrev pub no_exporter : ExporterMetrics
no_exporter = record {
  events_in = 0;
  batches_sent = 0;
  batches_failed = 0;
  retries = 0;
  last_error = none;
}

unfoldable pub record_retry : ExporterMetrics → ExporterMetrics
unfolding add
record_retry m = record m { retries = inc m.retries }

unfoldable pub record_success : ℕ → ExporterMetrics → ExporterMetrics
unfolding add
record_success batch_len m = record m {
  events_in = add batch_len m.events_in;
  batches_sent = inc m.batches_sent;
}

unfoldable pub record_failure : ℕ → String → ℕ → ExporterMetrics → ExporterMetrics
unfolding add
record_failure batch_len message now m = record m {
  events_in = add batch_len m.events_in;
  batches_failed = inc m.batches_failed;
  last_error = some (record { message = message; at = now });
}

-- A `HashMap<String, Arc<M>>` over a store of `M`: the names, and the place of each.
pub record Registry (M : Type 0) : Type 0 where
  pub names : List (String × ℕ)
  pub store : List M

-- `.get(name)` of a `HashMap`, as a list of its entries.
unfoldable pub lookup : {A : Type 0} → String → List (String × A) → Option A
lookup name [] = none
lookup name ((key, place) ∷ rest) =
    let found = lookup name rest in if key == name then some place else found

module _ {M : Type 0} where
  -- `collect` into a map: a name that comes again takes a new handle.
  unfoldable pub register : (fresh : M) → List String → Registry M → Registry M
  register fresh [] r = r
  register fresh (name ∷ names) r =
      register fresh names
        (record { names = (name, length r.store) ∷ r.names; store = r.store ++ fresh ∷ [] })

  -- `.get(name).cloned().unwrap_or_default()`: a name that is not there has a handle of its own.
  unfoldable pub handle : (fresh : M) → String → Registry M → ℕ × Registry M
  unfolding lookup
  handle fresh name r = elim (lookup name r.names) [
    | some place ↦ (place, r)
    | none ↦ (length r.store, record r { store = r.store ++ fresh ∷ [] })
  ]

  -- A change through a handle.
  unfoldable pub through : ℕ → (M → M) → Registry M → Registry M
  through place f r = elim (get_elem? r.store place) [
    | none ↦ r
    | some m ↦ record r { store = set r.store place (f m) }
  ]

  -- What a snapshot has under a name.
  unfoldable pub snapshot : String → Registry M → Option M
  unfolding lookup
  snapshot name r = elim (lookup name r.names) [
    | none ↦ none
    | some place ↦ get_elem? r.store place
  ]
