-- ===== src/Metrics/Collectors.antt =====
-- pkg/metrics/metrics.go and pkg/metrics/global.go: the collectors that NewRegistry registers, those
-- that SetupAndRun adds, and GetRegistry. Prometheus' registerer is a parameter.
use live_actions.Base.{ℕ, zero, suc, ◌*◌, String, Option, none, some, List, [], ◌∷◌}
use live_actions.Metrics.{Registry, new_registry}

pub data Kind : Type 0 where
  gauge counter : Kind
  -- The upper bounds of the buckets, in thousandths.
  histogram : List ℕ → Kind
  -- A gauge that a closure gives at each scrape.
  gauge_func : Kind
  -- The statistics of a pool of connections.
  db_stats : Kind

pub record Collector : Type 0 where
  pub name : String
  pub kind : Kind
  pub labels : List String

abbrev collector : String → Kind → List String → Collector
collector name kind labels = record { name = name; kind = kind; labels = labels }

-- `prometheus.ExponentialBuckets`
unfoldable pub exponential_buckets : ℕ → ℕ → ℕ → List ℕ
exponential_buckets start factor zero = []
exponential_buckets start factor (suc count) =
    start ∷ exponential_buckets (start * factor) factor count

abbrev queue_buckets : List ℕ
queue_buckets =
    1000 ∷ 5000 ∷ 10000 ∷ 30000 ∷ 60000 ∷ 120000 ∷ 300000 ∷ 600000 ∷ 1200000 ∷ 1800000 ∷ 3600000
    ∷ []

unfoldable pub collectors : List Collector
unfolding exponential_buckets
collectors =
    collector "github_runners_jobs" gauge ("job_status" ∷ [])
    ∷ collector "github_runners_jobs_by_label" gauge ("label" ∷ "job_status" ∷ [])
    ∷ collector "github_runners_queue_duration_seconds" (histogram queue_buckets) ("label" ∷ [])
    ∷ collector "github_runners_job_conclusions_total" counter ("conclusion" ∷ [])
    ∷ collector "live_actions_webhook_events_total" counter ("event_type" ∷ "outcome" ∷ [])
    ∷ collector "live_actions_ingest_queue_capacity" gauge []
    ∷ collector "live_actions_flush_batch_duration_seconds" (histogram (exponential_buckets 1 2 12))
        []
    ∷ collector "live_actions_flush_batch_events" (histogram (exponential_buckets 1000 2 14)) []
    ∷ collector "live_actions_sse_events_broadcast_total" counter ("type" ∷ [])
    ∷ collector "live_actions_sse_events_dropped_total" counter ("type" ∷ [])
    ∷ []

-- `register` is prometheus.Register; `none` is its error.
module _ {R : Type 0} (register : Collector → R → Option R) where
  abbrev and_register : (R → Option R) → Option R → Option R
  and_register f none = none
  and_register f (some r) = f r

  -- `prometheus.MustRegister`; `none` is its panic.
  unfoldable pub must_register : List Collector → R → Option R
  must_register [] r = some r
  must_register (c ∷ cs) r = and_register (must_register cs) (register c r)

  abbrev with_registry : Option R → Option (Registry × R)
  with_registry none = none
  with_registry (some r) = some (new_registry, r)

  unfoldable pub new_registered : R → Option (Registry × R)
  unfolding collectors must_register
  new_registered r = with_registry (must_register collectors r)

  -- GetRegistry: the registry is made on the first call.
  unfoldable pub get_registry : Option Registry → R → Option (Registry × R)
  unfolding new_registered
  get_registry none r = new_registered r
  get_registry (some known) r = some (known, r)

  -- The error of a second registration is dropped.
  abbrev quietly : Collector → R → R
  quietly c r = elim (register c r) [ none ↦ r | some r' ↦ r' ]

  unfoldable pub register_ingest_queue_depth : R → R
  register_ingest_queue_depth = quietly (collector "live_actions_ingest_queue_depth" gauge_func [])

  unfoldable pub register_sse_subscribers : R → R
  register_sse_subscribers = quietly (collector "live_actions_sse_subscribers" gauge_func [])

  unfoldable pub register_db_stats : String → R → R
  register_db_stats pool = quietly (collector pool db_stats [])
