-- ===== src/Metrics.antt =====
-- pkg/metrics/metrics.go: the registry. A counter or histogram is the log of its observations, the
-- newest first; a gauge is its last value. The two gauges of a label are set together.
pub mod Collectors
use live_actions.Base.{ℕ, String, List, [], ◌∷◌, count, ◌==◌, string_eq}
use live_actions.Base.Int.{ℤ}
use live_actions.Base.Table.{Table, upsert}

pub record Registry : Type 0 where
  pub current_jobs : Table String ℕ
  pub jobs_by_label : Table String (ℕ × ℕ)
  pub queue_duration_seconds : List (String × ℤ)
  pub job_conclusions_total : List String
  pub webhook_events_total : List (String × String)
  pub sse_events_broadcast_total : List String
  pub sse_events_dropped_total : List String

abbrev pub new_registry : Registry
new_registry = record {
  current_jobs = [];
  jobs_by_label = [];
  queue_duration_seconds = [];
  job_conclusions_total = [];
  webhook_events_total = [];
  sse_events_broadcast_total = [];
  sse_events_dropped_total = [];
}

abbrev pub record_queue_duration : String → ℤ → Registry → Registry
record_queue_duration label seconds r = record r {
  queue_duration_seconds = (label, seconds) ∷ r.queue_duration_seconds;
}

abbrev pub record_job_conclusion : String → Registry → Registry
record_job_conclusion conclusion r = record r {
  job_conclusions_total = conclusion ∷ r.job_conclusions_total;
}

unfoldable pub update_current_job_counts : ℕ → ℕ → Registry → Registry
unfolding upsert
update_current_job_counts running queued r = record r {
  current_jobs = upsert "queued" queued (upsert "in_progress" running r.current_jobs);
}

unfoldable pub update_jobs_by_label : String → ℕ → ℕ → Registry → Registry
unfolding upsert
update_jobs_by_label label running queued r = record r {
  jobs_by_label = upsert label (running, queued) r.jobs_by_label;
}

abbrev pub reset_jobs_by_label : Registry → Registry
reset_jobs_by_label r = record r { jobs_by_label = [] }

-- `WebhookEventsTotal.WithLabelValues(event_type, outcome).Inc()`
abbrev pub count_webhook_event : String → String → Registry → Registry
count_webhook_event event_type outcome r = record r {
  webhook_events_total = (event_type, outcome) ∷ r.webhook_events_total;
}

-- The value of the counters for one outcome, over all event types.
abbrev pub outcome_total : String → Registry → ℕ
outcome_total outcome r =
    count (λ ((event_type, o) : String × String). o == outcome) r.webhook_events_total

abbrev pub count_broadcast : String → Registry → Registry
count_broadcast kind r = record r {
  sse_events_broadcast_total = kind ∷ r.sse_events_broadcast_total;
}

abbrev pub count_dropped : String → Registry → Registry
count_dropped kind r = record r { sse_events_dropped_total = kind ∷ r.sse_events_dropped_total }
