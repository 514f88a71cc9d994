-- ===== src/Api/Analytics.antt =====
-- handlers/api.go: GetCurrentMetrics, GetFailureAnalytics, GetLabelDemand and GetCSRFToken.
use live_actions.Base.{ℕ, ◌*◌, String, Bool, ◌||◌, Option, none, some, List, map}
use live_actions.Models.{Time, MetricsSnapshot}
use live_actions.Failure.{Result, ok, err}
use live_actions.Database.{Db}
use live_actions.Database.Snapshots.{get_metrics_history}
use live_actions.Database.Summary.{MetricsSummary, get_metrics_summary}
use live_actions.Database.Analytics.{
  FailureAnalytics, FailureTrendPoint, get_failure_analytics, get_failure_trend,
}
use live_actions.Database.LabelDemand.{
  LabelDemandSummary, LabelDemandTrendPoint, get_label_demand_summary, get_label_demand_trend,
}
use live_actions.Webhook.Encoding.{decimal}
use live_actions.Api.{Reply, json, error, default_query, period_to_duration}

-- The values of a series of the result type "matrix", under its `job_status`.
pub record TimeSeries : Type 0 where
  pub job_status : String
  pub values : List (Time × String)

pub record MetricsResponse : Type 0 where
  pub current_metrics : MetricsSummary
  pub running_jobs : TimeSeries
  pub queued_jobs : TimeSeries

abbrev running_value : MetricsSnapshot → Time × String
running_value s = (s.timestamp, decimal s.running)

abbrev queued_value : MetricsSnapshot → Time × String
queued_value s = (s.timestamp, decimal s.queued)

abbrev metrics_response : MetricsSummary → List MetricsSnapshot → MetricsResponse
metrics_response summary snapshots = record {
  current_metrics = summary;
  running_jobs = record { job_status = "running"; values = map running_value snapshots };
  queued_jobs = record { job_status = "queued"; values = map queued_value snapshots };
}

module _ {A B : Type 0} (failure_a failure_b : String) where
  abbrev second_reply : A → Result B × Db → Reply (A × B) × Db
  second_reply a (err e, db) = (error 500 failure_b, db)
  second_reply a (ok b, db) = (json (a, b), db)

  -- The two queries of a handler, each with the answer to its failure.
  abbrev both : Result A × Db → (Db → Result B × Db) → Reply (A × B) × Db
  both (err e, db) next = (error 500 failure_a, db)
  both (ok a, db) next = second_reply a (next db)

abbrev pub period_of : Option String → Time
period_of period = period_to_duration (default_query "day" period)

abbrev shown : Reply (MetricsSummary × List MetricsSnapshot) × Db → Reply MetricsResponse × Db
shown (error status message, db) = (error status message, db)
shown (json (summary, snapshots), db) = (json (metrics_response summary snapshots), db)

unfoldable pub get_current_metrics : Option String → Db → Reply MetricsResponse × Db
unfolding get_metrics_summary get_metrics_history decimal period_to_duration
get_current_metrics period db = shown (
    both "Failed to retrieve metrics" "Failed to retrieve metrics"
      (get_metrics_summary (period_of period) db) (get_metrics_history (period_of period)))

unfoldable pub failure_analytics :
    Option String → String → Db → Reply (FailureAnalytics × List FailureTrendPoint) × Db
unfolding get_failure_analytics get_failure_trend period_to_duration
failure_analytics period repo db =
    both "Failed to retrieve failure analytics" "Failed to retrieve failure trend"
      (get_failure_analytics (period_of period) repo db) (get_failure_trend (period_of period) repo)

unfoldable pub label_demand :
    Option String → String → Db → Reply (List LabelDemandSummary × List LabelDemandTrendPoint) × Db
unfolding get_label_demand_summary get_label_demand_trend period_to_duration
label_demand period repo db =
    both "Failed to retrieve label demand" "Failed to retrieve label demand trend"
      (get_label_demand_summary (period_of period) repo db)
      (get_label_demand_trend (period_of period) repo)

-- The cookie, with SameSite strict, the path "/" and for the HTTP only.
pub record Cookie : Type 0 where
  pub name : String
  pub value : String
  pub max_age : ℕ
  pub secure : Bool

-- `generated` is what GenerateCSRFToken gives; `none` is its error.
unfoldable pub get_csrf_token : Bool → Bool → Option String → Reply String × Option Cookie
get_csrf_token is_https is_production none = (error 500 "Failed to generate security token", none)
get_csrf_token is_https is_production (some token) = (
  json token,
  some (record {
    name = "csrf_token";
    value = token;
    max_age = 12 * 3600;
    secure = is_https || is_production;
  }),
)
