-- ===== src/Tests/Api.antt =====
-- The REST API at concrete requests, one update of the metrics, and interrupted migrations.
use live_actions.Base.{
  ◌==◌, string_eq, if◌then◌else◌, String, ℕ, ◌≡◌, refl, ◌↔◌, ◌⊎◌, ◌≢◌, Bool, true, false, Option,
  none, some, List, [], ◌∷◌, map, arith,
}
use mathlib.Core.List.{Perm}
use live_actions.Base.Sort.{Sorted}
use live_actions.Models.{Bytes}
use live_actions.Models.Status.{completed, in_progress, queued}
use live_actions.Failure.{ok}
use live_actions.Metrics.{new_registry}
use live_actions.Database.{rfc3339, RunRow, Db}
use live_actions.Database.Jobs.{job_row}
use live_actions.Database.Queries.{newer_run, matching, scan_run_row}
use live_actions.Database.Migrations.{Entry, run_migrations, migrations}
use live_actions.Database.Migrations.Apply.{Above, Prefixed, complete}
use live_actions.Database.Migrations.Laws.{starts_with, empty_schema, run_migrations-resumes}
use live_actions.Database.Analytics.{
  FailureAnalytics, FailureTrendPoint, get_failure_analytics, get_failure_trend,
}
use live_actions.Database.Analytics.Laws.{Agrees, get_failure_trend-Agrees}
use live_actions.Base.Text.{codes}
use live_actions.Middleware.Sanitize.{sanitize_error_message}
use live_actions.Server.{wait, is_shutting_down}
use live_actions.Base.Int.{pos, negsuc}
use live_actions.Config.{read_vars}
use live_actions.Config.Durations.{get_data_retention_duration}
use live_actions.Api.Pages.{follow, follow-rows_all}
use live_actions.Api.Origin.{
  Url, ApiRequest, pass, https, split_host, validate_origin, validate_sse_origin,
}
use live_actions.Api.Origin.Laws.{FromUi, validate_origin_iff, validate_sse_origin-same}
use live_actions.MetricsUpdate.{Shows, update_metrics, update_metrics-Shows}
use live_actions.Tests.Samples.{empty_db, job_at}

abbrev run_made : ℕ → RunRow
run_made t = record {
  name = "ci";
  status = completed;
  repository = "live-actions";
  html_url = "";
  display_title = "";
  conclusion = "success";
  created_at = rfc3339 t;
  run_started_at = none;
  updated_at = none;
}

abbrev three_runs : Db
three_runs = record empty_db { runs = (1, run_made 10) ∷ (2, run_made 30) ∷ (3, run_made 20) ∷ [] }

follow-rows_all_example :
    (rows : List (ℕ × RunRow)) × Perm rows (matching "" "completed" three_runs)
    × Sorted newer_run rows
    × (follow 4 1 2 "" "completed" three_runs ≡ some (map scan_run_row rows))
follow-rows_all_example =
    follow-rows_all 2 "" "completed" three_runs refl (omega arith) (omega arith)

-- "ui.dev" over HTTPS, and the bytes of any other text as its host.
abbrev ui : Bytes
ui = b'u' ∷ b'i' ∷ b'.' ∷ b'd' ∷ b'e' ∷ b'v' ∷ []

abbrev token : Bytes
token = b't' ∷ []

abbrev parse_https : Bytes → Option Url
parse_https text = some (record { scheme = https; host = text })

abbrev ui_request : ApiRequest
ui_request = record {
  origin = ui;
  referer = ui;
  host = ui;
  csrf_cookie = some token;
  csrf_header = token;
}

abbrev ui_url : Url
ui_url = record { scheme = https; host = ui }

not_nil : (b : ℕ) (bs : Bytes) → (b ∷ bs) ≢ []
not_nil b bs h = cc

validate_sse_origin-same_example :
    (validate_sse_origin parse_https ui_request ≡ pass)
    ↔ (((name : Bytes) × (split_host ui ≡ some name)) ⊎ (https ≢ https))
validate_sse_origin-same_example =
    validate_sse_origin-same parse_https ui_request ui_url
      (not_nil b'u' (b'i' ∷ b'.' ∷ b'd' ∷ b'e' ∷ b'v' ∷ [])) refl refl
      (not_nil b'u' (b'i' ∷ b'.' ∷ b'd' ∷ b'e' ∷ b'v' ∷ []))

ui_is_portless : split_host ui ≡ none
unfolding split_host
ui_is_portless = refl

validate_origin_iff_example :
    (validate_origin parse_https ui_request ≡ pass)
    ↔ ((url : Url) × (t : Bytes) × FromUi parse_https ui_request url t)
validate_origin_iff_example = validate_origin_iff parse_https ui_request

ui_passes : validate_origin parse_https ui_request ≡ pass
unfolding validate_origin
ui_passes = refl

abbrev two_jobs : Db
two_jobs = record empty_db {
  jobs = (7, job_row 5 (job_at in_progress)) ∷ (8, job_row 5 (job_at queued)) ∷ [];
}

update_metrics-Shows_example : Shows two_jobs (update_metrics (new_registry, two_jobs))
update_metrics-Shows_example = update_metrics-Shows new_registry two_jobs refl

abbrev entries : List Entry
entries =
    record { name = "000002_add_missing_indexes.up.sql"; is_dir = false }
    ∷ record { name = "000001_create_initial_schema.down.sql"; is_dir = false }
    ∷ record { name = "000001_create_initial_schema.up.sql"; is_dir = false }
    ∷ []

-- The commit of the second script fails at the first start.
abbrev interrupted : List (List Bool)
interrupted =
    (false ∷ false ∷ false ∷ false ∷ false ∷ false ∷ false ∷ false ∷ false ∷ true ∷ []) ∷ []

two_files : map (λ m. m.version) (migrations entries) ≡ 1 ∷ 2 ∷ []
unfolding migrations
two_files = refl

one_applied : (starts_with entries interrupted empty_schema).versions ≡ 1 ∷ []
unfolding starts_with run_migrations
one_applied = refl

ascending : Above 0 (migrations entries)
unfolding migrations
ascending = (omega arith, (omega arith, tt))

run_migrations-resumes_example :
    Prefixed (migrations entries) (starts_with entries interrupted empty_schema)
    × (run_migrations entries
          (record (starts_with entries interrupted empty_schema) { faults = [] })
        ≡ (ok tt, complete (migrations entries)))
run_migrations-resumes_example = run_migrations-resumes entries interrupted ascending

-- A job that has failed, which the store has kept.
abbrev failed_job : Db
failed_job = record empty_db {
  jobs =
      (
        7,
        record (job_row 5 (job_at completed)) {
          conclusion = "failure";
          completed_at = some (rfc3339 99000);
        },
      )
      ∷ [];
}

get_failure_trend-Agrees_example :
    (s : FailureAnalytics) × (points : List FailureTrendPoint) × (get_failure_analytics 3600 ""
        failed_job
      ≡ (ok s, failed_job))
    × (get_failure_trend 3600 "" failed_job ≡ (ok points, failed_job))
    × Agrees s points
get_failure_trend-Agrees_example = get_failure_trend-Agrees 3600 "" failed_job refl

one_failure : get_failure_trend 3600 "" failed_job ≡ (
  ok (record { timestamp = 97200; failures = 1; successes = 0; cancelled = 0 } ∷ []),
  failed_job,
)
unfolding get_failure_trend job_row
one_failure = refl

abbrev renamed : List (String × String)
renamed = ("postgres", "database") ∷ ("database", "storage") ∷ []

abbrev renamed_back : List (String × String)
renamed_back = ("database", "storage") ∷ ("postgres", "database") ∷ []

-- The order of the patterns shows.
storage_is_said :
    sanitize_error_message renamed (codes "Postgres is down") ≡ codes "storage is down"
unfolding sanitize_error_message
storage_is_said = refl

database_is_said :
    sanitize_error_message renamed_back (codes "Postgres is down") ≡ codes "database is down"
unfolding sanitize_error_message
database_is_said = refl

-- After a question, nothing is left to wait for.
waits_for_ever : wait (is_shutting_down (record { shutdown = true })).1 ≡ none
unfolding wait is_shutting_down
waits_for_ever = refl

abbrev set_to : String → String → String → String
set_to key value k = if k == key then value else ""

month : get_data_retention_duration (read_vars (set_to "" "")) ≡ pos 2592000000000000
unfolding get_data_retention_duration read_vars
month = refl

-- 106752 days are more nanoseconds than an int64 has.
wraps_around :
    get_data_retention_duration (read_vars (set_to "DATA_RETENTION_DAYS" "106752"))
    ≡ negsuc 9223371273709551615
unfolding get_data_retention_duration read_vars
wraps_around = refl
