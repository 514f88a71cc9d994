-- ===== src/Database/Analytics.antt =====
-- internal/database/failure_analytics.go and repo_filter.go. The zone of the process
-- is UTC; a rate is 100 times the failures, and what they are divided by, where that is not 0.
pub mod Laws
use live_actions.Base.{
  ℕ, suc, ◌+◌, ◌-◌, ◌*◌, ◌/◌, String, Bool, true, false, not, ◌&&◌, ◌||◌, Option, none, some, List,
  [], ◌∷◌, any, count, filter, map, take, leb, ltb, nat_beq, nat_eq, string_eq, pair_eq, ◌==◌,
  length, if◌then◌else◌,
}
use live_actions.Base.Int.{ℤ, pos, sub_ℕ, add_ℤ}
use live_actions.Base.Table.{Table}
use live_actions.Base.Sort.{sort_by}
use live_actions.Base.Groups.{group_by}
use live_actions.Models.{Time}
use live_actions.Models.Status.{JobStatus, in_progress, queued, completed, status_eq}
use live_actions.Failure.{Result, ok}
use live_actions.Database.{
  Stamp, rfc3339, stamp_lt, JobRow, RunRow, Db, Exec, pure, ◌>>=◌, call, query,
}
use live_actions.Database.Events.{text_lt}
use live_actions.Database.Snapshots.{at, json_first}

pub record FailingJob : Type 0 where
  pub name : String
  pub html_url : String
  pub failures : ℕ
  pub total : ℕ
  pub failure_rate : Option (ℕ × ℕ)

pub record FailureAnalytics : Type 0 where
  pub total_completed : ℕ
  pub total_failed : ℕ
  pub total_cancelled : ℕ
  pub failure_rate : Option (ℕ × ℕ)
  pub top_failing_jobs : List FailingJob

pub record FailureTrendPoint : Type 0 where
  pub timestamp : Time
  pub failures : ℕ
  pub successes : ℕ
  pub cancelled : ℕ

-- The JOIN of jobRepoFilter and the clause of repoWhere.
abbrev pub in_repo : String → Table ℕ RunRow → JobRow → Bool
in_repo repo runs job =
    repo == "" || any (λ ((id, run) : ℕ × RunRow). id == job.run_id && run.repository == repo) runs

-- `column >= cutoff`, which NULL does not satisfy.
abbrev column_ge : Option Stamp → Stamp → Bool
column_ge none cutoff = false
column_ge (some s) cutoff = not (stamp_lt s cutoff)

abbrev completed_since : Stamp → String → Table ℕ RunRow → ℕ × JobRow → Bool
completed_since cutoff repo runs (id, job) =
    status_eq job.status completed && column_ge job.completed_at cutoff && in_repo repo runs job

-- The rows of the WHERE clause.
abbrev pub completed_jobs : Time → String → Db → Table ℕ JobRow
completed_jobs since repo db =
    filter (completed_since (rfc3339 (db.now - since)) repo db.runs) db.jobs

abbrev concluded : String → ℕ × JobRow → Bool
concluded conclusion (id, job) = job.conclusion == conclusion

-- `conclusion IN ('failure','timed_out')`
abbrev pub has_failed : ℕ × JobRow → Bool
has_failed row = concluded "failure" row || concluded "timed_out" row

abbrev pub has_succeeded : ℕ × JobRow → Bool
has_succeeded row = concluded "success" row

abbrev pub was_cancelled : ℕ × JobRow → Bool
was_cancelled row = concluded "cancelled" row

abbrev rate : ℕ → ℕ → Option (ℕ × ℕ)
rate failures total = if ltb 0 total then some (100 * failures, total) else none

abbrev name_of : ℕ × JobRow → String
name_of (id, job) = job.name

abbrev max_text : String → String → String
max_text s t = if text_lt s t then t else s

-- MAX(html_url), the failures, and the jobs of a name.
abbrev plus_job : ℕ × JobRow → Option (String × ℕ × ℕ) → String × ℕ × ℕ
plus_job (id, job) none = (job.html_url, (if has_failed (id, job) then 1 else 0), 1)
plus_job (id, job) (some (url, f, n)) =
    (max_text job.html_url url, (if has_failed (id, job) then suc f else f), suc n)

abbrev fails : String × (String × ℕ × ℕ) → Bool
fails (name, (url, f, n)) = ltb 0 f

abbrev more_failures : String × (String × ℕ × ℕ) → String × (String × ℕ × ℕ) → Bool
more_failures (_, (_, f, _)) (_, (_, g, _)) = leb g f

abbrev failing_job : String × (String × ℕ × ℕ) → FailingJob
failing_job (name, (url, f, n)) = record {
  name = name;
  html_url = url;
  failures = f;
  total = n;
  failure_rate = rate f n;
}

unfoldable pub top_failing : Table ℕ JobRow → List FailingJob
unfolding group_by sort_by
top_failing jobs =
    map failing_job
      (take 10 (sort_by more_failures (filter fails (group_by name_of plus_job jobs))))

abbrev summarise_failures : ℕ → ℕ → ℕ → List FailingJob → FailureAnalytics
summarise_failures total failed cancelled' top = record {
  total_completed = total;
  total_failed = failed;
  total_cancelled = cancelled';
  failure_rate = rate failed total;
  top_failing_jobs = top;
}

-- What the two queries answer together.
abbrev pub summary : Table ℕ JobRow → FailureAnalytics
summary jobs =
    summarise_failures (length jobs) (count has_failed jobs) (count was_cancelled jobs)
      (top_failing jobs)

unfoldable pub get_failure_analytics : Time → String → Exec FailureAnalytics
unfolding stamp_lt status_eq top_failing call
get_failure_analytics since repo = do
  (total, failed, cancelled') ← query "failed to get failure summary" (λ db. (
    length (completed_jobs since repo db),
    count has_failed (completed_jobs since repo db),
    count was_cancelled (completed_jobs since repo db),
  ))
  top ← query "failed to get top failing jobs" (λ db. top_failing (completed_jobs since repo db))
  pure (summarise_failures total failed cancelled' top)

-- `strftime` with the format of the hour or of the day, and the seconds of the text read back.
unfoldable pub bucket_of : Time → Time → Time
bucket_of since t = let size = if ltb 86400 since then 86400 else 3600 in t / size * size

-- The rows of the trend have a time of completion.
abbrev time_of : Option Stamp → Time
time_of none = 0
time_of (some s) = at s

abbrev pub bucket_of_job : Time → ℕ × JobRow → Time
bucket_of_job since (id, job) = bucket_of since (time_of job.completed_at)

abbrev pub Counts : Type 0
Counts = ℕ × ℕ × ℕ

abbrev pub bump : Bool → ℕ → ℕ
bump b n = if b then suc n else n

-- The failures, successes and cancellations of a bucket.
abbrev pub plus_conclusion : ℕ × JobRow → Option Counts → Counts
plus_conclusion row none =
    (bump (has_failed row) 0, bump (has_succeeded row) 0, bump (was_cancelled row) 0)
plus_conclusion row (some (f, s, c)) =
    (bump (has_failed row) f, bump (has_succeeded row) s, bump (was_cancelled row) c)

abbrev pub earlier_bucket : Time × Counts → Time × Counts → Bool
earlier_bucket (a, _) (b, _) = leb a b

abbrev pub trend_point : Time × Counts → FailureTrendPoint
trend_point (t, (f, s, c)) = record { timestamp = t; failures = f; successes = s; cancelled = c }

abbrev pub trend : Time → Table ℕ JobRow → List FailureTrendPoint
trend since jobs =
    map trend_point (sort_by earlier_bucket (group_by (bucket_of_job since) plus_conclusion jobs))

unfoldable pub get_failure_trend : Time → String → Exec (List FailureTrendPoint)
unfolding stamp_lt status_eq group_by sort_by bucket_of call
get_failure_trend since repo =
    query "failed to get failure trend" (λ db. trend since (completed_jobs since repo db))
