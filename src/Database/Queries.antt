-- ===== src/Database/Queries.antt =====
-- internal/database/workflow.go: the reads behind the lists of the dashboard.
pub mod Pages
use live_actions.Base.{
  ℕ, zero, suc, ◌+◌, ◌-◌, ◌*◌, ◌%◌, ◌^◌, String, Bool, true, false, not, ◌&&◌, ◌||◌, Option, none,
  some, List, [], ◌∷◌, map, filter, count, any, take, drop, ltb, ◌==◌, nat_eq, string_eq,
  if◌then◌else◌,
}
use live_actions.Base.Table.{Table}
use live_actions.Base.Sort.{sort_by}
use live_actions.Models.{WorkflowJob, WorkflowRun}
use live_actions.Models.Status.{JobStatus, status_text}
use live_actions.Failure.{Result, ok, err}
use live_actions.Database.{
  Stamp, stamp_lt, JobRow, RunRow, Db, Exec, pure, ◌>>=◌, query, reads, call,
}
use live_actions.Database.Jobs.{scan_job}
use live_actions.Database.Runs.{scan_run}
use live_actions.Database.Events.{text_lt}

-- `EXISTS (SELECT 1 FROM workflow_jobs WHERE run_id = id AND status = ?)`
abbrev has_job : ℕ → String → Table ℕ JobRow → Bool
has_job id status jobs =
    any (λ ((j, job) : ℕ × JobRow). job.run_id == id && status_text job.status == status) jobs

-- The `switch` on the status; an unknown one filters nothing.
abbrev status_matches : String → Table ℕ JobRow → ℕ × RunRow → Bool
status_matches status jobs (id, run) =
    if status == "requested" || status == "in_progress" || status == "completed"
    then status_text run.status == status
    else (if status == "success"
          || status == "failure"
          || status == "cancelled"
          || status == "action_required"
        then run.conclusion == status
        else (if status == "queued" || status == "stale" then has_job id status jobs else true))

-- The WHERE clause.
unfoldable pub run_matches : String → String → Table ℕ JobRow → ℕ × RunRow → Bool
unfolding status_text
run_matches repo status jobs (id, run) =
    (repo == "" || run.repository == repo) && (status == "" || status_matches status jobs (id, run))

-- `ORDER BY created_at DESC`: may `a` stand before `b`?
unfoldable pub newer_run : ℕ × RunRow → ℕ × RunRow → Bool
unfolding stamp_lt
newer_run (_, a) (_, b) = not (stamp_lt a.created_at b.created_at)

-- `(page - 1) * limit` in 64 bits, for a page from 1 on; SQLite takes a negative offset as 0.
unfoldable pub offset : ℕ → ℕ → ℕ
offset page limit = let o = ((page - 1) * limit) % 2 ^ 64 in if ltb o (2 ^ 63) then o else 0

abbrev pub matching : String → String → Db → Table ℕ RunRow
matching repo status db = filter (run_matches repo status db.jobs) db.runs

abbrev pub scan_run_row : ℕ × RunRow → WorkflowRun
scan_run_row (id, run) = scan_run id run

-- The runs of a page, and how many match.
unfoldable pub get_workflow_runs_paginated : ℕ → ℕ → String → String → Exec (List WorkflowRun × ℕ)
unfolding sort_by run_matches newer_run offset scan_run call
get_workflow_runs_paginated page limit repo status = do
  total ← reads (λ db. count (run_matches repo status db.jobs) db.runs)
  rows ←
      reads
        (λ db. take limit (drop (offset page limit) (sort_by newer_run (matching repo status db))))
  pure (map scan_run_row rows, total)

unfoldable pub newer_job : ℕ × JobRow → ℕ × JobRow → Bool
unfolding stamp_lt
newer_job (_, a) (_, b) = not (stamp_lt a.created_at b.created_at)

abbrev scan_job_row : ℕ × JobRow → WorkflowJob
scan_job_row (id, job) = scan_job id job

unfoldable pub get_workflow_jobs_by_run_id : ℕ → Exec (List WorkflowJob)
unfolding sort_by newer_job scan_job call
get_workflow_jobs_by_run_id run_id = reads (λ db.
    map scan_job_row
      (sort_by newer_job (filter (λ ((id, job) : ℕ × JobRow). job.run_id == run_id) db.jobs)))

-- `SELECT DISTINCT … ORDER BY … ASC`: a name is put where it belongs, unless it stands there.
unfoldable pub insert_name : String → List String → List String
insert_name name [] = name ∷ []
insert_name name (n ∷ names) =
    let rest = insert_name name names in
    if name == n then n ∷ names else (if text_lt name n then name ∷ n ∷ names else n ∷ rest)

unfoldable pub distinct_names : List String → List String
unfolding insert_name
distinct_names [] = []
distinct_names (n ∷ names) = insert_name n (distinct_names names)

abbrev repository_of : ℕ × RunRow → String
repository_of (id, run) = run.repository

unfoldable pub get_repositories : Exec (List String)
unfolding distinct_names call
get_repositories =
    query "failed to get repositories"
      (λ db. distinct_names (filter (λ name. not (name == "")) (map repository_of db.runs)))
