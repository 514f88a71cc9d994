-- ===== src/Api.antt =====
-- handlers/api.go: the query parameters, and the lists of runs, jobs and repositories. What a
-- handler answers with 200 is its JSON object as a record.
pub mod Pages
pub mod Origin
pub mod Ready
pub mod Analytics
pub mod Reads
use live_actions.Base.{
  ℕ, zero, suc, ◌+◌, ◌-◌, ◌*◌, ◌/◌, String, Bool, true, false, ◌||◌, Option, none, some, List, [],
  ◌∷◌, length, ltb, nat_beq, nat_eq, string_eq, ◌==◌, if◌then◌else◌,
}
use live_actions.Base.Int.{ℤ, pos, negsuc}
use live_actions.Base.Text.{codes, atoi, sscanf_int}
use live_actions.Models.{WorkflowJob, WorkflowRun}
use live_actions.Failure.{Result, ok, err}
use live_actions.Database.{Db, call}
use live_actions.Database.Queries.{
  get_workflow_runs_paginated, get_workflow_jobs_by_run_id, get_repositories,
}

-- `c.JSON` with 200 and a value, or with another status and an error.
pub data Reply (A : Type 0) : Type 0 where
  json : A → Reply A
  error : ℕ → String → Reply A

-- The fields of `workflow_runs` and `pagination`.
pub record RunsPage : Type 0 where
  pub workflow_runs : List WorkflowRun
  pub current_page : ℕ
  pub total_pages : ℕ
  pub total_count : ℕ
  pub page_size : ℕ
  pub has_next : Bool
  pub has_previous : Bool

-- `c.DefaultQuery`
abbrev pub default_query : String → Option String → String
default_query default none = default
default_query default (some text) = text

abbrev page_of : Option ℤ → ℕ
page_of none = 1
page_of (some (pos n)) = if ltb n 1 then 1 else n
page_of (some (negsuc n)) = 1

abbrev limit_of : Option ℤ → ℕ
limit_of none = 25
limit_of (some (pos n)) = if ltb n 1 || ltb 100 n then 25 else n
limit_of (some (negsuc n)) = 25

-- The page and the limit, from the query parameters of these names.
unfoldable pub get_pagination_params : Option String → Option String → ℕ × ℕ
unfolding sscanf_int
get_pagination_params page limit = (
  page_of (sscanf_int (codes (default_query "1" page))),
  limit_of (sscanf_int (codes (default_query "25" limit))),
)

unfoldable pub pages_of : ℕ → ℕ → ℕ
pages_of total limit = (total + limit - 1) / limit

abbrev pub runs_page : ℕ → ℕ → List WorkflowRun → ℕ → RunsPage
runs_page page limit runs total = record {
  workflow_runs = runs;
  current_page = page;
  total_pages = pages_of total limit;
  total_count = total;
  page_size = limit;
  has_next = ltb page (pages_of total limit);
  has_previous = ltb 1 page;
}

abbrev runs_reply : ℕ → ℕ → Result (List WorkflowRun × ℕ) × Db → Reply RunsPage × Db
runs_reply page limit (err e, db) = (error 500 "Failed to retrieve workflow runs", db)
runs_reply page limit (ok (runs, total), db) = (json (runs_page page limit runs total), db)

-- GetWorkflowRuns behind its parameters.
unfoldable pub list_runs : ℕ → ℕ → String → String → Db → Reply RunsPage × Db
unfolding get_workflow_runs_paginated pages_of
list_runs page limit repo status db =
    runs_reply page limit (get_workflow_runs_paginated page limit repo status db)

abbrev list_page : ℕ × ℕ → String → String → Db → Reply RunsPage × Db
list_page (page, limit) repo status db = list_runs page limit repo status db

unfoldable pub get_workflow_runs :
    Option String → Option String → String → String → Db → Reply RunsPage × Db
unfolding get_pagination_params list_runs
get_workflow_runs page limit repo status db =
    list_page (get_pagination_params page limit) repo status db

abbrev jobs_reply : Result (List WorkflowJob) × Db → Reply (List WorkflowJob) × Db
jobs_reply (err e, db) = (error 500 "Failed to retrieve workflow jobs", db)
jobs_reply (ok [], db) = (error 404 "No workflow jobs found for this run ID", db)
jobs_reply (ok (job ∷ jobs), db) = (json (job ∷ jobs), db)

-- Ids in the tables are natural numbers, so the query for a negative id finds no job.
abbrev no_jobs : Result (Unit {0}) × Db → Result (List WorkflowJob) × Db
no_jobs (err e, db) = (err e, db)
no_jobs (ok _, db) = (ok [], db)

abbrev jobs_of : Option ℤ → Db → Reply (List WorkflowJob) × Db
jobs_of none db = (error 400 "Invalid run_id format", db)
jobs_of (some (pos run_id)) db = jobs_reply (get_workflow_jobs_by_run_id run_id db)
jobs_of (some (negsuc n)) db = jobs_reply (no_jobs (call db))

unfoldable pub get_workflow_jobs_by_run_id_handler : String → Db → Reply (List WorkflowJob) × Db
unfolding get_workflow_jobs_by_run_id atoi call
get_workflow_jobs_by_run_id_handler run_id db = jobs_of (atoi (codes run_id)) db

abbrev repositories_reply : Result (List String) × Db → Reply (List String) × Db
repositories_reply (err e, db) = (error 500 "Failed to retrieve repositories", db)
repositories_reply (ok repositories, db) = (json repositories, db)

unfoldable pub list_repositories : Db → Reply (List String) × Db
unfolding get_repositories
list_repositories db = repositories_reply (get_repositories db)

-- In seconds.
unfoldable pub period_to_duration : String → ℕ
period_to_duration period =
    if period == "hour"
    then 3600
    else (if period == "week"
        then 7 * 24 * 3600
        else (if period == "month" then 30 * 24 * 3600 else 24 * 3600))
