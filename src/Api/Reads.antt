-- ===== src/Api/Reads.antt =====
-- About the handlers of handlers/api.go: none of them changes a table.
use live_actions.Base.{ℕ, String, Option, ◌≡◌, refl, arith, Option-cases, inl, inr}
use live_actions.Models.{Time}
use live_actions.Database.{Db, call, query}
use live_actions.Database.Queries.{
  get_workflow_runs_paginated, get_workflow_jobs_by_run_id, get_repositories,
}
use live_actions.Database.Snapshots.{get_metrics_history}
use live_actions.Database.Summary.{get_metrics_summary}
use live_actions.Database.Analytics.{get_failure_analytics, get_failure_trend}
use live_actions.Database.LabelDemand.{get_label_demand_summary, get_label_demand_trend}
use live_actions.Api.{
  get_workflow_runs, list_runs, get_workflow_jobs_by_run_id_handler, list_repositories,
  get_pagination_params,
}
use live_actions.Base.Int.{pos, negsuc}
use live_actions.Api.Analytics.{period_of, get_current_metrics, failure_analytics, label_demand}
use live_actions.Base.Text.{atoi, codes}

-- Calls of the driver were made, and nothing else.
abbrev pub OnlyCalls : Db → Db → Type 0
OnlyCalls db db' = db' ≡ record db { faults = db'.faults }

calls_trans : (a b c : Db) → OnlyCalls a b → OnlyCalls b c → OnlyCalls a c
calls_trans a b c p q = ground (arith, p, q)

call-OnlyCalls : (db : Db) → OnlyCalls db (call db).1
unfolding call
call-OnlyCalls db = ground arith

query-OnlyCalls :
    {A : Type 0} (message : String) (f : Db → A) (db : Db) → OnlyCalls db (query message f db).1
unfolding call
query-OnlyCalls message f db = ground arith

history-OnlyCalls : (since : Time) (db : Db) → OnlyCalls db (get_metrics_history since db).1
unfolding get_metrics_history
history-OnlyCalls since db = query-OnlyCalls _ _ db

repositories-OnlyCalls : (db : Db) → OnlyCalls db (get_repositories db).1
unfolding get_repositories
repositories-OnlyCalls db = query-OnlyCalls _ _ db

runs-OnlyCalls :
    (page limit : ℕ) (repo status : String) (db : Db)
    → OnlyCalls db (get_workflow_runs_paginated page limit repo status db).1
unfolding get_workflow_runs_paginated call
runs-OnlyCalls page limit repo status db = ground arith

summary-OnlyCalls : (since : Time) (db : Db) → OnlyCalls db (get_metrics_summary since db).1
unfolding get_metrics_summary call
summary-OnlyCalls since db = ground arith

failures-OnlyCalls :
    (since : Time) (repo : String) (db : Db) → OnlyCalls db (get_failure_analytics since repo db).1
unfolding get_failure_analytics call
failures-OnlyCalls since repo db = ground arith

jobs-OnlyCalls : (id : ℕ) (db : Db) → OnlyCalls db (get_workflow_jobs_by_run_id id db).1
unfolding get_workflow_jobs_by_run_id call
jobs-OnlyCalls id db = ground arith

trend-OnlyCalls :
    (since : Time) (repo : String) (db : Db) → OnlyCalls db (get_failure_trend since repo db).1
unfolding get_failure_trend
trend-OnlyCalls since repo db = query-OnlyCalls _ _ db

demand-OnlyCalls :
    (since : Time) (repo : String) (db : Db)
    → OnlyCalls db (get_label_demand_summary since repo db).1
unfolding get_label_demand_summary
demand-OnlyCalls since repo db = query-OnlyCalls _ _ db

demand_trend-OnlyCalls :
    (since : Time) (repo : String) (db : Db) → OnlyCalls db (get_label_demand_trend since repo db).1
unfolding get_label_demand_trend
demand_trend-OnlyCalls since repo db = query-OnlyCalls _ _ db

pub list_runs-OnlyCalls :
    (page limit : ℕ) (repo status : String) (db : Db)
    → OnlyCalls db (list_runs page limit repo status db).1
unfolding list_runs
list_runs-OnlyCalls page limit repo status db =
    ground (arith, runs-OnlyCalls page limit repo status db)

pub get_workflow_runs-OnlyCalls :
    (page limit : Option String) (repo status : String) (db : Db)
    → OnlyCalls db (get_workflow_runs page limit repo status db).1
unfolding get_workflow_runs
get_workflow_runs-OnlyCalls page limit repo status db =
    let (p, l) = get_pagination_params page limit in list_runs-OnlyCalls p l repo status db

pub jobs_handler-OnlyCalls :
    (run_id : String) (db : Db) → OnlyCalls db (get_workflow_jobs_by_run_id_handler run_id db).1
unfolding get_workflow_jobs_by_run_id_handler
jobs_handler-OnlyCalls run_id db = elim (Option-cases (atoi (codes run_id))) [
  | inl n ↦ rw n refl
  | inr (pos id, e) ↦ rw e (ground (arith, jobs-OnlyCalls id db))
  | inr (negsuc n, e) ↦ rw e (ground (arith, call-OnlyCalls db))
]

pub list_repositories-OnlyCalls : (db : Db) → OnlyCalls db (list_repositories db).1
unfolding list_repositories
list_repositories-OnlyCalls db = ground (arith, repositories-OnlyCalls db)

pub get_current_metrics-OnlyCalls :
    (period : Option String) (db : Db) → OnlyCalls db (get_current_metrics period db).1
unfolding get_current_metrics
get_current_metrics-OnlyCalls period db =
    let since = period_of period in
    let db1 = (get_metrics_summary since db).1 in
    ground (arith, summary-OnlyCalls since db, history-OnlyCalls since db1)

pub failure_analytics-OnlyCalls :
    (period : Option String) (repo : String) (db : Db)
    → OnlyCalls db (failure_analytics period repo db).1
unfolding failure_analytics
failure_analytics-OnlyCalls period repo db =
    let since = period_of period in
    let db1 = (get_failure_analytics since repo db).1 in
    ground (arith, failures-OnlyCalls since repo db, trend-OnlyCalls since repo db1)

pub label_demand-OnlyCalls :
    (period : Option String) (repo : String) (db : Db)
    → OnlyCalls db (label_demand period repo db).1
unfolding label_demand
label_demand-OnlyCalls period repo db =
    let since = period_of period in
    let db1 = (get_label_demand_summary since repo db).1 in
    ground (arith, demand-OnlyCalls since repo db, demand_trend-OnlyCalls since repo db1)
