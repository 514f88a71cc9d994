-- ===== src/Database/Jobs.antt =====
-- internal/database/workflow.go: the rows of workflow_jobs.
pub mod Refinement
pub mod Order
use live_actions.Base.{
  ℕ, String, Bool, true, false, ◌≡◌, refl, Option, none, some, List, [], ◌∷◌, if◌then◌else◌, arith,
  nat_eq,
}
use live_actions.Base.Table.{Table, lookup, upsert}
use mathlib.Core.Option
use live_actions.Models.{Time, WorkflowJob}
use live_actions.Models.Status.{JobStatus, job_status_priority, job_lifecycle}
use live_actions.Failure.{Result, ok, err}
use live_actions.Database.{
  Stamp, rfc3339, sqlite, format_nullable_time, parse_time, parse_null_time, JobRow, Db, Exec, pure,
  ◌>>=◌, ◌>>◌, Tx, commit, rollback, transaction, exec, query, reads,
}
use live_actions.Database.Transition.{admits}

-- `labelsToJSON`: a nil slice is stored as an empty array.
unfoldable pub labels_to_json : Option (List String) → List String
labels_to_json none = []
labels_to_json (some labels) = labels

-- `labelsFromJSON` of a text that `labelsToJSON` wrote: never nil.
unfoldable pub labels_from_json : List String → Option (List String)
labels_from_json labels = some labels

-- The columns that the upsert writes.
unfoldable pub job_row : Time → WorkflowJob → JobRow
unfolding labels_to_json format_nullable_time
job_row now job = record {
  name = job.name;
  run_id = job.run_id;
  status = job.status;
  labels = labels_to_json job.labels;
  html_url = job.html_url;
  conclusion = job.conclusion;
  created_at = rfc3339 job.created_at;
  started_at = format_nullable_time job.started_at;
  completed_at = format_nullable_time job.completed_at;
  updated_at = sqlite now;
}

-- The scan of a row into a `models.WorkflowJob`.
unfoldable pub scan_job : ℕ → JobRow → WorkflowJob
unfolding labels_from_json parse_time parse_null_time
scan_job id row = record {
  id = id;
  name = row.name;
  status = row.status;
  labels = labels_from_json row.labels;
  html_url = row.html_url;
  conclusion = row.conclusion;
  created_at = parse_time row.created_at;
  started_at = parse_null_time row.started_at;
  completed_at = parse_null_time row.completed_at;
  run_id = row.run_id;
}

-- SELECT status FROM workflow_jobs WHERE id = ?
unfoldable pub job_status_of : ℕ → Db → Option JobStatus
unfolding lookup
job_status_of id db = Option.map (λ row. row.status) (lookup id db.jobs)

abbrev write_job : WorkflowJob → Db → Db
write_job job db = record db { jobs = upsert job.id (job_row db.now job) db.jobs }

abbrev apply_job : WorkflowJob → Bool → Exec (Tx Bool)
apply_job job false = pure (rollback false)
apply_job job true = do exec "failed to execute upsert" (write_job job); pure (commit true)

-- The body of the transaction.
abbrev guarded_upsert : WorkflowJob → ℕ → Exec (Tx Bool)
guarded_upsert job priority = do
  existing ← query "failed to load existing job status" (job_status_of job.id)
  apply_job job (admits job_lifecycle existing job.status priority)

abbrev known_job : WorkflowJob → Option ℕ → Exec Bool
known_job job none = pure false
known_job job (some priority) =
    transaction "failed to start transaction" "failed to commit transaction"
      (guarded_upsert job priority)

unfoldable pub add_or_update_job : WorkflowJob → Time → Exec Bool
unfolding job_status_priority job_status_of transaction
add_or_update_job job event_timestamp = known_job job (job_status_priority job.status)

abbrev found_job : ℕ → Option JobRow → Option WorkflowJob
found_job id none = none
found_job id (some row) = some (scan_job id row)

-- `none` stands for the `models.WorkflowJob{Status: ""}` that is returned for a missing row.
unfoldable pub get_workflow_job_by_id : ℕ → Exec (Option WorkflowJob)
unfolding scan_job lookup
get_workflow_job_by_id id = do row ← reads (λ db. lookup id db.jobs); pure (found_job id row)
