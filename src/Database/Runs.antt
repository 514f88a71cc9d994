-- ===== src/Database/Runs.antt =====
-- internal/database/workflow.go: the rows of workflow_runs.
pub mod Refinement
pub mod Order
use live_actions.Base.{
  ℕ, String, Bool, true, false, ◌≡◌, refl, Option, none, some, List, [], ◌∷◌, if◌then◌else◌, arith,
  nat_eq,
}
use live_actions.Base.Table.{Table, lookup, upsert}
use mathlib.Core.Option
use live_actions.Models.{Time, WorkflowRun}
use live_actions.Models.Status.{JobStatus, run_status_priority, run_lifecycle}
use live_actions.Failure.{Result, ok, err}
use live_actions.Database.{
  Stamp, rfc3339, sqlite, format_nullable_time, parse_time, parse_null_time, RunRow, Db, Exec, pure,
  ◌>>=◌, ◌>>◌, Tx, commit, rollback, transaction, exec, query, reads,
}
use live_actions.Database.Transition.{admits}

-- The columns that the upsert writes.
unfoldable pub run_row : WorkflowRun → RunRow
unfolding format_nullable_time
run_row run = record {
  name = run.name;
  status = run.status;
  repository = run.repository_name;
  html_url = run.html_url;
  display_title = run.display_title;
  conclusion = run.conclusion;
  created_at = rfc3339 run.created_at;
  run_started_at = format_nullable_time run.run_started_at;
  updated_at = format_nullable_time run.updated_at;
}

-- The scan of a row into a `models.WorkflowRun`.
unfoldable pub scan_run : ℕ → RunRow → WorkflowRun
unfolding parse_time parse_null_time
scan_run id row = record {
  id = id;
  name = row.name;
  status = row.status;
  html_url = row.html_url;
  display_title = row.display_title;
  conclusion = row.conclusion;
  created_at = parse_time row.created_at;
  run_started_at = parse_null_time row.run_started_at;
  updated_at = parse_null_time row.updated_at;
  repository_name = row.repository;
}

-- SELECT status FROM workflow_runs WHERE id = ?
unfoldable pub run_status_of : ℕ → Db → Option JobStatus
unfolding lookup
run_status_of id db = Option.map (λ row. row.status) (lookup id db.runs)

abbrev write_run : WorkflowRun → Db → Db
write_run run db = record db { runs = upsert run.id (run_row run) db.runs }

abbrev apply_run : WorkflowRun → Bool → Exec (Tx Bool)
apply_run run false = pure (rollback false)
apply_run run true = do exec "failed to execute upsert" (write_run run); pure (commit true)

-- The body of the transaction.
abbrev guarded_upsert : WorkflowRun → ℕ → Exec (Tx Bool)
guarded_upsert run priority = do
  existing ← query "failed to load existing run status" (run_status_of run.id)
  apply_run run (admits run_lifecycle existing run.status priority)

abbrev known_run : WorkflowRun → Option ℕ → Exec Bool
known_run run none = pure false
known_run run (some priority) =
    transaction "failed to start transaction" "failed to commit transaction"
      (guarded_upsert run priority)

unfoldable pub add_or_update_run : WorkflowRun → Time → Exec Bool
unfolding run_status_priority run_status_of transaction
add_or_update_run run event_timestamp = known_run run (run_status_priority run.status)
