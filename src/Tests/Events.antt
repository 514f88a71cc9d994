-- ===== src/Tests/Events.antt =====
-- The cold path's queue, and the clean-ups.
use live_actions.Base.{
  ◌≡◌, refl, nat_eq, string_eq, Option, none, ◌⊎◌, true, false, some, List, [], ◌∷◌, length,
}
use live_actions.Base.Table.{update, lookup, upsert}
use live_actions.Failure.{Result, ok}
use live_actions.Models.{Time, OrderedEvent, WorkflowJob}
use live_actions.Models.Status.{queued}
use live_actions.Database.{
  Db, JobRow, rfc3339, call, stamp_lt, column_lt, parse_time, parse_null_time, transaction,
}
use live_actions.Database.Jobs.{get_workflow_job_by_id, scan_job, job_row}
use live_actions.Database.Events.{
  event_row, put_event, store_webhook_events, get_pending_events_grouped, sort_rows, scan_events,
  scan_event, mark_event_failed,
}
use live_actions.Database.Events.Laws.{StoreEnds, store_webhook_events-atomic}
use live_actions.Database.Events.Replay.{Replays, get_pending_events_grouped-Sorted}
use live_actions.Database.Cleanup.{cleanup_old_data, cleanup_stale_jobs, stuck, old_event, old_job}
use live_actions.Database.Cleanup.Laws.{
  Cleaned, Untouched, cleanup_old_data-atomic, Marks, cleanup_stale_jobs-Marks,
}
use live_actions.CleanupService.{perform_cleanup, Clean, perform_cleanup-Clean}
use live_actions.Tests.Samples.{job_at, empty_db, event_of}

abbrev batch : List OrderedEvent
batch = event_of "a" 1 ∷ event_of "b" 2 ∷ []

-- A database whose third call fails.
abbrev flaky : Db
flaky = record empty_db { faults = false ∷ false ∷ true ∷ [] }

store_webhook_events-atomic_example : StoreEnds batch flaky (store_webhook_events batch flaky)
store_webhook_events-atomic_example = store_webhook_events-atomic batch flaky

abbrev one_pending : Db
one_pending = put_event (event_of "a" 1) empty_db

one_found : (get_pending_events_grouped 10 one_pending).0 ≡ ok (event_of "a" 1 ∷ [])
unfolding get_pending_events_grouped sort_rows scan_events scan_event call event_row upsert
    parse_time
one_found = refl

get_pending_events_grouped-Sorted_example : Replays 10 one_pending (event_of "a" 1 ∷ [])
get_pending_events_grouped-Sorted_example =
    get_pending_events_grouped-Sorted 10 one_pending (event_of "a" 1 ∷ []) one_found

cleanup_old_data-atomic_example :
    Cleaned (rfc3339 90000) one_pending (cleanup_old_data 10000 one_pending)
    ⊎ Untouched one_pending (cleanup_old_data 10000 one_pending)
cleanup_old_data-atomic_example = cleanup_old_data-atomic 10000 one_pending

abbrev queued_row : JobRow
queued_row = job_row 100000 (job_at queued)

abbrev queued_db : Db
queued_db = record empty_db { jobs = (7, queued_row) ∷ [] }

one_marked : (cleanup_stale_jobs 10000 queued_db).0 ≡ ok 1
unfolding cleanup_stale_jobs call stuck stamp_lt job_row
one_marked = refl

row_found : lookup 7 queued_db.jobs ≡ some queued_row
unfolding lookup
row_found = refl

cleanup_stale_jobs-Marks_example :
    Marks 10000 queued_db 1 7 queued_row (cleanup_stale_jobs 10000 queued_db).1
cleanup_stale_jobs-Marks_example =
    cleanup_stale_jobs-Marks 10000 queued_db 1 7 queued_row one_marked row_found

abbrev completed_of : Result (Option WorkflowJob) → Option Time
completed_of (ok (some job)) = some job.completed_at
completed_of _ = none

-- A stale job is completed at SQLite's time, which reads back as the zero time.
stale_reads_zero :
    completed_of (get_workflow_job_by_id 7 (cleanup_stale_jobs 10000 queued_db).1).0 ≡ some 0
unfolding get_workflow_job_by_id scan_job cleanup_stale_jobs call stuck stamp_lt job_row parse_time
    parse_null_time lookup
stale_reads_zero = refl

abbrev failed_db : Db
failed_db = (mark_event_failed "a" one_pending).1

-- An event that failed has no processing time, and stays, however old it is.
failed_stays : (cleanup_old_data 10000 failed_db).1.events ≡ failed_db.events
unfolding cleanup_old_data mark_event_failed transaction call event_row upsert update old_event
    column_lt stamp_lt
failed_stays = refl

-- A job older than the period and one that is not, next to the failed event.
abbrev aged_db : Db
aged_db = record failed_db {
  jobs =
      (7, record queued_row { created_at = rfc3339 89999 })
      ∷ (8, record queued_row { created_at = rfc3339 90000 })
      ∷ [];
}

cleaned_ok : (perform_cleanup 10000 10000 aged_db).0 ≡ ok tt
unfolding perform_cleanup cleanup_old_data cleanup_stale_jobs mark_event_failed transaction call
cleaned_ok = refl

one_left : length (perform_cleanup 10000 10000 aged_db).1.jobs ≡ 1
unfolding perform_cleanup cleanup_old_data cleanup_stale_jobs mark_event_failed transaction call
    job_row stuck stamp_lt old_job
one_left = refl

perform_cleanup-Clean_example :
    Clean 90000 (cleanup_stale_jobs 10000 aged_db).1 (perform_cleanup 10000 10000 aged_db).1
unfolding mark_event_failed
perform_cleanup-Clean_example = perform_cleanup-Clean 10000 10000 aged_db cleaned_ok
