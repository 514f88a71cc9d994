-- ===== src/Database/Cleanup.antt =====
-- internal/database/workflow.go: CleanupOldData, CleanupStaleJobs and the counts of current jobs.
pub mod Laws
use live_actions.Base.{
  ℕ, ◌-◌, String, Bool, true, false, not, ◌&&◌, ◌||◌, Option, none, some, List, [], ◌∷◌, map,
  filter, count, if◌then◌else◌,
}
use live_actions.Base.Table.{Table}
use live_actions.Models.{Time}
use live_actions.Models.Status.{JobStatus, queued, in_progress, stale, status_eq}
use live_actions.Failure.{Result, ok, err}
use live_actions.Database.{
  Stamp, rfc3339, sqlite, stamp_lt, column_lt, JobRow, RunRow, EventRow, SnapshotRow, Db, Exec,
  pure, ◌>>=◌, ◌>>◌, Tx, commit, rollback, transaction, exec, reads, wrapping, call,
}

unfoldable pub old_job : Stamp → ℕ × JobRow → Bool
unfolding stamp_lt
old_job cutoff (id, row) = stamp_lt row.created_at cutoff

unfoldable pub old_run : Stamp → ℕ × RunRow → Bool
unfolding stamp_lt
old_run cutoff (id, row) = stamp_lt row.created_at cutoff

unfoldable pub old_event : Stamp → String × EventRow → Bool
unfolding column_lt
old_event cutoff (id, row) = column_lt row.processed_at cutoff

unfoldable pub old_snapshot : Stamp → SnapshotRow → Bool
unfolding stamp_lt
old_snapshot cutoff row = stamp_lt row.timestamp cutoff

abbrev pub without {ℓ} : {A : Type ℓ} → (A → Bool) → List A → List A
without p = filter (λ a. not (p a))

-- DELETE FROM … WHERE p, and the rows that it affects.
abbrev delete_jobs : Stamp → Exec ℕ
delete_jobs cutoff = do
  wrapping "failed to delete old workflow jobs" call
  λ db. (ok (count (old_job cutoff) db.jobs), record db { jobs = without (old_job cutoff) db.jobs })

abbrev delete_runs : Stamp → Exec ℕ
delete_runs cutoff = do
  wrapping "failed to delete old workflow runs" call
  λ db. (ok (count (old_run cutoff) db.runs), record db { runs = without (old_run cutoff) db.runs })

abbrev delete_events : Stamp → Exec ℕ
delete_events cutoff = do
  wrapping "failed to delete old webhook events" call
  λ db. (
    ok (count (old_event cutoff) db.events),
    record db { events = without (old_event cutoff) db.events },
  )

abbrev delete_snapshots : Stamp → Exec (Unit {0})
delete_snapshots cutoff =
    exec "failed to delete old metrics snapshots"
      (λ db. record db { snapshots = without (old_snapshot cutoff) db.snapshots })

abbrev cleanup_tx : Stamp → Exec (Tx (ℕ × ℕ × ℕ))
cleanup_tx cutoff = do
  jobs ← delete_jobs cutoff
  runs ← delete_runs cutoff
  events ← delete_events cutoff
  delete_snapshots cutoff
  pure (commit (runs, jobs, events))

-- Returns the numbers of deleted runs, jobs and events.
unfoldable pub cleanup_old_data : Time → Exec (ℕ × ℕ × ℕ)
unfolding transaction old_job old_run old_event old_snapshot
cleanup_old_data retention db =
    transaction "failed to start transaction" "failed to commit cleanup transaction"
      (cleanup_tx (rfc3339 (db.now - retention))) db

-- `status IN ('queued', 'in_progress') AND created_at < cutoff`
unfoldable pub stuck : Stamp → JobRow → Bool
unfolding status_eq stamp_lt
stuck cutoff row =
    (status_eq row.status queued || status_eq row.status in_progress)
    && stamp_lt row.created_at cutoff

abbrev marked : Time → Stamp → ℕ × JobRow → ℕ × JobRow
marked now cutoff (id, row) = (
  id,
  if stuck cutoff row then record row { status = stale; completed_at = some (sqlite now) } else row,
)

abbrev is_stuck : Stamp → ℕ × JobRow → Bool
is_stuck cutoff (id, row) = stuck cutoff row

-- Returns the number of rows that were marked.
unfoldable pub cleanup_stale_jobs : Time → Exec ℕ
unfolding stuck call
cleanup_stale_jobs threshold = do
  wrapping "failed to mark stale jobs" call
  λ db.
      let cutoff = rfc3339 (db.now - threshold) in
      (
        ok (count (is_stuck cutoff) db.jobs),
        record db { jobs = map (marked db.now cutoff) db.jobs },
      )

abbrev pub has_status : JobStatus → ℕ × JobRow → Bool
has_status s (id, row) = status_eq row.status s

-- The numbers of running and of queued jobs.
unfoldable pub get_current_job_counts : Exec (ℕ × ℕ)
unfolding status_eq call
get_current_job_counts =
    reads (λ db. (count (has_status in_progress) db.jobs, count (has_status queued) db.jobs))
