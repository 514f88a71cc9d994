-- ===== src/Database/Cleanup/Laws.antt =====
-- About the two clean-ups of internal/database/workflow.go.
use live_actions.Base.{
  ℕ, ◌-◌, some, [], ◌∷◌, ◌≡◌, refl, ◌⊎◌, inl, inr, map, count, arith, if◌then◌else◌, nat_eq,
  string_eq, Bool-cases,
}
use live_actions.Base.Table.{Table, lookup}
use live_actions.Models.{Time}
use live_actions.Models.Status.{stale}
use live_actions.Failure.{Result, ok, IsErr}
use live_actions.Database.{Stamp, rfc3339, sqlite, JobRow, Db}
use live_actions.Database.Cleanup.{
  old_job, old_run, old_event, old_snapshot, without, cleanup_old_data, stuck, marked, is_stuck,
  cleanup_stale_jobs,
}

-- All four tables lose exactly their old rows, and the answer counts three of them.
abbrev pub Cleaned : Stamp → Db → Result (ℕ × ℕ × ℕ) × Db → Type 0
Cleaned cutoff db (r, db') =
    (r
      ≡ ok (
        count (old_run cutoff) db.runs,
        count (old_job cutoff) db.jobs,
        count (old_event cutoff) db.events,
      ))
    × (db' ≡ record db {
      jobs = without (old_job cutoff) db.jobs;
      runs = without (old_run cutoff) db.runs;
      events = without (old_event cutoff) db.events;
      snapshots = without (old_snapshot cutoff) db.snapshots;
      faults = db'.faults;
    })

-- An error, and no table has changed.
abbrev pub Untouched : Db → Result (ℕ × ℕ × ℕ) × Db → Type 0
Untouched db (r, db') = IsErr r × (db' ≡ record db { faults = db'.faults })

-- CleanupOldData deletes exactly the old rows of all four tables and returns the counts of three,
-- or fails and changes no table.
pub cleanup_old_data-atomic :
    (retention : Time) (db : Db)
    → Cleaned (rfc3339 (db.now - retention)) db (cleanup_old_data retention db)
      ⊎ Untouched db (cleanup_old_data retention db)
unfolding cleanup_old_data
cleanup_old_data-atomic retention db = ground arith

module _ (now : Time) (cutoff : Stamp) where
  marked-lookup :
      (id : ℕ) (t : Table ℕ JobRow) (row : JobRow)
      → lookup id t ≡ some row
      → lookup id (map (marked now cutoff) t)
        ≡ some (
            if stuck cutoff row
            then record row { status = stale; completed_at = some (sqlite now) }
            else row)
  unfolding lookup
  marked-lookup id [] row h = cc
  marked-lookup id ((j, r) ∷ t) row h = ground (arith, marked-lookup id t row)

  not_stuck_after : (t : Table ℕ JobRow) → count (is_stuck cutoff) (map (marked now cutoff) t) ≡ 0
  unfolding stuck
  not_stuck_after [] = refl
  not_stuck_after ((j, r) ∷ t) = elim (Bool-cases (stuck cutoff r)) [
    | inl y ↦ rw y (not_stuck_after t)
    | inr n ↦ rw (n, n) (not_stuck_after t)
  ]

-- The row is marked stale and completed now, if it is stuck, and is as it was otherwise; `n` rows
-- were stuck, and none is any more.
abbrev pub Marks : Time → Db → ℕ → ℕ → JobRow → Db → Type 0
Marks threshold db n id row db' =
    let cutoff = rfc3339 (db.now - threshold) in
    (lookup id db'.jobs
      ≡ some (
          if stuck cutoff row
          then record row { status = stale; completed_at = some (sqlite db.now) }
          else row))
    × (n ≡ count (is_stuck cutoff) db.jobs)
    × (count (is_stuck cutoff) db'.jobs ≡ 0)

-- A successful CleanupStaleJobs marks a job of the table stale and completed if it is stuck and
-- keeps it otherwise, returns the number of stuck jobs, and leaves none stuck.
pub cleanup_stale_jobs-Marks :
    (threshold : Time) (db : Db) (n id : ℕ) (row : JobRow)
    → (cleanup_stale_jobs threshold db).0 ≡ ok n
    → lookup id db.jobs ≡ some row
    → Marks threshold db n id row (cleanup_stale_jobs threshold db).1
unfolding cleanup_stale_jobs
cleanup_stale_jobs-Marks threshold db n id row h e = ground (
  arith,
  marked-lookup db.now (rfc3339 (db.now - threshold)) id db.jobs row e,
  not_stuck_after db.now (rfc3339 (db.now - threshold)) db.jobs,
)
