-- ===== src/CleanupService.antt =====
-- internal/services/cleanup_service.go: the clean-ups. The retention period and the threshold for
-- stale jobs are what the configuration gives.
use live_actions.Base.{
  ℕ, ◌-◌, ◌≡◌, refl, sym, ap, ◌∙◌, ◌≤◌, ◌<◌, ◌⊎◌, subst, inl, inr, String, Bool, true, false,
  Option, none, some, List, [], ◌∷◌, all, filter, ltb, leb, if◌then◌else◌, arith, Bool-cases,
}
use live_actions.Models.{Time}
use live_actions.Failure.{Result, ok, err}
use live_actions.Database.{
  Db, JobRow, RunRow, EventRow, SnapshotRow, Stamp, rfc3339, sqlite, day, stamp_lt, column_lt, Exec,
  call,
}
use live_actions.Database.Cleanup.{
  without, old_job, old_run, old_event, old_snapshot, cleanup_old_data, cleanup_stale_jobs,
}
use live_actions.Database.Cleanup.Laws.{cleanup_old_data-atomic}

abbrev forget : Result (ℕ × ℕ × ℕ) × Db → Result (Unit {0}) × Db
forget (ok counts, db) = (ok tt, db)
forget (err e, db) = (err e, db)

forgotten : (out : Result (ℕ × ℕ × ℕ) × Db) → (forget out).1 ≡ out.1
forgotten (ok counts, db) = refl
forgotten (err e, db) = refl

-- performCleanup: a failure to mark stale jobs is only logged.
unfoldable pub perform_cleanup : Time → Time → Exec (Unit {0})
perform_cleanup retention threshold db =
    forget (cleanup_old_data retention (cleanup_stale_jobs threshold db).1)

-- Start, up to the cancellation: a clean-up at once and one at each tick; `others` are what the
-- rest of the program does to the database before each. Failures are only logged.
unfoldable pub start : Time → Time → List (Db → Db) → Db → Db
unfolding perform_cleanup
start retention threshold [] db = (perform_cleanup retention threshold db).1
start retention threshold (other ∷ others) db =
    start retention threshold others (other (perform_cleanup retention threshold db).1)

-- The time that a timestamp stands for, whatever its format.
abbrev instant : Stamp → Time
instant (rfc3339 t) = t
instant (sqlite t) = t

-- At most a period old, counted from `cutoff`, the start of the period; also where no time is known.
abbrev young : Time → Option Stamp → Bool
young cutoff none = true
young cutoff (some s) = leb cutoff (instant s)

-- Within the period, or, in SQLite's format, of a later day than its start, or no time is known.
abbrev later : Time → Option Stamp → Bool
later cutoff none = true
later cutoff (some (rfc3339 t)) = leb cutoff t
later cutoff (some (sqlite t)) = ltb (day cutoff) (day t)

-- No row of `after` is older than the period, and the `later` rows are those of `before`.
abbrev pub Retains {ℓ} : {A : Type ℓ} → (A → Option Stamp) → Time → List A → List A → Type ℓ
Retains stamp cutoff before after =
    (all (λ a. young cutoff (stamp a)) after ≡ true)
    × (filter (λ a. later cutoff (stamp a)) after ≡ filter (λ a. later cutoff (stamp a)) before)

days_total : (a b : Time) → (b < a) ⊎ (day a ≤ day b)
days_total a b = ground arith

old-young :
    (cutoff : Time) (s : Option Stamp)
    → column_lt s (rfc3339 cutoff) ≡ false
    → young cutoff s ≡ true
unfolding column_lt stamp_lt
old-young cutoff none h = refl
old-young cutoff (some (rfc3339 t)) h = ground (arith, h)
old-young cutoff (some (sqlite t)) h = ground (arith, h, days_total t cutoff)

later-old :
    (cutoff : Time) (s : Option Stamp)
    → column_lt s (rfc3339 cutoff) ≡ true
    → later cutoff s ≡ false
unfolding column_lt stamp_lt
later-old cutoff none h = absurd (cc)
later-old cutoff (some (rfc3339 t)) h = ground (arith, h)
later-old cutoff (some (sqlite t)) h = ground (arith, h)

-- A DELETE of the rows whose column is before the cutoff.
without-Retains {ℓ} :
    {A : Type ℓ} (stamp : A → Option Stamp) (cutoff : Time) (xs : List A)
    → Retains stamp cutoff xs (without (λ a. column_lt (stamp a) (rfc3339 cutoff)) xs)
without-Retains stamp cutoff [] = (refl, refl)
without-Retains stamp cutoff (x ∷ xs) =
    let (kept, same) = without-Retains stamp cutoff xs in
    elim (Bool-cases (column_lt (stamp x) (rfc3339 cutoff))) [
      | inl old ↦ rw (old, later-old cutoff (stamp x) old) ((kept, same))
      | inr new ↦
          rw (new, old-young cutoff (stamp x) new)
            ((kept, ap (λ rest. if later cutoff (stamp x) then x ∷ rest else rest) same))
    ]

now-cleanup_stale_jobs :
    (threshold : Time) (db : Db) → (cleanup_stale_jobs threshold db).1.now ≡ db.now
unfolding cleanup_stale_jobs call
now-cleanup_stale_jobs threshold db = ground arith

abbrev job_stamp : ℕ × JobRow → Option Stamp
job_stamp (id, row) = some row.created_at

abbrev run_stamp : ℕ × RunRow → Option Stamp
run_stamp (id, row) = some row.created_at

abbrev event_stamp : String × EventRow → Option Stamp
event_stamp (id, row) = row.processed_at

abbrev snapshot_stamp : SnapshotRow → Option Stamp
snapshot_stamp row = some row.timestamp

-- Of the jobs, runs and snapshots by their creation, and of the events by their processing, what
-- the clean-up keeps; an event that is not processed has no such time.
abbrev pub Clean : Time → Db → Db → Type 0
Clean cutoff before after =
    Retains job_stamp cutoff before.jobs after.jobs
    × Retains run_stamp cutoff before.runs after.runs
    × Retains event_stamp cutoff before.events after.events
    × Retains snapshot_stamp cutoff before.snapshots after.snapshots

-- A successful performCleanup leaves no job, run or snapshot created and no event processed before
-- the retention period; of the rows in it (in SQLite's format of a day after its start) and of the
-- events not processed it leaves all, as marking stale jobs left them.
pub perform_cleanup-Clean :
    (retention threshold : Time) (db : Db)
    → (perform_cleanup retention threshold db).0 ≡ ok tt
    → Clean
        (db.now - retention)
        (cleanup_stale_jobs threshold db).1
        (perform_cleanup retention threshold db).1
unfolding perform_cleanup old_job old_run old_event old_snapshot column_lt
perform_cleanup-Clean retention threshold db h =
    let marked = (cleanup_stale_jobs threshold db).1 in
    let cutoff = marked.now - retention in
    let kept : Clean cutoff marked (perform_cleanup retention threshold db).1 =
      elim (cleanup_old_data-atomic retention marked) [
        | inl c ↦
            subst (Clean cutoff marked) (sym (forgotten (cleanup_old_data retention marked) ∙ c.1))
              ((
                without-Retains job_stamp cutoff marked.jobs,
                without-Retains run_stamp cutoff marked.runs,
                without-Retains event_stamp cutoff marked.events,
                without-Retains snapshot_stamp cutoff marked.snapshots,
              ))
        | inr u ↦ absurd (ground (arith, u))
      ] in
    subst (λ now. Clean (now - retention) marked (perform_cleanup retention threshold db).1)
      (now-cleanup_stale_jobs threshold db) kept
