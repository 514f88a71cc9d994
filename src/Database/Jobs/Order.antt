-- ===== src/Database/Jobs/Order.antt =====
-- About sequences of AddOrUpdateJob calls (internal/database/workflow.go) and the statuses of the rows.
use mathlib.Core.List.{Perm, filter_map}
use mathlib.Core.List.Perm
use live_actions.Base.{
  ℕ, Bool, true, ◌≡◌, refl, ◌∙◌, ap, subst, Option, none, some, List, [], ◌∷◌, if◌then◌else◌, arith,
  nat_eq, nat_beq_iff, inl, inr, Option-cases, ◌≤◌, ◌==◌,
}
use live_actions.Base.Table.{upsert, lookup-upsert}
use live_actions.Models.{Time, WorkflowJob}
use live_actions.Models.Status.{
  JobStatus, job_status_priority, job_lifecycle, is_terminal_job_status,
}
use live_actions.Failure.{ok, IsErr, Result-cases}
use live_actions.Database.{Db, reliable, reliable-eq}
use live_actions.Database.Transition.{later, admits-terminal, rank, rank-later}
use live_actions.Database.Transition.Settle.{settle, settle_perm, OneTerminal}
use live_actions.Database.Jobs.{job_row, job_status_of, add_or_update_job}
use live_actions.Database.Jobs.Refinement.{add_or_update_job-Ends}

-- One call's effect on the status of every row, whatever fails.
job_status_of-write :
    (job : WorkflowJob) (k : ℕ) (db db' : Db)
    → db'.jobs ≡ upsert job.id (job_row db.now job) db.jobs
    → job_status_of k db' ≡ (if job.id == k then some job.status else job_status_of k db)
unfolding job_status_of job_row
job_status_of-write job k db db' e =
    rw e (rw (lookup-upsert job.id k (job_row db.now job) db.jobs) (ground arith))

pub job_status_of-kept :
    (k : ℕ) (db db' : Db) → db'.jobs ≡ db.jobs → job_status_of k db' ≡ job_status_of k db
unfolding job_status_of
job_status_of-kept k db db' e = rw e

-- A successful call leaves the row's status as the abstract rule says, and no other row's changed.
pub add_or_update_job-later :
    (job : WorkflowJob) (t : Time) (db : Db) (b : Bool)
    → (add_or_update_job job t db).0 ≡ ok b
    → (k : ℕ)
    → job_status_of k (add_or_update_job job t db).1 ≡ (
        if job.id == k
        then later job_lifecycle (job_status_of k db) job.status
        else job_status_of k db)
add_or_update_job-later job t db b h k = elim (add_or_update_job-Ends job t db) [
  | inl w ↦ ground (
    arith,
    job_status_of-write job k db (add_or_update_job job t db).1 (ap (λ (d : Db). d.jobs) w.3),
    nat_beq_iff job.id k,
  )
  | inr (inl r) ↦ ground (
    arith,
    job_status_of-kept k db (add_or_update_job job t db).1 (ap (λ (d : Db). d.jobs) r.2),
    nat_beq_iff job.id k,
  )
  | inr (inr f) ↦ absurd (ground arith)
]

-- Where no call of the driver fails, the method returns no error.
reliable-ok :
    (job : WorkflowJob) (t : Time) (db : Db)
    → (¬ IsErr (add_or_update_job job t (reliable db)).0)
      × ((add_or_update_job job t (reliable db)).1.faults ≡ [])
unfolding add_or_update_job
reliable-ok job t db = elim (Option-cases (job_status_priority job.status)) [
  | inl e ↦ rw e (ground arith)
  | inr (p, e) ↦ rw e (ground arith)
]

pub no_faults :
    (job : WorkflowJob) (t : Time) (db : Db)
    → db.faults ≡ []
    → (¬ IsErr (add_or_update_job job t db).0) × ((add_or_update_job job t db).1.faults ≡ [])
no_faults job t db h =
    subst
      (λ d. (¬ IsErr (add_or_update_job job t d).0) × ((add_or_update_job job t d).1.faults ≡ []))
      (reliable-eq db h) (reliable-ok job t db)

-- No AddOrUpdateJob call moves the status of any job back in the lifecycle, whichever of its calls
-- of the driver fail.
pub rank-add_or_update_job :
    (job : WorkflowJob) (t : Time) (db : Db) (k : ℕ)
    → rank job_lifecycle (job_status_of k db)
      ≤ rank job_lifecycle (job_status_of k (add_or_update_job job t db).1)
rank-add_or_update_job job t db k = elim (Result-cases (add_or_update_job job t db).0) [
  | inl (b, e) ↦
      rw (add_or_update_job-later job t db b e k)
        (ground (arith, rank-later job_lifecycle (job_status_of k db) job.status))
  | inr f ↦ elim (add_or_update_job-Ends job t db) [
    | inl w ↦ absurd (ground arith)
    | inr (inl r) ↦ absurd (ground arith)
    | inr (inr x) ↦
        rw (job_status_of-kept k db (add_or_update_job job t db).1 (ap (λ (d : Db). d.jobs) x.1))
          (omega arith)
  ]
]

-- A job whose row is in a terminal status stays as it is under every AddOrUpdateJob call for it,
-- and no other row changes.
pub job_terminal_final :
    (job : WorkflowJob) (t : Time) (db : Db) (s : JobStatus)
    → job_status_of job.id db ≡ some s
    → is_terminal_job_status s ≡ true
    → (add_or_update_job job t db).1.jobs ≡ db.jobs
unfolding job_lifecycle
job_terminal_final job t db s h e = elim (add_or_update_job-Ends job t db) [
  | inl w ↦ absurd (
      ground (
        arith,
        admits-terminal job_lifecycle s job.status (rank job_lifecycle (some job.status)) e,
      ))
  | inr (inl r) ↦ ap (λ (d : Db). d.jobs) r.2
  | inr (inr f) ↦ ap (λ (d : Db). d.jobs) f.1
]

-- Deliveries handled one after the other, errors ignored.
unfoldable pub add_or_update_jobs : List WorkflowJob → Db → Db
add_or_update_jobs [] db = db
add_or_update_jobs (job ∷ jobs) db =
    add_or_update_jobs jobs (add_or_update_job job job.created_at db).1

-- The statuses that the deliveries report of one job, in order.
abbrev report : ℕ → WorkflowJob → Option JobStatus
report k job = if job.id == k then some job.status else none

abbrev pub reported : ℕ → List WorkflowJob → List JobStatus
reported k = filter_map (report k)

status-add_or_update_jobs :
    (jobs : List WorkflowJob) (db : Db) (k : ℕ)
    → db.faults ≡ []
    → job_status_of k (add_or_update_jobs jobs db)
      ≡ settle job_lifecycle (job_status_of k db) (reported k jobs)
unfolding add_or_update_jobs settle filter_map
status-add_or_update_jobs [] db k h = refl
status-add_or_update_jobs (job ∷ jobs) db k h =
    elim (Result-cases (add_or_update_job job job.created_at db).0) [
      | inr f ↦ absurd ((no_faults job job.created_at db h).0 f)
      | inl (b, e) ↦
          status-add_or_update_jobs jobs (add_or_update_job job job.created_at db).1 k
            (no_faults job job.created_at db h).1
          ∙ ground (arith, add_or_update_job-later job job.created_at db b e k)
    ]

-- Two runs of the same AddOrUpdateJob calls in any two orders, on a database that has no row of
-- job k and whose calls do not fail, leave job k in the same status, if at most one terminal
-- status is reported of it.
pub job_order_independent :
    (t : JobStatus) (jobs jobs' : List WorkflowJob) (db : Db) (k : ℕ)
    → Perm jobs jobs'
    → db.faults ≡ []
    → job_status_of k db ≡ none
    → OneTerminal job_lifecycle t (reported k jobs)
    → job_status_of k (add_or_update_jobs jobs db) ≡ job_status_of k (add_or_update_jobs jobs' db)
job_order_independent t jobs jobs' db k p h fresh one =
    rw (status-add_or_update_jobs jobs db k h, status-add_or_update_jobs jobs' db k h, fresh)
      (settle_perm job_lifecycle t (reported k jobs) (reported k jobs')
        (Perm.filter_map (report k) p) one)
