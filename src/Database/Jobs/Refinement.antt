-- ===== src/Database/Jobs/Refinement.antt =====
-- About AddOrUpdateJob (internal/database/workflow.go) and the abstract rule of the lifecycle.
use live_actions.Base.{
  Bool, true, false, ◌≡◌, refl, some, arith, nat_eq, ◌⊎◌, inl, inr, Bool-cases, Option-cases,
}
use live_actions.Base.Table.{upsert}
use live_actions.Models.{Time, WorkflowJob}
use live_actions.Models.Status.{job_status_priority, job_lifecycle}
use live_actions.Failure.{IsErr, Result, ok}
use live_actions.Database.{Db}
use live_actions.Database.Transition.{admits, later, admits-true, admits-false, rank}
use live_actions.Database.Jobs.{job_row, job_status_of, add_or_update_job}

-- The call wrote the row, which the transition rule admits.
abbrev Written : WorkflowJob → Db → Result Bool × Db → Type 0
Written job db (r, db') =
    (r ≡ ok true)
    × (admits job_lifecycle (job_status_of job.id db) job.status
          (rank job_lifecycle (some job.status))
        ≡ true)
    × (later job_lifecycle (job_status_of job.id db) job.status ≡ some job.status)
    × (db' ≡ record db { jobs = upsert job.id (job_row db.now job) db.jobs; faults = db'.faults })

-- The rule kept the row.
abbrev Refused : WorkflowJob → Db → Result Bool × Db → Type 0
Refused job db (r, db') =
    (r ≡ ok false)
    × (later job_lifecycle (job_status_of job.id db) job.status ≡ job_status_of job.id db)
    × (db' ≡ record db { faults = db'.faults })

-- A call of the driver failed.
abbrev Failed : WorkflowJob → Db → Result Bool × Db → Type 0
Failed job db (r, db') = IsErr r × (db' ≡ record db { faults = db'.faults })

abbrev pub Ends : WorkflowJob → Db → Result Bool × Db → Type 0
Ends job db out = Written job db out ⊎ (Refused job db out ⊎ Failed job db out)

-- AddOrUpdateJob writes the row and takes its status where the abstract rule does, or answers
-- false and changes no table where the rule keeps the row, or fails and changes no table.
pub add_or_update_job-Ends :
    (job : WorkflowJob) (t : Time) (db : Db) → Ends job db (add_or_update_job job t db)
unfolding add_or_update_job job_lifecycle
add_or_update_job-Ends job t db = elim (Option-cases (job_status_priority job.status)) [
  | inl e ↦ rw e (inr (inl (refl, ground arith, refl)))
  | inr (p, e) ↦ elim (Bool-cases (admits job_lifecycle (job_status_of job.id db) job.status p)) [
    | inl yes' ↦
        rw e (ground (arith, admits-true job_lifecycle (job_status_of job.id db) job.status p))
    | inr no' ↦
        rw e
          (inr (ground (arith, admits-false job_lifecycle (job_status_of job.id db) job.status p)))
  ]
]
