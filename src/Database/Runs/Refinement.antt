-- ===== src/Database/Runs/Refinement.antt =====
-- About AddOrUpdateRun (internal/database/workflow.go) and the abstract rule of the lifecycle.
use live_actions.Base.{
  Bool, true, false, ◌≡◌, refl, some, arith, nat_eq, ◌⊎◌, inl, inr, Bool-cases, Option-cases,
}
use live_actions.Base.Table.{upsert}
use live_actions.Models.{Time, WorkflowRun}
use live_actions.Models.Status.{run_status_priority, run_lifecycle}
use live_actions.Failure.{IsErr, Result, ok}
use live_actions.Database.{Db}
use live_actions.Database.Transition.{admits, later, admits-true, admits-false, rank}
use live_actions.Database.Runs.{run_row, run_status_of, add_or_update_run}

-- The call wrote the row, which the transition rule admits.
abbrev Written : WorkflowRun → Db → Result Bool × Db → Type 0
Written run db (r, db') =
    (r ≡ ok true)
    × (admits run_lifecycle (run_status_of run.id db) run.status
          (rank run_lifecycle (some run.status))
        ≡ true)
    × (later run_lifecycle (run_status_of run.id db) run.status ≡ some run.status)
    × (db' ≡ record db { runs = upsert run.id (run_row run) db.runs; faults = db'.faults })

-- The rule kept the row.
abbrev Refused : WorkflowRun → Db → Result Bool × Db → Type 0
Refused run db (r, db') =
    (r ≡ ok false)
    × (later run_lifecycle (run_status_of run.id db) run.status ≡ run_status_of run.id db)
    × (db' ≡ record db { faults = db'.faults })

-- A call of the driver failed.
abbrev Failed : WorkflowRun → Db → Result Bool × Db → Type 0
Failed run db (r, db') = IsErr r × (db' ≡ record db { faults = db'.faults })

abbrev pub Ends : WorkflowRun → Db → Result Bool × Db → Type 0
Ends run db out = Written run db out ⊎ (Refused run db out ⊎ Failed run db out)

-- AddOrUpdateRun writes the row and takes its status where the abstract rule does, or answers
-- false and changes no table where the rule keeps the row, or fails and changes no table.
pub add_or_update_run-Ends :
    (run : WorkflowRun) (t : Time) (db : Db) → Ends run db (add_or_update_run run t db)
unfolding add_or_update_run run_lifecycle
add_or_update_run-Ends run t db = elim (Option-cases (run_status_priority run.status)) [
  | inl e ↦ rw e (inr (inl (refl, ground arith, refl)))
  | inr (p, e) ↦ elim (Bool-cases (admits run_lifecycle (run_status_of run.id db) run.status p)) [
    | inl yes' ↦
        rw e (ground (arith, admits-true run_lifecycle (run_status_of run.id db) run.status p))
    | inr no' ↦
        rw e
          (inr (ground (arith, admits-false run_lifecycle (run_status_of run.id db) run.status p)))
  ]
]
