-- ===== src/Database/Runs/Order.antt =====
-- About sequences of AddOrUpdateRun calls (internal/database/workflow.go) and the statuses of the rows.
use mathlib.Core.List.{Perm, filter_map}
use mathlib.Core.List.Perm
use live_actions.Base.{
  ℕ, Bool, true, ◌≡◌, refl, ◌∙◌, ap, subst, Option, none, some, List, [], ◌∷◌, if◌then◌else◌, arith,
  nat_eq, nat_beq_iff, inl, inr, Option-cases, ◌≤◌, ◌==◌,
}
use live_actions.Base.Table.{upsert, lookup-upsert}
use live_actions.Models.{Time, WorkflowRun}
use live_actions.Models.Status.{
  JobStatus, run_status_priority, run_lifecycle, is_terminal_run_status,
}
use live_actions.Failure.{ok, IsErr, Result-cases}
use live_actions.Database.{Db, reliable, reliable-eq}
use live_actions.Database.Transition.{later, admits-terminal, rank, rank-later}
use live_actions.Database.Transition.Settle.{settle, settle_perm, OneTerminal}
use live_actions.Database.Runs.{run_row, run_status_of, add_or_update_run}
use live_actions.Database.Runs.Refinement.{add_or_update_run-Ends}

-- One call's effect on the status of every row, whatever fails.
run_status_of-write :
    (run : WorkflowRun) (k : ℕ) (db db' : Db)
    → db'.runs ≡ upsert run.id (run_row run) db.runs
    → run_status_of k db' ≡ (if run.id == k then some run.status else run_status_of k db)
unfolding run_status_of run_row
run_status_of-write run k db db' e =
    rw e (rw (lookup-upsert run.id k (run_row run) db.runs) (ground arith))

run_status_of-kept :
    (k : ℕ) (db db' : Db) → db'.runs ≡ db.runs → run_status_of k db' ≡ run_status_of k db
unfolding run_status_of
run_status_of-kept k db db' e = rw e

-- A successful call leaves the row's status as the abstract rule says, and no other row's changed.
pub add_or_update_run-later :
    (run : WorkflowRun) (t : Time) (db : Db) (b : Bool)
    → (add_or_update_run run t db).0 ≡ ok b
    → (k : ℕ)
    → run_status_of k (add_or_update_run run t db).1 ≡ (
        if run.id == k
        then later run_lifecycle (run_status_of k db) run.status
        else run_status_of k db)
add_or_update_run-later run t db b h k = elim (add_or_update_run-Ends run t db) [
  | inl w ↦ ground (
    arith,
    run_status_of-write run k db (add_or_update_run run t db).1 (ap (λ (d : Db). d.runs) w.3),
    nat_beq_iff run.id k,
  )
  | inr (inl r) ↦ ground (
    arith,
    run_status_of-kept k db (add_or_update_run run t db).1 (ap (λ (d : Db). d.runs) r.2),
    nat_beq_iff run.id k,
  )
  | inr (inr f) ↦ absurd (ground arith)
]

-- Where no call of the driver fails, the method returns no error.
reliable-ok :
    (run : WorkflowRun) (t : Time) (db : Db)
    → (¬ IsErr (add_or_update_run run t (reliable db)).0)
      × ((add_or_update_run run t (reliable db)).1.faults ≡ [])
unfolding add_or_update_run
reliable-ok run t db = elim (Option-cases (run_status_priority run.status)) [
  | inl e ↦ rw e (ground arith)
  | inr (p, e) ↦ rw e (ground arith)
]

pub no_faults :
    (run : WorkflowRun) (t : Time) (db : Db)
    → db.faults ≡ []
    → (¬ IsErr (add_or_update_run run t db).0) × ((add_or_update_run run t db).1.faults ≡ [])
no_faults run t db h =
    subst
      (λ d. (¬ IsErr (add_or_update_run run t d).0) × ((add_or_update_run run t d).1.faults ≡ []))
      (reliable-eq db h) (reliable-ok run t db)

-- Whatever fails, and whatever arrives, no row's status moves back in the lifecycle.
pub rank-add_or_update_run :
    (run : WorkflowRun) (t : Time) (db : Db) (k : ℕ)
    → rank run_lifecycle (run_status_of k db)
      ≤ rank run_lifecycle (run_status_of k (add_or_update_run run t db).1)
rank-add_or_update_run run t db k = elim (Result-cases (add_or_update_run run t db).0) [
  | inl (b, e) ↦
      rw (add_or_update_run-later run t db b e k)
        (ground (arith, rank-later run_lifecycle (run_status_of k db) run.status))
  | inr f ↦ elim (add_or_update_run-Ends run t db) [
    | inl w ↦ absurd (ground arith)
    | inr (inl r) ↦ absurd (ground arith)
    | inr (inr x) ↦
        rw (run_status_of-kept k db (add_or_update_run run t db).1 (ap (λ (d : Db). d.runs) x.1))
          (omega arith)
  ]
]

-- A run whose row is in a terminal status stays as it is under every AddOrUpdateRun call for it,
-- and no other row changes.
pub run_terminal_final :
    (run : WorkflowRun) (t : Time) (db : Db) (s : JobStatus)
    → run_status_of run.id db ≡ some s
    → is_terminal_run_status s ≡ true
    → (add_or_update_run run t db).1.runs ≡ db.runs
unfolding run_lifecycle
run_terminal_final run t db s h e = elim (add_or_update_run-Ends run t db) [
  | inl w ↦ absurd (
      ground (
        arith,
        admits-terminal run_lifecycle s run.status (rank run_lifecycle (some run.status)) e,
      ))
  | inr (inl r) ↦ ap (λ (d : Db). d.runs) r.2
  | inr (inr f) ↦ ap (λ (d : Db). d.runs) f.1
]

-- Deliveries handled one after the other, errors ignored.
unfoldable pub add_or_update_runs : List WorkflowRun → Db → Db
add_or_update_runs [] db = db
add_or_update_runs (run ∷ runs) db =
    add_or_update_runs runs (add_or_update_run run run.created_at db).1

-- The statuses that the deliveries report of one run, in order.
abbrev report : ℕ → WorkflowRun → Option JobStatus
report k run = if run.id == k then some run.status else none

abbrev pub reported : ℕ → List WorkflowRun → List JobStatus
reported k = filter_map (report k)

status-add_or_update_runs :
    (runs : List WorkflowRun) (db : Db) (k : ℕ)
    → db.faults ≡ []
    → run_status_of k (add_or_update_runs runs db)
      ≡ settle run_lifecycle (run_status_of k db) (reported k runs)
unfolding add_or_update_runs settle filter_map
status-add_or_update_runs [] db k h = refl
status-add_or_update_runs (run ∷ runs) db k h =
    elim (Result-cases (add_or_update_run run run.created_at db).0) [
      | inr f ↦ absurd ((no_faults run run.created_at db h).0 f)
      | inl (b, e) ↦
          status-add_or_update_runs runs (add_or_update_run run run.created_at db).1 k
            (no_faults run run.created_at db h).1
          ∙ ground (arith, add_or_update_run-later run run.created_at db b e k)
    ]

-- Two runs of the same AddOrUpdateRun calls in any two orders, on a database that has no row of
-- run k and whose calls do not fail, leave run k in the same status, if at most one terminal
-- status is reported of it.
pub run_order_independent :
    (t : JobStatus) (runs runs' : List WorkflowRun) (db : Db) (k : ℕ)
    → Perm runs runs'
    → db.faults ≡ []
    → run_status_of k db ≡ none
    → OneTerminal run_lifecycle t (reported k runs)
    → run_status_of k (add_or_update_runs runs db) ≡ run_status_of k (add_or_update_runs runs' db)
run_order_independent t runs runs' db k p h fresh one =
    rw (status-add_or_update_runs runs db k h, status-add_or_update_runs runs' db k h, fresh)
      (settle_perm run_lifecycle t (reported k runs) (reported k runs')
        (Perm.filter_map (report k) p) one)
