-- ===== src/Handlers/Permanent.antt =====
-- About the errors of processOrderedEvent (handlers/webhook_handler.go).
use live_actions.Base.{
  ◌≡◌, ◌↔◌, inl, inr, String, true, false, none, arith, string_eq, Option-cases,
}
use live_actions.Base.Table.{lookup}
use live_actions.Models.{Time, Bytes, WorkflowJob, WorkflowRun, EventSequence, OrderedEvent}
use live_actions.Models.Status.{job_status, job_status_priority, run_status_priority}
use live_actions.Failure.{Error, is_permanent, Result, ok, err}
use live_actions.Database.{Db, call}
use live_actions.Database.Jobs.{get_workflow_job_by_id, add_or_update_job}
use live_actions.Database.Runs.{add_or_update_run}
use live_actions.Database.Events.{mark_event_processed}
use live_actions.Handlers.{
  App, Decoder, Handler, job_handler, run_handler, handle_event, process_ordered_event, handlers,
  payload_of,
}

-- The result is no permanent error.
abbrev Passing {ℓ} : {A : Type ℓ} → Result A → Type 0
Passing (ok a) = Unit
Passing (err e) = is_permanent e ≡ false

add_or_update_job-Passing :
    (job : WorkflowJob) (t : Time) (db : Db) → Passing (add_or_update_job job t db).0
unfolding add_or_update_job call is_permanent
add_or_update_job-Passing job t db = ground arith

add_or_update_run-Passing :
    (run : WorkflowRun) (t : Time) (db : Db) → Passing (add_or_update_run run t db).0
unfolding add_or_update_run call is_permanent
add_or_update_run-Passing run t db = ground arith

mark_event_processed-Passing : (id : String) (db : Db) → Passing (mark_event_processed id db).0
unfolding mark_event_processed call is_permanent
mark_event_processed-Passing id db = ground arith

module _ (d : Decoder) where
  handle_event-Passing :
      (h : Handler) (payload : Bytes) (sequence : EventSequence) (app : App)
      → Passing (handle_event d h payload sequence app).0
  unfolding handle_event is_permanent
  handle_event-Passing job_handler payload sequence app =
      elim (Option-cases (d.job_event payload)) [
        | inl n ↦ rw n (ground arith)
        | inr (event, e) ↦ elim (Option-cases (job_status_priority (job_status event.action))) [
          | inl n ↦ rw (e, n) (ground arith)
          | inr (p, q) ↦
              let job = record event.workflow_job { status = job_status event.action } in
              let loaded = (get_workflow_job_by_id job.id app.db).1 in
              rw (e, q) (ground (arith, add_or_update_job-Passing job sequence.timestamp loaded))
        ]
      ]
  handle_event-Passing run_handler payload sequence app =
      elim (Option-cases (d.run_event payload)) [
        | inl n ↦ rw n (ground arith)
        | inr (event, e) ↦ elim (Option-cases (run_status_priority (job_status event.action))) [
          | inl n ↦ rw (e, n) (ground arith)
          | inr (p, q) ↦
              let run = record event.workflow_run {
                status = job_status event.action;
                repository_name = event.repository.name;
              } in
              rw (e, q) (ground (arith, add_or_update_run-Passing run sequence.timestamp app.db))
        ]
      ]

  -- An error of processOrderedEvent is permanent exactly when no handler is registered for the
  -- type of the event.
  pub process_ordered_event-permanent :
      (event : OrderedEvent) (app : App) (e : Error)
      → (process_ordered_event d event app).0 ≡ err e
      → (is_permanent e ≡ true) ↔ (lookup event.event_type handlers ≡ none)
  unfolding process_ordered_event is_permanent
  process_ordered_event-permanent event app e f =
      elim (Option-cases (lookup event.event_type handlers)) [
        | inl n ↦ ground (arith, n)
        | inr (h, y) ↦
            let handled = handle_event d h (payload_of d event.raw_payload) event.sequence app in
            ground (
              arith,
              y,
              handle_event-Passing h (payload_of d event.raw_payload) event.sequence app,
              mark_event_processed-Passing event.sequence.delivery_id handled.1.db,
            )
      ]
