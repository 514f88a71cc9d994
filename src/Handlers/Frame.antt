-- ===== src/Handlers/Frame.antt =====
-- About what the handlers (handlers/workflow_job_handler.go, handlers/workflow_run_handler.go) do not touch.
use live_actions.Base.{ℕ, ◌≡◌, ap, inl, inr, arith, string_eq, Option-cases}
use live_actions.Models.{Time, Bytes, WorkflowJob, WorkflowRun, EventSequence}
use live_actions.Models.Status.{JobStatus, job_status, job_status_priority, run_status_priority}
use live_actions.Metrics.{Registry}
use live_actions.Database.{Db, call}
use live_actions.Database.Jobs.{get_workflow_job_by_id, add_or_update_job}
use live_actions.Database.Jobs.Refinement.{add_or_update_job-Ends}
use live_actions.Database.Runs.{add_or_update_run}
use live_actions.Database.Runs.Refinement.{add_or_update_run-Ends}
use live_actions.Handlers.{
  App, Decoder, Handler, job_handler, run_handler, handle_event, handle_job_status_transition,
  previous_status,
}

-- What of the database, and of the registry, a handler does not touch.
pub record SameDb (a b : Db) : Type 0 where
  pub events : b.events ≡ a.events
  pub now : b.now ≡ a.now

add_or_update_job-SameDb :
    (job : WorkflowJob) (t : Time) (db : Db) → SameDb db (add_or_update_job job t db).1
add_or_update_job-SameDb job t db = elim (add_or_update_job-Ends job t db) [
  | inl w ↦ record { events = ap (λ (d : Db). d.events) w.3; now = ap (λ (d : Db). d.now) w.3 }
  | inr (inl r) ↦ record {
    events = ap (λ (d : Db). d.events) r.2;
    now = ap (λ (d : Db). d.now) r.2;
  }
  | inr (inr f) ↦ record {
    events = ap (λ (d : Db). d.events) f.1;
    now = ap (λ (d : Db). d.now) f.1;
  }
]

add_or_update_run-SameDb :
    (run : WorkflowRun) (t : Time) (db : Db) → SameDb db (add_or_update_run run t db).1
add_or_update_run-SameDb run t db = elim (add_or_update_run-Ends run t db) [
  | inl w ↦ record { events = ap (λ (d : Db). d.events) w.3; now = ap (λ (d : Db). d.now) w.3 }
  | inr (inl r) ↦ record {
    events = ap (λ (d : Db). d.events) r.2;
    now = ap (λ (d : Db). d.now) r.2;
  }
  | inr (inr f) ↦ record {
    events = ap (λ (d : Db). d.events) f.1;
    now = ap (λ (d : Db). d.now) f.1;
  }
]

get_workflow_job_by_id-SameDb : (id : ℕ) (db : Db) → SameDb db (get_workflow_job_by_id id db).1
unfolding get_workflow_job_by_id call
get_workflow_job_by_id-SameDb id db = ground arith

transition-silent :
    (previous current : JobStatus) (job : WorkflowJob) (r : Registry)
    → (handle_job_status_transition previous current job r).webhook_events_total
      ≡ r.webhook_events_total
unfolding handle_job_status_transition
transition-silent previous current job r = ground arith

pub record Framed (a b : App) : Type 0 where
  pub events : b.db.events ≡ a.db.events
  pub now : b.db.now ≡ a.db.now
  pub counters : b.registry.webhook_events_total ≡ a.registry.webhook_events_total

module _ (d : Decoder) where
  pub handle_event-Framed :
      (h : Handler) (payload : Bytes) (sequence : EventSequence) (app : App)
      → Framed app (handle_event d h payload sequence app).1
  unfolding handle_event
  handle_event-Framed job_handler payload sequence app = elim (Option-cases (d.job_event payload)) [
    | inl n ↦ rw n (ground arith)
    | inr (event, e) ↦ elim (Option-cases (job_status_priority (job_status event.action))) [
      | inl n ↦ rw (e, n) (ground arith)
      | inr (p, q) ↦
          let job = record event.workflow_job { status = job_status event.action } in
          let loaded = (get_workflow_job_by_id job.id app.db).1 in
          rw (e, q)
            (ground (
              arith,
              get_workflow_job_by_id-SameDb job.id app.db,
              add_or_update_job-SameDb job sequence.timestamp loaded,
              transition-silent (previous_status (get_workflow_job_by_id job.id app.db).0)
                  job.status job app.registry,
            ))
    ]
  ]
  handle_event-Framed run_handler payload sequence app = elim (Option-cases (d.run_event payload)) [
    | inl n ↦ rw n (ground arith)
    | inr (event, e) ↦ elim (Option-cases (run_status_priority (job_status event.action))) [
      | inl n ↦ rw (e, n) (ground arith)
      | inr (p, q) ↦
          let run = record event.workflow_run {
            status = job_status event.action;
            repository_name = event.repository.name;
          } in
          rw (e, q) (ground (arith, add_or_update_run-SameDb run sequence.timestamp app.db))
    ]
  ]
