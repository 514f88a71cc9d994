-- ===== src/Handlers/Effect.antt =====
-- About what the handlers (handlers/workflow_job_handler.go, handlers/workflow_run_handler.go) and
-- processOrderedEvent (handlers/webhook_handler.go) do to the statuses of jobs.
use live_actions.Base.{
  ℕ, ◌≤◌, ◌≡◌, refl, ap, inl, inr, String, Option, none, some, [], arith, string_eq, Option-cases,
  nat_beq_iff,
}
use live_actions.Base.Table.{lookup}
use live_actions.Models.{
  Bytes, WorkflowRun, WorkflowJob, WorkflowJobEvent, Time, EventSequence, OrderedEvent,
}
use live_actions.Models.Status.{
  JobStatus, job_status, job_status_priority, run_status_priority, job_lifecycle,
}
use live_actions.Failure.{Result-cases}
use live_actions.Database.{Db, call}
use live_actions.Database.Transition.{rank, later}
use live_actions.Database.Jobs.{get_workflow_job_by_id, job_status_of, add_or_update_job}
use live_actions.Database.Jobs.Order.{
  rank-add_or_update_job, add_or_update_job-later, job_status_of-kept, no_faults,
}
use live_actions.Database.Runs.{add_or_update_run}
use live_actions.Database.Runs.Refinement.{add_or_update_run-Ends}
use live_actions.Database.Events.{mark_event_processed, mark_event_failed}
use live_actions.Handlers.{
  App, Decoder, Handler, job_handler, run_handler, handle_event, process_ordered_event, handlers,
  payload_of,
}
use live_actions.Handlers.Reliable.{
  mark_processed-faults, mark_failed-faults, handle_event-faults, get_workflow_job_by_id-faults,
}

-- How far job `k` is.
abbrev pub progress : ℕ → Db → ℕ
progress k db = rank job_lifecycle (job_status_of k db)

pub progress-kept : (k : ℕ) (db db' : Db) → db'.jobs ≡ db.jobs → progress k db' ≡ progress k db
progress-kept k db db' e = ap (rank job_lifecycle) (job_status_of-kept k db db' e)

pub get_workflow_job_by_id-jobs :
    (id : ℕ) (db : Db) → (get_workflow_job_by_id id db).1.jobs ≡ db.jobs
unfolding get_workflow_job_by_id call
get_workflow_job_by_id-jobs id db = ground arith

pub add_or_update_run-jobs :
    (run : WorkflowRun) (t : Time) (db : Db) → (add_or_update_run run t db).1.jobs ≡ db.jobs
add_or_update_run-jobs run t db = elim (add_or_update_run-Ends run t db) [
  | inl w ↦ ap (λ (d : Db). d.jobs) w.3
  | inr (inl r) ↦ ap (λ (d : Db). d.jobs) r.2
  | inr (inr f) ↦ ap (λ (d : Db). d.jobs) f.1
]

pub mark_processed-jobs : (id : String) (db : Db) → (mark_event_processed id db).1.jobs ≡ db.jobs
unfolding mark_event_processed call
mark_processed-jobs id db = ground arith

pub mark_failed-jobs : (id : String) (db : Db) → (mark_event_failed id db).1.jobs ≡ db.jobs
unfolding mark_event_failed call
mark_failed-jobs id db = ground arith

later-reaches :
    (existing : Option JobStatus) (incoming : JobStatus)
    → rank job_lifecycle (some incoming)
      ≤ rank job_lifecycle (later job_lifecycle existing incoming)
later-reaches existing incoming = ground arith

reports-add_or_update_job :
    (job : WorkflowJob) (t : Time) (db : Db)
    → db.faults ≡ []
    → rank job_lifecycle (some job.status) ≤ progress job.id (add_or_update_job job t db).1
reports-add_or_update_job job t db f = elim (Result-cases (add_or_update_job job t db).0) [
  | inl (b, r) ↦
      rw (add_or_update_job-later job t db b r job.id, (nat_beq_iff job.id job.id).1 refl)
        (later-reaches (job_status_of job.id db) job.status)
  | inr x ↦ absurd ((no_faults job t db f).0 x)
]

rank-none : (s : JobStatus) → job_status_priority s ≡ none → rank job_lifecycle (some s) ≡ 0
unfolding job_lifecycle
rank-none s n = ground arith

-- How far the status is that a job event reports.
abbrev pub standing : WorkflowJobEvent → ℕ
standing event = rank job_lifecycle (some (job_status event.action))

module _ (d : Decoder) where
  -- Handling an event moves no job back, whatever fails.
  progress-handle_event :
      (h : Handler) (payload : Bytes) (sequence : EventSequence) (app : App) (k : ℕ)
      → progress k app.db ≤ progress k (handle_event d h payload sequence app).1.db
  unfolding handle_event
  progress-handle_event job_handler payload sequence app k =
      elim (Option-cases (d.job_event payload)) [
        | inl n ↦ rw n (ground arith)
        | inr (event, e) ↦ elim (Option-cases (job_status_priority (job_status event.action))) [
          | inl n ↦ rw (e, n) (ground arith)
          | inr (p, q) ↦
              let job = record event.workflow_job { status = job_status event.action } in
              let loaded = (get_workflow_job_by_id job.id app.db).1 in
              rw (e, q)
                (ground (
                  arith,
                  progress-kept k app.db loaded (get_workflow_job_by_id-jobs job.id app.db),
                  rank-add_or_update_job job sequence.timestamp loaded k,
                ))
        ]
      ]
  progress-handle_event run_handler payload sequence app k =
      elim (Option-cases (d.run_event payload)) [
        | inl n ↦ rw n (ground arith)
        | inr (event, e) ↦ elim (Option-cases (run_status_priority (job_status event.action))) [
          | inl n ↦ rw (e, n) (ground arith)
          | inr (p, q) ↦
              let run = record event.workflow_run {
                status = job_status event.action;
                repository_name = event.repository.name;
              } in
              rw (e, q)
                (ground (
                  arith,
                  progress-kept k app.db (add_or_update_run run sequence.timestamp app.db).1
                      (add_or_update_run-jobs run sequence.timestamp app.db),
                ))
        ]
      ]

  -- Where no call fails, a job event that is handled has brought its job at least to its status.
  reports-handle_event :
      (payload : Bytes) (sequence : EventSequence) (app : App) (event : WorkflowJobEvent)
      → d.job_event payload ≡ some event
      → app.db.faults ≡ []
      → standing event
        ≤ progress event.workflow_job.id (handle_event d job_handler payload sequence app).1.db
  unfolding handle_event
  reports-handle_event payload sequence app event e f =
      elim (Option-cases (job_status_priority (job_status event.action))) [
        | inl n ↦ rw (rank-none (job_status event.action) n) (omega arith)
        | inr (p, q) ↦
            let job = record event.workflow_job { status = job_status event.action } in
            let loaded = (get_workflow_job_by_id job.id app.db).1 in
            rw (e, q)
              (ground (
                arith,
                reports-add_or_update_job job sequence.timestamp loaded
                    (get_workflow_job_by_id-faults job.id app.db f),
              ))
      ]

  -- Processing an event moves no job back, whatever fails.
  pub progress-process_ordered_event :
      (event : OrderedEvent) (app : App) (k : ℕ)
      → progress k app.db ≤ progress k (process_ordered_event d event app).1.db
  unfolding process_ordered_event
  progress-process_ordered_event event app k =
      elim (Option-cases (lookup event.event_type handlers)) [
        | inl n ↦ rw n (ground arith)
        | inr (h, e) ↦
            let handled = handle_event d h (payload_of d event.raw_payload) event.sequence app in
            rw e (
              ground (
                arith,
                progress-handle_event h (payload_of d event.raw_payload) event.sequence app k,
                progress-kept k handled.1.db
                    (mark_event_processed event.sequence.delivery_id handled.1.db).1
                    (mark_processed-jobs event.sequence.delivery_id handled.1.db),
                progress-kept k handled.1.db
                    (mark_event_failed event.sequence.delivery_id handled.1.db).1
                    (mark_failed-jobs event.sequence.delivery_id handled.1.db),
              ))
      ]

  pub faults-process_ordered_event :
      (event : OrderedEvent) (app : App)
      → app.db.faults ≡ []
      → (process_ordered_event d event app).1.db.faults ≡ []
  unfolding process_ordered_event
  faults-process_ordered_event event app f =
      elim (Option-cases (lookup event.event_type handlers)) [
        | inl n ↦ rw n f
        | inr (h, e) ↦
            let handled = handle_event d h (payload_of d event.raw_payload) event.sequence app in
            let fine =
              handle_event-faults d h (payload_of d event.raw_payload) event.sequence app f in
            rw e (
              ground (
                arith,
                fine,
                mark_processed-faults event.sequence.delivery_id handled.1.db fine,
                mark_failed-faults event.sequence.delivery_id handled.1.db fine,
              ))
      ]

  -- An event of the type that the job handler is registered for, and that it can decode.
  abbrev pub Reports : WorkflowJobEvent → OrderedEvent → Type 0
  Reports report event =
      (lookup event.event_type handlers ≡ some job_handler)
      × (d.job_event (payload_of d event.raw_payload) ≡ some report)

  pub Reports-process_ordered_event :
      (report : WorkflowJobEvent) (event : OrderedEvent) (app : App)
      → Reports report event
      → app.db.faults ≡ []
      → standing report ≤ progress report.workflow_job.id (process_ordered_event d event app).1.db
  unfolding process_ordered_event
  Reports-process_ordered_event report event app r f =
      let id = event.sequence.delivery_id in
      let payload = payload_of d event.raw_payload in
      let handled = handle_event d job_handler payload event.sequence app in
      let k = report.workflow_job.id in
      rw (r.0) (
        ground (
          arith,
          reports-handle_event payload event.sequence app report r.1 f,
          progress-kept k handled.1.db (mark_event_processed id handled.1.db).1
              (mark_processed-jobs id handled.1.db),
          progress-kept k handled.1.db (mark_event_failed id handled.1.db).1
              (mark_failed-jobs id handled.1.db),
        ))
