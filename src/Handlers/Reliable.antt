-- ===== src/Handlers/Reliable.antt =====
-- About processOrderedEvent (handlers/webhook_handler.go) where no call of the driver fails.
use live_actions.Base.{
  ℕ, ◌≡◌, inl, inr, ◌⊎◌, String, true, some, [], arith, string_eq, Option-cases,
}
use live_actions.Base.Table.{lookup, update}
use live_actions.Models.{Bytes, EventSequence, OrderedEvent}
use live_actions.Models.Status.{job_status, job_status_priority, run_status_priority}
use live_actions.Database.{Db, EventRow, call}
use live_actions.Database.Jobs.{get_workflow_job_by_id}
use live_actions.Database.Jobs.Order as Jobs
use live_actions.Database.Runs.Order as Runs
use live_actions.Database.Events.{mark_event_processed, mark_event_failed, done, given_up}
use live_actions.Handlers.{
  App, Decoder, Handler, job_handler, run_handler, handle_event, process_ordered_event, handlers,
  payload_of,
}
use live_actions.Handlers.Frame.{handle_event-Framed}

pub get_workflow_job_by_id-faults :
    (id : ℕ) (db : Db) → db.faults ≡ [] → (get_workflow_job_by_id id db).1.faults ≡ []
unfolding get_workflow_job_by_id call
get_workflow_job_by_id-faults id db h = ground arith

-- A mark is made where no call fails.
abbrev pub Marked : (EventRow → EventRow) → String → Db → Db → Type 0
Marked f id db db' = (db'.events ≡ update id f db.events) × (db'.faults ≡ [])

mark_processed-Marked :
    (id : String) (db : Db)
    → db.faults ≡ []
    → Marked (done db.now) id db (mark_event_processed id db).1
unfolding mark_event_processed call
mark_processed-Marked id db h = ground arith

mark_failed-Marked :
    (id : String) (db : Db) → db.faults ≡ [] → Marked given_up id db (mark_event_failed id db).1
unfolding mark_event_failed call
mark_failed-Marked id db h = ground arith

pub mark_processed-faults :
    (id : String) (db : Db) → db.faults ≡ [] → (mark_event_processed id db).1.faults ≡ []
mark_processed-faults id db h = (mark_processed-Marked id db h).1

pub mark_failed-faults :
    (id : String) (db : Db) → db.faults ≡ [] → (mark_event_failed id db).1.faults ≡ []
mark_failed-faults id db h = (mark_failed-Marked id db h).1

module _ (d : Decoder) where
  pub handle_event-faults :
      (h : Handler) (payload : Bytes) (sequence : EventSequence) (app : App)
      → app.db.faults ≡ []
      → (handle_event d h payload sequence app).1.db.faults ≡ []
  unfolding handle_event
  handle_event-faults job_handler payload sequence app f =
      elim (Option-cases (d.job_event payload)) [
        | inl n ↦ rw n (ground arith)
        | inr (event, e) ↦ elim (Option-cases (job_status_priority (job_status event.action))) [
          | inl n ↦ rw (e, n) (ground arith)
          | inr (p, q) ↦
              let job = record event.workflow_job { status = job_status event.action } in
              let loaded = (get_workflow_job_by_id job.id app.db).1 in
              rw (e, q)
                (ground (
                  arith,
                  get_workflow_job_by_id-faults job.id app.db,
                  Jobs.no_faults job sequence.timestamp loaded,
                ))
        ]
      ]
  handle_event-faults run_handler payload sequence app f =
      elim (Option-cases (d.run_event payload)) [
        | inl n ↦ rw n (ground arith)
        | inr (event, e) ↦ elim (Option-cases (run_status_priority (job_status event.action))) [
          | inl n ↦ rw (e, n) (ground arith)
          | inr (p, q) ↦
              let run = record event.workflow_run {
                status = job_status event.action;
                repository_name = event.repository.name;
              } in
              rw (e, q) (ground (arith, Runs.no_faults run sequence.timestamp app.db))
        ]
      ]

  -- The row of a replayed event of a known type is marked, one way or the other.
  pub process_ordered_event-marks :
      (event : OrderedEvent) (app : App) (h : Handler)
      → app.db.faults ≡ []
      → event.persisted ≡ true
      → lookup event.event_type handlers ≡ some h
      → Marked
          (done app.db.now)
          event.sequence.delivery_id
          app.db
          (process_ordered_event d event app).1.db
        ⊎ Marked given_up event.sequence.delivery_id app.db (process_ordered_event d event app).1.db
  unfolding process_ordered_event
  process_ordered_event-marks event app h f p e =
      let payload = payload_of d event.raw_payload in
      let handled = handle_event d h payload event.sequence app in
      rw e (
        ground (
          arith,
          handle_event-Framed d h payload event.sequence app,
          handle_event-faults h payload event.sequence app,
          mark_processed-Marked event.sequence.delivery_id handled.1.db,
          mark_failed-Marked event.sequence.delivery_id handled.1.db,
        ))
