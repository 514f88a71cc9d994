-- ===== src/Handlers.antt =====
-- handlers/event_handler.go, workflow_job_handler.go, workflow_run_handler.go, and
-- processOrderedEvent of webhook_handler.go.
pub mod Conclusions
pub mod Effect
pub mod Frame
pub mod Outcome
pub mod Permanent
pub mod Reliable
use live_actions.Base.{
  ℕ, suc, ◌+◌, ◌≤◌, String, Bool, true, false, not, ◌&&◌, Option, none, some, List, [], ◌∷◌, ◌++◌,
  map, filter, length, ltb, nat_beq, nat_eq, string_eq, ◌==◌, if◌then◌else◌,
}
use live_actions.Base.Int.{ℤ, sub_ℕ}
use live_actions.Base.Table.{Table, lookup, upsert}
use live_actions.Models.{
  Time, Bytes, WorkflowJob, WorkflowJobEvent, WorkflowRunEvent, WorkflowUpdateEvent, no_job,
  EventSequence, OrderedEvent,
}
use live_actions.Models.Status.{
  JobStatus, queued, completed, other, job_status, status_eq, job_status_priority,
  run_status_priority,
}
use live_actions.Failure.{Error, new, wrap, err_permanent, Result, ok, err}
use live_actions.Metrics.{Registry, record_queue_duration, record_job_conclusion}
use live_actions.Sse.{Sse, send_workflow_update}
use live_actions.Database.{Db}
use live_actions.Database
use live_actions.Database.Jobs.{get_workflow_job_by_id, add_or_update_job}
use live_actions.Database.Runs.{add_or_update_run}
use live_actions.Database.Events.{mark_event_processed, mark_event_failed}

-- `json.Unmarshal` into each event type; `none` is its error.
pub record Decoder : Type 0 where
  pub job_event : Bytes → Option WorkflowJobEvent
  pub run_event : Bytes → Option WorkflowRunEvent
  pub is_object : Bytes → Bool

-- What the handlers share: the database, the metrics and the SSE handler.
pub record App : Type 0 where
  pub db : Db
  pub registry : Registry
  pub sse : Option Sse

abbrev pub Handling : Type 0 → Type 0
Handling A = App → Result A × App

abbrev continue : {A B : Type 0} → Result A × App → (A → Handling B) → Result B × App
continue (ok a, app) f = f a app
continue (err e, app) f = (err e, app)

infixl 5 ◌>>=◌ ◌>>◌
abbrev pub ◌>>=◌ : {A B : Type 0} → Handling A → (A → Handling B) → Handling B
◌>>=◌ m f app = continue (m app) f

abbrev pub ◌>>◌ : {B : Type 0} → Handling (Unit {0}) → Handling B → Handling B
m >> k = m >>= λ _. k

abbrev pub pure : {A : Type 0} → A → Handling A
pure a app = (ok a, app)

abbrev with_db : {A : Type 0} → App → Result A × Db → Result A × App
with_db app (r, db) = (r, record app { db = db })

abbrev pub on_db : {A : Type 0} → Database.Exec A → Handling A
on_db m app = with_db app (m app.db)

abbrev annotated : {A : Type 0} → String → Result A × App → Result A × App
annotated message (ok a, app) = (ok a, app)
annotated message (err e, app) = (err (wrap message e), app)

abbrev pub wrapping : {A : Type 0} → String → Handling A → Handling A
wrapping message m app = annotated message (m app)

-- `models.WorkflowJob{}` has the empty status, also where the query fails: that error is only logged.
abbrev pub previous_status : Result (Option WorkflowJob) → JobStatus
previous_status (ok (some job)) = job.status
previous_status (ok none) = other ""
previous_status (err e) = other ""

abbrev load_previous : ℕ → Handling JobStatus
load_previous id app = found app (get_workflow_job_by_id id app.db)
  where
    found : App → Result (Option WorkflowJob) × Db → Result JobStatus × App
    found app (r, db) = (ok (previous_status r), record app { db = db })

-- The label under which a job's queue time is recorded.
abbrev first_label : Option (List String) → String
first_label none = "(unlabeled)"
first_label (some []) = "(unlabeled)"
first_label (some (label ∷ labels)) = label

abbrev record_queue_time : JobStatus → WorkflowJob → Registry → Registry
record_queue_time previous job r =
    if status_eq previous queued && not (nat_beq job.started_at 0)
    then record_queue_duration (first_label job.labels) (sub_ℕ job.started_at job.created_at) r
    else r

abbrev record_conclusion : JobStatus → WorkflowJob → Registry → Registry
record_conclusion current job r =
    if status_eq current completed && not (job.conclusion == "")
    then record_job_conclusion job.conclusion r
    else r

unfoldable pub handle_job_status_transition :
    JobStatus → JobStatus → WorkflowJob → Registry → Registry
unfolding status_eq
handle_job_status_transition previous current job r =
    if status_eq previous current
    then r
    else record_conclusion current job (record_queue_time previous job r)

abbrev on_registry : (Registry → Registry) → Handling (Unit {0})
on_registry f app = (ok tt, record app { registry = f app.registry })

abbrev after_update : JobStatus → WorkflowJob → Bool → Handling (Unit {0})
after_update previous job false = pure tt
after_update previous job true = on_registry (handle_job_status_transition previous job.status job)

-- What is done once AddOrUpdateJob has ended.
abbrev pub save_result : JobStatus → WorkflowJob → Result Bool × Db → Handling (Unit {0})
save_result previous job out = do
  updated ← wrapping "failed to save workflow job" (λ app. with_db app out)
  after_update previous job updated

abbrev save_job : WorkflowJob → Time → Option ℕ → Handling (Unit {0})
save_job job t none = pure tt
save_job job t (some priority) = do
  previous ← load_previous job.id
  updated ← wrapping "failed to save workflow job" (on_db (add_or_update_job job t))
  after_update previous job updated

abbrev handle_job : Option WorkflowJobEvent → EventSequence → Handling (Unit {0})
handle_job none sequence app = (err (wrap "invalid JSON payload" (new "json")), app)
handle_job (some event) sequence app =
    let job = record event.workflow_job { status = job_status event.action } in
    save_job job sequence.timestamp (job_status_priority job.status) app

abbrev send_run : WorkflowRunEvent → Bool → Handling (Unit {0})
send_run event false app = (ok tt, app)
send_run event true app = (
  ok tt,
  record app {
    sse =
        send_workflow_update
          (record {
            kind = "run";
            action = event.action;
            id = event.workflow_run.id;
            status = event.workflow_run.status;
            timestamp = app.db.now;
            workflow_job = no_job;
            workflow_run = event.workflow_run;
          })
          app.sse;
  },
)

abbrev save_run : WorkflowRunEvent → Time → Option ℕ → Handling (Unit {0})
save_run event t none = pure tt
save_run event t (some priority) = do
  updated ← wrapping "failed to save workflow run" (on_db (add_or_update_run event.workflow_run t))
  send_run event updated

abbrev handle_run : Option WorkflowRunEvent → EventSequence → Handling (Unit {0})
handle_run none sequence app = (err (wrap "invalid JSON payload" (new "json")), app)
handle_run (some event) sequence app =
    let run = record event.workflow_run {
      status = job_status event.action;
      repository_name = event.repository.name;
    } in
    save_run (record event { workflow_run = run }) sequence.timestamp
      (run_status_priority run.status) app

-- The handlers that NewWebhookHandler registers, under the event types that they name.
pub data Handler : Type 0 where
  job_handler run_handler : Handler

abbrev get_event_type : Handler → String
get_event_type job_handler = "workflow_job"
get_event_type run_handler = "workflow_run"

abbrev register_handler : Handler → Table String Handler → Table String Handler
register_handler h handlers = upsert (get_event_type h) h handlers

unfoldable pub handlers : Table String Handler
unfolding upsert
handlers = register_handler run_handler (register_handler job_handler [])

module _ (d : Decoder) where
  unfoldable pub handle_event : Handler → Bytes → EventSequence → Handling (Unit {0})
  unfolding job_status job_status_priority run_status_priority get_workflow_job_by_id
      add_or_update_job add_or_update_run handle_job_status_transition send_workflow_update
  handle_event job_handler payload sequence = handle_job (d.job_event payload) sequence
  handle_event run_handler payload sequence = handle_run (d.run_event payload) sequence

  abbrev pub payload_of : Option Bytes → Bytes
  payload_of none = []
  payload_of (some bytes) = bytes

  -- `_ = h.db.MarkEventFailed(…)`: its error is dropped.
  abbrev give_up : OrderedEvent → Error → App → Result (Unit {0}) × App
  give_up event e app = (
    err (wrap "failed to handle event" e),
    if event.persisted then (on_db (mark_event_failed event.sequence.delivery_id) app).1 else app,
  )

  abbrev pub finish : OrderedEvent → Result (Unit {0}) × App → Result (Unit {0}) × App
  finish event (err e, app) = give_up event e app
  finish event (ok _, app) =
      if event.persisted
      then on_db (mark_event_processed event.sequence.delivery_id) app
      else (ok tt, app)

  abbrev dispatch : OrderedEvent → Option Handler → Handling (Unit {0})
  dispatch event none app = (err (wrap "event type" err_permanent), app)
  dispatch event (some h) app =
      finish event (handle_event h (payload_of event.raw_payload) event.sequence app)

  unfoldable pub process_ordered_event : OrderedEvent → Handling (Unit {0})
  unfolding handlers lookup handle_event mark_event_processed mark_event_failed
  process_ordered_event event = dispatch event (lookup event.event_type handlers)
