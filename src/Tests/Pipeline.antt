-- ===== src/Tests/Pipeline.antt =====
-- Deliveries from Ingest to the tables.
use live_actions.Base.{◌<◌, ◌≡◌, refl, true, false, some, List, [], ◌∷◌, arith}
use live_actions.Models.{WorkflowJobEvent}
use live_actions.Models.Status.{completed}
use live_actions.Handlers.{App, process_ordered_event}
use live_actions.Database.{call}
use live_actions.Base.Table.{upsert}
use live_actions.Failure.{is_permanent}
use live_actions.Models.Status.{job_lifecycle}
use live_actions.Database.Transition.{admits}
use live_actions.Database.Jobs.{job_status_of, job_row}
use live_actions.Database.Events.{store_webhook_events, event_row}
use live_actions.Ordering.{
  timed_out, new_service, receive, drain, drain_from, take_event, process, flush_spill,
}
use live_actions.Ordering.Drain.{waiting}
use live_actions.Webhook.{ingest}
use live_actions.Webhook.Encoding.{has_prefix}
use live_actions.Pipeline.{
  Step, delivers, receives, ticks, step, steps, stop, stopped, stop-drains, IsSound, steps-IsSound,
}
use live_actions.Handlers.Conclusions.{Once, conclusions}
use live_actions.Pipeline.Conclusions.{Once-drain-steps}
use live_actions.Pipeline.Effect.{Reflected, delivered-Reflected}
use live_actions.Webhook.Ingest.{carried}
use live_actions.Tests.Samples.{job_at, empty_db, new_app, decoder}

-- A completed job, its late queued event, and a payload that no handler can decode.
abbrev late_deliveries : List Step
late_deliveries =
    delivers timed_out "workflow_job" "b" (1 ∷ [])
    ∷ delivers timed_out "workflow_job" "c" (9 ∷ [])
    ∷ ticks
    ∷ []

abbrev deliveries : List Step
deliveries = delivers timed_out "workflow_job" "a" (2 ∷ []) ∷ receives ∷ late_deliveries

-- The second call of the driver fails.
abbrev flaky_app : App
flaky_app = record new_app { db = record empty_db { faults = false ∷ true ∷ [] } }

no_fault : (stopped decoder deliveries flaky_app).app.db.faults ≡ []
unfolding steps step new_service ingest receive drain drain_from take_event process
    process_ordered_event flush_spill store_webhook_events call admits job_lifecycle job_row
    event_row upsert is_permanent
no_fault = refl

-- The first event is spilled.
one_waiting : waiting (stopped decoder deliveries flaky_app).app ≡ 1
unfolding steps step new_service ingest receive drain drain_from take_event process
    process_ordered_event flush_spill store_webhook_events call admits job_lifecycle job_row
    event_row upsert is_permanent
one_waiting = refl

few_waiting : waiting (stopped decoder deliveries flaky_app).app < 2
few_waiting = rw one_waiting (omega arith)

stop-drains_example :
    (app' : App) × (stop decoder 2 (λ _. false) (steps decoder deliveries (new_service flaky_app))
      ≡ some app')
    × (waiting app' ≡ 0)
    × ((stopped decoder deliveries flaky_app).ingest_ch ≡ [])
    × ((stopped decoder deliveries flaky_app).spill ≡ [])
stop-drains_example = stop-drains decoder deliveries flaky_app 2 ((tt, tt)) no_fault few_waiting

-- The late event changed nothing.
job_completed : job_status_of 7 (stopped decoder deliveries new_app).app.db ≡ some completed
unfolding steps step new_service ingest receive drain drain_from take_event process
    process_ordered_event flush_spill store_webhook_events call admits job_lifecycle job_row
    event_row upsert is_permanent job_status_of
job_completed = refl

new_IsSound : IsSound (new_service flaky_app)
unfolding new_service
new_IsSound = record { stored = (tt, tt); queued = tt; spilled = tt }

steps-IsSound_example : IsSound (steps decoder deliveries (new_service flaky_app))
steps-IsSound_example = steps-IsSound decoder deliveries (new_service flaky_app) new_IsSound

abbrev completion : WorkflowJobEvent
completion = record { action = "completed"; workflow_job = job_at completed }

plain_body : carried (2 ∷ []) ≡ some (2 ∷ [])
unfolding has_prefix
plain_body = refl

completion_accepted :
    (ingest decoder timed_out "workflow_job" "a" (2 ∷ []) (new_service new_app)).0.status ≡ 202
unfolding ingest new_service
completion_accepted = refl

delivered-Reflected_example :
    Reflected decoder completion
      (drain (process_ordered_event decoder) (steps decoder deliveries (new_service new_app))).app
unfolding new_service
delivered-Reflected_example =
    delivered-Reflected decoder completion timed_out "a" (2 ∷ []) (2 ∷ [])
      (receives ∷ late_deliveries) (new_service new_app) refl plain_body refl completion_accepted

Once-drain-steps_example :
    Once new_app
      (drain (process_ordered_event decoder) (steps decoder deliveries (new_service new_app))).app
unfolding new_service
Once-drain-steps_example = Once-drain-steps decoder deliveries (new_service new_app)

-- One conclusion is counted, of the one job that was completed.
one_conclusion : conclusions (stopped decoder deliveries new_app).app.registry ≡ 1
unfolding steps step new_service ingest receive drain drain_from take_event process
    process_ordered_event flush_spill store_webhook_events call admits job_lifecycle job_row
    event_row upsert is_permanent job_status_of
one_conclusion = refl
