-- ===== src/Pipeline/Effect.antt =====
-- About what a delivery does to its job, from Ingest (handlers/webhook_handler.go) through the
-- workers of internal/services/event_ordering_service.go to AddOrUpdateJob.
use live_actions.Base.{
  ◌≡◌, refl, ◌≤◌, inl, inr, ◌⊎◌, String, some, List, [], ◌∷◌, length, leb, arith, Bool-cases,
  string_eq,
}
use live_actions.Base.Keys.{Any, Any-append}
use live_actions.Base.Table.{lookup}
use live_actions.Models.{Bytes, WorkflowJobEvent, OrderedEvent}
use live_actions.Failure.{Result, ok, err, is_permanent}
use live_actions.Database.Events.Faults.{faults-store_webhook_events, store_webhook_events-jobs}
use live_actions.Handlers.{App, Decoder, process_ordered_event, handlers}
use live_actions.Handlers.Effect.{
  progress, progress-kept, standing, Reports, progress-process_ordered_event,
  faults-process_ordered_event, Reports-process_ordered_event,
}
use live_actions.Ordering.{
  Service, Wake, flush_spill, process, take_event, receive, receive_from, settle_outcome, drain,
  drain_from,
}
use live_actions.Ordering.Bounds.{take_event-Same}
use live_actions.Webhook.{ingest}
use live_actions.Webhook.Ingest.{ingest_outcome, carried}
use live_actions.Pipeline.{Step, delivers, receives, ticks, replays, step, steps}

module _ (d : Decoder) (report : WorkflowJobEvent) where
  -- The job is at least as far as the report says.
  abbrev pub Reflected : App → Type 0
  Reflected app = standing report ≤ progress report.workflow_job.id app.db

  -- No call fails, and the report waits among the events or is reflected.
  abbrev Held : List OrderedEvent → App → Type 0
  Held events app = (app.db.faults ≡ []) × (Any (Reports d report) events ⊎ Reflected app)

  -- An event is handled.
  Held-process_ordered_event :
      (event : OrderedEvent) (rest : List OrderedEvent) (app : App)
      → Held (event ∷ rest) app
      → Held rest (process_ordered_event d event app).1
  Held-process_ordered_event event rest app (f, inl (inl own)) = (
    faults-process_ordered_event d event app f,
    inr (Reports-process_ordered_event d report event app own f),
  )
  Held-process_ordered_event event rest app (f, inl (inr waits)) =
      (faults-process_ordered_event d event app f, inl waits)
  Held-process_ordered_event event rest app (f, inr reached) = (
    faults-process_ordered_event d event app f,
    inr (omega (arith, reached, progress-process_ordered_event d event app report.workflow_job.id)),
  )

  -- The batch that is spilled changes no job.
  Held-flush_spill :
      (events : List OrderedEvent) (s : Service)
      → Held events s.app
      → Held events (flush_spill s).app
  unfolding flush_spill
  Held-flush_spill events s (f, inl waits) =
      (faults-store_webhook_events s.spill s.app.db f, inl waits)
  Held-flush_spill events s (f, inr reached) = (
    faults-store_webhook_events s.spill s.app.db f,
    inr (
        rw
          (progress-kept report.workflow_job.id s.app.db (flush_spill s).app.db
            (store_webhook_events-jobs s.spill s.app.db))
          reached),
  )

  settle_outcome-db :
      (event : OrderedEvent) (s : Service) (out : Result (Unit {0}) × App)
      → (settle_outcome (process_ordered_event d) event s out).app.db ≡ out.1.db
  settle_outcome-db event s (ok _, app) = refl
  settle_outcome-db event s (err e, app) = elim (Bool-cases (is_permanent e)) [
    | inl y ↦ rw y refl
    | inr n ↦ rw n refl
  ]

  Held-take_event :
      (event : OrderedEvent) (rest : List OrderedEvent) (s : Service)
      → Held (event ∷ rest) s.app
      → Held rest (take_event (process_ordered_event d) event s).app
  unfolding take_event process
  Held-take_event event rest s h =
      let s' = process (process_ordered_event d) event s in
      let h' : Held rest s'.app =
        rw (settle_outcome-db event s (process_ordered_event d event s.app))
          (Held-process_ordered_event event rest s.app h) in
      elim (Bool-cases (leb s'.ingest_batch_size (length s'.spill))) [
        | inl y ↦ rw y (Held-flush_spill rest s' h')
        | inr n ↦ rw n h'
      ]

  Held-receive_from :
      (ch : List OrderedEvent) (s : Service)
      → s.ingest_ch ≡ ch
      → Held ch s.app
      → let s' = receive_from (process_ordered_event d) ch s in Held s'.ingest_ch s'.app
  Held-receive_from [] s e h = rw e h
  Held-receive_from (event ∷ rest) s e h =
      rw (take_event-Same (process_ordered_event d) event (record s { ingest_ch = rest })).ingest_ch
        (Held-take_event event rest (record s { ingest_ch = rest }) h)

  drain_from-Reflected :
      (rest : List OrderedEvent) (s : Service)
      → Held rest s.app
      → Reflected (drain_from (process_ordered_event d) rest s).app
  unfolding drain_from
  drain_from-Reflected [] s (f, inl none_left) = absurd none_left
  drain_from-Reflected [] s (f, inr reached) = elim (Held-flush_spill [] s (f, inr reached)).1 [
    | inl none_left ↦ absurd none_left
    | inr reached' ↦ reached'
  ]
  drain_from-Reflected (event ∷ rest) s h =
      drain_from-Reflected rest
        (take_event (process_ordered_event d) event (record s { ingest_ch = rest }))
        (Held-take_event event rest (record s { ingest_ch = rest }) h)

  Held-ingest :
      (wake : Wake) (event_type delivery_id : String) (body : Bytes) (s : Service)
      → Held s.ingest_ch s.app
      → let s' = (ingest d wake event_type delivery_id body s).1 in Held s'.ingest_ch s'.app
  Held-ingest wake event_type delivery_id body s h =
      elim (ingest_outcome d wake event_type delivery_id body s) [
        | inr x ↦ rw x.1 h
        | inl a ↦
            let (event, same_type, id, hot, carries, eq) = a.2 in
            rw eq (
              h.0,
              elim h.1 [
                | inl waits ↦
                    inl (Any-append (Reports d report) s.ingest_ch (event ∷ []) (inl waits))
                | inr reached ↦ inr reached
              ],
            )
      ]

  Held-step :
      (a : Step) (s : Service)
      → Held s.ingest_ch s.app
      → Held (step d a s).ingest_ch (step d a s).app
  unfolding step receive flush_spill
  Held-step (delivers wake event_type delivery_id body) s h =
      Held-ingest wake event_type delivery_id body s h
  Held-step receives s h = Held-receive_from s.ingest_ch s refl h
  Held-step ticks s h = Held-flush_spill s.ingest_ch s h
  Held-step (replays event) s (f, inl waits) =
      (faults-process_ordered_event d event s.app f, inl waits)
  Held-step (replays event) s (f, inr reached) =
      Held-process_ordered_event event s.ingest_ch s.app (f, inr reached)

  Held-steps :
      (actions : List Step) (s : Service)
      → Held s.ingest_ch s.app
      → Held (steps d actions s).ingest_ch (steps d actions s).app
  unfolding steps
  Held-steps [] s h = h
  Held-steps (a ∷ actions) s h = Held-steps actions (step d a s) (Held-step a s h)

  Held-accepted :
      (wake : Wake) (delivery_id : String) (body payload : Bytes) (s : Service)
      → s.app.db.faults ≡ []
      → carried body ≡ some payload
      → d.job_event payload ≡ some report
      → (ingest d wake "workflow_job" delivery_id body s).0.status ≡ 202
      → let s' = (ingest d wake "workflow_job" delivery_id body s).1 in Held s'.ingest_ch s'.app
  unfolding handlers lookup
  Held-accepted wake delivery_id body payload s f c e accepted =
      elim (ingest_outcome d wake "workflow_job" delivery_id body s) [
        | inr x ↦ absurd (ground arith)
        | inl a ↦
            let (event, same_type, id, hot, carries, eq) = a.2 in
            let own : Reports d report event = (rw same_type refl, rw (carries, c) e) in
            rw eq (f, inl (Any-append (Reports d report) s.ingest_ch (event ∷ []) (inr (inl own))))
      ]

  -- If no call of the driver fails, a workflow_job delivery whose payload decodes and that Ingest
  -- answers with 202 is reflected in the row of its job once the ingest worker has drained,
  -- whatever steps come between: the status of the row ranks at least as high as that of the
  -- delivery.
  pub delivered-Reflected :
      (wake : Wake) (delivery_id : String) (body payload : Bytes) (actions : List Step)
      (s : Service)
      → s.app.db.faults ≡ []
      → carried body ≡ some payload
      → d.job_event payload ≡ some report
      → (ingest d wake "workflow_job" delivery_id body s).0.status ≡ 202
      → Reflected
          (drain
            (process_ordered_event d)
            (steps d (delivers wake "workflow_job" delivery_id body ∷ actions) s)).app
  unfolding drain steps step
  delivered-Reflected wake delivery_id body payload actions s f c e accepted =
      let s' = (ingest d wake "workflow_job" delivery_id body s).1 in
      drain_from-Reflected (steps d actions s').ingest_ch (steps d actions s')
        (Held-steps actions s' (Held-accepted wake delivery_id body payload s f c e accepted))
