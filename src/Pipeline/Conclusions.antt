-- ===== src/Pipeline/Conclusions.antt =====
-- About the conclusions that the metrics count (handlers/workflow_job_handler.go), over the whole
-- pipeline of internal/services/event_ordering_service.go.
use live_actions.Base.{
  ◌≡◌, refl, inl, inr, String, List, [], ◌∷◌, length, leb, arith, Bool-cases, string_eq,
}
use live_actions.Models.{Bytes, OrderedEvent}
use live_actions.Failure.{Result, ok, err, is_permanent}
use live_actions.Metrics.{Registry}
use live_actions.Database.Events.Faults.{store_webhook_events-jobs}
use live_actions.Handlers.{App, Decoder, process_ordered_event}
use live_actions.Handlers.Conclusions.{
  Once, conclusions, completed_jobs-kept, Once-process_ordered_event,
}
use live_actions.Ordering.{
  Service, Wake, count_all, flush_spill, process, take_event, receive, receive_from, settle_outcome,
  drain, drain_from,
}
use live_actions.Webhook.{ingest}
use live_actions.Webhook.Ingest.{ingest_outcome}
use live_actions.Pipeline.{Step, delivers, receives, ticks, replays, step, steps}

count_all-conclusions :
    (outcome : String) (events : List OrderedEvent) (r : Registry)
    → conclusions (count_all outcome events r) ≡ conclusions r
unfolding count_all
count_all-conclusions outcome [] r = refl
count_all-conclusions outcome (event ∷ events) r = count_all-conclusions outcome events _

Once-flush_spill : (s : Service) → Once s.app (flush_spill s).app
unfolding flush_spill
Once-flush_spill s = omega (
  arith,
  count_all-conclusions _ s.spill s.app.registry,
  completed_jobs-kept s.app.db (flush_spill s).app.db (store_webhook_events-jobs s.spill s.app.db),
)

module _ (d : Decoder) where
  Once-settle_outcome :
      (event : OrderedEvent) (s : Service) (out : Result (Unit {0}) × App)
      → Once s.app out.1
      → Once s.app (settle_outcome (process_ordered_event d) event s out).app
  Once-settle_outcome event s (ok _, app) h = h
  Once-settle_outcome event s (err e, app) h = elim (Bool-cases (is_permanent e)) [
    | inl y ↦ rw y h
    | inr n ↦ rw n h
  ]

  Once-take_event :
      (event : OrderedEvent) (s : Service)
      → Once s.app (take_event (process_ordered_event d) event s).app
  unfolding take_event process
  Once-take_event event s =
      let s' = process (process_ordered_event d) event s in
      let h : Once s.app s'.app =
        Once-settle_outcome event s (process_ordered_event d event s.app)
          (Once-process_ordered_event d event s.app) in
      elim (Bool-cases (leb s'.ingest_batch_size (length s'.spill))) [
        | inl y ↦ rw y (omega (arith, h, Once-flush_spill s'))
        | inr n ↦ rw n h
      ]

  Once-receive_from :
      (ch : List OrderedEvent) (s : Service)
      → Once s.app (receive_from (process_ordered_event d) ch s).app
  Once-receive_from [] s = omega arith
  Once-receive_from (event ∷ rest) s = Once-take_event event (record s { ingest_ch = rest })

  Once-drain_from :
      (rest : List OrderedEvent) (s : Service)
      → Once s.app (drain_from (process_ordered_event d) rest s).app
  unfolding drain_from
  Once-drain_from [] s = Once-flush_spill s
  Once-drain_from (event ∷ rest) s =
      let s' = take_event (process_ordered_event d) event (record s { ingest_ch = rest }) in
      omega (arith, Once-take_event event (record s { ingest_ch = rest }), Once-drain_from rest s')

  Once-ingest :
      (wake : Wake) (event_type delivery_id : String) (body : Bytes) (s : Service)
      → Once s.app (ingest d wake event_type delivery_id body s).1.app
  Once-ingest wake event_type delivery_id body s =
      elim (ingest_outcome d wake event_type delivery_id body s) [
        | inr x ↦ rw x.1 (omega arith)
        | inl a ↦ let (event, t, id, hot, carries, eq) = a.2 in rw eq (omega arith)
      ]

  Once-step : (a : Step) (s : Service) → Once s.app (step d a s).app
  unfolding step receive
  Once-step (delivers wake event_type delivery_id body) s =
      Once-ingest wake event_type delivery_id body s
  Once-step receives s = Once-receive_from s.ingest_ch s
  Once-step ticks s = Once-flush_spill s
  Once-step (replays event) s = Once-process_ordered_event d event s.app

  Once-steps : (actions : List Step) (s : Service) → Once s.app (steps d actions s).app
  unfolding steps
  Once-steps [] s = omega arith
  Once-steps (a ∷ actions) s = omega (arith, Once-step a s, Once-steps actions (step d a s))

  -- Over any deliveries, receipts, ticks and replays, and the drain after them, whatever calls of
  -- the driver fail, the number of conclusions that the metrics count grows by at most the number
  -- by which the completed jobs of the table grow.
  pub Once-drain-steps :
      (actions : List Step) (s : Service)
      → Once s.app (drain (process_ordered_event d) (steps d actions s)).app
  unfolding drain
  Once-drain-steps actions s =
      let s' = steps d actions s in
      omega (arith, Once-steps actions s, Once-drain_from s'.ingest_ch s')
