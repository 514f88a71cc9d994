-- ===== src/Ordering/Schedule.antt =====
-- Interleavings: callers of AddEvent and the rounds of ingestWorker's `select`, in any order.
use live_actions.Base.{
  ℕ, ◌+◌, ◌≡◌, String, List, [], ◌∷◌, length, length-append, arith, if◌then◌else◌, string_eq, ◌==◌,
}
use live_actions.Models.{OrderedEvent}
use live_actions.Failure.{Result, ok, err, is_permanent}
use live_actions.Metrics.{Registry, outcome_total, count_webhook_event}
use live_actions.Handlers.{App, Handling}
use live_actions.Database.Events.{store_webhook_events}
use live_actions.Ordering.{
  Service, Wake, new_service, add_event, count_all, spill_outcome, flush_spill, process, take_event,
  receive, receive_from,
}
use live_actions.Ordering.Bounds.{
  IsBounded, new_service-IsBounded, add_event-IsBounded, flush_spill-IsBounded, receive-IsBounded,
}

pub data Action : Type 0 where
  adds : Wake → OrderedEvent → Action
  receives : Action
  ticks : Action

module _ (process_func : OrderedEvent → Handling (Unit {0})) where
  pub act : Action → Service → Service
  act (adds wake event) s = (add_event wake event s).1
  act receives s = receive process_func s
  act ticks s = flush_spill s

  pub run : List Action → Service → Service
  run [] s = s
  run (a ∷ actions) s = run actions (act a s)

  act-IsBounded : (a : Action) (s : Service) → IsBounded s → IsBounded (act a s)
  unfolding act
  act-IsBounded (adds wake event) s v = add_event-IsBounded wake event s v
  act-IsBounded receives s v = receive-IsBounded process_func s v
  act-IsBounded ticks s v = flush_spill-IsBounded s v

  run_from-IsBounded :
      (actions : List Action) (s : Service) → IsBounded s → IsBounded (run actions s)
  unfolding run
  run_from-IsBounded [] s v = v
  run_from-IsBounded (a ∷ actions) s v = run_from-IsBounded actions (act a s) (act-IsBounded a s v)

  -- From a new service, after any interleaving of AddEvent calls, receipts and ticks, the channel
  -- holds at most its capacity and the spill buffer less than a batch.
  pub run-IsBounded :
      (actions : List Action) (app : App) → IsBounded (run actions (new_service app))
  run-IsBounded actions app =
      run_from-IsBounded actions (new_service app) (new_service-IsBounded app)

-- The events that the pipeline holds, or has let go of, because of a transient failure.
abbrev pub held : Service → ℕ
held s =
    outcome_total "spilled" s.app.registry
    + outcome_total "spill_failed" s.app.registry
    + length s.spill

total-count_all :
    (o o' : String) (events : List OrderedEvent) (r : Registry)
    → outcome_total o (count_all o' events r)
      ≡ (if o' == o then length events else 0) + outcome_total o r
unfolding count_all
total-count_all o o' [] r = ground arith
total-count_all o o' (event ∷ events) r =
    ground (arith, total-count_all o o' events (count_webhook_event event.event_type o' r))

held-flush_spill : (s : Service) → held (flush_spill s) ≡ held s
unfolding flush_spill
held-flush_spill s =
    let o = spill_outcome (store_webhook_events s.spill s.app.db).0 in
    ground (
      arith,
      total-count_all "spilled" "spilled" s.spill s.app.registry,
      total-count_all "spill_failed" "spilled" s.spill s.app.registry,
      total-count_all "spilled" "spill_failed" s.spill s.app.registry,
      total-count_all "spill_failed" "spill_failed" s.spill s.app.registry,
    )

-- Does handling fail in a way that is retried?
abbrev pub failure_weight : Result (Unit {0}) → ℕ
failure_weight (ok _) = 0
failure_weight (err e) = if is_permanent e then 0 else 1

module _ (process_func : OrderedEvent → Handling (Unit {0})) where
  -- The failures to be retried that an action, and a schedule, meets.
  abbrev weight : List OrderedEvent → Action → Service → ℕ
  weight (event ∷ rest) receives s = failure_weight (process_func event s.app).0
  weight [] receives s = 0
  weight ch (adds wake event) s = 0
  weight ch ticks s = 0

  unfoldable pub failures : List Action → Service → ℕ
  unfolding act
  failures [] s = 0
  failures (a ∷ actions) s = weight s.ingest_ch a s + failures actions (act process_func a s)

-- The handling of events does not touch the ingest counters.
abbrev pub IsSilent : (OrderedEvent → Handling (Unit {0})) → Type 0
IsSilent process_func =
    (event : OrderedEvent) (app : App)
    → (process_func event app).1.registry.webhook_events_total ≡ app.registry.webhook_events_total

module _ (process_func : OrderedEvent → Handling (Unit {0})) (silent : IsSilent process_func) where
  held-process :
      (event : OrderedEvent) (s : Service)
      → held (process process_func event s) ≡ held s + failure_weight (process_func event s.app).0
  unfolding process
  held-process event s = ground (arith, silent event s.app, length-append s.spill (event ∷ []))

  held-take_event :
      (event : OrderedEvent) (s : Service)
      → held (take_event process_func event s)
        ≡ held s + failure_weight (process_func event s.app).0
  unfolding take_event
  held-take_event event s =
      ground (arith, held-process event s, held-flush_spill (process process_func event s))

  held-act :
      (a : Action) (s : Service)
      → held (act process_func a s) ≡ held s + weight process_func s.ingest_ch a s
  unfolding act add_event receive
  held-act (adds wake event) s = ground arith
  held-act ticks s = omega (arith, held-flush_spill s)
  held-act receives s = received s.ingest_ch
    where
      received :
          (ch : List OrderedEvent)
          → held (receive_from process_func ch s) ≡ held s + weight process_func ch receives s
      received [] = omega arith
      received (event ∷ rest) = held-take_event event (record s { ingest_ch = rest })

  -- Over any interleaving of AddEvent calls, receipts and ticks, the events counted as spilled,
  -- counted as lost or still in the spill buffer grow by exactly the number of transient failures,
  -- if the handling leaves the ingest counters alone.
  pub held-run :
      (actions : List Action) (s : Service)
      → held (run process_func actions s) ≡ held s + failures process_func actions s
  unfolding run failures
  held-run [] s = omega arith
  held-run (a ∷ actions) s = omega (arith, held-run actions (act process_func a s), held-act a s)
