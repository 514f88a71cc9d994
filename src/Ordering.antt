-- ===== src/Ordering.antt =====
-- internal/services/event_ordering_service.go: the bounded ingest channel, the worker that drains it
-- and spills what it has to retry, and the worker that replays what was spilled.
pub mod Bounds
pub mod Schedule
pub mod Drain
use live_actions.Base.{
  ℕ, zero, suc, ◌+◌, ◌≤◌, String, Bool, true, false, not, ◌&&◌, ◌||◌, Option, none, some, List, [],
  ◌∷◌, ◌++◌, map, filter, length, ltb, leb, nat_beq, if◌then◌else◌,
}
use live_actions.Models.{Time, OrderedEvent}
use live_actions.Failure.{Error, err_ingest_queue_full, canceled, is_permanent, Result, ok, err}
use live_actions.Metrics.{Registry, count_webhook_event}
use live_actions.Handlers.{App, Handling}
use live_actions.Database.{Db}
use live_actions.Database.Events.{
  store_webhook_events, get_pending_events_by_age, get_pending_events_grouped,
}

-- `ingest_ch` is the channel, the oldest event first; `spill` is the local buffer of ingestWorker.
pub record Service : Type 0 where
  pub app : App
  pub ingest_ch : List OrderedEvent
  pub capacity : ℕ
  pub spill : List OrderedEvent
  pub ingest_batch_size : ℕ
  pub batch_size : ℕ
  pub max_age : Time

unfoldable pub new_service : App → Service
new_service app = record {
  app = app;
  ingest_ch = [];
  capacity = 10000;
  spill = [];
  ingest_batch_size = 200;
  batch_size = 500;
  max_age = 10;
}

unfoldable pub ingest_queue_len : Service → ℕ
ingest_queue_len s = length s.ingest_ch

unfoldable pub ingest_queue_cap : Service → ℕ
ingest_queue_cap s = s.capacity

-- How a call of AddEvent that finds the channel full stops waiting without having sent.
pub data Wake : Type 0 where
  timed_out stopped : Wake

abbrev wake_error : Wake → Error
wake_error timed_out = err_ingest_queue_full
wake_error stopped = canceled

-- AddEvent, at the moment at which it returns: while it waits it has no effect, so a call that
-- waits and then finds room is one that is made when there is room.
unfoldable pub add_event : Wake → OrderedEvent → Service → Result (Unit {0}) × Service
add_event wake event s =
    if ltb (length s.ingest_ch) s.capacity
    then (ok tt, record s { ingest_ch = s.ingest_ch ++ event ∷ [] })
    else (err (wake_error wake), s)

unfoldable pub count_all : String → List OrderedEvent → Registry → Registry
count_all outcome [] r = r
count_all outcome (event ∷ events) r =
    count_all outcome events (count_webhook_event event.event_type outcome r)

abbrev spill_outcome : Result (Unit {0}) → String
spill_outcome (ok _) = "spilled"
spill_outcome (err e) = "spill_failed"

abbrev after_spill : Service → Result (Unit {0}) × Db → Service
after_spill s (r, db) = record s {
  app = record s.app { db = db; registry = count_all (spill_outcome r) s.spill s.app.registry };
  spill = [];
}

-- `flushSpill`, which returns at once on an empty buffer, as StoreWebhookEvents does.
unfoldable pub flush_spill : Service → Service
unfolding store_webhook_events count_all
flush_spill s = after_spill s (store_webhook_events s.spill s.app.db)

-- What a round of flushReadyEvents finds on its clock and its context.
pub data Tick : Type 0 where
  in_time late cancelled : Tick

module _ (process_func : OrderedEvent → Handling (Unit {0})) where
  abbrev pub settle_outcome : OrderedEvent → Service → Result (Unit {0}) × App → Service
  settle_outcome event s (ok _, app) = record s { app = app }
  settle_outcome event s (err e, app) =
      if is_permanent e
      then record s {
        app = record app {
          registry = count_webhook_event event.event_type "permanent_failure" app.registry;
        };
      }
      else record s { app = app; spill = s.spill ++ event ∷ [] }

  -- The closure `process` of ingestWorker.
  unfoldable pub process : OrderedEvent → Service → Service
  unfolding is_permanent
  process event s = settle_outcome event s (process_func event s.app)

  abbrev flush_full : Service → Service
  flush_full s = if leb s.ingest_batch_size (length s.spill) then flush_spill s else s

  -- `case ev := <-s.ingestCh`
  unfoldable pub take_event : OrderedEvent → Service → Service
  take_event event s = flush_full (process event s)

  abbrev pub receive_from : List OrderedEvent → Service → Service
  receive_from [] s = s
  receive_from (event ∷ rest) s = take_event event (record s { ingest_ch = rest })

  -- One round of ingestWorker's `select` that receives; it blocks while the channel is empty.
  unfoldable pub receive : Service → Service
  receive s = receive_from s.ingest_ch s

  unfoldable pub drain_from : List OrderedEvent → Service → Service
  drain_from [] s = flush_spill s
  drain_from (event ∷ rest) s = drain_from rest (take_event event (record s { ingest_ch = rest }))

  -- What ingestWorker does once the context is cancelled, up to its return.
  unfoldable pub drain : Service → Service
  drain s = drain_from s.ingest_ch s

  -- processEvents: a failure is logged and the loop goes on.
  unfoldable pub process_events : List OrderedEvent → App → App
  process_events [] app = app
  process_events (event ∷ events) app = process_events events (process_func event app).1

  abbrev fetched : Result (List OrderedEvent) × Db → App → Result (List OrderedEvent) × App
  fetched (r, db) app = (r, record app { db = db })

  -- After a fetch: `more` is the next iteration, made if the batch was full and time is left.
  abbrev replay_batch : ℕ → Tick → Result (List OrderedEvent) × App → (App → App) → App
  replay_batch size tick (err e, app) more = app
  replay_batch size tick (ok [], app) more = app
  replay_batch size tick (ok (event ∷ events), app) more =
      let app' = process_events (event ∷ events) app in
      let next = more app' in
      if ltb (length (event ∷ events)) size
      then app'
      else elim tick [ in_time ↦ next | late ↦ app' | cancelled ↦ app' ]

  -- flushReadyEvents, `rounds` of its iterations; the context is looked at before a fetch and the
  -- deadline after a batch.
  unfoldable pub flush_ready : ℕ → (ℕ → Tick) → Time → ℕ → App → App
  unfolding process_events get_pending_events_by_age
  flush_ready zero ticks max_age size app = app
  flush_ready (suc rounds) ticks max_age size app = elim (ticks rounds) [
    | cancelled ↦ app
    | in_time ↦
        replay_batch size in_time (fetched (get_pending_events_by_age max_age size app.db) app)
          (flush_ready rounds ticks max_age size)
    | late ↦
        replay_batch size late (fetched (get_pending_events_by_age max_age size app.db) app)
          (flush_ready rounds ticks max_age size)
  ]

  abbrev max_drain_iterations : ℕ
  max_drain_iterations = 20

  unfoldable pub flush_ready_events : (ℕ → Tick) → Service → Service
  unfolding flush_ready
  flush_ready_events ticks s = record s {
    app = flush_ready max_drain_iterations ticks s.max_age s.batch_size s.app;
  }

  -- flushAll's loop, on fuel; `none` means that the fuel ran out.
  abbrev pub flush_batch : ℕ → Result (List OrderedEvent) × App → (App → Option App) → Option App
  flush_batch size (err e, app) more = some app
  flush_batch size (ok [], app) more = some app
  flush_batch size (ok (event ∷ events), app) more =
      let app' = process_events (event ∷ events) app in
      let next = more app' in if ltb (length (event ∷ events)) size then some app' else next

  unfoldable pub flush_rounds : ℕ → (ℕ → Bool) → ℕ → App → Option App
  unfolding process_events get_pending_events_grouped
  flush_rounds zero expired size app = none
  flush_rounds (suc fuel) expired size app =
      let rest =
        flush_batch size (fetched (get_pending_events_grouped size app.db) app)
          (flush_rounds fuel expired size) in
      if expired fuel then some app else rest

  unfoldable pub flush_all : ℕ → (ℕ → Bool) → App → Option App
  unfolding flush_rounds
  flush_all fuel expired app = flush_rounds fuel expired 1000 app
