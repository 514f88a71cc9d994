-- ===== src/Pipeline.antt =====
-- The way of a delivery as a whole: Ingest (handlers/webhook_handler.go), and the two workers of
-- internal/services/event_ordering_service.go, in any interleaving.
pub mod Conclusions
pub mod Effect
use live_actions.Base.{
  ℕ, ◌<◌, ◌≡◌, inl, inr, String, Bool, true, false, Option, some, List, [], ◌∷◌, length, leb, arith,
  Bool-cases, string_eq,
}
use live_actions.Base.Keys.{All, All-append, All-upsert, Unique-upsert}
use live_actions.Models.{Bytes, OrderedEvent}
use live_actions.Failure.{Result, ok, err, is_permanent}
use live_actions.Database.{Db}
use live_actions.Database.Events.{event_row, put_event, done, given_up}
use live_actions.Database.Events.Laws.{put_all, store_webhook_events-atomic}
use live_actions.Database.Events.Queue.{Queue, Sound, Queue-update, done-Retires, given_up-Retires}
use live_actions.Handlers.{App, Decoder, process_ordered_event}
use live_actions.Handlers.Outcome.{process_ordered_event-Settled, process_ordered_event-hot}
use live_actions.Ordering.{
  Service, Wake, new_service, flush_spill, process, take_event, receive, receive_from,
  settle_outcome, drain, drain_from, flush_all,
}
use live_actions.Ordering.Bounds.{drain_empties}
use live_actions.Ordering.Drain.{is_known, waiting, flush_all-drains}
use live_actions.Webhook.{ingest}
use live_actions.Webhook.Ingest.{ingest_outcome}

-- `delivers` is one call of Ingest, `receives` and `ticks` are rounds of ingestWorker, and `replays`
-- is flushWorker giving an event that it fetched to the handler.
pub data Step : Type 0 where
  delivers : Wake → (event_type delivery_id : String) → Bytes → Step
  receives ticks : Step
  replays : OrderedEvent → Step

-- An event of a registered type.
abbrev pub Known : OrderedEvent → Type 0
Known event = is_known event.event_type ≡ true

pub record IsSound (s : Service) : Type 0 where
  pub stored : Queue is_known s.app.db.events
  pub queued : All Known s.ingest_ch
  pub spilled : All Known s.spill

Queue-put_all :
    (events : List OrderedEvent) (db : Db)
    → All Known events
    → Queue is_known db.events
    → Queue is_known (put_all events db).events
unfolding event_row
Queue-put_all [] db k q = q
Queue-put_all (event ∷ events) db k q =
    let id = event.sequence.delivery_id in
    Queue-put_all events (put_event event db) k.1 (
      (
        Unique-upsert id (event_row event) db.events q.0,
        All-upsert (Sound is_known) id (event_row event) db.events (inr ((λ n. cc), k.0)) q.1,
      ))

flush_spill-IsSound : (s : Service) → IsSound s → IsSound (flush_spill s)
unfolding flush_spill
flush_spill-IsSound s v = record {
  stored = elim (store_webhook_events-atomic s.spill s.app.db) [
    | inl w ↦ rw w.1 (Queue-put_all s.spill s.app.db v.spilled v.stored)
    | inr f ↦ rw f.1 v.stored
  ];
  queued = v.queued;
  spilled = tt;
}

module _ (d : Decoder) where
  unfoldable pub step : Step → Service → Service
  step (delivers wake event_type delivery_id body) s =
      (ingest d wake event_type delivery_id body s).1
  step receives s = receive (process_ordered_event d) s
  step ticks s = flush_spill s
  step (replays event) s = record s { app = (process_ordered_event d event s.app).1 }

  unfoldable pub steps : List Step → Service → Service
  steps [] s = s
  steps (a ∷ actions) s = steps actions (step a s)

  -- Stop: ingestWorker drains, and then flushWorker runs flushAll.
  unfoldable pub stop : ℕ → (ℕ → Bool) → Service → Option App
  stop fuel expired s =
      flush_all (process_ordered_event d) fuel expired (drain (process_ordered_event d) s).app

  process_ordered_event-Queue :
      (event : OrderedEvent) (app : App)
      → Queue is_known app.db.events
      → Queue is_known (process_ordered_event d event app).1.db.events
  process_ordered_event-Queue event app q = elim (Bool-cases event.persisted) [
    | inr n ↦ rw (process_ordered_event-hot d event app n) q
    | inl y ↦
        let id = event.sequence.delivery_id in
        elim (process_ordered_event-Settled d event app y) [
          | inl m ↦
              rw m.1 (
                Queue-update is_known (done app.db.now) (done-Retires app.db.now) id app.db.events
                  q)
          | inr f ↦ elim f.1 [
            | inl m ↦ rw m (Queue-update is_known given_up given_up-Retires id app.db.events q)
            | inr m ↦ rw m q
          ]
        ]
  ]

  settle-IsSound :
      (event : OrderedEvent) (s : Service) (r : Result (Unit {0})) (app : App)
      → IsSound s
      → Known event
      → Queue is_known app.db.events
      → IsSound (settle_outcome (process_ordered_event d) event s (r, app))
  settle-IsSound event s (ok _) app v k q = record {
    stored = q;
    queued = v.queued;
    spilled = v.spilled;
  }
  settle-IsSound event s (err e) app v k q = elim (Bool-cases (is_permanent e)) [
    | inl y ↦ rw y (record { stored = q; queued = v.queued; spilled = v.spilled })
    | inr n ↦ rw n (record {
      stored = q;
      queued = v.queued;
      spilled = All-append Known s.spill (event ∷ []) v.spilled ((k, tt));
    })
  ]

  take_event-IsSound :
      (event : OrderedEvent) (s : Service)
      → IsSound s
      → Known event
      → IsSound (take_event (process_ordered_event d) event s)
  unfolding take_event process
  take_event-IsSound event s v k =
      let (r, app) = process_ordered_event d event s.app in
      let s' = process (process_ordered_event d) event s in
      let v' =
        settle-IsSound event s (process_ordered_event d event s.app).0
          (process_ordered_event d event s.app).1 v k
          (process_ordered_event-Queue event s.app v.stored) in
      elim (Bool-cases (leb s'.ingest_batch_size (length s'.spill))) [
        | inl y ↦ rw y (flush_spill-IsSound s' v')
        | inr n ↦ rw n v'
      ]

  receive-IsSound : (s : Service) → IsSound s → IsSound (receive (process_ordered_event d) s)
  unfolding receive
  receive-IsSound s v = receive_from-IsSound s.ingest_ch v.queued
    where
      receive_from-IsSound :
          (ch : List OrderedEvent)
          → All Known ch
          → IsSound (receive_from (process_ordered_event d) ch s)
      receive_from-IsSound [] k = v
      receive_from-IsSound (event ∷ rest) k =
          take_event-IsSound event (record s { ingest_ch = rest })
            (record { stored = v.stored; queued = k.1; spilled = v.spilled }) k.0

  drain_from-IsSound :
      (rest : List OrderedEvent) (s : Service)
      → IsSound s
      → All Known rest
      → IsSound (drain_from (process_ordered_event d) rest s)
  unfolding drain_from
  drain_from-IsSound [] s v k = flush_spill-IsSound s v
  drain_from-IsSound (event ∷ rest) s v k =
      drain_from-IsSound rest
        (take_event (process_ordered_event d) event (record s { ingest_ch = rest }))
        (take_event-IsSound event (record s { ingest_ch = rest })
          (record { stored = v.stored; queued = k.1; spilled = v.spilled }) k.0)
        k.1

  ingest-IsSound :
      (wake : Wake) (event_type delivery_id : String) (body : Bytes) (s : Service)
      → IsSound s
      → IsSound (ingest d wake event_type delivery_id body s).1
  ingest-IsSound wake event_type delivery_id body s v =
      elim (ingest_outcome d wake event_type delivery_id body s) [
        | inr x ↦ rw x.1 (record { stored = v.stored; queued = v.queued; spilled = v.spilled })
        | inl a ↦
            let (event, same_type, id, hot, carries, eq) = a.2 in
            let k : Known event = ground (arith, same_type, a.3.1) in
            rw eq (record {
              stored = v.stored;
              queued = All-append Known s.ingest_ch (event ∷ []) v.queued ((k, tt));
              spilled = v.spilled;
            })
      ]

  step-IsSound : (a : Step) (s : Service) → IsSound s → IsSound (step a s)
  unfolding step
  step-IsSound (delivers wake event_type delivery_id body) s v =
      ingest-IsSound wake event_type delivery_id body s v
  step-IsSound receives s v = receive-IsSound s v
  step-IsSound ticks s v = flush_spill-IsSound s v
  step-IsSound (replays event) s v = record {
    stored = process_ordered_event-Queue event s.app v.stored;
    queued = v.queued;
    spilled = v.spilled;
  }

  -- Every step of Ingest and of the workers keeps it true that the events on the channel and in
  -- the spill buffer are of registered types, and that the rows have unique keys and the pending
  -- ones are readable and of registered types.
  pub steps-IsSound : (actions : List Step) (s : Service) → IsSound s → IsSound (steps actions s)
  unfolding steps
  steps-IsSound [] s v = v
  steps-IsSound (a ∷ actions) s v = steps-IsSound actions (step a s) (step-IsSound a s v)

  -- The service after the steps and the drain of ingestWorker.
  abbrev pub stopped : List Step → App → Service
  stopped actions app = drain (process_ordered_event d) (steps actions (new_service app))

  -- From a new service, after any steps of Ingest and the workers, Stop ends with the channel and
  -- the spill buffer empty and no pending row, if its time does not run out, no call fails from
  -- its drain on, there is more fuel than pending rows, and those at the start are readable and of
  -- registered types.
  pub stop-drains :
      (actions : List Step) (app : App) (fuel : ℕ)
      → Queue is_known app.db.events
      → (stopped actions app).app.db.faults ≡ []
      → waiting (stopped actions app).app < fuel
      → (app' : App) × (stop fuel (λ _. false) (steps actions (new_service app)) ≡ some app')
        × (waiting app' ≡ 0)
        × ((stopped actions app).ingest_ch ≡ [])
        × ((stopped actions app).spill ≡ [])
  unfolding stop drain new_service
  stop-drains actions app fuel q h l =
      let start : IsSound (new_service app) = record { stored = q; queued = tt; spilled = tt } in
      let s = steps actions (new_service app) in
      let v = steps-IsSound actions (new_service app) start in
      let v' = drain_from-IsSound s.ingest_ch s v v.queued in
      let (app', e, n) = flush_all-drains d fuel (stopped actions app).app h v'.stored l in
      let m = drain_empties (process_ordered_event d) s in (app', e, n, m.0, m.1)
