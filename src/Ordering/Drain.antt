-- ===== src/Ordering/Drain.antt =====
-- About flushAll and processEvents (internal/services/event_ordering_service.go) over a database whose
-- calls do not fail.
use live_actions.Base.{
  ℕ, zero, suc, ◌+◌, ◌<◌, ◌≡◌, refl, inl, inr, string_eq, String, Bool, true, false, Option, none,
  some, List, [], ◌∷◌, length, count, ltb, arith, Option-cases, Bool-cases,
}
use Prim.Native.Nat.{min}
use live_actions.Base.Table.{lookup}
use live_actions.Base.Keys.{count-update}
use live_actions.Models.{OrderedEvent}
use live_actions.Failure.{ok}
use live_actions.Database.{EventRow}
use live_actions.Database.Events.{is_pending, done, given_up}
use live_actions.Database.Events.Queue.{
  Queue, Ready, Retires, Queue-update, Ready-update, done-Retires, given_up-Retires, fetch_lem,
}
use live_actions.Handlers.{App, Decoder, handlers, process_ordered_event}
use live_actions.Handlers.Reliable.{Marked, process_ordered_event-marks}
use live_actions.Ordering.{process_events, flush_batch, flush_rounds, flush_all}

abbrev is_some {ℓ} : {A : Type ℓ} → Option A → Bool
is_some none = false
is_some (some a) = true

-- Does NewWebhookHandler register a handler for the type?
abbrev pub is_known : String → Bool
is_known event_type = is_some (lookup event_type handlers)

-- The number of events that wait for a replay.
abbrev pub waiting : App → ℕ
waiting app = count is_pending app.db.events

-- What the replay keeps: no call will fail, and the table is a queue of known events.
abbrev pub Healthy : App → Type 0
Healthy app = (app.db.faults ≡ []) × Queue is_known app.db.events

module _ (d : Decoder) where
  abbrev Replayed : OrderedEvent → List OrderedEvent → App → App → Type 0
  Replayed event events app app' =
      Healthy app' × Ready is_known app'.db.events events × (suc (waiting app') ≡ waiting app)

  retire :
      (f : EventRow → EventRow) (event : OrderedEvent) (events : List OrderedEvent) (app app' : App)
      → Retires f
      → Marked f event.sequence.delivery_id app.db app'.db
      → Healthy app
      → Ready is_known app.db.events (event ∷ events)
      → Replayed event events app app'
  retire f event events app app' r m h y =
      let id = event.sequence.delivery_id in
      let t = app.db.events in
      let (p, k, (row, found, waits)) = y.0 in
      rw m.0 (
        (
          (m.1, Queue-update is_known f r id t h.1),
          Ready-update is_known f r id t events y.1 y.2,
          count-update is_pending id f t row found waits (r id row),
        ))

  replay_one :
      (event : OrderedEvent) (events : List OrderedEvent) (app : App)
      → Healthy app
      → Ready is_known app.db.events (event ∷ events)
      → Replayed event events app (process_ordered_event d event app).1
  replay_one event events app h y = elim (Option-cases (lookup event.event_type handlers)) [
    | inl n ↦ absurd (ground (arith, n, y.0.1))
    | inr (handler, e) ↦ elim (process_ordered_event-marks d event app handler h.0 y.0.0 e) [
      | inl m ↦
          retire (done app.db.now) event events app (process_ordered_event d event app).1
            (done-Retires app.db.now) m h y
      | inr m ↦
          retire given_up event events app (process_ordered_event d event app).1 given_up-Retires m
            h y
    ]
  ]

  process_events-drains :
      (events : List OrderedEvent) (app : App)
      → Healthy app
      → Ready is_known app.db.events events
      → Healthy (process_events (process_ordered_event d) events app)
        × (waiting (process_events (process_ordered_event d) events app) + length events
            ≡ waiting app)
  unfolding process_events
  process_events-drains [] app h y = (h, omega arith)
  process_events-drains (event ∷ events) app h y =
      let (h', y', c) = replay_one event events app h y in
      let (h'', c') = process_events-drains events (process_ordered_event d event app).1 h' y' in
      (h'', omega (arith, c, c'))

  -- A run of flushAll that ends with an empty queue.
  abbrev Drains : Option App → Type 0
  Drains r = (app' : App) × (r ≡ some app') × Healthy app' × (waiting app' ≡ 0)

  after_fetch :
      (size fuel : ℕ) (more : App → Option App) (events : List OrderedEvent) (app : App)
      → ((next : App) → Healthy next → waiting next < fuel → Drains (more next))
      → 0 < size
      → Healthy app
      → Ready is_known app.db.events events
      → length events ≡ min size (waiting app)
      → waiting app < suc fuel
      → Drains (flush_batch (process_ordered_event d) size (ok events, app) more)
  after_fetch size fuel more [] app ih z h y n l = (app, refl, h, ground (arith, n))
  after_fetch size fuel more (event ∷ events) app ih z h y n l =
      let app' = process_events (process_ordered_event d) (event ∷ events) app in
      let (h', c) = process_events-drains (event ∷ events) app h y in
      elim (Bool-cases (ltb (length (event ∷ events)) size)) [
        | inl b ↦ rw b ((app', refl, h', ground (arith, b, c, n)))
        | inr b ↦ rw b (ih app' h' (omega (arith, c, l)))
      ]

  flush_rounds-Drains :
      (size fuel : ℕ) (app : App)
      → 0 < size
      → Healthy app
      → waiting app < fuel
      → Drains (flush_rounds (process_ordered_event d) fuel (λ _. false) size app)
  unfolding flush_rounds
  flush_rounds-Drains size zero app z h l = absurd (omega (arith, l))
  flush_rounds-Drains size (suc fuel) app z h l =
      let (events, e, ready, n) = fetch_lem is_known size app.db h.0 h.1 in
      rw e (
        after_fetch size fuel (flush_rounds (process_ordered_event d) fuel (λ _. false) size) events
          app (λ next h' l'. flush_rounds-Drains size fuel next z h' l') z h ready n l)

  -- FlushAll ends with no pending row, if no call fails, its time does not run out, the pending
  -- rows are readable and of registered types, and the fuel exceeds their number.
  pub flush_all-drains :
      (fuel : ℕ) (app : App)
      → app.db.faults ≡ []
      → Queue is_known app.db.events
      → waiting app < fuel
      → (app' : App) × (flush_all (process_ordered_event d) fuel (λ _. false) app ≡ some app')
        × (waiting app' ≡ 0)
  unfolding flush_all
  flush_all-drains fuel app h q l =
      let (app', e, _, n) = flush_rounds-Drains 1000 fuel app (omega arith) ((h, q)) l in
      (app', e, n)
