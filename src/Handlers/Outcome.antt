-- ===== src/Handlers/Outcome.antt =====
-- About what processOrderedEvent (handlers/webhook_handler.go) leaves in webhook_events.
use live_actions.Base.{
  ◌≡◌, refl, ◌⊎◌, inl, inr, String, true, false, arith, string_eq, Option-cases,
}
use live_actions.Base.Table.{lookup, update}
use live_actions.Models.{Time, OrderedEvent}
use live_actions.Failure.{Result, ok, IsErr}
use live_actions.Database.{Db, EventRow, call}
use live_actions.Database.Events.{mark_event_processed, mark_event_failed, done, given_up}
use live_actions.Handlers.{App, Decoder, handle_event, process_ordered_event, handlers, payload_of}
use live_actions.Handlers.Frame.{handle_event-Framed}

abbrev MarkEnds : (Time → EventRow → EventRow) → String → Db → Result (Unit {0}) × Db → Type 0
MarkEnds f id db (r, db') =
    (db'.now ≡ db.now)
    × (((r ≡ ok tt) × (db'.events ≡ update id (f db.now) db.events))
        ⊎ (IsErr r × (db'.events ≡ db.events)))

mark_processed-ends : (id : String) (db : Db) → MarkEnds done id db (mark_event_processed id db)
unfolding mark_event_processed call
mark_processed-ends id db = ground arith

mark_failed-ends :
    (id : String) (db : Db) → MarkEnds (λ now. given_up) id db (mark_event_failed id db)
unfolding mark_event_failed call
mark_failed-ends id db = ground arith

-- After a success the event's row is done; after an error it is given up, or no row has changed.
abbrev pub Settled : OrderedEvent → App → Result (Unit {0}) × App → Type 0
Settled event app (r, app') =
    let id = event.sequence.delivery_id in
    ((r ≡ ok tt) × (app'.db.events ≡ update id (done app.db.now) app.db.events))
    ⊎ (IsErr r
        × ((app'.db.events ≡ update id given_up app.db.events) ⊎ (app'.db.events ≡ app.db.events)))

module _ (d : Decoder) where
  -- Processing a persisted event either succeeds and marks its row processed, or fails and marks
  -- its row failed or leaves webhook_events as it was; no other row of that table changes.
  pub process_ordered_event-Settled :
      (event : OrderedEvent) (app : App)
      → event.persisted ≡ true
      → Settled event app (process_ordered_event d event app)
  unfolding process_ordered_event
  process_ordered_event-Settled event app p =
      elim (Option-cases (lookup event.event_type handlers)) [
        | inl n ↦ rw n (inr (tt, inr refl))
        | inr (h, e) ↦
            let handled = handle_event d h (payload_of d event.raw_payload) event.sequence app in
            rw e (
              ground (
                arith,
                p,
                handle_event-Framed d h (payload_of d event.raw_payload) event.sequence app,
                mark_processed-ends event.sequence.delivery_id handled.1.db,
                mark_failed-ends event.sequence.delivery_id handled.1.db,
              ))
      ]

  -- Processing an event that is not persisted changes no row of webhook_events.
  pub process_ordered_event-hot :
      (event : OrderedEvent) (app : App)
      → event.persisted ≡ false
      → (process_ordered_event d event app).1.db.events ≡ app.db.events
  unfolding process_ordered_event
  process_ordered_event-hot event app p = elim (Option-cases (lookup event.event_type handlers)) [
    | inl n ↦ rw n refl
    | inr (h, e) ↦ rw e (
        ground
          (arith, p, handle_event-Framed d h (payload_of d event.raw_payload) event.sequence app))
  ]

  -- Handling an event does not touch the counters of the ingest pipeline.
  pub process_ordered_event-silent :
      (event : OrderedEvent) (app : App)
      → (process_ordered_event d event app).1.registry.webhook_events_total
        ≡ app.registry.webhook_events_total
  unfolding process_ordered_event
  process_ordered_event-silent event app = elim (Option-cases (lookup event.event_type handlers)) [
    | inl n ↦ rw n refl
    | inr (h, e) ↦ rw e (
        ground (arith, handle_event-Framed d h (payload_of d event.raw_payload) event.sequence app))
  ]
