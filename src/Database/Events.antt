-- ===== src/Database/Events.antt =====
-- internal/database/event.go: the rows of webhook_events, the cold path's queue.
pub mod Faults
pub mod Laws
pub mod Replay
pub mod Queue
use Prim.Native.Nat.{Ordering}
use Prim.Native.String.{compare as compare_text}
use live_actions.Base.{
  ℕ, zero, suc, ◌-◌, String, Bool, true, false, not, ◌&&◌, ◌||◌, Option, none, some, List, [], ◌∷◌,
  map, filter, take, ltb, nat_beq, ◌==◌, string_eq, if◌then◌else◌,
}
use live_actions.Base.Sort.{sort_by}
use live_actions.Base.Table.{Table, lookup, upsert, update}
use mathlib.Core.Option
use live_actions.Models.{Time, Bytes, OrderedEvent, EventSequence}
use live_actions.Failure.{Error, new, wrap, driver, Result, ok, err}
use live_actions.Database.{
  Stamp, rfc3339, sqlite, stamp_lt, parse_time, EventRow, EventStatus, pending, processed, failed,
  Db, Exec, pure, ◌>>=◌, ◌>>◌, Tx, commit, rollback, transaction, exec, query, reads, wrapping,
  call,
}

-- A nil payload is stored as the empty text.
abbrev payload_text : Option Bytes → Bytes
payload_text none = []
payload_text (some bytes) = bytes

abbrev stored_status : Option Time → EventStatus
stored_status none = pending
stored_status (some t) = processed

-- The columns that the upsert writes.
unfoldable pub event_row : OrderedEvent → EventRow
event_row event = record {
  event_type = event.event_type;
  sequence_id = event.sequence.sequence_id;
  github_timestamp = rfc3339 event.sequence.timestamp;
  received_at = rfc3339 event.sequence.received_at;
  processed_at = Option.map rfc3339 event.processed_at;
  raw_payload = some (payload_text event.raw_payload);
  status = stored_status event.processed_at;
  ordering_key = event.ordering_key;
  status_priority = event.status_priority;
}

abbrev pub put_event : OrderedEvent → Db → Db
put_event event db = record db {
  events = upsert event.sequence.delivery_id (event_row event) db.events;
}

abbrev unless_ok :
    Result (Unit {0}) × Db → (Result (Unit {0}) → Exec (Unit {0})) → Result (Unit {0}) × Db
unless_ok (ok a, db) retry = (ok a, db)
unless_ok (err e, db) retry = retry (err e) db

abbrev insert_event : OrderedEvent → Exec (Unit {0})
insert_event event = do call; λ db. (ok tt, put_event event db)

-- `for range maxRetries`, with the last error so far.
unfoldable pub store_retrying : ℕ → OrderedEvent → Result (Unit {0}) → Exec (Unit {0})
unfolding call event_row upsert
store_retrying zero event last db = (last, db)
store_retrying (suc n) event last db =
    unless_ok (insert_event event db) (λ last' db'. store_retrying n event last' db')

unfoldable pub store_webhook_event : OrderedEvent → Exec (Unit {0})
unfolding store_retrying
store_webhook_event event = store_retrying 3 event (ok tt)

-- The loop over the batch. The pointers that the callers pass are never nil.
unfoldable pub insert_events : List OrderedEvent → Exec (Unit {0})
unfolding call event_row
insert_events [] = pure tt
insert_events (event ∷ events) = do
  exec "failed to exec batch insert" (put_event event)
  insert_events events

abbrev insert_batch : List OrderedEvent → Exec (Tx (Unit {0}))
insert_batch events = do
  wrapping "failed to prepare batch insert" call
  insert_events events
  pure (commit tt)

unfoldable pub store_webhook_events : List OrderedEvent → Exec (Unit {0})
unfolding transaction insert_events
store_webhook_events [] = pure tt
store_webhook_events (event ∷ events) =
    transaction "failed to begin batch tx" "failed to commit batch insert"
      (insert_batch (event ∷ events))

abbrev is_pending_status : EventStatus → Bool
is_pending_status pending = true
is_pending_status processed = false
is_pending_status failed = false

-- `status = 'pending'`
abbrev pub is_pending : String × EventRow → Bool
is_pending (id, row) = is_pending_status row.status

abbrev pub text_lt : String → String → Bool
text_lt a b = elim (compare_text a b) [ Ordering.lt ↦ true | _ ↦ false ]

-- ORDER BY github_timestamp ASC, ordering_key ASC, status_priority ASC: may `a` stand before `b`?
unfoldable pub in_order : String × EventRow → String × EventRow → Bool
unfolding stamp_lt
in_order (_, a) (_, b) =
    if stamp_lt a.github_timestamp b.github_timestamp
    then true
    else (if stamp_lt b.github_timestamp a.github_timestamp
        then false
        else (if text_lt a.ordering_key b.ordering_key
            then true
            else (if text_lt b.ordering_key a.ordering_key
                then false
                else not (ltb b.status_priority a.status_priority))))

unfoldable pub sort_rows : Table String EventRow → Table String EventRow
unfolding sort_by in_order
sort_rows rows = sort_by in_order rows

-- A row as an event that was stored.
abbrev pub stored_event : String → EventRow → Bytes → OrderedEvent
stored_event id row bytes = record {
  sequence = record {
    event_id = id;
    sequence_id = row.sequence_id;
    timestamp = parse_time row.github_timestamp;
    delivery_id = id;
    received_at = parse_time row.received_at;
  };
  event_type = row.event_type;
  raw_payload = some bytes;
  processed_at = Option.map parse_time row.processed_at;
  ordering_key = row.ordering_key;
  status_priority = row.status_priority;
  persisted = true;
}

abbrev scanned : String → EventRow → Option Bytes → Result OrderedEvent
scanned id row none = err (wrap "failed to scan event row" driver)
scanned id row (some bytes) = ok (stored_event id row bytes)

-- One row of the result. A NULL payload does not scan into a Go string.
unfoldable pub scan_event : String × EventRow → Result OrderedEvent
unfolding parse_time
scan_event (id, row) = scanned id row row.raw_payload

abbrev also : Result OrderedEvent → Result (List OrderedEvent) → Result (List OrderedEvent)
also (err e) rest = err e
also (ok event) (err e) = err e
also (ok event) (ok events) = ok (event ∷ events)

unfoldable pub scan_events : Table String EventRow → Result (List OrderedEvent)
unfolding scan_event
scan_events [] = ok []
scan_events (r ∷ rows) = also (scan_event r) (scan_events rows)

abbrev scan_result : Result (Table String EventRow) × Db → Result (List OrderedEvent) × Db
scan_result (err e, db) = (err e, db)
scan_result (ok rows, db) = (scan_events rows, db)

unfoldable pub get_pending_events_grouped : ℕ → Exec (List OrderedEvent)
unfolding call sort_rows scan_events
get_pending_events_grouped limit db = scan_result (
    query "failed to query pending events"
      (λ db. take limit (sort_rows (filter is_pending db.events))) db)

-- `received_at <= cutoff`
abbrev is_aged : Stamp → String × EventRow → Bool
is_aged cutoff (id, row) = is_pending_status row.status && not (stamp_lt cutoff row.received_at)

unfoldable pub get_pending_events_by_age : Time → ℕ → Exec (List OrderedEvent)
unfolding call sort_rows scan_events stamp_lt
get_pending_events_by_age max_age limit db = scan_result (
    query "failed to query pending events by age"
      (λ db. take limit (sort_rows (filter (is_aged (rfc3339 (db.now - max_age))) db.events))) db)

abbrev pub done : Time → EventRow → EventRow
done now row = record row {
  status = processed;
  processed_at = some (rfc3339 now);
  raw_payload = none;
}

abbrev pub given_up : EventRow → EventRow
given_up row = record row { status = failed }

unfoldable pub mark_event_processed : String → Exec (Unit {0})
unfolding call update
mark_event_processed id =
    exec "failed to mark event as processed"
      (λ db. record db { events = update id (done db.now) db.events })

unfoldable pub mark_event_failed : String → Exec (Unit {0})
unfolding call update
mark_event_failed id =
    exec "failed to mark event as failed"
      (λ db. record db { events = update id given_up db.events })
