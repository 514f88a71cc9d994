-- ===== src/Database/Events/Replay.antt =====
-- About GetPendingEventsGrouped of internal/database/event.go.
use live_actions.Base.{
  ℕ, ◌≡◌, sym, inl, inr, String, true, false, List, [], ◌∷◌, ◌++◌, drop, subst, filter, count, take,
  length, length-take, length-filter, arith,
}
use mathlib.Core.List.{Perm}
use Prim.Native.Nat.{min}
use live_actions.Base.Table.{Table}
use live_actions.Base.Sort.{Sorted, take-drop, Perm-sort_by, Sorted-sort_by, length-sort_by}
use live_actions.Models.{OrderedEvent}
use live_actions.Failure.{ok, Result-cases}
use live_actions.Database.{EventRow, Db, call}
use live_actions.Database.Events.{
  is_pending, in_order, sort_rows, scan_events, get_pending_events_grouped,
}

pub in_order_total : (r q : String × EventRow) → in_order r q ≡ false → in_order q r ≡ true
unfolding in_order
in_order_total (i, r) (j, q) h = ground arith

length-scan_events :
    (rows : Table String EventRow) (events : List OrderedEvent)
    → scan_events rows ≡ ok events
    → length events ≡ length rows
unfolding scan_events
length-scan_events [] events h = ground arith
length-scan_events (r ∷ rows) events h = elim (Result-cases (scan_events rows)) [
  | inl (rest, e) ↦ ground (arith, e, length-scan_events rows rest e)
  | inr f ↦ absurd (ground arith)
]

-- The events are the rows of a first part of the pending rows put in the order of replay, as many as
-- the limit lets through; `rest` is what is left for the next call.
abbrev pub Replays : ℕ → Db → List OrderedEvent → Type 0
Replays limit db events =
    (rows : Table String EventRow) × (rest : Table String EventRow) × (scan_events rows ≡ ok events)
    × Perm (rows ++ rest) (filter is_pending db.events)
    × Sorted in_order (rows ++ rest)
    × (length events ≡ min limit (count is_pending db.events))

-- Where GetPendingEventsGrouped succeeds, it returns a first part of the pending rows put in the
-- order of replay, as many as the limit lets through.
pub get_pending_events_grouped-Sorted :
    (limit : ℕ) (db : Db) (events : List OrderedEvent)
    → (get_pending_events_grouped limit db).0 ≡ ok events
    → Replays limit db events
unfolding get_pending_events_grouped call sort_rows
get_pending_events_grouped-Sorted limit db events h =
    let found = filter is_pending db.events in
    let rows = take limit (sort_rows found) in
    let whole = take-drop limit (sort_rows found) in
    let scanned' : scan_events rows ≡ ok events = ground (arith, h) in
    (
      rows,
      drop limit (sort_rows found),
      scanned',
      subst (λ l. Perm l found) (sym whole) (Perm-sort_by in_order found),
      subst (Sorted in_order) (sym whole) (Sorted-sort_by in_order in_order_total found),
      omega (
        arith,
        length-scan_events rows events scanned',
        length-take limit (sort_rows found),
        length-sort_by in_order found,
        length-filter is_pending db.events,
      ),
    )
