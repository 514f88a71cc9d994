-- ===== src/Database/Events/Queue.antt =====
-- About the pending rows of webhook_events as a queue: what a fetch hands out, and what is left.
use live_actions.Base.{
  ℕ, ◌≡◌, refl, ap, subst, ◌⊎◌, inl, inr, String, Bool, true, false, ◌==◌, string_eq, none, some,
  ◌≢◌, List, [], ◌∷◌, filter, count, take, length, arith, Bool-cases, Option-cases,
}
use live_actions.Base.Sort.{All-sort_by, Unique-sort_by}
use live_actions.Base.Table.{Table, lookup, update}
use live_actions.Base.Keys.{
  All, All-filter, All-take, Fresh, Unique, beq_sym, lookup-Unique, Unique-filter, Unique-take,
  Unique-update, lookup-update,
}
use live_actions.Database.Events.Replay.{get_pending_events_grouped-Sorted}
use Prim.Native.Nat.{min}
use live_actions.Models.{Time, OrderedEvent}
use live_actions.Failure.{ok, Result-cases}
use live_actions.Database.{Db, EventRow, call, reliable, reliable-eq}
use live_actions.Database.Events.{
  done, given_up, stored_event, is_pending, in_order, sort_rows, scan_event, scan_events,
  get_pending_events_grouped,
}

-- A pending row has its payload, and its type is `known`.
abbrev pub Sound : (String → Bool) → String × EventRow → Type 0
Sound known r = (is_pending r ≡ false) ⊎ ((r.1.raw_payload ≢ none) × (known r.1.event_type ≡ true))

All-is_pending :
    (rows : Table String EventRow) → All (λ r. is_pending r ≡ true) (filter is_pending rows)
All-is_pending [] = tt
All-is_pending (r ∷ rows) = elim (Bool-cases (is_pending r)) [
  | inl y ↦ rw y ((y, All-is_pending rows))
  | inr n ↦ rw n (All-is_pending rows)
]

All-both :
    (P Q : String × EventRow → Type 0) (rows : Table String EventRow)
    → All P rows
    → All Q rows
    → All (λ r. P r × Q r) rows
All-both P Q [] h k = tt
All-both P Q (r ∷ rows) h k = ((h.0, k.0), All-both P Q rows h.1 k.1)

-- The row that an event stands for: pending, of a known type, and found under the delivery id.
abbrev pub Stands : (String → Bool) → Table String EventRow → OrderedEvent → Type 0
Stands known t event =
    (event.persisted ≡ true)
    × (known event.event_type ≡ true)
    × ((row : EventRow) × (lookup event.sequence.delivery_id t ≡ some row)
        × (is_pending (event.sequence.delivery_id, row) ≡ true))

-- The events stand for different pending rows.
abbrev pub Ready : (String → Bool) → Table String EventRow → List OrderedEvent → Type 0
Ready known t [] = Unit
Ready known t (event ∷ events) =
    Stands known t event
    × All (λ other. (event.sequence.delivery_id == other.sequence.delivery_id) ≡ false) events
    × Ready known t events

scan_event-id :
    (r : String × EventRow) (event : OrderedEvent)
    → scan_event r ≡ ok event
    → event.sequence.delivery_id ≡ r.0
unfolding scan_event
scan_event-id (id, row) event h = ground (arith, Option-cases row.raw_payload)

scan_events-cons :
    (r : String × EventRow) (rows : Table String EventRow) (events : List OrderedEvent)
    → scan_events (r ∷ rows) ≡ ok events
    → (event : OrderedEvent) × (rest : List OrderedEvent) × (scan_event r ≡ ok event)
      × (scan_events rows ≡ ok rest)
      × (events ≡ event ∷ rest)
unfolding scan_events
scan_events-cons r rows events h = elim (Result-cases (scan_event r)) [
  | inr f ↦ absurd (ground (arith, f))
  | inl (event, e) ↦ elim (Result-cases (scan_events rows)) [
    | inr f ↦ absurd (ground (arith, e, f))
    | inl (rest, q) ↦ (event, rest, e, q, ground (arith, e, q))
  ]
]

scan_events-Fresh :
    (k : String) (rows : Table String EventRow) (events : List OrderedEvent)
    → scan_events rows ≡ ok events
    → Fresh k rows
    → All (λ other. (k == other.sequence.delivery_id) ≡ false) events
unfolding scan_events
scan_events-Fresh k [] [] h f = tt
scan_events-Fresh k [] (event ∷ events) h f = absurd (ground (arith, h))
scan_events-Fresh k (r ∷ rows) events h f =
    let (event, rest, e, q, eq) = scan_events-cons r rows events h in
    rw eq ((rw (scan_event-id r event e) (beq_sym r.0 k f.0), scan_events-Fresh k rows rest q f.1))

scan_event-Stands :
    (known : String → Bool) (t : Table String EventRow) (r : String × EventRow)
    → lookup r.0 t ≡ some r.1
    → is_pending r ≡ true
    → Sound known r
    → (event : OrderedEvent) × (scan_event r ≡ ok event) × Stands known t event
unfolding scan_event
scan_event-Stands known t (id, row) h y s = elim (Option-cases row.raw_payload) [
  | inl n ↦ absurd (ground (arith, n, s, y))
  | inr (bytes, e) ↦ (
    stored_event id row bytes,
    rw e refl,
    (refl, elim s [ inl n ↦ absurd (ground (arith, n, y)) | inr p ↦ p.1 ], (row, h, y)),
  )
]

scan_events-Ready :
    (known : String → Bool) (t rows : Table String EventRow)
    → All (λ r. lookup r.0 t ≡ some r.1) rows
    → All (λ r. is_pending r ≡ true) rows
    → All (Sound known) rows
    → Unique rows
    → (events : List OrderedEvent) × (scan_events rows ≡ ok events) × Ready known t events
unfolding scan_events
scan_events-Ready known t [] l y s u = ([], refl, tt)
scan_events-Ready known t (r ∷ rows) l y s u =
    let (event, e, stands) = scan_event-Stands known t r l.0 y.0 s.0 in
    let (events, q, ready) = scan_events-Ready known t rows l.1 y.1 s.1 u.1 in
    (
      event ∷ events,
      rw (e, q) refl,
      (stands, rw (scan_event-id r event e) (scan_events-Fresh r.0 rows events q u.0), ready),
    )

-- Keys are unique, and every row is sound.
abbrev pub Queue : (String → Bool) → Table String EventRow → Type 0
Queue known t = Unique t × All (Sound known) t

-- A fetch succeeds and hands out events that stand for different pending rows.
abbrev pub Fetches : (String → Bool) → ℕ → Db → Type 0
Fetches known limit db =
    (events : List OrderedEvent) × (get_pending_events_grouped limit db ≡ (ok events, db))
    × Ready known db.events events
    × (length events ≡ min limit (count is_pending db.events))

fetch_reliable :
    (known : String → Bool) (limit : ℕ) (db : Db)
    → Queue known db.events
    → Fetches known limit (reliable db)
unfolding get_pending_events_grouped call sort_rows
fetch_reliable known limit db q =
    let t = db.events in
    let found = filter is_pending t in
    let rows = take limit (sort_rows found) in
    let (events, e, ready) =
      scan_events-Ready known t rows
        (All-take (λ r. lookup r.0 t ≡ some r.1) limit (sort_rows found)
          (All-sort_by in_order (λ r. lookup r.0 t ≡ some r.1) found
            (All-filter (λ r. lookup r.0 t ≡ some r.1) is_pending t (lookup-Unique t q.0))))
        (All-take (λ r. is_pending r ≡ true) limit (sort_rows found)
          (All-sort_by in_order (λ r. is_pending r ≡ true) found (All-is_pending t)))
        (All-take (Sound known) limit (sort_rows found)
          (All-sort_by in_order (Sound known) found (All-filter (Sound known) is_pending t q.1)))
        (Unique-take limit (sort_rows found)
          (Unique-sort_by in_order found (Unique-filter is_pending t q.0))) in
    let whole : get_pending_events_grouped limit (reliable db) ≡ (ok events, reliable db) =
      ap (λ r. (r, reliable db)) e in
    (
      events,
      whole,
      ready,
      (get_pending_events_grouped-Sorted limit (reliable db) events (ap (λ r. r.0) whole)).5,
    )

pub fetch_lem :
    (known : String → Bool) (limit : ℕ) (db : Db)
    → db.faults ≡ []
    → Queue known db.events
    → Fetches known limit db
fetch_lem known limit db h q =
    subst (Fetches known limit) (reliable-eq db h) (fetch_reliable known limit db q)

-- An update that takes rows out of the queue.
abbrev pub Retires : (EventRow → EventRow) → Type 0
Retires f = (id : String) (row : EventRow) → is_pending (id, f row) ≡ false

module _ (known : String → Bool) (f : EventRow → EventRow) (retires : Retires f) (k : String) where
  All-Sound-update :
      (t : Table String EventRow) → All (Sound known) t → All (Sound known) (update k f t)
  unfolding update
  All-Sound-update [] h = tt
  All-Sound-update ((j, w) ∷ t) h = elim (Bool-cases (j == k)) [
    | inl y ↦ rw y ((inl (retires j w), h.1))
    | inr n ↦ rw n ((h.0, All-Sound-update t h.1))
  ]

  pub Queue-update : (t : Table String EventRow) → Queue known t → Queue known (update k f t)
  Queue-update t q = (Unique-update k f t q.0, All-Sound-update t q.1)

  pub Ready-update :
      (t : Table String EventRow) (events : List OrderedEvent)
      → All (λ other. (k == other.sequence.delivery_id) ≡ false) events
      → Ready known t events
      → Ready known (update k f t) events
  Ready-update t [] a r = tt
  Ready-update t (event ∷ events) a r =
      let (p, y, (row, found, waits)) = r.0 in
      (
        (p, y, (row, rw (lookup-update k event.sequence.delivery_id f t a.0) found, waits)),
        r.1,
        Ready-update t events a.1 r.2,
      )

pub done-Retires : (now : Time) → Retires (done now)
done-Retires now id row = refl

pub given_up-Retires : Retires given_up
given_up-Retires id row = refl
