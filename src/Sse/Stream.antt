-- ===== src/Sse/Stream.antt =====
-- About the way of an event from sendEventNow to the client that HandleSSE serves
-- (handlers/sse_handler.go).
use mathlib.Core.List.{Sublistᴰ, append_assoc}
use mathlib.Core.List.Sublistᴰ
use mathlib.Core.Option
use live_actions.Base.{
  ℕ, ◌+◌, ◌<◌, ◌≤◌, ◌≡◌, refl, ap, ◌∙◌, subst, inl, inr, false, not, Option, none, some, List, [],
  ◌∷◌, ◌++◌, map, length, length-append, ltb, nat_beq, nat_beq_iff, nat_eq, ◌==◌, if◌then◌else◌,
  arith, Bool-cases,
}
use live_actions.Base.Table.{Table, lookup, lookup-map_values, lookup-filter_key}
use live_actions.Models.{Bytes}
use live_actions.Metrics.{Registry}
use live_actions.Metrics.{Registry}
use live_actions.Sse.{
  SseEvent, Buffer, Sse, Hub, takes, leaves, pings, subscriber_buffer_size, offer, offer_to,
  send_all, send_event_now, tick, rest_of, head_of,
}
use live_actions.Sse.Laws.{Step, connects, rounds, sends, submits, ticks, stops, step}

pub append-Sublistᴰ :
    {A : Type 0} {xs ys : List A} (zs : List A) → Sublistᴰ xs ys → Sublistᴰ (xs ++ zs) (ys ++ zs)
append-Sublistᴰ zs Sublistᴰ.slnil = Sublistᴰ.refl zs
append-Sublistᴰ zs (Sublistᴰ.cons s) = Sublistᴰ.cons (append-Sublistᴰ zs s)
append-Sublistᴰ zs (Sublistᴰ.cons-cons e s) = Sublistᴰ.cons-cons e (append-Sublistᴰ zs s)

pub prepend-Sublistᴰ :
    {A : Type 0} (zs : List A) {xs ys : List A} → Sublistᴰ xs ys → Sublistᴰ (zs ++ xs) (zs ++ ys)
prepend-Sublistᴰ [] s = s
prepend-Sublistᴰ (z ∷ zs) s = Sublistᴰ.cons-cons refl (prepend-Sublistᴰ zs s)

pub prefix-Sublistᴰ : {A : Type 0} (xs ys : List A) → Sublistᴰ xs (xs ++ ys)
prefix-Sublistᴰ [] ys = Sublistᴰ.nil-sublist ys
prefix-Sublistᴰ (x ∷ xs) ys = Sublistᴰ.cons-cons refl (prefix-Sublistᴰ xs ys)

-- Events that are offered to one buffer, one after the other.
unfoldable pub offers : List SseEvent → Buffer → Buffer
offers [] b = b
offers (event ∷ events) b = offers events (offer event b)

-- How many of them find it full.
unfoldable pub lost : List SseEvent → Buffer → ℕ
lost [] b = 0
lost (event ∷ events) b =
    (if ltb (length b) subscriber_buffer_size then 0 else 1) + lost events (offer event b)

offer-Sublistᴰ : (event : SseEvent) (b : Buffer) → Sublistᴰ (offer event b) (b ++ event ∷ [])
offer-Sublistᴰ event b = elim (Bool-cases (ltb (length b) subscriber_buffer_size)) [
  | inl y ↦ rw y (Sublistᴰ.refl (b ++ event ∷ []))
  | inr n ↦ rw n (prefix-Sublistᴰ b (event ∷ []))
]

offers-Sublistᴰ : (events : List SseEvent) (b : Buffer) → Sublistᴰ (offers events b) (b ++ events)
unfolding offers
offers-Sublistᴰ [] b = prefix-Sublistᴰ b []
offers-Sublistᴰ (event ∷ events) b =
    subst (λ l. Sublistᴰ (offers events (offer event b)) l) (append_assoc b (event ∷ []) events)
      (Sublistᴰ.trans (offers-Sublistᴰ events (offer event b))
        (append-Sublistᴰ events (offer-Sublistᴰ event b)))

length-offers :
    (events : List SseEvent) (b : Buffer)
    → length (offers events b) + lost events b ≡ length b + length events
unfolding offers lost
length-offers [] b = refl
length-offers (event ∷ events) b =
    ground (arith, length-offers events (offer event b), length-append b (event ∷ []))

lookup-offer :
    (event : SseEvent) (id : ℕ) (b : Buffer) (subs : Table ℕ Buffer)
    → lookup id subs ≡ some b
    → lookup id (map (offer_to event) subs) ≡ some (offer event b)
lookup-offer event id b subs h =
    lookup-map_values (λ j. offer event) id subs ∙ ap (Option.map (offer event)) h

lookup-send_all :
    (events : Table _ SseEvent) (id : ℕ) (b : Buffer) (s : Sse × _)
    → lookup id s.0.subs ≡ some b
    → (lookup id (send_all events s).0.subs ≡ some (offers (map (λ r. r.1) events) b))
      × ((send_all events s).0.next_id ≡ s.0.next_id)
unfolding send_all offers
lookup-send_all [] id b s h = (h, refl)
lookup-send_all ((kind, event) ∷ events) id b s h =
    lookup-send_all events id (offer event b) (send_event_now event s)
      (lookup-offer event id b s.0.subs h)

-- What a step sends to every client.
abbrev pub broadcast : Step → Hub → List SseEvent
broadcast (connects now) hub = []
broadcast (rounds id r) hub = []
broadcast (sends event) hub = event ∷ []
broadcast (submits event) hub = []
broadcast ticks hub = if hub.running then map (λ r. r.1) hub.sse.pending else []
broadcast stops hub = if hub.running then map (λ r. r.1) hub.sse.pending else []

abbrev as_list : Option SseEvent → List SseEvent
as_list none = []
as_list (some event) = event ∷ []

-- What a step takes from the buffer of a client.
abbrev pub taken : ℕ → Step → Hub → List SseEvent
taken id (rounds j takes) hub = if j == id then as_list (head_of (lookup j hub.sse.subs)) else []
taken id _ hub = []

-- The step is not the end of the client's connection.
abbrev pub Stays : ℕ → Step → Type 0
Stays id (rounds j leaves) = (j == id) ≡ false
Stays id _ = Unit

-- The buffer of a client, through a step.
pub record Through (id : ℕ) (b b' : Buffer) (before after : Sse) (out log : List SseEvent)
    : Type 0 where
  pub found : lookup id after.subs ≡ some b'
  pub old : before.next_id ≤ after.next_id
  pub order : Sublistᴰ (out ++ b') (b ++ log)
  pub count : length out + length b' + lost log b ≡ length b + length log

silent :
    (id : ℕ) (b : Buffer) (before after : Sse)
    → lookup id after.subs ≡ some b
    → before.next_id ≤ after.next_id
    → Through id b b before after [] []
unfolding lost
silent id b before after f o = record {
  found = f;
  old = o;
  order = prefix-Sublistᴰ b [];
  count = omega arith;
}

tick-Through :
    (id : ℕ) (b : Buffer) (hub : Hub)
    → lookup id hub.sse.subs ≡ some b
    → (b' : Buffer) × Through id b b' hub.sse (tick hub).sse [] (broadcast ticks hub)
unfolding tick
tick-Through id b hub f = elim (Bool-cases hub.running) [
  | inr n ↦ (b, rw n (silent id b hub.sse hub.sse f (omega arith)))
  | inl y ↦
      let events = map (λ r. r.1) hub.sse.pending in
      let start : Sse × Registry = (record hub.sse { pending = [] }, hub.registry) in
      let (g, e) = lookup-send_all hub.sse.pending id b start f in
      let t : Through id b (offers events b) hub.sse (send_all hub.sse.pending start).0 [] events =
        record {
          found = g;
          old = rw e (omega arith);
          order = offers-Sublistᴰ events b;
          count = omega (arith, length-offers events b);
        } in
      (offers events b, rw y t)
]

module _ (marshal : SseEvent → Option Bytes) where
  found_after :
      (id j : ℕ) (b : Buffer) (hub : Hub)
      → lookup id hub.sse.subs ≡ some b
      → lookup id (step marshal (rounds j takes) hub).sse.subs
        ≡ some (if id == j then rest_of b else b)
  unfolding step
  found_after id j b hub f =
      lookup-map_values (λ i c. if i == j then rest_of c else c) id hub.sse.subs
      ∙ ap (Option.map (λ c. if id == j then rest_of c else c)) f

  own-Through :
      (id : ℕ) (b : Buffer) (hub : Hub)
      → lookup id hub.sse.subs ≡ some b
      → Through id b
          (rest_of b)
          hub.sse
          (step marshal (rounds id takes) hub).sse
          (as_list (head_of (some b)))
          []
  unfolding step lost
  own-Through id [] hub f = record {
    found = found_after id id [] hub f ∙ rw ((nat_beq_iff id id).1 refl) refl;
    old = omega arith;
    order = Sublistᴰ.slnil;
    count = refl;
  }
  own-Through id (event ∷ b) hub f = record {
    found = found_after id id (event ∷ b) hub f ∙ rw ((nat_beq_iff id id).1 refl) refl;
    old = omega arith;
    order = prefix-Sublistᴰ (event ∷ b) [];
    count = omega arith;
  }

  takes-Through :
      (id j : ℕ) (b : Buffer) (hub : Hub)
      → lookup id hub.sse.subs ≡ some b
      → (b' : Buffer) × Through id b b' hub.sse
          (step marshal (rounds j takes) hub).sse
          (taken id (rounds j takes) hub)
          []
  unfolding step
  takes-Through id j b hub f = elim (Bool-cases (nat_beq j id)) [
    | inr n ↦
        let other : nat_beq id j ≡ false = ground (arith, n) in
        let same : lookup id (step marshal (rounds j takes) hub).sse.subs ≡ some b =
          found_after id j b hub f ∙ rw other refl in
        rw n ((b, silent id b hub.sse (step marshal (rounds j takes) hub).sse same (omega arith)))
    | inl y ↦
        let e : j ≡ id = (nat_beq_iff j id).0 y in
        rw (e, (nat_beq_iff id id).1 refl, f) ((rest_of b, own-Through id b hub f))
  ]

  pub step-Through :
      (a : Step) (id : ℕ) (b : Buffer) (hub : Hub)
      → lookup id hub.sse.subs ≡ some b
      → id < hub.sse.next_id
      → Stays id a
      → (b' : Buffer) × Through id b b' hub.sse
          (step marshal a hub).sse
          (taken id a hub)
          (broadcast a hub)
  unfolding step lost offers
  step-Through (connects now) id b hub f l st =
      let other : nat_beq hub.sse.next_id id ≡ false = ground (arith, l) in
      (b, silent id b hub.sse (step marshal (connects now) hub).sse (rw other f) (omega arith))
  step-Through (rounds j takes) id b hub f l st = takes-Through id j b hub f
  step-Through (rounds j (pings now)) id b hub f l st =
      (b, silent id b hub.sse hub.sse f (omega arith))
  step-Through (rounds j leaves) id b hub f l st = (
    b,
    silent id b hub.sse (step marshal (rounds j leaves) hub).sse
        (lookup-filter_key (λ i. not (i == j)) id hub.sse.subs (ground (arith, st)) ∙ f)
        (omega arith),
  )
  step-Through (sends event) id b hub f l st = (
    offer event b,
    record {
      found = lookup-offer event id b hub.sse.subs f;
      old = omega arith;
      order = offer-Sublistᴰ event b;
      count = omega (arith, length-offers (event ∷ []) b);
    },
  )
  step-Through (submits event) id b hub f l st =
      (b, silent id b hub.sse (step marshal (submits event) hub).sse f (omega arith))
  step-Through ticks id b hub f l st = tick-Through id b hub f
  step-Through stops id b hub f l st =
      let (b', t) = tick-Through id b hub f in
      (b', record { found = t.found; old = t.old; order = t.order; count = t.count })
