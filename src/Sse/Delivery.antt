-- ===== src/Sse/Delivery.antt =====
-- About what a client of HandleSSE (handlers/sse_handler.go) is sent over a whole connection.
use mathlib.Core.List.{Sublistᴰ, append_assoc}
use mathlib.Core.List.Sublistᴰ
use mathlib.Core.List
use live_actions.Base.{
  ℕ, ◌+◌, ◌<◌, ◌≡◌, refl, ap, ◌∙◌, sym, subst, inl, inr, Option, none, some, List, [], ◌∷◌, ◌++◌,
  length, length-append, nat_beq, nat_beq_iff, nat_eq, ◌==◌, if◌then◌else◌, arith, Bool-cases,
  Option-cases,
}
use live_actions.Base.Keys.{All}
use live_actions.Base.Table.{lookup}
use live_actions.Models.{Time, Bytes}
use live_actions.Sse.{
  SseEvent, Buffer, Hub, Frame, message, connected, ping, takes, leaves, pings, handle_round,
  frames_of, head_of,
}
use live_actions.Sse.Laws.{Step, connects, rounds, step, steps}
use live_actions.Sse.Stream.{
  append-Sublistᴰ, prepend-Sublistᴰ, prefix-Sublistᴰ, lost, broadcast, taken, Stays, step-Through,
}

abbrev or_empty : Option Buffer → Buffer
or_empty none = []
or_empty (some b) = b

-- The JSON in the frames.
abbrev pub messages : List Frame → List Bytes
messages [] = []
messages (connected now ∷ frames) = messages frames
messages (ping now ∷ frames) = messages frames
messages (message json ∷ frames) = json ∷ messages frames

messages-append : (xs ys : List Frame) → messages (xs ++ ys) ≡ messages xs ++ messages ys
messages-append [] ys = refl
messages-append (connected now ∷ xs) ys = messages-append xs ys
messages-append (ping now ∷ xs) ys = messages-append xs ys
messages-append (message json ∷ xs) ys = ap (λ l. json ∷ l) (messages-append xs ys)

module _ (marshal : SseEvent → Option Bytes) where
  -- What the steps send to every client.
  unfoldable pub broadcasts : List Step → Hub → List SseEvent
  unfolding step
  broadcasts [] hub = []
  broadcasts (a ∷ actions) hub = broadcast a hub ++ broadcasts actions (step marshal a hub)

  -- What the client takes from its buffer.
  unfoldable pub takings : ℕ → List Step → Hub → List SseEvent
  unfolding step
  takings id [] hub = []
  takings id (a ∷ actions) hub = taken id a hub ++ takings id actions (step marshal a hub)

  -- How many of the events that are sent find the client's buffer full.
  unfoldable pub missed : ℕ → List Step → Hub → ℕ
  unfolding step lost
  missed id [] hub = 0
  missed id (a ∷ actions) hub =
      lost (broadcast a hub) (or_empty (lookup id hub.sse.subs))
      + missed id actions (step marshal a hub)

  abbrev frames : ℕ → Step → Hub → List Frame
  frames id (rounds j r) hub = if j == id then (handle_round marshal j r hub.sse).0 else []
  frames id _ hub = []

  -- What the client is written.
  unfoldable pub written : ℕ → List Step → Hub → List Frame
  unfolding step handle_round
  written id [] hub = []
  written id (a ∷ actions) hub = frames id a hub ++ written id actions (step marshal a hub)

  -- The JSON of the events that can be marshalled.
  abbrev pub encoded : List SseEvent → List Bytes
  encoded [] = []
  encoded (event ∷ events) = messages (frames_of marshal (some event)) ++ encoded events

  encoded-append : (xs ys : List SseEvent) → encoded (xs ++ ys) ≡ encoded xs ++ encoded ys
  encoded-append [] ys = refl
  encoded-append (x ∷ xs) ys =
      rw (encoded-append xs ys)
        (sym (append_assoc (messages (frames_of marshal (some x))) (encoded xs) (encoded ys)))

  messages-frames :
      (id : ℕ) (a : Step) (hub : Hub) → messages (frames id a hub) ≡ encoded (taken id a hub)
  unfolding handle_round
  messages-frames id (rounds j takes) hub = elim (Bool-cases (nat_beq j id)) [
    | inr n ↦ rw n refl
    | inl y ↦ elim (Option-cases (head_of (lookup j hub.sse.subs))) [
      | inl e ↦ rw (y, e) refl
      | inr (event, e) ↦
          rw (y, e) (sym (List.append-nil (messages (frames_of marshal (some event)))))
    ]
  ]
  messages-frames id (rounds j (pings now)) hub = elim (Bool-cases (nat_beq j id)) [
    | inl y ↦ rw y refl
    | inr n ↦ rw n refl
  ]
  messages-frames id (rounds j leaves) hub = elim (Bool-cases (nat_beq j id)) [
    | inl y ↦ rw y refl
    | inr n ↦ rw n refl
  ]
  messages-frames id _ hub = refl

  pub messages-written :
      (id : ℕ) (actions : List Step) (hub : Hub)
      → messages (written id actions hub) ≡ encoded (takings id actions hub)
  unfolding written takings
  messages-written id [] hub = refl
  messages-written id (a ∷ actions) hub =
      messages-append (frames id a hub) (written id actions (step marshal a hub))
      ∙ rw (messages-frames id a hub, messages-written id actions (step marshal a hub))
          (sym (encoded-append (taken id a hub) (takings id actions (step marshal a hub))))

  -- What a client has been sent, what waits for it and what it has missed.
  abbrev pub Delivers : ℕ → Buffer → List Step → Hub → Type 0
  Delivers id b actions hub =
      (b' : Buffer) × (lookup id (steps marshal actions hub).sse.subs ≡ some b')
      × Sublistᴰ (takings id actions hub ++ b') (b ++ broadcasts actions hub)
      × (length (takings id actions hub) + length b' + missed id actions hub
          ≡ length b + length (broadcasts actions hub))

  chain :
      (b b' e out log outs logs : List SseEvent)
      → Sublistᴰ (out ++ b') (b ++ log)
      → Sublistᴰ (outs ++ e) (b' ++ logs)
      → Sublistᴰ ((out ++ outs) ++ e) (b ++ (log ++ logs))
  chain b b' e out log outs logs s t =
      rw (append_assoc out outs e, ← append_assoc b log logs)
        (Sublistᴰ.trans
          (subst (λ l. Sublistᴰ (out ++ (outs ++ e)) l) (sym (append_assoc out b' logs))
            (prepend-Sublistᴰ out t))
          (append-Sublistᴰ logs s))

  Delivers-from :
      (actions : List Step) (id : ℕ) (b : Buffer) (hub : Hub)
      → lookup id hub.sse.subs ≡ some b
      → id < hub.sse.next_id
      → All (Stays id) actions
      → Delivers id b actions hub
  unfolding steps broadcasts takings missed
  Delivers-from [] id b hub f l st = (b, f, prefix-Sublistᴰ b [], omega arith)
  Delivers-from (a ∷ actions) id b hub f l st =
      let (b', t) = step-Through marshal a id b hub f l st.0 in
      let hub' = step marshal a hub in
      let (e, g, order, count) =
        Delivers-from actions id b' hub' t.found (omega (arith, l, t.old)) st.1 in
      (
        e,
        g,
        chain b b' e (taken id a hub) (broadcast a hub) (takings id actions hub')
            (broadcasts actions hub') t.order order,
        rw f (
            omega (
              arith,
              count,
              t.count,
              length-append (taken id a hub) (takings id actions hub'),
              length-append (broadcast a hub) (broadcasts actions hub'),
            )),
      )

  -- A client that connects and stays takes, in order, events that were sent to all after it
  -- connected, each at most once; those that it took, that wait in its buffer and that found it
  -- full are as many as were sent; and the messages written to it are the JSON of what it took.
  pub connects-Delivers :
      (now : Time) (actions : List Step) (hub : Hub)
      → All (Stays hub.sse.next_id) actions
      → let id = hub.sse.next_id in
        let hub' = step marshal (connects now) hub in
        Delivers id [] actions hub'
        × (messages (written id actions hub') ≡ encoded (takings id actions hub'))
  unfolding step
  connects-Delivers now actions hub st =
      let id = hub.sse.next_id in
      let hub' = step marshal (connects now) hub in
      (
        Delivers-from actions id [] hub' (rw ((nat_beq_iff id id).1 refl) refl) (omega arith) st,
        messages-written id actions hub',
      )
