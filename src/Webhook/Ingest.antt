-- ===== src/Webhook/Ingest.antt =====
-- About Ingest (handlers/webhook_handler.go): its answers, the queue and the counters.
use live_actions.Base.{
  ℕ, ◌<◌, ◌≡◌, ◌↔◌, refl, sym, subst, ap, ◌∙◌, none, ◌⊎◌, inl, inr, String, true, false, some,
  Option, [], ◌∷◌, ◌++◌, drop, length, ltb, arith, if◌then◌else◌, Bool-cases, Option-cases, ◌==◌,
  string_eq,
}
use live_actions.Base.Table.{lookup}
use mathlib.Core.Option
use live_actions.Models.{Time, Bytes, OrderedEvent}
use live_actions.Handlers.{App, Decoder, Handler, handlers}
use live_actions.Ordering.{Service, Wake}
use live_actions.Webhook.Encoding.{query_unescape, has_prefix, payload_prefix}
use live_actions.Webhook.Laws.{payload_prefix-query_unescape}
use live_actions.Webhook.{
  with_payload, Response, ingest, ordered_event, extract_event_timestamp, extract_ordering_key,
  get_status_priority,
}

-- A form delivery whose body unescapes is ingested as the JSON after the prefix, if that JSON does
-- not start with the prefix itself.
pub ingest_form :
    (d : Decoder) (wake : Wake) (event_type delivery_id : String) (body decoded : Bytes)
    (s : Service)
    → has_prefix body payload_prefix ≡ true
    → query_unescape body ≡ some decoded
    → has_prefix (drop 8 decoded) payload_prefix ≡ false
    → ingest d wake event_type delivery_id body s
      ≡ ingest d wake event_type delivery_id (drop 8 decoded) s
unfolding ingest
ingest_form d wake event_type delivery_id body decoded s h e plain =
    rw (h, e, payload_prefix-query_unescape body decoded h e, plain)

-- The JSON that a body carries: itself, or what follows the prefix of a form once unescaped.
abbrev pub carried : Bytes → Option Bytes
carried body =
    if has_prefix body payload_prefix then Option.map (drop 8) (query_unescape body) else some body

-- The state with the counters of deliveries of another.
abbrev pub counted : Service → Service → App
counted s s' = record s.app {
  registry = record s.app.registry { webhook_events_total = s'.app.registry.webhook_events_total };
}

-- 202: the event stands with the payload at the end of the channel, which had room, its type has a
-- handler, and nothing else but the counters of deliveries has changed.
abbrev pub Accepted : String → String → Option Bytes → Service → Response × Service → Type 0
Accepted event_type delivery_id payload s (r, s') =
    (r.status ≡ 202)
    × (length s.ingest_ch < s.capacity)
    × ((event : OrderedEvent) × (event.event_type ≡ event_type)
        × (event.sequence.delivery_id ≡ delivery_id)
        × (event.persisted ≡ false)
        × (event.raw_payload ≡ payload)
        × (s' ≡ record s { app = counted s s'; ingest_ch = s.ingest_ch ++ event ∷ [] }))
    × ((h : Handler) × (lookup event_type handlers ≡ some h))

-- Any other answer: nothing but the counters of deliveries has changed.
abbrev pub Declined : Service → Response × Service → Type 0
Declined s (r, s') =
    ((r.status ≡ 200) ⊎ ((r.status ≡ 400) ⊎ ((r.status ≡ 500) ⊎ (r.status ≡ 503))))
    × (s' ≡ record s { app = counted s s' })

payload_outcome :
    (d : Decoder) (wake : Wake) (event_type delivery_id : String) (payload : Bytes) (s : Service)
    → let out = with_payload d wake event_type delivery_id payload s in
      Accepted event_type delivery_id (some payload) s out ⊎ Declined s out
unfolding ingest
payload_outcome d wake event_type delivery_id payload s = elim (Bool-cases (d.is_object payload)) [
  | inr bad ↦ rw bad (inr (ground arith))
  | inl good ↦ rw good (elim (Option-cases (lookup event_type handlers)) [
    | inl e ↦ rw e (inr (ground arith))
    | inr (h, e) ↦ rw e (elim (Option-cases (extract_event_timestamp d h payload)) [
      | inl n ↦ rw n (inr (ground arith))
      | inr (t, et) ↦ rw et (elim (Option-cases (extract_ordering_key d h payload)) [
        | inl n ↦ rw n (inr (ground arith))
        | inr (key, ek) ↦ rw ek (elim (Option-cases (get_status_priority d h payload)) [
          | inl n ↦ rw n (inr (ground arith))
          | inr (p, ep) ↦ rw ep (elim (Bool-cases (ltb (length s.ingest_ch) s.capacity)) [
            | inl room ↦ inl (
              ground arith,
              ground arith,
              (
                ordered_event d event_type delivery_id payload t s.app.db.now key p,
                refl,
                refl,
                refl,
                refl,
                ground arith,
              ),
              (h, refl),
            )
            | inr full ↦ inr (ground arith)
          ])
        ])
      ])
    ])
  ])
]

-- Ingest either answers 202, and then the channel had room and gained one event at its end with
-- the type, for which there is a handler, the delivery id and the payload of the call, or answers
-- 200, 400, 500 or 503; in both cases nothing else but the counters of deliveries changes.
pub ingest_outcome :
    (d : Decoder) (wake : Wake) (event_type delivery_id : String) (body : Bytes) (s : Service)
    → let out = ingest d wake event_type delivery_id body s in
      Accepted event_type delivery_id (carried body) s out ⊎ Declined s out
unfolding ingest
ingest_outcome d wake event_type delivery_id body s = elim (Bool-cases (event_type == "")) [
  | inl e ↦ rw e (inr (ground arith))
  | inr e ↦ rw e (elim (Bool-cases (delivery_id == "")) [
    | inl f ↦ rw f (inr (ground arith))
    | inr f ↦ rw f (elim (Bool-cases (has_prefix body payload_prefix)) [
      | inr json ↦ rw json (payload_outcome d wake event_type delivery_id body s)
      | inl form ↦ rw form (elim (Option-cases (query_unescape body)) [
        | inl n ↦ rw n (inr (ground arith))
        | inr (decoded, u) ↦
            rw (u, payload_prefix-query_unescape body decoded form u)
              (payload_outcome d wake event_type delivery_id (drop 8 decoded) s)
      ])
    ])
  ])
]

-- A payload that can be ingested: a JSON object, for whose type there is a handler that finds a
-- time, an ordering key and a priority in it.
abbrev IsReadable : Decoder → String → Bytes → Type 0
IsReadable d event_type payload =
    (d.is_object payload ≡ true)
    × ((h : Handler) × (lookup event_type handlers ≡ some h)
        × ((t : Time) × (extract_event_timestamp d h payload ≡ some t))
        × ((key : String) × (extract_ordering_key d h payload ≡ some key))
        × ((p : ℕ) × (get_status_priority d h payload ≡ some p)))

-- A delivery with a type and an id that carries such a payload, in its body or in a form.
abbrev pub IsAcceptable : Decoder → String → String → Bytes → Type 0
IsAcceptable d event_type delivery_id body =
    ¬ (event_type ≡ "")
    × ¬ (delivery_id ≡ "")
    × ((payload : Bytes) × (carried body ≡ some payload) × IsReadable d event_type payload)

abbrev HasRoom : Service → Type 0
HasRoom s = length s.ingest_ch < s.capacity

payload_accepts :
    (d : Decoder) (wake : Wake) (event_type delivery_id : String) (payload : Bytes) (s : Service)
    → IsReadable d event_type payload
    → HasRoom s
    → (with_payload d wake event_type delivery_id payload s).0.status ≡ 202
unfolding ingest
payload_accepts d wake event_type delivery_id payload s (good, (h, e, (t, et), (key, ek), (p, ep)))
      room =
    rw (good, e, et, ek, ep) (ground (arith, room))

payload-IsReadable :
    (d : Decoder) (wake : Wake) (event_type delivery_id : String) (payload : Bytes) (s : Service)
    → (with_payload d wake event_type delivery_id payload s).0.status ≡ 202
    → IsReadable d event_type payload
unfolding ingest
payload-IsReadable d wake event_type delivery_id payload s a =
    elim (Bool-cases (d.is_object payload)) [
      | inr bad ↦ absurd (ground (arith, bad, a))
      | inl good ↦ elim (Option-cases (lookup event_type handlers)) [
        | inl e ↦ absurd (ground (arith, good, e, a))
        | inr (h, e) ↦ elim (Option-cases (extract_event_timestamp d h payload)) [
          | inl n ↦ absurd (ground (arith, good, e, n, a))
          | inr (t, et) ↦ elim (Option-cases (extract_ordering_key d h payload)) [
            | inl n ↦ absurd (ground (arith, good, e, et, n, a))
            | inr (key, ek) ↦ elim (Option-cases (get_status_priority d h payload)) [
              | inl n ↦ absurd (ground (arith, good, e, et, ek, n, a))
              | inr (p, ep) ↦ (good, (h, e, (t, et), (key, ek), (p, ep)))
            ]
          ]
        ]
      ]
    ]

named : (text : String) → (text == "") ≡ false → ¬ (text ≡ "")
named text n e = absurd (ground (arith, n, (string_eq.beq_iff text "").1 e))

unnamed : (text : String) → ¬ (text ≡ "") → (text == "") ≡ false
unnamed text n = elim (Bool-cases (text == "")) [
  | inl y ↦ absurd (n ((string_eq.beq_iff text "").0 y))
  | inr e ↦ e
]

-- The payload that Ingest goes on with is what the body carries.
ingest-carried :
    (d : Decoder) (wake : Wake) (event_type delivery_id : String) (body : Bytes) (s : Service)
    → (event_type == "") ≡ false
    → (delivery_id == "") ≡ false
    → (((ingest d wake event_type delivery_id body s).0.status ≡ 400) × (carried body ≡ none))
      ⊎ ((payload : Bytes) × (carried body ≡ some payload)
          × (ingest d wake event_type delivery_id body s
              ≡ with_payload d wake event_type delivery_id payload s))
unfolding ingest
ingest-carried d wake event_type delivery_id body s e f =
    rw (e, f)
      (elim (Bool-cases (has_prefix body payload_prefix)) [
        | inr json ↦ rw json (inr (body, refl, refl))
        | inl form ↦ rw form (elim (Option-cases (query_unescape body)) [
          | inl n ↦ rw n (inl (refl, refl))
          | inr (decoded, u) ↦
              rw (u, payload_prefix-query_unescape body decoded form u)
                (inr (drop 8 decoded, refl, refl))
        ])
      ])

delivery-IsAcceptable :
    (d : Decoder) (wake : Wake) (event_type delivery_id : String) (body : Bytes) (s : Service)
    → (ingest d wake event_type delivery_id body s).0.status ≡ 202
    → IsAcceptable d event_type delivery_id body
unfolding ingest
delivery-IsAcceptable d wake event_type delivery_id body s a =
    elim (Bool-cases (event_type == "")) [
      | inl e ↦ absurd (ground (arith, e, a))
      | inr e ↦ elim (Bool-cases (delivery_id == "")) [
        | inl f ↦ absurd (ground (arith, e, f, a))
        | inr f ↦ elim (ingest-carried d wake event_type delivery_id body s e f) [
          | inl (bad, n) ↦ absurd (omega arith)
          | inr (payload, c, same) ↦ (
            named event_type e,
            named delivery_id f,
            (
              payload,
              c,
              payload-IsReadable d wake event_type delivery_id payload s
                  (ap (λ out. out.0.status) (sym same) ∙ a),
            ),
          )
        ]
      ]
    ]

has_room :
    (d : Decoder) (wake : Wake) (event_type delivery_id : String) (body : Bytes) (s : Service)
    → (ingest d wake event_type delivery_id body s).0.status ≡ 202
    → HasRoom s
has_room d wake event_type delivery_id body s a =
    elim (ingest_outcome d wake event_type delivery_id body s) [
      | inl accepted ↦ accepted.1
      | inr declined ↦ absurd (omega (arith, declined.0, a))
    ]

accepts :
    (d : Decoder) (wake : Wake) (event_type delivery_id : String) (body : Bytes) (s : Service)
    → IsAcceptable d event_type delivery_id body
    → HasRoom s
    → (ingest d wake event_type delivery_id body s).0.status ≡ 202
accepts d wake event_type delivery_id body s (event, delivery, (payload, c, readable)) room =
    elim (ingest-carried d wake event_type delivery_id body s (unnamed event_type event)
      (unnamed delivery_id delivery)) [
        | inl (bad, n) ↦ absurd (cc)
        | inr (payload', c', same) ↦
            let eq : payload ≡ payload' = cc in
            ap (λ out. out.0.status) same
            ∙ payload_accepts d wake event_type delivery_id payload' s
                (subst (IsReadable d event_type) eq readable) room
      ]

pub ingest_iff :
    (d : Decoder) (wake : Wake) (event_type delivery_id : String) (body : Bytes) (s : Service)
    → ((ingest d wake event_type delivery_id body s).0.status ≡ 202)
      ↔ (IsAcceptable d event_type delivery_id body × (length s.ingest_ch < s.capacity))
ingest_iff d wake event_type delivery_id body s = (
  (λ a. (
    delivery-IsAcceptable d wake event_type delivery_id body s a,
    has_room d wake event_type delivery_id body s a,
  )),
  (λ h. accepts d wake event_type delivery_id body s h.0 h.1),
)
