-- ===== src/Webhook/Laws.antt =====
-- About the signature check and the payload decoding of handlers/webhook_handler.go.
use live_actions.Base.{
  ℕ, ◌/◌, ◌%◌, ◌<◌, ◌≤◌, ◌≡◌, refl, ◌≢◌, ◌↔◌, inl, inr, String, true, false, some, [], ◌∷◌, length,
  nat_beq, arith, Option-cases, string_eq,
}
use live_actions.Models.{Bytes}
use live_actions.Webhook.Encoding.{
  hex_value, hex_digit, hex_encode, hex_decode, query_unescape, has_prefix, bytes_eq,
  payload_prefix,
}
use live_actions.Webhook.{
  next, whole, Request, max_body_size, signature_hash, validate_github_webhook,
}

abbrev pub AllBytes : Bytes → Type 0
AllBytes [] = Unit
AllBytes (b ∷ bs) = (b < 256) × AllBytes bs

hex_value-hex_digit : (n : ℕ) → n < 16 → hex_value (hex_digit n) ≡ some n
unfolding hex_value hex_digit
hex_value-hex_digit n h = ground arith

-- Decoding the hexadecimal form of a list of bytes gives the bytes.
pub hex_decode-hex_encode : (bs : Bytes) → AllBytes bs → hex_decode (hex_encode bs) ≡ some bs
unfolding hex_decode hex_encode
hex_decode-hex_encode [] h = refl
hex_decode-hex_encode (b ∷ bs) h =
    rw
      (
        hex_value-hex_digit (b / 16) (omega (arith, h.0)),
        hex_value-hex_digit (b % 16) (omega arith),
        hex_decode-hex_encode bs h.1,
      )
      (ground arith)

pub bytes_eq_iff : (as' bs : Bytes) → (bytes_eq as' bs ≡ true) ↔ (as' ≡ bs)
unfolding bytes_eq
bytes_eq_iff [] [] = ((λ h. refl), (λ h. refl))
bytes_eq_iff [] (b ∷ bs) = ((λ h. cc), (λ h. cc))
bytes_eq_iff (a ∷ as') [] = ((λ h. cc), (λ h. cc))
bytes_eq_iff (a ∷ as') (b ∷ bs) = ground (arith, bytes_eq_iff as' bs)

empty_iff : (bs : Bytes) → (nat_beq (length bs) 0 ≡ true) ↔ (bs ≡ [])
empty_iff [] = ((λ h. refl), (λ h. refl))
empty_iff (b ∷ bs) = (λ h. absurd (ground arith), λ h. cc)

-- A secret is configured, the body is within the limit, the signature header is the hexadecimal form
-- of the body's MAC, after an optional "sha256=", and there is an event type.
abbrev pub Passes : (Bytes → Bytes → Bytes) → Bytes → Request → String → Bytes → Type 0
Passes hmac secret req event body =
    (secret ≢ [])
    × (req.signature ≢ [])
    × (length body ≤ max_body_size)
    × (hex_decode (signature_hash req.signature) ≡ some (hmac secret body))
    × (req.event ≡ event)
    × (event ≢ "")

-- A request whose body arrives whole passes the signature check exactly when a secret is
-- configured, the body is within the limit, the header decodes to the MAC of the body, and there
-- is an event type, if the MAC consists of bytes.
pub validate_iff :
    (hmac : Bytes → Bytes → Bytes) (secret : Bytes) (req : Request) (event : String) (body : Bytes)
    → AllBytes (hmac secret body)
    → req.body ≡ whole body
    → (validate_github_webhook hmac secret req ≡ next event) ↔ Passes hmac secret req event body
unfolding validate_github_webhook
validate_iff hmac secret req event body ok' e =
    rw (e, hex_decode-hex_encode (hmac secret body) ok')
      (elim (Option-cases (hex_decode (signature_hash req.signature))) [
        | inl n ↦
            ground
              (arith, n, empty_iff secret, empty_iff req.signature, string_eq.beq_iff req.event "")
        | inr (received, r) ↦ ground (
          arith,
          r,
          empty_iff secret,
          empty_iff req.signature,
          string_eq.beq_iff req.event "",
          bytes_eq_iff (hmac secret body) received,
        )
      ])

unescape_plain :
    (c : ℕ) (s : Bytes)
    → nat_beq c b'%' ≡ false
    → nat_beq c b'+' ≡ false
    → (d : Bytes) → query_unescape (c ∷ s) ≡ some d
    → (rest : Bytes) × (query_unescape s ≡ some rest) × (d ≡ c ∷ rest)
unfolding query_unescape
unescape_plain c [] h k d e = ([], refl, ground arith)
unescape_plain c (a ∷ []) h k d e = elim (Option-cases (query_unescape (a ∷ []))) [
  | inl n ↦ absurd (ground (arith, n))
  | inr (rest, r) ↦ (rest, r, ground (arith, r))
]
unescape_plain c (a ∷ b ∷ s) h k d e = elim (Option-cases (query_unescape (a ∷ b ∷ s))) [
  | inl n ↦ absurd (ground (arith, n))
  | inr (rest, r) ↦ (rest, r, ground (arith, r))
]

-- No byte is `%` or `+`.
abbrev IsPlain : Bytes → Type 0
IsPlain [] = Unit
IsPlain (c ∷ cs) = (nat_beq c b'%' ≡ false) × (nat_beq c b'+' ≡ false) × IsPlain cs

has_prefix-query_unescape :
    (ps s d : Bytes)
    → IsPlain ps
    → has_prefix s ps ≡ true
    → query_unescape s ≡ some d
    → has_prefix d ps ≡ true
unfolding has_prefix
has_prefix-query_unescape [] s d pl h e = refl
has_prefix-query_unescape (p ∷ ps) [] d pl h e = cc
has_prefix-query_unescape (p ∷ ps) (c ∷ s) d pl h e =
    let same : c ≡ p = ground arith in
    let (rest, r, q) = unescape_plain c s (rw same pl.0) (rw same pl.1) d e in
    rw q (ground (arith, has_prefix-query_unescape ps s rest pl.2 (ground arith) r))

-- A body that starts with the payload prefix still does once it is unescaped, so the error for an
-- unescaped form without the prefix is never returned.
pub payload_prefix-query_unescape :
    (s d : Bytes)
    → has_prefix s payload_prefix ≡ true
    → query_unescape s ≡ some d
    → has_prefix d payload_prefix ≡ true
payload_prefix-query_unescape s d = has_prefix-query_unescape payload_prefix s d (
    (
      refl,
      refl,
      ((
        refl,
        refl,
        ((
          refl,
          refl,
          ((refl, refl, ((refl, refl, ((refl, refl, ((refl, refl, ((refl, refl, tt)))))))))),
        )),
      )),
    ))
