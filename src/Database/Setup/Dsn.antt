-- ===== src/Database/Setup/Dsn.antt =====
-- About buildDSN (internal/database/db.go): what a reader of the query part finds in it.
use live_actions.Base.{
  ℕ, ◌/◌, ◌%◌, ◌<◌, ◌≡◌, refl, ◌∙◌, inl, inr, true, false, Option, none, some, List, [], ◌∷◌, ◌++◌,
  map, nat_beq, arith, Bool-cases, Option-cases,
}
use live_actions.Base.Keys.{All, All-append}
use live_actions.Base.Split.{Lacks, cut-none, cut-some, split_on-append, split_on-join_with}
use live_actions.Base.Text.{cut, split_on, join_with}
use live_actions.Models.{Bytes}
use live_actions.Webhook.Encoding.{hex_value, query_unescape}
use live_actions.Database.Setup.{
  is_unreserved, upper_hex_digit, escape_byte, query_escape, pragma_key, pragma_part, build_dsn,
}
use mathlib.Core.Option
use mathlib.Core.List

abbrev pub IsByte : ℕ → Type 0
IsByte b = b < 256

hex_value-upper_hex_digit : (n : ℕ) → n < 16 → hex_value (upper_hex_digit n) ≡ some n
unfolding hex_value upper_hex_digit
hex_value-upper_hex_digit n h = ground arith

-- The first byte, where it is no `%`.
unescape_first :
    (c : ℕ) (s t : Bytes)
    → nat_beq c b'%' ≡ false
    → nat_beq c b'+' ≡ false
    → query_unescape s ≡ some t
    → query_unescape (c ∷ s) ≡ some (c ∷ t)
unfolding query_unescape
unescape_first c [] t h k e = ground (arith, h, k, e)
unescape_first c (a ∷ []) t h k e = rw (h, e, k) refl
unescape_first c (a ∷ b ∷ s) t h k e = rw (h, e, k) refl

unreserved_not :
    (c : ℕ)
    → is_unreserved c ≡ true
    → (nat_beq c b'%' ≡ false) × (nat_beq c b'+' ≡ false) × (nat_beq c b'&' ≡ false)
unfolding is_unreserved
unreserved_not c h = ground arith

unescape_plus :
    (s t : Bytes) → query_unescape s ≡ some t → query_unescape (b'+' ∷ s) ≡ some (32 ∷ t)
unfolding query_unescape
unescape_plus [] t e = ground (arith, e)
unescape_plus (a ∷ []) t e = rw e refl
unescape_plus (a ∷ b ∷ s) t e = rw e refl

unescape-escape_byte :
    (c : ℕ) (s t : Bytes)
    → IsByte c
    → query_unescape s ≡ some t
    → query_unescape (escape_byte c ++ s) ≡ some (c ∷ t)
unfolding escape_byte query_unescape
unescape-escape_byte c s t h e = elim (Bool-cases (is_unreserved c)) [
  | inl y ↦ let (k, l, m) = unreserved_not c y in rw y (unescape_first c s t k l e)
  | inr n ↦ elim (Bool-cases (nat_beq c 32)) [
    | inl y ↦ rw (n, y) (unescape_plus s t e ∙ ground arith)
    | inr m ↦
        rw (n, m, e)
          (rw
            (
              hex_value-upper_hex_digit (c / 16) (omega (arith, h)),
              hex_value-upper_hex_digit (c % 16) (omega arith),
            )
            (ground arith))
  ]
]

-- Unescaping what was escaped gives it back.
pub query_unescape-query_escape :
    (bs : Bytes) → All IsByte bs → query_unescape (query_escape bs) ≡ some bs
unfolding query_escape query_unescape
query_unescape-query_escape [] h = refl
query_unescape-query_escape (b ∷ bs) h =
    unescape-escape_byte b (query_escape bs) bs h.0 (query_unescape-query_escape bs h.1)

escape_byte-Lacks : (c : ℕ) → Lacks b'&' (escape_byte c)
unfolding escape_byte upper_hex_digit
escape_byte-Lacks c = elim (Bool-cases (is_unreserved c)) [
  | inl y ↦ rw y (((unreserved_not c y).2, tt))
  | inr n ↦ elim (Bool-cases (nat_beq c 32)) [
    | inl y ↦ rw (n, y) ((refl, tt))
    | inr m ↦ rw (n, m) ((refl, (ground arith, (ground arith, tt))))
  ]
]

query_escape-Lacks : (bs : Bytes) → Lacks b'&' (query_escape bs)
unfolding query_escape
query_escape-Lacks [] = tt
query_escape-Lacks (b ∷ bs) =
    All-append (λ c. nat_beq c b'&' ≡ false) (escape_byte b) (query_escape bs) (escape_byte-Lacks b)
      (query_escape-Lacks bs)

abbrev both : {A B : Type 0} → Option A → Option B → Option (A × B)
both (some a) (some b) = some (a, b)
both (some a) none = none
both none b = none

-- A key and a value, which is empty where there is no `=`.
abbrev value_of : Bytes → Option (Bytes × Bytes) → Option (Bytes × Bytes)
value_of text none = both (query_unescape text) (some [])
value_of text (some (key, value)) = both (query_unescape key) (query_unescape value)

abbrev and_values :
    Option (Bytes × Bytes) → Option (List (Bytes × Bytes)) → Option (List (Bytes × Bytes))
and_values (some v) (some vs) = some (v ∷ vs)
and_values (some v) none = none
and_values none vs = none

-- What a reader of a query takes from its parts; an empty part gives nothing.
unfoldable pub values_of : List Bytes → Option (List (Bytes × Bytes))
unfolding query_unescape cut
values_of [] = some []
values_of ([] ∷ parts) = values_of parts
values_of ((c ∷ cs) ∷ parts) = and_values (value_of (c ∷ cs) (cut b'=' (c ∷ cs))) (values_of parts)

abbrev query_values : Option (Bytes × Bytes) → Option (List (Bytes × Bytes))
query_values none = some []
query_values (some (path, query)) = values_of (split_on b'&' query)

-- The parameters of a data source name: of what is behind the first `?`.
unfoldable pub dsn_values : Bytes → Option (List (Bytes × Bytes))
unfolding values_of
dsn_values dsn = query_values (cut b'?' dsn)

values_of-append :
    (xs ys : List Bytes) (zs : List (Bytes × Bytes))
    → values_of ys ≡ some zs
    → values_of (xs ++ ys) ≡ Option.map (λ vs. vs ++ zs) (values_of xs)
unfolding values_of
values_of-append [] ys zs e = e
values_of-append ([] ∷ xs) ys zs e = values_of-append xs ys zs e
values_of-append ((c ∷ cs) ∷ xs) ys zs e =
    rw (values_of-append xs ys zs e) (elim (Option-cases (value_of (c ∷ cs) (cut b'=' (c ∷ cs)))) [
      | inl n ↦ rw n refl
      | inr (v, n) ↦ elim (Option-cases (values_of xs)) [
        | inl m ↦ rw (n, m) refl
        | inr (vs, m) ↦ rw (n, m) refl
      ]
    ])

abbrev pub pragma_values : List Bytes → List (Bytes × Bytes)
pragma_values = map (λ pragma. (pragma_key, pragma))

values_of-pragmas :
    (pragmas : List Bytes)
    → All (All IsByte) pragmas
    → values_of (map pragma_part pragmas) ≡ some (pragma_values pragmas)
unfolding values_of
values_of-pragmas [] h = refl
values_of-pragmas (p ∷ ps) h = rw (query_unescape-query_escape p h.0, values_of-pragmas ps h.1) refl

parts-Lacks : (pragmas : List Bytes) → All (Lacks b'&') (map pragma_part pragmas)
parts-Lacks [] = tt
parts-Lacks (p ∷ ps) = (
  All-append (λ c. nat_beq c b'&' ≡ false) (pragma_key ++ b'=' ∷ []) (query_escape p)
      (refl, (refl, (refl, (refl, (refl, (refl, (refl, (refl, tt)))))))) (query_escape-Lacks p),
  parts-Lacks ps,
)

-- A reader of the data source name that buildDSN makes finds the parameters of the given one and
-- then each pragma, unescaped, in order, whether or not the given one has a query, if the pragmas
-- consist of bytes.
pub dsn_values-build_dsn :
    (dsn : Bytes) (pragmas : List Bytes)
    → All (All IsByte) pragmas
    → dsn_values (build_dsn dsn pragmas)
      ≡ Option.map (λ vs. vs ++ pragma_values pragmas) (dsn_values dsn)
unfolding dsn_values build_dsn
dsn_values-build_dsn dsn [] h = elim (Option-cases (dsn_values dsn)) [
  | inl n ↦ rw n refl
  | inr (vs, e) ↦ rw (e, List.append-nil vs) refl
]
dsn_values-build_dsn dsn (p ∷ ps) h =
    let read =
      split_on-join_with b'&' (pragma_part p) (map pragma_part ps) (parts-Lacks (p ∷ ps)) in
    let query = join_with b'&' (map pragma_part (p ∷ ps)) in
    elim (Option-cases (cut b'?' dsn)) [
      | inl n ↦
          let (k, l) = cut-none b'?' dsn query n in
          rw (n, k, l, read) (values_of-pragmas (p ∷ ps) h)
      | inr ((path, own), e) ↦
          let (k, l) = cut-some b'?' dsn (b'&' ∷ query) path own e in
          rw (e, k, l, split_on-append b'&' own query, read)
            (values_of-append (split_on b'&' own) (map pragma_part (p ∷ ps))
              (pragma_values (p ∷ ps)) (values_of-pragmas (p ∷ ps) h))
    ]
