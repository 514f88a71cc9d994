-- ===== src/Base/Split.antt =====
-- Texts that are cut, split and joined.
use Prim.Native.Nat.{ℕ}
use mathlib.Core.Path.{◌≡◌, refl}
use mathlib.Core.Bool.{true, false}
use mathlib.Core.Logic.{inl, inr}
use mathlib.Core.Option.{none, some}
use mathlib.Core.List.{List, [], ◌∷◌, ◌++◌}
use native.Mathlib.Omega.{arith}
use live_actions.Base.Tests.{nat_beq, nat_beq_iff, Bool-cases, Option-cases}
use live_actions.Base.Lists.{any}
use live_actions.Base.Keys.{All}
use live_actions.Base.Text.{cut, split_on, join_with}

-- No byte is `c`.
abbrev pub Lacks : ℕ → List ℕ → Type 0
Lacks c = All (λ b. nat_beq b c ≡ false)

pub cut-none :
    (c : ℕ) (s r : List ℕ)
    → cut c s ≡ none
    → (any (λ b. nat_beq b c) s ≡ false) × (cut c (s ++ c ∷ r) ≡ some (s, r))
unfolding cut
cut-none c [] r h = (refl, rw ((nat_beq_iff c c).1 refl) refl)
cut-none c (b ∷ s) r h = elim (Bool-cases (nat_beq b c)) [
  | inl y ↦ absurd (ground (arith, y, h))
  | inr n ↦ elim (Option-cases (cut c s)) [
    | inl e ↦ let (k, l) = cut-none c s r e in (rw (n, k) refl, rw (n, l) refl)
    | inr (fb, e) ↦ absurd (ground (arith, n, e, h))
  ]
]

pub cut-some :
    (c : ℕ) (s r front back : List ℕ)
    → cut c s ≡ some (front, back)
    → (any (λ b. nat_beq b c) s ≡ true) × (cut c (s ++ r) ≡ some (front, back ++ r))
unfolding cut
cut-some c [] r front back h = absurd (cc)
cut-some c (b ∷ s) r front back h = elim (Bool-cases (nat_beq b c)) [
  | inl y ↦
      let k : [] ≡ front = ground (arith, y, h) in
      let l : s ≡ back = ground (arith, y, h) in (rw y refl, rw (y, ← k, ← l) refl)
  | inr n ↦ elim (Option-cases (cut c s)) [
    | inl e ↦ absurd (ground (arith, n, e, h))
    | inr ((f, g), e) ↦
        let (k, l) = cut-some c s r f g e in
        let u : b ∷ f ≡ front = ground (arith, n, e, h) in
        let v : g ≡ back = ground (arith, n, e, h) in (rw (n, k) refl, rw (n, l, ← u, ← v) refl)
  ]
]

-- There is a first text.
split_on-cons :
    (c : ℕ) (s : List ℕ)
    → (first : List ℕ) × (others : List (List ℕ)) × (split_on c s ≡ first ∷ others)
unfolding split_on
split_on-cons c [] = ([], [], refl)
split_on-cons c (b ∷ s) = elim (Bool-cases (nat_beq b c)) [
  | inl y ↦ rw y (([], split_on c s, refl))
  | inr n ↦ let (f, os, e) = split_on-cons c s in rw (n, e) ((b ∷ f, os, refl))
]

pub split_on-append :
    (c : ℕ) (s r : List ℕ) → split_on c (s ++ c ∷ r) ≡ split_on c s ++ split_on c r
unfolding split_on
split_on-append c [] r = rw ((nat_beq_iff c c).1 refl) refl
split_on-append c (b ∷ s) r = elim (Bool-cases (nat_beq b c)) [
  | inl y ↦ rw (y, split_on-append c s r) refl
  | inr n ↦ let (f, os, e) = split_on-cons c s in rw (n, split_on-append c s r, e) refl
]

split_on-Lacks : (c : ℕ) (s : List ℕ) → Lacks c s → split_on c s ≡ s ∷ []
unfolding split_on
split_on-Lacks c [] h = refl
split_on-Lacks c (b ∷ s) h = rw (h.0, split_on-Lacks c s h.1) refl

-- Joined texts without the separator are split into themselves.
pub split_on-join_with :
    (c : ℕ) (t : List ℕ) (ts : List (List ℕ))
    → All (Lacks c) (t ∷ ts)
    → split_on c (join_with c (t ∷ ts)) ≡ t ∷ ts
unfolding join_with
split_on-join_with c t [] h = split_on-Lacks c t h.0
split_on-join_with c t (u ∷ ts) h =
    rw
      (
        split_on-append c t (join_with c (u ∷ ts)),
        split_on-Lacks c t h.0,
        split_on-join_with c u ts h.1,
      )
      refl
