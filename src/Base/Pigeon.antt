-- ===== src/Base/Pigeon.antt =====
-- How many rows with different keys there can be, and which groups a table has.
use Prim.Native.Nat.{ℕ, zero, suc, ◌+◌, ◌*◌, ◌/◌, ◌≤◌, ◌<◌}
use native.Mathlib.Nat.{le-div_iff_mul-le, div-mul-le_self, div-lt_iff_lt-mul, lt-div-mul-add}
use mathlib.Core.Path.{◌≡◌, refl, ap}
use mathlib.Core.Logic.{inl, inr}
use mathlib.Core.Bool.{Bool, not}
use mathlib.Core.Option.{Option}
use mathlib.Core.List.{List, [], ◌∷◌}
use native.Mathlib.Omega.{arith}
use live_actions.Base.Tests.{Comparable, Bool-cases, ◌==◌, nat_eq, nat_beq, nat_beq_iff}
use live_actions.Base.Lists.{filter, length}
use live_actions.Base.Table.{Table, lookup}
use live_actions.Base.Keys.{All, All-upsert, Fresh, Unique, Unique-upsert, Unique-filter}
use live_actions.Base.Groups.{group_by}

pub div-le-div : (a b s : ℕ) → 0 < s → a ≤ b → a / s ≤ b / s
div-le-div a b s p h = (le-div_iff_mul-le p).1 (omega (arith, div-mul-le_self a s, h))

pub div-add-le : (a b c s : ℕ) → 0 < s → a ≤ b + c → a / s ≤ b / s + c / s + 1
div-add-le a b c s p h =
    let below : a / s < b / s + c / s + 2 =
      (div-lt_iff_lt-mul p).1
        (grind (arith, h, lt-div-mul-add {a = b} p, lt-div-mul-add {a = c} p)) in
    omega (arith, below)

module _ {V : Type 0} where
  abbrev off : ℕ → ℕ × V → Bool
  off k r = not (r.0 == k)

  length-Fresh : (k : ℕ) (t : Table ℕ V) → Fresh k t → length (filter (off k) t) ≡ length t
  length-Fresh k [] f = refl
  length-Fresh k (r ∷ t) f = rw (f.0) (ap suc (length-Fresh k t f.1))

  -- At most one row has a key.
  length-off : (k : ℕ) (t : Table ℕ V) → Unique t → length t ≤ suc (length (filter (off k) t))
  length-off k [] u = omega arith
  length-off k ((j, v) ∷ t) u = elim (Bool-cases (nat_beq j k)) [
    | inl y ↦
        let e : j ≡ k = (nat_beq_iff j k).0 y in
        rw y (omega (arith, length-Fresh k t (rw (← e) u.0)))
    | inr n ↦ rw n (omega (arith, length-off k t u.1))
  ]

  -- The key is one of the multiples of `size` from the `lo`-th on, `n` of them.
  abbrev pub Among : ℕ → ℕ → ℕ → ℕ × V → Type 0
  Among size lo n r = (k : ℕ) × (r.0 ≡ k * size) × (lo ≤ k) × (k < lo + n)

  fewer :
      (size lo n : ℕ) (t : Table ℕ V)
      → All (Among size lo (suc n)) t
      → All (Among size lo n) (filter (off ((lo + n) * size)) t)
  fewer size lo n [] a = tt
  fewer size lo n ((j, v) ∷ t) a = elim (Bool-cases (nat_beq j ((lo + n) * size))) [
    | inl y ↦ rw y (fewer size lo n t a.1)
    | inr m ↦
        let (k, e, l, u) = a.0 in
        let other : k < lo + n = elim (Bool-cases (nat_beq k (lo + n))) [
          | inl same ↦
              let s : k ≡ lo + n = (nat_beq_iff k (lo + n)).0 same in
              absurd (ground (arith, m, (nat_beq_iff j ((lo + n) * size)).1 (rw (← s) e)))
          | inr differs ↦ ground (arith, u, differs)
        ] in
        rw m (((k, e, l, other), fewer size lo n t a.1))
  ]

  pub length-Among :
      (size lo n : ℕ) (t : Table ℕ V) → Unique t → All (Among size lo n) t → length t ≤ n
  length-Among size lo zero [] u a = omega arith
  length-Among size lo zero (r ∷ t) u a = let (k, e, l, m) = a.0 in absurd (omega (arith, l, m))
  length-Among size lo (suc n) t u a =
      let k = (lo + n) * size in
      omega (
        arith,
        length-off k t u,
        length-Among size lo n (filter (off k) t) (Unique-filter (off k) t u) (fewer size lo n t a),
      )

-- The groups have different keys, each the key of an element.
module _ {K V A : Type 0} ⦃c : Comparable K⦄ (key : A → K) (plus : A → Option V → V) where
  pub Unique-group_by : (xs : List A) → Unique (group_by key plus xs)
  unfolding group_by
  Unique-group_by [] = tt
  Unique-group_by (a ∷ xs) =
      let rest = group_by key plus xs in
      Unique-upsert (key a) (plus a (lookup (key a) rest)) rest (Unique-group_by xs)

  pub All-group_by :
      (P : K → Type 0) (xs : List A)
      → All (λ a. P (key a)) xs
      → All (λ (r : K × V). P r.0) (group_by key plus xs)
  unfolding group_by
  All-group_by P [] h = tt
  All-group_by P (a ∷ xs) h =
      let rest = group_by key plus xs in
      All-upsert (λ (r : K × V). P r.0) (key a) (plus a (lookup (key a) rest)) rest h.0
        (All-group_by P xs h.1)
