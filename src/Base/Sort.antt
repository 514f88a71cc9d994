-- ===== src/Base/Sort.antt =====
-- Insertion sort by a Boolean order, for `ORDER BY`, and what a limit takes of its result.
use live_actions.Base.Tests.{Bool-cases, Comparable, ◌==◌, if◌then◌else◌}
use live_actions.Base.Lists.{length, take, drop}
use live_actions.Base.Table.{Table}
use live_actions.Base.Keys.{All, Fresh, Unique, beq_sym}
use Prim.Native.Nat.{ℕ, zero, suc}
use mathlib.Core.Path.{◌≡◌, refl, ap}
use mathlib.Core.Logic.{inl, inr}
use mathlib.Core.Bool.{Bool, true, false}
use mathlib.Core.List.{List, [], ◌∷◌, ◌++◌, Perm}
use mathlib.Core.List.Perm
use native.Mathlib.Omega.{arith}

pub take-drop {ℓ} : {A : Type ℓ} (n : ℕ) (xs : List A) → take n xs ++ drop n xs ≡ xs
take-drop zero xs = refl
take-drop (suc n) [] = refl
take-drop (suc n) (x ∷ xs) = ap (λ ys. x ∷ ys) (take-drop n xs)

module _ {ℓ} {A : Type ℓ} (le : A → A → Bool) where
  unfoldable pub insert_by : A → List A → List A
  insert_by a [] = a ∷ []
  insert_by a (b ∷ xs) = let rest = insert_by a xs in if le a b then a ∷ b ∷ xs else b ∷ rest

  unfoldable pub sort_by : List A → List A
  unfolding insert_by
  sort_by [] = []
  sort_by (a ∷ xs) = insert_by a (sort_by xs)

  -- Each element stands before the next.
  abbrev pub Sorted : List A → Type 0
  Sorted [] = Unit
  Sorted (a ∷ []) = Unit
  Sorted (a ∷ b ∷ xs) = (le a b ≡ true) × Sorted (b ∷ xs)

  pub Perm-insert_by : (a : A) (xs : List A) → Perm (insert_by a xs) (a ∷ xs)
  unfolding insert_by
  Perm-insert_by a [] = Perm.refl (a ∷ [])
  Perm-insert_by a (b ∷ xs) = elim (Bool-cases (le a b)) [
    | inl y ↦ rw y (Perm.refl (a ∷ b ∷ xs))
    | inr n ↦ rw n (Perm.trans (Perm.cons b (Perm-insert_by a xs)) (Perm.swap a b xs))
  ]

  pub Perm-sort_by : (xs : List A) → Perm (sort_by xs) xs
  unfolding sort_by
  Perm-sort_by [] = Perm.refl []
  Perm-sort_by (a ∷ xs) = Perm.trans (Perm-insert_by a (sort_by xs)) (Perm.cons a (Perm-sort_by xs))

  length-insert_by : (a : A) (xs : List A) → length (insert_by a xs) ≡ suc (length xs)
  unfolding insert_by
  length-insert_by a [] = refl
  length-insert_by a (b ∷ xs) = ground (arith, length-insert_by a xs)

  pub length-sort_by : (xs : List A) → length (sort_by xs) ≡ length xs
  unfolding sort_by
  length-sort_by [] = refl
  length-sort_by (a ∷ xs) = omega (arith, length-insert_by a (sort_by xs), length-sort_by xs)

module _ {ℓ} {A : Type ℓ} (le : A → A → Bool)
    (total : (a b : A) → le a b ≡ false → le b a ≡ true) where
  Sorted-insert_by : (a : A) (xs : List A) → Sorted le xs → Sorted le (insert_by le a xs)
  unfolding insert_by
  Sorted-insert_by a [] s = tt
  Sorted-insert_by a (b ∷ []) s = elim (Bool-cases (le a b)) [
    | inl y ↦ rw y ((y, tt))
    | inr n ↦ rw n ((total a b n, tt))
  ]
  Sorted-insert_by a (b ∷ c ∷ xs) s = elim (Bool-cases (le a b)) [
    | inl y ↦ rw y ((y, s))
    | inr n ↦ elim (Bool-cases (le a c)) [
      | inl y ↦ rw (n, y) ((total a b n, (y, s.1)))
      | inr m ↦ ground (arith, Sorted-insert_by a (c ∷ xs) s.1, total a b n)
    ]
  ]

  pub Sorted-sort_by : (xs : List A) → Sorted le (sort_by le xs)
  unfolding sort_by
  Sorted-sort_by [] = tt
  Sorted-sort_by (a ∷ xs) = Sorted-insert_by a (sort_by le xs) (Sorted-sort_by xs)

module _ {ℓ κ} {A : Type ℓ} (le : A → A → Bool) (P : A → Type κ) where
  pub All-insert_by : (a : A) (xs : List A) → P a → All P xs → All P (insert_by le a xs)
  unfolding insert_by
  All-insert_by a [] h k = (h, tt)
  All-insert_by a (b ∷ xs) h k = elim (Bool-cases (le a b)) [
    | inl y ↦ rw y ((h, k))
    | inr n ↦ rw n ((k.0, All-insert_by a xs h k.1))
  ]

  pub All-sort_by : (xs : List A) → All P xs → All P (sort_by le xs)
  unfolding sort_by
  All-sort_by [] h = tt
  All-sort_by (a ∷ xs) h = All-insert_by a (sort_by le xs) h.0 (All-sort_by xs h.1)

module _ {ℓ} {K V : Type ℓ} ⦃e : Comparable K⦄ (le : K × V → K × V → Bool) where
  Unique-insert_by :
      (r : K × V) (t : Table K V) → Fresh r.0 t → Unique t → Unique (insert_by le r t)
  unfolding insert_by
  Unique-insert_by r [] f u = (tt, tt)
  Unique-insert_by r (q ∷ t) f u = elim (Bool-cases (le r q)) [
    | inl y ↦ rw y ((f, u))
    | inr n ↦ rw n (
        (
          All-insert_by le (λ p. (p.0 == q.0) ≡ false) r t (beq_sym q.0 r.0 f.0) u.0,
          Unique-insert_by r t f.1 u.1,
        ))
  ]

  pub Unique-sort_by : (t : Table K V) → Unique t → Unique (sort_by le t)
  unfolding sort_by
  Unique-sort_by [] u = tt
  Unique-sort_by (r ∷ t) u =
      Unique-insert_by r (sort_by le t) (All-sort_by le (λ p. (p.0 == r.0) ≡ false) t u.0)
        (Unique-sort_by t u.1)
