-- ===== src/Base/Groups.antt =====
-- GROUP BY: one row for each key, and sums that the grouping keeps.
use live_actions.Base.Tests.{Comparable, Bool-cases, ◌==◌}
use live_actions.Base.Table.{Table, lookup, upsert, one_if}
use live_actions.Base.Lists.{count}
use live_actions.Base.Sort.{insert_by, sort_by}
use Prim.Native.Nat.{ℕ, ◌+◌}
use mathlib.Core.Path.{◌≡◌, refl, ap, ◌∙◌}
use mathlib.Core.Logic.{inl, inr}
use mathlib.Core.Bool.{Bool}
use mathlib.Core.Option.{Option, none, some}
use mathlib.Core.List.{List, [], ◌∷◌, map}
use native.Mathlib.Omega.{arith}

module _ {ℓ} {A : Type ℓ} (u : A → ℕ) where
  abbrev pub sum_by : List A → ℕ
  sum_by [] = 0
  sum_by (a ∷ xs) = u a + sum_by xs

  sum_by-insert_by :
      (le : A → A → Bool) (a : A) (xs : List A) → sum_by (insert_by le a xs) ≡ u a + sum_by xs
  unfolding insert_by
  sum_by-insert_by le a [] = refl
  sum_by-insert_by le a (b ∷ xs) = ground (arith, sum_by-insert_by le a xs)

  pub sum_by-sort_by : (le : A → A → Bool) (xs : List A) → sum_by (sort_by le xs) ≡ sum_by xs
  unfolding sort_by
  sum_by-sort_by le [] = refl
  sum_by-sort_by le (a ∷ xs) =
      sum_by-insert_by le a (sort_by le xs) ∙ ap (λ n. u a + n) (sum_by-sort_by le xs)

pub sum_by-map {ℓ κ} :
    {A : Type ℓ} {B : Type κ} (u : B → ℕ) (f : A → B) (xs : List A)
    → sum_by u (map f xs) ≡ sum_by (λ a. u (f a)) xs
sum_by-map u f [] = refl
sum_by-map u f (a ∷ xs) = ap (λ n. u (f a) + n) (sum_by-map u f xs)

pub sum_by-count {ℓ} :
    {A : Type ℓ} (p : A → Bool) (xs : List A) → sum_by (λ a. one_if (p a)) xs ≡ count p xs
sum_by-count p [] = refl
sum_by-count p (a ∷ xs) = ground (arith, sum_by-count p xs)

abbrev pub weight {ℓ} : {V : Type ℓ} → (V → ℕ) → Option V → ℕ
weight w none = 0
weight w (some v) = w v

module _ {ℓ κ} {K V : Type ℓ} {A : Type κ} ⦃e : Comparable K⦄ (key : A → K)
    (plus : A → Option V → V) where
  unfoldable pub group_by : List A → Table K V
  unfolding lookup upsert
  group_by [] = []
  group_by (a ∷ xs) = let rest = group_by xs in upsert (key a) (plus a (lookup (key a) rest)) rest

  module _ (w : V → ℕ) (u : A → ℕ) where
    sum_by-upsert :
        (k : K) (v : V) (t : Table K V)
        → sum_by (λ r. w r.1) (upsert k v t) + weight w (lookup k t) ≡ sum_by (λ r. w r.1) t + w v
    unfolding lookup upsert
    sum_by-upsert k v [] = omega arith
    sum_by-upsert k v ((j, x) ∷ t) = elim (Bool-cases (j == k)) [
      | inl y ↦ rw y (omega arith)
      | inr n ↦ rw n (omega (arith, sum_by-upsert k v t))
    ]

    pub sum_by-group_by :
        ((a : A) (o : Option V) → w (plus a o) ≡ u a + weight w o)
        → (xs : List A) → sum_by (λ r. w r.1) (group_by xs) ≡ sum_by u xs
    unfolding group_by
    sum_by-group_by h [] = refl
    sum_by-group_by h (a ∷ xs) =
        let rest = group_by xs in
        omega (
          arith,
          sum_by-upsert (key a) (plus a (lookup (key a) rest)) rest,
          h a (lookup (key a) rest),
          sum_by-group_by h xs,
        )
