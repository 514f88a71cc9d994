-- ===== src/Base/Table.antt =====
-- A SQL table with a primary key: rows in insertion order, at most one for each key.
use live_actions.Base.Tests.{Comparable, ◌==◌, if◌then◌else◌, Bool-cases}
use live_actions.Base.Lists.{filter, count}
use Prim.Native.Nat.{ℕ, ◌+◌}
use mathlib.Core.Bool.{Bool, true, false}
use mathlib.Core.Path.{◌≡◌, refl, ap}
use mathlib.Core.Logic.{◌≢◌, inl, inr}
use mathlib.Core.Option.{Option, none, some}
use mathlib.Core.Option
use mathlib.Core.List.{List, [], ◌∷◌, map}
use native.Mathlib.Omega.{arith}

abbrev pub Table {ℓ} : Type ℓ → Type ℓ → Type ℓ
Table K V = List (K × V)

abbrev pub one_if : Bool → ℕ
one_if true = 1
one_if false = 0

abbrev pub holds {ℓ} : {A : Type ℓ} → (A → Bool) → Option A → Bool
holds p none = false
holds p (some a) = p a

module _ {ℓ} {K V : Type ℓ} ⦃e : Comparable K⦄ where
  -- SELECT … WHERE key = k
  unfoldable pub lookup : K → Table K V → Option V
  lookup k [] = none
  lookup k ((j, v) ∷ t) = if j == k then some v else lookup k t

  -- INSERT … ON CONFLICT (key) DO UPDATE SET every column = excluded.column
  unfoldable pub upsert : K → V → Table K V → Table K V
  upsert k v [] = (k, v) ∷ []
  upsert k v ((j, w) ∷ t) = if j == k then (k, v) ∷ t else (j, w) ∷ upsert k v t

  -- UPDATE … SET … WHERE key = k
  unfoldable pub update : K → (V → V) → Table K V → Table K V
  update k f [] = []
  update k f ((j, w) ∷ t) = if j == k then (j, f w) ∷ t else (j, w) ∷ update k f t

  pub lookup-upsert :
      (k j : K) (v : V) (t : Table K V)
      → lookup j (upsert k v t) ≡ (if k == j then some v else lookup j t)
  unfolding lookup upsert
  lookup-upsert k j v [] = refl
  lookup-upsert k j v ((i, w) ∷ t) =
      ground (arith, e.beq_iff k j, e.beq_iff i k, e.beq_iff i j, lookup-upsert k j v t)

  pub lookup-upsert_self : (k : K) (v : V) (t : Table K V) → lookup k (upsert k v t) ≡ some v
  lookup-upsert_self k v t = ground (arith, lookup-upsert k k v t, e.beq_iff k k)

  pub lookup-upsert_ne :
      (k j : K) (v : V) (t : Table K V) → k ≢ j → lookup j (upsert k v t) ≡ lookup j t
  lookup-upsert_ne k j v t h = ground (arith, lookup-upsert k j v t, e.beq_iff k j)

  -- Values that are changed in place.
  pub lookup-map_values :
      (f : K → V → V) (k : K) (t : Table K V)
      → lookup k (map (λ (r : K × V). (r.0, f r.0 r.1)) t) ≡ Option.map (f k) (lookup k t)
  unfolding lookup
  lookup-map_values f k [] = refl
  lookup-map_values f k ((j, v) ∷ t) = elim (Bool-cases (j == k)) [
    | inl y ↦ rw y (ap (λ i. some (f i v)) ((e.beq_iff j k).0 y))
    | inr n ↦ rw n (lookup-map_values f k t)
  ]

  -- Rows that are left out.
  pub lookup-filter_key :
      (p : K → Bool) (k : K) (t : Table K V)
      → p k ≡ true
      → lookup k (filter (λ (r : K × V). p r.0) t) ≡ lookup k t
  unfolding lookup
  lookup-filter_key p k [] h = refl
  lookup-filter_key p k ((j, v) ∷ t) h = elim (Bool-cases (p j)) [
    | inl y ↦ rw (y, lookup-filter_key p k t h) refl
    | inr n ↦ elim (Bool-cases (j == k)) [
      | inl s ↦ absurd (ground (arith, e.beq_iff j k, h, n, s, ap p ((e.beq_iff j k).0 s)))
      | inr s ↦ rw (n, s, lookup-filter_key p k t h) refl
    ]
  ]

  -- How many rows satisfy a test, where one is written.
  pub count-upsert :
      (p : V → Bool) (k : K) (v : V) (t : Table K V)
      → count (λ (r : K × V). p r.1) (upsert k v t) + one_if (holds p (lookup k t))
        ≡ count (λ (r : K × V). p r.1) t + one_if (p v)
  unfolding upsert lookup
  count-upsert p k v [] = ground arith
  count-upsert p k v ((j, w) ∷ t) = elim (Bool-cases (j == k)) [
    | inl y ↦ rw y (ground arith)
    | inr n ↦ rw n (ground (arith, count-upsert p k v t))
  ]
