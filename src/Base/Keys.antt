-- ===== src/Base/Keys.antt =====
-- Tables in which no key stands twice.
use live_actions.Base.Tests.{Comparable, ◌==◌, Bool-cases}
use live_actions.Base.Lists.{filter, count, take, all}
use live_actions.Base.Table.{Table, lookup, upsert, update}
use Prim.Native.Nat.{ℕ, zero, suc}
use mathlib.Core.Path.{◌≡◌, refl, subst}
use mathlib.Core.Logic.{◌⊎◌, inl, inr}
use mathlib.Core.Bool.{Bool, true, false}
use mathlib.Core.Option.{some}
use mathlib.Core.List.{List, [], ◌∷◌, ◌++◌}
use native.Mathlib.Omega.{arith}

-- Every element satisfies P.
abbrev pub All {ℓ κ} : {A : Type ℓ} → (A → Type κ) → List A → Type κ
All P [] = Unit
All P (x ∷ xs) = P x × All P xs

-- Some element satisfies P.
abbrev pub Any {ℓ} : {A : Type ℓ} → (A → Type 0) → List A → Type 0
Any P [] = ⊥
Any P (x ∷ xs) = P x ⊎ Any P xs

pub Any-append {ℓ} :
    {A : Type ℓ} (P : A → Type 0) (xs ys : List A) → Any P xs ⊎ Any P ys → Any P (xs ++ ys)
Any-append P [] ys (inl h) = absurd h
Any-append P [] ys (inr h) = h
Any-append P (x ∷ xs) ys (inl (inl h)) = inl h
Any-append P (x ∷ xs) ys (inl (inr h)) = inr (Any-append P xs ys (inl h))
Any-append P (x ∷ xs) ys (inr h) = inr (Any-append P xs ys (inr h))

pub all-Any {ℓ} :
    {A : Type ℓ} (p : A → Bool) (Q : A → Type 0) (xs : List A)
    → all p xs ≡ true
    → Any Q xs
    → (x : A) × (p x ≡ true) × Q x
all-Any p Q [] a q = absurd q
all-Any p Q (x ∷ xs) a (inl q) = (x, ground (arith, a), q)
all-Any p Q (x ∷ xs) a (inr q) = all-Any p Q xs (ground (arith, a)) q

module _ {ℓ κ} {A : Type ℓ} (P : A → Type κ) where
  pub All-filter : (p : A → Bool) (xs : List A) → All P xs → All P (filter p xs)
  All-filter p [] h = tt
  All-filter p (x ∷ xs) h = elim (Bool-cases (p x)) [
    | inl y ↦ rw y ((h.0, All-filter p xs h.1))
    | inr n ↦ rw n (All-filter p xs h.1)
  ]

  pub All-take : (n : ℕ) (xs : List A) → All P xs → All P (take n xs)
  All-take zero xs h = tt
  All-take (suc n) [] h = tt
  All-take (suc n) (x ∷ xs) h = (h.0, All-take n xs h.1)

pub beq_sym {ℓ} : {K : Type ℓ} ⦃e : Comparable K⦄ (a b : K) → (a == b) ≡ false → (b == a) ≡ false
beq_sym ⦃e⦄ a b h = ground (arith, e.beq_iff a b, e.beq_iff b a)

module _ {ℓ} {K V : Type ℓ} ⦃e : Comparable K⦄ where
  -- No row has the key k.
  abbrev pub Fresh : K → Table K V → Type 0
  Fresh k = All (λ r. (r.0 == k) ≡ false)

  abbrev pub Unique : Table K V → Type 0
  Unique [] = Unit
  Unique (r ∷ t) = Fresh r.0 t × Unique t

  -- Every row of a table with unique keys is what its key looks up.
  pub lookup-Unique : (t : Table K V) → Unique t → All (λ r. lookup r.0 t ≡ some r.1) t
  unfolding lookup
  lookup-Unique [] u = tt
  lookup-Unique ((j, w) ∷ t) u = (ground (arith, e.beq_iff j j), lifted t u.0 (lookup-Unique t u.1))
    where
      lifted :
          (rows : Table K V)
          → Fresh j rows
          → All (λ r. lookup r.0 t ≡ some r.1) rows
          → All (λ r. lookup r.0 ((j, w) ∷ t) ≡ some r.1) rows
      lifted [] f h = tt
      lifted ((i, v) ∷ rows) f h = (rw (beq_sym i j f.0) h.0, lifted rows f.1 h.1)

  pub Fresh-upsert :
      (k j : K) (v : V) (t : Table K V) → (j == k) ≡ false → Fresh k t → Fresh k (upsert j v t)
  unfolding upsert
  Fresh-upsert k j v [] n f = (n, tt)
  Fresh-upsert k j v ((i, w) ∷ t) n f = elim (Bool-cases (i == j)) [
    | inl y ↦ rw y ((n, f.1))
    | inr m ↦ rw m ((f.0, Fresh-upsert k j v t n f.1))
  ]

  -- An insert or an update keeps keys unique.
  pub Unique-upsert : (j : K) (v : V) (t : Table K V) → Unique t → Unique (upsert j v t)
  unfolding upsert
  Unique-upsert j v [] u = (tt, tt)
  Unique-upsert j v ((i, w) ∷ t) u = elim (Bool-cases (i == j)) [
    | inl y ↦ rw y ((subst (λ k. Fresh k t) ((e.beq_iff i j).0 y) u.0, u.1))
    | inr m ↦ rw m ((Fresh-upsert i j v t (beq_sym i j m) u.0, Unique-upsert j v t u.1))
  ]

  pub Fresh-update : (k j : K) (f : V → V) (t : Table K V) → Fresh k t → Fresh k (update j f t)
  unfolding update
  Fresh-update k j f [] h = tt
  Fresh-update k j f ((i, w) ∷ t) h = elim (Bool-cases (i == j)) [
    | inl y ↦ rw y h
    | inr m ↦ rw m ((h.0, Fresh-update k j f t h.1))
  ]

  pub Unique-update : (j : K) (f : V → V) (t : Table K V) → Unique t → Unique (update j f t)
  unfolding update
  Unique-update j f [] u = tt
  Unique-update j f ((i, w) ∷ t) u = elim (Bool-cases (i == j)) [
    | inl y ↦ rw y u
    | inr m ↦ rw m ((Fresh-update i j f t u.0, Unique-update j f t u.1))
  ]

  pub Unique-filter : (p : K × V → Bool) (t : Table K V) → Unique t → Unique (filter p t)
  Unique-filter p [] u = tt
  Unique-filter p (r ∷ t) u = elim (Bool-cases (p r)) [
    | inl y ↦ rw y ((All-filter (λ q. (q.0 == r.0) ≡ false) p t u.0, Unique-filter p t u.1))
    | inr n ↦ rw n (Unique-filter p t u.1)
  ]

  pub Unique-take : (n : ℕ) (t : Table K V) → Unique t → Unique (take n t)
  Unique-take zero t u = tt
  Unique-take (suc n) [] u = tt
  Unique-take (suc n) (r ∷ t) u =
      (All-take (λ q. (q.0 == r.0) ≡ false) n t u.0, Unique-take n t u.1)

  pub lookup-update :
      (k j : K) (f : V → V) (t : Table K V)
      → (k == j) ≡ false
      → lookup j (update k f t) ≡ lookup j t
  unfolding lookup update
  lookup-update k j f [] h = refl
  lookup-update k j f ((i, w) ∷ t) h = elim (Bool-cases (i == k)) [
    | inl y ↦ rw y (ground (arith, e.beq_iff i k, e.beq_iff i j, e.beq_iff k j))
    | inr n ↦ rw n (ground (arith, lookup-update k j f t h))
  ]

  -- A row that passes the test until it is updated is counted once less.
  pub count-update :
      (p : K × V → Bool) (k : K) (f : V → V) (t : Table K V) (v : V)
      → lookup k t ≡ some v
      → p (k, v) ≡ true
      → p (k, f v) ≡ false
      → suc (count p (update k f t)) ≡ count p t
  unfolding lookup update
  count-update p k f [] v h y n = cc
  count-update p k f ((i, w) ∷ t) v h y n = elim (Bool-cases (i == k)) [
    | inl s ↦
        let same : i ≡ k = (e.beq_iff i k).0 s in
        let found : w ≡ v = ground (arith, s, h) in rw s (rw (same, found, y, n) refl)
    | inr s ↦ rw s (ground (arith, s, count-update p k f t v))
  ]

pub All-append {ℓ κ} :
    {A : Type ℓ} (P : A → Type κ) (xs ys : List A) → All P xs → All P ys → All P (xs ++ ys)
All-append P [] ys h k = k
All-append P (x ∷ xs) ys h k = (h.0, All-append P xs ys h.1 k)

pub All-upsert {ℓ κ} :
    {K V : Type ℓ} ⦃e : Comparable K⦄ (P : K × V → Type κ) (j : K) (v : V) (t : Table K V)
    → P (j, v)
    → All P t
    → All P (upsert j v t)
unfolding upsert
All-upsert P j v [] h k = (h, tt)
All-upsert P j v ((i, w) ∷ t) h k = elim (Bool-cases (i == j)) [
  | inl y ↦ rw y ((h, k.1))
  | inr n ↦ rw n ((k.0, All-upsert P j v t h k.1))
]
