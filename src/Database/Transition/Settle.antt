-- ===== src/Database/Transition/Settle.antt =====
-- About sequences of statuses under the abstract rule of the lifecycle.
use mathlib.Core.List.{Mem, Memᴰ, Perm, Permᴰ, mem-cons, not-mem-nil}
use mathlib.Core.List.Perm
use mathlib.Core.Logic.Or
use mathlib.Core.Logic.{∥∥₁_elim}
use Prim.Native.Nat.{max}
use native.Mathlib.Nat.{ℕ_set}
use live_actions.Base.{
  ℕ, ◌<◌, ◌≡◌, refl, sym, ◌∙◌, ap, true, Option, none, some, List, [], ◌∷◌, ltb, arith, ◌⊎◌, inl,
  inr, Option-cases, Bool-cases,
}
use live_actions.Models.Status.{JobStatus, JobStatus-set, Lifecycle}
use live_actions.Database.Transition.{later, rank}

-- Statuses that arrive one after the other.
unfoldable pub settle : Lifecycle → Option JobStatus → List JobStatus → Option JobStatus
settle l existing [] = existing
settle l existing (s ∷ ss) = settle l (later l existing s) ss

unfoldable pub top_rank : Lifecycle → List JobStatus → ℕ
top_rank l [] = 0
top_rank l (s ∷ ss) = max (rank l (some s)) (top_rank l ss)

module _ (l : Lifecycle) where
  pub rank-settle :
      (existing : Option JobStatus) (ss : List JobStatus)
      → rank l (settle l existing ss) ≡ max (rank l existing) (top_rank l ss)
  unfolding settle top_rank
  rank-settle existing [] = omega arith
  rank-settle existing (s ∷ ss) = ground (arith, rank-settle (later l existing s) ss)

  top_rank-permᴰ : {xs ys : List JobStatus} → Permᴰ xs ys → top_rank l xs ≡ top_rank l ys
  unfolding top_rank
  top_rank-permᴰ Permᴰ.nil = refl
  top_rank-permᴰ (Permᴰ.cons e p) = omega (arith, top_rank-permᴰ p, ap (λ s. rank l (some s)) e)
  top_rank-permᴰ (Permᴰ.swap e f) =
      omega (arith, ap (λ s. rank l (some s)) e, ap (λ s. rank l (some s)) f)
  top_rank-permᴰ (Permᴰ.trans p q) = top_rank-permᴰ p ∙ top_rank-permᴰ q

  pub top_rank-perm : {xs ys : List JobStatus} → Perm xs ys → top_rank l xs ≡ top_rank l ys
  top_rank-perm p = ∥∥₁_elim p (ℕ_set _ _) top_rank-permᴰ

  -- What is reached was there, or arrived.
  settle-mem :
      (existing : Option JobStatus) (ss : List JobStatus) (s : JobStatus)
      → settle l existing ss ≡ some s
      → (existing ≡ some s) ⊎ Memᴰ s ss
  unfolding settle
  settle-mem existing [] s h = inl h
  settle-mem existing (x ∷ xs) s h = elim (settle-mem (later l existing x) xs s h) [
    | inr m ↦ inr (Memᴰ.tail m)
    | inl e ↦ elim (Bool-cases (ltb (rank l existing) (rank l (some x)))) [
      | inl up ↦ inr (Memᴰ.head (ground arith))
      | inr keep ↦ inl (ground arith)
    ]
  ]

  settle_pos :
      (existing : Option JobStatus) (ss : List JobStatus)
      → (existing ≡ none) ⊎ (0 < rank l existing)
      → (settle l existing ss ≡ none) ⊎ (0 < rank l (settle l existing ss))
  unfolding settle
  settle_pos existing [] h = h
  settle_pos existing (x ∷ xs) h = settle_pos (later l existing x) xs (ground arith)

  same_rank :
      (s t : JobStatus)
      → (l.is_terminal s ≡ true → l.is_terminal t ≡ true → s ≡ t)
      → 0 < rank l (some s)
      → rank l (some s) ≡ rank l (some t)
      → s ≡ t
  same_rank s t unique h e = elim (Option-cases (l.priority s)) [
    | inl n ↦ absurd (ground arith)
    | inr (p, k) ↦ elim (Bool-cases (ltb p l.top)) [
      | inl below ↦ l.priority_inj s t p k (ground arith) (ground arith)
      | inr top ↦
          unique (l.terminal_of_top s (ground (arith, l.priority-le-top s p)))
            (l.terminal_of_top t (ground (arith, l.priority-le-top s p)))
    ]
  ]

  -- No terminal status but `t` occurs.
  abbrev pub OneTerminal : JobStatus → List JobStatus → Type 0
  OneTerminal t [] = Unit
  OneTerminal t (s ∷ ss) = (l.is_terminal s ≡ true → s ≡ t) × OneTerminal t ss

  eq_of_terminal :
      (t : JobStatus) (ss : List JobStatus) (s : JobStatus)
      → OneTerminal t ss
      → Mem s ss
      → l.is_terminal s ≡ true
      → s ≡ t
  eq_of_terminal t [] s one m h = absurd (not-mem-nil m)
  eq_of_terminal t (x ∷ xs) s one m h =
      Or.elim (JobStatus-set s t) (mem-cons.0 m) (λ e. e ∙ one.0 (rw (← e) h))
        (λ m'. eq_of_terminal t xs s one.1 m' h)

  rank-settle_perm :
      (xs ys : List JobStatus) → Perm xs ys → rank l (settle l none xs) ≡ rank l (settle l none ys)
  rank-settle_perm xs ys p =
      omega (arith, rank-settle none xs, rank-settle none ys, top_rank-perm p)

  settled_pos :
      (ss : List JobStatus) (s : JobStatus) → settle l none ss ≡ some s → 0 < rank l (some s)
  settled_pos ss s h = ground (arith, settle_pos none ss (inl refl))

  settled-mem : (ss : List JobStatus) (s : JobStatus) → settle l none ss ≡ some s → Mem s ss
  settled-mem ss s h = elim (settle-mem none ss s h) [ inl e ↦ absurd (cc) | inr m ↦ ∣ m ∣₁ ]

  settle_perm-go :
      (t : JobStatus) (xs ys : List JobStatus)
      → Perm xs ys
      → OneTerminal t xs
      → (a b : Option JobStatus) → settle l none xs ≡ a
      → settle l none ys ≡ b
      → a ≡ b
  settle_perm-go t xs ys p one none none ea eb = refl
  settle_perm-go t xs ys p one none (some b) ea eb =
      absurd (ground (arith, rank-settle_perm xs ys p, settled_pos ys b eb))
  settle_perm-go t xs ys p one (some a) none ea eb =
      absurd (ground (arith, rank-settle_perm xs ys p, settled_pos xs a ea))
  settle_perm-go t xs ys p one (some a) (some b) ea eb =
      let a_in = settled-mem xs a ea in
      let b_in = (Perm.mem_iff p).1 (settled-mem ys b eb) in
      ap some (
        same_rank a b
          (λ ha hb. eq_of_terminal t xs a one a_in ha ∙ sym (eq_of_terminal t xs b one b_in hb))
          (settled_pos xs a ea) (ground (arith, rank-settle_perm xs ys p)))

  -- Whatever the order of arrival, the same status is reached.
  pub settle_perm :
      (t : JobStatus) (xs ys : List JobStatus)
      → Perm xs ys
      → OneTerminal t xs
      → settle l none xs ≡ settle l none ys
  settle_perm t xs ys p one = settle_perm-go t xs ys p one _ _ refl refl
