-- ===== src/Database/Transition.antt =====
-- The transition rule of internal/database/workflow.go, which AddOrUpdateJob and AddOrUpdateRun
-- write out each over its own pair of functions.
pub mod Settle
use live_actions.Base.{
  ℕ, suc, ◌<◌, ◌≤◌, ◌≡◌, refl, Bool, true, false, not, ◌&&◌, Option, none, some, List, [], ◌∷◌, ltb,
  arith, ◌⊎◌, inl, inr, if◌then◌else◌, Option-cases, Bool-cases,
}
use live_actions.Models.Status.{JobStatus, Lifecycle, status_eq}

-- `existingKnown && incomingPrio < existingPrio`
abbrev is_late : Option ℕ → ℕ → Bool
is_late none incoming = false
is_late (some existing) incoming = ltb incoming existing

-- The `switch` on an existing row: does a case return `(false, nil)`?
unfoldable pub rejects : Lifecycle → JobStatus → JobStatus → ℕ → Bool
rejects l existing incoming priority =
    if l.is_terminal existing && status_eq existing incoming
    then true
    else (if l.is_terminal existing then true else is_late (l.priority existing) priority)

-- Is the upsert reached? `none` stands for `sql.ErrNoRows`.
unfoldable pub admits : Lifecycle → Option JobStatus → JobStatus → ℕ → Bool
unfolding rejects
admits l none incoming priority = true
admits l (some existing) incoming priority = not (rejects l existing incoming priority)

-- Where a status stands in the lifecycle: 0 for an unknown one and for no row.
abbrev rank_of : Option ℕ → ℕ
rank_of none = 0
rank_of (some p) = p

abbrev pub rank : Lifecycle → Option JobStatus → ℕ
rank l none = 0
rank l (some s) = rank_of (l.priority s)

-- The abstract rule: a row moves only forward, to whichever status ranks higher.
abbrev pub later : Lifecycle → Option JobStatus → JobStatus → Option JobStatus
later l existing incoming =
    if ltb (rank l existing) (rank l (some incoming)) then some incoming else existing

module _ (l : Lifecycle) where
  -- Where the code keeps the row the rule keeps its status.
  pub admits-false :
      (existing : Option JobStatus) (incoming : JobStatus) (p : ℕ)
      → l.priority incoming ≡ some p
      → admits l existing incoming p ≡ false
      → later l existing incoming ≡ existing
  unfolding admits
  admits-false none incoming p known h = ground arith
  admits-false (some e) incoming p known h =
      ground (arith, l.priority-terminal e, l.priority-le-top incoming p)

  -- Where the code writes the row the rule takes its status, or one that is equal to it.
  pub admits-true :
      (existing : Option JobStatus) (incoming : JobStatus) (p : ℕ)
      → l.priority incoming ≡ some p
      → admits l existing incoming p ≡ true
      → later l existing incoming ≡ some incoming
  unfolding admits
  admits-true none incoming p known h = ground (arith, l.priority_pos incoming p)
  admits-true (some e) incoming p known h = ground (
    arith,
    l.priority_pos incoming p,
    l.priority_inj e incoming p,
    l.terminal_of_top e,
    l.priority-le-top incoming p,
  )

  -- A terminal row is never written.
  pub admits-terminal :
      (e incoming : JobStatus) (p : ℕ)
      → l.is_terminal e ≡ true
      → admits l (some e) incoming p ≡ false
  unfolding admits
  admits-terminal e incoming p h = ground arith

  pub rank-later :
      (existing : Option JobStatus) (incoming : JobStatus)
      → rank l existing ≤ rank l (later l existing incoming)
  rank-later existing incoming = ground arith
