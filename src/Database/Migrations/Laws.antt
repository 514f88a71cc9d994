-- ===== src/Database/Migrations/Laws.antt =====
-- About starts of the program whose migrations are interrupted (internal/database/db.go).
use live_actions.Base.{
  ℕ, ◌≤◌, ◌<◌, ◌≡◌, refl, ap, sym, ◌∙◌, subst, Bool, true, false, List, [], ◌∷◌, ◌++◌, map, leb,
  ltb, arith,
}
use live_actions.Base.Keys.{All}
use live_actions.Failure.{Result, ok}
use live_actions.Database.Migrations.{
  Schema, Entry, Migration, db_call, max_version, migrations, apply_pending, run_migrations,
}
use live_actions.Database.Migrations.Apply.{
  failing, version, Prefixed-apply_pending, apply_pending_all, Above, Prefixed, complete,
}

below : (a b : ℕ) → a < b → ltb a b ≡ true
below a b h = ground arith

not_above : (a b : ℕ) → a ≤ b → leb a b ≡ true
not_above a b h = ground arith

skip_applied :
    (cur : ℕ) (zs ws : List Migration) (s : Schema)
    → All (λ m. leb m.version cur ≡ true) zs
    → apply_pending cur (zs ++ ws) s ≡ apply_pending cur ws s
unfolding apply_pending
skip_applied cur [] ws s h = refl
skip_applied cur (m ∷ zs) ws s h = rw h.0 (skip_applied cur zs ws s h.1)

max_version-grow : (lo v : ℕ) (vs : List ℕ) → lo < v → max_version lo (v ∷ vs) ≡ max_version v vs
unfolding max_version
max_version-grow lo v vs h = rw (below lo v h) refl

-- The greatest version stands between what is applied and what is pending.
max_version-split :
    (lo : ℕ) (zs ws : List Migration)
    → Above lo (zs ++ ws)
    → (lo ≤ max_version lo (map version zs))
      × All (λ m. leb m.version (max_version lo (map version zs)) ≡ true) zs
      × Above (max_version lo (map version zs)) ws
unfolding max_version
max_version-split lo [] ws a = (omega arith, tt, a)
max_version-split lo (m ∷ zs) ws a =
    let (h, k, l) = max_version-split m.version zs ws a.1 in
    subst (λ x. (lo ≤ x) × All (λ n. leb n.version x ≡ true) (m ∷ zs) × Above x ws)
      (sym (max_version-grow lo m.version (map version zs) a.0))
      ((
        omega (arith, h, a.0),
        (not_above m.version (max_version m.version (map version zs)) h, k),
        l,
      ))

-- Go on from what is applied.
abbrev resume : List Entry → Schema → Result (Unit {0}) × Schema
resume entries s = apply_pending (max_version 0 s.versions) (migrations entries) s

resume-pending :
    (entries : List Entry) (zs ws : List Migration) (s : Schema)
    → zs ++ ws ≡ migrations entries
    → s.versions ≡ map version zs
    → All (λ m. leb m.version (max_version 0 (map version zs)) ≡ true) zs
    → resume entries s ≡ apply_pending (max_version 0 (map version zs)) ws s
resume-pending entries zs ws s e v h =
    ap (λ l. apply_pending (max_version 0 l) (migrations entries) s) v
    ∙ ap (λ l. apply_pending (max_version 0 (map version zs)) l s) (sym e)
    ∙ skip_applied (max_version 0 (map version zs)) zs ws s h

module _ (entries : List Entry) (grows : Above 0 (migrations entries)) where
  Prefixed-resume :
      (s : Schema)
      → Prefixed (migrations entries) s
      → Prefixed (migrations entries) (resume entries s).1
  Prefixed-resume s (zs, ws, e, v, c) =
      let a : Above 0 (zs ++ ws) = subst (Above 0) (sym e) grows in
      let (_, k, l) = max_version-split 0 zs ws a in
      subst (λ r. Prefixed (migrations entries) r.1) (sym (resume-pending entries zs ws s e v k))
        (subst (λ ms. Prefixed ms (apply_pending (max_version 0 (map version zs)) ws s).1) e
          (Prefixed-apply_pending (max_version 0 (map version zs)) zs ws s a l v c))

  -- Two calls come first.
  Prefixed-run :
      (s : Schema) (fs : List Bool)
      → Prefixed (migrations entries) s
      → Prefixed (migrations entries) (run_migrations entries (failing s fs)).1
  unfolding run_migrations db_call
  Prefixed-run s [] p = Prefixed-resume (failing s []) p
  Prefixed-run s (true ∷ fs) p = p
  Prefixed-run s (false ∷ []) p = Prefixed-resume (failing s []) p
  Prefixed-run s (false ∷ true ∷ fs) p = p
  Prefixed-run s (false ∷ false ∷ fs) p = Prefixed-resume (failing s fs) p

  run_migrations_all :
      (s : Schema)
      → Prefixed (migrations entries) s
      → run_migrations entries (failing s []) ≡ (ok tt, complete (migrations entries))
  unfolding run_migrations db_call
  run_migrations_all s (zs, ws, e, v, c) =
      let a : Above 0 (zs ++ ws) = subst (Above 0) (sym e) grows in
      let (_, k, l) = max_version-split 0 zs ws a in
      resume-pending entries zs ws (failing s []) e v k
      ∙ apply_pending_all (max_version 0 (map version zs)) zs ws s a l v c
      ∙ ap (λ ms. (ok tt, complete ms)) e

-- Starts of the program, each with the faults of its calls.
unfoldable pub starts_with : List Entry → List (List Bool) → Schema → Schema
unfolding run_migrations
starts_with entries [] s = s
starts_with entries (fs ∷ rest) s =
    starts_with entries rest (run_migrations entries (failing s fs)).1

abbrev pub empty_schema : Schema
empty_schema = record { versions = []; scripts = []; faults = [] }

Prefixed-starts_with :
    (entries : List Entry) (fss : List (List Bool)) (s : Schema)
    → Above 0 (migrations entries)
    → Prefixed (migrations entries) s
    → Prefixed (migrations entries) (starts_with entries fss s)
unfolding starts_with
Prefixed-starts_with entries [] s a p = p
Prefixed-starts_with entries (fs ∷ rest) s a p =
    Prefixed-starts_with entries rest (run_migrations entries (failing s fs)).1 a
      (Prefixed-run entries a s fs p)

-- Whatever calls fail at any earlier starts, a first part of the migrations is applied, each once,
-- in order; and a start whose calls do not fail applies all the others, if the versions of the
-- sorted files are positive and differ.
pub run_migrations-resumes :
    (entries : List Entry) (fss : List (List Bool))
    → Above 0 (migrations entries)
    → Prefixed (migrations entries) (starts_with entries fss empty_schema)
      × (run_migrations entries (record (starts_with entries fss empty_schema) { faults = [] })
          ≡ (ok tt, complete (migrations entries)))
run_migrations-resumes entries fss a =
    let p =
      Prefixed-starts_with entries fss empty_schema a ([], migrations entries, refl, refl, refl) in
    (p, run_migrations_all entries a (starts_with entries fss empty_schema) p)
