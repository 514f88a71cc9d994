-- ===== src/Database/Migrations/Apply.antt =====
-- About one migration, and about the loop over what is pending (internal/database/db.go).
use live_actions.Base.{
  ℕ, ◌≤◌, ◌<◌, ◌≡◌, refl, ap, sym, ◌∙◌, subst, ◌⊎◌, inl, inr, String, Bool, true, false, List, [],
  ◌∷◌, ◌++◌, map, any, leb, nat_beq, arith,
}
use mathlib.Core.List.{map-append, append_assoc, append-nil}
use live_actions.Failure.{Error, Result, ok, err, wrap, driver}
use live_actions.Database.Migrations.{
  Schema, continue, Migration, db_call, apply_migration, apply_pending,
}

abbrev pub applied : Migration → Schema → List Bool → Schema
applied m s f = record {
  versions = s.versions ++ m.version ∷ [];
  scripts = s.scripts ++ m.file ∷ [];
  faults = f;
}

abbrev pub failing : Schema → List Bool → Schema
failing s f = record s { faults = f }

-- The migration is applied, or the error is all that it leaves.
abbrev Ends : Migration → Schema → Result (Unit {0}) × Schema → Type 0
Ends m s r =
    ((f : List Bool) × (r ≡ (ok tt, applied m s f)))
    ⊎ ((e : Error) × (f : List Bool) × (r ≡ (err e, failing s f)))

-- No version of the table is that of the migration.
abbrev IsFresh : Migration → Schema → Type 0
IsFresh m s = any (λ v. nat_beq v m.version) s.versions ≡ false

-- The four calls of a migration.
with_faults :
    (m : Migration) (s : Schema) (fs : List Bool)
    → IsFresh m s
    → Ends m s (apply_migration m (failing s fs))
unfolding apply_migration db_call
with_faults m s [] h = inl ([], rw h refl)
with_faults m s (true ∷ f) h = inr (wrap "failed to start migration transaction" driver, f, refl)
with_faults m s (false ∷ []) h = inl ([], rw h refl)
with_faults m s (false ∷ true ∷ f) h = inr (wrap "failed to apply migration" driver, f, refl)
with_faults m s (false ∷ false ∷ []) h = inl ([], rw h refl)
with_faults m s (false ∷ false ∷ true ∷ f) h =
    inr (wrap "failed to record migration version" driver, f, refl)
with_faults m s (false ∷ false ∷ false ∷ []) h = inl ([], rw h refl)
with_faults m s (false ∷ false ∷ false ∷ true ∷ f) h =
    inr (wrap "failed to commit migration" driver, f, rw h refl)
with_faults m s (false ∷ false ∷ false ∷ false ∷ f) h = inl (f, rw h refl)

apply_migration-Ends : (m : Migration) (s : Schema) → IsFresh m s → Ends m s (apply_migration m s)
apply_migration-Ends m s h = with_faults m s s.faults h

-- Versions that grow, all greater than `lo`.
abbrev pub Above : ℕ → List Migration → Type 0
Above lo [] = Unit
Above lo (m ∷ ms) = (lo < m.version) × Above m.version ms

abbrev pub version : Migration → ℕ
version m = m.version

abbrev pub file : Migration → String
file m = m.file

pub Above-le : (lo hi : ℕ) (ms : List Migration) → Above hi ms → lo ≤ hi → Above lo ms
Above-le lo hi [] a h = tt
Above-le lo hi (m ∷ ms) a h = (omega (arith, a.0, h), a.1)

Above-last :
    (lo : ℕ) (zs : List Migration) (m : Migration) (ms : List Migration)
    → Above lo (zs ++ m ∷ ms)
    → lo < m.version
Above-last lo [] m ms a = a.0
Above-last lo (z ∷ zs) m ms a = omega (arith, a.0, Above-last z.version zs m ms a.1)

fresh_after :
    (lo : ℕ) (zs : List Migration) (m : Migration) (ms : List Migration)
    → Above lo (zs ++ m ∷ ms)
    → any (λ v. nat_beq v m.version) (map version zs) ≡ false
fresh_after lo [] m ms a = refl
fresh_after lo (z ∷ zs) m ms a =
    ground (arith, Above-last z.version zs m ms a.1, fresh_after z.version zs m ms a.1)

-- The first part of the migrations is applied, in their order, each once.
abbrev pub Prefixed : List Migration → Schema → Type 0
Prefixed ms s =
    (zs : List Migration) × (ws : List Migration) × (zs ++ ws ≡ ms)
    × (s.versions ≡ map version zs)
    × (s.scripts ≡ map file zs)

above : (a b : ℕ) → b < a → leb a b ≡ false
above a b h = ground arith

apply_pending-next :
    (cur : ℕ) (m : Migration) (ms : List Migration) (s : Schema)
    → cur < m.version
    → apply_pending cur (m ∷ ms) s ≡ continue (apply_migration m s) (apply_pending cur ms)
unfolding apply_pending
apply_pending-next cur m ms s h = rw (above m.version cur h) refl

pub Prefixed-apply_pending :
    (cur : ℕ) (zs ws : List Migration) (s : Schema)
    → Above 0 (zs ++ ws)
    → Above cur ws
    → s.versions ≡ map version zs
    → s.scripts ≡ map file zs
    → Prefixed (zs ++ ws) (apply_pending cur ws s).1
unfolding apply_pending
Prefixed-apply_pending cur zs [] s a b v c = (zs, [], refl, v, c)
Prefixed-apply_pending cur zs (m ∷ ms) s a b v c =
    rw (apply_pending-next cur m ms s b.0)
      (elim (apply_migration-Ends m s (rw v (fresh_after 0 zs m ms a))) [
        | inl (f, e) ↦ rw e (
            (subst (λ l. Prefixed l (apply_pending cur ms (applied m s f)).1)
              (append_assoc zs (m ∷ []) ms)
              (Prefixed-apply_pending cur (zs ++ m ∷ []) ms (applied m s f)
                (subst (Above 0) (sym (append_assoc zs (m ∷ []) ms)) a)
                (Above-le cur m.version ms b.1 (omega (arith, b.0)))
                (ap (λ l. l ++ m.version ∷ []) v ∙ sym (map-append version zs (m ∷ [])))
                (ap (λ l. l ++ m.file ∷ []) c ∙ sym (map-append file zs (m ∷ []))))))
        | inr (x, f, e) ↦ rw e ((zs, m ∷ ms, refl, v, c))
      ])

abbrev pub complete : List Migration → Schema
complete ms = record { versions = map version ms; scripts = map file ms; faults = [] }

abbrev succeeded : Schema → Result (Unit {0}) × Schema
succeeded s = (ok tt, s)

caught_up :
    (zs : List Migration) (s : Schema)
    → s.versions ≡ map version zs
    → s.scripts ≡ map file zs
    → succeeded (failing s []) ≡ (ok tt, complete zs)
caught_up zs s v c = λ i. (ok tt, record { versions = v i; scripts = c i; faults = [] })

applied_once :
    (m : Migration) (s : Schema)
    → IsFresh m s
    → apply_migration m (failing s []) ≡ (ok tt, applied m s [])
unfolding apply_migration db_call
applied_once m s h = rw h refl

-- Where no call fails, what is pending is applied.
pub apply_pending_all :
    (cur : ℕ) (zs ws : List Migration) (s : Schema)
    → Above 0 (zs ++ ws)
    → Above cur ws
    → s.versions ≡ map version zs
    → s.scripts ≡ map file zs
    → apply_pending cur ws (failing s []) ≡ (ok tt, complete (zs ++ ws))
unfolding apply_pending
apply_pending_all cur zs [] s a b v c =
    caught_up zs s v c ∙ ap (λ l. (ok tt, complete l)) (sym (append-nil zs))
apply_pending_all cur zs (m ∷ ms) s a b v c =
    apply_pending-next cur m ms (failing s []) b.0
    ∙ ap (λ r. continue r (apply_pending cur ms))
        (applied_once m s (rw v (fresh_after 0 zs m ms a)))
    ∙ apply_pending_all cur (zs ++ m ∷ []) ms (applied m s [])
        (subst (Above 0) (sym (append_assoc zs (m ∷ []) ms)) a)
        (Above-le cur m.version ms b.1 (omega (arith, b.0)))
        (ap (λ l. l ++ m.version ∷ []) v ∙ sym (map-append version zs (m ∷ [])))
        (ap (λ l. l ++ m.file ∷ []) c ∙ sym (map-append file zs (m ∷ [])))
    ∙ ap (λ l. (ok tt, complete l)) (append_assoc zs (m ∷ []) ms)
