-- ===== src/Database/Setup/Laws.antt =====
-- About InitDB (internal/database/db.go) and the pools that it leaves open.
use live_actions.Base.{
  ℕ, ◌≡◌, refl, ◌⊎◌, inl, inr, Bool, Option, none, some, List, [], ◌∷◌, arith, Bool-cases,
}
use live_actions.Models.{Bytes}
use live_actions.Failure.{ok, IsErr}
use live_actions.Database.Migrations.{Entry, Schema, run_migrations}
use live_actions.Database.Setup.{
  Pool, write_db, read_db, PoolCall, opened, limited, migrated, closed, Outcome, init_db, build_dsn,
  conn_pragmas, read_pool_size,
}

-- A pool that is open, with the text it was opened with and its limit of connections.
abbrev pub Handle : Type 0
Handle = Option (Bytes × Option ℕ)

-- The pools after a call, where a pool is opened only while it is closed and used only while open;
-- `none` if that is broken.
pub record Pools : Type 0 where
  pub write : Handle
  pub read : Handle

abbrev opening : Bytes → Handle → Option Handle
opening dsn none = some (some (dsn, none))
opening dsn (some h) = none

abbrev limiting : ℕ → Handle → Option Handle
limiting n none = none
limiting n (some (dsn, limit)) = some (some (dsn, some n))

abbrev using : Handle → Option Handle
using none = none
using (some h) = some (some h)

abbrev closing : Handle → Option Handle
closing none = none
closing (some h) = some none

abbrev on_pool : Pool → (Handle → Option Handle) → Pools → Option Pools
on_pool write_db f ps = elim (f ps.write) [ none ↦ none | some h ↦ some (record ps { write = h }) ]
on_pool read_db f ps = elim (f ps.read) [ none ↦ none | some h ↦ some (record ps { read = h }) ]

abbrev effect : PoolCall → Pools → Option Pools
effect (opened p dsn) = on_pool p (opening dsn)
effect (limited p n) = on_pool p (limiting n)
effect (migrated p) = on_pool p using
effect (closed p) = on_pool p closing

unfoldable pub pools_after : List PoolCall → Pools → Option Pools
pools_after [] ps = some ps
pools_after (c ∷ cs) ps = elim (effect c ps) [ none ↦ none | some ps' ↦ pools_after cs ps' ]

abbrev pub all_closed : Pools
all_closed = record { write = none; read = none }

module _ (opens pings : Pool → Bool) (cpus : ℕ) (entries : List Entry) where
  -- Both pools are open on the data source, and the migrations were run.
  abbrev pub Ready : Bytes → Schema → Outcome → Type 0
  Ready dsn s (r, calls, s') =
      (r ≡ ok tt)
      × (run_migrations entries s ≡ (ok tt, s'))
      × (pools_after calls all_closed
          ≡ some (record {
            write = some (build_dsn dsn conn_pragmas, some 1);
            read = some (build_dsn dsn conn_pragmas, some (read_pool_size cpus));
          }))

  abbrev pub Abandoned : Outcome → Type 0
  Abandoned (r, calls, s') = IsErr r × (pools_after calls all_closed ≡ some all_closed)

  -- InitDB succeeds with both pools open on the same data source, the writer limited to one
  -- connection, and the migrations run, or fails with every pool that it opened closed again; no
  -- pool is used or closed while it is not open.
  pub init_db-Ready :
      (dsn : Bytes) (s : Schema)
      → Ready dsn s (init_db opens pings cpus entries dsn s)
        ⊎ Abandoned (init_db opens pings cpus entries dsn s)
  unfolding init_db pools_after
  init_db-Ready dsn s = elim (Bool-cases (opens write_db)) [
    | inr n ↦ rw n (inr (tt, refl))
    | inl a ↦ elim (Bool-cases (pings write_db)) [
      | inr n ↦ rw (a, n) (inr (tt, refl))
      | inl b ↦ elim (Bool-cases (opens read_db)) [
        | inr n ↦ rw (a, b, n) (inr (tt, refl))
        | inl c ↦ elim (Bool-cases (pings read_db)) [
          | inr n ↦ rw (a, b, c, n) (inr (tt, refl))
          | inl e ↦ rw (a, b, c, e) (ground arith)
        ]
      ]
    ]
  ]
