-- ===== src/Database/Migrations.antt =====
-- internal/database/db.go: RunMigrations. The files of the directory migrations are a parameter, the
-- embedded ones; the effect of a script is that it is recorded as applied.
pub mod Apply
pub mod Laws
use live_actions.Base.{
  ℕ, zero, suc, ◌+◌, ◌-◌, ◌*◌, String, Bool, true, false, not, ◌&&◌, ◌||◌, Option, none, some, List,
  [], ◌∷◌, ◌++◌, any, leb, ltb, nat_beq, if◌then◌else◌,
}
use mathlib.Core.List.{reverse}
use live_actions.Base.Sort.{sort_by}
use live_actions.Base.Text.{codes, starts, is_digit, skip_spaces}
use live_actions.Failure.{Error, Result, ok, err, wrap, driver}

-- The table schema_migrations, the scripts whose transactions were committed, and which of the
-- calls of the driver to come fail.
pub record Schema : Type 0 where
  pub versions : List ℕ
  pub scripts : List String
  pub faults : List Bool

pub record Entry : Type 0 where
  pub name : String
  pub is_dir : Bool

pub record Migration : Type 0 where
  pub version : ℕ
  pub file : String

abbrev pub Step : Type 0
Step = Schema → Result (Unit {0}) × Schema

abbrev drawn : String → List Bool → Step
drawn message [] s = (ok tt, s)
drawn message (true ∷ rest) s = (err (wrap message driver), record s { faults = rest })
drawn message (false ∷ rest) s = (ok tt, record s { faults = rest })

-- One call of the driver, whose error is annotated.
unfoldable pub db_call : String → Step
db_call message s = drawn message s.faults s

abbrev pub continue : Result (Unit {0}) × Schema → Step → Result (Unit {0}) × Schema
continue (ok _, s) k = k s
continue (err e, s) k = (err e, s)

infixl 5 ◌>>◌
abbrev ◌>>◌ : Step → Step → Step
◌>>◌ m k s = continue (m s) k

-- The number that up to so many digits give, after `acc`, and what follows them.
unfoldable pub number_of : ℕ → ℕ → List ℕ → ℕ × List ℕ
number_of zero acc cs = (acc, cs)
number_of (suc width) acc [] = (acc, [])
number_of (suc width) acc (c ∷ cs) =
    let rest = number_of width (10 * acc + (c - 48)) cs in
    if is_digit c then rest else (acc, c ∷ cs)

abbrev underscored : ℕ × List ℕ → Option ℕ
underscored (n, []) = none
underscored (n, c ∷ cs) = if nat_beq c b'_' then some n else none

abbrev number_at : ℕ → List ℕ → Option ℕ
number_at width [] = none
number_at width (c ∷ cs) = if is_digit c then underscored (number_of width 0 (c ∷ cs)) else none

abbrev signed : List ℕ → Option ℕ
signed [] = none
signed (c ∷ cs) = if nat_beq c b'+' then number_at 5 cs else number_at 6 (c ∷ cs)

-- `fmt.Sscanf(name, "%06d_", &ver)`; `none` is its error, or a negative version, which the loop
-- skips as one that is applied.
unfoldable pub scan_version : List ℕ → Option ℕ
unfolding number_of skip_spaces
scan_version name = signed (skip_spaces name)

abbrev up_sql : Entry → Bool
up_sql e = not e.is_dir && starts (reverse (codes e.name)) (reverse (codes ".up.sql"))

abbrev versioned : String → Option ℕ → List Migration → List Migration
versioned name none found = found
versioned name (some ver) found = record { version = ver; file = name } ∷ found

-- The migration files of the directory.
unfoldable pub found : List Entry → List Migration
unfolding scan_version starts
found [] = []
found (e ∷ entries) =
    let rest = found entries in
    if up_sql e then versioned e.name (scan_version (codes e.name)) rest else rest

abbrev pub lower : Migration → Migration → Bool
lower a b = leb a.version b.version

unfoldable pub migrations : List Entry → List Migration
unfolding found sort_by
migrations entries = sort_by lower (found entries)

-- `SELECT COALESCE(MAX(version), 0)`, where `m` is the greatest so far.
unfoldable pub max_version : ℕ → List ℕ → ℕ
max_version m [] = m
max_version m (v ∷ versions) = max_version (if ltb m v then v else m) versions

abbrev record_version : Migration → Step
record_version m s =
    if any (λ v. nat_beq v m.version) s.versions
    then (err (wrap "failed to record migration version" driver), s)
    else (ok tt, record s { versions = s.versions ++ m.version ∷ [] })

abbrev run_script : Migration → Step
run_script m s = (ok tt, record s { scripts = s.scripts ++ m.file ∷ [] })

-- Where the body or the commit fails, the transaction is rolled back.
abbrev rolled_back : Schema → Result (Unit {0}) × Schema → Result (Unit {0}) × Schema
rolled_back before (ok _, s) = (ok tt, s)
rolled_back before (err e, s) = (err e, record before { faults = s.faults })

abbrev in_transaction : Migration → Step
in_transaction m s = rolled_back s (
    (db_call "failed to apply migration"
        >> run_script m
        >> db_call "failed to record migration version"
        >> record_version m
        >> db_call "failed to commit migration")
      s)

unfoldable pub apply_migration : Migration → Step
unfolding db_call
apply_migration m = db_call "failed to start migration transaction" >> in_transaction m

unfoldable pub apply_pending : ℕ → List Migration → Step
unfolding apply_migration
apply_pending current [] s = (ok tt, s)
apply_pending current (m ∷ ms) s =
    let skipped = apply_pending current ms s in
    let applied = continue (apply_migration m s) (apply_pending current ms) in
    if leb m.version current then skipped else applied

abbrev from_version : List Entry → Step
from_version entries s = apply_pending (max_version 0 s.versions) (migrations entries) s

-- The table is created if it is not there; the embedded directory and its files can be read.
unfoldable pub run_migrations : List Entry → Step
unfolding db_call max_version migrations apply_pending
run_migrations entries =
    db_call "failed to create migrations table"
    >> db_call "failed to check migration version"
    >> from_version entries
