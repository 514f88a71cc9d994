-- ===== src/Database.antt =====
-- internal/database: the four tables, and what every statement shares. Each call of the driver may
-- fail; `faults` says which of the calls to come do, and past its end none does.
pub mod Transition
pub mod Jobs
pub mod Runs
pub mod Events
pub mod Cleanup
pub mod Queries
pub mod Snapshots
pub mod Analytics
pub mod LabelDemand
pub mod Summary
pub mod Migrations
pub mod Setup
use live_actions.Base.{
  ◌≡◌, sym, ℕ, ◌+◌, ◌/◌, String, Bool, true, false, Option, none, some, List, [], ◌∷◌, ltb, leb,
  nat_beq, if◌then◌else◌,
}
use live_actions.Base.Table.{Table}
use live_actions.Models.{Time, Bytes}
use live_actions.Models.Status.{JobStatus}
use live_actions.Failure.{Error, wrap, driver, Result, ok, err}

-- A timestamp as the tables hold it, a text in UTC: `time.RFC3339`, or SQLite's `datetime('now')`
-- with a space where RFC3339 has a `T`, and no zone.
pub data Stamp : Type 0 where
  rfc3339 : Time → Stamp
  sqlite : Time → Stamp

abbrev pub day : Time → ℕ
day t = t / 86400

-- SQL's `<` on such texts: the date first, then the space before the `T`, then the time of day.
unfoldable pub stamp_lt : Stamp → Stamp → Bool
stamp_lt (rfc3339 a) (rfc3339 b) = ltb a b
stamp_lt (sqlite a) (sqlite b) = ltb a b
stamp_lt (rfc3339 a) (sqlite b) = ltb (day a) (day b)
stamp_lt (sqlite a) (rfc3339 b) = leb (day a) (day b)

-- `<` and `>=` on a column that may be NULL: NULL satisfies neither.
unfoldable pub column_lt : Option Stamp → Stamp → Bool
unfolding stamp_lt
column_lt none cutoff = false
column_lt (some s) cutoff = stamp_lt s cutoff

unfoldable pub format_nullable_time : Time → Option Stamp
format_nullable_time t = if nat_beq t 0 then none else some (rfc3339 t)

-- `parseTime` knows RFC3339, and two formats that are not SQLite's own.
unfoldable pub parse_time : Stamp → Time
parse_time (rfc3339 t) = t
parse_time (sqlite t) = 0

-- `parseTime` of a `sql.NullString`: NULL reads as the empty text, and that as the zero time.
unfoldable pub parse_null_time : Option Stamp → Time
unfolding parse_time
parse_null_time none = 0
parse_null_time (some s) = parse_time s

-- `labels` stands for the JSON array that the column holds.
pub record JobRow : Type 0 where
  pub name : String
  pub run_id : ℕ
  pub status : JobStatus
  pub labels : List String
  pub html_url : String
  pub conclusion : String
  pub created_at : Stamp
  pub started_at : Option Stamp
  pub completed_at : Option Stamp
  pub updated_at : Stamp

pub record RunRow : Type 0 where
  pub name : String
  pub status : JobStatus
  pub repository : String
  pub html_url : String
  pub display_title : String
  pub conclusion : String
  pub created_at : Stamp
  pub run_started_at : Option Stamp
  pub updated_at : Option Stamp

pub data EventStatus : Type 0 where
  pending processed failed : EventStatus

pub record EventRow : Type 0 where
  pub event_type : String
  pub sequence_id : ℕ
  pub github_timestamp : Stamp
  pub received_at : Stamp
  pub processed_at : Option Stamp
  pub raw_payload : Option Bytes
  pub status : EventStatus
  pub ordering_key : String
  pub status_priority : ℕ

pub record SnapshotRow : Type 0 where
  pub timestamp : Stamp
  pub running_jobs : ℕ
  pub queued_jobs : ℕ

pub record Db : Type 0 where
  pub jobs : Table ℕ JobRow
  pub runs : Table ℕ RunRow
  pub events : Table String EventRow
  pub snapshots : List SnapshotRow
  pub now : Time
  pub faults : List Bool

abbrev pub Exec : Type 0 → Type 0
Exec A = Db → Result A × Db

abbrev pub pure : {A : Type 0} → A → Exec A
pure a db = (ok a, db)

abbrev pub continue : {A B : Type 0} → Result A × Db → (A → Exec B) → Result B × Db
continue (ok a, db) f = f a db
continue (err e, db) f = (err e, db)

infixl 5 ◌>>=◌ ◌>>◌
abbrev pub ◌>>=◌ : {A B : Type 0} → Exec A → (A → Exec B) → Exec B
◌>>=◌ m f db = continue (m db) f

abbrev pub ◌>>◌ : {B : Type 0} → Exec (Unit {0}) → Exec B → Exec B
m >> k = m >>= λ _. k

abbrev draw : List Bool → Db → Result (Unit {0}) × Db
draw [] db = (ok tt, db)
draw (true ∷ rest) db = (err driver, record db { faults = rest })
draw (false ∷ rest) db = (ok tt, record db { faults = rest })

-- One call of the driver.
unfoldable pub call : Exec (Unit {0})
call db = draw db.faults db

-- `fmt.Errorf("message: %w", err)` around what fails in `m`.
abbrev annotate : {A : Type 0} → String → Result A × Db → Result A × Db
annotate message (ok a, db) = (ok a, db)
annotate message (err e, db) = (err (wrap message e), db)

abbrev pub wrapping : {A : Type 0} → String → Exec A → Exec A
wrapping message m db = annotate message (m db)

-- How the body of a transaction ends when it does not fail.
pub data Tx (A : Type 0) : Type 0 where
  commit : A → Tx A
  rollback : A → Tx A

-- A rollback restores the tables; calls that were made stay made.
abbrev restored : Db → Db → Db
restored before after = record before { faults = after.faults }

abbrev close_tx : {A : Type 0} → Db → A → Result (Unit {0}) × Db → Result A × Db
close_tx before a (ok _, db) = (ok a, db)
close_tx before a (err e, db) = (err e, restored before db)

abbrev pub end_tx : {A : Type 0} → String → Db → Result (Tx A) × Db → Result A × Db
end_tx message before (err e, db) = (err e, restored before db)
end_tx message before (ok (rollback a), db) = (ok a, restored before db)
end_tx message before (ok (commit a), db) = close_tx before a (wrapping message call db)

abbrev in_tx : {A : Type 0} → String → Exec (Tx A) → Result (Unit {0}) × Db → Result A × Db
in_tx message body (err e, db) = (err e, db)
in_tx message body (ok _, db) = end_tx message db (body db)

-- BeginTx, the body, and Commit or Rollback; the two texts annotate a failing BeginTx and Commit.
unfoldable pub transaction : {A : Type 0} → String → String → Exec (Tx A) → Exec A
unfolding call
transaction start finish body db = in_tx finish body (wrapping start call db)

abbrev write : (Db → Db) → Exec (Unit {0})
write f db = (ok tt, f db)

-- A statement that changes tables: nothing is changed where the call fails.
abbrev pub exec : String → (Db → Db) → Exec (Unit {0})
exec message f = do wrapping message call; write f

-- A query, whose error the caller passes on as it is.
abbrev pub reads : {A : Type 0} → (Db → A) → Exec A
reads f = do call; λ db. (ok (f db), db)

-- A query whose error is annotated.
abbrev pub query : {A : Type 0} → String → (Db → A) → Exec A
query message f = wrapping message (reads f)

-- The database from which no call to come will fail.
abbrev pub reliable : Db → Db
reliable db = record db { faults = [] }

pub reliable-eq : (db : Db) → db.faults ≡ [] → reliable db ≡ db
reliable-eq db h = λ i. record db { faults = sym h i }
