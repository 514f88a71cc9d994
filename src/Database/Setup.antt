-- ===== src/Database/Setup.antt =====
-- internal/database/db.go: buildDSN and InitDB. What opening, pinging and closing a pool do outside
-- the program is a parameter: whether the call succeeds.
pub mod Dsn
pub mod Laws
use live_actions.Base.{
  ℕ, ◌+◌, ◌-◌, ◌/◌, ◌%◌, String, Bool, true, false, ◌&&◌, ◌||◌, List, [], ◌∷◌, ◌++◌, map, any, ltb,
  leb, nat_beq, if◌then◌else◌,
}
use live_actions.Base.Text.{codes, join_with}
use live_actions.Models.{Bytes}
use live_actions.Failure.{Error, Result, ok, err, driver}
use live_actions.Database.Migrations.{Entry, Schema, run_migrations}

unfoldable pub is_unreserved : ℕ → Bool
is_unreserved c =
    (leb b'a' c && leb c b'z')
    || (leb b'A' c && leb c b'Z')
    || (leb b'0' c && leb c b'9')
    || nat_beq c b'-'
    || nat_beq c b'_'
    || nat_beq c b'.'
    || nat_beq c b'~'

unfoldable pub upper_hex_digit : ℕ → ℕ
upper_hex_digit n = if ltb n 10 then 48 + n else 55 + n

unfoldable pub escape_byte : ℕ → Bytes
unfolding is_unreserved upper_hex_digit
escape_byte c =
    if is_unreserved c
    then c ∷ []
    else (if nat_beq c 32
        then b'+' ∷ []
        else b'%' ∷ upper_hex_digit (c / 16) ∷ upper_hex_digit (c % 16) ∷ [])

-- `url.QueryEscape`
unfoldable pub query_escape : Bytes → Bytes
unfolding escape_byte
query_escape [] = []
query_escape (c ∷ cs) = escape_byte c ++ query_escape cs

abbrev pub pragma_key : Bytes
pragma_key = b'_' ∷ b'p' ∷ b'r' ∷ b'a' ∷ b'g' ∷ b'm' ∷ b'a' ∷ []

abbrev pub pragma_part : Bytes → Bytes
pragma_part pragma = pragma_key ++ b'=' ∷ query_escape pragma

abbrev separator : Bytes → ℕ
separator dsn = if any (λ c. nat_beq c b'?') dsn then b'&' else b'?'

unfoldable pub build_dsn : Bytes → List Bytes → Bytes
unfolding query_escape join_with
build_dsn dsn [] = dsn
build_dsn dsn (pragma ∷ pragmas) =
    dsn ++ separator dsn ∷ join_with b'&' (map pragma_part (pragma ∷ pragmas))

unfoldable pub conn_pragmas : List Bytes
conn_pragmas =
    codes "journal_mode(WAL)"
    ∷ codes "busy_timeout(5000)"
    ∷ codes "synchronous(NORMAL)"
    ∷ codes "foreign_keys(ON)"
    ∷ codes "cache_size(-65536)"
    ∷ codes "temp_store(MEMORY)"
    ∷ codes "mmap_size(268435456)"
    ∷ []

pub data Pool : Type 0 where
  write_db read_db : Pool

-- What InitDB does to the pools, in order.
pub data PoolCall : Type 0 where
  opened : Pool → Bytes → PoolCall
  limited : Pool → ℕ → PoolCall
  migrated closed : Pool → PoolCall

abbrev pub Outcome : Type 0
Outcome = Result (Unit {0}) × List PoolCall × Schema

abbrev pub fails : Error → List PoolCall → Schema → Outcome
fails e calls s = (err e, calls, s)

-- At least four.
unfoldable pub read_pool_size : ℕ → ℕ
read_pool_size cpus = if ltb cpus 4 then 4 else cpus

-- `opens` and `pings` say whether sql.Open and Ping succeed on a pool, and `cpus` is runtime.NumCPU.
module _ (opens pings : Pool → Bool) (cpus : ℕ) (entries : List Entry) where
  abbrev pub migrate : List PoolCall → Result (Unit {0}) × Schema → Outcome
  migrate calls (err e, s) =
      fails e (calls ++ (migrated write_db ∷ closed write_db ∷ closed read_db ∷ [])) s
  migrate calls (ok _, s) = (ok tt, calls ++ migrated write_db ∷ [], s)

  abbrev pub open_read : Bytes → List PoolCall → Schema → Outcome
  open_read dsn calls s =
      if opens read_db
      then (if pings read_db
          then migrate (calls ++ (opened read_db dsn ∷ limited read_db (read_pool_size cpus) ∷ []))
              (run_migrations entries s)
          else fails driver (calls ++ (opened read_db dsn ∷ closed write_db ∷ closed read_db ∷ []))
              s)
      else fails driver (calls ++ closed write_db ∷ []) s

  abbrev pub open_write : Bytes → Schema → Outcome
  open_write dsn s =
      if opens write_db
      then (if pings write_db
          then open_read dsn (opened write_db dsn ∷ limited write_db 1 ∷ []) s
          else fails driver (opened write_db dsn ∷ closed write_db ∷ []) s)
      else fails driver [] s

  unfoldable pub init_db : Bytes → Schema → Outcome
  unfolding build_dsn conn_pragmas read_pool_size run_migrations
  init_db dsn s = open_write (build_dsn dsn conn_pragmas) s
