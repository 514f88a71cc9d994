-- ===== src/Api/Ready.antt =====
-- handlers/health_handler.go: ReadyzHandler.
use live_actions.Base.{
  ℕ, ◌*◌, String, Bool, true, false, not, ◌&&◌, Option, none, some, [], ◌∷◌, ◌++◌, ltb, leb,
  if◌then◌else◌,
}
use live_actions.Base.Table.{Table}
use live_actions.Ordering.{Service, ingest_queue_len, ingest_queue_cap}

-- How the ping of a pool ends; `absent` is a pool that is nil.
pub data Ping : Type 0 where
  absent fine broken : Ping

pub data Check : Type 0 where
  said : String → Check
  counted : ℕ → Check

pub record Readiness : Type 0 where
  pub status : ℕ
  pub state : String
  pub checks : Table String Check

abbrev ping_check : String → Ping → Table String Check
ping_check name absent = []
ping_check name fine = (name, said "ok") ∷ []
ping_check name broken = (name, said "error") ∷ []

abbrev pings : Ping → Bool
pings broken = false
pings _ = true

-- `capacity > 0 && float64(depth)/float64(capacity) >= 0.95`, on numbers that a float64 holds.
unfoldable pub saturated : ℕ → ℕ → Bool
saturated depth capacity = ltb 0 capacity && leb (95 * capacity) (100 * depth)

abbrev queue_checks : Option Service → Table String Check
queue_checks none = []
queue_checks (some s) =
    ("ingest_queue_depth", counted (ingest_queue_len s))
    ∷ ("ingest_queue_capacity", counted (ingest_queue_cap s))
    ∷ (
      "ingest_queue",
      said (if saturated (ingest_queue_len s) (ingest_queue_cap s) then "saturated" else "ok"),
    )
    ∷ []

abbrev has_room : Option Service → Bool
has_room none = true
has_room (some s) = not (saturated (ingest_queue_len s) (ingest_queue_cap s))

abbrev answer : Bool → Table String Check → Readiness
answer true checks = record { status = 200; state = "ready"; checks = checks }
answer false checks = record { status = 503; state = "not_ready"; checks = checks }

unfoldable pub readyz : Ping → Ping → Option Service → Readiness
unfolding saturated
readyz write_db read_db queue =
    answer (pings write_db && pings read_db && has_room queue)
      (ping_check "write_db" write_db ++ ping_check "read_db" read_db ++ queue_checks queue)
