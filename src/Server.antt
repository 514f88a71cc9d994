-- ===== src/Server.antt =====
-- cmd/server/server.go and cmd/server/shutdown.go: the fallback route, and the shutdown.
pub mod Routes
pub mod Access
pub mod Lifecycle
use live_actions.Base.{
  ℕ, String, Bool, true, false, not, ◌&&◌, Option, none, some, List, [], ◌∷◌, ◌++◌, string_eq, ◌==◌,
  if◌then◌else◌,
}
use live_actions.Models.{Bytes}
use live_actions.Handlers.{App, Decoder}
use live_actions.Ordering.{Service}
use live_actions.Pipeline.{stop}

-- The page, or a JSON error.
pub data Page : Type 0 where
  html : Bytes → Page
  missing : (status : ℕ) → String → Page

unfoldable pub spa_fallback_handler : Bytes → String → Page
spa_fallback_handler index_html method =
    if not (method == "GET") && not (method == "HEAD")
    then missing 404 "route not found"
    else html index_html

-- The channel `shutdown` has room for one signal.
pub record GracefulShutdown : Type 0 where
  pub shutdown : Bool

abbrev new_graceful_shutdown : GracefulShutdown
new_graceful_shutdown = record { shutdown = false }

-- The goroutine of Start sends one signal, and then shuts the HTTP server down.
abbrev signalled : GracefulShutdown → GracefulShutdown
signalled gs = record { shutdown = true }

-- Wait takes the signal; `none` where it blocks.
unfoldable pub wait : GracefulShutdown → Option GracefulShutdown
wait gs = if gs.shutdown then some (record { shutdown = false }) else none

-- IsShuttingDown takes the signal as well.
unfoldable pub is_shutting_down : GracefulShutdown → Bool × GracefulShutdown
is_shutting_down gs = if gs.shutdown then (true, record { shutdown = false }) else (false, gs)

-- What SetupAndRun stops, in order, once Wait has taken the signal; the HTTP server may still be
-- answering requests then.
pub data Stopped : Type 0 where
  subscriber cleanup metrics : Stopped
  ordering : App → Stopped

abbrev stopped_subscriber : Bool → List Stopped
stopped_subscriber true = subscriber ∷ []
stopped_subscriber false = []

abbrev after_ordering : Bool → Option App → Option (List Stopped)
after_ordering websocket none = none
after_ordering websocket (some app) =
    some (stopped_subscriber websocket ++ (ordering app ∷ cleanup ∷ metrics ∷ []))

-- `none` where the fuel of flushAll runs out.
unfoldable pub stop_services : Decoder → ℕ → (ℕ → Bool) → Bool → Service → Option (List Stopped)
unfolding stop
stop_services d fuel expired websocket s = after_ordering websocket (stop d fuel expired s)
