-- ===== src/Tests/Lifecycle.antt =====
-- A run of the server from its start to its end.
use live_actions.Base.{true, refl, ◌≡◌, [], ◌∷◌, ◌++◌, if◌then◌else◌, ◌==◌, string_eq}
use live_actions.Config.{Env}
use live_actions.Database.Migrations.{Schema}
use live_actions.Server.Lifecycle.{
  setup_and_run, listen, started, starts, stops, closes, returned, pools, cleanup_service,
  metrics_service, subscriber, webhook_workers, http_server,
}

abbrev websocket : Env
websocket key =
    if key == "WEBHOOK_TRANSPORT"
    then "websocket"
    else (if key == "GITHUB_TOKEN" then "t" else (if key == "GITHUB_REPO" then "a/b" else ""))

abbrev no_versions : Schema
no_versions = record { versions = []; scripts = []; faults = [] }

-- The HTTP server is told to close before the services are stopped and the pools are closed, and
-- nothing waits until it has.
ending : listen true true [] ≡ (
  starts http_server
      ∷ closes
      ∷ stops subscriber
      ∷ stops webhook_workers
      ∷ stops cleanup_service
      ∷ stops metrics_service
      ∷ stops pools
      ∷ [],
  returned,
)
ending = refl

test_actions :
    setup_and_run (λ p. true) (λ p. true) 8 [] true [] no_versions websocket
    ≡ listen true true (started ++ starts subscriber ∷ [])
unfolding setup_and_run
test_actions = refl
