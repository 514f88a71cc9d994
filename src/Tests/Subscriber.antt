-- ===== src/Tests/Subscriber.antt =====
-- Cycles of the WebSocket subscriber that hands its frames to Ingest.
use live_actions.Base.{◌≡◌, refl, String, true, false, some, [], ◌∷◌}
use live_actions.Models.{Bytes}
use live_actions.Ordering.{Service, timed_out, new_service}
use live_actions.Webhook.{Response, ingest}
use live_actions.Ghws.{Config, HookResponse, Session, delete_hook, run_once}
use live_actions.Ghws.Laws.{Deletes, deletions, run_once-Deletes, acks, ingest_all, run_once-acks}
use live_actions.Tests.Samples.{new_app, decoder}

abbrev ingester : String → String → Bytes → Service → Response × Service
ingester = ingest decoder timed_out

abbrev config : Config
config = record {
  token = "t";
  host = "github.com";
  repo = "a/b";
  org = "";
  enterprise = "";
  events = [];
  secret = "";
}

abbrev hook : HookResponse
hook = record { id = 1; url = "https://api.github.com/repos/a/b/hooks/1"; ws_url = "wss://relay" }

abbrev cycle : Session
cycle = record {
  hook = some hook;
  dialed = true;
  activated = true;
  frames = record { event = "workflow_job"; delivery = "a"; body = 1 ∷ []; ack_sent = true } ∷ [];
  normal = true;
}

run_once-Deletes_example :
    Deletes config cycle.hook (run_once config ingester cycle (new_service new_app)).effects
run_once-Deletes_example = run_once-Deletes config ingester cycle (new_service new_app)

-- The only effect of a cycle whose hook has no URL that touches the hook is its creation.
no_url :
    deletions
      (run_once config ingester
        (record cycle { hook = some (record hook { url = "" }); dialed = false })
        (new_service new_app)).effects
    ≡ 0
unfolding run_once delete_hook
no_url = refl

run_once-acks_example :
    (acks (run_once config ingester cycle (new_service new_app)).effects
      ≡ (ingest_all ingester cycle.frames (new_service new_app)).0)
    × ((run_once config ingester cycle (new_service new_app)).state
        ≡ (ingest_all ingester cycle.frames (new_service new_app)).1)
run_once-acks_example =
    run_once-acks config ingester cycle (new_service new_app) hook refl refl refl ((refl, tt))
