-- ===== src/Tests/Pages.antt =====
-- The coalescer and its clients, and the configuration, also that of the subscriber.
use live_actions.Base.{
  true, refl, ℕ, ◌≡◌, ◌↔◌, string_eq, ◌==◌, Option, some, List, [], ◌∷◌, if◌then◌else◌,
}
use live_actions.Base.Table.{lookup}
use live_actions.Base.Text.{split_on}
use live_actions.Models.{Bytes}
use live_actions.Failure.{ok, IsErr}
use live_actions.Metrics.{new_registry}
use live_actions.Sse.{
  SseEvent, metrics_update, new_sse, Hub, takes, leaves, pings, message, ping, connect,
}
use live_actions.Sse.Laws.{
  Step, connects, rounds, sends, submits, ticks, stops, step, submit_all, latest, lookup-submit_all,
}
use live_actions.Sse.Delivery.{Delivers, connects-Delivers, messages, written, encoded, takings}
use live_actions.Config.{
  Env, read_vars, new_config, check_vars, is_production, get_env_or_default, get_env_or_default_int,
}
use live_actions.Ghws.{validate, subscriber_config, split_events, kept_parts, trim_space, trim_left}
use live_actions.Ghws.Start.{validate-subscriber_config}
use live_actions.Config.Laws.{IsValid, new_config-IsValid}

abbrev counts_event : ℕ → SseEvent
counts_event running = record { kind = "metrics_update"; payload = metrics_update running 0 1000 }

-- A client that connects, two updates of which the second replaces the first, an event that is
-- sent at once, and the client's rounds.
abbrev session : List Step
session =
    submits (counts_event 1)
    ∷ submits (counts_event 2)
    ∷ ticks
    ∷ rounds 0 takes
    ∷ sends (counts_event 3)
    ∷ rounds 0 (pings 1030)
    ∷ connects 1031
    ∷ rounds 1 leaves
    ∷ stops
    ∷ []

abbrev new_hub : Hub
new_hub = record { sse = new_sse; registry = new_registry; running = true }

abbrev one_byte : SseEvent → Option Bytes
one_byte event = some (1 ∷ [])

connects-Delivers_example :
    let hub = step one_byte (connects 1000) new_hub in
    Delivers one_byte 0 [] session hub
    × (messages (written one_byte 0 session hub)
        ≡ encoded one_byte (takings one_byte 0 session hub))
connects-Delivers_example =
    connects-Delivers one_byte 1000 session new_hub
      (tt, (tt, (tt, (tt, (tt, (tt, (tt, (refl, (tt, tt)))))))))

first_frames :
    written one_byte 0 session (step one_byte (connects 1000) new_hub)
    ≡ message (1 ∷ []) ∷ ping 1030 ∷ []
unfolding written connect
first_frames = refl

lookup-submit_all_example :
    lookup "metrics_update" (submit_all (counts_event 1 ∷ counts_event 2 ∷ []) new_sse).pending
    ≡ latest "metrics_update"
        (lookup "metrics_update" new_sse.pending)
        (counts_event 1 ∷ counts_event 2 ∷ [])
lookup-submit_all_example =
    lookup-submit_all (counts_event 1 ∷ counts_event 2 ∷ []) new_sse "metrics_update"

abbrev production : Env
production key = if key == "ENVIRONMENT" then "production" else ""

new_config-IsValid_example :
    (new_config production ≡ ok (read_vars production)) ↔ IsValid (read_vars production)
new_config-IsValid_example = new_config-IsValid production

-- The websocket transport with a list of events that names none.
abbrev websocket : Env
websocket key =
    if key == "WEBHOOK_TRANSPORT"
    then "websocket"
    else (if key == "GITHUB_TOKEN"
        then "t"
        else (if key == "GITHUB_REPO"
            then "a/b"
            else (if key == "GITHUB_EVENTS" then " ," else "")))

websocket_accepted : new_config websocket ≡ ok (read_vars websocket)
unfolding new_config read_vars check_vars is_production get_env_or_default get_env_or_default_int
websocket_accepted = refl

is_websocket_transport : (read_vars websocket).webhook_transport ≡ "websocket"
unfolding read_vars get_env_or_default
is_websocket_transport = refl

validate-subscriber_config_example :
    IsErr (validate (subscriber_config (read_vars websocket)))
    ↔ (split_events (read_vars websocket).github_events ≡ [])
validate-subscriber_config_example =
    validate-subscriber_config websocket websocket_accepted is_websocket_transport

no_events : split_events (read_vars websocket).github_events ≡ []
unfolding read_vars get_env_or_default split_events split_on kept_parts trim_space trim_left
no_events = refl
