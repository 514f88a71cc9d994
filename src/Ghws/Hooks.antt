-- ===== src/Ghws/Hooks.antt =====
-- internal/services/ghws/subscriber.go: the requests of createHook and activateHook, and
-- what the code makes of their answers.
use live_actions.Base.{
  ℕ, ◌/◌, String, Bool, true, false, not, Option, none, some, List, nat_beq, string_eq, ◌==◌,
  if◌then◌else◌,
}
use live_actions.Models.{Bytes}
use live_actions.Failure.{new, wrap, driver, Result, ok, err}
use live_actions.Webhook.Encoding.{append_text}
use live_actions.Ghws.{Config, HookResponse, Session, Frame, api_base, hook_path, bearer}

-- `config` is that of `hookConfig` with the content type json and `insecure_ssl` 0.
pub record CreateHookRequest : Type 0 where
  pub name : String
  pub events : List Bytes
  pub active : Bool
  pub secret : String

pub data Payload : Type 0 where
  new_hook : CreateHookRequest → Payload
  activating empty : Payload

pub record HttpRequest : Type 0 where
  pub method : String
  pub url : String
  pub payload : Payload
  pub authorization : String

-- How a request ends: with an answer, or with an error of the client.
pub data Answer : Type 0 where
  answered : (status : ℕ) → Bytes → Answer
  no_answer : Answer

unfoldable pub create_request : Config → HttpRequest
unfolding api_base hook_path
create_request c = record {
  method = "POST";
  url = append_text (api_base c) (hook_path c);
  payload =
      new_hook (record { name = "cli"; events = c.events; active = false; secret = c.secret });
  authorization = bearer c;
}

abbrev activate_request : Config → HookResponse → HttpRequest
activate_request c hook = record {
  method = "PATCH";
  url = hook.url;
  payload = activating;
  authorization = bearer c;
}

-- `resp.StatusCode/100 != 2`
abbrev refused : ℕ → Bool
refused status = not (nat_beq (status / 100) 2)

abbrev relay : HookResponse → Result HookResponse
relay hook = if hook.ws_url == "" then err (new "create hook: response missing ws_url") else ok hook

abbrev decoded : Option HookResponse → Result HookResponse
decoded none = err (wrap "decode hook response" driver)
decoded (some hook) = relay hook

-- `decode` is the JSON decoder of Go's library; `none` is its error.
unfoldable pub create_hook : (Bytes → Option HookResponse) → Answer → Result HookResponse
create_hook decode no_answer = err driver
create_hook decode (answered status body) =
    if refused status then err (new "create hook") else decoded (decode body)

unfoldable pub activate_hook : Answer → Result (Unit {0})
activate_hook no_answer = err driver
activate_hook (answered status body) = if refused status then err (new "activate hook") else ok tt

abbrev is_ok : Result (Unit {0}) → Bool
is_ok (ok a) = true
is_ok (err e) = false

abbrev hook_of : Result HookResponse → Option HookResponse
hook_of (ok hook) = some hook
hook_of (err e) = none

-- The cycle of runOnce for what the outside answers.
unfoldable pub session_of :
    (Bytes → Option HookResponse) → Answer → Bool → Answer → List Frame → Bool → Session
unfolding create_hook activate_hook
session_of decode creation dialed activation frames normal = record {
  hook = hook_of (create_hook decode creation);
  dialed = dialed;
  activated = is_ok (activate_hook activation);
  frames = frames;
  normal = normal;
}
