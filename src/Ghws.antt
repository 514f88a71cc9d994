-- ===== src/Ghws.antt =====
-- internal/services/ghws/subscriber.go: the WebSocket transport, and splitEvents of
-- cmd/server/server.go, which prepares its configuration.
pub mod Laws
pub mod Start
pub mod Hooks
use live_actions.Base.{
  ℕ, zero, suc, ◌+◌, ◌*◌, ◌/◌, ◌≡◌, refl, String, Bool, true, false, not, ◌&&◌, ◌||◌, Option, none,
  some, List, [], ◌∷◌, ◌++◌, ltb, leb, nat_beq, string_eq, ◌==◌, if◌then◌else◌,
}
use mathlib.Core.List.{reverse}
use live_actions.Base.Text.{codes, starts, split_on}
use live_actions.Models.{Bytes}
use live_actions.Failure.{Error, new, wrap, driver, Result, ok, err}
use live_actions.Config.{Vars, is_set}
use live_actions.Webhook.{Response}
use live_actions.Webhook.Encoding.{append_text}

pub record Config : Type 0 where
  pub token : String
  pub host : String
  pub repo : String
  pub org : String
  pub enterprise : String
  pub events : List Bytes
  pub secret : String

abbrev pub is_empty : List Bytes → Bool
is_empty [] = true
is_empty (e ∷ es) = false

abbrev scopes : Config → ℕ
scopes c = is_set c.repo + is_set c.org + is_set c.enterprise

-- Returns the configuration with the host that Validate fills in.
unfoldable pub validate : Config → Result Config
validate c =
    if c.token == ""
    then err (new "GitHub token is required")
    else (if nat_beq (scopes c) 0
        then err (new "one of Repo, Org, or Enterprise is required")
        else (if ltb 1 (scopes c)
            then err (new "only one of Repo, Org, or Enterprise may be set")
            else (if is_empty c.events
                then err (new "at least one event type is required")
                else ok (if c.host == "" then record c { host = "github.com" } else c))))

abbrev has_suffix : String → String → Bool
has_suffix s suffix = starts (reverse (codes s)) (reverse (codes suffix))

-- NewSubscriber: the delays are in seconds.
pub record Subscriber : Type 0 where
  pub cfg : Config
  pub initial_backoff : ℕ
  pub max_backoff : ℕ
  pub http_timeout : ℕ

abbrev subscribed : Result Config → Result Subscriber
subscribed (err e) = err e
subscribed (ok c) =
    ok (record { cfg = c; initial_backoff = 1; max_backoff = 60; http_timeout = 30 })

unfoldable pub new_subscriber : Config → Result Subscriber
unfolding validate
new_subscriber c = subscribed (validate c)

unfoldable pub api_base : Config → String
unfolding starts
api_base c =
    if c.host == "github.com"
    then "https://api.github.com"
    else (if has_suffix c.host ".ghe.com"
        then append_text "https://api." c.host
        else append_text "https://" (append_text c.host "/api/v3"))

unfoldable pub hook_path : Config → String
hook_path c =
    if not (c.enterprise == "")
    then append_text "/enterprises/" (append_text c.enterprise "/hooks")
    else (if not (c.org == "")
        then append_text "/orgs/" (append_text c.org "/hooks")
        else append_text "/repos/" (append_text c.repo "/hooks"))

unfoldable pub ws_outcome : ℕ → String
ws_outcome status =
    if leb 200 status && ltb status 300
    then "accepted"
    else (if nat_beq status 503 then "queue_full" else "rejected")

pub record Frame : Type 0 where
  pub event : String
  pub delivery : String
  pub body : Bytes
  pub ack_sent : Bool

-- The part of the answer to the creation that the code reads.
pub record HookResponse : Type 0 where
  pub id : ℕ
  pub url : String
  pub ws_url : String

-- The Authorization header that applyAuth sets.
abbrev pub bearer : Config → String
bearer c = append_text "Bearer " c.token

pub record DeleteRequest : Type 0 where
  pub url : String
  pub authorization : String

-- What the outside does in one cycle: the hook that createHook returns where it returns no error,
-- does each further request succeed, which frames arrive, and does the read that ends the loop
-- report a normal closure?
pub record Session : Type 0 where
  pub hook : Option HookResponse
  pub dialed : Bool
  pub activated : Bool
  pub frames : List Frame
  pub normal : Bool

-- What runOnce does to the outside, in order.
pub data Effect : Type 0 where
  create_hook dial activate_hook close : Effect
  deletes : DeleteRequest → Effect
  counted : (event outcome : String) → Effect
  ack : ℕ → Effect

-- The result of one cycle, the state of the ingester, and the effects.
pub record Run (S : Type 0) : Type 0 where
  pub result : Result (Unit {0})
  pub state : S
  pub effects : List Effect

-- deleteHook, which sends nothing where the answer to the creation had no URL, and whose own
-- failure is only logged.
unfoldable pub delete_hook : Config → HookResponse → List Effect
delete_hook c hook =
    if hook.url == ""
    then []
    else deletes (record { url = hook.url; authorization = bearer c }) ∷ []

module _ {S : Type 0} (c : Config) (ingest : String → String → Bytes → S → Response × S) where
  abbrev then_effects : List Effect → Run S → Run S
  then_effects before r = record r { effects = before ++ r.effects }

  -- The deferred calls: the connection is closed, then the hook deleted.
  abbrev ends : HookResponse → Result (Unit {0}) → S → Run S
  ends hook result s = record { result = result; state = s; effects = close ∷ delete_hook c hook }

  -- The delivery is counted, and its acknowledgement is sent or fails.
  abbrev acked : HookResponse → String → Response → Bool → S → Run S → Run S
  acked hook event r true s rest =
      then_effects (counted event (append_text "ws_" (ws_outcome r.status)) ∷ ack r.status ∷ [])
        rest
  acked hook event r false s rest =
      then_effects (counted event (append_text "ws_" (ws_outcome r.status)) ∷ [])
        (ends hook (err (wrap "write ack" driver)) s)

  unfoldable pub read_loop : HookResponse → List Frame → Bool → S → Run S
  unfolding ws_outcome delete_hook
  read_loop hook [] normal s =
      if normal then ends hook (ok tt) s else ends hook (err (wrap "read frame" driver)) s
  read_loop hook (f ∷ frames) normal s =
      let (r, s') = ingest f.event f.delivery f.body s in
      acked hook f.event r f.ack_sent s' (read_loop hook frames normal s')

  -- The cycle behind createHook.
  abbrev with_hook : HookResponse → Session → S → Run S
  with_hook hook o s =
      if not o.dialed
      then record {
        result = err (wrap "dial relay" driver);
        state = s;
        effects = dial ∷ delete_hook c hook;
      }
      else (if not o.activated
          then then_effects (dial ∷ activate_hook ∷ [])
              (ends hook (err (wrap "activate hook" driver)) s)
          else then_effects (dial ∷ activate_hook ∷ []) (read_loop hook o.frames o.normal s))

  abbrev from_creation : Option HookResponse → Session → S → Run S
  from_creation none o s = record {
    result = err (wrap "create hook" driver);
    state = s;
    effects = [];
  }
  from_creation (some hook) o s = with_hook hook o s

  unfoldable pub run_once : Session → S → Run S
  unfolding read_loop delete_hook
  run_once o s = then_effects (create_hook ∷ []) (from_creation o.hook o s)

-- `backoff *= 2; if backoff > maxBackoff { backoff = maxBackoff }`, in seconds.
unfoldable pub next_backoff : ℕ → ℕ
next_backoff backoff = if ltb 60 (2 * backoff) then 60 else 2 * backoff

-- The waits that Run makes over a list of cycles, of which it is told whether each failed; it
-- returns after the first that did not, and where the list ends its context is cancelled.
unfoldable pub waits : ℕ → List Bool → List ℕ
unfolding next_backoff
waits backoff [] = []
waits backoff (failed ∷ cycles) =
    let rest = waits (next_backoff backoff) cycles in if failed then backoff ∷ rest else []

unfoldable pub run : List Bool → List ℕ
unfolding waits
run cycles = waits 1 cycles

abbrev is_space : ℕ → Bool
is_space c = nat_beq c 32 || (leb 9 c && leb c 13)

unfoldable pub trim_left : Bytes → Bytes
trim_left [] = []
trim_left (c ∷ cs) = let rest = trim_left cs in if is_space c then rest else c ∷ cs

-- `strings.TrimSpace` on ASCII texts.
unfoldable pub trim_space : Bytes → Bytes
unfolding trim_left
trim_space s = reverse (trim_left (reverse (trim_left s)))

abbrev keep_part : Bytes → List Bytes → List Bytes
keep_part [] out = out
keep_part (c ∷ cs) out = (c ∷ cs) ∷ out

unfoldable pub kept_parts : List Bytes → List Bytes
unfolding trim_space
kept_parts [] = []
kept_parts (p ∷ parts) = keep_part (trim_space p) (kept_parts parts)

unfoldable pub split_events : String → List Bytes
unfolding split_on kept_parts
split_events s = kept_parts (split_on b',' (codes s))

-- The configuration that SetupAndRun hands to NewSubscriber.
unfoldable pub subscriber_config : Vars → Config
unfolding split_events
subscriber_config vars = record {
  token = vars.github_token;
  host = vars.github_host;
  repo = vars.github_repo;
  org = vars.github_org;
  enterprise = vars.github_enterprise;
  events = split_events vars.github_events;
  secret = vars.webhook_secret;
}
