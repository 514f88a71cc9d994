-- ===== src/Server/Lifecycle.antt =====
-- cmd/server/server.go: SetupAndRun from its start to its end, and which parts of the program are
-- running when.
use live_actions.Base.{
  ℕ, ◌≡◌, refl, ◌⊎◌, inl, inr, Bool, true, false, ◌&&◌, ◌||◌, not, Option, none, some, List, [],
  ◌∷◌, ◌++◌, string_eq, ◌==◌, if◌then◌else◌, Bool-cases,
}
use live_actions.Models.{Bytes}
use live_actions.Failure.{Result, ok, err}
use live_actions.Config.{Env, Vars, new_config}
use live_actions.Ghws.{new_subscriber, subscriber_config}
use live_actions.Ghws
use live_actions.Database.Migrations.{Entry, Schema}
use live_actions.Database.Setup.{Pool, init_db}
use live_actions.Database.Setup

-- The parts that SetupAndRun starts; all but the signal listener and the HTTP server it stops.
pub data Part : Type 0 where
  pools cleanup_service metrics_service shutdown_listener subscriber webhook_workers http_server :
      Part

-- `starts http_server` calls ListenAndServe; `closes` is that the signal listener has called
-- Shutdown, on which ListenAndServe and Wait return. Shutdown itself waits up to 30 seconds for the
-- requests that are being answered, and nothing waits for it, so that neither the HTTP server nor
-- the listener is stopped by SetupAndRun.
pub data Action : Type 0 where
  starts stops : Part → Action
  closes : Action

-- `os.Exit(1)`, which logger.Fatal ends in too, or the return from SetupAndRun, after its deferred calls.
pub data Exit : Type 0 where
  exited returned : Exit

abbrev pub Outcome : Type 0
Outcome = List Action × Exit

-- The end, after which the deferred calls close the pools.
abbrev stop_parts : Bool → List Action
stop_parts websocket =
    (if websocket then stops subscriber ∷ [] else [])
    ++ (stops webhook_workers ∷ stops cleanup_service ∷ stops metrics_service ∷ stops pools ∷ [])

-- `listening` says whether ListenAndServe ends with http.ErrServerClosed, which it does once the
-- listener has had a signal and has called Shutdown.
abbrev pub listen : Bool → Bool → List Action → Outcome
listen listening websocket done =
    if listening
    then (done ++ starts http_server ∷ closes ∷ stop_parts websocket, returned)
    else (done ++ starts http_server ∷ [], exited)

-- NewWebhookHandler starts the workers; the three services are started behind the routes.
abbrev pub started : List Action
started =
    starts pools
    ∷ starts webhook_workers
    ∷ starts cleanup_service
    ∷ starts metrics_service
    ∷ starts shutdown_listener
    ∷ []

abbrev pub with_subscriber : Bool → Result Ghws.Subscriber → Outcome
with_subscriber listening (err e) = (started, exited)
with_subscriber listening (ok sub) = listen listening true (started ++ starts subscriber ∷ [])

abbrev pub with_pools : Bool → Vars → Setup.Outcome → Outcome
with_pools listening vars (err e, calls, s) = ([], exited)
with_pools listening vars (ok _, calls, s) =
    if vars.webhook_transport == "websocket"
    then with_subscriber listening (new_subscriber (subscriber_config vars))
    else listen listening false started

module _ (opens pings : Pool → Bool) (cpus : ℕ) (entries : List Entry) where
  abbrev pub with_config : Bool → Bytes → Schema → Result Vars → Outcome
  with_config listening path s (err e) = ([], exited)
  with_config listening path s (ok vars) =
      with_pools listening vars (init_db opens pings cpus entries path s)

  -- `path` is what GetDatabasePath gives.
  unfoldable pub setup_and_run : Bool → Bytes → Schema → Env → Outcome
  unfolding new_config init_db new_subscriber subscriber_config
  setup_and_run listening path s env = with_config listening path s (new_config env)

-- Which parts are running.
pub record Running : Type 0 where
  pub pools_open : Bool
  pub cleaning : Bool
  pub measuring : Bool
  pub awaiting : Bool
  pub subscribed : Bool
  pub working : Bool
  pub serving : Bool

abbrev flips : Bool → Bool → Option Bool
flips true false = some true
flips false true = some false
flips true true = none
flips false false = none

abbrev put : Option Bool → (Bool → Running) → Option Running
put none f = none
put (some b) f = some (f b)

-- A part is started while it is not running and stopped while it is, and the pools outlast the
-- services that use them, but not the HTTP server; `none` where that is broken.
abbrev set : Bool → Part → Running → Option Running
set on pools r =
    if r.cleaning || r.measuring || r.subscribed || r.working
    then none
    else put (flips on r.pools_open) (λ b. record r { pools_open = b })
set on cleanup_service r =
    if r.pools_open then put (flips on r.cleaning) (λ b. record r { cleaning = b }) else none
set on metrics_service r =
    if r.pools_open then put (flips on r.measuring) (λ b. record r { measuring = b }) else none
set on shutdown_listener r = put (flips on r.awaiting) (λ b. record r { awaiting = b })
set on subscriber r =
    if r.working then put (flips on r.subscribed) (λ b. record r { subscribed = b }) else none
set on webhook_workers r =
    if r.pools_open && not r.subscribed
    then put (flips on r.working) (λ b. record r { working = b })
    else none
set on http_server r =
    if r.pools_open && r.working && r.awaiting
    then put (flips on r.serving) (λ b. record r { serving = b })
    else none

abbrev act : Action → Running → Option Running
act (starts p) r = set true p r
act (stops p) r = set false p r
act closes r = if r.serving && r.awaiting then some r else none

unfoldable pub after : List Action → Running → Option Running
after [] r = some r
after (a ∷ actions) r = elim (act a r) [ none ↦ none | some r' ↦ after actions r' ]

abbrev pub idle : Running
idle = record {
  pools_open = false;
  cleaning = false;
  measuring = false;
  awaiting = false;
  subscribed = false;
  working = false;
  serving = false;
}

-- What SetupAndRun leaves running: the listener, which is in Shutdown, and the HTTP server, which
-- may still answer requests.
abbrev pub left : Running
left = record idle { awaiting = true; serving = true }

abbrev pub Orderly : Outcome → Type 0
Orderly (actions, exit) =
    ((exit ≡ returned) × (after actions idle ≡ some left))
    ⊎ ((exit ≡ exited) × ((r : Running) × (after actions idle ≡ some r)))

listen-Orderly :
    (listening : Bool)
    → Orderly (listen listening false started)
      × Orderly (listen listening true (started ++ starts subscriber ∷ []))
unfolding after
listen-Orderly true = (inl (refl, refl), inl (refl, refl))
listen-Orderly false = (inr (refl, (_, refl)), inr (refl, (_, refl)))

with_subscriber-Orderly :
    (listening : Bool) (checked : Result Ghws.Subscriber)
    → Orderly (with_subscriber listening checked)
unfolding after
with_subscriber-Orderly listening (err e) = inr (refl, (_, refl))
with_subscriber-Orderly listening (ok sub) = (listen-Orderly listening).1

with_pools-Orderly :
    (listening : Bool) (vars : Vars) (out : Setup.Outcome) → Orderly (with_pools listening vars out)
unfolding after
with_pools-Orderly listening vars (err e, calls, s) = inr (refl, (_, refl))
with_pools-Orderly listening vars (ok _, calls, s) =
    elim (Bool-cases (vars.webhook_transport == "websocket")) [
      | inl y ↦ rw y (with_subscriber-Orderly listening (new_subscriber (subscriber_config vars)))
      | inr n ↦ rw n (listen-Orderly listening).0
    ]

with_config-Orderly :
    (opens pings : Pool → Bool) (cpus : ℕ) (entries : List Entry) (listening : Bool) (path : Bytes)
    (s : Schema) (config : Result Vars)
    → Orderly (with_config opens pings cpus entries listening path s config)
unfolding after
with_config-Orderly opens pings cpus entries listening path s (err e) = inr (refl, (_, refl))
with_config-Orderly opens pings cpus entries listening path s (ok vars) =
    with_pools-Orderly listening vars (init_db opens pings cpus entries path s)

-- SetupAndRun starts a part only while it is not running and stops it only while it is, keeps the
-- pools open while a service uses them and the workers while the subscriber runs, listens only while
-- the pools are open and the workers and the signal listener run, and exits, or returns with the
-- services stopped and the pools closed, while the signal listener and the HTTP server may go on.
setup_and_run-Orderly :
    (opens pings : Pool → Bool) (cpus : ℕ) (entries : List Entry) (listening : Bool) (path : Bytes)
    (s : Schema) (env : Env)
    → Orderly (setup_and_run opens pings cpus entries listening path s env)
unfolding setup_and_run
setup_and_run-Orderly opens pings cpus entries listening path s env =
    with_config-Orderly opens pings cpus entries listening path s (new_config env)
