-- ===== src/Server/Access.antt =====
-- About who may do what over HTTP (cmd/server/server.go).
use live_actions.Base.{
  suc, ◌≡◌, refl, ◌⊎◌, inl, inr, String, Bool, [], ◌∷◌, true, false, ◌&&◌, Option, none, some, List,
  Option-cases, not, all, ◌||◌, string_eq, ◌==◌, arith,
}
use live_actions.Base.Keys.{Any, all-Any}
use live_actions.Base.Text.{codes, starts}
use live_actions.Failure.{Result, ok, err}
use live_actions.Database.{Db}
use live_actions.Sse.{Sse, connect, subscribe}
use live_actions.Ordering.{Service, Wake}
use live_actions.Webhook.{Request, Response, next, abort, validate_github_webhook, post_webhook}
use live_actions.Middleware.{input_validator, validate_query_params, verdict}
use live_actions.Api.Origin.{pass, deny, Guard, validate_origin}
use live_actions.Api.Reads.{
  OnlyCalls, get_workflow_runs-OnlyCalls, jobs_handler-OnlyCalls, list_repositories-OnlyCalls,
  get_current_metrics-OnlyCalls, failure_analytics-OnlyCalls, label_demand-OnlyCalls,
}
use live_actions.Server.Routes.{
  Endpoint, webhook, csrf, static, assets, workflow_runs, workflow_jobs, query_range, failures,
  labels, repositories, events, metrics, healthz, ready, Access, same_origin, Route, routes,
  HttpRequest, Setting, said, query_of, handle, guard, open_stream, serve,
}

-- No client is new, or there is one, with an empty buffer; the other clients' buffers and the
-- events that wait in the coalescer are as they were.
abbrev pub Joined : Option Sse → Option Sse → Type 0
Joined before after =
    (after ≡ before)
    ⊎ ((h : Sse) × (before ≡ some h)
        × (after ≡ some (record h { subs = (h.next_id, []) ∷ h.subs; next_id = suc h.next_id })))

-- Apart from the calls of the driver that were made and a new client of the event stream, all is
-- as it was.
abbrev pub Same : Service → Service → Type 0
Same s s' =
    (s' ≡ record s {
      app = record s.app { db = record s.app.db { faults = s'.app.db.faults }; sse = s'.app.sse };
    })
    × Joined s.app.sse s'.app.sse

unchanged : (s : Service) → Same s s
unchanged s = (refl, inl refl)

-- A delivery that passes the signature check.
abbrev pub IsSigned : Setting → Request → Type 0
IsSigned env req = (event : String) × (validate_github_webhook env.hmac env.secret req ≡ next event)

Same-call :
    (s : Service) (db : Db)
    → OnlyCalls s.app.db db
    → Same s (record s { app = record s.app { db = db } })
Same-call s db e = (ground (arith, e), inl refl)

module _ (env : Setting) (wake : Wake) where
  webhook-Same :
      (req : Request) (s : Service)
      → Same s (post_webhook env.decoder env.hmac env.secret wake req s).1 ⊎ IsSigned env req
  unfolding post_webhook
  webhook-Same req s = elim (Verdict-cases (validate_github_webhook env.hmac env.secret req)) [
    | inl (r, e) ↦ inl (rw e (unchanged s))
    | inr (event, e) ↦ inr (event, e)
  ]
    where
      Verdict-cases : (v : _) → ((r : _) × (v ≡ abort r)) ⊎ ((event : String) × (v ≡ next event))
      Verdict-cases (abort r) = inl (r, refl)
      Verdict-cases (next event) = inr (event, refl)

  open_stream-Same : (h : Option Sse) (s : Service) → s.app.sse ≡ h → Same s (open_stream env h s).1
  unfolding connect subscribe
  open_stream-Same none s e = unchanged s
  open_stream-Same (some h) s e = (refl, inr (h, e, refl))

  -- What a handler changes.
  handle-Same :
      (e : Endpoint) (req : HttpRequest) (s : Service)
      → Same s (handle env wake e req s).1 ⊎ ((e ≡ webhook) × IsSigned env req.delivery)
  unfolding handle
  handle-Same static req s = inl (unchanged s)
  handle-Same assets req s = inl (unchanged s)
  handle-Same webhook req s = elim (webhook-Same req.delivery s) [
    | inl e ↦ inl e
    | inr signed ↦ inr (refl, signed)
  ]
  handle-Same csrf req s = inl (unchanged s)
  handle-Same workflow_runs req s =
      inl (
        Same-call s _ (get_workflow_runs-OnlyCalls req.page req.limit req.repo req.status s.app.db))
  handle-Same workflow_jobs req s = inl (Same-call s _ (jobs_handler-OnlyCalls req.run_id s.app.db))
  handle-Same query_range req s =
      inl (Same-call s _ (get_current_metrics-OnlyCalls req.period s.app.db))
  handle-Same failures req s =
      inl (Same-call s _ (failure_analytics-OnlyCalls req.period req.repo s.app.db))
  handle-Same labels req s =
      inl (Same-call s _ (label_demand-OnlyCalls req.period req.repo s.app.db))
  handle-Same repositories req s = inl (Same-call s _ (list_repositories-OnlyCalls s.app.db))
  handle-Same events req s = inl (open_stream-Same s.app.sse s refl)
  handle-Same metrics req s = inl (unchanged s)
  handle-Same healthz req s = inl (unchanged s)
  handle-Same ready req s = inl (unchanged s)

-- The router finds one of the routes that are registered, for the method of the request.
abbrev pub IsRouter : (List Route → String → String → Option Route) → Type 0
IsRouter find =
    (method path : String) (r : Route)
    → find routes method path ≡ some r
    → Any (λ q. q ≡ r) routes × (r.method ≡ method)

-- Deliveries are posted.
abbrev is_webhook : Endpoint → Bool
is_webhook webhook = true
is_webhook _ = false

abbrev is_posted : Route → Bool
is_posted r = not (is_webhook r.endpoint) || r.method == "POST"

all_posted : all is_posted routes ≡ true
unfolding routes
all_posted = refl

-- The routes of the API, but for the one of the token, are guarded by ValidateOrigin.
abbrev is_same_origin : Access → Bool
is_same_origin same_origin = true
is_same_origin _ = false

abbrev pub is_api : Route → Bool
is_api r = starts (codes r.pattern) (codes "/api/") && not (r.pattern == "/api/csrf")

abbrev is_guarded : Route → Bool
is_guarded r = not (is_api r) || is_same_origin r.access

all_guarded : all is_guarded routes ≡ true
unfolding routes starts
all_guarded = refl

same_origin_iff : (a : Access) → is_same_origin a ≡ true → a ≡ same_origin
same_origin_iff a h = ground (arith, h)

Guard-cases : (g : Guard) → (g ≡ pass) ⊎ ((r : Response) × (g ≡ deny r))
Guard-cases pass = inl refl
Guard-cases (deny r) = inr (r, refl)

verdict_status :
    (parse : String → String → Bool) (o : Result (Unit {0})) (r : Response)
    → verdict parse o ≡ some r
    → r.status ≡ 400
verdict_status parse (ok _) r h = absurd (cc)
verdict_status parse (err e) r h = ground (arith, h)

validator_status :
    (env : Setting) (req : HttpRequest) (r : Response)
    → input_validator env.parse_time (query_of req) ≡ some r
    → r.status ≡ 400
unfolding input_validator
validator_status env req r h =
    verdict_status env.parse_time (validate_query_params env.parse_time (query_of req)) r h

origin_status :
    (env : Setting) (req : HttpRequest) (r : Response)
    → validate_origin env.parse_url req.headers ≡ deny r
    → r.status ≡ 403
unfolding validate_origin
origin_status env req r h = elim (Option-cases (env.parse_url req.headers.referer)) [
  | inl n ↦ ground (arith, n, h)
  | inr (url, e) ↦ elim (Option-cases req.headers.csrf_cookie) [
    | inl n ↦ ground (arith, e, n, h)
    | inr (cookie, c) ↦ ground (arith, e, c, h)
  ]
]

module _ (find : List Route → String → String → Option Route) (sound : IsRouter find) where
  posted :
      (req : HttpRequest) (r : Route)
      → find routes req.method req.path ≡ some r
      → r.endpoint ≡ webhook
      → req.method ≡ "POST"
  posted req r e w =
      let (member, method) = sound req.method req.path r e in
      let (q, p, same) = all-Any is_posted (λ q. q ≡ r) routes all_posted member in
      let p' : is_posted r ≡ true = rw (← same) p in
      ground (arith, method, string_eq.beq_iff r.method "POST", p', w)

  guarded_api :
      (req : HttpRequest) (r : Route)
      → find routes req.method req.path ≡ some r
      → is_api r ≡ true
      → is_same_origin r.access ≡ true
  guarded_api req r e api =
      let (member, method) = sound req.method req.path r e in
      let (q, p, same) = all-Any is_guarded (λ q. q ≡ r) routes all_guarded member in
      let p' : is_guarded r ≡ true = rw (← same) p in ground (arith, p', api)

  -- A request that changes more than which calls of the driver are to come and, by one new client
  -- with an empty buffer, who listens to the event stream is a POST whose delivery passes the
  -- signature check, if the router finds only registered routes, for the method of the request.
  pub serve-Same :
      (env : Setting) (wake : Wake) (req : HttpRequest) (s : Service)
      → Same s (serve find env wake req s).1 ⊎ ((req.method ≡ "POST") × IsSigned env req.delivery)
  unfolding serve
  serve-Same env wake req s = elim (Option-cases (input_validator env.parse_time (query_of req))) [
    | inr (refused, e) ↦ rw e (inl (unchanged s))
    | inl e ↦ elim (Option-cases (find routes req.method req.path)) [
      | inl n ↦ rw (e, n) (inl (unchanged s))
      | inr (r, n) ↦ elim (Guard-cases (guard env r.access req)) [
        | inr (refused, g) ↦ rw (e, n, g) (inl (unchanged s))
        | inl g ↦
            rw (e, n, g)
              (elim (handle-Same env wake r.endpoint req s) [
                | inl same ↦ inl same
                | inr (w, signed) ↦ inr (posted req r n w, signed)
              ])
      ]
    ]
  ]

  -- A request for a route of the API, other than the one of the token, that does not pass
  -- ValidateOrigin is answered 400 or 403 and changes nothing, if the router finds only registered
  -- routes, for the method of the request.
  pub serve_guarded :
      (env : Setting) (wake : Wake) (req : HttpRequest) (s : Service) (r : Route)
      (refusal : Response)
      → find routes req.method req.path ≡ some r
      → is_api r ≡ true
      → validate_origin env.parse_url req.headers ≡ deny refusal
      → let (answer, s') = serve find env wake req s in
        (s' ≡ s) × ((t : Response) × (answer ≡ said t) × ((t.status ≡ 400) ⊎ (t.status ≡ 403)))
  unfolding serve
  serve_guarded env wake req s r refusal e api d =
      let guarded' = same_origin_iff r.access (guarded_api req r e api) in
      elim (Option-cases (input_validator env.parse_time (query_of req))) [
        | inr (refused, v) ↦
            rw v ((refl, (refused, refl, inl (validator_status env req refused v))))
        | inl v ↦
            rw (v, e, guarded', d) ((refl, (refusal, refl, inr (origin_status env req refusal d))))
      ]
