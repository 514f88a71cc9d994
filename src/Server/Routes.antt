-- ===== src/Server/Routes.antt =====
-- cmd/server/server.go: the middleware and the routes of SetupAndRun.
use live_actions.Base.{String, Bool, Option, none, some, List, [], ◌∷◌}
use live_actions.Base.Table.{Table}
use live_actions.Models.{Bytes, WorkflowJob}
use live_actions.Database.{Db}
use live_actions.Database.Analytics.{FailureAnalytics, FailureTrendPoint}
use live_actions.Database.LabelDemand.{LabelDemandSummary, LabelDemandTrendPoint}
use live_actions.Handlers.{Decoder}
use live_actions.Ordering.{Service, Wake}
use live_actions.Sse.{Sse, SseEvent, Frame, connect}
use live_actions.Webhook.{Request, Response, post_webhook}
use live_actions.Middleware.{Query, input_validator, security_headers}
use live_actions.Api.{
  Reply, RunsPage, get_workflow_runs, get_workflow_jobs_by_run_id_handler, list_repositories,
}
use live_actions.Api.Analytics.{
  MetricsResponse, Cookie, get_current_metrics, failure_analytics, label_demand, get_csrf_token,
}
use live_actions.Api.Origin.{
  Url, ApiRequest, Guard, pass, deny, validate_origin, validate_sse_origin,
}
use live_actions.Api.Ready.{Ping, Readiness, readyz}
use live_actions.Server.{Page, spa_fallback_handler}

pub data Endpoint : Type 0 where
  static assets webhook csrf workflow_runs workflow_jobs query_range failures labels : Endpoint
  repositories events metrics healthz ready : Endpoint

-- The guard before a handler of the API: none, ValidateOrigin or ValidateSSEOrigin.
pub data Access : Type 0 where
  anyone same_origin same_sse_origin : Access

pub record Route : Type 0 where
  pub method : String
  pub pattern : String
  pub access : Access
  pub endpoint : Endpoint

abbrev pub route : String → String → Access → Endpoint → Route
route method pattern access endpoint = record {
  method = method;
  pattern = pattern;
  access = access;
  endpoint = endpoint;
}

-- In the order of registration; StaticFS registers GET and HEAD.
unfoldable pub routes : List Route
routes =
    route "GET" "/static/*filepath" anyone static
    ∷ route "HEAD" "/static/*filepath" anyone static
    ∷ route "GET" "/assets/*filepath" anyone assets
    ∷ route "HEAD" "/assets/*filepath" anyone assets
    ∷ route "POST" "/webhook" anyone webhook
    ∷ route "GET" "/api/csrf" anyone csrf
    ∷ route "GET" "/api/workflow-runs" same_origin workflow_runs
    ∷ route "GET" "/api/workflow-jobs/:run_id" same_origin workflow_jobs
    ∷ route "GET" "/api/metrics/query_range" same_origin query_range
    ∷ route "GET" "/api/analytics/failures" same_origin failures
    ∷ route "GET" "/api/analytics/labels" same_origin labels
    ∷ route "GET" "/api/repositories" same_origin repositories
    ∷ route "GET" "/events" same_sse_origin events
    ∷ route "GET" "/metrics" anyone metrics
    ∷ route "GET" "/healthz" anyone healthz
    ∷ route "GET" "/readyz" anyone ready
    ∷ []

-- What the handlers read of a request.
pub record HttpRequest : Type 0 where
  pub method : String
  pub path : String
  pub page : Option String
  pub limit : Option String
  pub period : Option String
  pub start_time : String
  pub end_time : String
  pub repo : String
  pub status : String
  pub run_id : String
  pub headers : ApiRequest
  pub delivery : Request

-- What the server answers, by the handler. The registry is written by promhttp's handler, the files
-- by http.FS.
pub data Answer : Type 0 where
  said : Response → Answer
  listed_runs : Reply RunsPage → Answer
  jobs : Reply (List WorkflowJob) → Answer
  series : Reply MetricsResponse → Answer
  failed : Reply (FailureAnalytics × List FailureTrendPoint) → Answer
  demand : Reply (List LabelDemandSummary × List LabelDemandTrendPoint) → Answer
  names : Reply (List String) → Answer
  token : Reply String × Option Cookie → Answer
  stream : List Frame → Answer
  readiness : Readiness → Answer
  page : Page → Answer
  exposition file : Answer

-- What SetupAndRun gives the handlers, and what they take from outside.
pub record Setting : Type 0 where
  pub decoder : Decoder
  pub secret : Bytes
  pub is_https : Bool
  pub is_production : Bool
  pub index_html : Bytes
  pub write_db : Ping
  pub read_db : Ping
  pub csrf_token : Option String
  pub hmac : Bytes → Bytes → Bytes
  pub parse_url : Bytes → Option Url
  pub parse_time : String → String → Bool
  pub marshal : SseEvent → Option Bytes

abbrev or_text : Option String → String
or_text none = ""
or_text (some text) = text

abbrev pub query_of : HttpRequest → Query
query_of req = record {
  period = or_text req.period;
  start_time = req.start_time;
  end_time = req.end_time;
}

abbrev on_db : {A : Type 0} → (A → Answer) → (Db → A × Db) → Service → Answer × Service
on_db answer f s =
    let (a, db) = f s.app.db in (answer a, record s { app = record s.app { db = db } })

-- Before InitSSEHandler there is no handler; SetupAndRun calls it before it registers the routes.
abbrev pub open_stream : Setting → Option Sse → Service → Answer × Service
open_stream env none s = (stream [], s)
open_stream env (some h) s =
    let (id, frames, h') = connect env.marshal s.app.db.now h in
    (stream frames, record s { app = record s.app { sse = some h' } })

unfoldable pub handle : Setting → Wake → Endpoint → HttpRequest → Service → Answer × Service
unfolding post_webhook get_csrf_token get_workflow_runs get_workflow_jobs_by_run_id_handler
    get_current_metrics failure_analytics label_demand list_repositories connect readyz
handle env wake static req s = (file, s)
handle env wake assets req s = (file, s)
handle env wake webhook req s =
    let (r, s') = post_webhook env.decoder env.hmac env.secret wake req.delivery s in (said r, s')
handle env wake csrf req s =
    (token (get_csrf_token env.is_https env.is_production env.csrf_token), s)
handle env wake workflow_runs req s =
    on_db listed_runs (get_workflow_runs req.page req.limit req.repo req.status) s
handle env wake workflow_jobs req s = on_db jobs (get_workflow_jobs_by_run_id_handler req.run_id) s
handle env wake query_range req s = on_db series (get_current_metrics req.period) s
handle env wake failures req s = on_db failed (failure_analytics req.period req.repo) s
handle env wake labels req s = on_db demand (label_demand req.period req.repo) s
handle env wake repositories req s = on_db names list_repositories s
handle env wake events req s = open_stream env s.app.sse s
handle env wake metrics req s = (exposition, s)
handle env wake healthz req s = (said (record { status = 200; message = "ok" }), s)
handle env wake ready req s = (readiness (readyz env.write_db env.read_db (some s)), s)

abbrev pub guard : Setting → Access → HttpRequest → Guard
guard env anyone req = pass
guard env same_origin req = validate_origin env.parse_url req.headers
guard env same_sse_origin req = validate_sse_origin env.parse_url req.headers

abbrev guarded : Setting → Wake → Endpoint → HttpRequest → Guard → Service → Answer × Service
guarded env wake endpoint req pass s = handle env wake endpoint req s
guarded env wake endpoint req (deny r) s = (said r, s)

-- A route's chain, or NoRoute.
abbrev routed : Setting → Wake → Option Route → HttpRequest → Service → Answer × Service
routed env wake none req s = (page (spa_fallback_handler env.index_html req.method), s)
routed env wake (some r) req s = guarded env wake r.endpoint req (guard env r.access req) s

abbrev validated :
    Setting → Wake → Option Response → Option Route → HttpRequest → Service → Answer × Service
validated env wake (some r) found req s = (said r, s)
validated env wake none found req s = routed env wake found req s

-- `find` is gin's router: which of the routes a method and a path are for. The two loggers and
-- ErrorHandler add nothing: no handler sets an error.
module _ (find : List Route → String → String → Option Route) where
  unfoldable pub serve : Setting → Wake → HttpRequest → Service → Answer × Service
  unfolding routes handle input_validator validate_origin validate_sse_origin spa_fallback_handler
  serve env wake req s =
      validated env wake (input_validator env.parse_time (query_of req))
        (find routes req.method req.path) req s

  -- The headers that SecurityHeaders sets before all that.
  unfoldable pub served :
      Setting → Wake → HttpRequest → Service → Table String String × (Answer × Service)
  unfolding serve security_headers
  served env wake req s = (security_headers env.is_production env.is_https, serve env wake req s)
