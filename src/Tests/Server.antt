-- ===== src/Tests/Server.antt =====
-- Requests through the middleware and the routes, the start of the database, and its history.
use live_actions.Base.{
  ◌≤◌, ◌/◌, ◌+◌, length, ◌≡◌, refl, ap, ◌⊎◌, inl, inr, String, Bool, true, false, ◌&&◌, Option,
  none, some, List, [], ◌∷◌, ◌++◌, string_eq, ◌==◌, arith, Bool-cases, if◌then◌else◌,
}
use live_actions.Base.Keys.{Any}
use live_actions.Base.Text.{codes, starts}
use mathlib.Core.Option
use live_actions.Models.{Bytes, MetricsSnapshot}
use live_actions.Failure.{ok}
use live_actions.Database.{Db, sqlite}
use live_actions.Database.Snapshots.{get_metrics_history, bucket_seconds}
use live_actions.Database.Snapshots.Points.{length-get_metrics_history}
use live_actions.Database.Migrations.{Schema}
use live_actions.Database.Setup.{Pool, write_db, read_db, build_dsn, init_db, pragma_key}
use live_actions.Database.Setup.Dsn.{dsn_values, pragma_values, dsn_values-build_dsn}
use live_actions.Database.Setup.Laws.{Ready, Abandoned, init_db-Ready}
use live_actions.Webhook.{Response, whole}
use live_actions.Ordering.{timed_out, new_service}
use live_actions.Api.Origin.{validate_origin}
use live_actions.Api.Ready.{fine}
use live_actions.Server.Routes.{
  Route, routes, route, HttpRequest, Setting, said, serve, same_origin, repositories,
}
use live_actions.Server.Access.{Same, IsSigned, IsRouter, serve-Same, serve_guarded}
use live_actions.Tests.Samples.{empty_db, new_app, decoder}

abbrev find : List Route → String → String → Option Route
find [] method path = none
find (r ∷ rest) method path =
    if r.method == method && r.pattern == path then some r else find rest method path

find_sound :
    (rs : List Route) (method path : String) (r : Route)
    → find rs method path ≡ some r
    → Any (λ q. q ≡ r) rs × (r.method ≡ method)
find_sound [] method path r h = absurd (cc)
find_sound (q ∷ rs) method path r h = elim (Bool-cases (q.method == method && q.pattern == path)) [
  | inl y ↦
      let same : q ≡ r = ground (arith, y, h) in
      (
        inl same,
        ground (arith, ap (λ (x : Route). x.method) same, y, string_eq.beq_iff q.method method),
      )
  | inr n ↦
      let h' : find rs method path ≡ some r = ground (arith, n, h) in
      let (member, m) = find_sound rs method path r h' in (inr member, m)
]

find-IsRouter : IsRouter find
find-IsRouter method path r h = find_sound routes method path r h

abbrev setting : Setting
setting = record {
  decoder = decoder;
  secret = 7 ∷ [];
  is_https = true;
  is_production = true;
  index_html = [];
  write_db = fine;
  read_db = fine;
  csrf_token = some "t";
  hmac = λ key body. body;
  parse_url = λ text. none;
  parse_time = λ format text. true;
  marshal = λ event. none;
}

abbrev request : String → String → HttpRequest
request method path = record {
  method = method;
  path = path;
  page = none;
  limit = none;
  period = none;
  start_time = "";
  end_time = "";
  repo = "";
  status = "";
  run_id = "";
  headers = record { origin = []; referer = []; host = []; csrf_cookie = none; csrf_header = [] };
  delivery = record {
    signature = b'0' ∷ b'1' ∷ [];
    event = "workflow_job";
    delivery = "a";
    body = whole (1 ∷ []);
  };
}

serve-Same_example :
    Same
      (new_service new_app)
      (serve find setting timed_out (request "POST" "/webhook") (new_service new_app)).1
    ⊎ (((request "POST" "/webhook").method ≡ "POST")
        × IsSigned setting (request "POST" "/webhook").delivery)
serve-Same_example =
    serve-Same find find-IsRouter setting timed_out (request "POST" "/webhook")
      (new_service new_app)

abbrev refusal : Response
refusal = record { status = 403; message = "Access denied. Missing referer header." }

serve_guarded_example :
    let (answer, s') =
      serve find setting timed_out (request "GET" "/api/repositories") (new_service new_app) in
    (s' ≡ new_service new_app)
    × ((t : Response) × (answer ≡ said t) × ((t.status ≡ 400) ⊎ (t.status ≡ 403)))
unfolding routes starts validate_origin
serve_guarded_example =
    serve_guarded find find-IsRouter setting timed_out (request "GET" "/api/repositories")
      (new_service new_app) (route "GET" "/api/repositories" same_origin repositories) refusal refl
      refl refl

abbrev file_name : Bytes
file_name = b'd' ∷ b'?' ∷ b'a' ∷ b'=' ∷ b'1' ∷ []

abbrev pragma : Bytes
pragma = b'a' ∷ b'(' ∷ b'1' ∷ b')' ∷ []

dsn_values-build_dsn_example :
    dsn_values (build_dsn file_name (pragma ∷ []))
    ≡ Option.map (λ vs. vs ++ pragma_values (pragma ∷ [])) (dsn_values file_name)
dsn_values-build_dsn_example =
    dsn_values-build_dsn file_name (pragma ∷ [])
      (((omega arith, (omega arith, (omega arith, (omega arith, tt)))), tt))

-- "d?a=1&_pragma=a%281%29"
escaped_pragma :
    build_dsn file_name (pragma ∷ []) ≡ file_name ++ (b'&' ∷ pragma_key ++ codes "=a%281%29")
unfolding build_dsn
escaped_pragma = refl

-- The pool of the readers does not answer.
abbrev only_writer : Pool → Bool
only_writer write_db = true
only_writer read_db = false

abbrev no_versions : Schema
no_versions = record { versions = []; scripts = []; faults = [] }

init_db-Ready_example :
    Ready
      (λ p. true)
      only_writer
      8
      []
      file_name
      no_versions
      (init_db (λ p. true) only_writer 8 [] file_name no_versions)
    ⊎ Abandoned
        (λ p. true)
        only_writer
        8
        []
        (init_db (λ p. true) only_writer 8 [] file_name no_versions)
init_db-Ready_example = init_db-Ready (λ p. true) only_writer 8 [] file_name no_versions

-- Two snapshots, of which one is in the last hour.
abbrev sampled : Db
sampled = record empty_db {
  snapshots =
      record { timestamp = sqlite 90000; running_jobs = 5; queued_jobs = 5 }
      ∷ record { timestamp = sqlite 100000; running_jobs = 1; queued_jobs = 2 }
      ∷ [];
}

abbrev shown : List MetricsSnapshot
shown = record { timestamp = 99996; running = 1; queued = 2 } ∷ []

history_shown : (get_metrics_history 3600 sampled).0 ≡ ok shown
unfolding get_metrics_history
history_shown = refl

length-get_metrics_history_example : length shown ≤ 3600 / bucket_seconds 3600 + 2
length-get_metrics_history_example =
    length-get_metrics_history 3600 sampled shown (((refl, omega arith), ((refl, omega arith), tt)))
      history_shown
