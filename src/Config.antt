-- ===== src/Config.antt =====
-- internal/config/config.go. The environment is a function; an unset variable reads as the empty text.
pub mod Laws
pub mod Durations
use live_actions.Base.{
  ℕ, suc, ◌+◌, ◌*◌, ◌≡◌, refl, String, Bool, true, false, not, ◌&&◌, ◌||◌, Option, none, some, List,
  [], ◌∷◌, ltb, nat_beq, string_eq, ◌==◌, if◌then◌else◌,
}
use live_actions.Base.Int.{ℤ, pos, negsuc}
use live_actions.Base.Text.{codes, atoi}
use live_actions.Failure.{Error, new, Result, ok, err}

pub record Vars : Type 0 where
  pub webhook_secret : String
  pub port : String
  pub database_path : String
  pub log_level : String
  pub tls_enabled : Bool
  pub environment : String
  pub data_retention_days : ℤ
  pub cleanup_interval_hours : ℤ
  pub stale_job_threshold_hours : ℤ
  pub webhook_transport : String
  pub github_token : String
  pub github_host : String
  pub github_repo : String
  pub github_org : String
  pub github_enterprise : String
  pub github_events : String

abbrev pub Env : Type 0
Env = String → String

unfoldable pub get_env_or_default : Env → String → String → String
get_env_or_default env key default = if env key == "" then default else env key

abbrev or_default : Option ℤ → ℤ → ℤ
or_default none default = default
or_default (some n) default = n

unfoldable pub get_env_or_default_int : Env → String → ℤ → ℤ
unfolding atoi
get_env_or_default_int env key default =
    if env key == "" then default else or_default (atoi (codes (env key))) default

unfoldable pub read_vars : Env → Vars
unfolding get_env_or_default get_env_or_default_int
read_vars env = record {
  webhook_secret = env "WEBHOOK_SECRET";
  port = get_env_or_default env "PORT" "8080";
  database_path = get_env_or_default env "DATABASE_PATH" "./data/live-actions.db";
  log_level = get_env_or_default env "LOG_LEVEL" "info";
  tls_enabled = get_env_or_default env "TLS_ENABLED" "false" == "true";
  environment = get_env_or_default env "ENVIRONMENT" "development";
  data_retention_days = get_env_or_default_int env "DATA_RETENTION_DAYS" (pos 30);
  cleanup_interval_hours = get_env_or_default_int env "CLEANUP_INTERVAL_HOURS" (pos 24);
  stale_job_threshold_hours = get_env_or_default_int env "STALE_JOB_THRESHOLD_HOURS" (pos 24);
  webhook_transport = get_env_or_default env "WEBHOOK_TRANSPORT" "http";
  github_token = env "GITHUB_TOKEN";
  github_host = get_env_or_default env "GITHUB_HOST" "github.com";
  github_repo = env "GITHUB_REPO";
  github_org = env "GITHUB_ORG";
  github_enterprise = env "GITHUB_ENTERPRISE";
  github_events = get_env_or_default env "GITHUB_EVENTS" "workflow_job,workflow_run";
}

unfoldable pub is_production : Vars → Bool
is_production vars = vars.environment == "production"

unfoldable pub is_https : Vars → Bool
is_https vars = vars.tls_enabled

-- How many of the three scopes are set.
abbrev pub is_set : String → ℕ
is_set s = if s == "" then 0 else 1

abbrev scopes : Vars → ℕ
scopes vars = is_set vars.github_repo + is_set vars.github_org + is_set vars.github_enterprise

abbrev check_websocket : Vars → Result Vars
check_websocket vars =
    if vars.github_token == ""
    then err (new "GITHUB_TOKEN is required when WEBHOOK_TRANSPORT=websocket")
    else (if nat_beq (scopes vars) 0
        then err (
            new
              "one of GITHUB_REPO, GITHUB_ORG, or GITHUB_ENTERPRISE is required when WEBHOOK_TRANSPORT=websocket")
        else (if ltb 1 (scopes vars)
            then err (new "set only one of GITHUB_REPO, GITHUB_ORG, and GITHUB_ENTERPRISE")
            else ok vars))

abbrev check_transport : Vars → Result Vars
check_transport vars =
    if vars.webhook_transport == "http" || vars.webhook_transport == "websocket"
    then (if vars.webhook_transport == "websocket" then check_websocket vars else ok vars)
    else err (new "WEBHOOK_TRANSPORT must be \"http\" or \"websocket\"")

unfoldable pub check_vars : Vars → Result Vars
unfolding is_production
check_vars vars =
    if is_production vars && vars.webhook_secret == ""
    then err (new "WEBHOOK_SECRET is required in production")
    else check_transport vars

unfoldable pub new_config : Env → Result Vars
unfolding read_vars check_vars
new_config env = check_vars (read_vars env)
