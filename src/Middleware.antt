-- ===== src/Middleware.antt =====
-- internal/middleware/validation.go, internal/middleware/security.go, and the answer
-- of ErrorHandler in internal/middleware/errors.go.
pub mod Sanitize
use live_actions.Base.{
  ℕ, String, Bool, not, ◌&&◌, ◌||◌, Option, none, some, List, [], ◌∷◌, ◌++◌, any, leb, ltb,
  string_eq, ◌==◌, if◌then◌else◌,
}
use live_actions.Base.Table.{Table}
use live_actions.Failure.{new, wrap, Result, ok, err}
use live_actions.Webhook.{Response}

-- The query parameters that are looked at, empty where there are none.
pub record Query : Type 0 where
  pub period : String
  pub start_time : String
  pub end_time : String

abbrev valid_periods : List String
valid_periods = "hour" ∷ "day" ∷ "week" ∷ "month" ∷ "custom" ∷ []

-- `parse` is time.Parse of Go's library with one of the four formats of the code: does it succeed?
module _ (parse : String → String → Bool) where
  abbrev formats : List String
  formats =
      "2006-01-02T15:04:05Z07:00" ∷ "2006-01-02T15:04:05Z" ∷ "2006-01-02 15:04:05" ∷ "2006-01-02"
      ∷ []

  unfoldable pub validate_time_string : String → Result (Unit {0})
  validate_time_string text =
      if any (λ format. parse format text) formats
      then ok tt
      else err (new "unsupported time format")

  abbrev invalid : String → Result (Unit {0}) → Result (Unit {0})
  invalid message (ok _) = ok tt
  invalid message (err e) = err (wrap message e)

  abbrev check_time : String → String → Result (Unit {0})
  check_time message text =
      if text == "" then ok tt else invalid message (validate_time_string text)

  abbrev then_check : Result (Unit {0}) → Result (Unit {0}) → Result (Unit {0})
  then_check (ok _) rest = rest
  then_check (err e) rest = err e

  unfoldable pub validate_query_params : Query → Result (Unit {0})
  unfolding validate_time_string
  validate_query_params q =
      if not (q.period == "") && not (any (λ p. p == q.period) valid_periods)
      then err (new "invalid period value")
      else then_check (check_time "invalid start_time" q.start_time)
          (check_time "invalid end_time" q.end_time)

  abbrev pub verdict : Result (Unit {0}) → Option Response
  verdict (ok _) = none
  verdict (err e) = some (record { status = 400; message = "Invalid query parameter" })

  -- The answer that ends the chain, if there is one.
  unfoldable pub input_validator : Query → Option Response
  unfolding validate_query_params
  input_validator q = verdict (validate_query_params q)

-- What ErrorHandler answers after the chain, for the last error if there is one, the status that is
-- set, and whether the answer is written. `sanitized` is the error's message after sanitizing.
unfoldable pub error_handler : Option String → ℕ → Bool → Option Response
error_handler none status written = none
error_handler (some sanitized) status written =
    if written
    then none
    else (if leb 400 status && ltb status 500
        then some (record { status = status; message = sanitized })
        else some (record { status = 500; message = "Internal server error" }))

abbrev csp : String
csp =
    "default-src 'self'; script-src 'self'; style-src 'self' 'unsafe-inline'; img-src 'self' data:; font-src 'self'; connect-src 'self'; frame-ancestors 'none'; base-uri 'self'; form-action 'self'"

abbrev permissions : String
permissions =
    "geolocation=(), microphone=(), camera=(), payment=(), usb=(), magnetometer=(), gyroscope=(), accelerometer=(), ambient-light-sensor=()"

-- The headers of SecurityHeaders.
unfoldable pub security_headers : Bool → Bool → Table String String
security_headers is_production is_https =
    ("X-Frame-Options", "DENY")
      ∷ ("X-Content-Type-Options", "nosniff")
      ∷ ("X-XSS-Protection", "1; mode=block")
      ∷ (if is_production || is_https
          then ("Strict-Transport-Security", "max-age=31536000; includeSubDomains") ∷ []
          else [])
    ++ (("Referrer-Policy", "strict-origin-when-cross-origin")
        ∷ ("Content-Security-Policy", csp)
        ∷ ("Permissions-Policy", permissions)
        ∷ [])
