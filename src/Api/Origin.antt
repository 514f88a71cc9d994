-- ===== src/Api/Origin.antt =====
-- handlers/api.go: ValidateOrigin, ValidateSSEOrigin and normalizeHost.
pub mod Laws
use live_actions.Base.{
  ℕ, String, Bool, true, false, not, ◌&&◌, ◌||◌, Option, none, some, List, [], ◌∷◌, ◌++◌, drop, any,
  nat_beq, if◌then◌else◌,
}
use live_actions.Base.Text.{is_digit, cut}
use live_actions.Models.{Bytes}
use live_actions.Webhook.{Response}
use live_actions.Webhook.Encoding.{bytes_eq}

abbrev here : ℕ → ℕ → Bytes → Option (Bytes × Bytes) → Option (Bytes × Bytes)
here c b bs (some (front, back)) = some (b ∷ front, back)
here c b bs none = if nat_beq b c then some ([], bs) else none

-- What is before and after the last `c`.
unfoldable pub cut_last : ℕ → Bytes → Option (Bytes × Bytes)
cut_last c [] = none
cut_last c (b ∷ bs) = here c b bs (cut_last c bs)

abbrev has : ℕ → Bytes → Bool
has c bs = any (λ b. nat_beq b c) bs

abbrev colon : ℕ
colon = b':'

abbrev open_bracket : ℕ
open_bracket = b'['

abbrev close_bracket : ℕ
close_bracket = b']'

-- The host in brackets, with what is after the opening one.
abbrev bracketed : Bytes → Bytes → Option (Bytes × Bytes) → Option Bytes
bracketed inner port (some (host, [])) =
    if has open_bracket (inner ++ port) || has close_bracket port then none else some host
bracketed inner port _ = none

abbrev host_before : Bytes → Option (Bytes × Bytes) → Option Bytes
host_before bs none = none
host_before [] (some (host, port)) = none
host_before (b ∷ bs) (some (host, port)) =
    if nat_beq b open_bracket
    then bracketed (drop 1 host) port (cut close_bracket (drop 1 host))
    else (if has colon host || has open_bracket (b ∷ bs) || has close_bracket (b ∷ bs)
        then none
        else some host)

-- `net.SplitHostPort`, of whose results the code uses the host; `none` is its error.
unfoldable pub split_host : Bytes → Option Bytes
unfolding cut cut_last
split_host hostport = host_before hostport (cut_last colon hostport)

-- What the code reads of the `url.URL` that `url.Parse` gives.
pub record Url : Type 0 where
  pub scheme : Bytes
  pub host : Bytes

abbrev all_digits : Bytes → Bool
all_digits port = not (any (λ b. not (is_digit b)) port)

abbrev port_off : Bytes → Option (Bytes × Bytes) → Bytes
port_off host none = host
port_off host (some (name, port)) = if all_digits port then name else host

abbrev brackets_off : Bytes → Option (Bytes × Bytes) → Bytes
brackets_off host (some (inner, [])) = inner
brackets_off host _ = host

abbrev unbracket : Bytes → Bytes
unbracket [] = []
unbracket (b ∷ bs) =
    if nat_beq b open_bracket then brackets_off (b ∷ bs) (cut_last close_bracket bs) else b ∷ bs

-- `Hostname()` of a URL with this host.
unfoldable pub hostname : Bytes → Bytes
unfolding cut_last
hostname host = unbracket (port_off host (cut_last colon host))

-- The headers Origin, Referer and X-CSRF-Token, empty where there are none, the host, and the cookie.
pub record ApiRequest : Type 0 where
  pub origin : Bytes
  pub referer : Bytes
  pub host : Bytes
  pub csrf_cookie : Option Bytes
  pub csrf_header : Bytes

-- `c.Next()`, or `c.JSON` and `c.Abort()`.
pub data Guard : Type 0 where
  pass : Guard
  deny : Response → Guard

abbrev forbidden : String → Guard
forbidden message = deny (record { status = 403; message = message })

-- "https"
abbrev pub https : Bytes
https = b'h' ∷ b't' ∷ b't' ∷ b'p' ∷ b's' ∷ []

-- ":443" and ":80"
abbrev pub port_443 : Bytes
port_443 = b':' ∷ b'4' ∷ b'4' ∷ b'3' ∷ []

abbrev pub port_80 : Bytes
port_80 = b':' ∷ b'8' ∷ b'0' ∷ []

abbrev with_port : Bytes → Bytes → Option Bytes → Bytes
with_port scheme host (some _) = host
with_port scheme host none = host ++ (if bytes_eq scheme https then port_443 else port_80)

unfoldable pub normalize_host : Bytes → Bytes → Bytes
unfolding split_host bytes_eq
normalize_host scheme host = with_port scheme host (split_host host)

abbrev or_host : Bytes → Option Bytes → Bytes
or_host host none = host
or_host host (some name) = name

-- The name in the Host header.
unfoldable pub request_hostname : ApiRequest → Bytes
unfolding split_host
request_hostname req = or_host req.host (split_host req.host)

-- `parse` is url.Parse of Go's library; `none` is its error.
module _ (parse : Bytes → Option Url) where
  abbrev pub check_csrf : ApiRequest → Option Bytes → Guard
  check_csrf req none = forbidden "Invalid CSRF cookie"
  check_csrf req (some token) =
      if bytes_eq req.csrf_header [] || not (bytes_eq req.csrf_header token)
      then forbidden "Invalid CSRF token"
      else pass

  abbrev check_referer : ApiRequest → Option Url → Guard
  check_referer req none = forbidden "Access denied. Invalid referer."
  check_referer req (some url) =
      if bytes_eq (hostname url.host) (request_hostname req)
      then check_csrf req req.csrf_cookie
      else forbidden "Access denied. This endpoint can only be accessed from the application."

  unfoldable pub validate_origin : ApiRequest → Guard
  unfolding hostname request_hostname bytes_eq
  validate_origin req =
      if bytes_eq req.referer []
      then forbidden "Access denied. Missing referer header."
      else check_referer req (parse req.referer)

  abbrev check_host : ApiRequest → Option Url → Guard
  check_host req none = forbidden "Access denied. Invalid origin."
  check_host req (some url) =
      if bytes_eq url.host []
      then forbidden "Access denied. Origin must contain a host."
      else (if bytes_eq (normalize_host url.scheme url.host) (normalize_host [] req.host)
          then pass
          else forbidden "Access denied. Cross-origin SSE connections are not allowed.")

  abbrev check_url : ApiRequest → Bytes
  check_url req = if bytes_eq req.origin [] then req.referer else req.origin

  unfoldable pub validate_sse_origin : ApiRequest → Guard
  unfolding normalize_host bytes_eq
  validate_sse_origin req =
      if bytes_eq req.origin [] && bytes_eq req.referer []
      then forbidden "Access denied. Missing origin."
      else check_host req (parse (check_url req))
