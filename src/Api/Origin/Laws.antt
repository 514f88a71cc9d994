-- ===== src/Api/Origin/Laws.antt =====
-- About the origin of an SSE connection (handlers/api.go).
use live_actions.Base.{
  ◌≡◌, refl, ◌≢◌, ◌↔◌, ◌⊎◌, inl, inr, not, true, false, Option, none, some, [], ◌∷◌, ◌++◌,
  Option-cases, Bool-cases, arith,
}
use live_actions.Models.{Bytes}
use live_actions.Webhook.Encoding.{bytes_eq}
use live_actions.Webhook.Laws.{bytes_eq_iff}
use live_actions.Api.Origin.{
  Url, check_csrf, ApiRequest, pass, https, port_443, port_80, split_host, normalize_host, hostname,
  request_hostname, validate_origin, validate_sse_origin,
}

bytes_eq-append : (h as' bs : Bytes) → bytes_eq (h ++ as') (h ++ bs) ≡ bytes_eq as' bs
unfolding bytes_eq
bytes_eq-append [] as' bs = refl
bytes_eq-append (c ∷ h) as' bs = ground (arith, bytes_eq-append h as' bs)

bytes_eq_same : (bs : Bytes) → bytes_eq bs bs ≡ true
bytes_eq_same bs = (bytes_eq_iff bs bs).1 refl

not_empty : (bs : Bytes) → bs ≢ [] → bytes_eq bs [] ≡ false
unfolding bytes_eq
not_empty [] h = absurd (h refl)
not_empty (b ∷ bs) h = refl

ported :
    (scheme host name : Bytes)
    → split_host host ≡ some name
    → bytes_eq (normalize_host scheme host) (normalize_host [] host) ≡ true
unfolding normalize_host
ported scheme host name h = rw h (bytes_eq_same host)

portless :
    (scheme host : Bytes)
    → split_host host ≡ none
    → bytes_eq (normalize_host scheme host) (normalize_host [] host) ≡ not (bytes_eq scheme https)
unfolding normalize_host
portless scheme host h = rw h (elim (Bool-cases (bytes_eq scheme https)) [
  | inl y ↦ rw y (bytes_eq-append host port_443 port_80)
  | inr n ↦ rw n (bytes_eq-append host port_80 port_80)
])

module _ (parse : Bytes → Option Url) (req : ApiRequest) where
  -- A connection whose Origin has just the host of the request passes ValidateSSEOrigin exactly
  -- when that host has a port or the scheme of the Origin is not https, if the host is not empty.
  pub validate_sse_origin-same :
      (url : Url)
      → req.origin ≢ []
      → parse req.origin ≡ some url
      → url.host ≡ req.host
      → req.host ≢ []
      → (validate_sse_origin parse req ≡ pass)
        ↔ (((name : Bytes) × (split_host req.host ≡ some name)) ⊎ (url.scheme ≢ https))
  unfolding validate_sse_origin
  validate_sse_origin-same url o p same h = rw (not_empty req.origin o) (
      rw (p, same, not_empty req.host h)
        (elim (Option-cases (split_host req.host)) [
          | inl n ↦
              rw (portless url.scheme req.host n) ground (arith, n, bytes_eq_iff url.scheme https)
          | inr (name, r) ↦ rw (ported url.scheme req.host name r) (λ _. inl (name, r), λ _. refl)
        ]))

  -- The referer names the host of the request, and the CSRF header is the token of the cookie.
  abbrev pub FromUi : Url → Bytes → Type 0
  FromUi url token =
      (req.referer ≢ [])
      × (parse req.referer ≡ some url)
      × (hostname url.host ≡ request_hostname req)
      × (req.csrf_cookie ≡ some token)
      × (req.csrf_header ≡ token)
      × (token ≢ [])

  csrf_iff :
      (cookie : Option Bytes)
      → (check_csrf parse req cookie ≡ pass)
        ↔ ((token : Bytes) × (cookie ≡ some token) × (req.csrf_header ≡ token) × (token ≢ []))
  csrf_iff none =
      ((λ h. absurd (ground (arith, h))), λ (token, c, h, k). absurd (ground (arith, c)))
  csrf_iff (some token) = (
    (λ h. (
      token,
      refl,
      ground (arith, h, bytes_eq_iff req.csrf_header token),
      λ e.
          ground (arith, h, e, bytes_eq_iff req.csrf_header [], bytes_eq_iff req.csrf_header token),
    )),
    λ (t, c, h, k).
        ground
          (arith, c, h, k, bytes_eq_iff req.csrf_header [], bytes_eq_iff req.csrf_header token),
  )

  referer_iff : (validate_origin parse req ≡ pass) ↔ (
      (url : Url) × (req.referer ≢ [])
      × (parse req.referer ≡ some url)
      × (hostname url.host ≡ request_hostname req)
      × (check_csrf parse req req.csrf_cookie ≡ pass))
  unfolding validate_origin
  referer_iff = elim (Option-cases (parse req.referer)) [
    | inl n ↦ (
      (λ v. absurd (ground (arith, v, n, bytes_eq_iff req.referer []))),
      λ (url, r, p, same, c). absurd (ground (arith, n, p)),
    )
    | inr (url, p) ↦ (
      (λ v. (
        url,
        (λ e. ground (arith, v, e, bytes_eq_iff req.referer [])),
        p,
        ground (
          arith,
          v,
          p,
          bytes_eq_iff req.referer [],
          bytes_eq_iff (hostname url.host) (request_hostname req),
        ),
        ground (
          arith,
          v,
          p,
          bytes_eq_iff req.referer [],
          bytes_eq_iff (hostname url.host) (request_hostname req),
        ),
      )),
      λ (u, r, q, same, c).
          rw (not_empty req.referer r) (rw (q, same, bytes_eq_same (request_hostname req)) c),
    )
  ]

  -- A request passes ValidateOrigin exactly when its referer is not empty and names the host of
  -- the request, and its CSRF header is the token of its cookie and not empty.
  pub validate_origin_iff :
      (validate_origin parse req ≡ pass) ↔ ((url : Url) × (token : Bytes) × FromUi url token)
  validate_origin_iff = (
    (λ v.
        let (url, r, p, same, c) = referer_iff.0 v in
        let (token, k, h, t) = (csrf_iff req.csrf_cookie).0 c in
        (url, token, (r, p, same, k, h, t))),
    λ (url, token, (r, p, same, k, h, t)).
        referer_iff.1 ((url, r, p, same, (csrf_iff req.csrf_cookie).1 ((token, k, h, t)))),
  )
