-- ===== src/Config/Laws.antt =====
-- About the checks of NewConfig (internal/config/config.go).
use live_actions.Base.{
  ◌+◌, ◌≡◌, subst, ◌≢◌, ◌↔◌, ◌⊎◌, inl, inr, String, Bool, true, false, ◌&&◌, string_eq, ◌==◌, arith,
  Bool-cases,
}
use live_actions.Failure.{ok}
use live_actions.Config.{
  Vars, Env, read_vars, is_production, is_set, check_transport, check_vars, new_config,
}

-- Exactly one of the three scopes is named.
abbrev pub OneScope : Vars → Type 0
OneScope vars = is_set vars.github_repo + is_set vars.github_org + is_set vars.github_enterprise ≡ 1

abbrev pub IsValid : Vars → Type 0
IsValid vars =
    ((vars.environment ≢ "production") ⊎ (vars.webhook_secret ≢ ""))
    × ((vars.webhook_transport ≡ "http")
        ⊎ ((vars.webhook_transport ≡ "websocket") × (vars.github_token ≢ "") × OneScope vars))

secret_iff :
    (vars : Vars)
    → ((is_production vars && vars.webhook_secret == "") ≡ false)
      ↔ ((vars.environment ≢ "production") ⊎ (vars.webhook_secret ≢ ""))
unfolding is_production
secret_iff vars = elim (Bool-cases (vars.environment == "production")) [
  | inl p ↦ rw p (
      ground (
        arith,
        string_eq.beq_iff vars.environment "production",
        string_eq.beq_iff vars.webhook_secret "",
      ))
  | inr n ↦ rw n (ground (arith, string_eq.beq_iff vars.environment "production"))
]

abbrev pub is_websocket : String → Bool
is_websocket t = t == "websocket"

pub two_transports : ¬ (is_websocket "http" ≡ true)
two_transports h = cc

transport_iff :
    (vars : Vars)
    → (check_transport vars ≡ ok vars) ↔ (
        (vars.webhook_transport ≡ "http")
        ⊎ ((vars.webhook_transport ≡ "websocket") × (vars.github_token ≢ "") × OneScope vars))
transport_iff vars = elim (Bool-cases (vars.webhook_transport == "websocket")) [
  | inl w ↦ elim (Bool-cases (vars.webhook_transport == "http")) [
    | inl h ↦ absurd (
        two_transports (
          subst (λ t. is_websocket t ≡ true) ((string_eq.beq_iff vars.webhook_transport "http").0 h)
            w))
    | inr h ↦ elim (Bool-cases (vars.github_token == "")) [
      | inl t ↦
          rw (w, h, t)
            (ground (
              arith,
              string_eq.beq_iff vars.github_token "",
              string_eq.beq_iff vars.webhook_transport "http",
            ))
      | inr t ↦
          rw (w, h, t)
            (ground (
              arith,
              string_eq.beq_iff vars.github_token "",
              string_eq.beq_iff vars.webhook_transport "http",
              string_eq.beq_iff vars.webhook_transport "websocket",
            ))
    ]
  ]
  | inr n ↦ elim (Bool-cases (vars.webhook_transport == "http")) [
    | inl h ↦ rw (n, h) (ground (arith, string_eq.beq_iff vars.webhook_transport "http"))
    | inr h ↦
        rw (n, h)
          (ground (
            arith,
            string_eq.beq_iff vars.webhook_transport "http",
            string_eq.beq_iff vars.webhook_transport "websocket",
          ))
  ]
]

-- NewConfig accepts the environment exactly when a production environment has a webhook secret and
-- the transport is http, or websocket with a token and just one scope.
pub new_config-IsValid :
    (env : Env) → (new_config env ≡ ok (read_vars env)) ↔ IsValid (read_vars env)
unfolding new_config check_vars
new_config-IsValid env =
    let vars = read_vars env in
    elim (Bool-cases (is_production vars && vars.webhook_secret == "")) [
      | inl b ↦ rw b (ground (arith, secret_iff vars))
      | inr b ↦ rw b (ground (arith, secret_iff vars, transport_iff vars))
    ]
