-- ===== src/Ghws/Start.antt =====
-- About the subscriber's check of a configuration that NewConfig (internal/config/config.go) accepted.
use live_actions.Base.{
  ◌≡◌, refl, ap, sym, ◌∙◌, ◌↔◌, inl, inr, true, List, [], ◌∷◌, string_eq, arith,
}
use live_actions.Models.{Bytes}
use live_actions.Failure.{ok, IsErr}
use live_actions.Config.{Env, read_vars, new_config}
use live_actions.Config.Laws.{new_config-IsValid, is_websocket, two_transports}
use live_actions.Ghws.{is_empty, validate, split_events, subscriber_config}

is_empty_iff : (es : List Bytes) → (is_empty es ≡ true) ↔ (es ≡ [])
is_empty_iff [] = ((λ h. refl), (λ h. refl))
is_empty_iff (e ∷ es) = ((λ h. cc), (λ h. cc))

-- Where NewConfig accepts the environment and the transport is websocket, the subscriber refuses
-- its configuration exactly when the list of events that GITHUB_EVENTS gives is empty.
pub validate-subscriber_config :
    (env : Env)
    → new_config env ≡ ok (read_vars env)
    → (read_vars env).webhook_transport ≡ "websocket"
    → IsErr (validate (subscriber_config (read_vars env)))
      ↔ (split_events (read_vars env).github_events ≡ [])
unfolding validate subscriber_config
validate-subscriber_config env accepted w =
    let vars = read_vars env in
    let valid = (new_config-IsValid env).0 accepted in
    elim valid.1 [
      | inl h ↦ absurd (two_transports (ap is_websocket (sym h ∙ w)))
      | inr (t, token, one) ↦ ground (
        arith,
        token,
        one,
        string_eq.beq_iff vars.github_token "",
        is_empty_iff (split_events vars.github_events),
      )
    ]
