-- ===== src/Sse/Laws.antt =====
-- About sequences of operations of handlers/sse_handler.go.
use live_actions.Base.{
  ℕ, ◌≡◌, refl, ap, ◌∙◌, String, Option, some, List, [], ◌∷◌, nat_eq, string_eq, ◌==◌,
  if◌then◌else◌,
}
use live_actions.Base.Table.{lookup, lookup-upsert}
use live_actions.Models.{Time, Bytes}
use live_actions.Sse.{
  SseEvent, Sse, Hub, Round, send_event, send_event_coalesced, connect, handle_round, submit, tick,
  stop,
}

-- What can happen to the handler: a client connects, a round of a client's loop, an event that is
-- sent at once or submitted, and a tick and the stop of the coalescer.
pub data Step : Type 0 where
  connects : Time → Step
  rounds : ℕ → Round → Step
  sends submits : SseEvent → Step
  ticks stops : Step

module _ (marshal : SseEvent → Option Bytes) where
  unfoldable pub step : Step → Hub → Hub
  unfolding connect handle_round send_event send_event_coalesced tick stop
  step (connects now) hub = record hub { sse = (connect marshal now hub.sse).2 }
  step (rounds id r) hub = record hub { sse = (handle_round marshal id r hub.sse).1 }
  step (sends event) hub = send_event event hub
  step (submits event) hub = send_event_coalesced event hub
  step ticks hub = tick hub
  step stops hub = stop hub

  unfoldable pub steps : List Step → Hub → Hub
  unfolding step
  steps [] hub = hub
  steps (a ∷ actions) hub = steps actions (step a hub)

unfoldable pub submit_all : List SseEvent → Sse → Sse
unfolding submit
submit_all [] h = h
submit_all (event ∷ events) h = submit_all events (submit event h)

-- The last event of a type in a sequence.
abbrev pub latest : String → Option SseEvent → List SseEvent → Option SseEvent
latest kind known [] = known
latest kind known (event ∷ events) =
    latest kind (if event.kind == kind then some event else known) events

-- After any submissions, what the coalescer holds of a type is the last event of the type
-- submitted, or what it held before if there is none.
pub lookup-submit_all :
    (events : List SseEvent) (h : Sse) (kind : String)
    → lookup kind (submit_all events h).pending ≡ latest kind (lookup kind h.pending) events
unfolding submit_all
lookup-submit_all [] h kind = refl
lookup-submit_all (event ∷ events) h kind =
    lookup-submit_all events (submit event h) kind
    ∙ ap (λ known. latest kind known events) (lookup-upsert event.kind kind event h.pending)
