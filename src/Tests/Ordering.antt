-- ===== src/Tests/Ordering.antt =====
-- The ingest pipeline.
use live_actions.Base.{◌+◌, ◌≡◌, ◌↔◌, refl, string_eq, true, false, none, List, [], ◌∷◌}
use live_actions.Base.Table.{lookup, upsert}
use live_actions.Failure.{err_permanent, wrap, is_permanent, err}
use live_actions.Models.{OrderedEvent}
use live_actions.Database.Events.{put_event}
use live_actions.Handlers.{App, handlers, process_ordered_event}
use live_actions.Handlers.Outcome.{
  Settled, process_ordered_event-Settled, process_ordered_event-silent,
}
use live_actions.Handlers.Permanent.{process_ordered_event-permanent}
use live_actions.Ordering.{Service, timed_out, new_service, add_event}
use live_actions.Ordering.Schedule.{
  Action, adds, receives, ticks, run, run-IsBounded, held, failures, held-run,
}
use live_actions.Ordering.Bounds.{IsBounded}
use live_actions.Tests.Samples.{empty_db, new_app, decoder, event_of}

abbrev schedule : List Action
schedule =
    adds timed_out (event_of "a" 1)
    ∷ adds timed_out (event_of "b" 0)
    ∷ receives
    ∷ receives
    ∷ ticks
    ∷ []

run-IsBounded_example :
    IsBounded (run (process_ordered_event decoder) schedule (new_service new_app))
run-IsBounded_example = run-IsBounded (process_ordered_event decoder) schedule new_app

held-run_example :
    held (run (process_ordered_event decoder) schedule (new_service new_app))
    ≡ held (new_service new_app)
      + failures (process_ordered_event decoder) schedule (new_service new_app)
held-run_example =
    held-run (process_ordered_event decoder) (process_ordered_event-silent decoder) schedule
      (new_service new_app)

abbrev busy : Service
busy = (add_event timed_out (event_of "a" 1) (new_service new_app)).1

abbrev stored_app : App
stored_app = record new_app { db = put_event (event_of "a" 1) empty_db }

process_ordered_event-Settled_example :
    Settled (event_of "a" 1) stored_app (process_ordered_event decoder (event_of "a" 1) stored_app)
process_ordered_event-Settled_example =
    process_ordered_event-Settled decoder (event_of "a" 1) stored_app refl

abbrev hot_event : OrderedEvent
hot_event = record (event_of "a" 1) { persisted = false }

abbrev unknown_event : OrderedEvent
unknown_event = record (event_of "a" 1) { event_type = "ping" }

unknown_fails :
    (process_ordered_event decoder unknown_event new_app).0 ≡ err (wrap "event type" err_permanent)
unfolding process_ordered_event lookup handlers upsert
unknown_fails = refl

process_ordered_event-permanent_example :
    (is_permanent (wrap "event type" err_permanent) ≡ true) ↔ (lookup "ping" handlers ≡ none)
process_ordered_event-permanent_example =
    process_ordered_event-permanent decoder unknown_event new_app (wrap "event type" err_permanent)
      unknown_fails
