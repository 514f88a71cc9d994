-- ===== src/Sse.antt =====
-- handlers/sse_handler.go: the coalescer, the fan-out to connected clients and the loop that
-- serves one. Locks only serialise the operations, each of which is one step here.
pub mod Laws
pub mod Stream
pub mod Delivery
use live_actions.Base.{
  ℕ, suc, ◌+◌, ◌≤◌, String, Bool, true, false, not, Option, none, some, List, [], ◌∷◌, ◌++◌, map,
  filter, length, ltb, nat_eq, string_eq, ◌==◌, if◌then◌else◌,
}
use live_actions.Base.Table.{Table, lookup, upsert}
use live_actions.Models.{Time, Bytes, WorkflowUpdateEvent}
use live_actions.Metrics.{Registry, count_broadcast, count_dropped}

pub data Payload : Type 0 where
  metrics_update : (running queued : ℕ) → Time → Payload
  workflow_update : WorkflowUpdateEvent → Payload

pub record SseEvent : Type 0 where
  pub kind : String
  pub payload : Payload

-- A client's buffered channel, the oldest event first.
abbrev pub Buffer : Type 0
Buffer = List SseEvent

-- `subs` is keyed by the identity of the `*sseSubscriber`, which `next_id` keeps fresh.
pub record Sse : Type 0 where
  pub pending : Table String SseEvent
  pub subs : Table ℕ Buffer
  pub next_id : ℕ

abbrev pub subscriber_buffer_size : ℕ
subscriber_buffer_size = 100

abbrev pub new_sse : Sse
new_sse = record { pending = []; subs = []; next_id = 0 }

unfoldable pub subscribe : Sse → ℕ × Sse
subscribe h = (h.next_id, record h { subs = (h.next_id, []) ∷ h.subs; next_id = suc h.next_id })

unfoldable pub unsubscribe : ℕ → Sse → Sse
unsubscribe id h = record h { subs = filter (λ ((j, b) : ℕ × Buffer). not (j == id)) h.subs }

-- The non-blocking send to one client.
abbrev pub offer : SseEvent → Buffer → Buffer
offer event b = if ltb (length b) subscriber_buffer_size then b ++ event ∷ [] else b

abbrev pub offer_to : SseEvent → ℕ × Buffer → ℕ × Buffer
offer_to event (id, b) = (id, offer event b)

-- The drops that a fan-out counts.
unfoldable pub count_drops : SseEvent → Table ℕ Buffer → Registry → Registry
count_drops event [] r = r
count_drops event ((id, b) ∷ subs) r =
    count_drops event subs
      (if ltb (length b) subscriber_buffer_size then r else count_dropped event.kind r)

unfoldable pub send_event_now : SseEvent → Sse × Registry → Sse × Registry
unfolding count_drops
send_event_now event (h, r) = (
  record h { subs = map (offer_to event) h.subs },
  count_drops event h.subs (count_broadcast event.kind r),
)

-- `coalescer.submit`
unfoldable pub submit : SseEvent → Sse → Sse
unfolding upsert
submit event h = record h { pending = upsert event.kind event h.pending }

unfoldable pub send_all : Table String SseEvent → Sse × Registry → Sse × Registry
unfolding send_event_now
send_all [] s = s
send_all ((kind, event) ∷ events) s = send_all events (send_event_now event s)

-- `coalescer.flush`: Go's map gives its entries in an order that it does not specify.
unfoldable pub flush : Sse × Registry → Sse × Registry
unfolding send_all
flush (h, r) = send_all h.pending (record h { pending = [] }, r)

-- The client's loop receives from its channel.
abbrev head_of : Option Buffer → Option SseEvent
head_of none = none
head_of (some []) = none
head_of (some (e ∷ b)) = some e

abbrev rest_of : Buffer → Buffer
rest_of [] = []
rest_of (e ∷ b) = b

unfoldable pub receive : ℕ → Sse → Option SseEvent × Sse
unfolding lookup
receive id h = (
  head_of (lookup id h.subs),
  record h { subs = map (λ ((j, b) : ℕ × Buffer). (j, if j == id then rest_of b else b)) h.subs },
)

-- What HandleSSE writes to a client: the greeting, the JSON of an event, or the keepalive.
pub data Frame : Type 0 where
  connected ping : Time → Frame
  message : Bytes → Frame

-- What a round of its `select` finds: an event on the channel, the keepalive's ticker, or that the
-- client is gone.
pub data Round : Type 0 where
  takes leaves : Round
  pings : Time → Round

-- `marshal` is json.Marshal; `none` is its error, after which the loop goes on.
module _ (marshal : SseEvent → Option Bytes) where
  abbrev message_of : Option Bytes → List Frame
  message_of none = []
  message_of (some json) = message json ∷ []

  abbrev pub frames_of : Option SseEvent → List Frame
  frames_of none = []
  frames_of (some event) = message_of (marshal event)

  -- The start of HandleSSE: the client's id, and what is written to it.
  unfoldable pub connect : Time → Sse → ℕ × List Frame × Sse
  unfolding subscribe
  connect now h = let (id, h') = subscribe h in (id, connected now ∷ [], h')

  -- A round of its loop; one that takes waits until there is an event.
  unfoldable pub handle_round : ℕ → Round → Sse → List Frame × Sse
  unfolding receive unsubscribe
  handle_round id takes h = let (event, h') = receive id h in (frames_of event, h')
  handle_round id (pings now) h = (ping now ∷ [], h)
  handle_round id leaves h = ([], unsubscribe id h)

unfoldable pub subscriber_count : Sse → ℕ
subscriber_count h = length h.subs

-- The handler with the goroutine `run` of its coalescer, which ends when it is stopped.
pub record Hub : Type 0 where
  pub sse : Sse
  pub registry : Registry
  pub running : Bool

abbrev pub after_sending : Sse × Registry → Hub → Hub
after_sending (h, r) hub = record hub { sse = h; registry = r }

-- `case <-ticker.C` of `run`.
unfoldable pub tick : Hub → Hub
unfolding flush
tick hub = if hub.running then after_sending (flush (hub.sse, hub.registry)) hub else hub

-- `stop`, up to the end of `run`, which flushes once more; a second call does nothing.
unfoldable pub stop : Hub → Hub
unfolding tick
stop hub = record (tick hub) { running = false }

unfoldable pub send_event : SseEvent → Hub → Hub
unfolding send_event_now
send_event event hub = after_sending (send_event_now event (hub.sse, hub.registry)) hub

unfoldable pub send_event_coalesced : SseEvent → Hub → Hub
unfolding submit
send_event_coalesced event hub = record hub { sse = submit event hub.sse }

-- `InitSSEHandler`, which makes the handler once.
unfoldable pub init_sse_handler : Option Sse → Option Sse
init_sse_handler none = some new_sse
init_sse_handler (some h) = some h

-- `SendWorkflowUpdate` and `SendMetricsUpdate`, which do nothing before InitSSEHandler.
unfoldable pub send_workflow_update : WorkflowUpdateEvent → Option Sse → Option Sse
unfolding submit
send_workflow_update update none = none
send_workflow_update update (some h) =
    some (submit (record { kind = "workflow_update"; payload = workflow_update update }) h)

unfoldable pub send_metrics_update : ℕ → ℕ → Time → Option Sse → Option Sse
unfolding submit
send_metrics_update running queued now none = none
send_metrics_update running queued now (some h) =
    some
      (submit (record { kind = "metrics_update"; payload = metrics_update running queued now }) h)
