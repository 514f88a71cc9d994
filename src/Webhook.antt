-- ===== src/Webhook.antt =====
-- handlers/webhook_handler.go: signature validation, Ingest and Handle.
pub mod Encoding
pub mod Laws
pub mod Ingest
use live_actions.Base.{
  ℕ, zero, suc, ◌+◌, ◌*◌, ◌/◌, ◌%◌, ◌≤◌, String, Bool, true, false, not, ◌&&◌, ◌||◌, Option, none,
  some, List, [], ◌∷◌, ◌++◌, drop, take, length, ltb, leb, nat_beq, nat_eq, string_eq, ◌==◌,
  if◌then◌else◌,
}
use live_actions.Base.Table.{lookup}
use live_actions.Models.{Time, Bytes, WorkflowJobEvent, WorkflowRunEvent, OrderedEvent}
use live_actions.Models.Status.{job_status, job_status_priority, run_status_priority}
use live_actions.Failure.{Error, err_ingest_queue_full, canceled, is_queue_full, Result, ok, err}
use live_actions.Metrics.{Registry, count_webhook_event}
use live_actions.Handlers.{App, Decoder, Handler, job_handler, run_handler, handlers}
use live_actions.Ordering.{Service, Wake, add_event}
use Encoding.{
  hex_encode, hex_decode, query_unescape, has_prefix, bytes_eq, decimal, payload_prefix,
  sha256_prefix, append_text,
}

-- What a handler or a middleware answers.
pub record Response : Type 0 where
  pub status : ℕ
  pub message : String

-- `abort` ends the chain; `next` hands the event type to the handler.
pub data Verdict : Type 0 where
  abort : Response → Verdict
  next : String → Verdict

-- How reading the body ends, apart from its length.
pub data Body : Type 0 where
  whole : Bytes → Body
  broken : Body

pub record Request : Type 0 where
  pub signature : Bytes
  pub event : String
  pub delivery : String
  pub body : Body

abbrev reply : ℕ → String → Response
reply status message = record { status = status; message = message }

abbrev pub max_body_size : ℕ
max_body_size = 10485760

-- The part of the signature header after "sha256=", if it has that prefix and more.
unfoldable pub signature_hash : Bytes → Bytes
unfolding bytes_eq
signature_hash signature =
    if ltb 7 (length signature) && bytes_eq (take 7 signature) sha256_prefix
    then drop 7 signature
    else signature

abbrev check_event : String → Verdict
check_event event = if event == "" then abort (reply 400 "Missing event type") else next event

abbrev check_hash : Bytes → Option Bytes → String → Verdict
check_hash expected none event = abort (reply 401 "Invalid signature format")
check_hash expected (some received) event =
    if bytes_eq expected received then check_event event else abort (reply 401 "Invalid signature")

-- `hex.DecodeString(hex.EncodeToString(mac))`
abbrev check_expected : Option Bytes → Request → Verdict
check_expected none req = abort (reply 500 "Failed to validate signature")
check_expected (some expected) req =
    check_hash expected (hex_decode (signature_hash req.signature)) req.event

-- `hmac` is HMAC-SHA256 of Go's library.
module _ (hmac : Bytes → Bytes → Bytes) where
  abbrev check_body : Bytes → Request → Body → Verdict
  check_body secret req broken = abort (reply 500 "Failed to read request body")
  check_body secret req (whole body) =
      if ltb max_body_size (length body)
      then abort (reply 413 "Request body too large")
      else check_expected (hex_decode (hex_encode (hmac secret body))) req

  unfoldable pub validate_github_webhook : Bytes → Request → Verdict
  unfolding hex_encode hex_decode signature_hash bytes_eq
  validate_github_webhook secret req =
      if nat_beq (length secret) 0
      then abort (reply 500 "Webhook secret not configured")
      else (if nat_beq (length req.signature) 0
          then abort (reply 401 "Missing signature header")
          else check_body secret req req.body)

-- The three extractions of a handler, each of which decodes the payload; `none` is its error.
module _ (d : Decoder) where
  unfoldable pub extract_event_timestamp : Handler → Bytes → Option Time
  extract_event_timestamp job_handler payload = elim (d.job_event payload) [
    | none ↦ none
    | some e ↦ some e.workflow_job.created_at
  ]
  extract_event_timestamp run_handler payload = elim (d.run_event payload) [
    | none ↦ none
    | some e ↦ some e.workflow_run.created_at
  ]

  unfoldable pub extract_ordering_key : Handler → Bytes → Option String
  unfolding decimal
  extract_ordering_key job_handler payload = elim (d.job_event payload) [
    | none ↦ none
    | some e ↦ some (append_text "job_" (decimal e.workflow_job.id))
  ]
  extract_ordering_key run_handler payload = elim (d.run_event payload) [
    | none ↦ none
    | some e ↦ some (append_text "run_" (decimal e.workflow_run.id))
  ]

  abbrev or_zero : Option ℕ → ℕ
  or_zero none = 0
  or_zero (some p) = p

  unfoldable pub get_status_priority : Handler → Bytes → Option ℕ
  unfolding job_status job_status_priority run_status_priority
  get_status_priority job_handler payload = elim (d.job_event payload) [
    | none ↦ none
    | some e ↦ some (or_zero (job_status_priority (job_status e.action)))
  ]
  get_status_priority run_handler payload = elim (d.run_event payload) [
    | none ↦ none
    | some e ↦ some (or_zero (run_status_priority (job_status e.action)))
  ]

  abbrev counting : String → String → Service → Service
  counting event_type outcome s = record s {
    app = record s.app { registry = count_webhook_event event_type outcome s.app.registry };
  }

  abbrev rejected : String → ℕ → String → String → Service → Response × Service
  rejected outcome status message event_type s =
      (reply status message, counting event_type outcome s)

  abbrev enqueued : String → Result (Unit {0}) × Service → Response × Service
  enqueued event_type (ok _, s) = rejected "accepted" 202 "Event queued for processing" event_type s
  enqueued event_type (err e, s) =
      if is_queue_full e
      then rejected "rejected_queue_full" 503 "Server overloaded; manual redelivery required"
          event_type s
      else rejected "rejected_invalid" 500 "Failed to process event" event_type s

  unfoldable pub ordered_event : String → String → Bytes → Time → Time → String → ℕ → OrderedEvent
  ordered_event event_type delivery_id payload timestamp now key priority = record {
    sequence = record {
      event_id = delivery_id;
      sequence_id = 0;
      timestamp = timestamp;
      delivery_id = delivery_id;
      received_at = now;
    };
    event_type = event_type;
    raw_payload = some payload;
    processed_at = none;
    ordering_key = key;
    status_priority = priority;
    persisted = false;
  }

  abbrev with_priority :
      Wake → String → String → Bytes → Time → String → Option ℕ → Service → Response × Service
  with_priority wake event_type delivery_id payload timestamp key none s =
      rejected "rejected_invalid" 400 "Failed to extract status priority" event_type s
  with_priority wake event_type delivery_id payload timestamp key (some priority) s =
      enqueued event_type (
        add_event wake
          (ordered_event event_type delivery_id payload timestamp s.app.db.now key priority) s)

  abbrev with_key :
      Wake → String → String → Bytes → Handler → Time → Option String → Service → Response × Service
  with_key wake event_type delivery_id payload h timestamp none s =
      rejected "rejected_invalid" 400 "Failed to extract ordering key" event_type s
  with_key wake event_type delivery_id payload h timestamp (some key) s =
      with_priority wake event_type delivery_id payload timestamp key
        (get_status_priority h payload) s

  abbrev with_time :
      Wake → String → String → Bytes → Handler → Option Time → Service → Response × Service
  with_time wake event_type delivery_id payload h none s =
      rejected "rejected_invalid" 400 "Failed to extract event timestamp" event_type s
  with_time wake event_type delivery_id payload h (some timestamp) s =
      with_key wake event_type delivery_id payload h timestamp (extract_ordering_key h payload) s

  abbrev with_handler :
      Wake → String → String → Bytes → Option Handler → Service → Response × Service
  with_handler wake event_type delivery_id payload none s =
      rejected "ignored" 200 "Event type not supported" event_type s
  with_handler wake event_type delivery_id payload (some h) s =
      with_time wake event_type delivery_id payload h (extract_event_timestamp h payload) s

  abbrev with_payload : Wake → String → String → Bytes → Service → Response × Service
  with_payload wake event_type delivery_id payload s =
      if d.is_object payload
      then with_handler wake event_type delivery_id payload (lookup event_type handlers) s
      else (reply 400 "Invalid JSON payload", s)

  abbrev with_form : Wake → String → String → Option Bytes → Service → Response × Service
  with_form wake event_type delivery_id none s =
      (reply 400 "Failed to decode URL-encoded payload", s)
  with_form wake event_type delivery_id (some decoded) s =
      if has_prefix decoded payload_prefix
      then with_payload wake event_type delivery_id (drop 8 decoded) s
      else (reply 400 "Invalid URL-encoded payload format", s)

  unfoldable pub ingest : Wake → String → String → Bytes → Service → Response × Service
  unfolding extract_event_timestamp extract_ordering_key get_status_priority ordered_event add_event
      is_queue_full query_unescape has_prefix lookup handlers
  ingest wake event_type delivery_id body s =
      if event_type == ""
      then (reply 400 "Missing event type", s)
      else (if delivery_id == ""
          then (reply 400 "Missing delivery ID", s)
          else (if has_prefix body payload_prefix
              then with_form wake event_type delivery_id (query_unescape body) s
              else with_payload wake event_type delivery_id body s))

  -- Handle, behind ValidateGitHubWebhook: the route POST /webhook.
  module _ (hmac : Bytes → Bytes → Bytes) where
    abbrev handled : Wake → Request → Verdict → Body → Service → Response × Service
    handled wake req (abort r) body s = (r, s)
    handled wake req (next event_type) broken s = (reply 400 "Failed to read request body", s)
    handled wake req (next event_type) (whole body) s = ingest wake event_type req.delivery body s

    unfoldable pub post_webhook : Bytes → Wake → Request → Service → Response × Service
    unfolding ingest validate_github_webhook
    post_webhook secret wake req s =
        handled wake req (validate_github_webhook hmac secret req) req.body s
