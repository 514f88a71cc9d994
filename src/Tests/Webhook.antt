-- ===== src/Tests/Webhook.antt =====
-- Signatures, and deliveries to Ingest.
use live_actions.Base.{
  ◌≡◌, ◌↔◌, ◌⊎◌, refl, string_eq, true, false, some, [], ◌∷◌, ◌++◌, length, ◌<◌, arith,
}
use live_actions.Base.Table.{lookup, upsert}
use live_actions.Base.Text.{codes}
use live_actions.Models.{Bytes}
use live_actions.Models.Status.{job_status, job_status_priority}
use live_actions.Handlers.{handlers, job_handler}
use live_actions.Ordering.{Service, timed_out, new_service}
use live_actions.Webhook.{
  Request, next, whole, validate_github_webhook, extract_event_timestamp, extract_ordering_key,
  get_status_priority, ingest,
}
use live_actions.Webhook.Encoding.{query_unescape, has_prefix, payload_prefix, decimal}
use live_actions.Webhook.Laws.{Passes, validate_iff}
use live_actions.Webhook.Ingest.{
  carried, Accepted, Declined, ingest_outcome, IsAcceptable, ingest_iff,
}
use live_actions.Tests.Samples.{new_app, decoder}

-- A stand-in for the MAC: the bytes of the secret and of the body.
abbrev mac : Bytes → Bytes → Bytes
mac secret body = secret ++ body

abbrev request : Request
request = record {
  signature = codes "sha256=0102";
  event = "workflow_job";
  delivery = "a";
  body = whole (2 ∷ []);
}

validate_iff_example :
    (validate_github_webhook mac (1 ∷ []) request ≡ next "workflow_job")
    ↔ Passes mac (1 ∷ []) request "workflow_job" (2 ∷ [])
validate_iff_example =
    validate_iff mac (1 ∷ []) request "workflow_job" (2 ∷ []) ((omega arith, (omega arith, tt)))
      refl

abbrev service : Service
service = new_service new_app

ingest_outcome_example :
    Accepted "workflow_job" "a"
      (carried (1 ∷ []))
      service
      (ingest decoder timed_out "workflow_job" "a" (1 ∷ []) service)
    ⊎ Declined service (ingest decoder timed_out "workflow_job" "a" (1 ∷ []) service)
ingest_outcome_example = ingest_outcome decoder timed_out "workflow_job" "a" (1 ∷ []) service

abbrev form : Bytes
form = codes "payload=%01"

abbrev unescaped : Bytes
unescaped = payload_prefix ++ 1 ∷ []

form_prefix : has_prefix form payload_prefix ≡ true
unfolding has_prefix
form_prefix = refl

form_decodes : query_unescape form ≡ some unescaped
unfolding query_unescape
form_decodes = refl

plain : has_prefix (1 ∷ []) payload_prefix ≡ false
unfolding has_prefix
plain = refl

job_key : extract_ordering_key decoder job_handler (1 ∷ []) ≡ some "job_7"
unfolding extract_ordering_key decimal
job_key = refl

job_priority : get_status_priority decoder job_handler (1 ∷ []) ≡ some 2
unfolding get_status_priority job_status job_status_priority
job_priority = refl

job_time : extract_event_timestamp decoder job_handler (1 ∷ []) ≡ some 1000
unfolding extract_event_timestamp
job_time = refl

job_registered : lookup "workflow_job" handlers ≡ some job_handler
unfolding lookup handlers upsert
job_registered = refl

ingest_iff_example :
    ((ingest decoder timed_out "workflow_job" "a" (1 ∷ []) service).0.status ≡ 202) ↔ (
      IsAcceptable decoder "workflow_job" "a" (1 ∷ [])
      × (length service.ingest_ch < service.capacity))
ingest_iff_example = ingest_iff decoder timed_out "workflow_job" "a" (1 ∷ []) service

sample-IsAcceptable : IsAcceptable decoder "workflow_job" "a" (1 ∷ [])
sample-IsAcceptable = (
  (λ e. let same : false ≡ true = (string_eq.beq_iff "workflow_job" "").1 e in absurd (cc)),
  (λ e. let same : false ≡ true = (string_eq.beq_iff "a" "").1 e in absurd (cc)),
  (
    1 ∷ [],
    rw plain refl,
    (refl, (job_handler, job_registered, (1000, job_time), ("job_7", job_key), (2, job_priority))),
  ),
)
