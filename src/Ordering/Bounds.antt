-- ===== src/Ordering/Bounds.antt =====
-- About the sizes of the two buffers of internal/services/event_ordering_service.go.
use live_actions.Base.{suc, ◌<◌, ◌≤◌, ◌≡◌, refl, List, [], ◌∷◌, length, length-append, ap, arith}
use live_actions.Models.{OrderedEvent}
use live_actions.Handlers.{App, Handling}
use live_actions.Ordering.{
  Service, Wake, new_service, add_event, flush_spill, process, take_event, receive, receive_from,
  drain_from, drain,
}

pub record IsBounded (s : Service) : Type 0 where
  pub queue_fits : length s.ingest_ch ≤ s.capacity
  pub spill_fits : length s.spill < s.ingest_batch_size

pub new_service-IsBounded : (app : App) → IsBounded (new_service app)
unfolding new_service
new_service-IsBounded app = omega arith

pub add_event-IsBounded :
    (wake : Wake) (event : OrderedEvent) (s : Service)
    → IsBounded s
    → IsBounded (add_event wake event s).1
unfolding add_event
add_event-IsBounded wake event s v = ground (arith, length-append s.ingest_ch (event ∷ []))

-- An event that is processed stays at most in the spill.
pub record Same (s t : Service) : Type 0 where
  pub ingest_ch : t.ingest_ch ≡ s.ingest_ch
  pub capacity : t.capacity ≡ s.capacity
  pub ingest_batch_size : t.ingest_batch_size ≡ s.ingest_batch_size

flush_spill-Same : (s : Service) → Same s (flush_spill s)
unfolding flush_spill
flush_spill-Same s = ground arith

spill-flush_spill : (s : Service) → (flush_spill s).spill ≡ []
unfolding flush_spill
spill-flush_spill s = refl

pub flush_spill-IsBounded : (s : Service) → IsBounded s → IsBounded (flush_spill s)
flush_spill-IsBounded s v = ground (arith, flush_spill-Same s, spill-flush_spill s)

module _ (process_func : OrderedEvent → Handling (Unit {0})) where
  process-Same : (event : OrderedEvent) (s : Service) → Same s (process process_func event s)
  unfolding process
  process-Same event s = ground arith

  spill-process-le :
      (event : OrderedEvent) (s : Service)
      → length (process process_func event s).spill ≤ suc (length s.spill)
  unfolding process
  spill-process-le event s = ground (arith, length-append s.spill (event ∷ []))

  pub take_event-Same :
      (event : OrderedEvent) (s : Service) → Same s (take_event process_func event s)
  unfolding take_event
  take_event-Same event s =
      let p = process process_func event s in
      ground (arith, process-Same event s, flush_spill-Same p)

  take_event-IsBounded :
      (event : OrderedEvent) (s : Service)
      → IsBounded s
      → IsBounded (take_event process_func event s)
  unfolding take_event
  take_event-IsBounded event s v =
      let p = process process_func event s in
      ground (
        arith,
        process-Same event s,
        spill-process-le event s,
        flush_spill-Same p,
        spill-flush_spill p,
      )

  pub receive-IsBounded : (s : Service) → IsBounded s → IsBounded (receive process_func s)
  unfolding receive
  receive-IsBounded s v = receive_from-IsBounded s.ingest_ch refl
    where
      receive_from-IsBounded :
          (ch : List OrderedEvent) → s.ingest_ch ≡ ch → IsBounded (receive_from process_func ch s)
      receive_from-IsBounded [] e = v
      receive_from-IsBounded (event ∷ rest) e =
          take_event-IsBounded event (record s { ingest_ch = rest })
            (record {
              queue_fits = omega (arith, v.queue_fits, ap length e);
              spill_fits = v.spill_fits;
            })

  drain_from-empty :
      (rest : List OrderedEvent) (s : Service)
      → s.ingest_ch ≡ rest
      → ((drain_from process_func rest s).ingest_ch ≡ [])
        × ((drain_from process_func rest s).spill ≡ [])
  unfolding drain_from
  drain_from-empty [] s e = ground (arith, flush_spill-Same s, spill-flush_spill s)
  drain_from-empty (event ∷ rest) s e =
      drain_from-empty rest (take_event process_func event (record s { ingest_ch = rest }))
        (take_event-Same event (record s { ingest_ch = rest })).ingest_ch

  -- When the ingest worker has drained after the cancellation, the channel and the spill buffer
  -- are empty.
  pub drain_empties :
      (s : Service) → ((drain process_func s).ingest_ch ≡ []) × ((drain process_func s).spill ≡ [])
  unfolding drain
  drain_empties s = drain_from-empty s.ingest_ch s refl
