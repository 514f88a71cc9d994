-- ===== src/Failure.antt =====
-- Go's errors: the sentinels of internal/services/event_ordering_service.go, errors made elsewhere,
-- and wrapping by `fmt.Errorf("…: %w", err)`.
use live_actions.Base.{String, Bool, true, false, ◌≡◌, refl, ◌⊎◌, inl, inr}

pub data Error : Type 0 where
  err_permanent err_transient err_ingest_queue_full canceled driver : Error
  new : String → Error
  wrap : String → Error → Error

-- `errors.Is(err, ErrPermanent)`
unfoldable pub is_permanent : Error → Bool
is_permanent err_permanent = true
is_permanent (wrap message e) = is_permanent e
is_permanent _ = false

-- `errors.Is(err, ErrIngestQueueFull)`
unfoldable pub is_queue_full : Error → Bool
is_queue_full err_ingest_queue_full = true
is_queue_full (wrap message e) = is_queue_full e
is_queue_full _ = false

pub data Result {ℓ} (A : Type ℓ) : Type ℓ where
  ok : A → Result A
  err : Error → Result A

abbrev pub IsErr {ℓ} : {A : Type ℓ} → Result A → Type 0
IsErr (ok a) = ⊥
IsErr (err e) = Unit

pub Result-cases {ℓ} : {A : Type ℓ} (r : Result A) → ((a : A) × (r ≡ ok a)) ⊎ IsErr r
Result-cases (ok a) = inl (a, refl)
Result-cases (err e) = inr tt
