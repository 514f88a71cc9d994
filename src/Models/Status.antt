-- ===== src/Models/Status.antt =====
-- models/status_priority.go, and the status constants of models/models.go.
use native.Mathlib.Nat.{ℕ_set}
use text.Mathlib.TextEquality.{IsScalar-prop}
use live_actions.Base.{
  ℕ, String, Bool, true, false, Option, none, some, ◌≡◌, ◌≤◌, ◌<◌, ◌==◌, string_eq, arith,
  if◌then◌else◌,
}

-- Go's `type JobStatus string`: a constructor for each declared constant, and `other` for any text
-- that is none of them.
pub data JobStatus : Type 0 where
  queued in_progress completed waiting requested cancelled stale : JobStatus
  other : String → JobStatus

-- The conversion `models.JobStatus(text)`.
unfoldable pub job_status : String → JobStatus
job_status s =
    if s == "queued"
    then queued
    else (if s == "in_progress"
        then in_progress
        else (if s == "completed"
            then completed
            else (if s == "waiting"
                then waiting
                else (if s == "requested"
                    then requested
                    else (if s == "cancelled"
                        then cancelled
                        else (if s == "stale" then stale else other s))))))

-- The conversion `string(status)`.
unfoldable pub status_text : JobStatus → String
status_text queued = "queued"
status_text in_progress = "in_progress"
status_text completed = "completed"
status_text waiting = "waiting"
status_text requested = "requested"
status_text cancelled = "cancelled"
status_text stale = "stale"
status_text (other s) = s

-- Go's `==` on statuses.
unfoldable pub status_eq : JobStatus → JobStatus → Bool
unfolding status_text
status_eq s t = status_text s == status_text t

-- `(p, true)` is `some p`, and `(0, false)` is `none`.
unfoldable pub job_status_priority : JobStatus → Option ℕ
job_status_priority waiting = some 1
job_status_priority queued = some 2
job_status_priority requested = some 3
job_status_priority in_progress = some 4
job_status_priority completed = some 5
job_status_priority cancelled = some 5
job_status_priority stale = some 5
job_status_priority (other s) = none

unfoldable pub run_status_priority : JobStatus → Option ℕ
run_status_priority requested = some 1
run_status_priority in_progress = some 2
run_status_priority completed = some 3
run_status_priority cancelled = some 3
run_status_priority _ = none

unfoldable pub is_terminal_job_status : JobStatus → Bool
is_terminal_job_status completed = true
is_terminal_job_status cancelled = true
is_terminal_job_status stale = true
is_terminal_job_status _ = false

unfoldable pub is_terminal_run_status : JobStatus → Bool
is_terminal_run_status completed = true
is_terminal_run_status cancelled = true
is_terminal_run_status _ = false

-- What the stores rely on: the two functions of a kind of row, and their laws.
pub record Lifecycle : Type 0 where
  pub priority : JobStatus → Option ℕ
  pub is_terminal : JobStatus → Bool
  pub top : ℕ
  pub priority-terminal : (s : JobStatus) → is_terminal s ≡ true → priority s ≡ some top
  pub terminal_of_top : (s : JobStatus) → priority s ≡ some top → is_terminal s ≡ true
  pub priority-le-top : (s : JobStatus) (p : ℕ) → priority s ≡ some p → p ≤ top
  pub priority_pos : (s : JobStatus) (p : ℕ) → priority s ≡ some p → 0 < p
  pub priority_inj :
      (s t : JobStatus) (p : ℕ) → priority s ≡ some p → priority t ≡ some p → p < top → s ≡ t

pub job-terminal :
    (s : JobStatus) → is_terminal_job_status s ≡ true → job_status_priority s ≡ some 5
unfolding is_terminal_job_status job_status_priority
job-terminal s h = ground arith

pub job-top : (s : JobStatus) → job_status_priority s ≡ some 5 → is_terminal_job_status s ≡ true
unfolding is_terminal_job_status job_status_priority
job-top s h = ground arith

pub job-le : (s : JobStatus) (p : ℕ) → job_status_priority s ≡ some p → p ≤ 5
unfolding job_status_priority
job-le s p h = ground arith

pub job_pos : (s : JobStatus) (p : ℕ) → job_status_priority s ≡ some p → 0 < p
unfolding job_status_priority
job_pos s p h = ground arith

pub job_inj :
    (s t : JobStatus) (p : ℕ)
    → job_status_priority s ≡ some p
    → job_status_priority t ≡ some p
    → p < 5
    → s ≡ t
unfolding job_status_priority
job_inj s t p h k l = ground arith

pub run-terminal :
    (s : JobStatus) → is_terminal_run_status s ≡ true → run_status_priority s ≡ some 3
unfolding is_terminal_run_status run_status_priority
run-terminal s h = ground arith

pub run-top : (s : JobStatus) → run_status_priority s ≡ some 3 → is_terminal_run_status s ≡ true
unfolding is_terminal_run_status run_status_priority
run-top s h = ground arith

pub run-le : (s : JobStatus) (p : ℕ) → run_status_priority s ≡ some p → p ≤ 3
unfolding run_status_priority
run-le s p h = ground arith

pub run_pos : (s : JobStatus) (p : ℕ) → run_status_priority s ≡ some p → 0 < p
unfolding run_status_priority
run_pos s p h = ground arith

pub run_inj :
    (s t : JobStatus) (p : ℕ)
    → run_status_priority s ≡ some p
    → run_status_priority t ≡ some p
    → p < 3
    → s ≡ t
unfolding run_status_priority
run_inj s t p h k l = ground arith

unfoldable pub job_lifecycle : Lifecycle
unfolding job_status_priority is_terminal_job_status
job_lifecycle = record {
  priority = job_status_priority;
  is_terminal = is_terminal_job_status;
  top = 5;
  priority-terminal = job-terminal;
  terminal_of_top = job-top;
  priority-le-top = job-le;
  priority_pos = job_pos;
  priority_inj = job_inj;
}

unfoldable pub run_lifecycle : Lifecycle
unfolding run_status_priority is_terminal_run_status
run_lifecycle = record {
  priority = run_status_priority;
  is_terminal = is_terminal_run_status;
  top = 3;
  priority-terminal = run-terminal;
  terminal_of_top = run-top;
  priority-le-top = run-le;
  priority_pos = run_pos;
  priority_inj = run_inj;
}

-- The text of the status that a text is converted to is that text.
pub status_text-job_status : (s : String) → status_text (job_status s) ≡ s
unfolding status_text job_status
status_text-job_status s = ground (
  arith,
  string_eq.beq_iff s "queued",
  string_eq.beq_iff s "in_progress",
  string_eq.beq_iff s "completed",
  string_eq.beq_iff s "waiting",
  string_eq.beq_iff s "requested",
  string_eq.beq_iff s "cancelled",
  string_eq.beq_iff s "stale",
)

pub JobStatus-set : IsSet JobStatus
JobStatus-set = hlevel (IsScalar-prop, ℕ_set)
