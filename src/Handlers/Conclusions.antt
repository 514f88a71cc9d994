-- ===== src/Handlers/Conclusions.antt =====
-- About the conclusions that handleJobStatusTransition (handlers/workflow_job_handler.go) records.
use live_actions.Base.{
  ℕ, ◌+◌, ◌≤◌, ◌≡◌, refl, ap, sym, ◌∙◌, inl, inr, ◌⊎◌, Bool, true, false, some, length, count,
  arith, string_eq, Option-cases, Bool-cases, nat_eq,
}
use live_actions.Base.Table.{lookup, count-upsert, one_if, holds}
use live_actions.Models.{Bytes, WorkflowJob, Time, EventSequence, OrderedEvent}
use live_actions.Models.Status.{
  JobStatus, queued, in_progress, completed, waiting, requested, cancelled, stale, other,
  job_status, job_status_priority, run_status_priority, job_lifecycle, status_eq, status_text,
  is_terminal_job_status,
}
use live_actions.Failure.{Result, ok, err, IsErr}
use live_actions.Metrics.{Registry}
use live_actions.Database.{Db, JobRow}
use live_actions.Database.Transition.{admits, admits-terminal, rank}
use live_actions.Database.Jobs.{get_workflow_job_by_id, job_status_of, job_row, add_or_update_job}
use live_actions.Database.Jobs.Refinement.{add_or_update_job-Ends}
use live_actions.Database.Runs.{add_or_update_run}
use live_actions.Database.Events.{mark_event_processed, mark_event_failed}
use live_actions.Handlers.{
  App, Decoder, Handler, job_handler, run_handler, handle_event, handle_job_status_transition,
  process_ordered_event, handlers, payload_of, previous_status, save_result, finish,
}
use live_actions.Handlers.Effect.{
  get_workflow_job_by_id-jobs, add_or_update_run-jobs, mark_processed-jobs, mark_failed-jobs,
}

abbrev is_completed : JobStatus → Bool
is_completed completed = true
is_completed _ = false

abbrev row_completed : JobRow → Bool
row_completed row = is_completed row.status

-- How many jobs are completed.
abbrev pub completed_jobs : Db → ℕ
completed_jobs db = count (λ (r : ℕ × JobRow). row_completed r.1) db.jobs

-- How many conclusions the metrics have counted.
abbrev pub conclusions : Registry → ℕ
conclusions r = length r.job_conclusions_total

-- No more conclusions are added than jobs become completed.
abbrev pub Once : App → App → Type 0
Once a b =
    conclusions b.registry + completed_jobs a.db ≤ conclusions a.registry + completed_jobs b.db

transition-conclusions :
    (previous current : JobStatus) (job : WorkflowJob) (r : Registry)
    → conclusions (handle_job_status_transition previous current job r)
      ≤ conclusions r + one_if (status_eq current completed)
unfolding handle_job_status_transition
transition-conclusions previous current job r = ground arith

completed_of :
    (s : JobStatus) (p : ℕ)
    → job_status_priority s ≡ some p
    → one_if (status_eq s completed) ≡ one_if (is_completed s)
unfolding job_status_priority status_eq status_text
completed_of queued p h = refl
completed_of in_progress p h = refl
completed_of completed p h = refl
completed_of waiting p h = refl
completed_of requested p h = refl
completed_of cancelled p h = refl
completed_of stale p h = refl
completed_of (other s) p h = absurd (cc)

completed_iff : (s : JobStatus) → is_completed s ≡ true → s ≡ completed
completed_iff s h = ground (arith, h)

-- The row that an upsert replaces is not completed.
not_completed :
    (id : ℕ) (db : Db) (incoming : JobStatus) (p : ℕ)
    → admits job_lifecycle (job_status_of id db) incoming p ≡ true
    → holds row_completed (lookup id db.jobs) ≡ false
unfolding job_status_of job_lifecycle is_terminal_job_status
not_completed id db incoming p h = elim (Option-cases (lookup id db.jobs)) [
  | inl n ↦ rw n refl
  | inr (row, e) ↦ elim (Bool-cases (is_completed row.status)) [
    | inr n ↦ rw (e, n) refl
    | inl y ↦
        let same : job_status_of id db ≡ some completed = rw (e, completed_iff row.status y) refl in
        absurd (ground (arith, h, same, admits-terminal job_lifecycle completed incoming p refl))
  ]
]

write_completes :
    (job : WorkflowJob) (t : Time) (db : Db)
    → (completed_jobs (add_or_update_job job t db).1
        ≡ completed_jobs db + one_if (is_completed job.status))
      ⊎ ((completed_jobs (add_or_update_job job t db).1 ≡ completed_jobs db)
          × (((add_or_update_job job t db).0 ≡ ok false) ⊎ IsErr (add_or_update_job job t db).0))
unfolding job_row
write_completes job t db = elim (add_or_update_job-Ends job t db) [
  | inl w ↦
      let old = not_completed job.id db job.status (rank job_lifecycle (some job.status)) w.1 in
      let written = count-upsert row_completed job.id (job_row db.now job) db.jobs in
      inl (ap (λ (d : Db). completed_jobs d) w.3 ∙ ground (arith, old, written))
  | inr (inl r) ↦ inr (ap (λ (d : Db). completed_jobs d) r.2, inl r.0)
  | inr (inr f) ↦ inr (ap (λ (d : Db). completed_jobs d) f.1, inr f.0)
]

pub completed_jobs-kept : (a b : Db) → b.jobs ≡ a.jobs → completed_jobs b ≡ completed_jobs a
completed_jobs-kept a b e = ap (count (λ (r : ℕ × JobRow). row_completed r.1)) e

-- What a job's update adds, where `out` is how AddOrUpdateJob ends.
Once-after_update :
    (previous : JobStatus) (job : WorkflowJob) (p : ℕ) (out : Result Bool × Db) (before : ℕ)
    (app : App)
    → job_status_priority job.status ≡ some p
    → (completed_jobs out.1 ≡ before + one_if (is_completed job.status))
      ⊎ ((completed_jobs out.1 ≡ before) × ((out.0 ≡ ok false) ⊎ IsErr out.0))
    → let app' = (save_result previous job out app).1 in
      conclusions app'.registry + before ≤ conclusions app.registry + completed_jobs app'.db
Once-after_update previous job p (ok true, db) before app known (inl e) = omega (
  arith,
  e,
  completed_of job.status p known,
  transition-conclusions previous job.status job app.registry,
)
Once-after_update previous job p (ok true, db) before app known (inr (e, inl f)) = absurd (cc)
Once-after_update previous job p (ok true, db) before app known (inr (e, inr f)) = absurd f
Once-after_update previous job p (ok false, db) before app known (inl e) = omega (arith, e)
Once-after_update previous job p (ok false, db) before app known (inr (e, f)) = omega (arith, e)
Once-after_update previous job p (err x, db) before app known (inl e) = omega (arith, e)
Once-after_update previous job p (err x, db) before app known (inr (e, f)) = omega (arith, e)

module _ (d : Decoder) where
  Once-handle_event :
      (h : Handler) (payload : Bytes) (sequence : EventSequence) (app : App)
      → Once app (handle_event d h payload sequence app).1
  unfolding handle_event
  Once-handle_event job_handler payload sequence app = elim (Option-cases (d.job_event payload)) [
    | inl n ↦ rw n (ground arith)
    | inr (event, e) ↦ elim (Option-cases (job_status_priority (job_status event.action))) [
      | inl n ↦ rw (e, n) (ground arith)
      | inr (p, q) ↦
          let job = record event.workflow_job { status = job_status event.action } in
          let loaded = get_workflow_job_by_id job.id app.db in
          let kept =
            completed_jobs-kept app.db loaded.1 (get_workflow_job_by_id-jobs job.id app.db) in
          rw (e, q)
            (rw (sym kept) (
              Once-after_update (previous_status loaded.0) job p
                (add_or_update_job job sequence.timestamp loaded.1) (completed_jobs loaded.1)
                (record app { db = loaded.1 }) q (write_completes job sequence.timestamp loaded.1)))
    ]
  ]
  Once-handle_event run_handler payload sequence app = elim (Option-cases (d.run_event payload)) [
    | inl n ↦ rw n (ground arith)
    | inr (event, e) ↦ elim (Option-cases (run_status_priority (job_status event.action))) [
      | inl n ↦ rw (e, n) (ground arith)
      | inr (p, q) ↦
          let run = record event.workflow_run {
            status = job_status event.action;
            repository_name = event.repository.name;
          } in
          rw (e, q)
            (ground (
              arith,
              completed_jobs-kept app.db (add_or_update_run run sequence.timestamp app.db).1
                  (add_or_update_run-jobs run sequence.timestamp app.db),
            ))
    ]
  ]

  -- The mark of a persisted event's row touches no job.
  Once-finish :
      (event : OrderedEvent) (a : App) (out : Result (Unit {0}) × App)
      → Once a out.1
      → Once a (finish d event out).1
  Once-finish event a (err e, app) h = elim (Bool-cases event.persisted) [
    | inr n ↦ rw n h
    | inl y ↦
        let id = event.sequence.delivery_id in
        rw
          (
            y,
            completed_jobs-kept app.db (mark_event_failed id app.db).1 (mark_failed-jobs id app.db),
          )
          h
  ]
  Once-finish event a (ok _, app) h = elim (Bool-cases event.persisted) [
    | inr n ↦ rw n h
    | inl y ↦
        let id = event.sequence.delivery_id in
        rw
          (
            y,
            completed_jobs-kept app.db (mark_event_processed id app.db).1
                (mark_processed-jobs id app.db),
          )
          h
  ]

  -- Processing an event records at most as many conclusions as it completes jobs, whatever fails.
  pub Once-process_ordered_event :
      (event : OrderedEvent) (app : App) → Once app (process_ordered_event d event app).1
  unfolding process_ordered_event
  Once-process_ordered_event event app = elim (Option-cases (lookup event.event_type handlers)) [
    | inl n ↦ rw n (omega arith)
    | inr (h, e) ↦
        let payload = payload_of d event.raw_payload in
        rw e (
          Once-finish event app (handle_event d h payload event.sequence app)
            (Once-handle_event h payload event.sequence app))
  ]
