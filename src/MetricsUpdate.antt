-- ===== src/MetricsUpdate.antt =====
-- internal/services/metrics_update_service.go: the updates of the gauges.
use live_actions.Base.{
  ℕ, ◌≡◌, refl, ap, ◌∙◌, subst, inl, inr, String, Option, none, some, List, [], ◌∷◌, ◌++◌, count,
  nat_eq, string_eq, ◌==◌, Bool-cases,
}
use live_actions.Base.Table.{Table, lookup, upsert, lookup-upsert}
use live_actions.Base.Keys.{Unique, Fresh}
use live_actions.Models.Status.{in_progress, queued}
use live_actions.Failure.{Result, ok, err}
use live_actions.Database.{sqlite, Db, call, reliable, reliable-eq}
use live_actions.Database.Cleanup.{get_current_job_counts, has_status}
use live_actions.Database.Snapshots.{
  insert_metrics_snapshot, get_current_job_counts_by_label, counts_by_label, or_zeroes, of_label,
  or_zeroes-counts_by_label, Unique-counts_by_label,
}
use live_actions.Metrics.{
  Registry, update_current_job_counts, update_jobs_by_label, reset_jobs_by_label,
}

-- The loop over the counts of the labels.
unfoldable pub set_labels : Table String (ℕ × ℕ) → Registry → Registry
unfolding update_jobs_by_label
set_labels [] r = r
set_labels ((label, (running, queued')) ∷ counts) r =
    set_labels counts (update_jobs_by_label label running queued' r)

abbrev labels_result : Registry → Result (Table String (ℕ × ℕ)) × Db → Registry × Db
labels_result r (err e, db) = (r, db)
labels_result r (ok counts, db) = (set_labels counts (reset_jobs_by_label r), db)

abbrev after_snapshot : Registry → Result (Unit {0}) × Db → Registry × Db
after_snapshot r (_, db) = (r, db)

abbrev store : ℕ × ℕ → Registry × Db → Registry × Db
store (running, queued') (r, db) = after_snapshot r (insert_metrics_snapshot running queued' db)

abbrev with_counts : Registry → Result (ℕ × ℕ) × Db → Registry × Db
with_counts r (err e, db) = (r, db)
with_counts r (ok (running, queued'), db) =
    store (running, queued')
      (labels_result (update_current_job_counts running queued' r)
        (get_current_job_counts_by_label db))

-- updateMetrics: failures are only logged.
unfoldable pub update_metrics : Registry × Db → Registry × Db
unfolding get_current_job_counts get_current_job_counts_by_label insert_metrics_snapshot set_labels
    update_current_job_counts
update_metrics (r, db) = with_counts r (get_current_job_counts db)

-- Start, up to the cancellation: an update at once and one at each tick; `others` are what the rest
-- of the program does to the metrics and the database before each.
unfoldable pub start : List (Registry × Db → Registry × Db) → Registry × Db → Registry × Db
unfolding update_metrics
start [] s = update_metrics s
start (other ∷ others) s = start others (other (update_metrics s))

abbrev or_else : Option (ℕ × ℕ) → Option (ℕ × ℕ) → Option (ℕ × ℕ)
or_else (some v) w = some v
or_else none w = w

lookup-Fresh : (k : String) (t : Table String (ℕ × ℕ)) → Fresh k t → lookup k t ≡ none
unfolding lookup
lookup-Fresh k [] f = refl
lookup-Fresh k ((j, w) ∷ t) f = rw (f.0) (lookup-Fresh k t f.1)

lookup-set_labels :
    (label : String) (counts : Table String (ℕ × ℕ)) (r : Registry)
    → Unique counts
    → lookup label (set_labels counts r).jobs_by_label
      ≡ or_else (lookup label counts) (lookup label r.jobs_by_label)
unfolding set_labels update_jobs_by_label lookup
lookup-set_labels label [] r u = refl
lookup-set_labels label ((l, (running, queued')) ∷ counts) r u =
    lookup-set_labels label counts (update_jobs_by_label l running queued' r) u.1
    ∙ rw (lookup-upsert l label (running, queued') r.jobs_by_label)
        (elim (Bool-cases (l == label)) [
          | inl y ↦
              rw
                (
                  lookup-Fresh label counts
                      (subst (λ k. Fresh k counts) ((string_eq.beq_iff l label).0 y) u.0),
                  y,
                )
                refl
          | inr n ↦ rw n refl
        ])

current_jobs-set_labels :
    (counts : Table String (ℕ × ℕ)) (r : Registry)
    → (set_labels counts r).current_jobs ≡ r.current_jobs
unfolding set_labels update_jobs_by_label
current_jobs-set_labels [] r = refl
current_jobs-set_labels ((l, (running, queued')) ∷ counts) r =
    current_jobs-set_labels counts (update_jobs_by_label l running queued' r)

gauge :
    (name : String) (counts : Table String (ℕ × ℕ)) (r : Registry)
    → lookup name (set_labels counts r).current_jobs ≡ lookup name r.current_jobs
gauge name counts r = ap (lookup name) (current_jobs-set_labels counts r)

running_gauge :
    (a b : ℕ) (r : Registry)
    → lookup "in_progress" (update_current_job_counts a b r).current_jobs ≡ some a
unfolding update_current_job_counts
running_gauge a b r =
    lookup-upsert "queued" "in_progress" b (upsert "in_progress" a r.current_jobs)
    ∙ lookup-upsert "in_progress" "in_progress" a r.current_jobs

queued_gauge :
    (a b : ℕ) (r : Registry)
    → lookup "queued" (update_current_job_counts a b r).current_jobs ≡ some b
unfolding update_current_job_counts
queued_gauge a b r = lookup-upsert "queued" "queued" b (upsert "in_progress" a r.current_jobs)

unset : (o : Option (ℕ × ℕ)) → or_zeroes (or_else o none) ≡ or_zeroes o
unset none = refl
unset (some c) = refl

abbrev counted : Registry → Db → Registry
counted r db =
    update_current_job_counts (count (has_status in_progress) db.jobs)
      (count (has_status queued) db.jobs) r

-- The gauges of the states and of every label, where 0 stands for a gauge that is not set, and the snapshots.
abbrev pub Shows : Db → Registry × Db → Type 0
Shows before (r, after) =
    (lookup "in_progress" r.current_jobs ≡ some (count (has_status in_progress) before.jobs))
    × (lookup "queued" r.current_jobs ≡ some (count (has_status queued) before.jobs))
    × ((label : String)
        → or_zeroes (lookup label r.jobs_by_label) ≡ (
          count (of_label label in_progress) before.jobs,
          count (of_label label queued) before.jobs,
        ))
    × (after.snapshots
        ≡ before.snapshots
          ++ record {
            timestamp = sqlite before.now;
            running_jobs = count (has_status in_progress) before.jobs;
            queued_jobs = count (has_status queued) before.jobs;
          }
            ∷ [])
    × (after.jobs ≡ before.jobs)

reliable-Shows : (r : Registry) (db : Db) → Shows db (update_metrics (r, reliable db))
unfolding update_metrics get_current_job_counts_by_label get_current_job_counts call
    insert_metrics_snapshot
reliable-Shows r db = (
  gauge "in_progress" (counts_by_label db.jobs) (reset_jobs_by_label (counted r db))
      ∙ running_gauge (count (has_status in_progress) db.jobs) (count (has_status queued) db.jobs)
          r,
  gauge "queued" (counts_by_label db.jobs) (reset_jobs_by_label (counted r db))
      ∙ queued_gauge (count (has_status in_progress) db.jobs) (count (has_status queued) db.jobs) r,
  (λ label.
      ap or_zeroes (
        lookup-set_labels label (counts_by_label db.jobs) (reset_jobs_by_label (counted r db))
          (Unique-counts_by_label db.jobs))
      ∙ unset (lookup label (counts_by_label db.jobs))
      ∙ or_zeroes-counts_by_label label db.jobs),
  refl,
  refl,
)

-- Where no call fails, updateMetrics sets the gauges of the states and of every label to the
-- numbers of running and queued jobs, 0 standing for a gauge that is not set, appends a snapshot
-- of both, and changes no job.
pub update_metrics-Shows :
    (r : Registry) (db : Db) → db.faults ≡ [] → Shows db (update_metrics (r, db))
update_metrics-Shows r db f =
    subst (λ d. Shows db (update_metrics (r, d))) (reliable-eq db f) (reliable-Shows r db)
