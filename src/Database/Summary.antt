-- ===== src/Database/Summary.antt =====
-- internal/database/metrics.go: GetMetricsSummary. Its averages are floating-point numbers of days; the
-- model has the exact seconds.
use live_actions.Base.{
  ℕ, suc, ◌+◌, ◌-◌, Option, none, some, List, [], ◌∷◌, count, filter, ltb, if◌then◌else◌,
}
use live_actions.Base.Int.{ℤ, pos, sub_ℕ, add_ℤ}
use live_actions.Base.Table.{Table}
use live_actions.Models.{Time}
use live_actions.Models.Status.{in_progress, queued}
use live_actions.Database.Cleanup.{has_status}
use live_actions.Database.Snapshots.{at, recent}
use live_actions.Failure.{Result, ok, err}
use live_actions.Database.{
  Stamp, rfc3339, sqlite, stamp_lt, JobRow, SnapshotRow, Db, Exec, call, query, reads,
}

-- A sum of seconds and how many jobs it is of: the average is their quotient, and 0 where there are none.
abbrev pub Average : Type 0
Average = ℤ × ℕ

-- The two columns that a job's time lies between, where the job counts.
abbrev add_time : Option (Stamp × Stamp) → Average → Average
add_time none a = a
add_time (some (from, to)) (sum, n) = (add_ℤ sum (sub_ℕ (at to) (at from)), suc n)

unfoldable pub average : (ℕ × JobRow → Option (Stamp × Stamp)) → Table ℕ JobRow → Average
average times [] = (pos 0, 0)
average times (row ∷ jobs) = add_time (times row) (average times jobs)

abbrev since_cutoff : Stamp → Stamp → Stamp × Stamp → Option (Stamp × Stamp)
since_cutoff cutoff s times = if stamp_lt s cutoff then none else some times

abbrev queue_of : Stamp → Option Stamp → Stamp → Option (Stamp × Stamp)
queue_of cutoff none created = none
queue_of cutoff (some started) created = since_cutoff cutoff started (created, started)

-- `started_at IS NOT NULL AND started_at >= ?`
abbrev queue_times : Stamp → ℕ × JobRow → Option (Stamp × Stamp)
queue_times cutoff (id, job) = queue_of cutoff job.started_at job.created_at

abbrev run_of : Stamp → Option Stamp → Option Stamp → Option (Stamp × Stamp)
run_of cutoff (some started) (some completed) = since_cutoff cutoff completed (started, completed)
run_of cutoff _ _ = none

-- `completed_at IS NOT NULL AND started_at IS NOT NULL AND completed_at >= ?`
abbrev run_times : Stamp → ℕ × JobRow → Option (Stamp × Stamp)
run_times cutoff (id, job) = run_of cutoff job.started_at job.completed_at

-- `MAX(running_jobs + queued_jobs)`
unfoldable pub peak : List SnapshotRow → ℕ
peak [] = 0
peak (row ∷ rows) =
    let rest = peak rows in
    let demand = row.running_jobs + row.queued_jobs in if ltb rest demand then demand else rest

pub record MetricsSummary : Type 0 where
  pub running_jobs : ℕ
  pub queued_jobs : ℕ
  pub avg_queue_time : Average
  pub avg_run_time : Average
  pub peak_demand : ℕ

-- A failing query leaves the value that is there.
abbrev or_keep {ℓ} : {A : Type ℓ} → A → Result A × Db → A × Db
or_keep a (ok b, db) = (b, db)
or_keep a (err e, db) = (a, db)

abbrev summarise :
    ℕ × ℕ → Average × Db → (Db → Average × Db) → (Db → ℕ × Db) → Result MetricsSummary × Db
summarise (running, queued') (queue, db) runs peaks =
    let (run, db1) = runs db in
    let (demand, db2) = peaks db1 in
    (
      ok (record {
        running_jobs = running;
        queued_jobs = queued';
        avg_queue_time = queue;
        avg_run_time = run;
        peak_demand = demand;
      }),
      db2,
    )

abbrev zero_average : Average
zero_average = (pos 0, 0)

abbrev jobs_average : Time → (Stamp → ℕ × JobRow → Option (Stamp × Stamp)) → Db → Average × Db
jobs_average since times db =
    or_keep zero_average (reads (λ d. average (times (rfc3339 (d.now - since))) d.jobs) db)

abbrev demand_since : Time → Db → ℕ × Db
demand_since since db =
    or_keep 0 (reads (λ d. peak (filter (recent (sqlite (d.now - since))) d.snapshots)) db)

abbrev after_counts : Time → Result (ℕ × ℕ) × Db → Result MetricsSummary × Db
after_counts since (err e, db) = (err e, db)
after_counts since (ok counts, db) =
    summarise counts (jobs_average since queue_times db) (jobs_average since run_times)
      (demand_since since)

unfoldable pub get_metrics_summary : Time → Exec MetricsSummary
unfolding stamp_lt average peak call
get_metrics_summary since db = after_counts since (
    query "failed to get current job counts"
      (λ d. (count (has_status in_progress) d.jobs, count (has_status queued) d.jobs)) db)
