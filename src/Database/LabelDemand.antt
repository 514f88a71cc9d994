-- ===== src/Database/LabelDemand.antt =====
-- internal/database/label_demand.go. The zone of the process is UTC.
use live_actions.Base.{
  ℕ, suc, ◌-◌, String, Bool, true, false, not, ◌&&◌, ◌||◌, Option, none, some, List, filter, map,
  leb, ltb, nat_beq, nat_eq, string_eq, pair_eq,
}
use live_actions.Base.Int.{ℤ, pos, sub_ℕ, add_ℤ}
use live_actions.Base.Table.{Table}
use live_actions.Base.Sort.{sort_by}
use live_actions.Base.Groups.{group_by}
use live_actions.Models.{Time}
use live_actions.Models.Status.{in_progress, queued, status_eq}
use live_actions.Database.{Stamp, rfc3339, stamp_lt, JobRow, RunRow, Db, Exec, call, query}
use live_actions.Database.Events.{text_lt}
use live_actions.Database.Snapshots.{at, json_first}
use live_actions.Database.Analytics.{in_repo, bucket_of, bump}

pub record LabelDemandTrendPoint : Type 0 where
  pub timestamp : Time
  pub label : String
  pub count : ℕ

abbrev has_label : Option String → Bool
has_label none = false
has_label (some label) = true

abbrev or_empty : Option String → String
or_empty none = ""
or_empty (some label) = label

abbrev demanded_since : Stamp → String → Table ℕ RunRow → ℕ × JobRow → Bool
demanded_since cutoff repo runs (id, job) =
    not (stamp_lt job.created_at cutoff)
    && has_label (json_first job.labels)
    && in_repo repo runs job

abbrev demanded : Time → String → Db → Table ℕ JobRow
demanded since repo db = filter (demanded_since (rfc3339 (db.now - since)) repo db.runs) db.jobs

abbrev label_of : ℕ × JobRow → String
label_of (id, job) = or_empty (json_first job.labels)

abbrev bucket_and_label : Time → ℕ × JobRow → Time × String
bucket_and_label since (id, job) = (bucket_of since (at job.created_at), label_of (id, job))

abbrev plus_one : ℕ × JobRow → Option ℕ → ℕ
plus_one row none = 1
plus_one row (some n) = suc n

-- `ORDER BY bucket ASC, label ASC`
abbrev earlier_label : (Time × String) × ℕ → (Time × String) × ℕ → Bool
earlier_label ((t, l), _) ((u, k), _) = ltb t u || (nat_beq t u && not (text_lt k l))

abbrev demand_point : (Time × String) × ℕ → LabelDemandTrendPoint
demand_point ((t, l), n) = record { timestamp = t; label = l; count = n }

unfoldable pub get_label_demand_trend : Time → String → Exec (List LabelDemandTrendPoint)
unfolding stamp_lt group_by sort_by bucket_of call
get_label_demand_trend since repo = query "failed to get label demand trend" (λ db.
    map demand_point
      (sort_by earlier_label (group_by (bucket_and_label since) plus_one (demanded since repo db))))

-- The sum of the seconds in the queue and how many jobs it is of, from which the average is taken.
pub record LabelDemandSummary : Type 0 where
  pub label : String
  pub total_jobs : ℕ
  pub running : ℕ
  pub queued : ℕ
  pub queue_seconds : ℤ
  pub queue_jobs : ℕ

abbrev queue_of : Option Stamp → Stamp → LabelDemandSummary → LabelDemandSummary
queue_of none created s = s
queue_of (some started) created s = record s {
  queue_seconds = add_ℤ s.queue_seconds (sub_ℕ (at started) (at created));
  queue_jobs = suc s.queue_jobs;
}

abbrev count_job : JobRow → LabelDemandSummary → LabelDemandSummary
count_job job s = queue_of job.started_at job.created_at (record s {
  total_jobs = suc s.total_jobs;
  running = bump (status_eq job.status in_progress) s.running;
  queued = bump (status_eq job.status queued) s.queued;
})

abbrev no_demand : String → LabelDemandSummary
no_demand label = record {
  label = label;
  total_jobs = 0;
  running = 0;
  queued = 0;
  queue_seconds = pos 0;
  queue_jobs = 0;
}

abbrev plus_demand : ℕ × JobRow → Option LabelDemandSummary → LabelDemandSummary
plus_demand (id, job) none = count_job job (no_demand (or_empty (json_first job.labels)))
plus_demand (id, job) (some s) = count_job job s

abbrev more_jobs : String × LabelDemandSummary → String × LabelDemandSummary → Bool
more_jobs (_, a) (_, b) = leb b.total_jobs a.total_jobs

abbrev summary_of : String × LabelDemandSummary → LabelDemandSummary
summary_of (label, s) = s

unfoldable pub get_label_demand_summary : Time → String → Exec (List LabelDemandSummary)
unfolding stamp_lt status_eq group_by sort_by call
get_label_demand_summary since repo = query "failed to get label demand summary" (λ db.
    map summary_of (sort_by more_jobs (group_by label_of plus_demand (demanded since repo db))))
