-- ===== src/Database/Snapshots.antt =====
-- internal/database/metrics.go: the snapshots of the metrics, and the counts for each label.
pub mod Points
use live_actions.Base.{
  ℕ, suc, ◌+◌, ◌-◌, ◌*◌, ◌/◌, ◌≡◌, refl, ap, sym, ◌∙◌, inl, inr, Bool-cases, String, Bool, false,
  not, ◌&&◌, ◌||◌, Option, none, some, List, [], ◌∷◌, ◌++◌, count, filter, map, leb, ltb, nat_eq,
  string_eq, ◌==◌, arith, if◌then◌else◌,
}
use live_actions.Base.Table.{Table, lookup, upsert, lookup-upsert}
use live_actions.Base.Keys.{Unique, Unique-upsert}
use live_actions.Base.Sort.{sort_by}
use live_actions.Base.Groups.{group_by}
use live_actions.Models.{Time, MetricsSnapshot}
use live_actions.Models.Status.{JobStatus, in_progress, queued, status_eq}
use live_actions.Failure.{ok}
use live_actions.Database.{
  Stamp, rfc3339, sqlite, stamp_lt, JobRow, SnapshotRow, Db, Exec, ◌>>◌, call, query,
}

abbrev snapshot : ℕ → ℕ → Db → Db
snapshot running queued' db = record db {
  snapshots =
      db.snapshots
      ++ record { timestamp = sqlite db.now; running_jobs = running; queued_jobs = queued' } ∷ [];
}

unfoldable pub insert_metrics_snapshot : ℕ → ℕ → Exec (Unit {0})
unfolding call
insert_metrics_snapshot running queued' = do call; λ db. (ok tt, snapshot running queued' db)

-- `json_extract(labels, '$[0]')`
abbrev pub json_first : List String → Option String
json_first [] = none
json_first (label ∷ labels) = some label

-- No row of a label counts as two zeroes.
abbrev pub or_zeroes : Option (ℕ × ℕ) → ℕ × ℕ
or_zeroes none = (0, 0)
or_zeroes (some counts) = counts

abbrev bump : JobStatus → ℕ × ℕ → ℕ × ℕ
bump status (r, q) = (
  if status_eq status in_progress then suc r else r,
  if status_eq status queued then suc q else q,
)

abbrev group_of : Option String → JobStatus → Table String (ℕ × ℕ) → Table String (ℕ × ℕ)
group_of none status groups = groups
group_of (some label) status groups =
    upsert label (bump status (or_zeroes (lookup label groups))) groups

-- The groups of `GROUP BY label`, with the running and the queued jobs of each.
unfoldable pub counts_by_label : Table ℕ JobRow → Table String (ℕ × ℕ)
unfolding status_eq lookup upsert
counts_by_label [] = []
counts_by_label ((id, job) ∷ jobs) =
    let rest = counts_by_label jobs in
    if status_eq job.status in_progress || status_eq job.status queued
    then group_of (json_first job.labels) job.status rest
    else rest

unfoldable pub get_current_job_counts_by_label : Exec (Table String (ℕ × ℕ))
unfolding counts_by_label call
get_current_job_counts_by_label =
    query "failed to get job counts by label" (λ db. counts_by_label db.jobs)

abbrev is_label : String → List String → Bool
is_label label [] = false
is_label label (l ∷ labels) = l == label

abbrev pub of_label : String → JobStatus → ℕ × JobRow → Bool
of_label label status (id, job) = is_label label job.labels && status_eq job.status status

abbrev is_active : JobStatus → Bool
is_active status = status_eq status in_progress || status_eq status queued

abbrev counted : String → List String → JobStatus → ℕ × ℕ → ℕ × ℕ
counted label labels status (r, q) = (
  if is_label label labels && status_eq status in_progress then suc r else r,
  if is_label label labels && status_eq status queued then suc q else q,
)

counted_idle :
    (label : String) (labels : List String) (status : JobStatus) (c : ℕ × ℕ)
    → is_active status ≡ false
    → counted label labels status c ≡ c
counted_idle label labels status (r, q) h = ground (arith, h)

or_zeroes-group_of :
    (label : String) (labels : List String) (status : JobStatus) (groups : Table String (ℕ × ℕ))
    → or_zeroes (
        lookup label
          (if is_active status then group_of (json_first labels) status groups else groups))
      ≡ counted label labels status (or_zeroes (lookup label groups))
or_zeroes-group_of label [] status groups = ground arith
or_zeroes-group_of label (l ∷ labels) status groups = elim (Bool-cases (is_active status)) [
  | inl y ↦
      rw (y, lookup-upsert l label (bump status (or_zeroes (lookup l groups))) groups)
        (elim (Bool-cases (l == label)) [
          | inl same ↦ rw same (
              ap (λ k. bump status (or_zeroes (lookup k groups)))
                ((string_eq.beq_iff l label).0 same))
          | inr ne ↦ rw ne refl
        ])
  | inr n ↦ rw n (sym (counted_idle label (l ∷ labels) status (or_zeroes (lookup label groups)) n))
]

pub or_zeroes-counts_by_label :
    (label : String) (jobs : Table ℕ JobRow)
    → or_zeroes (lookup label (counts_by_label jobs))
      ≡ (count (of_label label in_progress) jobs, count (of_label label queued) jobs)
unfolding counts_by_label
or_zeroes-counts_by_label label [] = refl
or_zeroes-counts_by_label label ((id, job) ∷ jobs) =
    or_zeroes-group_of label job.labels job.status (counts_by_label jobs)
    ∙ ap (counted label job.labels job.status) (or_zeroes-counts_by_label label jobs)

Unique-group_of :
    (label : Option String) (status : JobStatus) (groups : Table String (ℕ × ℕ))
    → Unique groups
    → Unique (group_of label status groups)
Unique-group_of none status groups u = u
Unique-group_of (some l) status groups u =
    Unique-upsert l (bump status (or_zeroes (lookup l groups))) groups u

pub Unique-counts_by_label : (jobs : Table ℕ JobRow) → Unique (counts_by_label jobs)
unfolding counts_by_label
Unique-counts_by_label [] = tt
Unique-counts_by_label ((id, job) ∷ jobs) = elim (Bool-cases (is_active job.status)) [
  | inl y ↦ rw y (
      Unique-group_of (json_first job.labels) job.status (counts_by_label jobs)
        (Unique-counts_by_label jobs))
  | inr n ↦ rw n (Unique-counts_by_label jobs)
]

abbrev pub at : Stamp → Time
at (rfc3339 t) = t
at (sqlite t) = t

-- The seconds of a bucket: at most about 288 buckets, each of a second at least.
unfoldable pub bucket_seconds : Time → ℕ
bucket_seconds since = let seconds = since / 288 in if ltb seconds 1 then 1 else seconds

-- The rows of a bucket: how many there are, and the sums of both columns.
abbrev pub Sums : Type 0
Sums = ℕ × ℕ × ℕ

abbrev plus : SnapshotRow → Option Sums → Sums
plus row none = (1, row.running_jobs, row.queued_jobs)
plus row (some (n, r, q)) = (suc n, row.running_jobs + r, row.queued_jobs + q)

-- The groups of `GROUP BY bucket_ts`, each by its bucket.
unfoldable pub buckets : ℕ → List SnapshotRow → Table ℕ Sums
unfolding group_by
buckets size rows = group_by (λ row. at row.timestamp / size * size) plus rows

abbrev earlier : ℕ × Sums → ℕ × Sums → Bool
earlier (a, _) (b, _) = leb a b

-- `CAST(ROUND(AVG(column)) AS INTEGER)`: halves are rounded up.
abbrev rounded : ℕ → ℕ → ℕ
rounded n sum = (2 * sum + n) / (2 * n)

abbrev point : ℕ × Sums → MetricsSnapshot
point (bucket, (n, r, q)) = record {
  timestamp = bucket;
  running = rounded n r;
  queued = rounded n q;
}

abbrev pub recent : Stamp → SnapshotRow → Bool
recent cutoff row = not (stamp_lt row.timestamp cutoff)

unfoldable pub get_metrics_history : Time → Exec (List MetricsSnapshot)
unfolding stamp_lt bucket_seconds buckets sort_by call
get_metrics_history since = query "failed to query metrics history" (λ db. map point (
    sort_by earlier
      (buckets (bucket_seconds since) (filter (recent (sqlite (db.now - since))) db.snapshots))))
