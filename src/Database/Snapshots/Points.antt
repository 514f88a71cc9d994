-- ===== src/Database/Snapshots/Points.antt =====
-- About GetMetricsHistory (internal/database/metrics.go): how many points there are.
use live_actions.Base.{
  subst, not, ℕ, suc, ◌+◌, ◌-◌, ◌*◌, ◌/◌, ◌≤◌, ◌<◌, ◌≡◌, refl, ap, inl, inr, Bool, true, false,
  List, [], ◌∷◌, map, filter, length, arith, Bool-cases, nat_eq,
}
use live_actions.Base.Keys.{All}
use live_actions.Base.Sort.{sort_by, length-sort_by}
use live_actions.Base.Pigeon.{length-Among, Unique-group_by, All-group_by, div-le-div, div-add-le}
use live_actions.Models.{Time, MetricsSnapshot}
use live_actions.Failure.{ok}
use live_actions.Database.{Db, sqlite, SnapshotRow, stamp_lt, call}
use live_actions.Database.Snapshots.{
  at, bucket_seconds, buckets, recent, get_metrics_history, plus, earlier, point, Sums,
}

-- A row that InsertMetricsSnapshot wrote, not later than now.
abbrev pub IsPast : Time → SnapshotRow → Type 0
IsPast now row = (row.timestamp ≡ sqlite (at row.timestamp)) × (at row.timestamp ≤ now)

bucket_seconds_pos : (since : Time) → 0 < bucket_seconds since
unfolding bucket_seconds
bucket_seconds_pos since = ground arith

after_cutoff : (t c : Time) → not (stamp_lt (sqlite t) (sqlite c)) ≡ true → c ≤ t
unfolding stamp_lt
after_cutoff t c h = ground (arith, h)

-- The bucket of a row in the window.
among :
    (since now : Time) (row : SnapshotRow)
    → IsPast now row
    → recent (sqlite (now - since)) row ≡ true
    → let size = bucket_seconds since in
      (k : ℕ) × (at row.timestamp / size * size ≡ k * size)
      × ((now - since) / size ≤ k)
      × (k < (now - since) / size + (since / size + 2))
among since now row past r =
    let size = bucket_seconds since in
    let p = bucket_seconds_pos since in
    let after : now - since ≤ at row.timestamp =
      after_cutoff (at row.timestamp) (now - since)
        (subst (λ s. not (stamp_lt s (sqlite (now - since))) ≡ true) past.0 r) in
    (
      at row.timestamp / size,
      refl,
      div-le-div (now - since) (at row.timestamp) size p after,
      omega (
        arith,
        div-le-div (at row.timestamp) now size p past.1,
        div-add-le now (now - since) since size p (omega arith),
      ),
    )

All-among :
    (since now : Time) (rows : List SnapshotRow)
    → All (IsPast now) rows
    → let size = bucket_seconds since in
      All
        (λ (row : SnapshotRow).
          (k : ℕ) × (at row.timestamp / size * size ≡ k * size)
          × ((now - since) / size ≤ k)
          × (k < (now - since) / size + (since / size + 2)))
        (filter (recent (sqlite (now - since))) rows)
All-among since now [] past = tt
All-among since now (row ∷ rows) past = elim (Bool-cases (recent (sqlite (now - since)) row)) [
  | inl y ↦ rw y ((among since now row past.0 y, All-among since now rows past.1))
  | inr n ↦ rw n (All-among since now rows past.1)
]

-- The points where no call fails.
abbrev window : Time → Db → List MetricsSnapshot
window since db = map point (
    sort_by earlier
      (buckets (bucket_seconds since) (filter (recent (sqlite (db.now - since))) db.snapshots)))

history_ok :
    (since : Time) (db : Db) (fs : List Bool) (points : List MetricsSnapshot)
    → (get_metrics_history since (record db { faults = fs })).0 ≡ ok points
    → window since db ≡ points
unfolding get_metrics_history call
history_ok since db [] points h = cc
history_ok since db (true ∷ fs) points h = absurd (cc)
history_ok since db (false ∷ fs) points h = cc

length-map-point : (groups : List (ℕ × Sums)) → length (map point groups) ≡ length groups
length-map-point [] = refl
length-map-point (g ∷ groups) = ap suc (length-map-point groups)

-- The history has at most two points more than buckets fit into the period, if no snapshot is
-- later than now and all are stamped as InsertMetricsSnapshot stamps them.
pub length-get_metrics_history :
    (since : Time) (db : Db) (points : List MetricsSnapshot)
    → All (IsPast db.now) db.snapshots
    → (get_metrics_history since db).0 ≡ ok points
    → length points ≤ since / bucket_seconds since + 2
unfolding buckets
length-get_metrics_history since db points past h =
    let size = bucket_seconds since in
    let rows = filter (recent (sqlite (db.now - since))) db.snapshots in
    let key : SnapshotRow → ℕ = λ row. at row.timestamp / size * size in
    let groups = buckets size rows in
    let few =
      length-Among size ((db.now - since) / size) (since / size + 2) groups
        (Unique-group_by key plus rows)
        (All-group_by key plus
          (λ b.
            (k : ℕ) × (b ≡ k * size)
            × ((db.now - since) / size ≤ k)
            × (k < (db.now - since) / size + (since / size + 2)))
          rows (All-among since db.now db.snapshots past)) in
    rw
      (
        ← history_ok since db db.faults points h,
        length-map-point (sort_by earlier groups),
        length-sort_by earlier groups,
      )
      few
