-- ===== src/Database/Analytics/Laws.antt =====
-- About the failures of a period: the summary and the trend (internal/database/failure_analytics.go).
use live_actions.Base.{
  ℕ, ◌+◌, ◌≤◌, ◌≡◌, refl, sym, ◌∙◌, subst, inl, inr, String, Bool, true, false, ◌||◌, Option, none,
  some, List, [], ◌∷◌, count, length, nat_eq, string_eq, ◌==◌, arith, Bool-cases,
}
use live_actions.Base.Table.{Table, one_if}
use live_actions.Base.Sort.{sort_by}
use live_actions.Base.Groups.{
  group_by, sum_by, sum_by-sort_by, sum_by-map, sum_by-count, sum_by-group_by, weight,
}
use live_actions.Models.{Time}
use live_actions.Failure.{ok}
use live_actions.Database.{JobRow, Db, call, reliable, reliable-eq}
use live_actions.Database.Analytics.{
  FailureAnalytics, FailureTrendPoint, Counts, completed_jobs, has_failed, has_succeeded,
  was_cancelled, bucket_of_job, plus_conclusion, earlier_bucket, trend_point, trend, summary, bump,
  get_failure_analytics, get_failure_trend,
}

one_if-le : (b : Bool) → one_if b ≤ 1
one_if-le true = omega arith
one_if-le false = omega arith

-- A conclusion is at most one of a failure, a success and a cancellation.
abbrev kinds : String → ℕ
kinds c =
    one_if (c == "failure" || c == "timed_out")
    + (one_if (c == "success") + one_if (c == "cancelled"))

exclusive_at : (c d : String) → kinds d ≤ 1 → (c == d) ≡ true → kinds c ≤ 1
exclusive_at c d h e = subst (λ x. kinds x ≤ 1) (sym ((string_eq.beq_iff c d).0 e)) h

exclusive : (c : String) → kinds c ≤ 1
exclusive c = elim (Bool-cases (c == "failure")) [
  | inl y ↦ exclusive_at c "failure" (omega arith) y
  | inr f ↦ elim (Bool-cases (c == "timed_out")) [
    | inl y ↦ exclusive_at c "timed_out" (omega arith) y
    | inr t ↦ elim (Bool-cases (c == "success")) [
      | inl y ↦ exclusive_at c "success" (omega arith) y
      | inr s ↦ rw (f, t, s) (omega (arith, one_if-le (c == "cancelled")))
    ]
  ]
]

-- A number of each bucket, which a job adds 1 to exactly when it passes the test.
counted_in :
    (w : Counts → ℕ) (p : ℕ × JobRow → Bool) (since : Time) (jobs : Table ℕ JobRow)
    → ((row : ℕ × JobRow) (o : Option Counts)
        → w (plus_conclusion row o) ≡ one_if (p row) + weight w o)
    → sum_by
        (λ r. w r.1)
        (sort_by earlier_bucket (group_by (bucket_of_job since) plus_conclusion jobs))
      ≡ count p jobs
counted_in w p since jobs k =
    sum_by-sort_by (λ r. w r.1) earlier_bucket (group_by (bucket_of_job since) plus_conclusion jobs)
    ∙ sum_by-group_by (bucket_of_job since) plus_conclusion w (λ row. one_if (p row)) k jobs
    ∙ sum_by-count p jobs

bump_lem : (b : Bool) (n : ℕ) → bump b n ≡ one_if b + n
bump_lem true n = omega arith
bump_lem false n = omega arith

plus_failure :
    (row : ℕ × JobRow) (o : Option Counts)
    → (plus_conclusion row o).0 ≡ one_if (has_failed row) + weight (λ c. c.0) o
plus_failure row none = bump_lem (has_failed row) 0
plus_failure row (some c) = bump_lem (has_failed row) c.0

plus_success :
    (row : ℕ × JobRow) (o : Option Counts)
    → (plus_conclusion row o).1 ≡ one_if (has_succeeded row) + weight (λ c. c.1) o
plus_success row none = bump_lem (has_succeeded row) 0
plus_success row (some c) = bump_lem (has_succeeded row) c.1

plus_cancelled :
    (row : ℕ × JobRow) (o : Option Counts)
    → (plus_conclusion row o).2 ≡ one_if (was_cancelled row) + weight (λ c. c.2) o
plus_cancelled row none = bump_lem (was_cancelled row) 0
plus_cancelled row (some c) = bump_lem (was_cancelled row) c.2

module _ (since : Time) (jobs : Table ℕ JobRow) where
  abbrev grouped : List (Time × Counts)
  grouped = sort_by earlier_bucket (group_by (bucket_of_job since) plus_conclusion jobs)

  failures-trend : sum_by (λ p. p.failures) (trend since jobs) ≡ count has_failed jobs
  failures-trend =
      sum_by-map (λ p. p.failures) trend_point grouped
      ∙ counted_in (λ c. c.0) has_failed since jobs plus_failure

  successes-trend : sum_by (λ p. p.successes) (trend since jobs) ≡ count has_succeeded jobs
  successes-trend =
      sum_by-map (λ p. p.successes) trend_point grouped
      ∙ counted_in (λ c. c.1) has_succeeded since jobs plus_success

  cancelled-trend : sum_by (λ p. p.cancelled) (trend since jobs) ≡ count was_cancelled jobs
  cancelled-trend =
      sum_by-map (λ p. p.cancelled) trend_point grouped
      ∙ counted_in (λ c. c.2) was_cancelled since jobs plus_cancelled

at_most_one :
    (jobs : Table ℕ JobRow)
    → count has_failed jobs + (count has_succeeded jobs + count was_cancelled jobs) ≤ length jobs
at_most_one [] = omega arith
at_most_one ((id, job) ∷ jobs) = omega (
  arith,
  bump_lem (has_failed (id, job)) (count has_failed jobs),
  bump_lem (has_succeeded (id, job)) (count has_succeeded jobs),
  bump_lem (was_cancelled (id, job)) (count was_cancelled jobs),
  exclusive job.conclusion,
  at_most_one jobs,
)

-- The summary and the trend, and that their numbers agree.
abbrev pub Agrees : FailureAnalytics → List FailureTrendPoint → Type 0
Agrees s points =
    (sum_by (λ p. p.failures) points ≡ s.total_failed)
    × (sum_by (λ p. p.cancelled) points ≡ s.total_cancelled)
    × (s.total_failed + (sum_by (λ p. p.successes) points + s.total_cancelled) ≤ s.total_completed)

reliable-Agrees :
    (since : Time) (repo : String) (db : Db)
    → (s : FailureAnalytics) × (points : List FailureTrendPoint) × (get_failure_analytics since repo
          (reliable db)
        ≡ (ok s, reliable db))
      × (get_failure_trend since repo (reliable db) ≡ (ok points, reliable db))
      × Agrees s points
unfolding get_failure_analytics get_failure_trend call
reliable-Agrees since repo db =
    let jobs = completed_jobs since repo db in
    (
      summary jobs,
      trend since jobs,
      refl,
      refl,
      (
        failures-trend since jobs,
        cancelled-trend since jobs,
        omega (arith, successes-trend since jobs, at_most_one jobs),
      ),
    )

-- Where no call fails, both queries of failures answer, the failures and the cancellations of the
-- points of the trend add up to the numbers of the summary, and with the successes they are no
-- more than its completed jobs.
pub get_failure_trend-Agrees :
    (since : Time) (repo : String) (db : Db)
    → db.faults ≡ []
    → (s : FailureAnalytics) × (points : List FailureTrendPoint) × (get_failure_analytics since repo
          db
        ≡ (ok s, db))
      × (get_failure_trend since repo db ≡ (ok points, db))
      × Agrees s points
get_failure_trend-Agrees since repo db f =
    subst
      (λ d.
        (s : FailureAnalytics) × (points : List FailureTrendPoint) × (get_failure_analytics since
            repo d
          ≡ (ok s, d))
        × (get_failure_trend since repo d ≡ (ok points, d))
        × Agrees s points)
      (reliable-eq db f) (reliable-Agrees since repo db)
