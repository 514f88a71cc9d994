-- ===== src/Api/Pages.antt =====
-- About a client that reads the runs from page 1 on, for as long as has_next says (handlers/api.go).
use live_actions.Base.{
  ℕ, zero, suc, ◌+◌, ◌-◌, ◌*◌, ◌^◌, ◌<◌, ◌≤◌, ◌≡◌, refl, ap, sym, subst, ◌∙◌, inl, inr, String,
  true, false, Option, none, some, List, [], ◌++◌, map, count, length, length-filter, length-drop,
  take, drop, ltb, arith, Bool-cases, ltb→lt, count-le-length, if◌then◌else◌,
}
use mathlib.Core.List.{Perm, map-append}
use native.Mathlib.Nat.{mul-le-mul_left, le-div_iff_mul-le, div-lt_iff_lt-mul}
use live_actions.Base.Sort.{
  sort_by, take-drop, Sorted, Sorted-sort_by, Perm-sort_by, length-sort_by,
}
use live_actions.Models.{WorkflowRun}
use live_actions.Database.{RunRow, Db, call, reliable, reliable-eq}
use live_actions.Database.Queries.{
  run_matches, newer_run, matching, scan_run_row, get_workflow_runs_paginated,
}
use live_actions.Database.Queries.Pages.{newer_run_total, offset_lem, take_all, drop-drop}
use live_actions.Api.{Reply, json, error, RunsPage, runs_page, pages_of, list_runs}

abbrev and_then : RunsPage → Option (List WorkflowRun) → Option (List WorkflowRun)
and_then page none = if page.has_next then none else some page.workflow_runs
and_then page (some runs) =
    some (if page.has_next then page.workflow_runs ++ runs else page.workflow_runs)

abbrev read_on : Reply RunsPage × Db → Option (List WorkflowRun) → Option (List WorkflowRun)
read_on (error status message, db) rest = none
read_on (json page, db) rest = and_then page rest

-- The runs of this page and the next ones; `none` where a page is not answered with 200, or
-- `fuel` pages are not enough.
unfoldable pub follow : ℕ → ℕ → ℕ → String → String → Db → Option (List WorkflowRun)
unfolding list_runs
follow zero page limit repo status db = none
follow (suc fuel) page limit repo status db =
    let reply = list_runs page limit repo status db in
    let rest = follow fuel (suc page) limit repo status reply.1 in read_on reply rest

suc_lt : {m n : ℕ} → m ≤ n → m < suc n
suc_lt h = omega (arith, h)

ltb→le : (a b : ℕ) → ltb a b ≡ false → b ≤ a
ltb→le a b h = ground arith

below : {m n : ℕ} → m < n → ltb m n ≡ true
below h = ground (arith, h)

not_below : {m n : ℕ} → n ≤ m → ltb m n ≡ false
not_below h = ground (arith, h)

more_pages : (p total limit : ℕ) → 0 < limit → p < pages_of total limit → p * limit < total
unfolding pages_of
more_pages p total limit h k = omega (arith, (le-div_iff_mul-le h).0 k)

no_more : (p total limit : ℕ) → 0 < limit → pages_of total limit ≤ p → total ≤ p * limit
unfolding pages_of
no_more p total limit h k = omega (arith, (div-lt_iff_lt-mul h).0 (suc_lt k))

module _ (limit : ℕ) (repo status : String) where
  abbrev rows : Db → List (ℕ × RunRow)
  rows db = sort_by newer_run (matching repo status db)

  abbrev total : Db → ℕ
  total db = count (run_matches repo status db.jobs) db.runs

  abbrev page_rows : ℕ → Db → List (ℕ × RunRow)
  page_rows p db = take limit (drop (p * limit) (rows db))

  length-rows : (db : Db) → length (rows db) ≡ total db
  length-rows db =
      length-sort_by newer_run (matching repo status db)
      ∙ length-filter (run_matches repo status db.jobs) db.runs

  -- The answer for page p + 1, where no call fails.
  list_runs_lem :
      (p : ℕ) (db : Db)
      → p * limit < 2 ^ 63
      → list_runs (suc p) limit repo status (reliable db) ≡ (
        json (runs_page (suc p) limit (map scan_run_row (page_rows p db)) (total db)),
        reliable db,
      )
  unfolding list_runs get_workflow_runs_paginated call
  list_runs_lem p db h =
      ap
        (λ o. (
          json (
              runs_page (suc p) limit (map scan_run_row (take limit (drop o (rows db))))
                (total db)),
          reliable db,
        ))
        (offset_lem p limit h)

  last_page :
      (p : ℕ) (db : Db) → total db ≤ suc p * limit → page_rows p db ≡ drop (p * limit) (rows db)
  last_page p db h =
      take_all limit (drop (p * limit) (rows db))
        (omega (arith, length-drop (p * limit) (rows db), length-rows db, h))

  next_rows :
      (p : ℕ) (db : Db)
      → page_rows p db ++ drop (suc p * limit) (rows db) ≡ drop (p * limit) (rows db)
  next_rows p db =
      ap (λ ys. page_rows p db ++ ys)
        (ap (λ i. drop i (rows db)) {y = p * limit + limit} (omega arith)
          ∙ sym (drop-drop (p * limit) limit (rows db)))
      ∙ take-drop limit (drop (p * limit) (rows db))

  abbrev shown : ℕ → Db → RunsPage
  shown p db = runs_page (suc p) limit (map scan_run_row (page_rows p db)) (total db)

  -- The last page needs no more, whatever a further one would give.
  ends_here :
      (p : ℕ) (db : Db) (rest : Option (List WorkflowRun))
      → 0 < limit
      → pages_of (total db) limit ≤ suc p
      → and_then (shown p db) rest ≡ some (map scan_run_row (drop (p * limit) (rows db)))
  ends_here p db none h e =
      rw (not_below e, last_page p db (no_more (suc p) (total db) limit h e)) refl
  ends_here p db (some runs) h e =
      rw (not_below e, last_page p db (no_more (suc p) (total db) limit h e)) refl

  goes_on :
      (p : ℕ) (db : Db)
      → suc p < pages_of (total db) limit
      → and_then (shown p db) (some (map scan_run_row (drop (suc p * limit) (rows db))))
        ≡ some (map scan_run_row (drop (p * limit) (rows db)))
  goes_on p db e = rw (below e) (
      ap some (
        sym (map-append scan_run_row (page_rows p db) (drop (suc p * limit) (rows db)))
        ∙ ap (map scan_run_row) (next_rows p db)))

  follow-rows :
      (fuel p : ℕ) (db : Db)
      → 0 < limit
      → p * limit < 2 ^ 63
      → total db < 2 ^ 63
      → pages_of (total db) limit ≤ suc p + fuel
      → follow (suc fuel) (suc p) limit repo status (reliable db)
        ≡ some (map scan_run_row (drop (p * limit) (rows db)))
  unfolding follow
  follow-rows zero p db h k l e =
      ap (λ r. read_on r none) (list_runs_lem p db k) ∙ ends_here p db none h (omega (arith, e))
  follow-rows (suc fuel) p db h k l e =
      ap (λ r. read_on r (follow (suc fuel) (suc (suc p)) limit repo status r.1))
        (list_runs_lem p db k)
      ∙ elim (Bool-cases (ltb (suc p) (pages_of (total db) limit))) [
        | inl y ↦
            ap (and_then (shown p db)) (
              follow-rows fuel (suc p) db h
                (omega (
                  arith,
                  l,
                  more_pages (suc p) (total db) limit h
                      (ltb→lt (suc p) (pages_of (total db) limit) y),
                ))
                l (omega (arith, e)))
            ∙ goes_on p db (ltb→lt (suc p) (pages_of (total db) limit) y)
        | inr n ↦
            ends_here p db (follow (suc fuel) (suc (suc p)) limit repo status (reliable db)) h
              (ltb→le (suc p) (pages_of (total db) limit) n)
      ]

room : (n m limit : ℕ) → 0 < limit → m ≤ n → m + limit - 1 < (2 + n) * limit
room n m limit h k = omega (arith, h, k, mul-le-mul_left {m = 1} {n = limit} n h)

few_pages : (m n limit : ℕ) → 0 < limit → m ≤ n → pages_of m limit ≤ 1 + n
unfolding pages_of
few_pages m n limit h k = omega (
  arith,
  (div-lt_iff_lt-mul {k = limit} {x = m + limit - 1} {y = 2 + n} h).1 (room n m limit h k),
)

-- A client that reads the runs from page 1 on while has_next holds gets all runs that match the
-- filters, each once, newest first, if no call fails, the limit is positive, and the limit and the
-- number of runs together are below 2 to the 63.
pub follow-rows_all :
    (limit : ℕ) (repo status : String) (db : Db)
    → db.faults ≡ []
    → 0 < limit
    → limit + length db.runs < 2 ^ 63
    → (rows : List (ℕ × RunRow)) × Perm rows (matching repo status db)
      × Sorted newer_run rows
      × (follow (suc (length db.runs)) 1 limit repo status db ≡ some (map scan_run_row rows))
follow-rows_all limit repo status db f h k =
    let few : count (run_matches repo status db.jobs) db.runs ≤ length db.runs =
      count-le-length (run_matches repo status db.jobs) db.runs in
    (
      rows limit repo status db,
      Perm-sort_by newer_run (matching repo status db),
      Sorted-sort_by newer_run newer_run_total (matching repo status db),
      subst
          (λ d.
            follow (suc (length db.runs)) 1 limit repo status d
            ≡ some (map scan_run_row (rows limit repo status db)))
          (reliable-eq db f)
          (follow-rows limit repo status (length db.runs) 0 db h (omega arith)
              (omega (arith, few, k))
              (few_pages (total limit repo status db) (length db.runs) limit h few)
            ∙ ap (λ i. some (map scan_run_row (drop i (rows limit repo status db)))) {x = 0 * limit}
                {y = 0} (omega arith)),
    )
