-- ===== src/Tests/Jobs.antt =====
-- The stores of jobs and runs.
use mathlib.Core.List.{filter_map}
use mathlib.Core.List.Perm
use live_actions.Base.{◌≡◌, refl, ◌≤◌, some, List, [], ◌∷◌}
use live_actions.Base.Table.{upsert}
use live_actions.Models.{WorkflowJob}
use live_actions.Models.Status.{
  queued, completed, cancelled, requested, is_terminal_job_status, job_lifecycle, run_lifecycle,
  status_eq, is_terminal_run_status,
}
use live_actions.Database.{Db}
use live_actions.Database.Transition.{rank, admits}
use live_actions.Database.Jobs.{job_row, job_status_of, add_or_update_job}
use live_actions.Database.Jobs.Refinement.{Ends, add_or_update_job-Ends}
use live_actions.Database.Jobs.Order.{
  rank-add_or_update_job, job_terminal_final, add_or_update_jobs, job_order_independent,
}
use live_actions.Database.Runs.{run_status_of, add_or_update_run, run_row}
use live_actions.Database.Runs.Order.{add_or_update_runs, run_order_independent}
use live_actions.Tests.Samples.{job_at, run_at, empty_db}

abbrev in_order : List WorkflowJob
in_order = job_at queued ∷ job_at completed ∷ []

abbrev out_of_order : List WorkflowJob
out_of_order = job_at completed ∷ job_at queued ∷ []

late_queued_ignored : job_status_of 7 (add_or_update_jobs out_of_order empty_db) ≡ some completed
unfolding job_status_of add_or_update_jobs add_or_update_job admits job_lifecycle job_row upsert
    status_eq
late_queued_ignored = refl

job_order_independent_example :
    job_status_of 7 (add_or_update_jobs in_order empty_db)
    ≡ job_status_of 7 (add_or_update_jobs out_of_order empty_db)
unfolding job_status_of job_lifecycle is_terminal_job_status filter_map
job_order_independent_example =
    job_order_independent completed in_order out_of_order empty_db 7 (Perm.swap _ _ _) refl refl
      ((λ h. cc), ((λ h. refl), tt))

abbrev done_db : Db
done_db = (add_or_update_job (job_at completed) 0 empty_db).1

done_status : job_status_of 7 done_db ≡ some completed
unfolding add_or_update_job job_status_of admits job_lifecycle job_row upsert
done_status = refl

job_terminal_final_example : (add_or_update_job (job_at cancelled) 0 done_db).1.jobs ≡ done_db.jobs
unfolding is_terminal_job_status
job_terminal_final_example =
    job_terminal_final (job_at cancelled) 0 done_db completed done_status refl

add_or_update_job-Ends_example :
    Ends (job_at queued) done_db (add_or_update_job (job_at queued) 0 done_db)
add_or_update_job-Ends_example = add_or_update_job-Ends (job_at queued) 0 done_db

rank-add_or_update_job_example :
    rank job_lifecycle (job_status_of 7 done_db)
    ≤ rank job_lifecycle (job_status_of 7 (add_or_update_job (job_at queued) 0 done_db).1)
rank-add_or_update_job_example = rank-add_or_update_job (job_at queued) 0 done_db 7

-- The first of two different terminal statuses stays, so the order of those two shows.
first_terminal_stays :
    (job_status_of 7 (add_or_update_jobs (job_at completed ∷ job_at cancelled ∷ []) empty_db)
      ≡ some completed)
    × (job_status_of 7 (add_or_update_jobs (job_at cancelled ∷ job_at completed ∷ []) empty_db)
        ≡ some cancelled)
unfolding job_status_of add_or_update_jobs add_or_update_job admits job_lifecycle job_row upsert
    status_eq
first_terminal_stays = (refl, refl)

run_order_independent_example :
    run_status_of 3 (add_or_update_runs (run_at completed ∷ run_at requested ∷ []) empty_db)
    ≡ run_status_of 3 (add_or_update_runs (run_at requested ∷ run_at completed ∷ []) empty_db)
unfolding run_status_of run_lifecycle is_terminal_run_status filter_map
run_order_independent_example =
    run_order_independent completed (run_at completed ∷ run_at requested ∷ [])
      (run_at requested ∷ run_at completed ∷ []) empty_db 3 (Perm.swap _ _ _) refl refl
      ((λ h. refl), ((λ h. cc), tt))

abbrev done_runs : Db
done_runs = (add_or_update_run (run_at completed) 0 empty_db).1

done_run_status : run_status_of 3 done_runs ≡ some completed
unfolding add_or_update_run run_status_of admits run_lifecycle run_row upsert
done_run_status = refl
