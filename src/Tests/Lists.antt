-- ===== src/Tests/Lists.antt =====
-- Pages of jobs in the order that they are kept in.
use ai_virtual_try_on.Prelude.{◌+◌, ◌≡◌, ◌≤◌, refl, none, some, List, [], ◌∷◌, length, count_where}
use ai_virtual_try_on.Errors.Exec.{err}
use ai_virtual_try_on.Job.{Job, pending, processing, failed, completed}
use ai_virtual_try_on.JobStore.{new_job}
use ai_virtual_try_on.Quota.{active_jobs}
use ai_virtual_try_on.Administration.Listing.{get_jobs, bad_status, get_dashboard, add_group}
use ai_virtual_try_on.Administration.Listing.Dashboard.{
  sum_of, count_of, is_other, get_dashboard_lem,
}
use ai_virtual_try_on.Tests.Jobs.{params, waiting, failed_before}

abbrev done : Job
done = record (new_job params 5 10) { status = completed; updated_at = 70 }

abbrev rows : List Job
rows = waiting ∷ failed_before ∷ done ∷ []

abbrev as_kept : List Job → List Job
as_kept jobs = jobs

get_dashboard_lem_example :
    let d = get_dashboard as_kept 8 [] rows in
    (sum_of d.jobs_by_status ≡ length rows)
    × (d.active_job_count ≡ active_jobs rows)
    × (active_jobs rows ≡ count_of pending d.jobs_by_status + count_of processing d.jobs_by_status)
    × (length d.recent_failed_jobs ≤ 10)
    × (count_where is_other d.recent_failed_jobs ≡ 0)
get_dashboard_lem_example = get_dashboard_lem as_kept 8 [] rows (λ p jobs. refl)

groups :
    (get_dashboard as_kept 8 [] rows).jobs_by_status
    ≡ (pending, 1) ∷ (completed, 1) ∷ (failed, 1) ∷ []
unfolding get_dashboard add_group
groups = refl

mean_duration : (get_dashboard as_kept 8 [] rows).avg_duration ≡ some (60, 1)
unfolding get_dashboard
mean_duration = refl

unknown_status : get_jobs as_kept (some "done") none 50 0 rows ≡ err bad_status
unfolding get_jobs
unknown_status = refl
