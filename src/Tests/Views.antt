-- ===== src/Tests/Views.antt =====
-- What viewers are shown.
use ai_virtual_try_on.Prelude.{◌≡◌, refl, some, [], ◌∷◌, inr, if◌then◌else◌}
use ai_virtual_try_on.Errors.{user_facing}
use ai_virtual_try_on.Errors.Exec.{ok, err}
use ai_virtual_try_on.Accounts.{find_user}
use ai_virtual_try_on.JobStore.Index.{IsUnique}
use ai_virtual_try_on.JobStore.Db.{db_job_store}
use ai_virtual_try_on.JobStore.DbLaws.{db_job_store_laws}
use ai_virtual_try_on.TryOnService.{run_job}
use ai_virtual_try_on.TryOnService.RunJob.{verdict}
use ai_virtual_try_on.Quota.{is_at_capacity, quota_exceeded_message}
use ai_virtual_try_on.Administration.Listing.{to_user_row}
use ai_virtual_try_on.Submission.{status_for, check_admission, capacity_exceeded}
use ai_virtual_try_on.Viewing.{get_my_usage, get_user}
use ai_virtual_try_on.Viewing.Delivery.{Shown, run_job-Shown}
use ai_virtual_try_on.Viewing.Usage.{shows_none_left, caller_of, usage_lem}
use ai_virtual_try_on.Tests.Jobs.{schema, waiting, jobs, jobs-IsUnique}
use ai_virtual_try_on.Tests.Accounts.{ann}
use ai_virtual_try_on.Tests.Submissions.{config, caller}
use ai_virtual_try_on.Tests.Service.{runtime, world, found_waiting}

run_job-Shown_example :
    Shown
      (db_job_store schema)
      runtime
      1
      (some 7)
      (verdict (db_job_store schema) runtime 1 waiting world)
      (run_job (db_job_store schema) runtime 1 200 900 world).1
run_job-Shown_example =
    run_job-Shown (db_job_store schema) runtime IsUnique (db_job_store_laws schema) 1 200 900 world
      jobs-IsUnique waiting found_waiting refl (some 7) (inr (7, refl, refl))

found_ann : find_user 7 (ann ∷ []) ≡ some ann
unfolding find_user
found_ann = refl

usage_lem_example :
    (check_admission config caller 300 jobs ≡ (
      if shows_none_left (get_my_usage config caller 300 jobs)
      then err (user_facing (quota_exceeded_message (status_for config caller 300 jobs)) 429)
      else if is_at_capacity config.max_active_tryon_jobs jobs
      then err capacity_exceeded
      else ok tt))
    × (get_user config 7 300 (ann ∷ []) jobs
        ≡ ok (to_user_row ann, get_my_usage config (caller_of ann "10.0.0.1") 300 jobs))
usage_lem_example = usage_lem config ann "10.0.0.1" 300 (ann ∷ []) jobs found_ann caller
