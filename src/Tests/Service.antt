-- ===== src/Tests/Service.antt =====
-- Runs of the try-on service over the database store.
use ai_virtual_try_on.Prelude.{ℕ, ◌≡◌, ◌≢◌, refl, ◌⊎◌, true, none, some, List, [], ◌∷◌, length}
use ai_virtual_try_on.Errors.Exec.{ok, err}
use ai_virtual_try_on.Job.{Job, JobStatus, pending, cancelled}
use ai_virtual_try_on.Errors.{user_facing, not_cancellable}
use ai_virtual_try_on.JobStore.Index.{IsUnique, conflicts, same_entry}
use ai_virtual_try_on.JobStore.Db
use ai_virtual_try_on.JobStore.Db.{db_job_store}
use ai_virtual_try_on.JobStore.DbLaws.{db_job_store_laws}
use ai_virtual_try_on.Job.Table.{find}
use ai_virtual_try_on.Storage.{Disk}
use ai_virtual_try_on.TryOnService.{
  World, Runtime, generated, run_job, cancel_job, get_job_for_viewer, save_uploads, not_found,
  only_view, only_cancel,
}
use ai_virtual_try_on.TryOnService.RunJob.{Done, verdict, run_job_pending}
use ai_virtual_try_on.TryOnService.Access.{
  MayAccess, Cancels, Unchanged, get_job_for_viewer_lem, cancel_job_lem,
}
use ai_virtual_try_on.Tests.Jobs.{schema, waiting, failed_before, jobs, jobs-IsUnique}

-- Images are numbers, and the provider adds them.
abbrev pub runtime : Runtime ℕ
runtime = record {
  decode = λ b. some (length b);
  to_png_bytes = λ n. n ∷ [];
  generate = λ request. generated 5;
  can_write = λ n. true;
}

abbrev pub disk : Disk ℕ
disk = save_uploads (db_job_store schema) runtime 1 3 4 (record { tmp = []; results = [] })

abbrev pub world : World (List Job) ℕ
world = record { store = jobs; disk = disk }

pub found_waiting : find 1 jobs ≡ some waiting
unfolding find
found_waiting = refl

found_failed : find 2 jobs ≡ some failed_before
unfolding find
found_failed = refl

run_job_pending_example :
    Done
      (db_job_store schema)
      runtime
      IsUnique
      (db_job_store_laws schema)
      1
      (verdict (db_job_store schema) runtime 1 waiting world)
      world
      (run_job (db_job_store schema) runtime 1 200 900 world)
run_job_pending_example =
    run_job_pending (db_job_store schema) runtime IsUnique (db_job_store_laws schema) 1 200 900
      world jobs-IsUnique waiting found_waiting refl

-- Of the four ends, a stranger's call has the third.
cancel_job_lem_example :
    let (r, w') = cancel_job (db_job_store schema) runtime 1 (some 8) 150 world in
    ((job : Job) × (find 1 jobs ≡ some job)
      × MayAccess (some 8) job
      × (job.status ≡ pending)
      × (r ≡ ok (record job { status = cancelled }))
      × Cancels (db_job_store schema) runtime IsUnique (db_job_store_laws schema) 1 world w')
    ⊎ ((find 1 jobs ≡ none)
        × (r ≡ err not_found)
        × Unchanged (db_job_store schema) runtime IsUnique (db_job_store_laws schema) world w')
    ⊎ ((job : Job) × (find 1 jobs ≡ some job)
        × ¬ MayAccess (some 8) job
        × (r ≡ err only_cancel)
        × Unchanged (db_job_store schema) runtime IsUnique (db_job_store_laws schema) world w')
    ⊎ ((job : Job) × (find 1 jobs ≡ some job)
        × MayAccess (some 8) job
        × (job.status ≢ pending)
        × ((status : JobStatus) × (r ≡ err (user_facing (not_cancellable status) 409)))
        × Unchanged (db_job_store schema) runtime IsUnique (db_job_store_laws schema) world w')
cancel_job_lem_example =
    cancel_job_lem (db_job_store schema) runtime IsUnique (db_job_store_laws schema) 1 (some 8) 150
      world jobs-IsUnique

abbrev after : World (List Job) ℕ
after = (cancel_job (db_job_store schema) runtime 1 (some 7) 150 world).1

cancels :
    (cancel_job (db_job_store schema) runtime 1 (some 7) 150 world).0
    ≡ ok (record waiting { status = cancelled })
unfolding cancel_job find Db.try_transition_status conflicts same_entry
cancels = refl

get_job_for_viewer_lem_example :
    ((job : Job) × (find 1 jobs ≡ some job)
      × MayAccess none job
      × (get_job_for_viewer (db_job_store schema) runtime 1 none world ≡ (ok job, world)))
    ⊎ ((find 1 jobs ≡ none)
        × (get_job_for_viewer (db_job_store schema) runtime 1 none world ≡ (err not_found, world)))
    ⊎ ((job : Job) × (find 1 jobs ≡ some job)
        × ¬ MayAccess none job
        × (get_job_for_viewer (db_job_store schema) runtime 1 none world ≡ (err only_view, world)))
get_job_for_viewer_lem_example = get_job_for_viewer_lem (db_job_store schema) runtime 1 none world
