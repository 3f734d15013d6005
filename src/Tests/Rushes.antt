-- ===== src/Tests/Rushes.antt =====
-- Two requests pass the check of a table with room for one job, and both insert.
use ai_virtual_try_on.Prelude.{◌+◌, ◌<◌, ◌≡◌, refl, List, [], arith}
use ai_virtual_try_on.Job.{Job}
use ai_virtual_try_on.Job.Table.{find}
use ai_virtual_try_on.JobStore.Db
use ai_virtual_try_on.JobStore.Db.{insert_row, fits_columns, owner_exists}
use ai_virtual_try_on.JobStore.Index.{conflicts, same_entry}
use ai_virtual_try_on.Quota.{active_jobs}
use ai_virtual_try_on.Submission.Rush.{Rush, admit, insert, Reach, start, later, active_jobs-lt}
use ai_virtual_try_on.Tests.Jobs.{params, schema}

abbrev one : List Job
one = (Db.create schema params 1 100 []).1

abbrev both : Rush
both = record { table = (Db.create schema params 2 101 one).1; admitted = 0 }

abbrev to_both : Reach 1 2 both
to_both =
    later
      (later (later (later start (admit [] 0 refl (omega arith))) (admit [] 1 refl (omega arith)))
        (insert schema params 1 100 [] 1))
      (insert schema params 2 101 one 0)

active_jobs-lt_example : active_jobs both.table + both.admitted < 1 + 2
active_jobs-lt_example = active_jobs-lt to_both (omega arith)

limit_exceeded : active_jobs both.table ≡ 2
unfolding find Db.create insert_row fits_columns owner_exists conflicts same_entry
limit_exceeded = refl
