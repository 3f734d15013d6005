-- ===== src/Sweeps.antt =====
-- The maintenance sweeps: recover_stale_processing_jobs of backend/app/services/job_recovery.py and
-- cleanup_expired_results of backend/scripts/cleanup_expired_results.py. Whether a storage call
-- raises for a job is an argument. The rows that a sweep visits are those that its query returned;
-- the table that its flush writes may have changed since.
pub mod Recovery
pub mod Cleanup
use ai_virtual_try_on.Prelude.{
  ℕ, zero, suc, ◌-◌, ◌*◌, String, Bool, true, false, not, ◌&&◌, ◌||◌, some, List, [], ◌∷◌, ltb,
  length, select, map, any_of, is_some, if◌then◌else◌,
}
use ai_virtual_try_on.Errors.{stale_data_error}
use ai_virtual_try_on.Errors.Exec.{Result, ok, err, Exec}
use ai_virtual_try_on.Job.{Job, processing, completed, failed, status_eq}
use ai_virtual_try_on.Job.Table.{find, modify}
use ai_virtual_try_on.JobStore.{with_status}
use ai_virtual_try_on.Storage.{Disk, delete_result, cleanup_temp}

abbrev pub minute : ℕ
minute = 60000000

abbrev pub stale_job_error_message : String
stale_job_error_message =
    "This generation took longer than expected and was stopped. Please try again."

-- The storage calls that raise.
pub record Faults : Type 0 where
  pub cleanup_fails : ℕ → Bool
  pub delete_fails : ℕ → Bool

abbrev pub is_stale : ℕ → Job → Bool
is_stale cutoff j = status_eq j.status processing && ltb j.updated_at cutoff

abbrev pub recovered : ℕ → Job → Job
recovered now = with_status failed (some stale_job_error_message) now

-- `UPDATE jobs SET status, error WHERE id = ...` for each visited row.
unfoldable pub recover_rows : ℕ → List Job → List Job → List Job
recover_rows now [] table = table
recover_rows now (j ∷ stale) table = recover_rows now stale (modify j.id (recovered now) table)

-- The flush writes every row or none: when a row of the query is gone, it raises StaleDataError and
-- the session is rolled back.
abbrev pub is_missing : List Job → Job → Bool
is_missing table j = not (is_some (find j.id table))

unfoldable pub flush_rows : ℕ → List Job → Exec (List Job) (Unit {0})
flush_rows now stale table =
    if any_of (is_missing table) stale
    then (err stale_data_error, table)
    else (ok tt, recover_rows now stale table)

-- What the sweep returns, if its flush is accepted.
abbrev pub and_returns : {A : Type 0} → Result (Unit {0}) → A → Result A
and_returns (ok _) a = ok a
and_returns (err e) a = err e

abbrev pub unless : {A : Type 0} → Bool → (A → A) → A → A
unless true f a = a
unless false f a = f a

abbrev pub is_expired : ℕ → Job → Bool
is_expired cutoff j = status_eq j.status completed && not j.saved && ltb j.updated_at cutoff

abbrev pub cleanup_fails_for : Faults → Job → Bool
cleanup_fails_for faults j = faults.delete_fails j.id || faults.cleanup_fails j.id

-- The exit code of `main`, from the counts of deleted and failed jobs and the ids of the latter.
abbrev pub exit_code : ℕ × ℕ × List ℕ → ℕ
exit_code (deleted, zero, ids) = 0
exit_code (deleted, suc n, ids) = 1

module _ {Image : Type 0} (faults : Faults) where
  -- The two storage calls of a recovered job, each in its own `try`.
  unfoldable pub recover_file : ℕ → Disk Image → Disk Image
  recover_file i d =
      unless (faults.delete_fails i) (delete_result i)
        (unless (faults.cleanup_fails i) (cleanup_temp i) d)

  unfoldable pub recover_files : List Job → Disk Image → Disk Image
  recover_files [] d = d
  recover_files (j ∷ stale) d = recover_files stale (recover_file j.id d)

  -- The number of recovered jobs and their ids, the table and the files, where `snapshot` is what
  -- the query saw and `table` what the flush finds.
  unfoldable pub recover_stale_processing_jobs :
      ℕ → ℕ → List Job → List Job → Disk Image → Result (ℕ × List ℕ) × List Job × Disk Image
  recover_stale_processing_jobs now threshold_minutes snapshot table d =
      let stale = select (is_stale (now - threshold_minutes * minute)) snapshot in
      let (r, table') = flush_rows now stale table in
      (and_returns r (length stale, map (λ (j : Job). j.id) stale), table', recover_files stale d)

  -- One `try` holds both calls: if the first raises, the second is not made.
  unfoldable pub cleanup_file : ℕ → Disk Image → Disk Image
  cleanup_file i d =
      unless (faults.delete_fails i)
        (λ d'. unless (faults.cleanup_fails i) (cleanup_temp i) (delete_result i d')) d

  unfoldable pub cleanup_files : List Job → Disk Image → Disk Image
  cleanup_files [] d = d
  cleanup_files (j ∷ expired) d = cleanup_files expired (cleanup_file j.id d)

  -- The counts of deleted and failed jobs, the ids of the failed ones, and the files.
  unfoldable pub cleanup_expired_results :
      ℕ → ℕ → List Job → Disk Image → (ℕ × ℕ × List ℕ) × Disk Image
  cleanup_expired_results now ttl_hours jobs d =
      let expired = select (is_expired (now - ttl_hours * (60 * minute))) jobs in
      let bad = select (cleanup_fails_for faults) expired in
      (
        (
          length (select (λ j. not (cleanup_fails_for faults j)) expired),
          length bad,
          map (λ (j : Job). j.id) bad,
        ),
        cleanup_files expired d,
      )
