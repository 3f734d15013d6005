-- ===== src/JobStore/InMemory.antt =====
-- class InMemoryJobStore of backend/app/services/job_store.py. Each method holds the lock for its
-- whole body, so it is one step on the dict. A job that a method returns is the value it has then;
-- the stored object is the entry of the table.
use ai_virtual_try_on.Prelude.{
  ℕ, String, Bool, true, false, not, ◌&&◌, Option, none, some, List, [], ◌∷◌, has_text,
  if◌then◌else◌,
}
use ai_virtual_try_on.Errors.Exec.{Exec, ok}
use ai_virtual_try_on.Job.{JobStatus, JobParams, Job, status_eq, failed}
use ai_virtual_try_on.Job.Table.{find, modify, put}
use ai_virtual_try_on.JobStore.{
  IdempotencyToken, JobStore, new_job, new_idempotent_job, with_status,
}

unfoldable pub create : JobParams → ℕ → ℕ → Exec (List Job) Job
create params id now jobs = let job = new_job params id now in (ok job, put job jobs)

unfoldable pub update_status : ℕ → JobStatus → Option String → ℕ → Exec (List Job) (Unit {0})
update_status i status error now jobs = (ok tt, modify i (with_status status error now) jobs)

unfoldable pub try_transition_status :
    ℕ → JobStatus → JobStatus → Option String → ℕ → Exec (List Job) Bool
try_transition_status i expected new error now jobs = elim (find i jobs) [
  | none ↦ (ok false, jobs)
  | some job ↦
      if not (status_eq job.status expected)
      then (ok false, jobs)
      else (ok true, modify i (with_status new error now) jobs)
]

unfoldable pub mark_saved : ℕ → ℕ → Exec (List Job) (Unit {0})
mark_saved i now jobs = (ok tt, modify i (λ j. record j { saved = true }) jobs)

-- `_find_active_by_idempotency_key_locked`
unfoldable pub find_active : String → String → List Job → Option Job
find_active scope key [] = none
find_active scope key (job ∷ jobs) =
    if has_text job.idempotency_scope scope
      && has_text job.idempotency_key key
      && not (status_eq job.status failed)
    then some job
    else find_active scope key jobs

unfoldable pub create_idempotent :
    IdempotencyToken → JobParams → ℕ → ℕ → Exec (List Job) (Job × Bool)
create_idempotent token params id now jobs =
    elim (find_active token.idempotency_scope token.idempotency_key jobs) [
      | some existing ↦ (ok (existing, false), jobs)
      | none ↦ let job = new_idempotent_job token params id now in (ok (job, true), put job jobs)
    ]

abbrev pub in_memory_job_store : JobStore (List Job)
in_memory_job_store = record {
  create = create;
  get = find;
  update_status = update_status;
  try_transition_status = try_transition_status;
  mark_saved = mark_saved;
  get_by_idempotency_key = find_active;
  create_idempotent = create_idempotent;
}
