-- ===== src/JobStore/Laws.antt =====
-- Both job stores meet the contract IsJobStore, on tables whose rows are unique.
use ai_virtual_try_on.Prelude.{
  ℕ, String, ◌≡◌, refl, ap, true, false, Option, none, List, [], ◌∷◌, arith, ◌==◌, inl, inr,
  Option-cases,
}
use ai_virtual_try_on.Job.{Job, JobStatus, JobParams, failed, status_eq, status_eq_lem}
use ai_virtual_try_on.Job.Table.{find, modify, put, find-modify, find-put, put-eq-append}
use ai_virtual_try_on.JobStore.{
  IdempotencyToken, IsJobStore, new_job, new_idempotent_job, with_status, as_saved, stays_failed,
}
use ai_virtual_try_on.JobStore.Index.{conflicts, IsUnique, same_entry, in_index}
use ai_virtual_try_on.JobStore.InMemory
use ai_virtual_try_on.JobStore.InMemory.{find_active, in_memory_job_store}
use ai_virtual_try_on.JobStore.Unique.{append-IsUnique, modify-IsUnique}
use ai_virtual_try_on.JobStore.Agreement.{
  conflicts_of_found, conflicts_mono, conflicts-with_status, conflicts-eq-find_active,
}

-- A row without a key conflicts with none.
pub conflicts-new_job :
    (params : JobParams) (id now : ℕ) (jobs : List Job)
    → conflicts (new_job params id now) jobs ≡ false
unfolding conflicts same_entry
conflicts-new_job params id now [] = refl
conflicts-new_job params id now (x ∷ jobs) = ground (arith, conflicts-new_job params id now jobs)

pub put-IsUnique :
    (row : Job) (jobs : List Job)
    → IsUnique jobs
    → find row.id jobs ≡ none
    → conflicts row jobs ≡ false
    → IsUnique (put row jobs)
put-IsUnique row jobs u new free =
    rw (put-eq-append row jobs new) (append-IsUnique row jobs u new free)

module _ (i : ℕ) (jobs : List Job) (unique : IsUnique jobs) where
  pub modify-with_status-IsUnique :
      (status : JobStatus) (error : Option String) (now : ℕ)
      → stays_failed in_memory_job_store i status jobs ≡ true
      → IsUnique (modify i (with_status status error now) jobs)
  modify-with_status-IsUnique status error now stays =
      modify-IsUnique i (with_status status error now) (λ x. refl) jobs unique
        λ r e.
          conflicts-with_status r status error now jobs (ground arith)
            (conflicts_of_found r i jobs unique e)

  pub modify-saved-IsUnique :
      (f : Job → Job)
      → ((x : Job) → f x ≡ record x { saved = true; updated_at = (f x).updated_at })
      → IsUnique (modify i f jobs)
  unfolding in_index
  modify-saved-IsUnique f only =
      modify-IsUnique i f (λ x. ap (λ (j : Job). j.id) (only x)) jobs unique
        λ r e.
          conflicts_mono r (f r) jobs (ap (λ (j : Job). j.id) (only r))
            (ap (λ (j : Job). j.idempotency_scope) (only r))
            (ap (λ (j : Job). j.idempotency_key) (only r)) (rw (only r) (ground arith))
            (conflicts_of_found r i jobs unique e)

in_memory_transition-IsUnique :
    (i : ℕ) (jobs : List Job)
    → IsUnique jobs
    → (expected new : JobStatus) (error : Option String) (now : ℕ)
    → status_eq expected failed ≡ false
    → IsUnique (InMemory.try_transition_status i expected new error now jobs).1
unfolding InMemory.try_transition_status
in_memory_transition-IsUnique i jobs u expected new error now alive =
    elim (Option-cases (find i jobs)) [
      | inl missing ↦ ground arith
      | inr (j, e) ↦ ground (
        arith,
        status_eq_lem j.status expected,
        modify-with_status-IsUnique i jobs u new error now,
      )
    ]

in_memory_create_idempotent-IsUnique :
    (token : IdempotencyToken) (params : JobParams) (id now : ℕ) (jobs : List Job)
    → IsUnique jobs
    → find id jobs ≡ none
    → IsUnique (InMemory.create_idempotent token params id now jobs).1
unfolding InMemory.create_idempotent
in_memory_create_idempotent-IsUnique token params id now jobs u new = ground (
  arith,
  conflicts-eq-find_active token params id now jobs new,
  put-IsUnique (new_idempotent_job token params id now) jobs u new,
)

find_same : (i k : ℕ) (s : List Job) → (i == k) ≡ true → find i s ≡ find k s
find_same i k s h = ap (λ (n : ℕ). find n s) (ground arith)

pub in_memory_job_store_laws : IsJobStore in_memory_job_store IsUnique (λ job. true)
unfolding InMemory.create InMemory.update_status InMemory.try_transition_status InMemory.mark_saved
    InMemory.create_idempotent
in_memory_job_store_laws = record {
  view-create = λ params id now s u new taken. (
    refl,
    put-IsUnique (new_job params id now) s u new (conflicts-new_job params id now s),
    λ k. ground (arith, find-put (new_job params id now) k s),
  );
  view-update_status = λ i status error now s u stays. (
    refl,
    modify-with_status-IsUnique i s u status error now stays,
    λ k. ground (arith, find-modify i k (with_status status error now) s (λ x. refl)),
  );
  view-try_transition_status = λ i expected new error now s u alive. (
    ground arith,
    in_memory_transition-IsUnique i s u expected new error now alive,
    λ k. ground (arith, find-modify i k (with_status new error now) s (λ x. refl), find_same i k s),
  );
  view-mark_saved = λ i now s u. (
    refl,
    modify-saved-IsUnique i s u as_saved (λ x. refl),
    λ k. ground (arith, find-modify i k as_saved s (λ x. refl)),
  );
  view-create_idempotent = λ token params id now s u new taken. (
    ground arith,
    in_memory_create_idempotent-IsUnique token params id now s u new,
    λ k. ground (arith, find-put (new_idempotent_job token params id now) k s),
  );
}
