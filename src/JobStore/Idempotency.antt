-- ===== src/JobStore/Idempotency.antt =====
-- Deduplication by (idempotency_scope, idempotency_key): create_idempotent of DbJobStore
-- (backend/app/services/db_job_store.py).
use ai_virtual_try_on.Prelude.{
  ℕ, String, ◌≡◌, refl, Bool, true, false, ◌&&◌, not, none, some, List, [], ◌∷◌, ◌++◌, ◌≤◌, arith,
  inl, inr, Bool-cases, Option-cases, has_text, count_where, str_eq_self, has_text_iff,
}
use ai_virtual_try_on.Errors.Exec.{ok}
use ai_virtual_try_on.Job.{Job, JobParams, failed, status_eq}
use ai_virtual_try_on.Job.Table.{find}
use ai_virtual_try_on.JobStore.{IdempotencyToken, new_idempotent_job}
use ai_virtual_try_on.JobStore.Index.{same_entry, clashes, IsUnique}
use ai_virtual_try_on.JobStore.InMemory.{find_active}
use ai_virtual_try_on.JobStore.Db
use ai_virtual_try_on.JobStore.Db.{Schema, fits_columns, owner_exists}
use ai_virtual_try_on.JobStore.Agreement.{conflicts-eq-find_active}

-- The job is an active one for this scope and key.
unfoldable pub is_active_for : String → String → Job → Bool
is_active_for scope key job =
    has_text job.idempotency_scope scope
    && has_text job.idempotency_key key
    && not (status_eq job.status failed)

find_active-append :
    (token : IdempotencyToken) (params : JobParams) (id now : ℕ) (jobs : List Job)
    → find_active token.idempotency_scope token.idempotency_key jobs ≡ none
    → find_active token.idempotency_scope token.idempotency_key
        (jobs ++ new_idempotent_job token params id now ∷ [])
      ≡ some (new_idempotent_job token params id now)
unfolding find_active
find_active-append token params id now [] free =
    ground (arith, str_eq_self token.idempotency_scope, str_eq_self token.idempotency_key)
find_active-append token params id now (x ∷ jobs) free =
    ground (arith, find_active-append token params id now jobs)

-- Whatever create_idempotent returns, a search for the key then finds it.
pub get_by_key-create :
    (schema : Schema) (token : IdempotencyToken) (params : JobParams) (id now : ℕ) (jobs : List Job)
    (job : Job) (created : Bool)
    → find id jobs ≡ none
    → (Db.create_idempotent schema token params id now jobs).0 ≡ ok (job, created)
    → Db.get_by_idempotency_key token.idempotency_scope token.idempotency_key
        (Db.create_idempotent schema token params id now jobs).1
      ≡ some job
unfolding Db.create_idempotent Db.get_by_idempotency_key
get_by_key-create schema token params id now jobs job created new h =
    let row = new_idempotent_job token params id now in
    elim (Bool-cases (fits_columns schema row)) [
      | inr refused ↦ absurd (ground arith)
      | inl fits ↦
          elim (Option-cases (find_active token.idempotency_scope token.idempotency_key jobs)) [
            | inl free ↦ elim (Bool-cases (owner_exists schema row)) [
              | inl owned ↦ ground (
                arith,
                conflicts-eq-find_active token params id now jobs new,
                find_active-append token params id now jobs free,
              )
              | inr orphan ↦ absurd (ground arith)
            ]
            | inr (existing, held) ↦
                ground (arith, conflicts-eq-find_active token params id now jobs new)
          ]
    ]

created_again :
    (schema : Schema) (token : IdempotencyToken) (params : JobParams) (id now : ℕ) (jobs : List Job)
    (job : Job)
    → find id jobs ≡ none
    → fits_columns schema (new_idempotent_job token params id now) ≡ true
    → Db.get_by_idempotency_key token.idempotency_scope token.idempotency_key jobs ≡ some job
    → Db.create_idempotent schema token params id now jobs ≡ (ok (job, false), jobs)
unfolding Db.create_idempotent Db.get_by_idempotency_key
created_again schema token params id now jobs job new fits held =
    ground (arith, conflicts-eq-find_active token params id now jobs new)

-- Whatever the first call of `create_idempotent` returned, created or not, a later call with the
-- same scope and key on the table that it left, for any fingerprint, parameters whose values fit
-- their columns, any time and a fresh id, returns the same job as not created, and leaves the table
-- as it is.
pub create_idempotent_twice :
    (schema : Schema) (token : IdempotencyToken) (fingerprint : String) (params params' : JobParams)
    (id id' now now' : ℕ) (jobs : List Job) (job : Job) (created : Bool)
    → find id jobs ≡ none
    → let again = record token { idempotency_fingerprint = fingerprint } in
      let jobs' = (Db.create_idempotent schema token params id now jobs).1 in
      find id' jobs' ≡ none
      → (Db.create_idempotent schema token params id now jobs).0 ≡ ok (job, created)
      → fits_columns schema (new_idempotent_job again params' id' now') ≡ true
      → Db.create_idempotent schema again params' id' now' jobs' ≡ (ok (job, false), jobs')
create_idempotent_twice schema token fingerprint params params' id id' now now' jobs job created new
      new' h fits =
    created_again schema (record token { idempotency_fingerprint = fingerprint }) params' id' now'
      (Db.create_idempotent schema token params id now jobs).1 job new' fits
      (get_by_key-create schema token params id now jobs job created new h)

none_beside :
    (scope key : String) (j : Job) (jobs : List Job)
    → is_active_for scope key j ≡ true
    → clashes j jobs ≡ false
    → count_where (is_active_for scope key) jobs ≡ 0
unfolding is_active_for clashes same_entry
none_beside scope key j [] active h = refl
none_beside scope key j (x ∷ jobs) active h = ground (
  arith,
  none_beside scope key j jobs active,
  has_text_iff j.idempotency_scope scope,
  has_text_iff j.idempotency_key key,
  has_text_iff x.idempotency_scope scope,
  has_text_iff x.idempotency_key key,
  str_eq_self scope,
  str_eq_self key,
)

-- In a table with unique rows at most one job is active for a scope and a key.
pub at_most_one_active :
    (scope key : String) (jobs : List Job)
    → IsUnique jobs
    → count_where (is_active_for scope key) jobs ≤ 1
at_most_one_active scope key [] u = omega arith
at_most_one_active scope key (j ∷ jobs) u = elim (Bool-cases (is_active_for scope key j)) [
  | inl active ↦ ground (arith, none_beside scope key j jobs active u.0)
  | inr idle ↦ ground (arith, at_most_one_active scope key jobs u.1)
]
