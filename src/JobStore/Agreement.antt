-- ===== src/JobStore/Agreement.antt =====
-- DbJobStore and InMemoryJobStore do the same to the same jobs, while the rows are unique: the
-- constraint of the database and the search under the lock are one guard.
use ai_virtual_try_on.Prelude.{
  ℕ, String, ◌≡◌, refl, Bool, true, false, ◌&&◌, not, Option, none, some, List, [], ◌∷◌, arith, inl,
  inr, Option-cases, is_some,
}
use ai_virtual_try_on.Job.{Job, JobStatus, JobParams, failed, status_eq, status_eq_lem}
use ai_virtual_try_on.Job.Table.{find, put-eq-append}
use ai_virtual_try_on.JobStore.{IdempotencyToken, new_idempotent_job, with_status}
use ai_virtual_try_on.JobStore.Index.{in_index, same_entry, conflicts, clashes, IsUnique}
use ai_virtual_try_on.JobStore.InMemory
use ai_virtual_try_on.JobStore.InMemory.{find_active}
use ai_virtual_try_on.JobStore.Db
use ai_virtual_try_on.JobStore.Db.{Schema, fits_columns, owner_exists}
use ai_virtual_try_on.JobStore.Unique.{same_entry_comm}

-- A row that is not there for its id conflicts exactly when the search for its key finds a job.
pub conflicts-eq-find_active :
    (token : IdempotencyToken) (params : JobParams) (id now : ℕ) (jobs : List Job)
    → find id jobs ≡ none
    → conflicts (new_idempotent_job token params id now) jobs
      ≡ is_some (find_active token.idempotency_scope token.idempotency_key jobs)
unfolding find conflicts same_entry find_active
conflicts-eq-find_active token params id now [] new = refl
conflicts-eq-find_active token params id now (x ∷ jobs) new =
    ground (arith, conflicts-eq-find_active token params id now jobs)

-- The table takes the row, but for a conflict.
abbrev pub takes : Schema → Job → Bool
takes schema row = fits_columns schema row && owner_exists schema row

-- With a fresh id, values that the columns take and an owner that exists, the two stores answer
-- `create_idempotent` alike and keep the same jobs.
pub create_idempotent_agree :
    (schema : Schema) (token : IdempotencyToken) (params : JobParams) (id now : ℕ) (jobs : List Job)
    → find id jobs ≡ none
    → takes schema (new_idempotent_job token params id now) ≡ true
    → Db.create_idempotent schema token params id now jobs
      ≡ InMemory.create_idempotent token params id now jobs
unfolding Db.create_idempotent InMemory.create_idempotent
create_idempotent_agree schema token params id now jobs new taken = ground (
  arith,
  taken,
  conflicts-eq-find_active token params id now jobs new,
  put-eq-append (new_idempotent_job token params id now) jobs new,
)

clashes_found :
    (x row : Job) (i : ℕ) (jobs : List Job)
    → clashes x jobs ≡ false
    → find i jobs ≡ some row
    → same_entry row x ≡ false
unfolding clashes find
clashes_found x row i [] h e = ground arith
clashes_found x row i (y ∷ jobs) h e = ground (arith, clashes_found x row i jobs)

conflicts_of_clashes :
    (x : Job) (jobs : List Job) → clashes x jobs ≡ false → conflicts x jobs ≡ false
unfolding clashes conflicts
conflicts_of_clashes x [] h = refl
conflicts_of_clashes x (y ∷ jobs) h = ground (arith, conflicts_of_clashes x jobs)

-- A stored row conflicts with no other.
pub conflicts_of_found :
    (row : Job) (i : ℕ) (jobs : List Job)
    → IsUnique jobs
    → find i jobs ≡ some row
    → conflicts row jobs ≡ false
unfolding conflicts find
conflicts_of_found row i [] u e = ground arith
conflicts_of_found row i (x ∷ jobs) u e = ground (
  arith,
  conflicts_of_found row i jobs u.1,
  conflicts_of_clashes x jobs u.0,
  clashes_found x row i jobs u.0,
  same_entry_comm x row,
)

-- A version of the row that enters the index only if the row is in it conflicts with no more.
same_entry_mono :
    (x row row' : Job)
    → row'.idempotency_scope ≡ row.idempotency_scope
    → row'.idempotency_key ≡ row.idempotency_key
    → (in_index row' && not (in_index row)) ≡ false
    → same_entry x row ≡ false
    → same_entry x row' ≡ false
unfolding same_entry
same_entry_mono x row row' scope key enters free = rw (scope, key) (ground arith)

pub conflicts_mono :
    (row row' : Job) (jobs : List Job)
    → row'.id ≡ row.id
    → row'.idempotency_scope ≡ row.idempotency_scope
    → row'.idempotency_key ≡ row.idempotency_key
    → (in_index row' && not (in_index row)) ≡ false
    → conflicts row jobs ≡ false
    → conflicts row' jobs ≡ false
unfolding conflicts
conflicts_mono row row' [] same scope key enters free = refl
conflicts_mono row row' (x ∷ jobs) same scope key enters free = ground (
  arith,
  same_entry_mono x row row' scope key enters,
  conflicts_mono row row' jobs same scope key enters,
)

-- A new status moves a row into the index only from `failed` to another status.
enters_index :
    (row : Job) (status : JobStatus) (error : Option String) (now : ℕ)
    → (status_eq row.status failed && not (status_eq status failed)) ≡ false
    → (in_index (with_status status error now row) && not (in_index row)) ≡ false
unfolding in_index
enters_index row status error now h = ground arith

-- An update of the status of a row that is in the index, or to `failed`, takes no new entry.
pub conflicts-with_status :
    (row : Job) (status : JobStatus) (error : Option String) (now : ℕ) (jobs : List Job)
    → (status_eq row.status failed && not (status_eq status failed)) ≡ false
    → conflicts row jobs ≡ false
    → conflicts (with_status status error now row) jobs ≡ false
conflicts-with_status row status error now jobs h free =
    conflicts_mono row (with_status status error now row) jobs refl refl refl
      (enters_index row status error now h) free

module _ (i : ℕ) (jobs : List Job) (unique : IsUnique jobs) where
  -- Between statuses other than `failed` no constraint is in the way: the two stores make the
  -- same transition and return the same answer.
  pub try_transition_agree :
      (expected new : JobStatus) (error : Option String) (now : ℕ)
      → status_eq expected failed ≡ false
      → Db.try_transition_status i expected new error now jobs
        ≡ InMemory.try_transition_status i expected new error now jobs
  unfolding Db.try_transition_status InMemory.try_transition_status
  try_transition_agree expected new error now alive = elim (Option-cases (find i jobs)) [
    | inl missing ↦ ground arith
    | inr (row, e) ↦ ground (
      arith,
      status_eq_lem row.status expected,
      conflicts-with_status row new error now jobs,
      conflicts_of_found row i jobs unique e,
    )
  ]
