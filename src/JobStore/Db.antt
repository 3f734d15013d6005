-- ===== src/JobStore/Db.antt =====
-- class DbJobStore of backend/app/services/db_job_store.py over the rows of `jobs`. A statement
-- that would break a constraint raises IntegrityError, one with a value that its column does not
-- take DataError, and the session is rolled back, so the table stays as it was
-- (backend/app/db/base.py: get_session). An ORM flush writes no row
-- whose columns are unchanged; one that it writes gets a new updated_at (onupdate=_utcnow).
use ai_virtual_try_on.Prelude.{
  ℕ, String, Bool, true, false, not, ltb, ◌&&◌, ◌||◌, Option, none, some, List, [], ◌∷◌, ◌++◌,
  opt_text_eq, is_some, if◌then◌else◌,
}
use ai_virtual_try_on.Errors.{Error, integrity_error, data_error}
use ai_virtual_try_on.Errors.Exec.{ok, err, Exec}
use ai_virtual_try_on.Job.{JobStatus, JobParams, Job, Seed, pos, negsuc, status_eq}
use ai_virtual_try_on.Job.Table.{find, modify}
use ai_virtual_try_on.JobStore.{
  IdempotencyToken, JobStore, new_job, new_idempotent_job, with_status,
}
use ai_virtual_try_on.JobStore.Index.{conflicts}
use ai_virtual_try_on.JobStore.InMemory.{find_active}

-- What the columns and the foreign key of `jobs` are checked against (backend/app/db/models.py:
-- JobRecord): the ids of `users`, and whether the texts of a row fit their VARCHARs.
pub record Schema : Type 0 where
  pub has_user : ℕ → Bool
  pub fits_texts : Job → Bool

-- INTEGER has 32 bits.
abbrev pub fits_integer : Seed → Bool
fits_integer (pos n) = ltb n 2147483648
fits_integer (negsuc n) = ltb n 2147483648

unfoldable pub fits_columns : Schema → Job → Bool
fits_columns schema row =
    fits_integer row.seed && fits_integer (pos row.num_timesteps) && schema.fits_texts row

unfoldable pub owner_exists : Schema → Job → Bool
owner_exists schema row = elim row.user_id [ none ↦ true | some i ↦ schema.has_user i ]

-- `session.add(record); session.flush()`: a value that is no value of its column raises DataError,
-- a broken constraint IntegrityError.
unfoldable pub insert_row : Schema → Job → Exec (List Job) (Unit {0})
insert_row schema row jobs =
    if not (fits_columns schema row)
    then (err data_error, jobs)
    else if is_some (find row.id jobs) || conflicts row jobs || not (owner_exists schema row)
    then (err integrity_error, jobs)
    else (ok tt, jobs ++ row ∷ [])

-- `UPDATE jobs SET ... WHERE id = :id`
unfoldable pub update_row : ℕ → (Job → Job) → Job → Exec (List Job) (Unit {0})
update_row i f row jobs =
    if conflicts (f row) jobs then (err integrity_error, jobs) else (ok tt, modify i f jobs)

unfoldable pub create : Schema → JobParams → ℕ → ℕ → Exec (List Job) Job
unfolding insert_row
create schema params id now jobs =
    let row = new_job params id now in
    let (r, jobs') = insert_row schema row jobs in
    elim r [ ok _ ↦ (ok row, jobs') | err e ↦ (err e, jobs') ]

unfoldable pub update_status : ℕ → JobStatus → Option String → ℕ → Exec (List Job) (Unit {0})
unfolding update_row
update_status i status error now jobs = elim (find i jobs) [
  | none ↦ (ok tt, jobs)
  | some row ↦
      if status_eq row.status status && opt_text_eq row.error error
      then (ok tt, jobs)
      else update_row i (with_status status error now) row jobs
]

-- One `UPDATE ... WHERE id = :id AND status = :expected`; the result is `rowcount == 1`.
unfoldable pub try_transition_status :
    ℕ → JobStatus → JobStatus → Option String → ℕ → Exec (List Job) Bool
unfolding update_row
try_transition_status i expected new error now jobs = elim (find i jobs) [
  | none ↦ (ok false, jobs)
  | some row ↦
      if status_eq row.status expected
      then (let (r, jobs') = update_row i (with_status new error now) row jobs in
          elim r [ ok _ ↦ (ok true, jobs') | err e ↦ (err e, jobs') ])
      else (ok false, jobs)
]

unfoldable pub mark_saved : ℕ → ℕ → Exec (List Job) (Unit {0})
unfolding update_row
mark_saved i now jobs = elim (find i jobs) [
  | none ↦ (ok tt, jobs)
  | some row ↦
      if row.saved
      then (ok tt, jobs)
      else update_row i (λ j. record j { saved = true; updated_at = now }) row jobs
]

-- The SELECT has the conditions of the in-memory search, and takes the first row.
unfoldable pub get_by_idempotency_key : String → String → List Job → Option Job
unfolding find_active
get_by_idempotency_key scope key jobs = find_active scope key jobs

-- `except IntegrityError`
abbrev pub is_integrity_error : Error → Bool
is_integrity_error integrity_error = true
is_integrity_error _ = false

unfoldable pub create_idempotent :
    Schema → IdempotencyToken → JobParams → ℕ → ℕ → Exec (List Job) (Job × Bool)
unfolding insert_row get_by_idempotency_key
create_idempotent schema token params id now jobs =
    let row = new_idempotent_job token params id now in
    let (r, jobs') = insert_row schema row jobs in
    elim r [
      | ok _ ↦ (ok (row, true), jobs')
      | err e ↦
          if is_integrity_error e
          then elim (get_by_idempotency_key token.idempotency_scope token.idempotency_key jobs') [
            | none ↦ (err e, jobs')
            | some existing ↦ (ok (existing, false), jobs')
          ]
          else (err e, jobs')
    ]

abbrev pub db_job_store : Schema → JobStore (List Job)
db_job_store schema = record {
  create = create schema;
  get = find;
  update_status = update_status;
  try_transition_status = try_transition_status;
  mark_saved = mark_saved;
  get_by_idempotency_key = get_by_idempotency_key;
  create_idempotent = create_idempotent schema;
}
