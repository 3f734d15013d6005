-- ===== src/Tests/Jobs.antt =====
-- Jobs, tokens and runs of the job stores.
use ai_virtual_try_on.Prelude.{◌≡◌, refl, true, false, none, some, List, [], ◌∷◌, count_where}
use ai_virtual_try_on.Errors.{integrity_error, data_error}
use ai_virtual_try_on.Errors.Exec.{ok, err}
use ai_virtual_try_on.Job.{Job, JobParams, pos, completed, failed}
use ai_virtual_try_on.Job.Table.{find, modify}
use ai_virtual_try_on.JobStore.{IsJobStore, IdempotencyToken, new_job, new_idempotent_job}
use ai_virtual_try_on.JobStore.Index.{IsUnique, clashes, conflicts, same_entry}
use ai_virtual_try_on.JobStore.InMemory
use ai_virtual_try_on.JobStore.Db
use ai_virtual_try_on.JobStore.Db.{Schema, db_job_store, insert_row, fits_columns, owner_exists}
use ai_virtual_try_on.JobStore.DbLaws.{db_job_store_laws}
use ai_virtual_try_on.JobStore.Agreement.{create_idempotent_agree, takes}
use ai_virtual_try_on.JobStore.Idempotency.{is_active_for, create_idempotent_twice}

abbrev pub params : JobParams
params = record {
  user_id = some 7;
  category = "tops";
  num_timesteps = 30;
  guidance_scale = 250;
  seed = pos 42;
  client_ip = some "10.0.0.1";
  garment_photo_type = "flat-lay";
}

-- Every account exists, and every text fits.
abbrev pub schema : Schema
schema = record { has_user = λ i. true; fits_texts = λ j. true }

abbrev pub token : IdempotencyToken
token = record {
  idempotency_scope = "user:7";
  idempotency_key = "k1";
  idempotency_fingerprint = "f1";
}

-- A pending job of user 7, and one that failed under the key.
abbrev pub waiting : Job
waiting = new_job params 1 100

abbrev pub failed_before : Job
failed_before = record (new_idempotent_job token params 2 50) { status = failed }

abbrev pub jobs : List Job
jobs = waiting ∷ failed_before ∷ []

pub jobs-IsUnique : IsUnique jobs
unfolding clashes same_entry
jobs-IsUnique = (refl, (refl, tt))

pub new_id : find 3 jobs ≡ none
unfolding find
new_id = refl

fits_row : takes schema (new_idempotent_job token params 3 200) ≡ true
unfolding fits_columns owner_exists
fits_row = refl

create_idempotent_agree_example :
    Db.create_idempotent schema token params 3 200 jobs
    ≡ InMemory.create_idempotent token params 3 200 jobs
create_idempotent_agree_example =
    create_idempotent_agree schema token params 3 200 jobs new_id fits_row

abbrev retried : List Job
retried = (Db.create_idempotent schema token params 3 200 jobs).1

retried_id : find 4 retried ≡ none
unfolding find Db.create_idempotent insert_row fits_columns owner_exists conflicts same_entry
retried_id = refl

retried_result :
    (Db.create_idempotent schema token params 3 200 jobs).0
    ≡ ok (new_idempotent_job token params 3 200, true)
unfolding find Db.create_idempotent insert_row fits_columns owner_exists conflicts same_entry
retried_result = refl

fits_again :
    fits_columns schema
      (new_idempotent_job (record token { idempotency_fingerprint = "f2" }) params 4 300)
    ≡ true
unfolding fits_columns
fits_again = refl

-- A seed beyond 32 bits is refused by the column, and the route has no bound for it.
seed_too_big :
    (Db.create schema (record params { seed = pos 2147483648 }) 5 400 jobs).0 ≡ err data_error
unfolding Db.create insert_row fits_columns
seed_too_big = refl

create_idempotent_twice_example :
    Db.create_idempotent schema
      (record token { idempotency_fingerprint = "f2" })
      params
      4
      300
      retried
    ≡ (ok (new_idempotent_job token params 3 200, false), retried)
create_idempotent_twice_example =
    create_idempotent_twice schema token "f2" params params 3 4 200 300 jobs
      (new_idempotent_job token params 3 200) true new_id retried_id retried_result fits_again

-- A late `completed` for a job that failed meanwhile is refused by the index, once the key has a
-- new active job; the in-memory store writes it, and then two jobs are active for the key.
late_completion_db : (Db.update_status 2 completed none 400 (retried)).0 ≡ err integrity_error
unfolding Db.update_status Db.create_idempotent insert_row fits_columns owner_exists find conflicts
    same_entry
late_completion_db = refl

late_completion_in_memory :
    count_where
      (is_active_for "user:7" "k1")
      (InMemory.update_status 2 completed none 400 retried).1
    ≡ 2
unfolding InMemory.update_status Db.create_idempotent insert_row fits_columns owner_exists
    is_active_for find modify conflicts same_entry
late_completion_in_memory = refl

-- The contract at a new row.
db_job_store_laws_example : IsJobStore (db_job_store schema) IsUnique (takes schema)
db_job_store_laws_example = db_job_store_laws schema
