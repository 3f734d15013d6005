-- ===== src/Tests/Submissions.antt =====
-- Submissions at concrete inputs.
use ai_virtual_try_on.Prelude.{ℕ, ◌≤◌, ◌≡◌, refl, String, true, none, some, [], ◌∷◌, ◌++◌}
use ai_virtual_try_on.Errors.Exec.{Result, ok, err}
use ai_virtual_try_on.Job.{Job, pos}
use ai_virtual_try_on.Job.Table.{find}
use ai_virtual_try_on.JobStore.{new_job, new_idempotent_job}
use ai_virtual_try_on.JobStore.Index.{conflicts, same_entry}
use ai_virtual_try_on.JobStore.Db
use ai_virtual_try_on.JobStore.Db.{insert_row, fits_columns, owner_exists}
use ai_virtual_try_on.Quota.{active_jobs, find_plan, get_status, is_exceeded}
use ai_virtual_try_on.Quota.Counting.{within}
use ai_virtual_try_on.Storage.{Bytes, save_temp_upload}
use ai_virtual_try_on.TryOnService.{
  Runtime, generated, start_job, start_job_idempotent, find_idempotent_job,
}
use ai_virtual_try_on.Submission.{
  clamp_steps, Config, Caller, Form, Front, invalid_category, status_for, check_admission,
  params_for, start_plain, submit_plain, start_keyed, submit_new, submit_keyed,
}
use ai_virtual_try_on.Submission.Admission.{submit_plain_lem}
use ai_virtual_try_on.Submission.Retry.{submit_keyed_twice}
use ai_virtual_try_on.JobStore.InMemory.{find_active}
use ai_virtual_try_on.Tests.Jobs.{schema, waiting, token}

abbrev runtime : Runtime ℕ
runtime = record {
  decode = λ b. some 1;
  to_png_bytes = λ n. n ∷ [];
  generate = λ request. generated 5;
  can_write = λ n. true;
}

abbrev validate : String → Bytes → Result ℕ
validate label b = ok 1

-- Two generations a day, ten jobs at a time.
abbrev pub config : Config
config = record {
  min_num_timesteps = 4;
  max_num_timesteps = 50;
  default_guidance_scale = 250;
  max_active_tryon_jobs = 10;
  plans =
      record {
        name = "free";
        max_generations_per_day = some 2;
        max_generations_per_month = none;
        max_num_timesteps = some 20;
      }
      ∷ [];
  schema = schema;
  month_start = λ now. 0;
}

abbrev pub caller : Caller
caller = record { user = some (7, "free"); client_ip = "10.0.0.1" }

abbrev form : Form
form = record {
  person = 1 ∷ [];
  garment = 2 ∷ [];
  category = "tops";
  garment_photo_type = "model";
  num_timesteps = pos 100;
  seed = pos 42;
}

abbrev hats : Form
hats = record form { category = "hats" }

abbrev front : Front ℕ
front = record {
  world = record { store = waiting ∷ []; disk = record { tmp = []; results = [] } };
  queued = [];
}

abbrev added : Job
added = new_job (params_for config caller form 200 (waiting ∷ [])) 9 200

accepted : (submit_plain runtime validate config caller form 9 200 front).0 ≡ ok added
unfolding submit_plain check_admission start_plain start_job Db.create insert_row fits_columns
    owner_exists find conflicts same_entry get_status is_exceeded find_plan save_temp_upload
    clamp_steps
accepted = refl

submit_plain_lem_example :
    let s' = (submit_plain runtime validate config caller form 9 200 front).1 in
    let q = status_for config caller 200 s'.world.store in
    (added ≡ added)
    × (s'.world.store ≡ (waiting ∷ []) ++ added ∷ [])
    × (s'.queued ≡ 9 ∷ [])
    × (active_jobs s'.world.store ≤ 10)
    × (within q.limit_per_day q.used_today ≡ true)
    × (within q.limit_per_month q.used_this_month ≡ true)
submit_plain_lem_example =
    submit_plain_lem runtime validate config caller form 9 200 front added accepted

refused : (submit_plain runtime validate config caller hats 9 200 front).0 ≡ err invalid_category
unfolding submit_plain check_admission get_status is_exceeded find_plan
refused = refl

keyed :
    (submit_keyed runtime validate config caller form token 9 200 front).0
    ≡ ok (new_idempotent_job token (params_for config caller form 200 (waiting ∷ [])) 9 200)
unfolding submit_keyed submit_new find_idempotent_job Db.get_by_idempotency_key find_active
    check_admission start_keyed start_job_idempotent Db.create_idempotent insert_row fits_columns
    owner_exists find conflicts same_entry get_status is_exceeded find_plan save_temp_upload
    clamp_steps
keyed = refl

new_id_9 : find 9 (waiting ∷ []) ≡ none
unfolding find
new_id_9 = refl

submit_keyed_twice_example :
    let s' = (submit_keyed runtime validate config caller form token 9 200 front).1 in
    submit_keyed runtime validate config caller form token 10 300 s'
    ≡ (ok (new_idempotent_job token (params_for config caller form 200 (waiting ∷ [])) 9 200), s')
submit_keyed_twice_example =
    submit_keyed_twice runtime validate config caller form token 9 200 10 300 front
      (new_idempotent_job token (params_for config caller form 200 (waiting ∷ [])) 9 200) new_id_9
      keyed
