-- ===== src/Submission.antt =====
-- create_try_on_job of backend/app/api/tryon.py over the database store: the rate limiter, the
-- quota, the capacity, the checks of the form, and the start of the job. The Idempotency-Key header
-- arrives stripped, with its number of characters. The id of a new job, the fingerprint of the
-- request and the image checks of backend/app/core/validation.py are arguments; a request reads
-- its two files once. The scope of a key is the caller's client key, as an argument. A job that starts is queued for run_job.
pub mod Admission
pub mod Retry
pub mod Rush
use ai_virtual_try_on.Prelude.{
  ℕ, String, Bool, true, false, not, ◌||◌, Option, none, some, List, [], ◌∷◌, ◌++◌, ltb, str_eq,
  ◌==◌, min, max, if◌then◌else◌,
}
use ai_virtual_try_on.Errors.{Error, text, retry_after, user_facing, http}
use ai_virtual_try_on.Errors.Exec.{Result, ok, err, Exec, raise_if, ◌>>=◌, ◌>>◌}
use ai_virtual_try_on.Job.{Job, JobParams, JobStatus, Seed, pos, negsuc}
use ai_virtual_try_on.JobStore.{IdempotencyToken}
use ai_virtual_try_on.JobStore.Db.{Schema, db_job_store}
use ai_virtual_try_on.RateLimiter.{RateLimiter, RateLimitResult, check}
use ai_virtual_try_on.Quota.{
  Plan, QuotaStatus, is_exceeded, get_status, quota_exceeded_message, is_at_capacity,
  default_plan_name,
}
use ai_virtual_try_on.Storage.{Bytes}
use ai_virtual_try_on.TryOnService.{
  World, Runtime, start_job, find_idempotent_job, start_job_idempotent,
}

pub record Config : Type 0 where
  pub min_num_timesteps : ℕ
  pub max_num_timesteps : ℕ
  pub default_guidance_scale : ℕ
  pub max_active_tryon_jobs : ℕ
  pub plans : List Plan
  pub schema : Schema
  pub month_start : ℕ → ℕ

-- Who asks: the account of the request, if it is signed in, with its plan.
pub record Caller : Type 0 where
  pub user : Option (ℕ × String)
  pub client_ip : String

pub record Form : Type 0 where
  pub person : Bytes
  pub garment : Bytes
  pub category : String
  pub garment_photo_type : String
  pub num_timesteps : Seed
  pub seed : Seed

-- The store and the files, and the ids that the background tasks will run.
pub record Front (Image : Type 0) : Type 0 where
  pub world : World (List Job) Image
  pub queued : List ℕ

abbrev pub invalid_category : Error
invalid_category = http 400 (text "category must be one of: tops, bottoms, one-pieces.")

abbrev pub invalid_photo_type : Error
invalid_photo_type =
    user_facing
      (text
        "We support plain clothing/product photos or photos of the item worn by a person. Please upload one of those instead.")
      400

abbrev pub capacity_exceeded : Error
capacity_exceeded =
    user_facing
      (text
        "Our AI model is at capacity right now, with too many try-on requests already queued. Please try again in a few minutes.")
      429

abbrev pub invalid_key : Error
invalid_key =
    user_facing (text "Idempotency-Key must be a non-empty string of at most 255 characters.") 400

abbrev valid_category : String → Bool
valid_category c = str_eq c "tops" || str_eq c "bottoms" || str_eq c "one-pieces"

abbrev valid_photo_type : String → Bool
valid_photo_type t = str_eq t "flat-lay" || str_eq t "model"

abbrev pub check_form : Form → Result (Unit {0})
check_form f =
    if not (valid_category f.category)
    then err invalid_category
    else if not (valid_photo_type f.garment_photo_type)
    then err invalid_photo_type
    else ok tt

-- `max(min_num_timesteps, min(effective_max, num_timesteps))`
abbrev effective_max : ℕ → Option ℕ → ℕ
effective_max limit none = limit
effective_max limit (some cap) = min limit cap

unfoldable pub clamp_steps : Config → Option ℕ → Seed → ℕ
clamp_steps config cap (pos n) =
    max config.min_num_timesteps (min (effective_max config.max_num_timesteps cap) n)
clamp_steps config cap (negsuc n) = config.min_num_timesteps

abbrev pub user_of : Caller → Option ℕ
user_of c = elim c.user [ none ↦ none | some (i, plan) ↦ some i ]

abbrev pub plan_name : Caller → String
plan_name c = elim c.user [ none ↦ default_plan_name | some (i, plan) ↦ plan ]

abbrev pub ip_of : Caller → Option String
ip_of c = elim c.user [ none ↦ some c.client_ip | some u ↦ none ]

abbrev pub status_for : Config → Caller → ℕ → List Job → QuotaStatus
status_for config c now jobs =
    get_status config.month_start (user_of c) (ip_of c) (plan_name c) now config.plans jobs

-- The quota, then `_check_capacity`.
unfoldable pub check_admission : Config → Caller → ℕ → List Job → Result (Unit {0})
check_admission config c now jobs =
    let q = status_for config c now jobs in
    if is_exceeded q
    then err (user_facing (quota_exceeded_message q) 429)
    else if is_at_capacity config.max_active_tryon_jobs jobs
    then err capacity_exceeded
    else ok tt

abbrev pub params_for : Config → Caller → Form → ℕ → List Job → JobParams
params_for config c f now jobs = record {
  user_id = user_of c;
  category = f.category;
  num_timesteps =
      clamp_steps config (status_for config c now jobs).max_num_timesteps f.num_timesteps;
  guidance_scale = config.default_guidance_scale;
  seed = f.seed;
  client_ip = some c.client_ip;
  garment_photo_type = f.garment_photo_type;
}

-- A step that may refuse, before the rest.
abbrev pub first : {S A B : Type 0} → Result A → (A → Exec S B) → Exec S B
first (err e) k s = (err e, s)
first (ok a) k s = k a s

abbrev queue_if : {Image : Type 0} → Bool → ℕ → World (List Job) Image → List ℕ → Front Image
queue_if true i w q = record { world = w; queued = q ++ i ∷ [] }
queue_if false i w q = record { world = w; queued = q }

module _ {Image : Type 0} (rt : Runtime Image) (validate : String → Bytes → Result Image)
    (config : Config) where
  unfoldable pub start_plain : Caller → Form → ℕ → ℕ → Image → Image → Exec (Front Image) Job
  start_plain c f id now person garment s =
      let (r, w) =
        start_job (db_job_store config.schema) rt person garment
          (params_for config c f now s.world.store) id now s.world in
      elim r [
        | err e ↦ (err e, record s { world = w })
        | ok job ↦ (ok job, queue_if true job.id w s.queued)
      ]

  unfoldable pub start_keyed :
      Caller → Form → IdempotencyToken → ℕ → ℕ → Image → Image → Exec (Front Image) Job
  start_keyed c f token id now person garment s =
      let (r, w) =
        start_job_idempotent (db_job_store config.schema) rt person garment token
          (params_for config c f now s.world.store) id now s.world in
      elim r [
        | err e ↦ (err e, record s { world = w })
        | ok (job, created) ↦ (ok job, queue_if created job.id w s.queued)
      ]

  -- The path of a request without a key.
  unfoldable pub submit_plain : Caller → Form → ℕ → ℕ → Exec (Front Image) Job
  submit_plain c f id now s =
      first (check_admission config c now s.world.store)
        (λ _. first (check_form f) (λ _. first (validate "Your photo" f.person) (λ person.
          first (validate "The clothing photo" f.garment) (start_plain c f id now person))))
        s

  unfoldable pub submit_new : Caller → Form → IdempotencyToken → ℕ → ℕ → Exec (Front Image) Job
  submit_new c f token id now s =
      first (check_admission config c now s.world.store)
        (λ _. first (validate "Your photo" f.person) (λ person.
          first (validate "The clothing photo" f.garment) (start_keyed c f token id now person)))
        s

  -- The path of a request with a key: the look-up comes before the quota.
  unfoldable pub submit_keyed : Caller → Form → IdempotencyToken → ℕ → ℕ → Exec (Front Image) Job
  submit_keyed c f token id now s =
      first (check_form f)
        (λ _ s'.
          let (r, w) =
            find_idempotent_job (db_job_store config.schema) rt token.idempotency_scope
              token.idempotency_key token.idempotency_fingerprint s'.world in
          elim r [
            | err e ↦ (err e, s')
            | ok (some existing) ↦ (ok existing, s')
            | ok none ↦ submit_new c f token id now s'
          ])
        s

  -- The two paths behind the header: with its token and length, or without.
  unfoldable pub submit :
      Caller → Form → Option (IdempotencyToken × ℕ) → ℕ → ℕ → Exec (Front Image) Job
  submit c f none id now s = submit_plain c f id now s
  submit c f (some (token, characters)) id now s =
      if characters == 0 || ltb 255 characters
      then (err invalid_key, s)
      else submit_keyed c f token id now s

  -- The rate limiter comes first.
  unfoldable pub create_try_on_job :
      String
      → Caller
      → Form
      → Option (IdempotencyToken × ℕ)
      → ℕ
      → ℕ
      → RateLimiter
      → Front Image
      → Result Job × RateLimiter × Front Image
  create_try_on_job client_key c f header id now l s =
      let (limited, l') = check client_key now l in
      elim limited [
        | err e ↦ (err e, l', s)
        | ok r ↦
            if not r.allowed
            then (err (http 429 (retry_after r.retry_after_seconds)), l', s)
            else (let (r', s') = submit c f header id now s in (r', l', s'))
      ]
