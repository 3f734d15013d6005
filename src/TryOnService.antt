-- ===== src/TryOnService.antt =====
-- class TryOnService of backend/app/services/tryon_service.py, over any job store and the disk.
-- The provider and the image library are arguments; log lines are not modelled.
pub mod RunJob
pub mod Access
use mathlib.Core.Option
use ai_virtual_try_on.Prelude.{
  ℕ, String, Bool, true, false, not, ◌&&◌, Option, none, some, List, is_some, opt_number_eq,
  opt_text_eq, if◌then◌else◌,
}
use ai_virtual_try_on.Errors.{Error, Message, text, not_cancellable, not_ready, user_facing}
use ai_virtual_try_on.Errors.Exec.{
  Result, ok, err, Exec, pure, raise, gets, or_raise, raise_if, modify_state, ◌>>=◌, ◌>>◌,
}
use ai_virtual_try_on.Job.{
  JobStatus, pending, processing, completed, failed, cancelled, status_eq, JobParams, Job, Seed,
}
use ai_virtual_try_on.JobStore.{JobStore, IdempotencyToken}
use ai_virtual_try_on.Storage.{
  Bytes, Disk, save_temp_upload, load_temp_upload, save_result, cleanup_temp,
}

abbrev pub person_filename : String
person_filename = "person.png"

abbrev pub garment_filename : String
garment_filename = "garment.png"

abbrev pub generic_failure_message : String
generic_failure_message =
    "We couldn't generate your try-on result. Please try a different photo, or try again in a moment."

abbrev pub not_found : Error
not_found = user_facing (text "We couldn't find that try-on job. It may have expired.") 404

abbrev pub only_view : Error
only_view = user_facing (text "You can only view your own try-on jobs.") 403

abbrev pub only_cancel : Error
only_cancel = user_facing (text "You can only cancel your own try-on jobs.") 403

abbrev pub only_save : Error
only_save = user_facing (text "You can only save your own try-on results.") 403

abbrev pub idempotency_conflict : Error
idempotency_conflict =
    user_facing
      (text
        "This Idempotency-Key was already used for a different try-on request. Use a new Idempotency-Key for a new request.")
      409

-- TryOnRequest of backend/app/providers/base.py.
pub record TryOnRequest (Image : Type 0) : Type 0 where
  pub person_image : Image
  pub garment_image : Image
  pub category : String
  pub garment_photo_type : String
  pub num_timesteps : ℕ
  pub guidance_scale : ℕ
  pub seed : Seed

-- How `provider.generate` ends: with an image, with ProviderBusyError or InferenceTimeoutError and
-- their message, or with another exception.
pub data Outcome (Image : Type 0) : Type 0 where
  generated : Image → Outcome Image
  busy : String → Outcome Image
  timed_out : String → Outcome Image
  crashed : Outcome Image

-- What the service calls outside the repository: PIL (`Image.open(...).convert("RGB")`, which may
-- raise; saving as PNG; writing the result file, which may raise) and the provider.
pub record Runtime (Image : Type 0) : Type 0 where
  pub decode : Bytes → Option Image
  pub to_png_bytes : Image → Bytes
  pub generate : TryOnRequest Image → Outcome Image
  pub can_write : Image → Bool

pub record World (S Image : Type 0) : Type 0 where
  pub store : S
  pub disk : Disk Image

-- How the body of the `try` in `run_job` ends: normally, by an exception that carries its own
-- message for the user, or by any other.
pub data Ended : Type 0 where
  fine : Ended
  told : String → Ended
  raised : Ended

abbrev pub on_store : {S Image A : Type 0} → Exec S A → Exec (World S Image) A
on_store m w = let (r, s) = m w.store in (r, record w { store = s })

abbrev pub on_disk :
    {S Image : Type 0} → (Disk Image → Disk Image) → Exec (World S Image) (Unit {0})
on_disk f w = (ok tt, record w { disk = f w.disk })

-- `job.user_id is not None and job.user_id != viewer_user_id`
abbrev pub is_foreign : Job → Option ℕ → Bool
is_foreign job viewer = is_some job.user_id && not (opt_number_eq job.user_id viewer)

module _ {S Image : Type 0} (js : JobStore S) (rt : Runtime Image) where
  abbrev pub save_uploads : ℕ → Image → Image → Disk Image → Disk Image
  save_uploads i person garment d =
      save_temp_upload i garment_filename (rt.to_png_bytes garment)
        (save_temp_upload i person_filename (rt.to_png_bytes person) d)

  unfoldable pub start_job : Image → Image → JobParams → ℕ → ℕ → Exec (World S Image) Job
  start_job person garment params id now = do
    job ← on_store (js.create params id now)
    on_disk (save_uploads job.id person garment)
    pure job

  -- The fingerprint of the request, a SHA-256 digest of its fields, is an argument.
  unfoldable pub find_idempotent_job : String → String → String → Exec (World S Image) (Option Job)
  find_idempotent_job scope key fingerprint w = elim (js.get_by_idempotency_key scope key w.store) [
    | none ↦ (ok none, w)
    | some job ↦
        if not (opt_text_eq job.idempotency_fingerprint (some fingerprint))
        then (err idempotency_conflict, w)
        else (ok (some job), w)
  ]

  unfoldable pub start_job_idempotent :
      Image → Image → IdempotencyToken → JobParams → ℕ → ℕ → Exec (World S Image) (Job × Bool)
  start_job_idempotent person garment token params id now = do
    (job, created) ← on_store (js.create_idempotent token params id now)
    if not created
        then (do
          raise_if
              (not (opt_text_eq job.idempotency_fingerprint (some token.idempotency_fingerprint)))
              idempotency_conflict
          pure (job, false))
        else (do on_disk (save_uploads job.id person garment); pure (job, true))

  -- The body of the `try`, up to the exception that ends it.
  unfoldable pub save_and_complete : ℕ → Image → ℕ → World S Image → Ended × World S Image
  save_and_complete i image now w =
      if not (rt.can_write image)
      then (raised, w)
      else (let w' = record w { disk = save_result i image w.disk } in
          let (r, s) = js.update_status i completed none now w'.store in
          elim r [
            | ok _ ↦ (fine, record w' { store = s })
            | err e ↦ (raised, record w' { store = s })
          ])

  unfoldable pub after_generate : ℕ → Outcome Image → ℕ → World S Image → Ended × World S Image
  after_generate i (generated image) now w = save_and_complete i image now w
  after_generate i (busy message) now w = (told message, w)
  after_generate i (timed_out message) now w = (told message, w)
  after_generate i crashed now w = (raised, w)

  -- The result of the provider on the two uploads, or none if one is missing or no image.
  abbrev pub generate_from : Job → Option Bytes → Option Bytes → Option (Outcome Image)
  generate_from job none garment = none
  generate_from job (some p) none = none
  generate_from job (some p) (some g) = elim (rt.decode p) [
    | none ↦ none
    | some person ↦ elim (rt.decode g) [
      | none ↦ none
      | some garment ↦ some (
          rt.generate (record {
            person_image = person;
            garment_image = garment;
            category = job.category;
            garment_photo_type = job.garment_photo_type;
            num_timesteps = job.num_timesteps;
            guidance_scale = job.guidance_scale;
            seed = job.seed;
          }))
    ]
  ]

  unfoldable pub body_from : ℕ → Option (Outcome Image) → ℕ → World S Image → Ended × World S Image
  unfolding after_generate save_and_complete
  body_from i none now w = (raised, w)
  body_from i (some outcome) now w = after_generate i outcome now w

  unfoldable pub run_body : ℕ → Job → ℕ → World S Image → Ended × World S Image
  run_body i job now w =
      body_from i
        (generate_from job (load_temp_upload i person_filename w.disk)
          (load_temp_upload i garment_filename w.disk))
        now w

  -- The `except` clauses.
  unfoldable pub record_failure : ℕ → ℕ → Ended → Exec (World S Image) (Unit {0})
  record_failure i now fine = pure tt
  record_failure i now (told message) = on_store (js.update_status i failed (some message) now)
  record_failure i now raised =
      on_store (js.update_status i failed (some generic_failure_message) now)

  -- ... and `finally`.
  unfoldable pub run_handlers : ℕ → ℕ → Ended → Exec (World S Image) (Unit {0})
  unfolding record_failure
  run_handlers i now ended w =
      let (r, w') = record_failure i now ended w in (r, record w' { disk = cleanup_temp i w'.disk })

  unfoldable pub run_job : ℕ → ℕ → ℕ → Exec (World S Image) (Unit {0})
  run_job i now later w = elim (js.get i w.store) [
    | none ↦ (ok tt, w)
    | some job ↦
        let (claimed, s) = js.try_transition_status i pending processing none now w.store in
        let w' = record w { store = s } in
        elim claimed [
          | err e ↦ (err e, w')
          | ok false ↦ (ok tt, record w' { disk = cleanup_temp i w'.disk })
          | ok true ↦ let (ended, w'') = run_body i job later w' in run_handlers i later ended w''
        ]
  ]

  unfoldable pub get_job_for_viewer : ℕ → Option ℕ → Exec (World S Image) Job
  get_job_for_viewer i viewer = do
    job ← or_raise (← gets (λ w. js.get i w.store)) not_found
    raise_if (is_foreign job viewer) only_view
    pure job

  unfoldable pub cancel_job : ℕ → Option ℕ → ℕ → Exec (World S Image) Job
  cancel_job i viewer now = do
    job ← or_raise (← gets (λ w. js.get i w.store)) not_found
    raise_if (is_foreign job viewer) only_cancel
    cancelled_now ← on_store (js.try_transition_status i pending cancelled none now)
    current ← gets (λ w. Option.get_or (js.get i w.store) job)
    raise_if (not cancelled_now) (user_facing (not_cancellable current.status) 409)
    on_disk (cleanup_temp i)
    pure (record job { status = cancelled })

  unfoldable pub save_job : ℕ → ℕ → ℕ → Exec (World S Image) Job
  save_job i user now = do
    job ← or_raise (← gets (λ w. js.get i w.store)) not_found
    raise_if (not (opt_number_eq job.user_id (some user))) only_save
    raise_if (not (status_eq job.status completed)) (user_facing (not_ready job.status) 409)
    on_store (js.mark_saved i now)
    pure (record job { saved = true })
