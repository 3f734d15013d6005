-- ===== src/Submission/Admission.antt =====
-- What an accepted submission adds, and what a refused one leaves.
use ai_virtual_try_on.Prelude.{
  ℕ, ◌≤◌, ◌≡◌, refl, String, true, false, Option, none, some, List, [], ◌∷◌, ◌++◌, arith, inl, inr,
  max,
}
use ai_virtual_try_on.Errors.{Error}
use ai_virtual_try_on.Errors.Exec.{Result, ok, err, Result-cases}
use ai_virtual_try_on.Job.{Job, Seed, pos, negsuc}
use ai_virtual_try_on.JobStore.{new_job}
use ai_virtual_try_on.JobStore.Db
use ai_virtual_try_on.JobStore.Db.{Schema, db_job_store, insert_row}
use ai_virtual_try_on.Quota.{is_exceeded, active_jobs, is_at_capacity}
use ai_virtual_try_on.Quota.Counting.{within, active-new, get_status-new}
use ai_virtual_try_on.Storage.{Bytes}
use ai_virtual_try_on.TryOnService.{Runtime, start_job}
use ai_virtual_try_on.Submission.{
  Config, Caller, Form, Front, check_form, status_for, check_admission, params_for, start_plain,
  submit_plain, clamp_steps, user_of, ip_of, plan_name,
}

admitted :
    (config : Config) (c : Caller) (now : ℕ) (jobs : List Job)
    → check_admission config c now jobs ≡ ok tt
    → (is_exceeded (status_for config c now jobs) ≡ false)
      × (is_at_capacity config.max_active_tryon_jobs jobs ≡ false)
unfolding check_admission
admitted config c now jobs h = ground arith

inserted :
    (schema : Schema) (row : Job) (jobs : List Job)
    → (insert_row schema row jobs).0 ≡ ok tt
    → (insert_row schema row jobs).1 ≡ jobs ++ row ∷ []
unfolding insert_row
inserted schema row jobs h = ground arith

not_inserted :
    (schema : Schema) (row : Job) (jobs : List Job) (e : Error)
    → (insert_row schema row jobs).0 ≡ err e
    → (insert_row schema row jobs).1 ≡ jobs
unfolding insert_row
not_inserted schema row jobs e h = ground arith

module _ {Image : Type 0} (rt : Runtime Image) (validate : String → Bytes → Result Image)
    (config : Config) (c : Caller) (f : Form) (id now : ℕ) (s : Front Image) where
  abbrev pub new_one : Job
  new_one = new_job (params_for config c f now s.world.store) id now

  start_plain_lem :
      (person garment : Image) (job : Job)
      → (start_plain rt validate config c f id now person garment s).0 ≡ ok job
      → (job ≡ new_one)
        × ((start_plain rt validate config c f id now person garment s).1.world.store
            ≡ s.world.store ++ new_one ∷ [])
        × ((start_plain rt validate config c f id now person garment s).1.queued
            ≡ s.queued ++ id ∷ [])
  unfolding start_plain start_job Db.create
  start_plain_lem person garment job h =
      elim (Result-cases (insert_row config.schema new_one s.world.store).0) [
        | inr (e', taken) ↦ absurd (ground arith)
        | inl (u, free) ↦ (
          ground arith,
          ground (arith, inserted config.schema new_one s.world.store free),
          ground arith,
        )
      ]

  -- The stages that a successful submission has passed.
  passed :
      (job : Job)
      → (submit_plain rt validate config c f id now s).0 ≡ ok job
      → (check_admission config c now s.world.store ≡ ok tt)
        × ((person : Image) × ((garment : Image) × (submit_plain rt validate config c f id now s
                ≡ start_plain rt validate config c f id now person garment s)))
  unfolding submit_plain
  passed job h = elim (Result-cases (check_admission config c now s.world.store)) [
    | inr (e, refused) ↦ absurd (ground arith)
    | inl (u, fine) ↦ elim (Result-cases (check_form f)) [
      | inr (e, refused) ↦ absurd (ground arith)
      | inl (v, form) ↦ elim (Result-cases (validate "Your photo" f.person)) [
        | inr (e, refused) ↦ absurd (ground arith)
        | inl (person, p) ↦ elim (Result-cases (validate "The clothing photo" f.garment)) [
          | inr (e, refused) ↦ absurd (ground arith)
          | inl (garment, g) ↦ (fine, (person, (garment, ground arith)))
        ]
      ]
    ]
  ]

  -- A submission without a key that succeeds adds exactly its new job and queues exactly its run;
  -- after it, the active jobs are within the capacity, and the use of the caller within the daily
  -- and monthly limits of the plan.
  pub submit_plain_lem :
      (job : Job)
      → (submit_plain rt validate config c f id now s).0 ≡ ok job
      → let s' = (submit_plain rt validate config c f id now s).1 in
        let q = status_for config c now s'.world.store in
        (job ≡ new_one)
        × (s'.world.store ≡ s.world.store ++ new_one ∷ [])
        × (s'.queued ≡ s.queued ++ id ∷ [])
        × (active_jobs s'.world.store ≤ config.max_active_tryon_jobs)
        × (within q.limit_per_day q.used_today ≡ true)
        × (within q.limit_per_month q.used_this_month ≡ true)
  submit_plain_lem job h =
      let (fine, rest) = passed job h in
      let (person, rest') = rest in
      let (garment, same) = rest' in
      let (job_eq, rows, queue) = start_plain_lem person garment job (rw same at h) in
      let (below, room) = admitted config c now s.world.store fine in
      let (daily, monthly) =
        get_status-new config.month_start (user_of c) (ip_of c) (plan_name c) now config.plans
          s.world.store new_one below in
      rw (same, rows, queue)
        (
          job_eq,
          refl,
          refl,
          active-new config.max_active_tryon_jobs s.world.store new_one room,
          daily,
          monthly,
        )

  start_plain_refused :
      (person garment : Image) (e : Error)
      → (start_plain rt validate config c f id now person garment s).0 ≡ err e
      → (start_plain rt validate config c f id now person garment s).1 ≡ s
  unfolding start_plain start_job Db.create
  start_plain_refused person garment e h =
      elim (Result-cases (insert_row config.schema new_one s.world.store).0) [
        | inr (e', taken) ↦
            ground (arith, not_inserted config.schema new_one s.world.store e' taken)
        | inl (u, free) ↦ absurd (ground arith)
      ]

  -- A submission without a key that is refused, for whatever reason, adds no job, writes no file
  -- and queues no run.
  pub submit_plain_refused :
      (e : Error)
      → (submit_plain rt validate config c f id now s).0 ≡ err e
      → (submit_plain rt validate config c f id now s).1 ≡ s
  unfolding submit_plain
  submit_plain_refused e h = elim (Result-cases (check_admission config c now s.world.store)) [
    | inr (e', refused) ↦ ground arith
    | inl (u, fine) ↦ elim (Result-cases (check_form f)) [
      | inr (e', refused) ↦ ground arith
      | inl (v, form) ↦ elim (Result-cases (validate "Your photo" f.person)) [
        | inr (e', refused) ↦ ground arith
        | inl (person, p) ↦ elim (Result-cases (validate "The clothing photo" f.garment)) [
          | inr (e', refused) ↦ ground arith
          | inl (garment, g) ↦ ground (arith, start_plain_refused person garment e)
        ]
      ]
    ]
  ]

-- The step count of a job lies between the technical bounds, and within the cap of the plan unless
-- the cap is below the minimum, which then wins.
pub clamp_steps-bounds :
    (config : Config) (cap : Option ℕ) (requested : Seed)
    → config.min_num_timesteps ≤ config.max_num_timesteps
    → (config.min_num_timesteps ≤ clamp_steps config cap requested)
      × (clamp_steps config cap requested ≤ config.max_num_timesteps)
      × ((n : ℕ) → cap ≡ some n → clamp_steps config cap requested ≤ max config.min_num_timesteps n)
unfolding clamp_steps
clamp_steps-bounds config none (pos n) h = (omega arith, omega arith, λ k e. absurd cc)
clamp_steps-bounds config (some m) (pos n) h = (omega arith, omega arith, λ k e. ground arith)
clamp_steps-bounds config none (negsuc n) h = (omega arith, omega arith, λ k e. absurd cc)
clamp_steps-bounds config (some m) (negsuc n) h = (omega arith, omega arith, λ k e. ground arith)
