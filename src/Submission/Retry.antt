-- ===== src/Submission/Retry.antt =====
-- A repeated submission with the same Idempotency-Key.
use ai_virtual_try_on.Prelude.{
  ℕ, ◌≡◌, String, Bool, true, false, Option, none, some, List, arith, inl, inr, Bool-cases,
  Option-cases, opt_text_eq, str_eq_self,
}
use ai_virtual_try_on.Errors.Exec.{Result, ok, Result-cases}
use ai_virtual_try_on.Job.{Job, JobParams}
use ai_virtual_try_on.Job.Table.{find}
use ai_virtual_try_on.JobStore.{IdempotencyToken, new_idempotent_job}
use ai_virtual_try_on.JobStore.Idempotency.{get_by_key-create}
use ai_virtual_try_on.JobStore.Db
use ai_virtual_try_on.JobStore.Db.{Schema, db_job_store, insert_row}
use ai_virtual_try_on.Storage.{Bytes}
use ai_virtual_try_on.TryOnService.{World, Runtime, start_job_idempotent, find_idempotent_job}
use ai_virtual_try_on.Submission.{
  Config, Caller, Form, Front, check_form, check_admission, start_keyed, submit_new, submit_keyed,
  params_for,
}

created_fingerprint :
    (schema : Schema) (token : IdempotencyToken) (params : JobParams) (id now : ℕ) (jobs : List Job)
    (job : Job)
    → (Db.create_idempotent schema token params id now jobs).0 ≡ ok (job, true)
    → job ≡ new_idempotent_job token params id now
unfolding Db.create_idempotent
created_fingerprint schema token params id now jobs job h =
    elim (Result-cases (insert_row schema (new_idempotent_job token params id now) jobs).0) [
      | inl (u, inserted) ↦ ground arith
      | inr (e, refused) ↦
          elim (Option-cases (
            Db.get_by_idempotency_key token.idempotency_scope token.idempotency_key
              (insert_row schema (new_idempotent_job token params id now) jobs).1)) [
                | inl nothing ↦ absurd (ground arith)
                | inr (existing, found) ↦ absurd (ground arith)
              ]
    ]

module _ {Image : Type 0} (rt : Runtime Image) (validate : String → Bytes → Result Image)
    (config : Config) (c : Caller) (f : Form) (token : IdempotencyToken) where
  abbrev pub held : Front Image → Option Job
  held s = Db.get_by_idempotency_key token.idempotency_scope token.idempotency_key s.world.store

  -- The key is taken by this request.
  replayed :
      (id now : ℕ) (s : Front Image) (job : Job)
      → check_form f ≡ ok tt
      → held s ≡ some job
      → opt_text_eq job.idempotency_fingerprint (some token.idempotency_fingerprint) ≡ true
      → submit_keyed rt validate config c f token id now s ≡ (ok job, s)
  unfolding submit_keyed find_idempotent_job
  replayed id now s job form taken same = ground arith

  abbrev same_request : Job → Bool
  same_request job = opt_text_eq job.idempotency_fingerprint (some token.idempotency_fingerprint)

  started :
      (params : JobParams) (person garment : Image) (id now : ℕ) (w : World (List Job) Image)
      (job : Job) (created : Bool)
      → find id w.store ≡ none
      → (start_job_idempotent
          (db_job_store config.schema)
          rt
          person
          garment
          token
          params
          id
          now
          w).0
        ≡ ok (job, created)
      → (Db.get_by_idempotency_key token.idempotency_scope token.idempotency_key
            (start_job_idempotent
              (db_job_store config.schema)
              rt
              person
              garment
              token
              params
              id
              now
              w).1.store
          ≡ some job)
        × (same_request job ≡ true)
  unfolding start_job_idempotent
  started params person garment id now w job created new h =
      elim (Result-cases (Db.create_idempotent config.schema token params id now w.store).0) [
        | inr (e, failed) ↦ absurd (ground arith)
        | inl ((j, true), made) ↦ (
          ground
              (arith, get_by_key-create config.schema token params id now w.store j true new made),
          ground (
            arith,
            created_fingerprint config.schema token params id now w.store j made,
            str_eq_self token.idempotency_fingerprint,
          ),
        )
        | inl ((j, false), made) ↦ elim (Bool-cases (same_request j)) [
          | inl same ↦ (
            ground (
              arith,
              get_by_key-create config.schema token params id now w.store j false new made,
            ),
            ground arith,
          )
          | inr other ↦ absurd (ground arith)
        ]
      ]

  -- What a second submission of the request needs of the state.
  abbrev Holds : Job → Front Image → Type 0
  Holds job s = (held s ≡ some job) × (same_request job ≡ true)

  start_keyed-Holds :
      (id now : ℕ) (person garment : Image) (s : Front Image) (job : Job)
      → find id s.world.store ≡ none
      → (start_keyed rt validate config c f token id now person garment s).0 ≡ ok job
      → Holds job (start_keyed rt validate config c f token id now person garment s).1
  unfolding start_keyed
  start_keyed-Holds id now person garment s job new h =
      let params = params_for config c f now s.world.store in
      elim (Result-cases
        (start_job_idempotent (db_job_store config.schema) rt person garment token params id now
          s.world).0) [
            | inr (e, failed) ↦ absurd (ground arith)
            | inl ((j, true), made) ↦
                ground (arith, started params person garment id now s.world j true new made)
            | inl ((j, false), made) ↦
                ground (arith, started params person garment id now s.world j false new made)
          ]

  submit_new-Holds :
      (id now : ℕ) (s : Front Image) (job : Job)
      → find id s.world.store ≡ none
      → (submit_new rt validate config c f token id now s).0 ≡ ok job
      → Holds job (submit_new rt validate config c f token id now s).1
  unfolding submit_new
  submit_new-Holds id now s job new h =
      elim (Result-cases (check_admission config c now s.world.store)) [
        | inr (e, refused) ↦ absurd (ground arith)
        | inl (u, fine) ↦ elim (Result-cases (validate "Your photo" f.person)) [
          | inr (e, refused) ↦ absurd (ground arith)
          | inl (person, p) ↦ elim (Result-cases (validate "The clothing photo" f.garment)) [
            | inr (e, refused) ↦ absurd (ground arith)
            | inl (garment, g) ↦ ground (arith, start_keyed-Holds id now person garment s job new)
          ]
        ]
      ]

  submit_keyed-Holds :
      (id now : ℕ) (s : Front Image) (job : Job)
      → find id s.world.store ≡ none
      → check_form f ≡ ok tt
      → (submit_keyed rt validate config c f token id now s).0 ≡ ok job
      → Holds job (submit_keyed rt validate config c f token id now s).1
  unfolding submit_keyed find_idempotent_job
  submit_keyed-Holds id now s job new form h = elim (Option-cases (held s)) [
    | inl free ↦ ground (arith, submit_new-Holds id now s job new)
    | inr (j, taken) ↦ elim (Bool-cases (same_request j)) [
      | inl same ↦ ground arith
      | inr other ↦ absurd (ground arith)
    ]
  ]

  form_checked :
      (id now : ℕ) (s : Front Image) (job : Job)
      → (submit_keyed rt validate config c f token id now s).0 ≡ ok job
      → check_form f ≡ ok tt
  unfolding submit_keyed
  form_checked id now s job h = elim (Result-cases (check_form f)) [
    | inl (u, fine) ↦ ground arith
    | inr (e, refused) ↦ absurd (ground arith)
  ]

  -- Once a submission with a key has succeeded, under a fresh id, the same request with the same
  -- key, sent to the state that it left, is answered by the same job at any time, even if the quota
  -- or the capacity is used up; it adds no job, writes no file and queues no run.
  pub submit_keyed_twice :
      (id now id' now' : ℕ) (s : Front Image) (job : Job)
      → find id s.world.store ≡ none
      → (submit_keyed rt validate config c f token id now s).0 ≡ ok job
      → let s' = (submit_keyed rt validate config c f token id now s).1 in
        submit_keyed rt validate config c f token id' now' s' ≡ (ok job, s')
  submit_keyed_twice id now id' now' s job new h =
      let form = form_checked id now s job h in
      let (taken, same) = submit_keyed-Holds id now s job new form h in
      replayed id' now' (submit_keyed rt validate config c f token id now s).1 job form taken same
