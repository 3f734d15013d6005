-- ===== src/TryOnService/Access.antt =====
-- Who may see, cancel and save a job, and what the calls of backend/app/services/tryon_service.py
-- do to it: get_job_for_viewer, cancel_job and save_job, over any job store that meets its
-- contract.
use mathlib.Core.Option
use ai_virtual_try_on.Prelude.{
  Bool, ℕ, String, ◌≡◌, refl, sym, ap, ◌∙◌, true, false, ◌⊎◌, ◌≢◌, Option, none, some, arith, ◌==◌,
  inl, inr, Bool-cases, Option-cases, if◌then◌else◌,
}
use ai_virtual_try_on.Errors.{user_facing, not_cancellable}
use ai_virtual_try_on.Errors.Exec.{ok, err}
use ai_virtual_try_on.Job.{JobStatus, pending, cancelled, status_eq, status_eq_lem, Job}
use ai_virtual_try_on.JobStore.{JobStore, IsJobStore, view, has_status, with_status}
use ai_virtual_try_on.Storage.{load_temp_upload, get_result, cleanup_temp}
use ai_virtual_try_on.Storage.Laws.{get-cleanup_temp, load-cleanup_temp}
use ai_virtual_try_on.TryOnService.{
  World, Runtime, not_found, only_view, only_cancel, is_foreign, get_job_for_viewer, cancel_job,
  run_job,
}
use ai_virtual_try_on.TryOnService.RunJob.{run_job_not_pending, has_status-view}

-- The job has no owner, or the viewer is its owner.
abbrev pub MayAccess : Option ℕ → Job → Type 0
MayAccess viewer job = (job.user_id ≡ none) ⊎ ((u : ℕ) × (job.user_id ≡ some u) × (viewer ≡ some u))

is_foreign_lem :
    (job : Job) (viewer : Option ℕ) → is_foreign job viewer ≡ false → MayAccess viewer job
is_foreign_lem job viewer h = elim (Option-cases job.user_id) [
  | inl anonymous ↦ inl anonymous
  | inr (u, e) ↦ elim (Option-cases viewer) [
    | inl nobody ↦ absurd (ground arith)
    | inr (v, e') ↦ inr (u, e, ground arith)
  ]
]

not_foreign : (job : Job) (viewer : Option ℕ) → MayAccess viewer job → is_foreign job viewer ≡ false
not_foreign job viewer (inl anonymous) = ground arith
not_foreign job viewer (inr (u, e, e')) = ground arith

module _ {S Image : Type 0} (js : JobStore S) (rt : Runtime Image) where
  -- A viewer is shown only the stored job under this id, and only if it is anonymous or the
  -- viewer's own; the call changes nothing, and otherwise raises 404 for a missing job and 403 for
  -- another user's.
  pub get_job_for_viewer_lem :
      (i : ℕ) (viewer : Option ℕ) (w : World S Image)
      → ((job : Job) × (js.get i w.store ≡ some job)
          × MayAccess viewer job
          × (get_job_for_viewer js rt i viewer w ≡ (ok job, w)))
        ⊎ ((js.get i w.store ≡ none) × (get_job_for_viewer js rt i viewer w ≡ (err not_found, w)))
        ⊎ ((job : Job) × (js.get i w.store ≡ some job)
            × ¬ MayAccess viewer job
            × (get_job_for_viewer js rt i viewer w ≡ (err only_view, w)))
  unfolding get_job_for_viewer
  get_job_for_viewer_lem i viewer w = elim (Option-cases (js.get i w.store)) [
    | inl missing ↦ inr (inl (missing, ground arith))
    | inr (job, e) ↦ elim (Bool-cases (is_foreign job viewer)) [
      | inl foreign ↦ inr (inr (job, e, λ m. cc (not_foreign job viewer m), ground arith))
      | inr own ↦ inl (job, e, is_foreign_lem job viewer own, ground arith)
    ]
  ]

module _ {S Image : Type 0} (js : JobStore S) (rt : Runtime Image) (IsWf : S → Type 0)
    {takes : Job → Bool} (laws : IsJobStore js IsWf takes) where
  -- The job is cancelled and its uploads are gone; nothing else has changed.
  abbrev pub Cancels : ℕ → World S Image → World S Image → Type 0
  Cancels i w w' =
      IsWf w'.store
      × ((k : ℕ)
          → view js k w'.store ≡ (
              if i == k
              then Option.map (with_status cancelled none 0) (view js k w.store)
              else view js k w.store))
      × ((k : ℕ) → get_result k w'.disk ≡ get_result k w.disk)
      × ((k : ℕ) (name : String)
          → load_temp_upload k name w'.disk
            ≡ (if i == k then none else load_temp_upload k name w.disk))

  abbrev pub Unchanged : World S Image → World S Image → Type 0
  Unchanged w w' =
      IsWf w'.store × ((k : ℕ) → view js k w'.store ≡ view js k w.store) × (w'.disk ≡ w.disk)

  module _ (i : ℕ) (viewer : Option ℕ) (now : ℕ) (w : World S Image) (wf : IsWf w.store) where
    abbrev tried : S
    tried = (js.try_transition_status i pending cancelled none now w.store).1

    -- A job is cancelled exactly when it exists, its viewer may access it and it is pending.
    cancel_pending :
        (job : Job)
        → js.get i w.store ≡ some job
        → MayAccess viewer job
        → status_eq job.status pending ≡ true
        → let (r, w') = cancel_job js rt i viewer now w in
          (r ≡ ok (record job { status = cancelled })) × Cancels i w w'
    cancel_pending job e may waiting =
        let (r, kept, seen) =
          laws.view-try_transition_status i pending cancelled none now w.store wf refl in
        let ends : cancel_job js rt i viewer now w ≡ (
          ok (record job { status = cancelled }),
          record { store = tried; disk = cleanup_temp i w.disk },
        ) =
          unfold cancel_job in ground (arith, not_foreign job viewer may) in
        rw ends (
          refl,
          (
            kept,
            λ k. elim (Bool-cases (i == k)) [
              | inl here ↦ ground (arith, seen i, seen k)
              | inr there ↦ ground (arith, seen k)
            ],
            λ k. get-cleanup_temp i k w.disk,
            λ k name. load-cleanup_temp i k name w.disk,
          ),
        )

    cancel_too_late :
        (job : Job)
        → js.get i w.store ≡ some job
        → MayAccess viewer job
        → status_eq job.status pending ≡ false
        → let (r, w') = cancel_job js rt i viewer now w in
          ((status : JobStatus) × (r ≡ err (user_facing (not_cancellable status) 409)))
          × Unchanged w w'
    cancel_too_late job e may taken =
        let (r, kept, seen) =
          laws.view-try_transition_status i pending cancelled none now w.store wf refl in
        let current : Job = Option.get_or (js.get i tried) job in
        let ends : cancel_job js rt i viewer now w
            ≡ (err (user_facing (not_cancellable current.status) 409), record w { store = tried }) =
          unfold cancel_job in ground (arith, not_foreign job viewer may) in
        rw ends (
          (current.status, refl),
          (
            kept,
            λ k. elim (Bool-cases (i == k)) [
              | inl here ↦ ground (arith, seen i, seen k)
              | inr there ↦ ground (arith, seen k)
            ],
            refl,
          ),
        )

    -- `cancel_job` has four ends. It cancels a pending job that its viewer may access, removes its
    -- uploads and changes nothing else; and it raises and changes nothing for a missing job (404),
    -- for another user's job (403), and for a job in another status than pending (409).
    pub cancel_job_lem :
        let (r, w') = cancel_job js rt i viewer now w in
        ((job : Job) × (js.get i w.store ≡ some job)
          × MayAccess viewer job
          × (job.status ≡ pending)
          × (r ≡ ok (record job { status = cancelled }))
          × Cancels i w w')
        ⊎ ((js.get i w.store ≡ none) × (r ≡ err not_found) × Unchanged w w')
        ⊎ ((job : Job) × (js.get i w.store ≡ some job)
            × ¬ MayAccess viewer job
            × (r ≡ err only_cancel)
            × Unchanged w w')
        ⊎ ((job : Job) × (js.get i w.store ≡ some job)
            × MayAccess viewer job
            × (job.status ≢ pending)
            × ((status : JobStatus) × (r ≡ err (user_facing (not_cancellable status) 409)))
            × Unchanged w w')
    cancel_job_lem = elim (Option-cases (js.get i w.store)) [
      | inl missing ↦
          let ends : cancel_job js rt i viewer now w ≡ (err not_found, w) =
            unfold cancel_job in ground arith in
          inr (inl (missing, rw ends refl, rw ends (wf, λ k. refl, refl)))
      | inr (job, e) ↦ elim (Bool-cases (is_foreign job viewer)) [
        | inl foreign ↦
            let ends : cancel_job js rt i viewer now w ≡ (err only_cancel, w) =
              unfold cancel_job in ground arith in
            inr (
              inr (
                inl (
                  job,
                  e,
                  λ m. cc (not_foreign job viewer m),
                  rw ends refl,
                  rw ends (wf, λ k. refl, refl),
                )))
        | inr own ↦
            let may : MayAccess viewer job = is_foreign_lem job viewer own in
            elim (Bool-cases (status_eq job.status pending)) [
              | inl waiting ↦
                  let (r, done) = cancel_pending job e may waiting in
                  inl (job, e, may, status_eq_lem job.status pending waiting, r, done)
              | inr taken ↦
                  let (r, same) = cancel_too_late job e may taken in
                  inr (inr (inr (job, e, may, λ p. ground arith, r, same)))
            ]
      ]
    ]

    cancelled_at :
        (w' : World S Image) (job : Job)
        → js.get i w.store ≡ some job
        → Cancels i w w'
        → (j' : Job) × (js.get i w'.store ≡ some j') × (j'.status ≡ cancelled)
    cancelled_at w' job e (kept, seen, results, uploads) = elim (Option-cases (js.get i w'.store)) [
      | inl missing ↦ absurd (ground (arith, seen i))
      | inr (j', e') ↦ (j', e', ground (arith, seen i))
    ]

    after_cancel :
        (j : Job)
        → (cancel_job js rt i viewer now w).0 ≡ ok j
        → let w' = (cancel_job js rt i viewer now w).1 in
          IsWf w'.store × ((j' : Job) × (js.get i w'.store ≡ some j') × (j'.status ≡ cancelled))
    after_cancel j done = elim cancel_job_lem [
      | inl (job, e, may, waiting, r, effect) ↦
          (effect.0, cancelled_at (cancel_job js rt i viewer now w).1 job e effect)
      | inr (inl (missing, r, same)) ↦ absurd (cc)
      | inr (inr (inl (job, e, foreign, r, same))) ↦ absurd (cc)
      | inr (inr (inr (job, e, may, taken, (status, r), same))) ↦ absurd (cc)
    ]

    -- After a successful cancellation, a run of the job changes no job and no result: a cancelled
    -- job is never processed.
    pub run_job_cancelled :
        (j : Job) (started later : ℕ)
        → (cancel_job js rt i viewer now w).0 ≡ ok j
        → let w' = (cancel_job js rt i viewer now w).1 in
          let w'' = (run_job js rt i started later w').1 in
          ((k : ℕ) → view js k w''.store ≡ view js k w'.store)
          × ((k : ℕ) → get_result k w''.disk ≡ get_result k w'.disk)
          × has_status cancelled (js.get i w''.store) ≡ true
    run_job_cancelled j started later done =
        let w' : World S Image = (cancel_job js rt i viewer now w).1 in
        let (wf', found) = after_cancel j done in
        let (j', e, is_cancelled) = found in
        let (r, kept, seen, results, uploads) =
          run_job_not_pending js rt IsWf laws i started later w' wf' j' e (ground arith) in
        (
          seen,
          results,
          sym (
                has_status-view js rt IsWf laws cancelled
                  (js.get i (run_job js rt i started later w').1.store))
              ∙ ap (has_status cancelled) (seen i)
              ∙ ground arith,
        )
