-- ===== src/Viewing/Delivery.antt =====
-- From the run of a job to what its viewer is shown.
use mathlib.Core.Option
use mathlib.Core.Option.{some_inj}
use ai_virtual_try_on.Prelude.{
  Bool, ℕ, ◌≡◌, refl, sym, ap, ◌∙◌, subst, true, Option, none, some, arith, inl, inr, Option-cases,
}
use ai_virtual_try_on.Errors.{not_ready, http}
use ai_virtual_try_on.Errors.Exec.{ok, err}
use ai_virtual_try_on.Job.{Job, pending, completed, failed, status_eq}
use ai_virtual_try_on.JobStore.{JobStore, IsJobStore, view, undated}
use ai_virtual_try_on.Storage.{get_result}
use ai_virtual_try_on.TryOnService.{World, Runtime, get_job_for_viewer, run_job}
use ai_virtual_try_on.TryOnService.Access.{MayAccess, get_job_for_viewer_lem}
use ai_virtual_try_on.TryOnService.RunJob.{
  Verdict, success, failure, verdict, finished, stored_result, run_job_pending,
}
use ai_virtual_try_on.Viewing.{
  TryOnJobStatusResponse, status_response, get_try_on_job, get_try_on_result,
}

module _ {S Image : Type 0} (js : JobStore S) (rt : Runtime Image) where
  view-some :
      (i : ℕ) (s : S) (x : Job)
      → view js i s ≡ some x
      → (j : Job) × (js.get i s ≡ some j) × (undated j ≡ x)
  view-some i s x h = elim (Option-cases (js.get i s)) [
    | inl missing ↦ absurd (ground arith)
    | inr (j, e) ↦ (j, e, some_inj.0 (ap (Option.map undated) (sym e) ∙ h))
  ]

  viewable :
      (i : ℕ) (viewer : Option ℕ) (w : World S Image) (j : Job)
      → js.get i w.store ≡ some j
      → MayAccess viewer j
      → get_job_for_viewer js rt i viewer w ≡ (ok j, w)
  viewable i viewer w j e may = elim (get_job_for_viewer_lem js rt i viewer w) [
    | inl (k, e', m, shown) ↦ shown ∙ ap (λ x. (ok x, w)) (some_inj.0 (sym e' ∙ e))
    | inr (inl (missing, r)) ↦ absurd (ground arith)
    | inr (inr (k, e', denied, r)) ↦
        absurd (denied (subst (MayAccess viewer) (some_inj.0 (sym e ∙ e')) may))
  ]

  -- What a viewer is shown of a job that ended so.
  abbrev pub Shown : ℕ → Option ℕ → Verdict Image → World S Image → Type 0
  Shown i viewer (success image) w = get_try_on_result js rt i viewer w ≡ (ok image, w)
  Shown i viewer (failure message) w =
      ((r : TryOnJobStatusResponse) × (get_try_on_job js rt i viewer w ≡ (ok r, w))
        × (r.status ≡ failed)
        × (r.error ≡ some message)
        × (r.result_url ≡ none))
      × (get_try_on_result js rt i viewer w ≡ (err (http 409 (not_ready failed)), w))

  may_still :
      (viewer : Option ℕ) (job j : Job)
      → j.user_id ≡ job.user_id
      → MayAccess viewer job
      → MayAccess viewer j
  may_still viewer job j same (inl anonymous) = inl (same ∙ anonymous)
  may_still viewer job j same (inr (u, owned, signed)) = inr (u, same ∙ owned, signed)

  Shown-end :
      (i : ℕ) (viewer : Option ℕ) (v : Verdict Image) (w : World S Image) (job j : Job)
      → js.get i w.store ≡ some j
      → undated j ≡ finished js rt v (undated job)
      → MayAccess viewer job
      → ((old : Option Image) × (get_result i w.disk ≡ stored_result js rt v old))
      → Shown i viewer v w
  unfolding get_try_on_job get_try_on_result
  Shown-end i viewer (success image) w job j e u may (old, there) =
      let seen = viewable i viewer w j e (may_still viewer job j (ap (λ x. x.user_id) u) may) in
      let done : j.status ≡ completed = ap (λ x. x.status) u in ground (arith, seen, done, there)
  Shown-end i viewer (failure message) w job j e u may (old, there) =
      let seen = viewable i viewer w j e (may_still viewer job j (ap (λ x. x.user_id) u) may) in
      let done : j.status ≡ failed = ap (λ x. x.status) u in
      let why : j.error ≡ some message = ap (λ x. x.error) u in
      (
        (status_response none j, ground (arith, seen, done), done, why, refl),
        ground (arith, seen, done),
      )

module _ {S Image : Type 0} (js : JobStore S) (rt : Runtime Image) (IsWf : S → Type 0)
    {takes : Job → Bool} (laws : IsJobStore js IsWf takes) where
  -- After the run of a pending job, whoever may see it is shown how it ended: the generated image, or
  -- the status failed with its message and no link, and then the result is refused with 409.
  pub run_job-Shown :
      (i now later : ℕ) (w : World S Image)
      → IsWf w.store
      → (job : Job) → js.get i w.store ≡ some job
      → status_eq job.status pending ≡ true
      → (viewer : Option ℕ) → MayAccess viewer job
      → Shown js rt i viewer (verdict js rt i job w) (run_job js rt i now later w).1
  run_job-Shown i now later w wf job e waiting viewer may =
      let v = verdict js rt i job w in
      let (r, kept, seen, results, uploads) =
        run_job_pending js rt IsWf laws i now later w wf job e waiting in
      let (j, e', u) =
        view-some js rt i (run_job js rt i now later w).1.store (finished js rt v (undated job))
          (ground (arith, seen i, e)) in
      Shown-end js rt i viewer v (run_job js rt i now later w).1 job j e' u may
        (get_result i w.disk, ground (arith, results i))
