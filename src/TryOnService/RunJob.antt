-- ===== src/TryOnService/RunJob.antt =====
-- run_job of backend/app/services/tryon_service.py: what a run leaves of the job, its result and
-- its uploads, over any job store that meets its contract.
use mathlib.Core.Option
use ai_virtual_try_on.Prelude.{
  Bool, ℕ, String, ◌≡◌, refl, sym, subst, true, false, Option, none, some, arith, ◌==◌, inl, inr,
  Bool-cases, if◌then◌else◌,
}
use ai_virtual_try_on.Errors.Exec.{Result, ok}
use ai_virtual_try_on.Job.{JobStatus, pending, processing, completed, failed, status_eq, Job}
use ai_virtual_try_on.JobStore.{
  JobStore, IsJobStore, view, undated, has_status, transition, with_status,
}
use ai_virtual_try_on.Storage.{load_temp_upload, get_result, save_result, cleanup_temp}
use ai_virtual_try_on.Storage.Laws.{
  get-save_result, get-cleanup_temp, load-cleanup_temp, load-save_result,
}
use ai_virtual_try_on.TryOnService.{
  World, Runtime, Outcome, generated, busy, timed_out, crashed, told, raised, person_filename,
  garment_filename, generic_failure_message, generate_from, body_from, run_body, run_handlers,
  run_job,
}

-- The end of a run that found the job pending, as the uploads and the provider decide it.
pub data Verdict (Image : Type 0) : Type 0 where
  success : Image → Verdict Image
  failure : String → Verdict Image

module _ {S Image : Type 0} (js : JobStore S) (rt : Runtime Image) where
  abbrev judge : Option (Outcome Image) → Verdict Image
  judge none = failure generic_failure_message
  judge (some (generated image)) =
      if rt.can_write image then success image else failure generic_failure_message
  judge (some (busy message)) = failure message
  judge (some (timed_out message)) = failure message
  judge (some crashed) = failure generic_failure_message

  abbrev pub verdict : ℕ → Job → World S Image → Verdict Image
  verdict i job w = judge (
      generate_from js rt job (load_temp_upload i person_filename w.disk)
        (load_temp_upload i garment_filename w.disk))

  -- The job as the run leaves it.
  abbrev pub finished : Verdict Image → Job → Job
  finished (success image) j = with_status completed none 0 j
  finished (failure message) j = with_status failed (some message) 0 j

  abbrev pub stored_result : Verdict Image → Option Image → Option Image
  stored_result (success image) old = some image
  stored_result (failure message) old = old

module _ {S Image : Type 0} (js : JobStore S) (rt : Runtime Image) (IsWf : S → Type 0)
    {takes : Job → Bool} (laws : IsJobStore js IsWf takes) where
  -- What a run leaves, from the world in which the job was claimed.
  abbrev pub Done : ℕ → Verdict Image → World S Image → Result (Unit {0}) × World S Image → Type 0
  Done i v w out =
      (out.0 ≡ ok tt)
      × IsWf (out.1).store
      × ((k : ℕ)
          → view js k (out.1).store ≡ (
              if i == k
              then Option.map (finished js rt v) (view js k w.store)
              else view js k w.store))
      × ((k : ℕ)
          → get_result k (out.1).disk
            ≡ (if i == k then stored_result js rt v (get_result k w.disk) else get_result k w.disk))
      × ((k : ℕ) (name : String)
          → load_temp_upload k name (out.1).disk
            ≡ (if i == k then none else load_temp_upload k name w.disk))

  module _ (i now : ℕ) (w : World S Image) (wf : IsWf w.store) where
    fail_with :
        (message : String) → Done i (failure message) w (run_handlers js rt i now (told message) w)
    unfolding run_handlers
    fail_with message =
        let (r, kept, seen) =
          laws.view-update_status i failed (some message) now w.store wf (ground arith) in
        (
          r,
          kept,
          seen,
          λ k. ground (arith, get-cleanup_temp i k w.disk),
          λ k name. load-cleanup_temp i k name w.disk,
        )

    fail_generic : Done i (failure generic_failure_message) w (run_handlers js rt i now raised w)
    unfolding run_handlers
    fail_generic =
        let (r, kept, seen) =
          laws.view-update_status i failed (some generic_failure_message) now w.store wf
            (ground arith) in
        (
          r,
          kept,
          seen,
          λ k. ground (arith, get-cleanup_temp i k w.disk),
          λ k name. load-cleanup_temp i k name w.disk,
        )

    module _ (alive : has_status failed (js.get i w.store) ≡ false) where
      succeed :
          (image : Image)
          → rt.can_write image ≡ true
          → let (ended, w') = body_from js rt i (some (generated image)) now w in
            Done i (judge js rt (some (generated image))) w (run_handlers js rt i now ended w')
      unfolding run_handlers body_from
      succeed image can =
          let (r, kept, seen) =
            laws.view-update_status i completed none now w.store wf (ground arith) in
          rw (can, r)
            (
              refl,
              kept,
              seen,
              λ k. ground (
                arith,
                get-cleanup_temp i k (save_result i image w.disk),
                get-save_result i k image w.disk,
              ),
              λ k name. ground (
                arith,
                load-cleanup_temp i k name (save_result i image w.disk),
                load-save_result i k name image w.disk,
              ),
            )

      cannot_write :
          (image : Image)
          → rt.can_write image ≡ false
          → let (ended, w') = body_from js rt i (some (generated image)) now w in
            Done i (judge js rt (some (generated image))) w (run_handlers js rt i now ended w')
      unfolding body_from
      cannot_write image cannot = rw cannot fail_generic

      run_rest :
          (o : Option (Outcome Image))
          → let (ended, w') = body_from js rt i o now w in
            Done i (judge js rt o) w (run_handlers js rt i now ended w')
      unfolding body_from
      run_rest none = fail_generic
      run_rest (some (generated image)) = elim (Bool-cases (rt.can_write image)) [
        | inl can ↦ succeed image can
        | inr cannot ↦ cannot_write image cannot
      ]
      run_rest (some (busy message)) = fail_with message
      run_rest (some (timed_out message)) = fail_with message
      run_rest (some crashed) = fail_generic

  finished-transition :
      (v : Verdict Image) (o : Option Job)
      → Option.map (finished js rt v) (Option.map (transition pending processing none) o)
        ≡ Option.map (finished js rt v) o
  finished-transition v none = refl
  finished-transition (success image) (some j) = ground arith
  finished-transition (failure message) (some j) = ground arith

  pub has_status-view :
      (status : JobStatus) (o : Option Job)
      → has_status status (Option.map undated o) ≡ has_status status o
  has_status-view status none = refl
  has_status-view status (some j) = refl

  module _ (i now later : ℕ) (w : World S Image) (wf : IsWf w.store) (job : Job) where
    abbrev claimed_world : World S Image
    claimed_world = record w {
      store = (js.try_transition_status i pending processing none now w.store).1;
    }

    run_job_claims :
        js.get i w.store ≡ some job
        → (js.try_transition_status i pending processing none now w.store).0 ≡ ok true
        → run_job js rt i now later w ≡ (
            let (ended, w') = run_body js rt i job later claimed_world in
            run_handlers js rt i later ended w')
    unfolding run_job
    run_job_claims e claim = ground arith

    -- A run that finds its job pending ends without an exception and leaves the job completed with
    -- the generated image stored, or failed with the provider's message or the generic one, as its
    -- uploads, the provider and the disk decide; its uploads are gone, and every other job, result
    -- and upload is as before.
    pub run_job_pending :
        js.get i w.store ≡ some job
        → status_eq job.status pending ≡ true
        → Done i (verdict js rt i job w) w (run_job js rt i now later w)
    unfolding run_body
    run_job_pending e waiting =
        let (r, kept, seen) =
          laws.view-try_transition_status i pending processing none now w.store wf refl in
        let s : S = claimed_world.store in
        let claimed : has_status failed (js.get i s) ≡ false =
          ground (arith, seen i, has_status-view failed (js.get i s)) in
        let (r', kept', seen', results, uploads) = run_rest i later claimed_world kept claimed (
          generate_from js rt job (load_temp_upload i person_filename w.disk)
            (load_temp_upload i garment_filename w.disk)) in
        subst (Done i (verdict js rt i job w) w) (sym (run_job_claims e (ground arith))) (
          r',
          kept',
          λ k. ground (
            arith,
            seen k,
            seen' k,
            finished-transition (verdict js rt i job w) (view js k w.store),
          ),
          results,
          uploads,
        )

    -- A run that finds its job in another status than pending, for one cancelled or taken by
    -- another run, ends without an exception, changes no job and no result, and removes the
    -- uploads of its own job only.
    pub run_job_not_pending :
        js.get i w.store ≡ some job
        → status_eq job.status pending ≡ false
        → let (r, w') = run_job js rt i now later w in
          (r ≡ ok tt)
          × IsWf w'.store
          × ((k : ℕ) → view js k w'.store ≡ view js k w.store)
          × ((k : ℕ) → get_result k w'.disk ≡ get_result k w.disk)
          × ((k : ℕ) (name : String)
              → load_temp_upload k name w'.disk
                ≡ (if i == k then none else load_temp_upload k name w.disk))
    run_job_not_pending e taken =
        let (r, kept, seen) =
          laws.view-try_transition_status i pending processing none now w.store wf refl in
        let left : World S Image = record claimed_world { disk = cleanup_temp i w.disk } in
        let ends : run_job js rt i now later w ≡ (ok tt, left) = unfold run_job in ground arith in
        rw ends (
          refl,
          kept,
          λ k. elim (Bool-cases (i == k)) [
            | inl here ↦ ground (arith, seen i)
            | inr there ↦ ground (arith, seen k)
          ],
          λ k. get-cleanup_temp i k w.disk,
          λ k name. load-cleanup_temp i k name w.disk,
        )
