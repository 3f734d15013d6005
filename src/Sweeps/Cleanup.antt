-- ===== src/Sweeps/Cleanup.antt =====
-- What the cleanup of expired results does to the files.
use ai_virtual_try_on.Prelude.{
  ℕ, ◌-◌, ◌*◌, ◌≡◌, refl, String, Bool, not, ◌&&◌, ◌||◌, none, List, [], ◌∷◌, ◌==◌, length, select,
  count_where, any_of, map, ap, ◌∙◌, Bool-cases, inl, inr, if◌then◌else◌, arith,
}
use ai_virtual_try_on.Job.{Job}
use ai_virtual_try_on.Job.Table.{find}
use ai_virtual_try_on.JobStore.Index.{IsUnique}
use ai_virtual_try_on.Storage.{Disk, get_result, load_temp_upload, delete_result}
use ai_virtual_try_on.Storage.Laws.{
  get-delete_result, get-cleanup_temp, load-cleanup_temp, load-delete_result,
}
use ai_virtual_try_on.Sweeps.{
  minute, Faults, is_expired, cleanup_fails_for, cleanup_file, cleanup_files,
  cleanup_expired_results,
}
use ai_virtual_try_on.Sweeps.Recovery.{visits, holds_at, visits-select}

counts_both :
    (p q : Job → Bool) (xs : List Job)
    → length (select (λ j. not (p j)) (select q xs)) ≡ count_where (λ j. q j && not (p j)) xs
counts_both p q [] = refl
counts_both p q (x ∷ xs) = ground (arith, counts_both p q xs)

counts_bad :
    (p q : Job → Bool) (xs : List Job)
    → length (select p (select q xs)) ≡ count_where (λ j. q j && p j) xs
counts_bad p q [] = refl
counts_bad p q (x ∷ xs) = ground (arith, counts_bad p q xs)

bad_ids :
    (faults : Faults) (i : ℕ) (expired : List Job)
    → any_of (λ n. n == i) (map (λ (j : Job). j.id) (select (cleanup_fails_for faults) expired))
      ≡ (visits i expired && (faults.delete_fails i || faults.cleanup_fails i))
bad_ids faults i [] = refl
bad_ids faults i (j ∷ expired) = elim (Bool-cases (j.id == i)) [
  | inl here ↦ ground (
    arith,
    bad_ids faults i expired,
    ap faults.delete_fails {x = j.id} {y = i} (ground arith),
    ap faults.cleanup_fails {x = j.id} {y = i} (ground arith),
  )
  | inr there ↦ ground (arith, bad_ids faults i expired)
]

module _ {Image : Type 0} (faults : Faults) where
  get-cleanup_file :
      (i k : ℕ) (d : Disk Image)
      → get_result k (cleanup_file faults i d)
        ≡ (if i == k && not (faults.delete_fails k) then none else get_result k d)
  unfolding cleanup_file
  get-cleanup_file i k d =
      ground (arith, get-delete_result i k d, get-cleanup_temp i k (delete_result i d))

  load-cleanup_file :
      (i k : ℕ) (name : String) (d : Disk Image)
      → load_temp_upload k name (cleanup_file faults i d) ≡ (
          if i == k && not (faults.delete_fails k || faults.cleanup_fails k)
          then none
          else load_temp_upload k name d)
  unfolding cleanup_file
  load-cleanup_file i k name d =
      ground (arith, load-delete_result i k name d, load-cleanup_temp i k name (delete_result i d))

  get-cleanup_files :
      (k : ℕ) (expired : List Job) (d : Disk Image)
      → get_result k (cleanup_files faults expired d)
        ≡ (if visits k expired && not (faults.delete_fails k) then none else get_result k d)
  unfolding cleanup_files
  get-cleanup_files k [] d = refl
  get-cleanup_files k (j ∷ expired) d =
      ground
        (arith, get-cleanup_file j.id k d, get-cleanup_files k expired (cleanup_file faults j.id d))

  load-cleanup_files :
      (k : ℕ) (name : String) (expired : List Job) (d : Disk Image)
      → load_temp_upload k name (cleanup_files faults expired d) ≡ (
          if visits k expired && not (faults.delete_fails k || faults.cleanup_fails k)
          then none
          else load_temp_upload k name d)
  unfolding cleanup_files
  load-cleanup_files k name [] d = refl
  load-cleanup_files k name (j ∷ expired) d = ground (
    arith,
    load-cleanup_file j.id k name d,
    load-cleanup_files k name expired (cleanup_file faults j.id d),
  )

  -- The cleanup removes the result exactly of the completed, unsaved jobs older than the time to
  -- live for which the storage does not raise, and their uploads if neither call raises; every
  -- other result and upload stays. It counts as failed exactly the expired jobs for which a storage
  -- call raises, lists their ids, and counts the other expired ones as deleted.
  pub cleanup_lem :
      (now ttl_hours k : ℕ) (jobs : List Job) (d : Disk Image)
      → IsUnique jobs
      → let cutoff = now - ttl_hours * (60 * minute) in
        let ((deleted, bad, ids), d') = cleanup_expired_results faults now ttl_hours jobs d in
        (get_result k d' ≡ (
          if holds_at (is_expired cutoff) (find k jobs) && not (faults.delete_fails k)
          then none
          else get_result k d))
        × ((name : String)
            → load_temp_upload k name d' ≡ (
                if holds_at (is_expired cutoff) (find k jobs)
                  && not (faults.delete_fails k || faults.cleanup_fails k)
                then none
                else load_temp_upload k name d))
        × (deleted
            ≡ count_where
                (λ j.
                  is_expired cutoff j
                  && not (faults.delete_fails j.id || faults.cleanup_fails j.id))
                jobs)
        × (bad
            ≡ count_where
                (λ j.
                  is_expired cutoff j && (faults.delete_fails j.id || faults.cleanup_fails j.id))
                jobs)
        × ((i : ℕ)
            → any_of (λ n. n == i) ids ≡ (
                holds_at (is_expired cutoff) (find i jobs)
                && (faults.delete_fails i || faults.cleanup_fails i)))
  unfolding cleanup_expired_results
  cleanup_lem now ttl_hours k jobs d unique =
      let old = is_expired (now - ttl_hours * (60 * minute)) in
      rw (← visits-select k old jobs unique) (
        get-cleanup_files k (select old jobs) d,
        λ name. load-cleanup_files k name (select old jobs) d,
        counts_both (cleanup_fails_for faults) old jobs,
        counts_bad (cleanup_fails_for faults) old jobs,
        λ i. bad_ids faults i (select old jobs) ∙ rw (visits-select i old jobs unique) refl,
      )
