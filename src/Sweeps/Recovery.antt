-- ===== src/Sweeps/Recovery.antt =====
-- What the recovery sweep does to the jobs and the files.
use mathlib.Core.Option
use ai_virtual_try_on.Prelude.{
  ℕ, ◌-◌, ◌*◌, ◌≡◌, refl, ap, ◌∙◌, String, Bool, true, false, not, ◌&&◌, Option, none, some, List,
  [], ◌∷◌, ◌==◌, select, any_of, length, map, if◌then◌else◌, arith, inl, inr, Bool-cases,
}
use ai_virtual_try_on.Errors.Exec.{ok}
use ai_virtual_try_on.Job.{Job}
use ai_virtual_try_on.Job.Table.{find, modify, find-modify}
use ai_virtual_try_on.JobStore.Index.{clashes, IsUnique}
use ai_virtual_try_on.Storage.{Disk, get_result, load_temp_upload, cleanup_temp}
use ai_virtual_try_on.Storage.Laws.{
  get-delete_result, get-cleanup_temp, load-cleanup_temp, load-delete_result,
}
use ai_virtual_try_on.Sweeps.{
  minute, Faults, is_missing, flush_rows, is_stale, recovered, recover_rows, recover_file,
  recover_files, recover_stale_processing_jobs, unless,
}

abbrev pub visits : ℕ → List Job → Bool
visits k = any_of (λ j. j.id == k)

abbrev pub holds_at : (Job → Bool) → Option Job → Bool
holds_at p none = false
holds_at p (some j) = p j

pub find-recover_rows :
    (now k : ℕ) (stale table : List Job)
    → find k (recover_rows now stale table)
      ≡ (if visits k stale then Option.map (recovered now) (find k table) else find k table)
unfolding recover_rows
find-recover_rows now k [] table = refl
find-recover_rows now k (j ∷ stale) table = ground (
  arith,
  find-recover_rows now k stale (modify j.id (recovered now) table),
  find-modify j.id k (recovered now) table (λ x. refl),
)

missing_fewer :
    (x : Job) (table stale : List Job)
    → any_of (is_missing table) stale ≡ false
    → any_of (is_missing (x ∷ table)) stale ≡ false
unfolding find
missing_fewer x table [] h = refl
missing_fewer x table (j ∷ stale) h = ground (arith, missing_fewer x table stale)

-- The rows of a query are in the table that it read.
selected_there :
    (p : Job → Bool) (jobs : List Job) → any_of (is_missing jobs) (select p jobs) ≡ false
unfolding find
selected_there p [] = refl
selected_there p (x ∷ jobs) =
    let rest = missing_fewer x jobs (select p jobs) (selected_there p jobs) in
    elim (Bool-cases (p x)) [ inl taken ↦ ground (arith, rest) | inr left ↦ ground (arith, rest) ]

flush_there :
    (now : ℕ) (stale table : List Job)
    → any_of (is_missing table) stale ≡ false
    → flush_rows now stale table ≡ (ok tt, recover_rows now stale table)
unfolding flush_rows
flush_there now stale table there = ground arith

no_twin :
    (j : Job) (p : Job → Bool) (jobs : List Job)
    → clashes j jobs ≡ false
    → visits j.id (select p jobs) ≡ false
unfolding clashes
no_twin j p [] h = refl
no_twin j p (x ∷ jobs) h = ground (arith, no_twin j p jobs)

-- A query visits an id exactly when the row under it meets the condition.
pub visits-select :
    (k : ℕ) (p : Job → Bool) (jobs : List Job)
    → IsUnique jobs
    → visits k (select p jobs) ≡ holds_at p (find k jobs)
unfolding find
visits-select k p [] u = refl
visits-select k p (j ∷ jobs) u = elim (Bool-cases (j.id == k)) [
  | inl here ↦ ground (
    arith,
    no_twin j p jobs u.0,
    ap (λ (n : ℕ). visits n (select p jobs)) {x = j.id} {y = k} (ground arith),
  )
  | inr there ↦ ground (arith, visits-select k p jobs u.1)
]

module _ {Image : Type 0} (faults : Faults) where
  get-recover_file :
      (i k : ℕ) (d : Disk Image)
      → get_result k (recover_file faults i d)
        ≡ (if i == k && not (faults.delete_fails k) then none else get_result k d)
  unfolding recover_file
  get-recover_file i k d = ground (
    arith,
    get-delete_result i k (unless (faults.cleanup_fails i) (cleanup_temp i) d),
    get-cleanup_temp i k d,
  )

  load-recover_file :
      (i k : ℕ) (name : String) (d : Disk Image)
      → load_temp_upload k name (recover_file faults i d)
        ≡ (if i == k && not (faults.cleanup_fails k) then none else load_temp_upload k name d)
  unfolding recover_file
  load-recover_file i k name d = ground (
    arith,
    load-delete_result i k name (unless (faults.cleanup_fails i) (cleanup_temp i) d),
    load-cleanup_temp i k name d,
  )

  get-recover_files :
      (k : ℕ) (stale : List Job) (d : Disk Image)
      → get_result k (recover_files faults stale d)
        ≡ (if visits k stale && not (faults.delete_fails k) then none else get_result k d)
  unfolding recover_files
  get-recover_files k [] d = refl
  get-recover_files k (j ∷ stale) d =
      ground
        (arith, get-recover_file j.id k d, get-recover_files k stale (recover_file faults j.id d))

  load-recover_files :
      (k : ℕ) (name : String) (stale : List Job) (d : Disk Image)
      → load_temp_upload k name (recover_files faults stale d) ≡ (
          if visits k stale && not (faults.cleanup_fails k)
          then none
          else load_temp_upload k name d)
  unfolding recover_files
  load-recover_files k name [] d = refl
  load-recover_files k name (j ∷ stale) d = ground (
    arith,
    load-recover_file j.id k name d,
    load-recover_files k name stale (recover_file faults j.id d),
  )

  module _ (now threshold_minutes k : ℕ) (jobs : List Job) (d : Disk Image)
      (unique : IsUnique jobs) where
    abbrev stale_at : Job → Bool
    stale_at = is_stale (now - threshold_minutes * minute)

    -- A sweep whose table does not change under it fails exactly the jobs that have been
    -- processing since before the threshold, and deletes their result and their uploads unless the
    -- storage call raises for them; every other job, result and upload stays. It returns their
    -- number and their ids.
    pub recovery_lem :
        let (r, table, d') =
          recover_stale_processing_jobs faults now threshold_minutes jobs jobs d in
        let stale = select (is_stale (now - threshold_minutes * minute)) jobs in
        (r ≡ ok (length stale, map (λ (j : Job). j.id) stale))
        × (find k table ≡ (
            if holds_at (is_stale (now - threshold_minutes * minute)) (find k jobs)
            then Option.map (recovered now) (find k jobs)
            else find k jobs))
        × (get_result k d' ≡ (
            if holds_at (is_stale (now - threshold_minutes * minute)) (find k jobs)
              && not (faults.delete_fails k)
            then none
            else get_result k d))
        × ((name : String)
            → load_temp_upload k name d' ≡ (
                if holds_at (is_stale (now - threshold_minutes * minute)) (find k jobs)
                  && not (faults.cleanup_fails k)
                then none
                else load_temp_upload k name d))
    unfolding recover_stale_processing_jobs
    recovery_lem = rw (flush_there now (select stale_at jobs) jobs (selected_there stale_at jobs)) (
        rw (← visits-select k stale_at jobs unique) (
          refl,
          find-recover_rows now k (select stale_at jobs) jobs,
          get-recover_files k (select stale_at jobs) d,
          λ name. load-recover_files k name (select stale_at jobs) d,
        ))

  -- When every row that the query returned is still there at the flush, a job that the query saw as
  -- stale is failed whatever its row holds by then, and its result deleted if the storage call does
  -- not raise: a run that completes between the two, saved or not, loses its result.
  pub recovery_overwrites :
      (now threshold_minutes k : ℕ) (snapshot table : List Job) (d : Disk Image)
      (seen current : Job)
      → IsUnique snapshot
      → find k snapshot ≡ some seen
      → is_stale (now - threshold_minutes * minute) seen ≡ true
      → find k table ≡ some current
      → faults.delete_fails k ≡ false
      → any_of (is_missing table) (select (is_stale (now - threshold_minutes * minute)) snapshot)
        ≡ false
      → let (counts, table', d') =
          recover_stale_processing_jobs faults now threshold_minutes snapshot table d in
        (find k table' ≡ some (recovered now current)) × (get_result k d' ≡ none)
  unfolding recover_stale_processing_jobs
  recovery_overwrites now threshold_minutes k snapshot table d seen current u e old e' deletes
        there =
      let stale = select (is_stale (now - threshold_minutes * minute)) snapshot in
      let visited : visits k stale ≡ true =
        visits-select k (is_stale (now - threshold_minutes * minute)) snapshot u
        ∙ ap (holds_at (is_stale (now - threshold_minutes * minute))) e
        ∙ old in
      rw (flush_there now stale table there) (
        find-recover_rows now k stale table ∙ rw (visited, e') refl,
        get-recover_files k stale d ∙ rw (visited, deletes) refl,
      )
