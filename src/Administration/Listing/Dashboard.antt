-- ===== src/Administration/Listing/Dashboard.antt =====
-- The figures of the dashboard agree with the rows, and with the capacity check.
use ai_virtual_try_on.Prelude.{
  ℕ, zero, suc, ◌+◌, ◌≤◌, ◌≡◌, refl, ◌∙◌, Bool, false, not, List, [], ◌∷◌, length, map, select,
  count_where, arith, if◌then◌else◌,
}
use ai_virtual_try_on.Job.{
  Job, JobStatus, pending, processing, completed, failed, cancelled, status_eq,
}
use ai_virtual_try_on.Accounts.{User}
use ai_virtual_try_on.Quota.{is_active, active_jobs}
use ai_virtual_try_on.Administration.Listing.{
  take, has_status, add_group, group_by_status, all_statuses, AdminJobRow, to_job_row,
  get_dashboard,
}
use ai_virtual_try_on.Administration.Listing.Pages.{length-take-le}

abbrev pub sum_of : List (JobStatus × ℕ) → ℕ
sum_of [] = 0
sum_of ((s, n) ∷ rest) = n + sum_of rest

abbrev pub count_of : JobStatus → List (JobStatus × ℕ) → ℕ
count_of s [] = 0
count_of s ((t, n) ∷ rest) = let other = count_of s rest in if status_eq t s then n else other

sum-add_group :
    (s : JobStatus) (n : ℕ) (rest : List (JobStatus × ℕ))
    → sum_of (add_group s n rest) ≡ n + sum_of rest
unfolding add_group
sum-add_group s n rest = ground arith

count-add_group :
    (s t : JobStatus) (n : ℕ) (rest : List (JobStatus × ℕ))
    → count_of t rest ≡ 0
    → count_of t (add_group s n rest) ≡ (if status_eq s t then n else 0)
unfolding add_group
count-add_group s t n rest h = ground arith

count_of_other :
    (s t : JobStatus) (n : ℕ) (rest : List (JobStatus × ℕ))
    → status_eq s t ≡ false
    → count_of t (add_group s n rest) ≡ count_of t rest
unfolding add_group
count_of_other s t n rest h = ground arith

sum-statuses :
    (jobs : List Job)
    → count_where (has_status pending) jobs
        + (count_where (has_status processing) jobs
            + (count_where (has_status completed) jobs
                + (count_where (has_status failed) jobs + count_where (has_status cancelled) jobs)))
      ≡ length jobs
sum-statuses [] = refl
sum-statuses (j ∷ jobs) = ground (arith, sum-statuses jobs)

sum-by_status : (jobs : List Job) → sum_of (group_by_status all_statuses jobs) ≡ length jobs
sum-by_status jobs = simp sum-add_group (omega (arith, sum-statuses jobs))

active-statuses :
    (jobs : List Job)
    → count_where is_active jobs
      ≡ count_where (has_status pending) jobs + count_where (has_status processing) jobs
active-statuses [] = refl
active-statuses (j ∷ jobs) = ground (arith, active-statuses jobs)

-- A status that no later group is of.
later_none :
    (t : JobStatus) (jobs : List Job)
    → status_eq completed t ≡ false
    → status_eq failed t ≡ false
    → status_eq cancelled t ≡ false
    → count_of t (group_by_status (completed ∷ failed ∷ cancelled ∷ []) jobs) ≡ 0
later_none t jobs c f d =
    count_of_other completed t _ _ c
    ∙ count_of_other failed t _ _ f
    ∙ count_of_other cancelled t _ _ d

active-by_status :
    (jobs : List Job)
    → count_where is_active jobs
      ≡ count_of pending (group_by_status all_statuses jobs)
        + count_of processing (group_by_status all_statuses jobs)
active-by_status jobs = omega (
  arith,
  active-statuses jobs,
  count-add_group pending pending (count_where (has_status pending) jobs)
      (group_by_status (processing ∷ completed ∷ failed ∷ cancelled ∷ []) jobs)
      (count_of_other processing pending _ _ refl ∙ later_none pending jobs refl refl refl),
  count_of_other pending processing (count_where (has_status pending) jobs)
      (group_by_status (processing ∷ completed ∷ failed ∷ cancelled ∷ []) jobs) refl,
  count-add_group processing processing (count_where (has_status processing) jobs)
      (group_by_status (completed ∷ failed ∷ cancelled ∷ []) jobs)
      (later_none processing jobs refl refl refl),
)

abbrev pub is_other : AdminJobRow → Bool
is_other r = not (status_eq r.status failed)

module _ {A : Type 0} where
  count-take-le :
      (p : A → Bool) (n : ℕ) (xs : List A) → count_where p (take n xs) ≤ count_where p xs
  count-take-le p zero xs = omega arith
  count-take-le p (suc n) [] = omega arith
  count-take-le p (suc n) (x ∷ xs) = ground (arith, count-take-le p n xs)

count-map :
    (jobs : List Job)
    → count_where is_other (map to_job_row jobs) ≡ count_where (λ j. not (has_status failed j)) jobs
count-map [] = refl
count-map (j ∷ jobs) = ground (arith, count-map jobs)

count-select :
    (jobs : List Job)
    → count_where (λ j. not (has_status failed j)) (select (has_status failed) jobs) ≡ 0
count-select [] = refl
count-select (j ∷ jobs) = ground (arith, count-select jobs)

length-map : (jobs : List Job) → length (map to_job_row jobs) ≡ length jobs
length-map [] = refl
length-map (j ∷ jobs) = omega (arith, length-map jobs)

-- Where the database keeps the rows that it arranges: the counts by status add up to all jobs, those
-- of pending and processing to the active jobs that the capacity check counts, and at most ten jobs
-- are listed as failed, all of them failed.
pub get_dashboard_lem :
    (arrange : List Job → List Job) (max_active_jobs : ℕ) (users : List User) (jobs : List Job)
    → ((p : Job → Bool) (rows : List Job) → count_where p (arrange rows) ≡ count_where p rows)
    → let d = get_dashboard arrange max_active_jobs users jobs in
      (sum_of d.jobs_by_status ≡ length jobs)
      × (d.active_job_count ≡ active_jobs jobs)
      × (active_jobs jobs
          ≡ count_of pending d.jobs_by_status + count_of processing d.jobs_by_status)
      × (length d.recent_failed_jobs ≤ 10)
      × (count_where is_other d.recent_failed_jobs ≡ 0)
unfolding get_dashboard
get_dashboard_lem arrange max_active_jobs users jobs keeps =
    let failures = arrange (select (has_status failed) jobs) in
    (
      sum-by_status jobs,
      refl,
      active-by_status jobs,
      omega (arith, length-map (take 10 failures), length-take-le 10 failures),
      omega (
        arith,
        count-map (take 10 failures),
        count-take-le (λ j. not (has_status failed j)) 10 failures,
        keeps (λ j. not (has_status failed j)) (select (has_status failed) jobs),
        count-select jobs,
      ),
    )
