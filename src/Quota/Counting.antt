-- ===== src/Quota/Counting.antt =====
-- A new job counts once against the limits that admitted it.
use ai_virtual_try_on.Prelude.{
  ℕ, suc, ◌≤◌, ◌≡◌, refl, String, Bool, true, false, Option, none, some, List, [], ◌∷◌, ◌++◌, leb,
  count_where, count_where-append, arith,
}
use ai_virtual_try_on.Job.{Job}
use ai_virtual_try_on.Quota.{
  Plan, is_below, is_exceeded, get_status, is_active, active_jobs, is_at_capacity, plan_of,
  is_by_since, day_start, day_limit, month_limit,
}

-- The use stays within a limit.
abbrev pub within : Option ℕ → ℕ → Bool
within none used = true
within (some limit) used = leb used limit

pub within-suc :
    (limit : Option ℕ) (used : ℕ) → is_below limit used ≡ true → within limit (suc used) ≡ true
within-suc none used h = refl
within-suc (some limit) used h = ground arith

count-new_le :
    (p : Job → Bool) (jobs : List Job) (j : Job)
    → count_where p (jobs ++ j ∷ []) ≤ suc (count_where p jobs)
count-new_le p jobs j = ground (arith, count_where-append p jobs (j ∷ []))

within-new :
    (p : Job → Bool) (jobs : List Job) (j : Job) (limit : Option ℕ)
    → is_below limit (count_where p jobs) ≡ true
    → within limit (count_where p (jobs ++ j ∷ [])) ≡ true
within-new p jobs j none h = refl
within-new p jobs j (some limit) h = ground (arith, count-new_le p jobs j)

pub active-new :
    (max : ℕ) (jobs : List Job) (j : Job)
    → is_at_capacity max jobs ≡ false
    → active_jobs (jobs ++ j ∷ []) ≤ max
active-new max jobs j h = ground (arith, count-new_le is_active jobs j)

module _ (month_start : ℕ → ℕ) (user : Option ℕ) (client_ip : Option String) (plan_name : String)
    (now : ℕ) (plans : List Plan) (jobs : List Job) (j : Job) where
  -- The status after one more job is within the limits of a status that was not exceeded.
  pub get_status-new :
      is_exceeded (get_status month_start user client_ip plan_name now plans jobs) ≡ false
      → let q = get_status month_start user client_ip plan_name now plans (jobs ++ j ∷ []) in
        (within q.limit_per_day q.used_today ≡ true)
        × (within q.limit_per_month q.used_this_month ≡ true)
  unfolding get_status is_exceeded
  get_status-new h =
      let plan = plan_of plan_name plans in
      (
        within-new (is_by_since user client_ip (day_start now)) jobs j (day_limit plan)
            (ground arith),
        within-new (is_by_since user client_ip (month_start now)) jobs j (month_limit plan)
            (ground arith),
      )
