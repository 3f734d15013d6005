-- ===== src/Quota.antt =====
-- QuotaService of backend/app/services/quota_service.py and CapacityService of
-- backend/app/services/capacity_service.py, which count rows of `jobs`. The limits of a plan are not
-- negative. Days are of UTC; where a month begins comes from the calendar, an argument.
pub mod Counting
use ai_virtual_try_on.Prelude.{
  ℕ, ◌-◌, ◌*◌, ◌/◌, String, Bool, true, not, ◌&&◌, ◌||◌, Option, none, some, List, [], ◌∷◌, ltb,
  leb, str_eq, count_where, has_number, opt_text_eq, if◌then◌else◌,
}
use ai_virtual_try_on.Errors.{Message, used_all_today, used_all_this_month}
use ai_virtual_try_on.Job.{Job, pending, processing, status_eq}

pub record Plan : Type 0 where
  pub name : String
  pub max_generations_per_day : Option ℕ
  pub max_generations_per_month : Option ℕ
  pub max_num_timesteps : Option ℕ

pub record QuotaStatus : Type 0 where
  pub plan : String
  pub limit_per_day : Option ℕ
  pub limit_per_month : Option ℕ
  pub used_today : ℕ
  pub used_this_month : ℕ
  pub max_num_timesteps : Option ℕ

abbrev pub is_below : Option ℕ → ℕ → Bool
is_below none used = true
is_below (some limit) used = ltb used limit

unfoldable pub is_exceeded : QuotaStatus → Bool
is_exceeded q =
    not (is_below q.limit_per_day q.used_today && is_below q.limit_per_month q.used_this_month)

abbrev pub remaining : Option ℕ → ℕ → Option ℕ
remaining none used = none
remaining (some limit) used = some (limit - used)

abbrev pub remaining_today : QuotaStatus → Option ℕ
remaining_today q = remaining q.limit_per_day q.used_today

abbrev pub remaining_this_month : QuotaStatus → Option ℕ
remaining_this_month q = remaining q.limit_per_month q.used_this_month

abbrev day : ℕ
day = 86400000000

-- `_day_start`
abbrev pub day_start : ℕ → ℕ
day_start now = now / day * day

-- `session.get(Plan, name)`
unfoldable pub find_plan : String → List Plan → Option Plan
find_plan name [] = none
find_plan name (p ∷ plans) = if str_eq p.name name then some p else find_plan name plans

abbrev pub default_plan_name : String
default_plan_name = "free"

abbrev or_else {ℓ} : {A : Type ℓ} → Option A → Option A → Option A
or_else none b = b
or_else (some a) b = some a

abbrev pub plan_of : String → List Plan → Option Plan
plan_of name plans = or_else (find_plan name plans) (find_plan default_plan_name plans)

-- The identity filter: the rows of the user, or of the address for an anonymous caller.
abbrev pub is_by : Option ℕ → Option String → Job → Bool
is_by (some user) client_ip j = has_number j.user_id user
is_by none client_ip j = opt_text_eq j.client_ip client_ip

-- `identity_filter AND created_at >= start`
abbrev pub is_by_since : Option ℕ → Option String → ℕ → Job → Bool
is_by_since user client_ip start j = is_by user client_ip j && leb start j.created_at

abbrev day_limit : Option Plan → Option ℕ
day_limit none = none
day_limit (some p) = p.max_generations_per_day

abbrev month_limit : Option Plan → Option ℕ
month_limit none = none
month_limit (some p) = p.max_generations_per_month

abbrev step_limit : Option Plan → Option ℕ
step_limit none = none
step_limit (some p) = p.max_num_timesteps

unfoldable pub get_status :
    (ℕ → ℕ) → Option ℕ → Option String → String → ℕ → List Plan → List Job → QuotaStatus
get_status month_start user client_ip plan_name now plans jobs =
    let plan = plan_of plan_name plans in
    record {
      plan = plan_name;
      limit_per_day = day_limit plan;
      limit_per_month = month_limit plan;
      used_today = count_where (is_by_since user client_ip (day_start now)) jobs;
      used_this_month = count_where (is_by_since user client_ip (month_start now)) jobs;
      max_num_timesteps = step_limit plan;
    }

abbrev pub quota_exceeded_message : QuotaStatus → Message
quota_exceeded_message q = elim q.limit_per_day [
  | none ↦ used_all_this_month q.limit_per_month q.plan
  | some limit ↦
      if leb limit q.used_today
      then used_all_today limit q.plan
      else used_all_this_month q.limit_per_month q.plan
]

-- `_ACTIVE_STATUSES`
abbrev pub is_active : Job → Bool
is_active j = status_eq j.status pending || status_eq j.status processing

-- CapacityService.get_status
abbrev pub active_jobs : List Job → ℕ
active_jobs jobs = count_where is_active jobs

abbrev pub is_at_capacity : ℕ → List Job → Bool
is_at_capacity max_active_jobs jobs = leb max_active_jobs (active_jobs jobs)
