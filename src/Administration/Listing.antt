-- ===== src/Administration/Listing.antt =====
-- The queries of AdminService (backend/app/services/admin_service.py) that only read, with the
-- status check of the route `list_jobs` (backend/app/api/admin.py). `ORDER BY ... DESC` is the
-- database's: an argument that arranges rows. `ILIKE` is an argument too; a search arrives
-- stripped, and empty where the source has None.
pub mod Pages
pub mod Dashboard
use mathlib.Core.Option
use ai_virtual_try_on.Prelude.{
  ℕ, zero, suc, ◌+◌, ◌-◌, min, max, String, Bool, true, false, not, ◌&&◌, ◌||◌, Option, none, some,
  List, [], ◌∷◌, ltb, leb, str_eq, ◌==◌, has_number, select, count_where, map, length,
  if◌then◌else◌,
}
use ai_virtual_try_on.Errors.{Error, text, http}
use ai_virtual_try_on.Errors.Exec.{Result, ok, err}
use ai_virtual_try_on.Job.{
  Job, JobStatus, pending, processing, completed, failed, cancelled, status_eq,
}
use ai_virtual_try_on.Accounts.{User}
use ai_virtual_try_on.Quota.{Plan, is_active}
use ai_virtual_try_on.Administration.{
  PlanLimits, AdminAuditLog, Action, user_enabled, user_disabled, admin_promoted, plan_updated,
  limits_of,
}

abbrev pub max_page_size : ℕ
max_page_size = 200

-- `max(1, min(limit, MAX_PAGE_SIZE))`
abbrev pub clamp_limit : ℕ → ℕ
clamp_limit limit = max 1 (min limit max_page_size)

module _ {A : Type 0} where
  -- `LIMIT`
  abbrev pub take : ℕ → List A → List A
  take zero xs = []
  take (suc n) [] = []
  take (suc n) (x ∷ xs) = x ∷ take n xs

  -- `OFFSET`
  abbrev pub drop : ℕ → List A → List A
  drop zero xs = xs
  drop (suc n) [] = []
  drop (suc n) (x ∷ xs) = drop n xs

-- A page, and how many rows match.
pub record Listed (A : Type 0) : Type 0 where
  pub rows : List A
  pub total : ℕ

-- What the four lists share: the rows that match, arranged, and the page of them. The order is by
-- an instant that rows may share, so each query has its own arrangement.
unfoldable pub list_page : {A : Type 0} → (List A → List A) → (A → Bool) → ℕ → ℕ → List A → Listed A
list_page arrange matches limit offset table = record {
  rows = take (clamp_limit limit) (drop offset (arrange (select matches table)));
  total = count_where matches table;
}

abbrev pub is_empty : String → Bool
is_empty s = str_eq s ""

pub record AdminUserRow : Type 0 where
  pub id : ℕ
  pub email : String
  pub plan : String
  pub created_at : ℕ
  pub is_admin : Bool
  pub is_active : Bool

abbrev pub to_user_row : User → AdminUserRow
to_user_row u = record {
  id = u.id;
  email = u.email;
  plan = u.plan;
  created_at = u.created_at;
  is_admin = u.is_admin;
  is_active = u.is_active;
}

abbrev pub listed : {A B : Type 0} → (A → B) → Listed A → Listed B
listed f l = record { rows = map f l.rows; total = l.total }

abbrev pub matches_search : (String → String → Bool) → String → User → Bool
matches_search ilike search u = is_empty search || ilike search u.email

unfoldable pub list_users :
    (List User → List User)
    → (String → String → Bool)
    → String
    → ℕ
    → ℕ
    → List User
    → Listed AdminUserRow
list_users arrange ilike search limit offset users =
    listed to_user_row (list_page arrange (matches_search ilike search) limit offset users)

abbrev pub list_plans : (List Plan → List Plan) → List Plan → List (String × PlanLimits)
list_plans arrange plans = map (λ p. (p.name, limits_of p)) (arrange plans)

abbrev pub status_value : JobStatus → String
status_value pending = "pending"
status_value processing = "processing"
status_value completed = "completed"
status_value failed = "failed"
status_value cancelled = "cancelled"

-- `status in _VALID_JOB_STATUSES`
abbrev pub is_valid_status : String → Bool
is_valid_status s =
    str_eq s "pending"
    || str_eq s "processing"
    || str_eq s "completed"
    || str_eq s "failed"
    || str_eq s "cancelled"

abbrev pub is_terminal : JobStatus → Bool
is_terminal completed = true
is_terminal failed = true
is_terminal cancelled = true
is_terminal pending = false
is_terminal processing = false

-- `_job_duration_seconds`, in microseconds; a row is not updated before it is created.
abbrev pub job_duration : Job → Option ℕ
job_duration j = if is_terminal j.status then some (j.updated_at - j.created_at) else none

pub record AdminJobRow : Type 0 where
  pub id : ℕ
  pub user_id : Option ℕ
  pub status : JobStatus
  pub category : String
  pub garment_photo_type : String
  pub error : Option String
  pub created_at : ℕ
  pub updated_at : ℕ
  pub processing_duration : Option ℕ

abbrev pub to_job_row : Job → AdminJobRow
to_job_row j = record {
  id = j.id;
  user_id = j.user_id;
  status = j.status;
  category = j.category;
  garment_photo_type = j.garment_photo_type;
  error = j.error;
  created_at = j.created_at;
  updated_at = j.updated_at;
  processing_duration = job_duration j;
}

-- `if status:` and `if user_id is not None:`
abbrev pub has_asked_status : Option String → Job → Bool
has_asked_status none j = true
has_asked_status (some s) j = is_empty s || str_eq (status_value j.status) s

abbrev pub has_asked_user : Option ℕ → Job → Bool
has_asked_user none j = true
has_asked_user (some user) j = has_number j.user_id user

abbrev pub matches_job : Option String → Option ℕ → Job → Bool
matches_job status user j = has_asked_status status j && has_asked_user user j

unfoldable pub list_jobs :
    (List Job → List Job) → Option String → Option ℕ → ℕ → ℕ → List Job → Listed AdminJobRow
list_jobs arrange status user limit offset jobs =
    listed to_job_row (list_page arrange (matches_job status user) limit offset jobs)

abbrev pub bad_status : Error
bad_status =
    http 400 (text "status must be one of: cancelled, completed, failed, pending, processing.")

abbrev pub refuses_status : Option String → Bool
refuses_status none = false
refuses_status (some s) = not (is_valid_status s)

-- The route `list_jobs`.
unfoldable pub get_jobs :
    (List Job → List Job)
    → Option String
    → Option ℕ
    → ℕ
    → ℕ
    → List Job
    → Result (Listed AdminJobRow)
get_jobs arrange status user limit offset jobs =
    if refuses_status status
    then err bad_status
    else ok (list_jobs arrange status user limit offset jobs)

abbrev pub target_type : Action → String
target_type (user_enabled user email) = "user"
target_type (user_disabled user email) = "user"
target_type (admin_promoted user email) = "user"
target_type (plan_updated name before after) = "plan"

-- `str(user_id)`, under the spelling of numbers.
abbrev pub target_id : (ℕ → String) → Action → String
target_id str (user_enabled user email) = str user
target_id str (user_disabled user email) = str user
target_id str (admin_promoted user email) = str user
target_id str (plan_updated name before after) = name

-- `if target_type:` and `if target_id:`
abbrev pub matches_target : (ℕ → String) → String → String → AdminAuditLog → Bool
matches_target str type id entry =
    (is_empty type || str_eq (target_type entry.action) type)
    && (is_empty id || str_eq (target_id str entry.action) id)

unfoldable pub list_audit_log :
    (List AdminAuditLog → List AdminAuditLog)
    → (ℕ → String)
    → String
    → String
    → ℕ
    → ℕ
    → List AdminAuditLog
    → Listed AdminAuditLog
list_audit_log arrange str type id limit offset log =
    list_page arrange (matches_target str type id) limit offset log

pub record AdminDashboard : Type 0 where
  pub total_users : ℕ
  pub active_users : ℕ
  pub jobs_by_status : List (JobStatus × ℕ)
  pub recent_failed_jobs : List AdminJobRow
  pub active_job_count : ℕ
  pub max_active_job_capacity : ℕ
  pub avg_duration : Option (ℕ × ℕ)

abbrev pub has_status : JobStatus → Job → Bool
has_status s j = status_eq j.status s

-- `GROUP BY status`: the statuses that occur, with their counts.
unfoldable pub add_group : JobStatus → ℕ → List (JobStatus × ℕ) → List (JobStatus × ℕ)
add_group s n rest = if n == 0 then rest else (s, n) ∷ rest

abbrev pub group_by_status : List JobStatus → List Job → List (JobStatus × ℕ)
group_by_status [] jobs = []
group_by_status (s ∷ statuses) jobs =
    add_group s (count_where (has_status s) jobs) (group_by_status statuses jobs)

abbrev pub all_statuses : List JobStatus
all_statuses = pending ∷ processing ∷ completed ∷ failed ∷ cancelled ∷ []

-- The newest rows of a status, by the instant of their update.
abbrev pub newest : (List Job → List Job) → JobStatus → ℕ → List Job → List Job
newest arrange s n jobs = take n (arrange (select (has_status s) jobs))

-- `sum(durations) / len(durations)`, as its two parts.
abbrev pub total_duration : List Job → ℕ
total_duration [] = 0
total_duration (j ∷ jobs) = (j.updated_at - j.created_at) + total_duration jobs

abbrev pub average : List Job → Option (ℕ × ℕ)
average [] = none
average (j ∷ jobs) = some (total_duration (j ∷ jobs), length (j ∷ jobs))

unfoldable pub get_dashboard : (List Job → List Job) → ℕ → List User → List Job → AdminDashboard
get_dashboard arrange max_active_jobs users jobs = record {
  total_users = length users;
  active_users = count_where (λ u. u.is_active) users;
  jobs_by_status = group_by_status all_statuses jobs;
  recent_failed_jobs = map to_job_row (newest arrange failed 10 jobs);
  active_job_count = count_where is_active jobs;
  max_active_job_capacity = max_active_jobs;
  avg_duration = average (newest arrange completed 50 jobs);
}
