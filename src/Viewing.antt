-- ===== src/Viewing.antt =====
-- The routes of backend/app/api/tryon.py that look at a job, save it or cancel it, over
-- TryOnService, and the usage that backend/app/api/usage.py shows. A viewer is the id of the signed-in
-- account. The link to a result stands as the job's id, a file as the image in it.
pub mod Delivery
pub mod Usage
use mathlib.Core.Option
use ai_virtual_try_on.Prelude.{
  ℕ, String, Bool, true, false, not, Option, none, some, List, if◌then◌else◌,
}
use ai_virtual_try_on.Errors.{Error, text, not_ready, http}
use ai_virtual_try_on.Errors.Exec.{
  Result, ok, err, Exec, pure, gets, or_raise, raise_if, ◌>>=◌, ◌>>◌,
}
use ai_virtual_try_on.Job.{Job, JobStatus, completed, status_eq}
use ai_virtual_try_on.JobStore.{JobStore}
use ai_virtual_try_on.Storage.{get_result}
use ai_virtual_try_on.TryOnService.{World, Runtime, get_job_for_viewer, cancel_job, save_job}
use ai_virtual_try_on.Accounts.{User, find_user}
use ai_virtual_try_on.Quota.{Plan, QuotaStatus, get_status, remaining_today, remaining_this_month}
use ai_virtual_try_on.Administration.{no_such_user}
use ai_virtual_try_on.Administration.Listing.{AdminUserRow, to_user_row}
use ai_virtual_try_on.Submission.{Config, Caller, status_for}

pub record TryOnJobStatusResponse : Type 0 where
  pub job_id : ℕ
  pub status : JobStatus
  pub error : Option String
  pub created_at : ℕ
  pub updated_at : ℕ
  pub result_url : Option ℕ
  pub saved : Bool

abbrev pub status_response : Option ℕ → Job → TryOnJobStatusResponse
status_response result_url job = record {
  job_id = job.id;
  status = job.status;
  error = job.error;
  created_at = job.created_at;
  updated_at = job.updated_at;
  result_url = result_url;
  saved = job.saved;
}

abbrev pub no_longer_available : Error
no_longer_available = http 404 (text "The result image is no longer available.")

module _ {S Image : Type 0} (js : JobStore S) (rt : Runtime Image) where
  unfoldable pub get_try_on_job : ℕ → Option ℕ → Exec (World S Image) TryOnJobStatusResponse
  get_try_on_job i viewer = do
    job ← get_job_for_viewer js rt i viewer
    pure (status_response (if status_eq job.status completed then some i else none) job)

  unfoldable pub get_try_on_result : ℕ → Option ℕ → Exec (World S Image) Image
  get_try_on_result i viewer = do
    job ← get_job_for_viewer js rt i viewer
    raise_if (not (status_eq job.status completed)) (http 409 (not_ready job.status))
    found ← gets (λ w. get_result i w.disk)
    or_raise found no_longer_available

  unfoldable pub save_try_on_result : ℕ → ℕ → ℕ → Exec (World S Image) TryOnJobStatusResponse
  save_try_on_result i user now = do
    job ← save_job js rt i user now
    pure (status_response (some i) job)

  unfoldable pub cancel_try_on_job : ℕ → Option ℕ → ℕ → Exec (World S Image) TryOnJobStatusResponse
  cancel_try_on_job i viewer now = do
    job ← cancel_job js rt i viewer now
    pure (status_response none job)

pub record UsageStatusResponse : Type 0 where
  pub plan : String
  pub limit_per_day : Option ℕ
  pub limit_per_month : Option ℕ
  pub used_today : ℕ
  pub used_this_month : ℕ
  pub left_today : Option ℕ
  pub left_this_month : Option ℕ
  pub max_num_timesteps : Option ℕ

abbrev pub usage_of : QuotaStatus → UsageStatusResponse
usage_of q = record {
  plan = q.plan;
  limit_per_day = q.limit_per_day;
  limit_per_month = q.limit_per_month;
  used_today = q.used_today;
  used_this_month = q.used_this_month;
  left_today = remaining_today q;
  left_this_month = remaining_this_month q;
  max_num_timesteps = q.max_num_timesteps;
}

unfoldable pub get_my_usage : Config → Caller → ℕ → List Job → UsageStatusResponse
get_my_usage config caller now jobs = usage_of (status_for config caller now jobs)

-- `get_user` of backend/app/api/admin.py: the account with its usage.
unfoldable pub get_user :
    Config → ℕ → ℕ → List User → List Job → Result (AdminUserRow × UsageStatusResponse)
get_user config user_id now users jobs = elim (find_user user_id users) [
  | none ↦ err no_such_user
  | some user ↦ ok (
    to_user_row user,
    usage_of (get_status config.month_start (some user.id) none user.plan now config.plans jobs),
  )
]
