-- ===== src/Administration.antt =====
-- AdminService of backend/app/services/admin_service.py with the routes of backend/app/api/admin.py
-- that change something, and backend/scripts/promote_admin.py, over the rows of users, plans and
-- admin_audit_log. Ids and instants of new audit rows are arguments; user ids in them stand as
-- numbers. A session commits its change and its audit row together.
pub mod Admins
pub mod Plans
pub mod Listing
use ai_virtual_try_on.Prelude.{
  ℕ, String, Bool, true, false, not, ◌&&◌, Option, none, some, List, [], ◌∷◌, ◌++◌, leb, str_eq,
  ◌==◌, if◌then◌else◌,
}
use ai_virtual_try_on.Errors.{Error, text, user_facing, timesteps_range}
use ai_virtual_try_on.Errors.Exec.{Result, ok, err, Exec}
use ai_virtual_try_on.Accounts.{User, find_user, find_email, update_user}
use ai_virtual_try_on.Quota.{Plan, find_plan}

-- The three limit fields of a plan.
pub record PlanLimits : Type 0 where
  pub max_generations_per_day : Option ℕ
  pub max_generations_per_month : Option ℕ
  pub max_num_timesteps : Option ℕ

-- What an audit row is about, with its `details`.
pub data Action : Type 0 where
  user_enabled : ℕ → String → Action
  user_disabled : ℕ → String → Action
  admin_promoted : ℕ → String → Action
  plan_updated : String → PlanLimits → PlanLimits → Action

pub record AdminAuditLog : Type 0 where
  pub id : ℕ
  pub admin_user_id : Option ℕ
  pub action : Action
  pub created_at : ℕ

pub record Office : Type 0 where
  pub users : List User
  pub plans : List Plan
  pub audit_log : List AdminAuditLog

-- `record_admin_audit_log`
unfoldable pub record_admin_audit_log : Option ℕ → Action → ℕ → ℕ → Office → Office
record_admin_audit_log actor action id now o = record o {
  audit_log =
      o.audit_log
      ++ record { id = id; admin_user_id = actor; action = action; created_at = now } ∷ [];
}

abbrev pub with_active : Bool → User → User
with_active active user = record user { is_active = active }

-- none where the source returns None.
unfoldable pub set_user_active : ℕ → Bool → ℕ → ℕ → ℕ → Office → Option User × Office
set_user_active user_id active actor id now o = elim (find_user user_id o.users) [
  | none ↦ (none, o)
  | some user ↦ (
    some (with_active active user),
    record_admin_audit_log (some actor)
        (if active then user_enabled user_id user.email else user_disabled user_id user.email) id
        now (record o { users = update_user user_id (with_active active) o.users }),
  )
]

abbrev pub own_account : Error
own_account = user_facing (text "You can't disable your own admin account.") 400

abbrev pub no_such_user : Error
no_such_user = user_facing (text "We couldn't find that user.") 404

abbrev pub no_such_plan : Error
no_such_plan = user_facing (text "We couldn't find that plan.") 404

-- `_set_active`, for the administrator that the gate let in.
unfoldable pub set_active : ℕ → Bool → User → ℕ → ℕ → Exec Office User
set_active user_id active admin id now o =
    if user_id == admin.id
    then (err own_account, o)
    else (let (row, o') = set_user_active user_id active admin.id id now o in
        elim row [ none ↦ (err no_such_user, o') | some user ↦ (ok user, o') ])

abbrev pub limits_of : Plan → PlanLimits
limits_of p = record {
  max_generations_per_day = p.max_generations_per_day;
  max_generations_per_month = p.max_generations_per_month;
  max_num_timesteps = p.max_num_timesteps;
}

abbrev pub with_limits : PlanLimits → Plan → Plan
with_limits limits p = record {
  name = p.name;
  max_generations_per_day = limits.max_generations_per_day;
  max_generations_per_month = limits.max_generations_per_month;
  max_num_timesteps = limits.max_num_timesteps;
}

unfoldable pub put_limits : String → PlanLimits → List Plan → List Plan
put_limits name limits [] = []
put_limits name limits (p ∷ plans) =
    if str_eq p.name name then with_limits limits p ∷ plans else p ∷ put_limits name limits plans

-- AdminService.update_plan
unfoldable pub store_limits : String → PlanLimits → ℕ → ℕ → ℕ → Office → Option Plan × Office
store_limits name limits actor id now o = elim (find_plan name o.plans) [
  | none ↦ (none, o)
  | some plan ↦ (
    some (with_limits limits plan),
    record_admin_audit_log (some actor) (plan_updated name (limits_of plan) limits) id now
        (record o { plans = put_limits name limits o.plans }),
  )
]

abbrev pub in_range : ℕ → ℕ → Option ℕ → Bool
in_range low high none = true
in_range low high (some n) = leb low n && leb n high

-- The route `update_plan`, under the bounds of the settings.
unfoldable pub update_plan : ℕ → ℕ → String → PlanLimits → User → ℕ → ℕ → Exec Office Plan
update_plan min_num_timesteps max_num_timesteps name limits admin id now o =
    if not (in_range min_num_timesteps max_num_timesteps limits.max_num_timesteps)
    then (err (user_facing (timesteps_range min_num_timesteps max_num_timesteps) 422), o)
    else (let (row, o') = store_limits name limits admin.id id now o in
        elim row [ none ↦ (err no_such_plan, o') | some plan ↦ (ok plan, o') ])

abbrev pub as_admin : User → User
as_admin user = record user { is_admin = true }

-- The script's exit code, for an address in the form that it normalises it to.
unfoldable pub promote_to_admin : String → ℕ → ℕ → Office → ℕ × Office
promote_to_admin email id now o = elim (find_email email o.users) [
  | none ↦ (1, o)
  | some user ↦ if user.is_admin then (0, o) else (
    0,
    record_admin_audit_log none (admin_promoted user.id email) id now
        (record o { users = update_user user.id as_admin o.users }),
  )
]
