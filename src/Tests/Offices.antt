-- ===== src/Tests/Offices.antt =====
-- Administration at concrete inputs.
use mathlib.Core.Option
use ai_virtual_try_on.Prelude.{◌≡◌, refl, true, false, Option, none, some, List, [], ◌∷◌}
use ai_virtual_try_on.Errors.Exec.{ok}
use ai_virtual_try_on.Accounts.{User, AccessTokenClaims, find_user, find_email}
use ai_virtual_try_on.Accounts.Auth.{claims_of}
use ai_virtual_try_on.Quota.{Plan}
use ai_virtual_try_on.Administration.{
  PlanLimits, Office, with_active, set_user_active, set_active, promote_to_admin,
}
use ai_virtual_try_on.Administration.Admins.{
  Request, has_active_admin, serve_all, active_admin_remains,
}
use ai_virtual_try_on.Tests.Accounts.{ann}

abbrev bob : User
bob = record ann { id = 8; email = "bob@x.org"; is_admin = false }

abbrev free_plan : Plan
free_plan = record {
  name = "free";
  max_generations_per_day = some 5;
  max_generations_per_month = none;
  max_num_timesteps = none;
}

abbrev office : Office
office = record { users = ann ∷ bob ∷ []; plans = free_plan ∷ []; audit_log = [] }

abbrev decode : AccessTokenClaims → Option AccessTokenClaims
decode c = some c

-- Ann disables Bob, Bob tries to disable Ann, and Ann herself.
abbrev requests : List (Request AccessTokenClaims)
requests =
    record { token = claims_of ann; user_id = 8; active = false; audit_id = 1; now = 10 }
    ∷ record { token = claims_of bob; user_id = 7; active = false; audit_id = 2; now = 11 }
    ∷ record { token = claims_of ann; user_id = 7; active = false; audit_id = 3; now = 12 }
    ∷ []

active_admin_remains_example : has_active_admin (serve_all decode requests office) ≡ true
active_admin_remains_example = active_admin_remains decode requests office refl

disabled : (set_active 8 false ann 1 10 office).0 ≡ ok (with_active false bob)
unfolding set_active set_user_active find_user
disabled = refl

abbrev tighter : PlanLimits
tighter = record {
  max_generations_per_day = some 3;
  max_generations_per_month = some 30;
  max_num_timesteps = some 20;
}

-- The script promotes once.
promoted :
    ((promote_to_admin "bob@x.org" 1 10 office).0 ≡ 0)
    × ((promote_to_admin "nobody" 1 10 office).0 ≡ 1)
unfolding promote_to_admin find_email
promoted = (refl, refl)
