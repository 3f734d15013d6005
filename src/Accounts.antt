-- ===== src/Accounts.antt =====
-- The rows of `users` (backend/app/db/models.py: User) and who a request comes from:
-- backend/app/auth/dependencies.py and the claims of backend/app/auth/security.py. Decoding a JWT
-- is an argument.
pub mod Auth
pub mod Revocation
pub mod Login
pub mod Forgotten
pub mod Deletion
use ai_virtual_try_on.Prelude.{
  ℕ, String, Bool, true, false, not, ◌||◌, Option, none, some, List, [], ◌∷◌, ◌==◌, str_eq,
  if◌then◌else◌,
}
use ai_virtual_try_on.Errors.{text, http}
use ai_virtual_try_on.Errors.Exec.{Result, ok, err}

pub record User : Type 0 where
  pub id : ℕ
  pub email : String
  pub password_hash : String
  pub plan : String
  pub auth_version : ℕ
  pub is_admin : Bool
  pub is_active : Bool
  pub created_at : ℕ

-- `session.get(User, id)`
unfoldable pub find_user : ℕ → List User → Option User
find_user i [] = none
find_user i (u ∷ users) = if u.id == i then some u else find_user i users

-- `session.query(User).filter(User.email == email).first()`
unfoldable pub find_email : String → List User → Option User
find_email email [] = none
find_email email (u ∷ users) = if str_eq u.email email then some u else find_email email users

-- The flush of a changed row.
unfoldable pub update_user : ℕ → (User → User) → List User → List User
update_user i f [] = []
update_user i f (u ∷ users) = if u.id == i then f u ∷ users else u ∷ update_user i f users

pub record AccessTokenClaims : Type 0 where
  pub user_id : ℕ
  pub auth_version : ℕ

abbrev pub check_user : AccessTokenClaims → Option User → Option User
check_user claims none = none
check_user claims (some user) =
    if not (user.auth_version == claims.auth_version)
    then none
    else if not user.is_active
    then none
    else some user

-- The user of the request's credentials: none without a header, with a token that does not decode,
-- for a missing user, for another version, and for a disabled account.
unfoldable pub get_current_user_optional :
    {Token : Type 0} → (Token → Option AccessTokenClaims) → Option Token → List User → Option User
get_current_user_optional decode none users = none
get_current_user_optional decode (some token) users = elim (decode token) [
  | none ↦ none
  | some claims ↦ check_user claims (find_user claims.user_id users)
]

unfoldable pub get_current_user_required : Option User → Result User
get_current_user_required none = err (http 401 (text "Please sign in to use this feature."))
get_current_user_required (some user) = ok user

unfoldable pub get_current_admin_user : Result User → Result User
get_current_admin_user (err e) = err e
get_current_admin_user (ok user) =
    if not user.is_admin then err (http 403 (text "Admin access required.")) else ok user
