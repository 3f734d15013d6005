-- ===== src/Accounts/Revocation.antt =====
-- Which access tokens work, and what a password reset does to them.
use mathlib.Core.Option
use ai_virtual_try_on.Prelude.{
  ℕ, ◌≡◌, refl, String, true, Option, none, some, List, [], ◌∷◌, ◌==◌, if◌then◌else◌, arith, inl,
  inr, Option-cases,
}
use ai_virtual_try_on.Errors.Exec.{ok}
use ai_virtual_try_on.PasswordReset.{consume_reset_token}
use ai_virtual_try_on.Accounts.{
  User, AccessTokenClaims, find_user, update_user, check_user, get_current_user_optional,
  get_current_user_required, get_current_admin_user,
}
use ai_virtual_try_on.Accounts.Auth.{Security, Database, with_password, reset_password}

pub find_user-id : (k : ℕ) (users : List User) (u : User) → find_user k users ≡ some u → u.id ≡ k
unfolding find_user
find_user-id k [] u h = cc
find_user-id k (x ∷ users) u h = ground (arith, find_user-id k users u)

pub find_user-update :
    (i k : ℕ) (f : User → User) (users : List User)
    → ((u : User) → (f u).id ≡ u.id)
    → find_user k (update_user i f users)
      ≡ (if i == k then Option.map f (find_user k users) else find_user k users)
unfolding find_user update_user
find_user-update i k f [] keeps = ground arith
find_user-update i k f (u ∷ users) keeps =
    ground (arith, keeps u, find_user-update i k f users keeps)

module _ {Token : Type 0} (decode : Token → Option AccessTokenClaims) (token : Token)
    (claims : AccessTokenClaims) (user : User) where
  pub current_user :
      (users : List User)
      → decode token ≡ some claims
      → get_current_user_optional decode (some token) users
        ≡ check_user claims (find_user claims.user_id users)
  unfolding get_current_user_optional
  current_user users e = ground arith

  -- A token that is accepted names the row of its user, which is active and has the token's
  -- version.
  pub current_user_sound :
      (users : List User)
      → decode token ≡ some claims
      → get_current_user_optional decode (some token) users ≡ some user
      → (find_user claims.user_id users ≡ some user)
        × (user.auth_version ≡ claims.auth_version)
        × (user.is_active ≡ true)
  current_user_sound users e h =
      let accepted : check_user claims (find_user claims.user_id users) ≡ some user =
        rw (current_user users e) at h in
      elim (Option-cases (find_user claims.user_id users)) [
        | inl missing ↦ absurd (ground arith)
        | inr (u, found) ↦ ground arith
      ]

-- Only an active administrator passes the gate of the admin routes, whatever the token says.
pub admin_gate :
    {Token : Type 0} (decode : Token → Option AccessTokenClaims) (token : Token)
    (claims : AccessTokenClaims) (user : User) (users : List User)
    → decode token ≡ some claims
    → get_current_admin_user
        (get_current_user_required (get_current_user_optional decode (some token) users))
      ≡ ok user
    → (find_user claims.user_id users ≡ some user)
      × (user.auth_version ≡ claims.auth_version)
      × (user.is_active ≡ true)
      × (user.is_admin ≡ true)
unfolding get_current_admin_user get_current_user_required
admin_gate decode token claims user users e h =
    elim (Option-cases (get_current_user_optional decode (some token) users)) [
      | inl nobody ↦ absurd (ground arith)
      | inr (u, got) ↦
          let same : u ≡ user = ground arith in
          let admin : user.is_admin ≡ true = ground arith in
          let (found, version, active) =
            current_user_sound decode token claims user users e (rw (got, same) refl) in
          (found, version, active, admin)
    ]

module _ {Token : Type 0} (sec : Security Token) (i : ℕ) (raw password hashed : String) (now : ℕ)
    (db : Database) where
  pub reset_rows :
      (owner : User)
      → (consume_reset_token sec.hash_token raw now db.tokens).0 ≡ some i
      → find_user i db.users ≡ some owner
      → sec.hash_password password ≡ ok hashed
      → (reset_password sec raw password now db).1.users
        ≡ update_user i (with_password hashed) db.users
  reset_rows owner taken found hashes = unfold reset_password in ground arith

  -- A password reset whose new password can be hashed revokes every access token of the user that
  -- worked before, and none of any other user.
  pub reset_password_revokes :
      (decode : Token → Option AccessTokenClaims) (token : Token) (claims : AccessTokenClaims)
      (owner user : User)
      → (consume_reset_token sec.hash_token raw now db.tokens).0 ≡ some i
      → find_user i db.users ≡ some owner
      → sec.hash_password password ≡ ok hashed
      → decode token ≡ some claims
      → get_current_user_optional decode (some token) db.users ≡ some user
      → get_current_user_optional decode
          (some token)
          (reset_password sec raw password now db).1.users
        ≡ (if i == user.id then none else some user)
  reset_password_revokes decode token claims owner user taken owned hashes e worked =
      let (found, version, active) =
        current_user_sound decode token claims user db.users e worked in
      let same = find_user-id claims.user_id db.users user found in
      rw
        (
          reset_rows owner taken owned hashes,
          current_user decode token claims user (update_user i (with_password hashed) db.users) e,
          find_user-update i claims.user_id (with_password hashed) db.users (λ u. refl),
          found,
        )
        (ground arith)
