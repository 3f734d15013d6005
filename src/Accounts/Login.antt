-- ===== src/Accounts/Login.antt =====
-- What the login, forgotten-password and reset endpoints answer.
use ai_virtual_try_on.Prelude.{
  ℕ, ◌≡◌, refl, String, true, Option, some, List, [], ◌∷◌, ◌==◌, str_eq, arith, inl, inr,
  Bool-cases, Option-cases,
}
use ai_virtual_try_on.Errors.{Error, text, user_facing}
use ai_virtual_try_on.Errors.Exec.{ok, err, Result-cases}
use ai_virtual_try_on.PasswordReset.{consume_reset_token}
use ai_virtual_try_on.Accounts.{
  User, AccessTokenClaims, find_user, find_email, update_user, get_current_user_optional,
}
use ai_virtual_try_on.Accounts.Auth.{
  Security, Database, Limiters, check_both, generic_login_error, with_password, claims_of,
  authenticate, login, reset_password,
}
use ai_virtual_try_on.Accounts.Revocation.{find_user-update, find_user-id, reset_rows, current_user}

abbrev pub login_refused : Error
login_refused = user_facing (text generic_login_error) 401

module _ {Token : Type 0} (sec : Security Token) where
  authenticate_fails :
      (email password : String) (users : List User) (e : Error)
      → authenticate sec email password users ≡ err e
      → e ≡ login_refused
  unfolding authenticate
  authenticate_fails email password users e h = elim (Option-cases (find_email email users)) [
    | inl nobody ↦ ground arith
    | inr (u, found) ↦ ground arith
  ]

  -- Two logins that fail answer alike and leave the limiters alike, whatever the accounts are: an
  -- unknown address, a wrong password and a disabled account look the same.
  pub login_reveals_nothing :
      (ip_key email_key email password : String) (now : ℕ) (ls : Limiters) (db db' : Database)
      (e e' : Error)
      → (login sec ip_key email_key email password now ls db).0 ≡ err e
      → (login sec ip_key email_key email password now ls db').0 ≡ err e'
      → (e ≡ e')
        × ((login sec ip_key email_key email password now ls db).1
            ≡ (login sec ip_key email_key email password now ls db').1)
  unfolding login
  login_reveals_nothing ip_key email_key email password now ls db db' e e' h h' =
      elim (Result-cases (check_both ip_key email_key now ls).0) [
        | inl (u, passed) ↦ ground (
          arith,
          authenticate_fails email password db.users e,
          authenticate_fails email password db'.users e',
        )
        | inr (limited, stopped) ↦ ground arith
      ]

find_email-email :
    (email : String) (users : List User) (u : User)
    → find_email email users ≡ some u
    → str_eq u.email email ≡ true
unfolding find_email
find_email-email email [] u h = cc
find_email-email email (x ∷ users) u h = ground (arith, find_email-email email users u)

module _ {Token : Type 0} (sec : Security Token) (i : ℕ) (email raw password hashed : String)
    (owner : User) where
  find_email-update :
      (users : List User)
      → find_email email users ≡ some owner
      → find_user i users ≡ some owner
      → find_email email (update_user i (with_password hashed) users)
        ≡ some (with_password hashed owner)
  unfolding find_email find_user update_user
  find_email-update [] h h' = cc
  find_email-update (u ∷ users) h h' = elim (Bool-cases (u.id == i)) [
    | inl here ↦ ground (arith, find_email-email email (u ∷ users) owner h)
    | inr there ↦ ground (arith, find_user-id i users owner, find_email-update users)
  ]

  authenticate_new :
      (users : List User)
      → find_email email users ≡ some (with_password hashed owner)
      → sec.verify_password password hashed ≡ true
      → owner.is_active ≡ true
      → authenticate sec email password users
        ≡ ok (sec.create_access_token (claims_of (with_password hashed owner)))
  unfolding authenticate
  authenticate_new users found verifies active = ground arith

  -- After a reset, the owner of an active account signs in with the new password, and the token
  -- of this login is accepted, if the new password can be hashed, and hashing and
  -- encoding round-trip.
  pub login_after_reset :
      (now : ℕ) (db : Database) (decode : Token → Option AccessTokenClaims)
      → (consume_reset_token sec.hash_token raw now db.tokens).0 ≡ some i
      → find_user i db.users ≡ some owner
      → find_email email db.users ≡ some owner
      → owner.is_active ≡ true
      → sec.hash_password password ≡ ok hashed
      → sec.verify_password password hashed ≡ true
      → ((claims : AccessTokenClaims) → decode (sec.create_access_token claims) ≡ some claims)
      → let users = (reset_password sec raw password now db).1.users in
        let token = sec.create_access_token (claims_of (with_password hashed owner)) in
        (authenticate sec email password users ≡ ok token)
        × (get_current_user_optional decode (some token) users ≡ some (with_password hashed owner))
  login_after_reset now db decode taken owned known active hashes verifies decodes =
      let renewed = with_password hashed owner in
      let rows = update_user i (with_password hashed) db.users in
      let same = find_user-id i db.users owner owned in
      rw (reset_rows sec i raw password hashed now db owner taken owned hashes) (
        authenticate_new rows (find_email-update db.users known owned) verifies active,
        rw
            (
              current_user decode (sec.create_access_token (claims_of renewed)) (claims_of renewed)
                  renewed rows (decodes (claims_of renewed)),
              same,
              find_user-update i i (with_password hashed) db.users (λ u. refl),
              owned,
            )
            (ground arith),
      )
