-- ===== src/Accounts/Auth.antt =====
-- The handlers of backend/app/api/auth.py over the tables, the files and the rate limiters. bcrypt
-- with its salt, SHA-256, JWT encoding at the time of issue and the mail service are arguments, as
-- are fresh ids and the random reset token; bcrypt may refuse to hash a password by raising. An
-- address arrives in lower case, as `body.email.lower()` yields it. The storage calls of a deletion
-- are taken not to raise. The handlers take the keys "ip:..." and "email:..." as built.
use ai_virtual_try_on.Prelude.{
  ℕ, ◌+◌, String, Bool, true, false, not, ◌||◌, none, some, List, [], ◌∷◌, ◌++◌, any_of, select,
  ◌==◌, str_eq, if◌then◌else◌, has_number,
}
use ai_virtual_try_on.Errors.{text, retry_after, user_facing, http, email_delivery_error}
use ai_virtual_try_on.Errors.Exec.{Result, ok, err, Exec}
use ai_virtual_try_on.RateLimiter.{RateLimiter, RateLimitResult, check}
use ai_virtual_try_on.PasswordReset.{PasswordResetToken, issue_reset_token, consume_reset_token}
use ai_virtual_try_on.Job.{Job}
use ai_virtual_try_on.Storage.{Disk, delete_result, cleanup_temp}
use ai_virtual_try_on.Accounts.{User, AccessTokenClaims, find_user, find_email, update_user}

pub record Security (Token : Type 0) : Type 0 where
  pub hash_password : String → Result String
  pub verify_password : String → String → Bool
  pub hash_token : String → String
  pub create_access_token : AccessTokenClaims → Token
  pub reset_token_expire_minutes : ℕ

pub record Database : Type 0 where
  pub users : List User
  pub tokens : List PasswordResetToken
  pub jobs : List Job

-- The limiters by IP and by address of one endpoint; signup has the first only.
pub record Limiters : Type 0 where
  pub ip_limiter : RateLimiter
  pub email_limiter : RateLimiter

abbrev pub generic_login_error : String
generic_login_error = "Incorrect email or password."

abbrev pub forgot_password_generic_message : String
forgot_password_generic_message =
    "If an account exists for that email, we've sent a link to reset your password."

abbrev pub reset_token_invalid_error : String
reset_token_invalid_error =
    "This password reset link is invalid or has expired. Please request a new one."

-- `_check_rate_limit`
abbrev pub limit_answer : Result RateLimitResult → Result (Unit {0})
limit_answer (err e) = err e
limit_answer (ok r) =
    if not r.allowed then err (http 429 (retry_after r.retry_after_seconds)) else ok tt

unfoldable pub check_rate_limit : String → ℕ → Exec RateLimiter (Unit {0})
check_rate_limit key now l = let (r, l') = check key now l in (limit_answer r, l')

-- Both checks, the second only if the first passes.
unfoldable pub check_both : String → String → ℕ → Exec Limiters (Unit {0})
check_both ip_key email_key now ls =
    let (r, ip) = check_rate_limit ip_key now ls.ip_limiter in
    let (r', by_email) = check_rate_limit email_key now ls.email_limiter in
    elim r [
      | err e ↦ (err e, record ls { ip_limiter = ip })
      | ok _ ↦ (r', record { ip_limiter = ip; email_limiter = by_email })
    ]

-- The rest of a handler runs only if the checks pass.
abbrev pub guarded :
    {A : Type 0}
    → Result (Unit {0}) × Limiters
    → Database
    → Result A × Database
    → Result A × Limiters × Database
guarded (err e, ls) db done = (err e, ls, db)
guarded (ok _, ls) db (r, db') = (r, ls, db')

abbrev pub claims_of : User → AccessTokenClaims
claims_of user = record { user_id = user.id; auth_version = user.auth_version }

abbrev pub owned_by : ℕ → Job → Bool
owned_by i j = has_number j.user_id i

-- `for job in db_user.jobs`
unfoldable pub delete_files : {Image : Type 0} → List Job → Disk Image → Disk Image
delete_files [] d = d
delete_files (j ∷ jobs) d = delete_files jobs (cleanup_temp j.id (delete_result j.id d))

-- `session.delete`, which cascades to the jobs and the reset tokens of the user.
unfoldable pub delete_user : ℕ → Database → Database
delete_user i db = record {
  users = select (λ (u : User). not (u.id == i)) db.users;
  tokens = select (λ (t : PasswordResetToken). not (t.user_id == i)) db.tokens;
  jobs = select (λ j. not (owned_by i j)) db.jobs;
}

-- What a reset writes, given the new hash.
abbrev pub with_password : String → User → User
with_password hashed user = record user {
  password_hash = hashed;
  auth_version = user.auth_version + 1;
}

-- `get_session`: what a block wrote is committed, or rolled back when the block raises.
abbrev pub in_session : {S A : Type 0} → Exec S A → Exec S A
in_session block s = let (r, s') = block s in elim r [ ok a ↦ (ok a, s') | err e ↦ (err e, s) ]

-- `except EmailDeliveryError: pass`, then the generic message; another exception goes on.
abbrev pub after_delivery : Result (Unit {0}) → Result String
after_delivery (ok _) = ok forgot_password_generic_message
after_delivery (err email_delivery_error) = ok forgot_password_generic_message
after_delivery (err e) = err e

module _ {Token : Type 0} (sec : Security Token) where
  -- The session of `signup`.
  unfoldable pub create_user : String → String → ℕ → ℕ → Exec Database Token
  create_user email password id now db = elim (sec.hash_password password) [
    | err e ↦ (err e, db)
    | ok hashed ↦
        let user : User = record {
          id = id;
          email = email;
          password_hash = hashed;
          plan = "free";
          auth_version = 1;
          is_admin = false;
          is_active = true;
          created_at = now;
        } in
        if any_of (λ (u : User). str_eq u.email email) db.users
        then (err (user_facing (text "An account with that email already exists.") 409), db)
        else (
          ok (sec.create_access_token (claims_of user)),
          record db { users = db.users ++ user ∷ [] },
        )
  ]

  unfoldable pub signup :
      String
      → String
      → String
      → ℕ
      → ℕ
      → RateLimiter
      → Database
      → Result Token × RateLimiter × Database
  signup ip_key email password id now l db =
      let (r, l') = check_rate_limit ip_key now l in
      let (r', db') = create_user email password id now db in
      elim r [ err e ↦ (err e, l', db) | ok _ ↦ (r', l', db') ]

  -- The session of `login`.
  unfoldable pub authenticate : String → String → List User → Result Token
  authenticate email password users = elim (find_email email users) [
    | none ↦ err (user_facing (text generic_login_error) 401)
    | some user ↦
        if not (sec.verify_password password user.password_hash) || not user.is_active
        then err (user_facing (text generic_login_error) 401)
        else ok (sec.create_access_token (claims_of user))
  ]

  unfoldable pub login :
      String
      → String
      → String
      → String
      → ℕ
      → Limiters
      → Database
      → Result Token × Limiters × Database
  login ip_key email_key email password now ls db =
      guarded (check_both ip_key email_key now ls) db (authenticate email password db.users, db)

  -- The session of `forgot_password`. Sending the mail may raise, what it sends is the raw token.
  unfoldable pub request_reset :
      (String → String → Result (Unit {0})) → String → String → ℕ → Exec Database (Unit {0})
  request_reset sends email raw now = in_session λ db. elim (find_email email db.users) [
    | none ↦ (ok tt, db)
    | some user ↦
        let (r, tokens) =
          issue_reset_token sec.hash_token user.id raw sec.reset_token_expire_minutes now
            db.tokens in
        elim r [
          | err e ↦ (err e, record db { tokens = tokens })
          | ok sent ↦ (sends user.email sent, record db { tokens = tokens })
        ]
  ]

  unfoldable pub forgot_password :
      (String → String → Result (Unit {0}))
      → String
      → String
      → String
      → String
      → ℕ
      → Limiters
      → Database
      → Result String × Limiters × Database
  forgot_password sends ip_key email_key email raw now ls db =
      let (r, db') = request_reset sends email raw now db in
      guarded (check_both ip_key email_key now ls) db (after_delivery r, db')

  unfoldable pub reset_password : String → String → ℕ → Exec Database String
  reset_password raw new_password now db =
      let (owner, tokens) = consume_reset_token sec.hash_token raw now db.tokens in
      elim owner [
        | none ↦ (err (user_facing (text reset_token_invalid_error) 400), db)
        | some i ↦ elim (find_user i db.users) [
          | none ↦ (err (user_facing (text reset_token_invalid_error) 400), db)
          | some user ↦ elim (sec.hash_password new_password) [
            | err e ↦ (err e, db)
            | ok hashed ↦ (
              ok "Your password has been reset. Please sign in with your new password.",
              record db { users = update_user i (with_password hashed) db.users; tokens = tokens },
            )
          ]
        ]
      ]

  unfoldable pub delete_account :
      {Image : Type 0}
      → ℕ
      → String
      → Database × Disk Image
      → Result (Unit {0}) × Database × Disk Image
  delete_account i password (db, d) = elim (find_user i db.users) [
    | none ↦ (err (user_facing (text generic_login_error) 403), db, d)
    | some user ↦
        if not (sec.verify_password password user.password_hash)
        then (err (user_facing (text generic_login_error) 403), db, d)
        else (ok tt, delete_user i db, delete_files (select (owned_by i) db.jobs) d)
  ]
