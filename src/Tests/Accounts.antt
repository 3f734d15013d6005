-- ===== src/Tests/Accounts.antt =====
-- Accounts, tokens and requests at concrete inputs.
use ai_virtual_try_on.Prelude.{
  ℕ, ◌≡◌, refl, String, true, none, some, [], ◌∷◌, ◌==◌, str_eq, select, if◌then◌else◌,
}
use ai_virtual_try_on.Errors.{value_error, email_delivery_error}
use ai_virtual_try_on.Errors.Exec.{Result, ok, err}
use ai_virtual_try_on.Storage.{Disk, get_result, load_temp_upload}
use ai_virtual_try_on.RateLimiter.{RateLimiter, get_hits, set_hits, check}
use ai_virtual_try_on.PasswordReset.{consume_reset_token, claim, first_with_hash}
use ai_virtual_try_on.Accounts.{
  User, AccessTokenClaims, find_user, find_email, get_current_user_optional,
  get_current_user_required, get_current_admin_user,
}
use ai_virtual_try_on.Accounts.Auth.{
  Security, Database, Limiters, check_rate_limit, check_both, with_password, claims_of, create_user,
  authenticate, login, reset_password, owned_by, delete_account,
}
use ai_virtual_try_on.Accounts.Revocation.{reset_password_revokes}
use ai_virtual_try_on.Accounts.Login.{login_refused, login_reveals_nothing, login_after_reset}
use ai_virtual_try_on.Accounts.Deletion.{owns, is_anonymous, token_of, delete_account_lem}
use ai_virtual_try_on.Tests.Jobs.{waiting}

-- A password that the schema lets through and bcrypt refuses: 75 characters.
abbrev long_password : String
long_password = "correct horse battery staple correct horse battery staple correct horse bat"

-- Tokens are their claims, and a password is its own hash.
abbrev sec : Security AccessTokenClaims
sec = record {
  hash_password = λ p. if str_eq p long_password then err value_error else ok p;
  verify_password = λ p h. str_eq p h;
  hash_token = λ t. t;
  create_access_token = λ c. c;
  reset_token_expire_minutes = 30;
}

abbrev pub ann : User
ann = record {
  id = 7;
  email = "ann@x.org";
  password_hash = "old password";
  plan = "free";
  auth_version = 1;
  is_admin = true;
  is_active = true;
  created_at = 0;
}

abbrev db : Database
db = record {
  users = ann ∷ [];
  tokens = record { user_id = 7; token_hash = "t"; expires_at = 500; used_at = none } ∷ [];
  jobs = waiting ∷ [];
}

abbrev empty : Database
empty = record { users = []; tokens = []; jobs = [] }

abbrev limiter : RateLimiter
limiter = record { max_requests = 5; window_seconds = 60; hits = [] }

abbrev limiters : Limiters
limiters = record { ip_limiter = limiter; email_limiter = limiter }

found_ann : find_user 7 db.users ≡ some ann
unfolding find_user
found_ann = refl

known_ann : find_email "ann@x.org" db.users ≡ some ann
unfolding find_email
known_ann = refl

taken : (consume_reset_token sec.hash_token "t" 100 db.tokens).0 ≡ some 7
unfolding consume_reset_token claim first_with_hash
taken = refl

signed_in : get_current_user_optional (λ c. some c) (some (claims_of ann)) db.users ≡ some ann
unfolding get_current_user_optional find_user
signed_in = refl

admin_in :
    get_current_admin_user (
      get_current_user_required
        (get_current_user_optional (λ c. some c) (some (claims_of ann)) db.users))
    ≡ ok ann
unfolding get_current_admin_user get_current_user_required get_current_user_optional find_user
admin_in = refl

-- Such a reset raises, and its token stays usable.
reset_too_long : reset_password sec "t" long_password 100 db ≡ (err value_error, db)
unfolding reset_password consume_reset_token claim first_with_hash find_user
reset_too_long = refl

-- And no account is made with it.
signup_too_long : create_user sec "bob@x.org" long_password 8 100 db ≡ (err value_error, db)
unfolding create_user
signup_too_long = refl

reset_password_revokes_example :
    get_current_user_optional
      (λ c. some c)
      (some (claims_of ann))
      (reset_password sec "t" "new password" 100 db).1.users
    ≡ none
reset_password_revokes_example =
    reset_password_revokes sec 7 "t" "new password" "new password" 100 db (λ c. some c)
      (claims_of ann) (claims_of ann) ann ann taken found_ann refl refl signed_in

login_after_reset_example :
    let users = (reset_password sec "t" "new password" 100 db).1.users in
    let token = claims_of (with_password "new password" ann) in
    (authenticate sec "ann@x.org" "new password" users ≡ ok token)
    × (get_current_user_optional (λ c. some c) (some token) users
        ≡ some (with_password "new password" ann))
login_after_reset_example =
    login_after_reset sec 7 "ann@x.org" "t" "new password" "new password" ann 100 db (λ c. some c)
      taken found_ann known_ann refl refl refl (λ c. refl)

wrong_password :
    (login sec "ip:a" "email:ann@x.org" "ann@x.org" "guess" 100 limiters db).0 ≡ err login_refused
unfolding login authenticate check_both check_rate_limit check get_hits set_hits find_email
wrong_password = refl

unknown_address :
    (login sec "ip:a" "email:ann@x.org" "ann@x.org" "guess" 100 limiters empty).0
    ≡ err login_refused
unfolding login authenticate check_both check_rate_limit check get_hits set_hits find_email
unknown_address = refl

login_reveals_nothing_example :
    (login_refused ≡ login_refused)
    × ((login sec "ip:a" "email:ann@x.org" "ann@x.org" "guess" 100 limiters db).1
        ≡ (login sec "ip:a" "email:ann@x.org" "ann@x.org" "guess" 100 limiters empty).1)
login_reveals_nothing_example =
    login_reveals_nothing sec "ip:a" "email:ann@x.org" "ann@x.org" "guess" 100 limiters db empty
      login_refused login_refused wrong_password unknown_address

abbrev undelivered : String → String → Result (Unit {0})
undelivered to raw = err email_delivery_error

abbrev disk : Disk ℕ
disk = record { tmp = []; results = record { job_id = 1; image = 9 } ∷ [] }

delete_account_lem_example :
    let (r, db', d') = delete_account sec 7 "old password" (db, disk) in
    (r ≡ ok tt)
    × ((k : ℕ) → find_user k db'.users ≡ (if 7 == k then none else find_user k db.users))
    × ((k : ℕ)
        → select (owned_by k) db'.jobs ≡ (if 7 == k then [] else select (owned_by k) db.jobs))
    × (select is_anonymous db'.jobs ≡ select is_anonymous db.jobs)
    × ((k : ℕ)
        → select (token_of k) db'.tokens ≡ (if 7 == k then [] else select (token_of k) db.tokens))
    × ((k : ℕ) → get_result k d' ≡ (if owns 7 k db.jobs then none else get_result k disk))
    × ((k : ℕ) (name : String)
        → load_temp_upload k name d'
          ≡ (if owns 7 k db.jobs then none else load_temp_upload k name disk))
delete_account_lem_example = delete_account_lem sec 7 "old password" ann db disk found_ann refl
