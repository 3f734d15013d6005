-- ===== src/Accounts/Forgotten.antt =====
-- What a request for a forgotten password leaves, with its mail delivered or not.
use ai_virtual_try_on.Prelude.{ℕ, String, Bool, true, false, List}
use ai_virtual_try_on.Errors.Exec.{Result, ok, err}
use ai_virtual_try_on.PasswordReset.{PasswordResetToken, issue_reset_token}
use ai_virtual_try_on.Accounts.{User}
use ai_virtual_try_on.Accounts.Auth.{Security, Database}

abbrev pub is_delivered : Result (Unit {0}) → Bool
is_delivered (ok _) = true
is_delivered (err e) = false

module _ {Token : Type 0} (sec : Security Token) (sends : String → String → Result (Unit {0}))
    (email raw : String) (now : ℕ) (db : Database) (user : User) where
  abbrev issued : Result String × List PasswordResetToken
  issued = issue_reset_token sec.hash_token user.id raw sec.reset_token_expire_minutes now db.tokens
