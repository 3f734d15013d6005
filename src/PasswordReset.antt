-- ===== src/PasswordReset.antt =====
-- backend/app/services/password_reset_service.py over the rows of password_reset_tokens
-- (backend/app/db/models.py: PasswordResetToken). SHA-256 and the random token are arguments; a
-- hash that is stored twice breaks the unique constraint on token_hash.
pub mod SingleUse
use ai_virtual_try_on.Prelude.{
  ℕ, ◌+◌, ◌*◌, String, Bool, true, false, not, ◌&&◌, ◌||◌, Option, none, some, List, [], ◌∷◌, ◌++◌,
  ltb, ◌==◌, str_eq, is_some, select, any_of, count_where, if◌then◌else◌,
}
use ai_virtual_try_on.Errors.{integrity_error}
use ai_virtual_try_on.Errors.Exec.{Exec, ok, err}

pub record PasswordResetToken : Type 0 where
  pub user_id : ℕ
  pub token_hash : String
  pub expires_at : ℕ
  pub used_at : Option ℕ

abbrev pub minute : ℕ
minute = 60000000

abbrev pub has_hash : String → PasswordResetToken → Bool
has_hash hash t = str_eq t.token_hash hash

-- `used_at IS NULL AND expires_at > now`
abbrev pub is_claimable : ℕ → PasswordResetToken → Bool
is_claimable now t = not (is_some t.used_at) && ltb now t.expires_at

-- A row that a reset with this hash can take now.
abbrev pub usable : String → ℕ → PasswordResetToken → Bool
usable hash now t = has_hash hash t && is_claimable now t

abbrev pub is_outstanding : ℕ → PasswordResetToken → Bool
is_outstanding user t = t.user_id == user && not (is_some t.used_at)

-- The DELETE of the unused tokens of the user, then the INSERT.
unfoldable pub issue_reset_token :
    (String → String) → ℕ → String → ℕ → ℕ → Exec (List PasswordResetToken) String
issue_reset_token hash user raw expire_minutes now tokens =
    let kept = select (λ t. not (is_outstanding user t)) tokens in
    if any_of (has_hash (hash raw)) kept then (err integrity_error, tokens) else (
      ok raw,
      kept
          ++ record {
            user_id = user;
            token_hash = hash raw;
            expires_at = now + expire_minutes * minute;
            used_at = none;
          }
            ∷ [],
    )

-- `UPDATE ... SET used_at = now WHERE token_hash = :hash AND used_at IS NULL AND expires_at > now`
unfoldable pub claim : String → ℕ → List PasswordResetToken → List PasswordResetToken
claim hash now [] = []
claim hash now (t ∷ tokens) =
    (if usable hash now t then record t { used_at = some now } else t) ∷ claim hash now tokens

unfoldable pub first_with_hash : String → List PasswordResetToken → Option PasswordResetToken
first_with_hash hash [] = none
first_with_hash hash (t ∷ tokens) = if has_hash hash t then some t else first_with_hash hash tokens

-- The id of the user, whose row the source then loads.
unfoldable pub consume_reset_token :
    (String → String) → String → ℕ → List PasswordResetToken → Option ℕ × List PasswordResetToken
consume_reset_token hash raw now tokens =
    let claimed = count_where (usable (hash raw) now) tokens in
    if claimed == 0
    then (none, tokens)
    else (let tokens' = claim (hash raw) now tokens in
        elim (first_with_hash (hash raw) tokens') [
          | none ↦ (none, tokens')
          | some t ↦ (some t.user_id, tokens')
        ])

-- `used_at IS NOT NULL OR expires_at < now`
abbrev pub is_dead : ℕ → PasswordResetToken → Bool
is_dead now t = is_some t.used_at || ltb t.expires_at now

unfoldable pub cleanup_expired_password_reset_tokens :
    ℕ → List PasswordResetToken → ℕ × List PasswordResetToken
cleanup_expired_password_reset_tokens now tokens =
    (count_where (is_dead now) tokens, select (λ t. not (is_dead now t)) tokens)
