-- ===== src/PasswordReset/SingleUse.antt =====
-- A reset token works once, before its expiry, and only the last one issued to a user works.
use ai_virtual_try_on.Prelude.{
  ℕ, ◌+◌, ◌*◌, ◌≤◌, ◌≡◌, refl, String, Bool, true, false, not, none, some, List, [], ◌∷◌, ◌++◌, ltb,
  str_eq_self, select, any_of, count_where, count_where-append, length, if◌then◌else◌, arith,
}
use ai_virtual_try_on.Errors.Exec.{ok}
use ai_virtual_try_on.PasswordReset.{
  PasswordResetToken, minute, has_hash, usable, is_outstanding, issue_reset_token, claim,
  first_with_hash, consume_reset_token, cleanup_expired_password_reset_tokens,
}

claim_uses_up :
    (hash : String) (now later : ℕ) (tokens : List PasswordResetToken)
    → now ≤ later
    → count_where (usable hash later) (claim hash now tokens) ≡ 0
unfolding claim
claim_uses_up hash now later [] h = refl
claim_uses_up hash now later (t ∷ tokens) h = ground (arith, claim_uses_up hash now later tokens h)

usable_later :
    (hash : String) (now later : ℕ) (tokens : List PasswordResetToken)
    → now ≤ later
    → count_where (usable hash now) tokens ≡ 0
    → count_where (usable hash later) tokens ≡ 0
usable_later hash now later [] h e = refl
usable_later hash now later (t ∷ tokens) h e = ground (arith, usable_later hash now later tokens h)

left_unusable :
    (hash : String → String) (raw : String) (now later : ℕ) (tokens : List PasswordResetToken)
    → now ≤ later
    → count_where (usable (hash raw) later) (consume_reset_token hash raw now tokens).1 ≡ 0
unfolding consume_reset_token
left_unusable hash raw now later tokens h =
    ground (
      arith,
      claim_uses_up (hash raw) now later tokens h,
      usable_later (hash raw) now later tokens h,
    )

refused :
    (hash : String → String) (raw : String) (now : ℕ) (tokens : List PasswordResetToken)
    → count_where (usable (hash raw) now) tokens ≡ 0
    → consume_reset_token hash raw now tokens ≡ (none, tokens)
unfolding consume_reset_token
refused hash raw now tokens h = ground arith

-- Once a reset token has been consumed, or refused, every later use of it is refused and changes
-- nothing.
pub consume_once :
    (hash : String → String) (raw : String) (now later : ℕ) (tokens : List PasswordResetToken)
    → now ≤ later
    → consume_reset_token hash raw later (consume_reset_token hash raw now tokens).1
      ≡ (none, (consume_reset_token hash raw now tokens).1)
consume_once hash raw now later tokens h =
    refused hash raw later (consume_reset_token hash raw now tokens).1
      (left_unusable hash raw now later tokens h)

count_where-select :
    (p : PasswordResetToken → Bool) (tokens : List PasswordResetToken)
    → count_where p (select (λ t. not (p t)) tokens) ≡ 0
count_where-select p [] = refl
count_where-select p (t ∷ tokens) = ground (arith, count_where-select p tokens)

count_none_of :
    (hash : String) (now : ℕ) (tokens : List PasswordResetToken)
    → any_of (has_hash hash) tokens ≡ false
    → count_where (usable hash now) tokens ≡ 0
count_none_of hash now [] h = refl
count_none_of hash now (t ∷ tokens) h = ground (arith, count_none_of hash now tokens)

first-claim :
    (hash : String) (now : ℕ) (new : PasswordResetToken) (tokens : List PasswordResetToken)
    → any_of (has_hash hash) tokens ≡ false
    → usable hash now new ≡ true
    → first_with_hash hash (claim hash now (tokens ++ new ∷ []))
      ≡ some (record new { used_at = some now })
unfolding first_with_hash claim
first-claim hash now new [] free can = ground arith
first-claim hash now new (t ∷ tokens) free can = ground (arith, first-claim hash now new tokens)

module _ (hash : String → String) (user : ℕ) (raw : String) (expire_minutes now : ℕ)
    (tokens : List PasswordResetToken) where
  abbrev kept : List PasswordResetToken
  kept = select (λ t. not (is_outstanding user t)) tokens

  abbrev new_token : PasswordResetToken
  new_token = record {
    user_id = user;
    token_hash = hash raw;
    expires_at = now + expire_minutes * minute;
    used_at = none;
  }

  issued_lem :
      (issue_reset_token hash user raw expire_minutes now tokens).0 ≡ ok raw
      → (any_of (has_hash (hash raw)) kept ≡ false)
        × ((issue_reset_token hash user raw expire_minutes now tokens).1 ≡ kept ++ new_token ∷ [])
  unfolding issue_reset_token
  issued_lem h = (ground arith, ground arith)

  usable_new :
      (later : ℕ) → usable (hash raw) later new_token ≡ ltb later (now + expire_minutes * minute)
  usable_new later = ground (arith, str_eq_self (hash raw))

  consume-kept :
      (later : ℕ)
      → any_of (has_hash (hash raw)) kept ≡ false
      → (consume_reset_token hash raw later (kept ++ new_token ∷ [])).0
        ≡ (if ltb later (now + expire_minutes * minute) then some user else none)
  unfolding consume_reset_token
  consume-kept later free = ground (
    arith,
    usable_new later,
    count_where-append (usable (hash raw) later) kept (new_token ∷ []),
    count_none_of (hash raw) later kept free,
    first-claim (hash raw) later new_token kept free,
  )

  -- After a token is issued to a user, it is the only unused one of that user.
  pub one_outstanding :
      (issue_reset_token hash user raw expire_minutes now tokens).0 ≡ ok raw
      → count_where
          (is_outstanding user)
          (issue_reset_token hash user raw expire_minutes now tokens).1
        ≡ 1
  one_outstanding h = rw ((issued_lem h).1) (
      ground (
        arith,
        count_where-select (is_outstanding user) tokens,
        count_where-append (is_outstanding user) kept (new_token ∷ []),
      ))

  -- A token that was issued is accepted for its user until it expires, and refused from then on.
  pub consume-issue :
      (later : ℕ)
      → (issue_reset_token hash user raw expire_minutes now tokens).0 ≡ ok raw
      → (consume_reset_token hash raw later
          (issue_reset_token hash user raw expire_minutes now tokens).1).0
        ≡ (if ltb later (now + expire_minutes * minute) then some user else none)
  consume-issue later h = rw ((issued_lem h).1) (consume-kept later (issued_lem h).0)

-- The cleanup deletes as many rows as it reports, and none that a reset could take at that time
-- or later.
pub cleanup_keeps_usable :
    (hash : String) (now later : ℕ) (tokens : List PasswordResetToken)
    → now ≤ later
    → let (deleted, rest) = cleanup_expired_password_reset_tokens now tokens in
      (count_where (usable hash later) rest ≡ count_where (usable hash later) tokens)
      × (length rest + deleted ≡ length tokens)
unfolding cleanup_expired_password_reset_tokens
cleanup_keeps_usable hash now later [] h = (refl, refl)
cleanup_keeps_usable hash now later (t ∷ tokens) h =
    let (same, total) = cleanup_keeps_usable hash now later tokens h in
    (ground (arith, same), ground (arith, total))
