-- ===== src/Accounts/Deletion.antt =====
-- What the deletion of an account removes.
use ai_virtual_try_on.Prelude.{
  ℕ, ◌≡◌, refl, String, Bool, true, false, not, ◌&&◌, none, some, List, [], ◌∷◌, ◌==◌, select,
  any_of, if◌then◌else◌, arith, is_some, Option-cases, Bool-cases, subst, inl, inr,
}
use ai_virtual_try_on.Errors.{text, user_facing}
use ai_virtual_try_on.Errors.Exec.{ok, err}
use ai_virtual_try_on.Job.{Job}
use ai_virtual_try_on.Storage.{Disk, get_result, load_temp_upload, delete_result, cleanup_temp}
use ai_virtual_try_on.Storage.Laws.{
  get-delete_result, get-cleanup_temp, load-cleanup_temp, load-delete_result,
}
use ai_virtual_try_on.PasswordReset.{PasswordResetToken}
use ai_virtual_try_on.Accounts.{User, find_user}
use ai_virtual_try_on.Accounts.Auth.{
  Security, Database, generic_login_error, owned_by, delete_files, delete_user, delete_account,
}

find_user-delete :
    (i k : ℕ) (users : List User)
    → find_user k (select (λ (u : User). not (u.id == i)) users)
      ≡ (if i == k then none else find_user k users)
unfolding find_user
find_user-delete i k [] = ground arith
find_user-delete i k (u ∷ users) = ground (arith, find_user-delete i k users)

none_left : (p : Job → Bool) (jobs : List Job) → select p (select (λ j. not (p j)) jobs) ≡ []
none_left p [] = refl
none_left p (j ∷ jobs) = ground (arith, none_left p jobs)

-- The rows that another condition than the deletion's selects stay.
select-kept :
    {A : Type 0} (p q : A → Bool) (xs : List A)
    → ((x : A) → p x ≡ true → q x ≡ true)
    → select p (select q xs) ≡ select p xs
select-kept p q [] h = refl
select-kept p q (x ∷ xs) h = ground (arith, h x, select-kept p q xs h)

other_owner : (i k : ℕ) (j : Job) → (i == k) ≡ false → owned_by k j ≡ true → owned_by i j ≡ false
other_owner i k j h owned = elim (Option-cases j.user_id) [
  | inl anonymous ↦ ground arith
  | inr (n, e) ↦ ground arith
]

anonymous_kept : (i : ℕ) (j : Job) → is_some j.user_id ≡ false → owned_by i j ≡ false
anonymous_kept i j h = elim (Option-cases j.user_id) [
  | inl anonymous ↦ ground arith
  | inr (n, e) ↦ absurd (ground arith)
]

-- The user has a job with this id.
abbrev pub owns : ℕ → ℕ → List Job → Bool
owns i k = any_of (λ j. owned_by i j && j.id == k)

any_of-select_owned :
    (i k : ℕ) (jobs : List Job) → any_of (λ j. j.id == k) (select (owned_by i) jobs) ≡ owns i k jobs
any_of-select_owned i k [] = refl
any_of-select_owned i k (j ∷ jobs) = ground (arith, any_of-select_owned i k jobs)

abbrev pub is_anonymous : Job → Bool
is_anonymous j = not (is_some j.user_id)

abbrev pub token_of : ℕ → PasswordResetToken → Bool
token_of k t = t.user_id == k

select-deleted :
    (i k : ℕ) (ts : List PasswordResetToken)
    → select (token_of k) (select (λ (t : PasswordResetToken). not (t.user_id == i)) ts)
      ≡ (if i == k then [] else select (token_of k) ts)
select-deleted i k [] = ground arith
select-deleted i k (t ∷ ts) = ground (arith, select-deleted i k ts)

module _ {Image : Type 0} where
  get-delete_files :
      (k : ℕ) (jobs : List Job) (d : Disk Image)
      → get_result k (delete_files jobs d)
        ≡ (if any_of (λ j. j.id == k) jobs then none else get_result k d)
  unfolding delete_files
  get-delete_files k [] d = refl
  get-delete_files k (j ∷ jobs) d = ground (
    arith,
    get-delete_files k jobs (cleanup_temp j.id (delete_result j.id d)),
    get-cleanup_temp j.id k (delete_result j.id d),
    get-delete_result j.id k d,
  )

  load-delete_files :
      (k : ℕ) (name : String) (jobs : List Job) (d : Disk Image)
      → load_temp_upload k name (delete_files jobs d)
        ≡ (if any_of (λ j. j.id == k) jobs then none else load_temp_upload k name d)
  unfolding delete_files
  load-delete_files k name [] d = refl
  load-delete_files k name (j ∷ jobs) d = ground (
    arith,
    load-delete_files k name jobs (cleanup_temp j.id (delete_result j.id d)),
    load-cleanup_temp j.id k name (delete_result j.id d),
    load-delete_result j.id k name d,
  )

  module _ {Token : Type 0} (sec : Security Token) (i : ℕ) (password : String) (user : User)
      (db : Database) (d : Disk Image) where
    -- A wrong confirmation password deletes nothing.
    pub delete_account_refused :
        find_user i db.users ≡ some user
        → sec.verify_password password user.password_hash ≡ false
        → delete_account sec i password (db, d)
          ≡ (err (user_facing (text generic_login_error) 403), db, d)
    unfolding delete_account
    delete_account_refused found wrong = ground arith

    deleted_users :
        (k : ℕ)
        → find_user k (delete_user i db).users ≡ (if i == k then none else find_user k db.users)
    unfolding delete_user
    deleted_users k = find_user-delete i k db.users

    kept_jobs :
        (k : ℕ)
        → select (owned_by k) (delete_user i db).jobs
          ≡ (if i == k then [] else select (owned_by k) db.jobs)
    unfolding delete_user
    kept_jobs k = elim (Bool-cases (i == k)) [
      | inl own ↦ rw own (
          subst (λ n. select (owned_by n) (select (λ j. not (owned_by i j)) db.jobs) ≡ [])
            (ground arith) (none_left (owned_by i) db.jobs))
      | inr other ↦ rw other (
          select-kept (owned_by k) (λ j. not (owned_by i j)) db.jobs
            (λ j owned. ground (arith, other_owner i k j other owned)))
    ]

    kept_anonymous : select is_anonymous (delete_user i db).jobs ≡ select is_anonymous db.jobs
    unfolding delete_user
    kept_anonymous =
        select-kept is_anonymous (λ j. not (owned_by i j)) db.jobs
          (λ j h. ground (arith, anonymous_kept i j))

    kept_tokens :
        (k : ℕ)
        → select (token_of k) (delete_user i db).tokens
          ≡ (if i == k then [] else select (token_of k) db.tokens)
    unfolding delete_user
    kept_tokens k = select-deleted i k db.tokens

    deleted :
        find_user i db.users ≡ some user
        → sec.verify_password password user.password_hash ≡ true
        → delete_account sec i password (db, d)
          ≡ (ok tt, delete_user i db, delete_files (select (owned_by i) db.jobs) d)
    unfolding delete_account
    deleted found right = ground arith

    -- With the right password the account is gone, and with it every job, result, upload and reset
    -- token of its user; every other account, the jobs and tokens of each other user, the jobs of
    -- nobody, and every other result and upload stay.
    pub delete_account_lem :
        find_user i db.users ≡ some user
        → sec.verify_password password user.password_hash ≡ true
        → let (r, db', d') = delete_account sec i password (db, d) in
          (r ≡ ok tt)
          × ((k : ℕ) → find_user k db'.users ≡ (if i == k then none else find_user k db.users))
          × ((k : ℕ)
              → select (owned_by k) db'.jobs ≡ (if i == k then [] else select (owned_by k) db.jobs))
          × (select is_anonymous db'.jobs ≡ select is_anonymous db.jobs)
          × ((k : ℕ)
              → select (token_of k) db'.tokens
                ≡ (if i == k then [] else select (token_of k) db.tokens))
          × ((k : ℕ) → get_result k d' ≡ (if owns i k db.jobs then none else get_result k d))
          × ((k : ℕ) (name : String)
              → load_temp_upload k name d'
                ≡ (if owns i k db.jobs then none else load_temp_upload k name d))
    delete_account_lem found right = rw (deleted found right) (
      refl,
      (λ k. deleted_users k),
      (λ k. kept_jobs k),
      kept_anonymous,
      (λ k. kept_tokens k),
      (λ k.
          rw (← any_of-select_owned i k db.jobs)
            (get-delete_files k (select (owned_by i) db.jobs) d)),
      λ k name.
          rw (← any_of-select_owned i k db.jobs)
            (load-delete_files k name (select (owned_by i) db.jobs) d),
    )
