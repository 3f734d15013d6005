-- ===== src/Administration/Admins.antt =====
-- Disabling and enabling accounts through the gate of the admin routes.
use mathlib.Core.Option
use ai_virtual_try_on.Prelude.{
  ℕ, ◌≡◌, ◌≢◌, refl, ap, Bool, true, false, ◌&&◌, Option, none, some, List, [], ◌∷◌, ◌++◌, ◌==◌,
  any_of, arith, inl, inr, Bool-cases, Option-cases, if◌then◌else◌,
}
use ai_virtual_try_on.Errors.Exec.{ok, err, Exec, Result-cases}
use ai_virtual_try_on.Accounts.{
  User, AccessTokenClaims, find_user, update_user, check_user, get_current_user_optional,
  get_current_user_required, get_current_admin_user,
}
use ai_virtual_try_on.Accounts.Revocation.{find_user-id, find_user-update, current_user, admin_gate}
use ai_virtual_try_on.Administration.{
  Office, user_enabled, user_disabled, record_admin_audit_log, with_active, set_user_active,
  set_active,
}

-- A request to disable or enable a user, with its bearer token and the id and time of its audit row.
pub record Request (Token : Type 0) : Type 0 where
  pub token : Token
  pub user_id : ℕ
  pub active : Bool
  pub audit_id : ℕ
  pub now : ℕ

abbrev pub is_active_admin : User → Bool
is_active_admin u = u.is_active && u.is_admin

abbrev pub has_active_admin : Office → Bool
has_active_admin o = any_of is_active_admin o.users

update_missing :
    (i : ℕ) (f : User → User) (users : List User)
    → find_user i users ≡ none
    → update_user i f users ≡ users
unfolding find_user update_user
update_missing i f [] h = refl
update_missing i f (u ∷ users) h = ground (arith, update_missing i f users)

set_active_users :
    (user_id : ℕ) (active : Bool) (admin : User) (id now : ℕ) (o : Office)
    → (set_active user_id active admin id now o).1.users
      ≡ (if user_id == admin.id then o.users else update_user user_id (with_active active) o.users)
unfolding set_active set_user_active record_admin_audit_log
set_active_users user_id active admin id now o = elim (Option-cases (find_user user_id o.users)) [
  | inl missing ↦ ground (arith, update_missing user_id (with_active active) o.users missing)
  | inr (user, e) ↦ ground arith
]

set_active_ok :
    (user_id : ℕ) (active : Bool) (admin row : User) (id now : ℕ) (o : Office)
    → (set_active user_id active admin id now o).0 ≡ ok row
    → ((set_active user_id active admin id now o).1.users
        ≡ update_user user_id (with_active active) o.users)
      × ((set_active user_id active admin id now o).1.audit_log
          ≡ o.audit_log
            ++ record {
              id = id;
              admin_user_id = some admin.id;
              action =
                  if active
                  then user_enabled user_id row.email
                  else user_disabled user_id row.email;
              created_at = now;
            }
              ∷ [])
unfolding set_active set_user_active record_admin_audit_log
set_active_ok user_id active admin row id now o h =
    elim (Option-cases (find_user user_id o.users)) [
      | inl missing ↦ absurd (ground arith)
      | inr (user, e) ↦ elim (Bool-cases (user_id == admin.id)) [
        | inl own ↦ absurd (ground arith)
        | inr other ↦
            let same : row ≡ with_active active user = ground arith in
            (ground arith, rw (ap (λ (u : User). u.email) same) (ground arith))
      ]
    ]

check_disabled :
    (claims : AccessTokenClaims) (found : Option User)
    → check_user claims (Option.map (with_active false) found) ≡ none
check_disabled claims none = refl
check_disabled claims (some u) = ground arith

found_any :
    (k : ℕ) (users : List User) (u : User)
    → find_user k users ≡ some u
    → is_active_admin u ≡ true
    → any_of is_active_admin users ≡ true
unfolding find_user
found_any k [] u h good = cc
found_any k (x ∷ users) u h good = ground (arith, found_any k users u)

module _ {Token : Type 0} (decode : Token → Option AccessTokenClaims) where
  -- The gate, then the route.
  unfoldable pub serve : Request Token → Exec Office User
  serve q o =
      elim (get_current_admin_user
        (get_current_user_required (get_current_user_optional decode (some q.token) o.users))) [
          | err e ↦ (err e, o)
          | ok admin ↦ set_active q.user_id q.active admin q.audit_id q.now o
        ]

  unfoldable pub serve_all : List (Request Token) → Office → Office
  serve_all [] o = o
  serve_all (q ∷ qs) o = serve_all qs (serve q o).1

  no_claims :
      (token : Token) (users : List User)
      → decode token ≡ none
      → get_current_user_optional decode (some token) users ≡ none
  unfolding get_current_user_optional
  no_claims token users e = ground arith

  not_admin :
      (token : Token) (users : List User)
      → decode token ≡ none
      → (admin : User)
      → get_current_admin_user
          (get_current_user_required (get_current_user_optional decode (some token) users))
        ≢ ok admin
  unfolding get_current_admin_user get_current_user_required
  not_admin token users e admin h = ground (arith, no_claims token users e)

  -- The administrator that the gate let in is still one after the request.
  serve_keeps :
      (q : Request Token) (o : Office) (admin : User)
      → get_current_admin_user
          (get_current_user_required (get_current_user_optional decode (some q.token) o.users))
        ≡ ok admin
      → has_active_admin (set_active q.user_id q.active admin q.audit_id q.now o).1 ≡ true
  serve_keeps q o admin gate = elim (Option-cases (decode q.token)) [
    | inl nothing ↦ absurd (not_admin q.token o.users nothing admin gate)
    | inr (claims, e) ↦
        let (found, version, active, is_admin) =
          admin_gate decode q.token claims admin o.users e gate in
        let same = find_user-id claims.user_id o.users admin found in
        rw (set_active_users q.user_id q.active admin q.audit_id q.now o) (
          ground (
            arith,
            found_any claims.user_id o.users admin found,
            found_any claims.user_id (update_user q.user_id (with_active q.active) o.users) admin,
            find_user-update q.user_id claims.user_id (with_active q.active) o.users (λ u. refl),
          ))
  ]

  serve-has_admin :
      (q : Request Token) (o : Office)
      → has_active_admin o ≡ true
      → has_active_admin (serve q o).1 ≡ true
  unfolding serve
  serve-has_admin q o h =
      elim (Result-cases (
        get_current_admin_user
          (get_current_user_required (get_current_user_optional decode (some q.token) o.users)))) [
            | inl (admin, gate) ↦ ground (arith, serve_keeps q o admin gate)
            | inr (e, refused) ↦ ground arith
          ]

  -- Requests to disable and enable accounts, served one after the other through the gate, never
  -- leave the site without an active administrator, if there was one.
  pub active_admin_remains :
      (qs : List (Request Token)) (o : Office)
      → has_active_admin o ≡ true
      → has_active_admin (serve_all qs o) ≡ true
  unfolding serve_all
  active_admin_remains [] o h = h
  active_admin_remains (q ∷ qs) o h = active_admin_remains qs (serve q o).1 (serve-has_admin q o h)

  refused_token :
      (user_id : ℕ) (active : Bool) (token : Token) (claims : AccessTokenClaims) (row : User)
      (users : List User)
      → decode token ≡ some claims
      → claims.user_id ≡ user_id
      → active ≡ false
      → get_current_user_optional decode
          (some token)
          (update_user user_id (with_active active) users)
        ≡ none
  refused_token user_id active token claims row users e mine off = ground (
    arith,
    current_user decode token claims row (update_user user_id (with_active active) users) e,
    find_user-update user_id claims.user_id (with_active active) users (λ u. refl),
    check_disabled claims (find_user claims.user_id users),
  )

  -- A request to disable or enable a user that succeeds sets the flag of that user and of nobody
  -- else, and adds one audit row; from then on no token of a disabled user is accepted.
  pub set_active_lem :
      (user_id : ℕ) (active : Bool) (admin row : User) (id now : ℕ) (o : Office)
      → (set_active user_id active admin id now o).0 ≡ ok row
      → let o' = (set_active user_id active admin id now o).1 in
        ((k : ℕ)
          → find_user k o'.users ≡ (
              if user_id == k
              then Option.map (with_active active) (find_user k o.users)
              else find_user k o.users))
        × (o'.audit_log
            ≡ o.audit_log
              ++ record {
                id = id;
                admin_user_id = some admin.id;
                action =
                    if active
                    then user_enabled user_id row.email
                    else user_disabled user_id row.email;
                created_at = now;
              }
                ∷ [])
        × ((token : Token) (claims : AccessTokenClaims)
            → decode token ≡ some claims
            → claims.user_id ≡ user_id
            → active ≡ false
            → get_current_user_optional decode (some token) o'.users ≡ none)
  set_active_lem user_id active admin row id now o h =
      let (rows, audit) = set_active_ok user_id active admin row id now o h in
      (
        (λ k. rw rows (find_user-update user_id k (with_active active) o.users (λ u. refl))),
        audit,
        λ token claims e mine off.
            rw rows (refused_token user_id active token claims row o.users e mine off),
      )
