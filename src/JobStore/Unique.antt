-- ===== src/JobStore/Unique.antt =====
-- The rows of `jobs` stay unique: what an insert and an update keep, from the guards that the
-- unique constraints put on them.
use ai_virtual_try_on.Prelude.{
  ℕ, String, ◌≡◌, refl, false, ◌||◌, Option, none, some, List, [], ◌∷◌, ◌++◌, arith, ◌==◌, eq_iff,
  inl, inr, Bool-cases,
}
use ai_virtual_try_on.Job.{Job}
use ai_virtual_try_on.Job.Table.{find, modify, find_id}
use ai_virtual_try_on.JobStore.Index.{sql_eq, same_entry, conflicts, clashes, IsUnique}

sql_eq_comm : (a b : Option String) → sql_eq a b ≡ sql_eq b a
sql_eq_comm none none = refl
sql_eq_comm none (some b) = refl
sql_eq_comm (some a) none = refl
sql_eq_comm (some a) (some b) = ground (arith, eq_iff a b, eq_iff b a)

pub same_entry_comm : (a b : Job) → same_entry a b ≡ same_entry b a
unfolding same_entry
same_entry_comm a b = ground (
  arith,
  sql_eq_comm a.idempotency_scope b.idempotency_scope,
  sql_eq_comm a.idempotency_key b.idempotency_key,
)

-- A row that is new by its id and takes no held entry clashes with none.
pub clashes_of_new :
    (row : Job) (jobs : List Job)
    → find row.id jobs ≡ none
    → conflicts row jobs ≡ false
    → clashes row jobs ≡ false
unfolding find conflicts clashes
clashes_of_new row [] new free = refl
clashes_of_new row (x ∷ jobs) new free = ground (arith, clashes_of_new row jobs)

clashes-append :
    (j row : Job) (jobs : List Job)
    → clashes j jobs ≡ false
    → (row.id == j.id || same_entry row j) ≡ false
    → clashes j (jobs ++ row ∷ []) ≡ false
unfolding clashes
clashes-append j row [] h k = ground arith
clashes-append j row (x ∷ jobs) h k = ground (arith, clashes-append j row jobs)

pub append-IsUnique :
    (row : Job) (jobs : List Job)
    → IsUnique jobs
    → find row.id jobs ≡ none
    → conflicts row jobs ≡ false
    → IsUnique (jobs ++ row ∷ [])
unfolding find conflicts clashes
append-IsUnique row [] u new free = (refl, tt)
append-IsUnique row (x ∷ jobs) u new free = (
  clashes-append x row jobs u.0 (ground (arith, same_entry_comm x row)),
  append-IsUnique row jobs u.1 (ground arith) (ground arith),
)

module _ (i : ℕ) (f : Job → Job) (keeps : (x : Job) → (f x).id ≡ x.id) where
  clashes-modify :
      (j : Job) (jobs : List Job)
      → clashes j jobs ≡ false
      → ((r : Job) → find i jobs ≡ some r → same_entry (f r) j ≡ false)
      → clashes j (modify i f jobs) ≡ false
  unfolding clashes modify find
  clashes-modify j [] h free = refl
  clashes-modify j (x ∷ jobs) h free = elim (Bool-cases (x.id == i)) [
    | inl here ↦ ground (arith, keeps x, free x)
    | inr there ↦
        ground (arith, clashes-modify j jobs (ground arith) (λ r e. free r (ground arith)))
  ]

  clashes_of_moved :
      (x y : Job) (jobs : List Job)
      → y.id ≡ x.id
      → clashes x jobs ≡ false
      → conflicts y jobs ≡ false
      → clashes y jobs ≡ false
  unfolding clashes conflicts
  clashes_of_moved x y [] same h free = refl
  clashes_of_moved x y (z ∷ jobs) same h free = ground (arith, clashes_of_moved x y jobs)

  free_of_head :
      (x r : Job) (jobs : List Job)
      → find i jobs ≡ some r
      → (x.id == i) ≡ false
      → conflicts (f r) (x ∷ jobs) ≡ false
      → same_entry (f r) x ≡ false
  unfolding conflicts
  free_of_head x r jobs e there free =
      ground (arith, find_id i r jobs, keeps r, same_entry_comm x (f r))

  pub modify-IsUnique :
      (jobs : List Job)
      → IsUnique jobs
      → ((r : Job) → find i jobs ≡ some r → conflicts (f r) jobs ≡ false)
      → IsUnique (modify i f jobs)
  unfolding modify find conflicts
  modify-IsUnique [] u free = tt
  modify-IsUnique (x ∷ jobs) u free = elim (Bool-cases (x.id == i)) [
    | inl here ↦ rw here (clashes_of_moved x (f x) jobs (keeps x) u.0 (ground (arith, free x)), u.1)
    | inr there ↦ rw there (
      clashes-modify x jobs u.0 (λ r e. free_of_head x r jobs e there (free r (ground arith))),
      modify-IsUnique jobs u.1 (λ r e. ground (arith, free r)),
    )
  ]
