-- ===== src/JobStore/Index.antt =====
-- The unique constraints of the table `jobs` in backend/app/db/models.py: the primary key, and the
-- partial index ix_jobs_idempotency_active over (idempotency_scope, idempotency_key) of the rows
-- with a key whose status is not 'failed'. Postgres treats NULLs as distinct.
use ai_virtual_try_on.Prelude.{
  String, Bool, false, not, ◌&&◌, ◌||◌, Option, none, some, List, [], ◌∷◌, ◌≡◌, ◌==◌, str_eq,
  is_some,
}
use ai_virtual_try_on.Job.{Job, status_eq, failed}

-- SQL's `=` as a unique index uses it.
abbrev pub sql_eq : Option String → Option String → Bool
sql_eq none _ = false
sql_eq (some a) none = false
sql_eq (some a) (some b) = str_eq a b

-- postgresql_where
unfoldable pub in_index : Job → Bool
in_index j = is_some j.idempotency_key && not (status_eq j.status failed)

unfoldable pub same_entry : Job → Job → Bool
unfolding in_index
same_entry a b =
    in_index a
    && in_index b
    && sql_eq a.idempotency_scope b.idempotency_scope
    && sql_eq a.idempotency_key b.idempotency_key

-- Another row holds the index entry that `row` would take.
unfoldable pub conflicts : Job → List Job → Bool
conflicts row [] = false
conflicts row (x ∷ jobs) =
    let rest = conflicts row jobs in (not (x.id == row.id) && same_entry x row) || rest

-- No two rows share an id or an index entry.
unfoldable pub clashes : Job → List Job → Bool
clashes j [] = false
clashes j (x ∷ jobs) = let rest = clashes j jobs in (x.id == j.id || same_entry x j) || rest

abbrev pub IsUnique : List Job → Type 0
IsUnique [] = Unit {0}
IsUnique (j ∷ jobs) = (clashes j jobs ≡ false) × IsUnique jobs
