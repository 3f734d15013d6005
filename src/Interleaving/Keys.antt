-- ===== src/Interleaving/Keys.antt =====
-- The partial unique index on the idempotency keys, in whatever order the steps are made.
use ai_virtual_try_on.Prelude.{
  ℕ, ◌≡◌, ◌≤◌, refl, String, Bool, true, false, Option, none, some, List, [], ◌∷◌, select,
  count_where, arith, inl, inr, Bool-cases, Option-cases,
}
use ai_virtual_try_on.Errors.Exec.{Result-cases}
use ai_virtual_try_on.Job.{Job, JobStatus, pending, processing, cancelled}
use ai_virtual_try_on.Job.Table.{find, modify}
use ai_virtual_try_on.JobStore.{new_job, new_idempotent_job, with_status}
use ai_virtual_try_on.JobStore.Index.{in_index, same_entry, conflicts, clashes, IsUnique}
use ai_virtual_try_on.JobStore.Unique.{append-IsUnique, modify-IsUnique}
use ai_virtual_try_on.JobStore.Idempotency.{is_active_for, at_most_one_active}
use ai_virtual_try_on.JobStore.Db
use ai_virtual_try_on.JobStore.Db.{Schema, insert_row, update_row}
use ai_virtual_try_on.Sweeps.{recovered, recover_rows}
use ai_virtual_try_on.Interleaving.{
  Floor, empty, Step, submit, submit_keyed, claim, finish, cancel, save, query, flush, abort,
  forget_user, Reach, here, later,
}

insert_row-IsUnique :
    (schema : Schema) (row : Job) (t : List Job) → IsUnique t → IsUnique (insert_row schema row t).1
unfolding insert_row
insert_row-IsUnique schema row t u = elim (Result-cases (insert_row schema row t).0) [
  | inr (e, refused) ↦ ground arith
  | inl (v, free) ↦ elim (Option-cases (find row.id t)) [
    | inl new ↦ ground (arith, append-IsUnique row t u new)
    | inr (j, taken) ↦ ground arith
  ]
]

update_row-IsUnique :
    (i : ℕ) (f : Job → Job) (row : Job) (t : List Job)
    → ((x : Job) → (f x).id ≡ x.id)
    → find i t ≡ some row
    → IsUnique t
    → IsUnique (update_row i f row t).1
unfolding update_row
update_row-IsUnique i f row t keeps e u = elim (Bool-cases (conflicts (f row) t)) [
  | inl held ↦ rw held u
  | inr free ↦ rw free (modify-IsUnique i f keeps t u (λ r e'. ground (arith, e, e')))
]

transition-IsUnique :
    (i : ℕ) (expected new : JobStatus) (error : Option String) (now : ℕ) (t : List Job)
    → IsUnique t
    → IsUnique (Db.try_transition_status i expected new error now t).1
unfolding Db.try_transition_status
transition-IsUnique i expected new error now t u = elim (Option-cases (find i t)) [
  | inl missing ↦ ground arith
  | inr (row, e) ↦
      ground (arith, update_row-IsUnique i (with_status new error now) row t (λ x. refl) e u)
]

update_status-IsUnique :
    (i : ℕ) (status : JobStatus) (error : Option String) (now : ℕ) (t : List Job)
    → IsUnique t
    → IsUnique (Db.update_status i status error now t).1
unfolding Db.update_status
update_status-IsUnique i status error now t u = elim (Option-cases (find i t)) [
  | inl missing ↦ ground arith
  | inr (row, e) ↦
      ground (arith, update_row-IsUnique i (with_status status error now) row t (λ x. refl) e u)
]

mark_saved-IsUnique : (i now : ℕ) (t : List Job) → IsUnique t → IsUnique (Db.mark_saved i now t).1
unfolding Db.mark_saved
mark_saved-IsUnique i now t u = elim (Option-cases (find i t)) [
  | inl missing ↦ ground arith
  | inr (row, e) ↦ ground (
    arith,
    update_row-IsUnique i (λ j. record j { saved = true; updated_at = now }) row t (λ x. refl) e u,
  )
]

-- A failed row holds no entry.
conflicts-recovered : (now : ℕ) (row : Job) (t : List Job) → conflicts (recovered now row) t ≡ false
unfolding conflicts same_entry in_index
conflicts-recovered now row [] = refl
conflicts-recovered now row (x ∷ t) = ground (arith, conflicts-recovered now row t)

recover_rows-IsUnique :
    (now : ℕ) (seen t : List Job) → IsUnique t → IsUnique (recover_rows now seen t)
unfolding recover_rows
recover_rows-IsUnique now [] t u = u
recover_rows-IsUnique now (j ∷ seen) t u =
    recover_rows-IsUnique now seen (modify j.id (recovered now) t)
      (modify-IsUnique j.id (recovered now) (λ x. refl) t u (λ r e. conflicts-recovered now r t))

clashes-select :
    (j : Job) (p : Job → Bool) (t : List Job) → clashes j t ≡ false → clashes j (select p t) ≡ false
unfolding clashes
clashes-select j p [] h = refl
clashes-select j p (x ∷ t) h = ground (arith, clashes-select j p t)

select-IsUnique : (p : Job → Bool) (t : List Job) → IsUnique t → IsUnique (select p t)
select-IsUnique p [] u = tt
select-IsUnique p (x ∷ t) u = ground (arith, clashes-select x p t u.0, select-IsUnique p t u.1)

Step-IsUnique : {s t : Floor} → Step s t → IsUnique s.table → IsUnique t.table
unfolding Db.create Db.create_idempotent
Step-IsUnique {s} (submit schema params id now new) u =
    ground (arith, insert_row-IsUnique schema (new_job params id now) s.table u)
Step-IsUnique {s} (submit_keyed schema token params id now new) u =
    ground (arith, insert_row-IsUnique schema (new_idempotent_job token params id now) s.table u)
Step-IsUnique {s} (claim i now) u = transition-IsUnique i pending processing none now s.table u
Step-IsUnique {s} (finish i status error now owned end) u =
    update_status-IsUnique i status error now s.table u
Step-IsUnique {s} (cancel i now) u = transition-IsUnique i pending cancelled none now s.table u
Step-IsUnique {s} (save i now) u = mark_saved-IsUnique i now s.table u
Step-IsUnique {s} (query cutoff) u = u
Step-IsUnique {s} (flush now present) u = recover_rows-IsUnique now s.seen s.table u
Step-IsUnique {s} abort u = u
Step-IsUnique {s} (forget_user user) u = select-IsUnique _ s.table u

Reach-IsUnique : {s : Floor} → Reach empty s → IsUnique s.table
Reach-IsUnique here = tt
Reach-IsUnique (later r step) = Step-IsUnique step (Reach-IsUnique r)

-- From an empty table, whatever submissions with any keys, cancellations, saves, runs, sweeps and
-- deletions of accounts follow and in whatever order: for each scope and key at most one job is not
-- failed. A run that ends after the sweep failed its job cannot bring it back beside the job of a
-- retry.
pub one_active_per_key :
    {s : Floor} (r : Reach empty s) (scope key : String)
    → count_where (is_active_for scope key) s.table ≤ 1
one_active_per_key {s} r scope key = at_most_one_active scope key s.table (Reach-IsUnique r)
