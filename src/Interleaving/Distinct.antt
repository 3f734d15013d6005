-- ===== src/Interleaving/Distinct.antt =====
-- The primary key of the table: no two rows have one id, whatever the steps are.
use ai_virtual_try_on.Prelude.{
  ℕ, ◌≡◌, ◌⊎◌, refl, subst, String, Bool, true, false, Option, none, List, [], ◌∷◌, ◌++◌, ◌==◌,
  select, arith, inl, inr, Bool-cases, Option-cases,
}
use ai_virtual_try_on.Job.{Job, JobParams, JobStatus, pending, processing, cancelled}
use ai_virtual_try_on.Job.Table.{find, modify, find-modify, find-append}
use ai_virtual_try_on.JobStore.{IdempotencyToken, new_job, new_idempotent_job, with_status}
use ai_virtual_try_on.JobStore.Db
use ai_virtual_try_on.JobStore.Db.{Schema, insert_row, update_row}
use ai_virtual_try_on.Sweeps.{recovered, recover_rows}
use ai_virtual_try_on.Sweeps.Recovery.{visits, holds_at}
use ai_virtual_try_on.Interleaving.{
  Floor, Step, submit, submit_keyed, claim, finish, cancel, save, query, flush, abort, forget_user,
}

abbrev pub IsDistinct : List Job → Type 0
IsDistinct [] = Unit {0}
IsDistinct (j ∷ t) = (find j.id t ≡ none) × IsDistinct t

modify-IsDistinct :
    (i : ℕ) (f : Job → Job) (t : List Job)
    → ((x : Job) → (f x).id ≡ x.id)
    → IsDistinct t
    → IsDistinct (modify i f t)
unfolding modify
modify-IsDistinct i f [] keeps d = tt
modify-IsDistinct i f (j ∷ t) keeps d = elim (Bool-cases (j.id == i)) [
  | inl here ↦
      ground (arith, keeps j, find-modify i j.id f t keeps, modify-IsDistinct i f t keeps d.1)
  | inr there ↦ ground (arith, find-modify i j.id f t keeps, modify-IsDistinct i f t keeps d.1)
]

append-IsDistinct :
    (row : Job) (t : List Job) → find row.id t ≡ none → IsDistinct t → IsDistinct (t ++ row ∷ [])
unfolding find
append-IsDistinct row [] new d = (refl, tt)
append-IsDistinct row (j ∷ t) new d = elim (Bool-cases (j.id == row.id)) [
  | inl same ↦ absurd (ground arith)
  | inr other ↦ ground (arith, find-append row j.id t, append-IsDistinct row t)
]

insert_row-IsDistinct :
    (schema : Schema) (row : Job) (t : List Job)
    → IsDistinct t
    → IsDistinct (insert_row schema row t).1
unfolding insert_row
insert_row-IsDistinct schema row t d = elim (Option-cases (find row.id t)) [
  | inl new ↦ ground (arith, append-IsDistinct row t new d)
  | inr (j, e) ↦ ground arith
]

update_row-IsDistinct :
    (i : ℕ) (f : Job → Job) (row : Job) (t : List Job)
    → ((x : Job) → (f x).id ≡ x.id)
    → IsDistinct t
    → IsDistinct (update_row i f row t).1
unfolding update_row
update_row-IsDistinct i f row t keeps d = ground (arith, modify-IsDistinct i f t keeps d)

recover_rows-IsDistinct :
    (now : ℕ) (seen t : List Job) → IsDistinct t → IsDistinct (recover_rows now seen t)
unfolding recover_rows
recover_rows-IsDistinct now [] t d = d
recover_rows-IsDistinct now (j ∷ seen) t d =
    recover_rows-IsDistinct now seen (modify j.id (recovered now) t)
      (modify-IsDistinct j.id (recovered now) t (λ x. refl) d)

transition-IsDistinct :
    (i : ℕ) (expected new : JobStatus) (error : Option String) (now : ℕ) (t : List Job)
    → IsDistinct t
    → IsDistinct (Db.try_transition_status i expected new error now t).1
unfolding Db.try_transition_status
transition-IsDistinct i expected new error now t d = elim (Option-cases (find i t)) [
  | inl missing ↦ ground arith
  | inr (row, e) ↦
      ground (arith, update_row-IsDistinct i (with_status new error now) row t (λ x. refl) d)
]

update_status-IsDistinct :
    (i : ℕ) (status : JobStatus) (error : Option String) (now : ℕ) (t : List Job)
    → IsDistinct t
    → IsDistinct (Db.update_status i status error now t).1
unfolding Db.update_status
update_status-IsDistinct i status error now t d = elim (Option-cases (find i t)) [
  | inl missing ↦ ground arith
  | inr (row, e) ↦
      ground (arith, update_row-IsDistinct i (with_status status error now) row t (λ x. refl) d)
]

mark_saved-IsDistinct :
    (i now : ℕ) (t : List Job) → IsDistinct t → IsDistinct (Db.mark_saved i now t).1
unfolding Db.mark_saved
mark_saved-IsDistinct i now t d = elim (Option-cases (find i t)) [
  | inl missing ↦ ground arith
  | inr (row, e) ↦ ground (
    arith,
    update_row-IsDistinct i (λ j. record j { saved = true; updated_at = now }) row t (λ x. refl) d,
  )
]

create-IsDistinct :
    (schema : Schema) (params : JobParams) (id now : ℕ) (t : List Job)
    → IsDistinct t
    → IsDistinct (Db.create schema params id now t).1
unfolding Db.create
create-IsDistinct schema params id now t d =
    ground (arith, insert_row-IsDistinct schema (new_job params id now) t d)

create_idempotent-IsDistinct :
    (schema : Schema) (token : IdempotencyToken) (params : JobParams) (id now : ℕ) (t : List Job)
    → IsDistinct t
    → IsDistinct (Db.create_idempotent schema token params id now t).1
unfolding Db.create_idempotent
create_idempotent-IsDistinct schema token params id now t d =
    ground (arith, insert_row-IsDistinct schema (new_idempotent_job token params id now) t d)

find-select-none :
    (k : ℕ) (p : Job → Bool) (t : List Job) → find k t ≡ none → find k (select p t) ≡ none
unfolding find
find-select-none k p [] h = refl
find-select-none k p (j ∷ t) h = ground (arith, find-select-none k p t)

select-IsDistinct : (p : Job → Bool) (t : List Job) → IsDistinct t → IsDistinct (select p t)
select-IsDistinct p [] d = tt
select-IsDistinct p (j ∷ t) d =
    ground (arith, find-select-none j.id p t d.0, select-IsDistinct p t d.1)

pub Step-IsDistinct : {s t : Floor} → Step s t → IsDistinct s.table → IsDistinct t.table
Step-IsDistinct {s} (submit schema params id now new) d =
    create-IsDistinct schema params id now s.table d
Step-IsDistinct {s} (submit_keyed schema token params id now new) d =
    create_idempotent-IsDistinct schema token params id now s.table d
Step-IsDistinct {s} (claim i now) d = transition-IsDistinct i pending processing none now s.table d
Step-IsDistinct {s} (finish i status error now owned end) d =
    update_status-IsDistinct i status error now s.table d
Step-IsDistinct {s} (cancel i now) d = transition-IsDistinct i pending cancelled none now s.table d
Step-IsDistinct {s} (save i now) d = mark_saved-IsDistinct i now s.table d
Step-IsDistinct {s} (query cutoff) d = d
Step-IsDistinct {s} (flush now present) d = recover_rows-IsDistinct now s.seen s.table d
Step-IsDistinct {s} abort d = d
Step-IsDistinct {s} (forget_user user) d = select-IsDistinct _ s.table d

pub none_visited :
    (k : ℕ) (p : Job → Bool) (t : List Job) → find k t ≡ none → visits k (select p t) ≡ false
unfolding find
none_visited k p [] h = refl
none_visited k p (j ∷ t) h = ground (arith, none_visited k p t)

ids_equal : (j : Job) (k : ℕ) → (j.id == k) ≡ true → j.id ≡ k
ids_equal j k h = ground arith

-- A query returns the row that a search for its id finds.
pub visited :
    (k : ℕ) (p : Job → Bool) (t : List Job)
    → IsDistinct t
    → visits k (select p t) ≡ true
    → holds_at p (find k t) ≡ true
unfolding find
visited k p [] d h = cc
visited k p (j ∷ t) d h = elim (Bool-cases (j.id == k)) [
  | inl here ↦
      let gone = subst (λ n. find n t ≡ none) (ids_equal j k here) d.0 in
      ground (arith, none_visited k p t gone)
  | inr there ↦ ground (arith, visited k p t d.1)
]

-- A row that is not selected is gone, and no other takes its place.
pub find-select :
    (k : ℕ) (p : Job → Bool) (t : List Job)
    → IsDistinct t
    → (find k (select p t) ≡ find k t) ⊎ (find k (select p t) ≡ none)
unfolding find
find-select k p [] d = inl refl
find-select k p (j ∷ t) d = elim (Bool-cases (j.id == k)) [
  | inl here ↦ elim (Bool-cases (p j)) [
    | inl kept ↦ inl (ground arith)
    | inr dropped ↦
        let gone = subst (λ n. find n t ≡ none) (ids_equal j k here) d.0 in
        inr (ground (arith, find-select-none k p t gone))
  ]
  | inr there ↦ ground (arith, find-select k p t d.1)
]
