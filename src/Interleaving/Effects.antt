-- ===== src/Interleaving/Effects.antt =====
-- What each call of the store does to the status of one job.
use ai_virtual_try_on.Prelude.{
  ℕ, ◌≡◌, ◌⊎◌, refl, String, true, false, Option, none, some, List, ◌==◌, arith, inl, inr,
  Bool-cases, Option-cases,
}
use ai_virtual_try_on.Errors.Exec.{Result-cases}
use ai_virtual_try_on.Job.{Job, JobParams, JobStatus, pending, failed, status_eq, status_eq_lem}
use ai_virtual_try_on.Job.Table.{find, find-modify, find-append}
use ai_virtual_try_on.JobStore.{IdempotencyToken, new_job, new_idempotent_job, with_status}
use ai_virtual_try_on.JobStore.Index.{conflicts}
use ai_virtual_try_on.JobStore.Db
use ai_virtual_try_on.JobStore.Db.{Schema, insert_row, update_row, get_by_idempotency_key}
use ai_virtual_try_on.Interleaving.{won}
use ai_virtual_try_on.Sweeps.{recover_rows}
use ai_virtual_try_on.Sweeps.Recovery.{visits, find-recover_rows}

abbrev pub status_of : Option Job → Option JobStatus
status_of none = none
status_of (some j) = some j.status

abbrev pub status_at : ℕ → List Job → Option JobStatus
status_at k table = status_of (find k table)

-- The status of the job stays.
abbrev pub Stays : ℕ → List Job → List Job → Type 0
Stays k t t' = status_at k t' ≡ status_at k t

insert_row_lem :
    (schema : Schema) (k : ℕ) (row : Job) (t : List Job)
    → Stays k t (insert_row schema row t).1
      ⊎ (((row.id == k) ≡ true)
          × (status_at k t ≡ none)
          × (status_at k (insert_row schema row t).1 ≡ some row.status))
unfolding insert_row
insert_row_lem schema k row t = elim (Result-cases (insert_row schema row t).0) [
  | inr (e, taken) ↦ inl (ground arith)
  | inl (u, free) ↦ elim (Bool-cases (row.id == k)) [
    | inl mine ↦
        inr (mine, ground (arith, find-append row k t), ground (arith, find-append row k t))
    | inr other ↦ inl (ground (arith, find-append row k t))
  ]
]

update_row_lem :
    (i k : ℕ) (f : Job → Job) (row : Job) (t : List Job)
    → ((x : Job) → (f x).id ≡ x.id)
    → find i t ≡ some row
    → Stays k t (update_row i f row t).1
      ⊎ ((i ≡ k) × (status_at k (update_row i f row t).1 ≡ some (f row).status))
unfolding update_row
update_row_lem i k f row t keeps e = elim (Bool-cases (conflicts (f row) t)) [
  | inl clash ↦ inl (ground arith)
  | inr fine ↦ elim (Bool-cases (i == k)) [
    | inl mine ↦ inr (ground arith, ground (arith, find-modify i k f t keeps))
    | inr other ↦ inl (ground (arith, find-modify i k f t keeps))
  ]
]

-- The status stays, or the job of the new id is pending.
abbrev pub Appears : ℕ → ℕ → List Job → List Job → Type 0
Appears k id t t' =
    Stays k t t' ⊎ (((id == k) ≡ true) × (status_at k t ≡ none) × (status_at k t' ≡ some pending))

pub create_lem :
    (schema : Schema) (k : ℕ) (params : JobParams) (id now : ℕ) (t : List Job)
    → Appears k id t (Db.create schema params id now t).1
unfolding Db.create
create_lem schema k params id now t =
    ground (arith, insert_row_lem schema k (new_job params id now) t)

pub create_idempotent_lem :
    (schema : Schema) (k : ℕ) (token : IdempotencyToken) (params : JobParams) (id now : ℕ)
    (t : List Job)
    → Appears k id t (Db.create_idempotent schema token params id now t).1
unfolding Db.create_idempotent
create_idempotent_lem schema k token params id now t =
    ground (arith, insert_row_lem schema k (new_idempotent_job token params id now) t)

-- The status stays, or it moves as the call says.
pub transition_lem :
    (i k : ℕ) (expected new : JobStatus) (error : Option String) (now : ℕ) (t : List Job)
    → Stays k t (Db.try_transition_status i expected new error now t).1
      ⊎ ((i ≡ k)
          × (status_at k t ≡ some expected)
          × (status_at k (Db.try_transition_status i expected new error now t).1 ≡ some new))
unfolding Db.try_transition_status
transition_lem i k expected new error now t = elim (Option-cases (find i t)) [
  | inl missing ↦ inl (ground arith)
  | inr (row, e) ↦ elim (Bool-cases (status_eq row.status expected)) [
    | inr other ↦ inl (ground arith)
    | inl as_expected ↦
        let moved = update_row_lem i k (with_status new error now) row t (λ x. refl) e in
        ground (arith, moved, status_eq_lem row.status expected as_expected)
  ]
]

pub update_status_lem :
    (i k : ℕ) (status : JobStatus) (error : Option String) (now : ℕ) (t : List Job)
    → Stays k t (Db.update_status i status error now t).1
      ⊎ ((i ≡ k) × (status_at k (Db.update_status i status error now t).1 ≡ some status))
unfolding Db.update_status
update_status_lem i k status error now t = elim (Option-cases (find i t)) [
  | inl missing ↦ inl (ground arith)
  | inr (row, e) ↦
      ground (arith, update_row_lem i k (with_status status error now) row t (λ x. refl) e)
]

pub mark_saved_lem : (i k now : ℕ) (t : List Job) → Stays k t (Db.mark_saved i now t).1
unfolding Db.mark_saved
mark_saved_lem i k now t = elim (Option-cases (find i t)) [
  | inl missing ↦ ground arith
  | inr (row, e) ↦ ground (
    arith,
    update_row_lem i k (λ j. record j { saved = true; updated_at = now }) row t (λ x. refl) e,
  )
]

pub recover_lem :
    (k now : ℕ) (seen t : List Job)
    → Stays k t (recover_rows now seen t)
      ⊎ ((visits k seen ≡ true) × (status_at k (recover_rows now seen t) ≡ some failed))
recover_lem k now seen t = elim (Option-cases (find k t)) [
  | inl missing ↦ inl (ground (arith, find-recover_rows now k seen t))
  | inr (row, e) ↦ ground (arith, find-recover_rows now k seen t)
]

pub claim_won :
    (i : ℕ) (expected new : JobStatus) (error : Option String) (now : ℕ) (t : List Job)
    → won (Db.try_transition_status i expected new error now t).0 ≡ true
    → (status_at i t ≡ some expected)
      × (status_at i (Db.try_transition_status i expected new error now t).1 ≡ some new)
unfolding Db.try_transition_status update_row
claim_won i expected new error now t h = elim (Option-cases (find i t)) [
  | inl missing ↦ absurd (ground arith)
  | inr (row, e) ↦ elim (Bool-cases (status_eq row.status expected)) [
    | inr other ↦ absurd (ground arith)
    | inl as_expected ↦ elim (Bool-cases (conflicts (with_status new error now row) t)) [
      | inl clash ↦ absurd (ground arith)
      | inr free ↦ (
        ground (arith, status_eq_lem row.status expected as_expected),
        ground (arith, find-modify i i (with_status new error now) t (λ x. refl)),
      )
    ]
  ]
]

pub claim_lost :
    (i : ℕ) (expected new : JobStatus) (error : Option String) (now : ℕ) (t : List Job)
    → won (Db.try_transition_status i expected new error now t).0 ≡ false
    → (Db.try_transition_status i expected new error now t).1 ≡ t
unfolding Db.try_transition_status update_row
claim_lost i expected new error now t h = elim (Option-cases (find i t)) [
  | inl missing ↦ ground arith
  | inr (row, e) ↦ ground arith
]
