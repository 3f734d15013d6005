-- ===== src/Submission/Rush.antt =====
-- Submissions at the same time: the capacity check of backend/app/api/tryon.py (_check_capacity) and
-- the insert of the job are two statements, with other requests, runs, sweeps and deletions of
-- accounts in between.
use ai_virtual_try_on.Prelude.{
  ℕ, suc, ◌+◌, ◌≤◌, ◌<◌, ◌≡◌, ◌⊎◌, inl, inr, refl, String, Bool, true, false, not, Option, none,
  some, List, [], ◌∷◌, ◌==◌, select, has_number, count_where-append, arith, Bool-cases,
  Option-cases,
}
use ai_virtual_try_on.Job.{Job, JobParams, JobStatus, pending, completed, failed, status_eq}
use ai_virtual_try_on.Job.Table.{find, modify}
use ai_virtual_try_on.JobStore.{IdempotencyToken, new_job, new_idempotent_job, with_status}
use ai_virtual_try_on.JobStore.Db
use ai_virtual_try_on.JobStore.Db.{Schema, insert_row, update_row}
use ai_virtual_try_on.Sweeps.{recovered, recover_rows}
use ai_virtual_try_on.Quota.{is_active, active_jobs, is_at_capacity}

-- The table, and how many requests are between their check and their insert.
pub record Rush : Type 0 where
  pub table : List Job
  pub admitted : ℕ

-- At most `room` requests are between the two at once. A request may also fail in between.
pub data Step (max_active_jobs room : ℕ) : Rush → Rush → Type 0 where
  admit :
      (table : List Job) (n : ℕ)
      → is_at_capacity max_active_jobs table ≡ false
      → n < room
      → Step max_active_jobs room
          (record { table = table; admitted = n })
          (record { table = table; admitted = suc n })
  insert :
      (schema : Schema) (params : JobParams) (id now : ℕ) (table : List Job) (n : ℕ)
      → Step max_active_jobs room
          (record { table = table; admitted = suc n })
          (record { table = (Db.create schema params id now table).1; admitted = n })
  insert_keyed :
      (schema : Schema) (token : IdempotencyToken) (params : JobParams) (id now : ℕ)
      (table : List Job) (n : ℕ)
      → Step max_active_jobs room
          (record { table = table; admitted = suc n })
          (record {
            table = (Db.create_idempotent schema token params id now table).1;
            admitted = n;
          })
  refuse :
      (table : List Job) (n : ℕ)
      → Step max_active_jobs room
          (record { table = table; admitted = suc n })
          (record { table = table; admitted = n })
  -- The claim of a run or a cancellation, and the last update of a run.
  move :
      (i : ℕ) (new : JobStatus) (now : ℕ) (table : List Job) (n : ℕ)
      → Step max_active_jobs room
          (record { table = table; admitted = n })
          (record {
            table = (Db.try_transition_status i pending new none now table).1;
            admitted = n;
          })
  finish :
      (i : ℕ) (status : JobStatus) (error : Option String) (now : ℕ) (table : List Job) (n : ℕ)
      → (status ≡ completed) ⊎ (status ≡ failed)
      → Step max_active_jobs room
          (record { table = table; admitted = n })
          (record { table = (Db.update_status i status error now table).1; admitted = n })
  recover :
      (now : ℕ) (seen table : List Job) (n : ℕ)
      → Step max_active_jobs room
          (record { table = table; admitted = n })
          (record { table = recover_rows now seen table; admitted = n })
  -- The deletion of an account cascades to its jobs.
  delete_user :
      (user : ℕ) (table : List Job) (n : ℕ)
      → Step max_active_jobs room
          (record { table = table; admitted = n })
          (record { table = select (λ j. not (has_number j.user_id user)) table; admitted = n })

pub data Reach (max_active_jobs room : ℕ) : Rush → Type 0 where
  start : Reach max_active_jobs room (record { table = []; admitted = 0 })
  later :
      {s t : Rush}
      → Reach max_active_jobs room s
      → Step max_active_jobs room s t
      → Reach max_active_jobs room t

active-insert :
    (schema : Schema) (row : Job) (t : List Job)
    → active_jobs (insert_row schema row t).1 ≤ suc (active_jobs t)
unfolding insert_row
active-insert schema row t = ground (arith, count_where-append is_active t (row ∷ []))

active-create :
    (schema : Schema) (params : JobParams) (id now : ℕ) (t : List Job)
    → active_jobs (Db.create schema params id now t).1 ≤ suc (active_jobs t)
unfolding Db.create
active-create schema params id now t =
    ground (arith, active-insert schema (new_job params id now) t)

active-create_idempotent :
    (schema : Schema) (token : IdempotencyToken) (params : JobParams) (id now : ℕ) (t : List Job)
    → active_jobs (Db.create_idempotent schema token params id now t).1 ≤ suc (active_jobs t)
unfolding Db.create_idempotent
active-create_idempotent schema token params id now t =
    ground (arith, active-insert schema (new_idempotent_job token params id now) t)

-- An update of an active row, or one that leaves no row active, adds no active job.
active-modify :
    (i : ℕ) (f : Job → Job) (t : List Job) (row : Job)
    → find i t ≡ some row
    → is_active row ≡ true
    → active_jobs (modify i f t) ≤ active_jobs t
unfolding find modify
active-modify i f [] row e a = absurd (ground arith)
active-modify i f (j ∷ t) row e a = elim (Bool-cases (j.id == i)) [
  | inl here ↦ ground arith
  | inr there ↦ ground (arith, active-modify i f t row)
]

active-modify_ended :
    (i : ℕ) (f : Job → Job) (t : List Job)
    → ((x : Job) → is_active (f x) ≡ false)
    → active_jobs (modify i f t) ≤ active_jobs t
unfolding modify
active-modify_ended i f [] ends = omega arith
active-modify_ended i f (j ∷ t) ends = ground (arith, ends j, active-modify_ended i f t ends)

active-try_transition :
    (i : ℕ) (new : JobStatus) (now : ℕ) (t : List Job)
    → active_jobs (Db.try_transition_status i pending new none now t).1 ≤ active_jobs t
unfolding Db.try_transition_status update_row
active-try_transition i new now t = elim (Option-cases (find i t)) [
  | inl missing ↦ ground arith
  | inr (row, e) ↦ elim (Bool-cases (status_eq row.status pending)) [
    | inr taken ↦ ground arith
    | inl waiting ↦
        ground (arith, active-modify i (with_status new none now) t row e (ground arith))
  ]
]

ended :
    (status : JobStatus) (error : Option String) (now : ℕ) (x : Job)
    → (status ≡ completed) ⊎ (status ≡ failed)
    → is_active (with_status status error now x) ≡ false
ended status error now x (inl e) = rw e refl
ended status error now x (inr e) = rw e refl

active-update_status :
    (i : ℕ) (status : JobStatus) (error : Option String) (now : ℕ) (t : List Job)
    → (status ≡ completed) ⊎ (status ≡ failed)
    → active_jobs (Db.update_status i status error now t).1 ≤ active_jobs t
unfolding Db.update_status update_row
active-update_status i status error now t ends = elim (Option-cases (find i t)) [
  | inl missing ↦ ground arith
  | inr (row, e) ↦ ground (
    arith,
    active-modify_ended i (with_status status error now) t (λ x. ended status error now x ends),
  )
]

active-recover :
    (now : ℕ) (seen t : List Job) → active_jobs (recover_rows now seen t) ≤ active_jobs t
unfolding recover_rows
active-recover now [] t = omega arith
active-recover now (j ∷ seen) t = omega (
  arith,
  active-recover now seen (modify j.id (recovered now) t),
  active-modify_ended j.id (recovered now) t (λ x. refl),
)

active-select : (p : Job → Bool) (t : List Job) → active_jobs (select p t) ≤ active_jobs t
active-select p [] = omega arith
active-select p (j ∷ t) = ground (arith, active-select p t)

-- What an admitted request may still add is counted with the active jobs.
abbrev Fits : ℕ → ℕ → Rush → Type 0
Fits max_active_jobs room s = active_jobs s.table + s.admitted < max_active_jobs + room

Step-Fits :
    {max_active_jobs room : ℕ} {s t : Rush}
    → Step max_active_jobs room s t
    → Fits max_active_jobs room s
    → Fits max_active_jobs room t
Step-Fits (admit table n free few) f = ground arith
Step-Fits (insert schema params id now table n) f =
    omega (arith, f, active-create schema params id now table)
Step-Fits (insert_keyed schema token params id now table n) f =
    omega (arith, f, active-create_idempotent schema token params id now table)
Step-Fits (refuse table n) f = omega (arith, f)
Step-Fits (move i new now table n) f = omega (arith, f, active-try_transition i new now table)
Step-Fits (finish i status error now table n end) f =
    omega (arith, f, active-update_status i status error now table end)
Step-Fits (recover now seen table n) f = omega (arith, f, active-recover now seen table)
Step-Fits (delete_user user table n) f =
    omega (arith, f, active-select (λ j. not (has_number j.user_id user)) table)

-- While at most `room` requests are between their capacity check and their insert at once, the race
-- between the two never brings the active jobs to the limit plus `room`: with one at a time the
-- limit holds, and each further one adds at most one job.
pub active_jobs-lt :
    {max_active_jobs room : ℕ} {s : Rush}
    → Reach max_active_jobs room s
    → 0 < room
    → active_jobs s.table + s.admitted < max_active_jobs + room
active_jobs-lt start some_room = omega arith
active_jobs-lt (later r step) some_room = Step-Fits step (active_jobs-lt r some_room)
