-- ===== src/Interleaving.antt =====
-- Requests, background runs and sweeps over one database, interleaved in any order: each step is one
-- call of DbJobStore (backend/app/services/db_job_store.py) as TryOnService makes it
-- (backend/app/services/tryon_service.py: start_job, start_job_idempotent, run_job, cancel_job,
-- save_job), or the query or the flush of recover_stale_processing_jobs
-- (backend/app/services/job_recovery.py). One sweep is under way at a time. An account that is
-- deleted takes its rows along. A new id is uuid4().hex, which repeats none that was given out.
pub mod Effects
pub mod Distinct
pub mod Counts
pub mod Steps
pub mod Claims
pub mod Keys
use ai_virtual_try_on.Prelude.{
  ℕ, ◌≡◌, ◌⊎◌, ◌<◌, String, Bool, true, false, Option, none, List, [], ◌∷◌, ◌==◌, select,
  count_where, any_of, is_some, not, has_number, if◌then◌else◌,
}
use ai_virtual_try_on.Errors.Exec.{Result, ok, err}
use ai_virtual_try_on.Job.{
  Job, JobParams, JobStatus, pending, processing, completed, failed, cancelled,
}
use ai_virtual_try_on.Job.Table.{find}
use ai_virtual_try_on.JobStore.{IdempotencyToken}
use ai_virtual_try_on.JobStore.Db
use ai_virtual_try_on.JobStore.Db.{Schema}
use ai_virtual_try_on.Sweeps.{is_stale, recover_rows}

-- The table, the ids given out, the ids whose run was claimed, the last one first, and the rows
-- that the query of the sweep under way returned.
pub record Floor : Type 0 where
  pub table : List Job
  pub issued : List ℕ
  pub claims : List ℕ
  pub seen : List Job

abbrev pub empty : Floor
empty = record { table = []; issued = []; claims = []; seen = [] }

-- How often a run of the job was claimed.
abbrev pub claimed : ℕ → List ℕ → ℕ
claimed k = count_where (λ i. i == k)

abbrev pub is_issued : ℕ → List ℕ → Bool
is_issued k = any_of (λ i. i == k)

abbrev pub won : Result Bool → Bool
won (ok b) = b
won (err e) = false

pub data Step (s : Floor) : Floor → Type 0 where
  submit :
      (schema : Schema) (params : JobParams) (id now : ℕ)
      → is_issued id s.issued ≡ false
      → Step s
          (record s { table = (Db.create schema params id now s.table).1; issued = id ∷ s.issued })
  submit_keyed :
      (schema : Schema) (token : IdempotencyToken) (params : JobParams) (id now : ℕ)
      → is_issued id s.issued ≡ false
      → Step s (record s {
        table = (Db.create_idempotent schema token params id now s.table).1;
        issued = id ∷ s.issued;
      })
  -- The claim that starts a run, and the run's last update.
  claim :
      (i now : ℕ)
      → Step s (record s {
        table = (Db.try_transition_status i pending processing none now s.table).1;
        claims =
            if won (Db.try_transition_status i pending processing none now s.table).0
            then i ∷ s.claims
            else s.claims;
      })
  finish :
      (i : ℕ) (status : JobStatus) (error : Option String) (now : ℕ)
      → 0 < claimed i s.claims
      → (status ≡ completed) ⊎ (status ≡ failed)
      → Step s (record s { table = (Db.update_status i status error now s.table).1 })
  cancel :
      (i now : ℕ)
      → Step s
          (record s { table = (Db.try_transition_status i pending cancelled none now s.table).1 })
  save : (i now : ℕ) → Step s (record s { table = (Db.mark_saved i now s.table).1 })
  query : (cutoff : ℕ) → Step s (record s { seen = select (is_stale cutoff) s.table })
  flush :
      (now : ℕ)
      → any_of (λ j. not (is_some (find j.id s.table))) s.seen ≡ false
      → Step s (record s { table = recover_rows now s.seen s.table; seen = [] })
  -- The sweep ends without its flush: the database refuses it when a row of the query is gone.
  abort : Step s (record s { seen = [] })
  forget_user :
      (user : ℕ)
      → Step s (record s { table = select (λ j. not (has_number j.user_id user)) s.table })

pub data Reach (s : Floor) : Floor → Type 0 where
  here : Reach s s
  later : {t u : Floor} → Reach s t → Step t u → Reach s u
