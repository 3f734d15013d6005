-- ===== src/JobStore.antt =====
-- backend/app/services/job_store.py: the interface JobStore (class JobStore), over the state S of
-- an implementation, and what its methods promise through `get`. InMemoryJobStore and DbJobStore
-- are the children; instants and fresh ids are arguments.
pub mod Index
pub mod InMemory
pub mod Db
pub mod Unique
pub mod Agreement
pub mod Laws
pub mod DbLaws
pub mod Idempotency
use mathlib.Core.Option
use ai_virtual_try_on.Prelude.{
  ℕ, String, Bool, true, false, not, ◌&&◌, Option, none, some, ◌≡◌, ◌==◌, is_some, if◌then◌else◌,
}
use ai_virtual_try_on.Errors.Exec.{Exec, ok}
use ai_virtual_try_on.Job.{JobStatus, JobParams, Job, pending, failed, status_eq}

-- The three idempotency arguments of `create_idempotent`.
pub record IdempotencyToken : Type 0 where
  pub idempotency_scope : String
  pub idempotency_key : String
  pub idempotency_fingerprint : String

pub record JobStore (S : Type 0) : Type 0 where
  pub create : JobParams → ℕ → ℕ → Exec S Job
  pub get : ℕ → S → Option Job
  pub update_status : ℕ → JobStatus → Option String → ℕ → Exec S (Unit {0})
  pub try_transition_status : ℕ → JobStatus → JobStatus → Option String → ℕ → Exec S Bool
  pub mark_saved : ℕ → ℕ → Exec S (Unit {0})
  pub get_by_idempotency_key : String → String → S → Option Job
  pub create_idempotent : IdempotencyToken → JobParams → ℕ → ℕ → Exec S (Job × Bool)

-- `Job(...)` with its defaults: pending, no error, not saved.
abbrev pub new_job : JobParams → ℕ → ℕ → Job
new_job params id now = record {
  id = id;
  params = params;
  status = pending;
  error = none;
  saved = false;
  idempotency_scope = none;
  idempotency_key = none;
  idempotency_fingerprint = none;
  created_at = now;
  updated_at = now;
}

abbrev pub new_idempotent_job : IdempotencyToken → JobParams → ℕ → ℕ → Job
new_idempotent_job token params id now = record (new_job params id now) {
  idempotency_scope = some token.idempotency_scope;
  idempotency_key = some token.idempotency_key;
  idempotency_fingerprint = some token.idempotency_fingerprint;
}

-- The fields that a status update writes.
abbrev pub with_status : JobStatus → Option String → ℕ → Job → Job
with_status status error now j = record j { status = status; error = error; updated_at = now }

-- A job up to the instant of its last update, which the two stores do not set alike (mark_saved).
abbrev pub undated : Job → Job
undated j = record j { updated_at = 0 }

-- What `mark_saved` makes of a job.
abbrev pub as_saved : Job → Job
as_saved j = record j { saved = true }

abbrev pub has_status : JobStatus → Option Job → Bool
has_status status none = false
has_status status (some j) = status_eq j.status status

-- What `try_transition_status` makes of a job.
abbrev pub transition : JobStatus → JobStatus → Option String → Job → Job
transition expected new error j =
    if status_eq j.status expected then with_status new error 0 j else j

-- `create_idempotent`, given the job that the search for the key found.
abbrev pub created_or_found : Option Job → Job → Job × Bool
created_or_found none job = (job, true)
created_or_found (some existing) job = (existing, false)

module _ {S : Type 0} (js : JobStore S) where
  abbrev pub view : ℕ → S → Option Job
  view i s = Option.map undated (js.get i s)

  -- The status may be written: the job does not come back from `failed`.
  abbrev pub stays_failed : ℕ → JobStatus → S → Bool
  stays_failed i status s = not (has_status failed (js.get i s) && not (status_eq status failed))

-- The contract of a job store, seen through `get` up to `updated_at`, in states that the store
-- keeps well formed, and for new jobs that it takes.
pub record IsJobStore {S : Type 0} (js : JobStore S) (IsWf : S → Type 0) (takes : Job → Bool)
    : Type 0 where
  pub view-create :
      (params : JobParams) (id now : ℕ) (s : S)
      → IsWf s
      → js.get id s ≡ none
      → takes (new_job params id now) ≡ true
      → ((js.create params id now s).0 ≡ ok (new_job params id now))
        × IsWf (js.create params id now s).1
        × ((k : ℕ)
            → view js k (js.create params id now s).1
              ≡ (if id == k then some (undated (new_job params id now)) else view js k s))
  pub view-update_status :
      (i : ℕ) (status : JobStatus) (error : Option String) (now : ℕ) (s : S)
      → IsWf s
      → stays_failed js i status s ≡ true
      → ((js.update_status i status error now s).0 ≡ ok tt)
        × IsWf (js.update_status i status error now s).1
        × ((k : ℕ)
            → view js k (js.update_status i status error now s).1 ≡ (
                if i == k
                then Option.map (with_status status error 0) (view js k s)
                else view js k s))
  pub view-try_transition_status :
      (i : ℕ) (expected new : JobStatus) (error : Option String) (now : ℕ) (s : S)
      → IsWf s
      → status_eq expected failed ≡ false
      → ((js.try_transition_status i expected new error now s).0
          ≡ ok (has_status expected (js.get i s)))
        × IsWf (js.try_transition_status i expected new error now s).1
        × ((k : ℕ)
            → view js k (js.try_transition_status i expected new error now s).1 ≡ (
                if i == k
                then Option.map (transition expected new error) (view js k s)
                else view js k s))
  pub view-mark_saved :
      (i now : ℕ) (s : S)
      → IsWf s
      → ((js.mark_saved i now s).0 ≡ ok tt)
        × IsWf (js.mark_saved i now s).1
        × ((k : ℕ)
            → view js k (js.mark_saved i now s).1
              ≡ (if i == k then Option.map as_saved (view js k s) else view js k s))
  pub view-create_idempotent :
      (token : IdempotencyToken) (params : JobParams) (id now : ℕ) (s : S)
      → IsWf s
      → js.get id s ≡ none
      → takes (new_idempotent_job token params id now) ≡ true
      → let found = js.get_by_idempotency_key token.idempotency_scope token.idempotency_key s in
        ((js.create_idempotent token params id now s).0
          ≡ ok (created_or_found found (new_idempotent_job token params id now)))
        × IsWf (js.create_idempotent token params id now s).1
        × ((k : ℕ)
            → view js k (js.create_idempotent token params id now s).1 ≡ (
                if not (is_some found) && id == k
                then some (undated (new_idempotent_job token params id now))
                else view js k s))
