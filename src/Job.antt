-- ===== src/Job.antt =====
-- backend/app/services/job_store.py (JobStatus, Job) and the row of backend/app/db/models.py
-- (JobRecord), with the table of jobs both stores keep.
-- A job id is uuid4().hex, 32 hexadecimal digits: it stands for its number, since ids are only
-- compared. Instants are microseconds. A guidance scale is a float that is only copied: its value
-- in hundredths. A seed is a Python int, so it may be negative.
pub mod Table
use ai_virtual_try_on.Prelude.{ℕ, Bool, true, false, String, Option, ◌≡◌, arith}

pub data JobStatus : Type 0 where
  pending processing completed failed cancelled : JobStatus

abbrev pub status_eq : JobStatus → JobStatus → Bool
status_eq pending pending = true
status_eq processing processing = true
status_eq completed completed = true
status_eq failed failed = true
status_eq cancelled cancelled = true
status_eq _ _ = false

pub status_eq_lem : (a b : JobStatus) → status_eq a b ≡ true → a ≡ b
status_eq_lem a b h = ground arith

pub data Seed : Type 0 where
  pos : ℕ → Seed
  negsuc : ℕ → Seed

-- The keyword arguments that `create` and `create_idempotent` share.
pub record JobParams : Type 0 where
  pub user_id : Option ℕ
  pub category : String
  pub num_timesteps : ℕ
  pub guidance_scale : ℕ
  pub seed : Seed
  pub client_ip : Option String
  pub garment_photo_type : String

pub record Job : Type 0 where
  pub id : ℕ
  pub params : JobParams
  pub open params use *
  pub status : JobStatus
  pub error : Option String
  pub saved : Bool
  pub idempotency_scope : Option String
  pub idempotency_key : Option String
  pub idempotency_fingerprint : Option String
  pub created_at : ℕ
  pub updated_at : ℕ
