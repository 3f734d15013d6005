-- ===== src/Errors.antt =====
-- What a request or a background call may raise: UserFacingError of backend/app/core/errors.py with
-- its message and status code, FastAPI's HTTPException, ProductExtractionError of
-- product-extractor/src/product_extractor/fetchers/base.py, and exceptions that stay internal. A
-- message that the source builds from a status carries the status.
pub mod Exec
use ai_virtual_try_on.Prelude.{ℕ, String, Option, Bool, true, false}
use ai_virtual_try_on.Job.{JobStatus}

pub data Message : Type 0 where
  text : String → Message
  not_cancellable : JobStatus → Message
  not_ready : JobStatus → Message
  retry_after : ℕ → Message
  used_all_today : ℕ → String → Message
  used_all_this_month : Option ℕ → String → Message
  timesteps_range : ℕ → ℕ → Message
  image_message : String → String → Message
  image_over_size : String → ℕ → Message
  image_over_dimension : String → ℕ → ℕ → ℕ → Message

pub data Error : Type 0 where
  user_facing : Message → ℕ → Error
  http : ℕ → Message → Error
  integrity_error : Error
  file_not_found : Error
  value_error : Error
  type_error : Error
  stale_data_error : Error
  data_error : Error
  email_delivery_error : Error
  invalid_url : Error
  extraction_error : String → Error

-- `except ProductExtractionError`
abbrev pub is_extraction_error : Error → Bool
is_extraction_error (extraction_error m) = true
is_extraction_error (user_facing m code) = false
is_extraction_error (http code m) = false
is_extraction_error integrity_error = false
is_extraction_error file_not_found = false
is_extraction_error value_error = false
is_extraction_error type_error = false
is_extraction_error stale_data_error = false
is_extraction_error data_error = false
is_extraction_error email_delivery_error = false
is_extraction_error invalid_url = false
