-- ===== src/Extraction/Routes.antt =====
-- The routes of backend/app/api/extraction.py with ExtractionService of
-- product-extractor/src/product_extractor/services/extraction_service.py between them and the
-- fetcher. The extractor, classical computer vision, is an argument. The body's link arrives parsed;
-- the service has its fetcher, as the module builds it.
pub mod Limits
use ai_virtual_try_on.Prelude.{ℕ, String, Bool, true, false, not, List, if◌then◌else◌}
use ai_virtual_try_on.Errors.{
  Error, user_facing, http, text, retry_after, integrity_error, file_not_found, value_error,
  type_error, stale_data_error, data_error, email_delivery_error, invalid_url, extraction_error,
}
use ai_virtual_try_on.Errors.Exec.{Result, ok, err, Exec, pure, ◌>>=◌}
use ai_virtual_try_on.RateLimiter.{RateLimiter, RateLimitResult, check}
use ai_virtual_try_on.Storage.{Bytes}
use ai_virtual_try_on.Extraction.Guard.{Url}
use ai_virtual_try_on.Extraction.Images.{Header, Pillow, validate_and_load_image}
use ai_virtual_try_on.Extraction.Fetcher.{Web, Net, fetch_product_image, fetch_image_from_url}

-- `except ProductExtractionError as exc: raise UserFacingError(exc.message, status_code=400)`
abbrev pub as_user_error : Error → Error
as_user_error (extraction_error m) = user_facing (text m) 400
as_user_error (user_facing m code) = user_facing m code
as_user_error (http code m) = http code m
as_user_error integrity_error = integrity_error
as_user_error file_not_found = file_not_found
as_user_error value_error = value_error
as_user_error type_error = type_error
as_user_error stale_data_error = stale_data_error
as_user_error data_error = data_error
as_user_error email_delivery_error = email_delivery_error
as_user_error invalid_url = invalid_url

abbrev pub user_errors : {A : Type 0} → Result A → Result A
user_errors (ok a) = ok a
user_errors (err e) = err (as_user_error e)

module _ {S A : Type 0} where
  -- `_check_rate_limit`, before the rest of a route.
  unfoldable pub behind_limiter :
      String → ℕ → RateLimiter → Exec S A → S → Result A × RateLimiter × S
  behind_limiter client now l rest s =
      let (r, l') = check client now l in
      elim r [
        | err e ↦ (err e, l', s)
        | ok result ↦
            if not result.allowed
            then (err (http 429 (retry_after result.retry_after_seconds)), l', s)
            else (let (a, s') = rest s in (a, l', s'))
      ]

module _ {Image Extracted : Type 0} (web : Web Image) (extract : Image → Extracted) where
  unfoldable pub extract_from_url : Url → Exec Net Extracted
  extract_from_url url = fetch_product_image web url >>= λ image. pure (extract image)

  unfoldable pub extract_from_image_url : Url → Exec Net Extracted
  extract_from_image_url url = fetch_image_from_url web url >>= λ image. pure (extract image)

  unfoldable pub extract_product_url :
      String → ℕ → RateLimiter → Url → Net → Result Extracted × RateLimiter × Net
  extract_product_url client now l url =
      behind_limiter client now l (λ s. let (r, s') = extract_from_url url s in (user_errors r, s'))

  unfoldable pub extract_image_url :
      String → ℕ → RateLimiter → Url → Net → Result Extracted × RateLimiter × Net
  extract_image_url client now l url =
      behind_limiter client now l
        (λ s. let (r, s') = extract_from_image_url url s in (user_errors r, s'))

-- `extract_product_image`, of an upload.
module _ {Image Extracted : Type 0} (pillow : Pillow Image) (extract : Image → Extracted) where
  unfoldable pub extract_product_image :
      ℕ
      → ℕ
      → String
      → ℕ
      → RateLimiter
      → Bytes
      → List Header
      → Result Extracted × RateLimiter × List Header
  extract_product_image max_upload_size_mb max_dimension client now l bytes =
      behind_limiter client now l (
        validate_and_load_image pillow max_upload_size_mb max_dimension "Image" bytes >>= λ image.
        pure (extract image))
