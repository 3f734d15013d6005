-- ===== src/Extraction/Images/Bombs.antt =====
-- No pixels of an oversized image are decoded, whatever the file is.
use ai_virtual_try_on.Prelude.{
  ℕ, ◌*◌, ◌≤◌, ◌<◌, ◌≡◌, String, true, List, length, All, arith, inl, inr, Option-cases,
}
use ai_virtual_try_on.Errors.Exec.{ok}
use ai_virtual_try_on.Storage.{Bytes}
use ai_virtual_try_on.Extraction.Images.{
  Header, Pillow, allowed_format, megabyte, max_image_dimension, validate_and_load_image,
  decode_image,
}

-- What may be decoded.
abbrev pub IsSmall : ℕ → Header → Type 0
IsSmall limit h = (allowed_format h.format ≡ true) × (h.width ≤ limit) × (h.height ≤ limit)

module _ {Image : Type 0} (pillow : Pillow Image) where
  -- Only images of an allowed format and within the dimensions are decoded by an upload, and an
  -- accepted upload is not empty and within the size.
  pub validate_lem :
      (max_upload_size_mb max_dimension : ℕ) (field : String) (bytes : Bytes) (seen : List Header)
      → All (IsSmall max_dimension) seen
      → All
          (IsSmall max_dimension)
          (validate_and_load_image pillow max_upload_size_mb max_dimension field bytes seen).1
        × ((image : Image)
            → (validate_and_load_image pillow max_upload_size_mb max_dimension field bytes seen).0
              ≡ ok image
            → (0 < length bytes) × (length bytes ≤ max_upload_size_mb * megabyte))
  unfolding validate_and_load_image
  validate_lem mb limit field bytes seen safe = elim (Option-cases (pillow.open_image bytes)) [
    | inl unreadable ↦ (ground arith, λ image h. ground arith)
    | inr (header, e) ↦ (ground arith, λ image h. ground arith)
  ]

  pub decode_image-IsSmall :
      (bytes : Bytes) (seen : List Header)
      → All (IsSmall max_image_dimension) seen
      → All (IsSmall max_image_dimension) (decode_image pillow bytes seen).1
  unfolding decode_image
  decode_image-IsSmall bytes seen safe = elim (Option-cases (pillow.open_image bytes)) [
    | inl unreadable ↦ ground arith
    | inr (header, e) ↦ ground arith
  ]
