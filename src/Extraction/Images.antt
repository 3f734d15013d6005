-- ===== src/Extraction/Images.antt =====
-- Images from outside: validate_and_load_image of backend/app/core/validation.py and _decode_image of
-- product-extractor/src/product_extractor/fetchers/http_fetcher.py. Pillow is an argument: opening
-- reads the header, and loading decodes the pixels. The state is the headers of the images whose
-- pixels were decoded.
pub mod Bombs
use ai_virtual_try_on.Prelude.{
  ℕ, ◌*◌, String, Bool, true, false, not, ◌||◌, Option, none, some, List, [], ◌∷◌, ltb, ◌==◌,
  str_eq, length, if◌then◌else◌,
}
use ai_virtual_try_on.Errors.{
  Error, Message, user_facing, extraction_error, image_message, image_over_size,
  image_over_dimension,
}
use ai_virtual_try_on.Errors.Exec.{Result, ok, err, Exec}
use ai_virtual_try_on.Storage.{Bytes}

pub record Header : Type 0 where
  pub format : String
  pub width : ℕ
  pub height : ℕ

-- `Image.open` and `img.load()`, none where they raise, and `img.convert("RGB")`, which stands in
-- no `try`.
pub record Pillow (Image : Type 0) : Type 0 where
  pub open_image : Bytes → Option Header
  pub load : Bytes → Option Image
  pub convert : Image → Result Image

abbrev pub allowed_format : String → Bool
allowed_format f = str_eq f "JPEG" || str_eq f "PNG" || str_eq f "WEBP"

abbrev pub is_oversized : ℕ → Header → Bool
is_oversized limit h = ltb limit h.width || ltb limit h.height

abbrev pub megabyte : ℕ
megabyte = 1048576

-- `_MAX_IMAGE_DIMENSION_PX`
abbrev pub max_image_dimension : ℕ
max_image_dimension = 4096

abbrev pub no_image_found_message : String
no_image_found_message =
    "We couldn't find a product image on that page. Please upload a photo or screenshot instead."

abbrev pub not_an_image : String → Message
not_an_image field =
    image_message field
      " doesn't look like a valid image. Please upload a JPEG, PNG, or WebP photo."

module _ {Image : Type 0} (pillow : Pillow Image) where
  abbrev pub load_image : Bytes → Header → Error → Exec (List Header) Image
  load_image bytes h failure seen = elim (pillow.load bytes) [
    | none ↦ (err failure, h ∷ seen)
    | some image ↦ (pillow.convert image, h ∷ seen)
  ]

  unfoldable pub validate_and_load_image : ℕ → ℕ → String → Bytes → Exec (List Header) Image
  validate_and_load_image max_upload_size_mb max_dimension field bytes seen =
      if length bytes == 0
      then (err (user_facing (image_message field " is empty. Please choose a photo.") 400), seen)
      else if ltb (max_upload_size_mb * megabyte) (length bytes)
      then (err (user_facing (image_over_size field max_upload_size_mb) 400), seen)
      else elim (pillow.open_image bytes) [
        | none ↦ (err (user_facing (not_an_image field) 400), seen)
        | some h ↦
            if not (allowed_format h.format)
            then (
              err (user_facing (image_message field " must be a JPEG, PNG, or WebP image.") 400),
              seen,
            )
            else if is_oversized max_dimension h
            then (
              err (user_facing (image_over_dimension field h.width h.height max_dimension) 400),
              seen,
            )
            else load_image bytes h (user_facing (not_an_image field) 400) seen
      ]

  unfoldable pub decode_image : Bytes → Exec (List Header) Image
  decode_image bytes seen = elim (pillow.open_image bytes) [
    | none ↦ (err (extraction_error no_image_found_message), seen)
    | some h ↦
        if not (allowed_format h.format)
        then (err (extraction_error no_image_found_message), seen)
        else if is_oversized max_image_dimension h
        then (err (extraction_error no_image_found_message), seen)
        else load_image bytes h (extraction_error no_image_found_message) seen
  ]
