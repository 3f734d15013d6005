-- ===== src/Extraction/Saliency.antt =====
-- SaliencyProductExtractor of
-- product-extractor/src/product_extractor/extractors/saliency_extractor.py. OpenCV and the crop are
-- arguments. Floats stand as exact fractions of natural numbers, an area in halves of a pixel.
pub mod Edges
use mathlib.Core.Option
use ai_virtual_try_on.Prelude.{
  ℕ, suc, ◌+◌, ◌-◌, ◌*◌, ◌/◌, min, max, Bool, true, false, not, ◌&&◌, Option, none, some, List, [],
  ◌∷◌, ltb, leb, ◌==◌, if◌then◌else◌,
}

-- A contour: its area and its bounding rectangle.
pub record Region : Type 0 where
  pub area : ℕ
  pub x : ℕ
  pub y : ℕ
  pub w : ℕ
  pub h : ℕ

-- (left, top, right, bottom)
pub record Box : Type 0 where
  pub left : ℕ
  pub top : ℕ
  pub right : ℕ
  pub bottom : ℕ

pub record Ratio : Type 0 where
  pub num : ℕ
  pub den : ℕ

pub record ExtractionResult (Image : Type 0) : Type 0 where
  pub image : Image
  pub applied : Bool
  pub confidence : Ratio
  pub bounding_box : Option Box

-- What the extractor calls. `resize` may raise; `regions` is computeSaliency, the threshold and
-- findContours, none where computeSaliency reports no success.
pub record Vision (Image : Type 0) : Type 0 where
  pub width : Image → ℕ
  pub height : Image → ℕ
  pub resize : Image → ℕ → ℕ → Option Image
  pub regions : Image → Option (List Region)
  pub crop : Image → Box → Image

abbrev pub working_max_dim : ℕ
working_max_dim = 800

abbrev pub zero_ratio : Ratio
zero_ratio = record { num = 0; den = 1 }

-- `sum(areas)`
abbrev pub total_area : List Region → ℕ
total_area [] = 0
total_area (r ∷ regions) = r.area + total_area regions

-- The first of the largest.
abbrev pub largest : Region → List Region → Region
largest best [] = best
largest best (r ∷ regions) = largest (if ltb best.area r.area then r else best) regions

-- `scale`, and the working size in one direction.
abbrev pub scale_of : ℕ → ℕ → Ratio
scale_of w h =
    if leb (max h w) working_max_dim
    then record { num = 1; den = 1 }
    else record { num = working_max_dim; den = max h w }

abbrev pub scaled : Ratio → ℕ → ℕ
scaled s n = n * s.num / s.den

-- `max(0, int(x - pad))` and `min(size, int(x + w + pad))` for a range of the working image:
-- both are over the denominator `100 * scale.num`, and a padding is 8 hundredths.
unfoldable pub low_edge : Ratio → ℕ → ℕ → ℕ
low_edge s x w = (100 * (x * s.den) - 8 * (w * s.den)) / (100 * s.num)

unfoldable pub high_edge : Ratio → ℕ → ℕ → ℕ → ℕ
high_edge s size x w = min size ((100 * (x * s.den) + 108 * (w * s.den)) / (100 * s.num))

abbrev pub scale_and_pad_box : Region → Ratio → ℕ → ℕ → Box
scale_and_pad_box r s orig_w orig_h = record {
  left = low_edge s r.x r.w;
  top = low_edge s r.y r.h;
  right = high_edge s orig_w r.x r.w;
  bottom = high_edge s orig_h r.y r.h;
}

-- `_MIN_AREA_RATIO <= area_ratio <= _MAX_AREA_RATIO`
abbrev pub right_size : Region → ℕ → Bool
right_size r working_area =
    leb (3 * working_area) (100 * (r.w * r.h)) && leb (100 * (r.w * r.h)) (92 * working_area)

module _ {Image : Type 0} (vision : Vision Image) where
  abbrev pub unchanged : Image → Ratio → ExtractionResult Image
  unchanged image confidence = record {
    image = image;
    applied = false;
    confidence = confidence;
    bounding_box = none;
  }

  -- `_resize_for_speed`
  abbrev pub resize_for_speed : Image → Option Image
  resize_for_speed image =
      let w = vision.width image in
      let h = vision.height image in
      let s = scale_of w h in
      if leb (max h w) working_max_dim
      then some image
      else vision.resize image (scaled s w) (scaled s h)

  -- The end of `extract`, for the largest region.
  unfoldable pub crop_to : Image → Image → Region → ℕ → ExtractionResult Image
  crop_to image working r total =
      let w = vision.width image in
      let h = vision.height image in
      let confidence : Ratio = record { num = r.area; den = total } in
      let box = scale_and_pad_box r (scale_of w h) w h in
      if not (right_size r (vision.width working * vision.height working))
      then unchanged image confidence
      else if ltb (2 * r.area) total
      then unchanged image confidence
      else record {
        image = vision.crop image box;
        applied = true;
        confidence = confidence;
        bounding_box = some box;
      }

  abbrev pub extract_from : Image → Image → Option (List Region) → ExtractionResult Image
  extract_from image working none = unchanged image zero_ratio
  extract_from image working (some []) = unchanged image zero_ratio
  extract_from image working (some (r ∷ regions)) =
      if total_area (r ∷ regions) == 0
      then unchanged image zero_ratio
      else crop_to image working (largest r regions) (total_area (r ∷ regions))

  -- none where OpenCV raises.
  unfoldable pub extract : Image → Option (ExtractionResult Image)
  extract image = elim (resize_for_speed image) [
    | none ↦ none
    | some working ↦ some (extract_from image working (vision.regions working))
  ]
