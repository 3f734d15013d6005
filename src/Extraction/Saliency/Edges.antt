-- ===== src/Extraction/Saliency/Edges.antt =====
-- The crop lies in the image and is not empty.
use native.Mathlib.Nat.{
  add-mul, one-mul, suc-mul, mul-le-mul_right, le_trans, le-div_iff_mul-le, div-lt_iff_lt-mul,
  div-mul-le_self,
}
use ai_virtual_try_on.Prelude.{
  ℕ, ◌+◌, ◌*◌, ◌/◌, ◌≤◌, ◌<◌, ◌≡◌, ◌⊎◌, inl, inr, refl, sym, ap, subst, max, Bool, true, false,
  Option, none, some, List, [], ◌∷◌, ltb, leb, ◌==◌, All, arith, if◌then◌else◌, Bool-cases,
}
use ai_virtual_try_on.Extraction.Saliency.{
  Region, Box, Ratio, ExtractionResult, Vision, working_max_dim, scale_of, scaled, low_edge,
  high_edge, scale_and_pad_box, right_size, resize_for_speed, crop_to, extract_from, extract,
  total_area, largest,
}

div-lt-div : (a b m : ℕ) → 0 < m → a + m ≤ b → a / m < b / m
div-lt-div a b m pos h =
    (le-div_iff_mul-le pos).1 (rw (suc-mul (a / m) m) (omega (arith, div-mul-le_self a m, h)))

unscaled-le : (s : Ratio) (size e : ℕ) → e ≤ scaled s size → e * s.den ≤ size * s.num
unscaled-le s size e h = le_trans (mul-le-mul_right s.den h) (div-mul-le_self (size * s.num) s.den)

low-lt-high :
    (s : Ratio) (size x w : ℕ)
    → 1 ≤ s.num
    → s.num ≤ s.den
    → 1 ≤ w
    → x + w ≤ scaled s size
    → low_edge s x w < high_edge s size x w
unfolding low_edge high_edge
low-lt-high s size x w pos below wide inside =
    let room : x * s.den + w * s.den ≤ size * s.num =
      rw (← add-mul x w s.den) (unscaled-le s size (x + w) inside) in
    let broad : s.den ≤ w * s.den =
      subst (λ n. n ≤ w * s.den) (one-mul s.den) (mul-le-mul_right s.den wide) in
    let apart : low_edge s x w < (100 * (x * s.den) + 108 * (w * s.den)) / (100 * s.num) =
      div-lt-div _ _ (100 * s.num) (omega arith) (omega arith) in
    let within : low_edge s x w < size = (div-lt_iff_lt-mul (omega arith)).1 (omega arith) in
    omega (arith, apart, within)

-- A rectangle of pixels of an image of that size.
abbrev pub Inside : ℕ → ℕ → Region → Type 0
Inside w h r = (1 ≤ r.w) × (1 ≤ r.h) × (r.x + r.w ≤ w) × (r.y + r.h ≤ h)

-- What is documented of OpenCV: resize gives the size it is asked for, if it is not empty, and a
-- bounding rectangle lies in the image.
pub record IsVision {Image : Type 0} (vision : Vision Image) : Type 0 where
  pub resizes :
      (image : Image) (w h : ℕ)
      → 1 ≤ w
      → 1 ≤ h
      → (small : Image) × (vision.resize image w h ≡ some small)
        × (vision.width small ≡ w)
        × (vision.height small ≡ h)
  pub bounds :
      (image : Image) (regions : List Region)
      → vision.regions image ≡ some regions
      → All (Inside (vision.width image) (vision.height image)) regions

abbrev pub IsCrop : ℕ → ℕ → Box → Type 0
IsCrop w h box =
    (box.left < box.right) × (box.right ≤ w) × (box.top < box.bottom) × (box.bottom ≤ h)

module _ {Image : Type 0} (vision : Vision Image) where
  -- The image as it was, or a crop within it around a region with at least half of the area.
  abbrev pub Verdict : Image → ExtractionResult Image → Type 0
  Verdict image result =
      ((result.applied ≡ false) × (result.image ≡ image) × (result.bounding_box ≡ none))
      ⊎ ((result.applied ≡ true)
          × (result.confidence.den ≤ 2 * result.confidence.num)
          × ((box : Box) × (result.bounding_box ≡ some box)
              × (result.image ≡ vision.crop image box)
              × IsCrop (vision.width image) (vision.height image) box))

  scale-cases : (w h : ℕ) → (1 ≤ (scale_of w h).num) × ((scale_of w h).num ≤ (scale_of w h).den)
  scale-cases w h = ground arith

  either-Inside :
      (w h : ℕ) (r best : Region) (larger : Bool)
      → Inside w h r
      → Inside w h best
      → Inside w h (if larger then r else best)
  either-Inside w h r best true i j = i
  either-Inside w h r best false i j = j

  largest-Inside :
      (w h : ℕ) (best : Region) (regions : List Region)
      → Inside w h best
      → All (Inside w h) regions
      → Inside w h (largest best regions)
  largest-Inside w h best [] b all = b
  largest-Inside w h best (r ∷ regions) b all =
      largest-Inside w h (if ltb best.area r.area then r else best) regions
        (either-Inside w h r best (ltb best.area r.area) all.0 b) all.1

  box-IsCrop :
      (r : Region) (w h : ℕ)
      → Inside (scaled (scale_of w h) w) (scaled (scale_of w h) h) r
      → IsCrop w h (scale_and_pad_box r (scale_of w h) w h)
  unfolding high_edge
  box-IsCrop r w h i =
      let s = scale-cases w h in
      (
        low-lt-high (scale_of w h) w r.x r.w s.0 s.1 i.0 i.2,
        omega arith,
        low-lt-high (scale_of w h) h r.y r.h s.0 s.1 i.1 i.3,
        omega arith,
      )

  crop_to-Verdict :
      (image working : Image) (r : Region) (total : ℕ)
      → Inside
          (scaled (scale_of (vision.width image) (vision.height image)) (vision.width image))
          (scaled (scale_of (vision.width image) (vision.height image)) (vision.height image))
          r
      → Verdict image (crop_to vision image working r total)
  unfolding crop_to
  crop_to-Verdict image working r total i =
      let crop = box-IsCrop r (vision.width image) (vision.height image) i in
      elim (Bool-cases (right_size r (vision.width working * vision.height working))) [
        | inr wrong ↦ inl (rw wrong (refl, refl, refl))
        | inl right ↦ elim (Bool-cases (ltb (2 * r.area) total)) [
          | inl scattered ↦ inl (rw right (rw scattered (refl, refl, refl)))
          | inr dominant ↦ inr (rw right (rw dominant (refl, ground arith, (_, refl, refl, crop))))
        ]
      ]

  extract_from-Verdict :
      (image working : Image) (found : Option (List Region))
      → vision.regions working ≡ found
      → IsVision vision
      → (vision.width working
          ≡ scaled (scale_of (vision.width image) (vision.height image)) (vision.width image))
      → (vision.height working
          ≡ scaled (scale_of (vision.width image) (vision.height image)) (vision.height image))
      → Verdict image (extract_from vision image working found)
  extract_from-Verdict image working none e laws we he = inl (refl, refl, refl)
  extract_from-Verdict image working (some []) e laws we he = inl (refl, refl, refl)
  extract_from-Verdict image working (some (r ∷ regions)) e laws we he =
      elim (Bool-cases (total_area (r ∷ regions) == 0)) [
        | inl nothing ↦ rw nothing (inl (refl, refl, refl))
        | inr some_area ↦
            let all = laws.bounds working (r ∷ regions) e in
            rw some_area (
              crop_to-Verdict image working (largest r regions) (total_area (r ∷ regions))
                (rw (← we) (rw (← he) (largest-Inside _ _ r regions all.0 all.1))))
      ]

  answered :
      (image working : Image)
      → resize_for_speed vision image ≡ some working
      → IsVision vision
      → (vision.width working
          ≡ scaled (scale_of (vision.width image) (vision.height image)) (vision.width image))
      → (vision.height working
          ≡ scaled (scale_of (vision.width image) (vision.height image)) (vision.height image))
      → (result : ExtractionResult Image) × (extract vision image ≡ some result)
        × Verdict image result
  unfolding extract
  answered image working e laws w h = (
    extract_from vision image working (vision.regions working),
    ap
        (λ o. elim o [
          | none ↦ none
          | some working ↦ some (extract_from vision image working (vision.regions working))
        ])
        e,
    extract_from-Verdict image working (vision.regions working) refl laws w h,
  )

  whole : (w h n : ℕ) → leb (max h w) working_max_dim ≡ true → scaled (scale_of w h) n ≡ n
  whole w h n small = rw small (omega arith)

  -- An image whose working copy is not empty is always answered: unchanged, or cropped to a box that
  -- is not empty and lies in the image, around a region with at least half of the salient area.
  pub extract_lem :
      (laws : IsVision vision) (image : Image)
      → 1 ≤ scaled (scale_of (vision.width image) (vision.height image)) (vision.width image)
      → 1 ≤ scaled (scale_of (vision.width image) (vision.height image)) (vision.height image)
      → (result : ExtractionResult Image) × (extract vision image ≡ some result)
        × Verdict image result
  extract_lem laws image wide high =
      elim (Bool-cases (leb (max (vision.height image) (vision.width image)) working_max_dim)) [
        | inl small ↦
            answered image image (ground arith) laws
              (sym (whole (vision.width image) (vision.height image) (vision.width image) small))
              (sym (whole (vision.width image) (vision.height image) (vision.height image) small))
        | inr large ↦
            let (working, e, w, h) = laws.resizes image _ _ wide high in
            answered image working (ground (arith, e)) laws w h
      ]
