-- ===== src/Tests/Crops.antt =====
-- Crops of images that are only their size.
use mathlib.Core.Option.{some_inj}
use ai_virtual_try_on.Prelude.{
  ℕ, ◌≡◌, ◌/◌, refl, subst, ◌&&◌, some, List, [], ◌∷◌, All, leb, Bool-cases, inl, inr, arith,
  if◌then◌else◌,
}
use ai_virtual_try_on.Extraction.Saliency.{
  Region, Vision, ExtractionResult, scale_of, scaled, extract,
}
use ai_virtual_try_on.Extraction.Saliency.Edges.{Inside, IsVision, Verdict, extract_lem}

record Shape : Type 0 where
  width : ℕ
  height : ℕ

-- The upper left quarter.
abbrev quarter : Shape → Region
quarter s = record { area = 10; x = 0; y = 0; w = s.width / 2; h = s.height / 2 }

abbrev quarters : Shape → List Region
quarters s = if leb 2 s.width && leb 2 s.height then quarter s ∷ [] else []

abbrev vision : Vision Shape
vision = record {
  width = λ s. s.width;
  height = λ s. s.height;
  resize = λ s w h. some (record { width = w; height = h });
  regions = λ s. some (quarters s);
  crop = λ s box. record { width = 1; height = 1 };
}

quarters-Inside : (s : Shape) → All (Inside s.width s.height) (quarters s)
quarters-Inside s = elim (Bool-cases (leb 2 s.width && leb 2 s.height)) [
  | inl large ↦ rw large ((ground arith, ground arith, ground arith, ground arith), tt)
  | inr small ↦ rw small tt
]

vision-IsVision : IsVision vision
vision-IsVision = record {
  resizes = λ s w h wide high. (record { width = w; height = h }, refl, refl, refl);
  bounds = λ s regions e.
      subst (λ rs. All (Inside s.width s.height) rs) (some_inj.0 e) (quarters-Inside s);
}

abbrev photo : Shape
photo = record { width = 1600; height = 1200 }

extract_lem_example :
    (result : ExtractionResult Shape) × (extract vision photo ≡ some result)
    × Verdict vision photo result
extract_lem_example = extract_lem vision vision-IsVision photo (omega arith) (omega arith)

-- A long strip has no working copy: OpenCV is asked for a height of 0.
strip_vanishes : scaled (scale_of 4096 1) 1 ≡ 0
strip_vanishes = refl
