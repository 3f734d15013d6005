-- ===== src/BodyParser.antt =====
-- MediaPipeBodyParser of ai/preprocessing/src/aitryon_preprocessing/mediapipe_parser.py, from the
-- mask of the segmenter and the pose of the detector, which are arguments, to the label of a pixel.
-- A coordinate is a fraction of the image in units of `1 / unit`, or negative; floats stand as exact
-- fractions. The pose arrives as its arrays, the first row of `subset` as whether a keypoint was
-- found.
pub mod Kinds
use mathlib.Core.Option
use ai_virtual_try_on.Prelude.{
  ℕ, zero, suc, ◌+◌, ◌-◌, ◌*◌, min, max, Bool, true, false, not, ◌&&◌, Option, none, some, List, [],
  ◌∷◌, ◌++◌, ltb, leb, if◌then◌else◌,
}

pub data MaskClass : Type 0 where
  background_mask hair_mask body_skin_mask face_skin_mask clothes_mask other_mask : MaskClass

pub data Label : Type 0 where
  background face hair top pants arms hands legs feet torso : Label

abbrev pub label_eq : Label → Label → Bool
label_eq background background = true
label_eq face face = true
label_eq hair hair = true
label_eq top top = true
label_eq pants pants = true
label_eq arms arms = true
label_eq hands hands = true
label_eq legs legs = true
label_eq feet feet = true
label_eq torso torso = true
label_eq _ _ = false

pub data Coord : Type 0 where
  negative : Coord
  at : ℕ → Coord

pub record Point : Type 0 where
  pub x : Coord
  pub y : Coord

pub record Pose : Type 0 where
  pub candidate : List Point
  pub subset : List Bool
  pub hand_points : List (List Point)

pub record Frac : Type 0 where
  pub num : ℕ
  pub den : ℕ

-- The two horizontal lines, and the horizontal ranges of shoulders and hips.
pub record Lines : Type 0 where
  pub y_shoulder : Option Frac
  pub y_hip : Option Frac
  pub x_range_shoulder : Option (ℕ × ℕ)
  pub x_range_hip : Option (ℕ × ℕ)

-- `list[i]`, none where it raises IndexError.
abbrev pub get_item {ℓ} : {A : Type ℓ} → List A → ℕ → Option A
get_item [] i = none
get_item (a ∷ rest) zero = some a
get_item (a ∷ rest) (suc i) = get_item rest i

-- Both parts, or none if one raises.
abbrev pub both {ℓ} : {A B : Type ℓ} → Option A → Option B → Option (A × B)
both none b = none
both (some a) none = none
both (some a) (some b) = some (a, b)

abbrev pub no_lines : Lines
no_lines = record { y_shoulder = none; y_hip = none; x_range_shoulder = none; x_range_hip = none }

-- A call of `_carve_at_point` with a point that is not negative.
pub record Carve : Type 0 where
  pub cx : ℕ
  pub cy : ℕ
  pub from_id : Label
  pub to_id : Label

abbrev pub carve_at : Coord → Coord → Label → Label → List Carve
carve_at negative y a b = []
carve_at (at cx) negative a b = []
carve_at (at cx) (at cy) a b = record { cx = cx; cy = cy; from_id = a; to_id = b } ∷ []

abbrev pub carve_found : List Point → ℕ → Label → Label → Bool → Option (List Carve)
carve_found candidate i a b false = some []
carve_found candidate i a b true = elim (get_item candidate i) [
  | none ↦ none
  | some p ↦ some (carve_at p.x p.y a b)
]

-- `_carve_local`
abbrev pub carve_local : Pose → ℕ → Label → Label → Option (List Carve)
carve_local pose i a b = elim (get_item pose.subset i) [
  | none ↦ none
  | some found ↦ carve_found pose.candidate i a b found
]

-- The hands up to the first that has no points, whose IndexError is caught.
abbrev pub carve_hands : List (List Point) → List Carve
carve_hands [] = []
carve_hands ([] ∷ rest) = []
carve_hands ((wrist ∷ points) ∷ rest) = carve_at wrist.x wrist.y arms hands ++ carve_hands rest

-- Carvings made one after the other; one that raises ends them all.
abbrev pub in_turn : Option (List Carve) → Option (List Carve) → Option (List Carve)
in_turn none rest = none
in_turn (some cs) none = none
in_turn (some cs) (some rest) = some (cs ++ rest)

abbrev pub ankle : Pose → ℕ → Option (List Carve)
ankle pose i = in_turn (carve_local pose i legs feet) (carve_local pose i pants feet)

unfoldable pub carves : Pose → Option (List Carve)
carves pose = in_turn (carve_local pose 4 arms hands) (
    in_turn (carve_local pose 7 arms hands)
      (in_turn (some (carve_hands pose.hand_points)) (in_turn (ankle pose 10) (ankle pose 13))))

module _ (unit : ℕ) where
  -- `_clamp01(value) * size`, over `unit`.
  abbrev pub clamped : ℕ → Coord → ℕ
  clamped size negative = 0
  clamped size (at n) = min n unit * size

  -- One side of `_line_y` or `_line_x_range`: no value if the keypoint was not found.
  abbrev pub side_of : (Point → Coord) → ℕ → List Point → ℕ → Bool → Option (List ℕ)
  side_of axis size candidate i false = some []
  side_of axis size candidate i true = elim (get_item candidate i) [
    | none ↦ none
    | some p ↦ some (clamped size (axis p) ∷ [])
  ]

  abbrev pub side : (Point → Coord) → ℕ → Pose → ℕ → Option (List ℕ)
  side axis size pose i = elim (get_item pose.subset i) [
    | none ↦ none
    | some found ↦ side_of axis size pose.candidate i found
  ]

  abbrev pub appended : Option (List ℕ × List ℕ) → Option (List ℕ)
  appended none = none
  appended (some (a, b)) = some (a ++ b)

  abbrev pub sides : (Point → Coord) → ℕ → Pose → ℕ → ℕ → Option (List ℕ)
  sides axis size pose a b = appended (both (side axis size pose a) (side axis size pose b))

  -- `np.mean` of one or two values.
  abbrev pub mean : List ℕ → Option Frac
  mean [] = none
  mean (a ∷ []) = some (record { num = a; den = unit })
  mean (a ∷ b ∷ rest) = some (record { num = a + b; den = 2 * unit })

  abbrev pub range_of : List ℕ → Option (ℕ × ℕ)
  range_of [] = none
  range_of (a ∷ []) = some (a, a)
  range_of (a ∷ b ∷ rest) = some (min a b, max a b)

  abbrev pub lines_from : Option ((List ℕ × List ℕ) × (List ℕ × List ℕ)) → Option Lines
  lines_from none = none
  lines_from (some ((ys, yh), (xs, xh))) = some (record {
    y_shoulder = mean ys;
    y_hip = mean yh;
    x_range_shoulder = range_of xs;
    x_range_hip = range_of xh;
  })

  -- The `try` of `_compose_label_map`: none where the pose is malformed.
  unfoldable pub find_lines : Pose → ℕ → ℕ → Option Lines
  find_lines pose h w = lines_from (
      both (both (sides (λ p. p.y) h pose 2 5) (sides (λ p. p.y) h pose 8 11))
        (both (sides (λ p. p.x) w pose 2 5) (sides (λ p. p.x) w pose 8 11)))

  abbrev pub is_above : ℕ → Frac → Bool
  is_above y line = ltb (y * line.den) line.num

  abbrev pub is_below : ℕ → Frac → Bool
  is_below y line = ltb line.num (y * line.den)

  abbrev pub clothes_label : Option Frac → ℕ → Label
  clothes_label none y = top
  clothes_label (some hip) y = if is_above y hip then top else pants

  abbrev pub band_label : Frac → Frac → ℕ × ℕ → ℕ × ℕ → ℕ → ℕ → Label
  band_label shoulder hip (xs, xs') (xh, xh') y x =
      if is_below y hip
      then legs
      else if is_above y shoulder
      then torso
      else if leb (min xs xh) (x * unit) && leb (x * unit) (max xs' xh')
      then torso
      else arms

  abbrev pub skin_label :
      Option Frac → Option Frac → Option (ℕ × ℕ) → Option (ℕ × ℕ) → ℕ → ℕ → Label
  skin_label (some shoulder) (some hip) (some xs) (some xh) y x = band_label shoulder hip xs xh y x
  skin_label none hip xs xh y x = torso
  skin_label (some shoulder) none xs xh y x = torso
  skin_label (some shoulder) (some hip) none xh y x = torso
  skin_label (some shoulder) (some hip) (some xs) none y x = torso

  -- The map before the carving.
  unfoldable pub coarse_label : Lines → MaskClass → ℕ → ℕ → Label
  coarse_label lines background_mask y x = background
  coarse_label lines other_mask y x = background
  coarse_label lines hair_mask y x = hair
  coarse_label lines face_skin_mask y x = face
  coarse_label lines clothes_mask y x = clothes_label lines.y_hip y
  coarse_label lines body_skin_mask y x =
      skin_label lines.y_shoulder lines.y_hip lines.x_range_shoulder lines.x_range_hip y x

  abbrev pub distance : ℕ → ℕ → ℕ
  distance a b = (a - b) + (b - a)

  -- At most 0.06 of the height away: the squares over `unit`, times 10000.
  abbrev pub is_near : ℕ → ℕ → Carve → ℕ → ℕ → Bool
  is_near h w c y x =
      let dx = distance (x * unit) (c.cx * w) in
      let dy = distance (y * unit) (c.cy * h) in
      leb (10000 * (dx * dx + dy * dy)) (6 * h * unit * (6 * h * unit))

  -- The assignments of the carving, in order, on one pixel.
  unfoldable pub carve_all : ℕ → ℕ → List Carve → ℕ → ℕ → Label → Label
  carve_all h w [] y x label = label
  carve_all h w (c ∷ carves) y x label =
      carve_all h w carves y x
        (if is_near h w c y x && label_eq label c.from_id then c.to_id else label)

  abbrev pub label_map : ℕ → ℕ → Lines → List Carve → (ℕ → ℕ → MaskClass) → ℕ → ℕ → Label
  label_map h w lines cs mask y x = carve_all h w cs y x (coarse_label lines (mask y x) y x)

  -- The carving is skipped for a malformed pose; otherwise its error is not caught.
  abbrev pub compose_from :
      ℕ → ℕ → (ℕ → ℕ → MaskClass) → Option Lines → Option (List Carve) → Option (ℕ → ℕ → Label)
  compose_from h w mask none carved = some (label_map h w no_lines [] mask)
  compose_from h w mask (some lines) none = none
  compose_from h w mask (some lines) (some cs) = some (label_map h w lines cs mask)

  -- `_compose_label_map`: the label of the pixel at a row and a column, none where it raises.
  unfoldable pub compose_label_map : ℕ → ℕ → (ℕ → ℕ → MaskClass) → Pose → Option (ℕ → ℕ → Label)
  compose_label_map h w mask pose = compose_from h w mask (find_lines pose h w) (carves pose)
