-- ===== src/Tests/Masks.antt =====
-- A standing figure, 10 pixels high and wide, in hundredths.
use ai_virtual_try_on.Prelude.{
  ℕ, ◌≡◌, refl, Bool, true, false, Option, none, some, List, [], ◌∷◌, ◌++◌, arith,
}
use ai_virtual_try_on.BodyParser.{
  MaskClass, clothes_mask, Label, feet, top, pants, torso, at, negative, Point, Pose, find_lines,
  carves, coarse_label, carve_all, compose_label_map,
}
use ai_virtual_try_on.BodyParser.Kinds.{suits, compose_label_map_lem}

abbrev point : ℕ → ℕ → Point
point x y = record { x = at x; y = at y }

abbrev nowhere : Point
nowhere = record { x = negative; y = negative }

-- The keypoints 0 to 11: shoulders at 30, wrists and hips at 60 hundredths of the height.
abbrev upper_body : List Point
upper_body =
    point 50 10
    ∷ point 50 20
    ∷ point 40 30
    ∷ nowhere
    ∷ point 30 60
    ∷ point 60 30
    ∷ nowhere
    ∷ point 70 60
    ∷ point 40 60
    ∷ nowhere
    ∷ point 40 95
    ∷ point 60 60
    ∷ []

abbrev seen : List Bool
seen = true ∷ true ∷ true ∷ false ∷ true ∷ true ∷ false ∷ true ∷ true ∷ false ∷ true ∷ true ∷ []

abbrev pose : Pose
pose = record {
  candidate = upper_body ++ nowhere ∷ point 60 95 ∷ [];
  subset = seen ++ false ∷ true ∷ [];
  hand_points = [];
}

abbrev dressed : ℕ → ℕ → MaskClass
dressed y x = clothes_mask

compose_label_map_lem_example :
    (labels : ℕ → ℕ → Label) × (compose_label_map 100 10 10 dressed pose ≡ some labels)
    × (suits clothes_mask (labels 9 4) ≡ true)
compose_label_map_lem_example =
    compose_label_map_lem 100 10 10 dressed pose (omega arith) (omega arith) 9 4

abbrev label_at : Option (ℕ → ℕ → Label) → ℕ → ℕ → Label
label_at none y x = torso
label_at (some labels) y x = labels y x

-- A boot at the ankle is feet, a leg above it pants, a shirt top.
boot : label_at (compose_label_map 100 10 10 dressed pose) 9 4 ≡ feet
unfolding compose_label_map find_lines carves coarse_label carve_all
boot = refl

trousers : label_at (compose_label_map 100 10 10 dressed pose) 7 4 ≡ pants
unfolding compose_label_map find_lines carves coarse_label carve_all
trousers = refl

shirt : label_at (compose_label_map 100 10 10 dressed pose) 3 4 ≡ top
unfolding compose_label_map find_lines carves coarse_label carve_all
shirt = refl

-- An array that ends after the hips gives lines, but the carving at the left ankle raises.
truncated_raises :
    compose_label_map 100 10 10 dressed
      (record { candidate = upper_body; subset = seen; hand_points = [] })
    ≡ none
unfolding compose_label_map find_lines carves
truncated_raises = refl
