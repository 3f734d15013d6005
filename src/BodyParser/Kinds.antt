-- ===== src/BodyParser/Kinds.antt =====
-- The kind of a pixel survives, and complete poses never raise.
use ai_virtual_try_on.Prelude.{
  ℕ, zero, suc, ◌≤◌, ◌<◌, ◌≡◌, refl, subst, Bool, true, false, ◌&&◌, Option, none, some, List, [],
  ◌∷◌, ◌++◌, length, All, arith, if◌then◌else◌, Bool-cases, inl, inr,
}
use ai_virtual_try_on.BodyParser.{
  MaskClass, background_mask, hair_mask, body_skin_mask, face_skin_mask, clothes_mask, other_mask,
  Label, background, face, hair, top, pants, arms, hands, legs, feet, torso, label_eq, Coord,
  negative, at, Point, Pose, Frac, Lines, get_item, find_lines, clothes_label, skin_label, no_lines,
  coarse_label, Carve, is_near, carve_all, carve_at, carve_found, carve_local, carve_hands, in_turn,
  ankle, carves, compose_from, compose_label_map,
}

-- The labels that a pixel of the mask's class may have.
abbrev pub suits : MaskClass → Label → Bool
suits background_mask background = true
suits other_mask background = true
suits hair_mask hair = true
suits face_skin_mask face = true
suits clothes_mask top = true
suits clothes_mask pants = true
suits clothes_mask feet = true
suits body_skin_mask torso = true
suits body_skin_mask arms = true
suits body_skin_mask hands = true
suits body_skin_mask legs = true
suits body_skin_mask feet = true
suits _ _ = false

clothes-suits :
    (unit : ℕ) (hip : Option Frac) (y : ℕ) → suits clothes_mask (clothes_label unit hip y) ≡ true
clothes-suits unit none y = refl
clothes-suits unit (some hip) y = ground arith

skin-suits :
    (unit : ℕ) (shoulder hip : Option Frac) (xs xh : Option (ℕ × ℕ)) (y x : ℕ)
    → suits body_skin_mask (skin_label unit shoulder hip xs xh y x) ≡ true
skin-suits unit none hip xs xh y x = refl
skin-suits unit (some s) none xs xh y x = refl
skin-suits unit (some s) (some t) none xh y x = refl
skin-suits unit (some s) (some t) (some xs) none y x = refl
skin-suits unit (some s) (some t) (some (a, a')) (some (b, b')) y x = ground arith

coarse-suits :
    (unit : ℕ) (lines : Lines) (m : MaskClass) (y x : ℕ)
    → suits m (coarse_label unit lines m y x) ≡ true
unfolding coarse_label
coarse-suits unit lines background_mask y x = refl
coarse-suits unit lines other_mask y x = refl
coarse-suits unit lines hair_mask y x = refl
coarse-suits unit lines face_skin_mask y x = refl
coarse-suits unit lines clothes_mask y x = clothes-suits unit lines.y_hip y
coarse-suits unit lines body_skin_mask y x =
    skin-suits unit lines.y_shoulder lines.y_hip lines.x_range_shoulder lines.x_range_hip y x

-- What is carved out of what: the end of a limb, wherever the limb itself may be.
abbrev IsLimb : Label → Label → Type 0
IsLimb a b = (m : MaskClass) → suits m a ≡ true → suits m b ≡ true

arms-IsLimb : IsLimb arms hands
arms-IsLimb m h = ground arith

legs-IsLimb : IsLimb legs feet
legs-IsLimb m h = ground arith

pants-IsLimb : IsLimb pants feet
pants-IsLimb m h = ground arith

label_eq_lem : (a b : Label) → label_eq a b ≡ true → a ≡ b
label_eq_lem a b h = ground arith

abbrev Limbs : List Carve → Type 0
Limbs = All (λ c. IsLimb c.from_id c.to_id)

carve-suits :
    (m : MaskClass) (label : Label) (c : Carve) (near : Bool)
    → IsLimb c.from_id c.to_id
    → suits m label ≡ true
    → suits m (if near && label_eq label c.from_id then c.to_id else label) ≡ true
carve-suits m label c false limb h = h
carve-suits m label c true limb h = elim (Bool-cases (label_eq label c.from_id)) [
  | inr other ↦ rw other h
  | inl same ↦
      rw same (limb m (subst (λ l. suits m l ≡ true) (label_eq_lem label c.from_id same) h))
]

carve_all-suits :
    (unit h w : ℕ) (cs : List Carve) (y x : ℕ) (m : MaskClass) (label : Label)
    → Limbs cs
    → suits m label ≡ true
    → suits m (carve_all unit h w cs y x label) ≡ true
unfolding carve_all
carve_all-suits unit h w [] y x m label limbs s = s
carve_all-suits unit h w (c ∷ cs) y x m label limbs s =
    carve_all-suits unit h w cs y x m _ limbs.1
      (carve-suits m label c (is_near unit h w c y x) limbs.0 s)

append-Limbs : (cs ds : List Carve) → Limbs cs → Limbs ds → Limbs (cs ++ ds)
append-Limbs [] ds c d = d
append-Limbs (x ∷ cs) ds c d = (c.0, append-Limbs cs ds c.1 d)

carve_at-Limbs : (x y : Coord) (a b : Label) → IsLimb a b → Limbs (carve_at x y a b)
carve_at-Limbs negative y a b limb = tt
carve_at-Limbs (at cx) negative a b limb = tt
carve_at-Limbs (at cx) (at cy) a b limb = (limb, tt)

carve_hands-Limbs : (hs : List (List Point)) → Limbs (carve_hands hs)
carve_hands-Limbs [] = tt
carve_hands-Limbs ([] ∷ rest) = tt
carve_hands-Limbs ((wrist ∷ points) ∷ rest) =
    append-Limbs _ _ (carve_at-Limbs wrist.x wrist.y arms hands arms-IsLimb)
      (carve_hands-Limbs rest)

-- Carvings that were all made, if they were.
abbrev Carved : Option (List Carve) → Type 0
Carved none = Unit
Carved (some cs) = Limbs cs

in_turn-Carved : (a b : Option (List Carve)) → Carved a → Carved b → Carved (in_turn a b)
in_turn-Carved none b ca cb = tt
in_turn-Carved (some cs) none ca cb = tt
in_turn-Carved (some cs) (some ds) ca cb = append-Limbs cs ds ca cb

found-Carved :
    (p : Option Point) (a b : Label)
    → IsLimb a b
    → Carved (elim p [ none ↦ none | some p ↦ some (carve_at p.x p.y a b) ])
found-Carved none a b limb = tt
found-Carved (some p) a b limb = carve_at-Limbs p.x p.y a b limb

seen-Carved :
    (f : Option Bool) (candidate : List Point) (i : ℕ) (a b : Label)
    → IsLimb a b
    → Carved (elim f [ none ↦ none | some f ↦ carve_found candidate i a b f ])
seen-Carved none candidate i a b limb = tt
seen-Carved (some false) candidate i a b limb = tt
seen-Carved (some true) candidate i a b limb = found-Carved (get_item candidate i) a b limb

local-Carved : (pose : Pose) (i : ℕ) (a b : Label) → IsLimb a b → Carved (carve_local pose i a b)
local-Carved pose i a b limb = seen-Carved (get_item pose.subset i) pose.candidate i a b limb

ankle-Carved : (pose : Pose) (i : ℕ) → Carved (ankle pose i)
ankle-Carved pose i =
    in_turn-Carved _ _ (local-Carved pose i legs feet legs-IsLimb)
      (local-Carved pose i pants feet pants-IsLimb)

carves-Carved : (pose : Pose) → Carved (carves pose)
unfolding carves
carves-Carved pose = in_turn-Carved _ _ (local-Carved pose 4 arms hands arms-IsLimb) (
    in_turn-Carved _ _ (local-Carved pose 7 arms hands arms-IsLimb) (
      in_turn-Carved (some (carve_hands pose.hand_points)) _ (carve_hands-Limbs pose.hand_points)
        (in_turn-Carved _ _ (ankle-Carved pose 10) (ankle-Carved pose 13))))

get_item-some {ℓ} :
    {A : Type ℓ} (xs : List A) (i : ℕ) → i < length xs → (a : A) × (get_item xs i ≡ some a)
get_item-some [] i h = absurd (omega arith)
get_item-some (x ∷ xs) zero h = (x, refl)
get_item-some (x ∷ xs) (suc i) h = get_item-some xs i (omega arith)

-- A pose with all its keypoints up to the ankles.
abbrev pub IsFull : Pose → Type 0
IsFull pose = (14 ≤ length pose.candidate) × (14 ≤ length pose.subset)

found-some :
    (candidate : List Point) (i : ℕ) (a b : Label) (found : Bool)
    → i < length candidate
    → (cs : List Carve) × (carve_found candidate i a b found ≡ some cs)
found-some candidate i a b false h = ([], refl)
found-some candidate i a b true h =
    let (p, e) = get_item-some candidate i h in (carve_at p.x p.y a b, ground (arith, e))

local-some :
    (pose : Pose) (i : ℕ) (a b : Label)
    → i < 14
    → IsFull pose
    → (cs : List Carve) × (carve_local pose i a b ≡ some cs)
local-some pose i a b h full =
    let (f, e) = get_item-some pose.subset i (omega (arith, full.1)) in
    let (cs, d) = found-some pose.candidate i a b f (omega (arith, full.0)) in
    (cs, ground (arith, e, d))

in_turn-some :
    (a b : Option (List Carve))
    → ((cs : List Carve) × (a ≡ some cs))
    → ((cs : List Carve) × (b ≡ some cs))
    → (cs : List Carve) × (in_turn a b ≡ some cs)
in_turn-some a b (cs, e) (ds, d) = (cs ++ ds, rw e (rw d refl))

ankle-some :
    (pose : Pose) (i : ℕ) → i < 14 → IsFull pose → (cs : List Carve) × (ankle pose i ≡ some cs)
ankle-some pose i h full =
    in_turn-some _ _ (local-some pose i legs feet h full) (local-some pose i pants feet h full)

carves-some : (pose : Pose) → IsFull pose → (cs : List Carve) × (carves pose ≡ some cs)
unfolding carves
carves-some pose full = in_turn-some _ _ (local-some pose 4 arms hands (omega arith) full) (
    in_turn-some _ _ (local-some pose 7 arms hands (omega arith) full) (
      in_turn-some _ _ (carve_hands pose.hand_points, refl)
        (in_turn-some _ _ (ankle-some pose 10 (omega arith) full)
          (ankle-some pose 13 (omega arith) full))))

composed :
    (unit h w : ℕ) (mask : ℕ → ℕ → MaskClass) (cs : List Carve)
    → Limbs cs
    → (y x : ℕ) (lines : Option Lines)
    → (labels : ℕ → ℕ → Label) × (compose_from unit h w mask lines (some cs) ≡ some labels)
      × (suits (mask y x) (labels y x) ≡ true)
composed unit h w mask cs limbs y x none = (
  _,
  refl,
  carve_all-suits unit h w [] y x (mask y x) _ tt (coarse-suits unit no_lines (mask y x) y x),
)
composed unit h w mask cs limbs y x (some lines) = (
  _,
  refl,
  carve_all-suits unit h w cs y x (mask y x) _ limbs (coarse-suits unit lines (mask y x) y x),
)

-- For a pose with all its keypoints the map is made, and each pixel keeps its kind: background stays
-- background, hair hair and face face; clothes become top, pants or feet, and body skin torso, arms,
-- hands, legs or feet.
pub compose_label_map_lem :
    (unit h w : ℕ) (mask : ℕ → ℕ → MaskClass) (pose : Pose)
    → 14 ≤ length pose.candidate
    → 14 ≤ length pose.subset
    → (y x : ℕ)
    → (labels : ℕ → ℕ → Label) × (compose_label_map unit h w mask pose ≡ some labels)
      × (suits (mask y x) (labels y x) ≡ true)
unfolding compose_label_map
compose_label_map_lem unit h w mask pose c f y x =
    let (cs, e) = carves-some pose (c, f) in
    rw e (
      composed unit h w mask cs (subst Carved e (carves-Carved pose)) y x
        (find_lines unit pose h w))
