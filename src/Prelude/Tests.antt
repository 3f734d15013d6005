-- ===== src/Prelude/Tests.antt =====
-- Boolean tests on native numbers and on optional values, the conditional, and case splits that
-- keep their equation.
use Prim.Native.Nat.{ℕ, ◌≤◌, ◌<◌, compare, Ordering}
use Prim.Native.String.{String}
use mathlib.Core.Path.{◌≡◌, refl}
use mathlib.Core.Logic.{◌⊎◌, inl, inr}
use mathlib.Core.Bool.{Bool, true, false}
use mathlib.Core.Option.{Option, none, some}
use native.Mathlib.Omega.{arith}
use text.Mathlib.Text.{◌==◌ as str_eq}
use text.Mathlib.TextEquality.{eq_iff}

abbrev pub ltb : ℕ → ℕ → Bool
ltb a b = elim (compare a b) [ Ordering.lt ↦ true | _ ↦ false ]

abbrev pub leb : ℕ → ℕ → Bool
leb a b = elim (compare a b) [ Ordering.gt ↦ false | _ ↦ true ]

infix 50 ◌==◌
abbrev pub ◌==◌ : ℕ → ℕ → Bool
a == b = elim (compare a b) [ Ordering.eq ↦ true | _ ↦ false ]

infix 1 if◌then◌else◌
abbrev pub if◌then◌else◌ {ℓ} : {A : Type ℓ} → Bool → A → A → A
if true then x else y = x
if false then x else y = y

-- Python's `a is not None`.
abbrev pub is_some {ℓ} : {A : Type ℓ} → Option A → Bool
is_some none = false
is_some (some a) = true

-- A column or attribute that may be `None` compared with a value: `None` equals no value, in
-- Python and in SQL.
abbrev pub has_text : Option String → String → Bool
has_text none t = false
has_text (some s) t = str_eq s t

abbrev pub has_number : Option ℕ → ℕ → Bool
has_number none n = false
has_number (some m) n = m == n

-- Two values that may both be `None`, compared by Python's `==`.
abbrev pub opt_number_eq : Option ℕ → Option ℕ → Bool
opt_number_eq none none = true
opt_number_eq none (some n) = false
opt_number_eq (some m) none = false
opt_number_eq (some m) (some n) = m == n

abbrev pub opt_text_eq : Option String → Option String → Bool
opt_text_eq none none = true
opt_text_eq none (some n) = false
opt_text_eq (some m) none = false
opt_text_eq (some m) (some n) = str_eq m n

pub Bool-cases : (b : Bool) → (b ≡ true) ⊎ (b ≡ false)
Bool-cases true = inl refl
Bool-cases false = inr refl

pub Option-cases {ℓ} : {A : Type ℓ} (o : Option A) → (o ≡ none) ⊎ ((a : A) × (o ≡ some a))
Option-cases none = inl refl
Option-cases (some a) = inr (a, refl)

pub str_eq_self : (s : String) → str_eq s s ≡ true
str_eq_self s = (eq_iff s s).1 refl

pub has_text_iff : (o : Option String) (t : String) → has_text o t ≡ true → o ≡ some t
has_text_iff none t h = ground arith
has_text_iff (some s) t h = ground (arith, eq_iff s t)

pub ltb→lt : (a b : ℕ) → ltb a b ≡ true → a < b
ltb→lt a b h = ground arith

pub leb→le : (a b : ℕ) → leb a b ≡ true → a ≤ b
leb→le a b h = ground arith
