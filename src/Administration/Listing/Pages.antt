-- ===== src/Administration/Listing/Pages.antt =====
-- The bound of a page.
use ai_virtual_try_on.Prelude.{ℕ, zero, suc, ◌≤◌, List, [], ◌∷◌, length, arith}
use ai_virtual_try_on.Administration.Listing.{take}

module _ {A : Type 0} where
  pub length-take-le : (n : ℕ) (xs : List A) → length (take n xs) ≤ n
  length-take-le zero xs = omega arith
  length-take-le (suc n) [] = omega arith
  length-take-le (suc n) (x ∷ xs) = omega (arith, length-take-le n xs)
