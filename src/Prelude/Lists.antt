-- ===== src/Prelude/Lists.antt =====
-- Predicates by recursion on lists, and lists measured by native numbers, under the library's names.
use native.Mathlib.Omega.{arith}
use mathlib.Core.List.{List, [], ◌∷◌, map}
use mathlib.Core.Path.{◌≡◌, refl, ap}
use Prim.Native.Nat.{ℕ, zero, suc, ◌≤◌}

-- To hold everywhere; a tuple of what holds at each place.
abbrev pub All {ℓ κ} : {T : Type ℓ} → (T → Type κ) → List T → Type κ
All holds [] = Unit
All holds (a ∷ l) = holds a × All holds l

abbrev pub length {ℓ} : {T : Type ℓ} → List T → ℕ
length [] = 0
length (a ∷ l) = suc (length l)

pub length-map {ℓ κ} :
    {T : Type ℓ} {R : Type κ} (l : List T) (g : T → R) → length (map g l) ≡ length l
length-map [] g = refl
length-map (a ∷ l) g = ap suc (length-map l g)

-- No more than n elements.
abbrev pub take {ℓ} : {T : Type ℓ} → ℕ → List T → List T
take zero l = []
take (suc n) [] = []
take (suc n) (a ∷ l) = a ∷ take n l

module _ {ℓ} {T : Type ℓ} where
  pub take_of_length-le : (n : ℕ) (l : List T) → length l ≤ n → take n l ≡ l
  take_of_length-le n [] fits = nothing n
    where
      nothing : (n : ℕ) → take {T = T} n [] ≡ []
      nothing zero = refl
      nothing (suc n) = refl
  take_of_length-le zero (a ∷ l) fits = absurd (omega arith)
  take_of_length-le (suc n) (a ∷ l) fits = ap (◌∷◌ a) (take_of_length-le n l (omega arith))
