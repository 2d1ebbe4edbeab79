-- ===== src/UnorderedSet.antt =====
-- std::unordered_set of numbers as the sources use it: a list with each element once.
use ice_log.Prelude.{ℕ, ◌≡◌, refl, List, [], ◌∷◌, arith, Bool, true, false, ◌==◌, if◌then◌else◌}

-- `s.count(x) > 0`
unfoldable pub contains : ℕ → List ℕ → Bool
contains x [] = false
contains x (y ∷ s) = if y == x then true else contains x s

-- `s.insert(x)`
unfoldable pub insert : ℕ → List ℕ → List ℕ
insert x s = if contains x s then s else x ∷ s

-- `s.erase(x)`
unfoldable pub erase : ℕ → List ℕ → List ℕ
erase x [] = []
erase x (y ∷ s) = let rest = erase x s in if y == x then rest else y ∷ rest

pub contains-insert :
    (j x : ℕ) (s : List ℕ) → contains j (insert x s) ≡ (if x == j then true else contains j s)
unfolding insert contains
contains-insert j x [] = refl
contains-insert j x (y ∷ s) = ground (arith, contains-insert j x s)

pub contains-erase :
    (j x : ℕ) (s : List ℕ) → contains j (erase x s) ≡ (if x == j then false else contains j s)
unfolding erase contains
contains-erase j x [] = ground arith
contains-erase j x (y ∷ s) = ground (arith, contains-erase j x s)
