-- ===== src/UnorderedMap.antt =====
-- std::unordered_map as the sources use it: an association list with one entry to a key.
-- The list's order stands for the unspecified iteration order.
use ice_log.Prelude.{◌+◌, ◌≡◌, refl, ◌≢◌, ite, List, [], ◌∷◌, Option, none, some, arith, length}

-- One entry to a key.
module _ {ℓ} {K V : Type ℓ} (dec : Discrete K) where
  -- `m.find(key)`, with `none` for `m.end()`.
  unfoldable pub find : K → List (K × V) → Option V
  find key [] = none
  find key ((k, v) ∷ m) = ite (dec k key) (some v) (find key m)

  -- `m[key] = value`
  unfoldable pub assign : K → V → List (K × V) → List (K × V)
  assign key value [] = (key, value) ∷ []
  assign key value ((k, v) ∷ m) = ite (dec k key) ((k, value) ∷ m) ((k, v) ∷ assign key value m)

  -- `m.erase(key)`
  unfoldable pub erase : K → List (K × V) → List (K × V)
  erase key [] = []
  erase key ((k, v) ∷ m) = ite (dec k key) m ((k, v) ∷ erase key m)

  abbrev pub Distinct : List (K × V) → Type ℓ
  Distinct [] = Unit
  Distinct (e ∷ m) = (find e.0 m ≡ none) × Distinct m

  pub find-assign :
      (j key : K) (value : V) (m : List (K × V))
      → find j (assign key value m) ≡ ite (dec key j) (some value) (find j m)
  unfolding find assign
  find-assign j key value [] = refl
  find-assign j key value ((k, v) ∷ m) = ground (arith, find-assign j key value m)

  pub find-erase_ne : (j key : K) (m : List (K × V)) → j ≢ key → find j (erase key m) ≡ find j m
  unfolding find erase
  find-erase_ne j key [] h = refl
  find-erase_ne j key ((k, v) ∷ m) h = ground (arith, find-erase_ne j key m)

  pub find-erase_self : (key : K) (m : List (K × V)) → Distinct m → find key (erase key m) ≡ none
  unfolding find erase
  find-erase_self key [] h = refl
  find-erase_self key ((k, v) ∷ m) h = ground (arith, find-erase_self key m h.1)

  pub find-erase-none :
      (j key : K) (m : List (K × V)) → find j m ≡ none → find j (erase key m) ≡ none
  unfolding find erase
  find-erase-none j key [] h = refl
  find-erase-none j key ((k, v) ∷ m) h = ground (arith, find-erase-none j key m)

  pub erase-Distinct : (key : K) (m : List (K × V)) → Distinct m → Distinct (erase key m)
  unfolding erase
  erase-Distinct key [] h = h
  erase-Distinct key ((k, v) ∷ m) h =
      ground (arith, erase-Distinct key m h.1, find-erase-none k key m h.0)

  pub assign-Distinct :
      (key : K) (value : V) (m : List (K × V)) → Distinct m → Distinct (assign key value m)
  unfolding assign find
  assign-Distinct key value [] h = (refl, tt)
  assign-Distinct key value ((k, v) ∷ m) h =
      ground (arith, assign-Distinct key value m h.1, find-assign k key value m)

  -- An erased entry is one entry less.
  pub length-erase :
      (key : K) (m : List (K × V)) (v : V)
      → find key m ≡ some v
      → length (erase key m) + 1 ≡ length m
  unfolding find erase
  length-erase key [] v h = cc
  length-erase key ((k, w) ∷ m) v h = ground (arith, length-erase key m v)

  pub length-assign_new :
      (key : K) (value : V) (m : List (K × V))
      → find key m ≡ none
      → length (assign key value m) ≡ length m + 1
  unfolding find assign
  length-assign_new key value [] h = refl
  length-assign_new key value ((k, w) ∷ m) h = ground (arith, length-assign_new key value m)
