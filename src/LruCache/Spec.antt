-- ===== src/LruCache/Spec.antt =====
-- The cache as it is meant: one list of pairs with distinct keys, most recently used first.
use ice_log.Prelude.{ℕ, ◌+◌, ◌%◌, leb, length, List, [], ◌∷◌, none, some, Bool, if◌then◌else◌, take}
use ice_log.Prelude.Words.{u64_mod}
use ice_log.UnorderedMap.{find, erase}

module _ {K V : Type 0} (dec : Discrete K) where
  -- A read moves the pair to the front.
  abbrev pub get_spec : K → List (K × V) → List (K × V)
  get_spec key l = elim (find dec key l) [ none ↦ l | some v ↦ (key, v) ∷ erase dec key l ]

  -- A read counts as a hit or as a miss.
  abbrev pub hits_spec : K → List (K × V) → ℕ → ℕ
  hits_spec key l hits = elim (find dec key l) [ none ↦ hits | some v ↦ (hits + 1) % u64_mod ]

  abbrev pub misses_spec : K → List (K × V) → ℕ → ℕ
  misses_spec key l misses = elim (find dec key l) [
    | none ↦ (misses + 1) % u64_mod
    | some v ↦ misses
  ]

  -- A write of a new key into a full cache evicts.
  abbrev pub evictions_spec : ℕ → K → List (K × V) → ℕ → ℕ
  evictions_spec capacity key l evictions = elim (find dec key l) [
    | none ↦ if leb capacity (length l) then (evictions + 1) % u64_mod else evictions
    | some v ↦ evictions
  ]

  -- A write puts the pair in front, and keeps as many as fit.
  abbrev pub put_spec : ℕ → K → V → List (K × V) → List (K × V)
  put_spec capacity key value l = take capacity ((key, value) ∷ erase dec key l)

module _ {K V : Type 0} where
  -- The pairs whose key does not satisfy the test.
  unfoldable pub without : (K → Bool) → List (K × V) → List (K × V)
  without pred [] = []
  without pred (e ∷ l) = if pred e.0 then without pred l else e ∷ without pred l
