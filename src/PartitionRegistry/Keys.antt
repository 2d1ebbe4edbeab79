-- ===== src/PartitionRegistry/Keys.antt =====
-- src/catalog/partition_registry.h and partition_registry.cpp: the keys of the cache, and the sweep of a table's keys.
use ice_log.Prelude.{
  ℕ, ◌≡◌, refl, ap, ◌∙◌, subst, List, [], ◌∷◌, ◌++◌, none, Bool, true, arith, if◌then◌else◌,
  Bool-cases, inl, inr,
}
use ice_log.Text.{Text, codes, text_discrete}
use ice_log.Text.Decimal.{to_string, to_string-injective, to_string-AllDigits, AllDigits}
use ice_log.Text.Laws.{has_prefix_iff}
use ice_log.Outcome.{ok}
use ice_log.UnorderedMap.{find}
use ice_log.LruCache.{invalidate_if}
use ice_log.LruCache.Nodes.{pairs}
use ice_log.LruCache.Spec.{without}
use ice_log.LruCache.Invariant.{IsValid}
use ice_log.LruCache.Sweep.{invalidate_if_lem}
use ice_log.PartitionRegistry.{Cache, make_cache_key, of_table}

-- A colon is no digit.
no_colon : (t d : Text) → ¬ AllDigits (t ++ b':' ∷ d)
no_colon [] d h = cc (h.0)
no_colon (a ∷ t) d h = no_colon t d h.1

-- A text is split at its last colon in one way.
last_colon :
    (s t d e : Text) → AllDigits d → AllDigits e → s ++ b':' ∷ d ≡ t ++ b':' ∷ e → (s ≡ t) × (d ≡ e)
last_colon [] [] d e hd he same = (refl, cc)
last_colon [] (b ∷ t) d e hd he same =
    let tail : d ≡ t ++ b':' ∷ e = cc in absurd (no_colon t e (subst AllDigits tail hd))
last_colon (a ∷ s) [] d e hd he same =
    let tail : e ≡ s ++ b':' ∷ d = cc in absurd (no_colon s d (subst AllDigits tail he))
last_colon (a ∷ s) (b ∷ t) d e hd he same =
    let rest = last_colon s t d e hd he cc in
    let head : a ≡ b = cc in (ground (arith, rest.0, head), rest.1)

-- Two keys are equal only if both the table and the snapshot are, whatever bytes the names of the tables have.
pub make_cache_key-injective :
    (table table' : Text) (snap snap' : ℕ)
    → make_cache_key table snap ≡ make_cache_key table' snap'
    → (table ≡ table') × (snap ≡ snap')
unfolding make_cache_key
make_cache_key-injective table table' snap snap' same =
    let split =
      last_colon table table' (to_string snap) (to_string snap') (to_string-AllDigits snap)
        (to_string-AllDigits snap') same in
    (split.0, to_string-injective snap snap' split.1)

append_assoc : (s t u : Text) → s ++ (t ++ u) ≡ (s ++ t) ++ u
append_assoc [] t u = refl
append_assoc (a ∷ s) t u = ap (◌∷◌ a) (append_assoc s t u)

-- The sweep takes every key of its table.
pub of_table-make_cache_key :
    (table : Text) (snap : ℕ) → of_table table (make_cache_key table snap) ≡ true
unfolding of_table make_cache_key
of_table-make_cache_key table snap =
    (has_prefix_iff _ _).1 (to_string snap, append_assoc table (codes ":") (to_string snap))

module _ {K V : Type 0} (dec : Discrete K) (pred : K → Bool) where
  -- A pair that is left is found as before, one that is dropped is not.
  pub find-without :
      (key : K) (l : List (K × V))
      → find dec key (without pred l) ≡ (if pred key then none else find dec key l)
  unfolding find without
  find-without key [] = ground arith
  find-without key ((k, v) ∷ l) = elim (dec k key) [
    | yes p ↦ elim (Bool-cases (pred key)) [
      | inl t ↦ ground (arith, find-without key l, ap pred p ∙ t)
      | inr f ↦ ground (arith, find-without key l, ap pred p ∙ f)
    ]
    | no p ↦ ground (arith, find-without key l)
  ]

-- The cache after a sweep of a table: valid, with the pairs of the table's keys gone and the others as they were.
abbrev pub IsSwept : Text → Cache → Cache → Type 0
IsSwept table cache cache' =
    IsValid text_discrete cache'
    × (pairs cache'.lru_list ≡ without (of_table table) (pairs cache.lru_list))
    × ((snap : ℕ) → find text_discrete (make_cache_key table snap) (pairs cache'.lru_list) ≡ none)

pub invalidate-IsSwept :
    (table : Text) (cache : Cache)
    → IsValid text_discrete cache
    → (cache' : Cache) × (removed : ℕ) × (invalidate_if cache (of_table table)
        ≡ ok (cache', removed))
      × IsSwept table cache cache'
invalidate-IsSwept table cache v =
    let (cache', removed, done, v', left, count, rest) =
      invalidate_if_lem text_discrete (of_table table) cache v in
    (
      cache',
      removed,
      done,
      (
        v',
        left,
        λ snap.
            ap (find text_discrete _) left
            ∙ find-without text_discrete (of_table table) (make_cache_key table snap)
                (pairs cache.lru_list)
            ∙ ap
                (λ b.
                  if b
                  then none
                  else find text_discrete (make_cache_key table snap) (pairs cache.lru_list))
                (of_table-make_cache_key table snap),
      ),
    )
