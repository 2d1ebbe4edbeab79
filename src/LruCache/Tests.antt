-- ===== src/LruCache/Tests.antt =====
-- Tests of the cache, and its theorems at concrete inputs.
use ice_log.Prelude.{ℕ, ◌+◌, ◌≡◌, refl, [], ◌∷◌, List, some, arith, ℕ_discrete, ◌==◌, length}
use ice_log.Outcome.{ok, undefined}
use ice_log.UnorderedMap.{find, assign, erase}
use ice_log.LruCache.{
  LruCache, init, node_at, unlink, pop_back, get, make_room, push_front, put, invalidate,
  invalidate_loop, invalidate_if, clear, size,
}
use ice_log.LruCache.Nodes.{pairs}
use ice_log.LruCache.Spec.{without}
use ice_log.LruCache.Invariant.{IsValid}
use ice_log.LruCache.Refine.{IsPut, get_lem, put_lem}
use ice_log.LruCache.Sweep.{invalidate_if_lem}
use ice_log.LruCache.History.{
  Call, gets, puts, step, run, run_spec, Refines, run-init-Refines, get-put, run_no_capacity,
}

program : Unit {0}
unfolding init node_at unlink pop_back get make_room push_front put invalidate invalidate_loop
    invalidate_if clear size find assign erase step run ℕ_discrete without
program = tt

-- Two keys in a cache of two: 1 was read after 2 was written.
abbrev two : LruCache ℕ ℕ
two = record {
  capacity = 2;
  lru_list = record { at = 0; key = 1; value = 10 } ∷ record { at = 1; key = 2; value = 20 } ∷ [];
  map = (1, 0) ∷ (2, 1) ∷ [];
  hit_count = 1;
  miss_count = 0;
  eviction_count = 0;
  next_node = 2;
}

abbrev calls : List (Call ℕ ℕ)
calls = puts 1 10 ∷ puts 2 20 ∷ gets 1 ∷ []

calls_give_two : run ℕ_discrete (init 2) calls ≡ ok two
unfolding program
calls_give_two = refl

two-IsValid : IsValid ℕ_discrete two
unfolding program
two-IsValid = record {
  positive = omega arith;
  bounded = omega arith;
  linear = (omega arith, refl, (omega arith, refl, tt));
  distinct = (refl, (refl, tt));
  map_distinct = (refl, (refl, tt));
  sized = refl;
  linked = λ key. refl;
}

-- A third key evicts 2, the least recently used.
evicts :
    run ℕ_discrete two (puts 3 30 ∷ gets 2 ∷ [])
    ≡ ok (record two {
      lru_list =
          record { at = 2; key = 3; value = 30 } ∷ record { at = 0; key = 1; value = 10 } ∷ [];
      map = (1, 0) ∷ (3, 2) ∷ [];
      miss_count = 1;
      eviction_count = 1;
      next_node = 3;
    })
unfolding program
evicts = refl

get_lem_example : get ℕ_discrete two 2 ≡ ok ((get_lem ℕ_discrete two 2 two-IsValid).0, some 20)
unfolding program
get_lem_example = (get_lem ℕ_discrete two 2 two-IsValid).1

put_lem_example :
    (c : LruCache ℕ ℕ) × (put ℕ_discrete two 3 30 ≡ ok c) × IsPut ℕ_discrete two 3 30 c
put_lem_example = put_lem ℕ_discrete two 3 30 two-IsValid

invalidate_if_lem_example :
    (c : LruCache ℕ ℕ) × (removed : ℕ) × (invalidate_if two (λ k. k == 2) ≡ ok (c, removed))
    × IsValid ℕ_discrete c
    × (pairs c.lru_list ≡ (1, 10) ∷ [])
    × (length c.lru_list + removed ≡ 2)
    × (c.capacity ≡ 2)
unfolding program
invalidate_if_lem_example = invalidate_if_lem ℕ_discrete (λ k. k == 2) two two-IsValid

run-init-Refines_example :
    (c : LruCache ℕ ℕ) × (run ℕ_discrete (init 2) calls ≡ ok c)
    × Refines ℕ_discrete 2 c (run_spec ℕ_discrete 2 [] calls)
run-init-Refines_example = run-init-Refines ℕ_discrete 2 calls (omega arith)

get-put_example :
    (c' : LruCache ℕ ℕ) × (c'' : LruCache ℕ ℕ) × (put ℕ_discrete two 3 30 ≡ ok c')
    × (get ℕ_discrete c' 3 ≡ ok (c'', some 30))
get-put_example = get-put ℕ_discrete two 3 30 two-IsValid

run_no_capacity_example : run {V = ℕ} ℕ_discrete (init 0) (gets 1 ∷ puts 1 10 ∷ []) ≡ undefined
run_no_capacity_example = run_no_capacity ℕ_discrete (gets 1 ∷ puts 1 10 ∷ []) refl
