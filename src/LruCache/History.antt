-- ===== src/LruCache/History.antt =====
-- src/cache/lru_cache.h: any sequence of calls on a cache, against the specification.
use ice_log.Prelude.{
  ℕ, zero, suc, take, if_pos, ◌<◌, ◌≡◌, refl, ap, ◌∙◌, List, [], ◌∷◌, some, Bool, true, false,
  arith, ◌+◌, ◌%◌, if◌then◌else◌, inl, inr, Bool-cases,
}
use ice_log.Outcome.{Outcome, ok, undefined, ◌>>=◌}
use ice_log.UnorderedMap.{find, erase}
use ice_log.LruCache.{
  LruCache, init, get, put, make_room, pop_back, invalidate, invalidate_if, invalidate_loop, clear,
}
use ice_log.Prelude.Words.{u64_mod}
use ice_log.LruCache.Nodes.{pairs}
use ice_log.LruCache.Spec.{get_spec, put_spec, without}
use ice_log.LruCache.Invariant.{IsValid, init-IsValid}
use ice_log.LruCache.Refine.{get_lem, put_lem, invalidate_lem}
use ice_log.LruCache.Sweep.{invalidate_if_lem}

pub data Call (K V : Type 0) : Type 0 where
  gets : K → Call K V
  puts : K → V → Call K V
  invalidates : K → Call K V
  invalidates_if : (K → Bool) → Call K V
  clears : Call K V

module _ {K V : Type 0} (dec : Discrete K) where
  unfoldable pub step : LruCache K V → Call K V → Outcome (LruCache K V)
  step c (gets key) = do (c', found) ← get dec c key; ok c'
  step c (puts key value) = put dec c key value
  step c (invalidates key) = invalidate dec c key
  step c (invalidates_if pred) = do (c', removed) ← invalidate_if c pred; ok c'
  step c clears = ok (clear c)

  unfoldable pub run : LruCache K V → List (Call K V) → Outcome (LruCache K V)
  run c [] = ok c
  run c (call ∷ calls) = step c call >>= λ c'. run c' calls

  -- The same calls on the list of pairs.
  abbrev pub step_spec : ℕ → List (K × V) → Call K V → List (K × V)
  step_spec capacity l (gets key) = get_spec dec key l
  step_spec capacity l (puts key value) = put_spec dec capacity key value l
  step_spec capacity l (invalidates key) = erase dec key l
  step_spec capacity l (invalidates_if pred) = without pred l
  step_spec capacity l clears = []

  abbrev pub run_spec : ℕ → List (K × V) → List (Call K V) → List (K × V)
  run_spec capacity l [] = l
  run_spec capacity l (call ∷ calls) = run_spec capacity (step_spec capacity l call) calls

  -- The cache stands for the list.
  pub record Refines (capacity : ℕ) (c : LruCache K V) (l : List (K × V)) : Type 0 where
    pub valid : IsValid dec c
    pub same : pairs c.lru_list ≡ l
    pub cap : c.capacity ≡ capacity

  clear-IsValid : (c : LruCache K V) → IsValid dec c → IsValid dec (clear c)
  unfolding clear find
  clear-IsValid c v = record {
    positive = v.positive;
    bounded = omega arith;
    linear = tt;
    distinct = tt;
    map_distinct = tt;
    sized = refl;
    linked = λ key. refl;
  }

  step-Refines :
      (capacity : ℕ) (c : LruCache K V) (l : List (K × V)) (call : Call K V)
      → Refines capacity c l
      → (c' : LruCache K V) × (step c call ≡ ok c')
        × Refines capacity c' (step_spec capacity l call)
  unfolding step
  step-Refines capacity c l (gets key) r =
      let (c', e, v, p, h, m, cap) = get_lem dec c key r.valid in
      (c', rw e, record { valid = v; same = p ∙ ap (get_spec dec key) r.same; cap = cap ∙ r.cap })
  step-Refines capacity c l (puts key value) r =
      let (c', e, w) = put_lem dec c key value r.valid in
      (
        c',
        e,
        record {
          valid = w.0;
          same =
              w.1
              ∙ ap (λ n. put_spec dec n key value (pairs c.lru_list)) r.cap
              ∙ ap (put_spec dec capacity key value) r.same;
          cap = w.5 ∙ r.cap;
        },
      )
  step-Refines capacity c l (invalidates key) r =
      let (c', e, v, p, cap) = invalidate_lem dec c key r.valid in
      (c', e, record { valid = v; same = p ∙ ap (erase dec key) r.same; cap = cap ∙ r.cap })
  step-Refines capacity c l (invalidates_if pred) r =
      let (c', removed, e, v, p, n, cap) = invalidate_if_lem dec pred c r.valid in
      (c', rw e, record { valid = v; same = p ∙ ap (without pred) r.same; cap = cap ∙ r.cap })
  step-Refines capacity c l clears r = (
    clear c,
    refl,
    record {
      valid = clear-IsValid c r.valid;
      same = unfold clear in refl;
      cap = unfold clear in r.cap;
    },
  )

  run-Refines :
      (capacity : ℕ) (c : LruCache K V) (l : List (K × V)) (calls : List (Call K V))
      → Refines capacity c l
      → (c' : LruCache K V) × (run c calls ≡ ok c')
        × Refines capacity c' (run_spec capacity l calls)
  unfolding run
  run-Refines capacity c l [] r = (c, refl, r)
  run-Refines capacity c l (call ∷ calls) r =
      let (c', e, r') = step-Refines capacity c l call r in
      rw e (run-Refines capacity c' _ calls r')

  -- From a new cache of a capacity of at least one, no sequence of calls meets undefined behaviour, and the
  -- cache then holds the pairs that the specification has after the same calls, in the same order.
  pub run-init-Refines :
      (capacity : ℕ) (calls : List (Call K V))
      → 0 < capacity
      → (c : LruCache K V) × (run (init capacity) calls ≡ ok c)
        × Refines capacity c (run_spec capacity [] calls)
  run-init-Refines capacity calls h = run-Refines capacity (init capacity) [] calls (record {
    valid = init-IsValid dec capacity h;
    same = unfold init in refl;
    cap = unfold init in refl;
  })

  -- What was put is found: a `get` of the key directly after a `put` on a valid cache returns the value.
  pub get-put :
      (c : LruCache K V) (key : K) (value : V)
      → IsValid dec c
      → (c' : LruCache K V) × (c'' : LruCache K V) × (put dec c key value ≡ ok c')
        × (get dec c' key ≡ ok (c'', some value))
  unfolding find
  get-put c key value v =
      let (c', e, w) = put_lem dec c key value v in
      let (c'', f, v', p', h, m, cap) = get_lem dec c' key w.0 in
      let front : find dec key (pairs c'.lru_list) ≡ some value =
        ap (find dec key) w.1 ∙ found c.capacity (erase dec key (pairs c.lru_list)) v.positive in
      (c', c'', e, f ∙ ap (λ o. ok (c'', o)) front)
    where
      found :
          (n : ℕ) (l : List (K × V)) → 0 < n → find dec key (take n ((key, value) ∷ l)) ≡ some value
      found zero l h = elim h [ ]
      found (suc n) l h = if_pos (dec key key) refl _ _

  abbrev pub is_put : Call K V → Bool
  is_put (puts key value) = true
  is_put _ = false

  abbrev pub has_put : List (Call K V) → Bool
  has_put [] = false
  has_put (call ∷ calls) = if is_put call then true else has_put calls

  IsVoid : LruCache K V → Type 0
  IsVoid c = (c.capacity ≡ 0) × (c.lru_list ≡ []) × (c.map ≡ [])

  step-IsVoid :
      (c : LruCache K V) (call : Call K V)
      → IsVoid c
      → is_put call ≡ false
      → (c' : LruCache K V) × (step c call ≡ ok c') × IsVoid c'
  unfolding IsVoid step get invalidate invalidate_if invalidate_loop find clear
  step-IsVoid c (gets key) v n =
      (record c { miss_count = (c.miss_count + 1) % u64_mod }, ground (arith, v), v)
  step-IsVoid c (puts key value) v n = cc (n)
  step-IsVoid c (invalidates key) v n = (c, ground (arith, v), v)
  step-IsVoid c (invalidates_if pred) v n = (c, ground (arith, v), v)
  step-IsVoid c clears v n = (clear c, refl, (v.0, refl, refl))

  put_void : (c : LruCache K V) (key : K) (value : V) → IsVoid c → put dec c key value ≡ undefined
  unfolding IsVoid put make_room find pop_back
  put_void c key value v = ground (arith, v.0, v.1, v.2)

  first_put :
      (c : LruCache K V) (call : Call K V) (calls : List (Call K V))
      → IsVoid c
      → is_put call ≡ true
      → run c (call ∷ calls) ≡ undefined
  unfolding run step
  first_put c (puts key value) calls v t = rw (put_void c key value v) refl
  first_put c (gets key) calls v t = cc (t)
  first_put c (invalidates key) calls v t = cc (t)
  first_put c (invalidates_if pred) calls v t = cc (t)
  first_put c clears calls v t = cc (t)

  run_void :
      (c : LruCache K V) (calls : List (Call K V))
      → IsVoid c
      → has_put calls ≡ true
      → run c calls ≡ undefined
  unfolding run
  run_void c [] v h = cc (h)
  run_void c (call ∷ calls) v h = elim (Bool-cases (is_put call)) [
    | inl t ↦ first_put c call calls v t
    | inr f ↦
        let (c', e, v') = step-IsVoid c call v f in
        rw e (run_void c' calls v' (ground (arith, h, f)))
  ]

  -- With a capacity of 0 every sequence of calls in which there is a `put` runs into undefined behaviour: the
  -- back of an empty list is taken.
  pub run_no_capacity :
      (calls : List (Call K V)) → has_put calls ≡ true → run (init 0) calls ≡ undefined
  unfolding IsVoid init
  run_no_capacity calls h = run_void (init 0) calls (refl, refl, refl) h
