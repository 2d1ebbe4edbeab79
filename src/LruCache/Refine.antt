-- ===== src/LruCache/Refine.antt =====
-- src/cache/lru_cache.h: on a valid cache each method is defined, keeps the cache valid, and does on the pairs
-- what the specification says.
use ice_log.Prelude.{
  ℕ, zero, suc, ◌+◌, ◌%◌, ◌-◌, ◌≤◌, ◌<◌, ◌≡◌, refl, ap, sym, ◌∙◌, List, [], ◌∷◌, none, some, arith,
  length, take, take_of_length-le, length-map, Option-cases, dec_lt, inl, inr,
}
use ice_log.Prelude.Words.{u64_mod}
use ice_log.Outcome.{ok}
use ice_log.UnorderedMap.{find, erase, length-erase, Distinct, find-erase-none}
use ice_log.LruCache.{Node, LruCache, unlink, get, put, make_room, push_front, invalidate}
use ice_log.LruCache.Nodes.{
  IsLinear, length-unlink, pairs, places, Located, locate, absent, Popped, pop_back-Popped,
}
use ice_log.LruCache.Spec.{get_spec, put_spec, hits_spec, misses_spec, evictions_spec}
use ice_log.LruCache.Invariant.{IsValid, touch-IsValid, drop-IsValid, push_front-IsValid}

take_head {ℓ} :
    {A : Type ℓ} (x : A) (l : List A) (n : ℕ) → 0 < n → take n (x ∷ l) ≡ x ∷ take (n - 1) l
take_head x l zero h = elim h [ ]
take_head x l (suc n) h = ap (λ k. x ∷ take k l) (omega arith)

module _ {K V : Type 0} (dec : Discrete K) (c : LruCache K V) where
  located :
      (key : K) (it : ℕ)
      → IsValid dec c
      → find dec key c.map ≡ some it
      → Located dec key it c.lru_list
  located key it v e = locate dec c.next_node it key c.lru_list v.linear (sym (v.linked key) ∙ e)

  -- On a valid cache `get` is defined: it returns the value of the key, if any, moves its pair to the
  -- front, counts a hit or a miss, and the cache stays valid.
  pub get_lem :
      (key : K)
      → IsValid dec c
      → (c' : LruCache K V) × (get dec c key ≡ ok (c', find dec key (pairs c.lru_list)))
        × IsValid dec c'
        × (pairs c'.lru_list ≡ get_spec dec key (pairs c.lru_list))
        × (c'.hit_count ≡ hits_spec dec key (pairs c.lru_list) c.hit_count)
        × (c'.miss_count ≡ misses_spec dec key (pairs c.lru_list) c.miss_count)
        × (c'.capacity ≡ c.capacity)
  unfolding get
  get_lem key v = elim (Option-cases (find dec key c.map)) [
    | inl e ↦
        let gone = (absent dec key c.lru_list (sym (v.linked key) ∙ e)).0 in
        (
          record c { miss_count = (c.miss_count + 1) % u64_mod },
          rw (e, get, gone),
          record {
            positive = v.positive;
            bounded = v.bounded;
            linear = v.linear;
            distinct = v.distinct;
            map_distinct = v.map_distinct;
            sized = v.sized;
            linked = v.linked;
          },
          ground (arith, gone),
          ground (arith, gone),
          ground (arith, gone),
          refl,
        )
    | inr (it, e) ↦
        let r = located key it v e in
        (
          record c {
            hit_count = (c.hit_count + 1) % u64_mod;
            lru_list = r.node ∷ unlink it c.lru_list;
          },
          ground (arith, e, r.located, r.value),
          touch-IsValid dec c key it v r r.node.value _ e,
          ground (arith, r.value, r.has_key, r.pairs_left),
          ground (arith, r.value),
          ground (arith, r.value),
          refl,
        )
  ]

  -- What `put` must reach.
  abbrev pub IsPut : K → V → LruCache K V → Type 0
  IsPut key value c' =
      IsValid dec c'
      × (pairs c'.lru_list ≡ put_spec dec c.capacity key value (pairs c.lru_list))
      × (c'.eviction_count ≡ evictions_spec dec c.capacity key (pairs c.lru_list) c.eviction_count)
      × (c'.hit_count ≡ c.hit_count)
      × (c'.miss_count ≡ c.miss_count)
      × (c'.capacity ≡ c.capacity)

  length-pairs : length (pairs c.lru_list) ≡ length c.lru_list
  length-pairs = length-map c.lru_list (λ n. (n.key, n.value))

  put_hit :
      (key : K) (value : V) (it : ℕ)
      → IsValid dec c
      → find dec key c.map ≡ some it
      → (c' : LruCache K V) × (put dec c key value ≡ ok c') × IsPut key value c'
  unfolding put
  put_hit key value it v e =
      let r = located key it v e in
      let shorter = length-erase dec key (pairs c.lru_list) r.node.value r.value in
      let fits =
        take_of_length-le c.capacity ((key, value) ∷ erase dec key (pairs c.lru_list))
          (omega (arith, shorter, length-pairs, v.bounded)) in
      (
        record c { lru_list = record r.node { value = value } ∷ unlink it c.lru_list },
        ground (arith, e, r.located),
        (
          touch-IsValid dec c key it v r value c.hit_count e,
          ground (arith, fits, r.has_key, r.pairs_left),
          ground (arith, r.value),
          refl,
          refl,
          refl,
        ),
      )

  put_room :
      (key : K) (value : V)
      → IsValid dec c
      → find dec key c.map ≡ none
      → length c.lru_list < c.capacity
      → (c' : LruCache K V) × (put dec c key value ≡ ok c') × IsPut key value c'
  unfolding put make_room
  put_room key value v e room =
      let (gone, same) = absent dec key c.lru_list (sym (v.linked key) ∙ e) in
      let fits =
        take_of_length-le c.capacity ((key, value) ∷ pairs c.lru_list)
          (omega (arith, length-pairs)) in
      (
        push_front dec c key value,
        ground (arith, e),
        (
          push_front-IsValid dec c key value v room e,
          unfold push_front in ground (arith, fits, same),
          unfold push_front in ground (arith, gone, length-pairs),
          unfold push_front in refl,
          unfold push_front in refl,
          unfold push_front in refl,
        ),
      )

  last_of :
      (l : List (Node K V)) (next : ℕ)
      → 0 < length l
      → IsLinear next l
      → Distinct dec (places l)
      → Popped dec l
  last_of [] next h lin d = absurd (omega arith)
  last_of (n ∷ l) next h lin d = pop_back-Popped dec next n l lin d

  -- The cache after the eviction in `put`.
  evicted : Node K V → LruCache K V
  evicted last = record c {
    lru_list = unlink last.at c.lru_list;
    map = erase dec last.key c.map;
    eviction_count = (c.eviction_count + 1) % u64_mod;
  }

  make_room_full :
      IsValid dec c
      → c.capacity ≤ length c.lru_list
      → (last : Node K V) × (make_room dec c ≡ ok (evicted last))
        × IsValid dec (evicted last)
        × (length (unlink last.at c.lru_list) < c.capacity)
        × (pairs (unlink last.at c.lru_list) ≡ take (c.capacity - 1) (pairs c.lru_list))
  unfolding make_room evicted
  make_room_full v full =
      let p = last_of c.lru_list c.next_node (omega (arith, v.positive)) v.linear v.distinct in
      let r = locate dec c.next_node p.last.at p.last.key c.lru_list v.linear p.placed in
      let in_map = v.linked p.last.key ∙ p.placed in
      (
        p.last,
        ground (arith, p.popped),
        drop-IsValid dec c p.last.key p.last.at v r _ in_map,
        omega (arith, length-unlink p.last.at c.lru_list r.node r.located, v.bounded),
        p.pairs_left (c.capacity - 1) (omega (arith, v.bounded, v.positive)),
      )

  put_full :
      (key : K) (value : V)
      → IsValid dec c
      → find dec key c.map ≡ none
      → c.capacity ≤ length c.lru_list
      → (c' : LruCache K V) × (put dec c key value ≡ ok c') × IsPut key value c'
  unfolding put
  put_full key value v e full =
      let (gone, same) = absent dec key c.lru_list (sym (v.linked key) ∙ e) in
      let (last, made, valid, room, left) = make_room_full v full in
      let kept : take c.capacity ((key, value) ∷ pairs c.lru_list)
          ≡ (key, value) ∷ take (c.capacity - 1) (pairs c.lru_list) =
        take_head _ _ c.capacity v.positive in
      (
        push_front dec (evicted last) key value,
        ground (arith, e, made),
        (
          push_front-IsValid dec (evicted last) key value valid (unfold evicted in room)
              (unfold evicted in find-erase-none dec key last.key c.map e),
          unfold push_front evicted in ground (arith, left, same, kept),
          unfold push_front evicted in ground (arith, gone, length-pairs),
          unfold push_front evicted in refl,
          unfold push_front evicted in refl,
          unfold push_front evicted in refl,
        ),
      )

  -- On a valid cache `put` is defined and keeps the cache valid: the pair is in front, the others of the key
  -- are gone, and what does not fit is dropped from the end, which counts as an eviction.
  pub put_lem :
      (key : K) (value : V)
      → IsValid dec c
      → (c' : LruCache K V) × (put dec c key value ≡ ok c') × IsPut key value c'
  put_lem key value v = elim (Option-cases (find dec key c.map)) [
    | inr (it, e) ↦ put_hit key value it v e
    | inl e ↦ elim (dec_lt (length c.lru_list) c.capacity) [
      | yes room ↦ put_room key value v e room
      | no full ↦ put_full key value v e (omega arith)
    ]
  ]

  -- On a valid cache `invalidate` is defined and keeps the cache valid: the pair of the key is gone, if there was
  -- one, and the other pairs stay in their order.
  pub invalidate_lem :
      (key : K)
      → IsValid dec c
      → (c' : LruCache K V) × (invalidate dec c key ≡ ok c')
        × IsValid dec c'
        × (pairs c'.lru_list ≡ erase dec key (pairs c.lru_list))
        × (c'.capacity ≡ c.capacity)
  unfolding invalidate
  invalidate_lem key v = elim (Option-cases (find dec key c.map)) [
    | inl e ↦
        let same = (absent dec key c.lru_list (sym (v.linked key) ∙ e)).1 in
        (c, ground (arith, e), v, sym same, refl)
    | inr (it, e) ↦
        let r = located key it v e in
        (
          record c { lru_list = unlink it c.lru_list; map = erase dec key c.map },
          ground (arith, e, r.located),
          drop-IsValid dec c key it v r c.eviction_count e,
          r.pairs_left,
          refl,
        )
  ]
