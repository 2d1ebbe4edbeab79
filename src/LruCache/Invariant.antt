-- ===== src/LruCache/Invariant.antt =====
-- src/cache/lru_cache.h: the map and the list agree. What each change of the list keeps.
use ice_log.Prelude.{
  ℕ, ◌≤◌, ◌<◌, ◌≡◌, ◌≢◌, refl, ap, sym, ◌∙◌, ◌∷◌, none, some, arith, length, ite, if_pos, if_neg,
}
use ice_log.UnorderedMap.{
  find, erase, Distinct, find-assign, find-erase_ne, find-erase_self, erase-Distinct,
  assign-Distinct, length-erase, length-assign_new,
}
use ice_log.LruCache.{LruCache, init, node_at, unlink, push_front}
use ice_log.LruCache.Nodes.{
  places, IsLinear, unlink-IsLinear, node_at-unlink_self, node_at_fresh, IsLinear-suc,
  length-unlink, Located, node_at-lt,
}

pub record IsValid {K V : Type 0} (dec : Discrete K) (c : LruCache K V) : Type 0 where
  pub positive : 0 < c.capacity
  pub bounded : length c.lru_list ≤ c.capacity
  pub linear : IsLinear c.next_node c.lru_list
  pub distinct : Distinct dec (places c.lru_list)
  pub map_distinct : Distinct dec c.map
  pub sized : length c.map ≡ length c.lru_list
  pub linked : (key : K) → find dec key c.map ≡ find dec key (places c.lru_list)

module _ {K V : Type 0} (dec : Discrete K) where
  pub init-IsValid : (capacity : ℕ) → 0 < capacity → IsValid {V = V} dec (init capacity)
  unfolding init find
  init-IsValid capacity h = record {
    positive = h;
    bounded = omega arith;
    linear = tt;
    distinct = tt;
    map_distinct = tt;
    sized = refl;
    linked = λ key. refl;
  }

  module _ (c : LruCache K V) (key : K) (it : ℕ) (v : IsValid dec c)
      (r : Located dec key it c.lru_list) where
    places_erased_none : find dec r.node.key (places (unlink it c.lru_list)) ≡ none
    places_erased_none =
        rw (r.places_left, r.has_key) (find-erase_self dec key (places c.lru_list) v.distinct)

    find-places_left :
        (k : K)
        → key ≢ k
        → find dec k (places (unlink it c.lru_list)) ≡ find dec k (places c.lru_list)
    find-places_left k ne =
        rw r.places_left (find-erase_ne dec k key (places c.lru_list) (λ e. ne (sym e)))

    -- Moving the node of a key to the front, with any value in it.
    pub touch-IsValid :
        (value : V) (hits : ℕ)
        → find dec key c.map ≡ some it
        → IsValid dec (record c {
          lru_list = record r.node { value = value } ∷ unlink it c.lru_list;
          hit_count = hits;
        })
    unfolding find
    touch-IsValid value hits e = record {
      positive = v.positive;
      bounded = omega (arith, length-unlink it c.lru_list r.node r.located, v.bounded);
      linear = (
        node_at-lt c.next_node it c.lru_list r.node v.linear r.located,
        ap (λ k. node_at k (unlink it c.lru_list)) r.at_it
            ∙ node_at-unlink_self c.next_node it c.lru_list v.linear,
        unlink-IsLinear c.next_node it c.lru_list v.linear,
      );
      distinct = (places_erased_none, rw r.places_left (erase-Distinct dec key _ v.distinct));
      map_distinct = v.map_distinct;
      sized = omega (arith, length-unlink it c.lru_list r.node r.located, v.sized);
      linked = λ k. elim (dec r.node.key k) [
        | yes p ↦
            rw (if_pos _ p)
              (ap (λ j. find dec j c.map) (sym p ∙ r.has_key) ∙ e ∙ ap some (sym r.at_it))
        | no p ↦ rw (if_neg _ p) (v.linked k ∙ sym (find-places_left k (λ q. p (r.has_key ∙ q))))
      ];
    }

    -- Taking the node of a key out of the list, and the key out of the map.
    pub drop-IsValid :
        (evictions : ℕ)
        → find dec key c.map ≡ some it
        → IsValid dec (record c {
          lru_list = unlink it c.lru_list;
          map = erase dec key c.map;
          eviction_count = evictions;
        })
    drop-IsValid evictions e = record {
      positive = v.positive;
      bounded = omega (arith, length-unlink it c.lru_list r.node r.located, v.bounded);
      linear = unlink-IsLinear c.next_node it c.lru_list v.linear;
      distinct = rw r.places_left (erase-Distinct dec key _ v.distinct);
      map_distinct = erase-Distinct dec key c.map v.map_distinct;
      sized = omega (
        arith,
        length-unlink it c.lru_list r.node r.located,
        length-erase dec key c.map it e,
        v.sized,
      );
      linked = λ k. elim (dec key k) [
        | yes p ↦
            rw (← p, r.places_left)
              (find-erase_self dec key c.map v.map_distinct
                ∙ sym (find-erase_self dec key (places c.lru_list) v.distinct))
        | no p ↦
            find-erase_ne dec k key c.map (λ q. p (sym q)) ∙ v.linked k ∙ sym (find-places_left k p)
      ];
    }

  -- A new node in front, where there is room and the key is new.
  pub push_front-IsValid :
      (c : LruCache K V) (key : K) (value : V)
      → IsValid dec c
      → length c.lru_list < c.capacity
      → find dec key c.map ≡ none
      → IsValid dec (push_front dec c key value)
  unfolding push_front find
  push_front-IsValid c key value v room new = record {
    positive = v.positive;
    bounded = room;
    linear = (
      omega arith,
      node_at_fresh c.next_node c.lru_list v.linear,
      IsLinear-suc c.next_node c.lru_list v.linear,
    );
    distinct = (sym (v.linked key) ∙ new, v.distinct);
    map_distinct = assign-Distinct dec key c.next_node c.map v.map_distinct;
    sized = omega (arith, length-assign_new dec key c.next_node c.map new, v.sized);
    linked = λ k.
        find-assign dec k key c.next_node c.map
        ∙ ap (ite (dec key k) (some c.next_node)) (v.linked k);
  }
