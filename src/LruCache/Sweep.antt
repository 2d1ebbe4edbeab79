-- ===== src/LruCache/Sweep.antt =====
-- src/cache/lru_cache.h: `invalidate_if`, whose loop walks the map and takes out matching entries.
use ice_log.Prelude.{
  ℕ, ◌+◌, ◌≡◌, ◌≢◌, refl, ap, sym, ◌∙◌, List, [], ◌∷◌, Option, none, some, Bool, true, false, arith,
  if◌then◌else◌, length, if_pos, if_neg, Bool-cases, inl, inr,
}
use ice_log.Outcome.{ok}
use ice_log.UnorderedMap.{find, erase, Distinct, find-erase_ne, find-erase_self, erase-Distinct}
use ice_log.LruCache.{Node, LruCache, unlink, invalidate_loop, invalidate_if}
use ice_log.LruCache.Nodes.{
  pairs, places, IsLinear, unlink-IsLinear, length-unlink, Located, locate, absent,
}
use ice_log.LruCache.Spec.{without}
use ice_log.LruCache.Invariant.{IsValid}

-- A key that the loop walks over and that satisfies the test is not found afterwards.
abbrev left_spec : Bool → Option ℕ → Option ℕ → Option ℕ
left_spec dropped none found = found
left_spec dropped (some it) found = if dropped then none else found

module _ {K V : Type 0} (dec : Discrete K) (pred : K → Bool) where
  -- A pair that the test drops may be erased first.
  without-erase :
      (key : K) (l : List (K × V))
      → pred key ≡ true
      → without pred (erase dec key l) ≡ without pred l
  unfolding without erase
  without-erase key [] t = refl
  without-erase key ((k, v) ∷ l) t = elim (dec k key) [
    | yes p ↦ ground (arith, ap pred p)
    | no p ↦ ground (arith, without-erase key l t)
  ]

  -- What no pair satisfies drops none.
  without-none :
      (l : List (K × V))
      → Distinct dec l
      → ((k : K) → pred k ≡ true → find dec k l ≡ none)
      → without pred l ≡ l
  unfolding without find
  without-none [] d h = refl
  without-none ((k, v) ∷ l) d h =
      let rest = without-none l d.1 (λ j t. ground (arith, h j t)) in ground (arith, rest, h k)

  -- What the loop over the entries m gives from the list l.
  record Swept (next : ℕ) (m : List (K × ℕ)) (l : List (Node K V)) : Type 0 where
    kept : List (K × ℕ)
    left : List (Node K V)
    removed : ℕ
    done : invalidate_loop pred m l ≡ ok (kept, left, removed)
    linear : IsLinear next left
    distinct : Distinct dec (places left)
    kept_distinct : Distinct dec kept
    find_kept : (k : K) → find dec k kept ≡ (if pred k then none else find dec k m)
    find_left :
        (k : K)
        → find dec k (places left) ≡ left_spec (pred k) (find dec k m) (find dec k (places l))
    map_count : length kept + removed ≡ length m
    list_count : length left + removed ≡ length l
    same : without pred (pairs left) ≡ without pred (pairs l)

  module _ (next : ℕ) (key : K) (it : ℕ) (m : List (K × ℕ)) (new : find dec key m ≡ none) where
    -- The entry in front stays.
    sweep_skip :
        (l : List (Node K V)) → pred key ≡ false → Swept next m l → Swept next ((key, it) ∷ m) l
    unfolding invalidate_loop find
    sweep_skip l f r = record {
      kept = (key, it) ∷ r.kept;
      left = r.left;
      removed = r.removed;
      done = ground (arith, f, r.done);
      linear = r.linear;
      distinct = r.distinct;
      kept_distinct = (ground (arith, r.find_kept key, new), r.kept_distinct);
      find_kept = λ k. elim (dec key k) [
        | yes p ↦ ground (arith, ap pred (sym p) ∙ f)
        | no p ↦ ground (arith, r.find_kept k)
      ];
      find_left = λ k. elim (dec key k) [
        | yes p ↦
            ground (arith, r.find_left k, ap (λ j. find dec j m) (sym p) ∙ new, ap pred (sym p) ∙ f)
        | no p ↦ ground (arith, r.find_left k)
      ];
      map_count = omega (arith, r.map_count);
      list_count = r.list_count;
      same = r.same;
    }

    -- The entry in front is taken out of the map and of the list.
    sweep_take :
        (l : List (Node K V))
        → pred key ≡ true
        → Distinct dec (places l)
        → (e : Located dec key it l) → Swept next m (unlink it l)
        → Swept next ((key, it) ∷ m) l
    unfolding invalidate_loop find
    sweep_take l t d e r = record {
      kept = r.kept;
      left = r.left;
      removed = r.removed + 1;
      done = ground (arith, t, e.located, r.done);
      linear = r.linear;
      distinct = r.distinct;
      kept_distinct = r.kept_distinct;
      find_kept = λ k. elim (dec key k) [
        | yes p ↦ ground (arith, r.find_kept k, ap pred (sym p) ∙ t)
        | no p ↦ ground (arith, r.find_kept k)
      ];
      find_left = λ k. elim (dec key k) [
        | yes p ↦ ground (
          arith,
          r.find_left k,
          ap (λ j. find dec j m) (sym p) ∙ new,
          ap pred (sym p) ∙ t,
          ap (λ j. find dec j (places (unlink it l))) (sym p) ∙ gone,
        )
        | no p ↦ ground (arith, r.find_left k, stays k (λ q. p (sym q)))
      ];
      map_count = omega (arith, r.map_count);
      list_count = omega (arith, r.list_count, length-unlink it l e.node e.located);
      same = r.same ∙ ap (without pred) e.pairs_left ∙ without-erase key (pairs l) t;
    }
      where
        gone : find dec key (places (unlink it l)) ≡ none
        gone = rw e.places_left (find-erase_self dec key (places l) d)

        stays : (k : K) → k ≢ key → find dec k (places (unlink it l)) ≡ find dec k (places l)
        stays k ne = rw e.places_left (find-erase_ne dec k key (places l) ne)

  sweep :
      (next : ℕ) (m : List (K × ℕ)) (l : List (Node K V))
      → IsLinear next l
      → Distinct dec (places l)
      → Distinct dec m
      → ((k : K) (it : ℕ) → find dec k m ≡ some it → find dec k (places l) ≡ some it)
      → Swept next m l
  unfolding invalidate_loop
  sweep next [] l lin d dm linked = record {
    kept = [];
    left = l;
    removed = 0;
    done = refl;
    linear = lin;
    distinct = d;
    kept_distinct = tt;
    find_kept = λ k. unfold find in ground arith;
    find_left = λ k. unfold find in refl;
    map_count = refl;
    list_count = omega arith;
    same = refl;
  }
  sweep next ((key, it) ∷ m) l lin d dm linked = elim (Bool-cases (pred key)) [
    | inl t ↦
        let e = locate dec next it key l lin (linked key it front) in
        sweep_take next key it m dm.0 l t d e (
          sweep next m (unlink it l) (unlink-IsLinear next it l lin)
            (rw e.places_left (erase-Distinct dec key (places l) d)) dm.1
            (λ k i f.
              rw e.places_left
                (find-erase_ne dec k key (places l) (other k i f) ∙ linked k i (later k i f))))
    | inr f ↦
        sweep_skip next key it m dm.0 l f
          (sweep next m l lin d dm.1 (λ k i g. linked k i (later k i g)))
  ]
    where
      front : find dec key ((key, it) ∷ m) ≡ some it
      front = unfold find in if_pos (dec key key) refl _ _

      other : (k : K) (i : ℕ) → find dec k m ≡ some i → k ≢ key
      other k i f same = cc (ap (λ j. find dec j m) same, f, dm.0)

      later : (k : K) (i : ℕ) → find dec k m ≡ some i → find dec k ((key, it) ∷ m) ≡ some i
      later k i f = unfold find in (if_neg (dec key k) (λ q. other k i f (sym q)) _ _ ∙ f)

  pairs-Distinct : (l : List (Node K V)) → Distinct dec (places l) → Distinct dec (pairs l)
  pairs-Distinct [] d = tt
  pairs-Distinct (n ∷ l) d = ((absent dec n.key l d.0).0, pairs-Distinct l d.1)

  -- On a valid cache `invalidate_if` is defined and keeps the cache valid: it drops exactly the pairs whose
  -- key satisfies the test, in whatever order it walks the map, keeps the others in their order, and returns
  -- the number of pairs dropped.
  pub invalidate_if_lem :
      (c : LruCache K V)
      → IsValid dec c
      → (c' : LruCache K V) × (removed : ℕ) × (invalidate_if c pred ≡ ok (c', removed))
        × IsValid dec c'
        × (pairs c'.lru_list ≡ without pred (pairs c.lru_list))
        × (length c'.lru_list + removed ≡ length c.lru_list)
        × (c'.capacity ≡ c.capacity)
  unfolding invalidate_if
  invalidate_if_lem c v =
      let s =
        sweep c.next_node c.map c.lru_list v.linear v.distinct v.map_distinct
          (λ k it e. sym (v.linked k) ∙ e) in
      (
        record c { map = s.kept; lru_list = s.left },
        s.removed,
        ground (arith, s.done),
        record {
          positive = v.positive;
          bounded = omega (arith, s.list_count, v.bounded);
          linear = s.linear;
          distinct = s.distinct;
          map_distinct = s.kept_distinct;
          sized = omega (arith, s.list_count, s.map_count, v.sized);
          linked = λ k. ground (arith, s.find_kept k, s.find_left k, v.linked k);
        },
        sym (
              without-none (pairs s.left) (pairs-Distinct s.left s.distinct)
                (λ k t. (absent dec k s.left (ground (arith, s.find_left k, v.linked k, t))).0))
            ∙ s.same,
        s.list_count,
        refl,
      )
