-- ===== src/LruCache/Nodes.antt =====
-- src/cache/lru_cache.h: the linked nodes, and the pairs that they hold.
use ice_log.Prelude.{
  ℕ, zero, suc, ◌+◌, ◌<◌, ◌≡◌, ◌≢◌, refl, ap, sym, ◌∙◌, List, [], ◌∷◌, map, none, some, arith,
  length, take, if_neg,
}
use ice_log.Outcome.{ok, undefined}
use ice_log.UnorderedMap.{find, erase, Distinct}
use ice_log.LruCache.{Node, node_at, unlink, pop_back}

module _ {K V : Type 0} where
  -- The list as pairs, most recently used first; and as the entries that the map should have.
  abbrev pub pairs : List (Node K V) → List (K × V)
  pairs = map (λ n. (n.key, n.value))

  abbrev pub places : List (Node K V) → List (K × ℕ)
  places = map (λ n. (n.key, n.at))

  -- Places in memory are distinct, and below the next one to be allocated.
  abbrev pub IsLinear : ℕ → List (Node K V) → Type 0
  IsLinear next [] = Unit
  IsLinear next (n ∷ l) = (n.at < next) × (node_at n.at l ≡ undefined) × IsLinear next l

  node_at-unlink_none :
      (j it : ℕ) (l : List (Node K V))
      → node_at j l ≡ undefined
      → node_at j (unlink it l) ≡ undefined
  unfolding node_at unlink
  node_at-unlink_none j it [] h = h
  node_at-unlink_none j it (n ∷ l) h = ground (arith, node_at-unlink_none j it l)

  pub unlink-IsLinear :
      (next it : ℕ) (l : List (Node K V)) → IsLinear next l → IsLinear next (unlink it l)
  unfolding unlink
  unlink-IsLinear next it [] h = h
  unlink-IsLinear next it (n ∷ l) h =
      ground (arith, node_at-unlink_none n.at it l h.1, unlink-IsLinear next it l h.2)

  pub node_at-unlink_self :
      (next it : ℕ) (l : List (Node K V)) → IsLinear next l → node_at it (unlink it l) ≡ undefined
  unfolding node_at unlink
  node_at-unlink_self next it [] h = refl
  node_at-unlink_self next it (n ∷ l) h = ground (arith, node_at-unlink_self next it l h.2)

  pub node_at_fresh :
      (next : ℕ) (l : List (Node K V)) → IsLinear next l → node_at next l ≡ undefined
  unfolding node_at
  node_at_fresh next [] h = refl
  node_at_fresh next (n ∷ l) h = ground (arith, node_at_fresh next l h.2)

  pub IsLinear-suc : (next : ℕ) (l : List (Node K V)) → IsLinear next l → IsLinear (suc next) l
  IsLinear-suc next [] h = h
  IsLinear-suc next (n ∷ l) h = (omega arith, h.1, IsLinear-suc next l h.2)

  pub length-unlink :
      (it : ℕ) (l : List (Node K V)) (n : Node K V)
      → node_at it l ≡ ok n
      → length (unlink it l) + 1 ≡ length l
  unfolding node_at unlink
  length-unlink it [] n h = cc
  length-unlink it (m ∷ l) n h = ground (arith, length-unlink it l n)

-- What an entry of the map leads to.
pub record Located {K V : Type 0} (dec : Discrete K) (key : K) (it : ℕ) (l : List (Node K V))
    : Type 0 where
  pub node : Node K V
  pub at_it : node.at ≡ it
  pub has_key : node.key ≡ key
  pub located : node_at it l ≡ ok node
  pub value : find dec key (pairs l) ≡ some node.value
  pub pairs_left : pairs (unlink it l) ≡ erase dec key (pairs l)
  pub places_left : places (unlink it l) ≡ erase dec key (places l)

module _ {K V : Type 0} (dec : Discrete K) where
  node_at_place :
      (it : ℕ) (key : K) (l : List (Node K V))
      → find dec key (places l) ≡ some it
      → node_at it l ≡ undefined
      → ⊥
  unfolding find node_at
  node_at_place it key [] e h = cc
  node_at_place it key (n ∷ l) e h = ground (arith, node_at_place it key l)

  pub locate :
      (next it : ℕ) (key : K) (l : List (Node K V))
      → IsLinear next l
      → find dec key (places l) ≡ some it
      → Located dec key it l
  unfolding find node_at unlink erase
  locate next it key [] h e = cc
  locate next it key (n ∷ l) h e = elim (dec n.key key) [
    | yes p ↦
        let q : n.at ≡ it = ground arith in
        record {
          node = n;
          at_it = q;
          has_key = p;
          located = ground arith;
          value = ground arith;
          pairs_left = ground arith;
          places_left = ground arith;
        }
    | no p ↦
        let r = locate next it key l h.2 (ground arith) in
        let tail : find dec key (places l) ≡ some it = ground arith in
        let far : n.at ≢ it =
          λ same. node_at_place it key l tail (ap (λ k. node_at k l) (sym same) ∙ h.1) in
        record {
          node = r.node;
          at_it = r.at_it;
          has_key = r.has_key;
          located = ground (arith, r.located);
          value = ground (arith, r.value);
          pairs_left = ground (arith, r.pairs_left);
          places_left = ground (arith, r.places_left);
        }
  ]

  pub absent :
      (key : K) (l : List (Node K V))
      → find dec key (places l) ≡ none
      → (find dec key (pairs l) ≡ none) × (erase dec key (pairs l) ≡ pairs l)
  unfolding find erase
  absent key [] e = (refl, refl)
  absent key (n ∷ l) e = let r = absent key l in ground (arith, absent key l)

module _ {K V : Type 0} where
  pub node_at-lt :
      (next it : ℕ) (l : List (Node K V)) (n : Node K V)
      → IsLinear next l
      → node_at it l ≡ ok n
      → n.at < next
  unfolding node_at
  node_at-lt next it [] n h e = cc
  node_at-lt next it (m ∷ l) n h e = ground (arith, node_at-lt next it l n h.2)

-- The back of a list that is not empty: `pop_back` takes out the node, which is the one of its key.
pub record Popped {K V : Type 0} (dec : Discrete K) (l : List (Node K V)) : Type 0 where
  pub last : Node K V
  pub popped : pop_back l ≡ ok (last, unlink last.at l)
  pub placed : find dec last.key (places l) ≡ some last.at
  pub pairs_left : (n : ℕ) → length l ≡ suc n → pairs (unlink last.at l) ≡ take n (pairs l)

module _ {K V : Type 0} where
  unlink_head : (n : Node K V) (l : List (Node K V)) → unlink n.at (n ∷ l) ≡ l
  unfolding unlink
  unlink_head n l = ground arith

  unlink_skip :
      (it : ℕ) (n : Node K V) (l : List (Node K V))
      → n.at ≢ it
      → unlink it (n ∷ l) ≡ n ∷ unlink it l
  unfolding unlink
  unlink_skip it n l h = ground arith

module _ {K V : Type 0} (dec : Discrete K) where
  -- The same after one more node in front.
  Popped-skip :
      (n n' : Node K V) (l : List (Node K V))
      → node_at n.at (n' ∷ l) ≡ undefined
      → find dec n.key (places (n' ∷ l)) ≡ none
      → Popped dec (n' ∷ l)
      → Popped dec (n ∷ n' ∷ l)
  unfolding pop_back find
  Popped-skip n n' l h d r = record {
    last = r.last;
    popped = rw (r.popped, skip);
    placed = rw (if_neg _ other) r.placed;
    pairs_left = left;
  }
    where
      far : n.at ≢ r.last.at
      far same =
          node_at_place dec r.last.at r.last.key (n' ∷ l) r.placed
            (ap (λ k. node_at k (n' ∷ l)) (sym same) ∙ h)

      other : n.key ≢ r.last.key
      other same = cc (ap (λ k. find dec k (places (n' ∷ l))) same, d, r.placed)

      skip : unlink r.last.at (n ∷ n' ∷ l) ≡ n ∷ unlink r.last.at (n' ∷ l)
      skip = unlink_skip r.last.at n (n' ∷ l) far

      left :
          (k : ℕ)
          → length (n ∷ n' ∷ l) ≡ suc k
          → pairs (unlink r.last.at (n ∷ n' ∷ l)) ≡ take k (pairs (n ∷ n' ∷ l))
      left zero e = absurd (omega arith)
      left (suc k) e = rw skip (ap (◌∷◌ (n.key, n.value)) (r.pairs_left k (omega arith)))

  pub pop_back-Popped :
      (next : ℕ) (n : Node K V) (l : List (Node K V))
      → IsLinear next (n ∷ l)
      → Distinct dec (places (n ∷ l))
      → Popped dec (n ∷ l)
  unfolding pop_back find
  pop_back-Popped next n [] h d = record {
    last = n;
    popped = rw (unlink_head n []);
    placed = ground arith;
    pairs_left = one;
  }
    where
      one :
          (k : ℕ) → length (n ∷ []) ≡ suc k → pairs (unlink n.at (n ∷ [])) ≡ take k (pairs (n ∷ []))
      one zero e = rw (unlink_head n [])
      one (suc k) e = absurd (omega arith)
  pop_back-Popped next n (n' ∷ l) h d =
      Popped-skip n n' l h.1 d.0 (pop_back-Popped next n' l h.2 d.1)
