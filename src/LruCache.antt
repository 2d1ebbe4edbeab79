-- ===== src/LruCache.antt =====
-- src/cache/lru_cache.h: `LRUCache`. Every method holds the cache's mutex throughout, so each is
-- one function on the state. A node of `lru_list_` has an identity, which the iterators in `map_` hold; to use an
-- iterator whose node is gone, or the back of an empty list, is undefined.
pub mod Nodes
pub mod Spec
pub mod Invariant
pub mod Refine
pub mod Sweep
pub mod History
mod Tests
use ice_log.Prelude.{
  ℕ, zero, suc, ◌+◌, ◌%◌, List, [], ◌∷◌, Option, none, some, Bool, true, false, leb, ◌==◌,
  if◌then◌else◌, length,
}
use ice_log.Prelude.Words.{u64_mod}
use ice_log.Outcome.{Outcome, ok, undefined, ◌>>=◌}
use ice_log.UnorderedMap.{find, assign, erase}

-- An element of the list: the pair, and its place in memory.
pub record Node (K V : Type 0) : Type 0 where
  pub at : ℕ
  pub key : K
  pub value : V

pub record LruCache (K V : Type 0) : Type 0 where
  pub capacity : ℕ
  pub lru_list : List (Node K V)
  pub map : List (K × ℕ)
  pub hit_count : ℕ
  pub miss_count : ℕ
  pub eviction_count : ℕ
  pub next_node : ℕ

module _ {K V : Type 0} where
  unfoldable pub init : ℕ → LruCache K V
  init capacity = record {
    capacity = capacity;
    lru_list = [];
    map = [];
    hit_count = 0;
    miss_count = 0;
    eviction_count = 0;
    next_node = 0;
  }

  -- `*it`
  unfoldable pub node_at : ℕ → List (Node K V) → Outcome (Node K V)
  node_at it [] = undefined
  node_at it (n ∷ l) = if n.at == it then ok n else node_at it l

  -- `lru_list_.erase(it)`
  unfoldable pub unlink : ℕ → List (Node K V) → List (Node K V)
  unlink it [] = []
  unlink it (n ∷ l) = if n.at == it then l else n ∷ unlink it l

  -- `lru_list_.back()` and `lru_list_.pop_back()`
  unfoldable pub pop_back : List (Node K V) → Outcome (Node K V × List (Node K V))
  pop_back [] = undefined
  pop_back (n ∷ []) = ok (n, [])
  pop_back (n ∷ n' ∷ l) = do (last, rest) ← pop_back (n' ∷ l); ok (last, n ∷ rest)

module _ {K V : Type 0} (dec : Discrete K) where
  unfoldable pub get : LruCache K V → K → Outcome (LruCache K V × Option V)
  get c key = elim (find dec key c.map) [
    | none ↦ ok (record c { miss_count = (c.miss_count + 1) % u64_mod }, none)
    | some it ↦ do
      n ← node_at it c.lru_list
      ok (
        record c { hit_count = (c.hit_count + 1) % u64_mod; lru_list = n ∷ unlink it c.lru_list },
        some n.value,
      )
  ]

  -- The eviction in `put`.
  unfoldable pub make_room : LruCache K V → Outcome (LruCache K V)
  make_room c =
      if leb c.capacity (length c.lru_list)
      then (do
        (last, rest) ← pop_back c.lru_list
        ok (record c {
          map = erase dec last.key c.map;
          lru_list = rest;
          eviction_count = (c.eviction_count + 1) % u64_mod;
        }))
      else ok c

  unfoldable pub push_front : LruCache K V → K → V → LruCache K V
  push_front c key value = record c {
    lru_list = record { at = c.next_node; key = key; value = value } ∷ c.lru_list;
    map = assign dec key c.next_node c.map;
    next_node = suc c.next_node;
  }

  unfoldable pub put : LruCache K V → K → V → Outcome (LruCache K V)
  put c key value = elim (find dec key c.map) [
    | some it ↦ do
      n ← node_at it c.lru_list
      ok (record c { lru_list = record n { value = value } ∷ unlink it c.lru_list })
    | none ↦ do c' ← make_room c; ok (push_front c' key value)
  ]

  unfoldable pub invalidate : LruCache K V → K → Outcome (LruCache K V)
  invalidate c key = elim (find dec key c.map) [
    | none ↦ ok c
    | some it ↦ do
      n ← node_at it c.lru_list
      ok (record c { lru_list = unlink it c.lru_list; map = erase dec key c.map })
  ]

module _ {K V : Type 0} where
  -- The loop of `invalidate_if` over the entries of the map that are left: the entries kept, the
  -- list left, and the number of entries removed.
  unfoldable pub invalidate_loop :
      (K → Bool) → List (K × ℕ) → List (Node K V) → Outcome (List (K × ℕ) × List (Node K V) × ℕ)
  invalidate_loop pred [] l = ok ([], l, 0)
  invalidate_loop pred ((key, it) ∷ entries) l = elim (pred key) [
    | true ↦ do
      n ← node_at it l
      (kept, left, removed) ← invalidate_loop pred entries (unlink it l)
      ok (kept, left, removed + 1)
    | false ↦ do
      (kept, left, removed) ← invalidate_loop pred entries l
      ok ((key, it) ∷ kept, left, removed)
  ]

  unfoldable pub invalidate_if : LruCache K V → (K → Bool) → Outcome (LruCache K V × ℕ)
  invalidate_if c pred = do
    (kept, left, removed) ← invalidate_loop pred c.map c.lru_list
    ok (record c { map = kept; lru_list = left }, removed)

  unfoldable pub clear : LruCache K V → LruCache K V
  clear c = record c { lru_list = []; map = [] }

  unfoldable pub size : LruCache K V → ℕ
  size c = length c.map
