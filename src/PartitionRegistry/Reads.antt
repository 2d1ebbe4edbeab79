-- ===== src/PartitionRegistry/Reads.antt =====
-- src/catalog/partition_registry.cpp: `get_partitions` and its cache.
use ice_log.Prelude.{
  ℕ, zero, suc, ◌<◌, ◌≡◌, ◌≢◌, refl, ap, ◌∙◌, List, ◌∷◌, Option, none, some, arith, take, if_pos,
  inl, inr, Option-cases, subst,
}
use ice_log.Text.{Text, text_discrete}
use ice_log.Outcome.{Outcome, ok, thrown, undefined}
use ice_log.Postgres.{Postgres}
use ice_log.UnorderedMap.{find, erase}
use ice_log.LruCache.{put}
use ice_log.LruCache.Nodes.{pairs}
use ice_log.LruCache.Spec.{get_spec}
use ice_log.LruCache.Invariant.{IsValid}
use ice_log.LruCache.Refine.{get_lem, put_lem}
use ice_log.Mvcc.{MvccManager}
use ice_log.PgClient.{PartitionRow}
use ice_log.PgClient.Partitions.{query_partitions}
use ice_log.PartitionRegistry.{Cache, make_cache_key, read_snapshot, fetch, get_partitions}

find_front :
    {K V : Type 0} (dec : Discrete K) (key : K) (value : V) (l : List (K × V)) (n : ℕ)
    → 0 < n
    → find dec key (take n ((key, value) ∷ l)) ≡ some value
unfolding find
find_front dec key value l zero h = elim h [ ]
find_front dec key value l (suc n) h = if_pos (dec key key) refl _ _

find-get_spec :
    {K V : Type 0} (dec : Discrete K) (key : K) (value : V) (l : List (K × V))
    → find dec key l ≡ some value
    → find dec key (get_spec dec key l) ≡ some value
unfolding find
find-get_spec dec key value l e =
    ap (λ o. find dec key (elim o [ none ↦ l | some v ↦ (key, v) ∷ erase dec key l ])) e
    ∙ if_pos (dec key key) refl _ _

-- The cache is valid and holds the rows under the key of the snapshot.
abbrev pub Holds : Text → ℕ → List PartitionRow → Cache → Type 0
Holds table snap rows cache =
    IsValid text_discrete cache
    × (find text_discrete (make_cache_key table snap) (pairs cache.lru_list) ≡ some rows)

module _ (pg : Postgres) (mvcc : MvccManager) (table : Text) (snap : ℕ) where
  open pg use {Db}

  asked : (db : Db) → snap ≢ 0 → read_snapshot pg mvcc table snap db ≡ (ok snap, db)
  unfolding read_snapshot
  asked db h = ground arith

  get_partitions_hit :
      (rows : List PartitionRow) (cache : Cache) (db : Db)
      → snap ≢ 0
      → Holds table snap rows cache
      → (cache' : Cache) × (get_partitions pg mvcc table snap (cache, db)
          ≡ (ok (some rows), (cache', db)))
        × Holds table snap rows cache'
  unfolding get_partitions
  get_partitions_hit rows cache db h (v, held) =
      let (c', e, v', front, hits, misses, cap) =
        get_lem text_discrete cache (make_cache_key table snap) v in
      (
        c',
        ground (arith, asked db h, e, held),
        (
          v',
          ap (find text_discrete (make_cache_key table snap)) front
              ∙ find-get_spec text_discrete (make_cache_key table snap) rows (pairs cache.lru_list)
                  held,
        ),
      )

  -- What the query on a miss returns is what it leaves in the cache.
  fetch-Holds :
      (answer : Outcome (Option (List PartitionRow)) × Db) (rows : List PartitionRow)
      (cache cache' : Cache) (db db' : Db)
      → query_partitions pg table snap db ≡ answer
      → IsValid text_discrete cache
      → fetch pg (make_cache_key table snap) table snap (cache, db)
        ≡ (ok (some rows), (cache', db'))
      → Holds table snap rows cache'
  unfolding fetch
  fetch-Holds (thrown x, d) rows cache cache' db db' q v e = ground (arith, q, e)
  fetch-Holds (undefined, d) rows cache cache' db db' q v e = ground (arith, q, e)
  fetch-Holds (ok none, d) rows cache cache' db db' q v e = ground (arith, q, e)
  fetch-Holds (ok (some found), d) rows cache cache' db db' q v e =
      let key = make_cache_key table snap in
      let (c2, p, put) = put_lem text_discrete cache key found v in
      let same_rows : found ≡ rows = ground (arith, q, e, p) in
      let same_cache : c2 ≡ cache' = ground (arith, q, e, p) in
      subst (Holds table snap rows) same_cache (
        put.0,
        ap (find text_discrete key) put.1
            ∙ find_front text_discrete key found (erase text_discrete key (pairs cache.lru_list))
                cache.capacity v.positive
            ∙ ap some same_rows,
      )

  get_partitions-Holds :
      (rows : List PartitionRow) (cache cache' : Cache) (db db' : Db)
      → snap ≢ 0
      → IsValid text_discrete cache
      → get_partitions pg mvcc table snap (cache, db) ≡ (ok (some rows), (cache', db'))
      → Holds table snap rows cache'
  unfolding get_partitions
  get_partitions-Holds rows cache cache' db db' h v e =
      let key = make_cache_key table snap in
      elim (Option-cases (find text_discrete key (pairs cache.lru_list))) [
        | inr (found, held) ↦
            let (c1, f, holds) = get_partitions_hit found cache db h (v, held) in
            let same_rows : found ≡ rows = ground (arith, f, e) in
            let same_cache : c1 ≡ cache' = ground (arith, f, e) in
            subst (λ r. Holds table snap r cache') same_rows
              (subst (Holds table snap found) same_cache holds)
        | inl missed ↦
            let (c1, g, v1, front, hits, misses, cap) = get_lem text_discrete cache key v in
            fetch-Holds (query_partitions pg table snap db) rows c1 cache' db db' refl v1
              (ground (arith, asked db h, g, missed, e))
      ]

  -- Reading a table at a given snapshot again gives the rows again, from the cache: on a valid cache, with any
  -- snapshot but 0, once `get_partitions` has returned rows, the next call returns the same rows and leaves the
  -- database untouched, whatever the state of the database has become.
  pub get_partitions_again :
      (rows : List PartitionRow) (cache cache' : Cache) (db db' later : Db)
      → snap ≢ 0
      → IsValid text_discrete cache
      → get_partitions pg mvcc table snap (cache, db) ≡ (ok (some rows), (cache', db'))
      → (cache'' : Cache) × (get_partitions pg mvcc table snap (cache', later)
          ≡ (ok (some rows), (cache'', later)))
        × Holds table snap rows cache''
  get_partitions_again rows cache cache' db db' later h v e =
      get_partitions_hit rows cache' later h (get_partitions-Holds rows cache cache' db db' h v e)

  -- Where the cache has no rows for the snapshot, `get_partitions` answers with what the query on the table at this
  -- very snapshot answers: rows are returned and cached, and the absence of an answer is passed on and not cached.
  -- The cache stays valid.
  pub get_partitions_miss :
      (answer : Option (List PartitionRow)) (cache : Cache) (db db' : Db)
      → snap ≢ 0
      → IsValid text_discrete cache
      → find text_discrete (make_cache_key table snap) (pairs cache.lru_list) ≡ none
      → query_partitions pg table snap db ≡ (ok answer, db')
      → (cache' : Cache) × (get_partitions pg mvcc table snap (cache, db)
          ≡ (ok answer, (cache', db')))
        × IsValid text_discrete cache'
        × (find text_discrete (make_cache_key table snap) (pairs cache'.lru_list) ≡ answer)
  unfolding get_partitions fetch
  get_partitions_miss none cache db db' h v missed q =
      let key = make_cache_key table snap in
      let (c1, g, v1, front, hits, misses, cap) = get_lem text_discrete cache key v in
      (
        c1,
        ground (arith, asked db h, g, missed, q),
        v1,
        ap (find text_discrete key) front
            ∙ ap
                (λ o. find text_discrete key (elim o [
                  | none ↦ pairs cache.lru_list
                  | some r ↦ (key, r) ∷ erase text_discrete key (pairs cache.lru_list)
                ]))
                missed
            ∙ missed,
      )
  get_partitions_miss (some rows) cache db db' h v missed q =
      let key = make_cache_key table snap in
      let (c1, g, v1, front, hits, misses, cap) = get_lem text_discrete cache key v in
      let (c2, p, is_put) = put_lem text_discrete c1 key rows v1 in
      (
        c2,
        ground (arith, asked db h, g, missed, q, p),
        is_put.0,
        ap (find text_discrete key) is_put.1
            ∙ find_front text_discrete key rows (erase text_discrete key (pairs c1.lru_list))
                c1.capacity v1.positive,
      )
