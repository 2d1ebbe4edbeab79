-- ===== src/PartitionRegistry/Safe.antt =====
-- src/catalog/partition_registry.cpp: on a valid cache the calls give a value or an exception, and leave a valid cache.
use ice_log.Prelude.{
  ℕ, ◌≡◌, refl, ap, sym, subst, List, [], ◌∷◌, Option, none, some, Bool, true, false, arith,
  if◌then◌else◌, ◌==◌,
}
use ice_log.Prelude.Int.{ℤ}
use ice_log.Text.{Text, text_discrete}
use ice_log.Outcome.{Outcome, ok, thrown, undefined, is_defined}
use ice_log.Session.{Session, pure, continue}
use ice_log.Session
use ice_log.Postgres.{Postgres, begin, commit, rollback}
use ice_log.LruCache.{get, invalidate_if}
use ice_log.LruCache.Invariant.{IsValid}
use ice_log.LruCache.Refine.{get_lem, put_lem}
use ice_log.LruCache.Sweep.{invalidate_if_lem}
use ice_log.Mvcc.{MvccManager, get_latest_committed_snapshot, validate_parent_snapshot}
use ice_log.PgClient.{PartitionRow}
use ice_log.PgClient.Snapshots.{get_current_snapshot}
use ice_log.PgClient.Defined.{IsDefined, bind-IsDefined, if-IsDefined, option-IsDefined}
use ice_log.PgClient.Defined.Calls.{
  run_exec-IsDefined, query_partitions-IsDefined, query_partitions_paged-IsDefined,
  insert_partition-IsDefined, mark_partition_deleted-IsDefined, insert_snapshot-IsDefined,
  get_current_snapshot-IsDefined, update_table_snapshot-IsDefined,
}
use ice_log.PartitionRegistry.{
  Cache, on_db, on_cache, put_in, read_snapshot, fetch, get_partitions, get_partitions_paged,
  get_stats, insert_partitions, mark_partitions, write_snapshot, commit_snapshot,
  invalidate_table_cache, no_stats, stats_of, refused, conflict, of_table, make_cache_key,
}

-- The cache of what a call gives.
abbrev cache_of : Cache → {A : Type 0} → Outcome (Cache × A) → Cache
cache_of cache (ok (c, a)) = c
cache_of cache _ = cache

module _ (pg : Postgres) where
  open pg use {Db}

  -- What a call leaves: a valid cache; where the flag is set it gives a value or an exception.
  abbrev IsSafeAt : Bool → {A : Type 0} → Outcome A × (Cache × Db) → Type 0
  IsSafeAt d r = (d ≡ true → is_defined r.0 ≡ true) × IsValid text_discrete r.1.0

  pub record IsSafe (d : Bool) {A : Type 0} (m : Session (Cache × Db) A) : Type 0 where
    pub runs : (cache : Cache) (db : Db) → IsValid text_discrete cache → IsSafeAt d (m (cache, db))

  pub on_db-IsSafe :
      {d : Bool} → {A : Type 0} (call : Session Db A) → IsDefined call → IsSafe d (on_db pg call)
  on_db-IsSafe call h = record { runs = λ cache db v. ((λ t. h db), v) }

  -- A call of the client, also where it meets undefined behaviour.
  pub on_db-kept : {A : Type 0} (call : Session Db A) → IsSafe false (on_db pg call)
  on_db-kept call = record { runs = λ cache db v. ((λ t. cc), v) }

  pub lift-kept : {A : Type 0} (o : Outcome A) → IsSafe false (Session.lift o)
  lift-kept o = record { runs = λ cache db v. ((λ t. cc), v) }

  pub pure-IsSafe : {d : Bool} → {A : Type 0} (a : A) → IsSafe d (pure a)
  pure-IsSafe a = record { runs = λ cache db v. ((λ t. refl), v) }

  pub bind-IsSafe :
      {d : Bool}
      → {A B : Type 0} (m : Session (Cache × Db) A) (f : A → Session (Cache × Db) B) → IsSafe d m
      → ((a : A) → IsSafe d (f a))
      → IsSafe d (Session.◌>>=◌ m f)
  bind-IsSafe {d} {A} {B} m f h k = record {
    runs = λ cache db v. resume (m (cache, db)) (h.runs cache db v).0 (h.runs cache db v).1;
  }
    where
      resume :
          (r : Outcome A × (Cache × Db))
          → (d ≡ true → is_defined r.0 ≡ true)
          → IsValid text_discrete r.1.0
          → IsSafeAt d (continue r f)
      resume (ok a, (c, db)) e w = (k a).runs c db w
      resume (thrown x, (c, db)) e w = ((λ t. refl), w)
      resume (undefined, (c, db)) e w = (e, w)

  if-IsSafe :
      {d : Bool}
      → {A : Type 0} (b : Bool) (m n : Session (Cache × Db) A) → IsSafe d m
      → IsSafe d n
      → IsSafe d (if b then m else n)
  if-IsSafe true m n h k = h
  if-IsSafe false m n h k = k

  -- A call of the cache that gives a value on a valid cache and leaves it valid.
  on_cache-IsSafe :
      {d : Bool}
      → {A : Type 0} (call : Cache → Outcome (Cache × A))
      → ((cache : Cache)
          → IsValid text_discrete cache
          → (cache' : Cache) × (a : A) × (call cache ≡ ok (cache', a))
            × IsValid text_discrete cache')
      → IsSafe d (on_cache pg call)
  on_cache-IsSafe {d} {A} call h = record {
    runs = λ cache db v.
        let (cache', a, e, v') = h cache v in after cache db (call cache) cache' a e v';
  }
    where
      after :
          (cache : Cache) (db : Db) (r : Outcome (Cache × A)) (cache' : Cache) (a : A)
          → r ≡ ok (cache', a)
          → IsValid text_discrete cache'
          → IsSafeAt d {A = A} (elim r [
            | ok (cache', a) ↦ (ok a, (cache', db))
            | thrown e ↦ (thrown e, (cache, db))
            | undefined ↦ (undefined, (cache, db))
          ])
      after cache db undefined cache' a e v' = cc
      after cache db (thrown x) cache' a e v' = cc
      after cache db (ok (c, b)) cache' a e v' =
          ((λ t. refl), subst (IsValid text_discrete) (sym (ap (cache_of cache) e)) v')

  pub invalidate-IsSafe : {d : Bool} → (name : Text) → IsSafe d (invalidate_table_cache pg name)
  unfolding invalidate_table_cache
  invalidate-IsSafe name =
      on_cache-IsSafe (λ cache. invalidate_if cache (of_table name))
        (λ cache v.
          let (c, removed, e, v', p, l, k) =
            invalidate_if_lem text_discrete (of_table name) cache v in
          (c, removed, e, v'))

  get-IsSafe :
      {d : Bool} → (key : Text) → IsSafe d (on_cache pg (λ cache. get text_discrete cache key))
  get-IsSafe key =
      on_cache-IsSafe _
        (λ cache v. let (c, e, v', p, h, m, k) = get_lem text_discrete cache key v in (c, _, e, v'))

  put-IsSafe :
      {d : Bool}
      → (key : Text) (rows : List PartitionRow) → IsSafe d (on_cache pg (put_in pg key rows))
  put-IsSafe key rows = on_cache-IsSafe (put_in pg key rows) (λ cache v.
      let (c, e, p) = put_lem text_discrete cache key rows v in (c, tt, ground (arith, e), p.0))

  read_snapshot-IsDefined :
      (mvcc : MvccManager) (name : Text) (snap : ℕ) → IsDefined (read_snapshot pg mvcc name snap)
  unfolding read_snapshot
  read_snapshot-IsDefined mvcc name snap =
      let given = if snap == 0 then get_latest_committed_snapshot mvcc else snap in
      if-IsDefined (given == 0) (get_current_snapshot pg name) (pure given)
        (get_current_snapshot-IsDefined pg name) (λ db. refl)

  -- A call that decides on an optional value.
  option-IsSafe :
      {d : Bool}
      → {A B : Type 0} (o : Option A) (m : Session (Cache × Db) B) (f : A → Session (Cache × Db) B)
      → IsSafe d m
      → ((a : A) → IsSafe d (f a))
      → IsSafe d (elim o [ none ↦ m | some a ↦ f a ])
  option-IsSafe none m f h k = h
  option-IsSafe (some a) m f h k = k a

  fetch-IsSafe : {d : Bool} → (key name : Text) (snap : ℕ) → IsSafe d (fetch pg key name snap)
  unfolding fetch
  fetch-IsSafe key name snap =
      bind-IsSafe _ _ (on_db-IsSafe _ (query_partitions-IsDefined pg name snap)) (λ result.
        option-IsSafe result _ _ (pure-IsSafe none)
          (λ rows. bind-IsSafe _ _ (put-IsSafe key rows) (λ u. pure-IsSafe (some rows))))

  pub get_partitions-IsSafe :
      {d : Bool}
      → (mvcc : MvccManager) (name : Text) (snap : ℕ) → IsSafe d (get_partitions pg mvcc name snap)
  unfolding get_partitions
  get_partitions-IsSafe mvcc name snap =
      bind-IsSafe _ _ (on_db-IsSafe _ (read_snapshot-IsDefined mvcc name snap)) (λ read_snap.
        bind-IsSafe _ _ (get-IsSafe (make_cache_key name read_snap)) (λ cached.
          option-IsSafe cached _ _ (fetch-IsSafe (make_cache_key name read_snap) name read_snap)
            (λ rows. pure-IsSafe (some rows))))

  pub paged-IsSafe :
      {d : Bool}
      → (mvcc : MvccManager) (name : Text) (snap : ℕ) (size last : ℤ)
      → IsSafe d (get_partitions_paged pg mvcc name snap size last)
  unfolding get_partitions_paged
  paged-IsSafe mvcc name snap size last =
      bind-IsSafe _ _ (on_db-IsSafe _ (read_snapshot-IsDefined mvcc name snap))
        (λ read_snap. on_db-IsSafe _ (query_partitions_paged-IsDefined pg name read_snap size last))

  pub stats-IsSafe : (mvcc : MvccManager) (name : Text) → IsSafe false (get_stats pg mvcc name)
  unfolding get_stats
  stats-IsSafe mvcc name =
      bind-IsSafe _ _ (on_db-IsSafe _ (read_snapshot-IsDefined mvcc name 0)) (λ snap.
        bind-IsSafe _ _ (on_db-IsSafe _ (query_partitions-IsDefined pg name snap)) (λ parts.
          option-IsSafe parts _ _ (pure-IsSafe no_stats) (λ rows. lift-kept (stats_of rows))))

  -- A loop that goes on where the server took the statement.
  answer-IsDefined :
      {A : Type 0} (b : Bool) (m n : Session Db A)
      → IsDefined m
      → IsDefined n
      → IsDefined (elim b [ true ↦ m | false ↦ n ])
  answer-IsDefined true m n h k = h
  answer-IsDefined false m n h k = k

  insert_partitions-IsDefined :
      (name : Text) (snap : ℕ) (parts : List PartitionRow)
      → IsDefined (insert_partitions pg name snap parts)
  unfolding insert_partitions
  insert_partitions-IsDefined name snap [] = λ db. refl
  insert_partitions-IsDefined name snap (part ∷ parts) =
      bind-IsDefined _ _ (insert_partition-IsDefined pg name snap part) (λ inserted.
        answer-IsDefined inserted (insert_partitions pg name snap parts)
          (pure (some part.partition_key)) (insert_partitions-IsDefined name snap parts)
          (λ db. refl))

  mark_partitions-IsDefined :
      (name : Text) (snap : ℕ) (keys : List Text) → IsDefined (mark_partitions pg name snap keys)
  unfolding mark_partitions
  mark_partitions-IsDefined name snap [] = λ db. refl
  mark_partitions-IsDefined name snap (key ∷ keys) =
      bind-IsDefined _ _ (mark_partition_deleted-IsDefined pg name key snap) (λ marked.
        answer-IsDefined marked (mark_partitions pg name snap keys) (pure (some key))
          (mark_partitions-IsDefined name snap keys) (λ db. refl))

  write_snapshot-IsDefined :
      (name : Text) (parent : ℕ) (operation : Text) (parts : List PartitionRow) (keys : List Text)
      → IsDefined (write_snapshot pg name parent operation parts keys)
  unfolding write_snapshot
  write_snapshot-IsDefined name parent operation parts keys =
      bind-IsDefined _ _ (insert_snapshot-IsDefined pg name parent operation _ _) (λ snap.
        if-IsDefined (snap == 0) _ _ (λ db. refl)
          (bind-IsDefined _ _ (insert_partitions-IsDefined name snap parts) (λ bad_part.
            option-IsDefined bad_part _ _
              (bind-IsDefined _ _ (mark_partitions-IsDefined name snap keys) (λ bad_key.
                option-IsDefined bad_key _ _
                  (bind-IsDefined _ _ (update_table_snapshot-IsDefined pg name snap)
                    (λ updated db. refl))
                  (λ key db. refl)))
              (λ key db. refl))))

  pub commit_snapshot-IsSafe :
      {d : Bool}
      → (name : Text) (parent : ℕ) (operation : Text) (parts : List PartitionRow) (keys : List Text)
      → IsSafe d (commit_snapshot pg name parent operation parts keys)
  unfolding commit_snapshot
  commit_snapshot-IsSafe name parent operation parts keys =
      bind-IsSafe _ _ (on_db-IsSafe _ (get_current_snapshot-IsDefined pg name)) (λ current.
        if-IsSafe (validate_parent_snapshot parent current) _ _
          (bind-IsSafe _ _ (on_db-IsSafe _ (run_exec-IsDefined pg begin)) (λ u.
            bind-IsSafe _ _
              (on_db-IsSafe _ (write_snapshot-IsDefined name parent operation parts keys))
              (λ (snap, failure).
                option-IsSafe failure _ _
                  (bind-IsSafe _ _ (on_db-IsSafe _ (run_exec-IsDefined pg commit))
                    (λ c. bind-IsSafe _ _ (invalidate-IsSafe name) (λ n. pure-IsSafe _)))
                  (λ message.
                    bind-IsSafe _ _ (on_db-IsSafe _ (run_exec-IsDefined pg rollback))
                      (λ r. pure-IsSafe (refused message))))))
          (pure-IsSafe (refused (conflict parent current))))
