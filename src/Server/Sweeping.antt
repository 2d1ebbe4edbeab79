-- ===== src/Server/Sweeping.antt =====
-- src/server/metadata_server.cpp: what `AlterTable` and `DropTable` do to the cache.
use ice_log.Prelude.{
  ℕ, ◌++◌, ◌≡◌, refl, ap, sym, ◌∙◌, [], Option, none, some, Bool, true, false, ◌⊎◌, inl, inr, arith,
  if◌then◌else◌, subst,
}
use ice_log.Text.{has_prefix, Text, codes, text_discrete, is_empty}
use ice_log.Outcome.{Outcome, ok, thrown, undefined}
use ice_log.Session.{Session}
use ice_log.Blocking.{continue, pure}
use ice_log.Blocking
use ice_log.Postgres.{Postgres}
use ice_log.Mvcc.{MvccManager}
use ice_log.LruCache.Nodes.{pairs}
use ice_log.LruCache.Spec.{without}
use ice_log.LruCache.Invariant.{IsValid}
use ice_log.PartitionRegistry.Keys.{invalidate-IsSwept}
use ice_log.UnorderedMap.{find}
use ice_log.ConnectionPool.{Libpq}
use ice_log.ConnectionPool.Capacity.{IsUp}
use ice_log.PartitionRegistry.{Cache, on_db, of_table, make_cache_key}
use ice_log.PartitionRegistry
use ice_log.PartitionRegistry.Guarded as Registry
use ice_log.CatalogManager
use ice_log.CatalogManager.Guarded as Catalog
use ice_log.SchemaStore
use ice_log.SchemaStore.Guarded as Schemas
use ice_log.System.{System, Run, calls, with_conn, with_shared, with_exclusive}
use ice_log.System.Implements.{Implements, IsReady, shared_call, exclusive_call}
use ice_log.Server.{
  Reply, replied, OperationResponse, Alteration, new_schema_json, new_partition_spec, rename,
  alteration_not_set, AlterTableRequest, DropTableRequest,
}
use ice_log.Server.Tables.{alter_with, alter_table, drop_table, check_change, invalidated}
use ice_log.Server.Ends.{IsIdle}
use ice_log.Server.Handlers.{Renames}

-- Exactly the keys that begin with the table's name and a colon are gone, and among them those of the table at every
-- snapshot.
abbrev pub LosesTable : Text → Cache → Cache → Type 0
LosesTable table before after =
    (pairs after.lru_list ≡ without (has_prefix (table ++ codes ":")) (pairs before.lru_list))
    × ((snap : ℕ) → find text_discrete (make_cache_key table snap) (pairs after.lru_list) ≡ none)

-- After a reply the cache is valid, and has lost the table; or the reply reports a failure, and the cache is as before.
-- So it is also where the handler throws or meets undefined behaviour.
abbrev pub Swept : Text → Cache → Outcome (Reply OperationResponse) → Cache → Type 0
Swept table before (ok reply) after =
    IsValid text_discrete after
    × (LosesTable table before after ⊎ ((reply.response.success ≡ false) × (after ≡ before)))
Swept table before (thrown e) after = after ≡ before
Swept table before undefined after = after ≡ before

module _ (pg : Postgres) (pq : Libpq) (up : IsUp pq) where
  -- The run does not wait, and leaves an idle server and the cache as it was.
  abbrev pub Keeps : {A : Type 0} → Run pg pq A → Type 0
  Keeps {A} run =
      (s : System pg pq)
      → IsIdle pg pq s
      → (o : Outcome A) × (next : System pg pq) × (run s ≡ some (o, next))
        × IsIdle pg pq next
        × (next.cache ≡ s.cache)

  -- The run does not wait, and sweeps the cache or fails.
  abbrev pub Sweeps : Text → Run pg pq (Reply OperationResponse) → Type 0
  Sweeps table run =
      (s : System pg pq)
      → IsIdle pg pq s
      → IsValid text_discrete s.cache
      → (o : Outcome (Reply OperationResponse)) × (after : System pg pq) × (run s ≡ some (o, after))
        × Swept table s.cache o after.cache

  call-Keeps :
      {A : Type 0} (run : Run pg pq A) (call : Session pg.Db A)
      → ((mvcc : MvccManager) → Implements pg pq [] mvcc run (on_db pg call))
      → Keeps run
  call-Keeps run call h s idle =
      let ready : IsReady pg pq [] s.mvcc s = record {
        unheld = λ table free. idle.unheld table;
        connected = idle.connected;
        manager = refl;
      } in
      let (next, e, left) = h s.mvcc s ready in
      (
        _,
        next,
        e,
        record {
          unheld = λ table. left.same_locks table ∙ idle.unheld table;
          connected = omega (arith, idle.connected, left.same_available);
        },
        ap (λ p. p.0) left.same_parts,
      )

  pure-Keeps : {A : Type 0} (a : A) → Keeps (pure a)
  pure-Keeps a s idle = (ok a, s, refl, idle, refl)

  bind-Keeps :
      {A B : Type 0} (run : Run pg pq A) (f : A → Run pg pq B)
      → Keeps run
      → ((a : A) → Keeps (f a))
      → Keeps (Blocking.◌>>=◌ run f)
  bind-Keeps {A} {B} run f h k s idle =
      let (o, s1, e, idle1, c1) = h s idle in
      let (o2, s2, e2, idle2, c2) = resume o s1 idle1 in
      (o2, s2, ap (λ r. continue r f) e ∙ e2, idle2, c2 ∙ c1)
    where
      resume :
          (o : Outcome A) (s1 : System pg pq)
          → IsIdle pg pq s1
          → (o2 : Outcome B) × (s2 : System pg pq) × (continue (some (o, s1)) f ≡ some (o2, s2))
            × IsIdle pg pq s2
            × (s2.cache ≡ s1.cache)
      resume (ok a) s1 i = k a s1 i
      resume (thrown x) s1 i = (thrown x, s1, refl, i, refl)
      resume undefined s1 i = (undefined, s1, refl, i, refl)

  bind-Sweeps :
      {A : Type 0} (table : Text) (run : Run pg pq A) (f : A → Run pg pq (Reply OperationResponse))
      → Keeps run
      → ((a : A) → Sweeps table (f a))
      → Sweeps table (Blocking.◌>>=◌ run f)
  bind-Sweeps {A} table run f h k s idle v =
      let (o, s1, e, idle1, c1) = h s idle in
      let (o2, s2, e2, swept) = resume o s1 idle1 (subst (IsValid text_discrete) (sym c1) v) in
      (o2, s2, ap (λ r. continue r f) e ∙ e2, subst (λ c. Swept table c o2 s2.cache) c1 swept)
    where
      resume :
          (o : Outcome A) (s1 : System pg pq)
          → IsIdle pg pq s1
          → IsValid text_discrete s1.cache
          → (o2 : Outcome (Reply OperationResponse)) × (s2 : System pg pq) × (continue
                (some (o, s1))
                f
              ≡ some (o2, s2))
            × Swept table s1.cache o2 s2.cache
      resume (ok a) s1 i v1 = k a s1 i v1
      resume (thrown x) s1 i v1 = (thrown x, s1, refl, refl)
      resume undefined s1 i v1 = (undefined, s1, refl, refl)

  invalidated-Sweeps :
      (table : Text) (resp : OperationResponse) → Sweeps table (invalidated pg pq table resp)
  unfolding Registry.invalidate_table_cache calls PartitionRegistry.invalidate_table_cache of_table
  invalidated-Sweeps table resp s idle v =
      let (cache, removed, e, (v', swept, lost)) = invalidate-IsSwept table s.cache v in
      (ok (replied resp), record s { cache = cache }, ground (arith, e), (v', inl (swept, lost)))

  failed-Sweeps :
      (table : Text) (resp : OperationResponse)
      → resp.success ≡ false
      → Sweeps table (pure (replied resp))
  failed-Sweeps table resp e s idle v = (ok (replied resp), s, refl, (v, inr (e, refl)))

  drop_table-Sweeps : (req : DropTableRequest) → Sweeps req.table_name (drop_table pg pq req)
  unfolding drop_table Catalog.drop_table
  drop_table-Sweeps req =
      let call = CatalogManager.drop_table pg req.table_name req.purge in
      bind-Sweeps req.table_name
        (with_exclusive pg pq [] req.table_name (with_conn pg pq (on_db pg call))) _
        (call-Keeps _ call (λ mvcc. exclusive_call pg pq mvcc req.table_name (on_db pg call) up))
        (λ result. by_success result.success result.error_msg)
    where
      by_success :
          (success : Bool) (error_msg : Text)
          → let resp : OperationResponse = record { success = success; error_msg = error_msg } in
            Sweeps req.table_name
              (if success then invalidated pg pq req.table_name resp else pure (replied resp))
      by_success true error_msg =
          invalidated-Sweeps req.table_name (record { success = true; error_msg = error_msg })
      by_success false error_msg =
          failed-Sweeps req.table_name (record { success = false; error_msg = error_msg }) refl

  check_change-Keeps : (table proposed : Text) → Keeps (check_change pg pq table proposed)
  unfolding check_change Schemas.get_current_schema
  check_change-Keeps table proposed =
      let call = SchemaStore.get_current_schema pg table in
      bind-Keeps (with_shared pg pq [] table (with_conn pg pq (on_db pg call))) _
        (call-Keeps _ call (λ mvcc. shared_call pg pq mvcc table (on_db pg call) up))
        (λ current. judged current)
    where
      judged :
          (current : Option SchemaStore.SchemaVersion)
          → Keeps {A = Text} (elim current [
            | none ↦ pure []
            | some version ↦ pure (SchemaStore.validate_schema_change version.schema_json proposed)
          ])
      judged none = pure-Keeps []
      judged (some version) =
          pure-Keeps (SchemaStore.validate_schema_change version.schema_json proposed)

  if-Sweeps :
      (table : Text) (b : Bool) (x y : Run pg pq (Reply OperationResponse))
      → Sweeps table x
      → Sweeps table y
      → Sweeps table (if b then x else y)
  if-Sweeps table true x y h k = h
  if-Sweeps table false x y h k = k

  alter_with-Sweeps :
      (table : Text) (alteration : Alteration)
      → Renames table alteration
      → Sweeps table (alter_with pg pq table alteration)
  unfolding alter_with Catalog.alter_table_schema
  alter_with-Sweeps table (new_schema_json proposed) h =
      let call =
        CatalogManager.alter_table_schema pg table proposed
          (codes "schema evolution via AlterTable") in
      let alter = with_exclusive pg pq [] table (with_conn pg pq (on_db pg call)) in
      bind-Sweeps table (check_change pg pq table proposed) _ (check_change-Keeps table proposed)
        (λ err.
          if-Sweeps table (is_empty err) _ _
            (bind-Sweeps table alter _
              (call-Keeps alter call (λ mvcc. exclusive_call pg pq mvcc table (on_db pg call) up))
              (λ result. invalidated-Sweeps table _))
            (failed-Sweeps table _ refl))
  alter_with-Sweeps table (rename new_name) h =
      let call = CatalogManager.rename_table pg table new_name in
      bind-Sweeps table (Catalog.rename_table pg pq table new_name) _
        (call-Keeps _ call (λ mvcc. Catalog.rename_table-Implements pg pq mvcc table new_name up h))
        (λ result. invalidated-Sweeps table _)
  alter_with-Sweeps table (new_partition_spec spec) h = invalidated-Sweeps table _
  alter_with-Sweeps table alteration_not_set h = invalidated-Sweeps table _

  -- On a server that is up, where nobody holds a lock, the pool has a connection and the cache is valid: AlterTable
  -- (but not to the name that the table has) and DropTable do not wait. After their reply the cache is valid, and
  -- exactly the keys that begin with the table's name and a colon are gone from it: those of the table at every
  -- snapshot, and those of any table whose name begins so; or the reply reports a failure and the cache is as before.
  -- Where a handler throws or meets undefined behaviour, the cache is as before.
  pub changes_sweep :
      (altered : AlterTableRequest) (dropped : DropTableRequest) (s : System pg pq)
      → Renames altered.table_name altered.alteration
      → IsIdle pg pq s
      → IsValid text_discrete s.cache
      → ((o : Outcome (Reply OperationResponse)) × (after : System pg pq) × (alter_table pg pq
              altered s
            ≡ some (o, after))
          × Swept altered.table_name s.cache o after.cache)
        × ((o : Outcome (Reply OperationResponse)) × (after : System pg pq) × (drop_table pg pq
                dropped s
              ≡ some (o, after))
            × Swept dropped.table_name s.cache o after.cache)
  unfolding alter_table
  changes_sweep altered dropped s h idle v = (
    alter_with-Sweeps altered.table_name altered.alteration h s idle v,
    drop_table-Sweeps dropped s idle v,
  )
