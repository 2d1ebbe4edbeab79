-- ===== src/CatalogManager/Guarded.antt =====
-- src/catalog/catalog_manager.cpp: the methods of `CatalogManager` with their guards and connections.
use ice_log.Prelude.{
  some, true, false, ◌⊎◌, inl, inr, Option-cases, ◌≡◌, ◌≢◌, refl, ap, ◌∙◌, List, [], ◌∷◌, Option,
  none, Bool, arith,
}
use ice_log.Prelude.Int.{ℤ}
use ice_log.Text.{Text}
use ice_log.Postgres.{Postgres}
use ice_log.Mvcc.{MvccManager}
use ice_log.ConnectionPool.{Libpq}
use ice_log.ConnectionPool.Capacity.{IsUp}
use ice_log.PgClient.{TableRow}
use ice_log.PartitionRegistry.{on_db}
use ice_log.CatalogManager.{CatalogResult}
use ice_log.CatalogManager
use ice_log.LockManager.{Locks, acquire_exclusive, release_exclusive}
use ice_log.LockManager.Idle.{first_acquire_exclusive, again_acquire_exclusive}
use ice_log.Outcome.{Outcome, ok, thrown, undefined}
use ice_log.System.{is_mine, leave, System, Run, in_guard, with_shared, with_exclusive, with_conn}
use ice_log.System.Implements.{
  Implements, Does, IsReady, with_exclusive-Implements, with_conn-Implements, shared_call,
  exclusive_call,
}

module _ (pg : Postgres) (pq : Libpq) where
  unfoldable pub create_table : Text → Text → Text → Text → Run pg pq CatalogResult
  create_table table_name schema_json partition_spec properties_json =
      with_exclusive pg pq [] table_name (
        with_conn pg pq (
          on_db pg
            (CatalogManager.create_table pg table_name schema_json partition_spec properties_json)))

  unfoldable pub get_table : Text → Run pg pq (Option TableRow)
  get_table table_name =
      with_shared pg pq [] table_name
        (with_conn pg pq (on_db pg (CatalogManager.get_table pg table_name)))

  unfoldable pub alter_table_schema : Text → Text → Text → Run pg pq CatalogResult
  alter_table_schema table_name new_schema_json change_summary =
      with_exclusive pg pq [] table_name (
        with_conn pg pq (
          on_db pg
            (CatalogManager.alter_table_schema pg table_name new_schema_json change_summary)))

  unfoldable pub rename_table : Text → Text → Run pg pq CatalogResult
  rename_table old_name new_name = with_exclusive pg pq [] old_name (
      with_exclusive pg pq (old_name ∷ []) new_name
        (with_conn pg pq (on_db pg (CatalogManager.rename_table pg old_name new_name))))

  unfoldable pub drop_table : Text → Bool → Run pg pq CatalogResult
  drop_table table_name purge =
      with_exclusive pg pq [] table_name
        (with_conn pg pq (on_db pg (CatalogManager.drop_table pg table_name purge)))

  unfoldable pub list_tables : Text → ℤ → Text → Run pg pq (List TableRow)
  list_tables ns page_size page_token =
      with_conn pg pq (on_db pg (CatalogManager.list_tables pg ns page_size page_token))

  pub rename_table-Implements :
      (mvcc : MvccManager) (old_name new_name : Text)
      → IsUp pq
      → old_name ≢ new_name
      → Implements pg pq [] mvcc
          (rename_table old_name new_name)
          (on_db pg (CatalogManager.rename_table pg old_name new_name))
  unfolding rename_table
  rename_table-Implements mvcc old_name new_name up ne =
      let call = on_db pg (CatalogManager.rename_table pg old_name new_name) in
      let inner = with_conn pg pq call in
      with_exclusive-Implements pg pq [] mvcc old_name
        (with_exclusive pg pq (old_name ∷ []) new_name inner) call tt
        (with_exclusive-Implements pg pq (old_name ∷ []) mvcc new_name inner call (ne, tt)
          (with_conn-Implements pg pq (new_name ∷ old_name ∷ []) mvcc call up))

  -- Where nobody holds a lock and the pool of a server that is up has a connection, `rename_table` with two
  -- different names does not wait: it gives what the rename gives, leaves the cache and the database as the rename
  -- does, and every lock, the number of connections and the transaction manager as they were.
  pub rename_table_lem :
      (old_name new_name : Text) (s : System pg pq)
      → IsUp pq
      → old_name ≢ new_name
      → IsReady pg pq [] s.mvcc s
      → Does pg pq s
          (rename_table old_name new_name)
          (on_db pg (CatalogManager.rename_table pg old_name new_name))
  rename_table_lem old_name new_name s up ne r =
      rename_table-Implements s.mvcc old_name new_name up ne s r

  -- The methods that take one guard or none.
  pub methods-Implements :
      (mvcc : MvccManager) (table_name a b c : Text) (purge : Bool) (n : ℤ)
      → IsUp pq
      → Implements pg pq [] mvcc
          (create_table table_name a b c)
          (on_db pg (CatalogManager.create_table pg table_name a b c))
        × Implements pg pq [] mvcc
            (get_table table_name)
            (on_db pg (CatalogManager.get_table pg table_name))
        × Implements pg pq [] mvcc
            (alter_table_schema table_name a b)
            (on_db pg (CatalogManager.alter_table_schema pg table_name a b))
        × Implements pg pq [] mvcc
            (drop_table table_name purge)
            (on_db pg (CatalogManager.drop_table pg table_name purge))
        × Implements pg pq [] mvcc
            (list_tables a n b)
            (on_db pg (CatalogManager.list_tables pg a n b))
  unfolding create_table get_table alter_table_schema drop_table list_tables
  methods-Implements mvcc table_name a b c purge n up = (
    exclusive_call pg pq mvcc table_name
        (on_db pg (CatalogManager.create_table pg table_name a b c)) up,
    shared_call pg pq mvcc table_name (on_db pg (CatalogManager.get_table pg table_name)) up,
    exclusive_call pg pq mvcc table_name
        (on_db pg (CatalogManager.alter_table_schema pg table_name a b)) up,
    exclusive_call pg pq mvcc table_name (on_db pg (CatalogManager.drop_table pg table_name purge))
        up,
    with_conn-Implements pg pq [] mvcc (on_db pg (CatalogManager.list_tables pg a n b)) up,
  )

  -- Undefined behaviour in the scope of a guard.
  leave_undefined :
      (unlock : Locks → Outcome Locks) (s : System pg pq)
      → (after : System pg pq) × (leave pg pq {A = CatalogResult} unlock (some (undefined, s))
          ≡ some (undefined, after))
  leave_undefined unlock s = by_outcome (unlock s.locks)
    where
      by_outcome :
          (o : Outcome Locks)
          → (after : System pg pq) × (◌≡◌ {A = Option (Outcome CatalogResult × System pg pq)}
              (elim o [
                | ok locks ↦ some (undefined, record s { locks = locks })
                | thrown e ↦ some (undefined, s)
                | undefined ↦ some (undefined, s)
              ])
              (some (undefined, after)))
      by_outcome (ok locks) = (record s { locks = locks }, refl)
      by_outcome (thrown e) = (s, refl)
      by_outcome undefined = (s, refl)

  -- `rename_table` with one name twice waits where the table's lock cannot be taken, and else its outcome is undefined:
  -- it takes the lock of its first guard again.
  pub rename_table_same :
      (name : Text) (s : System pg pq)
      → ((acquire_exclusive false s.locks name ≡ none) × (rename_table name name s ≡ none))
        ⊎ ((locks : Locks) × (acquire_exclusive false s.locks name ≡ some (ok locks))
            × (after : System pg pq) × (rename_table name name s ≡ some (undefined, after)))
  unfolding rename_table in_guard
  rename_table_same name s =
      let again : is_mine (name ∷ []) name ≡ true = ground (arith) in
      elim (Option-cases (acquire_exclusive false s.locks name)) [
        | inl e ↦ inl (e, ground (arith, e))
        | inr (o, f) ↦
            let (locks, q) = first_acquire_exclusive s.locks name o f in
            let e : acquire_exclusive false s.locks name ≡ some (ok locks) = f ∙ ap some q in
            let (after, left) =
              leave_undefined (λ l. release_exclusive l name) (record s { locks = locks }) in
            let second =
              ap (λ b. acquire_exclusive b locks name) again ∙ again_acquire_exclusive locks name in
            inr (locks, e, after, ground (arith, e, second, left))
      ]
