-- ===== src/PgClient/Pointer.antt =====
-- src/db/pg_client.cpp: which methods leave a table's pointer alone, and which one moves it.
use ice_log.Prelude.{
  ℕ, ◌<◌, ◌≡◌, ◌≢◌, refl, ap, sym, ◌∙◌, List, [], ◌∷◌, some, true, arith, if◌then◌else◌, inl, inr,
  Bool-cases,
}
use ice_log.Prelude.Words.{i64_bound}
use ice_log.Text.{Text}
use ice_log.Prelude.Int.{ℤ}
use ice_log.Outcome.{Outcome, ok, thrown, undefined}
use ice_log.Session.{pure, continue}
use ice_log.Postgres.{
  Postgres, insert_snapshot_row, insert_partition_row, update_partition_deleted, select_table_id,
  select_current_snapshot,
}
use ice_log.Postgres.Pointers.{
  Pointers, of_table_id, of_new_snapshot, of_new_partition, of_deletion, of_current_snapshot,
}
use ice_log.PgClient.{PartitionRow, get_table_id, run_command, is_negative}
use ice_log.PgClient.Keeps.{Keeps, Leaves, get_table_id-Keeps}
use ice_log.PgClient.Keeps
use ice_log.Text.Decimal.{to_string}
use ice_log.PgClient.Partitions.{insert_partition, mark_partition_deleted}
use ice_log.PgClient.Snapshots.{
  insert_snapshot, get_current_snapshot, update_table_snapshot, returned_id,
}

module _ {pg : Postgres} (law : Pointers pg) (table : Text) where
  open pg use {Db}
  open law use {pointer}

  of_id : (params : List Text) → Leaves pg (pointer table) select_table_id params
  of_id params db = law.keeps table select_table_id params db of_table_id

  pub get_current_snapshot-Keeps :
      (name : Text) → Keeps pg (pointer table) (get_current_snapshot pg name)
  get_current_snapshot-Keeps name =
      Keeps.get_current_snapshot-Keeps pg (pointer table) name
        (λ db. law.keeps table select_current_snapshot (name ∷ []) db of_current_snapshot)

  pub insert_snapshot-Keeps :
      (name : Text) (parent : ℕ) (operation : Text) (added deleted : ℤ)
      → Keeps pg (pointer table) (insert_snapshot pg name parent operation added deleted)
  insert_snapshot-Keeps name parent operation added deleted =
      Keeps.insert_snapshot-Keeps pg (pointer table) of_id name parent operation added deleted
        (λ params db. law.keeps table insert_snapshot_row params db of_new_snapshot)

  pub insert_partition-Keeps :
      (name : Text) (snap : ℕ) (part : PartitionRow)
      → Keeps pg (pointer table) (insert_partition pg name snap part)
  insert_partition-Keeps name snap part =
      Keeps.insert_partition-Keeps pg (pointer table) of_id name snap part (λ id rest db.
        law.keeps table insert_partition_row (id ∷ to_string snap ∷ rest) db of_new_partition)

  pub mark_partition_deleted-Keeps :
      (name key : Text) (snap : ℕ)
      → Keeps pg (pointer table) (mark_partition_deleted pg name key snap)
  mark_partition_deleted-Keeps name key snap =
      Keeps.mark_partition_deleted-Keeps pg (pointer table) of_id name key snap
        (λ rest db. law.keeps table update_partition_deleted (to_string snap ∷ rest) db of_deletion)

  inserted_id :
      (r : Outcome ℤ × Db) (params : ℤ → List Text) (n snap : ℕ) (db' : Db)
      → pointer table r.1 ≡ some n
      → continue r (λ id. if is_negative id then pure 0 else λ db. (
        returned_id (pg.exec_params insert_snapshot_row (params id) db).0,
        (pg.exec_params insert_snapshot_row (params id) db).1,
      ))
        ≡ (ok snap, db')
      → snap ≢ 0
      → (snap ≢ n) × (snap < i64_bound)
  inserted_id (thrown x, db) params n snap db' q e nz = ground (arith, e)
  inserted_id (undefined, db) params n snap db' q e nz = ground (arith, e)
  inserted_id (ok id, db) params n snap db' q e nz = elim (Bool-cases (is_negative id)) [
    | inl t ↦ absurd (nz (ground (arith, e, t)))
    | inr f ↦ law.new_ids table (params id) db n snap q (ground (arith, e, f)) nz
  ]

  pub insert_snapshot-fresh :
      (parent : ℕ) (operation : Text) (added deleted : ℤ) (n snap : ℕ) (db db' : Db)
      → pointer table db ≡ some n
      → insert_snapshot pg table parent operation added deleted db ≡ (ok snap, db')
      → snap ≢ 0
      → (snap ≢ n) × (snap < i64_bound)
  unfolding insert_snapshot
  insert_snapshot-fresh parent operation added deleted n snap db db' q e nz =
      inserted_id (get_table_id pg table db) _ n snap db'
        (get_table_id-Keeps pg (pointer table) of_id table db (get_table_id pg table db).0
            (get_table_id pg table db).1 refl
          ∙ q)
        e nz

  pub update_table_snapshot-moves :
      (n snap : ℕ) (db db' : Db)
      → pointer table db ≡ some n
      → snap < i64_bound
      → update_table_snapshot pg table snap db ≡ (ok true, db')
      → pointer table db' ≡ some snap
  unfolding update_table_snapshot run_command
  update_table_snapshot-moves n snap db db' q bound e =
      ap (λ r. pointer table r.1) (sym e) ∙ law.moves table db n snap q bound (ground (arith, e))
