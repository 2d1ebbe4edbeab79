-- ===== src/PartitionRegistry/TimeTravel.antt =====
-- src/catalog/partition_registry.cpp: a commit does not change what older snapshots show.
use ice_log.Prelude.{ℕ, ◌<◌, ◌≡◌, refl, ap, sym, ◌∙◌, List, [], ◌∷◌, none, true}
use ice_log.Text.{Text, text_discrete}
use ice_log.Text.Decimal.{to_string}
use ice_log.Outcome.{ok}
use ice_log.Postgres.{
  Postgres, select_table_id, select_partitions, select_current_snapshot, insert_snapshot_row,
  update_current_snapshot,
}
use ice_log.Postgres.Transactions.{Transactions}
use ice_log.Postgres.History.{
  History, of_table_id, of_new_snapshot, of_current_snapshot, of_pointer,
}
use ice_log.LruCache.Invariant.{IsValid}
use ice_log.PgClient.{PartitionRow, is_tuples_ok}
use ice_log.PgClient.Keeps.{
  Leaves, get_current_snapshot-Keeps, insert_snapshot-Keeps, insert_partition-Keeps,
  mark_partition_deleted-Keeps, update_table_snapshot-Keeps, update_table_snapshot-commit,
}
use ice_log.PgClient.Partitions.{partition_rows}
use ice_log.PartitionRegistry.{Cache, CommitResult, commit_snapshot}
use ice_log.PartitionRegistry.Writes.{Each-Keeps}
use ice_log.PartitionRegistry.Commit.{Accepted, commit_snapshot-Accepted}

module _ {pg : Postgres} (law : History pg) (trans : Transactions pg) (table : Text) (parent : ℕ)
    (operation : Text) (parts : List PartitionRow) (keys : List Text) where
  open pg use {Db}

  -- An accepted commit, from its read of the pointer to its COMMIT.
  Accepted-rows :
      (id : Text) (snap : ℕ) (r : CommitResult) (before after : Cache × Db)
      → snap < r.snapshot_id
      → Accepted trans table parent operation parts keys r before after
      → law.rows id snap after.1 ≡ law.rows id snap before.1
  Accepted-rows id snap r before after older acc =
      let look = law.rows id snap in
      let w = acc.written in
      let of_id : (params : List Text) → Leaves pg look select_table_id params =
        λ params db. law.keeps id snap select_table_id params db of_table_id in
      let read =
        get_current_snapshot-Keeps pg look table
          (λ db. law.keeps id snap select_current_snapshot (table ∷ []) db of_current_snapshot)
          before.1 (ok parent) acc.after_read acc.is_current in
      let begun = law.begin_keeps id snap acc.after_read in
      let recorded =
        insert_snapshot-Keeps pg look of_id table parent operation _ _
          (λ params db. law.keeps id snap insert_snapshot_row params db of_new_snapshot) _ _
          w.after_snapshot w.snapshot_inserted in
      let inserted =
        Each-Keeps pg look _ parts w.after_snapshot w.after_inserts
          (λ part.
            insert_partition-Keeps pg look of_id table r.snapshot_id part
              (λ t rest db. law.new_partition id snap r.snapshot_id t rest db older))
          w.partitions_inserted in
      let marked =
        Each-Keeps pg look _ keys w.after_inserts w.after_marks
          (λ key.
            mark_partition_deleted-Keeps pg look of_id table key r.snapshot_id
              (λ rest db. law.deletion id snap r.snapshot_id rest db older))
          w.partitions_marked in
      let moved =
        update_table_snapshot-Keeps pg look table r.snapshot_id
          (λ db.
            law.keeps id snap update_current_snapshot (to_string r.snapshot_id ∷ table ∷ []) db
              of_pointer)
          w.after_marks (ok true) acc.written_db w.pointer_updated in
      let kept =
        update_table_snapshot-commit pg look table r.snapshot_id w.after_marks acc.written_db
          (law.commit_keeps id snap) w.pointer_updated in
      ap look acc.committed ∙ kept ∙ moved ∙ marked ∙ inserted ∙ recorded ∙ begun ∙ read

  -- On a server with PostgreSQL's transactions, whose partitions have the snapshots that the statements give them: if
  -- the cache is valid, no transaction is open and `commit_snapshot` reports success, a query for the partitions of
  -- any table at a snapshot older than the new one gives the rows, or the exception, that it gave before the commit,
  -- where it goes through both times.
  pub commit_snapshot-history :
      (cache cache' : Cache) (db db' : Db) (r : CommitResult) (id : Text) (snap : ℕ)
      → IsValid text_discrete cache
      → trans.saved db ≡ none
      → commit_snapshot pg table parent operation parts keys (cache, db) ≡ (ok r, (cache', db'))
      → r.success ≡ true
      → snap < r.snapshot_id
      → is_tuples_ok (pg.exec_params select_partitions (id ∷ to_string snap ∷ []) db).0 ≡ true
      → is_tuples_ok (pg.exec_params select_partitions (id ∷ to_string snap ∷ []) db').0 ≡ true
      → partition_rows (pg.exec_params select_partitions (id ∷ to_string snap ∷ []) db').0
        ≡ partition_rows (pg.exec_params select_partitions (id ∷ to_string snap ∷ []) db).0
  unfolding partition_rows
  commit_snapshot-history cache cache' db db' r id snap v s e success older before after =
      let acc =
        commit_snapshot-Accepted trans table parent operation parts keys cache cache' db db' r v s e
          success in
      let kept = Accepted-rows id snap r (cache, db) (cache', db') older acc in
      let same = law.reads id snap db' after ∙ kept ∙ sym (law.reads id snap db before) in
      rw (before, after, same) refl
