-- ===== src/PartitionRegistry/Conflict.antt =====
-- src/catalog/partition_registry.cpp: two calls of `commit_snapshot` on the same parent.
use ice_log.Prelude.{ℕ, ◌≡◌, ◌≢◌, ap, sym, ◌∙◌, List, [], ◌∷◌, none, some, true, arith}
use ice_log.Text.{Text, text_discrete}
use ice_log.Outcome.{ok}
use ice_log.Postgres.{Postgres, select_current_snapshot}
use ice_log.Postgres.Transactions.{Transactions}
use ice_log.Postgres.Pointers.{Pointers}
use ice_log.LruCache.Invariant.{IsValid}
use ice_log.Mvcc.{validate_parent_snapshot}
use ice_log.PgClient.{PartitionRow}
use ice_log.PgClient.Snapshots.{get_current_snapshot}
use ice_log.PartitionRegistry.{Cache, CommitResult, commit_snapshot, refused, conflict}
use ice_log.PartitionRegistry.Commit.{Accepted, commit_snapshot-Accepted}
use ice_log.PartitionRegistry.Writes.{Each-Keeps}
use ice_log.PgClient.Keeps.{update_table_snapshot-commit}
use ice_log.PgClient.Pointer.{
  get_current_snapshot-Keeps, insert_snapshot-Keeps, insert_partition-Keeps,
  mark_partition_deleted-Keeps, insert_snapshot-fresh, update_table_snapshot-moves,
}

module _ {pg : Postgres} (law : Pointers pg) (table : Text) where
  open pg use {Db}
  open law use {pointer}

  -- A commit on a parent that the table's pointer is not at.
  stale :
      (parent current : ℕ) (operation : Text) (parts : List PartitionRow) (keys : List Text)
      (cache : Cache) (db : Db)
      → pointer table db ≡ some current
      → current ≢ parent
      → (later : Db) × (commit_snapshot pg table parent operation parts keys (cache, db)
          ≡ (ok (refused (conflict parent current)), (cache, later)))
  unfolding commit_snapshot get_current_snapshot validate_parent_snapshot
  stale parent current operation parts keys cache db q ne =
      let other : parent ≢ current = λ e. ne (sym e) in
      (
        (pg.exec_params select_current_snapshot (table ∷ []) db).1,
        ground (arith, law.reads table db current q, other),
      )

  module _ (trans : Transactions pg) (parent : ℕ) (operation : Text) (parts : List PartitionRow)
      (keys : List Text) where
    -- An accepted commit moves the table's pointer to a snapshot that it was not at.
    Accepted-moves :
        (r : CommitResult) (before after : Cache × Db)
        → pointer table before.1 ≡ some parent
        → Accepted trans table parent operation parts keys r before after
        → (pointer table after.1 ≡ some r.snapshot_id) × (r.snapshot_id ≢ parent)
    Accepted-moves r before after q acc =
        let w = acc.written in
        let q1 =
          get_current_snapshot-Keeps law table table before.1 (ok parent) acc.after_read
            acc.is_current
          ∙ q in
        let q2 = law.begin_keeps table acc.after_read ∙ q1 in
        let fresh =
          insert_snapshot-fresh law table parent operation _ _ parent r.snapshot_id _
            w.after_snapshot q2 w.snapshot_inserted w.is_new in
        let q3 =
          insert_snapshot-Keeps law table table parent operation _ _ _ _ w.after_snapshot
            w.snapshot_inserted
          ∙ q2 in
        let q4 =
          Each-Keeps pg (pointer table) _ parts w.after_snapshot w.after_inserts
            (insert_partition-Keeps law table table r.snapshot_id) w.partitions_inserted
          ∙ q3 in
        let q5 =
          Each-Keeps pg (pointer table) _ keys w.after_inserts w.after_marks
            (λ key. mark_partition_deleted-Keeps law table table key r.snapshot_id)
            w.partitions_marked
          ∙ q4 in
        let q6 =
          update_table_snapshot-moves law table parent r.snapshot_id w.after_marks acc.written_db q5
            fresh.1 w.pointer_updated in
        let kept =
          update_table_snapshot-commit pg (pointer table) table r.snapshot_id w.after_marks
            acc.written_db (law.commit_keeps table) w.pointer_updated in
        (ap (pointer table) acc.committed ∙ kept ∙ q6, fresh.0)

    -- On a server with PostgreSQL's transactions and pointers, two commits on one parent cannot both succeed. If the
    -- cache is valid, no transaction is open, the table's pointer is at the parent and `commit_snapshot` reports
    -- success, the pointer is then at the snapshot it returns, which is not the parent; and any commit on the same
    -- parent that runs next is refused as a conflict, and leaves the cache as it is.
    pub commit_snapshot-conflict :
        (cache cache' : Cache) (db db' : Db) (r : CommitResult) (operation' : Text)
        (parts' : List PartitionRow) (keys' : List Text)
        → IsValid text_discrete cache
        → trans.saved db ≡ none
        → pointer table db ≡ some parent
        → commit_snapshot pg table parent operation parts keys (cache, db) ≡ (ok r, (cache', db'))
        → r.success ≡ true
        → (pointer table db' ≡ some r.snapshot_id)
          × (r.snapshot_id ≢ parent)
          × ((later : Db) × (commit_snapshot pg table parent operation' parts' keys' (cache', db')
                ≡ (ok (refused (conflict parent r.snapshot_id)), (cache', later))))
    commit_snapshot-conflict cache cache' db db' r operation' parts' keys' v s q e success =
        let accepted =
          commit_snapshot-Accepted trans table parent operation parts keys cache cache' db db' r v s
            e success in
        let (moved, fresh) = Accepted-moves r (cache, db) (cache', db') q accepted in
        (moved, fresh, stale parent r.snapshot_id operation' parts' keys' cache' db' moved fresh)
