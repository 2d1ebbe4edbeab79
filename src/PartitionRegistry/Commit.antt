-- ===== src/PartitionRegistry/Commit.antt =====
-- src/catalog/partition_registry.cpp: `commit_snapshot` on a server whose transactions do what PostgreSQL's do.
use ice_log.Prelude.{
  ℕ, ◌≡◌, refl, ap, sym, subst, ◌∙◌, List, [], none, true, false, arith, ◌⊎◌, inl, inr, Bool-cases,
}
use ice_log.Text.{Text, text_discrete}
use ice_log.Outcome.{ok}
use ice_log.Postgres.{Postgres, begin, commit, rollback}
use ice_log.Postgres.Transactions.{Transactions}
use ice_log.LruCache.Invariant.{IsValid}
use ice_log.Mvcc.{validate_parent_snapshot}
use ice_log.PgClient.{PartitionRow, run_exec}
use ice_log.PgClient.Snapshots.{get_current_snapshot}
use ice_log.PgClient.Effects.{get_current_snapshot-Stays, get_current_snapshot-view}
use ice_log.PartitionRegistry.{
  Cache, CommitResult, invalidate_table_cache, conflict, commit_snapshot, refused,
}
use ice_log.PartitionRegistry.Writes.{Written, write_snapshot-ended}
use ice_log.PartitionRegistry.Keys.{IsSwept, invalidate-IsSwept}

module _ {pg : Postgres} (law : Transactions pg) (table_name : Text) where
  open pg use {Db}
  open law use {saved, view}

  module _ (parent : ℕ) (operation : Text) (parts : List PartitionRow) (keys : List Text) where
    -- A commit that is refused leaves the cache and the database as they were.
    abbrev pub Refused : CommitResult → Cache × Db → Cache × Db → Type 0
    Refused r (cache, db) (cache', db') =
        (r.success ≡ false) × (r.snapshot_id ≡ 0) × (cache' ≡ cache) × (view db' ≡ view db)

    -- A commit that is accepted: the parent is the snapshot read from the table, all is written between BEGIN and
    -- COMMIT, and no key of the table is cached.
    pub record Accepted (r : CommitResult) (before after : Cache × Db) : Type 0 where
      pub succeeded : r.success ≡ true
      pub after_read : Db
      pub is_current : get_current_snapshot pg table_name before.1 ≡ (ok parent, after_read)
      pub written_db : Db
      pub written :
          Written law table_name parent operation parts keys r.snapshot_id
            (pg.exec begin after_read).1
            written_db
      pub committed : after.1 ≡ (pg.exec commit written_db).1
      pub swept : IsSwept table_name before.0 after.0

    -- `commit_snapshot` gives a result, and no transaction is left open.
    abbrev pub CommitEnds : Cache × Db → Type 0
    CommitEnds before =
        (r : CommitResult) × (after : Cache × Db) × (commit_snapshot pg table_name parent operation
            parts keys before
          ≡ (ok r, after))
        × (saved after.1 ≡ none)
        × (Refused r before after ⊎ Accepted r before after)

    sweep :
        (cache : Cache) (db : Db)
        → IsValid text_discrete cache
        → (cache' : Cache) × (removed : ℕ) × (invalidate_table_cache pg table_name (cache, db)
            ≡ (ok removed, (cache', db)))
          × IsSwept table_name cache cache'
    unfolding invalidate_table_cache
    sweep cache db v =
        let (cache', removed, e, swept) = invalidate-IsSwept table_name cache v in
        (cache', removed, ground (arith, e), swept)

    in_transaction :
        (cache : Cache) (db d1 : Db)
        → IsValid text_discrete cache
        → saved d1 ≡ none
        → view d1 ≡ view db
        → get_current_snapshot pg table_name db ≡ (ok parent, d1)
        → validate_parent_snapshot parent parent ≡ true
        → CommitEnds (cache, db)
    unfolding commit_snapshot run_exec
    in_transaction cache db d1 v s1 w1 e1 valid =
        let d2 = (pg.exec begin d1).1 in
        let (snap, failure, d3, e3, s3, how) =
          write_snapshot-ended law table_name parent operation parts keys d2 in
        let (cache', removed, e4, swept) = sweep cache (pg.exec commit d3).1 v in
        elim how [
          | inr (message, f) ↦ (
            refused message,
            (cache, (pg.exec rollback d3).1),
            ground (arith, e1, valid, e3, f),
            law.rollback_ends d3,
            inl (
              refl,
              refl,
              refl,
              law.rollback_restores d3 (view d1) (s3 ∙ law.begin_saves d1 s1) ∙ w1,
            ),
          )
          | inl (f, written) ↦ (
            record { success = true; snapshot_id = snap; error_msg = [] },
            (cache', (pg.exec commit d3).1),
            ground (arith, e1, valid, e3, f, e4),
            law.commit_ends d3,
            inr (record {
              succeeded = refl;
              after_read = d1;
              is_current = e1;
              written_db = d3;
              written = written;
              committed = refl;
              swept = swept;
            }),
          )
        ]

    -- On a server with PostgreSQL's transactions, from a valid cache and with no transaction open, `commit_snapshot`
    -- returns a result and leaves no transaction open. Either it reports failure with snapshot 0, and the cache and
    -- the database are as before; or it reports success with a snapshot other than 0, the parent is the table's
    -- current snapshot as read, the record, every partition, every mark and the pointer have been written in this
    -- order between BEGIN and COMMIT, and the cache has lost the table's keys and nothing but keys with its prefix.
    pub commit_snapshot_lem :
        (cache : Cache) (db : Db)
        → IsValid text_discrete cache
        → saved db ≡ none
        → CommitEnds (cache, db)
    unfolding commit_snapshot validate_parent_snapshot
    commit_snapshot_lem cache db v s =
        let (current, d1, e1, s1) = get_current_snapshot-Stays law table_name db in
        let w1 = sym (ap (λ r. view r.1) e1) ∙ get_current_snapshot-view law table_name db in
        elim (Bool-cases (validate_parent_snapshot parent current)) [
          | inr stale ↦ (
            refused (conflict parent current),
            (cache, d1),
            ground (arith, e1, stale),
            s1 ∙ s,
            inl (refl, refl, refl, w1),
          )
          | inl ok_parent ↦
              let same : current ≡ parent = ground arith in
              in_transaction cache db d1 v (s1 ∙ s) w1 (e1 ∙ ap (λ c. (ok c, d1)) same)
                (ap (validate_parent_snapshot parent) (sym same) ∙ ok_parent)
        ]

    -- A commit that reports success has been accepted.
    pub commit_snapshot-Accepted :
        (cache cache' : Cache) (db db' : Db) (r : CommitResult)
        → IsValid text_discrete cache
        → saved db ≡ none
        → commit_snapshot pg table_name parent operation parts keys (cache, db)
          ≡ (ok r, (cache', db'))
        → r.success ≡ true
        → Accepted r (cache, db) (cache', db')
    commit_snapshot-Accepted cache cache' db db' r v s e success =
        let (r0, after0, e0, ended, how) = commit_snapshot_lem cache db v s in
        let same_r : r0 ≡ r = ground (arith, e0, e) in
        let same_after : ◌≡◌ {A = Cache × Db} after0 (cache', db') = ground (arith, e0, e) in
        subst (λ a. Accepted r (cache, db) a) same_after
          (subst (λ c. Accepted c (cache, db) after0) same_r
            (elim how [
              | inl refusal ↦ absurd (cc (refusal.0, ap (λ c. c.success) same_r, success))
              | inr acceptance ↦ acceptance
            ]))
