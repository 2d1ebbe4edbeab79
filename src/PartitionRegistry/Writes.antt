-- ===== src/PartitionRegistry/Writes.antt =====
-- src/catalog/partition_registry.cpp: the writes of `commit_snapshot` between BEGIN and COMMIT: each ends.
use ice_log.Prelude.{
  ℕ, ◌≡◌, ◌≢◌, refl, ap, ◌∙◌, List, [], ◌∷◌, ◌++◌, Option, none, some, Bool, true, false, arith,
  ◌==◌, length, ◌⊎◌, inl, inr, Bool-cases,
}
use ice_log.Prelude.Words.{to_int32}
use ice_log.Text.{Text, codes}
use ice_log.Outcome.{ok}
use ice_log.Session.{Session, pure, continue}
use ice_log.Postgres.{Postgres}
use ice_log.Postgres.Transactions.{Transactions}
use ice_log.PgClient.{PartitionRow}
use ice_log.PgClient.Partitions.{insert_partition, mark_partition_deleted}
use ice_log.PgClient.Snapshots.{insert_snapshot, update_table_snapshot}
use ice_log.PgClient.Keeps.{Keeps}
use ice_log.PgClient.Effects.{
  Stays, insert_snapshot-Stays, insert_partition-Stays, mark_partition_deleted-Stays,
  update_table_snapshot-Stays,
}
use ice_log.PartitionRegistry.{insert_partitions, mark_partitions, write_snapshot}

-- The call is made on each element in order, and succeeds on each.
pub data Each {Db A : Type 0} (call : A → Session Db Bool) : List A → Db → Db → Type 0 where
  each_none : {db : Db} → Each call [] db db
  each_more :
      {a : A} {l : List A} {db db' db'' : Db}
      → call a db ≡ (ok true, db')
      → Each call l db' db''
      → Each call (a ∷ l) db db''

-- Where each call leaves what is seen of the database alone, all together do.
pub Each-Keeps :
    (pg : Postgres) {X A : Type 0} (look : pg.Db → X) (call : A → Session pg.Db Bool) (l : List A)
    (db db' : pg.Db)
    → ((a : A) → Keeps pg look (call a))
    → Each call l db db'
    → look db' ≡ look db
Each-Keeps pg look call [] db db' h each_none = refl
Each-Keeps pg look call (a ∷ l) db db'' h (each_more {db' = db'} e rest) =
    Each-Keeps pg look call l db' db'' h rest ∙ h a db (ok true) db' e

module _ {pg : Postgres} (law : Transactions pg) (table_name : Text) where
  open pg use {Db}
  open law use {saved, view}

  -- How a loop ends: every call has succeeded, or some key is reported.
  abbrev Ended : {A : Type 0} → (A → Session Db Bool) → List A → Db → Db → Option Text → Type 0
  Ended call l db db' bad = ((bad ≡ none) × Each call l db db') ⊎ ((key : Text) × (bad ≡ some key))

  abbrev Looped : {A : Type 0} → (A → Session Db Bool) → List A → Session Db (Option Text) → Type 0
  Looped call l loop =
      (db : Db)
      → (bad : Option Text) × (db' : Db) × (loop db ≡ (ok bad, db'))
        × (saved db' ≡ saved db)
        × Ended call l db db' bad

  -- One more element in front of a loop.
  loop_more :
      {A : Type 0} (call : A → Session Db Bool) (a : A) (l : List A) (key : Text)
      (rest : Session Db (Option Text))
      → Stays law (call a)
      → Looped call l rest
      → Looped call
          (a ∷ l)
          (λ db. continue (call a db) (λ b. elim b [ true ↦ rest | false ↦ pure (some key) ]))
  loop_more call a l key rest h k db =
      let (b, db', e, s) = h db in
      elim (Bool-cases b) [
        | inr f ↦ (some key, db', ground (arith, e, f), s, inr (key, refl))
        | inl t ↦
            let (bad, db'', e', s', how) = k db' in
            (
              bad,
              db'',
              ground (arith, e, t, e'),
              s' ∙ s,
              elim how [
                | inl (n, each) ↦ inl (n, each_more (e ∙ ap (λ c. (ok c, db')) t) each)
                | inr failed ↦ inr failed
              ],
            )
      ]

  insert_partitions-Looped :
      (snap : ℕ) (parts : List PartitionRow)
      → Looped
          (insert_partition pg table_name snap)
          parts
          (insert_partitions pg table_name snap parts)
  unfolding insert_partitions
  insert_partitions-Looped snap [] = λ db. (none, db, refl, refl, inl (refl, each_none))
  insert_partitions-Looped snap (part ∷ parts) =
      loop_more _ part parts part.partition_key _ (insert_partition-Stays law table_name snap part)
        (insert_partitions-Looped snap parts)

  mark_partitions-Looped :
      (snap : ℕ) (keys : List Text)
      → Looped
          (λ key. mark_partition_deleted pg table_name key snap)
          keys
          (mark_partitions pg table_name snap keys)
  unfolding mark_partitions
  mark_partitions-Looped snap [] = λ db. (none, db, refl, refl, inl (refl, each_none))
  mark_partitions-Looped snap (key ∷ keys) =
      loop_more _ key keys key _ (mark_partition_deleted-Stays law table_name key snap)
        (mark_partitions-Looped snap keys)

  module _ (parent : ℕ) (operation : Text) (parts : List PartitionRow) (keys : List Text) where
    -- What a commit has written: the snapshot's record, then every new partition, then every mark, then the
    -- table's pointer, each call a success.
    pub record Written (snap : ℕ) (db db' : Db) : Type 0 where
      pub after_snapshot : Db
      pub after_inserts : Db
      pub after_marks : Db
      pub is_new : snap ≢ 0
      pub snapshot_inserted :
          insert_snapshot pg table_name parent operation
            (to_int32 (length parts))
            (to_int32 (length keys))
            db
          ≡ (ok snap, after_snapshot)
      pub partitions_inserted :
          Each (insert_partition pg table_name snap) parts after_snapshot after_inserts
      pub partitions_marked :
          Each (λ key. mark_partition_deleted pg table_name key snap) keys after_inserts after_marks
      pub pointer_updated : update_table_snapshot pg table_name snap after_marks ≡ (ok true, db')

    abbrev pub WriteEnded : ℕ → Option Text → Db → Db → Type 0
    WriteEnded snap failure db db' =
        ((failure ≡ none) × Written snap db db') ⊎ ((message : Text) × (failure ≡ some message))

    pub write_snapshot-ended :
        (db : Db)
        → (snap : ℕ) × (failure : Option Text) × (db' : Db) × (write_snapshot pg table_name parent
              operation parts keys db
            ≡ (ok (snap, failure), db'))
          × (saved db' ≡ saved db)
          × WriteEnded snap failure db db'
    unfolding write_snapshot
    write_snapshot-ended db =
        let (snap, d1, e1, s1) =
          insert_snapshot-Stays law table_name parent operation (to_int32 (length parts))
            (to_int32 (length keys)) db in
        elim (Bool-cases (snap == 0)) [
          | inl z ↦ (
            snap,
            some (codes "Failed to insert snapshot record"),
            d1,
            ground (arith, e1, z),
            s1,
            inr (_, refl),
          )
          | inr nz ↦
              let (bad, d2, e2, s2, how) = insert_partitions-Looped snap parts d1 in
              elim how [
                | inr (key, f) ↦ (
                  snap,
                  some (codes "Failed to insert partition: " ++ key),
                  d2,
                  ground (arith, e1, nz, e2, f),
                  s2 ∙ s1,
                  inr (_, refl),
                )
                | inl (f, inserted) ↦
                    let (bad', d3, e3, s3, how') = mark_partitions-Looped snap keys d2 in
                    elim how' [
                      | inr (key, g) ↦ (
                        snap,
                        some (codes "Failed to mark partition deleted: " ++ key),
                        d3,
                        ground (arith, e1, nz, e2, f, e3, g),
                        s3 ∙ s2 ∙ s1,
                        inr (_, refl),
                      )
                      | inl (g, marked) ↦
                          let (b, d4, e4, s4) =
                            update_table_snapshot-Stays law table_name snap d3 in
                          elim (Bool-cases b) [
                            | inr no_update ↦ (
                              snap,
                              some (codes "Failed to update table snapshot pointer"),
                              d4,
                              ground (arith, e1, nz, e2, f, e3, g, e4, no_update),
                              s4 ∙ s3 ∙ s2 ∙ s1,
                              inr (_, refl),
                            )
                            | inl updated ↦ (
                              snap,
                              none,
                              d4,
                              ground (arith, e1, nz, e2, f, e3, g, e4, updated),
                              s4 ∙ s3 ∙ s2 ∙ s1,
                              inl (
                                refl,
                                record {
                                  after_snapshot = d1;
                                  after_inserts = d2;
                                  after_marks = d3;
                                  is_new = ground arith;
                                  snapshot_inserted = e1;
                                  partitions_inserted = inserted;
                                  partitions_marked = marked;
                                  pointer_updated = e4 ∙ ap (λ c. (ok c, d4)) updated;
                                },
                              ),
                            )
                          ]
                    ]
              ]
        ]
