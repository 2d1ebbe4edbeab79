-- ===== src/CatalogManager/Transaction.antt =====
-- src/catalog/catalog_manager.cpp: `drop_table` and the transaction of `alter_table_schema`, on a server whose
-- transactions do what PostgreSQL's do.
use ice_log.Prelude.{
  List, ◌≡◌, refl, ap, ◌∙◌, [], ◌∷◌, none, Bool, true, false, arith, ◌++◌, if◌then◌else◌, ◌⊎◌, inl,
  inr, Bool-cases,
}
use ice_log.Prelude.Int.{ℤ}
use ice_log.Text.{Text, codes, text_eq}
use ice_log.Text.Decimal.{to_string_signed}
use ice_log.Outcome.{Outcome, ok, thrown, undefined}
use ice_log.Session.{Session, pure, continue}
use ice_log.Session
use ice_log.Postgres.{
  Statement, update_schema, insert_schema_history, delete_partitions, delete_snapshots,
  delete_schema_history, delete_table, Postgres, begin, commit, rollback, soft_delete_table,
}
use ice_log.Postgres.Transactions.{Transactions}
use ice_log.PgClient.{get_table_id, is_negative, run_command, run_exec, is_command_ok}
use ice_log.PgClient.Effects.{Stays, bind-Stays, if-Stays, run_command-Stays, get_table_id-Stays}
use ice_log.PgClient.Tables.{update_table_schema, purge_table, hide_table}
use ice_log.PgClient.Tables
use ice_log.CatalogManager.{CatalogResult, alter_in_transaction, drop_table, done, refused}

module _ {pg : Postgres} (law : Transactions pg) where
  open pg use {Db}
  open law use {saved, view}

  update_table_schema-Stays :
      (table_name schema : Text) (version : ℤ) (summary : Text)
      → Stays law (update_table_schema pg table_name schema version summary)
  unfolding update_table_schema
  update_table_schema-Stays table_name schema version summary =
      bind-Stays law _ _ (run_command-Stays law _ _) (λ updated.
        if-Stays law _ _ _
          (bind-Stays law _ _ (get_table_id-Stays law table_name)
            (λ id. if-Stays law _ _ _ (λ db. (false, db, refl, refl)) (run_command-Stays law _ _)))
          (λ db. (false, db, refl, refl)))

  purge_table-Stays : (table_name : Text) → Stays law (purge_table pg table_name)
  unfolding purge_table
  purge_table-Stays table_name = bind-Stays law _ _ (get_table_id-Stays law table_name) (λ id.
      if-Stays law _ _ _ (λ db. (false, db, refl, refl))
        (bind-Stays law _ _ (run_command-Stays law _ _) (λ _.
          bind-Stays law _ _ (run_command-Stays law _ _) (λ _.
            bind-Stays law _ _ (run_command-Stays law _ _) (λ _. run_command-Stays law _ _)))))

  hide_table-Stays : (table_name : Text) → Stays law (hide_table pg table_name)
  unfolding hide_table
  hide_table-Stays table_name db =
      let (res, db') = pg.exec_params soft_delete_table (table_name ∷ []) db in
      let kept = law.statement_stays_inside soft_delete_table (table_name ∷ []) db in
      elim (Bool-cases (is_command_ok res)) [
        | inl t ↦ (
          if text_eq res.cmd_tuples (codes "0") then false else true,
          db',
          ground (arith, t),
          kept,
        )
        | inr f ↦ (false, db', ground (arith, f), kept)
      ]

  drop-Stays :
      (table_name : Text) (purge : Bool) → Stays law (Tables.drop_table pg table_name purge)
  unfolding Tables.drop_table
  drop-Stays table_name purge =
      if-Stays law _ _ _ (purge_table-Stays table_name) (hide_table-Stays table_name)

  -- The server takes a statement that writes, and leaves this state.
  abbrev pub Accepted : Statement → List Text → Db → Db → Type 0
  Accepted statement params d d' =
      (is_command_ok (pg.exec_params statement params d).0 ≡ true)
      × ((pg.exec_params statement params d).1 ≡ d')

  -- The update of the table's schema is accepted, the table has an identifier, and the entry in its history is accepted.
  abbrev pub Altered : Text → Text → ℤ → Text → Db → Db → Type 0
  Altered table_name schema version summary d d' =
      (d1 : Db) × Accepted update_schema (schema ∷ to_string_signed version ∷ table_name ∷ []) d d1
      × (id : ℤ) × (d2 : Db) × (get_table_id pg table_name d1 ≡ (ok id, d2))
      × (is_negative id ≡ false)
      × Accepted insert_schema_history
          (to_string_signed id ∷ to_string_signed version ∷ schema ∷ summary ∷ []) d2 d'

  -- A purge sends three deletions, whatever becomes of them, and the deletion of the table is accepted. Without it the
  -- table is marked as deleted, and at least one row is.
  abbrev pub Dropped : Text → Bool → Db → Db → Type 0
  Dropped table_name true d d' =
      (id : ℤ) × (d1 : Db) × (get_table_id pg table_name d ≡ (ok id, d1))
      × (is_negative id ≡ false)
      × (let p = to_string_signed id ∷ [] in
          let d2 = (pg.exec_params delete_partitions p d1).1 in
          let d3 = (pg.exec_params delete_snapshots p d2).1 in
          Accepted delete_table (table_name ∷ []) (pg.exec_params delete_schema_history p d3).1 d')
  Dropped table_name false d d' =
      Accepted soft_delete_table (table_name ∷ []) d d'
      × (text_eq (pg.exec_params soft_delete_table (table_name ∷ []) d).0.cmd_tuples (codes "0")
          ≡ false)

  -- What a chain that goes on with the table's identifier has found where it reports success.
  with_id :
      (table_name : Text) (d d' : Db) (f : ℤ → Session Db Bool)
      → Session.◌>>=◌
          (get_table_id pg table_name)
          (λ id. if is_negative id then pure false else f id)
          d
        ≡ (ok true, d')
      → (id : ℤ) × (d1 : Db) × (get_table_id pg table_name d ≡ (ok id, d1))
        × (is_negative id ≡ false)
        × (f id d1 ≡ (ok true, d'))
  with_id table_name d d' f h = by_outcome (get_table_id pg table_name d) refl h
    where
      by_outcome :
          (r : Outcome ℤ × Db)
          → get_table_id pg table_name d ≡ r
          → continue r (λ id. if is_negative id then pure false else f id) ≡ (ok true, d')
          → (id : ℤ) × (d1 : Db) × (get_table_id pg table_name d ≡ (ok id, d1))
            × (is_negative id ≡ false)
            × (f id d1 ≡ (ok true, d'))
      by_outcome (ok id, d1) e h = elim (Bool-cases (is_negative id)) [
        | inl t ↦ cc
        | inr n ↦ (id, d1, e, n, ground (arith, h, n))
      ]
      by_outcome (thrown x, d1) e h = cc
      by_outcome (undefined, d1) e h = cc

  accepted :
      (statement : Statement) (params : List Text) (d d' : Db)
      → run_command pg statement params d ≡ (ok true, d')
      → Accepted statement params d d'
  unfolding run_command
  accepted statement params d d' h = (cc, ap (λ r. r.1) h)

  altered :
      (table_name schema : Text) (version : ℤ) (summary : Text) (d d' : Db)
      → update_table_schema pg table_name schema version summary d ≡ (ok true, d')
      → Altered table_name schema version summary d d'
  unfolding update_table_schema run_command
  altered table_name schema version summary d d' h =
      let ver = to_string_signed version in
      let params = schema ∷ ver ∷ table_name ∷ [] in
      let record_of = λ (id : ℤ).
        run_command pg insert_schema_history (to_string_signed id ∷ ver ∷ schema ∷ summary ∷ []) in
      elim (Bool-cases (is_command_ok (pg.exec_params update_schema params d).0)) [
        | inl t ↦
            let d1 = (pg.exec_params update_schema params d).1 in
            let (id, d2, e, n, g) = with_id table_name d1 d' record_of (ground (arith, h, t)) in
            (d1, (t, refl), id, d2, e, n, accepted _ _ d2 d' g)
        | inr f ↦ ground (arith, h, f)
      ]

  dropped :
      (table_name : Text) (purge : Bool) (d d' : Db)
      → Tables.drop_table pg table_name purge d ≡ (ok true, d')
      → Dropped table_name purge d d'
  unfolding Tables.drop_table purge_table hide_table run_command
  dropped table_name true d d' h =
      let deletions = λ (id : ℤ).
        let p = to_string_signed id ∷ [] in
        Session.◌>>◌ (run_command pg delete_partitions p) (
          Session.◌>>◌ (run_command pg delete_snapshots p) (
            Session.◌>>◌ (run_command pg delete_schema_history p)
              (run_command pg delete_table (table_name ∷ [])))) in
      let (id, d1, e, n, g) = with_id table_name d d' deletions h in
      (id, d1, e, n, accepted delete_table (table_name ∷ []) _ d' g)
  dropped table_name false d d' h =
      let (res, d1) = pg.exec_params soft_delete_table (table_name ∷ []) d in
      elim (Bool-cases (is_command_ok res)) [
        | inr f ↦ ground (arith, h, f)
        | inl t ↦ elim (Bool-cases (text_eq res.cmd_tuples (codes "0"))) [
          | inl z ↦ ground (arith, h, t, z)
          | inr z ↦ ((t, ground (arith, h, t, z)), z)
        ]
      ]

  -- The other way round.
  altered-true :
      (table_name schema : Text) (version : ℤ) (summary : Text) (d d' : Db)
      → Altered table_name schema version summary d d'
      → update_table_schema pg table_name schema version summary d ≡ (ok true, d')
  unfolding update_table_schema run_command
  altered-true table_name schema version summary d d' (d1, (t, e1), id, d2, e, n, (t3, e3)) =
      ground (arith, t, e1, e, n, t3, e3)

  dropped-true :
      (table_name : Text) (purge : Bool) (d d' : Db)
      → Dropped table_name purge d d'
      → Tables.drop_table pg table_name purge d ≡ (ok true, d')
  unfolding Tables.drop_table purge_table hide_table run_command
  dropped-true table_name true d d' (id, d1, e, n, (t, e')) = ground (arith, e, n, t, e')
  dropped-true table_name false d d' ((t, e), z) = ground (arith, t, e, z)

  -- How a method in a transaction of its own ends: with success, and the writes made and committed; or with failure,
  -- the writes not made, and the database as before. In either case no transaction is left open.
  abbrev pub Ends : (Db → Db → Type 0) → Db → CatalogResult → Db → Type 0
  Ends Writes db r db' =
      (saved db' ≡ none)
      × (((r.success ≡ true)
            × ((d : Db) × Writes (pg.exec begin db).1 d × (db' ≡ (pg.exec commit d).1)))
          ⊎ ((r.success ≡ false)
              × (view db' ≡ view db)
              × ((d : Db) → ¬ Writes (pg.exec begin db).1 d)))

  -- On a server with PostgreSQL's transactions, from a state with no transaction open, `drop_table` returns a result
  -- and leaves none open. Success is reported exactly if after BEGIN the table is marked as deleted, by a statement
  -- that the server accepts and that changes a row; or, with purge, the table has an identifier, its partitions,
  -- snapshots and schema history are asked to be deleted, with whatever result, and then the deletion of the table is
  -- accepted; COMMIT is sent after that. On failure the database is as before, also where a purge fails halfway.
  pub drop_table_lem :
      (table_name : Text) (purge : Bool) (db : Db)
      → saved db ≡ none
      → (r : CatalogResult) × (db' : Db) × (drop_table pg table_name purge db ≡ (ok r, db'))
        × Ends (Dropped table_name purge) db r db'
  unfolding drop_table run_exec
  drop_table_lem table_name purge db s =
      let (b, d, e, kept) = drop-Stays table_name purge (pg.exec begin db).1 in
      elim (Bool-cases b) [
        | inl t ↦ (
          done,
          (pg.exec commit d).1,
          ground (arith, e, t),
          (
            law.commit_ends d,
            inl (refl, (d, dropped table_name purge _ d (e ∙ ap (λ c. (ok c, d)) t), refl)),
          ),
        )
        | inr f ↦ (
          refused (codes "Failed to drop table: " ++ table_name),
          (pg.exec rollback d).1,
          ground (arith, e, f),
          (
            law.rollback_ends d,
            inr (
              refl,
              law.rollback_restores d (view db) (kept ∙ law.begin_saves db s),
              λ d2 w.
                  let g = dropped-true table_name purge (pg.exec begin db).1 d2 w in
                  ground (arith, e, f, g),
            ),
          ),
        )
      ]

  -- On a server with PostgreSQL's transactions, from a state with no transaction open, the transaction of
  -- `alter_table_schema` returns a result and leaves none open. Success is reported exactly if after BEGIN the server
  -- accepts the update of the schema and its version, the table has an identifier, and the server accepts the entry
  -- in the history with this identifier, version and schema; COMMIT is sent after that. On failure the database is as
  -- before.
  pub alter_in_transaction_lem :
      (table_name schema : Text) (version : ℤ) (summary : Text) (db : Db)
      → saved db ≡ none
      → (r : CatalogResult) × (db' : Db) × (alter_in_transaction pg table_name schema version
            summary db
          ≡ (ok r, db'))
        × Ends (Altered table_name schema version summary) db r db'
  unfolding alter_in_transaction run_exec
  alter_in_transaction_lem table_name schema version summary db s =
      let (b, d, e, kept) =
        update_table_schema-Stays table_name schema version summary (pg.exec begin db).1 in
      elim (Bool-cases b) [
        | inl t ↦ (
          done,
          (pg.exec commit d).1,
          ground (arith, e, t),
          (
            law.commit_ends d,
            inl (
              refl,
              (d, altered table_name schema version summary _ d (e ∙ ap (λ c. (ok c, d)) t), refl),
            ),
          ),
        )
        | inr f ↦ (
          refused (codes "Failed to update schema for: " ++ table_name),
          (pg.exec rollback d).1,
          ground (arith, e, f),
          (
            law.rollback_ends d,
            inr (
              refl,
              law.rollback_restores d (view db) (kept ∙ law.begin_saves db s),
              λ d2 w.
                  let g =
                    altered-true table_name schema version summary (pg.exec begin db).1 d2 w in
                  ground (arith, e, f, g),
            ),
          ),
        )
      ]
