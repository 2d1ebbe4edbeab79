-- ===== src/PgClient/Keeps.antt =====
-- src/db/pg_client.cpp: what is seen of the database, and the methods that leave it alone because their statements do.
use ice_log.Prelude.{
  ℕ, ◌≡◌, refl, ap, sym, subst, ◌∙◌, List, [], ◌∷◌, Bool, true, false, arith, if◌then◌else◌, inl,
  inr, Option-cases,
}
use ice_log.Prelude.Int.{ℤ}
use ice_log.Text.{Text}
use ice_log.Text.Decimal.{to_string}
use ice_log.Outcome.{Outcome, ok, thrown, undefined}
use ice_log.Session.{Session, pure, continue}
use ice_log.Session
use ice_log.Postgres.{
  commit, Postgres, Statement, PgResult, insert_snapshot_row, insert_partition_row,
  update_partition_deleted, select_table_id, select_current_snapshot, update_current_snapshot,
}
use ice_log.PgClient.{
  PartitionRow, get_table_id, run_command, first_row, is_negative, is_command_ok,
}
use ice_log.PgClient.Partitions.{insert_partition, mark_partition_deleted}
use ice_log.PgClient.Snapshots.{
  insert_snapshot, get_current_snapshot, update_table_snapshot, returned_id,
}

module _ (pg : Postgres) {X : Type 0} (look : pg.Db → X) where
  open pg use {Db}

  -- The call leaves what is seen alone, whatever its outcome.
  abbrev pub Keeps : {A : Type 0} → Session Db A → Type 0
  Keeps {A} m = (db : Db) (o : Outcome A) (db' : Db) → m db ≡ (o, db') → look db' ≡ look db

  -- So does the statement, with these parameters.
  abbrev pub Leaves : Statement → List Text → Type 0
  Leaves s params = (db : Db) → look (pg.exec_params s params db).1 ≡ look db

  to_Keeps : {A : Type 0} (m : Session Db A) → ((db : Db) → look (m db).1 ≡ look db) → Keeps m
  to_Keeps m h db o db' e = ap (λ r. look r.1) (sym e) ∙ h db

  continue-Keeps :
      {A B : Type 0} (r : Outcome A × Db) (f : A → Session Db B) (p : X) (o : Outcome B) (db' : Db)
      → ((a : A) → Keeps (f a))
      → look r.1 ≡ p
      → continue r f ≡ (o, db')
      → look db' ≡ p
  continue-Keeps (ok a, db) f p o db' h q e = h a db o db' e ∙ q
  continue-Keeps (thrown x, db) f p o db' h q e = ap (λ r. look r.1) (sym e) ∙ q
  continue-Keeps (undefined, db) f p o db' h q e = ap (λ r. look r.1) (sym e) ∙ q

  bind-Keeps :
      {A B : Type 0} (m : Session Db A) (f : A → Session Db B)
      → Keeps m
      → ((a : A) → Keeps (f a))
      → Keeps (Session.◌>>=◌ m f)
  bind-Keeps m f hm hf db o db' e =
      continue-Keeps (m db) f (look db) o db' hf (hm db (m db).0 (m db).1 refl) e

  if-Keeps :
      {A : Type 0} (b : Bool) (m n : Session Db A) → Keeps m → Keeps n → Keeps (if b then m else n)
  if-Keeps true m n hm hn = hm
  if-Keeps false m n hm hn = hn

  pure-Keeps : {A : Type 0} (a : A) → Keeps (pure a)
  pure-Keeps a = to_Keeps _ (λ db. refl)

  statement-Keeps :
      {A : Type 0} (s : Statement) (params : List Text) (read : PgResult → Outcome A)
      → Leaves s params
      → Keeps (λ db. (read (pg.exec_params s params db).0, (pg.exec_params s params db).1))
  statement-Keeps s params read h = to_Keeps _ h

  run_command-Keeps :
      (s : Statement) (params : List Text) → Leaves s params → Keeps (run_command pg s params)
  unfolding run_command
  run_command-Keeps s params h = statement-Keeps s params (λ res. ok (is_command_ok res)) h

  pub get_current_snapshot-Keeps :
      (name : Text)
      → Leaves select_current_snapshot (name ∷ [])
      → Keeps (get_current_snapshot pg name)
  unfolding get_current_snapshot
  get_current_snapshot-Keeps name h = to_Keeps _ h

  pub update_table_snapshot-Keeps :
      (name : Text) (snap : ℕ)
      → Leaves update_current_snapshot (to_string snap ∷ name ∷ [])
      → Keeps (update_table_snapshot pg name snap)
  unfolding update_table_snapshot
  update_table_snapshot-Keeps name snap h = run_command-Keeps update_current_snapshot _ h

  -- A COMMIT after an update of the pointer that has gone through, where one after any such statement leaves what is
  -- seen alone.
  pub update_table_snapshot-commit :
      (name : Text) (snap : ℕ) (db db' : Db)
      → ((s : Statement) (params : List Text) (db : Db)
          → is_command_ok (pg.exec_params s params db).0 ≡ true
          → look (pg.exec commit (pg.exec_params s params db).1).1
            ≡ look (pg.exec_params s params db).1)
      → update_table_snapshot pg name snap db ≡ (ok true, db')
      → look (pg.exec commit db').1 ≡ look db'
  unfolding update_table_snapshot run_command
  update_table_snapshot-commit name snap db db' h e =
      let params = to_string snap ∷ name ∷ [] in
      let went_through : is_command_ok (pg.exec_params update_current_snapshot params db).0 ≡ true =
        ground (arith, e) in
      subst (λ d. look (pg.exec commit d).1 ≡ look d) (ap (λ r. r.1) e)
        (h update_current_snapshot params db went_through)

  module _ (of_table_id : (params : List Text) → Leaves select_table_id params) where
    pub get_table_id-Keeps : (name : Text) → Keeps (get_table_id pg name)
    unfolding get_table_id
    get_table_id-Keeps name = to_Keeps _ λ db.
        let kept = of_table_id (name ∷ []) db in
        elim (Option-cases (first_row (pg.exec_params select_table_id (name ∷ []) db).0)) [
          | inl e ↦ ground (arith, e, kept)
          | inr (row, e) ↦ ground (arith, e, kept)
        ]

    pub insert_snapshot-Keeps :
        (name : Text) (parent : ℕ) (operation : Text) (added deleted : ℤ)
        → ((params : List Text) → Leaves insert_snapshot_row params)
        → Keeps (insert_snapshot pg name parent operation added deleted)
    unfolding insert_snapshot
    insert_snapshot-Keeps name parent operation added deleted h =
        bind-Keeps (get_table_id pg name) _ (get_table_id-Keeps name) (λ id.
          if-Keeps (is_negative id) _ _ (pure-Keeps 0)
            (statement-Keeps insert_snapshot_row _ returned_id (h _)))

    pub insert_partition-Keeps :
        (name : Text) (snap : ℕ) (part : PartitionRow)
        → ((id : Text) (rest : List Text)
            → Leaves insert_partition_row (id ∷ to_string snap ∷ rest))
        → Keeps (insert_partition pg name snap part)
    unfolding insert_partition
    insert_partition-Keeps name snap part h =
        bind-Keeps (get_table_id pg name) _ (get_table_id-Keeps name) (λ id.
          if-Keeps (is_negative id) _ _ (pure-Keeps false)
            (run_command-Keeps insert_partition_row _ (h _ _)))

    pub mark_partition_deleted-Keeps :
        (name key : Text) (snap : ℕ)
        → ((rest : List Text) → Leaves update_partition_deleted (to_string snap ∷ rest))
        → Keeps (mark_partition_deleted pg name key snap)
    unfolding mark_partition_deleted
    mark_partition_deleted-Keeps name key snap h =
        bind-Keeps (get_table_id pg name) _ (get_table_id-Keeps name) (λ id.
          if-Keeps (is_negative id) _ _ (pure-Keeps false)
            (run_command-Keeps update_partition_deleted _ (h _)))
