-- ===== src/PgClient/Effects.antt =====
-- src/db/pg_client.cpp: inside a transaction the methods that write give a result, never an exception, and leave
-- the transaction open.
use ice_log.Prelude.{
  ℕ, ◌≡◌, refl, ap, ◌∙◌, List, [], ◌∷◌, Option, none, some, Bool, true, false, arith, if◌then◌else◌,
  ◌⊎◌, inl, inr,
}
use ice_log.Prelude.Int.{ℤ, negsuc}
use ice_log.Prelude.Words.{to_uint64}
use ice_log.Text.{Text}
use ice_log.Text.RoundTrip.{stoll-to_string}
use ice_log.Outcome.{Outcome, ok}
use ice_log.Session.{Session, pure, continue}
use ice_log.Postgres.{
  Postgres, PgResult, Cells, Statement, ExecStatus, command_ok, tuples_ok, failed, select_table_id,
  insert_snapshot_row, select_current_snapshot,
}
use ice_log.Postgres.Transactions.{
  Transactions, StartsWithId, of_table_id, of_new_snapshot, of_current_snapshot,
}
use ice_log.PgClient.{PartitionRow, field_int64, first_row, get_table_id, run_command}
use ice_log.PgClient.Partitions.{insert_partition, mark_partition_deleted}
use ice_log.PgClient.Snapshots.{
  returned_id, insert_snapshot, get_current_snapshot, update_table_snapshot,
}
use ice_log.Prelude.{All}

field_int64-ok : (row : Cells) → StartsWithId row → (z : ℤ) × (field_int64 row 0 ≡ ok z)
unfolding field_int64
field_int64-ok row (id, rest, h, e) = (id, ap (λ r. field_int64 r 0) e ∙ stoll-to_string id h)

-- The first row of a result of ids is absent or has an id.
first_row-cases :
    (status : ExecStatus) (rows : List Cells) (n : Text)
    → All StartsWithId rows
    → (first_row (record { status = status; tuples = rows; cmd_tuples = n }) ≡ none)
      ⊎ ((row : Cells) × (first_row (record { status = status; tuples = rows; cmd_tuples = n })
            ≡ some row)
          × StartsWithId row)
first_row-cases command_ok rows n h = inl refl
first_row-cases failed rows n h = inl refl
first_row-cases tuples_ok [] n h = inl refl
first_row-cases tuples_ok (row ∷ rows) n h = inr (row, refl, h.0)

pub returned_id-ok :
    (res : PgResult) → All StartsWithId res.tuples → (n : ℕ) × (returned_id res ≡ ok n)
unfolding returned_id
returned_id-ok res h = elim (first_row-cases res.status res.tuples res.cmd_tuples h) [
  | inl e ↦ (0, ground (arith, e))
  | inr (row, e, s) ↦ let (z, f) = field_int64-ok row s in (to_uint64 z, ground (arith, e, f))
]

module _ {pg : Postgres} (law : Transactions pg) where
  open pg use {Db, exec_params}
  open law use {saved, ids, statement_stays_inside}

  -- The call gives a value, and the transaction that was open, if any, still is.
  abbrev pub Stays : {A : Type 0} → Session Db A → Type 0
  Stays {A} m = (db : Db) → (a : A) × (db' : Db) × (m db ≡ (ok a, db')) × (saved db' ≡ saved db)

  pub bind-Stays :
      {A B : Type 0} (m : Session Db A) (f : A → Session Db B)
      → Stays m
      → ((a : A) → Stays (f a))
      → Stays (ice_log.Session.◌>>=◌ m f)
  bind-Stays m f hm hf db =
      let (a, db', e, k) = hm db in
      let (b, db'', e', k') = hf a db' in (b, db'', ap (λ r. continue r f) e ∙ e', k' ∙ k)

  pub if-Stays :
      {A : Type 0} (b : Bool) (m n : Session Db A) → Stays m → Stays n → Stays (if b then m else n)
  if-Stays true m n hm hn = hm
  if-Stays false m n hm hn = hn

  pub run_command-Stays : (s : Statement) (params : List Text) → Stays (run_command pg s params)
  unfolding run_command
  run_command-Stays s params db = (_, _, refl, statement_stays_inside s params db)

  -- A statement whose result is read with a value for every result that the server gives.
  answer-Stays :
      {A : Type 0} (s : Statement) (params : List Text) (read : PgResult → Outcome A)
      → ((db : Db) → (a : A) × (read (exec_params s params db).0 ≡ ok a))
      → Stays (λ db. (read (exec_params s params db).0, (exec_params s params db).1))
  answer-Stays s params read h db =
      let (a, e) = h db in
      (
        a,
        (exec_params s params db).1,
        ap (λ o. (o, (exec_params s params db).1)) e,
        statement_stays_inside s params db,
      )

  id_or_none :
      (row : Option Cells) (db : Db)
      → (row ≡ none) ⊎ ((r : Cells) × (row ≡ some r) × StartsWithId r)
      → (z : ℤ) × (◌≡◌ {A = Outcome ℤ × Db}
          (elim row [ none ↦ (ok (negsuc 0), db) | some r ↦ (field_int64 r 0, db) ])
          (ok z, db))
  id_or_none row db h = elim h [
    | inl e ↦ (negsuc 0, ground (arith, e))
    | inr (r, e, s) ↦ let (z, f) = field_int64-ok r s in (z, ground (arith, e, f))
  ]

  pub get_table_id-Stays : (table_name : Text) → Stays (get_table_id pg table_name)
  unfolding get_table_id
  get_table_id-Stays table_name db =
      let p = table_name ∷ [] in
      let (res, db') = exec_params select_table_id p db in
      let (z, e) = id_or_none (first_row res) db' (
        first_row-cases res.status res.tuples res.cmd_tuples
          (ids select_table_id p db of_table_id)) in
      (z, db', e, statement_stays_inside select_table_id p db)

  pub insert_snapshot-Stays :
      (table_name : Text) (parent : ℕ) (operation : Text) (added deleted : ℤ)
      → Stays (insert_snapshot pg table_name parent operation added deleted)
  unfolding insert_snapshot
  insert_snapshot-Stays table_name parent operation added deleted =
      bind-Stays _ _ (get_table_id-Stays table_name) (λ id.
        if-Stays _ _ _ (λ db. (0, db, refl, refl))
          (answer-Stays insert_snapshot_row _ returned_id
            (λ db. returned_id-ok _ (ids insert_snapshot_row _ db of_new_snapshot))))

  pub insert_partition-Stays :
      (table_name : Text) (snap : ℕ) (part : PartitionRow)
      → Stays (insert_partition pg table_name snap part)
  unfolding insert_partition
  insert_partition-Stays table_name snap part =
      bind-Stays _ _ (get_table_id-Stays table_name)
        (λ id. if-Stays _ _ _ (λ db. (false, db, refl, refl)) (run_command-Stays _ _))

  pub mark_partition_deleted-Stays :
      (table_name key : Text) (snap : ℕ) → Stays (mark_partition_deleted pg table_name key snap)
  unfolding mark_partition_deleted
  mark_partition_deleted-Stays table_name key snap =
      bind-Stays _ _ (get_table_id-Stays table_name)
        (λ id. if-Stays _ _ _ (λ db. (false, db, refl, refl)) (run_command-Stays _ _))

  pub update_table_snapshot-Stays :
      (table_name : Text) (snap : ℕ) → Stays (update_table_snapshot pg table_name snap)
  unfolding update_table_snapshot
  update_table_snapshot-Stays table_name snap = run_command-Stays _ _

  pub get_current_snapshot-Stays : (table_name : Text) → Stays (get_current_snapshot pg table_name)
  unfolding get_current_snapshot
  get_current_snapshot-Stays table_name =
      answer-Stays select_current_snapshot (table_name ∷ []) returned_id
        (λ db. returned_id-ok _ (ids select_current_snapshot _ db of_current_snapshot))

  pub get_current_snapshot-view :
      (table_name : Text) (db : Db)
      → law.view (get_current_snapshot pg table_name db).1 ≡ law.view db
  unfolding get_current_snapshot
  get_current_snapshot-view table_name db = law.select_changes_nothing (table_name ∷ []) db
