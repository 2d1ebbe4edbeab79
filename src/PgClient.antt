-- ===== src/PgClient.antt =====
-- src/db/pg_client.h and pg_client.cpp: the rows, the reading of fields, and the parts that the
-- methods of `PgClient` share. The children hold the methods.
pub mod Tables
pub mod Partitions
pub mod Snapshots
pub mod Effects
pub mod Keeps
pub mod Defined
pub mod Pointer
pub mod Fields
mod Tests
use ice_log.Prelude.{
  ℕ, zero, suc, ◌+◌, List, [], ◌∷◌, Option, none, some, Bool, true, false, if◌then◌else◌, ltb,
}
use ice_log.Prelude.Int.{ℤ, pos, negsuc}
use ice_log.Text.{Text}
use ice_log.Text.Decimal.{stoll, stoi, to_string_signed}
use ice_log.Outcome.{Outcome, ok, thrown, ◌>>=◌}
use ice_log.Session.{Session}
use ice_log.Postgres.{
  Postgres, PgResult, Cells, Statement, Command, ExecStatus, command_ok, tuples_ok, failed,
  select_table_id,
}

pub record PartitionRow : Type 0 where
  pub partition_id : ℤ
  pub table_id : ℤ
  pub snapshot_id : ℤ
  pub partition_key : Text
  pub data_file_path : Text
  pub file_format : Text
  pub row_count : ℤ
  pub size_bytes : ℤ
  pub column_stats_json : Text

pub record TableRow : Type 0 where
  pub table_id : ℤ
  pub table_name : Text
  pub schema_json : Text
  pub schema_version : ℤ
  pub partition_spec : Text
  pub current_snapshot_id : ℤ
  pub properties_json : Text

pub record SnapshotRow : Type 0 where
  pub snapshot_id : ℤ
  pub table_id : ℤ
  pub parent_snapshot_id : ℤ
  pub operation : Text
  pub added_files_count : ℤ
  pub deleted_files_count : ℤ
  pub committed_at : Text

-- A cell of a row; `PQgetisnull` also holds of a column that is not there.
abbrev pub cell : Cells → ℕ → Option Text
cell [] col = none
cell (c ∷ cells) zero = c
cell (c ∷ cells) (suc col) = cell cells col

unfoldable pub field_str : Cells → ℕ → Text
field_str row col = elim (cell row col) [ none ↦ [] | some value ↦ value ]

unfoldable pub field_int64 : Cells → ℕ → Outcome ℤ
field_int64 row col = elim (cell row col) [ none ↦ ok (pos 0) | some value ↦ stoll value ]

unfoldable pub field_int32 : Cells → ℕ → Outcome ℤ
field_int32 row col = elim (cell row col) [ none ↦ ok (pos 0) | some value ↦ stoi value ]

-- The columns of `get_table` and `list_tables`.
unfoldable pub table_row : Cells → Outcome TableRow
table_row row = do
  table_id ← field_int64 row 0
  schema_version ← field_int32 row 3
  current_snapshot_id ← field_int64 row 5
  ok (record {
    table_id = table_id;
    table_name = field_str row 1;
    schema_json = field_str row 2;
    schema_version = schema_version;
    partition_spec = field_str row 4;
    current_snapshot_id = current_snapshot_id;
    properties_json = field_str row 6;
  })

-- The columns of `query_partitions` and `query_partitions_paged`.
unfoldable pub partition_row : Cells → Outcome PartitionRow
partition_row row = do
  partition_id ← field_int64 row 0
  table_id ← field_int64 row 1
  snapshot_id ← field_int64 row 2
  row_count ← field_int64 row 6
  size_bytes ← field_int64 row 7
  ok (record {
    partition_id = partition_id;
    table_id = table_id;
    snapshot_id = snapshot_id;
    partition_key = field_str row 3;
    data_file_path = field_str row 4;
    file_format = field_str row 5;
    row_count = row_count;
    size_bytes = size_bytes;
    column_stats_json = field_str row 8;
  })

-- The columns of `get_snapshot` and `list_snapshots`.
unfoldable pub snapshot_row : Cells → Outcome SnapshotRow
snapshot_row row = do
  snapshot_id ← field_int64 row 0
  table_id ← field_int64 row 1
  parent_snapshot_id ← field_int64 row 2
  added_files_count ← field_int32 row 4
  deleted_files_count ← field_int32 row 5
  ok (record {
    snapshot_id = snapshot_id;
    table_id = table_id;
    parent_snapshot_id = parent_snapshot_id;
    operation = field_str row 3;
    added_files_count = added_files_count;
    deleted_files_count = deleted_files_count;
    committed_at = field_str row 6;
  })

-- The loop over the rows of a result.
unfoldable pub read_rows : {A : Type 0} → (Cells → Outcome A) → List Cells → Outcome (List A)
read_rows read [] = ok []
read_rows read (row ∷ rows) = do a ← read row; rest ← read_rows read rows; ok (a ∷ rest)

abbrev pub is_command_ok : PgResult → Bool
is_command_ok res = elim res.status [ command_ok ↦ true | _ ↦ false ]

abbrev pub is_tuples_ok : PgResult → Bool
is_tuples_ok res = elim res.status [ tuples_ok ↦ true | _ ↦ false ]

abbrev pub first_of : List Cells → Option Cells
first_of [] = none
first_of (row ∷ rows) = some row

-- `PQresultStatus(res) == PGRES_TUPLES_OK && PQntuples(res) > 0`, with the first row.
abbrev pub first_row : PgResult → Option Cells
first_row res = if is_tuples_ok res then first_of res.tuples else none

abbrev pub is_negative : ℤ → Bool
is_negative (pos n) = false
is_negative (negsuc n) = true

-- `limit > 0 ? limit : default`, printed.
abbrev pub limit_text : ℤ → ℕ → Text
limit_text (pos zero) otherwise = to_string_signed (pos otherwise)
limit_text (pos (suc n)) otherwise = to_string_signed (pos (suc n))
limit_text (negsuc n) otherwise = to_string_signed (pos otherwise)

module _ (pg : Postgres) where
  open pg use {Db, exec_params, exec}

  -- A statement whose result is asked only whether it went through.
  unfoldable pub run_command : Statement → List Text → Session Db Bool
  run_command statement params db =
      let (res, db') = exec_params statement params db in (ok (is_command_ok res), db')

  -- -1 where no such table is live, or the query fails.
  unfoldable pub get_table_id : Text → Session Db ℤ
  get_table_id table_name db =
      let (res, db') = exec_params select_table_id (table_name ∷ []) db in
      elim (first_row res) [ none ↦ (ok (negsuc 0), db') | some row ↦ (field_int64 row 0, db') ]

  -- `PQexec(conn, "BEGIN")` and so on; the sources do not look at the result.
  unfoldable pub run_exec : Command → Session Db (Unit {0})
  run_exec command db = let (res, db') = exec command db in (ok tt, db')
