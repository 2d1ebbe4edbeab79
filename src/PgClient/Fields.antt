-- ===== src/PgClient/Fields.antt =====
-- src/db/pg_client.cpp: the partitions that are read from the cells in which the server prints them.
use ice_log.Prelude.{◌≡◌, refl, List, [], ◌∷◌, some, All, map}
use ice_log.Prelude.Words.{i64_bound}
use ice_log.Text.Decimal.{to_string_signed}
use ice_log.Text.RoundTrip.{InRange, stoll-to_string}
use ice_log.Outcome.{ok}
use ice_log.Postgres.{Cells, tuples_ok}
use ice_log.PgClient.{PartitionRow, partition_row, field_int64, field_str, read_rows}
use ice_log.PgClient.Partitions.{partition_rows}

-- The columns, as the server prints them.
abbrev pub printed : PartitionRow → Cells
printed p =
    some (to_string_signed p.partition_id)
    ∷ some (to_string_signed p.table_id)
    ∷ some (to_string_signed p.snapshot_id)
    ∷ some p.partition_key
    ∷ some p.data_file_path
    ∷ some p.file_format
    ∷ some (to_string_signed p.row_count)
    ∷ some (to_string_signed p.size_bytes)
    ∷ some p.column_stats_json
    ∷ []

-- The numbers are of type int64_t.
pub record Fits (p : PartitionRow) : Type 0 where
  pub partition_fits : InRange i64_bound p.partition_id
  pub table_fits : InRange i64_bound p.table_id
  pub snapshot_fits : InRange i64_bound p.snapshot_id
  pub rows_fit : InRange i64_bound p.row_count
  pub bytes_fit : InRange i64_bound p.size_bytes

partition_row-printed : (p : PartitionRow) → Fits p → partition_row (printed p) ≡ ok p
unfolding partition_row field_int64 field_str
partition_row-printed p h =
    rw
      (
        stoll-to_string p.partition_id h.partition_fits,
        stoll-to_string p.table_id h.table_fits,
        stoll-to_string p.snapshot_id h.snapshot_fits,
        stoll-to_string p.row_count h.rows_fit,
        stoll-to_string p.size_bytes h.bytes_fit,
      )
      refl

read_rows-printed :
    (parts : List PartitionRow)
    → All Fits parts
    → read_rows partition_row (map printed parts) ≡ ok parts
unfolding read_rows
read_rows-printed [] h = refl
read_rows-printed (p ∷ parts) (h, rest) =
    rw (partition_row-printed p h, read_rows-printed parts rest) refl

-- Partitions whose numbers are of type int64_t, printed by the server column by column, are read back as they are and
-- in their order, however many there are.
pub partition_rows-printed :
    (parts : List PartitionRow)
    → All Fits parts
    → partition_rows (record { status = tuples_ok; tuples = map printed parts; cmd_tuples = [] })
      ≡ ok (some parts)
unfolding partition_rows
partition_rows-printed parts h = rw (read_rows-printed parts h) refl
