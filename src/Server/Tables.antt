-- ===== src/Server/Tables.antt =====
-- src/server/metadata_server.cpp: the handlers on tables.
use ice_log.Prelude.{
  ℕ, List, [], ◌∷◌, ◌++◌, Option, none, some, Bool, true, false, ◌==◌, if◌then◌else◌, map,
}
use ice_log.Prelude.Int.{pos}
use ice_log.Prelude.Words.{to_uint64}
use ice_log.Text.{Text, codes, is_empty}
use ice_log.Outcome.{Outcome, ok}
use ice_log.Blocking.{pure, lift, ◌>>=◌, ◌>>◌}
use ice_log.Postgres.{Postgres}
use ice_log.Mvcc.{get_latest_committed_snapshot}
use ice_log.ConnectionPool.{Libpq}
use ice_log.PgClient.{PartitionRow, TableRow}
use ice_log.PartitionRegistry.{sum_rows}
use ice_log.PartitionRegistry.Guarded as Partitions
use ice_log.CatalogManager.{CatalogResult}
use ice_log.CatalogManager.Guarded as Catalog
use ice_log.SchemaStore.{validate_schema_change}
use ice_log.SchemaStore.Guarded as Schemas
use ice_log.System.{Run, read_mvcc}
use ice_log.Server.{
  Reply, replied, not_found, OperationResponse, CreateTableRequest, TableRequest,
  TableMetadataResponse, PartitionInfo, Alteration, new_schema_json, new_partition_spec, rename,
  alteration_not_set, AlterTableRequest, DropTableRequest, ListTablesRequest, TableSummary,
}

-- The loop over the properties; keys and values are written as they are, with nothing escaped.
unfoldable pub property_entries : Text → Bool → List (Text × Text) → Text
property_entries props first [] = props
property_entries props first ((k, v) ∷ entries) =
    let comma = if first then props else props ++ codes "," in
    property_entries (comma ++ (codes "\"" ++ (k ++ (codes "\":\"" ++ (v ++ codes "\""))))) false
      entries

unfoldable pub properties_json : List (Text × Text) → Text
properties_json [] = codes "{}"
properties_json (entry ∷ entries) = property_entries (codes "{") true (entry ∷ entries) ++ codes "}"

abbrev pub operation_response : CatalogResult → OperationResponse
operation_response result = record { success = result.success; error_msg = result.error_msg }

unfoldable pub partition_info : PartitionRow → PartitionInfo
partition_info p = record {
  partition_key = p.partition_key;
  data_file_path = p.data_file_path;
  row_count = p.row_count;
  size_bytes = p.size_bytes;
  snapshot_id = to_uint64 p.snapshot_id;
  file_format = p.file_format;
}

abbrev pub rows_or_none : Option (List PartitionRow) → List PartitionRow
rows_or_none none = []
rows_or_none (some rows) = rows

-- What GetTableMetadata sets.
unfoldable pub table_metadata : TableRow → ℕ → List PartitionRow → Outcome TableMetadataResponse
table_metadata table read_snapshot parts =
    ice_log.Outcome.◌>>=◌ (sum_rows (pos 0) (pos 0) parts) (λ (total_rows, total_bytes).
      ok (record {
        table_name = table.table_name;
        schema_json = table.schema_json;
        current_snapshot_id = read_snapshot;
        schema_version = table.schema_version;
        partitions = map partition_info parts;
        total_row_count = total_rows;
        total_size_bytes = total_bytes;
      }))

abbrev pub no_metadata : TableMetadataResponse
no_metadata = record {
  table_name = [];
  schema_json = [];
  current_snapshot_id = 0;
  schema_version = pos 0;
  partitions = [];
  total_row_count = pos 0;
  total_size_bytes = pos 0;
}

abbrev pub table_not_found : Text → Text
table_not_found table_name = codes "Table not found: " ++ table_name

-- The snapshot asked for; or the latest of the manager; or the table's own.
unfoldable pub snapshot_to_read : ℕ → ℕ → TableRow → ℕ
snapshot_to_read requested_snapshot latest table =
    let read_snapshot = if requested_snapshot == 0 then latest else requested_snapshot in
    if read_snapshot == 0 then to_uint64 table.current_snapshot_id else read_snapshot

unfoldable pub table_summary : TableRow → TableSummary
table_summary t = record {
  table_name = t.table_name;
  current_snapshot_id = to_uint64 t.current_snapshot_id;
}

module _ (pg : Postgres) (pq : Libpq) where
  unfoldable pub create_table : CreateTableRequest → Run pg pq (Reply OperationResponse)
  create_table req = do
    result ←
        Catalog.create_table pg pq req.table_name req.schema_json req.partition_spec
          (properties_json req.properties)
    pure (replied (operation_response result))

  unfoldable pub get_table_metadata : TableRequest → Run pg pq (Reply TableMetadataResponse)
  get_table_metadata req = do
    found ← Catalog.get_table pg pq req.table_name
    elim found [
      | none ↦
          pure
            (record { status = not_found (table_not_found req.table_name); response = no_metadata })
      | some table ↦ (do
        read_snapshot ← read_mvcc pg pq (λ mvcc.
            pure (snapshot_to_read req.snapshot_id (get_latest_committed_snapshot mvcc) table))
        parts ← Partitions.get_partitions pg pq req.table_name read_snapshot
        response ← lift (table_metadata table read_snapshot (rows_or_none parts))
        pure (replied response))
    ]

  -- The message of a change that is not let through, if any; a table that is not there has no schema to check.
  unfoldable pub check_change : Text → Text → Run pg pq Text
  check_change table_name proposed = do
    current ← Schemas.get_current_schema pg pq table_name
    elim current [
      | none ↦ pure []
      | some version ↦ pure (validate_schema_change version.schema_json proposed)
    ]

  -- The end of the handler, which only a refused change does not reach.
  abbrev pub invalidated : Text → OperationResponse → Run pg pq (Reply OperationResponse)
  invalidated table_name resp = do
    Partitions.invalidate_table_cache pg pq table_name
    pure (replied resp)

  unfoldable pub alter_with : Text → Alteration → Run pg pq (Reply OperationResponse)
  alter_with table_name (new_schema_json proposed) = do
    err ← check_change table_name proposed
    if is_empty err
        then (do
          result ←
              Catalog.alter_table_schema pg pq table_name proposed
                (codes "schema evolution via AlterTable")
          invalidated table_name (operation_response result))
        else pure (replied (record { success = false; error_msg = err }))
  alter_with table_name (rename new_name) = do
    result ← Catalog.rename_table pg pq table_name new_name
    invalidated table_name (operation_response result)
  alter_with table_name (new_partition_spec spec) =
      invalidated table_name
        (record { success = true; error_msg = codes "partition spec update not yet implemented" })
  alter_with table_name alteration_not_set =
      invalidated table_name
        (record { success = false; error_msg = codes "No alteration specified" })

  unfoldable pub alter_table : AlterTableRequest → Run pg pq (Reply OperationResponse)
  alter_table req = alter_with req.table_name req.alteration

  unfoldable pub drop_table : DropTableRequest → Run pg pq (Reply OperationResponse)
  drop_table req = do
    result ← Catalog.drop_table pg pq req.table_name req.purge
    if result.success
        then invalidated req.table_name (operation_response result)
        else pure (replied (operation_response result))

  unfoldable pub list_tables : ListTablesRequest → Run pg pq (Reply (List TableSummary))
  list_tables req = do
    tables ← Catalog.list_tables pg pq req.ns req.page_size req.page_token
    pure (replied (map table_summary tables))
