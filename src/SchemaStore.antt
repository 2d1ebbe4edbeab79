-- ===== src/SchemaStore.antt =====
-- src/catalog/schema_store.h and schema_store.cpp: `SchemaStore`. A method here is what runs once the
-- table's guard and a connection have been granted; Guarded has the methods with them.
pub mod Validation
pub mod Guarded
mod Tests
use ice_log.Prelude.{
  ℕ, zero, List, [], ◌∷◌, Option, none, some, Bool, true, false, ◌||◌, not, ◌==◌, if◌then◌else◌,
}
use ice_log.Prelude.Int.{ℤ}
use ice_log.Text.{Text, codes, text_eq, back}
use ice_log.Text.Decimal.{stoi, to_string_signed}
use ice_log.Outcome.{Outcome, ok}
use ice_log.Outcome
use ice_log.Session.{Session, pure, ◌>>=◌, ◌>>◌}
use ice_log.Postgres.{Postgres, Cells, select_schema_version, select_schema_history}
use ice_log.PgClient.{field_str, first_row, read_rows, is_tuples_ok, is_negative, get_table_id}
use ice_log.PgClient.Tables

pub record SchemaVersion : Type 0 where
  pub version : ℤ
  pub schema_json : Text
  pub changed_at : Text
  pub change_summary : Text

-- A row of `schema_history`; `PQgetvalue` of NULL is the empty text.
unfoldable pub schema_version_row : Cells → Outcome SchemaVersion
schema_version_row row = Outcome.◌>>=◌ (stoi (field_str row 0)) λ version. ok (record {
  version = version;
  schema_json = field_str row 1;
  changed_at = field_str row 2;
  change_summary = field_str row 3;
})

module _ (pg : Postgres) where
  open pg use {Db, exec_params}

  unfoldable pub get_current_schema : Text → Session Db (Option SchemaVersion)
  get_current_schema table_name = do
    table ← Tables.get_table pg table_name
    elim table [
      | none ↦ pure none
      | some t ↦ pure (
          some (record {
            version = t.schema_version;
            schema_json = t.schema_json;
            changed_at = [];
            change_summary = codes "current";
          }))
    ]

  unfoldable pub get_schema_at_version : Text → ℤ → Session Db (Option SchemaVersion)
  get_schema_at_version table_name version = do
    table_id ← get_table_id pg table_name
    if is_negative table_id then pure none else λ db.
        let (res, db') =
          exec_params select_schema_version
            (to_string_signed table_id ∷ to_string_signed version ∷ []) db in
        elim (first_row res) [
          | none ↦ (ok none, db')
          | some row ↦ (Outcome.◌>>=◌ (schema_version_row row) (λ v. ok (some v)), db')
        ]

  unfoldable pub list_schema_history : Text → Session Db (List SchemaVersion)
  list_schema_history table_name = do
    table_id ← get_table_id pg table_name
    if is_negative table_id then pure [] else λ db.
        let (res, db') = exec_params select_schema_history (to_string_signed table_id ∷ []) db in
        if is_tuples_ok res then (read_rows schema_version_row res.tuples, db') else (ok [], db')

-- The current schema is not used. An empty message means that the change is accepted.
unfoldable pub validate_schema_change : Text → Text → Text
validate_schema_change current_json [] = codes "Proposed schema cannot be empty"
validate_schema_change current_json (c ∷ s) =
    if text_eq (c ∷ s) (codes "{}")
    then codes "Proposed schema cannot be empty"
    else if not (c == b'{') || not (back c s == b'}')
    then codes "Proposed schema must be valid JSON object"
    else []
