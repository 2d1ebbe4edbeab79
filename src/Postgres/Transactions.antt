-- ===== src/Postgres/Transactions.antt =====
-- What the sources rely on of PostgreSQL's transactions and of its id columns, while the connection is up.
use ice_log.Prelude.{◌≡◌, List, ◌∷◌, Option, none, some, All}
use ice_log.Prelude.Int.{ℤ}
use ice_log.Prelude.Words.{i64_bound}
use ice_log.Text.{Text}
use ice_log.Text.Decimal.{to_string_signed}
use ice_log.Text.RoundTrip.{InRange}
use ice_log.Postgres.{
  Postgres, Cells, Statement, begin, commit, rollback, select_table_id, insert_snapshot_row,
  select_current_snapshot,
}

-- A row whose first column is a BIGINT, printed.
abbrev pub StartsWithId : Cells → Type 0
StartsWithId row =
    (id : ℤ) × (rest : Cells) × InRange i64_bound id × (row ≡ some (to_string_signed id) ∷ rest)

-- The statements that return an id column of type BIGINT.
pub data ReturnsId : Statement → Type 0 where
  of_table_id : ReturnsId select_table_id
  of_new_snapshot : ReturnsId insert_snapshot_row
  of_current_snapshot : ReturnsId select_current_snapshot

-- `view` is the part of the database that a rollback restores, and `saved` is the view at the BEGIN of the
-- transaction that is open, if one is.
pub record Transactions (pg : Postgres) : Type 1 where
  pub View : Type 0
  pub view : pg.Db → View
  pub saved : pg.Db → Option View
  pub begin_saves : (db : pg.Db) → saved db ≡ none → saved (pg.exec begin db).1 ≡ some (view db)
  pub commit_ends : (db : pg.Db) → saved (pg.exec commit db).1 ≡ none
  pub rollback_ends : (db : pg.Db) → saved (pg.exec rollback db).1 ≡ none
  pub rollback_restores :
      (db : pg.Db) (v : View) → saved db ≡ some v → view (pg.exec rollback db).1 ≡ v
  pub statement_stays_inside :
      (s : Statement) (params : List Text) (db : pg.Db)
      → saved (pg.exec_params s params db).1 ≡ saved db
  pub select_changes_nothing :
      (params : List Text) (db : pg.Db)
      → view (pg.exec_params select_current_snapshot params db).1 ≡ view db
  pub ids :
      (s : Statement) (params : List Text) (db : pg.Db)
      → ReturnsId s
      → All StartsWithId (pg.exec_params s params db).0.tuples
