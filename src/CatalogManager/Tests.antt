-- ===== src/CatalogManager/Tests.antt =====
-- Runs of src/catalog/catalog_manager.cpp on a small server, and the theorems at them.
use ice_log.Prelude.{◌≡◌, refl, none, true}
use ice_log.Prelude.Int.{pos}
use ice_log.Text.{codes}
use ice_log.Outcome.{ok}
use ice_log.Postgres.Tests.{server, server_transactions}
use ice_log.CatalogManager.{drop_table, alter_in_transaction, CatalogResult}
use ice_log.CatalogManager.Transaction.{
  Ends, Dropped, Altered, drop_table_lem, alter_in_transaction_lem,
}

drop_table_lem_example :
    (r : CatalogResult) × (db' : server.Db) × (drop_table server (codes "t") true (5, none)
      ≡ (ok r, db'))
    × Ends server_transactions (Dropped server_transactions (codes "t") true) (5, none) r db'
drop_table_lem_example = drop_table_lem server_transactions (codes "t") true (5, none) refl

alter_in_transaction_lem_example :
    (r : CatalogResult) × (db' : server.Db) × (alter_in_transaction server
        (codes "t")
        (codes "{}")
        (pos 2)
        (codes "s")
        (5, none)
      ≡ (ok r, db'))
    × Ends server_transactions
        (Altered server_transactions (codes "t") (codes "{}") (pos 2) (codes "s"))
        (5, none)
        r
        db'
alter_in_transaction_lem_example =
    alter_in_transaction_lem server_transactions (codes "t") (codes "{}") (pos 2) (codes "s")
      (5, none) refl
