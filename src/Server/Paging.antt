-- ===== src/Server/Paging.antt =====
-- src/server/metadata_server.cpp: `GetPartitions` by pages, and a client that follows the page tokens.
pub mod Tokens
use mathlib.Core.List.{map-append}
use ice_log.Prelude.{
  ℕ, zero, suc, ◌<◌, ◌≡◌, ◌≢◌, refl, ap, sym, ◌∙◌, List, [], ◌∷◌, ◌++◌, Option, some, All, arith,
  take, length, map, subst,
}
use ice_log.Prelude.Int.{ℤ, pos}
use ice_log.Prelude.Words.{i64_bound}
use ice_log.Text.{Text}
use ice_log.Text.Decimal.{parse_sign, skip_space, stoll, to_string, to_string_signed}
use ice_log.Text.RoundTrip.{InRange, stoll-to_string}
use ice_log.Outcome.{ok}
use ice_log.Blocking.{continue, pure, ◌>>=◌}
use ice_log.Mvcc.{MvccManager}
use ice_log.Postgres.{Postgres, PgResult, select_partitions_paged}
use ice_log.ConnectionPool.{Libpq}
use ice_log.ConnectionPool.Capacity.{IsUp}
use ice_log.PgClient.{PartitionRow, get_table_id}
use ice_log.PgClient.Partitions.{partition_rows, query_partitions_paged}
use ice_log.PartitionRegistry.{Cache, read_snapshot, on_db}
use ice_log.PartitionRegistry
use ice_log.PartitionRegistry.Listing.{
  after-All, last_id-All, after-keeps, after, Ascending, last_id, drop, after-Ascending,
  after-after, after-page, last_id-le, take-drop, length-drop_le,
}
use ice_log.PartitionRegistry.Guarded.{registry-Implements}
use ice_log.System.{System, Run}
use ice_log.System.Implements.{IsReady}
use ice_log.Server.{Reply, replied, PartitionInfo, PartitionRequest, PartitionListResponse}
use ice_log.Server.Tables.{partition_info}
use ice_log.Server.Partitions.{
  get_partitions, last_id_of, caught, last_token, partition_list, list_reply,
}
use ice_log.Server.Ends.{IsIdle}

-- What the server answers about a table at a snapshot, in this state of the database: the table's identifier, and to
-- the statement with ORDER BY partition_id and LIMIT the first rows above the identifier given.
pub record IsListing (pg : Postgres) (db : pg.Db) (table_name : Text) (snapshot_id table_id : ℕ)
    (rows : List PartitionRow) : Type 0 where
  pub found : get_table_id pg table_name db ≡ (ok (pos table_id), db)
  pub ascending : Ascending (pos 0) rows
  pub in_range : All (λ p. InRange i64_bound p.partition_id) rows
  pub page :
      (last : ℤ) (limit : ℕ)
      → InRange i64_bound last
      → (res : PgResult) × (pg.exec_params select_partitions_paged
            (to_string_signed (pos table_id)
              ∷ to_string snapshot_id
              ∷ to_string_signed last
              ∷ to_string_signed (pos limit)
              ∷ [])
            db
          ≡ (res, db))
        × (partition_rows res ≡ ok (some (take limit (after last rows))))

abbrev pub request : Text → ℕ → ℕ → Text → PartitionRequest
request table_name snapshot_id n page_token = record {
  table_name = table_name;
  snapshot_id = snapshot_id;
  page_size = pos (suc n);
  page_token = page_token;
}

module _ (pg : Postgres) (pq : Libpq) where
  -- The rows of a page, and then those of the rest; an empty page is the last one.
  abbrev pub and_rest :
      (Text → Run pg pq (List PartitionInfo))
      → Reply PartitionListResponse
      → Run pg pq (List PartitionInfo)
  and_rest rest reply = elim reply.response.partitions [
    | [] ↦ pure []
    | p ∷ ps ↦ (do infos ← rest reply.response.next_page_token; pure (p ∷ ps ++ infos))
  ]

  -- A client that asks for pages until one is empty; no more of them than the fuel.
  unfoldable pub follow : ℕ → PartitionRequest → Run pg pq (List PartitionInfo)
  follow zero req = pure []
  follow (suc fuel) req = do
    reply ← get_partitions pg pq req
    and_rest (λ page_token. follow fuel (record req { page_token = page_token })) reply

  query_page :
      (db : pg.Db) (table_name : Text) (snapshot_id table_id : ℕ) (rows : List PartitionRow)
      (last : ℤ) (n : ℕ)
      → IsListing pg db table_name snapshot_id table_id rows
      → InRange i64_bound last
      → query_partitions_paged pg table_name snapshot_id (pos (suc n)) last db
        ≡ (ok (some (take (suc n) (after last rows))), db)
  unfolding query_partitions_paged
  query_page db table_name snapshot_id table_id rows last n l h =
      let (res, e, r) = l.page last (suc n) h in ground (arith, l.found, e, r)

  read_page :
      (mvcc : MvccManager) (cache : Cache) (db : pg.Db) (table_name : Text)
      (snapshot_id table_id : ℕ) (rows : List PartitionRow) (last : ℤ) (n : ℕ)
      → snapshot_id ≢ 0
      → IsListing pg db table_name snapshot_id table_id rows
      → InRange i64_bound last
      → PartitionRegistry.get_partitions_paged pg mvcc table_name snapshot_id
          (pos (suc n))
          last
          (cache, db)
        ≡ (ok (some (take (suc n) (after last rows))), (cache, db))
  unfolding PartitionRegistry.get_partitions_paged read_snapshot
  read_page mvcc cache db table_name snapshot_id table_id rows last n ne l h =
      ground (arith, ne, query_page db table_name snapshot_id table_id rows last n l h)

  -- One page, from the handler.
  pub one_page :
      (table_name token : Text) (snapshot_id table_id : ℕ) (rows : List PartitionRow) (n : ℕ)
      (s : System pg pq)
      → IsUp pq
      → snapshot_id ≢ 0
      → IsListing pg s.db table_name snapshot_id table_id rows
      → InRange i64_bound (last_id_of token)
      → IsIdle pg pq s
      → (next : System pg pq) × (get_partitions pg pq (request table_name snapshot_id n token) s
          ≡ some (
            ok (
                replied
                  (partition_list (pos (suc n)) (take (suc n) (after (last_id_of token) rows)))),
            next,
          ))
        × IsIdle pg pq next
        × (next.db ≡ s.db)
  unfolding get_partitions list_reply
  one_page table_name token snapshot_id table_id rows n s up ne l h idle =
      let last = last_id_of token in
      let ready : IsReady pg pq [] s.mvcc s = record {
        unheld = λ table free. idle.unheld table;
        connected = idle.connected;
        manager = refl;
      } in
      let (next, e, left) =
        (registry-Implements pg pq s.mvcc table_name [] snapshot_id (pos (suc n)) last [] [] up).0 s
          ready in
      let r = read_page s.mvcc s.cache s.db table_name snapshot_id table_id rows last n ne l h in
      let idle' : IsIdle pg pq next = record {
        unheld = λ table. left.same_locks table ∙ idle.unheld table;
        connected = omega (arith, idle.connected, left.same_available);
      } in
      let answer = λ (result : Option (List PartitionRow)) (s' : System pg pq).
        some (ok (list_reply table_name (pos (suc n)) result), s') in
      (
        next,
        ap (λ v. continue v answer) (e ∙ ap (λ o. some (o.0, next)) r),
        idle',
        ap (λ p. p.1) left.same_parts ∙ ap (λ r. r.1.1) r,
      )
