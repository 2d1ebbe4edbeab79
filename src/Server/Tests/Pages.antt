-- ===== src/Server/Tests/Pages.antt =====
-- A small server that lists three partitions by pages, and the theorem on page tokens at it.
use ice_log.Prelude.{ℕ, ◌≡◌, ◌≢◌, refl, ap, sym, ◌∙◌, List, [], ◌∷◌, some, All, arith, take, map}
use ice_log.Prelude.Int.{ℤ, pos}
use ice_log.Prelude.Words.{i64_bound}
use ice_log.Text.{Text, codes}
use ice_log.Text.Decimal.{
  stoll, parse_sign, skip_space, to_string, to_string_signed, to_digits, parse_digits, in_range,
  digits_value, digits_value-to_string,
}
use ice_log.Text.RoundTrip.{InRange, stoll-to_string}
use ice_log.Outcome.{ok}
use ice_log.Postgres.{
  Postgres, PgResult, Cells, Statement, tuples_ok, select_table_id, select_partitions_paged,
}
use ice_log.Postgres.Tests.{done, id_row}
use ice_log.LruCache
use ice_log.Mvcc
use ice_log.UnorderedMap.{find}
use ice_log.ConnectionPool.{available}
use ice_log.PgClient.{PartitionRow, get_table_id, partition_row, field_int64, field_str, read_rows}
use ice_log.PgClient.Partitions.{partition_rows}
use ice_log.PartitionRegistry.Listing.{after, after-All, take-All}
use ice_log.System.{System}
use ice_log.System.Tests.{steady, steady-IsUp}
use ice_log.Server.Partitions.{caught}
use ice_log.Server.Ends.{IsIdle}
use ice_log.Server.Paging.{IsListing}
use ice_log.Server.Paging.Tokens.{Lists, follow_lem}

abbrev row : ℤ → PartitionRow
row id = record {
  partition_id = id;
  table_id = pos 1;
  snapshot_id = pos 5;
  partition_key = codes "day=1";
  data_file_path = codes "f";
  file_format = codes "parquet";
  row_count = pos 10;
  size_bytes = pos 100;
  column_stats_json = codes "{}";
}

abbrev rows : List PartitionRow
rows = row (pos 1) ∷ row (pos 2) ∷ row (pos 4) ∷ []

abbrev cells : PartitionRow → Cells
cells p =
    some (to_string_signed p.partition_id)
    ∷ some (codes "1")
    ∷ some (codes "5")
    ∷ some (codes "day=1")
    ∷ some (codes "f")
    ∷ some (codes "parquet")
    ∷ some (codes "10")
    ∷ some (codes "100")
    ∷ some (codes "{}")
    ∷ []

-- The rows above the third parameter, no more than the fourth says.
abbrev answer : List Text → PgResult
answer (table ∷ snapshot ∷ last ∷ limit ∷ []) = record {
  status = tuples_ok;
  tuples = map cells (take (digits_value 0 limit) (after (caught (stoll last)) rows));
  cmd_tuples = [];
}
answer params = done

abbrev run : Statement → List Text → ℕ → PgResult × ℕ
run select_table_id params db = (id_row 1, db)
run select_partitions_paged params db = (answer params, db)
run _ params db = (done, db)

abbrev lister : Postgres
lister = record { Db = ℕ; exec_params = run; exec = λ c db. (done, db) }

-- A row of this listing.
abbrev IsRow : PartitionRow → Type 0
IsRow p = (p ≡ row p.partition_id) × InRange i64_bound p.partition_id

numbers : Unit {0}
unfolding stoll parse_sign skip_space to_string_signed to_string to_digits parse_digits in_range
    digits_value
numbers = tt

one : stoll (codes "1") ≡ ok (pos 1)
unfolding numbers
one = refl

five : stoll (codes "5") ≡ ok (pos 5)
unfolding numbers
five = refl

ten : stoll (codes "10") ≡ ok (pos 10)
unfolding numbers
ten = refl

hundred : stoll (codes "100") ≡ ok (pos 100)
unfolding numbers
hundred = refl

row_read : (id : ℤ) → InRange i64_bound id → partition_row (cells (row id)) ≡ ok (row id)
unfolding partition_row field_int64 field_str
row_read id h = rw (stoll-to_string id h, one, five, ten, hundred) refl

rows_read : (l : List PartitionRow) → All IsRow l → read_rows partition_row (map cells l) ≡ ok l
unfolding read_rows
rows_read [] h = refl
rows_read (p ∷ l) h =
    let first = row_read p.partition_id h.0.1 ∙ ap ok (sym h.0.0) in
    rw (first, rows_read l h.1) refl

three : All IsRow rows
three = (
  (refl, (omega arith, omega arith)),
  ((refl, (omega arith, omega arith)), ((refl, (omega arith, omega arith)), tt)),
)

listed :
    (last : ℤ) (limit : ℕ)
    → InRange i64_bound last
    → partition_rows
        (answer (codes "1" ∷ codes "5" ∷ to_string_signed last ∷ to_string_signed (pos limit) ∷ []))
      ≡ ok (some (take limit (after last rows)))
unfolding partition_rows to_string_signed caught
listed last limit h =
    let shown = take limit (after last rows) in
    let read =
      rows_read shown (take-All IsRow limit (after last rows) (after-All IsRow last rows three)) in
    rw (digits_value-to_string limit, stoll-to_string last h, read) refl

in_bounds : All (λ p. InRange i64_bound p.partition_id) rows
in_bounds =
    ((omega arith, omega arith), ((omega arith, omega arith), ((omega arith, omega arith), tt)))

table_found : (db : ℕ) → get_table_id lister (codes "t") db ≡ (ok (pos 1), db)
unfolding numbers get_table_id field_int64
table_found db = refl

snapshot_text : to_string 5 ≡ codes "5"
unfolding numbers
snapshot_text = refl

table_text : to_string_signed (pos 1) ≡ codes "1"
unfolding numbers
table_text = refl

lister-IsListing : IsListing lister 0 (codes "t") 5 1 rows
lister-IsListing = record {
  found = table_found 0;
  ascending = (omega arith, (omega arith, (omega arith, tt)));
  in_range = in_bounds;
  page = λ last limit h. (
    _,
    refl,
    ap
          (λ (t : Text × Text).
            partition_rows
              (answer (t.0 ∷ t.1 ∷ to_string_signed last ∷ to_string_signed (pos limit) ∷ [])))
          {x = (to_string_signed (pos 1), to_string 5)} {y = (codes "1", codes "5")}
          (λ i. (table_text i, snapshot_text i))
        ∙ listed last limit h,
  );
}

-- One connection, and nobody holds a lock.
abbrev lister_idle : System lister steady
lister_idle = record {
  locks = [];
  pool = record { pool_size = 1; available_connections = 0 ∷ [] };
  conns = 1;
  cache = LruCache.init 2;
  db = 0;
  mvcc = Mvcc.init (pos 60);
}

lister_idle-IsIdle : IsIdle lister steady lister_idle
unfolding available find
lister_idle-IsIdle = record { unheld = λ table. refl; connected = omega arith }

snapshot_five : ◌≢◌ {A = ℕ} 5 0
snapshot_five e = omega (arith, e)

-- Three rows by pages of two: two rows, then one, then none.
follow_lem_example : Lists lister steady (codes "t") 5 1 4 [] lister_idle rows
follow_lem_example =
    follow_lem lister steady (codes "t") 5 1 1 rows steady-IsUp snapshot_five 4 lister_idle
      lister-IsListing lister_idle-IsIdle (omega arith)
