-- ===== src/Postgres/Tests.antt =====
-- A small server: one pointer, which every table has, and one transaction at a time.
pub mod Store
use ice_log.Prelude.{
  ℕ, ◌+◌, ◌%◌, ◌≡◌, ◌≢◌, ◌<◌, refl, ap, ◌∙◌, List, [], ◌∷◌, Option, none, some, All, arith,
}
use ice_log.Prelude.Int.{pos}
use ice_log.Prelude.Words.{i64_bound}
use ice_log.Text.{Text, codes}
use ice_log.Text.Decimal.{to_string, to_string_signed, digits_value, digits_value-to_string}
use ice_log.Text.RoundTrip.{stoll-to_string}
use ice_log.Prelude.Words.{to_uint64}
use ice_log.Outcome.{ok}
use ice_log.PgClient.{field_int64}
use ice_log.PgClient.Snapshots.{returned_id}
use ice_log.Postgres.Pointers.{Pointers, KeepsPointer}
use ice_log.Postgres.Pointers
use ice_log.Postgres.{
  Postgres, PgResult, Statement, Command, begin, commit, rollback, command_ok, tuples_ok,
  select_table_id, select_partitions, insert_snapshot_row, select_current_snapshot,
  update_current_snapshot,
}
use ice_log.Postgres.Transactions.{
  Transactions, StartsWithId, ReturnsId, of_table_id, of_new_snapshot, of_current_snapshot,
}

abbrev pub Counter : Type 0
Counter = ℕ × Option ℕ

abbrev pub done : PgResult
done = record { status = command_ok; tuples = []; cmd_tuples = codes "1" }

abbrev pub id_row : ℕ → PgResult
id_row n = record {
  status = tuples_ok;
  tuples = (some (to_string_signed (pos (n % i64_bound))) ∷ []) ∷ [];
  cmd_tuples = codes "1";
}

-- Every table has one partition.
abbrev pub partitions : PgResult
partitions = record {
  status = tuples_ok;
  tuples =
      (some (codes "1")
        ∷ some (codes "1")
        ∷ some (codes "5")
        ∷ some (codes "day=1")
        ∷ some (codes "f")
        ∷ some (codes "parquet")
        ∷ some (codes "10")
        ∷ some (codes "100")
        ∷ none
        ∷ [])
      ∷ [];
  cmd_tuples = codes "1";
}

abbrev pub target : List Text → ℕ
target [] = 0
target (t ∷ params) = digits_value 0 t

abbrev pub run : Statement → List Text → Counter → PgResult × Counter
run select_table_id params db = (id_row 1, db)
run insert_snapshot_row params db = (id_row (db.0 + 1), db)
run select_current_snapshot params db = (id_row (db.0), db)
run select_partitions params db = (partitions, db)
run update_current_snapshot params db = (done, (target params, db.1))
run _ params db = (done, db)

abbrev pub control : Command → Counter → PgResult × Counter
control begin (n, none) = (done, (n, some n))
control begin (n, some v) = (done, (n, some v))
control commit (n, s) = (done, (n, none))
control rollback (n, none) = (done, (n, none))
control rollback (n, some v) = (done, (v, none))

abbrev pub server : Postgres
server = record { Db = Counter; exec_params = run; exec = control }

pub id_row-starts : (n : ℕ) → All StartsWithId (id_row n).tuples
id_row-starts n = ((pos (n % i64_bound), [], (omega arith, omega arith), refl), tt)

pub run-saved : (s : Statement) (params : List Text) (db : Counter) → (run s params db).1.1 ≡ db.1
run-saved s params db = ground arith

pub ids :
    (s : Statement) (params : List Text) (db : Counter)
    → ReturnsId s
    → All StartsWithId (run s params db).0.tuples
ids s params db of_table_id = id_row-starts 1
ids s params db of_new_snapshot = id_row-starts (db.0 + 1)
ids s params db of_current_snapshot = id_row-starts db.0

pub rollback-view : (db : Counter) (v : ℕ) → db.1 ≡ some v → (control rollback db).1.0 ≡ v
rollback-view (n, none) v e = cc
rollback-view (n, some w) v e = cc

pub begin-saved : (db : Counter) → db.1 ≡ none → (control begin db).1.1 ≡ some db.0
begin-saved (n, none) e = refl
begin-saved (n, some w) e = cc

pub rollback-saved : (db : Counter) → (control rollback db).1.1 ≡ none
rollback-saved (n, none) = refl
rollback-saved (n, some w) = refl

abbrev pub server_transactions : Transactions server
server_transactions = record {
  View = ℕ;
  view = λ db. db.0;
  saved = λ db. db.1;
  begin_saves = begin-saved;
  commit_ends = λ db. refl;
  rollback_ends = rollback-saved;
  rollback_restores = rollback-view;
  statement_stays_inside = λ s params db. run-saved s params db;
  select_changes_nothing = λ params db. refl;
  ids = λ s params db r. ids s params db r;
}

pub returned_id-id_row : (m : ℕ) → returned_id (id_row m) ≡ ok (m % i64_bound)
unfolding returned_id field_int64 to_uint64
returned_id-id_row m =
    let read = stoll-to_string (pos (m % i64_bound)) (omega arith, omega arith) in
    ground (arith, read)

pub reads : (m n : ℕ) → some (m % i64_bound) ≡ some n → returned_id (id_row m) ≡ ok n
reads m n q = ground (arith, returned_id-id_row m, q)

pub keeps :
    (s : Statement) (params : List Text) (db : Counter)
    → KeepsPointer s
    → (run s params db).1.0 ≡ db.0
keeps s params db Pointers.of_table_id = refl
keeps s params db Pointers.of_new_snapshot = refl
keeps s params db Pointers.of_new_partition = refl
keeps s params db Pointers.of_deletion = refl
keeps s params db Pointers.of_current_snapshot = refl

pub begin-keeps : (db : Counter) → (control begin db).1.0 ≡ db.0
begin-keeps (n, none) = refl
begin-keeps (n, some w) = refl

pub moves :
    (snap : ℕ) → snap < i64_bound → some (digits_value 0 (to_string snap) % i64_bound) ≡ some snap
moves snap bound =
    ap (λ n. some (n % i64_bound)) (digits_value-to_string snap) ∙ ap some (omega arith)

pub new_ids :
    (m n snap : ℕ)
    → some (m % i64_bound) ≡ some n
    → returned_id (id_row (m + 1)) ≡ ok snap
    → snap ≢ 0
    → (snap ≢ n) × (snap < i64_bound)
new_ids m n snap q e nz =
    let at : (m + 1) % i64_bound ≡ snap = ground (arith, e, returned_id-id_row (m + 1)) in
    let old : m % i64_bound ≡ n = ground (arith, q) in
    (λ same. omega (arith, at, old, same), omega (arith, at))

abbrev pub server_pointers : Pointers server
server_pointers = record {
  pointer = λ table db. some (db.0 % i64_bound);
  reads = λ table db n q. reads db.0 n q;
  moves = λ table db n snap q bound e. moves snap bound;
  keeps = λ table s params db k. ap (λ n. some (n % i64_bound)) (keeps s params db k);
  begin_keeps = λ table db. ap (λ n. some (n % i64_bound)) (begin-keeps db);
  commit_keeps = λ table s params db e. refl;
  new_ids = λ table params db n snap q e nz. new_ids db.0 n snap q e nz;
}
