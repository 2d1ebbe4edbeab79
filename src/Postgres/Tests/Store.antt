-- ===== src/Postgres/Tests/Store.antt =====
-- A small server with one table, which keeps its partitions with the snapshots that made and deleted them.
use ice_log.Prelude.{
  ℕ, ◌+◌, ◌≡◌, ◌<◌, refl, ap, ◌∙◌, List, [], ◌∷◌, Option, none, some, Bool, true, ◌&&◌, All, arith,
  if◌then◌else◌, leb, ltb,
}
use ice_log.Text.{Text, codes, text_eq}
use ice_log.Text.Decimal.{to_string, digits_value, digits_value-to_string}
use ice_log.Postgres.{
  Postgres, PgResult, Cells, Statement, Command, begin, commit, rollback, tuples_ok,
  select_table_id, select_partitions, insert_snapshot_row, select_current_snapshot,
  update_current_snapshot, insert_partition_row, update_partition_deleted,
}
use ice_log.Postgres.Tests.{done, id_row, id_row-starts, target}
use ice_log.Postgres.Transactions.{
  Transactions, StartsWithId, ReturnsId, of_table_id, of_new_snapshot, of_current_snapshot,
}
use ice_log.Postgres.History.{History, KeepsPartitions}
use ice_log.Postgres.History

pub record Stored : Type 0 where
  pub snapshot : ℕ
  pub key : Text
  pub deleted : Option ℕ

-- The table's pointer and its partitions; and those at the BEGIN of the transaction that is open, if one is.
abbrev pub Content : Type 0
Content = ℕ × List Stored

abbrev pub Db : Type 0
Db = Content × Option Content

-- `snapshot_id <= $2 AND (is_deleted = false OR deleted_snapshot_id > $2)`
abbrev pub shows : ℕ → Stored → Bool
shows snap p = leb p.snapshot snap && (elim p.deleted [ none ↦ true | some later ↦ ltb snap later ])

abbrev pub cells : Stored → Cells
cells p =
    some (codes "1")
    ∷ some (codes "1")
    ∷ some (to_string p.snapshot)
    ∷ some p.key
    ∷ some (codes "f")
    ∷ some (codes "parquet")
    ∷ some (codes "10")
    ∷ some (codes "100")
    ∷ none
    ∷ []

unfoldable pub shown : ℕ → List Stored → List Cells
shown snap [] = []
shown snap (p ∷ l) = let rest = shown snap l in if shows snap p then cells p ∷ rest else rest

unfoldable pub mark : ℕ → Text → List Stored → List Stored
mark later key [] = []
mark later key (p ∷ l) =
    (if text_eq key p.key
      then (elim p.deleted [ none ↦ record p { deleted = some later } | some n ↦ p ])
      else p)
    ∷ mark later key l

abbrev pub insert : List Text → List Stored → List Stored
insert (table ∷ snap ∷ key ∷ rest) l =
    record { snapshot = digits_value 0 snap; key = key; deleted = none } ∷ l
insert params l = l

abbrev pub delete : List Text → List Stored → List Stored
delete (snap ∷ table ∷ key ∷ rest) l = mark (digits_value 0 snap) key l
delete params l = l

abbrev pub listing : List Text → List Stored → List Cells
listing (table ∷ snap ∷ rest) l = shown (digits_value 0 snap) l
listing params l = []

abbrev pub run : Statement → List Text → Db → PgResult × Db
run select_table_id params db = (id_row 1, db)
run insert_snapshot_row params ((n, l), s) = (id_row (n + 1), ((n, l), s))
run select_current_snapshot params ((n, l), s) = (id_row n, ((n, l), s))
run select_partitions params ((n, l), s) =
    (record { status = tuples_ok; tuples = listing params l; cmd_tuples = [] }, ((n, l), s))
run update_current_snapshot params ((n, l), s) = (done, ((target params, l), s))
run insert_partition_row params ((n, l), s) = (done, ((n, insert params l), s))
run update_partition_deleted params ((n, l), s) = (done, ((n, delete params l), s))
run _ params db = (done, db)

abbrev pub control : Command → Db → PgResult × Db
control begin (c, none) = (done, (c, some c))
control begin (c, some v) = (done, (c, some v))
control commit (c, s) = (done, (c, none))
control rollback (c, none) = (done, (c, none))
control rollback (c, some v) = (done, (v, none))

abbrev pub store : Postgres
store = record { Db = Db; exec_params = run; exec = control }

pub begin-saved : (db : Db) → db.1 ≡ none → (control begin db).1.1 ≡ some db.0
begin-saved (c, none) e = refl
begin-saved (c, some w) e = cc

pub rollback-saved : (db : Db) → (control rollback db).1.1 ≡ none
rollback-saved (c, none) = refl
rollback-saved (c, some w) = refl

pub rollback-view : (db : Db) (v : Content) → db.1 ≡ some v → (control rollback db).1.0 ≡ v
rollback-view (c, none) v e = cc
rollback-view (c, some w) v e = cc

pub run-saved : (s : Statement) (params : List Text) (db : Db) → (run s params db).1.1 ≡ db.1
run-saved s params db = ground arith

pub ids :
    (s : Statement) (params : List Text) (db : Db)
    → ReturnsId s
    → All StartsWithId (run s params db).0.tuples
ids s params db of_table_id = id_row-starts 1
ids s params db of_new_snapshot = id_row-starts (db.0.0 + 1)
ids s params db of_current_snapshot = id_row-starts db.0.0

abbrev pub store_transactions : Transactions store
store_transactions = record {
  View = Content;
  view = λ db. db.0;
  saved = λ db. db.1;
  begin_saves = begin-saved;
  commit_ends = λ db. refl;
  rollback_ends = rollback-saved;
  rollback_restores = rollback-view;
  statement_stays_inside = run-saved;
  select_changes_nothing = λ params db. refl;
  ids = ids;
}

pub begin-content : (db : Db) → (control begin db).1.0 ≡ db.0
begin-content (c, none) = refl
begin-content (c, some w) = refl

-- A row of a later snapshot is not shown.
pub shown-insert :
    (snap later : ℕ) (id : Text) (rest : List Text) (l : List Stored)
    → snap < later
    → shown snap (insert (id ∷ to_string later ∷ rest) l) ≡ shown snap l
unfolding shown
shown-insert snap later id [] l older = refl
shown-insert snap later id (key ∷ rest) l older =
    ground (arith, older, digits_value-to_string later)

-- A row deleted in a later snapshot is still shown.
shown-mark :
    (snap later : ℕ) (key : Text) (l : List Stored)
    → snap < later
    → shown snap (mark later key l) ≡ shown snap l
unfolding shown mark
shown-mark snap later key [] older = refl
shown-mark snap later key (p ∷ l) older = ground (arith, older, shown-mark snap later key l older)

pub shown-delete :
    (snap later : ℕ) (rest : List Text) (l : List Stored)
    → snap < later
    → shown snap (delete (to_string later ∷ rest) l) ≡ shown snap l
shown-delete snap later [] l older = refl
shown-delete snap later (id ∷ []) l older = refl
shown-delete snap later (id ∷ key ∷ rest) l older =
    ap (λ n. shown snap (mark n key l)) (digits_value-to_string later)
    ∙ shown-mark snap later key l older

pub kept :
    (snap : ℕ) (s : Statement) (params : List Text) (db : Db)
    → KeepsPartitions s
    → shown snap (run s params db).1.0.1 ≡ shown snap db.0.1
kept snap s params db History.of_table_id = refl
kept snap s params db History.of_new_snapshot = refl
kept snap s params db History.of_current_snapshot = refl
kept snap s params db History.of_pointer = refl

abbrev pub store_history : History store
store_history = record {
  rows = λ table_id snap db. shown snap db.0.1;
  reads = λ table_id snap db e. ap (λ n. shown n db.0.1) (digits_value-to_string snap);
  keeps = λ table_id snap s params db k. kept snap s params db k;
  new_partition =
      λ table_id snap later id rest db older. shown-insert snap later id rest db.0.1 older;
  deletion = λ table_id snap later rest db older. shown-delete snap later rest db.0.1 older;
  begin_keeps = λ table_id snap db. ap (λ (c : Content). shown snap c.1) (begin-content db);
  commit_keeps = λ table_id snap s params db e. refl;
}
