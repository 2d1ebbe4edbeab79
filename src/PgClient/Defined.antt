-- ===== src/PgClient/Defined.antt =====
-- src/db/pg_client.cpp: the methods give a value or an exception, whatever the server answers.
pub mod Calls
use ice_log.Prelude.{
  ℕ, zero, suc, ◌≡◌, refl, ap, List, [], ◌∷◌, Option, none, some, Bool, true, false, arith,
  if◌then◌else◌, inl, inr, Option-cases,
}
use ice_log.Prelude.Int.{ℤ}
use ice_log.Prelude.Words.{i64_bound}
use ice_log.Text.{Text}
use ice_log.Text.Decimal.{digits_value, in_range, parse_digits, parse_sign, stoll, stoi, skip_space}
use ice_log.Outcome.{Outcome, ok, thrown, undefined, is_defined, >>=-is_defined}
use ice_log.Outcome
use ice_log.Session.{Session, pure, continue}
use ice_log.Session
use ice_log.Postgres.{Postgres, PgResult, Cells, Statement, Command, select_table_id}
use ice_log.PgClient.{
  cell, PartitionRow, TableRow, SnapshotRow, field_int64, field_int32, table_row, partition_row,
  snapshot_row, read_rows, first_row, is_negative, is_tuples_ok, is_command_ok, run_command,
  get_table_id, run_exec,
}
use ice_log.PgClient.Tables
use ice_log.PgClient.Partitions.{
  partition_rows, query_partitions, query_partitions_paged, insert_partition,
  mark_partition_deleted,
}
use ice_log.PgClient.Snapshots.{
  returned_id, insert_snapshot, get_snapshot, list_snapshots, get_current_snapshot,
  update_table_snapshot, insert_transaction, update_transaction_status,
}

in_range-is_defined :
    (bound : ℕ) (negative : Bool) (n : ℕ) → is_defined (in_range bound negative n) ≡ true
unfolding in_range
in_range-is_defined bound negative zero = ground arith
in_range-is_defined bound false (suc n) = ground arith
in_range-is_defined bound true (suc n) = ground arith

parse_digits-is_defined :
    (bound : ℕ) (negative : Bool) (t : Text) → is_defined (parse_digits bound negative t) ≡ true
unfolding parse_digits
parse_digits-is_defined bound negative [] = refl
parse_digits-is_defined bound negative (c ∷ t) =
    ground (arith, in_range-is_defined bound negative (digits_value 0 (c ∷ t)))

parse_sign-is_defined : (bound : ℕ) (t : Text) → is_defined (parse_sign bound t) ≡ true
unfolding parse_sign
parse_sign-is_defined bound [] = refl
parse_sign-is_defined bound (c ∷ t) = ground (
  arith,
  parse_digits-is_defined bound true t,
  parse_digits-is_defined bound false t,
  parse_digits-is_defined bound false (c ∷ t),
)

pub stoi-is_defined : (t : Text) → is_defined (stoi t) ≡ true
unfolding stoi
stoi-is_defined t = parse_sign-is_defined _ (skip_space t)

pub field_int64-is_defined : (row : Cells) (col : ℕ) → is_defined (field_int64 row col) ≡ true
unfolding field_int64 stoll
field_int64-is_defined row col = elim (Option-cases (cell row col)) [
  | inl e ↦ ground (arith, e)
  | inr (t, e) ↦ ground (arith, e, parse_sign-is_defined i64_bound (skip_space t))
]

pub field_int32-is_defined : (row : Cells) (col : ℕ) → is_defined (field_int32 row col) ≡ true
unfolding field_int32
field_int32-is_defined row col = elim (Option-cases (cell row col)) [
  | inl e ↦ ground (arith, e)
  | inr (t, e) ↦ ground (arith, e, stoi-is_defined t)
]

pub table_row-is_defined : (row : Cells) → is_defined (table_row row) ≡ true
unfolding table_row
table_row-is_defined row = >>=-is_defined _ _ (field_int64-is_defined row 0) (λ a.
    >>=-is_defined _ _ (field_int32-is_defined row 3)
      (λ b. >>=-is_defined _ _ (field_int64-is_defined row 5) (λ c. refl)))

pub partition_row-is_defined : (row : Cells) → is_defined (partition_row row) ≡ true
unfolding partition_row
partition_row-is_defined row = >>=-is_defined _ _ (field_int64-is_defined row 0) (λ a.
    >>=-is_defined _ _ (field_int64-is_defined row 1) (λ b.
      >>=-is_defined _ _ (field_int64-is_defined row 2) (λ c.
        >>=-is_defined _ _ (field_int64-is_defined row 6)
          (λ d. >>=-is_defined _ _ (field_int64-is_defined row 7) (λ e. refl)))))

pub snapshot_row-is_defined : (row : Cells) → is_defined (snapshot_row row) ≡ true
unfolding snapshot_row
snapshot_row-is_defined row = >>=-is_defined _ _ (field_int64-is_defined row 0) (λ a.
    >>=-is_defined _ _ (field_int64-is_defined row 1) (λ b.
      >>=-is_defined _ _ (field_int64-is_defined row 2) (λ c.
        >>=-is_defined _ _ (field_int32-is_defined row 4)
          (λ d. >>=-is_defined _ _ (field_int32-is_defined row 5) (λ e. refl)))))

pub read_rows-is_defined :
    {A : Type 0} (read : Cells → Outcome A) (rows : List Cells)
    → ((row : Cells) → is_defined (read row) ≡ true)
    → is_defined (read_rows read rows) ≡ true
unfolding read_rows
read_rows-is_defined read [] h = refl
read_rows-is_defined read (row ∷ rows) h =
    >>=-is_defined (read row) _ (h row)
      (λ a. >>=-is_defined _ _ (read_rows-is_defined read rows h) (λ rest. refl))

pub returned_id-is_defined : (res : PgResult) → is_defined (returned_id res) ≡ true
unfolding returned_id
returned_id-is_defined res = elim (Option-cases (first_row res)) [
  | inl e ↦ ground (arith, e)
  | inr (row, e) ↦ ground (arith, e, field_int64-is_defined row 0)
]

pub partition_rows-is_defined : (res : PgResult) → is_defined (partition_rows res) ≡ true
unfolding partition_rows
partition_rows-is_defined res =
    if-is_defined (is_tuples_ok res) _ _
      (>>=-is_defined _ _ (read_rows-is_defined partition_row res.tuples partition_row-is_defined)
        (λ rows. refl))
      refl
  where
    if-is_defined :
        {A : Type 0} (b : Bool) (x y : Outcome A)
        → is_defined x ≡ true
        → is_defined y ≡ true
        → is_defined (if b then x else y) ≡ true
    if-is_defined true x y h k = h
    if-is_defined false x y h k = k

-- The call gives a value or an exception, in every state.
abbrev pub IsDefined : {S A : Type 0} → Session S A → Type 0
IsDefined {S} m = (s : S) → is_defined (m s).0 ≡ true

pub bind-IsDefined :
    {S A B : Type 0} (m : Session S A) (f : A → Session S B)
    → IsDefined m
    → ((a : A) → IsDefined (f a))
    → IsDefined (Session.◌>>=◌ m f)
bind-IsDefined {S} {A} {B} m f h k s = resume (m s) (h s)
  where
    resume : (r : Outcome A × S) → is_defined r.0 ≡ true → is_defined (continue r f).0 ≡ true
    resume (ok a, s1) e = k a s1
    resume (thrown x, s1) e = refl
    resume (undefined, s1) e = e

pub if-IsDefined :
    {S A : Type 0} (b : Bool) (m n : Session S A)
    → IsDefined m
    → IsDefined n
    → IsDefined (if b then m else n)
if-IsDefined true m n h k = h
if-IsDefined false m n h k = k

-- A call that decides on an optional value.
pub option-IsDefined :
    {S A B : Type 0} (o : Option A) (m : Session S B) (f : A → Session S B)
    → IsDefined m
    → ((a : A) → IsDefined (f a))
    → IsDefined (elim o [ none ↦ m | some a ↦ f a ])
option-IsDefined none m f h k = h
option-IsDefined (some a) m f h k = k a
