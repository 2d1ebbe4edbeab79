-- ===== src/PartitionRegistry/Stats.antt =====
-- src/catalog/partition_registry.cpp: the totals of `get_stats`.
use ice_log.Prelude.{
  ℕ, ◌+◌, ◌<◌, ◌/◌, ◌≡◌, List, [], ◌∷◌, true, false, ltb, ◌==◌, if◌then◌else◌, length, arith,
  Bool-cases, inl, inr,
}
use ice_log.Prelude.Int.{ℤ, pos, ◌+ℤ◌}
use ice_log.Prelude.Words.{i64_bound}
use ice_log.Outcome.{Outcome, ok, undefined}
use ice_log.Signed.{add}
use ice_log.PgClient.{PartitionRow}
use ice_log.PartitionRegistry.{sum_rows, stats_of}

-- A number that is not negative, and which it is.
abbrev pub Counts : ℤ → ℕ → Type 0
Counts z n = z ≡ pos n

-- The rows and the bytes of each partition.
abbrev pub Sized : List PartitionRow → List (ℕ × ℕ) → Type 0
Sized [] [] = Unit
Sized (p ∷ parts) ((rows, bytes) ∷ sizes) =
    (p.row_count ≡ pos rows) × (p.size_bytes ≡ pos bytes) × Sized parts sizes
Sized _ _ = false ≡ true

abbrev pub total_rows : List (ℕ × ℕ) → ℕ
total_rows [] = 0
total_rows ((rows, bytes) ∷ sizes) = rows + total_rows sizes

abbrev pub total_bytes : List (ℕ × ℕ) → ℕ
total_bytes [] = 0
total_bytes ((rows, bytes) ∷ sizes) = bytes + total_bytes sizes

add-pos :
    (bound a n : ℕ)
    → add bound (pos a) (pos n) ≡ (if ltb (a + n) bound then ok (pos (a + n)) else undefined)
unfolding add ◌+ℤ◌
add-pos bound a n = ground arith

-- Both totals, with what has been added up before them, are of type int64_t; or the sum is undefined.
abbrev either : ℕ → ℕ → Outcome (ℤ × ℤ)
either rows bytes =
    if ltb rows i64_bound
    then if ltb bytes i64_bound then ok (pos rows, pos bytes) else undefined
    else undefined

sum_rows_lem :
    (rows bytes : ℕ) (parts : List PartitionRow) (sizes : List (ℕ × ℕ))
    → rows < i64_bound
    → bytes < i64_bound
    → Sized parts sizes
    → sum_rows (pos rows) (pos bytes) parts
      ≡ either (rows + total_rows sizes) (bytes + total_bytes sizes)
unfolding sum_rows
sum_rows_lem rows bytes [] [] h k s = ground (arith, h, k)
sum_rows_lem rows bytes [] (n ∷ sizes) h k s = cc
sum_rows_lem rows bytes (p ∷ parts) [] h k s = cc
sum_rows_lem rows bytes (p ∷ parts) ((r, b) ∷ sizes) h k (er, eb, s) =
    elim (Bool-cases (ltb (rows + r) i64_bound)) [
      | inr f ↦ ground (arith, er, f, add-pos i64_bound rows r)
      | inl t ↦ elim (Bool-cases (ltb (bytes + b) i64_bound)) [
        | inr f ↦ ground (arith, er, eb, t, f, add-pos i64_bound rows r, add-pos i64_bound bytes b)
        | inl u ↦
            let rest =
              sum_rows_lem (rows + r) (bytes + b) parts sizes (ground (arith, t))
                (ground (arith, u)) s in
            ground (arith, er, eb, t, u, add-pos i64_bound rows r, add-pos i64_bound bytes b, rest)
      ]
    ]

-- Of partitions whose numbers of rows and bytes are not negative, the statistics have the number of the partitions, the
-- totals of rows and bytes, and the average of the bytes rounded down, or 0 without a partition; unless a total is
-- not of type int64_t, and then they are undefined.
pub stats_of_lem :
    (parts : List PartitionRow) (sizes : List (ℕ × ℕ))
    → Sized parts sizes
    → stats_of parts ≡ (
        if ltb (total_rows sizes) i64_bound
        then if ltb (total_bytes sizes) i64_bound
          then ok (record {
            total_partitions = pos (length parts);
            total_rows = pos (total_rows sizes);
            total_bytes = pos (total_bytes sizes);
            avg_size_bytes =
                if length parts == 0 then pos 0 else pos (total_bytes sizes / length parts);
          })
          else undefined
        else undefined)
unfolding stats_of
stats_of_lem parts sizes s =
    let sums = sum_rows_lem 0 0 parts sizes (omega arith) (omega arith) s in
    elim (Bool-cases (ltb (total_rows sizes) i64_bound)) [
      | inr f ↦ ground (arith, sums, f)
      | inl t ↦ elim (Bool-cases (ltb (total_bytes sizes) i64_bound)) [
        | inr f ↦ ground (arith, sums, t, f)
        | inl u ↦ ground (arith, sums, t, u)
      ]
    ]
