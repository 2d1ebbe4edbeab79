-- ===== src/PartitionRegistry/Listing.antt =====
-- Partitions in the order of their identifiers, as `query_partitions_paged` of src/db/pg_client.cpp lists them.
use ice_log.Prelude.{
  All, ℕ, zero, suc, ◌≤◌, ◌<◌, ◌+◌, ◌≡◌, refl, ap, List, [], ◌∷◌, ◌++◌, arith, take, Bool-cases,
  subst, inl, inr, length, if◌then◌else◌,
}
use ice_log.Prelude.Int.{ℤ, pos_part, neg_part, ◌≤ℤ◌, ltb_ℤ}
use ice_log.PgClient.{PartitionRow}

infix 50 ◌<ℤ◌
abbrev pub ◌<ℤ◌ : ℤ → ℤ → Type 0
a <ℤ b = pos_part a + neg_part b < pos_part b + neg_part a

-- `partition_id > last`
unfoldable pub after : ℤ → List PartitionRow → List PartitionRow
after last [] = []
after last (p ∷ l) = let rest = after last l in if ltb_ℤ last p.partition_id then p ∷ rest else rest

-- The identifiers grow, from above the given one.
abbrev pub Ascending : ℤ → List PartitionRow → Type 0
Ascending last [] = Unit
Ascending last (p ∷ l) = (last <ℤ p.partition_id) × Ascending p.partition_id l

-- The identifier of the last of some rows.
abbrev pub last_id : PartitionRow → List PartitionRow → ℤ
last_id p [] = p.partition_id
last_id p (q ∷ l) = last_id q l

abbrev pub drop : ℕ → List PartitionRow → List PartitionRow
drop zero l = l
drop (suc n) [] = []
drop (suc n) (p ∷ l) = drop n l

pub after-keeps : (j k : ℤ) (l : List PartitionRow) → j ≤ℤ k → Ascending k l → after j l ≡ l
unfolding after
after-keeps j k [] h a = refl
after-keeps j k (p ∷ l) h a =
    let rest = after-keeps j p.partition_id l (omega (arith, h, a.0)) a.1 in
    ground (arith, h, a.0, rest)

pub after-Ascending : (j k : ℤ) (l : List PartitionRow) → Ascending j l → Ascending k (after k l)
unfolding after
after-Ascending j k [] a = tt
after-Ascending j k (p ∷ l) a = elim (Bool-cases (ltb_ℤ k p.partition_id)) [
  | inl e ↦
      let above : k <ℤ p.partition_id = ground (arith, e) in
      let kept : p ∷ l ≡ after k (p ∷ l) =
        ground (arith, e, after-keeps k p.partition_id l (omega (arith, above)) a.1) in
      subst (Ascending k) kept (above, a.1)
  | inr e ↦
      let dropped : after k l ≡ after k (p ∷ l) = ground (arith, e) in
      subst (Ascending k) dropped (after-Ascending p.partition_id k l a.1)
]

pub after-after : (j k : ℤ) (l : List PartitionRow) → j ≤ℤ k → after k (after j l) ≡ after k l
unfolding after
after-after j k [] h = refl
after-after j k (p ∷ l) h = ground (arith, h, after-after j k l h)

pub last_id-le :
    (j : ℤ) (p : PartitionRow) (n : ℕ) (l : List PartitionRow)
    → Ascending p.partition_id l
    → p.partition_id ≤ℤ last_id p (take n l)
last_id-le j p zero l a = omega arith
last_id-le j p (suc n) [] a = omega arith
last_id-le j p (suc n) (q ∷ l) a = omega (arith, a.0, last_id-le j q n l a.1)

-- What comes after a page is what the page leaves.
pub after-page :
    (p : PartitionRow) (n : ℕ) (l : List PartitionRow)
    → Ascending p.partition_id l
    → after (last_id p (take n l)) (p ∷ l) ≡ drop n l
unfolding after
after-page p zero l a = ground (arith, after-keeps p.partition_id p.partition_id l (omega arith) a)
after-page p (suc n) [] a = ground arith
after-page p (suc n) (q ∷ l) a =
    ground (arith, a.0, last_id-le q.partition_id q n l a.1, after-page q n l a.1)

pub take-drop : (n : ℕ) (l : List PartitionRow) → take n l ++ drop n l ≡ l
take-drop zero l = refl
take-drop (suc n) [] = refl
take-drop (suc n) (p ∷ l) = ap (◌∷◌ p) (take-drop n l)

pub length-drop_le : (n : ℕ) (l : List PartitionRow) → length (drop n l) ≤ length l
length-drop_le zero l = omega arith
length-drop_le (suc n) [] = omega arith
length-drop_le (suc n) (p ∷ l) = omega (arith, length-drop_le n l)

pub after-All :
    (P : PartitionRow → Type 0) (last : ℤ) (l : List PartitionRow) → All P l → All P (after last l)
unfolding after
after-All P last [] h = tt
after-All P last (p ∷ l) h = ground (arith, h, after-All P last l h.1)

pub take-All :
    (P : PartitionRow → Type 0) (n : ℕ) (l : List PartitionRow) → All P l → All P (take n l)
take-All P zero l h = tt
take-All P (suc n) [] h = tt
take-All P (suc n) (p ∷ l) h = (h.0, take-All P n l h.1)

pub last_id-All :
    (P : ℤ → Type 0) (p : PartitionRow) (n : ℕ) (l : List PartitionRow)
    → P p.partition_id
    → All (λ p. P p.partition_id) l
    → P (last_id p (take n l))
last_id-All P p zero l h a = h
last_id-All P p (suc n) [] h a = h
last_id-All P p (suc n) (q ∷ l) h a = last_id-All P q n l a.0 a.1
