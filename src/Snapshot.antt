-- ===== src/Snapshot.antt =====
-- src/transaction/snapshot.h: `Snapshot` and `build_snapshot_chain`.
pub mod Chain
mod Tests
use ice_log.Prelude.{
  ℕ, zero, suc, List, [], ◌∷◌, Option, none, some, Bool, leb, ◌==◌, if◌then◌else◌, ℕ_discrete,
}
use ice_log.Prelude.Int.{ℤ}
use ice_log.Text.{Text}
use ice_log.UnorderedMap.{find, assign}

pub record Snapshot : Type 0 where
  pub snapshot_id : ℕ
  pub parent_snapshot_id : ℕ
  pub table_id : ℤ
  pub operation : Text
  pub added_files_count : ℤ
  pub deleted_files_count : ℤ
  pub committed_at : Text

unfoldable pub is_ancestor_of : Snapshot → ℕ → Bool
is_ancestor_of s other_parent = leb s.snapshot_id other_parent

-- `index[s.snapshot_id] = &s` for each snapshot in turn.
unfoldable pub build_index : List Snapshot → List (ℕ × Snapshot) → List (ℕ × Snapshot)
build_index [] index = index
build_index (s ∷ rest) index = build_index rest (assign ℕ_discrete s.snapshot_id s index)

-- The loop, on fuel: the snapshots that it pushes from `current` on, or `none` if the fuel ran out.
unfoldable pub walk : ℕ → List (ℕ × Snapshot) → ℕ → Option (List Snapshot)
walk zero index current = none
walk (suc fuel) index current =
    if current == 0 then some [] else elim (find ℕ_discrete current index) [
      | none ↦ some []
      | some s ↦ elim (walk fuel index s.parent_snapshot_id) [
        | none ↦ none
        | some rest ↦ some (s ∷ rest)
      ]
    ]

unfoldable pub build_snapshot_chain : ℕ → List Snapshot → ℕ → Option (List Snapshot)
build_snapshot_chain fuel all_snapshots from_snapshot_id =
    walk fuel (build_index all_snapshots []) from_snapshot_id
