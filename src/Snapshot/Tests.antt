-- ===== src/Snapshot/Tests.antt =====
-- Tests of the snapshot chain, and its theorems at concrete inputs.
use ice_log.Prelude.{ℕ, ◌≡◌, refl, [], ◌∷◌, some, none, arith, List, ℕ_discrete}
use ice_log.Prelude.Int.{pos}
use ice_log.Text.{codes}
use ice_log.UnorderedMap.{find, assign}
use ice_log.Snapshot.{Snapshot, build_index, walk, build_snapshot_chain}
use ice_log.Snapshot.Chain.{Walks, build_snapshot_chain_total, build_snapshot_chain_cycle}

abbrev snapshot : ℕ → ℕ → Snapshot
snapshot id parent = record {
  snapshot_id = id;
  parent_snapshot_id = parent;
  table_id = pos 1;
  operation = codes "append";
  added_files_count = pos 1;
  deleted_files_count = pos 0;
  committed_at = [];
}

-- 5 follows 3 follows 1; 4 is a sibling of 3.
abbrev history : List Snapshot
history = snapshot 1 0 ∷ snapshot 3 1 ∷ snapshot 4 1 ∷ snapshot 5 3 ∷ []

chain_of_5 :
    build_snapshot_chain 9 history 5 ≡ some (snapshot 5 3 ∷ snapshot 3 1 ∷ snapshot 1 0 ∷ [])
unfolding build_snapshot_chain build_index walk find assign ℕ_discrete
chain_of_5 = refl

build_snapshot_chain_total_example :
    (chain : List Snapshot) × (build_snapshot_chain 6 history 5 ≡ some chain)
    × Walks history 5 chain
build_snapshot_chain_total_example =
    build_snapshot_chain_total 6 history 5 (omega arith) (omega arith)

build_snapshot_chain_cycle_example :
    build_snapshot_chain 1000 (snapshot 1 0 ∷ snapshot 2 2 ∷ []) 2 ≡ none
build_snapshot_chain_cycle_example =
    build_snapshot_chain_cycle 1000 (snapshot 1 0 ∷ []) (snapshot 2 2) (omega arith) refl
