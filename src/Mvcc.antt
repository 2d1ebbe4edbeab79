-- ===== src/Mvcc.antt =====
-- src/transaction/mvcc_manager.h and mvcc_manager.cpp: `MVCCManager`.
-- A time point is a number of clock ticks, read by the caller and passed in as `now`; a duration is
-- an integer of the same ticks. Each method that takes the mutex is one function on the state.
pub mod Invariant
pub mod Commit
pub mod Cleanup
pub mod Threads
mod Tests
use ice_log.Prelude.{
  ℕ, zero, suc, ◌+◌, ◌%◌, ◌^◌, List, [], ◌∷◌, none, some, Bool, true, false, ◌==◌, ltb, leb,
  if◌then◌else◌, ℕ_discrete, length,
}
use ice_log.Prelude.Words.{u64_mod}
use ice_log.Prelude.Int.{ℤ, sub_ℕ, ltb_ℤ}
use ice_log.UnorderedMap.{find, assign, erase}
use ice_log.UnorderedSet

pub record TransactionState : Type 0 where
  pub txn_id : ℕ
  pub read_snapshot_id : ℕ
  pub is_committed : Bool
  pub started_at : ℕ

pub record MvccManager : Type 0 where
  pub next_txn_id : ℕ
  pub latest_committed_snapshot : ℕ
  pub active_transactions : List (ℕ × TransactionState)
  pub pinned_snapshots : List ℕ
  pub txn_timeout : ℤ

unfoldable pub init : ℤ → MvccManager
init txn_timeout = record {
  next_txn_id = 1;
  latest_committed_snapshot = 0;
  active_transactions = [];
  pinned_snapshots = [];
  txn_timeout = txn_timeout;
}

-- The three atomic parts of `begin_transaction`: the counter's `fetch_add`, the load of the
-- latest snapshot, and the registration under the mutex.
unfoldable pub take_txn_id : MvccManager → MvccManager × ℕ
take_txn_id m = (record m { next_txn_id = (m.next_txn_id + 1) % u64_mod }, m.next_txn_id)

unfoldable pub get_latest_committed_snapshot : MvccManager → ℕ
get_latest_committed_snapshot m = m.latest_committed_snapshot

unfoldable pub register : MvccManager → ℕ → ℕ → ℕ → MvccManager
register m txn_id read_snapshot now = record m {
  active_transactions =
      assign ℕ_discrete txn_id
        (record {
          txn_id = txn_id;
          read_snapshot_id = read_snapshot;
          is_committed = false;
          started_at = now;
        })
        m.active_transactions;
  pinned_snapshots = UnorderedSet.insert read_snapshot m.pinned_snapshots;
}

unfoldable pub begin_transaction : MvccManager → ℕ → MvccManager × ℕ × ℕ
unfolding get_latest_committed_snapshot
begin_transaction m now =
    let (m', txn_id) = take_txn_id m in
    let read_snapshot = get_latest_committed_snapshot m' in
    (register m' txn_id read_snapshot now, txn_id, read_snapshot)

-- `now - started_at > txn_timeout_`
unfoldable pub has_expired : MvccManager → ℕ → TransactionState → Bool
has_expired m now t = ltb_ℤ m.txn_timeout (sub_ℕ now t.started_at)

-- The loop over `compare_exchange_weak`. The first argument counts the exchanges that fail, each
-- of which reloads `current`; the next one succeeds.
unfoldable pub advance : ℕ → ℕ → ℕ → ℕ → ℕ
advance zero latest current new_snapshot = if ltb current new_snapshot then new_snapshot else latest
advance (suc failures) latest current new_snapshot =
    let rest = advance failures latest latest ((latest + 1) % u64_mod) in
    if ltb current new_snapshot then rest else latest

unfoldable pub drop_transaction : MvccManager → ℕ → TransactionState → MvccManager
drop_transaction m txn_id t = record m {
  pinned_snapshots = UnorderedSet.erase t.read_snapshot_id m.pinned_snapshots;
  active_transactions = erase ℕ_discrete txn_id m.active_transactions;
}

unfoldable pub commit_transaction : MvccManager → ℕ → ℕ → ℕ → MvccManager × Bool
commit_transaction m failures txn_id now = elim (find ℕ_discrete txn_id m.active_transactions) [
  | none ↦ (m, false)
  | some t ↦ if has_expired m now t then (drop_transaction m txn_id t, false) else (
    record (drop_transaction m txn_id t) {
      latest_committed_snapshot =
          advance failures m.latest_committed_snapshot m.latest_committed_snapshot
            ((m.latest_committed_snapshot + 1) % u64_mod);
    },
    true,
  )
]

unfoldable pub abort_transaction : MvccManager → ℕ → MvccManager
abort_transaction m txn_id = elim (find ℕ_discrete txn_id m.active_transactions) [
  | none ↦ m
  | some t ↦ drop_transaction m txn_id t
]

unfoldable pub is_visible : ℕ → ℕ → Bool
is_visible write_snapshot_id read_snapshot_id = leb write_snapshot_id read_snapshot_id

unfoldable pub validate_parent_snapshot : ℕ → ℕ → Bool
validate_parent_snapshot parent_snapshot_id current_snapshot_id =
    parent_snapshot_id == current_snapshot_id

-- The loop of `cleanup_expired_transactions` over the entries left: those kept, the pins left, and
-- the number of entries dropped.
unfoldable pub cleanup_loop :
    MvccManager
    → ℕ
    → List (ℕ × TransactionState)
    → List ℕ
    → (List (ℕ × TransactionState)) × List ℕ × ℕ
cleanup_loop m now [] pins = ([], pins, 0)
cleanup_loop m now ((k, t) ∷ rest) pins =
    let expired = has_expired m now t in
    let (kept, left, cleaned) =
      cleanup_loop m now rest
        (if expired then UnorderedSet.erase t.read_snapshot_id pins else pins) in
    if expired then (kept, left, cleaned + 1) else ((k, t) ∷ kept, left, cleaned)

unfoldable pub cleanup_expired_transactions : MvccManager → ℕ → MvccManager × ℕ
cleanup_expired_transactions m now =
    let (kept, left, cleaned) = cleanup_loop m now m.active_transactions m.pinned_snapshots in
    (record m { active_transactions = kept; pinned_snapshots = left }, cleaned)

unfoldable pub active_transaction_count : MvccManager → ℕ
active_transaction_count m = length m.active_transactions

unfoldable pub is_snapshot_pinned : MvccManager → ℕ → Bool
is_snapshot_pinned m snapshot_id = UnorderedSet.contains snapshot_id m.pinned_snapshots
