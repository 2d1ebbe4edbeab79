-- ===== src/Mvcc/Tests.antt =====
-- Tests of the transaction manager, and its theorems at concrete inputs. The timeout is 300 ticks.
use ice_log.Prelude.{ℕ, ◌≡◌, refl, [], ◌∷◌, none, true, false, arith, ℕ_discrete}
use ice_log.Prelude.Int.{pos}
use ice_log.UnorderedMap.{find, assign, erase}
use ice_log.UnorderedSet
use ice_log.Mvcc.{
  MvccManager, TransactionState, init, begin_transaction, take_txn_id, register,
  get_latest_committed_snapshot, commit_transaction, abort_transaction,
  cleanup_expired_transactions, cleanup_loop, has_expired, advance, drop_transaction,
  is_snapshot_pinned, active_transaction_count,
}
use ice_log.Mvcc.Invariant.{IsValid, init-IsValid}
use ice_log.Mvcc.Commit.{
  begin_transaction-IsValid, begin_transaction_lem, commit_transaction_lem, commit_twice,
  abort_unpins_shared,
}
use ice_log.Mvcc.Cleanup.{cleanup_expired_transactions_lem}
use ice_log.Mvcc.Threads.{Shared, Step, Reach, IsSafe, start, Reach-IsSafe}

program : Unit {0}
unfolding begin_transaction take_txn_id register get_latest_committed_snapshot commit_transaction
    abort_transaction cleanup_expired_transactions cleanup_loop has_expired advance drop_transaction
    is_snapshot_pinned active_transaction_count find assign erase ℕ_discrete init
    UnorderedSet.insert UnorderedSet.erase UnorderedSet.contains
program = tt

abbrev entry : ℕ → ℕ → TransactionState
entry id now = record { txn_id = id; read_snapshot_id = 0; is_committed = false; started_at = now }

-- Two transactions, begun at 10 and at 200.
abbrev two_active : MvccManager
two_active = record {
  next_txn_id = 3;
  latest_committed_snapshot = 0;
  active_transactions = (1, entry 1 10) ∷ (2, entry 2 200) ∷ [];
  pinned_snapshots = 0 ∷ [];
  txn_timeout = pos 300;
}

two_begun : (begin_transaction (begin_transaction (init (pos 300)) 10).0 200).0 ≡ two_active
unfolding program
two_begun = refl

two_active-IsValid : IsValid two_active
unfolding program
two_active-IsValid =
    begin_transaction-IsValid (begin_transaction (init (pos 300)) 10).0 200 (omega arith)
      (begin_transaction-IsValid (init (pos 300)) 10 (omega arith) (init-IsValid (pos 300)))

-- A commit that the weak exchange fails three times.
commit_counts : (commit_transaction two_active 3 2 210).0.latest_committed_snapshot ≡ 1
unfolding program
commit_counts = refl

begin_transaction_lem_example : is_snapshot_pinned (begin_transaction two_active 250).0 0 ≡ true
unfolding program
begin_transaction_lem_example =
    (begin_transaction_lem two_active 250 (omega arith) two_active-IsValid 3).2

commit_transaction_lem_example : (commit_transaction two_active 2 1 400).1 ≡ false
unfolding program
commit_transaction_lem_example =
    (commit_transaction_lem two_active 2 1 400 2 (entry 1 10) two_active-IsValid (omega arith)
      refl).0

commit_twice_example :
    commit_transaction (commit_transaction two_active 0 2 210).0 1 2 220
    ≡ ((commit_transaction two_active 0 2 210).0, false)
unfolding program
commit_twice_example =
    (commit_twice two_active 0 1 2 210 220 (entry 2 200) two_active-IsValid refl).0

abort_unpins_shared_example : is_snapshot_pinned (abort_transaction two_active 1) 0 ≡ false
unfolding program
abort_unpins_shared_example =
    (abort_unpins_shared two_active 1 2 (entry 1 10) (entry 2 200) two_active-IsValid (omega arith)
      refl refl refl).1

cleanup_expired_transactions_lem_example :
    find ℕ_discrete 1 (cleanup_expired_transactions two_active 400).0.active_transactions ≡ none
unfolding program
cleanup_expired_transactions_lem_example =
    (cleanup_expired_transactions_lem two_active 400 two_active-IsValid 1).0

-- A thread takes identifier 1; another takes 2, loads, registers and commits; then the first
-- loads and registers.
abbrev raced : Shared
raced = record {
  mgr = record {
    next_txn_id = 3;
    latest_committed_snapshot = 1;
    active_transactions =
        (1, record { txn_id = 1; read_snapshot_id = 1; is_committed = false; started_at = 7 }) ∷ [];
    pinned_snapshots = 1 ∷ [];
    txn_timeout = pos 300;
  };
  begun = [];
}

raced-Reach : Reach (start (pos 300)) raced
unfolding program
raced-Reach =
    Reach.next
      (Reach.next
        (Reach.next
          (Reach.next
            (Reach.next
              (Reach.next (Reach.next Reach.here (Step.take (omega arith) refl))
                (Step.take (omega arith) refl))
              (Step.load 2 refl refl))
            (Step.register 2 0 5 refl refl))
          (Step.commit 1 2 6 refl))
        (Step.load 1 refl refl))
      (Step.register 1 1 7 refl refl)

Reach-IsSafe_example : IsSafe raced
Reach-IsSafe_example = Reach-IsSafe (pos 300) raced-Reach
