-- ===== src/Mvcc/Threads.antt =====
-- src/transaction/mvcc_manager.cpp: any number of threads that call `MVCCManager` at once.
-- `begin_transaction` takes its identifier and loads the latest snapshot by two atomic operations
-- before it locks the mutex, so other threads may run between its three parts. Every other method
-- holds the mutex throughout and is one step.
use ice_log.Prelude.Words.{u64_mod}
use ice_log.Prelude.{
  ℕ, ◌+◌, ◌%◌, ◌≤◌, ◌<◌, ◌≡◌, ap, sym, ◌∙◌, List, [], some, none, arith, ℕ_discrete, Option,
}
use ice_log.Prelude.Int.{ℤ}
use ice_log.UnorderedMap.{
  find, assign, erase, Distinct, find-assign, find-erase_ne, find-erase_self, find-erase-none,
  erase-Distinct, assign-Distinct,
}
use ice_log.Mvcc.{
  MvccManager, init, take_txn_id, get_latest_committed_snapshot, register as file, drop_transaction,
  commit_transaction, abort_transaction, cleanup_expired_transactions,
}
use ice_log.Mvcc.Invariant.{IsValid, init-IsValid, register-IsValid}
use ice_log.Mvcc.Commit.{
  le-advance, raise-IsValid, next_unused, commit_transaction-IsValid, abort_transaction-IsValid,
}
use ice_log.Mvcc.Cleanup.{
  unless_expired, cleanup_expired_transactions_lem, cleanup_expired_transactions-IsValid,
}

-- The manager, and the calls of `begin_transaction` under way: the identifier that each has taken,
-- and the snapshot, once it has loaded it.
pub record Shared : Type 0 where
  pub mgr : MvccManager
  pub begun : List (ℕ × Option ℕ)

-- The steps of all threads. `take` asks for fewer than 2^64 transactions in the server's life.
pub data Step (s u : Shared) : Type 0 where
  take :
      s.mgr.next_txn_id + 1 < u64_mod
      → u ≡ record {
        mgr = (take_txn_id s.mgr).0;
        begun = assign ℕ_discrete (take_txn_id s.mgr).1 none s.begun;
      }
      → Step s u
  load :
      (id : ℕ)
      → find ℕ_discrete id s.begun ≡ some none
      → u ≡ record s {
        begun = assign ℕ_discrete id (some (get_latest_committed_snapshot s.mgr)) s.begun;
      }
      → Step s u
  register :
      (id snapshot now : ℕ)
      → find ℕ_discrete id s.begun ≡ some (some snapshot)
      → u ≡ record { mgr = file s.mgr id snapshot now; begun = erase ℕ_discrete id s.begun }
      → Step s u
  commit :
      (failures id now : ℕ)
      → u ≡ record s { mgr = (commit_transaction s.mgr failures id now).0 }
      → Step s u
  abort : (id : ℕ) → u ≡ record s { mgr = abort_transaction s.mgr id } → Step s u
  cleanup : (now : ℕ) → u ≡ record s { mgr = (cleanup_expired_transactions s.mgr now).0 } → Step s u

pub data Reach (s : Shared) : Shared → Type 0 where
  here : Reach s s
  next : {t u : Shared} → Reach s t → Step t u → Reach s u

-- The snapshot loaded, if any, was committed before.
abbrev pub IsLoaded : ℕ → Option ℕ → Type 0
IsLoaded latest none = Unit
IsLoaded latest (some s) = s ≤ latest

-- A call under way holds an identifier that was handed out and that no active transaction has.
pub record IsOpen (m : MvccManager) (id : ℕ) (loaded : Option ℕ) : Type 0 where
  pub issued : id < m.next_txn_id
  pub unused : find ℕ_discrete id m.active_transactions ≡ none
  pub committed : IsLoaded m.latest_committed_snapshot loaded

pub record IsSafe (s : Shared) : Type 0 where
  pub valid : IsValid s.mgr
  pub distinct : Distinct ℕ_discrete s.begun
  pub opened : (id : ℕ) (p : Option ℕ) → find ℕ_discrete id s.begun ≡ some p → IsOpen s.mgr id p

-- What ending transactions does to the manager: counters do not fall, no entry appears.
pub record IsLater (m m' : MvccManager) : Type 0 where
  pub next_le : m.next_txn_id ≤ m'.next_txn_id
  pub latest_le : m.latest_committed_snapshot ≤ m'.latest_committed_snapshot
  pub none_new :
      (j : ℕ)
      → find ℕ_discrete j m.active_transactions ≡ none
      → find ℕ_discrete j m'.active_transactions ≡ none

IsLoaded-mono : {a b : ℕ} (p : Option ℕ) → a ≤ b → IsLoaded a p → IsLoaded b p
IsLoaded-mono none h l = tt
IsLoaded-mono (some s) h l = omega arith

ended-IsSafe :
    (s : Shared) (m' : MvccManager)
    → IsSafe s
    → IsValid m'
    → IsLater s.mgr m'
    → IsSafe (record s { mgr = m' })
ended-IsSafe s m' v valid later = record {
  valid = valid;
  distinct = v.distinct;
  opened = λ id p e.
      let o = v.opened id p e in
      record {
        issued = omega (arith, o.issued, later.next_le);
        unused = later.none_new id o.unused;
        committed = IsLoaded-mono p later.latest_le o.committed;
      };
}

module _ (m : MvccManager) where
  none_left :
      (id j : ℕ)
      → find ℕ_discrete j m.active_transactions ≡ none
      → find ℕ_discrete j (erase ℕ_discrete id m.active_transactions) ≡ none
  none_left id j e = find-erase-none ℕ_discrete j id m.active_transactions e

  commit-IsLater : (failures id now : ℕ) → IsLater m (commit_transaction m failures id now).0
  unfolding commit_transaction drop_transaction
  commit-IsLater failures id now = record {
    next_le = ground arith;
    latest_le = ground (arith, le-advance failures m.latest_committed_snapshot);
    none_new = λ j e. ground (arith, none_left id j e);
  }

  abort-IsLater : (id : ℕ) → IsLater m (abort_transaction m id)
  unfolding abort_transaction drop_transaction
  abort-IsLater id = record {
    next_le = ground arith;
    latest_le = ground arith;
    none_new = λ j e. ground (arith, none_left id j e);
  }

  cleanup-IsLater : (now : ℕ) → IsValid m → IsLater m (cleanup_expired_transactions m now).0
  cleanup-IsLater now v = record {
    next_le = unfold cleanup_expired_transactions in omega arith;
    latest_le = omega (arith, (cleanup_expired_transactions_lem m now v 0).2);
    none_new = λ j e. (cleanup_expired_transactions_lem m now v j).0 ∙ ap (unless_expired m now) e;
  }

take-IsSafe :
    (s : Shared)
    → IsSafe s
    → s.mgr.next_txn_id + 1 < u64_mod
    → IsSafe (record {
      mgr = (take_txn_id s.mgr).0;
      begun = assign ℕ_discrete (take_txn_id s.mgr).1 none s.begun;
    })
unfolding take_txn_id
take-IsSafe s v room = record {
  valid =
      raise-IsValid s.mgr ((next + 1) % u64_mod) s.mgr.latest_committed_snapshot (omega arith)
        (omega arith) v.valid;
  distinct = assign-Distinct ℕ_discrete next none s.begun v.distinct;
  opened = λ id p e. opened id p e (ℕ_discrete next id);
}
  where
    next : ℕ
    next = s.mgr.next_txn_id

    m' : MvccManager
    m' = record s.mgr { next_txn_id = (next + 1) % u64_mod }

    opened :
        (id : ℕ) (p : Option ℕ)
        → find ℕ_discrete id (assign ℕ_discrete next none s.begun) ≡ some p
        → Dec (next ≡ id)
        → IsOpen m' id p
    opened id p e (yes q) =
        let fresh : p ≡ none = ground (arith, find-assign ℕ_discrete id next none s.begun) in
        record {
          issued = omega arith;
          unused =
              ap (λ k. find ℕ_discrete k s.mgr.active_transactions) (sym q)
              ∙ next_unused s.mgr 0 room v.valid;
          committed = rw fresh tt;
        }
    opened id p e (no q) =
        let o = v.opened id p (ground (arith, find-assign ℕ_discrete id next none s.begun)) in
        record { issued = omega (arith, o.issued); unused = o.unused; committed = o.committed }

load-IsSafe :
    (s : Shared) (id : ℕ)
    → IsSafe s
    → find ℕ_discrete id s.begun ≡ some none
    → IsSafe (record s {
      begun = assign ℕ_discrete id (some (get_latest_committed_snapshot s.mgr)) s.begun;
    })
unfolding get_latest_committed_snapshot
load-IsSafe s id v e = record {
  valid = v.valid;
  distinct = assign-Distinct ℕ_discrete id _ s.begun v.distinct;
  opened = λ j p f. opened j p f (ℕ_discrete id j);
}
  where
    latest : ℕ
    latest = s.mgr.latest_committed_snapshot

    opened :
        (j : ℕ) (p : Option ℕ)
        → find ℕ_discrete j (assign ℕ_discrete id (some latest) s.begun) ≡ some p
        → Dec (id ≡ j)
        → IsOpen s.mgr j p
    opened j p f (yes q) =
        let loaded : p ≡ some latest =
          ground (arith, find-assign ℕ_discrete j id (some latest) s.begun) in
        let o = v.opened id none e in
        record {
          issued = omega (arith, o.issued);
          unused = ap (λ k. find ℕ_discrete k s.mgr.active_transactions) (sym q) ∙ o.unused;
          committed = rw loaded (omega arith);
        }
    opened j p f (no q) =
        v.opened j p (ground (arith, find-assign ℕ_discrete j id (some latest) s.begun))

register-IsSafe :
    (s : Shared) (id snapshot now : ℕ)
    → IsSafe s
    → find ℕ_discrete id s.begun ≡ some (some snapshot)
    → IsSafe (record { mgr = file s.mgr id snapshot now; begun = erase ℕ_discrete id s.begun })
unfolding file
register-IsSafe s id snapshot now v e =
    let o = v.opened id (some snapshot) e in
    record {
      valid = register-IsValid s.mgr id snapshot now o.unused o.issued o.committed v.valid;
      distinct = erase-Distinct ℕ_discrete id s.begun v.distinct;
      opened = λ j p f. opened j p f (ℕ_discrete id j);
    }
  where
    opened :
        (j : ℕ) (p : Option ℕ)
        → find ℕ_discrete j (erase ℕ_discrete id s.begun) ≡ some p
        → Dec (id ≡ j)
        → IsOpen (file s.mgr id snapshot now) j p
    opened j p f (yes q) = cc (find-erase_self ℕ_discrete id s.begun v.distinct, f, q)
    opened j p f (no q) =
        let o =
          v.opened j p (sym (find-erase_ne ℕ_discrete j id s.begun (λ same. q (sym same))) ∙ f) in
        record {
          issued = o.issued;
          unused =
              find-assign ℕ_discrete j id _ s.mgr.active_transactions ∙ ground (arith, o.unused);
          committed = o.committed;
        }

-- Every step of every thread keeps the state safe.
Step-IsSafe : {s u : Shared} → Step s u → IsSafe s → IsSafe u
Step-IsSafe {s} (take room e) v = rw e (take-IsSafe s v room)
Step-IsSafe {s} (load id f e) v = rw e (load-IsSafe s id v f)
Step-IsSafe {s} (register id snapshot now f e) v = rw e (register-IsSafe s id snapshot now v f)
Step-IsSafe {s} (commit failures id now e) v = rw e (
    ended-IsSafe s _ v (commit_transaction-IsValid s.mgr failures id now v.valid)
      (commit-IsLater s.mgr failures id now))
Step-IsSafe {s} (abort id e) v =
    rw e (ended-IsSafe s _ v (abort_transaction-IsValid s.mgr id v.valid) (abort-IsLater s.mgr id))
Step-IsSafe {s} (cleanup now e) v = rw e (
    ended-IsSafe s _ v (cleanup_expired_transactions-IsValid s.mgr now v.valid)
      (cleanup-IsLater s.mgr now v.valid))

abbrev pub start : ℤ → Shared
start timeout = record { mgr = init timeout; begun = [] }

-- Whatever the threads' calls and however their steps interleave, the state stays safe: an active
-- transaction is filed under its own identifier, which was handed out and is no other call's; it reads no later
-- snapshot than the latest committed one; a pinned snapshot is read by an active transaction; and
-- a call of `begin_transaction` under way holds an identifier that no active transaction has, and
-- a snapshot that was committed.
pub Reach-IsSafe : (timeout : ℤ) {s : Shared} → Reach (start timeout) s → IsSafe s
unfolding find
Reach-IsSafe timeout here = record {
  valid = init-IsValid timeout;
  distinct = tt;
  opened = λ id p e. cc;
}
Reach-IsSafe timeout (next r st) = Step-IsSafe st (Reach-IsSafe timeout r)
