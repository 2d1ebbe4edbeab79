-- ===== src/Mvcc/Invariant.antt =====
-- src/transaction/mvcc_manager.cpp: what every state of the manager satisfies.
use ice_log.Prelude.{ℕ, ◌≤◌, ◌<◌, ◌≡◌, ◌≢◌, ap, ◌∙◌, some, none, true, false, arith, ℕ_discrete}
use ice_log.Prelude.Int.{ℤ}
use ice_log.UnorderedMap.{
  find, erase, Distinct, find-assign, find-erase_ne, find-erase_self, erase-Distinct,
  assign-Distinct,
}
use ice_log.UnorderedSet
use ice_log.Mvcc.{MvccManager, TransactionState, init, register, drop_transaction}

-- An active transaction is filed under its own identifier, which was handed out before, and reads
-- no later snapshot than the latest committed one.
pub record IsFiled (m : MvccManager) (id : ℕ) (t : TransactionState) : Type 0 where
  pub named : t.txn_id ≡ id
  pub issued : id < m.next_txn_id
  pub visible : t.read_snapshot_id ≤ m.latest_committed_snapshot

-- A snapshot that some active transaction reads.
abbrev pub IsRead : MvccManager → ℕ → Type 0
IsRead m s =
    (id : ℕ) × (t : TransactionState) × (find ℕ_discrete id m.active_transactions ≡ some t)
    × (t.read_snapshot_id ≡ s)

pub record IsValid (m : MvccManager) : Type 0 where
  pub distinct : Distinct ℕ_discrete m.active_transactions
  pub filed :
      (id : ℕ) (t : TransactionState)
      → find ℕ_discrete id m.active_transactions ≡ some t
      → IsFiled m id t
  pub pins_used : (s : ℕ) → UnorderedSet.contains s m.pinned_snapshots ≡ true → IsRead m s

pub init-IsValid : (timeout : ℤ) → IsValid (init timeout)
unfolding init find UnorderedSet.contains
init-IsValid timeout = record { distinct = tt; filed = λ id t e. cc; pins_used = λ s e. cc }

-- Registering an unused identifier that was handed out, with a committed snapshot.
pub register-IsValid :
    (m : MvccManager) (id s now : ℕ)
    → find ℕ_discrete id m.active_transactions ≡ none
    → id < m.next_txn_id
    → s ≤ m.latest_committed_snapshot
    → IsValid m
    → IsValid (register m id s now)
unfolding register
register-IsValid m id s now new issued old v = record {
  distinct = assign-Distinct ℕ_discrete id _ m.active_transactions v.distinct;
  filed = λ j t e. filed j t e (ℕ_discrete id j);
  pins_used = λ r e. pins r e (ℕ_discrete s r);
}
  where
    m' : MvccManager
    m' = register m id s now

    entry : TransactionState
    entry = record { txn_id = id; read_snapshot_id = s; is_committed = false; started_at = now }

    here : find ℕ_discrete id m'.active_transactions ≡ some entry
    here = find-assign ℕ_discrete id id entry m.active_transactions ∙ ground arith

    there :
        (j : ℕ)
        → id ≢ j
        → find ℕ_discrete j m'.active_transactions ≡ find ℕ_discrete j m.active_transactions
    there j ne = find-assign ℕ_discrete j id entry m.active_transactions ∙ ground arith

    filed :
        (j : ℕ) (t : TransactionState)
        → find ℕ_discrete j m'.active_transactions ≡ some t
        → Dec (id ≡ j)
        → IsFiled m' j t
    filed j t e (yes p) = ground (arith, find-assign ℕ_discrete j id entry m.active_transactions)
    filed j t e (no p) = ground (arith, there j p, v.filed j t)

    pins : (r : ℕ) → UnorderedSet.contains r m'.pinned_snapshots ≡ true → Dec (s ≡ r) → IsRead m' r
    pins r e (yes p) = (id, entry, here, p)
    pins r e (no p) =
        let (j, t, f, q) =
          v.pins_used r (ground (arith, UnorderedSet.contains-insert r s m.pinned_snapshots)) in
        (j, t, there j (λ same. cc (ap (λ k. find ℕ_discrete k m.active_transactions) same)) ∙ f, q)

-- Dropping an active transaction keeps every other, and unpins its snapshot.
pub drop_transaction-IsValid :
    (m : MvccManager) (id : ℕ) (t : TransactionState)
    → find ℕ_discrete id m.active_transactions ≡ some t
    → IsValid m
    → IsValid (drop_transaction m id t)
unfolding drop_transaction
drop_transaction-IsValid m id t f v = record {
  distinct = erase-Distinct ℕ_discrete id m.active_transactions v.distinct;
  filed = λ j u e. filed j u e (ℕ_discrete j id);
  pins_used = λ r e. pins r e (ℕ_discrete t.read_snapshot_id r);
}
  where
    filed :
        (j : ℕ) (u : TransactionState)
        → find ℕ_discrete j (erase ℕ_discrete id m.active_transactions) ≡ some u
        → Dec (j ≡ id)
        → IsFiled (drop_transaction m id t) j u
    filed j u e (yes p) = cc (find-erase_self ℕ_discrete id m.active_transactions v.distinct, e, p)
    filed j u e (no p) =
        ground (arith, find-erase_ne ℕ_discrete j id m.active_transactions p, v.filed j u)

    pins :
        (r : ℕ)
        → UnorderedSet.contains r (UnorderedSet.erase t.read_snapshot_id m.pinned_snapshots) ≡ true
        → Dec (t.read_snapshot_id ≡ r)
        → IsRead (drop_transaction m id t) r
    pins r e (yes p) =
        absurd (ground (arith, UnorderedSet.contains-erase r t.read_snapshot_id m.pinned_snapshots))
    pins r e (no p) =
        let (j, u, g, q) =
          v.pins_used r
            (ground (arith, UnorderedSet.contains-erase r t.read_snapshot_id m.pinned_snapshots)) in
        (
          j,
          u,
          find-erase_ne ℕ_discrete j id m.active_transactions
                (λ same. p (ground (arith, ap (λ k. find ℕ_discrete k m.active_transactions) same)))
              ∙ g,
          q,
        )
