-- ===== src/Mvcc/Commit.antt =====
-- src/transaction/mvcc_manager.cpp: `begin_transaction`, `commit_transaction`, `abort_transaction`.
use ice_log.Prelude.Words.{u64_mod}
use ice_log.Prelude.{
  ℕ, zero, suc, ◌+◌, ◌%◌, ◌≤◌, ◌<◌, ◌≡◌, ◌≢◌, refl, ap, ◌∙◌, some, none, true, false, not, arith,
  if_pos, if_neg, ite, sym, if◌then◌else◌, ℕ_discrete, Option-cases, Bool-cases, inl, inr,
}
use ice_log.UnorderedMap.{find, erase, find-assign, find-erase_ne, find-erase_self}
use ice_log.UnorderedSet
use ice_log.Mvcc.{
  MvccManager, TransactionState, begin_transaction, take_txn_id, register, drop_transaction,
  get_latest_committed_snapshot, commit_transaction, abort_transaction, advance, has_expired,
  is_snapshot_pinned,
}
use ice_log.Mvcc.Invariant.{IsValid, register-IsValid, drop_transaction-IsValid}

-- The loop over the weak exchange ends at the successor, however many exchanges fail first.
pub advance_lem :
    (failures latest : ℕ)
    → latest + 1 < u64_mod
    → advance failures latest latest ((latest + 1) % u64_mod) ≡ latest + 1
unfolding advance
advance_lem zero latest h = ground arith
advance_lem (suc failures) latest h = ground (arith, advance_lem failures latest h)

-- Even at the top of the range, where the successor wraps to 0, the counter does not fall.
pub le-advance :
    (failures latest : ℕ) → latest ≤ advance failures latest latest ((latest + 1) % u64_mod)
unfolding advance
le-advance zero latest = ground arith
le-advance (suc failures) latest = ground (arith, le-advance failures latest)

-- Greater counters keep the invariant.
pub raise-IsValid :
    (m : MvccManager) (next latest : ℕ)
    → m.next_txn_id ≤ next
    → m.latest_committed_snapshot ≤ latest
    → IsValid m
    → IsValid (record m { next_txn_id = next; latest_committed_snapshot = latest })
raise-IsValid m next latest h k v = record {
  distinct = v.distinct;
  filed = λ id t e.
      let f = v.filed id t e in
      record { named = f.named; issued = omega arith; visible = omega arith };
  pins_used = v.pins_used;
}

-- `commit_transaction` on every branch: an unknown identifier changes nothing.
commit_unknown :
    (m : MvccManager) (failures id now : ℕ)
    → find ℕ_discrete id m.active_transactions ≡ none
    → commit_transaction m failures id now ≡ (m, false)
unfolding commit_transaction
commit_unknown m failures id now e = rw (e, commit_transaction)

-- Dropping a transaction and then advancing the counter.
finish-IsValid :
    (m : MvccManager) (failures id : ℕ) (t : TransactionState)
    → find ℕ_discrete id m.active_transactions ≡ some t
    → IsValid m
    → IsValid (record (drop_transaction m id t) {
      latest_committed_snapshot =
          advance failures m.latest_committed_snapshot m.latest_committed_snapshot
            ((m.latest_committed_snapshot + 1) % u64_mod);
    })
unfolding drop_transaction
finish-IsValid m failures id t e v =
    raise-IsValid (drop_transaction m id t) m.next_txn_id _ (omega arith)
      (le-advance failures m.latest_committed_snapshot) (drop_transaction-IsValid m id t e v)

pub commit_transaction-IsValid :
    (m : MvccManager) (failures id now : ℕ)
    → IsValid m
    → IsValid (commit_transaction m failures id now).0
commit_transaction-IsValid m failures id now v =
    elim (Option-cases (find ℕ_discrete id m.active_transactions)) [
      | inl e ↦ rw (commit_unknown m failures id now e) v
      | inr (t, e) ↦ elim (Bool-cases (has_expired m now t)) [
        | inl x ↦
            unfold commit_transaction in
            rw (e, commit_transaction, x) (drop_transaction-IsValid m id t e v)
        | inr x ↦
            unfold commit_transaction in
            rw (e, commit_transaction, x) (finish-IsValid m failures id t e v)
      ]
    ]

pub abort_transaction-IsValid :
    (m : MvccManager) (id : ℕ) → IsValid m → IsValid (abort_transaction m id)
unfolding abort_transaction
abort_transaction-IsValid m id v = elim (Option-cases (find ℕ_discrete id m.active_transactions)) [
  | inl e ↦ rw (e, abort_transaction) v
  | inr (t, e) ↦ rw (e, abort_transaction) (drop_transaction-IsValid m id t e v)
]

module _ (m : MvccManager) (now : ℕ) (room : m.next_txn_id + 1 < u64_mod) (v : IsValid m) where
  pub next_unused : find ℕ_discrete m.next_txn_id m.active_transactions ≡ none
  next_unused = elim (Option-cases (find ℕ_discrete m.next_txn_id m.active_transactions)) [
    | inl e ↦ e
    | inr (t, e) ↦ absurd (omega (arith, (v.filed m.next_txn_id t e).issued))
  ]

  pub begin_transaction-IsValid : IsValid (begin_transaction m now).0
  unfolding begin_transaction take_txn_id
  begin_transaction-IsValid =
      register-IsValid (record m { next_txn_id = (m.next_txn_id + 1) % u64_mod }) m.next_txn_id
        m.latest_committed_snapshot now next_unused (omega arith) (omega arith)
        (raise-IsValid m ((m.next_txn_id + 1) % u64_mod) m.latest_committed_snapshot (omega arith)
          (omega arith) v)

  -- For any identifier j: beginning a transaction hands out an identifier that no active
  -- transaction has and reads the latest committed snapshot, which is pinned afterwards; then j finds the new
  -- entry if it is the new identifier, and what it found before otherwise.
  pub begin_transaction_lem :
      (j : ℕ)
      → let (m', id, s) = begin_transaction m now in
        (find ℕ_discrete id m.active_transactions ≡ none)
        × (s ≡ m.latest_committed_snapshot)
        × (is_snapshot_pinned m' s ≡ true)
        × (find ℕ_discrete j m'.active_transactions
            ≡ ite
                (ℕ_discrete id j)
                (some (record {
                  txn_id = id;
                  read_snapshot_id = s;
                  is_committed = false;
                  started_at = now;
                }))
                (find ℕ_discrete j m.active_transactions))
  unfolding begin_transaction take_txn_id get_latest_committed_snapshot register is_snapshot_pinned
  begin_transaction_lem j = (
    next_unused,
    refl,
    ground (
      arith,
      UnorderedSet.contains-insert m.latest_committed_snapshot m.latest_committed_snapshot
          m.pinned_snapshots,
    ),
    find-assign ℕ_discrete j m.next_txn_id _ m.active_transactions,
  )

-- Dropping a transaction, seen through `find`.
pub find-drop_transaction :
    (m : MvccManager) (id j : ℕ) (t : TransactionState)
    → IsValid m
    → find ℕ_discrete j (drop_transaction m id t).active_transactions
      ≡ ite (ℕ_discrete id j) none (find ℕ_discrete j m.active_transactions)
unfolding drop_transaction
find-drop_transaction m id j t v = elim (ℕ_discrete id j) [
  | yes p ↦ rw (if_pos _ p) (
      ap (λ k. find ℕ_discrete k (erase ℕ_discrete id m.active_transactions)) (sym p)
      ∙ find-erase_self ℕ_discrete id m.active_transactions v.distinct)
  | no p ↦ rw (if_neg _ p) (find-erase_ne ℕ_discrete j id m.active_transactions (λ e. p (sym e)))
]

-- For an active transaction t of identifier id, and any identifier j: the commit succeeds exactly
-- if t has not run out of time, the counter then moves on by one however many of the weak
-- exchanges fail, and else stays; in both cases t is no longer active, the snapshot that it reads
-- is unpinned, and every other transaction is as before.
pub commit_transaction_lem :
    (m : MvccManager) (failures id now j : ℕ) (t : TransactionState)
    → IsValid m
    → m.latest_committed_snapshot + 1 < u64_mod
    → find ℕ_discrete id m.active_transactions ≡ some t
    → let (m', done) = commit_transaction m failures id now in
      (done ≡ not (has_expired m now t))
      × (m'.latest_committed_snapshot ≡ (
          if has_expired m now t
          then m.latest_committed_snapshot
          else m.latest_committed_snapshot + 1))
      × (is_snapshot_pinned m' t.read_snapshot_id ≡ false)
      × (find ℕ_discrete j m'.active_transactions
          ≡ ite (ℕ_discrete id j) none (find ℕ_discrete j m.active_transactions))
unfolding commit_transaction is_snapshot_pinned drop_transaction
commit_transaction_lem m failures id now j t v room e =
    rw (e, commit_transaction)
      (ground (
        arith,
        advance_lem failures m.latest_committed_snapshot,
        find-drop_transaction m id j t v,
        UnorderedSet.contains-erase t.read_snapshot_id t.read_snapshot_id m.pinned_snapshots,
      ))

commit_gone :
    (m : MvccManager) (failures id now : ℕ) (t : TransactionState)
    → IsValid m
    → find ℕ_discrete id m.active_transactions ≡ some t
    → find ℕ_discrete id (commit_transaction m failures id now).0.active_transactions ≡ none
unfolding commit_transaction drop_transaction
commit_gone m failures id now t v e =
    rw (e, commit_transaction)
      (ground (arith, find-erase_self ℕ_discrete id m.active_transactions v.distinct))

abort_unknown :
    (m : MvccManager) (id : ℕ)
    → find ℕ_discrete id m.active_transactions ≡ none
    → abort_transaction m id ≡ m
unfolding abort_transaction
abort_unknown m id e = rw (e, abort_transaction)

-- A transaction ends once: after a commit of an active transaction, whether it succeeds or has run
-- out of time, another commit of it at any time fails, and neither that nor an abort changes the state.
pub commit_twice :
    (m : MvccManager) (failures again id now later : ℕ) (t : TransactionState)
    → IsValid m
    → find ℕ_discrete id m.active_transactions ≡ some t
    → let m' = (commit_transaction m failures id now).0 in
      (commit_transaction m' again id later ≡ (m', false)) × (abort_transaction m' id ≡ m')
commit_twice m failures again id now later t v e =
    let gone = commit_gone m failures id now t v e in
    (commit_unknown _ again id later gone, abort_unknown _ id gone)

-- A pin is not counted. When two active transactions t and u read the same snapshot and t is
-- aborted, the snapshot is no longer pinned, though u is still active and reads it.
pub abort_unpins_shared :
    (m : MvccManager) (i j : ℕ) (t u : TransactionState)
    → IsValid m
    → i ≢ j
    → find ℕ_discrete i m.active_transactions ≡ some t
    → find ℕ_discrete j m.active_transactions ≡ some u
    → t.read_snapshot_id ≡ u.read_snapshot_id
    → (find ℕ_discrete j (abort_transaction m i).active_transactions ≡ some u)
      × (is_snapshot_pinned (abort_transaction m i) u.read_snapshot_id ≡ false)
unfolding abort_transaction is_snapshot_pinned drop_transaction
abort_unpins_shared m i j t u v ne e f same =
    rw (e, abort_transaction)
      (ground (
        arith,
        find-drop_transaction m i j t v,
        UnorderedSet.contains-erase u.read_snapshot_id t.read_snapshot_id m.pinned_snapshots,
      ))
