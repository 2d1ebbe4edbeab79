-- ===== src/Mvcc/Cleanup.antt =====
-- src/transaction/mvcc_manager.cpp: `cleanup_expired_transactions`.
use ice_log.Prelude.{
  ℕ, ◌+◌, ◌≡◌, refl, ap, List, [], ◌∷◌, some, none, true, false, arith, if◌then◌else◌, ℕ_discrete,
  Bool-cases, ◌⊎◌, inl, inr, Option, length,
}
use ice_log.UnorderedMap.{find, Distinct}
use ice_log.UnorderedSet
use ice_log.Mvcc.{
  MvccManager, TransactionState, has_expired, cleanup_loop, cleanup_expired_transactions,
  active_transaction_count,
}
use ice_log.Mvcc.Invariant.{IsFiled, IsValid}

-- What the clean-up leaves of an entry.
abbrev pub unless_expired : MvccManager → ℕ → Option TransactionState → Option TransactionState
unless_expired m now none = none
unless_expired m now (some t) = if has_expired m now t then none else some t

module _ (m : MvccManager) (now : ℕ) where
  find-cleanup_loop :
      (j : ℕ) (es : List (ℕ × TransactionState)) (pins : List ℕ)
      → Distinct ℕ_discrete es
      → find ℕ_discrete j (cleanup_loop m now es pins).0
        ≡ unless_expired m now (find ℕ_discrete j es)
  unfolding cleanup_loop find
  find-cleanup_loop j [] pins d = refl
  find-cleanup_loop j ((k, t) ∷ es) pins d =
      let pins' =
        if has_expired m now t then UnorderedSet.erase t.read_snapshot_id pins else pins in
      let ih = find-cleanup_loop j es pins' d.1 in
      elim (ℕ_discrete k j) [
        | yes p ↦ ground (arith, ih, d.0, ap (λ i. find ℕ_discrete i es) p)
        | no p ↦ ground (arith, ih)
      ]

  cleanup_loop-Distinct :
      (es : List (ℕ × TransactionState)) (pins : List ℕ)
      → Distinct ℕ_discrete es
      → Distinct ℕ_discrete (cleanup_loop m now es pins).0
  unfolding cleanup_loop
  cleanup_loop-Distinct [] pins d = d
  cleanup_loop-Distinct ((k, t) ∷ es) pins d =
      let pins' =
        if has_expired m now t then UnorderedSet.erase t.read_snapshot_id pins else pins in
      ground (arith, d.0, cleanup_loop-Distinct es pins' d.1, find-cleanup_loop k es pins' d.1)

  length-cleanup_loop :
      (es : List (ℕ × TransactionState)) (pins : List ℕ)
      → length (cleanup_loop m now es pins).0 + (cleanup_loop m now es pins).2 ≡ length es
  unfolding cleanup_loop
  length-cleanup_loop [] pins = refl
  length-cleanup_loop ((k, t) ∷ es) pins = ground (
    arith,
    length-cleanup_loop es
        (if has_expired m now t then UnorderedSet.erase t.read_snapshot_id pins else pins),
  )

  -- The pins left were there before, and none is the snapshot of an expired entry.
  pins_left :
      (s : ℕ) (es : List (ℕ × TransactionState)) (pins : List ℕ)
      → UnorderedSet.contains s (cleanup_loop m now es pins).1 ≡ true
      → UnorderedSet.contains s pins ≡ true
  unfolding cleanup_loop
  pins_left s [] pins h = h
  pins_left s ((k, t) ∷ es) pins h = ground (
    arith,
    pins_left s es
        (if has_expired m now t then UnorderedSet.erase t.read_snapshot_id pins else pins),
    UnorderedSet.contains-erase s t.read_snapshot_id pins,
  )

  expired_unpinned :
      (j : ℕ) (t : TransactionState) (es : List (ℕ × TransactionState)) (pins : List ℕ)
      → find ℕ_discrete j es ≡ some t
      → has_expired m now t ≡ true
      → UnorderedSet.contains t.read_snapshot_id (cleanup_loop m now es pins).1 ≡ false
  unfolding cleanup_loop find
  expired_unpinned j t [] pins e x = cc
  expired_unpinned j t ((k, u) ∷ es) pins e x =
      let pins' =
        if has_expired m now u then UnorderedSet.erase u.read_snapshot_id pins else pins in
      ground (
        arith,
        expired_unpinned j t es pins',
        pins_left t.read_snapshot_id es pins',
        UnorderedSet.contains-erase t.read_snapshot_id u.read_snapshot_id pins,
      )

  module _ (v : IsValid m) where
    -- For any identifier j: after the clean-up an active transaction is found unless its time is up,
    -- unchanged; the transactions left and the number returned add up to those before; and the
    -- latest committed snapshot stays.
    pub cleanup_expired_transactions_lem :
        (j : ℕ)
        → let (m', cleaned) = cleanup_expired_transactions m now in
          (find ℕ_discrete j m'.active_transactions
            ≡ unless_expired m now (find ℕ_discrete j m.active_transactions))
          × (active_transaction_count m' + cleaned ≡ active_transaction_count m)
          × (m'.latest_committed_snapshot ≡ m.latest_committed_snapshot)
    unfolding cleanup_expired_transactions active_transaction_count
    cleanup_expired_transactions_lem j = (
      find-cleanup_loop j m.active_transactions m.pinned_snapshots v.distinct,
      length-cleanup_loop m.active_transactions m.pinned_snapshots,
      refl,
    )

    pub cleanup_expired_transactions-IsValid : IsValid (cleanup_expired_transactions m now).0
    unfolding cleanup_expired_transactions
    cleanup_expired_transactions-IsValid = record {
      distinct = cleanup_loop-Distinct es pins v.distinct;
      filed = filed;
      pins_used = λ s e.
          let (j, t, f, q) = v.pins_used s (pins_left s es pins e) in
          (j, t, kept j t s f q e (Bool-cases (has_expired m now t)), q);
    }
      where
        es : List (ℕ × TransactionState)
        es = m.active_transactions

        pins : List ℕ
        pins = m.pinned_snapshots

        filed :
            (j : ℕ) (t : TransactionState)
            → find ℕ_discrete j (cleanup_loop m now es pins).0 ≡ some t
            → IsFiled (cleanup_expired_transactions m now).0 j t
        filed j t e =
            let old : find ℕ_discrete j es ≡ some t =
              ground (arith, find-cleanup_loop j es pins v.distinct) in
            let f = v.filed j t old in
            record { named = f.named; issued = f.issued; visible = f.visible }

        kept :
            (j : ℕ) (t : TransactionState) (s : ℕ)
            → find ℕ_discrete j es ≡ some t
            → t.read_snapshot_id ≡ s
            → UnorderedSet.contains s (cleanup_loop m now es pins).1 ≡ true
            → (has_expired m now t ≡ true) ⊎ (has_expired m now t ≡ false)
            → find ℕ_discrete j (cleanup_loop m now es pins).0 ≡ some t
        kept j t s f q e (inl x) = cc (
          expired_unpinned j t es pins f x,
          ap (λ r. UnorderedSet.contains r (cleanup_loop m now es pins).1) q,
        )
        kept j t s f q e (inr x) = ground (arith, find-cleanup_loop j es pins v.distinct)
