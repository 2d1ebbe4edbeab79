-- ===== src/Server/Manager.antt =====
-- src/server/metadata_server.cpp: what the handlers do to the transaction manager.
use ice_log.Prelude.{
  ℕ, ◌+◌, ◌<◌, ◌≤◌, ◌≡◌, ap, sym, subst, ◌∙◌, inl, inr, Bool-cases, Option-cases, ℕ_discrete, arith,
}
use ice_log.Prelude.Words.{u64_mod}
use ice_log.UnorderedMap.{find}
use ice_log.Mvcc.{
  MvccManager, begin_transaction, take_txn_id, register, commit_transaction, abort_transaction,
  drop_transaction, has_expired,
}
use ice_log.Mvcc.Invariant as Mvcc
use ice_log.Mvcc.Commit.{
  begin_transaction-IsValid, commit_transaction-IsValid, abort_transaction-IsValid,
}

-- What a handler does to the transaction manager, but for BeginTransaction: it stays valid, and no identifier is
-- handed out.
pub record Keeps (m m' : MvccManager) : Type 0 where
  pub keeps_valid : Mvcc.IsValid m → Mvcc.IsValid m'
  pub same_next : m'.next_txn_id ≡ m.next_txn_id

-- At most n identifiers are handed out, and while there are as many left the manager stays valid.
pub record HandsOut (n : ℕ) (m m' : MvccManager) : Type 0 where
  pub begins_valid : m.next_txn_id + n < u64_mod → Mvcc.IsValid m → Mvcc.IsValid m'
  pub next_bounded : m'.next_txn_id ≤ m.next_txn_id + n

pub same-Keeps : (m m' : MvccManager) → m' ≡ m → Keeps m m'
same-Keeps m m' e = record {
  keeps_valid = subst Mvcc.IsValid (sym e);
  same_next = ap (λ n. n.next_txn_id) e;
}

pub Keeps-trans : (a b c : MvccManager) → Keeps a b → Keeps b c → Keeps a c
Keeps-trans a b c h k = record {
  keeps_valid = λ v. k.keeps_valid (h.keeps_valid v);
  same_next = k.same_next ∙ h.same_next;
}

pub HandsOut-Keeps : (n : ℕ) (a b c : MvccManager) → HandsOut n a b → Keeps b c → HandsOut n a c
HandsOut-Keeps n a b c h k = record {
  begins_valid = λ room v. k.keeps_valid (h.begins_valid room v);
  next_bounded = omega (arith, k.same_next, h.next_bounded);
}

pub Keeps-HandsOut : (a b : MvccManager) → Keeps a b → HandsOut 1 a b
Keeps-HandsOut a b k = record {
  begins_valid = λ room v. k.keeps_valid v;
  next_bounded = omega (arith, k.same_next);
}

pub HandsOut-trans :
    (n k l : ℕ) (a b c : MvccManager) → n + k ≡ l → HandsOut n a b → HandsOut k b c → HandsOut l a c
HandsOut-trans n k l a b c e h g = record {
  begins_valid = λ room v.
      g.begins_valid (omega (arith, e, room, h.next_bounded))
        (h.begins_valid (omega (arith, e, room)) v);
  next_bounded = omega (arith, e, h.next_bounded, g.next_bounded);
}

pub begin_transaction-HandsOut :
    (m : MvccManager) (now : ℕ) → HandsOut 1 m (begin_transaction m now).0
unfolding begin_transaction take_txn_id register
begin_transaction-HandsOut m now = record {
  begins_valid = λ room v. begin_transaction-IsValid m now room v;
  next_bounded = omega arith;
}

pub commit_transaction-Keeps :
    (m : MvccManager) (failures id now : ℕ) → Keeps m (commit_transaction m failures id now).0
unfolding commit_transaction drop_transaction
commit_transaction-Keeps m failures id now = record {
  keeps_valid = commit_transaction-IsValid m failures id now;
  same_next = elim (Option-cases (find ℕ_discrete id m.active_transactions)) [
    | inl e ↦ ground (arith, e)
    | inr (t, e) ↦ elim (Bool-cases (has_expired m now t)) [
      | inl x ↦ ground (arith, e, x)
      | inr x ↦ ground (arith, e, x)
    ]
  ];
}

pub abort_transaction-Keeps : (m : MvccManager) (id : ℕ) → Keeps m (abort_transaction m id)
unfolding abort_transaction drop_transaction
abort_transaction-Keeps m id = record {
  keeps_valid = abort_transaction-IsValid m id;
  same_next = elim (Option-cases (find ℕ_discrete id m.active_transactions)) [
    | inl e ↦ ground (arith, e)
    | inr (t, e) ↦ ground (arith, e)
  ];
}
