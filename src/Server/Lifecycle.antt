-- ===== src/Server/Lifecycle.antt =====
-- src/server/metadata_server.cpp: `BeginTransaction` and `CommitTransaction`, one after the other.
use ice_log.Prelude.{
  ◌++◌, ℕ, ◌+◌, ◌<◌, ◌≡◌, refl, ap, sym, ◌∙◌, [], some, Bool, true, false, not, arith,
  if◌then◌else◌, ℕ_discrete, subst, if_pos,
}
use ice_log.Prelude.Int.{ltb_ℤ, sub_ℕ}
use ice_log.Prelude.Words.{u64_mod}
use ice_log.Text.{Text, codes}
use ice_log.Outcome.{Outcome, ok, thrown, undefined}
use ice_log.Session.{Session}
use ice_log.Blocking.{continue, pure}
use ice_log.Postgres.{Postgres}
use ice_log.UnorderedMap.{find}
use ice_log.Mvcc.{
  MvccManager, TransactionState, begin_transaction, commit_transaction, has_expired, take_txn_id,
  register, get_latest_committed_snapshot,
}
use ice_log.Mvcc.Invariant.{IsValid}
use ice_log.Mvcc.Commit.{
  begin_transaction-IsValid, begin_transaction_lem, commit_transaction_lem, commit_twice,
}
use ice_log.ConnectionPool.{Libpq}
use ice_log.ConnectionPool.Capacity.{IsUp}
use ice_log.PgClient.{run_command}
use ice_log.PgClient.Snapshots.{insert_transaction, update_transaction_status}
use ice_log.PartitionRegistry.{Cache, on_db}
use ice_log.System.{System, with_conn}
use ice_log.System.Implements.{IsReady, with_conn-Implements}
use ice_log.Text.Decimal.{to_string}
use ice_log.Server.{OperationResponse, Reply, replied, TransactionRequest, TransactionResponse}
use ice_log.Server.Transactions.{
  begin_handler, commit_handler, after_commit, commit_response, isolation_text,
}
use ice_log.Server.Ends.{IsIdle}

-- What a commit answers.
abbrev pub succeeded : OperationResponse
succeeded = record { success = true; error_msg = [] }

abbrev pub too_late : ℕ → OperationResponse
too_late txn_id = record {
  success = false;
  error_msg = codes "Transaction " ++ (to_string txn_id ++ codes " not found or expired");
}

answered :
    (txn_id : ℕ) (expired : Bool)
    → commit_response txn_id (not expired) ≡ (if expired then too_late txn_id else succeeded)
unfolding commit_response
answered txn_id true = refl
answered txn_id false = refl

-- A chain that ends in a response: its last step gave a value.
ends_in :
    {S A R : Type 0} (o : Outcome A) (response r : R) (next s1 : S)
    → continue (some (o, next)) (λ a. pure response) ≡ some (ok r, s1)
    → (response ≡ r) × (next ≡ s1)
ends_in (ok a) response r next s1 e = (cc, cc)
ends_in (thrown x) response r next s1 e = (cc, cc)
ends_in undefined response r next s1 e = (cc, cc)

-- The same two calls of the manager.
begin_then_commit :
    (m : MvccManager) (begun now later failures again : ℕ)
    → IsValid m
    → m.next_txn_id + 1 < u64_mod
    → m.latest_committed_snapshot + 1 < u64_mod
    → let (m', txn_id, read_snapshot) = begin_transaction m begun in
      let (m2, done) = commit_transaction m' failures txn_id now in
      let expired = ltb_ℤ m.txn_timeout (sub_ℕ now begun) in
      (read_snapshot ≡ m.latest_committed_snapshot)
      × (done ≡ not expired)
      × (m2.latest_committed_snapshot
          ≡ (if expired then m.latest_committed_snapshot else m.latest_committed_snapshot + 1))
      × (commit_transaction m2 again txn_id later ≡ (m2, false))
unfolding begin_transaction take_txn_id register get_latest_committed_snapshot has_expired
begin_then_commit m begun now later failures again v ids room =
    let (m', txn_id, read_snapshot) = begin_transaction m begun in
    let t : TransactionState = record {
      txn_id = txn_id;
      read_snapshot_id = read_snapshot;
      is_committed = false;
      started_at = begun;
    } in
    let active : find ℕ_discrete txn_id m'.active_transactions ≡ some t =
      (begin_transaction_lem m begun ids v txn_id).3 ∙ if_pos (ℕ_discrete txn_id txn_id) refl _ _ in
    let v' = begin_transaction-IsValid m begun ids v in
    let committed = commit_transaction_lem m' failures txn_id now txn_id t v' room active in
    (
      (begin_transaction_lem m begun ids v txn_id).1,
      committed.0,
      committed.1,
      (commit_twice m' failures again txn_id now later t v' active).0,
    )

module _ (pg : Postgres) (pq : Libpq) (up : IsUp pq) where
  -- Calls on a connection, on an idle server: what they give, and the manager as it was.
  on_conn :
      {A : Type 0} (m : Session (Cache × pg.Db) A) (s : System pg pq)
      → IsIdle pg pq s
      → (next : System pg pq) × (with_conn pg pq m s ≡ some ((m (s.cache, s.db)).0, next))
        × IsIdle pg pq next
        × (next.mvcc ≡ s.mvcc)
  on_conn m s idle =
      let ready : IsReady pg pq [] s.mvcc s = record {
        unheld = λ table free. idle.unheld table;
        connected = idle.connected;
        manager = refl;
      } in
      let (next, e, left) = with_conn-Implements pg pq [] s.mvcc m up s ready in
      (
        next,
        e,
        record {
          unheld = λ table. left.same_locks table ∙ idle.unheld table;
          connected = omega (arith, idle.connected, left.same_available);
        },
        left.same_manager,
      )

  status_written :
      (txn_id : ℕ) (status : Text) (cache : Cache) (db : pg.Db)
      → (b : Bool) × ((on_db pg (update_transaction_status pg txn_id status) (cache, db)).0 ≡ ok b)
  unfolding update_transaction_status run_command
  status_written txn_id status cache db = (_, refl)

  after_commit_lem :
      (txn_id : ℕ) (committed : Bool) (s : System pg pq)
      → IsIdle pg pq s
      → (next : System pg pq) × (after_commit pg pq txn_id committed s
          ≡ some (ok (replied (commit_response txn_id committed)), next))
        × IsIdle pg pq next
        × (next.mvcc ≡ s.mvcc)
  unfolding after_commit
  after_commit_lem txn_id true s idle =
      let (next, e, idle', same) =
        on_conn (on_db pg (update_transaction_status pg txn_id (codes "committed"))) s idle in
      let (b, written) = status_written txn_id (codes "committed") s.cache s.db in
      (next, ground (arith, e, written), idle', same)
  after_commit_lem txn_id false s idle = (s, refl, idle, refl)

  -- What the handler answers is what the manager has decided.
  commit_handler_lem :
      (failures now txn_id : ℕ) (s : System pg pq)
      → IsIdle pg pq s
      → let (m', done) = commit_transaction s.mvcc failures txn_id now in
        (next : System pg pq) × (commit_handler pg pq failures now txn_id s
          ≡ some (ok (replied (commit_response txn_id done)), next))
        × IsIdle pg pq next
        × (next.mvcc ≡ m')
  unfolding commit_handler
  commit_handler_lem failures now txn_id s idle =
      let (m', done) = commit_transaction s.mvcc failures txn_id now in
      after_commit_lem txn_id done (record s { mvcc = m' })
        (record { unheld = idle.unheld; connected = idle.connected })

  -- What is known of the server where BeginTransaction has answered.
  begun_lem :
      (begun : ℕ) (req : TransactionRequest) (s s1 : System pg pq) (r : TransactionResponse)
      → IsIdle pg pq s
      → begin_handler pg pq begun req s ≡ some (ok (replied r), s1)
      → let (m', txn_id, read_snapshot) = begin_transaction s.mvcc begun in
        (r.txn_id ≡ txn_id)
        × (r.read_snapshot_id ≡ read_snapshot)
        × IsIdle pg pq s1
        × (s1.mvcc ≡ m')
  unfolding begin_handler
  begun_lem begun req s s1 r idle e =
      let (m', txn_id, read_snapshot) = begin_transaction s.mvcc begun in
      let insert =
        on_db pg
          (insert_transaction pg req.client_id read_snapshot (isolation_text req.isolation)) in
      let (next, f, idle', same) =
        on_conn insert (record s { mvcc = m' })
          (record { unheld = idle.unheld; connected = idle.connected }) in
      let answer : TransactionResponse = record {
        txn_id = txn_id;
        read_snapshot_id = read_snapshot;
      } in
      let (response, ends) =
        ends_in (insert (s.cache, s.db)).0 (replied answer) (replied r) next s1
          (sym (ap (λ v. continue v (λ n. pure (replied answer))) f) ∙ e) in
      (
        ap (λ (p : Reply TransactionResponse). p.response.txn_id) (sym response),
        ap (λ (p : Reply TransactionResponse). p.response.read_snapshot_id) (sym response),
        subst (IsIdle pg pq) ends idle',
        ap (λ (t : System pg pq). t.mvcc) (sym ends) ∙ same,
      )

  -- Where nobody holds a lock, the pool has a connection and the manager is valid, with an identifier and a snapshot
  -- left: once BeginTransaction has answered, the response names the latest committed snapshot, and the identifier
  -- under which CommitTransaction then succeeds exactly if the transaction has not run out of time, and else answers
  -- that the transaction is not found or expired; the latest committed snapshot moves on by one where it succeeds, and
  -- else stays; a second CommitTransaction answers that the transaction is not found or expired.
  pub begin-commit :
      (begun now later failures again : ℕ) (req : TransactionRequest) (s s1 : System pg pq)
      (r : TransactionResponse)
      → IsIdle pg pq s
      → IsValid s.mvcc
      → s.mvcc.next_txn_id + 1 < u64_mod
      → s.mvcc.latest_committed_snapshot + 1 < u64_mod
      → begin_handler pg pq begun req s ≡ some (ok (replied r), s1)
      → let expired = ltb_ℤ s.mvcc.txn_timeout (sub_ℕ now begun) in
        (r.read_snapshot_id ≡ s.mvcc.latest_committed_snapshot)
        × (s2 : System pg pq) × (commit_handler pg pq failures now r.txn_id s1
            ≡ some (ok (replied (if expired then too_late r.txn_id else succeeded)), s2))
        × (s2.mvcc.latest_committed_snapshot ≡ (
            if expired
            then s.mvcc.latest_committed_snapshot
            else s.mvcc.latest_committed_snapshot + 1))
        × (s3 : System pg pq) × (commit_handler pg pq again later r.txn_id s2
            ≡ some (ok (replied (too_late r.txn_id)), s3))
  unfolding commit_response
  begin-commit begun now later failures again req s s1 r idle v ids room e =
      let (m', txn_id, read_snapshot) = begin_transaction s.mvcc begun in
      let (same_id, same_read, idle1, mvcc1) = begun_lem begun req s s1 r idle e in
      let decided = begin_then_commit s.mvcc begun now later failures again v ids room in
      let (s2, first, idle2, mvcc2) = commit_handler_lem failures now r.txn_id s1 idle1 in
      let (s3, second, idle3, mvcc3) = commit_handler_lem again later r.txn_id s2 idle2 in
      let called =
        ap (λ (p : MvccManager × ℕ). commit_transaction p.0 failures p.1 now)
          {x = (s1.mvcc, r.txn_id)} {y = (m', txn_id)} (λ i. (mvcc1 i, same_id i)) in
      let left = mvcc2 ∙ ap (λ p. p.0) called in
      let recalled =
        ap (λ (p : MvccManager × ℕ). commit_transaction p.0 again p.1 later)
          {x = (s2.mvcc, r.txn_id)} (λ i. (left i, same_id i)) in
      (
        same_read ∙ decided.0,
        s2,
        first
            ∙ ap (λ done. some (ok (replied (commit_response r.txn_id done)), s2))
                (ap (λ p. p.1) called ∙ decided.1)
            ∙ ap (λ answer. some (ok (replied answer), s2))
                (answered r.txn_id (ltb_ℤ s.mvcc.txn_timeout (sub_ℕ now begun))),
        ap (λ (m : MvccManager). m.latest_committed_snapshot) left ∙ decided.2,
        s3,
        second
            ∙ ap (λ done. some (ok (replied (commit_response r.txn_id done)), s3))
                (ap (λ p. p.1) recalled ∙ ap (λ p. p.1) decided.3),
      )
