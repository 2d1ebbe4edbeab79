-- ===== src/Server/Idle.antt =====
-- src/server/metadata_server.cpp: on an idle server no request waits, and each gives back what it takes.
use ice_log.Prelude.{
  Bool, Bool-cases, inl, inr, false, if◌then◌else◌, suc, ◌+◌, ◌<◌, ◌≤◌, ◌≡◌, refl, ap, ◌∙◌, List,
  [], ◌∷◌, some, true, All, arith, length,
}
use ice_log.Text.{text_discrete}
use ice_log.Outcome.{Outcome, ok, thrown, undefined, is_defined}
use ice_log.Blocking.{pure}
use ice_log.Postgres.{Postgres}
use ice_log.ConnectionPool.{Libpq, available}
use ice_log.ConnectionPool.Capacity.{IsUp}
use ice_log.PgClient.Defined.Calls.{}
use ice_log.LruCache.Invariant.{IsValid}
use ice_log.PartitionRegistry.Safe.{}
use ice_log.CatalogManager.Defined.{}
use ice_log.System.{System, Run}
use ice_log.Server.{}
use ice_log.Server.Tables.{
  check_change, invalidated, alter_with, table_metadata, snapshot_to_read, rows_or_none,
}
use ice_log.Server.Tables
use ice_log.Server.Transactions.{}
use ice_log.Server.Requests.{
  Request, Response, create_table, get_table_metadata, alter_table, drop_table, list_tables,
  get_partitions, get_partition_stats, commit_snapshot, get_snapshot_of, list_snapshots_of,
  begin_txn, commit_txn, abort_txn, handle, serve, catching, operation, metadata, tables,
  partitions, stats, committed_snapshot, detail, details, begun,
}
use ice_log.Server.Manager.{HandsOut, HandsOut-trans}
use ice_log.Prelude.Words.{u64_mod}
use ice_log.Blocking
use ice_log.Mvcc.Invariant as Invariant
use ice_log.Server.Ends.{
  Ended, IsIdle, Ends, pure-Ends, EndsWith, Ends-HandsOut, bind-HandsOut, then_pure,
}
use ice_log.Server.Handlers.{
  keeps_version, Renames, create_table-Ends, get_table_metadata-Ends, drop_table-Ends,
  alter_with-Ends, get_partitions-Ends, list_tables-Ends, get_partition_stats-Ends,
  commit_snapshot-Ends, get_snapshot-Ends, list_snapshots-Ends, begin_handler-Ends,
  commit_handler-Ends, abort_handler-Ends,
}

-- The handler adds up no words of the database: only the totals of partitions and the version of a schema are sums.
abbrev pub adds_nothing : Request → Bool
adds_nothing (get_table_metadata req) = false
adds_nothing (get_partition_stats table_name) = false
adds_nothing (alter_table req) = keeps_version req.alteration
adds_nothing _ = true

abbrev pub some_add : List Request → Bool
some_add [] = false
some_add (req ∷ reqs) = if adds_nothing req then some_add reqs else true

abbrev pub NoSelfRename : Request → Type 0
NoSelfRename (alter_table req) = Renames req.table_name req.alteration
NoSelfRename _ = Unit

module _ (pg : Postgres) (pq : Libpq) (up : IsUp pq) where
  -- A handler with its reply made into the response.
  answers :
      {d : Bool}
      → {A B : Type 0} (run : Run pg pq A) (f : A → B) → Ends pg pq d run
      → EndsWith pg pq (HandsOut 1) d (Blocking.◌>>=◌ run (λ a. pure (f a)))
  answers run f h =
      Ends-HandsOut pg pq (Blocking.◌>>=◌ run (λ a. pure (f a))) (then_pure pg pq run f h)

  handle-Ends :
      (req : Request)
      → NoSelfRename req
      → EndsWith pg pq (HandsOut 1) (adds_nothing req) (handle pg pq req)
  unfolding handle Tables.alter_table
  handle-Ends (create_table req) h = answers _ operation (create_table-Ends pg pq up req)
  handle-Ends (get_table_metadata req) h = answers _ metadata (get_table_metadata-Ends pg pq up req)
  handle-Ends (alter_table req) h =
      answers _ operation (alter_with-Ends pg pq up req.table_name req.alteration h)
  handle-Ends (drop_table req) h = answers _ operation (drop_table-Ends pg pq up req)
  handle-Ends (list_tables req) h = answers _ tables (list_tables-Ends pg pq up req)
  handle-Ends (get_partitions req) h = answers _ partitions (get_partitions-Ends pg pq up req)
  handle-Ends (get_partition_stats table_name) h =
      answers _ stats (get_partition_stats-Ends pg pq up table_name)
  handle-Ends (commit_snapshot unset req) h =
      answers _ committed_snapshot (commit_snapshot-Ends pg pq up unset req)
  handle-Ends (get_snapshot_of req) h = answers _ detail (get_snapshot-Ends pg pq up req)
  handle-Ends (list_snapshots_of req) h = answers _ details (list_snapshots-Ends pg pq up req)
  handle-Ends (begin_txn now req) h =
      bind-HandsOut pg pq _ (λ r. pure (begun r)) (begin_handler-Ends pg pq up now req)
        (λ r. pure-Ends pg pq (begun r))
  handle-Ends (commit_txn failures now txn_id) h =
      answers _ operation (commit_handler-Ends pg pq up failures now txn_id)
  handle-Ends (abort_txn txn_id) h = answers _ operation (abort_handler-Ends pg pq up txn_id)

  -- There is an outcome for each request, a value or an exception; or the run has met undefined behaviour, and one of
  -- the requests has a sum.
  abbrev pub Answers : List Request → Outcome (List (Outcome Response)) → Type 0
  Answers reqs (ok os) = (length os ≡ length reqs) × All (λ o. is_defined o ≡ true) os
  Answers reqs (thrown e) = true ≡ false
  Answers reqs undefined = some_add reqs ≡ true

  -- What a sequence of requests leaves.
  record Served (reqs : List Request) (s : System pg pq) (r : Outcome (List (Outcome Response)))
      (after : System pg pq) : Type 0 where
    done : serve pg pq reqs s ≡ some (r, after)
    answers_all : Answers reqs r
    idle : IsIdle pg pq after
    same_available : available after.pool ≡ available s.pool
    valid : IsValid text_discrete after.cache
    managed : HandsOut (length reqs) s.mvcc after.mvcc

  many :
      (reqs : List Request) (s s1 s2 : System pg pq)
      → HandsOut 1 s.mvcc s1.mvcc
      → HandsOut (length reqs) s1.mvcc s2.mvcc
      → HandsOut (suc (length reqs)) s.mvcc s2.mvcc
  many reqs s s1 s2 =
      HandsOut-trans 1 (length reqs) (suc (length reqs)) s.mvcc s1.mvcc s2.mvcc (omega arith)

  -- Undefined behaviour in the first request: nothing is served after it.
  undefined-Served :
      (req : Request) (reqs : List Request) (s s1 : System pg pq)
      → handle pg pq req s ≡ some (undefined, s1)
      → Ended pg pq (HandsOut 1) (adds_nothing req) {A = Response} s undefined s1
      → Served (req ∷ reqs) s undefined s1
  unfolding serve catching
  undefined-Served req reqs s s1 e d = record {
    done = ground (arith, e);
    answers_all = elim (Bool-cases (adds_nothing req)) [
      | inl t ↦ absurd (let f : false ≡ true = d.defined t in cc)
      | inr f ↦ ground (arith, f)
    ];
    idle = d.idle;
    same_available = d.same_available;
    valid = d.valid;
    managed =
        many reqs s s1 s1 d.managed
          (record { begins_valid = λ room w. w; next_bounded = omega arith });
  }

  -- An answer to the first request, and what the others make of it.
  abbrev prepended :
      Outcome Response → Outcome (List (Outcome Response)) → Outcome (List (Outcome Response))
  prepended o r = ice_log.Outcome.◌>>=◌ r (λ os. ok (o ∷ os))

  prepended-Answers :
      (req : Request) (reqs : List Request) (o : Outcome Response)
      (r : Outcome (List (Outcome Response)))
      → is_defined o ≡ true
      → Answers reqs r
      → Answers (req ∷ reqs) (prepended o r)
  prepended-Answers req reqs o (ok os) d h = (ap suc h.0, (d, h.1))
  prepended-Answers req reqs o (thrown e) d h = h
  prepended-Answers req reqs o undefined d h = ground (arith, h)

  prepended-done :
      (o : Outcome Response) (r : Outcome (List (Outcome Response))) (s2 : System pg pq)
      → Blocking.continue (some (r, s2)) (λ os. pure (o ∷ os)) ≡ some (prepended o r, s2)
  prepended-done o (ok os) s2 = refl
  prepended-done o (thrown e) s2 = refl
  prepended-done o undefined s2 = refl

  answer-Served :
      (req : Request) (reqs : List Request) (s s1 s2 : System pg pq) (o : Outcome Response)
      (r : Outcome (List (Outcome Response)))
      → catching pg pq (handle pg pq req) s ≡ some (ok o, s1)
      → is_defined o ≡ true
      → Ended pg pq (HandsOut 1) (adds_nothing req) s o s1
      → Served reqs s1 r s2
      → Served (req ∷ reqs) s (prepended o r) s2
  unfolding serve
  answer-Served req reqs s s1 s2 o r e f d l = record {
    done =
        ap (λ c. Blocking.continue c (λ a. Blocking.◌>>=◌ (serve pg pq reqs) (λ os. pure (a ∷ os))))
          e
        ∙ ap (λ c. Blocking.continue c (λ os. pure (o ∷ os))) l.done
        ∙ prepended-done o r s2;
    answers_all = prepended-Answers req reqs o r f l.answers_all;
    idle = l.idle;
    same_available = l.same_available ∙ d.same_available;
    valid = l.valid;
    managed = many reqs s s1 s2 d.managed l.managed;
  }

  serve-Served :
      (reqs : List Request) (s : System pg pq)
      → All NoSelfRename reqs
      → IsIdle pg pq s
      → IsValid text_discrete s.cache
      → (r : Outcome (List (Outcome Response))) × (after : System pg pq) × Served reqs s r after
  unfolding serve catching
  serve-Served [] s h idle v = (
    ok [],
    s,
    record {
      done = refl;
      answers_all = (refl, tt);
      idle = idle;
      same_available = refl;
      valid = v;
      managed = record { begins_valid = λ room w. w; next_bounded = omega arith };
    },
  )
  serve-Served (req ∷ reqs) s h idle v =
      let (o, s1, e, d) = handle-Ends req h.0 s idle v in
      let (r, s2, l) = serve-Served reqs s1 h.1 d.idle d.valid in by_outcome o s1 e d r s2 l
    where
      by_outcome :
          (o : Outcome Response) (s1 : System pg pq)
          → handle pg pq req s ≡ some (o, s1)
          → Ended pg pq (HandsOut 1) (adds_nothing req) s o s1
          → (r : Outcome (List (Outcome Response))) (s2 : System pg pq) → Served reqs s1 r s2
          → (r' : Outcome (List (Outcome Response))) × (after : System pg pq) × Served
              (req ∷ reqs)
              s
              r'
              after
      by_outcome undefined s1 e d r s2 l = (undefined, s1, undefined-Served req reqs s s1 e d)
      by_outcome (ok a) s1 e d r s2 l =
          (_, s2, answer-Served req reqs s s1 s2 (ok a) r (ground (arith, e)) refl d l)
      by_outcome (thrown x) s1 e d r s2 l =
          (_, s2, answer-Served req reqs s s1 s2 (thrown x) r (ground (arith, e)) refl d l)

  -- On a server that is up, where nobody holds a lock, the pool has a connection and the cache is valid, take a valid
  -- transaction manager with an identifier left for each request and one more. After any sequence of requests, none of
  -- which renames a table to the name that it has, the manager is valid, and has handed out at most one identifier for
  -- each request.
  pub serve-IsValid :
      (reqs : List Request) (s : System pg pq)
      → All NoSelfRename reqs
      → IsIdle pg pq s
      → IsValid text_discrete s.cache
      → Invariant.IsValid s.mvcc
      → s.mvcc.next_txn_id + length reqs < u64_mod
      → (r : Outcome (List (Outcome Response))) × (after : System pg pq) × (serve pg pq reqs s
          ≡ some (r, after))
        × Invariant.IsValid after.mvcc
        × (after.mvcc.next_txn_id ≤ s.mvcc.next_txn_id + length reqs)
  serve-IsValid reqs s h idle v w room =
      let (r, after, l) = serve-Served reqs s h idle v in
      (r, after, l.done, l.managed.begins_valid room w, l.managed.next_bounded)
