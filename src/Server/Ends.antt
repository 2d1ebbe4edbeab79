-- ===== src/Server/Ends.antt =====
-- src/server/metadata_server.cpp: runs that do not wait on an idle server, give back what they take, and have an
-- outcome that the language defines.
use ice_log.Prelude.{
  ℕ, ◌<◌, ◌≡◌, refl, ap, sym, subst, ◌∙◌, [], Option, none, some, Bool, true, false, arith,
  if◌then◌else◌,
}
use ice_log.Prelude.Int.{pos}
use ice_log.Text.{Text, text_discrete}
use ice_log.Outcome.{Outcome, ok, thrown, undefined, is_defined}
use ice_log.Session.{Session}
use ice_log.Blocking.{pure, continue, ◌>>=◌}
use ice_log.Blocking
use ice_log.Postgres.{Postgres}
use ice_log.Mvcc.{MvccManager}
use ice_log.LockManager.{unlocked}
use ice_log.LockManager.Guards.{mutex_of}
use ice_log.ConnectionPool.{Libpq, available}
use ice_log.ConnectionPool.Capacity.{IsUp}
use ice_log.LruCache.Invariant.{IsValid}
use ice_log.PartitionRegistry.{Cache}
use ice_log.PartitionRegistry.Safe.{IsSafe, get_partitions-IsSafe, invalidate-IsSafe}
use ice_log.PartitionRegistry
use ice_log.PartitionRegistry.Guarded as Registry
use ice_log.System.{System, Run, with_conn, with_shared, with_exclusive, read_mvcc}
use ice_log.System.Implements.{
  Implements, IsReady, with_conn-Implements, shared_call, exclusive_call,
}
use ice_log.Server.{
  Reply, OperationResponse, CreateTableRequest, TableRequest, TableMetadataResponse, Alteration,
  new_schema_json, GetSnapshotRequest, ListSnapshotsRequest, ListTablesRequest, TransactionRequest,
  new_partition_spec, rename, alteration_not_set, AlterTableRequest, DropTableRequest,
  PartitionRequest, PartitionListResponse, SnapshotRequest,
}
use ice_log.Server.Tables.{invalidated}
use ice_log.Server
use ice_log.Server.Transactions.{on_mvcc}
use ice_log.Server.Manager.{
  Keeps, HandsOut, same-Keeps, Keeps-trans, HandsOut-Keeps, Keeps-HandsOut,
}
use ice_log.Server.Requests.{}

module _ (pg : Postgres) (pq : Libpq) where
  -- Nobody holds a lock, and there is a connection to take.
  pub record IsIdle (s : System pg pq) : Type 0 where
    pub unheld : (table : Text) → mutex_of s.locks table ≡ unlocked
    pub connected : 0 < available s.pool

  -- All guards and connections are given back, the cache is valid, and the transaction manager is as the relation
  -- says; where the flag is set there is a value or an exception.
  pub record Ended (R : MvccManager → MvccManager → Type 0) (d : Bool) {A : Type 0}
      (s : System pg pq) (o : Outcome A) (after : System pg pq) : Type 0 where
    pub idle : IsIdle after
    pub same_available : available after.pool ≡ available s.pool
    pub valid : IsValid text_discrete after.cache
    pub defined : d ≡ true → is_defined o ≡ true
    pub managed : R s.mvcc after.mvcc

  -- On a valid cache the run does not wait.
  abbrev pub EndsWith :
      (MvccManager → MvccManager → Type 0) → Bool → {A : Type 0} → Run pg pq A → Type 0
  EndsWith R d {A} run =
      (s : System pg pq)
      → IsIdle s
      → IsValid text_discrete s.cache
      → (o : Outcome A) × (after : System pg pq) × (run s ≡ some (o, after)) × Ended R d s o after

  abbrev pub Ends : Bool → {A : Type 0} → Run pg pq A → Type 0
  Ends d run = EndsWith Keeps d run

  pub Ends-HandsOut :
      {d : Bool} → {A : Type 0} (run : Run pg pq A) → Ends d run → EndsWith (HandsOut 1) d run
  Ends-HandsOut run h s idle v =
      let (o, after, e, l) = h s idle v in
      (
        o,
        after,
        e,
        record {
          idle = l.idle;
          same_available = l.same_available;
          valid = l.valid;
          defined = l.defined;
          managed = Keeps-HandsOut s.mvcc after.mvcc l.managed;
        },
      )

  pub Implements-Ends :
      {d : Bool}
      → {A : Type 0} (run : Run pg pq A) (session : MvccManager → Session (Cache × pg.Db) A)
      → ((mvcc : MvccManager) → Implements pg pq [] mvcc run (session mvcc))
      → ((mvcc : MvccManager) → IsSafe pg d (session mvcc))
      → Ends d run
  Implements-Ends run session h safe s idle v =
      let ready : IsReady pg pq [] s.mvcc s = record {
        unheld = λ table free. idle.unheld table;
        connected = idle.connected;
        manager = refl;
      } in
      let (after, e, l) = h s.mvcc s ready in
      let (f, w) = (safe s.mvcc).runs s.cache s.db v in
      (
        _,
        after,
        e,
        record {
          idle = record {
            unheld = λ table. l.same_locks table ∙ idle.unheld table;
            connected = omega (arith, idle.connected, l.same_available);
          };
          same_available = l.same_available;
          valid = subst (IsValid text_discrete) (sym (ap (λ (c, d). c) l.same_parts)) w;
          defined = f;
          managed = same-Keeps s.mvcc after.mvcc l.same_manager;
        },
      )

  -- Nothing but an outcome.
  stays :
      {d : Bool}
      → {A : Type 0} (s : System pg pq) (o : Outcome A) → IsIdle s
      → IsValid text_discrete s.cache
      → (d ≡ true → is_defined o ≡ true)
      → Ended Keeps d s o s
  stays s o idle v f = record {
    idle = idle;
    same_available = refl;
    valid = v;
    defined = f;
    managed = same-Keeps s.mvcc s.mvcc refl;
  }

  pub pure-Ends : {d : Bool} → {A : Type 0} (a : A) → Ends d (pure a)
  pure-Ends a s idle v = (ok a, s, refl, stays s (ok a) idle v (λ t. refl))

  pub lift-Ends : {A : Type 0} (o : Outcome A) → Ends false (Blocking.lift o)
  lift-Ends o s idle v = (o, s, refl, stays s o idle v (λ t. cc))

  pub on_mvcc-EndsWith :
      {d : Bool}
      → (R : MvccManager → MvccManager → Type 0) {A : Type 0} (call : MvccManager → MvccManager × A)
      → ((m : MvccManager) → R m (call m).0)
      → EndsWith R d (on_mvcc pg pq call)
  on_mvcc-EndsWith R call h s idle v = (
    _,
    _,
    refl,
    record {
      idle = record { unheld = idle.unheld; connected = idle.connected };
      same_available = refl;
      valid = v;
      defined = λ t. refl;
      managed = h s.mvcc;
    },
  )

  pub read_mvcc-Ends :
      {d : Bool}
      → {A : Type 0} (f : MvccManager → Run pg pq A) → ((m : MvccManager) → Ends d (f m))
      → Ends d (read_mvcc pg pq f)
  read_mvcc-Ends f h s idle v = h s.mvcc s idle v

  bind-EndsWith :
      {d : Bool}
      → (R : MvccManager → MvccManager → Type 0)
      → ((a b c : MvccManager) → R a b → Keeps b c → R a c)
      → {A B : Type 0} (run : Run pg pq A) (f : A → Run pg pq B) → EndsWith R d run
      → ((a : A) → Ends d (f a))
      → EndsWith R d (Blocking.◌>>=◌ run f)
  bind-EndsWith {d} R join {A} {B} run f h k s idle v =
      let (o, s1, e, d1) = h s idle v in
      let (o2, s2, e2, d2) = resume o s1 d1.idle d1.valid d1.defined in
      (
        o2,
        s2,
        ap (λ r. continue r f) e ∙ e2,
        record {
          idle = d2.idle;
          same_available = d2.same_available ∙ d1.same_available;
          valid = d2.valid;
          defined = d2.defined;
          managed = join s.mvcc s1.mvcc s2.mvcc d1.managed d2.managed;
        },
      )
    where
      resume :
          (o : Outcome A) (s1 : System pg pq)
          → IsIdle s1
          → IsValid text_discrete s1.cache
          → (d ≡ true → is_defined o ≡ true)
          → (o2 : Outcome B) × (s2 : System pg pq) × (continue (some (o, s1)) f ≡ some (o2, s2))
            × Ended Keeps d s1 o2 s2
      resume (ok a) s1 i v f = k a s1 i v
      resume (thrown x) s1 i v f = (thrown x, s1, refl, stays s1 (thrown x) i v (λ t. refl))
      resume undefined s1 i v f = (undefined, s1, refl, stays s1 undefined i v f)

  pub bind-Ends :
      {d : Bool}
      → {A B : Type 0} (run : Run pg pq A) (f : A → Run pg pq B) → Ends d run
      → ((a : A) → Ends d (f a))
      → Ends d (Blocking.◌>>=◌ run f)
  bind-Ends run f = bind-EndsWith Keeps Keeps-trans run f

  pub bind-HandsOut :
      {d : Bool}
      → {A B : Type 0} (run : Run pg pq A) (f : A → Run pg pq B) → EndsWith (HandsOut 1) d run
      → ((a : A) → Ends d (f a))
      → EndsWith (HandsOut 1) d (Blocking.◌>>=◌ run f)
  bind-HandsOut run f = bind-EndsWith (HandsOut 1) (HandsOut-Keeps 1) run f

  pub if-Ends :
      {d : Bool}
      → {A : Type 0} (b : Bool) (x y : Run pg pq A) → Ends d x
      → Ends d y
      → Ends d (if b then x else y)
  if-Ends true x y h k = h
  if-Ends false x y h k = k

  pub option-Ends :
      {d : Bool}
      → {A B : Type 0} (o : Option A) (x : Run pg pq B) (f : A → Run pg pq B) → Ends d x
      → ((a : A) → Ends d (f a))
      → Ends d (elim o [ none ↦ x | some a ↦ f a ])
  option-Ends none x f h k = h
  option-Ends (some a) x f h k = k a

  pub then_pure :
      {d : Bool}
      → {A B : Type 0} (run : Run pg pq A) (f : A → B) → Ends d run
      → Ends d (Blocking.◌>>=◌ run (λ a. pure (f a)))
  then_pure run f h = bind-Ends run (λ a. pure (f a)) h (λ a. pure-Ends (f a))

  module _ (up : IsUp pq) where
    pub conn-Ends :
        {d : Bool}
        → {A : Type 0} (m : Session (Cache × pg.Db) A) → IsSafe pg d m
        → Ends d (with_conn pg pq m)
    conn-Ends m safe =
        Implements-Ends (with_conn pg pq m) (λ mvcc. m)
          (λ mvcc. with_conn-Implements pg pq [] mvcc m up) (λ mvcc. safe)

    pub read-Ends :
        {d : Bool}
        → (table_name : Text) (snapshot_id : ℕ)
        → Ends d (Registry.get_partitions pg pq table_name snapshot_id)
    read-Ends table_name snapshot_id =
        Implements-Ends (Registry.get_partitions pg pq table_name snapshot_id)
          (λ mvcc. PartitionRegistry.get_partitions pg mvcc table_name snapshot_id)
          (λ mvcc. Registry.get_partitions-Implements pg pq mvcc table_name snapshot_id up)
          (λ mvcc. get_partitions-IsSafe pg mvcc table_name snapshot_id)

    pub invalidated-Ends :
        {d : Bool}
        → (table_name : Text) (resp : OperationResponse)
        → Ends d (invalidated pg pq table_name resp)
    invalidated-Ends table_name resp =
        let sweep = Registry.invalidate_table_cache pg pq table_name in
        bind-Ends sweep (λ n. pure (Server.replied resp))
          (Implements-Ends sweep (λ mvcc. PartitionRegistry.invalidate_table_cache pg table_name)
            (λ mvcc.
              (Registry.registry-Implements pg pq mvcc table_name [] 0 (pos 0) (pos 0) [] [] up).3)
            (λ mvcc. invalidate-IsSafe pg table_name))
          (λ n. pure-Ends (Server.replied resp))

    pub exclusive-Ends :
        {d : Bool}
        → {A : Type 0} (table : Text) (m : Session (Cache × pg.Db) A) → IsSafe pg d m
        → Ends d (with_exclusive pg pq [] table (with_conn pg pq m))
    exclusive-Ends table m safe =
        Implements-Ends _ (λ mvcc. m) (λ mvcc. exclusive_call pg pq mvcc table m up) (λ mvcc. safe)

    pub shared-Ends :
        {d : Bool}
        → {A : Type 0} (table : Text) (m : Session (Cache × pg.Db) A) → IsSafe pg d m
        → Ends d (with_shared pg pq [] table (with_conn pg pq m))
    shared-Ends table m safe =
        Implements-Ends _ (λ mvcc. m) (λ mvcc. shared_call pg pq mvcc table m up) (λ mvcc. safe)
