-- ===== src/System/Implements.antt =====
-- A method with its guards and connections against the method without them, where nobody else holds what it needs.
use ice_log.Prelude.{
  true, false, subst, ◌<◌, ◌≡◌, ◌≢◌, refl, ap, sym, ◌∙◌, List, [], ◌∷◌, Option, some, arith, if_pos,
  if_neg,
}
use ice_log.Text.{Text, text_discrete}
use ice_log.Outcome.{Outcome, ok, thrown, undefined}
use ice_log.Session.{Session}
use ice_log.Session
use ice_log.Blocking
use ice_log.Postgres.{Postgres}
use ice_log.Mvcc.{MvccManager}
use ice_log.LockManager.{
  SharedMutex, Locks, unlocked, acquire_shared, acquire_exclusive, release_shared,
  release_exclusive,
}
use ice_log.LockManager.Guards.{mutex_of, Becomes}
use ice_log.LockManager.Idle.{
  shared_once, held_exclusively, acquire_shared-unlocked, acquire_exclusive-unlocked,
  release_shared-held, release_exclusive-held,
}
use ice_log.ConnectionPool.{Libpq, destroy, available}
use ice_log.ConnectionPool.Capacity.{IsUp, acquire_up}
use ice_log.PartitionRegistry.{Cache}
use ice_log.System.{
  is_mine, System, Run, in_guard, with_shared, with_exclusive, with_conn, calls, read_mvcc,
}

-- The table is none of those whose guards the method has taken.
abbrev pub Free : List Text → Text → Type 0
Free [] table = Unit
Free (t ∷ taken) table = (t ≢ table) × Free taken table

module _ (pg : Postgres) (pq : Libpq) where
  -- Nobody holds a lock but those that the method has taken, and there is a connection to take.
  pub record IsReady (taken : List Text) (mvcc : MvccManager) (s : System pg pq) : Type 0 where
    pub unheld : (table : Text) → Free taken table → mutex_of s.locks table ≡ unlocked
    pub connected : 0 < available s.pool
    pub manager : s.mvcc ≡ mvcc

  -- What a method leaves: the cache and the database as given, every lock as it was, and as many connections.
  pub record Leaves (before after : System pg pq) (parts : Cache × pg.Db) : Type 0 where
    pub same_parts : ◌≡◌ {A = Cache × pg.Db} (after.cache, after.db) parts
    pub same_locks : (table : Text) → mutex_of after.locks table ≡ mutex_of before.locks table
    pub same_available : available after.pool ≡ available before.pool
    pub same_manager : after.mvcc ≡ before.mvcc

  -- The method does not wait, and does what the calls inside do.
  abbrev pub Does : {A : Type 0} → System pg pq → Run pg pq A → Session (Cache × pg.Db) A → Type 0
  Does s run session =
      (after : System pg pq) × (run s ≡ some ((session (s.cache, s.db)).0, after))
      × Leaves s after (session (s.cache, s.db)).1

  abbrev pub Implements :
      {A : Type 0} → List Text → MvccManager → Run pg pq A → Session (Cache × pg.Db) A → Type 0
  Implements taken mvcc run session = (s : System pg pq) → IsReady taken mvcc s → Does s run session

  pub calls-Implements :
      {A : Type 0} (taken : List Text) (mvcc : MvccManager) (m : Session (Cache × pg.Db) A)
      → Implements taken mvcc (calls pg pq m) m
  unfolding calls
  calls-Implements taken mvcc m s r = (
    _,
    refl,
    record {
      same_parts = refl;
      same_locks = λ table. refl;
      same_available = refl;
      same_manager = refl;
    },
  )

  pub read_mvcc-Implements :
      {A : Type 0} (taken : List Text) (mvcc : MvccManager) (f : MvccManager → Run pg pq A)
      (m : Session (Cache × pg.Db) A)
      → Implements taken mvcc (f mvcc) m
      → Implements taken mvcc (read_mvcc pg pq f) m
  read_mvcc-Implements taken mvcc f m h s r =
      let (after, e, l) = h s r in (after, ap (λ v. f v s) r.manager ∙ e, l)

  -- One step after another.
  pub bind-Implements :
      {A B : Type 0} (taken : List Text) (mvcc : MvccManager) (run : Run pg pq A)
      (f : A → Run pg pq B) (m : Session (Cache × pg.Db) A) (g : A → Session (Cache × pg.Db) B)
      → Implements taken mvcc run m
      → ((a : A) → Implements taken mvcc (f a) (g a))
      → Implements taken mvcc (Blocking.◌>>=◌ run f) (Session.◌>>=◌ m g)
  bind-Implements {A} {B} taken mvcc run f m g hm hf s r =
      let (s1, e, l) = hm s r in
      let (s2, e2, l2) = resume s1 (m (s.cache, s.db)) l in
      (s2, ap (λ o. Blocking.continue o f) e ∙ e2, l2)
    where
      resume :
          (s1 : System pg pq) (o : Outcome A × (Cache × pg.Db))
          → Leaves s s1 o.1
          → (s2 : System pg pq) × (Blocking.continue (some (o.0, s1)) f
              ≡ some ((Session.continue o g).0, s2))
            × Leaves s s2 (Session.continue o g).1
      resume s1 (ok a, parts) l =
          let ready : IsReady taken mvcc s1 = record {
            unheld = λ t free. l.same_locks t ∙ r.unheld t free;
            connected = omega (arith, r.connected, l.same_available);
            manager = l.same_manager ∙ r.manager;
          } in
          let (s2, e, l2) = hf a s1 ready in
          (
            s2,
            e ∙ ap (λ p. some ((g a p).0, s2)) l.same_parts,
            record {
              same_parts = l2.same_parts ∙ ap (λ p. (g a p).1) l.same_parts;
              same_locks = λ t. l2.same_locks t ∙ l.same_locks t;
              same_available = l2.same_available ∙ l.same_available;
              same_manager = l2.same_manager ∙ l.same_manager;
            },
          )
      resume s1 (thrown x, parts) l = (s1, refl, l)
      resume s1 (undefined, parts) l = (s1, refl, l)

  guard-Implements :
      {A : Type 0} (taken : List Text) (mvcc : MvccManager) (table : Text) (m : SharedMutex)
      (take : Locks → Option (Outcome Locks)) (give_back : Locks → Outcome Locks)
      (run : Run pg pq A) (session : Session (Cache × pg.Db) A)
      → ((locks : Locks)
          → mutex_of locks table ≡ unlocked
          → (locks' : Locks) × (take locks ≡ some (ok locks'))
            × ((name : Text) → Becomes locks table name locks' m))
      → ((locks : Locks)
          → mutex_of locks table ≡ m
          → (locks' : Locks) × (give_back locks ≡ ok locks')
            × ((name : Text) → Becomes locks table name locks' unlocked))
      → Free taken table
      → Implements (table ∷ taken) mvcc run session
      → Implements taken mvcc (in_guard pg pq take give_back run) session
  unfolding in_guard
  guard-Implements taken mvcc table m take give_back run session can_take can_give free h s r =
      let before = r.unheld table free in
      let (locks1, e1, becomes1) = can_take s.locks before in
      let s1 : System pg pq = record s { locks = locks1 } in
      let ready : IsReady (table ∷ taken) mvcc s1 = record {
        unheld = λ t fr. becomes1 t ∙ if_neg (text_discrete table t) fr.0 _ _ ∙ r.unheld t fr.1;
        connected = r.connected;
        manager = r.manager;
      } in
      let (s2, e2, l2) = h s1 ready in
      let held =
        l2.same_locks table ∙ becomes1 table ∙ if_pos (text_discrete table table) refl _ _ in
      let (locks3, e3, becomes3) = can_give s2.locks held in
      (
        record s2 { locks = locks3 },
        ground (arith, e1, e2, e3),
        record {
          same_parts = l2.same_parts;
          same_locks = λ t. elim (text_discrete table t) [
            | yes p ↦
                becomes3 t
                ∙ if_pos (text_discrete table t) p _ _
                ∙ sym before
                ∙ ap (mutex_of s.locks) p
            | no p ↦
                becomes3 t
                ∙ if_neg (text_discrete table t) p _ _
                ∙ l2.same_locks t
                ∙ becomes1 t
                ∙ if_neg (text_discrete table t) p _ _
          ];
          same_available = l2.same_available;
          same_manager = l2.same_manager;
        },
      )

  not_mine : (taken : List Text) (table : Text) → Free taken table → is_mine taken table ≡ false
  not_mine [] table free = refl
  not_mine (t ∷ taken) table free =
      elim (text_discrete t table)
        as (λ r. elim r [ yes p ↦ true | no p ↦ is_mine taken table ] ≡ false) [
          | yes p ↦ absurd (free.0 p)
          | no p ↦ not_mine taken table free.1
        ]

  pub with_shared-Implements :
      {A : Type 0} (taken : List Text) (mvcc : MvccManager) (table : Text) (run : Run pg pq A)
      (session : Session (Cache × pg.Db) A)
      → Free taken table
      → Implements (table ∷ taken) mvcc run session
      → Implements taken mvcc (with_shared pg pq taken table run) session
  with_shared-Implements taken mvcc table run session free h =
      subst
        (λ b.
          Implements taken mvcc
            (in_guard pg pq (λ l. acquire_shared b l table) (λ l. release_shared l table) run)
            session)
        (sym (not_mine taken table free))
        (guard-Implements taken mvcc table shared_once _ _ run session
          (λ l. acquire_shared-unlocked l table) (λ l. release_shared-held l table) free h)

  pub with_exclusive-Implements :
      {A : Type 0} (taken : List Text) (mvcc : MvccManager) (table : Text) (run : Run pg pq A)
      (session : Session (Cache × pg.Db) A)
      → Free taken table
      → Implements (table ∷ taken) mvcc run session
      → Implements taken mvcc (with_exclusive pg pq taken table run) session
  with_exclusive-Implements taken mvcc table run session free h =
      subst
        (λ b.
          Implements taken mvcc
            (in_guard pg pq (λ l. acquire_exclusive b l table) (λ l. release_exclusive l table) run)
            session)
        (sym (not_mine taken table free))
        (guard-Implements taken mvcc table held_exclusively _ _ run session
          (λ l. acquire_exclusive-unlocked l table) (λ l. release_exclusive-held l table) free h)

  pub with_conn-Implements :
      {A : Type 0} (taken : List Text) (mvcc : MvccManager) (m : Session (Cache × pg.Db) A)
      → IsUp pq
      → Implements taken mvcc (with_conn pg pq m) m
  unfolding with_conn
  with_conn-Implements taken mvcc m up s r =
      let (h, p', w', e, n) = acquire_up pq s.pool s.conns up r.connected in
      (
        record s {
          pool = destroy h p';
          conns = w';
          cache = (m (s.cache, s.db)).1.0;
          db = (m (s.cache, s.db)).1.1;
        },
        ground (arith, e),
        record {
          same_parts = refl;
          same_locks = λ t. refl;
          same_available = n;
          same_manager = refl;
        },
      )

  -- A method that takes its table's guard, then a connection.
  pub shared_call :
      {A : Type 0} (mvcc : MvccManager) (table : Text) (m : Session (Cache × pg.Db) A)
      → IsUp pq
      → Implements [] mvcc (with_shared pg pq [] table (with_conn pg pq m)) m
  shared_call mvcc table m up =
      with_shared-Implements [] mvcc table (with_conn pg pq m) m tt
        (with_conn-Implements (table ∷ []) mvcc m up)

  pub exclusive_call :
      {A : Type 0} (mvcc : MvccManager) (table : Text) (m : Session (Cache × pg.Db) A)
      → IsUp pq
      → Implements [] mvcc (with_exclusive pg pq [] table (with_conn pg pq m)) m
  exclusive_call mvcc table m up =
      with_exclusive-Implements [] mvcc table (with_conn pg pq m) m tt
        (with_conn-Implements (table ∷ []) mvcc m up)
