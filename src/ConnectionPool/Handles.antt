-- ===== src/ConnectionPool/Handles.antt =====
-- src/db/connection_pool.cpp: the handles of a pool over all threads, and the connections they hold.
use ice_log.Prelude.{
  ℕ, suc, ◌+◌, ◌≡◌, refl, ap, List, [], ◌∷◌, ◌++◌, Option, none, some, arith, if◌then◌else◌, length,
}
use ice_log.Outcome.{ok, thrown, Exception}
use ice_log.ConnectionPool.{
  Libpq, Pool, Handle, destroy, move, move_assign, acquire, acquire_with_timeout,
}

pub record World (Conns : Type 0) : Type 0 where
  pub pool : Pool
  pub conns : Conns
  pub handles : List Handle

-- A call by some thread, or the end of a handle.
pub data Step (pq : Libpq) (w u : World pq.Conns) : Type 0 where
  acquires :
      (h : Handle)
      → acquire pq w.pool w.conns ≡ some (ok h, u.pool, u.conns)
      → u.handles ≡ h ∷ w.handles
      → Step pq w u
  throws :
      (e : Exception)
      → acquire pq w.pool w.conns ≡ some (thrown e, u.pool, u.conns)
      → u.handles ≡ w.handles
      → Step pq w u
  tries :
      (h : Handle)
      → acquire_with_timeout pq w.pool w.conns ≡ (h, u.pool, u.conns)
      → u.handles ≡ h ∷ w.handles
      → Step pq w u
  destroys :
      (before after : List Handle) (h : Handle)
      → w.handles ≡ before ++ h ∷ after
      → u.pool ≡ destroy h w.pool
      → u.handles ≡ before ++ after
      → Step pq w u
  moves :
      (before after : List Handle) (h : Handle)
      → w.handles ≡ before ++ h ∷ after
      → u.pool ≡ w.pool
      → u.handles ≡ (move h).0 ∷ before ++ (move h).1 ∷ after
      → Step pq w u
  assigns :
      (before between after : List Handle) (this other : Handle)
      → w.handles ≡ before ++ this ∷ between ++ other ∷ after
      → u.pool ≡ (move_assign this other w.pool).2
      → u.handles
        ≡ before
          ++ (move_assign this other w.pool).0 ∷ between
          ++ (move_assign this other w.pool).1 ∷ after
      → Step pq w u
  assigns_back :
      (before between after : List Handle) (other this : Handle)
      → w.handles ≡ before ++ other ∷ between ++ this ∷ after
      → u.pool ≡ (move_assign this other w.pool).2
      → u.handles
        ≡ before
          ++ (move_assign this other w.pool).1 ∷ between
          ++ (move_assign this other w.pool).0 ∷ after
      → Step pq w u

pub data Reach (pq : Libpq) (w : World pq.Conns) : World pq.Conns → Type 0 where
  here : Reach pq w w
  next : {u v : World pq.Conns} → Reach pq w u → Step pq u v → Reach pq w v

-- How many connections a handle, and a list of handles, will give back.
abbrev pub one_of : Option ℕ → ℕ
one_of none = 0
one_of (some c) = 1

abbrev pub holds : Handle → ℕ
holds h = if h.has_pool then one_of h.conn else 0

abbrev pub held : List Handle → ℕ
held [] = 0
held (h ∷ l) = holds h + held l

pub held-append : (l r : List Handle) → held (l ++ r) ≡ held l + held r
held-append [] r = omega arith
held-append (h ∷ l) r = omega (arith, held-append l r)

pub held-split :
    (before between after : List Handle) (h k : Handle)
    → held (before ++ h ∷ between ++ k ∷ after)
      ≡ held before + holds h + held between + holds k + held after
held-split before between after h k = omega (
  arith,
  held-append before (h ∷ between),
  held-append before ((h ∷ between) ++ (k ∷ after)),
  held-append (h ∷ between) (k ∷ after),
  held-append (before ++ (h ∷ between)) (k ∷ after),
)

pub length-snoc : (l : List ℕ) (c : ℕ) → length (l ++ c ∷ []) ≡ suc (length l)
length-snoc [] c = refl
length-snoc (a ∷ l) c = ap suc (length-snoc l c)

abbrev pub lent_and_available : {C : Type 0} → World C → ℕ
lent_and_available w = length w.pool.available_connections + held w.handles
