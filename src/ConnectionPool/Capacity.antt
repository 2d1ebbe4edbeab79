-- ===== src/ConnectionPool/Capacity.antt =====
-- src/db/connection_pool.cpp: how many connections a pool and its handles have.
use ice_log.Prelude.{
  ℕ, zero, suc, ◌+◌, ◌≤◌, ◌<◌, ap, ◌≡◌, refl, ◌∙◌, List, [], ◌∷◌, ◌++◌, some, true, arith, length,
  Bool-cases, Option-cases, ◌⊎◌, inl, inr,
}
use ice_log.Outcome.{ok, thrown, Exception}
use ice_log.ConnectionPool.{
  Libpq, Pool, Handle, no_handle, release, available, destroy, move, move_assign, create_connection,
  validate_connection, fill, init, take_valid, acquire, acquire_with_timeout,
}
use ice_log.ConnectionPool.Handles.{
  World, Step, Reach, holds, held, held-append, held-split, length-snoc, lent_and_available,
}

-- A call to the server always succeeds.
abbrev pub IsUp : Libpq → Type 0
IsUp pq = (w : pq.Conns) → pq.status_ok (pq.connectdb w).0 (pq.connectdb w).1 ≡ true

module _ (pq : Libpq) where
  open pq use {Conns}

  fill-le : (n : ℕ) (queue : List ℕ) (w : Conns) → length (fill pq n queue w).0 ≤ n + length queue
  unfolding fill
  fill-le zero queue w = omega arith
  fill-le (suc n) queue w =
      let (created, w') = create_connection pq w in
      elim (Option-cases created) [
        | inl e ↦ ground (arith, e, fill-le n queue w')
        | inr (c, e) ↦ ground (arith, e, fill-le n (queue ++ c ∷ []) w', length-snoc queue c)
      ]

  created_up : IsUp pq → (w : Conns) → (c : ℕ) × ((create_connection pq w).0 ≡ some c)
  unfolding create_connection
  created_up up w = ((pq.connectdb w).0, ground (arith, up w))

  pub fill_up :
      IsUp pq
      → (n : ℕ) (queue : List ℕ) (w : Conns) → length (fill pq n queue w).0 ≡ n + length queue
  unfolding fill
  fill_up up zero queue w = omega arith
  fill_up up (suc n) queue w =
      let (c, e) = created_up up w in
      ground
        (arith, e, fill_up up n (queue ++ c ∷ []) (create_connection pq w).1, length-snoc queue c)

  taken_up : IsUp pq → (conn : ℕ) (w : Conns) → (c : ℕ) × ((take_valid pq conn w).0 ≡ some c)
  unfolding take_valid
  taken_up up conn w = elim (Bool-cases (validate_connection pq conn w).0) [
    | inl t ↦ (conn, ground (arith, t))
    | inr f ↦
        let (c, e) = created_up up (pq.finish conn (validate_connection pq conn w).1) in
        (c, ground (arith, f, e))
  ]

  queue-cases : (l : List ℕ) → (l ≡ []) ⊎ ((c : ℕ) × (rest : List ℕ) × (l ≡ c ∷ rest))
  queue-cases [] = inl refl
  queue-cases (c ∷ rest) = inr (c, rest, refl)

  -- `acquire` hands out one connection for the one that it takes from the queue, or throws and hands out none.
  acquire-ok :
      (p p' : Pool) (w w' : Conns) (h : Handle)
      → acquire pq p w ≡ some (ok h, p', w')
      → length p'.available_connections + holds h ≡ length p.available_connections
  unfolding acquire
  acquire-ok p p' w w' h e = elim (queue-cases p.available_connections) [
    | inl q ↦ ground (arith, q, e)
    | inr (c, rest, q) ↦ elim (Option-cases (take_valid pq c w).0) [
      | inl t ↦ ground (arith, q, e, t)
      | inr (d, t) ↦ ground (arith, q, e, t)
    ]
  ]

  acquire-thrown :
      (p p' : Pool) (w w' : Conns) (x : Exception)
      → acquire pq p w ≡ some (thrown x, p', w')
      → (suc (length p'.available_connections) ≡ length p.available_connections) × ¬ IsUp pq
  unfolding acquire
  acquire-thrown p p' w w' x e = elim (queue-cases p.available_connections) [
    | inl q ↦ ground (arith, q, e)
    | inr (c, rest, q) ↦ elim (Option-cases (take_valid pq c w).0) [
      | inl t ↦
          (ground (arith, q, e, t), λ up. let (d, t') = taken_up up c w in ground (arith, t, t'))
      | inr (d, t) ↦ ground (arith, q, e, t)
    ]
  ]

  acquire_with_timeout-counts :
      (p p' : Pool) (w w' : Conns) (h : Handle)
      → acquire_with_timeout pq p w ≡ (h, p', w')
      → (length p'.available_connections + holds h ≤ length p.available_connections)
        × (IsUp pq → length p'.available_connections + holds h ≡ length p.available_connections)
  unfolding acquire_with_timeout
  acquire_with_timeout-counts p p' w w' h e = elim (queue-cases p.available_connections) [
    | inl q ↦ (ground (arith, q, e), λ up. ground (arith, q, e))
    | inr (c, rest, q) ↦ elim (Option-cases (take_valid pq c w).0) [
      | inl t ↦
          (ground (arith, q, e, t), λ up. let (d, t') = taken_up up c w in ground (arith, t, t'))
      | inr (d, t) ↦ (ground (arith, q, e, t), λ up. ground (arith, q, e, t))
    ]
  ]

  destroy-counts :
      (h : Handle) (p : Pool)
      → length (destroy h p).available_connections ≡ length p.available_connections + holds h
  unfolding destroy release
  destroy-counts h p = elim (Option-cases h.conn) [
    | inl n ↦ ground (arith, n)
    | inr (c, s) ↦ ground (arith, s, length-snoc p.available_connections c)
  ]

  -- While the server is up and the queue is not empty, `acquire` hands out a connection, and destroying the
  -- handle makes the queue as long as it was.
  pub acquire_up :
      (p : Pool) (w : Conns)
      → IsUp pq
      → 0 < available p
      → (h : Handle) × (p' : Pool) × (w' : Conns) × (acquire pq p w ≡ some (ok h, p', w'))
        × (available (destroy h p') ≡ available p)
  unfolding acquire available
  acquire_up p w up some_left = elim (queue-cases p.available_connections) [
    | inl q ↦ absurd (omega (arith, ap length q))
    | inr (c, rest, q) ↦
        let (d, t) = taken_up up c w in
        let h : Handle = record { conn = some d; has_pool = true } in
        let p' : Pool = record p { available_connections = rest } in
        (
          h,
          p',
          (take_valid pq c w).1,
          ground (arith, q, t),
          omega (arith, destroy-counts h p', ap length q),
        )
  ]

  -- No step makes more connections than there were; and while the server is up none loses one.
  Step-counts :
      {w u : World Conns}
      → Step pq w u
      → (lent_and_available u ≤ lent_and_available w)
        × (IsUp pq → lent_and_available u ≡ lent_and_available w)
  unfolding move move_assign
  Step-counts {w} {u} (Step.acquires h e f) =
      let n = acquire-ok w.pool u.pool w.conns u.conns h e in
      (ground (arith, n, f), λ up. ground (arith, n, f))
  Step-counts {w} {u} (Step.throws x e f) =
      let (n, down) = acquire-thrown w.pool u.pool w.conns u.conns x e in
      (ground (arith, n, f), λ up. absurd (down up))
  Step-counts {w} {u} (Step.tries h e f) =
      let (n, m) = acquire_with_timeout-counts w.pool u.pool w.conns u.conns h e in
      (ground (arith, n, f), λ up. ground (arith, m up, f))
  Step-counts {w} {u} (Step.destroys before after h e f g) =
      let n = destroy-counts h w.pool in
      let a = held-append before (h ∷ after) in
      let b = held-append before after in
      (ground (arith, n, a, b, e, f, g), λ up. ground (arith, n, a, b, e, f, g))
  Step-counts {w} {u} (Step.moves before after h e f g) =
      let a = held-append before (h ∷ after) in
      let b = held-append before (no_handle ∷ after) in
      (ground (arith, a, b, e, f, g), λ up. ground (arith, a, b, e, f, g))
  Step-counts {w} {u} (Step.assigns before between after this other e f g) =
      let n = destroy-counts this w.pool in
      let a = held-split before between after this other in
      let b = held-split before between after other no_handle in
      (ground (arith, n, a, b, e, f, g), λ up. ground (arith, n, a, b, e, f, g))
  Step-counts {w} {u} (Step.assigns_back before between after other this e f g) =
      let n = destroy-counts this w.pool in
      let a = held-split before between after other this in
      let b = held-split before between after no_handle other in
      (ground (arith, n, a, b, e, f, g), λ up. ground (arith, n, a, b, e, f, g))

  Reach-counts :
      {w u : World Conns}
      → Reach pq w u
      → (lent_and_available u ≤ lent_and_available w)
        × (IsUp pq → lent_and_available u ≡ lent_and_available w)
  Reach-counts Reach.here = (omega arith, λ up. refl)
  Reach-counts (Reach.next r s) =
      let (n, m) = Reach-counts r in
      let (n', m') = Step-counts s in (omega (arith, n, n'), λ up. m' up ∙ m up)

  -- A new pool, with no handle yet.
  abbrev pub start : ℕ → Conns → World Conns
  start pool_size w =
      let (p, w') = init pq pool_size w in record { pool = p; conns = w'; handles = [] }

  -- Whatever is called on a new pool and however handles are moved and destroyed: the connections in the queue and
  -- those that handles hold are together never more than the pool's size.
  pub Reach-bounded :
      (pool_size : ℕ) (w : Conns) {u : World Conns}
      → Reach pq (start pool_size w) u
      → available u.pool + held u.handles ≤ pool_size
  unfolding init available
  Reach-bounded pool_size w r = omega (arith, (Reach-counts r).0, fill-le pool_size [] w)

  -- While every call to the server succeeds no connection is lost: the queue and the handles have together exactly
  -- as many as the pool's size, also when broken connections are replaced.
  pub Reach-conserved :
      (pool_size : ℕ) (w : Conns) {u : World Conns}
      → IsUp pq
      → Reach pq (start pool_size w) u
      → available u.pool + held u.handles ≡ pool_size
  unfolding init available
  Reach-conserved pool_size w up r = omega (arith, (Reach-counts r).1 up, fill_up up pool_size [] w)
