-- ===== src/LockManager/Guards.antt =====
-- src/lock/lock_manager.h: `SharedGuard` and `ExclusiveGuard`, over all threads.
use ice_log.Prelude.{
  ℕ, ◌+◌, ◌≡◌, ◌≢◌, ap, sym, ◌∙◌, List, [], ◌∷◌, ◌++◌, Option, none, some, true, false, arith,
  if◌then◌else◌, ite, if_pos, if_neg, Option-cases, inl, inr,
}
use ice_log.Text.{Text, text_discrete}
use ice_log.Outcome.{Outcome, ok, thrown, undefined, >>=-eq-ok}
use ice_log.UnorderedMap.{find, assign, find-assign}
use ice_log.LockManager.{
  SharedMutex, Locks, unlocked, lock_shared, lock, unlock_shared, unlock, get_or_create,
  acquire_shared, acquire_exclusive, release_shared, release_exclusive,
}

pub data Guard : Type 0 where
  shared_guard : Text → Guard
  exclusive_guard : Text → Guard

-- The registry, and the guards that are alive in all threads. A step takes a guard of a table in a thread
-- that has none of this table; to take another is undefined, and is no step.
pub record World : Type 0 where
  pub locks : Locks
  pub guards : List Guard

-- The destructor of a guard.
unfoldable pub release : Locks → Guard → Outcome Locks
release locks (shared_guard table) = release_shared locks table
release locks (exclusive_guard table) = release_exclusive locks table

pub data Step (w u : World) : Type 0 where
  scoped_shared :
      (table : Text) (locks : Locks)
      → acquire_shared false w.locks table ≡ some (ok locks)
      → u ≡ record { locks = locks; guards = shared_guard table ∷ w.guards }
      → Step w u
  scoped_exclusive :
      (table : Text) (locks : Locks)
      → acquire_exclusive false w.locks table ≡ some (ok locks)
      → u ≡ record { locks = locks; guards = exclusive_guard table ∷ w.guards }
      → Step w u
  destroy :
      (before after : List Guard) (g : Guard) (locks : Locks)
      → w.guards ≡ before ++ g ∷ after
      → release w.locks g ≡ ok locks
      → u ≡ record { locks = locks; guards = before ++ after }
      → Step w u

pub data Reach (w : World) : World → Type 0 where
  here : Reach w w
  next : {t u : World} → Reach w t → Step t u → Reach w u

-- How many guards of a table are alive.
abbrev pub is_shared : Text → Guard → ℕ
is_shared name (shared_guard table) = ite (text_discrete table name) 1 0
is_shared name (exclusive_guard table) = 0

abbrev pub is_exclusive : Text → Guard → ℕ
is_exclusive name (shared_guard table) = 0
is_exclusive name (exclusive_guard table) = ite (text_discrete table name) 1 0

abbrev pub count : (Guard → ℕ) → List Guard → ℕ
count f [] = 0
count f (g ∷ guards) = f g + count f guards

pub count-append :
    (f : Guard → ℕ) (xs ys : List Guard) → count f (xs ++ ys) ≡ count f xs + count f ys
count-append f [] ys = omega arith
count-append f (x ∷ xs) ys = omega (arith, count-append f xs ys)

abbrev pub or_unlocked : Option SharedMutex → SharedMutex
or_unlocked none = unlocked
or_unlocked (some m) = m

abbrev pub mutex_of : Locks → Text → SharedMutex
mutex_of locks name = or_unlocked (find text_discrete name locks)

-- A table's lock counts the guards that are alive, and an exclusive one is alone.
pub record IsCounted (w : World) (name : Text) : Type 0 where
  pub readers : (mutex_of w.locks name).readers ≡ count (is_shared name) w.guards
  pub writers :
      (if (mutex_of w.locks name).writer then 1 else 0) ≡ count (is_exclusive name) w.guards
  pub alone : (mutex_of w.locks name).writer ≡ true → (mutex_of w.locks name).readers ≡ 0

abbrev pub IsSafe : World → Type 0
IsSafe w = (name : Text) → IsCounted w name

pub mutex_of-assign :
    (locks : Locks) (table name : Text) (m : SharedMutex)
    → mutex_of (assign text_discrete table m locks) name
      ≡ ite (text_discrete table name) m (mutex_of locks name)
mutex_of-assign locks table name m =
    ap or_unlocked (find-assign text_discrete name table m locks) ∙ ground arith

pub get_or_create_lem :
    (locks : Locks) (table name : Text)
    → (mutex_of (get_or_create locks table).0 name ≡ mutex_of locks name)
      × ((get_or_create locks table).1 ≡ mutex_of locks table)
unfolding get_or_create
get_or_create_lem locks table name = elim (Option-cases (find text_discrete table locks)) [
  | inr (m, e) ↦ ground (arith, e)
  | inl e ↦
      let same = λ (q : table ≡ name). ap (λ k. find text_discrete k locks) (sym q) ∙ e in
      elim (text_discrete table name) [
        | yes p ↦ ground (arith, e, mutex_of-assign locks table name unlocked, same p)
        | no p ↦ ground (arith, e, mutex_of-assign locks table name unlocked)
      ]
]

-- What a change of the table's lock to m does to the lock of any table.
abbrev pub Becomes : Locks → Text → Text → Locks → SharedMutex → Type 0
Becomes locks table name locks' m =
    mutex_of locks' name ≡ ite (text_discrete table name) m (mutex_of locks name)

module _ (locks : Locks) (table name : Text) (locks' : Locks) where
  -- An acquisition sets the table's lock, whatever it was and whether it existed.
  pub acquired :
      (f : SharedMutex → Option (Outcome SharedMutex)) (m : SharedMutex)
      → f (mutex_of locks table) ≡ some (ok m)
      → locks' ≡ assign text_discrete table m (get_or_create locks table).0
      → Becomes locks table name locks' m
  acquired f m e q =
      ap (λ l. mutex_of l name) q
      ∙ mutex_of-assign (get_or_create locks table).0 table name m
      ∙ ap (ite (text_discrete table name) m) (get_or_create_lem locks table name).0

  acquire_shared_lem :
      acquire_shared false locks table ≡ some (ok locks')
      → (m : SharedMutex) × (lock_shared false (mutex_of locks table) ≡ some (ok m))
        × Becomes locks table name locks' m
  unfolding acquire_shared
  acquire_shared_lem e =
      let got = (get_or_create_lem locks table name).1 in
      elim (Option-cases (lock_shared false (get_or_create locks table).1)) [
        | inl f ↦ ground (arith, f)
        | inr (ok m, f) ↦
            let g = ap (lock_shared false) (sym got) ∙ f in
            (m, g, acquired (lock_shared false) m g (ground (arith, f)))
        | inr (thrown x, f) ↦ ground (arith, f)
        | inr (undefined, f) ↦ ground (arith, f)
      ]

  pub acquire_exclusive_lem :
      acquire_exclusive false locks table ≡ some (ok locks')
      → (m : SharedMutex) × (lock false (mutex_of locks table) ≡ some (ok m))
        × Becomes locks table name locks' m
  unfolding acquire_exclusive
  acquire_exclusive_lem e =
      let got = (get_or_create_lem locks table name).1 in
      elim (Option-cases (lock false (get_or_create locks table).1)) [
        | inl f ↦ ground (arith, f)
        | inr (ok m, f) ↦
            let g = ap (lock false) (sym got) ∙ f in
            (m, g, acquired (lock false) m g (ground (arith, f)))
        | inr (thrown x, f) ↦ ground (arith, f)
        | inr (undefined, f) ↦ ground (arith, f)
      ]

  pub release_shared_lem :
      release_shared locks table ≡ ok locks'
      → (m : SharedMutex) × (unlock_shared (mutex_of locks table) ≡ ok m)
        × Becomes locks table name locks' m
  unfolding release_shared
  release_shared_lem e = elim (Option-cases (find text_discrete table locks)) [
    | inl f ↦ ground (arith, f)
    | inr (m, f) ↦
        let (m', h, g) =
          >>=-eq-ok (unlock_shared m) (λ k. ok (assign text_discrete table k locks)) {y = locks'}
            (ground (arith, f, e)) in
        (
          m',
          ap (λ o. unlock_shared (or_unlocked o)) f ∙ g,
          ap (λ l. mutex_of l name) (ground (arith, h)) ∙ mutex_of-assign locks table name m',
        )
  ]

  pub release_exclusive_lem :
      release_exclusive locks table ≡ ok locks'
      → (m : SharedMutex) × (unlock (mutex_of locks table) ≡ ok m)
        × Becomes locks table name locks' m
  unfolding release_exclusive
  release_exclusive_lem e = elim (Option-cases (find text_discrete table locks)) [
    | inl f ↦ ground (arith, f)
    | inr (m, f) ↦
        let (m', h, g) =
          >>=-eq-ok (unlock m) (λ k. ok (assign text_discrete table k locks)) {y = locks'}
            (ground (arith, f, e)) in
        (
          m',
          ap (λ o. unlock (or_unlocked o)) f ∙ g,
          ap (λ l. mutex_of l name) (ground (arith, h)) ∙ mutex_of-assign locks table name m',
        )
  ]

module _ (w : World) (table name : Text) (locks : Locks) (m : SharedMutex)
    (g : Becomes w.locks table name locks m) where
  pub at_table : table ≡ name → mutex_of locks name ≡ m
  at_table p = g ∙ if_pos (text_discrete table name) p _ _

  pub at_other : table ≢ name → mutex_of locks name ≡ mutex_of w.locks name
  at_other p = g ∙ if_neg (text_discrete table name) p _ _

-- The lock of any table that is not the one in question stays as it is.
pub other-IsCounted :
    (w u : World) (name : Text)
    → mutex_of u.locks name ≡ mutex_of w.locks name
    → count (is_shared name) u.guards ≡ count (is_shared name) w.guards
    → count (is_exclusive name) u.guards ≡ count (is_exclusive name) w.guards
    → IsCounted w name
    → IsCounted u name
other-IsCounted w u name e f g c = record {
  readers = ap (λ m. m.readers) e ∙ c.readers ∙ sym f;
  writers = ap (λ (m : SharedMutex). if m.writer then 1 else 0) e ∙ c.writers ∙ sym g;
  alone = λ h. ap (λ m. m.readers) e ∙ c.alone (sym (ap (λ m. m.writer) e) ∙ h);
}

module _ (w : World) (table : Text) (locks : Locks) (safe : IsSafe w) where
  pub scoped_shared-IsSafe :
      acquire_shared false w.locks table ≡ some (ok locks)
      → IsSafe (record { locks = locks; guards = shared_guard table ∷ w.guards })
  unfolding lock_shared
  scoped_shared-IsSafe e name =
      let (m, f, g) = acquire_shared_lem w.locks table name locks e in
      let c = safe name in
      elim (text_discrete table name) [
        | yes p ↦
            let at = at_table w table name locks m g p in
            let old = ap (λ k. lock_shared false (mutex_of w.locks k)) (sym p) ∙ f in
            record {
              readers = ground (arith, at, old, c.readers, p);
              writers = ground (arith, at, old, c.writers);
              alone = λ h. ground (arith, at, old, h);
            }
        | no p ↦
            other-IsCounted w _ name (at_other w table name locks m g p) (ground arith)
              (omega arith) c
      ]

  pub scoped_exclusive-IsSafe :
      acquire_exclusive false w.locks table ≡ some (ok locks)
      → IsSafe (record { locks = locks; guards = exclusive_guard table ∷ w.guards })
  unfolding lock
  scoped_exclusive-IsSafe e name =
      let (m, f, g) = acquire_exclusive_lem w.locks table name locks e in
      let c = safe name in
      elim (text_discrete table name) [
        | yes p ↦
            let at = at_table w table name locks m g p in
            let old = ap (λ k. lock false (mutex_of w.locks k)) (sym p) ∙ f in
            record {
              readers = ground (arith, at, old, c.readers);
              writers = ground (arith, at, old, c.writers, p);
              alone = λ h. ground (arith, at, old, h);
            }
        | no p ↦
            other-IsCounted w _ name (at_other w table name locks m g p) (omega arith)
              (ground arith) c
      ]
