-- ===== src/LockManager/Idle.antt =====
-- src/lock/lock_manager.cpp: what a guard of a table does to the locks where nobody else holds the table's lock.
use ice_log.Prelude.{◌≡◌, refl, ap, ◌∙◌, some, true, false, arith, Option-cases, inl, inr}
use ice_log.Text.{Text, text_discrete}
use ice_log.Outcome.{Outcome, ok, thrown, undefined}
use ice_log.UnorderedMap.{find, assign}
use ice_log.LockManager.{
  SharedMutex, Locks, unlocked, lock_shared, lock, unlock_shared, unlock, get_or_create,
  acquire_shared, acquire_exclusive, release_shared, release_exclusive,
}
use ice_log.LockManager.Guards.{mutex_of, mutex_of-assign, get_or_create_lem, Becomes, acquired}

abbrev pub shared_once : SharedMutex
shared_once = record { readers = 1; writer = false }

abbrev pub held_exclusively : SharedMutex
held_exclusively = record { readers = 0; writer = true }

module _ (locks : Locks) (table : Text) where
  pub acquire_shared-unlocked :
      mutex_of locks table ≡ unlocked
      → (locks' : Locks) × (acquire_shared false locks table ≡ some (ok locks'))
        × ((name : Text) → Becomes locks table name locks' shared_once)
  unfolding acquire_shared lock_shared
  acquire_shared-unlocked e =
      let got = (get_or_create_lem locks table table).1 ∙ e in
      let locks' = assign text_discrete table shared_once (get_or_create locks table).0 in
      (
        locks',
        ground (arith, got),
        λ name.
            acquired locks table name locks' (lock_shared false) shared_once
              (ap (lock_shared false) e) refl,
      )

  pub acquire_exclusive-unlocked :
      mutex_of locks table ≡ unlocked
      → (locks' : Locks) × (acquire_exclusive false locks table ≡ some (ok locks'))
        × ((name : Text) → Becomes locks table name locks' held_exclusively)
  unfolding acquire_exclusive lock
  acquire_exclusive-unlocked e =
      let got = (get_or_create_lem locks table table).1 ∙ e in
      let locks' = assign text_discrete table held_exclusively (get_or_create locks table).0 in
      (
        locks',
        ground (arith, got),
        λ name.
            acquired locks table name locks' (lock false) held_exclusively (ap (lock false) e) refl,
      )

  pub release_shared-held :
      mutex_of locks table ≡ shared_once
      → (locks' : Locks) × (release_shared locks table ≡ ok locks')
        × ((name : Text) → Becomes locks table name locks' unlocked)
  unfolding release_shared unlock_shared
  release_shared-held e = elim (Option-cases (find text_discrete table locks)) [
    | inl n ↦ ground (arith, n, e)
    | inr (m, f) ↦
        let held : m ≡ shared_once = ground (arith, f, e) in
        (
          assign text_discrete table unlocked locks,
          ground (arith, f, held),
          λ name. mutex_of-assign locks table name unlocked,
        )
  ]

  pub release_exclusive-held :
      mutex_of locks table ≡ held_exclusively
      → (locks' : Locks) × (release_exclusive locks table ≡ ok locks')
        × ((name : Text) → Becomes locks table name locks' unlocked)
  unfolding release_exclusive unlock
  release_exclusive-held e = elim (Option-cases (find text_discrete table locks)) [
    | inl n ↦ ground (arith, n, e)
    | inr (m, f) ↦
        let held : m ≡ held_exclusively = ground (arith, f, e) in
        (
          assign text_discrete table unlocked locks,
          ground (arith, f, held),
          λ name. mutex_of-assign locks table name unlocked,
        )
  ]

-- A thread that does not hold the table's lock waits for it or takes it.
pub first_acquire_exclusive :
    (locks : Locks) (table : Text) (o : Outcome Locks)
    → acquire_exclusive false locks table ≡ some o
    → (locks' : Locks) × (o ≡ ok locks')
unfolding acquire_exclusive lock
first_acquire_exclusive locks table (ok locks') e = (locks', refl)
first_acquire_exclusive locks table (thrown x) e = absurd (ground (arith, e))
first_acquire_exclusive locks table undefined e = absurd (ground (arith, e))

-- A thread that holds the table's lock may not take it again.
pub again_acquire_exclusive :
    (locks : Locks) (table : Text) → acquire_exclusive true locks table ≡ some undefined
unfolding acquire_exclusive lock
again_acquire_exclusive locks table = refl
