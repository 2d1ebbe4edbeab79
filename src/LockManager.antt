-- ===== src/LockManager.antt =====
-- src/lock/lock_manager.h and lock_manager.cpp: `LockManager` and its guards.
-- Every method reads or changes the registry under its mutex. A call that would wait for a table's
-- lock gives `none` and changes nothing: it is made again when another thread has released the lock.
pub mod Guards
pub mod Exclusion
pub mod Idle
mod Tests
use ice_log.Prelude.{
  ℕ, zero, suc, ◌+◌, List, [], ◌∷◌, ◌++◌, Option, none, some, Bool, true, false, ◌||◌, ltb,
  if◌then◌else◌,
}
use ice_log.Text.{Text, codes, text_discrete}
use ice_log.Outcome.{Outcome, ok, thrown, undefined, runtime_error, ◌>>=◌}
use ice_log.UnorderedMap.{find, assign}

-- std::shared_mutex: how many threads hold it shared, and whether one holds it exclusively.
pub record SharedMutex : Type 0 where
  pub readers : ℕ
  pub writer : Bool

abbrev pub Locks : Type 0
Locks = List (Text × SharedMutex)

abbrev pub unlocked : SharedMutex
unlocked = record { readers = 0; writer = false }

-- `lock_shared` and `lock`. The flag says whether the calling thread holds the mutex already, in
-- either way; it is then undefined to lock it.
unfoldable pub lock_shared : Bool → SharedMutex → Option (Outcome SharedMutex)
lock_shared mine m =
    if mine
    then some undefined
    else if m.writer
    then none
    else some (ok (record m { readers = m.readers + 1 }))

unfoldable pub lock : Bool → SharedMutex → Option (Outcome SharedMutex)
lock mine m =
    if mine
    then some undefined
    else if m.writer || ltb 0 m.readers
    then none
    else some (ok (record m { writer = true }))

-- To unlock what is not locked is undefined.
abbrev pub unlock_readers : ℕ → SharedMutex → Outcome SharedMutex
unlock_readers zero m = undefined
unlock_readers (suc n) m = ok (record m { readers = n })

unfoldable pub unlock_shared : SharedMutex → Outcome SharedMutex
unlock_shared m = unlock_readers m.readers m

unfoldable pub unlock : SharedMutex → Outcome SharedMutex
unlock m = if m.writer then ok (record m { writer = false }) else undefined

-- The registry after the call, and the table's lock.
unfoldable pub get_or_create : Locks → Text → Locks × SharedMutex
get_or_create locks table_name = elim (find text_discrete table_name locks) [
  | none ↦ (assign text_discrete table_name unlocked locks, unlocked)
  | some m ↦ (locks, m)
]

unfoldable pub acquire_shared : Bool → Locks → Text → Option (Outcome Locks)
acquire_shared mine locks table_name =
    let (locks', m) = get_or_create locks table_name in
    elim (lock_shared mine m) [
      | none ↦ none
      | some (ok m') ↦ some (ok (assign text_discrete table_name m' locks'))
      | some (thrown e) ↦ some (thrown e)
      | some undefined ↦ some undefined
    ]

unfoldable pub acquire_exclusive : Bool → Locks → Text → Option (Outcome Locks)
acquire_exclusive mine locks table_name =
    let (locks', m) = get_or_create locks table_name in
    elim (lock mine m) [
      | none ↦ none
      | some (ok m') ↦ some (ok (assign text_discrete table_name m' locks'))
      | some (thrown e) ↦ some (thrown e)
      | some undefined ↦ some undefined
    ]

unfoldable pub release_shared : Locks → Text → Outcome Locks
release_shared locks table_name = elim (find text_discrete table_name locks) [
  | none ↦ thrown (runtime_error (codes "release_shared: no lock for table " ++ table_name))
  | some m ↦ do m' ← unlock_shared m; ok (assign text_discrete table_name m' locks)
]

unfoldable pub release_exclusive : Locks → Text → Outcome Locks
release_exclusive locks table_name = elim (find text_discrete table_name locks) [
  | none ↦ thrown (runtime_error (codes "release_exclusive: no lock for table " ++ table_name))
  | some m ↦ do m' ← unlock m; ok (assign text_discrete table_name m' locks)
]

-- The polling loop of `try_acquire_exclusive`: what each round reads from the clock, and the
-- registry as other threads have left it. The calling thread does not hold the table's lock. The
-- result is the registry and the answer; `none` if the rounds given end before the deadline is
-- read.
unfoldable pub try_acquire_exclusive : List (ℕ × Locks) → Text → ℕ → Option (Locks × Bool)
try_acquire_exclusive [] table_name deadline = none
try_acquire_exclusive ((now, locks) ∷ rounds) table_name deadline =
    let later = try_acquire_exclusive rounds table_name deadline in
    if ltb now deadline
    then elim (acquire_exclusive false locks table_name) [
      | some (ok locks') ↦ some (locks', true)
      | _ ↦ later
    ]
    else some (locks, false)
