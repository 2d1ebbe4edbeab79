-- ===== src/LockManager/Tests.antt =====
-- Tests of the lock manager, and its theorems at concrete inputs.
use ice_log.Prelude.{◌≤◌, ◌≡◌, refl, [], ◌∷◌, none, some, false, true}
use ice_log.Text.{Text, codes, text_discrete}
use ice_log.Outcome.{ok, thrown, undefined, runtime_error}
use ice_log.UnorderedMap.{find, assign}
use ice_log.LockManager.{
  Locks, lock_shared, lock, unlock_shared, unlock, get_or_create, acquire_shared, acquire_exclusive,
  release_shared, release_exclusive, try_acquire_exclusive,
}
use ice_log.LockManager.Guards.{exclusive_guard, World, Step, Reach, release, is_exclusive, count}
use ice_log.LockManager.Exclusion.{start, mutual_exclusion, release_total}

program : Unit {0}
unfolding lock_shared lock unlock_shared unlock get_or_create acquire_shared acquire_exclusive
    release_shared release_exclusive try_acquire_exclusive release find assign text_discrete
program = tt

abbrev events : Text
events = codes "events"

-- One exclusive guard, on "events".
abbrev held : World
held = record {
  locks = (events, record { readers = 0; writer = true }) ∷ [];
  guards = exclusive_guard events ∷ [];
}

held-Reach : Reach start held
unfolding program
held-Reach = Reach.next Reach.here (Step.scoped_exclusive events held.locks refl refl)

release_unknown :
    release_shared [] (codes "t")
    ≡ thrown (runtime_error (codes "release_shared: no lock for table t"))
unfolding program
release_unknown = refl

polls : try_acquire_exclusive ((3, held.locks) ∷ (4, []) ∷ []) events 5 ≡ some (held.locks, true)
unfolding program
polls = refl

-- The owner of the lock against another thread.
relock : acquire_exclusive true held.locks events ≡ some undefined
unfolding program
relock = refl

waits : acquire_exclusive false held.locks events ≡ none
unfolding program
waits = refl

mutual_exclusion_example : count (is_exclusive events) held.guards ≤ 1
mutual_exclusion_example = (mutual_exclusion events held-Reach).0

release_total_example : (locks : Locks) × (release held.locks (exclusive_guard events) ≡ ok locks)
release_total_example = release_total [] [] (exclusive_guard events) held-Reach refl
