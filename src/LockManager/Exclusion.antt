-- ===== src/LockManager/Exclusion.antt =====
-- src/lock/lock_manager.h and lock_manager.cpp: mutual exclusion on every table, over all threads.
use ice_log.Prelude.{
  ℕ, ◌+◌, ◌≤◌, ◌≡◌, ◌⊎◌, ◌-◌, refl, ap, sym, ◌∙◌, List, [], ◌∷◌, ◌++◌, false, arith, if_pos,
  Option-cases, inl, inr,
}
use ice_log.Text.{Text, text_discrete}
use ice_log.Outcome.{ok}
use ice_log.UnorderedMap.{find, assign}
use ice_log.LockManager.{Locks, unlock_shared, unlock, release_shared, release_exclusive}
use ice_log.LockManager.Guards.{
  Guard, shared_guard, exclusive_guard, World, release, Step, Reach, is_shared, is_exclusive, count,
  count-append, mutex_of, IsSafe, release_shared_lem, release_exclusive_lem, at_table, at_other,
  other-IsCounted, scoped_shared-IsSafe, scoped_exclusive-IsSafe,
}

-- A guard among others: the count with and without it.
count_split :
    (f : Guard → ℕ) (before after guards : List Guard) (g : Guard)
    → guards ≡ before ++ g ∷ after
    → count f guards ≡ f g + count f (before ++ after)
count_split f before after guards g e =
    omega (arith, ap (count f) e, count-append f before (g ∷ after), count-append f before after)

module _ (w : World) (before after : List Guard) (table : Text) (locks : Locks)
    (safe : IsSafe w) where
  abbrev rest : World
  rest = record { locks = locks; guards = before ++ after }

  destroy_shared-IsSafe :
      w.guards ≡ before ++ shared_guard table ∷ after
      → release_shared w.locks table ≡ ok locks
      → IsSafe rest
  unfolding unlock_shared
  destroy_shared-IsSafe q e name =
      let (m, f, g) = release_shared_lem w.locks table name locks e in
      let c = safe name in
      let shared = count_split (is_shared name) before after w.guards (shared_guard table) q in
      let exclusive =
        count_split (is_exclusive name) before after w.guards (shared_guard table) q in
      elim (text_discrete table name) [
        | yes p ↦
            let at = at_table w table name locks m g p in
            let old = ap (λ k. unlock_shared (mutex_of w.locks k)) (sym p) ∙ f in
            record {
              readers = ground (arith, at, old, c.readers, shared, p);
              writers = ground (arith, at, old, c.writers, exclusive);
              alone = λ h. ground (arith, at, old, c.alone, h);
            }
        | no p ↦
            other-IsCounted w _ name (at_other w table name locks m g p) (ground (arith, shared))
              (omega (arith, exclusive)) c
      ]

  destroy_exclusive-IsSafe :
      w.guards ≡ before ++ exclusive_guard table ∷ after
      → release_exclusive w.locks table ≡ ok locks
      → IsSafe rest
  unfolding unlock
  destroy_exclusive-IsSafe q e name =
      let (m, f, g) = release_exclusive_lem w.locks table name locks e in
      let c = safe name in
      let shared = count_split (is_shared name) before after w.guards (exclusive_guard table) q in
      let exclusive =
        count_split (is_exclusive name) before after w.guards (exclusive_guard table) q in
      elim (text_discrete table name) [
        | yes p ↦
            let at = at_table w table name locks m g p in
            let old = ap (λ k. unlock (mutex_of w.locks k)) (sym p) ∙ f in
            record {
              readers = ground (arith, at, old, c.readers, shared);
              writers = ground (arith, at, old, c.writers, exclusive, p);
              alone = λ h. ground (arith, at, old, h);
            }
        | no p ↦
            other-IsCounted w _ name (at_other w table name locks m g p) (omega (arith, shared))
              (ground (arith, exclusive)) c
      ]

Step-IsSafe : {w u : World} → Step w u → IsSafe w → IsSafe u
unfolding release
Step-IsSafe {w} (Step.scoped_shared table locks e q) safe =
    rw q (scoped_shared-IsSafe w table locks safe e)
Step-IsSafe {w} (Step.scoped_exclusive table locks e q) safe =
    rw q (scoped_exclusive-IsSafe w table locks safe e)
Step-IsSafe {w} (Step.destroy before after (shared_guard table) locks q e r) safe =
    rw r (destroy_shared-IsSafe w before after table locks safe q e)
Step-IsSafe {w} (Step.destroy before after (exclusive_guard table) locks q e r) safe =
    rw r (destroy_exclusive-IsSafe w before after table locks safe q e)

abbrev pub start : World
start = record { locks = []; guards = [] }

start-IsSafe : IsSafe start
unfolding find
start-IsSafe name = record { readers = refl; writers = refl; alone = λ h. refl }

Reach-IsSafe : {w : World} → Reach start w → IsSafe w
Reach-IsSafe Reach.here = start-IsSafe
Reach-IsSafe (Reach.next r s) = Step-IsSafe s (Reach-IsSafe r)

-- Whatever guards the threads take and destroy, and in whatever order, where no thread takes a guard of a table of
-- which it has one: at most one exclusive guard of a table is alive, and while one is, no shared guard of it is.
pub mutual_exclusion :
    {w : World} (name : Text)
    → Reach start w
    → (count (is_exclusive name) w.guards ≤ 1)
      × ((count (is_exclusive name) w.guards ≡ 0) ⊎ (count (is_shared name) w.guards ≡ 0))
mutual_exclusion name r =
    let c = Reach-IsSafe r name in ground (arith, c.readers, c.writers, c.alone)

-- Where no thread takes a guard of a table of which it has one, the destructor of a guard that is alive never throws, and never unlocks what is not locked.
pub release_total :
    {w : World} (before after : List Guard) (g : Guard)
    → Reach start w
    → w.guards ≡ before ++ g ∷ after
    → (locks : Locks) × (release w.locks g ≡ ok locks)
unfolding release release_shared release_exclusive unlock_shared unlock
release_total {w} before after (shared_guard table) r q =
    let c = Reach-IsSafe r table in
    let n = count_split (is_shared table) before after w.guards (shared_guard table) q in
    let self : is_shared table (shared_guard table) ≡ 1 =
      if_pos (text_discrete table table) refl 1 0 in
    elim (Option-cases (find text_discrete table w.locks)) [
      | inl e ↦ absurd (ground (arith, e, c.readers, n, self))
      | inr (m, e) ↦ (
        assign text_discrete table (record m { readers = m.readers - 1 }) w.locks,
        ground (arith, e, c.readers, n, self),
      )
    ]
release_total {w} before after (exclusive_guard table) r q =
    let c = Reach-IsSafe r table in
    let n = count_split (is_exclusive table) before after w.guards (exclusive_guard table) q in
    let self : is_exclusive table (exclusive_guard table) ≡ 1 =
      if_pos (text_discrete table table) refl 1 0 in
    elim (Option-cases (find text_discrete table w.locks)) [
      | inl e ↦ absurd (ground (arith, e, c.writers, n, self))
      | inr (m, e) ↦ (
        assign text_discrete table (record m { writer = false }) w.locks,
        ground (arith, e, c.writers, n, self),
      )
    ]
