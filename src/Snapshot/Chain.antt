-- ===== src/Snapshot/Chain.antt =====
-- src/transaction/snapshot.h: what `build_snapshot_chain` returns, and when its loop ends.
use ice_log.Prelude.{
  ℕ, zero, suc, ◌≤◌, ◌<◌, ◌≡◌, ◌≢◌, refl, ap, ◌∙◌, sym, ◌⊎◌, inl, inr, List, [], ◌∷◌, ◌++◌, none,
  some, true, ℕ_discrete, All, arith, length, Option-cases,
}
use ice_log.UnorderedMap.{find, assign, find-assign}
use ice_log.Snapshot.{Snapshot, is_ancestor_of, build_index, walk, build_snapshot_chain}

abbrev pub IsIn : Snapshot → List Snapshot → Type 0
IsIn s [] = ⊥
IsIn s (t ∷ l) = (s ≡ t) ⊎ IsIn s l

-- A walk from `current` along parents: it stops at 0 or where no snapshot has the identifier, and
-- each snapshot on it is a given one.
abbrev pub IsChain : List Snapshot → ℕ → List Snapshot → Type 0
IsChain l current [] = (current ≡ 0) ⊎ All (λ s. s.snapshot_id ≢ current) l
IsChain l current (s ∷ rest) =
    (current ≢ 0) × IsIn s l × (s.snapshot_id ≡ current) × IsChain l s.parent_snapshot_id rest

-- Every snapshot is newer than its parent.
abbrev pub IsDescending : List Snapshot → Type 0
IsDescending = All (λ s. s.parent_snapshot_id < s.snapshot_id)

index_hit :
    (l : List Snapshot) (index : List (ℕ × Snapshot)) (j : ℕ) (s : Snapshot)
    → find ℕ_discrete j (build_index l index) ≡ some s
    → (IsIn s l × (s.snapshot_id ≡ j)) ⊎ (find ℕ_discrete j index ≡ some s)
unfolding build_index
index_hit [] index j s e = inr e
index_hit (t ∷ l) index j s e = elim (index_hit l (assign ℕ_discrete t.snapshot_id t index) j s e) [
  | inl (m, q) ↦ inl (inr m, q)
  | inr f ↦ ground (arith, find-assign ℕ_discrete j t.snapshot_id t index)
]

index_miss :
    (l : List Snapshot) (index : List (ℕ × Snapshot)) (j : ℕ)
    → find ℕ_discrete j (build_index l index) ≡ none
    → All (λ s. s.snapshot_id ≢ j) l × (find ℕ_discrete j index ≡ none)
unfolding build_index
index_miss [] index j e = (tt, e)
index_miss (t ∷ l) index j e =
    let (rest, f) = index_miss l (assign ℕ_discrete t.snapshot_id t index) j e in
    let g = sym (find-assign ℕ_discrete j t.snapshot_id t index) ∙ f in
    ((ground arith, rest), ground arith)

abbrev index_of : List Snapshot → List (ℕ × Snapshot)
index_of l = build_index l []

module _ (l : List Snapshot) where
  found :
      (j : ℕ) (s : Snapshot)
      → find ℕ_discrete j (index_of l) ≡ some s
      → IsIn s l × (s.snapshot_id ≡ j)
  unfolding find
  found j s e = elim (index_hit l [] j s e) [ inl h ↦ h | inr f ↦ cc ]

  missing : (j : ℕ) → find ℕ_discrete j (index_of l) ≡ none → All (λ s. s.snapshot_id ≢ j) l
  missing j e = (index_miss l [] j e).0

  All-IsIn :
      (k : List Snapshot) (s : Snapshot)
      → IsDescending k
      → IsIn s k
      → s.parent_snapshot_id < s.snapshot_id
  All-IsIn [] s d m = elim m [ ]
  All-IsIn (t ∷ k) s d (inl e) = ground arith
  All-IsIn (t ∷ k) s d (inr m) = All-IsIn k s d.1 m

  -- The snapshots on a chain from `current`, each an ancestor in the sense of `is_ancestor_of`.
  abbrev pub Walks : ℕ → List Snapshot → Type 0
  Walks current chain =
      IsChain l current chain
      × All (λ s. is_ancestor_of s current ≡ true) chain
      × (length chain ≤ current)

  ancestor_mono :
      (a b : ℕ) (chain : List Snapshot)
      → a ≤ b
      → All (λ s. is_ancestor_of s a ≡ true) chain
      → All (λ s. is_ancestor_of s b ≡ true) chain
  unfolding is_ancestor_of
  ancestor_mono a b [] h k = tt
  ancestor_mono a b (s ∷ chain) h k = (ground arith, ancestor_mono a b chain h k.1)

  walk-Walks :
      (d : IsDescending l) (fuel current : ℕ)
      → current < fuel
      → (chain : List Snapshot) × (walk fuel (index_of l) current ≡ some chain)
        × Walks current chain
  unfolding walk is_ancestor_of
  walk-Walks d zero current h = elim h [ ]
  walk-Walks d (suc fuel) zero h = ([], refl, (inl refl, tt, omega arith))
  walk-Walks d (suc fuel) (suc k) h = elim (Option-cases (find ℕ_discrete (suc k) (index_of l))) [
    | inl e ↦ ([], ground (arith, e), (inr (missing (suc k) e), tt, omega arith))
    | inr (s, e) ↦
        let (m, q) = found (suc k) s e in
        let lt = All-IsIn l s d m in
        let (rest, f, w) = walk-Walks d fuel s.parent_snapshot_id (omega arith) in
        (
          s ∷ rest,
          ground (arith, e, f),
          (
            (omega arith, m, q, w.0),
            (ground arith, ancestor_mono s.parent_snapshot_id (suc k) rest (omega arith) w.1),
            omega (arith, w.2),
          ),
        )
  ]

-- If every snapshot is newer than its parent, fuel above the starting identifier is enough: the
-- loop ends, its result is the walk along parents from there, each snapshot on it is an ancestor of the
-- starting one in the sense of `is_ancestor_of`, and it has at most as many snapshots as that identifier.
pub build_snapshot_chain_total :
    (fuel : ℕ) (all_snapshots : List Snapshot) (from_snapshot_id : ℕ)
    → IsDescending all_snapshots
    → from_snapshot_id < fuel
    → (chain : List Snapshot) × (build_snapshot_chain fuel all_snapshots from_snapshot_id
        ≡ some chain)
      × Walks all_snapshots from_snapshot_id chain
unfolding build_snapshot_chain
build_snapshot_chain_total fuel l current d h = walk-Walks l d fuel current h

index_last :
    (s : Snapshot) (l : List Snapshot) (index : List (ℕ × Snapshot))
    → find ℕ_discrete s.snapshot_id (build_index (l ++ s ∷ []) index) ≡ some s
unfolding build_index
index_last s [] index = find-assign ℕ_discrete s.snapshot_id s.snapshot_id s index ∙ ground arith
index_last s (t ∷ l) index = index_last s l (assign ℕ_discrete t.snapshot_id t index)

walk_cycle :
    (fuel : ℕ) (index : List (ℕ × Snapshot)) (s : Snapshot)
    → s.snapshot_id ≢ 0
    → s.parent_snapshot_id ≡ s.snapshot_id
    → find ℕ_discrete s.snapshot_id index ≡ some s
    → walk fuel index s.snapshot_id ≡ none
unfolding walk
walk_cycle zero index s nonzero own e = refl
walk_cycle (suc fuel) index s nonzero own e =
    let again = ap (walk fuel index) own ∙ walk_cycle fuel index s nonzero own e in
    ground (arith, e, again)

-- A snapshot that is its own parent, listed last, makes the loop run for ever: no fuel is enough.
pub build_snapshot_chain_cycle :
    (fuel : ℕ) (older : List Snapshot) (s : Snapshot)
    → s.snapshot_id ≢ 0
    → s.parent_snapshot_id ≡ s.snapshot_id
    → build_snapshot_chain fuel (older ++ s ∷ []) s.snapshot_id ≡ none
unfolding build_snapshot_chain
build_snapshot_chain_cycle fuel older s nonzero own =
    walk_cycle fuel _ s nonzero own (index_last s older [])
