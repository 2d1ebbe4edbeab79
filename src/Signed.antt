-- ===== src/Signed.antt =====
-- Sums of signed words, int32_t and int64_t, in src/catalog and src/server: a sum that its type does not hold is
-- undefined behaviour.
use ice_log.Prelude.{ℕ, Bool, ltb, if◌then◌else◌}
use ice_log.Prelude.Int.{ℤ, pos, negsuc, ◌+ℤ◌}
use ice_log.Outcome.{Outcome, ok, undefined}

-- From minus the bound to the bound, which is not in the range itself.
abbrev pub holds : ℕ → ℤ → Bool
holds bound (pos n) = ltb n bound
holds bound (negsuc n) = ltb n bound

unfoldable pub add : ℕ → ℤ → ℤ → Outcome ℤ
add bound a b = let sum = a +ℤ b in if holds bound sum then ok sum else undefined
