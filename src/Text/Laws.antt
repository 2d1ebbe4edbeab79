-- ===== src/Text/Laws.antt =====
-- Laws of texts: equality, prefixes.
use ice_log.Prelude.{[], ◌∷◌, ◌++◌, ◌≡◌, ◌↔◌, refl, true, arith}
use ice_log.Text.{Text, has_prefix}

-- A text has a prefix exactly if it continues it.
pub has_prefix_iff : (p s : Text) → (has_prefix p s ≡ true) ↔ ((rest : Text) × (s ≡ p ++ rest))
unfolding has_prefix
has_prefix_iff [] s = (λ _. (s, refl), λ _. refl)
has_prefix_iff (a ∷ p) [] = (λ e. cc, λ e. cc (e.1))
has_prefix_iff (a ∷ p) (b ∷ s) = (
  λ e. let (rest, f) = (has_prefix_iff p s).0 (ground arith) in (rest, ground arith),
  λ (rest, e). ground (arith, (has_prefix_iff p s).1 (rest, ground arith)),
)
