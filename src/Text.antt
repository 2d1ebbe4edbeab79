-- ===== src/Text.antt =====
-- std::string as the sources use it: a list of bytes. The sources' literals are ASCII.
pub mod Decimal
pub mod RoundTrip
mod Tests
pub mod Laws
use Prim.Native.Char.{code}
use Prim.Native.String.{String}
use ice_log.Prelude.{
  ℕ, List, [], ◌∷◌, Bool, true, false, ◌==◌, if◌then◌else◌, ◌≡◌, ◌↔◌, refl, arith, Bool-cases, inl,
  inr,
}

abbrev pub Text : Type 0
Text = List ℕ

-- A literal of the source.
abbrev pub codes : String → Text
codes String.[] = []
codes (String.◌∷◌ c s) = code c ∷ codes s

unfoldable pub text_eq : Text → Text → Bool
text_eq [] [] = true
text_eq (a ∷ s) (b ∷ t) = if a == b then text_eq s t else false
text_eq _ _ = false

pub text_eq_iff : (s t : Text) → (text_eq s t ≡ true) ↔ (s ≡ t)
unfolding text_eq
text_eq_iff [] [] = (λ _. refl, λ _. refl)
text_eq_iff [] (b ∷ t) = (λ e. cc, λ e. cc)
text_eq_iff (a ∷ s) [] = (λ e. cc, λ e. cc)
text_eq_iff (a ∷ s) (b ∷ t) =
    (λ e. ground (arith, (text_eq_iff s t).0), λ e. ground (arith, (text_eq_iff s t).1))

pub text_ne : (s t : Text) → text_eq s t ≡ false → ¬ (s ≡ t)
text_ne s t e same = cc (e, (text_eq_iff s t).1 same)

-- The test as a decision, for the keys of a map.
unfoldable pub text_discrete : Discrete Text
unfolding text_eq Bool-cases
text_discrete s t = elim (Bool-cases (text_eq s t)) [
  | inl e ↦ yes ((text_eq_iff s t).0 e)
  | inr e ↦ no (text_ne s t e)
]

-- `s.empty()`
abbrev pub is_empty : Text → Bool
is_empty [] = true
is_empty (a ∷ s) = false

-- `s.compare(0, prefix.size(), prefix) == 0`
unfoldable pub has_prefix : Text → Text → Bool
has_prefix [] s = true
has_prefix (a ∷ p) [] = false
has_prefix (a ∷ p) (b ∷ s) = if a == b then has_prefix p s else false

-- `s.back()` of the text that begins with the given byte.
abbrev pub back : ℕ → Text → ℕ
back a [] = a
back a (b ∷ s) = back b s
