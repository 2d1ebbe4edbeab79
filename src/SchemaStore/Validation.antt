-- ===== src/SchemaStore/Validation.antt =====
-- src/catalog/schema_store.cpp: which texts `validate_schema_change` lets through.
use ice_log.Prelude.{
  ℕ, ◌≡◌, ◌↔◌, ◌⊎◌, inl, inr, refl, ap, ◌∙◌, [], ◌∷◌, ◌++◌, false, arith, Bool-cases,
}
use ice_log.Text.{Text, codes, text_eq, text_eq_iff, back}
use ice_log.SchemaStore.{validate_schema_change}

-- A text whose last byte is z ends in z.
ends_in :
    (a z : ℕ) (s : Text)
    → back a s ≡ z
    → ((s ≡ []) × (a ≡ z)) ⊎ ((init : Text) × (s ≡ init ++ z ∷ []))
ends_in a z [] e = inl (refl, e)
ends_in a z (b ∷ s) e = elim (ends_in b z s e) [
  | inl (f, g) ↦ inr ([], ground (arith, f, g))
  | inr (init, f) ↦ inr (b ∷ init, ap (◌∷◌ b) f)
]

back-append : (a z : ℕ) (s : Text) → back a (s ++ z ∷ []) ≡ z
back-append a z [] = refl
back-append a z (b ∷ s) = back-append b z s

text_eq-empty : (s : Text) (z : ℕ) → text_eq (s ++ z ∷ []) [] ≡ false
unfolding text_eq
text_eq-empty [] z = refl
text_eq-empty (a ∷ s) z = refl

accepted :
    (current : Text) (b : ℕ) (middle : Text)
    → validate_schema_change current (b'{' ∷ b ∷ middle ++ b'}' ∷ []) ≡ []
unfolding validate_schema_change text_eq
accepted current b middle = ground (arith, text_eq-empty middle b'}', back-append b b'}' middle)

between :
    (c : ℕ) (s init : Text)
    → c ≡ b'{'
    → s ≡ init ++ b'}' ∷ []
    → text_eq (c ∷ s) (codes "{}") ≡ false
    → (b : ℕ) × (middle : Text) × (c ∷ s ≡ b'{' ∷ b ∷ middle ++ b'}' ∷ [])
between c s [] open_brace close ne =
    let braces : c ∷ s ≡ codes "{}" = ground (arith, open_brace, close) in
    absurd (cc (ne, (text_eq_iff (c ∷ s) (codes "{}")).1 braces))
between c s (b ∷ middle) open_brace close ne = (b, middle, ground (arith, open_brace, close))

-- A change is accepted exactly if the proposed text is `{`, at least one byte more, and `}`; what the bytes
-- between the braces are does not matter, and neither does the current schema.
pub validate_schema_change_iff :
    (current proposed : Text)
    → (validate_schema_change current proposed ≡ [])
      ↔ ((b : ℕ) × (middle : Text) × (proposed ≡ b'{' ∷ b ∷ middle ++ b'}' ∷ []))
unfolding validate_schema_change
validate_schema_change_iff current [] =
    (λ e. ground (arith, e), λ (b, middle, e). ground (arith, e))
validate_schema_change_iff current (c ∷ s) = (
  λ e. elim (Bool-cases (text_eq (c ∷ s) (codes "{}"))) [
    | inl same ↦ ground (arith, e, same)
    | inr ne ↦
        let open_brace : c ≡ b'{' = ground (arith, e, ne) in
        let close : back c s ≡ b'}' = ground (arith, e, ne) in
        elim (ends_in c b'}' s close) [
          | inl (f, g) ↦ absurd (omega (arith, open_brace, g))
          | inr (init, f) ↦ between c s init open_brace f ne
        ]
  ],
  λ (b, middle, e). ap (validate_schema_change current) e ∙ accepted current b middle,
)
