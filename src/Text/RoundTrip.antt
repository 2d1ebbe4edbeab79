-- ===== src/Text/RoundTrip.antt =====
-- std::to_string and std::stoll undo one another on the values of an int64_t, and so do the functions on other words.
use ice_log.Prelude.{
  ℕ, zero, suc, ◌+◌, ◌-◌, if◌then◌else◌, ◌/◌, ◌%◌, ◌≤◌, ◌<◌, ◌≡◌, refl, ap, sym, ◌∙◌, [], ◌∷◌, Bool,
  true, false, arith, ltb, Bool-cases, inl, inr, subst,
}
use ice_log.Prelude.Int.{ℤ, pos, negsuc, pos_part, neg_part}
use ice_log.Prelude.Words.{i64_bound, i32_bound, u64_mod}
use ice_log.Outcome.{ok}
use ice_log.Text.{Text}
use ice_log.Text.Decimal.{
  to_digits, to_string, to_string_signed, is_digit, digits_value, in_range, parse_digits,
  parse_sign, skip_space, stoll, stoi, stoul, stoul_sign, stoul_digits, unsigned_of,
  digits_value-to_string, AllDigits, to_string-AllDigits,
}

to_digits-cons :
    (fuel n : ℕ) (acc : Text) → (c : ℕ) × (s : Text) × (to_digits (suc fuel) n acc ≡ c ∷ s)
unfolding to_digits
to_digits-cons zero n acc = (48 + n % 10, acc, ground arith)
to_digits-cons (suc fuel) n acc =
    let (c, s, e) = to_digits-cons fuel (n / 10) ((48 + n % 10) ∷ acc) in
    elim (Bool-cases (ltb n 10)) [
      | inl h ↦ (48 + n % 10, acc, ground (arith, h))
      | inr h ↦ (c, s, ground (arith, h, e))
    ]

-- A printed number is a digit and more.
to_string-cons : (n : ℕ) → (c : ℕ) × (s : Text) × (to_string n ≡ c ∷ s) × (is_digit c ≡ true)
unfolding to_string
to_string-cons n =
    let (c, s, e) = to_digits-cons n n [] in
    (c, s, e, (subst AllDigits e (to_string-AllDigits n)).0)

parse_digits-to_string :
    (bound n : ℕ) (negative : Bool)
    → parse_digits bound negative (to_string n) ≡ in_range bound negative n
unfolding parse_digits
parse_digits-to_string bound n negative =
    let (c, s, e, d) = to_string-cons n in
    let v = ap (digits_value 0) (sym e) ∙ digits_value-to_string n in
    ap (parse_digits bound negative) e ∙ ground (arith, d, ap (in_range bound negative) v)

-- The values of a signed type of the given bound.
abbrev pub InRange : ℕ → ℤ → Type 0
InRange bound z = (pos_part z < bound) × (neg_part z ≤ bound)

in_range-pos : (bound n : ℕ) → n < bound → in_range bound false n ≡ ok (pos n)
unfolding in_range
in_range-pos bound zero h = refl
in_range-pos bound (suc n) h = ground arith

in_range-negsuc : (bound n : ℕ) → suc n ≤ bound → in_range bound true (suc n) ≡ ok (negsuc n)
unfolding in_range
in_range-negsuc bound n h = ground arith

parse_sign-to_string :
    (bound : ℕ) (z : ℤ)
    → InRange bound z
    → parse_sign bound (skip_space (to_string_signed z)) ≡ ok z
unfolding parse_sign skip_space to_string_signed
parse_sign-to_string bound (pos n) h =
    let (c, s, e, d) = to_string-cons n in
    let read =
      ap (parse_digits bound false) (sym e)
      ∙ parse_digits-to_string bound n false
      ∙ in_range-pos bound n h.0 in
    ap (λ t. parse_sign bound (skip_space t)) e ∙ ground (arith, d, read)
parse_sign-to_string bound (negsuc n) h =
    let read = parse_digits-to_string bound (suc n) true ∙ in_range-negsuc bound n h.1 in
    ground (arith, read)

-- Every int64_t value is read back as printed, also 0, negative values and the two ends of the range.
pub stoll-to_string : (z : ℤ) → InRange i64_bound z → stoll (to_string_signed z) ≡ ok z
unfolding stoll
stoll-to_string z h = parse_sign-to_string i64_bound z h

-- The same of every int32_t value.
pub stoi-to_string : (z : ℤ) → InRange i32_bound z → stoi (to_string_signed z) ≡ ok z
unfolding stoi
stoi-to_string z h = parse_sign-to_string i32_bound z h

stoul_digits-to_string :
    (n : ℕ) (negative : Bool)
    → n < u64_mod
    → stoul_digits negative (to_string n) ≡ ok (if negative then (u64_mod - n) % u64_mod else n)
unfolding stoul_digits unsigned_of
stoul_digits-to_string n negative h =
    let (c, s, e, d) = to_string-cons n in
    let v = ap (digits_value 0) (sym e) ∙ digits_value-to_string n in
    ap (stoul_digits negative) e ∙ ground (arith, d, ap (unsigned_of negative) v, h)

-- An unsigned word is read back as printed, and its negation behind a minus.
pub stoul-to_string : (n : ℕ) → n < u64_mod → stoul (to_string n) ≡ ok n
unfolding stoul stoul_sign skip_space
stoul-to_string n h =
    let (c, s, e, d) = to_string-cons n in
    let read = ap (stoul_digits false) (sym e) ∙ stoul_digits-to_string n false h in
    ap (λ t. stoul_sign (skip_space t)) e ∙ ground (arith, d, read)

pub stoul-minus : (n : ℕ) → n < u64_mod → stoul (b'-' ∷ to_string n) ≡ ok ((u64_mod - n) % u64_mod)
unfolding stoul stoul_sign skip_space
stoul-minus n h = ground (arith, stoul_digits-to_string n true h)
