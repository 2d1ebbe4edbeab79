-- ===== src/Text/Decimal.antt =====
-- std::to_string on unsigned and signed integers, std::stoll, std::stoi and std::stoul.
use ice_log.Prelude.{
  ℕ, zero, suc, ◌+◌, ◌-◌, ◌*◌, ◌/◌, ◌%◌, ◌<◌, ◌≡◌, ap, sym, ◌∙◌, [], ◌∷◌, Bool, true, false, ◌&&◌,
  ◌||◌, arith, ltb, leb, ◌==◌, if◌then◌else◌, All,
}
use ice_log.Prelude.Int.{ℤ, pos, negsuc}
use ice_log.Prelude.Words.{i64_bound, i32_bound, u64_mod}
use ice_log.Outcome.{Outcome, ok, thrown, invalid_argument, out_of_range}
use ice_log.Text.{Text}

-- The digits of n in front of what is there; n below the fuel is enough.
unfoldable pub to_digits : ℕ → ℕ → Text → Text
to_digits zero n acc = acc
to_digits (suc fuel) n acc =
    let more = to_digits fuel (n / 10) ((48 + n % 10) ∷ acc) in
    if ltb n 10 then (48 + n % 10) ∷ acc else more

-- `std::to_string` of an unsigned value, and of a signed one.
unfoldable pub to_string : ℕ → Text
to_string n = to_digits (suc n) n []

unfoldable pub to_string_signed : ℤ → Text
to_string_signed (pos n) = to_string n
to_string_signed (negsuc n) = b'-' ∷ to_string (suc n)

abbrev pub is_digit : ℕ → Bool
is_digit c = leb b'0' c && leb c b'9'

abbrev pub is_space : ℕ → Bool
is_space c = c == b' ' || (leb 9 c && leb c 13)

-- The leading digits of a text, behind those read.
unfoldable pub digits_value : ℕ → Text → ℕ
digits_value acc [] = acc
digits_value acc (c ∷ s) =
    let rest = digits_value (acc * 10 + (c - 48)) s in if is_digit c then rest else acc

unfoldable pub in_range : ℕ → Bool → ℕ → Outcome ℤ
in_range bound negative zero = ok (pos 0)
in_range bound false (suc n) = if ltb (suc n) bound then ok (pos (suc n)) else thrown out_of_range
in_range bound true (suc n) = if leb (suc n) bound then ok (negsuc n) else thrown out_of_range

unfoldable pub parse_digits : ℕ → Bool → Text → Outcome ℤ
parse_digits bound negative [] = thrown invalid_argument
parse_digits bound negative (c ∷ s) =
    if is_digit c then in_range bound negative (digits_value 0 (c ∷ s)) else thrown invalid_argument

unfoldable pub parse_sign : ℕ → Text → Outcome ℤ
parse_sign bound [] = thrown invalid_argument
parse_sign bound (c ∷ s) =
    if c == b'-'
    then parse_digits bound true s
    else if c == b'+'
    then parse_digits bound false s
    else parse_digits bound false (c ∷ s)

unfoldable pub skip_space : Text → Text
skip_space [] = []
skip_space (c ∷ s) = let rest = skip_space s in if is_space c then rest else c ∷ s

-- What follows the number is left unread.
unfoldable pub stoll : Text → Outcome ℤ
stoll s = parse_sign i64_bound (skip_space s)

unfoldable pub stoi : Text → Outcome ℤ
stoi s = parse_sign i32_bound (skip_space s)

-- `std::stoul` takes a minus and negates the number as an unsigned word.
unfoldable pub unsigned_of : Bool → ℕ → Outcome ℕ
unsigned_of negative n =
    if ltb n u64_mod
    then ok (if negative then (u64_mod - n) % u64_mod else n)
    else thrown out_of_range

unfoldable pub stoul_digits : Bool → Text → Outcome ℕ
stoul_digits negative [] = thrown invalid_argument
stoul_digits negative (c ∷ s) =
    if is_digit c then unsigned_of negative (digits_value 0 (c ∷ s)) else thrown invalid_argument

unfoldable pub stoul_sign : Text → Outcome ℕ
stoul_sign [] = thrown invalid_argument
stoul_sign (c ∷ s) =
    if c == b'-'
    then stoul_digits true s
    else if c == b'+'
    then stoul_digits false s
    else stoul_digits false (c ∷ s)

unfoldable pub stoul : Text → Outcome ℕ
stoul s = stoul_sign (skip_space s)

-- The digits printed are read back.
digits_value-to_digits :
    (fuel n : ℕ) (acc : Text)
    → n < fuel
    → digits_value 0 (to_digits fuel n acc) ≡ digits_value n acc
unfolding to_digits digits_value
digits_value-to_digits zero n acc h = elim h [ ]
digits_value-to_digits (suc fuel) n acc h = ground (
  arith,
  digits_value-to_digits fuel (n / 10) ((48 + n % 10) ∷ acc),
  ap (λ k. digits_value k acc) {x = n / 10 * 10 + (48 + n % 10 - 48)} {y = n} (omega arith),
)

pub digits_value-to_string : (n : ℕ) → digits_value 0 (to_string n) ≡ n
unfolding to_string digits_value
digits_value-to_string n = digits_value-to_digits (suc n) n [] (omega arith)

pub to_string-injective : (m n : ℕ) → to_string m ≡ to_string n → m ≡ n
to_string-injective m n e =
    sym (digits_value-to_string m) ∙ ap (digits_value 0) e ∙ digits_value-to_string n

abbrev pub AllDigits : Text → Type 0
AllDigits = All (λ c. is_digit c ≡ true)

to_digits-AllDigits : (fuel n : ℕ) (acc : Text) → AllDigits acc → AllDigits (to_digits fuel n acc)
unfolding to_digits
to_digits-AllDigits zero n acc h = h
to_digits-AllDigits (suc fuel) n acc h =
    let digit : is_digit (48 + n % 10) ≡ true = ground arith in
    ground (arith, digit, h, to_digits-AllDigits fuel (n / 10) ((48 + n % 10) ∷ acc) (digit, h))

pub to_string-AllDigits : (n : ℕ) → AllDigits (to_string n)
unfolding to_string
to_string-AllDigits n = to_digits-AllDigits (suc n) n [] tt
