-- ===== src/Text/Tests.antt =====
-- Tests of numbers in text, and the theorems at concrete inputs.
use ice_log.Prelude.{◌≡◌, refl}
use ice_log.Prelude.Int.{pos, negsuc}
use ice_log.Outcome.{ok, thrown, invalid_argument, out_of_range}
use ice_log.Text.{codes}
use ice_log.Text.Decimal.{
  to_digits, to_string, to_string_signed, digits_value, in_range, parse_digits, parse_sign,
  skip_space, stoll, stoi,
}

program : Unit {0}
unfolding to_digits to_string to_string_signed digits_value in_range parse_digits parse_sign
    skip_space stoll stoi
program = tt

prints : to_string_signed (negsuc 1049) ≡ codes "-1050"
unfolding program
prints = refl

reads_prefix : stoll (codes "  +42xyz") ≡ ok (pos 42)
unfolding program
reads_prefix = refl

reads_nothing : stoll (codes "abc") ≡ thrown invalid_argument
unfolding program
reads_nothing = refl

reads_too_much : stoi (codes "2147483648") ≡ thrown out_of_range
unfolding program
reads_too_much = refl
