-- ===== src/Prelude/Words.antt =====
-- Machine words: a w-bit value is a number or an integer, and wraps where the source's type does.
use ice_log.Prelude.{ℕ, ◌-◌, ◌%◌, ◌^◌, ltb, if◌then◌else◌}
use ice_log.Prelude.Int.{ℤ, pos, negsuc}

abbrev pub u64_mod : ℕ
u64_mod = 2 ^ 64

abbrev pub i64_bound : ℕ
i64_bound = 2 ^ 63

abbrev pub i32_bound : ℕ
i32_bound = 2 ^ 31

-- `static_cast<uint64_t>(z)`
unfoldable pub to_uint64 : ℤ → ℕ
to_uint64 (pos n) = n % u64_mod
to_uint64 (negsuc n) = u64_mod - 1 - n % u64_mod

-- `static_cast<int32_t>(n)` of an unsigned value.
unfoldable pub to_int32 : ℕ → ℤ
to_int32 n =
    let low = n % 2 ^ 32 in if ltb low i32_bound then pos low else negsuc (2 ^ 32 - 1 - low)
