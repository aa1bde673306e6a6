-- ===== src/Prelude/Word.antt =====
-- Machine words: an unsigned word is a number below its modulus, and wraps where the code wraps.
use copa_new.Prelude.{ℕ, ◌+◌, ◌-◌, ◌%◌, ◌^◌, ◌<◌, ◌≤◌, ◌≡◌, arith, ltb, if◌then◌else◌}
use copa_new.Prelude.Int.{ℤ, pos, negsuc, ◌-ℤ◌, abs, abs_diff, pos_part, neg_part, sub_ℕ}

abbrev pub IsU8 : ℕ → Type 0
IsU8 a = a < 256

abbrev pub IsU16 : ℕ → Type 0
IsU16 a = a < 2 ^ 16

abbrev pub IsU32 : ℕ → Type 0
IsU32 a = a < 2 ^ 32

abbrev pub IsU64 : ℕ → Type 0
IsU64 a = a < 2 ^ 64

-- uint64_t a - b.
abbrev pub sub64 : ℕ → ℕ → ℕ
sub64 a b = (a + 2 ^ 64 - b) % 2 ^ 64

-- (long) of a uint64_t.
abbrev pub as_long : ℕ → ℤ
as_long a = if ltb a (2 ^ 63) then pos a else negsuc (2 ^ 64 - a - 1)

-- (int) of a 64-bit value, which keeps its low 32 bits.
abbrev pub as_int : ℕ → ℤ
as_int a = if ltb (a % 2 ^ 32) (2 ^ 31) then pos (a % 2 ^ 32) else negsuc (2 ^ 32 - a % 2 ^ 32 - 1)

-- uint64_t a + o for an int o, which is sign-extended.
abbrev pub add64_int : ℕ → ℤ → ℕ
add64_int a o = (a + pos_part o + (2 ^ 64 - neg_part o)) % 2 ^ 64

-- C's `%` of an int by a positive int: the sign is the dividend's.
abbrev pub c_rem : ℤ → ℕ → ℤ
c_rem (pos n) m = pos (n % m)
c_rem (negsuc n) m = sub_ℕ 0 ((n + 1) % m)

-- (uint16_t) of an int.
abbrev pub as_u16 : ℤ → ℕ
as_u16 a = (pos_part a + (2 ^ 16 - neg_part a % 2 ^ 16)) % 2 ^ 16

pub sub64_of_le : (a b : ℕ) → b ≤ a → IsU64 a → sub64 a b ≡ a - b
sub64_of_le a b h w = omega arith

-- On words below 2^63 the signed distance is the plain one.
pub abs-long_diff :
    (a b : ℕ) → a < 2 ^ 63 → b < 2 ^ 63 → abs (as_long a -ℤ as_long b) ≡ abs_diff a b
unfolding ◌-ℤ◌
abs-long_diff a b ha hb = ground arith
