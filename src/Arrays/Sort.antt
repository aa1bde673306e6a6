-- ===== src/Arrays/Sort.antt =====
-- The comparison functions of ngscope_util.cc, lines 20-32.
use copa_new.Prelude.{ℕ, ◌+◌, ◌^◌, ◌≤◌, ◌<◌, ◌≡◌, arith}
use copa_new.Prelude.Int.{pos, abs_diff, ◌<ℤ◌}
use copa_new.Prelude.Word.{IsU64}
use copa_new.Arrays.{cmpfunc_uint64, cmpfunc_uint16}

-- Of two uint64_t that are less than 2^31 apart `cmpfunc_uint64` returns the difference, as
-- `cmpfunc_uint16` does of any two uint16_t.
pub cmpfunc_uint64_near :
    (a b : ℕ) → IsU64 a → IsU64 b → abs_diff a b < 2 ^ 31 → cmpfunc_uint64 a b ≡ cmpfunc_uint16 a b
unfolding cmpfunc_uint64 cmpfunc_uint16
cmpfunc_uint64_near a b ha hb h = ground arith

-- `cmpfunc_uint64` puts a greater value below a lesser one that is 2^31 to 2^32 - 1 away, and
-- holds two values for equal that are 2^32 apart.
pub cmpfunc_uint64_far :
    (a d : ℕ)
    → 2 ^ 31 ≤ d
    → d < 2 ^ 32
    → IsU64 (a + 2 ^ 32)
    → (cmpfunc_uint64 (a + d) a <ℤ pos 0) × (cmpfunc_uint64 (a + 2 ^ 32) a ≡ pos 0)
unfolding cmpfunc_uint64
cmpfunc_uint64_far a d lo hi h = (ground arith, ground arith)
