-- ===== src/Tti.antt =====
-- ngscope_util.cc, lines 180-245: subframe numbers (TTIs), which count from 0 to 10239 and start again.
pub mod Order
pub mod Unwrap
pub mod Distance
mod Runs
use copa_new.Prelude.{
  ℕ, ◌+◌, ◌-◌, ◌%◌, ◌^◌, List, [], ◌∷◌, Bool, map, Option, none, some, ltb, leb, ◌==◌,
  if◌then◌else◌, length, get_or,
}
use copa_new.Prelude.Int.{ℤ, pos, sub_ℕ, abs_diff}
use copa_new.Arrays.{max_in_array_uint16_v, quick_sort_uint16}

-- `MAX_TTI`.
abbrev pub max_tti : ℕ
max_tti = 10240

-- The argument is a uint16_t, so an int that is passed loses its high bits first.
unfoldable pub wrap_tti : ℕ → ℕ
wrap_tti tti = tti % 2 ^ 16 % max_tti

-- One round of the loop: `array[i] += MAX_TTI` if that brings it nearer to the greatest element.
pub unwrap_one : ℕ → ℕ → ℕ
unwrap_one greatest a =
    if ltb (abs_diff greatest (a + max_tti)) (abs_diff greatest a)
    then (a + max_tti) % 2 ^ 16
    else a

-- For an empty array the element 0 is read and not used.
pub unwrap_tti_array : List ℕ → List ℕ
unwrap_tti_array array = if length array == 1 then array else elim (max_in_array_uint16_v array) [
  | none ↦ array
  | some greatest ↦ map (unwrap_one greatest) array
]

module _ (qsort : (ℕ → ℕ → ℤ) → List ℕ → List ℕ) where
  -- The sort precedes the search for the greatest element, which does not need it.
  pub max_tti_in_array : List ℕ → ℕ
  max_tti_in_array [] = 0
  max_tti_in_array (a ∷ []) = a
  max_tti_in_array (a ∷ b ∷ rest) =
      elim (max_in_array_uint16_v (quick_sort_uint16 qsort (unwrap_tti_array (a ∷ b ∷ rest)))) [
        | none ↦ 0
        | some greatest ↦ wrap_tti greatest
      ]

pub tti_distance : ℕ → ℕ → ℤ
tti_distance start end =
    if ltb start end then pos (end - start + 1) else sub_ℕ (end + max_tti + 1) start

-- The two elements of `{a, b}` after they are unwrapped.
unwrap_pair : ℕ → ℕ → ℕ × ℕ
unwrap_pair a b = let array = unwrap_tti_array (a ∷ b ∷ []) in (get_or array 0 0, get_or array 1 0)

unfoldable pub tti_a_l_b : ℕ → ℕ → Bool
unfolding unwrap_pair
tti_a_l_b a b = let (x, y) = unwrap_pair a b in ltb y x

pub tti_a_le_b : ℕ → ℕ → Bool
tti_a_le_b a b = let (x, y) = unwrap_pair a b in leb y x

pub tti_a_s_b : ℕ → ℕ → Bool
tti_a_s_b a b = let (x, y) = unwrap_pair a b in ltb x y

unfoldable pub tti_a_se_b : ℕ → ℕ → Bool
unfolding unwrap_pair
tti_a_se_b a b = let (x, y) = unwrap_pair a b in leb x y
