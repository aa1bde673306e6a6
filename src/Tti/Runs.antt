-- ===== src/Tti/Runs.antt =====
-- Runs of the TTI functions, and their theorems at concrete inputs.
use copa_new.Prelude.{◌+◌, ◌%◌, ◌%◌, ◌≡◌, refl, [], ◌∷◌, true, false, ltb, leb, arith}
use copa_new.Prelude.Int.{pos}
use copa_new.Arrays.{max_in_array_uint16_v, quick_sort_uint16}
use copa_new.Tti.{
  max_tti, wrap_tti, unwrap_one, unwrap_tti_array, max_tti_in_array, tti_distance, tti_a_l_b,
  tti_a_le_b, tti_a_s_b, tti_a_se_b,
}
use copa_new.Tti.Distance.{tti_distance_counts}
use copa_new.Tti.Order.{tti_order_is_time_order}

across_the_wrap : (tti_a_l_b 3 10238 ≡ true) × (tti_a_l_b 10238 3 ≡ false)
unfolding tti_a_l_b unwrap_tti_array unwrap_one max_in_array_uint16_v
across_the_wrap = (refl, refl)

unwrapped : unwrap_tti_array (10238 ∷ 3 ∷ 10239 ∷ []) ≡ 10238 ∷ 10243 ∷ 10239 ∷ []
unfolding unwrap_tti_array unwrap_one max_in_array_uint16_v
unwrapped = refl

-- The sort, here the identity, does not matter.
latest : max_tti_in_array (λ cmp xs. xs) (10238 ∷ 3 ∷ 10239 ∷ []) ≡ 3
unfolding max_tti_in_array unwrap_tti_array unwrap_one max_in_array_uint16_v wrap_tti
    quick_sort_uint16
latest = refl

distances : (tti_distance 10238 3 ≡ pos 6) × (tti_distance 5 5 ≡ pos 10241)
unfolding tti_distance
distances = (refl, refl)

tti_order_is_time_order_example :
    (tti_a_l_b (10243 % max_tti) (10238 % max_tti) ≡ ltb 10238 10243)
    × (tti_a_le_b (10243 % max_tti) (10238 % max_tti) ≡ leb 10238 10243)
    × (tti_a_s_b (10243 % max_tti) (10238 % max_tti) ≡ ltb 10243 10238)
    × (tti_a_se_b (10243 % max_tti) (10238 % max_tti) ≡ leb 10243 10238)
tti_order_is_time_order_example = tti_order_is_time_order 10243 10238 (omega arith)

tti_distance_counts_example :
    (tti_distance (10238 % max_tti) ((10238 + 5) % max_tti) ≡ pos (5 + 1))
    × (tti_distance (10238 % max_tti) (10238 % max_tti) ≡ pos (max_tti + 1))
tti_distance_counts_example = tti_distance_counts 10238 5 (omega arith) (omega arith)
