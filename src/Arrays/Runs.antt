-- ===== src/Arrays/Runs.antt =====
-- Runs of the array functions, and their theorems at concrete inputs.
use copa_new.Prelude.{ℕ, ◌-◌, ◌^◌, ◌≡◌, refl, List, [], ◌∷◌, none, some}
use copa_new.Prelude.Int.{pos, negsuc, ◌+ℤ◌, ◌-ℤ◌}
use copa_new.Arrays.{
  cmpfunc_uint64, sum_loop, sum_array_uint16, sum_array_uint64, mean_array_uint16,
  mean_array_uint64, first_least, first_greatest, min_in_array_uint64_vi, max_in_array_uint16_vi,
  find_from, find_element_in_array_uint16, distance, distance_w_offset, nearest_neighbour,
  nearest_neighbour_index, nearest_neighbour_dist_w_offset, correlate_loop_w_offset,
  correlate_2_vec_w_offset, shift_vec_w_offset,
}

abbrev samples : List ℕ
samples = 30 ∷ 10 ∷ 40 ∷ 10 ∷ []

min_of_samples : min_in_array_uint64_vi samples ≡ some (10, 1)
unfolding min_in_array_uint64_vi first_least
min_of_samples = refl

max_of_samples : max_in_array_uint16_vi samples ≡ some (40, 2)
unfolding max_in_array_uint16_vi first_greatest
max_of_samples = refl

mean_of_samples : (mean_array_uint64 samples ≡ some 22) × (mean_array_uint16 [] ≡ none)
unfolding mean_array_uint64 mean_array_uint16 sum_array_uint16 sum_array_uint64 sum_loop
mean_of_samples = (refl, refl)

sum_wraps : sum_array_uint16 (65535 ∷ 3 ∷ []) ≡ 2
unfolding sum_array_uint16 sum_loop
sum_wraps = refl

find_in_samples :
    (find_element_in_array_uint16 samples 10 ≡ pos 1)
    × (find_element_in_array_uint16 samples 11 ≡ negsuc 0)
unfolding find_element_in_array_uint16 find_from
find_in_samples = (refl, refl)

nearest_in_samples :
    (nearest_neighbour samples 24 ≡ some 30) × (nearest_neighbour samples 12 ≡ some 10)
unfolding nearest_neighbour nearest_neighbour_index first_least distance ◌-ℤ◌
nearest_in_samples = (refl, refl)

-- Each of 100 and 205 is 5 off the vector 90, 195 that is moved by 5.
correlation : correlate_2_vec_w_offset (100 ∷ 205 ∷ []) (90 ∷ 195 ∷ []) (pos 5) ≡ 10
unfolding correlate_2_vec_w_offset correlate_loop_w_offset nearest_neighbour_dist_w_offset
    first_least distance_w_offset ◌+ℤ◌ ◌-ℤ◌
correlation = refl

shift_back : shift_vec_w_offset (7 ∷ 2 ∷ []) (negsuc 2) ≡ 4 ∷ (2 ^ 64 - 1) ∷ []
unfolding shift_vec_w_offset
shift_back = refl

-- The two values are 2^32 apart and compare as equal.
compare_far_apart : cmpfunc_uint64 (2 ^ 32) 0 ≡ pos 0
unfolding cmpfunc_uint64
compare_far_apart = refl
