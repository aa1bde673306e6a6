-- ===== src/Arrays.antt =====
-- ngscope_util.cc, lines 19-176 and 247-348: sums, extremes, searches and nearest neighbours of
-- arrays. An array is the list of the `array_size` elements that the function is given; a read of an
-- element that is not there, and a division by zero, is `none`.
pub mod Extremes
pub mod Find
pub mod Nearest
pub mod Sort
mod Runs
use copa_new.Prelude.{
  ℕ, zero, suc, ◌+◌, ◌-◌, ◌/◌, ◌%◌, ◌^◌, List, [], ◌∷◌, map, Option, none, some, ltb, ◌==◌,
  if◌then◌else◌, length, get_elem?,
}
use copa_new.Prelude.Int.{ℤ, pos, negsuc, ◌+ℤ◌, ◌-ℤ◌, abs, sub_ℕ}
use copa_new.Prelude.Word.{as_long, as_int, add64_int, sub64}

-- The comparison functions that are handed to `qsort`. The difference of two uint64_t wraps, and
-- is then cut down to an int.
pub cmpfunc_uint64 : ℕ → ℕ → ℤ
cmpfunc_uint64 a b = as_int (sub64 a b)

-- Here both operands are promoted to int, so the difference is exact.
pub cmpfunc_uint16 : ℕ → ℕ → ℤ
cmpfunc_uint16 a b = sub_ℕ a b

-- The C library's `qsort`, which sorts by the comparison function that it is given.
module _ (qsort : (ℕ → ℕ → ℤ) → List ℕ → List ℕ) where
  pub quick_sort_uint64 : List ℕ → List ℕ
  quick_sort_uint64 array = qsort cmpfunc_uint64 array

  unfoldable pub quick_sort_uint16 : List ℕ → List ℕ
  quick_sort_uint16 array = qsort cmpfunc_uint16 array

pub sum_loop : ℕ → ℕ → List ℕ → ℕ
sum_loop modulus sum [] = sum
sum_loop modulus sum (x ∷ xs) = sum_loop modulus ((sum + x) % modulus) xs

pub sum_array_uint16 : List ℕ → ℕ
sum_array_uint16 array = sum_loop (2 ^ 16) 0 array

pub sum_array_uint64 : List ℕ → ℕ
sum_array_uint64 array = sum_loop (2 ^ 64) 0 array

-- C's `/`, which faults at a divisor of zero.
abbrev pub div_or_fault : ℕ → ℕ → Option ℕ
div_or_fault a zero = none
div_or_fault a (suc b) = some (a / suc b)

pub mean_array_uint16 : List ℕ → Option ℕ
mean_array_uint16 array = div_or_fault (sum_array_uint16 array) (length array)

unfoldable pub mean_array_uint64 : List ℕ → Option ℕ
mean_array_uint64 array = div_or_fault (sum_array_uint64 array) (length array)

min_loop : ℕ → List ℕ → ℕ
min_loop min_v [] = min_v
min_loop min_v (x ∷ xs) = min_loop (if ltb x min_v then x else min_v) xs

max_loop : ℕ → List ℕ → ℕ
max_loop max_v [] = max_v
max_loop max_v (x ∷ xs) = max_loop (if ltb max_v x then x else max_v) xs

pub min_in_array_uint64_v : List ℕ → Option ℕ
min_in_array_uint64_v [] = none
min_in_array_uint64_v (x ∷ xs) = some (min_loop x (x ∷ xs))

pub max_in_array_uint64_v : List ℕ → Option ℕ
max_in_array_uint64_v [] = none
max_in_array_uint64_v (x ∷ xs) = some (max_loop x (x ∷ xs))

unfoldable pub min_in_array_uint16_v : List ℕ → Option ℕ
unfolding min_loop
min_in_array_uint16_v [] = none
min_in_array_uint16_v (x ∷ xs) = some (min_loop x (x ∷ xs))

unfoldable pub max_in_array_uint16_v : List ℕ → Option ℕ
unfolding max_loop
max_in_array_uint16_v [] = none
max_in_array_uint16_v (x ∷ xs) = some (max_loop x (x ∷ xs))

-- `for (i..) if (key(x[i]) < best) { best = key(x[i]); idx = i; }` from index `i` on: the loop of
-- the `_vi` functions, of the nearest neighbours and of the synchronisation.
pub first_least {ℓ} : {A : Type ℓ} → (A → ℕ) → List A → ℕ → ℕ → ℕ → ℕ × ℕ
first_least key [] i best idx = (best, idx)
first_least key (x ∷ xs) i best idx =
    first_least key xs (i + 1) (if ltb (key x) best then key x else best)
      (if ltb (key x) best then i else idx)

first_greatest : List ℕ → ℕ → ℕ → ℕ → ℕ × ℕ
first_greatest [] i best idx = (best, idx)
first_greatest (x ∷ xs) i best idx =
    first_greatest xs (i + 1) (if ltb best x then x else best) (if ltb best x then i else idx)

-- `*val` and `*idx`.
pub min_in_array_uint64_vi : List ℕ → Option (ℕ × ℕ)
min_in_array_uint64_vi [] = none
min_in_array_uint64_vi (x ∷ xs) = some (first_least (λ v. v) (x ∷ xs) 0 x 0)

pub max_in_array_uint64_vi : List ℕ → Option (ℕ × ℕ)
max_in_array_uint64_vi [] = none
max_in_array_uint64_vi (x ∷ xs) = some (first_greatest (x ∷ xs) 0 x 0)

pub min_in_array_uint16_vi : List ℕ → Option (ℕ × ℕ)
min_in_array_uint16_vi [] = none
min_in_array_uint16_vi (x ∷ xs) = some (first_least (λ v. v) (x ∷ xs) 0 x 0)

pub max_in_array_uint16_vi : List ℕ → Option (ℕ × ℕ)
max_in_array_uint16_vi [] = none
max_in_array_uint16_vi (x ∷ xs) = some (first_greatest (x ∷ xs) 0 x 0)

-- The loop of `find_element_in_array`: -1 is "not found".
find_from : ℕ → List ℕ → ℕ → ℤ
find_from i [] ele = negsuc 0
find_from i (x ∷ xs) ele = let rest = find_from (i + 1) xs ele in if ele == x then pos i else rest

pub find_element_in_array_uint16 : List ℕ → ℕ → ℤ
find_element_in_array_uint16 array ele = find_from 0 array ele

pub find_element_in_array_uint64 : List ℕ → ℕ → ℤ
find_element_in_array_uint64 array ele = find_from 0 array ele

-- `abs((long)x - (long)num)`.
pub distance : ℕ → ℕ → ℕ
distance num x = abs (as_long x -ℤ as_long num)

-- `abs(((long)x + offset) - (long)num)`.
unfoldable pub distance_w_offset : ℤ → ℕ → ℕ → ℕ
distance_w_offset offset num x = abs (as_long x +ℤ offset -ℤ as_long num)

-- The first round (`i == 0`) sets `dist_min` and keeps `idx` at 0.
pub nearest_neighbour_index : List ℕ → ℕ → ℕ
nearest_neighbour_index [] num = 0
nearest_neighbour_index (x ∷ xs) num = (first_least (distance num) xs 1 (distance num x) 0).1

pub nearest_neighbour : List ℕ → ℕ → Option ℕ
nearest_neighbour array num = get_elem? array (nearest_neighbour_index array num)

nearest_index_w_offset : List ℕ → ℕ → ℤ → ℕ
nearest_index_w_offset [] num offset = 0
nearest_index_w_offset (x ∷ xs) num offset =
    (first_least (distance_w_offset offset num) xs 1 (distance_w_offset offset num x) 0).1

pub nearest_neighbour_w_offset : List ℕ → ℕ → ℤ → Option ℕ
nearest_neighbour_w_offset array num offset =
    get_elem? array (nearest_index_w_offset array num offset)

-- `dist_min`, which is 0 for an empty array.
pub nearest_neighbour_dist_w_offset : List ℕ → ℕ → ℤ → ℕ
nearest_neighbour_dist_w_offset [] num offset = 0
nearest_neighbour_dist_w_offset (x ∷ xs) num offset =
    (first_least (distance_w_offset offset num) xs 1 (distance_w_offset offset num x) 0).0

correlate_loop : ℕ → List ℕ → List ℕ → Option ℕ
correlate_loop dist [] array2 = some dist
correlate_loop dist (x ∷ xs) array2 = elim (nearest_neighbour array2 x) [
  | none ↦ none
  | some element ↦ correlate_loop (dist + distance x element) xs array2
]

pub correlate_2_vec : List ℕ → List ℕ → Option ℕ
correlate_2_vec array1 array2 = correlate_loop 0 array1 array2

correlate_loop_w_offset : ℕ → List ℕ → List ℕ → ℤ → ℕ
correlate_loop_w_offset dist [] array2 offset = dist
correlate_loop_w_offset dist (x ∷ xs) array2 offset =
    correlate_loop_w_offset (dist + nearest_neighbour_dist_w_offset array2 x offset) xs array2
      offset

pub correlate_2_vec_w_offset : List ℕ → List ℕ → ℤ → ℕ
correlate_2_vec_w_offset array1 array2 offset = correlate_loop_w_offset 0 array1 array2 offset

pub shift_vec_w_offset : List ℕ → ℤ → List ℕ
shift_vec_w_offset array offset = map (λ x. add64_int x offset) array
