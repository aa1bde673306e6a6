-- ===== src/Arrays/Nearest.antt =====
-- The nearest neighbours and the correlation of two vectors of time stamps.
use copa_new.Prelude.{
  ℕ, ◌+◌, ◌^◌, ◌≤◌, ◌<◌, ◌≡◌, refl, sym, ◌∙◌, subst, List, [], ◌∷◌, some, get_elem?, All,
  All-get_elem?, arith,
}
use copa_new.Prelude.Int.{ℤ, abs_diff}
use copa_new.Prelude.Word.{abs-long_diff}
use copa_new.Arrays.{
  first_least, distance, distance_w_offset, nearest_neighbour_index, nearest_neighbour,
  nearest_neighbour_dist_w_offset, correlate_loop_w_offset, correlate_2_vec_w_offset,
}
use copa_new.Arrays.Extremes.{IsFirstLeast, first_least_from_head}

-- Of an array that is not empty, `nearest_neighbour_index` is the first index at the least distance
-- from `num`, and `nearest_neighbour` the element there.
pub nearest_neighbour-IsFirstLeast :
    (x : ℕ) (xs : List ℕ) (num : ℕ)
    → (y : ℕ) × (nearest_neighbour (x ∷ xs) num ≡ some y)
      × IsFirstLeast (distance num) (x ∷ xs) (distance num y) (nearest_neighbour_index (x ∷ xs) num)
unfolding nearest_neighbour nearest_neighbour_index
nearest_neighbour-IsFirstLeast x xs num =
    let r = first_least_from_head (distance num) x xs in
    (
      r.element,
      r.at,
      subst
          (λ v.
            IsFirstLeast (distance num) (x ∷ xs) v
              (first_least (distance num) xs 1 (distance num x) 0).1)
          (sym r.value) r,
    )

-- On words below 2^63 the distance is the plain one.
pub distance-eq-abs_diff : (num x : ℕ) → num < 2 ^ 63 → x < 2 ^ 63 → distance num x ≡ abs_diff x num
unfolding distance
distance-eq-abs_diff num x h k = abs-long_diff x num k h

-- The distance with an offset is the least over the array.
pub nearest_dist-IsFirstLeast :
    (x : ℕ) (xs : List ℕ) (num : ℕ) (offset : ℤ)
    → (k : ℕ) × IsFirstLeast
        (distance_w_offset offset num)
        (x ∷ xs)
        (nearest_neighbour_dist_w_offset (x ∷ xs) num offset)
        k
unfolding nearest_neighbour_dist_w_offset
nearest_dist-IsFirstLeast x xs num offset =
    (_, first_least_from_head (distance_w_offset offset num) x xs)

-- The sum over the first vector of the distances to the second.
pub total_distance : List ℕ → List ℕ → ℤ → ℕ
total_distance [] array2 offset = 0
total_distance (x ∷ xs) array2 offset =
    nearest_neighbour_dist_w_offset array2 x offset + total_distance xs array2 offset

correlate_loop-total_distance :
    (dist : ℕ) (xs ys : List ℕ) (offset : ℤ)
    → correlate_loop_w_offset dist xs ys offset ≡ dist + total_distance xs ys offset
unfolding correlate_loop_w_offset total_distance
correlate_loop-total_distance dist [] ys offset = omega arith
correlate_loop-total_distance dist (x ∷ xs) ys offset = omega (
  arith,
  correlate_loop-total_distance (dist + nearest_neighbour_dist_w_offset ys x offset) xs ys offset,
)

pub correlate-eq-total_distance :
    (xs ys : List ℕ) (offset : ℤ)
    → correlate_2_vec_w_offset xs ys offset ≡ total_distance xs ys offset
unfolding correlate_2_vec_w_offset
correlate-eq-total_distance xs ys offset =
    correlate_loop-total_distance 0 xs ys offset ∙ omega arith

-- Every element of the first vector stands at an element of the second, moved by the offset.
abbrev pub Aligned : List ℕ → List ℕ → ℤ → Type 0
Aligned xs ys offset =
    All (λ x. (j : ℕ) × (y : ℕ) × (get_elem? ys j ≡ some y) × (distance_w_offset offset x y ≡ 0)) xs

dist_of_hit :
    (ys : List ℕ) (num : ℕ) (offset : ℤ) (j y : ℕ)
    → get_elem? ys j ≡ some y
    → distance_w_offset offset num y ≡ 0
    → nearest_neighbour_dist_w_offset ys num offset ≡ 0
dist_of_hit [] num offset j y e h = cc
dist_of_hit (z ∷ ys) num offset j y e h =
    let least = (nearest_dist-IsFirstLeast z ys num offset).1.least in
    omega (
      arith,
      All-get_elem?
          (λ v.
            nearest_neighbour_dist_w_offset (z ∷ ys) num offset ≤ distance_w_offset offset num v)
          (z ∷ ys) j least e,
    )

hit_of_dist :
    (y : ℕ) (ys : List ℕ) (num : ℕ) (offset : ℤ)
    → nearest_neighbour_dist_w_offset (y ∷ ys) num offset ≡ 0
    → (j : ℕ) × (z : ℕ) × (get_elem? (y ∷ ys) j ≡ some z) × (distance_w_offset offset num z ≡ 0)
hit_of_dist y ys num offset h =
    let (k, r) = nearest_dist-IsFirstLeast y ys num offset in (k, r.element, r.at, r.value ∙ h)

pub total_distance_of_Aligned :
    (xs ys : List ℕ) (offset : ℤ) → Aligned xs ys offset → total_distance xs ys offset ≡ 0
unfolding total_distance
total_distance_of_Aligned [] ys offset h = refl
total_distance_of_Aligned (x ∷ xs) ys offset ((j, y, e, d), h) =
    omega (arith, dist_of_hit ys x offset j y e d, total_distance_of_Aligned xs ys offset h)

-- The total distance to a second vector that is not empty is 0 only if the vectors are aligned.
pub Aligned-of_total_distance :
    (xs : List ℕ) (y : ℕ) (ys : List ℕ) (offset : ℤ)
    → total_distance xs (y ∷ ys) offset ≡ 0
    → Aligned xs (y ∷ ys) offset
unfolding total_distance
Aligned-of_total_distance [] y ys offset h = tt
Aligned-of_total_distance (x ∷ xs) y ys offset h = (
  hit_of_dist y ys x offset (omega arith),
  Aligned-of_total_distance xs y ys offset (omega arith),
)
