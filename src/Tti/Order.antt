-- ===== src/Tti/Order.antt =====
-- The comparisons of TTIs follow the order of time.
use copa_new.Prelude.{ℕ, ◌+◌, ◌%◌, ◌<◌, ◌≡◌, ltb, leb, max, ◌∷◌, [], some, arith}
use copa_new.Prelude.Int.{abs_diff}
use copa_new.Arrays.{max_in_array_uint16_v}
use copa_new.Tti.{
  max_tti, unwrap_one, unwrap_tti_array, unwrap_pair, tti_a_l_b, tti_a_le_b, tti_a_s_b, tti_a_se_b,
}

max_of_two : (a b : ℕ) → max_in_array_uint16_v (a ∷ b ∷ []) ≡ some (max a b)
unfolding max_in_array_uint16_v
max_of_two a b = ground arith

unwrap_pair-eq : (a b : ℕ) → unwrap_pair a b ≡ (unwrap_one (max a b) a, unwrap_one (max a b) b)
unfolding unwrap_pair unwrap_tti_array
unwrap_pair-eq a b = rw (max_of_two a b)

-- Unwrapped, two TTIs of absolute times less than half a round apart differ by as much as the times.
unwrap_pair_times :
    (t u : ℕ)
    → abs_diff t u < 5120
    → (unwrap_pair (t % max_tti) (u % max_tti)).0 + u
      ≡ (unwrap_pair (t % max_tti) (u % max_tti)).1 + t
unwrap_pair_times t u h = rw unwrap_pair-eq (unfold unwrap_one in ground arith)

-- For two times that are less than 5120 subframes apart, the comparisons of their TTIs are the
-- comparisons of the times, also across the wrap-around.
pub tti_order_is_time_order :
    (t u : ℕ)
    → abs_diff t u < 5120
    → (tti_a_l_b (t % max_tti) (u % max_tti) ≡ ltb u t)
      × (tti_a_le_b (t % max_tti) (u % max_tti) ≡ leb u t)
      × (tti_a_s_b (t % max_tti) (u % max_tti) ≡ ltb t u)
      × (tti_a_se_b (t % max_tti) (u % max_tti) ≡ leb t u)
unfolding tti_a_l_b tti_a_le_b tti_a_s_b tti_a_se_b
tti_order_is_time_order t u h =
    let times = unwrap_pair_times t u h in
    (ground (arith, times), ground (arith, times), ground (arith, times), ground (arith, times))
