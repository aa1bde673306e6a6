-- ===== src/Tti/Distance.antt =====
-- The distance of two TTIs.
use copa_new.Prelude.{ℕ, ◌+◌, ◌%◌, ◌<◌, ◌≡◌, arith}
use copa_new.Prelude.Int.{pos}
use copa_new.Tti.{max_tti, tti_distance}

-- From a time to one that is 1 to 10239 subframes later, `tti_distance` counts the subframes from
-- the first to the last, both included; from a TTI to itself it counts a whole round and one more.
pub tti_distance_counts :
    (t d : ℕ)
    → 0 < d
    → d < max_tti
    → (tti_distance (t % max_tti) ((t + d) % max_tti) ≡ pos (d + 1))
      × (tti_distance (t % max_tti) (t % max_tti) ≡ pos (max_tti + 1))
unfolding tti_distance
tti_distance_counts t d lo hi = (ground arith, ground arith)
