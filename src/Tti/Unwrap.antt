-- ===== src/Tti/Unwrap.antt =====
-- What unwrapping does to an array of TTIs that lie in one window of time.
use copa_new.Prelude.{
  ℕ, zero, suc, ◌+◌, ◌-◌, ◌%◌, ◌≤◌, ◌<◌, ◌≡◌, refl, ◌∙◌, ap, ap₂, List, [], ◌∷◌, map, map-map, some,
  length, get_elem?, All, ne→==, arith,
}
use copa_new.Arrays.Extremes.{max_in_array-IsFirstGreatest}
use copa_new.Tti.{max_tti, unwrap_one, unwrap_tti_array}

-- The TTIs at the given numbers of subframes after `base`.
abbrev pub ttis : ℕ → List ℕ → List ℕ
ttis base = map (λ d. (base + d) % max_tti)

abbrev pub InWindow : List ℕ → Type 0
InWindow = All (λ d. d < 5120)

module _ (base : ℕ) (in_range : base < max_tti) where
  ttis-get_elem? :
      (ds : List ℕ) (k : ℕ) {v : ℕ}
      → InWindow ds
      → get_elem? (ttis base ds) k ≡ some v
      → (d : ℕ) × (d < 5120) × (v ≡ (base + d) % max_tti)
  ttis-get_elem? [] k h e = cc
  ttis-get_elem? (d ∷ ds) zero h e = (d, h.0, cc)
  ttis-get_elem? (d ∷ ds) (suc k) h e = ttis-get_elem? ds k h.1 e

  -- `s` is the part of the time that the unwrapped numbers leave out: nothing, or one round.
  unwrap_each :
      (greatest dg s : ℕ) (ds : List ℕ)
      → dg < 5120
      → greatest ≡ (base + dg) % max_tti
      → greatest + s ≡ base + dg
      → InWindow ds
      → All (λ y. y ≤ greatest) (ttis base ds)
      → map (λ a. unwrap_one greatest a + s) (ttis base ds) ≡ map (λ d. base + d) ds
  unwrap_each greatest dg s [] hg eg es h all = refl
  unwrap_each greatest dg s (d ∷ ds) hg eg es h all =
      ap₂ ◌∷◌ one (unwrap_each greatest dg s ds hg eg es h.1 all.1)
    where
      one : unwrap_one greatest ((base + d) % max_tti) + s ≡ base + d
      one = let le = all.0 in let w = h.0 in unfold unwrap_one in ground arith

  -- The TTIs of times within 5120 subframes from `base` are unwrapped to the times themselves, less
  -- one common multiple of a round.
  pub unwrap_tti_array_times :
      (d : ℕ) (ds : List ℕ)
      → InWindow (d ∷ ds)
      → (s : ℕ) × (s % max_tti ≡ 0)
        × (map (λ a. a + s) (unwrap_tti_array (ttis base (d ∷ ds))) ≡ map (λ x. base + x) (d ∷ ds))
  unfolding unwrap_tti_array
  unwrap_tti_array_times d [] h =
      (base + d - (base + d) % max_tti, omega arith, ap (λ x. x ∷ []) (omega arith))
  unwrap_tti_array_times d (d' ∷ ds) h =
      let (v, k, e64, e16, v64, v16, r) = max_in_array-IsFirstGreatest _ (ttis base (d' ∷ ds)) in
      let (dg, hg, eg) = ttis-get_elem? (d ∷ d' ∷ ds) k h r.at in
      let s : ℕ = base + dg - v in
      (
        s,
        omega arith,
        rw (ne→== (suc (suc (length (ttis base ds)))) 1 (omega arith), v16)
            (map-map (λ a. a + s) (unwrap_one v) (ttis base (d ∷ d' ∷ ds))
              ∙ unwrap_each v dg s (d ∷ d' ∷ ds) hg eg (omega arith) h r.greatest),
      )

-- Unwrapping keeps the length, so an array that is not empty stays so.
pub unwrap_tti_array-cons :
    (x : ℕ) (xs : List ℕ) → (y : ℕ) × (ys : List ℕ) × (unwrap_tti_array (x ∷ xs) ≡ y ∷ ys)
unfolding unwrap_tti_array
unwrap_tti_array-cons x [] = (x, [], refl)
unwrap_tti_array-cons x (x' ∷ xs) =
    let (v, k, e64, e16, v64, v16, r) = max_in_array-IsFirstGreatest x (x' ∷ xs) in
    (
      unwrap_one v x,
      map (unwrap_one v) (x' ∷ xs),
      rw (ne→== (suc (suc (length xs))) 1 (omega arith), v16),
    )

pub unwrap_tti_array_one : (x : ℕ) → unwrap_tti_array (x ∷ []) ≡ x ∷ []
unfolding unwrap_tti_array
unwrap_tti_array_one x = refl
