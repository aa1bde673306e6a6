-- ===== src/Dci/Window.antt =====
-- `ca_update_header`: which subframes the cells have in common.
use copa_new.Prelude.{
  ℕ, zero, suc, ◌+◌, ◌%◌, ◌≤◌, ◌<◌, ◌≡◌, refl, sym, ap, ◌∙◌, ◌⊎◌, inl, inr, List, [], ◌∷◌, map,
  Option, some, length, get_or, get_elem?, set, All, All-get_elem?, lt_or_le, arith,
}
use copa_new.Arrays.{min_in_array_uint16_v, max_in_array_uint16_v, mean_array_uint64}
use copa_new.Arrays.Extremes.{
  min_in_array-IsFirstLeast, min_in_array-eq_some, max_in_array-IsFirstGreatest,
}
use copa_new.Tti.{max_tti, wrap_tti, unwrap_tti_array}
use copa_new.Tti.Unwrap.{ttis, InWindow, unwrap_tti_array_times, unwrap_tti_array-cons}
use copa_new.Dci.{
  DciCell, DciCa, UeDci, nof_log_dci, zero_ue_dci, cell_insert, newest, set_window, ca_window,
  find_dci_cell_tail,
}
use copa_new.Dci.Ring.{CellIsValid}

get_or-set {ℓ} :
    {A : Type ℓ} (xs : List A) (i : ℕ) (v d : A) → i < length xs → get_or (set xs i v) i d ≡ v
get_or-set [] i v d h = absurd (omega arith)
get_or-set (x ∷ xs) zero v d h = refl
get_or-set (x ∷ xs) (suc i) v d h = get_or-set xs i v d (omega arith)

mean_of_cons : (x : ℕ) (xs : List ℕ) → (m : ℕ) × (mean_array_uint64 (x ∷ xs) ≡ some m)
unfolding mean_array_uint64
mean_of_cons x xs = (_, refl)

set_window-some :
    {a b c : Option ℕ} {x y z : ℕ} (q : DciCa)
    → a ≡ some x
    → b ≡ some y
    → c ≡ some z
    → set_window a b c q
      ≡ some (record q { header = wrap_tti x; tail = wrap_tti (y + 1); curr_time = z })
unfolding set_window
set_window-some q ea eb ec = rw (ea, eb, ec)

-- The least element of an array, read in a second one that differs from it by constants.
shifted_at :
    (s base m : ℕ) (us ds : List ℕ) (k : ℕ)
    → map (λ a. a + s) us ≡ map (λ x. base + x) ds
    → get_elem? us k ≡ some m
    → (e : ℕ) × (get_elem? ds k ≡ some e) × (base + e ≡ m + s)
shifted_at s base m [] ds k p e = cc
shifted_at s base m (u ∷ us) [] k p e = cc
shifted_at s base m (u ∷ us) (d ∷ ds) zero p e =
    let h : u + s ≡ base + d = cc in let um : u ≡ m = cc in (d, refl, omega arith)
shifted_at s base m (u ∷ us) (d ∷ ds) (suc k) p e = shifted_at s base m us ds k (cc) e

shifted_least :
    (s base m e : ℕ) (us ds : List ℕ)
    → map (λ a. a + s) us ≡ map (λ x. base + x) ds
    → base + e ≡ m + s
    → All (λ u. m ≤ u) us
    → All (λ y. e ≤ y) ds
shifted_least s base m e us [] p h all = tt
shifted_least s base m e [] (d ∷ ds) p h all = cc
shifted_least s base m e (u ∷ us) (d ∷ ds) p h all =
    let q : u + s ≡ base + d = cc in
    let le = all.0 in (omega arith, shifted_least s base m e us ds (cc) h all.1)

module _ (wild : UeDci) where
  -- After a message is inserted below the end of the ring, it is the newest message of its cell;
  -- after one is inserted in the last place, the newest message is what stands before the array.
  pub newest-cell_insert :
      (c : DciCell) (d : UeDci)
      → CellIsValid c
      → ((c.header + 1 < nof_log_dci) × (newest wild (cell_insert c d) ≡ d))
        ⊎ ((c.header + 1 ≡ nof_log_dci) × (newest wild (cell_insert c d) ≡ wild))
  unfolding cell_insert
  newest-cell_insert c d v = elim (lt_or_le (c.header + 1) nof_log_dci) [
    | inl lt ↦
        let e : (c.header + 1) % nof_log_dci ≡ suc c.header = omega arith in
        let i : c.header % nof_log_dci ≡ c.header = omega arith in
        inl (
          lt,
          rw (e, i) (get_or-set c.dci c.header d zero_ue_dci (omega (arith, v.size, v.header_in))),
        )
    | inr ge ↦
        let full : c.header + 1 ≡ nof_log_dci = omega (arith, v.header_in) in
        let e : (c.header + 1) % nof_log_dci ≡ 0 = omega arith in inr (full, rw e)
  ]

  -- With a cell in use the window is updated: none of the three searches fails.
  pub ca_window_parts :
      (c : DciCell) (cs : List DciCell) (q : DciCa)
      → (least : ℕ) × (greatest : ℕ) × (mean : ℕ) × (min_in_array_uint16_v
            (unwrap_tti_array (map (λ x. (newest wild x).tti) (c ∷ cs)))
          ≡ some least)
        × (max_in_array_uint16_v (map find_dci_cell_tail (c ∷ cs)) ≡ some greatest)
        × (ca_window wild (c ∷ cs) q
            ≡ some (record q {
              header = wrap_tti least;
              tail = wrap_tti (greatest + 1);
              curr_time = mean;
            }))
  unfolding ca_window
  ca_window_parts c cs q =
      let (y, ys, eu) =
        unwrap_tti_array-cons (newest wild c).tti (map (λ x. (newest wild x).tti) cs) in
      let (m, k, e64, e16, v64, v16, r) = min_in_array-IsFirstLeast y ys in
      let (g, k', f64, f16, w64, w16, r') =
        max_in_array-IsFirstGreatest (find_dci_cell_tail c) (map find_dci_cell_tail cs) in
      let least_eq = ap min_in_array_uint16_v eu ∙ v16 in
      let (mean, em) =
        mean_of_cons (newest wild c).time_stamp (map (λ x. (newest wild x).time_stamp) cs) in
      (m, g, mean, least_eq, w16, set_window-some q least_eq w16 em)

  -- If the newest messages of the cells in use lie within 5120 subframes, the aggregated header is
  -- the TTI of the earliest of them, also across the wrap-around.
  pub header-ca_window :
      (base : ℕ) (c : DciCell) (cs : List DciCell) (d : ℕ) (ds : List ℕ) (q : DciCa)
      → base < max_tti
      → InWindow (d ∷ ds)
      → map (λ x. (newest wild x).tti) (c ∷ cs) ≡ ttis base (d ∷ ds)
      → (q' : DciCa) × (ca_window wild (c ∷ cs) q ≡ some q')
        × (k : ℕ) × (e : ℕ) × (get_elem? (d ∷ ds) k ≡ some e)
        × All (λ y. e ≤ y) (d ∷ ds)
        × (q'.header ≡ (base + e) % max_tti)
  unfolding wrap_tti
  header-ca_window base c cs d ds q hb hw eq =
      let (m, g, mean, em, eg, eq') = ca_window_parts c cs q in
      let (s, es, times) = unwrap_tti_array_times base hb d ds hw in
      let (k, r) =
        min_in_array-eq_some (unwrap_tti_array (ttis base (d ∷ ds)))
          (ap (λ xs. min_in_array_uint16_v (unwrap_tti_array xs)) (sym eq) ∙ em) in
      let (e, at, sum) =
        shifted_at s base m (unwrap_tti_array (ttis base (d ∷ ds))) (d ∷ ds) k times
          (r.at ∙ ap some r.value) in
      let small : e < 5120 = All-get_elem? (λ y. y < 5120) (d ∷ ds) k hw at in
      (
        record q { header = wrap_tti m; tail = wrap_tti (g + 1); curr_time = mean },
        eq',
        k,
        e,
        at,
        shifted_least s base m e _ (d ∷ ds) times sum r.least,
        omega arith,
      )
