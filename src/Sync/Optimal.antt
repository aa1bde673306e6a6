-- ===== src/Sync/Optimal.antt =====
-- What the synchronisation chooses.
use copa_new.Prelude.{
  ℕ, ◌≤◌, ◌<◌, ◌≡◌, sym, ◌∙◌, List, ◌∷◌, some, get_elem?, take, All, All-get_elem?, All-map, arith,
}
use copa_new.Prelude.Int.{ℤ}
use copa_new.Arrays.{correlate_2_vec_w_offset}
use copa_new.Arrays.Extremes.{IsFirstLeast, first_least_from_head}
use copa_new.Arrays.Nearest.{
  total_distance, correlate-eq-total_distance, Aligned, total_distance_of_Aligned,
  Aligned-of_total_distance,
}
use copa_new.Sync.{best_offset_index, sync_dci_pkt}

sync-IsFirstLeast :
    (pkts dcis : List ℕ) (o : ℤ) (os : List ℤ)
    → (v : ℕ) × IsFirstLeast
        (correlate_2_vec_w_offset pkts dcis)
        (o ∷ os)
        v
        (best_offset_index pkts dcis (o ∷ os))
unfolding best_offset_index
sync-IsFirstLeast pkts dcis o os =
    (_, first_least_from_head (correlate_2_vec_w_offset pkts dcis) o os)

-- With a candidate at hand, `sync_dci_pkt` returns a candidate whose total distance is the least of
-- all the candidates', and less than that of each candidate before it.
pub sync_dci_pkt_optimal :
    (pkts dcis : List ℕ) (o : ℤ) (os : List ℤ)
    → (chosen : ℤ) × (k : ℕ) × (sync_dci_pkt pkts dcis (o ∷ os) ≡ some chosen)
      × (get_elem? (o ∷ os) k ≡ some chosen)
      × All (λ c. total_distance pkts dcis chosen ≤ total_distance pkts dcis c) (o ∷ os)
      × All (λ c. total_distance pkts dcis chosen < total_distance pkts dcis c) (take k (o ∷ os))
unfolding sync_dci_pkt
sync_dci_pkt_optimal pkts dcis o os =
    let (v, r) = sync-IsFirstLeast pkts dcis o os in
    let e = sym (correlate-eq-total_distance pkts dcis r.element) ∙ r.value in
    (
      r.element,
      best_offset_index pkts dcis (o ∷ os),
      r.at,
      r.at,
      All-map (λ c. v ≤ correlate_2_vec_w_offset pkts dcis c) _
          (λ c h. omega (arith, correlate-eq-total_distance pkts dcis c, e)) (o ∷ os) r.least,
      All-map (λ c. v < correlate_2_vec_w_offset pkts dcis c) _
          (λ c h. omega (arith, correlate-eq-total_distance pkts dcis c, e)) _ r.first,
    )

-- If some candidate brings every packet time exactly onto the time of a control message, then so
-- does the offset that `sync_dci_pkt` returns.
pub sync_dci_pkt-Aligned :
    (pkts : List ℕ) (d : ℕ) (ds : List ℕ) (o : ℤ) (os : List ℤ) (i : ℕ) (good : ℤ)
    → get_elem? (o ∷ os) i ≡ some good
    → Aligned pkts (d ∷ ds) good
    → (chosen : ℤ) × (sync_dci_pkt pkts (d ∷ ds) (o ∷ os) ≡ some chosen)
      × Aligned pkts (d ∷ ds) chosen
sync_dci_pkt-Aligned pkts d ds o os i good e h =
    let (chosen, k, r, at, least, first) = sync_dci_pkt_optimal pkts (d ∷ ds) o os in
    let le =
      All-get_elem? (λ c. total_distance pkts (d ∷ ds) chosen ≤ total_distance pkts (d ∷ ds) c)
        (o ∷ os) i least e in
    (
      chosen,
      r,
      Aligned-of_total_distance pkts d ds chosen
          (omega (arith, le, total_distance_of_Aligned pkts (d ∷ ds) good h)),
    )
