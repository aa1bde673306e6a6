-- ===== src/Sync/Runs.antt =====
-- A run of the synchronisation, and its theorems at concrete inputs.
use copa_new.Prelude.{ℕ, ◌≡◌, refl, List, [], ◌∷◌, some}
use copa_new.Prelude.Int.{ℤ, pos, negsuc, ◌+ℤ◌, ◌-ℤ◌}
use copa_new.Arrays.{distance_w_offset}
use copa_new.Arrays.Nearest.{Aligned}
use copa_new.Sync.{sync_dci_pkt}
use copa_new.Sync.Optimal.{sync_dci_pkt-Aligned}

-- Packets 7 after their control messages, and three candidate offsets.
abbrev pkts : List ℕ
pkts = 107 ∷ 257 ∷ []

abbrev dcis : List ℕ
dcis = 100 ∷ 180 ∷ 250 ∷ []

abbrev offsets : List ℤ
offsets = negsuc 6 ∷ pos 0 ∷ pos 7 ∷ []

offset_7-Aligned : Aligned pkts dcis (pos 7)
unfolding distance_w_offset ◌+ℤ◌ ◌-ℤ◌
offset_7-Aligned = ((0, 100, refl, refl), ((2, 250, refl, refl), tt))

sync_dci_pkt-Aligned_example :
    (chosen : ℤ) × (sync_dci_pkt pkts dcis offsets ≡ some chosen) × Aligned pkts dcis chosen
sync_dci_pkt-Aligned_example =
    sync_dci_pkt-Aligned pkts 100 (180 ∷ 250 ∷ []) (negsuc 6) (pos 0 ∷ pos 7 ∷ []) 2 (pos 7) refl
      offset_7-Aligned
