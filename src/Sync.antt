-- ===== src/Sync.antt =====
-- ngscope_sync.cc: the clock offset between the packets and the control messages is the candidate
-- that brings the two vectors of time stamps nearest to each other.
pub mod Optimal
mod Runs
use copa_new.Prelude.{ℕ, List, [], ◌∷◌, Option, get_elem?}
use copa_new.Prelude.Int.{ℤ}
use copa_new.Arrays.{first_least, correlate_2_vec_w_offset}

-- The loop over `offset_vec`: its first round sets `dist_min` and leaves `idx` at 0.
pub best_offset_index : List ℕ → List ℕ → List ℤ → ℕ
best_offset_index array1 array2 [] = 0
best_offset_index array1 array2 (o ∷ os) =
    let dist : ℤ → ℕ = correlate_2_vec_w_offset array1 array2 in
    (first_least dist os 1 (dist o) 0).1

-- `none` is the read of `offset_vec[0]` when there is no candidate.
pub sync_dci_pkt : List ℕ → List ℕ → List ℤ → Option ℤ
sync_dci_pkt array1 array2 offset_vec =
    get_elem? offset_vec (best_offset_index array1 array2 offset_vec)
