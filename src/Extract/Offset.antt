-- ===== src/Extract/Offset.antt =====
-- Moving the arrays by the clock offset.
use copa_new.Prelude.{ℕ, zero, suc, ◌^◌, ◌<◌, ◌≡◌, refl, ap₂, List, [], ◌∷◌, All, arith}
use copa_new.Prelude.Int.{pos, negsuc}
use copa_new.Prelude.Word.{IsU64}
use copa_new.Extract.{DciArrays, add_offset, sync_single_cell}

add_offset_undo :
    (k n : ℕ) (xs : List ℕ)
    → k < 2 ^ 31
    → All IsU64 xs
    → add_offset (negsuc k) n (add_offset (pos (suc k)) n xs) ≡ xs
unfolding add_offset
add_offset_undo k zero xs hk h = refl
add_offset_undo k (suc n) [] hk h = refl
add_offset_undo k (suc n) (x ∷ xs) hk h =
    let w = h.0 in ap₂ ◌∷◌ (omega arith) (add_offset_undo k n xs hk h.1)

-- Moving the time stamps of a cell by an offset and then by its negative restores all the arrays.
pub sync_single_cell_undo :
    (q : DciArrays) (k : ℕ)
    → k < 2 ^ 31
    → All IsU64 q.time_stamp_us
    → All IsU64 q.dl_dci.retx_t_us
    → All IsU64 q.ul_dci.retx_t_us
    → sync_single_cell (sync_single_cell q (pos (suc k))) (negsuc k) ≡ q
unfolding sync_single_cell
sync_single_cell_undo q k hk ht hd hu =
    let et = add_offset_undo k q.nof_dci q.time_stamp_us hk ht in
    let ed = add_offset_undo k q.dl_dci.nof_retx q.dl_dci.retx_t_us hk hd in
    let eu = add_offset_undo k q.ul_dci.nof_retx q.ul_dci.retx_t_us hk hu in
    λ i. record q {
      time_stamp_us = et i;
      dl_dci = record (q.dl_dci) { retx_t_us = ed i };
      ul_dci = record (q.ul_dci) { retx_t_us = eu i };
    }
