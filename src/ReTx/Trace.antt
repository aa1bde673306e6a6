-- ===== src/ReTx/Trace.antt =====
-- ngscope_reTx.cc, lines 92-150 and 302-342: the traces of the subframes, taken from the extracted
-- arrays, and the updates of the reordering buffer by them.
use copa_new.Prelude.{
  ℕ, zero, suc, ◌+◌, ◌-◌, ◌/◌, ◌%◌, ◌^◌, List, [], ◌∷◌, ◌++◌, Bool, false, not, ◌||◌, Option, none,
  some, leb, ◌==◌, if◌then◌else◌, length, get_or, set, take, replicate, map,
}
use mathlib.Core.Option
use copa_new.Prelude.Int.{ℤ, pos, negsuc, pos_part}
use copa_new.Tti.{wrap_tti, tti_distance}
use copa_new.Arrays.{find_element_in_array_uint16}
use copa_new.Extract.{DciArrays}
use copa_new.ReTx.{CaTrace, ReorderingBuf, tti_to_idx, update_retx_buf}

-- The TTIs of `size` subframes from `tail_tti` on.
ttis_from : ℕ → ℕ → List ℕ
ttis_from tail_tti zero = []
ttis_from tail_tti (suc n) = wrap_tti tail_tti ∷ ttis_from (tail_tti + 1) n

-- The state after the first loop.
start_trace : ℕ → ℕ → CaTrace
start_trace tail_tti size = record {
  retx = replicate size false;
  tti = ttis_from tail_tti size;
  tbs = replicate size 0;
  rx_t_us = replicate size 0;
  size = size;
}

-- What the message at index `j` of a cell adds; `none` is a write past the end of the trace, or a
-- division by 0 cells.
add_subframe : DciArrays → ℕ → ℕ → ℕ → CaTrace → Option CaTrace
add_subframe q nof_cell tail_tti j t =
    let index : ℕ = tti_to_idx (get_or q.tti j 0) tail_tti in
    let time : ℕ = get_or q.time_stamp_us j 0 / nof_cell in
    if leb t.size index || (nof_cell == 0)
    then none
    else some (record {
      retx = set t.retx index (get_or t.retx index false || not (get_or q.dl_dci.retx j 0 == 0));
      tti = t.tti;
      tbs = set t.tbs index ((get_or t.tbs index 0 + get_or q.dl_dci.tbs j 0) % 2 ^ 32);
      rx_t_us = set t.rx_t_us index ((get_or t.rx_t_us index 0 + time) % 2 ^ 64);
      size = t.size;
    })

-- `for (j..)`, with `n` rounds left.
add_subframes : DciArrays → ℕ → ℕ → ℕ → ℕ → Option CaTrace → Option CaTrace
add_subframes q nof_cell tail_tti zero j t = t
add_subframes q nof_cell tail_tti (suc n) j none = none
add_subframes q nof_cell tail_tti (suc n) j (some t) =
    add_subframes q nof_cell tail_tti n (j + 1) (add_subframe q nof_cell tail_tti j t)

-- A tail that is not found gives the index -1, which the loop then reads at; a header that is not
-- found leaves the loop without a round.
add_range : DciArrays → ℕ → ℕ → ℤ → ℤ → CaTrace → Option CaTrace
add_range q nof_cell tail_tti (negsuc k) ee_idx t = none
add_range q nof_cell tail_tti (pos ss_idx) (negsuc k) t = some t
add_range q nof_cell tail_tti (pos ss_idx) (pos ee_idx) t =
    add_subframes q nof_cell tail_tti (ee_idx + 1 - ss_idx) ss_idx (some t)

add_cell : DciArrays → ℕ → ℕ → ℕ → CaTrace → Option CaTrace
add_cell q nof_cell header_tti tail_tti t =
    add_range q nof_cell tail_tti (find_element_in_array_uint16 (take q.nof_dci q.tti) tail_tti)
      (find_element_in_array_uint16 (take q.nof_dci q.tti) header_tti) t

add_cells : List DciArrays → ℕ → ℕ → ℕ → Option CaTrace → Option CaTrace
add_cells [] nof_cell header_tti tail_tti t = t
add_cells (q ∷ qs) nof_cell header_tti tail_tti none = none
add_cells (q ∷ qs) nof_cell header_tti tail_tti (some t) =
    add_cells qs nof_cell header_tti tail_tti (add_cell q nof_cell header_tti tail_tti t)

-- The list holds the arrays of all the cells in use; `dci_all[0]` is read in any case. The distance
-- of TTIs below `MAX_TTI` is positive.
pub extract_ca_trace : List DciArrays → Option CaTrace
extract_ca_trace [] = none
extract_ca_trace (q ∷ qs) =
    let size : ℕ = pos_part (tti_distance q.ca_tail q.ca_header) in
    add_cells (q ∷ qs) (length (q ∷ qs)) q.ca_header q.ca_tail (some (start_trace q.ca_tail size))

-- One element of each of the last three arrays is copied; a trace of no message has no place for it.
pub extract_ca_ul_trace : List DciArrays → Option CaTrace
extract_ca_ul_trace [] = none
extract_ca_ul_trace (q ∷ qs) =
    let rest : ℕ = q.nof_dci - 1 in
    if q.nof_dci == 0
    then none
    else some (record {
      retx = map (λ r. not (r == 0)) (take 1 q.ul_dci.retx) ++ replicate rest false;
      tti = take q.nof_dci q.tti;
      tbs = take 1 q.ul_dci.tbs ++ replicate rest 0;
      rx_t_us = take 1 q.time_stamp_us ++ replicate rest 0;
      size = q.nof_dci;
    })

pub update_buf : ReorderingBuf → List DciArrays → Option (Bool × ReorderingBuf)
update_buf q dci_all = Option.map (update_retx_buf q) (extract_ca_trace dci_all)

pub update_ul_buf : ReorderingBuf → List DciArrays → Option (ℕ × ReorderingBuf)
update_ul_buf q dci_all =
    Option.map (λ t. (1, (update_retx_buf q t).1)) (extract_ca_ul_trace dci_all)
