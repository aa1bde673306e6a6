-- ===== src/Extract.antt =====
-- ngscope_dci.h, lines 43-80, and ngscope_dci.cc, lines 240-394: the messages of a cell's ring copied
-- into arrays in the order of time, moved by the clock offset, and their retransmissions collected.
pub mod Reads
pub mod Fill
pub mod Refine
pub mod Offset
mod Runs
use copa_new.Prelude.{
  ℕ, zero, suc, ◌+◌, ◌%◌, List, [], ◌∷◌, ◌++◌, map, Bool, false, Option, none, some, ltb, ◌==◌,
  if◌then◌else◌, length, get_elem?, get_or, set, take, drop, replicate,
}
use mathlib.Core.Option
use copa_new.Prelude.Int.{ℤ}
use copa_new.Prelude.Word.{add64_int}
use copa_new.Arrays.{quick_sort_uint64, quick_sort_uint16}
use copa_new.Dci.{UeDci, DciCell, DciCa, nof_log_dci, zero_ue_dci}

-- `ue_dl_dci_t` and `ue_ul_dci_t`, which have the same fields.
pub record LinkDci : Type 0 where
  pub tbs : List ℕ
  pub retx : List ℕ
  pub retx_rv_flag : List Bool
  pub nof_retx : ℕ
  pub retx_t_us : List ℕ
  pub retx_tti : List ℕ

-- `ngscope_dci_t`.
pub record DciArrays : Type 0 where
  pub nof_dci : ℕ
  pub ca_header : ℕ
  pub ca_tail : ℕ
  pub time_stamp_us : List ℕ
  pub tti : List ℕ
  pub curr_time : ℕ
  pub dl_dci : LinkDci
  pub ul_dci : LinkDci

-- The state after `memset`.
unfoldable pub zero_link : LinkDci
zero_link = record {
  tbs = replicate nof_log_dci 0;
  retx = replicate nof_log_dci 0;
  retx_rv_flag = replicate nof_log_dci false;
  nof_retx = 0;
  retx_t_us = replicate nof_log_dci 0;
  retx_tti = replicate nof_log_dci 0;
}

unfoldable pub zero_arrays : DciArrays
unfolding zero_link
zero_arrays = record {
  nof_dci = 0;
  ca_header = 0;
  ca_tail = 0;
  time_stamp_us = replicate nof_log_dci 0;
  tti = replicate nof_log_dci 0;
  curr_time = 0;
  dl_dci = zero_link;
  ul_dci = zero_link;
}

-- The writes to one of the two links at index `i`.
unfoldable pub put_link : LinkDci → ℕ → ℕ → ℕ → Bool → UeDci → LinkDci
put_link l i tbs retx rv_flag d = record {
  tbs = set l.tbs i tbs;
  retx = set l.retx i retx;
  retx_rv_flag = set l.retx_rv_flag i rv_flag;
  nof_retx = if retx == 0 then l.nof_retx else l.nof_retx + 1;
  retx_t_us = if retx == 0 then l.retx_t_us else set l.retx_t_us l.nof_retx d.time_stamp;
  retx_tti = if retx == 0 then l.retx_tti else set l.retx_tti l.nof_retx d.tti;
}

-- The body of `extract_single_dci`, with the message that it reads.
unfoldable pub put_dci : DciArrays → ℕ → UeDci → DciArrays
put_dci q i d = record {
  nof_dci = q.nof_dci;
  ca_header = q.ca_header;
  ca_tail = q.ca_tail;
  time_stamp_us = set q.time_stamp_us i d.time_stamp;
  tti = set q.tti i d.tti;
  curr_time = q.curr_time;
  dl_dci = put_link q.dl_dci i d.dl_tbs d.dl_retx d.dl_rv_flag d;
  ul_dci = put_link q.ul_dci i d.ul_tbs d.ul_retx d.ul_rv_flag d;
}

unfoldable pub extract_single_dci : DciArrays → DciCell → ℕ → ℕ → DciArrays
extract_single_dci q dci_cell q_idx p_idx = put_dci q q_idx (get_or dci_cell.dci p_idx zero_ue_dci)

-- `for (i..) extract_single_dci(q, dci_cell, i, place(i))`, with the rounds left first.
unfoldable pub extract_loop : ℕ → ℕ → (ℕ → ℕ) → DciCell → DciArrays → DciArrays
extract_loop zero i place dci_cell q = q
extract_loop (suc n) i place dci_cell q =
    extract_loop n (i + 1) place dci_cell (extract_single_dci q dci_cell i (place i))

-- The three branches on `nof_dci`, on the state that has its header fields.
unfoldable pub extract_cell : DciCell → DciArrays → DciArrays
extract_cell dci_cell q =
    if ltb dci_cell.nof_logged_dci nof_log_dci
    then extract_loop dci_cell.nof_logged_dci 0 (λ i. i) dci_cell q
    else if dci_cell.nof_logged_dci == nof_log_dci
    then extract_loop dci_cell.nof_logged_dci 0 (λ i. (dci_cell.header + i) % nof_log_dci) dci_cell
        q
    else q

-- The header fields after the `memset`.
unfoldable pub start_arrays : DciCa → DciCell → DciArrays
start_arrays dci_ca dci_cell = record zero_arrays {
  nof_dci = dci_cell.nof_logged_dci;
  ca_header = dci_ca.header;
  ca_tail = dci_ca.tail;
  curr_time = dci_ca.curr_time;
}

unfoldable pub extract_single_cell : DciCa → ℕ → Option DciArrays
extract_single_cell dci_ca cell_idx =
    Option.map (λ c. extract_cell c (start_arrays dci_ca c)) (get_elem? dci_ca.cell_dci cell_idx)

unfoldable pub extract_cells : DciCa → ℕ → ℕ → Option (List DciArrays)
extract_cells dci_ca zero i = some []
extract_cells dci_ca (suc n) i = elim (extract_single_cell dci_ca i) [
  | none ↦ none
  | some q ↦ Option.map (◌∷◌ q) (extract_cells dci_ca n (i + 1))
]

-- The arrays of the `nof_cell` cells; `none` is a cell that does not exist.
unfoldable pub extract_multi_cell : DciCa → Option (List DciArrays)
extract_multi_cell dci_ca = extract_cells dci_ca dci_ca.nof_cell 0

-- `for (i = 0; i < n; i++) array[i] += offset`.
add_offset : ℤ → ℕ → List ℕ → List ℕ
add_offset offset zero xs = xs
add_offset offset (suc n) [] = []
add_offset offset (suc n) (x ∷ xs) = add64_int x offset ∷ add_offset offset n xs

pub sync_single_cell : DciArrays → ℤ → DciArrays
sync_single_cell q offset = record {
  nof_dci = q.nof_dci;
  ca_header = q.ca_header;
  ca_tail = q.ca_tail;
  time_stamp_us = add_offset offset q.nof_dci q.time_stamp_us;
  tti = q.tti;
  curr_time = q.curr_time;
  dl_dci = record (q.dl_dci) { retx_t_us = add_offset offset q.dl_dci.nof_retx q.dl_dci.retx_t_us };
  ul_dci = record (q.ul_dci) { retx_t_us = add_offset offset q.ul_dci.nof_retx q.ul_dci.retx_t_us };
}

-- The list holds the arrays of the cells in use.
pub sync_multi_cell : List DciArrays → ℤ → List DciArrays
sync_multi_cell qs offset = map (λ q. sync_single_cell q offset) qs

collect : (LinkDci → List ℕ) → List DciArrays → List ℕ
collect field [] = []
collect field (q ∷ qs) = take q.dl_dci.nof_retx (field q.dl_dci) ++ collect field qs

-- The times and the TTIs of the downlink retransmissions of all the cells, sorted.
module _ (qsort : (ℕ → ℕ → ℤ) → List ℕ → List ℕ) where
  pub get_retx_t : List DciArrays → List ℕ
  get_retx_t qs = quick_sort_uint64 qsort (collect (λ l. l.retx_t_us) qs)

  pub get_retx_tti : List DciArrays → List ℕ
  get_retx_tti qs = quick_sort_uint16 qsort (collect (λ l. l.retx_tti) qs)
