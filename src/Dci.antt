-- ===== src/Dci.antt =====
-- ngscope_dci.h and ngscope_dci.cc, lines 26-238: the ring buffers of control messages (DCIs), one
-- for each cell, and the window of subframes that all the cells have in common.
pub mod Ring
pub mod Window
pub mod Header
pub mod Fresh
mod Runs
use copa_new.Prelude.{
  ℕ, zero, suc, ◌+◌, ◌-◌, ◌%◌, List, [], ◌∷◌, Bool, true, false, ◌&&◌, not, Option, none, some, ltb,
  leb, ◌==◌, if◌then◌else◌, length, get_elem?, get_or, set, take, replicate, map,
}
use mathlib.Core.Option
use copa_new.Arrays.{min_in_array_uint16_v, max_in_array_uint16_v, mean_array_uint64}
use copa_new.Tti.{wrap_tti, unwrap_tti_array}

-- `NOF_LOG_DCI` and `MAX_NOF_RF_DEV`.
abbrev pub nof_log_dci : ℕ
nof_log_dci = 1000

abbrev pub max_nof_rf_dev : ℕ
max_nof_rf_dev = 4

-- `ue_dci_t`.
pub record UeDci : Type 0 where
  pub time_stamp : ℕ
  pub tti : ℕ
  pub dl_tbs : ℕ
  pub dl_retx : ℕ
  pub dl_rv_flag : Bool
  pub ul_tbs : ℕ
  pub ul_retx : ℕ
  pub ul_rv_flag : Bool

-- `memset(.., 0, sizeof(ue_dci_t))`.
abbrev pub zero_ue_dci : UeDci
zero_ue_dci = record {
  time_stamp = 0;
  tti = 0;
  dl_tbs = 0;
  dl_retx = 0;
  dl_rv_flag = false;
  ul_tbs = 0;
  ul_retx = 0;
  ul_rv_flag = false;
}

-- `ngscope_dci_cell_t`: a ring of the last messages; `header` is the index of the next write.
pub record DciCell : Type 0 where
  pub cell_prb : ℕ
  pub header : ℕ
  pub nof_logged_dci : ℕ
  pub recent_dl_retx_t_us : ℕ
  pub recent_ul_retx_t_us : ℕ
  pub recent_dl_retx_tti : ℕ
  pub recent_ul_retx_tti : ℕ
  pub dci : List UeDci

-- `ngscope_dci_CA_t`; here `header` and `tail` are TTIs.
pub record DciCa : Type 0 where
  pub cell_dci : List DciCell
  pub ca_ready : Bool
  pub header : ℕ
  pub tail : ℕ
  pub nof_cell : ℕ
  pub curr_time : ℕ

unfoldable pub cell_init : DciCell
cell_init = record {
  cell_prb = 50;
  header = 0;
  nof_logged_dci = 0;
  recent_dl_retx_t_us = 0;
  recent_ul_retx_t_us = 0;
  recent_dl_retx_tti = 0;
  recent_ul_retx_tti = 0;
  dci = replicate nof_log_dci zero_ue_dci;
}

unfoldable pub ca_init : DciCa
ca_init = record {
  cell_dci = cell_init ∷ cell_init ∷ cell_init ∷ cell_init ∷ [];
  ca_ready = false;
  header = 0;
  tail = 0;
  nof_cell = 1;
  curr_time = 0;
}

-- The cells that a loop up to `nof_cell` visits; `none` is an access past the array.
abbrev pub cells_in_use : DciCa → Option (List DciCell)
cells_in_use q =
    if leb q.nof_cell (length q.cell_dci) then some (take q.nof_cell q.cell_dci) else none

-- `header - nof_dci + NOF_LOG_DCI` is never below 0, as `nof_dci` is at most `NOF_LOG_DCI`.
pub find_dci_cell_tail : DciCell → ℕ
find_dci_cell_tail q =
    (get_or q.dci ((q.header + nof_log_dci - q.nof_logged_dci) % nof_log_dci) zero_ue_dci).tti

-- The part of `ngscope_dci_CA_insert` that works on one cell.
pub cell_insert : DciCell → UeDci → DciCell
cell_insert c d = record {
  cell_prb = c.cell_prb;
  header = (c.header + 1) % nof_log_dci;
  nof_logged_dci =
      if ltb c.nof_logged_dci nof_log_dci then c.nof_logged_dci + 1 else c.nof_logged_dci;
  recent_dl_retx_t_us = if d.dl_retx == 1 then d.time_stamp else c.recent_dl_retx_t_us;
  recent_ul_retx_t_us = if d.ul_retx == 1 then d.time_stamp else c.recent_ul_retx_t_us;
  recent_dl_retx_tti = if d.dl_retx == 1 then d.tti else c.recent_dl_retx_tti;
  recent_ul_retx_tti = if d.ul_retx == 1 then d.tti else c.recent_ul_retx_tti;
  dci = set c.dci c.header d;
}

-- The loop of `ca_update_header` that clears its local `ca_ready`.
all_started : List DciCell → Bool
all_started [] = true
all_started (c ∷ cs) = not (c.header == 0) && all_started cs

-- The three assignments at the end of `ca_update_header`.
set_window : Option ℕ → Option ℕ → Option ℕ → DciCa → Option DciCa
set_window (some min_tti) (some greatest) (some mean) q =
    some (record q { header = wrap_tti min_tti; tail = wrap_tti (greatest + 1); curr_time = mean })
set_window _ _ _ q = none

-- What a read of `dci[-1]` gives is not determined by the program: it is a parameter.
module _ (wild : UeDci) where
  -- `q->dci[(q->header - 1) % NOF_LOG_DCI]`: C's `%` leaves -1 for a header of 0.
  abbrev pub newest_at : ℕ → List UeDci → UeDci
  newest_at zero dci = wild
  newest_at (suc k) dci = get_or dci (k % nof_log_dci) zero_ue_dci

  abbrev pub newest : DciCell → UeDci
  newest q = newest_at q.header q.dci

  -- The branch for `q->ca_ready`; with no cell the vectors are empty, and the mean divides by zero.
  pub ca_window : List DciCell → DciCa → Option DciCa
  ca_window cells q =
      set_window (min_in_array_uint16_v (unwrap_tti_array (map (λ c. (newest c).tti) cells)))
        (max_in_array_uint16_v (map find_dci_cell_tail cells))
        (mean_array_uint64 (map (λ c. (newest c).time_stamp) cells)) q

  update_with : Option (List DciCell) → DciCa → Option DciCa
  update_with none q = none
  update_with (some cells) q =
      if q.ca_ready
      then ca_window cells q
      else some (if all_started cells then record q { ca_ready = true } else q)

  pub ca_update_header : DciCa → Option DciCa
  ca_update_header q = update_with (cells_in_use q) q

  -- A `cell_idx` past the array is an access outside it: `none`.
  pub ca_insert : DciCa → UeDci → ℕ → Option DciCa
  ca_insert q d cell_idx = elim (get_elem? q.cell_dci cell_idx) [
    | none ↦ none
    | some c ↦ ca_update_header (record q { cell_dci = set q.cell_dci cell_idx (cell_insert c d) })
  ]

-- The loop of `ngscope_dci_new_dl_reTx` and `ngscope_dci_new_ul_reTx` over the times that the cells
-- hold and those that the caller saw last; a cell's first time is taken over, and is not new.
unfoldable pub new_retx_loop : List ℕ → List ℕ → Bool × List ℕ
new_retx_loop [] seen = (false, seen)
new_retx_loop (recent ∷ recents) [] = (false, [])
new_retx_loop (recent ∷ recents) (s ∷ seen) =
    let (found, rest) = new_retx_loop recents seen in
    if s == 0
    then (found, (if recent == 0 then s else recent) ∷ rest)
    else if not (s == recent)
    then (true, s ∷ seen)
    else (found, s ∷ rest)

unfoldable pub new_dl_retx : DciCa → List ℕ → Option (Bool × List ℕ)
new_dl_retx q seen =
    Option.map (λ cells. new_retx_loop (map (λ c. c.recent_dl_retx_t_us) cells) seen)
      (cells_in_use q)

unfoldable pub new_ul_retx : DciCa → List ℕ → Option (Bool × List ℕ)
new_ul_retx q seen =
    Option.map (λ cells. new_retx_loop (map (λ c. c.recent_ul_retx_t_us) cells) seen)
      (cells_in_use q)

unfoldable pub copy_loop : List ℕ → List ℕ → List ℕ
copy_loop [] seen = seen
copy_loop (recent ∷ recents) [] = []
copy_loop (recent ∷ recents) (s ∷ seen) = recent ∷ copy_loop recents seen

unfoldable pub copy_dl_retx : DciCa → List ℕ → Option (List ℕ)
copy_dl_retx q seen =
    Option.map (λ cells. copy_loop (map (λ c. c.recent_dl_retx_t_us) cells) seen) (cells_in_use q)

unfoldable pub copy_ul_retx : DciCa → List ℕ → Option (List ℕ)
copy_ul_retx q seen =
    Option.map (λ cells. copy_loop (map (λ c. c.recent_ul_retx_t_us) cells) seen) (cells_in_use q)
