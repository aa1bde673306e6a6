-- ===== src/Extract/Runs.antt =====
-- Runs of the extraction, and its theorems at concrete inputs.
use copa_new.Prelude.{◌≡◌, refl, [], ◌∷◌, none, some}
use copa_new.Dci.{UeDci, DciCell, DciCa, zero_ue_dci, cell_init, ca_init, cell_insert}
use copa_new.Dci.Ring.{contents, cell_init-CellIsValid, cell_insert-CellIsValid}
use copa_new.Extract.{DciArrays, LinkDci, extract_single_cell}
use copa_new.Extract.Refine.{IsArraysOf, extract_single_cell-IsArraysOf}

abbrev message : UeDci
message = record zero_ue_dci { time_stamp = 1000; tti = 7; dl_tbs = 100; dl_retx = 1 }

abbrev one_message : DciCell
one_message = cell_insert cell_init message

abbrev one_message_ca : DciCa
one_message_ca = record ca_init { cell_dci = one_message ∷ [] }

extract_past_the_cells : extract_single_cell one_message_ca 1 ≡ none
unfolding extract_single_cell
extract_past_the_cells = refl

extract_single_cell-IsArraysOf_example :
    (q : DciArrays) × (extract_single_cell one_message_ca 0 ≡ some q)
    × IsArraysOf (contents one_message) q
extract_single_cell-IsArraysOf_example =
    extract_single_cell-IsArraysOf one_message_ca 0 one_message refl
      (cell_insert-CellIsValid cell_init message cell_init-CellIsValid.0)

abbrev two_times : DciArrays
two_times =
    let link : LinkDci = record {
      tbs = 10 ∷ 20 ∷ [];
      retx = 0 ∷ 1 ∷ [];
      retx_rv_flag = [];
      nof_retx = 1;
      retx_t_us = 200 ∷ [];
      retx_tti = 8 ∷ [];
    } in
    record {
      nof_dci = 2;
      ca_header = 9;
      ca_tail = 7;
      time_stamp_us = 100 ∷ 200 ∷ [];
      tti = 7 ∷ 8 ∷ [];
      curr_time = 200;
      dl_dci = link;
      ul_dci = link;
    }
