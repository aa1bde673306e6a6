-- ===== src/Dci/Runs.antt =====
-- Runs of the ring buffers, and their theorems at concrete inputs.
use copa_new.Prelude.{
  ℕ, ◌≡◌, refl, List, [], ◌∷◌, ◌++◌, true, false, none, some, last, replicate, length-replicate,
  arith,
}
use mathlib.Core.Option
use copa_new.Dci.{
  DciCell, DciCa, UeDci, nof_log_dci, zero_ue_dci, cell_init, cell_insert, ca_init, ca_insert,
  ca_update_header, update_with, new_dl_retx, new_ul_retx, copy_dl_retx, copy_ul_retx, copy_loop,
  all_started,
}
use copa_new.Dci.Ring.{
  CellIsValid, contents, insert_all, cell_init-CellIsValid, contents-insert_all,
}
use copa_new.Dci.Header.{one_cell, HeaderIsSet, header-ca_insert_one}
use copa_new.Dci.Fresh.{new-copy_retx}

abbrev message : ℕ → ℕ → UeDci
message time tti = record zero_ue_dci { time_stamp = time; tti = tti; dl_tbs = 100; dl_retx = 1 }

abbrev messages : List UeDci
messages = message 1000 7 ∷ message 2000 8 ∷ message 3000 9 ∷ []

-- The first message of the only cell makes carrier aggregation ready.
first_insert :
    Option.map (λ (q : DciCa). q.ca_ready) (ca_insert zero_ue_dci ca_init (message 5 7) 0)
    ≡ some true
unfolding ca_insert ca_init cell_init cell_insert ca_update_header update_with all_started
first_insert = refl

insert_past_the_cells : ca_insert zero_ue_dci ca_init (message 5 7) 4 ≡ none
unfolding ca_insert ca_init
insert_past_the_cells = refl

contents-insert_all_example :
    contents (insert_all cell_init messages) ≡ last nof_log_dci (contents cell_init ++ messages)
contents-insert_all_example = contents-insert_all messages cell_init cell_init-CellIsValid.0

-- A ring in which the next message goes to the last place.
abbrev nearly_full : DciCell
nearly_full = record {
  cell_prb = 50;
  header = 999;
  nof_logged_dci = 999;
  recent_dl_retx_t_us = 0;
  recent_ul_retx_t_us = 0;
  recent_dl_retx_tti = 0;
  recent_ul_retx_tti = 0;
  dci = replicate nof_log_dci zero_ue_dci;
}

nearly_full-CellIsValid : CellIsValid nearly_full
nearly_full-CellIsValid = record {
  size = length-replicate nof_log_dci zero_ue_dci;
  header_in = omega arith;
  nof_in = omega arith;
  filling = λ h. refl;
}

abbrev ready : DciCa
ready = record ca_init { ca_ready = true }

header-ca_insert_one_example :
    (q : DciCa) × (ca_insert (message 0 77) (one_cell ready nearly_full []) (message 1 5) 0
      ≡ some q)
    × HeaderIsSet (message 0 77) ready nearly_full (message 1 5) q
header-ca_insert_one_example =
    header-ca_insert_one (message 0 77) ready nearly_full [] (message 1 5) nearly_full-CellIsValid

-- Two cells whose newest messages lie on both sides of the wrap-around.
abbrev cell_at : ℕ → DciCell
cell_at tti = record nearly_full { header = 1; nof_logged_dci = 1; dci = message 1 tti ∷ [] }

abbrev two_cells : DciCa
two_cells = record {
  cell_dci =
      record nearly_full { recent_dl_retx_t_us = 40 }
      ∷ record nearly_full { recent_dl_retx_t_us = 70 }
      ∷ [];
  ca_ready = true;
  header = 0;
  tail = 0;
  nof_cell = 2;
  curr_time = 0;
}

copy_finds_nothing :
    (new_dl_retx two_cells (40 ∷ 70 ∷ 0 ∷ 0 ∷ []) ≡ some (false, 40 ∷ 70 ∷ 0 ∷ 0 ∷ []))
    × (new_ul_retx two_cells (0 ∷ 0 ∷ 0 ∷ 0 ∷ []) ≡ some (false, 0 ∷ 0 ∷ 0 ∷ 0 ∷ []))
unfolding copy_dl_retx copy_ul_retx copy_loop
copy_finds_nothing =
    new-copy_retx two_cells two_cells.cell_dci (0 ∷ 0 ∷ 0 ∷ 0 ∷ []) refl (40 ∷ 70 ∷ 0 ∷ 0 ∷ [])
      (0 ∷ 0 ∷ 0 ∷ 0 ∷ []) refl refl
