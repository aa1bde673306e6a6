-- ===== src/Client/Again.antt =====
-- Copying the control messages a second time.
use copa_new.Prelude.{◌≡◌, refl, sym, ap, ap₂, ◌∙◌, List, ℕ, Bool, false, ◌||◌, Option, none, some}
use mathlib.Core.Option.{some-injective}
use copa_new.Dci.{DciCa, DciCell, cells_in_use, new_dl_retx, new_ul_retx}
use copa_new.Dci.Fresh.{new_dl_retx-again, new_ul_retx-again}
use copa_new.Extract.{DciArrays}
use copa_new.Client.Handling.{
  Copied, copied, copy_new, finish_copy, copy_dci_data_from_struct, extract_if, copy_dl_if,
  copy_ul_if,
}

-- A copy that succeeds has come through each of its steps.
record IsFinished (nof_cell : ℕ) (new_dl new_ul : Bool) (arrays : Option (List DciArrays))
    (dl ul : Option (List ℕ)) (r : Copied) : Type 0 where
  arrays_eq : arrays ≡ some r.dci_all
  dl_eq : dl ≡ some r.recent_dl_retx_us
  ul_eq : ul ≡ some r.recent_ul_retx_us
  nof_cell_eq : r.nof_cell ≡ nof_cell

finish_copy-IsFinished :
    (nof_cell : ℕ) (new_dl new_ul : Bool) (arrays : Option (List DciArrays))
    (dl ul : Option (List ℕ)) (b : Bool) (r : Copied)
    → finish_copy nof_cell new_dl new_ul arrays dl ul ≡ some (b, r)
    → IsFinished nof_cell new_dl new_ul arrays dl ul r
unfolding finish_copy
finish_copy-IsFinished n nd nu none dl ul b r h = cc
finish_copy-IsFinished n nd nu (some a) none ul b r h = cc
finish_copy-IsFinished n nd nu (some a) (some dl) none b r h = cc
finish_copy-IsFinished n nd nu (some a) (some dl) (some ul) b r h =
    let e : copied n nd nu a dl ul ≡ r = ap (λ p. p.1) (some-injective _ _ h) in
    record {
      arrays_eq = ap (λ c. some c.dci_all) e;
      dl_eq = ap (λ c. some c.recent_dl_retx_us) e;
      ul_eq = ap (λ c. some c.recent_ul_retx_us) e;
      nof_cell_eq = sym (ap (λ c. c.nof_cell) e);
    }

copy_new-again :
    (q : DciCa) (cells : List DciCell) (dci_all : List DciArrays) (dl ul : List ℕ)
    (tested_dl tested_ul : Option (Bool × List ℕ)) (b : Bool) (r : Copied)
    → cells_in_use q ≡ some cells
    → new_dl_retx q dl ≡ tested_dl
    → new_ul_retx q ul ≡ tested_ul
    → copy_new q dci_all tested_dl tested_ul ≡ some (b, r)
    → (new_dl_retx q r.recent_dl_retx_us ≡ some (false, r.recent_dl_retx_us))
      × (new_ul_retx q r.recent_ul_retx_us ≡ some (false, r.recent_ul_retx_us))
      × (r.nof_cell ≡ q.nof_cell)
unfolding copy_new copy_dl_if copy_ul_if
copy_new-again q cells dci_all dl ul none tested_ul b r e n m h = cc
copy_new-again q cells dci_all dl ul (some (nd, sd)) none b r e n m h = cc
copy_new-again q cells dci_all dl ul (some (nd, sd)) (some (nu, su)) b r e n m h =
    let f =
      finish_copy-IsFinished q.nof_cell nd nu (extract_if (nd || nu) q dci_all) (copy_dl_if nd q sd)
        (copy_ul_if nu q su) b r h in
    (
      new_dl_retx-again q cells dl sd r.recent_dl_retx_us nd e n f.dl_eq,
      new_ul_retx-again q cells ul su r.recent_ul_retx_us nu e m f.ul_eq,
      f.nof_cell_eq,
    )

-- While the rings stay as they are, a second copy finds no new retransmission, neither for the
-- downlink nor for the uplink, and changes neither the arrays nor the times that were seen.
pub copy_dci_data_from_struct-again :
    (q : DciCa) (cells : List DciCell) (dci_all : List DciArrays) (dl ul : List ℕ) (b : Bool)
    (r : Copied)
    → cells_in_use q ≡ some cells
    → copy_dci_data_from_struct q dci_all dl ul ≡ some (b, r)
    → copy_dci_data_from_struct q r.dci_all r.recent_dl_retx_us r.recent_ul_retx_us
      ≡ some (false, record r { new_dl_retx_v = false; new_ul_retx_v = false })
unfolding copy_dci_data_from_struct copy_new finish_copy extract_if copy_dl_if copy_ul_if
copy_dci_data_from_struct-again q cells dci_all dl ul b r e h =
    let (n, m, c) =
      copy_new-again q cells dci_all dl ul (new_dl_retx q dl) (new_ul_retx q ul) b r e refl refl
        h in
    ap₂ (copy_new q r.dci_all) n m
    ∙ ap (λ k. some (false, copied k false false r.dci_all r.recent_dl_retx_us r.recent_ul_retx_us))
        (sym c)
