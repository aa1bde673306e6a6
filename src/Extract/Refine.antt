-- ===== src/Extract/Refine.antt =====
-- The arrays that the extraction fills are the ring's messages, field by field.
use copa_new.Prelude.{
  ℕ, ◌+◌, ◌≤◌, ◌<◌, ◌≡◌, refl, sym, ap, ◌∙◌, subst, inl, inr, List, map, some, length,
  length-replicate, replicate, ◌%◌, get_elem?, take, lt_or_le, lt→ltb, le→ltb, eq→==, arith,
}
use mathlib.Core.Option
use copa_new.Dci.{UeDci, DciCell, DciCa, nof_log_dci, zero_ue_dci}
use copa_new.Dci.Ring.{CellIsValid, contents, length-window}
use copa_new.Extract.{
  LinkDci, DciArrays, zero_arrays, zero_link, put_dci, put_link, start_arrays, extract_loop,
  extract_cell, extract_single_cell,
}
use copa_new.Extract.Reads.{reads_filling, reads_full_at}
use copa_new.Extract.Fill.{
  fill_from, extract_loop-fill_from, fill-field, fill-retx, retransmissions,
}

-- One link of the arrays holds these transport block sizes and retransmissions.
pub record IsLinkOf (ds : List UeDci) (tbs retx : UeDci → ℕ) (l : LinkDci) : Type 0 where
  pub tbs_eq : take (length ds) l.tbs ≡ map tbs ds
  pub retx_eq : take (length ds) l.retx ≡ map retx ds
  pub count : l.nof_retx ≡ length (retransmissions retx ds)
  pub times : take l.nof_retx l.retx_t_us ≡ map (λ d. d.time_stamp) (retransmissions retx ds)
  pub ttis : take l.nof_retx l.retx_tti ≡ map (λ d. d.tti) (retransmissions retx ds)

-- The arrays hold these messages, in this order.
pub record IsArraysOf (ds : List UeDci) (q : DciArrays) : Type 0 where
  pub times : take (length ds) q.time_stamp_us ≡ map (λ d. d.time_stamp) ds
  pub ttis : take (length ds) q.tti ≡ map (λ d. d.tti) ds
  pub dl : IsLinkOf ds (λ d. d.dl_tbs) (λ d. d.dl_retx) q.dl_dci
  pub ul : IsLinkOf ds (λ d. d.ul_tbs) (λ d. d.ul_retx) q.ul_dci

-- Arrays of 1000 places with no retransmission yet.
record IsFresh (q : DciArrays) : Type 0 where
  times : length q.time_stamp_us ≡ nof_log_dci
  ttis : length q.tti ≡ nof_log_dci
  dl_tbs : length q.dl_dci.tbs ≡ nof_log_dci
  dl_retx : length q.dl_dci.retx ≡ nof_log_dci
  dl_count : q.dl_dci.nof_retx ≡ 0
  dl_times : length q.dl_dci.retx_t_us ≡ nof_log_dci
  dl_ttis : length q.dl_dci.retx_tti ≡ nof_log_dci
  ul_tbs : length q.ul_dci.tbs ≡ nof_log_dci
  ul_retx : length q.ul_dci.retx ≡ nof_log_dci
  ul_count : q.ul_dci.nof_retx ≡ 0
  ul_times : length q.ul_dci.retx_t_us ≡ nof_log_dci
  ul_ttis : length q.ul_dci.retx_tti ≡ nof_log_dci

start_arrays-IsFresh : (ca : DciCa) (c : DciCell) → IsFresh (start_arrays ca c)
unfolding start_arrays zero_arrays zero_link
start_arrays-IsFresh ca c =
    let size : (b : ℕ) → length (replicate nof_log_dci b) ≡ nof_log_dci =
      λ b. length-replicate nof_log_dci b in
    record {
      times = size 0;
      ttis = size 0;
      dl_tbs = size 0;
      dl_retx = size 0;
      dl_count = refl;
      dl_times = size 0;
      dl_ttis = size 0;
      ul_tbs = size 0;
      ul_retx = size 0;
      ul_count = refl;
      ul_times = size 0;
      ul_ttis = size 0;
    }

fill-IsArraysOf :
    (ds : List UeDci) (q : DciArrays)
    → IsFresh q
    → length ds ≤ nof_log_dci
    → IsArraysOf ds (fill_from 0 ds q)
unfolding put_dci put_link
fill-IsArraysOf ds q f h =
    let dl_t =
      fill-retx (λ r. r.dl_dci) (λ l. l.retx_t_us) (λ d. d.dl_retx) (λ d. d.time_stamp)
        (λ r i d. refl) (λ r i d. refl) ds q f.dl_count (omega (arith, f.dl_times)) in
    let dl_i =
      fill-retx (λ r. r.dl_dci) (λ l. l.retx_tti) (λ d. d.dl_retx) (λ d. d.tti) (λ r i d. refl)
        (λ r i d. refl) ds q f.dl_count (omega (arith, f.dl_ttis)) in
    let ul_t =
      fill-retx (λ r. r.ul_dci) (λ l. l.retx_t_us) (λ d. d.ul_retx) (λ d. d.time_stamp)
        (λ r i d. refl) (λ r i d. refl) ds q f.ul_count (omega (arith, f.ul_times)) in
    let ul_i =
      fill-retx (λ r. r.ul_dci) (λ l. l.retx_tti) (λ d. d.ul_retx) (λ d. d.tti) (λ r i d. refl)
        (λ r i d. refl) ds q f.ul_count (omega (arith, f.ul_ttis)) in
    record {
      times =
          fill-field (λ r. r.time_stamp_us) (λ d. d.time_stamp) (λ r i d. refl) ds q
            (omega (arith, f.times));
      ttis = fill-field (λ r. r.tti) (λ d. d.tti) (λ r i d. refl) ds q (omega (arith, f.ttis));
      dl = record {
        tbs_eq =
            fill-field (λ r. r.dl_dci.tbs) (λ d. d.dl_tbs) (λ r i d. refl) ds q
              (omega (arith, f.dl_tbs));
        retx_eq =
            fill-field (λ r. r.dl_dci.retx) (λ d. d.dl_retx) (λ r i d. refl) ds q
              (omega (arith, f.dl_retx));
        count = dl_t.0;
        times = dl_t.1;
        ttis = dl_i.1;
      };
      ul = record {
        tbs_eq =
            fill-field (λ r. r.ul_dci.tbs) (λ d. d.ul_tbs) (λ r i d. refl) ds q
              (omega (arith, f.ul_tbs));
        retx_eq =
            fill-field (λ r. r.ul_dci.retx) (λ d. d.ul_retx) (λ r i d. refl) ds q
              (omega (arith, f.ul_retx));
        count = ul_t.0;
        times = ul_t.1;
        ttis = ul_i.1;
      };
    }

extract_cell_filling :
    (c : DciCell) (q : DciArrays)
    → c.nof_logged_dci < nof_log_dci
    → extract_cell c q ≡ extract_loop c.nof_logged_dci 0 (λ i. i) c q
unfolding extract_cell
extract_cell_filling c q lt = rw (lt→ltb c.nof_logged_dci nof_log_dci lt)

extract_cell_full :
    (c : DciCell) (q : DciArrays)
    → c.nof_logged_dci ≡ nof_log_dci
    → extract_cell c q ≡ extract_loop c.nof_logged_dci 0 (λ i. (c.header + i) % nof_log_dci) c q
unfolding extract_cell
extract_cell_full c q e =
    rw (le→ltb c.nof_logged_dci nof_log_dci (omega arith), eq→== c.nof_logged_dci nof_log_dci e)

-- Both branches read the contents of a valid ring.
extract_cell-fill_from :
    (c : DciCell) (q : DciArrays) → CellIsValid c → extract_cell c q ≡ fill_from 0 (contents c) q
extract_cell-fill_from c q v = elim (lt_or_le c.nof_logged_dci nof_log_dci) [
  | inl lt ↦
      extract_cell_filling c q lt
      ∙ extract_loop-fill_from c.nof_logged_dci 0 (λ i. i) c q
      ∙ ap (λ ds. fill_from 0 ds q)
          (reads_filling nof_log_dci c.dci zero_ue_dci c.header c.nof_logged_dci v lt)
  | inr ge ↦
      extract_cell_full c q (omega (arith, v.nof_in))
      ∙ extract_loop-fill_from c.nof_logged_dci 0 (λ i. (c.header + i) % nof_log_dci) c q
      ∙ ap (λ ds. fill_from 0 ds q)
          (reads_full_at nof_log_dci c.dci zero_ue_dci c.header c.nof_logged_dci v ge)
]

-- Extracting a cell with a valid ring returns arrays that hold the ring's messages, oldest first,
-- and the times and TTIs of its retransmissions in both directions.
pub extract_single_cell-IsArraysOf :
    (ca : DciCa) (idx : ℕ) (c : DciCell)
    → get_elem? ca.cell_dci idx ≡ some c
    → CellIsValid c
    → (q : DciArrays) × (extract_single_cell ca idx ≡ some q) × IsArraysOf (contents c) q
unfolding extract_single_cell
extract_single_cell-IsArraysOf ca idx c e v = (
  extract_cell c (start_arrays ca c),
  ap (Option.map (λ x. extract_cell x (start_arrays ca x))) e,
  subst (IsArraysOf (contents c)) (sym (extract_cell-fill_from c (start_arrays ca c) v)) (
      fill-IsArraysOf (contents c) (start_arrays ca c) (start_arrays-IsFresh ca c)
        (length-window nof_log_dci v)),
)
