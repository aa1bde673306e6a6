-- ===== src/Dci/Header.antt =====
-- `ca_update_header` with one cell in use: what a message makes of the aggregated header.
use copa_new.Prelude.{
  ℕ, suc, ◌+◌, ◌%◌, ◌<◌, ◌≡◌, refl, ap, ◌∙◌, ◌⊎◌, inl, inr, List, [], ◌∷◌, true, false, Bool-cases,
  not, ◌&&◌, if◌then◌else◌, ◌==◌, Option, some, length, lt_or_le, le→leb, arith,
}
use copa_new.Arrays.{min_in_array_uint16_v}
use copa_new.Tti.{wrap_tti, unwrap_tti_array}
use copa_new.Tti.Unwrap.{unwrap_tti_array_one}
use copa_new.Dci.{
  DciCell, DciCa, UeDci, nof_log_dci, cell_insert, newest, ca_window, ca_insert, ca_update_header,
  update_with, all_started, cells_in_use,
}
use copa_new.Dci.Ring.{CellIsValid}
use copa_new.Dci.Window.{newest-cell_insert, ca_window_parts}

-- A state with one cell in use, whatever else it holds.
abbrev pub one_cell : DciCa → DciCell → List DciCell → DciCa
one_cell q c others = record q { cell_dci = c ∷ others; nof_cell = 1 }

-- A message for the one cell of a state that is not ready for aggregation.
HeaderStays : DciCa → DciCell → DciCa → Type 0
HeaderStays q c q' =
    (q'.header ≡ q.header)
    × (((c.header + 1 < nof_log_dci) × (q'.ca_ready ≡ true))
        ⊎ ((c.header + 1 ≡ nof_log_dci) × (q'.ca_ready ≡ false)))

module _ (wild : UeDci) where
  abbrev update_waiting : List DciCell → DciCa → Option DciCa
  update_waiting cells q = some (if all_started cells then record q { ca_ready = true } else q)

  min_of_one : (x : ℕ) → min_in_array_uint16_v (unwrap_tti_array (x ∷ [])) ≡ some x
  unfolding min_in_array_uint16_v
  min_of_one x = rw (unwrap_tti_array_one x) (ground arith)

  insert_one :
      (q : DciCa) (c : DciCell) (others : List DciCell) (d : UeDci)
      → ca_insert wild (one_cell q c others) d 0
        ≡ update_with wild (some (cell_insert c d ∷ [])) (one_cell q (cell_insert c d) others)
  unfolding ca_insert ca_update_header update_with
  insert_one q c others d =
      let q' = one_cell q (cell_insert c d) others in
      let e : cells_in_use q' ≡ some (cell_insert c d ∷ []) =
        rw (le→leb 1 (suc (length others)) (omega arith)) in
      ap (λ o. update_with wild o q') e

  -- A message for the one cell of a state that is ready, and of any state.
  HeaderMoves : DciCa → DciCell → UeDci → DciCa → Type 0
  HeaderMoves q c d q' =
      (q'.ca_ready ≡ true)
      × (((c.header + 1 < nof_log_dci) × (q'.header ≡ wrap_tti d.tti))
          ⊎ ((c.header + 1 ≡ nof_log_dci) × (q'.header ≡ wrap_tti wild.tti)))

  pub HeaderIsSet : DciCa → DciCell → UeDci → DciCa → Type 0
  HeaderIsSet q c d q' =
      ((q.ca_ready ≡ true) × HeaderMoves q c d q') ⊎ ((q.ca_ready ≡ false) × HeaderStays q c q')

  update_when_ready :
      (cells : List DciCell) (q : DciCa)
      → q.ca_ready ≡ true
      → update_with wild (some cells) q ≡ ca_window wild cells q
  unfolding update_with
  update_when_ready cells q ready =
      ap (λ b. if b then ca_window wild cells q else update_waiting cells q) ready

  update_when_not_ready :
      (cells : List DciCell) (q : DciCa)
      → q.ca_ready ≡ false
      → update_with wild (some cells) q ≡ update_waiting cells q
  unfolding update_with
  update_when_not_ready cells q waits =
      ap (λ b. if b then ca_window wild cells q else update_waiting cells q) waits

  insert_when_ready :
      (q : DciCa) (c : DciCell) (others : List DciCell) (d : UeDci)
      → CellIsValid c
      → q.ca_ready ≡ true
      → (q' : DciCa) × (update_with wild
            (some (cell_insert c d ∷ []))
            (one_cell q (cell_insert c d) others)
          ≡ some q')
        × HeaderMoves q c d q'
  unfolding HeaderMoves
  insert_when_ready q c others d v ready =
      let c' = cell_insert c d in
      let (m, g, mean, em, eg, eq) = ca_window_parts wild c' [] (one_cell q c' others) in
      let same : m ≡ (newest wild c').tti = cc (em, min_of_one (newest wild c').tti) in
      (
        record (one_cell q c' others) {
          header = wrap_tti m;
          tail = wrap_tti (g + 1);
          curr_time = mean;
        },
        update_when_ready (c' ∷ []) (one_cell q c' others) ready ∙ eq,
        (
          ready,
          elim (newest-cell_insert wild c d v) [
            | inl (lt, e) ↦ inl (lt, ap wrap_tti (same ∙ ap (λ (x : UeDci). x.tti) e))
            | inr (full, e) ↦ inr (full, ap wrap_tti (same ∙ ap (λ (x : UeDci). x.tti) e))
          ],
        ),
      )

  insert_when_not_ready :
      (q : DciCa) (c : DciCell) (others : List DciCell) (d : UeDci)
      → CellIsValid c
      → q.ca_ready ≡ false
      → (q' : DciCa) × (update_with wild
            (some (cell_insert c d ∷ []))
            (one_cell q (cell_insert c d) others)
          ≡ some q')
        × HeaderStays q c q'
  unfolding HeaderStays all_started cell_insert
  insert_when_not_ready q c others d v waits =
      let c' = cell_insert c d in
      elim (lt_or_le (c.header + 1) nof_log_dci) [
        | inl lt ↦
            let e : ((c.header + 1) % nof_log_dci == 0) ≡ false = ground arith in
            (
              record (one_cell q (cell_insert c d) others) { ca_ready = true },
              update_when_not_ready (c' ∷ []) (one_cell q c' others) waits
                  ∙ ap
                      (λ b. some (
                        if not b && true
                        then record (one_cell q c' others) { ca_ready = true }
                        else one_cell q c' others))
                      e,
              (refl, inl (lt, refl)),
            )
        | inr ge ↦
            let full : c.header + 1 ≡ nof_log_dci = omega (arith, v.header_in) in
            let e : ((c.header + 1) % nof_log_dci == 0) ≡ true = ground arith in
            (
              one_cell q (cell_insert c d) others,
              update_when_not_ready (c' ∷ []) (one_cell q c' others) waits
                  ∙ ap
                      (λ b. some (
                        if not b && true
                        then record (one_cell q c' others) { ca_ready = true }
                        else one_cell q c' others))
                      e,
              (refl, inr (full, waits)),
            )
      ]

  -- A message for the first cell, in any state that has one cell in use, whose ring is valid. If
  -- carrier aggregation is ready, it stays so, and the aggregated header becomes the message's TTI;
  -- but if the message fills the last place of the ring, the TTI of what stands before the array. If
  -- it is not ready, as behind the start, the aggregated header stays, and carrier aggregation
  -- becomes ready, but not if the message fills the last place of the ring.
  pub header-ca_insert_one :
      (q : DciCa) (c : DciCell) (others : List DciCell) (d : UeDci)
      → CellIsValid c
      → (q' : DciCa) × (ca_insert wild (one_cell q c others) d 0 ≡ some q') × HeaderIsSet q c d q'
  unfolding HeaderIsSet
  header-ca_insert_one q c others d v = elim (Bool-cases q.ca_ready) [
    | inl ready ↦
        let (q', e, h) = insert_when_ready q c others d v ready in
        (q', insert_one q c others d ∙ e, inl (ready, h))
    | inr waits ↦
        let (q', e, h) = insert_when_not_ready q c others d v waits in
        (q', insert_one q c others d ∙ e, inr (waits, h))
  ]
