-- ===== src/Dci/Fresh.antt =====
-- Detecting a new retransmission: `ngscope_dci_new_dl_reTx` and `ngscope_dci_copy_dl_reTx`.
use copa_new.Prelude.{
  ℕ, zero, suc, ◌≡◌, refl, sym, ap, subst, ◌∙◌, ◌≢◌, ◌↔◌, ◌⊎◌, inl, inr, List, [], ◌∷◌, map, Bool,
  true, false, Option, some, get_elem?, arith, Bool-cases, ◌==◌, if◌then◌else◌,
}
use mathlib.Core.Option
use mathlib.Core.Option.{some-injective}
use copa_new.Dci.{
  DciCa, DciCell, cells_in_use, new_retx_loop, copy_loop, new_dl_retx, new_ul_retx, copy_dl_retx,
  copy_ul_retx,
}

-- Some cell has a time that was seen before and is no longer the one that the cell holds.
abbrev pub HasNew : List ℕ → List ℕ → Type 0
HasNew recents seen =
    (k : ℕ) × (r : ℕ) × (s : ℕ) × (get_elem? recents k ≡ some r)
    × (get_elem? seen k ≡ some s)
    × (s ≢ 0)
    × (s ≢ r)

new_retx_loop-HasNew :
    (recents seen : List ℕ) → (new_retx_loop recents seen).0 ≡ true → HasNew recents seen
unfolding new_retx_loop
new_retx_loop-HasNew [] seen h = cc
new_retx_loop-HasNew (r ∷ recents) [] h = cc
new_retx_loop-HasNew (r ∷ recents) (s ∷ seen) h = elim (new_here r s recents seen h) [
  | inl (nz, ne) ↦ (0, r, s, refl, refl, nz, ne)
  | inr rest ↦
      let (k, r', s', er, es, nz, ne) = new_retx_loop-HasNew recents seen rest in
      (suc k, r', s', er, es, nz, ne)
]
  where
    new_here :
        (r s : ℕ) (recents seen : List ℕ)
        → (new_retx_loop (r ∷ recents) (s ∷ seen)).0 ≡ true
        → ((s ≢ 0) × (s ≢ r)) ⊎ ((new_retx_loop recents seen).0 ≡ true)
    new_here r s recents seen h = ground arith

new_retx_loop-true :
    (recents seen : List ℕ) (k r s : ℕ)
    → get_elem? recents k ≡ some r
    → get_elem? seen k ≡ some s
    → s ≢ 0
    → s ≢ r
    → (new_retx_loop recents seen).0 ≡ true
unfolding new_retx_loop
new_retx_loop-true [] seen k r s er es nz ne = cc
new_retx_loop-true (x ∷ recents) [] k r s er es nz ne = cc
new_retx_loop-true (x ∷ recents) (y ∷ seen) zero r s er es nz ne = ground arith
new_retx_loop-true (x ∷ recents) (y ∷ seen) (suc k) r s er es nz ne =
    ground (arith, new_retx_loop-true recents seen k r s er es nz ne)

new-copy :
    (recents seen : List ℕ)
    → new_retx_loop recents (copy_loop recents seen) ≡ (false, copy_loop recents seen)
unfolding new_retx_loop copy_loop
new-copy [] seen = refl
new-copy (r ∷ recents) [] = refl
new-copy (r ∷ recents) (s ∷ seen) = rw (new-copy recents seen) (ground arith)

-- The times that the cells in use hold.
abbrev pub dl_times : List DciCell → List ℕ
dl_times = map (λ c. c.recent_dl_retx_t_us)

abbrev pub ul_times : List DciCell → List ℕ
ul_times = map (λ c. c.recent_ul_retx_t_us)

-- When the cells in use exist, `new_dl_retx` returns, and it returns true exactly when some cell in
-- use has a time other than the one seen last, which must not be 0.
pub new_dl_retx_iff :
    (q : DciCa) (cells : List DciCell) (seen : List ℕ)
    → cells_in_use q ≡ some cells
    → (found : Bool) × (seen' : List ℕ) × (new_dl_retx q seen ≡ some (found, seen'))
      × ((found ≡ true) ↔ HasNew (dl_times cells) seen)
unfolding new_dl_retx
new_dl_retx_iff q cells seen e = (
  (new_retx_loop (dl_times cells) seen).0,
  (new_retx_loop (dl_times cells) seen).1,
  ap (Option.map (λ cells. new_retx_loop (dl_times cells) seen)) e,
  (
    new_retx_loop-HasNew (dl_times cells) seen,
    λ (k, r, s, er, es, nz, ne). new_retx_loop-true (dl_times cells) seen k r s er es nz ne,
  ),
)

-- After the times are copied, the same state holds no new retransmission, for the downlink and for
-- the uplink, and the copied times stay as they are.
pub new-copy_retx :
    (q : DciCa) (cells : List DciCell) (seen : List ℕ)
    → cells_in_use q ≡ some cells
    → (dl ul : List ℕ) → copy_dl_retx q seen ≡ some dl
    → copy_ul_retx q seen ≡ some ul
    → (new_dl_retx q dl ≡ some (false, dl)) × (new_ul_retx q ul ≡ some (false, ul))
unfolding new_dl_retx new_ul_retx copy_dl_retx copy_ul_retx
new-copy_retx q cells seen e dl ul ed eu =
    let dl_eq : copy_loop (dl_times cells) seen ≡ dl =
      some-injective _ _ (sym (ap (Option.map (λ cs. copy_loop (dl_times cs) seen)) e) ∙ ed) in
    let ul_eq : copy_loop (ul_times cells) seen ≡ ul =
      some-injective _ _ (sym (ap (Option.map (λ cs. copy_loop (ul_times cs) seen)) e) ∙ eu) in
    (
      ap (Option.map (λ cs. new_retx_loop (dl_times cs) dl)) e
          ∙ ap some (
              subst (λ us. new_retx_loop (dl_times cells) us ≡ (false, us)) dl_eq
                (new-copy _ seen)),
      ap (Option.map (λ cs. new_retx_loop (ul_times cs) ul)) e
          ∙ ap some (
              subst (λ us. new_retx_loop (ul_times cells) us ≡ (false, us)) ul_eq
                (new-copy _ seen)),
    )

-- The test without a new time sets the times so that it finds nothing the next time.
new_retx_loop-settles :
    (us seen : List ℕ)
    → (new_retx_loop us seen).0 ≡ false
    → new_retx_loop us (new_retx_loop us seen).1 ≡ (false, (new_retx_loop us seen).1)
unfolding new_retx_loop
new_retx_loop-settles [] seen h = refl
new_retx_loop-settles (u ∷ us) [] h = refl
new_retx_loop-settles (u ∷ us) (s ∷ seen) h =
    let k : (new_retx_loop us seen).0 ≡ false = ground (arith, h) in
    let again = new_retx_loop-settles us seen k in
    elim (Bool-cases (s == 0)) [
      | inl e ↦ elim (Bool-cases (u == 0)) [
        | inl z ↦ rw (e, z, e, again) refl
        | inr n ↦ rw (e, n, n, again) (ground arith)
      ]
      | inr n ↦ elim (Bool-cases (s == u)) [
        | inl e ↦ rw (n, e, n, again, e) refl
        | inr d ↦ let f : true ≡ false = ground (arith, h) in absurd (ground arith)
      ]
    ]

keep-settles :
    (us seen seen' kept : List ℕ) (b : Bool)
    → new_retx_loop us seen ≡ (b, seen')
    → (if b then copy_loop us seen' else seen') ≡ kept
    → new_retx_loop us kept ≡ (false, kept)
keep-settles us seen seen' kept true n k =
    subst (λ t. new_retx_loop us t ≡ (false, t)) k (new-copy us seen')
keep-settles us seen seen' kept false n k =
    subst (λ t. new_retx_loop us t ≡ (false, t)) (ap (λ p. p.1) n ∙ k)
      (new_retx_loop-settles us seen (ap (λ p. p.0) n))

keep_if-settles :
    (us seen seen' kept : List ℕ) (b : Bool) (copied : Option (List ℕ))
    → copied ≡ some (copy_loop us seen')
    → new_retx_loop us seen ≡ (b, seen')
    → (if b then copied else some seen') ≡ some kept
    → new_retx_loop us kept ≡ (false, kept)
keep_if-settles us seen seen' kept true copied e n k =
    keep-settles us seen seen' kept true n (some-injective _ _ (sym e ∙ k))
keep_if-settles us seen seen' kept false copied e n k =
    keep-settles us seen seen' kept false n (some-injective _ _ k)

-- The times that the caller keeps after a test: those of the cells if there is a new one, and
-- otherwise those that the test has set. The test then finds nothing.
pub new_dl_retx-again :
    (q : DciCa) (cells : List DciCell) (seen seen' kept : List ℕ) (b : Bool)
    → cells_in_use q ≡ some cells
    → new_dl_retx q seen ≡ some (b, seen')
    → (if b then copy_dl_retx q seen' else some seen') ≡ some kept
    → new_dl_retx q kept ≡ some (false, kept)
unfolding new_dl_retx copy_dl_retx
new_dl_retx-again q cells seen seen' kept b e n k =
    let us : List ℕ = dl_times cells in
    ap (Option.map (λ cs. new_retx_loop (dl_times cs) kept)) e
    ∙ ap some (
        keep_if-settles us seen seen' kept b (copy_dl_retx q seen')
          (ap (Option.map (λ cs. copy_loop (dl_times cs) seen')) e)
          (some-injective _ _
            (sym (ap (Option.map (λ cs. new_retx_loop (dl_times cs) seen)) e) ∙ n))
          k)

pub new_ul_retx-again :
    (q : DciCa) (cells : List DciCell) (seen seen' kept : List ℕ) (b : Bool)
    → cells_in_use q ≡ some cells
    → new_ul_retx q seen ≡ some (b, seen')
    → (if b then copy_ul_retx q seen' else some seen') ≡ some kept
    → new_ul_retx q kept ≡ some (false, kept)
unfolding new_ul_retx copy_ul_retx
new_ul_retx-again q cells seen seen' kept b e n k =
    let us : List ℕ = ul_times cells in
    ap (Option.map (λ cs. new_retx_loop (ul_times cs) kept)) e
    ∙ ap some (
        keep_if-settles us seen seen' kept b (copy_ul_retx q seen')
          (ap (Option.map (λ cs. copy_loop (ul_times cs) seen')) e)
          (some-injective _ _
            (sym (ap (Option.map (λ cs. new_retx_loop (ul_times cs) seen)) e) ∙ n))
          k)
