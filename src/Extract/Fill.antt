-- ===== src/Extract/Fill.antt =====
-- What the extraction writes, given the messages that it reads.
use copa_new.Prelude.{
  ℕ, zero, suc, ◌+◌, ◌≤◌, ◌≡◌, refl, sym, ap, ap₂, ◌∙◌, inl, inr, List, [], ◌∷◌, ◌++◌, append-nil,
  append_assoc, map, length, length-set, set, take, take-set, Bool-cases, ◌==◌, if◌then◌else◌,
  arith,
}
use copa_new.Dci.{UeDci, DciCell, zero_ue_dci}
use copa_new.Extract.{LinkDci, DciArrays, put_dci, extract_single_dci, extract_loop}
use copa_new.Extract.Reads.{reads}

-- The messages written from index `i` on.
pub fill_from : ℕ → List UeDci → DciArrays → DciArrays
fill_from i [] q = q
fill_from i (d ∷ ds) q = fill_from (i + 1) ds (put_dci q i d)

pub extract_loop-fill_from :
    (n i : ℕ) (place : ℕ → ℕ) (c : DciCell) (q : DciArrays)
    → extract_loop n i place c q ≡ fill_from i (reads c.dci zero_ue_dci place n i) q
unfolding extract_loop fill_from extract_single_dci reads
extract_loop-fill_from zero i place c q = refl
extract_loop-fill_from (suc n) i place c q = extract_loop-fill_from n (i + 1) place c _

-- A field that every message sets at its own index ends up as the list of the messages' values.
module _ {ℓ} {B : Type ℓ} (field : DciArrays → List B) (value : UeDci → B)
    (put : (q : DciArrays) (i : ℕ) (d : UeDci)
      → field (put_dci q i d) ≡ set (field q) i (value d)) where
  fill_from-field :
      (i : ℕ) (ds : List UeDci) (q : DciArrays)
      → i + length ds ≤ length (field q)
      → take (i + length ds) (field (fill_from i ds q)) ≡ take i (field q) ++ map value ds
  unfolding fill_from
  fill_from-field i [] q h =
      let e : i + 0 ≡ i = omega arith in rw e (sym (append-nil (take i (field q))))
  fill_from-field i (d ∷ ds) q h =
      let e : i + suc (length ds) ≡ i + 1 + length ds = omega arith in
      let s : i + 1 ≡ suc i = omega arith in
      let size : length (field (put_dci q i d)) ≡ length (field q) =
        ap length (put q i d) ∙ length-set (field q) i (value d) in
      let written : take (i + 1) (field (put_dci q i d)) ≡ take i (field q) ++ (value d ∷ []) =
        ap (take (i + 1)) (put q i d)
        ∙ ap (λ n. take n (set (field q) i (value d))) s
        ∙ take-set (field q) i (value d) (omega arith) in
      ap (λ n. take n (field (fill_from (i + 1) ds (put_dci q i d)))) e
      ∙ fill_from-field (i + 1) ds (put_dci q i d) (omega arith)
      ∙ ap (λ xs. xs ++ map value ds) written
      ∙ append_assoc (take i (field q)) (value d ∷ []) (map value ds)

  pub fill-field :
      (ds : List UeDci) (q : DciArrays)
      → length ds ≤ length (field q)
      → take (length ds) (field (fill_from 0 ds q)) ≡ map value ds
  fill-field ds q h =
      let e : 0 + length ds ≡ length ds = omega arith in
      ap (λ n. take n (field (fill_from 0 ds q))) (sym e) ∙ fill_from-field 0 ds q (omega arith)

-- The messages that a test counts as retransmissions.
pub retransmissions : (UeDci → ℕ) → List UeDci → List UeDci
retransmissions retx [] = []
retransmissions retx (d ∷ ds) =
    if retx d == 0 then retransmissions retx ds else d ∷ retransmissions retx ds

-- A field that is appended to, at the counter, for each retransmission.
module _ (link : DciArrays → LinkDci) (field : LinkDci → List ℕ) (retx value : UeDci → ℕ)
    (count : (q : DciArrays) (i : ℕ) (d : UeDci)
      → (link (put_dci q i d)).nof_retx
        ≡ (if retx d == 0 then (link q).nof_retx else (link q).nof_retx + 1))
    (put : (q : DciArrays) (i : ℕ) (d : UeDci)
      → field (link (put_dci q i d)) ≡ (
          if retx d == 0
          then field (link q)
          else set (field (link q)) (link q).nof_retx (value d))) where
  fill_from-retx :
      (i : ℕ) (ds : List UeDci) (q : DciArrays)
      → (link q).nof_retx + length ds ≤ length (field (link q))
      → let q' = fill_from i ds q in
        ((link q').nof_retx ≡ (link q).nof_retx + length (retransmissions retx ds))
        × (take (link q').nof_retx (field (link q'))
            ≡ take (link q).nof_retx (field (link q)) ++ map value (retransmissions retx ds))
  unfolding fill_from retransmissions
  fill_from-retx i [] q h = (omega arith, sym (append-nil _))
  fill_from-retx i (d ∷ ds) q h = elim (Bool-cases (retx d == 0)) [
    | inl no_retx ↦
        let n : (link (put_dci q i d)).nof_retx ≡ (link q).nof_retx = count q i d ∙ rw no_retx in
        let f : field (link (put_dci q i d)) ≡ field (link q) = put q i d ∙ rw no_retx in
        let (r, t) = fill_from-retx (i + 1) ds (put_dci q i d) (omega (arith, n, ap length f)) in
        rw no_retx (
          r ∙ ap (λ m. m + length (retransmissions retx ds)) n,
          t ∙ ap₂ (λ m xs. take m xs ++ map value (retransmissions retx ds)) n f,
        )
    | inr is_retx ↦
        let n : (link (put_dci q i d)).nof_retx ≡ (link q).nof_retx + 1 =
          count q i d ∙ rw is_retx in
        let f : field (link (put_dci q i d)) ≡ set (field (link q)) (link q).nof_retx (value d) =
          put q i d ∙ rw is_retx in
        let size = ap length f ∙ length-set (field (link q)) (link q).nof_retx (value d) in
        let (r, t) = fill_from-retx (i + 1) ds (put_dci q i d) (omega (arith, n, size)) in
        let s : (link q).nof_retx + 1 ≡ suc (link q).nof_retx = omega arith in
        rw is_retx (
          omega (arith, r, n),
          t
              ∙ ap₂ (λ m xs. take m xs ++ map value (retransmissions retx ds)) (n ∙ s) f
              ∙ ap (λ xs. xs ++ map value (retransmissions retx ds))
                  (take-set (field (link q)) (link q).nof_retx (value d) (omega arith))
              ∙ append_assoc (take (link q).nof_retx (field (link q))) (value d ∷ []) _,
        )
  ]

  pub fill-retx :
      (ds : List UeDci) (q : DciArrays)
      → (link q).nof_retx ≡ 0
      → length ds ≤ length (field (link q))
      → let q' = fill_from 0 ds q in
        ((link q').nof_retx ≡ length (retransmissions retx ds))
        × (take (link q').nof_retx (field (link q')) ≡ map value (retransmissions retx ds))
  fill-retx ds q z h =
      let (r, t) = fill_from-retx 0 ds q (omega arith) in (omega (arith, r), t ∙ rw z)
