-- ===== src/Extract/Reads.antt =====
-- The places that the extraction reads hold the messages of the ring, oldest first.
use copa_new.Prelude.{
  ℕ, zero, suc, ◌+◌, ◌-◌, ◌%◌, ◌≤◌, ◌<◌, ◌≡◌, refl, sym, ap, ap₂, subst, ◌∙◌, List, [], ◌∷◌, ◌++◌,
  length, get_or, take, drop, take-all, lt→ltb, le→ltb, length-drop, arith,
}
use native.Mathlib.Nat.{mod-eq_of_lt, mod-eq-sub-mod}
use copa_new.Dci.Ring.{IsRing, window}

module _ {ℓ} {A : Type ℓ} (buf : List A) (default : A) where
  -- The elements at the places of `i`, `i + 1` and so on.
  unfoldable pub reads : (ℕ → ℕ) → ℕ → ℕ → List A
  reads place zero i = []
  reads place (suc n) i = get_or buf (place i) default ∷ reads place n (i + 1)

  reads-append :
      (place : ℕ → ℕ) (m n i : ℕ) → reads place (m + n) i ≡ reads place m i ++ reads place n (i + m)
  unfolding reads
  reads-append place zero n i = ap₂ (reads place) (omega arith) (omega arith)
  reads-append place (suc m) n i =
      let e : suc m + n ≡ suc (m + n) = omega arith in
      let f : i + 1 + m ≡ i + suc m = omega arith in
      rw e (ap (◌∷◌ (get_or buf (place i) default)) (reads-append place m n (i + 1) ∙ rw f))

take-drop-suc {ℓ} :
    {A : Type ℓ} (buf : List A) (d : A) (n j : ℕ)
    → j < length buf
    → take (suc n) (drop j buf) ≡ get_or buf j d ∷ take n (drop (suc j) buf)
take-drop-suc [] d n j h = absurd (omega arith)
take-drop-suc (x ∷ xs) d n zero h = refl
take-drop-suc (x ∷ xs) d n (suc j) h = take-drop-suc xs d n j (omega arith)

-- Consecutive places are a segment.
reads_run {ℓ} :
    {A : Type ℓ} (buf : List A) (d : A) (place : ℕ → ℕ) (n i j : ℕ)
    → ((k : ℕ) → k < n → place (i + k) ≡ j + k)
    → j + n ≤ length buf
    → reads buf d place n i ≡ take n (drop j buf)
unfolding reads
reads_run buf d place zero i j run h = refl
reads_run buf d place (suc n) i j run h =
    let here : place i ≡ j = ap place (omega arith) ∙ run 0 (omega arith) ∙ omega arith in
    let rest : (k : ℕ) → k < n → place (i + 1 + k) ≡ suc j + k =
      λ k lt. ap place (omega arith) ∙ run (suc k) (omega arith) ∙ omega arith in
    ap₂ ◌∷◌ (ap (λ p. get_or buf p d) here)
      (reads_run buf d place n (i + 1) (suc j) rest (omega arith))
    ∙ sym (take-drop-suc buf d n j (omega arith))

module _ {ℓ} {A : Type ℓ} (cap : ℕ) (buf : List A) (d : A) where
  -- While the ring fills, index `i` is read.
  pub reads_filling :
      (h n : ℕ) → IsRing cap h n buf → n < cap → reads buf d (λ i. i) n 0 ≡ window cap h n buf
  reads_filling h n r lt =
      reads_run buf d (λ i. i) n 0 0 (λ k lt. refl) (omega (arith, r.size))
      ∙ sym (rw (lt→ltb n cap lt))

  -- When it is full, the places go round from the next write on.
  reads_full :
      (h : ℕ) → IsRing cap h cap buf → reads buf d (λ i. (h + i) % cap) cap 0 ≡ window cap h cap buf
  reads_full h r =
      let place : ℕ → ℕ = λ i. (h + i) % cap in
      let whole : cap - h + h ≡ cap = omega (arith, r.header_in) in
      let back : drop h buf ++ take h buf ≡ window cap h cap buf =
        sym (rw (le→ltb cap cap (omega arith))) in
      ap (λ n. reads buf d place n 0) (sym whole)
      ∙ reads-append buf d place (cap - h) h 0
      ∙ ap₂ ◌++◌
          (reads_run buf d place (cap - h) 0 h
              (λ k lt. mod-eq_of_lt (omega (arith, r.header_in)) ∙ omega arith)
              (omega (arith, r.size, r.header_in))
            ∙ take-all (cap - h) (drop h buf) (omega (arith, length-drop h buf, r.size)))
          (reads_run buf d place h (0 + (cap - h)) 0 (λ k lt. wraps k lt)
            (omega (arith, r.size, r.header_in)))
      ∙ back
    where
      wraps : (k : ℕ) → k < h → (h + (0 + (cap - h) + k)) % cap ≡ 0 + k
      wraps k lt =
          let e : h + (0 + (cap - h) + k) ≡ cap + k = omega (arith, r.header_in) in
          rw (e, mod-eq-sub-mod {n = cap + k} {m = cap} (omega arith))
            (let f : cap + k - cap ≡ k = omega arith in
              rw (f, mod-eq_of_lt {n = k} {m = cap} (omega (arith, r.header_in))) (omega arith))

  pub reads_full_at :
      (h n : ℕ)
      → IsRing cap h n buf
      → cap ≤ n
      → reads buf d (λ i. (h + i) % cap) n 0 ≡ window cap h n buf
  reads_full_at h n r ge =
      subst (λ m. IsRing cap h m buf → reads buf d (λ i. (h + i) % cap) m 0 ≡ window cap h m buf)
        (omega (arith, r.nof_in)) (reads_full h) r
