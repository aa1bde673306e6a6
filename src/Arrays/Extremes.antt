-- ===== src/Arrays/Extremes.antt =====
-- The minimum, maximum and search loops of ngscope_util.cc.
use copa_new.Prelude.{
  ℕ, suc, ◌+◌, ◌≤◌, ◌<◌, ◌≡◌, refl, sym, ap, subst, ◌⊎◌, inl, inr, List, [], ◌∷◌, some, get_elem?,
  take, All, lt_or_le, lt→ltb, le→ltb, arith,
}
use copa_new.Arrays.{
  first_least, first_greatest, min_loop, max_loop, min_in_array_uint16_v, max_in_array_uint16_v,
  min_in_array_uint16_vi, max_in_array_uint16_vi, min_in_array_uint64_v, max_in_array_uint64_v,
  min_in_array_uint64_vi, max_in_array_uint64_vi,
}

module _ {ℓ} {A : Type ℓ} (key : A → ℕ) where
  -- `v` is the least key in the list, and `k` the first place where it stands.
  pub record IsFirstLeast (xs : List A) (v k : ℕ) : Type ℓ where
    pub element : A
    pub at : get_elem? xs k ≡ some element
    pub value : key element ≡ v
    pub least : All (λ y. v ≤ key y) xs
    pub first : All (λ y. v < key y) (take k xs)

  -- Where a scan that begins with `best` at `idx` may end: there, or at a later and lesser place.
  abbrev Ends : List A → ℕ → ℕ → ℕ → ℕ × ℕ → Type ℓ
  Ends xs i best idx (v, k) =
      (v ≤ best)
      × All (λ y. v ≤ key y) xs
      × (((k ≡ idx) × (v ≡ best))
          ⊎ ((j : ℕ) × (y : A) × (k ≡ i + j)
              × (get_elem? xs j ≡ some y)
              × (key y ≡ v)
              × (v < best)
              × All (λ z. v < key z) (take j xs)))

  first_least-cons_lt :
      (x : A) (xs : List A) (i best idx : ℕ)
      → key x < best
      → first_least key (x ∷ xs) i best idx ≡ first_least key xs (i + 1) (key x) i
  unfolding first_least
  first_least-cons_lt x xs i best idx h = rw (lt→ltb _ _ h)

  first_least-cons_le :
      (x : A) (xs : List A) (i best idx : ℕ)
      → best ≤ key x
      → first_least key (x ∷ xs) i best idx ≡ first_least key xs (i + 1) best idx
  unfolding first_least
  first_least-cons_le x xs i best idx h = rw (le→ltb _ _ h)

  first_least-nil : (i best idx : ℕ) → first_least key [] i best idx ≡ (best, idx)
  unfolding first_least
  first_least-nil i best idx = refl

  first_least-Ends :
      (xs : List A) (i best idx : ℕ) → Ends xs i best idx (first_least key xs i best idx)
  first_least-Ends [] i best idx =
      rw (first_least-nil i best idx) (omega arith, tt, inl (refl, refl))
  first_least-Ends (x ∷ xs) i best idx = elim (lt_or_le (key x) best) [
    | inl lt ↦
        let (le, all, w) = first_least-Ends xs (i + 1) (key x) i in
        subst (Ends (x ∷ xs) i best idx) (sym (first_least-cons_lt x xs i best idx lt)) (
          omega arith,
          (le, all),
          elim w [
            | inl (ek, ev) ↦ inr (0, x, omega arith, refl, sym ev, omega arith, tt)
            | inr (j, y, ek, ey, ev, l, a) ↦
                inr (suc j, y, omega arith, ey, ev, omega arith, (omega arith, a))
          ],
        )
    | inr ge ↦
        let (le, all, w) = first_least-Ends xs (i + 1) best idx in
        subst (Ends (x ∷ xs) i best idx) (sym (first_least-cons_le x xs i best idx ge)) (
          le,
          (omega arith, all),
          elim w [
            | inl h ↦ inl h
            | inr (j, y, ek, ey, ev, l, a) ↦
                inr (suc j, y, omega arith, ey, ev, l, (omega arith, a))
          ],
        )
  ]

  -- The form that begins with the first element at index 1.
  pub first_least_from_head :
      (x : A) (xs : List A)
      → let (v, k) = first_least key xs 1 (key x) 0 in IsFirstLeast (x ∷ xs) v k
  first_least_from_head x xs =
      let (le, all, w) = first_least-Ends xs 1 (key x) 0 in
      elim w [
        | inl (ek, ev) ↦ record {
          element = x;
          at = rw ek;
          value = sym ev;
          least = (le, all);
          first = rw ek tt;
        }
        | inr (j, y, ek, ey, ev, l, a) ↦
            let e : (first_least key xs 1 (key x) 0).1 ≡ suc j = omega arith in
            record { element = y; at = rw e ey; value = ev; least = (le, all); first = rw e (l, a) }
      ]

-- `v` is the greatest element of the list, and `k` the first place where it stands.
pub record IsFirstGreatest (xs : List ℕ) (v k : ℕ) : Type 0 where
  pub at : get_elem? xs k ≡ some v
  pub greatest : All (λ y. y ≤ v) xs
  pub first : All (λ y. y < v) (take k xs)

abbrev EndsHigh : List ℕ → ℕ → ℕ → ℕ → ℕ × ℕ → Type 0
EndsHigh xs i best idx (v, k) =
    (best ≤ v)
    × All (λ y. y ≤ v) xs
    × (((k ≡ idx) × (v ≡ best))
        ⊎ ((j : ℕ) × (k ≡ i + j)
            × (get_elem? xs j ≡ some v)
            × (best < v)
            × All (λ z. z < v) (take j xs)))

first_greatest-cons_lt :
    (x : ℕ) (xs : List ℕ) (i best idx : ℕ)
    → best < x
    → first_greatest (x ∷ xs) i best idx ≡ first_greatest xs (i + 1) x i
unfolding first_greatest
first_greatest-cons_lt x xs i best idx h = rw (lt→ltb _ _ h)

first_greatest-cons_le :
    (x : ℕ) (xs : List ℕ) (i best idx : ℕ)
    → x ≤ best
    → first_greatest (x ∷ xs) i best idx ≡ first_greatest xs (i + 1) best idx
unfolding first_greatest
first_greatest-cons_le x xs i best idx h = rw (le→ltb _ _ h)

first_greatest-nil : (i best idx : ℕ) → first_greatest [] i best idx ≡ (best, idx)
unfolding first_greatest
first_greatest-nil i best idx = refl

first_greatest-Ends :
    (xs : List ℕ) (i best idx : ℕ) → EndsHigh xs i best idx (first_greatest xs i best idx)
first_greatest-Ends [] i best idx =
    rw (first_greatest-nil i best idx) (omega arith, tt, inl (refl, refl))
first_greatest-Ends (x ∷ xs) i best idx = elim (lt_or_le best x) [
  | inl lt ↦
      let (le, all, w) = first_greatest-Ends xs (i + 1) x i in
      subst (EndsHigh (x ∷ xs) i best idx) (sym (first_greatest-cons_lt x xs i best idx lt)) (
        omega arith,
        (le, all),
        elim w [
          | inl (ek, ev) ↦ inr (0, omega arith, ap some (sym ev), omega arith, tt)
          | inr (j, ek, ey, l, a) ↦ inr (suc j, omega arith, ey, omega arith, (omega arith, a))
        ],
      )
  | inr ge ↦
      let (le, all, w) = first_greatest-Ends xs (i + 1) best idx in
      subst (EndsHigh (x ∷ xs) i best idx) (sym (first_greatest-cons_le x xs i best idx ge)) (
        le,
        (omega arith, all),
        elim w [
          | inl h ↦ inl h
          | inr (j, ek, ey, l, a) ↦ inr (suc j, omega arith, ey, l, (omega arith, a))
        ],
      )
]

first_greatest_lem :
    (x : ℕ) (xs : List ℕ)
    → let (v, k) = first_greatest (x ∷ xs) 0 x 0 in IsFirstGreatest (x ∷ xs) v k
first_greatest_lem x xs =
    let (le, all, w) = first_greatest-Ends xs 1 x 0 in
    let e = first_greatest-cons_le x xs 0 x 0 (omega arith) in
    subst (λ p. IsFirstGreatest (x ∷ xs) p.0 p.1) (sym e)
      (elim w [
        | inl (ek, ev) ↦ record {
          at = rw ek (ap some (sym ev));
          greatest = (le, all);
          first = rw ek tt;
        }
        | inr (j, ek, ey, l, a) ↦
            let e : (first_greatest xs 1 x 0).1 ≡ suc j = omega arith in
            record { at = rw e ey; greatest = (le, all); first = rw e (l, a) }
      ])

-- The value-only loops compute the value of the loops that also keep the index.
min_loop-first_least :
    (xs : List ℕ) (m i idx : ℕ) → min_loop m xs ≡ (first_least (λ v. v) xs i m idx).0
unfolding min_loop first_least
min_loop-first_least [] m i idx = refl
min_loop-first_least (x ∷ xs) m i idx = min_loop-first_least xs _ _ _

max_loop-first_greatest :
    (xs : List ℕ) (m i idx : ℕ) → max_loop m xs ≡ (first_greatest xs i m idx).0
unfolding max_loop first_greatest
max_loop-first_greatest [] m i idx = refl
max_loop-first_greatest (x ∷ xs) m i idx = max_loop-first_greatest xs _ _ _

-- `min_in_array_*_vi` of an array that is not empty gives its least element and the first index
-- where that stands, and `min_in_array_*_v` gives the same element.
pub min_in_array-IsFirstLeast :
    (x : ℕ) (xs : List ℕ)
    → (v : ℕ) × (k : ℕ) × (min_in_array_uint64_vi (x ∷ xs) ≡ some (v, k))
      × (min_in_array_uint16_vi (x ∷ xs) ≡ some (v, k))
      × (min_in_array_uint64_v (x ∷ xs) ≡ some v)
      × (min_in_array_uint16_v (x ∷ xs) ≡ some v)
      × IsFirstLeast (λ y. y) (x ∷ xs) v k
unfolding min_in_array_uint64_vi min_in_array_uint16_vi min_in_array_uint64_v min_in_array_uint16_v
min_in_array-IsFirstLeast x xs =
    let e = first_least-cons_le (λ y. y) x xs 0 x 0 (omega arith) in
    let least = first_least_from_head (λ y. y) x xs in
    let same = ap some (min_loop-first_least (x ∷ xs) x 0 0) in
    (
      (first_least (λ y. y) (x ∷ xs) 0 x 0).0,
      (first_least (λ y. y) (x ∷ xs) 0 x 0).1,
      refl,
      refl,
      same,
      same,
      subst (λ p. IsFirstLeast (λ y. y) (x ∷ xs) p.0 p.1) (sym e) least,
    )

-- `max_in_array_*_vi` of an array that is not empty gives its greatest element and the first index
-- where that stands, and `max_in_array_*_v` gives the same element.
pub max_in_array-IsFirstGreatest :
    (x : ℕ) (xs : List ℕ)
    → (v : ℕ) × (k : ℕ) × (max_in_array_uint64_vi (x ∷ xs) ≡ some (v, k))
      × (max_in_array_uint16_vi (x ∷ xs) ≡ some (v, k))
      × (max_in_array_uint64_v (x ∷ xs) ≡ some v)
      × (max_in_array_uint16_v (x ∷ xs) ≡ some v)
      × IsFirstGreatest (x ∷ xs) v k
unfolding max_in_array_uint64_vi max_in_array_uint16_vi max_in_array_uint64_v max_in_array_uint16_v
max_in_array-IsFirstGreatest x xs =
    let same = ap some (max_loop-first_greatest (x ∷ xs) x 0 0) in
    (
      (first_greatest (x ∷ xs) 0 x 0).0,
      (first_greatest (x ∷ xs) 0 x 0).1,
      refl,
      refl,
      same,
      same,
      first_greatest_lem x xs,
    )

-- What `min_in_array_uint16_v` returns is the least element.
pub min_in_array-eq_some :
    (xs : List ℕ) {m : ℕ}
    → min_in_array_uint16_v xs ≡ some m
    → (k : ℕ) × IsFirstLeast (λ y. y) xs m k
min_in_array-eq_some [] e = unfold min_in_array_uint16_v in cc
min_in_array-eq_some (x ∷ xs) e =
    let (v, k, e64, e16, v64, v16, r) = min_in_array-IsFirstLeast x xs in
    (k, subst (λ n. IsFirstLeast (λ y. y) (x ∷ xs) n k) (cc) r)
