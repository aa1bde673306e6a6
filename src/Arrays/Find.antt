-- ===== src/Arrays/Find.antt =====
-- The search loop of ngscope_util.cc.
use copa_new.Prelude.{
  ℕ, suc, ◌+◌, ◌≡◌, refl, sym, ap, ◌∙◌, ◌≢◌, ◌⊎◌, inl, inr, List, [], ◌∷◌, some, ◌==◌, get_elem?,
  take, All, Bool-cases, ==_iff, arith,
}
use copa_new.Prelude.Int.{pos, negsuc}
use copa_new.Arrays.{find_from, find_element_in_array_uint16}

find_from_cases :
    (i : ℕ) (xs : List ℕ) (ele : ℕ)
    → ((find_from i xs ele ≡ negsuc 0) × All (λ y. ele ≢ y) xs)
      ⊎ ((k : ℕ) × (find_from i xs ele ≡ pos (i + k))
          × (get_elem? xs k ≡ some ele)
          × All (λ y. ele ≢ y) (take k xs))
unfolding find_from
find_from_cases i [] ele = inl (refl, tt)
find_from_cases i (x ∷ xs) ele = elim (Bool-cases (ele == x)) [
  | inl e ↦
      let same : ele ≡ x = (==_iff ele x).0 e in
      inr (0, rw e (let z : i ≡ i + 0 = omega arith in ap pos z), ap some (sym same), tt)
  | inr e ↦
      let differ : ele ≢ x = ground arith in
      elim (find_from_cases (i + 1) xs ele) [
        | inl (r, a) ↦ inl (rw e r, (differ, a))
        | inr (k, r, at, a) ↦
            let shift : i + 1 + k ≡ i + suc k = omega arith in
            inr (suc k, rw e (r ∙ ap pos shift), at, (differ, a))
      ]
]

-- `find_element_in_array` returns -1 exactly when no element of the array is the one sought, and
-- otherwise the first index where it stands.
pub find_element_in_array_cases :
    (xs : List ℕ) (ele : ℕ)
    → ((find_element_in_array_uint16 xs ele ≡ negsuc 0) × All (λ y. ele ≢ y) xs)
      ⊎ ((k : ℕ) × (find_element_in_array_uint16 xs ele ≡ pos k)
          × (get_elem? xs k ≡ some ele)
          × All (λ y. ele ≢ y) (take k xs))
unfolding find_element_in_array_uint16
find_element_in_array_cases xs ele = elim (find_from_cases 0 xs ele) [
  | inl h ↦ inl h
  | inr (k, r, at, a) ↦ let z : 0 + k ≡ k = omega arith in inr (k, r ∙ ap pos z, at, a)
]
