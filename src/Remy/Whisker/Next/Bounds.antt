-- ===== src/Remy/Whisker/Next/Bounds.antt =====
-- The alternatives of a value: all eligible, and found in a bounded number of steps.
use copa_new.Prelude.{
  ℕ, zero, suc, ◌+◌, ◌*◌, ◌%◌, ◌^◌, ◌≤◌, ◌<◌, ◌≡◌, refl, subst, List, [], ◌∷◌, All, true, false,
  Option, none, some, leb, Bool-cases, inl, inr, arith,
}
use native.Mathlib.Nat.{mul-le-mul_left, mul-le-mul_right}
use copa_new.Copa.Frame.{if_elim, OnSome}
use copa_new.Remy.Whisker.Next.{
  Number, unsigned_number, OptimizationSetting, eligible_value, keep_eligible, add_both, changes,
  with_value, alternatives,
}

module _ {T : Type 0} (n : Number T) (o : OptimizationSetting T) where
  abbrev pub IsEligible : T → Type 0
  IsEligible x = eligible_value n o x ≡ true

  keep_eligible-IsEligible :
      (x : T) (xs : List T) → All IsEligible xs → All IsEligible (keep_eligible n o x xs)
  keep_eligible-IsEligible x xs h = elim (Bool-cases (eligible_value n o x)) [
    | inl e ↦ rw e (e, h)
    | inr e ↦ rw e h
  ]

  add_both-IsEligible :
      (value change : T) (xs : Option (List T))
      → OnSome (All IsEligible) xs
      → OnSome (All IsEligible) (add_both n o value change xs)
  add_both-IsEligible value change none h = tt
  add_both-IsEligible value change (some xs) h =
      keep_eligible-IsEligible (n.add value change) _
        (keep_eligible-IsEligible (n.sub value change) xs h)

  changes-IsEligible :
      (fuel : ℕ) (value change : T) → OnSome (All IsEligible) (changes n o fuel value change)
  unfolding changes
  changes-IsEligible zero value change =
      if_elim (OnSome (All IsEligible)) (n.le change o.max_change) tt tt
  changes-IsEligible (suc fuel) value change =
      if_elim (OnSome (All IsEligible)) (n.le change o.max_change)
        (add_both-IsEligible value change (changes n o fuel value (n.mul change o.multiplier))
          (changes-IsEligible fuel value (n.mul change o.multiplier)))
        tt

-- The changes of an unsigned int, where the last one is multiplied without wrapping.
module _ (o : OptimizationSetting ℕ) where
  both :
      (value change : ℕ) (xs : List ℕ)
      → (ys : List ℕ) × (add_both unsigned_number o value change (some xs) ≡ some ys)
  both value change xs = (
    keep_eligible unsigned_number o (unsigned_number.add value change)
        (keep_eligible unsigned_number o (unsigned_number.sub value change) xs),
    refl,
  )

  changes-ends :
      (fuel value change : ℕ)
      → 0 < change
      → 2 ≤ o.multiplier
      → o.max_change * o.multiplier < 2 ^ 32
      → o.max_change < change + fuel
      → (xs : List ℕ) × (changes unsigned_number o fuel value change ≡ some xs)
  unfolding changes
  changes-ends zero value change p m small enough =
      let over : leb change o.max_change ≡ false = ground (arith, enough) in rw over ([], refl)
  changes-ends (suc fuel) value change p m small enough =
      elim (Bool-cases (leb change o.max_change)) [
        | inl e ↦
            let le : change ≤ o.max_change = ground (arith, e) in
            let up : change * o.multiplier ≤ o.max_change * o.multiplier =
              mul-le-mul_right o.multiplier le in
            let double : change * 2 ≤ change * o.multiplier = mul-le-mul_left change m in
            let c' : ℕ = change * o.multiplier % 2 ^ 32 in
            let same : c' ≡ change * o.multiplier = omega (arith, up, small) in
            let (xs, q) =
              changes-ends fuel value c' (omega (arith, same, double, p)) m small
                (omega (arith, same, double, p, enough)) in
            let (ys, r) = both value change xs in rw (e, q) (ys, r)
        | inr e ↦ rw e ([], refl)
      ]

module _ {T : Type 0} (n : Number T) (o : OptimizationSetting T) where
  with_value-IsEligible :
      (value : T) (xs : Option (List T))
      → IsEligible n o value
      → OnSome (All (IsEligible n o)) xs
      → OnSome (All (IsEligible n o)) (with_value n o value xs)
  with_value-IsEligible value none e h = tt
  with_value-IsEligible value (some xs) e h = (e, h)

  -- Whatever the type and its operations, the alternatives of a value are all eligible.
  pub alternatives-IsEligible :
      (fuel : ℕ) (value : T) → OnSome (All (IsEligible n o)) (alternatives n o fuel value)
  unfolding alternatives
  alternatives-IsEligible fuel value = elim (Bool-cases (eligible_value n o value)) [
    | inl e ↦
        rw e (with_value-IsEligible value _ e (changes-IsEligible n o fuel value o.min_change))
    | inr e ↦ rw e tt
  ]

-- For an unsigned int that is eligible, where the first change is not 0, the multiplier at least 2, and the
-- last change multiplied without wrapping, the loop over the changes ends, with fuel for the numbers
-- up to the last change: the value itself comes first, and all that is given is eligible.
pub alternatives_end :
    (o : OptimizationSetting ℕ) (fuel value : ℕ)
    → IsEligible unsigned_number o value
    → 0 < o.min_change
    → 2 ≤ o.multiplier
    → o.max_change * o.multiplier < 2 ^ 32
    → o.max_change < o.min_change + fuel
    → (xs : List ℕ) × (alternatives unsigned_number o fuel value ≡ some (value ∷ xs))
      × All (IsEligible unsigned_number o) (value ∷ xs)
unfolding alternatives
alternatives_end o fuel value e p m small enough =
    let (xs, q) = changes-ends o fuel value o.min_change p m small enough in
    let all =
      subst (OnSome (All (IsEligible unsigned_number o))) q
        (changes-IsEligible unsigned_number o fuel value o.min_change) in
    (xs, rw (e, q) refl, (e, all))
