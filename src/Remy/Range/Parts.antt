-- ===== src/Remy/Range/Parts.antt =====
-- The parts of a range that is bisected: what the range contains is in one of them.
use copa_new.Prelude.{
  ℕ, zero, suc, ◌≡◌, ◌⊎◌, refl, sym, subst, ◌∙◌, List, [], ◌∷◌, ◌++◌, All, All-map, All-append,
  Bool, true, false, ◌&&◌, ◌||◌, not, Option, none, some, Bool-cases, inl, inr, arith,
}
use copa_new.Double.{Double, IsOrdered, IsNum, ◌<?◌, ◌≤?◌}
use copa_new.Copa.Frame.{if_elim, OnSome, OnSome-both, OnSome-map}
use copa_new.Remy.{Memory, field, set_field, same_memory}
use copa_new.Remy.Range.{
  MemoryRange, contains, midpoint, halves, keep_whole, split_one, append_parts, split_all,
  and_split, pivot, bisect_range,
}

module _ {W : Type 0} ⦃d : Double W⦄ where
  -- Whether one of the parts contains a memory.
  abbrev pub in_parts : List (MemoryRange W) → Memory W → Bool
  in_parts [] q = false
  in_parts (x ∷ xs) q = contains x q || in_parts xs q

  in_parts-append :
      (xs ys : List (MemoryRange W)) (q : Memory W)
      → in_parts (xs ++ ys) q ≡ (in_parts xs q || in_parts ys q)
  in_parts-append [] ys q = refl
  in_parts-append (x ∷ xs) ys q = rw (in_parts-append xs ys q) (ground arith)

  -- A value is below another or not below it.
  abbrev IsSided : W → W → Type 0
  IsSided a v = ((a <? v) ≡ true) ⊎ ((v ≤? a) ≡ true)

  halves-cover :
      (x : MemoryRange W) (i : ℕ) (v : W) (q : Memory W)
      → IsSided (field q i) v
      → contains x q ≡ true
      → in_parts (halves x i v) q ≡ true
  unfolding halves
  halves-cover x zero v q s h = elim s [
    | inl e ↦ ground (arith, h, e)
    | inr e ↦ ground (arith, h, e)
  ]
  halves-cover x (suc zero) v q s h = elim s [
    | inl e ↦ ground (arith, h, e)
    | inr e ↦ ground (arith, h, e)
  ]
  halves-cover x (suc (suc zero)) v q s h = elim s [
    | inl e ↦ ground (arith, h, e)
    | inr e ↦ ground (arith, h, e)
  ]
  halves-cover x (suc (suc (suc n))) v q s h = elim s [
    | inl e ↦ ground (arith, h, e)
    | inr e ↦ ground (arith, h, e)
  ]

  module _ (q : Memory W) where
    abbrev pub IsCovered : List (MemoryRange W) → Type 0
    IsCovered xs = in_parts xs q ≡ true

    split_one-cover :
        (x : MemoryRange W) (i : ℕ) (v : W)
        → IsSided (field q i) v
        → IsSided (field q i) (midpoint x i)
        → contains x q ≡ true
        → OnSome IsCovered (split_one x i v)
    unfolding split_one keep_whole
    split_one-cover x i v sv sm h =
        if_elim (OnSome IsCovered) (same_memory x.lower (set_field x.upper i v))
          (if_elim (OnSome IsCovered) (same_memory x.lower (set_field x.upper i (midpoint x i)))
            (if_elim (OnSome IsCovered)
              (not (same_memory (set_field x.lower i (midpoint x i)) x.upper)
                && same_memory x.lower (set_field x.lower i (midpoint x i)))
              (rw h refl) tt)
            (halves-cover x i (midpoint x i) q sm h))
          (halves-cover x i v q sv h)

    append-cover :
        (a b : Option (List (MemoryRange W))) (s t : Bool)
        → (s || t) ≡ true
        → (s ≡ true → OnSome IsCovered a)
        → (t ≡ true → OnSome IsCovered b)
        → OnSome IsCovered (append_parts a b)
    unfolding append_parts
    append-cover none b s t h f g = tt
    append-cover (some xs) none s t h f g = tt
    append-cover (some xs) (some ys) true t h f g = in_parts-append xs ys q ∙ rw (f refl) refl
    append-cover (some xs) (some ys) false t h f g =
        in_parts-append xs ys q ∙ rw (g h) (ground arith)

    split_all-cover :
        (xs : List (MemoryRange W)) (i : ℕ) (v m : W)
        → IsSided (field q i) v
        → IsSided (field q i) m
        → All (λ x. midpoint x i ≡ m) xs
        → IsCovered xs
        → OnSome IsCovered (split_all xs i v)
    unfolding split_all
    split_all-cover [] i v m sv sm mid h = h
    split_all-cover (x ∷ xs) i v m sv sm mid h =
        append-cover (split_one x i v) (split_all xs i v) (contains x q) (in_parts xs q) h
          (λ c. split_one-cover x i v sv (subst (IsSided (field q i)) (sym mid.0) sm) c)
          (λ c. split_all-cover xs i v m sv sm mid.1 c)

  module _ (Q : MemoryRange W → Type 0) (i : ℕ)
      (keeps : (x : MemoryRange W) (v : W) → Q x → All Q (halves x i v)) where
    split_one-All : (x : MemoryRange W) (v : W) → Q x → OnSome (All Q) (split_one x i v)
    unfolding split_one keep_whole
    split_one-All x v h =
        if_elim (OnSome (All Q)) (same_memory x.lower (set_field x.upper i v))
          (if_elim (OnSome (All Q)) (same_memory x.lower (set_field x.upper i (midpoint x i)))
            (if_elim (OnSome (All Q))
              (not (same_memory (set_field x.lower i (midpoint x i)) x.upper)
                && same_memory x.lower (set_field x.lower i (midpoint x i)))
              (h, tt) tt)
            (keeps x (midpoint x i) h))
          (keeps x v h)

    append-All :
        (a b : Option (List (MemoryRange W)))
        → OnSome (All Q) a
        → OnSome (All Q) b
        → OnSome (All Q) (append_parts a b)
    unfolding append_parts
    append-All none b h k = tt
    append-All (some xs) none h k = tt
    append-All (some xs) (some ys) h k = All-append Q xs ys h k

    split_all-All :
        (xs : List (MemoryRange W)) (v : W) → All Q xs → OnSome (All Q) (split_all xs i v)
    unfolding split_all
    split_all-All [] v h = tt
    split_all-All (x ∷ xs) v h =
        append-All (split_one x i v) (split_all xs i v) (split_one-All x v h.0)
          (split_all-All xs v h.1)

  -- The parts before a cut.
  abbrev IsStage : Memory W → (MemoryRange W → Type 0) → List (MemoryRange W) → Type 0
  IsStage q Q xs = All Q xs × IsCovered q xs

  module _ (q : Memory W) (Q Q' : MemoryRange W → Type 0) (i : ℕ) (v m : W)
      (sv : IsSided (field q i) v) (sm : IsSided (field q i) m)
      (mid : (x : MemoryRange W) → Q x → midpoint x i ≡ m) (weak : (x : MemoryRange W) → Q x → Q' x)
      (keeps : (x : MemoryRange W) (v : W) → Q' x → All Q' (halves x i v)) where
    cut :
        (o : Option (List (MemoryRange W)))
        → OnSome (IsStage q Q) o
        → OnSome (IsStage q Q') (and_split o i v)
    unfolding and_split
    cut none h = tt
    cut (some xs) h =
        OnSome-both (All Q') (IsCovered q) (split_all xs i v)
          (split_all-All Q' i keeps xs v (All-map Q Q' weak xs h.0))
          (split_all-cover q xs i v m sv sm (All-map Q (λ x. midpoint x i ≡ m) mid xs h.0) h.1)

  -- The midpoints of the fields from `i` on are those of `r`.
  abbrev IsUncut : MemoryRange W → ℕ → MemoryRange W → Type 0
  IsUncut r i x = midpoint x i ≡ midpoint r i

  abbrev pub IsSplit : (List W → W) → MemoryRange W → Memory W → ℕ → Type 0
  IsSplit median r q i = IsSided (field q i) (pivot median r i) × IsSided (field q i) (midpoint r i)

  bisect_range-sided :
      (median : List W → W) (r : MemoryRange W) (q : Memory W)
      → contains r q ≡ true
      → IsSplit median r q 0
      → IsSplit median r q 1
      → IsSplit median r q 2
      → IsSplit median r q 3
      → OnSome (IsStage q (λ x. Unit)) (bisect_range median r)
  unfolding bisect_range halves
  bisect_range-sided median r q h s0 s1 s2 s3 =
      let Q0 : MemoryRange W → Type 0 =
        λ x. IsUncut r 0 x × IsUncut r 1 x × IsUncut r 2 x × IsUncut r 3 x in
      let Q1 : MemoryRange W → Type 0 = λ x. IsUncut r 1 x × IsUncut r 2 x × IsUncut r 3 x in
      let Q2 : MemoryRange W → Type 0 = λ x. IsUncut r 2 x × IsUncut r 3 x in
      let Q3 : MemoryRange W → Type 0 = λ x. IsUncut r 3 x in
      let Q4 : MemoryRange W → Type 0 = λ x. Unit in
      let start : IsStage q Q0 (r ∷ []) = (((refl, refl, refl, refl), tt), rw h refl) in
      cut q Q3 Q4 3 (pivot median r 3) (midpoint r 3) s3.0 s3.1 (λ x h. h) (λ x h. tt)
        (λ x v h. (tt, (tt, tt))) _
        (cut q Q2 Q3 2 (pivot median r 2) (midpoint r 2) s2.0 s2.1 (λ x h. h.0) (λ x h. h.1)
          (λ x v h. (h, (h, tt))) _
          (cut q Q1 Q2 1 (pivot median r 1) (midpoint r 1) s1.0 s1.1 (λ x h. h.0)
            (λ x h. (h.1, h.2)) (λ x v h. ((h.0, h.1), ((h.0, h.1), tt))) _
            (cut q Q0 Q1 0 (pivot median r 0) (midpoint r 0) s0.0 s0.1 (λ x h. h.0)
              (λ x h. (h.1, h.2, h.3)) (λ x v h. ((h.0, h.1, h.2), ((h.0, h.1, h.2), tt)))
              (some (r ∷ [])) start)))

  -- The two places at which a field of a range may be cut are numbers.
  abbrev pub IsCut : (List W → W) → MemoryRange W → ℕ → Type 0
  IsCut median r i = IsNum (pivot median r i) × IsNum (midpoint r i)

module _ {W : Type 0} ⦃d : Double W⦄ (o : IsOrdered W) where
  sided : (a v : W) → IsNum a → IsNum v → IsSided a v
  sided a v h k = elim (Bool-cases (a <? v)) [
    | inl e ↦ inl e
    | inr e ↦ inr (o.le_of_not_lt v a k h e)
  ]

  split :
      (median : List W → W) (r : MemoryRange W) (q : Memory W) (i : ℕ)
      → IsCut median r i
      → (field q i <? field r.upper i) ≡ true
      → IsSplit median r q i
  split median r q i c h =
      let n = (o.lt_num (field q i) (field r.upper i) h).0 in
      (sided (field q i) (pivot median r i) n c.0, sided (field q i) (midpoint r i) n c.1)

  -- A range whose medians and midpoints are numbers is cut into parts such that every memory in the range
  -- is in one of them, unless an assertion fails.
  pub bisect_range-IsCovered :
      (median : List W → W) (r : MemoryRange W) (q : Memory W)
      → IsCut median r 0
      → IsCut median r 1
      → IsCut median r 2
      → IsCut median r 3
      → contains r q ≡ true
      → OnSome (IsCovered q) (bisect_range median r)
  bisect_range-IsCovered median r q c0 c1 c2 c3 h =
      OnSome-map (IsStage q (λ x. Unit)) (IsCovered q) (λ xs k. k.1) (bisect_range median r)
        (bisect_range-sided median r q h (split median r q 0 c0 (ground (arith, h)))
          (split median r q 1 c1 (ground (arith, h))) (split median r q 2 c2 (ground (arith, h)))
          (split median r q 3 c3 (ground (arith, h))))
