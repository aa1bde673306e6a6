-- ===== src/RttWindow/Monotone.antt =====
-- The deque holds, of all the samples, those that no later one beats.
use copa_new.Prelude.{
  ◌≡◌, ◌⊎◌, refl, sym, ap, ◌∙◌, List, [], ◌∷◌, ◌++◌, Bool, true, false, ◌||◌, if◌then◌else◌, All,
  All-map, append_assoc, inl, inr, Bool-cases, arith,
}
use copa_new.RttWindow.{keep_front, pop_back_while}

module _ {A : Type 0} where
  -- The elements without the old ones at the front; the last element stays.
  unfoldable pub trim : (A → Bool) → List A → List A
  trim old [] = []
  trim old (x ∷ []) = x ∷ []
  trim old (x ∷ y ∷ ys) = if old x then trim old (y ∷ ys) else x ∷ y ∷ ys

  -- An old element comes before the others.
  abbrev pub IsAged : (A → Bool) → List A → Type 0
  IsAged old [] = Unit {0}
  IsAged old (x ∷ xs) = All (λ y. old x ≡ false → old y ≡ false) xs × IsAged old xs

  keep_front-cons : (p : A → Bool) (x : A) (xs : List A) → p x ≡ false → keep_front p x xs ≡ x ∷ xs
  unfolding keep_front
  keep_front-cons p x [] e = rw e
  keep_front-cons p x (y ∷ ys) e = refl

  pub All-trim : (P : A → Type 0) (old : A → Bool) (xs : List A) → All P xs → All P (trim old xs)
  unfolding trim
  All-trim P old [] h = tt
  All-trim P old (x ∷ []) h = h
  All-trim P old (x ∷ y ∷ ys) h = elim (Bool-cases (old x)) [
    | inl e ↦ rw e (All-trim P old (y ∷ ys) h.1)
    | inr e ↦ rw e h
  ]

  trim_fresh : (old : A → Bool) (xs : List A) → All (λ x. old x ≡ false) xs → trim old xs ≡ xs
  unfolding trim
  trim_fresh old [] h = refl
  trim_fresh old (x ∷ []) h = refl
  trim_fresh old (x ∷ y ∷ ys) h = rw h.0

  -- The end of a list.
  abbrev pub IsSuffix : List A → List A → Type 0
  IsSuffix ys xs = (pre : List A) × (xs ≡ pre ++ ys)

  trim-IsSuffix : (old : A → Bool) (xs : List A) → IsSuffix (trim old xs) xs
  unfolding trim
  trim-IsSuffix old [] = ([], refl)
  trim-IsSuffix old (x ∷ []) = ([], refl)
  trim-IsSuffix old (x ∷ y ∷ ys) = elim (Bool-cases (old x)) [
    | inl e ↦ let (pre, split) = trim-IsSuffix old (y ∷ ys) in rw e (x ∷ pre, ap (◌∷◌ x) split)
    | inr e ↦ rw e ([], refl)
  ]

  -- A list that has a last element.
  trim-snoc :
      (old : A → Bool) (x : A) (xs : List A) (n : A)
      → trim old (x ∷ xs ++ (n ∷ []))
        ≡ (if old x then trim old (xs ++ (n ∷ [])) else x ∷ xs ++ (n ∷ []))
  unfolding trim
  trim-snoc old x [] n = refl
  trim-snoc old x (y ∷ ys) n = refl

  -- A test by which more elements are old leaves an end of what the other leaves.
  pub IsSuffix-trim :
      (old more : A → Bool) (pre ys : List A) (n : A)
      → All (λ s. old s ≡ true → more s ≡ true) ys
      → IsSuffix (trim more (ys ++ (n ∷ []))) (trim old ((pre ++ ys) ++ (n ∷ [])))
  IsSuffix-trim old more [] [] n a = ([], unfold trim in refl)
  IsSuffix-trim old more [] (y ∷ ys) n a = elim (Bool-cases (old y)) [
    | inl e ↦
        rw (trim-snoc old y ys n, trim-snoc more y ys n, e, a.0 e)
          (IsSuffix-trim old more [] ys n a.1)
    | inr e ↦ rw (trim-snoc old y ys n, e) (trim-IsSuffix more (y ∷ ys ++ (n ∷ [])))
  ]
  IsSuffix-trim old more (p ∷ ps) ys n a = elim (Bool-cases (old p)) [
    | inl e ↦ rw (trim-snoc old p (ps ++ ys) n, e) (IsSuffix-trim old more ps ys n a)
    | inr e ↦
        let (pre, split) = trim-IsSuffix more (ys ++ (n ∷ [])) in
        rw (trim-snoc old p (ps ++ ys) n, e)
          (
            p ∷ ps ++ pre,
            ap (◌∷◌ p) (
                append_assoc ps ys (n ∷ [])
                ∙ ap (λ t. ps ++ t) split
                ∙ sym (append_assoc ps pre _)),
          )
  ]

module _ {A : Type 0} (beats : A → A → Bool) where
  pub beaten : A → List A → Bool
  beaten s [] = false
  beaten s (x ∷ xs) = beats x s || beaten s xs

  -- The elements that no later element beats.
  unfoldable pub best_suffix : List A → List A
  best_suffix [] = []
  best_suffix (s ∷ ss) = let rest = best_suffix ss in if beaten s ss then rest else s ∷ rest

  pub best_suffix-singleton : (s : A) → best_suffix (s ∷ []) ≡ s ∷ []
  unfolding best_suffix beaten
  best_suffix-singleton s = refl

  unbeaten : A → List A → List A
  unbeaten n [] = []
  unbeaten n (x ∷ xs) = let rest = unbeaten n xs in if beats n x then rest else x ∷ rest

  -- `x` stands in the list, and no element beats it.
  pub record IsBest (h : List A) (x : A) : Type 0 where
    pub before : List A
    pub after : List A
    pub split : h ≡ before ++ (x ∷ after)
    pub unbeaten_by : All (λ s. beats s x ≡ false) h

  beaten-append :
      (s : A) (ss : List A) (n : A) → beaten s (ss ++ (n ∷ [])) ≡ (beaten s ss || beats n s)
  unfolding beaten
  beaten-append s [] n = or_false (beats n s)
    where
      or_false : (b : Bool) → (b || false) ≡ b
      or_false true = refl
      or_false false = refl
  beaten-append s (x ∷ xs) n = elim (Bool-cases (beats x s)) [
    | inl e ↦ rw e
    | inr e ↦ rw e (beaten-append s xs n)
  ]

  best_suffix-append :
      (h : List A) (n : A) → best_suffix (h ++ (n ∷ [])) ≡ unbeaten n (best_suffix h) ++ (n ∷ [])
  unfolding best_suffix unbeaten
  best_suffix-append [] n = unfold beaten in refl
  best_suffix-append (s ∷ ss) n =
      let ih = best_suffix-append ss n in
      let e = beaten-append s ss n in
      elim (Bool-cases (beaten s ss)) [
        | inl b ↦ rw (e, b) ih
        | inr b ↦ elim (Bool-cases (beats n s)) [
          | inl c ↦ rw (e, b, c) ih
          | inr c ↦ rw (e, b, c) (ap (◌∷◌ s) ih)
        ]
      ]

  -- No element is beaten by a later one.
  abbrev pub Chain : List A → Type 0
  Chain [] = Unit {0}
  Chain (x ∷ xs) = All (λ y. beats y x ≡ false) xs × Chain xs

  pub All-best_suffix : (P : A → Type 0) (h : List A) → All P h → All P (best_suffix h)
  unfolding best_suffix
  All-best_suffix P [] a = tt
  All-best_suffix P (s ∷ ss) a = elim (Bool-cases (beaten s ss)) [
    | inl b ↦ rw b (All-best_suffix P ss a.1)
    | inr b ↦ rw b (a.0, All-best_suffix P ss a.1)
  ]

  beaten-All : (s : A) (ss : List A) → beaten s ss ≡ false → All (λ y. beats y s ≡ false) ss
  unfolding beaten
  beaten-All s [] e = tt
  beaten-All s (x ∷ xs) e = elim (Bool-cases (beats x s)) [
    | inl b ↦ let f : true ≡ false = sym (ap (λ c. c || beaten s xs) b) ∙ e in absurd (ground arith)
    | inr b ↦ (b, beaten-All s xs (sym (ap (λ c. c || beaten s xs) b) ∙ e))
  ]

  pub best_suffix-Chain : (h : List A) → Chain (best_suffix h)
  unfolding best_suffix
  best_suffix-Chain [] = tt
  best_suffix-Chain (s ∷ ss) = elim (Bool-cases (beaten s ss)) [
    | inl b ↦ rw b (best_suffix-Chain ss)
    | inr b ↦
        rw b (All-best_suffix (λ y. beats y s ≡ false) ss (beaten-All s ss b), best_suffix-Chain ss)
  ]

  unbeaten-nil : (n : A) (xs : List A) → All (λ y. beats n y ≡ true) xs → unbeaten n xs ≡ []
  unfolding unbeaten
  unbeaten-nil n [] a = refl
  unbeaten-nil n (x ∷ xs) a = rw a.0 (unbeaten-nil n xs a.1)

  -- Trimming commutes with the choice of the unbeaten elements.
  -- A list that is not empty has a first unbeaten element.
  data IsCons : List A → Type 0 where
    is_cons : (x : A) (xs : List A) → IsCons (x ∷ xs)

  best_suffix-IsCons : (s : A) (ss : List A) → IsCons (best_suffix (s ∷ ss))
  unfolding best_suffix
  best_suffix-IsCons s [] = unfold beaten in is_cons s []
  best_suffix-IsCons s (t ∷ ts) = elim (Bool-cases (beaten s (t ∷ ts))) [
    | inl b ↦ rw b (best_suffix-IsCons t ts)
    | inr b ↦ rw b (is_cons s (best_suffix (t ∷ ts)))
  ]

  trim-IsCons :
      (old : A → Bool) (x : A) (xs : List A)
      → IsCons xs
      → old x ≡ true
      → trim old (x ∷ xs) ≡ trim old xs
  unfolding trim
  trim-IsCons old x _ (is_cons y ys) e = rw e

  trim_old :
      (old : A → Bool) (x : A) (ss : List A)
      → IsCons (best_suffix ss)
      → old x ≡ true
      → trim old (best_suffix (x ∷ ss)) ≡ trim old (best_suffix ss)
  unfolding best_suffix
  trim_old old x ss c e = elim (Bool-cases (beaten x ss)) [
    | inl b ↦ rw b
    | inr b ↦ rw b (trim-IsCons old x (best_suffix ss) c e)
  ]

  pub trim-best_suffix :
      (old : A → Bool) (h : List A)
      → IsAged old h
      → trim old (best_suffix h) ≡ best_suffix (trim old h)
  unfolding trim
  trim-best_suffix old [] a = unfold best_suffix in refl
  trim-best_suffix old (x ∷ []) a = unfold best_suffix beaten in refl
  trim-best_suffix old (x ∷ y ∷ ys) a =
      let ih = trim-best_suffix old (y ∷ ys) a.1 in
      elim (Bool-cases (old x)) [
        | inl e ↦ rw e (trim_old old x (y ∷ ys) (best_suffix-IsCons y ys) e ∙ ih)
        | inr e ↦ rw e (
            trim_fresh old (best_suffix (x ∷ y ∷ ys)) (
              All-best_suffix (λ z. old z ≡ false) (x ∷ y ∷ ys)
                (e, All-map _ _ (λ z f. f e) (y ∷ ys) a.0)))
      ]

-- `Num` says which elements are compared: on these, "does not beat" is transitive.
module _ {A : Type 0} (beats : A → A → Bool) (Num : A → Type 0)
    (ge : (a b c : A)
      → Num a
      → Num b
      → Num c
      → beats a b ≡ false
      → beats b c ≡ false
      → beats a c ≡ false) where
  all_beaten :
      (n x : A) (xs : List A)
      → Num n
      → Num x
      → All Num xs
      → beats n x ≡ true
      → All (λ y. beats y x ≡ false) xs
      → All (λ y. beats n y ≡ true) xs
  all_beaten n x [] hn hx hs e a = tt
  all_beaten n x (y ∷ ys) hn hx hs e a =
      let rest = all_beaten n x ys hn hx hs.1 e a.1 in
      elim (Bool-cases (beats n y)) [
        | inl b ↦ (b, rest)
        | inr b ↦ let f : true ≡ false = sym e ∙ ge n y x hn hs.0 hx b a.0 in absurd (ground arith)
      ]

  -- The loop that pops at the back removes all the elements that the new one beats.
  pop_back-unbeaten :
      (n : A) (xs : List A)
      → Num n
      → All Num xs
      → Chain beats xs
      → pop_back_while (beats n) xs ≡ unbeaten beats n xs
  unfolding pop_back_while unbeaten
  pop_back-unbeaten n [] hn hs c = refl
  pop_back-unbeaten n (x ∷ xs) hn hs c =
      let ih = pop_back-unbeaten n xs hn hs.1 c.1 in
      elim (Bool-cases (beats n x)) [
        | inl e ↦
            let gone = unbeaten-nil beats n xs (all_beaten n x xs hn hs.0 hs.1 e c.0) in
            rw (e, ih, gone) (unfold keep_front in rw e)
        | inr e ↦ rw e (keep_front-cons (beats n) x (pop_back_while (beats n) xs) e ∙ ap (◌∷◌ x) ih)
      ]

  -- What the first element becomes when a new one is pushed.
  pub pop_back-front :
      (n x : A) (xs : List A)
      → Num n
      → All Num (x ∷ xs)
      → Chain beats (x ∷ xs)
      → ((beats n x ≡ true) × (pop_back_while (beats n) (x ∷ xs) ≡ []))
        ⊎ ((beats n x ≡ false) × (r : List A) × (pop_back_while (beats n) (x ∷ xs) ≡ x ∷ r))
  pop_back-front n x xs hn hs c = elim (Bool-cases (beats n x)) [
    | inl e ↦
        let gone = unbeaten-nil beats n (x ∷ xs) (e, all_beaten n x xs hn hs.0 hs.1 e c.0) in
        inl (e, pop_back-unbeaten n (x ∷ xs) hn hs c ∙ gone)
    | inr e ↦ inr (
      e,
      pop_back_while (beats n) xs,
      unfold pop_back_while in keep_front-cons (beats n) x (pop_back_while (beats n) xs) e,
    )
  ]

  pub push-best_suffix :
      (h : List A) (n : A)
      → All Num h
      → Num n
      → pop_back_while (beats n) (best_suffix beats h) ++ (n ∷ [])
        ≡ best_suffix beats (h ++ (n ∷ []))
  push-best_suffix h n hs hn =
      ap (λ xs. xs ++ (n ∷ []))
        (pop_back-unbeaten n (best_suffix beats h) hn (All-best_suffix beats Num h hs)
          (best_suffix-Chain beats h))
      ∙ sym (best_suffix-append beats h n)

-- The first of the unbeaten elements is beaten by no element at all.
module _ {A : Type 0} (beats : A → A → Bool) (irrefl : (a : A) → beats a a ≡ false)
    (trans : (a b c : A) → beats a b ≡ true → beats b c ≡ true → beats a c ≡ true) where
  some_beats :
      (s : A) (ss : List A) (x : A)
      → beaten beats s ss ≡ true
      → All (λ y. beats y x ≡ false) ss
      → beats s x ≡ false
  unfolding beaten
  some_beats s [] x e a = absurd (ground arith)
  some_beats s (y ∷ ys) x e a = elim (Bool-cases (beats y s)) [
    | inr b ↦ some_beats s ys x (sym (ap (λ c. c || beaten beats s ys) b) ∙ e) a.1
    | inl b ↦ elim (Bool-cases (beats s x)) [
      | inr c ↦ c
      | inl c ↦ let f : true ≡ false = sym (trans y s x b c) ∙ a.0 in absurd (ground arith)
    ]
  ]

  pub best_suffix-IsBest :
      (s : A) (ss : List A)
      → (x : A) × (xs : List A) × (best_suffix beats (s ∷ ss) ≡ x ∷ xs) × IsBest beats (s ∷ ss) x
  unfolding best_suffix
  best_suffix-IsBest s [] =
      unfold beaten in
      (s, [], refl, record { before = []; after = []; split = refl; unbeaten_by = (irrefl s, tt) })
  best_suffix-IsBest s (t ∷ ts) = elim (Bool-cases (beaten beats s (t ∷ ts))) [
    | inl b ↦
        let (x, xs, e, best) = best_suffix-IsBest t ts in
        rw b (
          x,
          xs,
          e,
          record {
            before = s ∷ best.before;
            after = best.after;
            split = ap (◌∷◌ s) best.split;
            unbeaten_by = (some_beats s (t ∷ ts) x b best.unbeaten_by, best.unbeaten_by);
          },
        )
    | inr b ↦ rw b (
      s,
      best_suffix beats (t ∷ ts),
      refl,
      record {
        before = [];
        after = t ∷ ts;
        split = refl;
        unbeaten_by = (irrefl s, beaten-All beats s (t ∷ ts) b);
      },
    )
  ]
