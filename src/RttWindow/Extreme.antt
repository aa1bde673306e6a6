-- ===== src/RttWindow/Extreme.antt =====
-- The extreme value of a window is that of the samples that the window keeps.
use copa_new.Prelude.{
  ◌≡◌, inl, inr, refl, sym, ap, subst, ◌∙◌, List, [], ◌∷◌, ◌++◌, Bool, true, false, ◌||◌,
  if◌then◌else◌, All, All-append, Bool-cases,
}
use copa_new.Double.{Double, IsOrdered, IsNum, IsFinite, ◌<?◌, ◌⊖◌}
use copa_new.RttWindow.{
  Sample, ExtremeWindow, beats, reaches, clear_loop, front_val, clear_old_hist, push_sample,
  new_sample, pop_back_while,
}
use copa_new.RttWindow.Monotone.{
  trim, best_suffix, Chain, IsAged, IsBest, All-trim, trim-best_suffix, push-best_suffix,
  best_suffix-singleton, pop_back-front, best_suffix-IsBest, best_suffix-Chain, All-best_suffix,
}

module _ {W : Type 0} ⦃d : Double W⦄ where
  abbrev pub wins : Bool → Sample W → Sample W → Bool
  wins find_min a b = beats find_min a.val b.val

  abbrev pub is_old : W → Sample W → Bool
  is_old limit s = s.time <? limit

  abbrev pub IsSample : Sample W → Type 0
  IsSample s = IsNum {W = W} s.time × IsNum {W = W} s.val

  -- In the order of time.
  abbrev pub IsSorted : List (Sample W) → Type 0
  IsSorted [] = Unit {0}
  IsSorted (x ∷ xs) = All (λ y. (y.time <? x.time) ≡ false) xs × IsSorted xs

  -- The samples that are kept after a new one.
  unfoldable pub kept : W → List (Sample W) → Sample W → List (Sample W)
  kept limit h n = trim (is_old limit) (h ++ (n ∷ []))

  -- The window with the samples that it keeps: `vals` is a part of these.
  pub record Tracks (w : ExtremeWindow W) (h : List (Sample W)) : Type 0 where
    pub samples : All IsSample h
    pub sorted : IsSorted h
    pub vals_eq : w.vals ≡ best_suffix (wins w.find_min) h
    pub first : Sample W
    pub others : List (Sample W)
    pub front : w.vals ≡ first ∷ others
    pub extreme_eq : w.extreme ≡ first.val

  -- The loop that deletes old samples, and the value that it leaves.
  clear_loop-trim :
      (find_min : Bool) (e limit : W) (xs : List (Sample W)) (r : Bool)
      → (clear_loop find_min e limit xs r).0 ≡ trim (is_old limit) xs
  unfolding clear_loop trim
  clear_loop-trim find_min e limit [] r = refl
  clear_loop-trim find_min e limit (x ∷ []) r = refl
  clear_loop-trim find_min e limit (x ∷ y ∷ ys) r = elim (Bool-cases (x.time <? limit)) [
    | inl old ↦ rw old (clear_loop-trim find_min e limit (y ∷ ys) (r || reaches find_min x.val e))
    | inr new ↦ rw new
  ]

  clear_loop_recompute :
      (find_min : Bool) (e limit : W) (xs : List (Sample W))
      → (clear_loop find_min e limit xs true).1 ≡ true
  unfolding clear_loop
  clear_loop_recompute find_min e limit [] = refl
  clear_loop_recompute find_min e limit (x ∷ []) = refl
  clear_loop_recompute find_min e limit (x ∷ y ∷ ys) = elim (Bool-cases (x.time <? limit)) [
    | inl old ↦ rw old (clear_loop_recompute find_min e limit (y ∷ ys))
    | inr new ↦ rw new
  ]

  module _ (o : IsOrdered W) where
    reaches_self : (find_min : Bool) (a : W) → IsNum {W = W} a → reaches find_min a a ≡ true
    reaches_self true a n = o.le_of_not_lt a a n n (o.lt_irrefl a)
    reaches_self false a n = o.le_of_not_lt a a n n (o.lt_irrefl a)

    wins_irrefl : (find_min : Bool) (a : Sample W) → wins find_min a a ≡ false
    wins_irrefl true a = o.lt_irrefl a.val
    wins_irrefl false a = o.lt_irrefl a.val

    wins_trans :
        (find_min : Bool) (a b c : Sample W)
        → wins find_min a b ≡ true
        → wins find_min b c ≡ true
        → wins find_min a c ≡ true
    wins_trans true a b c h k = o.lt_trans a.val b.val c.val h k
    wins_trans false a b c h k = o.lt_trans c.val b.val a.val k h

    wins_ge :
        (find_min : Bool) (a b c : Sample W)
        → IsSample a
        → IsSample b
        → IsSample c
        → wins find_min a b ≡ false
        → wins find_min b c ≡ false
        → wins find_min a c ≡ false
    wins_ge true a b c ha hb hc h k = o.ge_trans a.val b.val c.val ha.1 hb.1 hc.1 h k
    wins_ge false a b c ha hb hc h k = o.ge_trans c.val b.val a.val hc.1 hb.1 ha.1 k h

    later_not_old :
        (limit : W) (x : Sample W) (xs : List (Sample W))
        → IsNum {W = W} limit
        → IsSample x
        → All IsSample xs
        → All (λ y. (y.time <? x.time) ≡ false) xs
        → All (λ y. is_old limit x ≡ false → is_old limit y ≡ false) xs
    later_not_old limit x [] n hx hs s = tt
    later_not_old limit x (y ∷ ys) n hx hs s = (
      λ e. o.ge_trans y.time x.time limit hs.0.0 hx.0 n s.0 e,
      later_not_old limit x ys n hx hs.1 s.1,
    )

    IsSorted-IsAged :
        (limit : W) (h : List (Sample W))
        → IsNum {W = W} limit
        → All IsSample h
        → IsSorted h
        → IsAged (is_old limit) h
    IsSorted-IsAged limit [] n a s = tt
    IsSorted-IsAged limit (x ∷ xs) n a s =
        (later_not_old limit x xs n a.0 a.1 s.0, IsSorted-IsAged limit xs n a.1 s.1)

    IsSorted-trim :
        (old : Sample W → Bool) (h : List (Sample W)) → IsSorted h → IsSorted (trim old h)
    unfolding trim
    IsSorted-trim old [] s = s
    IsSorted-trim old (x ∷ []) s = s
    IsSorted-trim old (x ∷ y ∷ ys) s = elim (Bool-cases (old x)) [
      | inl e ↦ rw e (IsSorted-trim old (y ∷ ys) s.1)
      | inr e ↦ rw e s
    ]

    IsSorted-append :
        (h : List (Sample W)) (n : Sample W)
        → IsSorted h
        → All (λ x. (n.time <? x.time) ≡ false) h
        → IsSorted (h ++ (n ∷ []))
    IsSorted-append [] n s a = (tt, tt)
    IsSorted-append (x ∷ xs) n s a =
        (All-append _ xs (n ∷ []) s.0 (a.0, tt), IsSorted-append xs n s.1 a.1)

    clear_loop_left :
        (find_min : Bool) (e limit : W) (y : Sample W) (ys : List (Sample W)) (r : Bool)
        → let v = (clear_loop find_min e limit (y ∷ ys) r).0 in
          (z : Sample W) × (zs : List (Sample W)) × (v ≡ z ∷ zs) × (front_val e v ≡ z.val)
    unfolding clear_loop front_val
    clear_loop_left find_min e limit y [] r = (y, [], refl, refl)
    clear_loop_left find_min e limit y (z ∷ zs) r = elim (Bool-cases (y.time <? limit)) [
      | inl old ↦ rw old (clear_loop_left find_min e limit z zs (r || reaches find_min y.val e))
      | inr new ↦ rw new (y, z ∷ zs, refl, refl)
    ]

    -- The value after the deletions is that of the first element that is left.
    clear_loop-front :
        (find_min : Bool) (e limit : W) (x : Sample W) (xs : List (Sample W))
        → IsSample x
        → e ≡ x.val
        → let (v, r) = clear_loop find_min e limit (x ∷ xs) false in
          (y : Sample W) × (ys : List (Sample W)) × (v ≡ y ∷ ys)
          × ((if r then front_val e v else e) ≡ y.val)
    unfolding clear_loop front_val
    clear_loop-front find_min e limit x [] hx f = (x, [], refl, f)
    clear_loop-front find_min e limit x (y ∷ ys) hx f = elim (Bool-cases (x.time <? limit)) [
      | inr new ↦ rw new (x, y ∷ ys, refl, f)
      | inl old ↦
          let again : reaches find_min x.val e ≡ true =
            subst (λ a. reaches find_min x.val a ≡ true) (sym f)
              (reaches_self find_min x.val hx.1) in
          rw (old, again, clear_loop_recompute find_min e limit (y ∷ ys))
            (clear_loop_left find_min e limit y ys true)
    ]

    -- A push, on a window that holds samples and on one that holds none.
    push-Tracks :
        (w : ExtremeWindow W) (h : List (Sample W)) (val now : W)
        → Tracks w h
        → IsNum {W = W} val
        → IsNum {W = W} now
        → All (λ x. (now <? x.time) ≡ false) h
        → Tracks (push_sample w val now) (h ++ (record { time = now; val = val } ∷ []))
    unfolding push_sample
    push-Tracks w h val now t nv nn late =
        let n : Sample W = record { time = now; val = val } in
        let pushed =
          ap (λ xs. pop_back_while (λ s. beats w.find_min val s.val) xs ++ (n ∷ [])) t.vals_eq
          ∙ push-best_suffix (wins w.find_min) IsSample (wins_ge w.find_min) h n t.samples
              (nn, nv) in
        let chain : Chain (wins w.find_min) (t.first ∷ t.others) =
          subst (Chain (wins w.find_min)) (sym t.vals_eq ∙ t.front)
            (best_suffix-Chain (wins w.find_min) h) in
        let nums : All IsSample (t.first ∷ t.others) =
          subst (All IsSample) (sym t.vals_eq ∙ t.front)
            (All-best_suffix (wins w.find_min) IsSample h t.samples) in
        let fm : Bool = w.find_min in
        let tail : List (Sample W) → List (Sample W) = λ xs. xs ++ (n ∷ []) in
        let pop : List (Sample W) → List (Sample W) = pop_back_while (λ s. beats fm val s.val) in
        let choose : W → W = λ e. if beats fm val e then val else e in
        let sorted = IsSorted-append h n t.sorted late in
        let samples = All-append IsSample h (n ∷ []) t.samples ((nn, nv), tt) in
        elim (pop_back-front (wins fm) IsSample (wins_ge fm) n t.first t.others (nn, nv) nums
          chain) [
            | inl (beat, gone) ↦ record {
              samples = samples;
              sorted = sorted;
              vals_eq = pushed;
              first = n;
              others = [];
              front = ap (λ xs. tail (pop xs)) t.front ∙ ap tail gone;
              extreme_eq = ap choose t.extreme_eq ∙ ap (λ b. if b then val else t.first.val) beat;
            }
            | inr (calm, r, kept) ↦ record {
              samples = samples;
              sorted = sorted;
              vals_eq = pushed;
              first = t.first;
              others = tail r;
              front = ap (λ xs. tail (pop xs)) t.front ∙ ap tail kept;
              extreme_eq = ap choose t.extreme_eq ∙ ap (λ b. if b then val else t.first.val) calm;
            }
          ]

    push-Tracks_first :
        (w : ExtremeWindow W) (val now : W)
        → w.vals ≡ []
        → beats w.find_min val w.extreme ≡ true
        → IsNum {W = W} val
        → IsNum {W = W} now
        → Tracks (push_sample w val now) (record { time = now; val = val } ∷ [])
    unfolding push_sample
    push-Tracks_first w val now e beat nv nn =
        let n : Sample W = record { time = now; val = val } in
        let pushed : pop_back_while (λ s. beats w.find_min val s.val) w.vals ++ (n ∷ []) ≡ n ∷ [] =
          ap (λ xs. pop_back_while (λ s. beats w.find_min val s.val) xs ++ (n ∷ [])) e
          ∙ (unfold pop_back_while in refl) in
        record {
          samples = ((nn, nv), tt);
          sorted = (tt, tt);
          vals_eq = pushed ∙ sym (best_suffix-singleton (wins w.find_min) n);
          first = n;
          others = [];
          front = pushed;
          extreme_eq = ap (λ b. if b then val else w.extreme) beat;
        }

    clear_old_hist-Tracks :
        (w : ExtremeWindow W) (h : List (Sample W)) (now : W)
        → Tracks w h
        → IsNum {W = W} (now ⊖ w.max_time)
        → Tracks (clear_old_hist w now) (trim (is_old (now ⊖ w.max_time)) h)
    unfolding clear_old_hist
    clear_old_hist-Tracks w h now t nl =
        let fm : Bool = w.find_min in
        let limit : W = now ⊖ w.max_time in
        let nums : All IsSample (t.first ∷ t.others) =
          subst (All IsSample) (sym t.vals_eq ∙ t.front)
            (All-best_suffix (wins fm) IsSample h t.samples) in
        let (y, ys, e, v) =
          clear_loop-front fm w.extreme limit t.first t.others nums.0 t.extreme_eq in
        record {
          samples = All-trim IsSample (is_old limit) h t.samples;
          sorted = IsSorted-trim (is_old limit) h t.sorted;
          vals_eq =
              clear_loop-trim fm w.extreme limit w.vals false
              ∙ ap (trim (is_old limit)) t.vals_eq
              ∙ trim-best_suffix (wins fm) (is_old limit) h
                  (IsSorted-IsAged limit h nl t.samples t.sorted);
          first = y;
          others = ys;
          front = ap (λ xs. (clear_loop fm w.extreme limit xs false).0) t.front ∙ e;
          extreme_eq =
              ap
                (λ xs.
                  let (u, r) = clear_loop fm w.extreme limit xs false in
                  if r then front_val w.extreme u else w.extreme)
                t.front
              ∙ v;
        }

    pub new_sample-Tracks :
        (w : ExtremeWindow W) (h : List (Sample W)) (val now : W)
        → Tracks w h
        → IsNum {W = W} val
        → IsNum {W = W} now
        → IsNum {W = W} (now ⊖ w.max_time)
        → All (λ x. (now <? x.time) ≡ false) h
        → Tracks
            (new_sample w val now)
            (kept (now ⊖ w.max_time) h (record { time = now; val = val }))
    unfolding new_sample push_sample kept
    new_sample-Tracks w h val now t nv nn nl late =
        clear_old_hist-Tracks (push_sample w val now) _ now (push-Tracks w h val now t nv nn late)
          nl

    pub new_sample-Tracks_first :
        (w : ExtremeWindow W) (val now : W)
        → w.vals ≡ []
        → beats w.find_min val w.extreme ≡ true
        → IsNum {W = W} val
        → IsNum {W = W} now
        → IsNum {W = W} (now ⊖ w.max_time)
        → Tracks
            (new_sample w val now)
            (kept (now ⊖ w.max_time) [] (record { time = now; val = val }))
    unfolding new_sample push_sample kept
    new_sample-Tracks_first w val now e beat nv nn nl =
        clear_old_hist-Tracks (push_sample w val now) _ now
          (push-Tracks_first w val now e beat nv nn) nl

    pub Tracks-IsBest :
        (w : ExtremeWindow W) (h : List (Sample W)) (t : Tracks w h)
        → IsBest (wins w.find_min) h t.first
    unfolding best_suffix
    Tracks-IsBest w [] t = let e : [] ≡ t.first ∷ t.others = sym t.vals_eq ∙ t.front in cc e
    Tracks-IsBest w (s ∷ h) t =
        let (x, xs, e, best) =
          best_suffix-IsBest (wins w.find_min) (wins_irrefl w.find_min) (wins_trans w.find_min) s
            h in
        let same : x ≡ t.first = ap (λ l. head l x) (sym e ∙ sym t.vals_eq ∙ t.front) in
        subst (IsBest (wins w.find_min) (s ∷ h)) same best
      where
        head : List (Sample W) → Sample W → Sample W
        head [] x = x
        head (y ∷ ys) x = y

    -- A window that tracks the samples `h` tracks, after a new sample that is not older than they are,
    -- those of `h` and the new one that are not older than `max_time`, and at least the new one. Its
    -- extreme value is that of one of these, and none of these is more extreme.
    pub new_sample_extreme :
        (w : ExtremeWindow W) (h : List (Sample W)) (val now : W)
        → Tracks w h
        → IsNum {W = W} val
        → IsFinite {W = W} now
        → IsNum {W = W} w.max_time
        → All (λ x. (now <? x.time) ≡ false) h
        → let w' = new_sample w val now in
          let h' = kept (now ⊖ w.max_time) h (record { time = now; val = val }) in
          Tracks w' h' × ((x : Sample W) × (w'.extreme ≡ x.val) × IsBest (wins w.find_min) h' x)
    new_sample_extreme w h val now t nv fn nm late =
        let t' = new_sample-Tracks w h val now t nv fn.0 (o.sub_num now w.max_time fn nm) late in
        (
          t',
          (
            t'.first,
            t'.extreme_eq,
            unfold new_sample clear_old_hist push_sample in Tracks-IsBest _ _ t',
          ),
        )
