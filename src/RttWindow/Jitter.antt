-- ===== src/RttWindow/Jitter.antt =====
-- The least round-trip time of the short window is not below that of the long one: what the
-- controller asserts after each acknowledgement.
use copa_new.Prelude.{
  ◌≡◌, refl, sym, ap₂, subst, ◌∙◌, List, [], ◌∷◌, ◌++◌, Bool, true, false, if◌then◌else◌, All,
  All-append, Bool-cases, inl, inr, arith,
}
use copa_new.Double.{
  Double, IsOrdered, IsNum, IsFinite, ◌<?◌, ◌≤?◌, ◌⊖◌, ◌⊗◌, least, most, lit, greatest,
}
use copa_new.RttWindow.{
  Sample, ExtremeWindow, RttWindow, beats, smooth, update_max_time, new_sample, push_sample,
  clear_old_hist, new_rtt_sample, get_min_rtt, get_unjittered_rtt, clear, clear_window,
}
use copa_new.RttWindow.Monotone.{IsSuffix, IsSuffix-trim, All-trim}
use copa_new.RttWindow.Extreme.{
  Tracks, IsSample, IsSorted, is_old, kept, wins, Tracks-IsBest, new_sample-Tracks,
  new_sample-Tracks_first,
}

module _ {W : Type 0} ⦃d : Double W⦄ (o : IsOrdered W) where
  pub lt_asym : (a b : W) → (a <? b) ≡ true → (b <? a) ≡ false
  lt_asym a b h = elim (Bool-cases (b <? a)) [
    | inr no_lt ↦ no_lt
    | inl lt ↦
        let f : true ≡ false = sym (o.lt_trans a b a h lt) ∙ o.lt_irrefl a in absurd (ground arith)
  ]

  IsNum-most : (a b : W) → IsNum {W = W} a → IsNum {W = W} (most a b)
  unfolding most
  IsNum-most a b n = elim (Bool-cases (a <? b)) [
    | inl lt ↦ rw lt (o.lt_num a b lt).1
    | inr ge ↦ rw ge n
  ]

  IsNum-least : (a b : W) → IsNum {W = W} a → IsNum {W = W} (least a b)
  unfolding least
  IsNum-least a b n = elim (Bool-cases (b <? a)) [
    | inl lt ↦ rw lt (o.lt_num b a lt).0
    | inr ge ↦ rw ge n
  ]

  pub least_not_above : (a b : W) → (a <? least a b) ≡ false
  unfolding least
  least_not_above a b = elim (Bool-cases (b <? a)) [
    | inl lt ↦ rw lt (lt_asym b a lt)
    | inr ge ↦ rw ge (o.lt_irrefl a)
  ]

  -- What is too old for a limit is too old for a later one.
  old_all :
      (limit more : W) (h : List (Sample W))
      → IsNum {W = W} limit
      → IsNum {W = W} more
      → (more <? limit) ≡ false
      → All IsSample h
      → All (λ s. is_old limit s ≡ true → is_old more s ≡ true) h
  old_all limit more [] hl hm le a = tt
  old_all limit more (s ∷ h) hl hm le a = (
    λ old. elim (Bool-cases (is_old more s)) [
      | inl e ↦ e
      | inr e ↦
          let f : true ≡ false = sym old ∙ o.ge_trans s.time more limit a.0.0 hm hl e le in
          absurd (ground arith)
    ],
    old_all limit more h hl hm le a.1,
  )

  -- The two windows track samples, the short one the last of those of the long one.
  record IsNested (r : RttWindow W) (long short : List (Sample W)) : Type 0 where
    long_tracks : Tracks r.min_rtt long
    short_tracks : Tracks r.unjittered_rtt short
    long_finds : r.min_rtt.find_min ≡ true
    short_finds : r.unjittered_rtt.find_min ≡ true
    nested : IsSuffix short long

  All-end : (P : Sample W → Type 0) (xs ys : List (Sample W)) → All P (xs ++ ys) → All P ys
  All-end P [] ys a = a
  All-end P (x ∷ xs) ys a = All-end P xs ys a.1

  IsNested-le :
      (r : RttWindow W) (long short : List (Sample W))
      → IsNested r long short
      → (r.min_rtt.extreme ≤? r.unjittered_rtt.extreme) ≡ true
  IsNested-le r long short n =
      let m = n.long_tracks in
      let u = n.short_tracks in
      let best = Tracks-IsBest o r.min_rtt long m in
      let found = Tracks-IsBest o r.unjittered_rtt short u in
      let held = Tracks-IsBest o r.min_rtt long m in
      let (pre, split) = n.nested in
      let low : All (λ s. (s.val <? m.first.val) ≡ false) long =
        subst (λ b. All (λ s. wins b s m.first ≡ false) long) n.long_finds best.unbeaten_by in
      let at : All (λ s. (s.val <? m.first.val) ≡ false) (u.first ∷ found.after) =
        All-end _ found.before _
          (subst (All _) found.split (All-end _ pre short (subst (All _) split low))) in
      let num_u : All IsSample (u.first ∷ found.after) =
        All-end _ found.before _ (subst (All IsSample) found.split u.samples) in
      let num_m : All IsSample (m.first ∷ held.after) =
        All-end _ held.before _ (subst (All IsSample) held.split m.samples) in
      ap₂ ◌≤?◌ m.extreme_eq u.extreme_eq
      ∙ o.le_of_not_lt m.first.val u.first.val num_m.0.1 num_u.0.1 at.0

  -- The two limits of a sample.
  abbrev pub long_time : RttWindow W → W
  long_time r = most (lit 10000 1) (lit 20 1 ⊗ r.min_rtt.extreme)

  abbrev pub short_time : RttWindow W → W → W
  short_time r rtt = least (long_time r) (smooth r.srtt rtt ⊗ lit 1 2)

  limits :
      (r : RttWindow W) (rtt now : W)
      → IsFinite {W = W} now
      → IsNum {W = W} (now ⊖ long_time r)
        × IsNum {W = W} (now ⊖ short_time r rtt)
        × ((now ⊖ short_time r rtt <? now ⊖ long_time r) ≡ false)
  limits r rtt now f =
      let nl = IsNum-most (lit 10000 1) (lit 20 1 ⊗ r.min_rtt.extreme) (o.lit_num 10000 0) in
      let ns = IsNum-least (long_time r) (smooth r.srtt rtt ⊗ lit 1 2) nl in
      (
        o.sub_num now (long_time r) f nl,
        o.sub_num now (short_time r rtt) f ns,
        o.sub_anti now (long_time r) (short_time r rtt) f nl ns
            (least_not_above (long_time r) (smooth r.srtt rtt ⊗ lit 1 2)),
      )

  update_max_time-Tracks :
      (w : ExtremeWindow W) (h : List (Sample W)) (t : W)
      → Tracks w h
      → Tracks (update_max_time w t) h
  unfolding update_max_time
  update_max_time-Tracks w h t k = record {
    samples = k.samples;
    sorted = k.sorted;
    vals_eq = k.vals_eq;
    first = k.first;
    others = k.others;
    front = k.front;
    extreme_eq = k.extreme_eq;
  }

  new_rtt_sample-IsNested :
      (r : RttWindow W) (long short : List (Sample W)) (rtt now : W)
      → IsNested r long short
      → IsNum {W = W} rtt
      → IsFinite {W = W} now
      → All (λ x. (now <? x.time) ≡ false) long
      → let s : Sample W = record { time = now; val = rtt } in
        IsNested
          (new_rtt_sample r rtt now)
          (kept (now ⊖ long_time r) long s)
          (kept (now ⊖ short_time r rtt) short s)
  unfolding new_rtt_sample update_max_time new_sample clear_old_hist push_sample kept
  new_rtt_sample-IsNested r long short rtt now n nr f late =
      let (nl, ns, le) = limits r rtt now f in
      let (pre, split) = n.nested in
      let late_short : All (λ x. (now <? x.time) ≡ false) short =
        All-end _ pre short (subst (All _) split late) in
      let s : Sample W = record { time = now; val = rtt } in
      record {
        long_tracks =
            new_sample-Tracks o (update_max_time r.min_rtt (long_time r)) long rtt now
              (update_max_time-Tracks r.min_rtt long (long_time r) n.long_tracks) nr f.0 nl late;
        short_tracks =
            new_sample-Tracks o (update_max_time r.unjittered_rtt (short_time r rtt)) short rtt now
              (update_max_time-Tracks r.unjittered_rtt short (short_time r rtt) n.short_tracks) nr
              f.0 ns late_short;
        long_finds = n.long_finds;
        short_finds = n.short_finds;
        nested =
            subst
              (λ l. IsSuffix (kept (now ⊖ short_time r rtt) short s) (kept (now ⊖ long_time r) l s))
              (sym split)
              (IsSuffix-trim (is_old (now ⊖ long_time r)) (is_old (now ⊖ short_time r rtt)) pre
                short s
                (old_all (now ⊖ long_time r) (now ⊖ short_time r rtt) short nl ns le
                  n.short_tracks.samples));
      }

  -- The first sample after a reset, which is below the greatest double.
  first_rtt_sample-IsNested :
      (r : RttWindow W) (rtt now : W)
      → r.min_rtt.find_min ≡ true
      → r.unjittered_rtt.find_min ≡ true
      → IsNum {W = W} rtt
      → (rtt <? greatest) ≡ true
      → IsFinite {W = W} now
      → let c = clear r in
        let s : Sample W = record { time = now; val = rtt } in
        IsNested
          (new_rtt_sample c rtt now)
          (kept (now ⊖ long_time c) [] s)
          (kept (now ⊖ short_time c rtt) [] s)
  unfolding new_rtt_sample update_max_time new_sample clear_old_hist push_sample kept clear
      clear_window
  first_rtt_sample-IsNested r rtt now lm um nr below f =
      let c : RttWindow W = clear r in
      let s : Sample W = record { time = now; val = rtt } in
      let (nl, ns, le) = limits c rtt now f in
      let beats_start : (b : Bool)
          → b ≡ true
          → beats b rtt (if b then greatest else d.least_positive) ≡ true =
        λ b e. rw e below in
      record {
        long_tracks =
            new_sample-Tracks_first o (update_max_time c.min_rtt (long_time c)) rtt now refl
              (beats_start r.min_rtt.find_min lm) nr f.0 nl;
        short_tracks =
            new_sample-Tracks_first o (update_max_time c.unjittered_rtt (short_time c rtt)) rtt now
              refl (beats_start r.unjittered_rtt.find_min um) nr f.0 ns;
        long_finds = lm;
        short_finds = um;
        nested =
            IsSuffix-trim (is_old (now ⊖ long_time c)) (is_old (now ⊖ short_time c rtt)) [] [] s tt;
      }

  -- The samples one after the other, each with its time.
  pub new_rtt_samples : RttWindow W → List (Sample W) → RttWindow W
  new_rtt_samples r [] = r
  new_rtt_samples r (s ∷ ss) = new_rtt_samples (new_rtt_sample r s.val s.time) ss

  pub new_rtt_samples-nil : (r : RttWindow W) → new_rtt_samples r [] ≡ r
  unfolding new_rtt_samples
  new_rtt_samples-nil r = refl

  pub new_rtt_samples-append :
      (r : RttWindow W) (xs : List (Sample W)) (s : Sample W)
      → new_rtt_samples r (xs ++ (s ∷ [])) ≡ new_rtt_sample (new_rtt_samples r xs) s.val s.time
  unfolding new_rtt_samples
  new_rtt_samples-append r [] s = refl
  new_rtt_samples-append r (x ∷ xs) s = new_rtt_samples-append (new_rtt_sample r x.val x.time) xs s

  -- Samples that are numbers, at finite times in their order.
  pub record IsRun (ss : List (Sample W)) : Type 0 where
    pub nums : All (λ s. IsNum {W = W} s.val × IsFinite {W = W} s.time) ss
    pub sorted : IsSorted ss

  All-front : (P : Sample W → Type 0) (xs ys : List (Sample W)) → All P (xs ++ ys) → All P xs
  All-front P [] ys a = tt
  All-front P (x ∷ xs) ys a = (a.0, All-front P xs ys a.1)

  IsSorted-front : (xs ys : List (Sample W)) → IsSorted (xs ++ ys) → IsSorted xs
  IsSorted-front [] ys h = tt
  IsSorted-front (x ∷ xs) ys h = (All-front _ xs ys h.0, IsSorted-front xs ys h.1)

  pub IsRun-front : (xs ys : List (Sample W)) → IsRun (xs ++ ys) → IsRun xs
  IsRun-front xs ys h = record {
    nums = All-front _ xs ys h.nums;
    sorted = IsSorted-front xs ys h.sorted;
  }

  -- Nothing in the list is later than any of the samples.
  abbrev Late : List (Sample W) → List (Sample W) → Type 0
  Late h ss = All (λ s. All (λ x. (s.time <? x.time) ≡ false) h) ss

  Late-kept :
      (limit : W) (h : List (Sample W)) (s : Sample W) (ss : List (Sample W))
      → Late h ss
      → All (λ y. (y.time <? s.time) ≡ false) ss
      → Late (kept limit h s) ss
  unfolding kept
  Late-kept limit h s [] l a = tt
  Late-kept limit h s (y ∷ ys) l a = (
    All-trim _ (is_old limit) (h ++ (s ∷ [])) (All-append _ h (s ∷ []) l.0 (a.0, tt)),
    Late-kept limit h s ys l.1 a.1,
  )

  new_rtt_samples-IsNested :
      (ss : List (Sample W)) (r : RttWindow W) (long short : List (Sample W))
      → IsNested r long short
      → All (λ s. IsNum {W = W} s.val × IsFinite {W = W} s.time) ss
      → IsSorted ss
      → Late long ss
      → (l : List (Sample W)) × (u : List (Sample W)) × IsNested (new_rtt_samples r ss) l u
  unfolding new_rtt_samples
  new_rtt_samples-IsNested [] r long short n nums sorted late = (long, short, n)
  new_rtt_samples-IsNested (s ∷ ss) r long short n nums sorted late =
      new_rtt_samples-IsNested ss (new_rtt_sample r s.val s.time)
        (kept (s.time ⊖ long_time r) long s) (kept (s.time ⊖ short_time r s.val) short s)
        (new_rtt_sample-IsNested r long short s.val s.time n nums.0.0 nums.0.1 late.0) nums.1
        sorted.1 (Late-kept (s.time ⊖ long_time r) long s ss late.1 sorted.0)

  -- After a reset and one or more samples, which are numbers at finite times in their order, the
  -- first of them below the greatest double, the round-trip time of the short window is at least the
  -- minimum: the assertion of `onACK` holds.
  pub min_rtt-le-unjittered_rtt :
      (r : RttWindow W) (s : Sample W) (ss : List (Sample W))
      → r.min_rtt.find_min ≡ true
      → r.unjittered_rtt.find_min ≡ true
      → IsRun (s ∷ ss)
      → (s.val <? greatest) ≡ true
      → let r' = new_rtt_samples (clear r) (s ∷ ss) in
        (get_min_rtt r' ≤? get_unjittered_rtt r') ≡ true
  unfolding new_rtt_samples
  min_rtt-le-unjittered_rtt r s ss lm um run below =
      let c : RttWindow W = clear r in
      let n = first_rtt_sample-IsNested r s.val s.time lm um run.nums.0.0 below run.nums.0.1 in
      let (l, u, m) =
        new_rtt_samples-IsNested ss (new_rtt_sample c s.val s.time)
          (kept (s.time ⊖ long_time c) [] s) (kept (s.time ⊖ short_time c s.val) [] s) n run.nums.1
          run.sorted.1 (Late-kept (s.time ⊖ long_time c) [] s ss (nothing ss) run.sorted.0) in
      IsNested-le (new_rtt_samples c (s ∷ ss)) l u (unfold new_rtt_samples in m)
    where
      nothing : (ss : List (Sample W)) → Late [] ss
      nothing [] = tt
      nothing (s ∷ ss) = (tt, nothing ss)
