-- ===== src/DefaultCc/Recovery.antt =====
-- Repeated acknowledgements: the third one halves the window, and the next new one ends the recovery.
use copa_new.Prelude.{ℕ, zero, suc, ◌+◌, ◌≡◌, refl, ap, ◌∙◌, true, false, ◌==◌, ltb, leb, arith}
use copa_new.Prelude.Int.{ℤ, pos, ◌+ℤ◌, eqb_ℤ, ◌≤ℤ◌}
use copa_new.Double.{Double, ◌⊕◌, ◌⊘◌, lit, whole}
use copa_new.DefaultCc.{
  DefaultCc, half_window, ack_action, dup_ack_action, same_ack, recovered, new_ack, on_ack_default,
}

eqb_ℤ-refl : (a : ℤ) → eqb_ℤ a a ≡ true
eqb_ℤ-refl a = ground arith

module _ {W : Type 0} ⦃d : Double W⦄ where
  -- The same acknowledgement n times.
  abbrev pub repeated : ℕ → DefaultCc W → ℤ → DefaultCc W
  repeated zero c ack = c
  repeated (suc n) c ack = on_ack_default (repeated n c ack) ack

  -- A window raised by one n times.
  abbrev pub raised : ℕ → W → W
  raised zero w = w
  raised (suc n) w = raised n w ⊕ lit 1 1

  -- In recovery, from a threshold, for n repetitions behind the third.
  pub record InRecovery (threshold ack : ℤ) (n : ℕ) (c : DefaultCc W) : Type 0 where
    pub threshold_eq : c.issthresh ≡ threshold
    pub window_eq : c.the_window ≡ raised n (d.of_int (threshold +ℤ pos 3))
    pub slow_start_eq : c.slow_start ≡ false
    pub last_eq : c.last_ack ≡ ack
    pub count_eq : c.dup_ack_count ≡ n + 3

  third-InRecovery :
      (c : DefaultCc W) (ack : ℤ)
      → c.last_ack ≡ ack
      → c.dup_ack_count ≡ 2
      → InRecovery (half_window c) ack 0 (on_ack_default c ack)
  unfolding on_ack_default same_ack dup_ack_action half_window
  third-InRecovery c ack l n =
      let same : eqb_ℤ ack c.last_ack ≡ true = ap (eqb_ℤ ack) l ∙ eqb_ℤ-refl ack in
      let three : (c.dup_ack_count + 1 == 3) ≡ true = ground (arith, n) in
      rw (same, three)
        (record {
          threshold_eq = refl;
          window_eq = refl;
          slow_start_eq = refl;
          last_eq = l;
          count_eq = omega (arith, n);
        })

  more-InRecovery :
      (threshold ack : ℤ) (n : ℕ) (c : DefaultCc W)
      → InRecovery threshold ack n c
      → InRecovery threshold ack (suc n) (on_ack_default c ack)
  unfolding on_ack_default same_ack
  more-InRecovery threshold ack n c h =
      let same : eqb_ℤ ack c.last_ack ≡ true = ap (eqb_ℤ ack) h.last_eq ∙ eqb_ℤ-refl ack in
      let three : (c.dup_ack_count + 1 == 3) ≡ false = ground (arith, h.count_eq) in
      let over : ltb 3 (c.dup_ack_count + 1) ≡ true = ground (arith, h.count_eq) in
      rw (same, three, over)
        (record {
          threshold_eq = h.threshold_eq;
          window_eq = ap (λ w. w ⊕ lit 1 1) h.window_eq;
          slow_start_eq = h.slow_start_eq;
          last_eq = h.last_eq;
          count_eq = omega (arith, h.count_eq);
        })

  repeated-InRecovery :
      (c : DefaultCc W) (ack : ℤ) (n : ℕ)
      → c.last_ack ≡ ack
      → c.dup_ack_count ≡ 2
      → InRecovery (half_window c) ack n (repeated (suc n) c ack)
  repeated-InRecovery c ack zero l k = third-InRecovery c ack l k
  repeated-InRecovery c ack (suc n) l k =
      more-InRecovery (half_window c) ack n (repeated (suc n) c ack)
        (repeated-InRecovery c ack n l k)

  half_window-ge-two : (c : DefaultCc W) → pos 2 ≤ℤ half_window c
  unfolding half_window
  half_window-ge-two c = ground arith

  -- Out of recovery: the window is the threshold and the part of one that it adds for a packet.
  pub record IsOver (threshold ack : ℤ) (c : DefaultCc W) : Type 0 where
    pub threshold_eq : c.issthresh ≡ threshold
    pub window_eq : c.the_window ≡ d.of_int threshold ⊕ lit 1 1 ⊘ d.of_int threshold
    pub slow_start_eq : c.slow_start ≡ false
    pub last_eq : c.last_ack ≡ ack
    pub count_eq : c.dup_ack_count ≡ 1

  InRecovery-IsOver :
      (threshold ack : ℤ) (n : ℕ) (c : DefaultCc W) (next : ℤ)
      → InRecovery threshold ack n c
      → eqb_ℤ next ack ≡ false
      → IsOver threshold next (on_ack_default c next)
  unfolding on_ack_default new_ack recovered ack_action
  InRecovery-IsOver threshold ack n c next h ne =
      let other : eqb_ℤ next c.last_ack ≡ false = ap (eqb_ℤ next) h.last_eq ∙ ne in
      let many : leb 3 c.dup_ack_count ≡ true = ground (arith, h.count_eq) in
      rw (other, many, h.slow_start_eq)
        (record {
          threshold_eq = h.threshold_eq;
          window_eq = ap (λ t. d.of_int t ⊕ lit 1 1 ⊘ d.of_int t) h.threshold_eq;
          slow_start_eq = refl;
          last_eq = refl;
          count_eq = refl;
        })

  -- A sender that saw an acknowledgement twice: half its window, and at least 2, is the threshold of a
  -- recovery. With the third and any n further repetitions the window is three above the threshold
  -- and one more for each of the n, without slow start; the next other acknowledgement sets the
  -- window to the threshold and its increment, and the count to 1.
  pub repeated-recovers :
      (c : DefaultCc W) (ack : ℤ) (n : ℕ) (next : ℤ)
      → c.last_ack ≡ ack
      → c.dup_ack_count ≡ 2
      → eqb_ℤ next ack ≡ false
      → (pos 2 ≤ℤ half_window c)
        × InRecovery (half_window c) ack n (repeated (suc n) c ack)
        × IsOver (half_window c) next (on_ack_default (repeated (suc n) c ack) next)
  repeated-recovers c ack n next l k ne =
      let r = repeated-InRecovery c ack n l k in
      (
        half_window-ge-two c,
        r,
        InRecovery-IsOver (half_window c) ack n (repeated (suc n) c ack) next r ne,
      )
