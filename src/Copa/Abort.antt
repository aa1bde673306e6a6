-- ===== src/Copa/Abort.antt =====
-- When an assertion of the controller fails.
use copa_new.Prelude.{
  ◌*◌, ◌-◌, ◌≡◌, refl, sym, ap, subst, ◌∙◌, Bool, true, false, not, ◌||◌, ◌&&◌, Option, none, some,
  if◌then◌else◌, Bool-cases, inl, inr, ltb,
}
use copa_new.Prelude.Int.{ℤ, pos, negsuc, ◌-ℤ◌}
use copa_new.Double.{Double, ◌<?◌, ◌≤?◌, ◌≡?◌, greatest}
use copa_new.RttWindow.{get_unjittered_rtt}
use copa_new.Copa.{Copa, num_probe_pkts}
use copa_new.Copa.Pace.{
  target_window, start_up, move, set_intersend?, update_intersend_time, approach, limit_amount,
  new_round,
}
use copa_new.Copa.Ack.{add_sample, measured, curr_rtt, settle?, conclude, on_ack}
use copa_new.Copa.Frame.{OnSome}
use copa_new.Copa.Loss.{IsAbove}
use copa_new.Copa.Acked.{tally, retire-tally, moved-tally}

abbrev pub is_none {ℓ} : {A : Type ℓ} → Option A → Bool
is_none none = true
is_none (some a) = false

and-false : (a b : Bool) → (a && (b && false)) ≡ false
and-false true true = refl
and-false true false = refl
and-false false b = refl

is_none-if {ℓ} :
    {A : Type ℓ} (b : Bool) (x : Option A) (y : A)
    → is_none (if b then x else some y) ≡ (b && is_none x)
is_none-if true x y = refl
is_none-if false x y = refl

module _ {W : Type 0} ⦃d : Double W⦄ where
  -- The state of the start in which the window has no rule.
  unfoldable pub is_stuck : Copa W → Bool
  is_stuck c =
      not (ltb c.num_pkts_acked (2 * num_probe_pkts - 1))
      && (c.slow_start && not (c.do_slow_start || (target_window c ≡? greatest)))

  pub is_stuck-slow_start : (c : Copa W) → c.do_slow_start ≡ true → is_stuck c ≡ false
  unfolding is_stuck
  is_stuck-slow_start c h = rw h (and-false (not (ltb c.num_pkts_acked 19)) c.slow_start)

  set_intersend?-is_none :
      (m : Option (Copa W)) (rtt : W) → is_none (set_intersend? m rtt) ≡ is_none m
  unfolding set_intersend?
  set_intersend?-is_none none rtt = refl
  set_intersend?-is_none (some c) rtt = refl

  start_up-is_none :
      (c : Copa W) → is_none (start_up c) ≡ not (c.do_slow_start || (target_window c ≡? greatest))
  unfolding start_up
  start_up-is_none c = elim (Bool-cases (c.do_slow_start || (target_window c ≡? greatest))) [
    | inl e ↦ rw e
    | inr e ↦ rw e
  ]

  move-is_none :
      (c : Copa W)
      → is_none (move c) ≡ (c.slow_start && not (c.do_slow_start || (target_window c ≡? greatest)))
  unfolding move
  move-is_none c =
      is_none-if c.slow_start (start_up c) (approach (limit_amount (new_round c)) (target_window c))
      ∙ ap (λ b. c.slow_start && b) (start_up-is_none c)

  pub update_intersend_time-is_none : (c : Copa W) → is_none (update_intersend_time c) ≡ is_stuck c
  unfolding update_intersend_time is_stuck
  update_intersend_time-is_none c =
      elim (Bool-cases (ltb c.num_pkts_acked (2 * num_probe_pkts - 1))) [
        | inl e ↦ rw e
        | inr e ↦
            rw e
              (set_intersend?-is_none (move c) (get_unjittered_rtt c.rtt_window) ∙ move-is_none c)
      ]

  conclude-is_none :
      (c : Copa W) (m : Option (Copa W)) (seq : ℤ)
      → IsAbove (negsuc 0) c.unacknowledged_packets
      → OnSome (λ m. tally m ≡ tally c) m
      → is_none (conclude m seq) ≡ is_none m
  unfolding conclude settle?
  conclude-is_none c none seq h k = refl
  conclude-is_none c (some m) seq h k =
      let (s, e, t) = retire-tally m seq (subst (IsAbove (negsuc 0)) (sym (ap (λ t. t.0) k)) h) in
      rw e

  -- When the entries are in order, `onACK` fails exactly when the packet was not sent before now, the
  -- round-trip time of the short window is below the minimum, or the start is over its first packets
  -- without a slow start asked for and the target is not the greatest double.
  pub on_ack-is_none :
      (c : Copa W) (ack : ℤ) (sent_time : W) (adjust_us : ℤ)
      → IsAbove (negsuc 0) c.unacknowledged_packets
      → let rtt = curr_rtt c sent_time adjust_us in
        let s = add_sample c rtt in
        is_none (on_ack c ack sent_time adjust_us) ≡ (
          (not (sent_time <? c.cur_tick) || not (s.min_rtt ≤? get_unjittered_rtt s.rtt_window))
          || is_stuck (measured c rtt))
  unfolding on_ack add_sample
  on_ack-is_none c ack sent_time adjust_us h =
      let rtt : W = curr_rtt c sent_time adjust_us in
      let s : Copa W = add_sample c rtt in
      let m : Option (Copa W) = update_intersend_time (measured c rtt) in
      elim (Bool-cases
        (not (sent_time <? c.cur_tick) || not (s.min_rtt ≤? get_unjittered_rtt s.rtt_window))) [
          | inl e ↦ rw e
          | inr e ↦ rw e (
              conclude-is_none s m (ack -ℤ pos 1) h (moved-tally c rtt)
              ∙ update_intersend_time-is_none (measured c rtt))
        ]
