-- ===== src/Copa/Window.antt =====
-- The window of the controller, and the packets that are not acknowledged, after any sequence of
-- events.
use copa_new.Prelude.{
  ◌*◌, ◌-◌, ◌≡◌, refl, sym, ap, subst, ◌∙◌, Bool, true, false, not, ◌||◌, Option, none, some,
  Bool-cases, inl, inr, arith, ltb,
}
use copa_new.Prelude.Int.{ℤ, pos, negsuc, ◌-ℤ◌}
use copa_new.Double.{Double, IsOrdered, IsNum, ◌<?◌, ◌≤?◌, lit, most}
use copa_new.RttWindow.{get_unjittered_rtt}
use copa_new.RttWindow.Jitter.{lt_asym}
use copa_new.Copa.{Copa, num_probe_pkts, init}
use copa_new.Copa.Pace.{update_intersend_time, set_intersend, set_intersend?, move}
use copa_new.Copa.Ack.{
  Scan, note_packet, note_arrival, add_sample, start_scan, is_unacked, retire, shrink, after_loss,
  reduce_window, settle, settle?, conclude, measured, curr_rtt, on_ack,
}
use copa_new.Copa.Frame.{
  if_elim, OnSome, update_delta-IsKept, note_arrival-IsKept, OnSome-map, OnSome-both,
}
use copa_new.Copa.Loss.{IsAbove, scan-IsScanned}
use copa_new.Copa.Acked.{tally, moved-tally}

module _ {W : Type 0} ⦃d : Double W⦄ where
  -- A number that is not below 2.
  abbrev pub IsFull : W → Type 0
  IsFull w = IsNum {W = W} w × ((w <? lit 2 1) ≡ false)

  measured-window : (c : Copa W) (rtt : W) → (measured c rtt).the_window ≡ c.the_window
  unfolding measured add_sample
  measured-window c rtt =
      let s : Copa W = add_sample c rtt in
      (update_delta-IsKept (note_arrival s) false rtt).window_eq ∙ (note_arrival-IsKept s).window_eq

  retire-window :
      (c : Copa W) (seq : ℤ)
      → IsAbove (negsuc 0) c.unacknowledged_packets
      → OnSome (λ s. s.copa.the_window ≡ c.the_window) (retire c seq)
  unfolding retire
  retire-window c seq h =
      let (s, e, k) = scan-IsScanned (start_scan c) seq (negsuc 0) c.unacknowledged_packets h in
      elim (Bool-cases (is_unacked seq c.unacknowledged_packets)) [
        | inl b ↦ rw (b, e) (ap (λ t. t.6) k.rest_eq)
        | inr b ↦ rw b refl
      ]

module _ {W : Type 0} ⦃d : Double W⦄ (o : IsOrdered W) where
  most-IsFull : (w : W) → IsFull (most (lit 2 1) w)
  unfolding most
  most-IsFull w = elim (Bool-cases (lit 2 1 <? w)) [
    | inl e ↦ rw e ((o.lt_num (lit 2 1) w e).1, lt_asym o (lit 2 1) w e)
    | inr e ↦ rw e (o.lit_num 2 0, o.lt_irrefl (lit 2 1))
  ]

  set_intersend-IsFull : (c : Copa W) (rtt : W) → IsFull (set_intersend c rtt).the_window
  unfolding set_intersend
  set_intersend-IsFull c rtt = most-IsFull c.the_window

  set_intersend?-IsFull :
      (m : Option (Copa W)) (rtt : W) → OnSome (λ c. IsFull c.the_window) (set_intersend? m rtt)
  unfolding set_intersend?
  set_intersend?-IsFull none rtt = tt
  set_intersend?-IsFull (some c) rtt = set_intersend-IsFull c rtt

  update_intersend_time-IsFull :
      (c : Copa W)
      → IsFull c.the_window
      → OnSome (λ m. IsFull m.the_window) (update_intersend_time c)
  unfolding update_intersend_time
  update_intersend_time-IsFull c h =
      if_elim (OnSome (λ m. IsFull m.the_window)) (ltb c.num_pkts_acked (2 * num_probe_pkts - 1)) h
        (set_intersend?-IsFull (move c) (get_unjittered_rtt c.rtt_window))

  shrink-IsFull : (c : Copa W) → IsFull (shrink c).the_window
  unfolding shrink
  shrink-IsFull c = set_intersend-IsFull _ (get_unjittered_rtt c.rtt_window)

  after_loss-window : (s : Scan W) → (after_loss s).copa.the_window ≡ s.copa.the_window
  unfolding after_loss
  after_loss-window s =
      if_elim {A = Scan W} (λ r. r.copa.the_window ≡ s.copa.the_window) s.pkt_lost
        (update_delta-IsKept s.copa true (lit 0 1)).window_eq refl

  note_packet-window :
      (s : Scan W) (loss : Bool) → (note_packet s loss).copa.the_window ≡ s.copa.the_window
  unfolding note_packet
  note_packet-window s loss = refl

  reduce_window-IsFull :
      (s : Scan W) → IsFull s.copa.the_window → IsFull (reduce_window s).the_window
  unfolding reduce_window
  reduce_window-IsFull s h =
      if_elim {A = Copa W} (λ c. IsFull c.the_window) s.reduce (shrink-IsFull s.copa) h

  settle-IsFull : (s : Scan W) → IsFull s.copa.the_window → IsFull (settle s).the_window
  unfolding settle
  settle-IsFull s h =
      reduce_window-IsFull (note_packet (after_loss s) false)
        (subst IsFull (sym (note_packet-window (after_loss s) false ∙ after_loss-window s)) h)

  settle?-IsFull :
      (m : Option (Scan W))
      → OnSome (λ s. IsFull s.copa.the_window) m
      → OnSome (λ c. IsFull c.the_window) (settle? m)
  unfolding settle?
  settle?-IsFull none h = tt
  settle?-IsFull (some s) h = settle-IsFull s h

  conclude-IsFull :
      (m : Option (Copa W)) (seq : ℤ)
      → OnSome (λ c. IsFull c.the_window × IsAbove (negsuc 0) c.unacknowledged_packets) m
      → OnSome (λ c. IsFull c.the_window) (conclude m seq)
  unfolding conclude
  conclude-IsFull none seq h = tt
  conclude-IsFull (some c) seq h = settle?-IsFull (retire c seq) (
      OnSome-map (λ s. s.copa.the_window ≡ c.the_window) (λ s. IsFull s.copa.the_window)
        (λ s e. subst IsFull (sym e) h.0) (retire c seq) (retire-window c seq h.1))

  moved-IsFull :
      (c : Copa W) (rtt : W)
      → IsFull c.the_window
      → IsAbove (negsuc 0) c.unacknowledged_packets
      → OnSome
          (λ m. IsFull m.the_window × IsAbove (negsuc 0) m.unacknowledged_packets)
          (update_intersend_time (measured c rtt))
  unfolding add_sample
  moved-IsFull c rtt h k =
      let m : Option (Copa W) = update_intersend_time (measured c rtt) in
      OnSome-both (λ m. IsFull m.the_window) (λ m. IsAbove (negsuc 0) m.unacknowledged_packets) m
        (update_intersend_time-IsFull (measured c rtt)
          (subst IsFull (sym (measured-window c rtt)) h))
        (OnSome-map (λ m. tally m ≡ tally (add_sample c rtt))
          (λ m. IsAbove (negsuc 0) m.unacknowledged_packets)
          (λ m e. subst (IsAbove (negsuc 0)) (sym (ap (λ t. t.0) e)) k) m (moved-tally c rtt))

  pub on_ack-IsFull :
      (c : Copa W) (ack : ℤ) (sent_time : W) (adjust_us : ℤ)
      → IsFull c.the_window
      → IsAbove (negsuc 0) c.unacknowledged_packets
      → OnSome (λ c'. IsFull c'.the_window) (on_ack c ack sent_time adjust_us)
  unfolding on_ack add_sample
  on_ack-IsFull c ack sent_time adjust_us h k =
      let rtt : W = curr_rtt c sent_time adjust_us in
      let s : Copa W = add_sample c rtt in
      if_elim (OnSome (λ c'. IsFull c'.the_window))
        (not (sent_time <? c.cur_tick) || not (s.min_rtt ≤? get_unjittered_rtt s.rtt_window)) tt
        (conclude-IsFull (update_intersend_time (measured c rtt)) (ack -ℤ pos 1)
          (moved-IsFull c rtt h k))

  pub init-IsFull : (c : Copa W) → IsFull (init c).the_window
  unfolding init
  init-IsFull c = (o.lit_num num_probe_pkts 0, o.lit_mono num_probe_pkts 2 (omega arith))
