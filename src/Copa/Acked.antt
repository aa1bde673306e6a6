-- ===== src/Copa/Acked.antt =====
-- What `onACK` does to the packets that are not acknowledged and to the counters.
use copa_new.Prelude.{
  ℕ, ◌+◌, ◌≡◌, refl, sym, ap, subst, ◌∙◌, List, Bool, true, false, not, ◌||◌, Option, none, some,
  if◌then◌else◌, Bool-cases, inl, inr, arith,
}
use copa_new.Prelude.Int.{ℤ, pos, negsuc, ◌-ℤ◌}
use copa_new.Double.{Double, ◌<?◌, ◌≤?◌, lit}
use copa_new.RttWindow.{RttWindow, new_rtt_sample, get_unjittered_rtt}
use copa_new.Copa.{Copa, Unacked}
use copa_new.Copa.Pace.{update_intersend_time}
use copa_new.Copa.Ack.{
  Scan, note_packet, note_arrival, add_sample, start_scan, is_unacked, retire, shrink, after_loss,
  reduce_window, settle, settle?, conclude, measured, curr_rtt, on_ack,
}
use copa_new.Copa.Frame.{
  Books, if_elim, OnSome, IsBooked, update_delta-IsKept, note_arrival-IsKept,
  update_intersend_time-IsBooked, set_intersend-IsBooked, OnSome-of, OnSome-map,
}
use copa_new.Copa.Loss.{IsAbove, later, num_below, scan-IsScanned}

abbrev pub Tally : Type 0 → Type 0
Tally W = List (Unacked W) × ℕ × ℕ × ℕ × RttWindow W × Bool

module _ {W : Type 0} where
  abbrev pub tally : Copa W → Tally W
  tally c = (
    c.unacknowledged_packets, c.num_pkts_lost, c.num_pkts_acked, c.num_pkts_sent, c.rtt_window,
    c.do_slow_start,
  )

  abbrev pub of_books : Books W → Tally W
  of_books b = (b.0, b.1, b.2, b.3, b.4, b.7)

  tuple :
      {xs ys : List (Unacked W)} {a a' b b' e e' : ℕ} {r r' : RttWindow W} {t t' : Bool}
      → xs ≡ ys
      → a ≡ a'
      → b ≡ b'
      → e ≡ e'
      → r ≡ r'
      → t ≡ t'
      → ◌≡◌ {A = Tally W} (xs, a, b, e, r, t) (ys, a', b', e', r', t')
  tuple h i j k l m = cc

  -- The entries that the number `seq` leaves, and how many it tells to be lost: none if it is not
  -- in the list.
  unfoldable pub left : ℤ → List (Unacked W) → List (Unacked W)
  left seq xs = if is_unacked seq xs then later seq xs else xs

  unfoldable pub num_lost : ℤ → List (Unacked W) → ℕ
  num_lost seq xs = if is_unacked seq xs then num_below seq xs else 0

module _ {W : Type 0} ⦃d : Double W⦄ where
  pub measured-tally : (c : Copa W) (rtt : W) → tally (measured c rtt) ≡ tally (add_sample c rtt)
  unfolding measured
  measured-tally c rtt =
      let s : Copa W = add_sample c rtt in
      ap of_books (update_delta-IsKept (note_arrival s) false rtt).books_eq
      ∙ ap of_books (note_arrival-IsKept s).books_eq

  note_packet-tally : (s : Scan W) (loss : Bool) → tally (note_packet s loss).copa ≡ tally s.copa
  unfolding note_packet
  note_packet-tally s loss = refl

  shrink-tally : (c : Copa W) → tally (shrink c) ≡ tally c
  unfolding shrink
  shrink-tally c = ap of_books (set_intersend-IsBooked _ (get_unjittered_rtt c.rtt_window))

  pub retire-tally :
      (c : Copa W) (seq : ℤ)
      → IsAbove (negsuc 0) c.unacknowledged_packets
      → (s : Scan W) × (retire c seq ≡ some s)
        × (tally s.copa ≡ (
          left seq c.unacknowledged_packets,
          c.num_pkts_lost + num_lost seq c.unacknowledged_packets,
          c.num_pkts_acked,
          c.num_pkts_sent,
          c.rtt_window,
          c.do_slow_start,
        ))
  unfolding retire left num_lost
  retire-tally c seq h =
      let (s, e, k) = scan-IsScanned (start_scan c) seq (negsuc 0) c.unacknowledged_packets h in
      let r = k.rest_eq in
      elim (Bool-cases (is_unacked seq c.unacknowledged_packets)) [
        | inl b ↦ (
          s,
          rw (b, e),
          rw b (
              tuple k.unacked_eq k.lost_eq (ap (λ t. t.0) r) (ap (λ t. t.1) r) (ap (λ t. t.2) r)
                (ap (λ t. t.5) r)),
        )
        | inr b ↦ (start_scan c, rw b, rw b (tuple refl (omega arith) refl refl refl refl))
      ]

  after_loss-tally : (s : Scan W) → tally (after_loss s).copa ≡ tally s.copa
  unfolding after_loss
  after_loss-tally s =
      if_elim {A = Scan W} (λ r. tally r.copa ≡ tally s.copa) s.pkt_lost
        (ap of_books (update_delta-IsKept s.copa true (lit 0 1)).books_eq) refl

  reduce_window-tally : (s : Scan W) → tally (reduce_window s) ≡ tally s.copa
  unfolding reduce_window
  reduce_window-tally s = if_elim (λ c. tally c ≡ tally s.copa) s.reduce (shrink-tally s.copa) refl

  settle-tally :
      (s : Scan W)
      → tally (settle s) ≡ (
        s.copa.unacknowledged_packets,
        s.copa.num_pkts_lost,
        s.copa.num_pkts_acked + 1,
        s.copa.num_pkts_sent,
        s.copa.rtt_window,
        s.copa.do_slow_start,
      )
  unfolding settle
  settle-tally s =
      let n : Scan W = note_packet (after_loss s) false in
      ap (λ t. (t.0, t.1, t.2 + 1, t.3, t.4, t.5))
        (reduce_window-tally n ∙ note_packet-tally (after_loss s) false ∙ after_loss-tally s)

  -- The counters and the entries after `onACK`, for the number `seq`.
  abbrev pub acked_tally : Copa W → ℤ → RttWindow W → Tally W
  acked_tally c seq r = (
    left seq c.unacknowledged_packets,
    c.num_pkts_lost + num_lost seq c.unacknowledged_packets,
    c.num_pkts_acked + 1,
    c.num_pkts_sent,
    r,
    c.do_slow_start,
  )

  conclude-tally :
      (c : Copa W) (o : Option (Copa W)) (seq : ℤ)
      → IsAbove (negsuc 0) c.unacknowledged_packets
      → OnSome (λ m. tally m ≡ tally c) o
      → OnSome (λ c'. tally c' ≡ acked_tally c seq c.rtt_window) (conclude o seq)
  unfolding conclude settle?
  conclude-tally c none seq h k = tt
  conclude-tally c (some m) seq h k =
      let (s, e, t) = retire-tally m seq (subst (IsAbove (negsuc 0)) (sym (ap (λ t. t.0) k)) h) in
      rw e (
        settle-tally s
        ∙ ap (λ t. (t.0, t.1, t.2 + 1, t.3, t.4, t.5)) t
        ∙ ap (λ t. (left seq t.0, t.1 + num_lost seq t.0, t.2 + 1, t.3, t.4, t.5)) k)

  pub moved-tally :
      (c : Copa W) (rtt : W)
      → OnSome (λ m. tally m ≡ tally (add_sample c rtt)) (update_intersend_time (measured c rtt))
  moved-tally c rtt =
      OnSome-map (IsBooked (measured c rtt)) (λ m. tally m ≡ tally (add_sample c rtt))
        (λ m e. ap of_books e ∙ measured-tally c rtt) (update_intersend_time (measured c rtt))
        (update_intersend_time-IsBooked (measured c rtt))

  -- When the entries are in the order of their numbers, which are not negative, an acknowledgement
  -- that is processed takes away the entries up to its number if there is one for it, counts those
  -- below it as lost, counts itself, adds its round-trip time to the windows, and leaves the number of
  -- packets sent.
  pub on_ack-tally :
      (c c' : Copa W) (ack : ℤ) (sent_time : W) (adjust_us : ℤ)
      → IsAbove (negsuc 0) c.unacknowledged_packets
      → on_ack c ack sent_time adjust_us ≡ some c'
      → tally c'
        ≡ acked_tally c
            (ack -ℤ pos 1)
            (new_rtt_sample c.rtt_window (curr_rtt c sent_time adjust_us) c.cur_tick)
  unfolding on_ack add_sample
  on_ack-tally c c' ack sent_time adjust_us h e =
      let rtt : W = curr_rtt c sent_time adjust_us in
      let s : Copa W = add_sample c rtt in
      let seq : ℤ = ack -ℤ pos 1 in
      let P : Copa W → Type 0 = λ m. tally m ≡ acked_tally s seq s.rtt_window in
      OnSome-of P c'
        (if_elim (OnSome P)
          (not (sent_time <? c.cur_tick) || not (s.min_rtt ≤? get_unjittered_rtt s.rtt_window)) tt
          (conclude-tally s (update_intersend_time (measured c rtt)) seq h (moved-tally c rtt)))
        e
