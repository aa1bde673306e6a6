-- ===== src/Copa/Reach.antt =====
-- The events of a controller as steps, and the states they reach from a reset.
use copa_new.Prelude.{
  ℕ, ◌+◌, ◌≤◌, ◌≡◌, refl, sym, ap, subst, List, [], ◌∷◌, Bool, some, Bool-cases, inl, inr, arith,
  length,
}
use copa_new.Prelude.Int.{ℤ, pos, negsuc, ◌-ℤ◌, ◌<ℤ◌, ltb_ℤ, eqb_ℤ, ltb_ℤ→lt}
use copa_new.Double.{Double, IsOrdered, ◌⊖◌, ◌<?◌}
use copa_new.RttWindow.{RttWindow, get_unjittered_rtt}
use copa_new.Estimators.{ewma_update, force_set}
use copa_new.Copa.{
  Copa, Unacked, PacketData, init, set_timestamp, set_flow_length, set_min_rtt,
  set_delta_from_router, on_tiny_pkt_sent, is_bounded_delay,
}
use copa_new.Copa.Ack.{on_ack, is_unacked, insert_unacked, packet_data, note_waiting, on_pkt_sent}
use copa_new.Copa.Frame.{if_elim, OnSome-of}
use copa_new.Copa.Loss.{IsAbove, later-IsAbove, length-later, IsAbove-weaken}
use copa_new.Copa.Acked.{left, num_lost, on_ack-tally}
use copa_new.Copa.Window.{IsFull, on_ack-IsFull, init-IsFull}

-- One event: an acknowledgement that is processed, a packet that is sent, and the setters.
pub data Step {W : Type 0} ⦃d : Double W⦄ : Copa W → Copa W → Type 0 where
  acked :
      (c c' : Copa W) (ack : ℤ) (sent_time : W) (adjust_us : ℤ)
      → on_ack c ack sent_time adjust_us ≡ some c'
      → Step c c'
  sent : (c : Copa W) (late : Bool) (seq : ℤ) → negsuc 0 <ℤ seq → Step c (on_pkt_sent late c seq)
  tiny_sent : (c : Copa W) → Step c (on_tiny_pkt_sent c)
  ticked : (c : Copa W) (t : W) → Step c (set_timestamp c t)
  flow_set : (c : Copa W) (n : ℤ) → Step c (set_flow_length c n)
  delta_set : (c : Copa W) (x : W) → Step c (set_delta_from_router c x)
  restarted : (c : Copa W) (x : W) → Step c (set_min_rtt c x)

pub data Reach {W : Type 0} ⦃d : Double W⦄ (c : Copa W) : Copa W → Type 0 where
  here : Reach c c
  next : {c' c'' : Copa W} → Reach c c' → Step c' c'' → Reach c c''

-- The window is a number that is at least 2, the entries stand in the order of their numbers, none
-- of them negative, and those that are lost or wait are no more than those sent.
pub record IsSound {W : Type 0} ⦃d : Double W⦄ (c : Copa W) : Type 0 where
  pub full : IsFull c.the_window
  pub ordered : IsAbove (negsuc 0) c.unacknowledged_packets
  pub counted : c.num_pkts_lost + length c.unacknowledged_packets ≤ c.num_pkts_sent

module _ {W : Type 0} where
  left-IsAbove : (seq b : ℤ) (xs : List (Unacked W)) → IsAbove b xs → IsAbove b (left seq xs)
  unfolding left
  left-IsAbove seq b xs h = if_elim (IsAbove b) (is_unacked seq xs) (later-IsAbove seq b xs h) h

  length-left :
      (seq : ℤ) (xs : List (Unacked W)) → num_lost seq xs + length (left seq xs) ≤ length xs
  unfolding left num_lost
  length-left seq xs = elim (Bool-cases (is_unacked seq xs)) [
    | inl e ↦ rw e (length-later seq xs)
    | inr e ↦ rw e (omega arith)
  ]

module _ {W : Type 0} ⦃d : Double W⦄ where
  insert_unacked-IsAbove :
      (seq b : ℤ) (p : PacketData W) (xs : List (Unacked W))
      → b <ℤ seq
      → IsAbove b xs
      → IsAbove b (insert_unacked seq p xs)
  unfolding insert_unacked IsAbove
  insert_unacked-IsAbove seq b p [] h k = (h, tt)
  insert_unacked-IsAbove seq b p (x ∷ xs) h k = elim (Bool-cases (ltb_ℤ seq x.seq)) [
    | inl lt ↦ rw lt (h, (ltb_ℤ→lt seq x.seq lt, k.1))
    | inr ge ↦ elim (Bool-cases (eqb_ℤ x.seq seq)) [
      | inl e ↦ rw (ge, e) (h, IsAbove-weaken seq x.seq xs (ground (arith, e)) k.1)
      | inr ne ↦
          rw (ge, ne) (k.0, insert_unacked-IsAbove seq x.seq p xs (ground (arith, ge, ne)) k.1)
    ]
  ]

  length-insert_unacked :
      (seq : ℤ) (p : PacketData W) (xs : List (Unacked W))
      → length (insert_unacked seq p xs) ≤ length xs + 1
  unfolding insert_unacked
  length-insert_unacked seq p [] = omega arith
  length-insert_unacked seq p (x ∷ xs) =
      if_elim {A = List (Unacked W)} (λ l. length l ≤ length (x ∷ xs) + 1) (ltb_ℤ seq x.seq)
        (omega arith)
        (if_elim {A = List (Unacked W)} (λ l. length l ≤ length (x ∷ xs) + 1) (eqb_ℤ x.seq seq)
          (omega arith) (omega (arith, length-insert_unacked seq p xs)))

  abbrev pub standing : Copa W → List (Unacked W) × ℕ × ℕ × W × ℕ × RttWindow W × Bool
  standing c = (
    c.unacknowledged_packets, c.num_pkts_lost, c.num_pkts_sent, c.the_window, c.num_pkts_acked,
    c.rtt_window, c.do_slow_start,
  )

  note_waiting-standing :
      (c : Copa W) (xs : List (Unacked W)) → standing (note_waiting c xs) ≡ standing c
  unfolding note_waiting
  note_waiting-standing c [] = refl
  note_waiting-standing c (x ∷ xs) =
      let age : W = c.cur_tick ⊖ x.packet.sent_time in
      if_elim {A = Copa W} (λ m. standing m ≡ standing c) (c.rtt_unacked.ewma <? age)
        (note_waiting-standing
          (record c {
            rtt_unacked = ewma_update c.rtt_unacked age;
            prev_intersend_time = x.packet.intersend_time;
            prev_intersend_time_vel = x.packet.intersend_time_vel;
          })
          xs)
        refl

  pub on_pkt_sent-standing :
      (late : Bool) (c : Copa W) (seq : ℤ)
      → standing (on_pkt_sent late c seq) ≡ (
        insert_unacked seq (packet_data late c seq) c.unacknowledged_packets,
        c.num_pkts_lost,
        c.num_pkts_sent + 1,
        c.the_window,
        c.num_pkts_acked,
        c.rtt_window,
        c.do_slow_start,
      )
  unfolding on_pkt_sent
  on_pkt_sent-standing late c seq =
      let packets : List (Unacked W) =
        insert_unacked seq (packet_data late c seq) c.unacknowledged_packets in
      ap (λ t. (t.0, t.1, t.2 + 1, t.3, t.4, t.5, t.6))
        (note_waiting-standing
          (record c {
            unacknowledged_packets = packets;
            rtt_unacked = force_set c.rtt_unacked (get_unjittered_rtt c.rtt_window);
          })
          packets)

module _ {W : Type 0} ⦃d : Double W⦄ (o : IsOrdered W) where
  pub acked-IsSound :
      (c c' : Copa W) (ack : ℤ) (sent_time : W) (adjust_us : ℤ)
      → on_ack c ack sent_time adjust_us ≡ some c'
      → IsSound c
      → IsSound c'
  acked-IsSound c c' ack sent_time adjust_us e h =
      let seq : ℤ = ack -ℤ pos 1 in
      let t = on_ack-tally c c' ack sent_time adjust_us h.ordered e in
      let lost : c'.num_pkts_lost ≡ c.num_pkts_lost + num_lost seq c.unacknowledged_packets =
        ap (λ t. t.1) t in
      let sent : c'.num_pkts_sent ≡ c.num_pkts_sent = ap (λ t. t.3) t in
      let wait : length c'.unacknowledged_packets ≡ length (left seq c.unacknowledged_packets) =
        ap (λ t. length t.0) t in
      record {
        full =
            OnSome-of (λ m. IsFull m.the_window) c'
              (on_ack-IsFull o c ack sent_time adjust_us h.full h.ordered) e;
        ordered =
            subst (IsAbove (negsuc 0)) (sym (ap (λ t. t.0) t))
              (left-IsAbove seq (negsuc 0) c.unacknowledged_packets h.ordered);
        counted =
            omega (arith, lost, sent, wait, h.counted, length-left seq c.unacknowledged_packets);
      }

  pub sent-IsSound :
      (late : Bool) (c : Copa W) (seq : ℤ)
      → negsuc 0 <ℤ seq
      → IsSound c
      → IsSound (on_pkt_sent late c seq)
  sent-IsSound late c seq b h =
      let xs : List (Unacked W) = c.unacknowledged_packets in
      let p : PacketData W = packet_data late c seq in
      let t = on_pkt_sent-standing late c seq in
      let c' : Copa W = on_pkt_sent late c seq in
      let lost : c'.num_pkts_lost ≡ c.num_pkts_lost = ap (λ t. t.1) t in
      let sent : c'.num_pkts_sent ≡ c.num_pkts_sent + 1 = ap (λ t. t.2) t in
      let wait : length c'.unacknowledged_packets ≡ length (insert_unacked seq p xs) =
        ap (λ t. length t.0) t in
      record {
        full = subst IsFull (sym (ap (λ t. t.3) t)) h.full;
        ordered =
            subst (IsAbove (negsuc 0)) (sym (ap (λ t. t.0) t))
              (insert_unacked-IsAbove seq (negsuc 0) p xs b h.ordered);
        counted = omega (arith, lost, sent, wait, h.counted, length-insert_unacked seq p xs);
      }

  pub init-IsSound : (c : Copa W) → IsSound (init c)
  unfolding init IsAbove
  init-IsSound c = record { full = init-IsFull o c; ordered = tt; counted = omega arith }

  pub Step-IsSound : (c c' : Copa W) → Step c c' → IsSound c → IsSound c'
  unfolding set_min_rtt set_delta_from_router
  Step-IsSound _ _ (acked c c' ack sent_time adjust_us e) h =
      acked-IsSound c c' ack sent_time adjust_us e h
  Step-IsSound _ _ (sent c late seq b) h = sent-IsSound late c seq b h
  Step-IsSound _ _ (tiny_sent c) h = record {
    full = h.full;
    ordered = h.ordered;
    counted = h.counted;
  }
  Step-IsSound _ _ (ticked c t) h = record {
    full = h.full;
    ordered = h.ordered;
    counted = h.counted;
  }
  Step-IsSound _ _ (flow_set c n) h = record {
    full = h.full;
    ordered = h.ordered;
    counted = h.counted;
  }
  Step-IsSound _ _ (delta_set c x) h =
      if_elim IsSound (is_bounded_delay c.utility_mode)
        (record { full = h.full; ordered = h.ordered; counted = h.counted }) h
  Step-IsSound _ _ (restarted c x) h = init-IsSound _

  -- After a reset and any events, in which the numbers of the packets that are sent are not negative,
  -- the window is a number that is at least 2, the packets that wait for an acknowledgement stand in
  -- the order of their numbers, and with those counted as lost they are no more than those sent.
  pub Reach-IsSound : (c c' : Copa W) → Reach (init c) c' → IsSound c'
  Reach-IsSound c c' here = init-IsSound c
  Reach-IsSound c c' (next {c' = m} r s) = Step-IsSound m c' s (Reach-IsSound c m r)
