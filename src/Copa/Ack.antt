-- ===== src/Copa/Ack.antt =====
-- markoviancc.cc, lines 222-322: what the controller does for an acknowledgement and for a packet
-- that is sent.
use copa_new.Prelude.{
  ℕ, ◌+◌, List, [], ◌∷◌, Bool, true, false, not, ◌&&◌, ◌||◌, Option, none, some, if◌then◌else◌,
  length,
}
use copa_new.Prelude.Int.{ℤ, pos, negsuc, ◌-ℤ◌, ltb_ℤ, leb_ℤ, eqb_ℤ}
use copa_new.Double.{Double, ◌⊖◌, ◌⊗◌, ◌⊘◌, ◌<?◌, ◌≤?◌, ◌≡?◌, lit}
use copa_new.RttWindow.{new_rtt_sample, get_min_rtt, get_unjittered_rtt, get_latest_rtt}
use copa_new.Estimators.{ewma_update, force_set, percentile_push, reduce_update}
use copa_new.Copa.{Copa, PacketData, Unacked}
use copa_new.Copa.Delta.{update_delta}
use copa_new.Copa.Pace.{update_intersend_time, set_intersend}

-- The variables of the loop over the packets that are not acknowledged: the controller, and whether a
-- packet was lost and the window has to shrink.
pub record Scan (W : Type 0) : Type 0 where
  pub copa : Copa W
  pub pkt_lost : Bool
  pub reduce : Bool

module _ {W : Type 0} where
  -- `unacknowledged_packets.count(seq) != 0`.
  unfoldable pub is_unacked : ℤ → List (Unacked W) → Bool
  is_unacked seq [] = false
  is_unacked seq (x ∷ xs) = eqb_ℤ x.seq seq || is_unacked seq xs

module _ {W : Type 0} ⦃d : Double W⦄ where
  -- The sample of an acknowledgement: in milliseconds, less the adjustment in microseconds.
  unfoldable pub curr_rtt : Copa W → W → ℤ → W
  curr_rtt c sent_time adjust_us = c.cur_tick ⊖ sent_time ⊖ d.of_int adjust_us ⊘ lit 1000 1

  unfoldable pub add_sample : Copa W → W → Copa W
  add_sample c rtt =
      let r = new_rtt_sample c.rtt_window rtt c.cur_tick in
      record c { rtt_window = r; min_rtt = get_min_rtt r }

  unfoldable pub note_arrival : Copa W → Copa W
  note_arrival c =
      let gap : W = c.cur_tick ⊖ c.prev_ack_time in
      if c.prev_ack_time ≡? lit 0 1 then record c { prev_ack_time = c.cur_tick } else record c {
        interarrival_ewma = ewma_update c.interarrival_ewma gap;
        interarrival = percentile_push c.interarrival gap;
        prev_ack_time = c.cur_tick;
      }

  -- `reduce |= reduce_on_loss.update(loss, ...)`.
  unfoldable pub note_packet : Scan W → Bool → Scan W
  note_packet s loss =
      let c : Copa W = s.copa in
      let (now, r) = reduce_update c.reduce_on_loss loss c.cur_tick (get_latest_rtt c.rtt_window) in
      record s { copa = record c { reduce_on_loss = r }; reduce = s.reduce || now }

  unfoldable pub note_loss : Scan W → Scan W
  note_loss s =
      let c : Copa W = s.copa in
      note_packet
        (record s { copa = record c { num_pkts_lost = c.num_pkts_lost + 1 }; pkt_lost = true }) true

  -- An entry that is erased; one below the acknowledged number is lost.
  unfoldable pub take_entry : Scan W → ℤ → Unacked W → Scan W
  take_entry s seq_num x =
      let c : Copa W = s.copa in
      let p : PacketData W = x.packet in
      let s' : Scan W = record s {
        copa = record c {
          prev_intersend_time = p.intersend_time;
          prev_intersend_time_vel = p.intersend_time_vel;
          prev_rtt = p.rtt;
          prev_rtt_update_time = p.sent_time;
          prev_avg_sending_rate = p.prev_avg_sending_rate;
        };
      } in
      if ltb_ℤ x.seq seq_num then note_loss s' else s'

  unfoldable pub leave_entries : Scan W → List (Unacked W) → Scan W
  leave_entries s xs = record s { copa = record s.copa { unacknowledged_packets = xs } }

  -- The loop: `none` when the entries are not in order.
  unfoldable pub scan : Scan W → ℤ → ℤ → List (Unacked W) → Option (Scan W)
  scan s seq_num tmp_seq_num [] = some (leave_entries s [])
  scan s seq_num tmp_seq_num (x ∷ xs) =
      let rest = scan (take_entry s seq_num x) seq_num x.seq xs in
      if leb_ℤ tmp_seq_num x.seq
      then if ltb_ℤ seq_num x.seq then some (leave_entries s (x ∷ xs)) else rest
      else none

  abbrev pub start_scan : Copa W → Scan W
  start_scan c = record { copa = c; pkt_lost = false; reduce = false }

  unfoldable pub retire : Copa W → ℤ → Option (Scan W)
  retire c seq_num =
      if is_unacked seq_num c.unacknowledged_packets
      then scan (start_scan c) seq_num (negsuc 0) c.unacknowledged_packets
      else some (start_scan c)

  unfoldable pub shrink : Copa W → Copa W
  shrink c =
      set_intersend (record c { the_window = c.the_window ⊗ lit 7 10 })
        (get_unjittered_rtt c.rtt_window)

  -- After the loop.
  unfoldable pub after_loss : Scan W → Scan W
  after_loss s = if s.pkt_lost then record s { copa = update_delta s.copa true (lit 0 1) } else s

  unfoldable pub reduce_window : Scan W → Copa W
  reduce_window s = if s.reduce then shrink s.copa else s.copa

  unfoldable pub settle : Scan W → Copa W
  settle s =
      let c : Copa W = reduce_window (note_packet (after_loss s) false) in
      record c { num_pkts_acked = c.num_pkts_acked + 1 }

  unfoldable pub settle? : Option (Scan W) → Option (Copa W)
  settle? none = none
  settle? (some s) = some (settle s)

  unfoldable pub conclude : Option (Copa W) → ℤ → Option (Copa W)
  conclude none seq_num = none
  conclude (some c) seq_num = settle? (retire c seq_num)

  -- The state with which the window is updated.
  unfoldable pub measured : Copa W → W → Copa W
  measured c rtt = update_delta (note_arrival (add_sample c rtt)) false rtt

  -- `none` is a failed assertion.
  unfoldable pub on_ack : Copa W → ℤ → W → ℤ → Option (Copa W)
  on_ack c ack sent_time adjust_us =
      let rtt : W = curr_rtt c sent_time adjust_us in
      let s : Copa W = add_sample c rtt in
      if not (sent_time <? c.cur_tick) || not (s.min_rtt ≤? get_unjittered_rtt s.rtt_window)
      then none
      else conclude (update_intersend_time (measured c rtt)) (ack -ℤ pos 1)

  -- `unacknowledged_packets[seq] = packet`: the map stays in the order of the keys.
  unfoldable pub insert_unacked : ℤ → PacketData W → List (Unacked W) → List (Unacked W)
  insert_unacked seq p [] = record { seq = seq; packet = p } ∷ []
  insert_unacked seq p (x ∷ xs) =
      let rest = insert_unacked seq p xs in
      if ltb_ℤ seq x.seq
      then record { seq = seq; packet = p } ∷ x ∷ xs
      else if eqb_ℤ x.seq seq
      then record { seq = seq; packet = p } ∷ xs
      else x ∷ rest

  -- `late` tells whether the size in the assignment is read after the key is inserted, which C++
  -- leaves open before its version of 2017.
  unfoldable pub packet_data : Bool → Copa W → ℤ → PacketData W
  packet_data late c seq =
      let old : List (Unacked W) = c.unacknowledged_packets in
      let size : ℕ = if late && not (is_unacked seq old) then length old + 1 else length old in
      record {
        sent_time = c.cur_tick;
        intersend_time = c.cur_intersend_time;
        intersend_time_vel = c.intersend_time_vel;
        rtt = get_unjittered_rtt c.rtt_window;
        prev_avg_sending_rate = d.of_int (pos size) ⊘ (c.cur_tick ⊖ c.prev_rtt_update_time);
      }

  -- The loop over the packets that wait longer than `rtt_unacked`.
  unfoldable pub note_waiting : Copa W → List (Unacked W) → Copa W
  note_waiting c [] = c
  note_waiting c (x ∷ xs) =
      let age : W = c.cur_tick ⊖ x.packet.sent_time in
      let rest : Copa W =
        note_waiting
          (record c {
            rtt_unacked = ewma_update c.rtt_unacked age;
            prev_intersend_time = x.packet.intersend_time;
            prev_intersend_time_vel = x.packet.intersend_time_vel;
          })
          xs in
      if c.rtt_unacked.ewma <? age then rest else c

  unfoldable pub on_pkt_sent : Bool → Copa W → ℤ → Copa W
  on_pkt_sent late c seq =
      let packets : List (Unacked W) =
        insert_unacked seq (packet_data late c seq) c.unacknowledged_packets in
      let s : Copa W =
        note_waiting
          (record c {
            unacknowledged_packets = packets;
            rtt_unacked = force_set c.rtt_unacked (get_unjittered_rtt c.rtt_window);
          })
          packets in
      record s { num_pkts_sent = s.num_pkts_sent + 1; intersend_time = s.cur_intersend_time }
