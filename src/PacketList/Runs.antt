-- ===== src/PacketList/Runs.antt =====
-- Runs of the packet list, and its theorems at concrete inputs.
use copa_new.Prelude.{ℕ, ◌≡◌, refl, List, [], ◌∷◌, ◌++◌, true, false, none, arith}
use copa_new.Prelude.Int.{pos}
use copa_new.ReTx.{ReorderingBuf, init_buf}
use copa_new.PacketList.{
  PacketNode, insert_node_check_time, revert_delay, check_time_delay_wo_time, ave_oneway,
  list_length,
}
use copa_new.PacketList.Insert.{IsWindow, IsCut, insert_node_check_time-IsCut}
use copa_new.PacketList.Revert.{
  IsDrained, revert_delay-IsDrained, IsReverted, revert_delay-IsReverted,
}

abbrev packet : ℕ → ℕ → PacketNode
packet recv_t_us oneway_us = record {
  sequence_number = 0;
  recv_len_byte = 1500;
  oneway_us = oneway_us;
  recv_t_us = recv_t_us;
  oneway_us_new = oneway_us;
  revert_flag = false;
  acked = false;
  burst_start = false;
}

-- The length leaves out one packet; the check without a time ends in a fault; and the mean before
-- the second packet divides by zero.
length_of_two : list_length (packet 1 20 ∷ packet 2 20 ∷ []) ≡ 1
unfolding list_length
length_of_two = refl

check_of_one : check_time_delay_wo_time (packet 1 20 ∷ []) ≡ none
unfolding check_time_delay_wo_time
check_of_one = refl

mean_before_second : ave_oneway (20 ∷ 30 ∷ 40 ∷ 50 ∷ 60 ∷ 70 ∷ []) 1 5 ≡ none
unfolding ave_oneway
mean_before_second = refl

abbrev old_packets : List PacketNode
old_packets = packet 1000 20000 ∷ packet 900000 21000 ∷ []

old_packets-IsWindow : IsWindow old_packets
unfolding IsWindow
old_packets-IsWindow = (((omega arith, omega arith), tt), (tt, tt))

insert_node_check_time-IsCut_example :
    IsCut
      (old_packets ++ (packet 1500000 20000 ∷ []))
      1500000
      (insert_node_check_time old_packets (packet 1500000 20000))
    × IsWindow (insert_node_check_time old_packets (packet 1500000 20000))
insert_node_check_time-IsCut_example =
    insert_node_check_time-IsCut old_packets (packet 1500000 20000) old_packets-IsWindow
      (omega arith) (omega arith, (omega arith, tt))

-- A burst of 20000 bits that began with the second packet.
abbrev burst : ReorderingBuf
burst = record init_buf {
  ready = true;
  buffer_active = true;
  start_pkt_found = true;
  buf_size = pos 20000;
  start_pkt_t = 900000;
  ref_oneway = 12000;
}

revert_delay-IsDrained_example :
    IsDrained old_packets burst
      (revert_delay old_packets burst).0
      (revert_delay old_packets burst).1
revert_delay-IsDrained_example = revert_delay-IsDrained old_packets burst

revert_delay-IsReverted_example : IsReverted burst old_packets (revert_delay old_packets burst).0
revert_delay-IsReverted_example = revert_delay-IsReverted old_packets burst
