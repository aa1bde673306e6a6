-- ===== src/Client.antt =====
-- ngscope_client.cc, lines 45-145: the packets that are received are put into the list, and
-- acknowledged to the sender once it is known whether they waited for a retransmission.
pub mod Once
pub mod Handling
pub mod Again
mod Runs
use copa_new.Prelude.{
  ℕ, suc, ◌+◌, ◌-◌, ◌*◌, ◌/◌, ◌%◌, ◌^◌, List, [], ◌∷◌, ◌++◌, Bool, true, false, not, ◌&&◌, Option,
  none, some, ltb, leb, if◌then◌else◌,
}
use copa_new.Prelude.Int.{ℤ, pos, negsuc, ◌-ℤ◌, leb_ℤ}
use copa_new.Prelude.Word.{as_int, sub64}
use copa_new.ReTx.{ReorderingBuf}
use copa_new.PacketList.{PacketNode, insert_node_check_time}

-- The fields of the header of a received packet that are read, and the time at which it came.
pub enqueue_pkt : List PacketNode → ℕ → ℕ → ℕ → ℕ → List PacketNode
enqueue_pkt pkt_list seq_num tx_timestamp received recv_time_ns =
    let oneway_ns : ℕ = sub64 recv_time_ns tx_timestamp in
    insert_node_check_time pkt_list (record {
      sequence_number = seq_num;
      recv_len_byte = received;
      oneway_us = oneway_ns / 1000;
      recv_t_us = recv_time_ns / 1000;
      oneway_us_new = oneway_ns / 1000;
      revert_flag = false;
      acked = false;
      burst_start = false;
    })

pub tx_pkt_ornot : ReorderingBuf → PacketNode → Bool
tx_pkt_ornot retx_buffer p =
    if not retx_buffer.ready
    then true
    else if p.revert_flag
    then true
    else if leb_ℤ retx_buffer.buf_size (pos 0)
    then ltb retx_buffer.buf_last_t p.recv_t_us
    else ltb 10000 (sub64 p.recv_t_us retx_buffer.buf_last_t)

-- What the acknowledgement of a packet carries; the rest of its header is that of the packet.
pub record Ack : Type 0 where
  pub seq_num : ℕ
  pub adjust_us : ℤ
  pub tx_timestamp : ℕ

pub ack_of : ℕ → PacketNode → Ack
ack_of curr_t_us p = record {
  seq_num = p.sequence_number;
  adjust_us = as_int (sub64 p.oneway_us_new p.oneway_us) -ℤ as_int (sub64 curr_t_us p.recv_t_us);
  tx_timestamp = curr_t_us * 1000 % 2 ^ 64;
}

-- The test for a packet in the loop.
pub is_due : ReorderingBuf → PacketNode → Bool
is_due retx_buffer p = not p.acked && tx_pkt_ornot retx_buffer p

-- The loop of `send_pkt_list`, for a `go_exit` that stays false: the list and what is sent.
pub send_loop : ReorderingBuf → ℕ → List PacketNode → List PacketNode × List Ack
send_loop retx_buffer curr_t_us [] = ([], [])
send_loop retx_buffer curr_t_us (p ∷ ps) =
    let (ps', acks) = send_loop retx_buffer curr_t_us ps in
    if is_due retx_buffer p
    then (record p { acked = true } ∷ ps', ack_of curr_t_us p ∷ acks)
    else (p ∷ ps', acks)

-- The time of the last transmission after the loop.
last_tx : ℕ → ℕ → List Ack → ℕ
last_tx last_tx_pkt_t_us curr_t_us [] = last_tx_pkt_t_us
last_tx last_tx_pkt_t_us curr_t_us (a ∷ acks) = curr_t_us

-- The list, the acknowledgements, whether the filler packet is sent after them, and
-- `last_tx_pkt_t_us`.
pub record SendResult : Type 0 where
  pub pkt_list : List PacketNode
  pub acks : List Ack
  pub filler : Bool
  pub last_tx_pkt_t_us : ℕ

pub send_pkt_list : ReorderingBuf → ℕ → List PacketNode → ℕ → SendResult
send_pkt_list retx_buffer curr_t_us [] last_tx_pkt_t_us = record {
  pkt_list = [];
  acks = [];
  filler = false;
  last_tx_pkt_t_us = last_tx_pkt_t_us;
}
send_pkt_list retx_buffer curr_t_us (p ∷ ps) last_tx_pkt_t_us =
    let (pkt_list, acks) = send_loop retx_buffer curr_t_us (p ∷ ps) in
    let last : ℕ = last_tx last_tx_pkt_t_us curr_t_us acks in
    let filler : Bool = leb 1000 (sub64 curr_t_us last) in
    record {
      pkt_list = pkt_list;
      acks = acks;
      filler = filler;
      last_tx_pkt_t_us = if filler then curr_t_us else last;
    }
