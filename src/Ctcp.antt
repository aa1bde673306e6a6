-- ===== src/Ctcp.antt =====
-- ctcp.hh, lines 21-89 and 187-426: the sender `CTCP`, whose controller is a parameter with the
-- operations of ccc.hh. The clock and what comes from the socket are inputs, one record for each
-- round of the loop; what is sent is a list. The log files and what is printed are left out.
pub mod Send
pub mod Receive
pub mod Train
pub mod Books
pub mod Replies
pub mod Account
pub mod Controlled
pub mod OnCopa
pub mod OnRemy
pub mod Handshake
mod Runs
use copa_new.Prelude.{
  ℕ, zero, suc, ◌+◌, ◌-◌, ◌*◌, ◌/◌, ◌%◌, List, [], ◌∷◌, Bool, true, false, ◌&&◌, ◌||◌, not, Option,
  none, some, if◌then◌else◌, ◌==◌,
}
use copa_new.Prelude.Int.{ℤ, pos, negsuc, ◌+ℤ◌, ◌-ℤ◌, abs, sub_ℕ, eqb_ℤ, ltb_ℤ}
use copa_new.Double.{Double, ◌⊕◌, ◌⊖◌, ◌⊗◌, ◌⊘◌, ◌<?◌, ◌≤?◌, ◌≡?◌, lit, least}

-- `TCPHeader` of tcp-header.hh.
pub record Header (W : Type 0) : Type 0 where
  pub seq_num : ℤ
  pub flow_id : ℤ
  pub src_id : ℤ
  pub sender_timestamp : W
  pub tx_timestamp : ℕ
  pub receiver_timestamp : W
  pub adjust_us : ℤ

-- What the sender calls of its controller; `none` is a failed assertion.
pub record Controller (C W : Type 0) : Type 0 where
  pub window : C → W
  pub intersend : C → W
  pub timeout : C → W
  pub set_timestamp : C → W → C
  pub set_min_rtt : C → W → C
  pub init : C → Option C
  pub close : C → C
  pub on_pkt_sent : C → ℤ → C
  pub on_ack : C → ℤ → W → W → ℤ → Option C
  pub on_timeout : C → C
  pub on_link_rate : C → W → C

-- `packet_size`, and `data_size`, behind a header of 48 bytes.
abbrev pub packet_size : ℕ
packet_size = 1440

abbrev pub data_size : ℕ
data_size = 1392

-- The arguments of `send_data`, and the length of a train.
pub record Setup (W : Type 0) : Type 0 where
  pub flow_size : W
  pub byte_switched : Bool
  pub flow_id : ℤ
  pub src_id : ℤ
  pub train_length : ℕ

-- The fields of the sender and the variables of `send_data`; `wire` has what was sent, the last first.
pub record Flow (C W : Type 0) : Type 0 where
  pub congctrl : C
  pub last_send_time : W
  pub largest_ack : ℤ
  pub tot_time_transmitted : W
  pub tot_delay : W
  pub tot_bytes_transmitted : ℤ
  pub tot_packets_transmitted : ℕ
  pub seq_num : ℕ
  pub link_rate_estimate : W
  pub last_recv_time : W
  pub delay_sum : W
  pub num_packets_transmitted : ℕ
  pub transmitted_bytes : ℤ
  pub cur_time : W
  pub last_ack_time : W
  pub wire : List (Header W)

-- What `receivedata_w_time` and the clock behind it give: nothing, or what the buffer holds.
pub data Reply (W : Type 0) : Type 0 where
  silent : W → Reply W
  heard : Header W → W → Reply W

-- The readings of the clocks in a round: at its start, the stamp of each packet and of the short one,
-- before the wait; and the reply.
pub record Round (W : Type 0) : Type 0 where
  pub now : W
  pub stamp : ℕ → ℕ
  pub short_stamp : ℕ
  pub before_wait : W
  pub reply : Reply W

-- After a round: the loop goes on, it is left, or an assertion failed.
pub data Outcome (A : Type 0) : Type 0 where
  goes_on : A → Outcome A
  leaves : A → Outcome A
  aborts : Outcome A

module _ {C W : Type 0} ⦃d : Double W⦄ ⦃k : Controller C W⦄ where
  -- `byte_switched ? num_packets_transmitted * data_size : cur_time`.
  abbrev pub progress : Setup W → Flow C W → W
  progress s f =
      if s.byte_switched then d.of_int (pos (f.num_packets_transmitted * data_size)) else f.cur_time
