-- ===== src/PacketList.antt =====
-- ngscope_packet_list.h and ngscope_packet_list.cc: the list of the packets of the last second. Its
-- first node is a head that holds no packet; the list here is the nodes behind it.
pub mod Insert
pub mod Balance
pub mod Revert
pub mod Jumps
mod Runs
use copa_new.Prelude.{
  ℕ, zero, suc, ◌+◌, ◌-◌, ◌*◌, ◌/◌, ◌%◌, ◌^◌, List, [], ◌∷◌, ◌++◌, Bool, true, false, not, ◌&&◌,
  Option, none, some, ltb, leb, ◌==◌, if◌then◌else◌, length, get_or,
}
use mathlib.Core.Option
use copa_new.Prelude.Int.{ℤ, pos, negsuc, ◌-ℤ◌, abs, leb_ℤ, sub_ℕ}
use copa_new.Prelude.Word.{as_long, as_int, sub64}
use copa_new.ReTx.{ReorderingBuf, reset_buf}

-- `packet_node` and the parts of its headers that the list reads.
pub record PacketNode : Type 0 where
  pub sequence_number : ℕ
  pub recv_len_byte : ℕ
  pub oneway_us : ℕ
  pub recv_t_us : ℕ
  pub oneway_us_new : ℕ
  pub revert_flag : Bool
  pub acked : Bool
  pub burst_start : Bool

-- `NOF_LOG_DCI * 1000` and `RE_TX_DELAY_THD`.
abbrev pub delay_thd_us : ℕ
delay_thd_us = 1000000

abbrev pub re_tx_delay_thd : ℕ
re_tx_delay_thd = 7

abbrev pub find_last_node : PacketNode → List PacketNode → PacketNode
find_last_node p [] = p
find_last_node p (n ∷ ns) = find_last_node n ns

-- The unsigned difference wraps around if the packet is later than `curr_t_us`.
pub check_time_delay_w_time : List PacketNode → ℕ → List PacketNode
check_time_delay_w_time [] curr_t_us = []
check_time_delay_w_time (p ∷ []) curr_t_us = p ∷ []
check_time_delay_w_time (p ∷ n ∷ ns) curr_t_us =
    let rest : List PacketNode = check_time_delay_w_time (n ∷ ns) curr_t_us in
    if ltb delay_thd_us (sub64 curr_t_us p.recv_t_us) then rest else p ∷ n ∷ ns

-- The loop of `ngscope_list_checkTimeDelay_woTime` goes on as long as there is a node: it deletes all
-- of them, and then follows the null pointer behind the head. `none` is that fault, which does not
-- occur for an empty list.
pub check_time_delay_wo_time : List PacketNode → Option (List PacketNode)
check_time_delay_wo_time [] = some []
check_time_delay_wo_time (p ∷ ps) = none

-- The head's own time, which `ngscope_list_insertNode` compares if the list is empty, is a parameter.
pub insert_node : PacketNode → List PacketNode → PacketNode → List PacketNode
insert_node head nodes node =
    if ltb node.recv_t_us (find_last_node head nodes).recv_t_us then nodes else nodes ++ (node ∷ [])

pub insert_node_check_time : List PacketNode → PacketNode → List PacketNode
insert_node_check_time [] node = node ∷ []
insert_node_check_time (p ∷ ps) node =
    if ltb node.recv_t_us (find_last_node p ps).recv_t_us
    then p ∷ ps
    else check_time_delay_w_time (p ∷ ps ++ (node ∷ [])) node.recv_t_us

-- It counts the links between the nodes: one less than the nodes.
pub list_length : List PacketNode → ℕ
list_length [] = 0
list_length (p ∷ ps) = length ps

-- `recv_len_byte * 8` is a uint32_t.
abbrev pub bits : PacketNode → ℕ
bits p = p.recv_len_byte * 8 % 2 ^ 32

-- The bodies of the two tests of `ngscope_list_revert_delay`.
revert_node : PacketNode → Bool → ReorderingBuf → PacketNode × ReorderingBuf
revert_node p burst_start q = (
  record p { oneway_us_new = q.ref_oneway; revert_flag = true; burst_start = burst_start },
  record q { buf_size = q.buf_size -ℤ pos (bits p) },
)

revert_first : PacketNode → ReorderingBuf → PacketNode × ReorderingBuf
revert_first p q =
    if p.recv_t_us == q.start_pkt_t && (not p.revert_flag && q.buffer_active)
    then revert_node p true q
    else (p, q)

revert_later : PacketNode → ReorderingBuf → PacketNode × ReorderingBuf
revert_later p q =
    if ltb q.start_pkt_t p.recv_t_us && (not p.revert_flag && q.buffer_active)
    then revert_node p p.burst_start q
    else (p, q)

pub revert_one : PacketNode → ReorderingBuf → PacketNode × ReorderingBuf
revert_one p q = let (p', q') = revert_first p q in revert_later p' q'

pub revert_delay : List PacketNode → ReorderingBuf → List PacketNode × ReorderingBuf
revert_delay [] q = ([], q)
revert_delay (p ∷ ps) q =
    let (p', q') = revert_one p q in
    let (ps', q'') = revert_delay ps q' in
    if leb_ℤ q'.buf_size (pos 0) then (p' ∷ ps, reset_buf q') else (p' ∷ ps', q'')

-- C's division of an int by a positive int, which cuts towards 0.
abbrev pub c_div : ℤ → ℕ → ℤ
c_div (pos n) m = pos (n / m)
c_div (negsuc n) m = sub_ℕ 0 ((n + 1) / m)

-- `(int)abs((long)next_oneway - (long)last_oneway) / 1000`.
pub delay_diff_ms : ℕ → ℕ → ℤ
delay_diff_ms next_oneway last_oneway =
    c_div (as_int (abs (as_long next_oneway -ℤ as_long last_oneway))) 1000

-- The three arrays that `ngscope_list_get_reTx` fills, element by element.
pub record Delay : Type 0 where
  pub diff_ms : ℤ
  pub recv_t_us : ℕ
  pub oneway_us : ℕ

delays_from : ℕ → List PacketNode → ℕ → List Delay
delays_from last_oneway ps zero = []
delays_from last_oneway [] (suc n) = []
delays_from last_oneway (p ∷ ps) (suc n) =
    record {
      diff_ms = delay_diff_ms p.oneway_us last_oneway;
      recv_t_us = p.recv_t_us;
      oneway_us = p.oneway_us;
    }
    ∷ delays_from p.oneway_us ps n

-- `none` is a write to an array of no elements, or a read of an element that was not written, since
-- the list ended early.
delays : PacketNode → List PacketNode → ℕ → Option (List Delay)
delays p ps zero = none
delays p ps (suc n) =
    let first : Delay = record {
      diff_ms = pos 0;
      recv_t_us = p.recv_t_us;
      oneway_us = p.oneway_us;
    } in
    if leb n (length ps) then some (first ∷ delays_from p.oneway_us ps n) else none

is_retx : Delay → Bool
is_retx d = leb_ℤ (pos re_tx_delay_thd) d.diff_ms

pub nof_retx_pkt : List Delay → ℕ
nof_retx_pkt [] = 0
nof_retx_pkt (d ∷ ds) = let n = nof_retx_pkt ds in if is_retx d then n + 1 else n

pub extract_retx_from_pkt : List Delay → List ℕ
extract_retx_from_pkt [] = []
extract_retx_from_pkt (d ∷ ds) =
    let rest : List ℕ = extract_retx_from_pkt ds in if is_retx d then d.recv_t_us ∷ rest else rest

-- The times of the retransmitted packets, their number, and the two arrays of all the packets.
pub record RetxPkts : Type 0 where
  pub retx_recv_t_us : List ℕ
  pub nof_retx : ℕ
  pub all : List Delay

abbrev pub retx_pkts : List Delay → RetxPkts
retx_pkts ds = record {
  retx_recv_t_us = extract_retx_from_pkt ds;
  nof_retx = nof_retx_pkt ds;
  all = ds;
}

-- `some none` is the null pointer.
pub get_retx : List PacketNode → ℕ → Option (Option RetxPkts)
get_retx [] list_len = some none
get_retx (p ∷ ps) list_len = Option.map (λ ds. some (retx_pkts ds)) (delays p ps list_len)

sum_range : List ℕ → ℕ → ℕ → ℕ → ℕ
sum_range oneway zero i sum = sum
sum_range oneway (suc n) i sum = sum_range oneway n (i + 1) ((sum + get_or oneway i 0) % 2 ^ 64)

-- The mean of the packets before the one before `index`, and of at most `len - 1` of them. `none` is
-- the division by 0 for an index of 0 or 1, or a length of 1.
pub ave_oneway : List ℕ → ℕ → ℕ → Option ℕ
ave_oneway oneway index len =
    let first : ℕ = index - len in
    let cnt : ℕ = index - 1 - first in
    if cnt == 0 then none else some (sum_range oneway cnt first 0 / cnt)
