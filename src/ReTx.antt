-- ===== src/ReTx.antt =====
-- ngscope_reTx.h and ngscope_reTx.cc: the model of the reordering buffer of the base station, which a
-- burst of downlink retransmissions fills.
pub mod Trace
pub mod BurstStart
pub mod Update
pub mod Burst
mod Runs
use copa_new.Prelude.{
  ℕ, zero, suc, ◌+◌, ◌-◌, ◌*◌, ◌/◌, ◌%◌, ◌^◌, List, [], ◌∷◌, ◌++◌, Bool, true, false, not, ◌&&◌,
  ◌||◌, Option, none, some, ltb, leb, ◌==◌, if◌then◌else◌, length, get_elem?, get_or, set, take,
  drop, replicate,
}
use copa_new.Prelude.Int.{ℤ, pos, negsuc, ◌+ℤ◌, sub_ℕ}
use copa_new.Prelude.Word.{as_long}
use copa_new.Tti.{max_tti, wrap_tti, tti_a_l_b, tti_a_se_b}
use copa_new.Arrays.{find_element_in_array_uint16, nearest_neighbour_index}

-- `ngscope_reordering_buf_t`.
pub record ReorderingBuf : Type 0 where
  pub ready : Bool
  pub start_pkt_t : ℕ
  pub start_pkt_found : Bool
  pub buffer_active : Bool
  pub buf_size : ℤ
  pub buf_start_tti : ℕ
  pub buf_last_tti : ℕ
  pub buf_start_t : ℕ
  pub buf_last_t : ℕ
  pub ref_oneway : ℕ
  pub most_recent_dci_t : ℕ

-- `ngscope_reTx_ca_t`: what was sent in the subframes, from the oldest one on.
pub record CaTrace : Type 0 where
  pub retx : List Bool
  pub tti : List ℕ
  pub tbs : List ℕ
  pub rx_t_us : List ℕ
  pub size : ℕ

abbrev pub init_buf : ReorderingBuf
init_buf = record {
  ready = false;
  start_pkt_t = 0;
  start_pkt_found = false;
  buffer_active = false;
  buf_size = pos 0;
  buf_start_tti = 0;
  buf_last_tti = 0;
  buf_start_t = 0;
  buf_last_t = 0;
  ref_oneway = 0;
  most_recent_dci_t = 0;
}

unfoldable pub reset_buf : ReorderingBuf → ReorderingBuf
reset_buf q = record q {
  buffer_active = false;
  buf_size = pos 0;
  start_pkt_found = false;
  most_recent_dci_t = 0;
}

pub activate_buf : ReorderingBuf → ReorderingBuf
activate_buf q = record q { buffer_active = true; buf_size = pos 0; start_pkt_found = true }

-- `(tti - tail_tti + MAX_TTI) % MAX_TTI` as a uint16_t, for TTIs below `MAX_TTI`.
pub tti_to_idx : ℕ → ℕ → ℕ
tti_to_idx tti tail_tti = (tti + max_tti - tail_tti) % max_tti

-- `for (i = from; i < to; i++) if (reTx_array[i]) ret = false`.
none_retx : List Bool → ℕ → ℕ → Bool
none_retx retx zero i = true
none_retx retx (suc n) i = not (get_or retx i false) && none_retx retx n (i + 1)

-- The rounds of a loop over the 8 places before `index`, and where it starts.
pub is_new_burst : List Bool → ℕ → ℕ → Bool
is_new_burst retx size index =
    if leb size index
    then false
    else if ltb index 8
    then none_retx retx index 0
    else none_retx retx 8 (index - 8)

-- `for (..) tbs_sum += tbs[i]`, on uint32_t.
sum_tbs : List ℕ → ℕ → ℕ → ℕ → ℕ
sum_tbs tbs zero i sum = sum
sum_tbs tbs (suc n) i sum = sum_tbs tbs n (i + 1) ((sum + get_or tbs i 0) % 2 ^ 32)

pub sum_tbs_new_burst : List ℕ → ℕ → ℕ → ℕ
sum_tbs_new_burst tbs size index =
    if leb size index
    then 0
    else if ltb index 8
    then sum_tbs tbs index 0 0
    else sum_tbs tbs 8 (index - 8) 0

-- `idx_last` is -1 if the last TTI is no longer in the trace: the sum then starts at index 0.
pub sum_tbs_in_burst : List ℕ → ℕ → ℤ → ℕ → ℕ
sum_tbs_in_burst tbs size (negsuc k) idx_curr =
    if leb size idx_curr then 0 else sum_tbs tbs idx_curr 0 0
sum_tbs_in_burst tbs size (pos idx_last) idx_curr =
    if leb size idx_last || leb size idx_curr
    then 0
    else sum_tbs tbs (idx_curr - (idx_last + 1)) (idx_last + 1) 0

pub set_retx_start_tti : ReorderingBuf → CaTrace → ℕ → ReorderingBuf
set_retx_start_tti q t idx = record q {
  buffer_active = true;
  ready = true;
  buf_size = pos (sum_tbs_new_burst t.tbs t.size idx + 11520 * 4);
  buf_start_tti = get_or t.tti idx 0;
  buf_last_tti = get_or t.tti idx 0;
  buf_start_t = get_or t.rx_t_us idx 0;
  buf_last_t = get_or t.rx_t_us idx 0;
}

pub set_retx_tti_in_burst : ReorderingBuf → CaTrace → ℕ → ReorderingBuf
set_retx_tti_in_burst q t idx =
    let idx_last : ℤ = find_element_in_array_uint16 (take t.size t.tti) q.buf_last_tti in
    record q {
      buffer_active = true;
      buf_size = q.buf_size +ℤ pos (sum_tbs_in_burst t.tbs t.size idx_last idx + 11520 * 4);
      buf_last_tti = get_or t.tti idx 0;
      buf_last_t = get_or t.rx_t_us idx 0;
    }

-- The branches of `update_reTx_buf` for a subframe with a retransmission.
retx_at : ReorderingBuf → CaTrace → ℕ → ReorderingBuf
retx_at q t i =
    if q.buffer_active
    then if is_new_burst t.retx t.size i then q else set_retx_tti_in_burst q t i
    else if is_new_burst t.retx t.size i || not q.ready
    then set_retx_start_tti q t i
    else set_retx_tti_in_burst (activate_buf q) t i

-- Whether the subframe is not later than the last retransmission that was seen.
pub already_seen : ReorderingBuf → CaTrace → ℕ → Bool
already_seen q t i = tti_a_se_b (wrap_tti (get_or t.tti i 0)) (wrap_tti q.buf_last_tti) && q.ready

-- Whether the subframe is more than 8 later than the last retransmission: the loop is left.
burst_over : ReorderingBuf → CaTrace → ℕ → Bool
burst_over q t i =
    q.buffer_active && tti_a_l_b (wrap_tti (get_or t.tti i 0)) (wrap_tti (q.buf_last_tti + 8))

-- One round of the loop: whether it is left, `found_reTx` and the buffer.
record Round : Type 0 where
  leave : Bool
  found : Bool
  buf : ReorderingBuf

round : CaTrace → ℕ → Bool → ReorderingBuf → Round
round t i found q =
    let retx : Bool = get_or t.retx i false in
    let q' : ReorderingBuf = if retx then retx_at q t i else q in
    if already_seen q t i
    then record { leave = false; found = found; buf = q }
    else record { leave = burst_over q' t i; found = found || retx; buf = q' }

-- The loop from subframe `i` on, with `n` rounds left.
update_loop : CaTrace → ℕ → ℕ → Bool → ReorderingBuf → Bool × ReorderingBuf
update_loop t zero i found q = (found, q)
update_loop t (suc n) i found q =
    let r : Round = round t i found q in
    let rest : Bool × ReorderingBuf = update_loop t n (i + 1) r.found r.buf in
    if r.leave then (r.found, r.buf) else rest

pub update_retx_buf : ReorderingBuf → CaTrace → Bool × ReorderingBuf
update_retx_buf q t = update_loop t t.size 0 false q
