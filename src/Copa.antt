-- ===== src/Copa.antt =====
-- markoviancc.hh and markoviancc.cc, lines 13-80: the state of the congestion controller Copa, and its
-- start. What is printed and the log files are left out.
pub mod Delta
pub mod Pace
pub mod Ack
pub mod Frame
pub mod Window
pub mod Reach
pub mod Abort
pub mod Session
pub mod Live
pub mod Chosen
pub mod Cap
pub mod Config
pub mod Modes
pub mod Loss
pub mod Acked
mod Runs
use copa_new.Prelude.{ℕ, ◌+◌, List, [], ◌∷◌, Bool, true, false, not, if◌then◌else◌}
use copa_new.Prelude.Int.{ℤ, pos}
use copa_new.Double.{Double, ◌⊘◌, ◌≡?◌, lit, greatest, least}
use copa_new.RttWindow.{RttWindow, new_rtt_window, clear}
use copa_new.Estimators.{
  PlainEwma, Percentile, LossRateEstimate, ReduceOnLoss, IsUniformDistr, plain_ewma, ewma_reset,
  percentile_reset, loss_rate_reset, reduce_reset, is_uniform_reset,
}

pub data UtilityMode : Type 0 where
  constant_delta pfabric_fct del_fct bounded_delay bounded_delay_end max_throughput
        bounded_qdelay_end bounded_fdelay_end tcp_coop const_behavior auto_mode :
      UtilityMode

pub data OperationMode : Type 0 where
  default_mode loss_sensitive_mode tcp_mode : OperationMode

pub record PacketData (W : Type 0) : Type 0 where
  pub sent_time : W
  pub intersend_time : W
  pub intersend_time_vel : W
  pub rtt : W
  pub prev_avg_sending_rate : W

-- An entry of the map of the packets that are not acknowledged; they stand in the order of `seq`.
pub record Unacked (W : Type 0) : Type 0 where
  pub seq : ℤ
  pub packet : PacketData W

-- `MarkovianCC`, with the three fields of `CCC` last.
pub record Copa (W : Type 0) : Type 0 where
  pub delta : W
  pub unacknowledged_packets : List (Unacked W)
  pub min_rtt : W
  pub external_min_rtt : W
  pub rtt_unacked : PlainEwma W
  pub rtt_window : RttWindow W
  pub prev_intersend_time : W
  pub cur_intersend_time : W
  pub interarrival : Percentile W
  pub is_uniform : IsUniformDistr W
  pub last_update_time : W
  pub update_dir : ℤ
  pub prev_update_dir : ℤ
  pub pkts_per_rtt : ℕ
  pub update_amt : W
  pub intersend_time_vel : W
  pub prev_intersend_time_vel : W
  pub prev_rtt : W
  pub prev_rtt_update_time : W
  pub prev_avg_sending_rate : W
  pub num_pkts_lost : ℕ
  pub num_pkts_acked : ℕ
  pub num_pkts_sent : ℕ
  pub utility_mode : UtilityMode
  pub operation_mode : OperationMode
  pub do_slow_start : Bool
  pub keep_ext_min_rtt : Bool
  pub default_delta : W
  pub flow_length : ℤ
  pub delay_bound : W
  pub prev_delta_update_time : W
  pub prev_delta_update_time_loss : W
  pub max_queuing_delay_estimate : W
  pub loss_rate : LossRateEstimate
  pub reduce_on_loss : ReduceOnLoss W
  pub loss_in_last_rtt : Bool
  pub behavior : W
  pub interarrival_ewma : PlainEwma W
  pub prev_ack_time : W
  pub exp_increment : W
  pub prev_delta : PlainEwma W
  pub slow_start : Bool
  pub slow_start_threshold : W
  pub flow_id : ℤ
  pub cur_tick : W
  pub intersend_time : W
  pub the_window : W
  pub timeout : W

-- `num_probe_pkts`.
abbrev pub num_probe_pkts : ℕ
num_probe_pkts = 10

unfoldable pub is_constant_delta : UtilityMode → Bool
is_constant_delta constant_delta = true
is_constant_delta _ = false

unfoldable pub is_auto : UtilityMode → Bool
is_auto auto_mode = true
is_auto _ = false

unfoldable pub is_tcp_coop : UtilityMode → Bool
is_tcp_coop tcp_coop = true
is_tcp_coop _ = false

pub is_bounded_delay : UtilityMode → Bool
is_bounded_delay bounded_delay = true
is_bounded_delay _ = false

module _ {W : Type 0} ⦃d : Double W⦄ where
  unfoldable pub init : Copa W → Copa W
  init c = record c {
    intersend_time =
        if c.external_min_rtt ≡? lit 0 1
        then lit 0 1
        else c.external_min_rtt ⊘ lit num_probe_pkts 1;
    the_window = lit num_probe_pkts 1;
    min_rtt = if c.keep_ext_min_rtt then c.external_min_rtt else greatest;
    timeout = lit 1000 1;
    delta = if is_constant_delta c.utility_mode then c.delta else lit 1 1;
    unacknowledged_packets = [];
    rtt_unacked = ewma_reset c.rtt_unacked;
    rtt_window = clear c.rtt_window;
    prev_intersend_time = lit 0 1;
    cur_intersend_time = lit 0 1;
    interarrival = percentile_reset c.interarrival;
    is_uniform = is_uniform_reset c.is_uniform;
    last_update_time = lit 0 1;
    update_dir = pos 1;
    prev_update_dir = pos 1;
    pkts_per_rtt = 0;
    update_amt = lit 1 1;
    intersend_time_vel = lit 0 1;
    prev_intersend_time_vel = lit 0 1;
    prev_rtt = lit 0 1;
    prev_rtt_update_time = lit 0 1;
    prev_avg_sending_rate = lit 0 1;
    num_pkts_acked = 0;
    num_pkts_lost = 0;
    num_pkts_sent = 0;
    operation_mode = default_mode;
    flow_length = pos 0;
    prev_delta_update_time = lit 0 1;
    prev_delta_update_time_loss = lit 0 1;
    max_queuing_delay_estimate = lit 0 1;
    loss_rate = loss_rate_reset;
    reduce_on_loss = reduce_reset;
    loss_in_last_rtt = false;
    interarrival_ewma = ewma_reset c.interarrival_ewma;
    prev_ack_time = lit 0 1;
    exp_increment = lit 1 1;
    prev_delta = ewma_reset c.prev_delta;
    slow_start = true;
    slow_start_threshold = lit 10000000000 1;
  }

  -- The constructor, with the number of the flow. The times and counters are 0 until `init`.
  unfoldable pub new_copa : W → ℤ → Copa W
  new_copa delta flow_id = record {
    delta = delta;
    unacknowledged_packets = [];
    min_rtt = lit 0 1;
    external_min_rtt = lit 0 1;
    rtt_unacked = plain_ewma (lit 1 1);
    rtt_window = new_rtt_window;
    prev_intersend_time = lit 0 1;
    cur_intersend_time = lit 0 1;
    interarrival = record { percentile = lit 5 100; window = [] };
    is_uniform = record { window_len = 32; window = []; sum = lit 0 1 };
    last_update_time = lit 0 1;
    update_dir = pos 0;
    prev_update_dir = pos 0;
    pkts_per_rtt = 0;
    update_amt = lit 0 1;
    intersend_time_vel = lit 0 1;
    prev_intersend_time_vel = lit 0 1;
    prev_rtt = lit 0 1;
    prev_rtt_update_time = lit 0 1;
    prev_avg_sending_rate = lit 0 1;
    num_pkts_lost = 0;
    num_pkts_acked = 0;
    num_pkts_sent = 0;
    utility_mode = constant_delta;
    operation_mode = default_mode;
    do_slow_start = false;
    keep_ext_min_rtt = false;
    default_delta = lit 1 2;
    flow_length = pos 0;
    delay_bound = lit 0 1;
    prev_delta_update_time = lit 0 1;
    prev_delta_update_time_loss = lit 0 1;
    max_queuing_delay_estimate = lit 0 1;
    loss_rate = loss_rate_reset;
    reduce_on_loss = reduce_reset;
    loss_in_last_rtt = false;
    behavior = lit 0 1;
    interarrival_ewma = plain_ewma (lit 1 32);
    prev_ack_time = lit 0 1;
    exp_increment = lit 0 1;
    prev_delta = plain_ewma (lit 1 1);
    slow_start = false;
    slow_start_threshold = lit 0 1;
    flow_id = flow_id;
    cur_tick = lit 0 1;
    intersend_time = lit 0 1;
    the_window = lit 2 1;
    timeout = lit 1000 1;
  }

  abbrev pub set_timestamp : Copa W → W → Copa W
  set_timestamp c t = record c { cur_tick = t }

  abbrev pub set_flow_length : Copa W → ℤ → Copa W
  set_flow_length c n = record c { flow_length = n }

  unfoldable pub set_min_rtt : Copa W → W → Copa W
  set_min_rtt c x = init (record c {
    external_min_rtt = if c.external_min_rtt ≡? lit 0 1 then x else least c.external_min_rtt x;
  })

  unfoldable pub set_delta_from_router : Copa W → W → Copa W
  set_delta_from_router c x = if is_bounded_delay c.utility_mode then record c { delta = x } else c

  abbrev pub on_tiny_pkt_sent : Copa W → Copa W
  on_tiny_pkt_sent c = record c { num_pkts_acked = c.num_pkts_acked + 1 }
