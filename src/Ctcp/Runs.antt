-- ===== src/Ctcp/Runs.antt =====
-- Runs of the sender on whole milliseconds, and its theorems at concrete inputs.
use copa_new.Prelude.{ℕ, ◌+◌, refl, List, [], ◌∷◌, false, arith}
use copa_new.Prelude.Int.{pos, negsuc, ◌+ℤ◌}
use copa_new.Double.{whole, whole-IsOrdered}
use copa_new.Copa.{Copa, init, new_copa}
use copa_new.Copa.Frame.{OnSome}
use copa_new.Copa.Reach.{IsSound}
use copa_new.Ctcp.{Header, Setup, Flow, silent, heard, Round, goes_on}
use copa_new.Ctcp.Send.{send_loop}
use copa_new.Ctcp.Receive.{rounds, begin_flow}
use copa_new.Ctcp.Train.{Ends}
use copa_new.Ctcp.Books.{OnOutcome}
use copa_new.Ctcp.Account.{IsAccounted, begin_flow-rounds}
use copa_new.Ctcp.Handshake.{
  Pass, shake, new_shake, tcp_handshake, IsGreeted, tcp_handshake-IsGreeted,
}
use copa_new.Remy.Tree.{new_tree}
use copa_new.Remy.Tree.Search.{IsCovering}
use copa_new.Remy.Controller.{RemyCc, new_remy}
use copa_new.Ctcp.OnRemy.{IsGuided, remy_flow-IsGuided}
use copa_new.Ctcp.OnCopa.{remy_controller, copa_controller, copa_flow-IsSound, copa_send_loop-Ends}

abbrev copa : Copa ℕ
copa = init (new_copa 1 (pos 1))

-- Ten seconds, in trains of four packets.
abbrev setup : Setup ℕ
setup = record {
  flow_size = 10000;
  byte_switched = false;
  flow_id = pos 1;
  src_id = pos 7;
  train_length = 4;
}

abbrev stamp : ℕ → ℕ
stamp n = 1000 + n

abbrev flow : Flow (Copa ℕ) ℕ
flow = record {
  congctrl = copa;
  last_send_time = 0;
  largest_ack = negsuc 0;
  tot_time_transmitted = 0;
  tot_delay = 0;
  tot_bytes_transmitted = pos 0;
  tot_packets_transmitted = 0;
  seq_num = 0;
  link_rate_estimate = 0;
  last_recv_time = 0;
  delay_sum = 0;
  num_packets_transmitted = 0;
  transmitted_bytes = pos 0;
  cur_time = 0;
  last_ack_time = 0;
  wire = [];
}

abbrev echo : Header ℕ
echo = record {
  seq_num = pos 0;
  flow_id = pos 1;
  src_id = pos 7;
  sender_timestamp = 10;
  tx_timestamp = 1000;
  receiver_timestamp = 30;
  adjust_us = pos 0;
}

-- A reply to the first packet after 40 ms, and then nothing until the time for a restart.
abbrev two_rounds : List (Round ℕ)
two_rounds =
    record { now = 10; stamp = stamp; short_stamp = 5000; before_wait = 12; reply = heard echo 50 }
    ∷ record {
      now = 2100;
      stamp = stamp;
      short_stamp = 6000;
      before_wait = 2101;
      reply = silent 2105;
    }
    ∷ []

copa_send_loop-Ends_example :
    Ends ⦃k = copa_controller false⦄ setup 52 flow
      (send_loop ⦃k = copa_controller false⦄ 52 setup stamp flow)
unfolding init new_copa ◌+ℤ◌
copa_send_loop-Ends_example =
    copa_send_loop-Ends whole-IsOrdered false setup stamp 52 52 flow (λ n h. ground (arith, h)) refl
      (omega arith) (omega arith)

begin_flow-rounds_example :
    OnSome
      (λ g.
        IsAccounted setup two_rounds 0
          (rounds ⦃k = copa_controller false⦄ 60 setup two_rounds (goes_on g)))
      (begin_flow ⦃k = copa_controller false⦄ 0 1 flow)
begin_flow-rounds_example =
    begin_flow-rounds ⦃k = copa_controller false⦄ 60 setup 0 1 two_rounds flow refl

copa_flow-IsSound_example :
    OnSome
      (λ g.
        OnOutcome
          (λ x. IsSound x.congctrl)
          (rounds ⦃k = copa_controller false⦄ 60 setup two_rounds (goes_on g)))
      (begin_flow ⦃k = copa_controller false⦄ 0 1 flow)
copa_flow-IsSound_example = copa_flow-IsSound whole-IsOrdered false setup 60 0 1 two_rounds flow

-- The first packet is not answered; the second one is.
abbrev welcome : Header ℕ
welcome = record echo {
  seq_num = negsuc 0;
  flow_id = negsuc 0;
  src_id = negsuc 0;
  sender_timestamp = 0;
}

abbrev passes : List (Pass ℕ)
passes =
    record { now = 300; reply = silent 500 } ∷ record { now = 510; reply = heard welcome 560 } ∷ []

tcp_handshake-IsGreeted_example :
    OnSome
      (IsGreeted ⦃k = copa_controller false⦄ copa (shake new_shake passes))
      (tcp_handshake ⦃k = copa_controller false⦄ copa passes)
tcp_handshake-IsGreeted_example =
    tcp_handshake-IsGreeted ⦃k = copa_controller false⦄ copa passes refl (refl, (refl, tt))

-- The tree of the program without a file of rules, in a controller that is told of a first rate.
abbrev ruled_flow : Flow (RemyCc ℕ) ℕ
ruled_flow = record {
  congctrl = new_remy new_tree;
  last_send_time = 0;
  largest_ack = negsuc 0;
  tot_time_transmitted = 0;
  tot_delay = 0;
  tot_bytes_transmitted = pos 0;
  tot_packets_transmitted = 0;
  seq_num = 0;
  link_rate_estimate = 0;
  last_recv_time = 0;
  delay_sum = 0;
  num_packets_transmitted = 0;
  transmitted_bytes = pos 0;
  cur_time = 0;
  last_ack_time = 0;
  wire = [];
}

remy_flow-IsGuided_example :
    OnSome
      (λ g.
        OnOutcome
          (λ x. IsGuided 2666 x.congctrl)
          (rounds ⦃k = remy_controller 2666⦄ 60 setup two_rounds (goes_on g)))
      (begin_flow ⦃k = remy_controller 2666⦄ 0 1 ruled_flow)
unfolding IsCovering
remy_flow-IsGuided_example =
    remy_flow-IsGuided 2666 setup 60 0 1 two_rounds ruled_flow (tt, omega arith)
