-- ===== src/Copa/Runs.antt =====
-- Runs of the controller on whole milliseconds, and its theorems at concrete inputs.
use copa_new.Prelude.{
  ℕ, ◌≡◌, refl, List, [], ◌∷◌, true, false, Option, none, some, All, length, arith, ◌||◌, not,
}
use copa_new.Prelude.Int.{pos, negsuc, ◌-ℤ◌}
use copa_new.Double.{whole, most, least, whole-IsOrdered, ◌<?◌, ◌≤?◌}
use copa_new.RttWindow.{
  new_rtt_sample, get_unjittered_rtt, clear, clear_window, new_sample, push_sample, clear_old_hist,
  update_max_time, clear_loop, front_val, pop_back_while, keep_front, smooth, new_rtt_window,
  empty_window,
}
use copa_new.Estimators.{
  force_set, ewma_update, reduce_update, count_pkt, reduce_reset, plain_ewma, ewma_reset,
}
use copa_new.RttWindow.Jitter.{IsRun}
use copa_new.Copa.{Copa, init, new_copa, set_timestamp, is_auto, is_tcp_coop, is_constant_delta}
use copa_new.Copa.Pace.{update_intersend_time}
use copa_new.Copa.Delta.{
  update_delta, choose_update, set_operation_mode, default_update, is_default, is_loss_sensitive,
}
use copa_new.Copa.Ack.{
  on_ack, on_pkt_sent, curr_rtt, add_sample, measured, conclude, retire, scan, take_entry,
  note_loss, note_packet, leave_entries, settle, settle?, after_loss, reduce_window, is_unacked,
  note_arrival, insert_unacked, packet_data, note_waiting,
}
use copa_new.Copa.Loss.{IsAbove}
use copa_new.Copa.Acked.{tally, acked_tally, on_ack-tally}
use copa_new.Copa.Reach.{Step, Reach, IsSound, Reach-IsSound}
use copa_new.Copa.Abort.{is_none, is_stuck, on_ack-is_none}
use copa_new.Copa.Session.{Event, run, samples, num_sends, IsTimely, Starts}
use copa_new.Copa.Live.{init-run}
use copa_new.Copa.Cap.{IsFirst, update_delta-IsFirst}
use copa_new.Copa.Config.{
  codes, interpret_config_str, read_do_ss, read_keep_ext_min_rtt, choose_mode, choose_other, starts,
  same_text,
}
use copa_new.Copa.Modes.{is_fdelay, interpret_config_str-mode}

-- A flow with a slow start, and one without.
abbrev flow : Copa ℕ
flow = record (new_copa 1 (pos 1)) { do_slow_start = true; default_delta = 2 }

abbrev plain_flow : Copa ℕ
plain_flow = new_copa 1 (pos 1)

abbrev some_or : Option (Copa ℕ) → Copa ℕ → Copa ℕ
some_or none c = c
some_or (some c) e = c

-- Two packets are sent, and the second is acknowledged.
abbrev two_sent : Copa ℕ
two_sent =
    on_pkt_sent false
      (set_timestamp (on_pkt_sent false (set_timestamp (init flow) 100) (pos 0)) 110) (pos 1)

abbrev events : List (Event ℕ)
events =
    Event.send_event 100 (pos 0)
    ∷ Event.send_event 110 (pos 1)
    ∷ Event.ack_event 150 (pos 2) 110 (pos 0)
    ∷ Event.ack_event 160 (pos 2) 110 (pos 3000)
    ∷ []

events-IsTimely : All (IsTimely {W = ℕ}) events
unfolding IsTimely
events-IsTimely = (omega arith, (omega arith, (refl, (refl, tt))))

events-IsRun : IsRun {W = ℕ} whole-IsOrdered (samples events)
unfolding samples
events-IsRun = record {
  nums = ((refl, (refl, refl, refl)), ((refl, (refl, refl, refl)), tt));
  sorted = ((refl, tt), (tt, tt));
}

init-run_example :
    (c' : Copa ℕ) × (run false (init flow) events ≡ some c')
    × IsSound c'
    × (c'.num_pkts_acked ≡ length (samples {W = ℕ} events))
    × (c'.num_pkts_sent ≡ num_sends {W = ℕ} events)
unfolding samples Starts new_copa new_rtt_window empty_window
init-run_example =
    init-run whole-IsOrdered false flow events refl refl refl events-IsTimely events-IsRun refl

two_sent-Reach : Reach (init flow) two_sent
two_sent-Reach =
    Reach.next
      (Reach.next
        (Reach.next (Reach.next Reach.here (Step.ticked _ 100))
          (Step.sent _ false (pos 0) (omega arith)))
        (Step.ticked _ 110))
      (Step.sent _ false (pos 1) (omega arith))

Reach-IsSound_example : IsSound two_sent
Reach-IsSound_example = Reach-IsSound whole-IsOrdered flow two_sent two_sent-Reach

abbrev at_ack : Copa ℕ
at_ack = set_timestamp two_sent 150

at_ack-IsAbove : IsAbove (negsuc 0) at_ack.unacknowledged_packets
at_ack-IsAbove = (Reach-IsSound whole-IsOrdered flow two_sent two_sent-Reach).ordered

abbrev after_ack : Copa ℕ
after_ack = some_or (on_ack at_ack (pos 2) 110 (pos 0)) at_ack

on_ack-goes : on_ack at_ack (pos 2) 110 (pos 0) ≡ some after_ack
unfolding on_ack curr_rtt add_sample measured conclude retire scan take_entry note_loss note_packet
    leave_entries settle settle? after_loss reduce_window is_unacked update_delta choose_update
    set_operation_mode default_update note_arrival update_intersend_time on_pkt_sent insert_unacked
    packet_data note_waiting init new_copa new_rtt_sample clear clear_window new_sample push_sample
    clear_old_hist update_max_time clear_loop front_val pop_back_while keep_front smooth
    new_rtt_window empty_window force_set ewma_update reduce_update count_pkt reduce_reset
    plain_ewma ewma_reset is_default is_loss_sensitive ◌-ℤ◌ most least is_auto is_tcp_coop
    is_constant_delta
on_ack-goes = refl

on_ack-tally_example :
    tally after_ack
    ≡ acked_tally at_ack
        (pos 2 -ℤ pos 1)
        (new_rtt_sample at_ack.rtt_window (curr_rtt at_ack 110 (pos 0)) at_ack.cur_tick)
on_ack-tally_example = on_ack-tally at_ack after_ack (pos 2) 110 (pos 0) at_ack-IsAbove on_ack-goes

on_ack-is_none_example :
    let s = add_sample at_ack (curr_rtt at_ack 110 (pos 0)) in
    is_none (on_ack at_ack (pos 2) 110 (pos 0)) ≡ (
      (not (110 <? at_ack.cur_tick) || not (s.min_rtt ≤? get_unjittered_rtt s.rtt_window))
      || is_stuck (measured at_ack (curr_rtt at_ack 110 (pos 0))))
on_ack-is_none_example = on_ack-is_none at_ack (pos 2) 110 (pos 0) at_ack-IsAbove

update_delta-IsFirst_example : IsFirst (init plain_flow) 7 false 40
unfolding init new_copa
update_delta-IsFirst_example =
    update_delta-IsFirst whole-IsOrdered (init plain_flow) 7 false 40 refl

abbrev no_atof : List ℕ → ℕ
no_atof text = 1

abbrev no_stof : List ℕ → Option ℕ
no_stof text = some 1

abbrev with_fdelay : Copa ℕ
with_fdelay =
    some_or (interpret_config_str no_atof no_stof flow (codes "bounded_fdelay_end:0.5")) flow

fdelay-goes :
    interpret_config_str no_atof no_stof flow (codes "bounded_fdelay_end:0.5") ≡ some with_fdelay
unfolding interpret_config_str read_do_ss read_keep_ext_min_rtt choose_mode choose_other starts
    same_text new_copa
fdelay-goes = refl

interpret_config_str-mode_example : is_fdelay with_fdelay.utility_mode ≡ false
interpret_config_str-mode_example =
    interpret_config_str-mode no_atof no_stof flow with_fdelay (codes "bounded_fdelay_end:0.5")
      fdelay-goes
