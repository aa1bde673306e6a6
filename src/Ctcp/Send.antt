-- ===== src/Ctcp/Send.antt =====
-- ctcp.hh, lines 244-331: how a round starts again, sends its packets and waits.
use copa_new.Prelude.{
  ℕ, zero, suc, ◌+◌, ◌/◌, ◌%◌, ◌∷◌, Bool, ◌&&◌, ◌||◌, not, Option, none, some, if◌then◌else◌, ◌==◌,
}
use copa_new.Prelude.Int.{pos, negsuc, ◌+ℤ◌, ◌-ℤ◌}
use copa_new.Double.{Double, ◌⊕◌, ◌⊖◌, ◌⊗◌, ◌<?◌, ◌≤?◌, lit, least}
use copa_new.Ctcp.{Header, Controller, Setup, Flow, Outcome, goes_on, leaves, aborts, progress}

module _ {C W : Type 0} ⦃d : Double W⦄ ⦃k : Controller C W⦄ where
  -- Lines 244-253: after 2 s without a reply the controller starts again.
  unfoldable pub started_again : Flow C W → Option C → Outcome (Flow C W)
  started_again f none = aborts
  started_again f (some c) = goes_on (record f {
    congctrl = c;
    largest_ack = pos f.seq_num -ℤ pos 1;
    last_send_time = f.cur_time;
    last_ack_time = f.cur_time;
  })

  unfoldable pub start_round : Setup W → Flow C W → W → Outcome (Flow C W)
  start_round s f now =
      let g : Flow C W = record f { cur_time = now } in
      if lit 2000 1 <? now ⊖ g.last_ack_time
      then if s.flow_size ≤? progress s g
        then leaves g
        else started_again g (k.init (k.set_timestamp g.congctrl now))
      else goes_on g

  -- Whether the window, the pace and the rest of the flow admit a packet.
  abbrev pub is_admitted : Setup W → Flow C W → Bool
  is_admitted s f =
      (d.of_int (pos f.seq_num)
        <? d.of_int (f.largest_ack +ℤ pos 1) ⊕ lit 5 1 ⊗ k.window f.congctrl)
      && (f.last_send_time ⊕ k.intersend f.congctrl ⊗ d.of_int (pos s.train_length) ≤? f.cur_time)
      && (progress s f <? s.flow_size)

  abbrev pub in_train : Setup W → Flow C W → Bool
  in_train s f = not (f.seq_num % s.train_length == 0)

  abbrev pub data_header : Setup W → Flow C W → ℕ → Header W
  data_header s f stamp = record {
    seq_num = pos f.seq_num;
    flow_id = s.flow_id;
    src_id = s.src_id;
    sender_timestamp = f.cur_time;
    tx_timestamp = stamp;
    receiver_timestamp = lit 0 1;
    adjust_us = pos 0;
  }

  -- The controller is told of the first packet of a train.
  unfoldable pub told : Setup W → Flow C W → C
  told s f =
      if f.seq_num % s.train_length == 0
      then k.on_pkt_sent (k.set_timestamp f.congctrl f.cur_time) (pos (f.seq_num / s.train_length))
      else f.congctrl

  unfoldable pub send_packet : Setup W → (ℕ → ℕ) → Flow C W → Flow C W
  send_packet s stamp f = record f {
    wire = data_header s f (stamp f.seq_num) ∷ f.wire;
    last_send_time = f.last_send_time ⊕ k.intersend f.congctrl;
    congctrl = told s f;
    seq_num = f.seq_num + 1;
  }

  -- Lines 267-300; `none` is the end of the fuel.
  unfoldable pub send_loop : ℕ → Setup W → (ℕ → ℕ) → Flow C W → Option (Flow C W)
  send_loop zero s stamp f = if is_admitted s f || in_train s f then none else some f
  send_loop (suc n) s stamp f =
      let rest = send_loop n s stamp (send_packet s stamp f) in
      if is_admitted s f || in_train s f then rest else some f

  -- Lines 302-326: a header alone, if the sender is behind or the window is used up.
  abbrev pub is_hopeless : Setup W → Flow C W → Bool
  is_hopeless s f =
      (k.intersend f.congctrl ⊗ d.of_int (pos s.train_length) ≤? f.cur_time ⊖ f.last_send_time)
      || (d.of_int f.largest_ack ⊕ k.window f.congctrl ≤? d.of_int (pos f.seq_num))

  abbrev pub short_header : Setup W → Flow C W → ℕ → Header W
  short_header s f stamp = record {
    seq_num = negsuc 0;
    flow_id = negsuc 0;
    src_id = s.src_id;
    sender_timestamp = f.cur_time;
    tx_timestamp = stamp;
    receiver_timestamp = lit 0 1;
    adjust_us = pos 0;
  }

  unfoldable pub give_up : Setup W → ℕ → Flow C W → Flow C W
  give_up s stamp f =
      if is_hopeless s f
      then record f { wire = short_header s f stamp ∷ f.wire; last_send_time = f.cur_time }
      else f

  -- Lines 329-331: the time to wait for a reply.
  unfoldable pub wait_time : Setup W → Flow C W → W
  wait_time s f =
      if lit 0 1 <? k.window f.congctrl
      then least (lit 1000 1)
          (f.last_send_time ⊕ k.intersend f.congctrl ⊗ d.of_int (pos s.train_length) ⊖ f.cur_time)
      else f.last_send_time ⊕ lit 1000 1
