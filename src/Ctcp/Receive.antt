-- ===== src/Ctcp/Receive.antt =====
-- ctcp.hh, lines 225-243 and 336-410: the reply of a round, the loop over the rounds, and the ends of a
-- flow.
use copa_new.Prelude.{
  ℕ, ◌+◌, ◌*◌, ◌/◌, ◌%◌, List, [], ◌∷◌, ◌&&◌, ◌||◌, not, Option, none, some, if◌then◌else◌, ◌==◌,
}
use copa_new.Prelude.Int.{ℤ, pos, negsuc, ◌+ℤ◌, ◌-ℤ◌, abs, sub_ℕ, eqb_ℤ, ltb_ℤ}
use copa_new.Double.{Double, ◌⊕◌, ◌⊖◌, ◌⊗◌, ◌⊘◌, ◌<?◌, ◌≡?◌, lit}
use copa_new.Prelude.Word.{as_int, add64_int}
use copa_new.Ctcp.{
  Header, Controller, Setup, Flow, Reply, silent, heard, Round, Outcome, goes_on, leaves, aborts,
  data_size, progress,
}
use copa_new.Ctcp.Send.{start_round, send_loop, give_up}

-- The division of C.
abbrev pub quot : ℤ → ℕ → ℤ
quot (pos a) n = pos (a / n)
quot (negsuc a) n = sub_ℕ 0 ((a + 1) / n)

-- `x += data_size` for an int x: the sum is taken as a size_t, and cut to 32 bits.
unfoldable pub add_data : ℤ → ℤ
add_data x = as_int (add64_int data_size x)

module _ {C W : Type 0} ⦃d : Double W⦄ ⦃k : Controller C W⦄ where
  -- Lines 336-341.
  unfoldable pub no_reply : Flow C W → W → Flow C W
  no_reply f now =
      let g : Flow C W = record f { cur_time = now } in
      if g.last_send_time ⊕ k.timeout g.congctrl <? now
      then record g { congctrl = k.on_timeout g.congctrl }
      else g

  -- Lines 357-367; `seq` is the number of the reply, raised by one.
  abbrev pub new_estimate : Flow C W → W
  new_estimate f =
      if f.link_rate_estimate ≡? lit 0 1
      then lit 1 1 ⊗ (f.cur_time ⊖ f.last_recv_time)
      else (lit 1 1 ⊖ lit 1 16) ⊗ f.link_rate_estimate ⊕ lit 1 16 ⊗ (f.cur_time ⊖ f.last_recv_time)

  unfoldable pub estimate_rate : Setup W → ℤ → Flow C W → Flow C W
  estimate_rate s seq f =
      if not (abs (seq -ℤ pos 1) % s.train_length == 0) && not (f.last_recv_time ≡? lit 0 1)
      then record f {
        link_rate_estimate = new_estimate f;
        congctrl =
            if ltb_ℤ (pos (2 * s.train_length)) seq
            then k.on_link_rate f.congctrl (lit 1000 1 ⊘ new_estimate f)
            else f.congctrl;
        last_recv_time = f.cur_time;
      }
      else record f { last_recv_time = f.cur_time }

  -- Lines 370-377.
  unfoldable pub tally : W → Flow C W → Flow C W
  tally sender_timestamp f = record f {
    delay_sum = f.delay_sum ⊕ (f.cur_time ⊖ sender_timestamp);
    tot_delay = f.tot_delay ⊕ (f.cur_time ⊖ sender_timestamp);
    transmitted_bytes = add_data f.transmitted_bytes;
    tot_bytes_transmitted = add_data f.tot_bytes_transmitted;
    num_packets_transmitted = f.num_packets_transmitted + 1;
    tot_packets_transmitted = f.tot_packets_transmitted + 1;
  }

  -- Lines 379-402.
  unfoldable pub with_ack : ℤ → Flow C W → Option C → Outcome (Flow C W)
  with_ack seq f none = aborts
  with_ack seq f (some c) = goes_on (record f {
    congctrl = c;
    largest_ack = if ltb_ℤ f.largest_ack seq then seq else f.largest_ack;
  })

  unfoldable pub pass_ack : Setup W → Header W → ℤ → Flow C W → Outcome (Flow C W)
  pass_ack s h seq f = with_ack seq f (
      if abs (seq -ℤ pos 1) % s.train_length == 0
      then k.on_ack (k.set_timestamp f.congctrl f.cur_time) (quot seq s.train_length)
          h.receiver_timestamp h.sender_timestamp h.adjust_us
      else some f.congctrl)

  -- Lines 343-402; a reply to another flow is passed over.
  unfoldable pub got_reply : Setup W → Header W → W → Flow C W → Outcome (Flow C W)
  got_reply s h now f =
      let seq : ℤ = h.seq_num +ℤ pos 1 in
      if not (eqb_ℤ h.src_id s.src_id) || not (eqb_ℤ h.flow_id s.flow_id)
      then goes_on f
      else pass_ack s h seq (
          tally h.sender_timestamp
            (estimate_rate s seq (record f { cur_time = now; last_ack_time = now })))

  unfoldable pub take_reply : Setup W → Flow C W → Reply W → Outcome (Flow C W)
  take_reply s f (silent now) = goes_on (no_reply f now)
  take_reply s f (heard h now) = got_reply s h now f

  -- From the loop that sends to the end of a round.
  unfoldable pub end_round : Setup W → Round W → Option (Flow C W) → Outcome (Flow C W)
  end_round s r none = aborts
  end_round s r (some f) =
      take_reply s (record (give_up s r.short_stamp f) { cur_time = r.before_wait }) r.reply

  unfoldable pub continue_round : ℕ → Setup W → Round W → Outcome (Flow C W) → Outcome (Flow C W)
  continue_round fuel s r aborts = aborts
  continue_round fuel s r (leaves f) = leaves f
  continue_round fuel s r (goes_on f) = end_round s r (send_loop fuel s r.stamp f)

  unfoldable pub round : ℕ → Setup W → Round W → Flow C W → Outcome (Flow C W)
  round fuel s r f = continue_round fuel s r (start_round s f r.now)

  -- The loop over the rounds, as far as there are inputs.
  unfoldable pub rounds : ℕ → Setup W → List (Round W) → Outcome (Flow C W) → Outcome (Flow C W)
  rounds fuel s [] o = o
  rounds fuel s (r ∷ rs) aborts = aborts
  rounds fuel s (r ∷ rs) (leaves f) = leaves f
  rounds fuel s (r ∷ rs) (goes_on f) =
      rounds fuel s rs (if progress s f <? s.flow_size then round fuel s r f else leaves f)

  -- Lines 203-213 and 225-232, behind the handshake; `first` and `now` are the clock's readings. The
  -- list of what is sent is that of this flow.
  unfoldable pub begin : W → W → Flow C W → Option C → Option (Flow C W)
  begin first now f none = none
  begin first now f (some c) = some (record f {
    congctrl = c;
    seq_num = 0;
    largest_ack = negsuc 0;
    link_rate_estimate = lit 0 1;
    last_recv_time = lit 0 1;
    delay_sum = lit 0 1;
    num_packets_transmitted = 0;
    transmitted_bytes = pos 0;
    last_send_time = first;
    last_ack_time = first;
    cur_time = now;
    wire = [];
  })

  abbrev pub begin_flow : W → W → Flow C W → Option (Flow C W)
  begin_flow first now f = begin first now f (k.init (k.set_timestamp f.congctrl now))

  -- Lines 405-410.
  unfoldable pub end_flow : W → Flow C W → Flow C W
  end_flow now f = record f {
    cur_time = now;
    congctrl = k.close (k.set_timestamp f.congctrl now);
    tot_time_transmitted = f.tot_time_transmitted ⊕ now;
  }
