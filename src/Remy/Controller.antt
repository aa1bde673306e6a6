-- ===== src/Remy/Controller.antt =====
-- remycc.hh and remycc.cc: the controller that gives a sender with rules the acknowledgements. What
-- is printed is left out. `none` is a failed assertion.
pub mod Replies
use copa_new.Prelude.{ℕ, ◌+◌, List, [], ◌∷◌, Bool, true, false, Option, none, some, if◌then◌else◌}
use copa_new.Prelude.Int.{ℤ, pos, negsuc, ◌-ℤ◌, eqb_ℤ}
use copa_new.Double.{Double, ◌⊗◌, ◌⊘◌, ◌<?◌, lit}
use copa_new.Remy.{Packet}
use copa_new.Remy.Tree.{WhiskerTree}
use copa_new.Remy.Rat.{Rat, new_rat, reset_rat, packets_received}

-- `RemyCC`, with the three fields of `CCC` last.
pub record Sent (W : Type 0) : Type 0 where
  pub seq : ℤ
  pub time : W

pub record RemyCc (W : Type 0) : Type 0 where
  pub rat : Rat W
  pub unacknowledged_packets : List (Sent W)
  pub flow_id : ℕ
  pub cur_tick : W
  pub measured_link_rate : W
  pub the_window : W
  pub intersend_time : W
  pub timeout : W

module _ {W : Type 0} where
  -- The map from a sequence number to its time: a lookup, an entry put or replaced, and one erased.
  unfoldable pub time_of : ℤ → List (Sent W) → Option W
  time_of seq [] = none
  time_of seq (x ∷ xs) = if eqb_ℤ seq x.seq then some x.time else time_of seq xs

  unfoldable pub put : ℤ → W → List (Sent W) → List (Sent W)
  put seq time [] = record { seq = seq; time = time } ∷ []
  put seq time (x ∷ xs) =
      if eqb_ℤ seq x.seq then record { seq = seq; time = time } ∷ xs else x ∷ put seq time xs

  unfoldable pub erase : ℤ → List (Sent W) → List (Sent W)
  erase seq [] = []
  erase seq (x ∷ xs) = let rest = erase seq xs in if eqb_ℤ seq x.seq then rest else x ∷ rest

  unfoldable pub on_pkt_sent : RemyCc W → ℤ → RemyCc W
  on_pkt_sent c seq_num = record c {
    unacknowledged_packets = put seq_num c.cur_tick c.unacknowledged_packets;
  }

  abbrev pub on_link_rate : RemyCc W → W → RemyCc W
  on_link_rate c rate = record c { measured_link_rate = rate }

  abbrev pub set_timestamp : RemyCc W → W → RemyCc W
  set_timestamp c tick = record c { cur_tick = tick }

module _ {W : Type 0} ⦃d : Double W⦄ where
  -- The rate before the first measurement is -1.
  abbrev pub new_remy : WhiskerTree W → RemyCc W
  new_remy tree = record {
    rat = new_rat tree false;
    unacknowledged_packets = [];
    flow_id = 0;
    cur_tick = lit 0 1;
    measured_link_rate = d.of_int (negsuc 0);
    the_window = lit 2 1;
    intersend_time = lit 0 1;
    timeout = lit 1000 1;
  }

  unfoldable pub init_with : RemyCc W → Option (Rat W) → Option (RemyCc W)
  init_with c none = none
  init_with c (some r) =
      some (record c { flow_id = 0; rat = r; the_window = lit 2 1; intersend_time = lit 0 1 })

  unfoldable pub init_remy : RemyCc W → Option (RemyCc W)
  init_remy c = init_with c (reset_rat c.rat)

  -- The window and the time between packets, scaled by the rate the rules were learnt for.
  unfoldable pub scaled : W → RemyCc W → Option (Rat W) → Option (RemyCc W)
  scaled training c none = none
  scaled training c (some r) = some (record c {
    rat = r;
    the_window = d.of_int (pos r.the_window) ⊗ c.measured_link_rate ⊘ training;
    intersend_time = r.intersend_time ⊗ training ⊘ c.measured_link_rate;
  })

  unfoldable pub unscaled : RemyCc W → Option (Rat W) → Option (RemyCc W)
  unscaled c none = none
  unscaled c (some r) = some (record c {
    rat = r;
    the_window = d.of_int (pos r.the_window);
    intersend_time = r.intersend_time;
  })

  abbrev pub reply_packet : RemyCc W → ℤ → W → W → Packet W
  reply_packet c seq_num sent_time receiver_timestamp = record {
    src = 0;
    flow_id = c.flow_id;
    tick_sent = sent_time;
    tick_received = c.cur_tick;
    receiver_timestamp = receiver_timestamp;
    seq_num = seq_num;
  }

  unfoldable pub answered : W → RemyCc W → Packet W → Option (RemyCc W)
  answered training c p =
      if lit 0 1 <? c.measured_link_rate
      then scaled training c
          (packets_received c.rat (p ∷ []) (lit 1 1 ⊗ training ⊘ c.measured_link_rate))
      else unscaled c (packets_received c.rat (p ∷ []) (lit 1 1))

  unfoldable pub reply : W → RemyCc W → ℤ → W → Option W → Option (RemyCc W)
  reply training c seq_num receiver_timestamp none = some c
  reply training c seq_num receiver_timestamp (some sent_time) =
      answered training
        (record c { unacknowledged_packets = erase seq_num c.unacknowledged_packets })
        (reply_packet c seq_num sent_time receiver_timestamp)

  -- `training` is TRAINING_LINK_RATE, which the programs set.
  unfoldable pub on_ack : W → RemyCc W → ℤ → W → Option (RemyCc W)
  on_ack training c ack receiver_timestamp =
      let seq_num : ℤ = ack -ℤ pos 1 in
      reply training c seq_num receiver_timestamp (time_of seq_num c.unacknowledged_packets)
