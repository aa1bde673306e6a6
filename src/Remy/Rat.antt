-- ===== src/Remy/Rat.antt =====
-- rat.hh and rat.cc: a sender that follows the rules of a tree. `none` is a failed assertion. The
-- sequence numbers are ints; overflow of an int is not modelled.
pub mod Sending
use copa_new.Prelude.{
  ℕ, ◌+◌, ◌%◌, ◌^◌, List, [], ◌∷◌, length, Bool, true, false, ◌&&◌, Option, none, some,
  if◌then◌else◌, ◌==◌,
}
use copa_new.Prelude.Int.{ℤ, pos, negsuc, ◌+ℤ◌, ◌-ℤ◌, eqb_ℤ, ltb_ℤ, leb_ℤ}
use copa_new.Double.{Double, ◌⊕◌, ◌⊗◌, ◌⊘◌, ◌<?◌, ◌≤?◌, lit, greatest}
use copa_new.Remy.{Memory, Packet, new_memory, reset, memory_received}
use copa_new.Remy.Whisker.{Whisker, next_window}
use copa_new.Remy.Tree.{WhiskerTree, use_whisker}

pub record Rat (W : Type 0) : Type 0 where
  pub whiskers : WhiskerTree W
  pub memory : Memory W
  pub packets_sent : ℕ
  pub packets_received : ℕ
  pub track : Bool
  pub last_send_time : W
  pub the_window : ℕ
  pub intersend_time : W
  pub flow_id : ℕ
  pub largest_ack : ℤ

-- -1 as an unsigned int.
abbrev pub no_flow : ℕ
no_flow = 4294967295

module _ {W : Type 0} where
  unfoldable pub last_flow : ℕ → List (Packet W) → ℕ
  last_flow flow_id [] = flow_id
  last_flow flow_id (x ∷ xs) = last_flow x.flow_id xs

  unfoldable pub largest_seq : ℤ → List (Packet W) → ℤ
  largest_seq a [] = a
  largest_seq a (x ∷ xs) = largest_seq (if ltb_ℤ x.seq_num a then a else x.seq_num) xs

module _ {W : Type 0} ⦃d : Double W⦄ where
  abbrev pub new_rat : WhiskerTree W → Bool → Rat W
  new_rat whiskers track = record {
    whiskers = whiskers;
    memory = new_memory;
    packets_sent = 0;
    packets_received = 0;
    track = track;
    last_send_time = lit 0 1;
    the_window = 0;
    intersend_time = lit 0 1;
    flow_id = 0;
    largest_ack = negsuc 0;
  }

  -- The window and the time between packets of the rule for the memory.
  unfoldable pub follow : Rat W → Option (Whisker W × WhiskerTree W) → Option (Rat W)
  follow r none = none
  follow r (some (w, t)) = some (record r {
    whiskers = t;
    the_window = next_window w r.the_window;
    intersend_time = w.intersend;
  })

  unfoldable pub with_memory : Rat W → Option (Memory W) → Option (Rat W)
  with_memory r none = none
  with_memory r (some m) = follow (record r { memory = m }) (use_whisker r.whiskers m r.track)

  unfoldable pub packets_received : Rat W → List (Packet W) → W → Option (Rat W)
  packets_received r packets factor =
      let flow_id : ℕ = last_flow no_flow packets in
      if length packets == 0
      then none
      else if flow_id == no_flow
      then none
      else with_memory
          (record r {
            packets_received = r.packets_received + length packets;
            largest_ack = largest_seq r.largest_ack packets;
          })
          (memory_received r.memory packets flow_id factor)

  unfoldable pub reset_rat : Rat W → Option (Rat W)
  reset_rat r =
      let flow_id : ℕ = (r.flow_id + 1) % 2 ^ 32 in
      if flow_id == 0
      then none
      else some (record r {
        memory = reset r.memory;
        last_send_time = lit 0 1;
        the_window = 0;
        intersend_time = lit 0 1;
        flow_id = flow_id;
        largest_ack = pos r.packets_sent -ℤ pos 1;
      })

  abbrev pub is_open : Rat W → Bool
  is_open r = ltb_ℤ (pos r.packets_sent) (r.largest_ack +ℤ pos 1 +ℤ pos r.the_window)

  unfoldable pub next_event_time : Rat W → W → W
  next_event_time r tickno =
      let next : W = r.last_send_time ⊕ r.intersend_time in
      if is_open r then (if next ≤? tickno then tickno else next) else greatest

  -- The initial window, if there is none yet.
  unfoldable pub start_window : Rat W → Option (Rat W)
  start_window r =
      if r.the_window == 0 then follow r (use_whisker r.whiskers r.memory r.track) else some r

  unfoldable pub send_now : W → Option (Rat W) → Option (Bool × Rat W)
  send_now curtime none = none
  send_now curtime (some r) =
      if is_open r && (r.last_send_time ⊕ r.intersend_time ≤? curtime)
      then some (true, record r { packets_sent = r.packets_sent + 1; last_send_time = curtime })
      else some (false, r)

  unfoldable pub send : Rat W → W → Option (Bool × Rat W)
  send r curtime =
      if leb_ℤ (r.largest_ack +ℤ pos 1) (pos r.packets_sent)
      then send_now curtime (start_window r)
      else none
