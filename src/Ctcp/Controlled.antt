-- ===== src/Ctcp/Controlled.antt =====
-- An invariant of a controller, kept by its operations, holds behind the rounds of a sender.
use copa_new.Prelude.{
  ℕ, zero, suc, ◌*◌, ◌/◌, ◌%◌, List, [], ◌∷◌, ◌&&◌, ◌||◌, not, Option, none, some, ◌==◌,
}
use copa_new.Prelude.Int.{ℤ, pos, ◌+ℤ◌, ◌-ℤ◌, abs, eqb_ℤ, ltb_ℤ}
use copa_new.Double.{Double, ◌⊕◌, ◌⊖◌, ◌⊘◌, ◌<?◌, ◌≤?◌, ◌≡?◌, lit}
use copa_new.Copa.Frame.{if_elim, OnSome, OnSome-map}
use copa_new.Ctcp.{
  Controller, Setup, Flow, Header, Reply, silent, heard, Round, Outcome, goes_on, leaves, aborts,
  progress,
}
use copa_new.Ctcp.Send.{
  is_admitted, in_train, told, send_packet, send_loop, start_round, started_again, is_hopeless,
  give_up,
}
use copa_new.Ctcp.Receive.{
  quot, no_reply, new_estimate, estimate_rate, tally, with_ack, pass_ack, got_reply, take_reply,
  end_round, continue_round, round, rounds, begin, begin_flow,
}
use copa_new.Ctcp.Books.{OnOutcome}

-- The operations a sender calls keep `P`; `init` sets it up where `S` holds.
pub record Keeps {C W : Type 0} (k : Controller C W) (S P : C → Type 0) : Type 0 where
  pub ready : (c : C) (t : W) → P c → S (k.set_timestamp c t)
  pub tick : (c : C) (t : W) → P c → P (k.set_timestamp c t)
  pub start : (c : C) → S c → OnSome P (k.init c)
  pub sent : (c : C) (n : ℕ) → P c → P (k.on_pkt_sent c (pos n))
  pub acked : (c : C) (a : ℤ) (r t : W) (j : ℤ) → P c → OnSome P (k.on_ack c a r t j)
  pub timed_out : (c : C) → P c → P (k.on_timeout c)
  pub rated : (c : C) (x : W) → P c → P (k.on_link_rate c x)

module _ {C W : Type 0} ⦃d : Double W⦄ ⦃k : Controller C W⦄ (S P : C → Type 0) (keeps : Keeps k S P)
    (s : Setup W) where
  abbrev pub IsControlled : Flow C W → Type 0
  IsControlled f = P f.congctrl

  told-P : (f : Flow C W) → IsControlled f → P (told s f)
  unfolding told
  told-P f h =
      if_elim P (f.seq_num % s.train_length == 0)
        (keeps.sent (k.set_timestamp f.congctrl f.cur_time) (f.seq_num / s.train_length)
          (keeps.tick f.congctrl f.cur_time h))
        h

  send_loop-IsControlled :
      (fuel : ℕ) (stamp : ℕ → ℕ) (f : Flow C W)
      → IsControlled f
      → OnSome IsControlled (send_loop fuel s stamp f)
  unfolding send_loop send_packet
  send_loop-IsControlled zero stamp f h =
      if_elim (OnSome IsControlled) (is_admitted s f || in_train s f) tt h
  send_loop-IsControlled (suc n) stamp f h =
      if_elim (OnSome IsControlled) (is_admitted s f || in_train s f)
        (send_loop-IsControlled n stamp (send_packet s stamp f) (told-P f h)) h

  give_up-IsControlled :
      (stamp : ℕ) (f : Flow C W) → IsControlled f → IsControlled (give_up s stamp f)
  unfolding give_up
  give_up-IsControlled stamp f h = if_elim IsControlled (is_hopeless s f) h h

  no_reply-IsControlled : (f : Flow C W) (now : W) → IsControlled f → IsControlled (no_reply f now)
  unfolding no_reply
  no_reply-IsControlled f now h =
      if_elim IsControlled (f.last_send_time ⊕ k.timeout f.congctrl <? now)
        (keeps.timed_out f.congctrl h) h

  estimate_rate-IsControlled :
      (seq : ℤ) (f : Flow C W) → IsControlled f → IsControlled (estimate_rate s seq f)
  unfolding estimate_rate
  estimate_rate-IsControlled seq f h =
      if_elim IsControlled
        (not (abs (seq -ℤ pos 1) % s.train_length == 0) && not (f.last_recv_time ≡? lit 0 1))
        (if_elim P (ltb_ℤ (pos (2 * s.train_length)) seq)
          (keeps.rated f.congctrl (lit 1000 1 ⊘ new_estimate f) h) h)
        h

  tally-IsControlled : (t : W) (f : Flow C W) → IsControlled f → IsControlled (tally t f)
  unfolding tally
  tally-IsControlled t f h = h

  with_ack-IsControlled :
      (seq : ℤ) (f : Flow C W) (c : Option C)
      → OnSome P c
      → OnOutcome IsControlled (with_ack seq f c)
  unfolding with_ack
  with_ack-IsControlled seq f none h = tt
  with_ack-IsControlled seq f (some c) h = h

  pass_ack-IsControlled :
      (h : Header W) (seq : ℤ) (f : Flow C W)
      → IsControlled f
      → OnOutcome IsControlled (pass_ack s h seq f)
  unfolding pass_ack
  pass_ack-IsControlled h seq f p = with_ack-IsControlled seq f _ (
      if_elim (OnSome P) (abs (seq -ℤ pos 1) % s.train_length == 0)
        (keeps.acked (k.set_timestamp f.congctrl f.cur_time) (quot seq s.train_length)
          h.receiver_timestamp h.sender_timestamp h.adjust_us (keeps.tick f.congctrl f.cur_time p))
        p)

  got_reply-IsControlled :
      (h : Header W) (now : W) (f : Flow C W)
      → IsControlled f
      → OnOutcome IsControlled (got_reply s h now f)
  unfolding got_reply
  got_reply-IsControlled h now f p =
      if_elim (OnOutcome IsControlled)
        (not (eqb_ℤ h.src_id s.src_id) || not (eqb_ℤ h.flow_id s.flow_id)) p
        (pass_ack-IsControlled h (h.seq_num +ℤ pos 1) _ (
          tally-IsControlled h.sender_timestamp _ (
            estimate_rate-IsControlled (h.seq_num +ℤ pos 1)
              (record f { cur_time = now; last_ack_time = now }) p)))

  take_reply-IsControlled :
      (f : Flow C W) (r : Reply W) → IsControlled f → OnOutcome IsControlled (take_reply s f r)
  unfolding take_reply
  take_reply-IsControlled f (silent now) p = no_reply-IsControlled f now p
  take_reply-IsControlled f (heard h now) p = got_reply-IsControlled h now f p

  end_round-IsControlled :
      (r : Round W) (f : Option (Flow C W))
      → OnSome IsControlled f
      → OnOutcome IsControlled (end_round s r f)
  unfolding end_round
  end_round-IsControlled r none p = tt
  end_round-IsControlled r (some f) p =
      take_reply-IsControlled _ r.reply (give_up-IsControlled r.short_stamp f p)

  started_again-IsControlled :
      (f : Flow C W) (c : Option C) → OnSome P c → OnOutcome IsControlled (started_again f c)
  unfolding started_again
  started_again-IsControlled f none p = tt
  started_again-IsControlled f (some c) p = p

  start_round-IsControlled :
      (f : Flow C W) (now : W) → IsControlled f → OnOutcome IsControlled (start_round s f now)
  unfolding start_round
  start_round-IsControlled f now p =
      let g : Flow C W = record f { cur_time = now } in
      if_elim (OnOutcome IsControlled) (lit 2000 1 <? now ⊖ f.last_ack_time)
        (if_elim (OnOutcome IsControlled) (s.flow_size ≤? progress s g) p (
          started_again-IsControlled g (k.init (k.set_timestamp g.congctrl now))
            (keeps.start (k.set_timestamp g.congctrl now) (keeps.ready g.congctrl now p))))
        p

  continue_round-IsControlled :
      (fuel : ℕ) (r : Round W) (o : Outcome (Flow C W))
      → OnOutcome IsControlled o
      → OnOutcome IsControlled (continue_round fuel s r o)
  unfolding continue_round
  continue_round-IsControlled fuel r aborts p = tt
  continue_round-IsControlled fuel r (leaves f) p = p
  continue_round-IsControlled fuel r (goes_on f) p =
      end_round-IsControlled r (send_loop fuel s r.stamp f)
        (send_loop-IsControlled fuel r.stamp f p)

  rounds-IsControlled :
      (fuel : ℕ) (rs : List (Round W)) (o : Outcome (Flow C W))
      → OnOutcome IsControlled o
      → OnOutcome IsControlled (rounds fuel s rs o)
  unfolding rounds round
  rounds-IsControlled fuel [] o p = p
  rounds-IsControlled fuel (r ∷ rs) aborts p = tt
  rounds-IsControlled fuel (r ∷ rs) (leaves f) p = p
  rounds-IsControlled fuel (r ∷ rs) (goes_on f) p = rounds-IsControlled fuel rs _ (
      if_elim (OnOutcome IsControlled) (progress s f <? s.flow_size)
        (continue_round-IsControlled fuel r (start_round s f r.now)
          (start_round-IsControlled f r.now p))
        p)

  begin-IsControlled :
      (first now : W) (f : Flow C W) (c : Option C)
      → OnSome P c
      → OnSome IsControlled (begin first now f c)
  unfolding begin
  begin-IsControlled first now f none p = tt
  begin-IsControlled first now f (some c) p = p

  -- An invariant that a controller's `init` sets up and its other operations keep holds, behind the
  -- start of a flow and any number of rounds, for the controller of the sender.
  pub begin_flow-IsControlled :
      (fuel : ℕ) (first now : W) (rs : List (Round W)) (f : Flow C W)
      → S (k.set_timestamp f.congctrl now)
      → OnSome (λ g. OnOutcome IsControlled (rounds fuel s rs (goes_on g))) (begin_flow first now f)
  begin_flow-IsControlled fuel first now rs f ready =
      OnSome-map IsControlled (λ g. OnOutcome IsControlled (rounds fuel s rs (goes_on g)))
        (λ g p. rounds-IsControlled fuel rs (goes_on g) p) (begin_flow first now f)
        (begin-IsControlled first now f (k.init (k.set_timestamp f.congctrl now))
          (keeps.start (k.set_timestamp f.congctrl now) ready))
