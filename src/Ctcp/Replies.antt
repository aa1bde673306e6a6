-- ===== src/Ctcp/Replies.antt =====
-- The count of the packets that were acknowledged, against the replies of the rounds.
use copa_new.Prelude.{
  ℕ, zero, suc, ◌+◌, ◌≡◌, refl, ap, List, [], ◌∷◌, ◌++◌, ◌&&◌, ◌||◌, not, Option, none, some,
  if◌then◌else◌, Bool-cases, inl, inr, ◌==◌, ◌%◌, arith,
}
use copa_new.Prelude.Int.{ℤ, pos, ◌+ℤ◌, ◌-ℤ◌, abs, eqb_ℤ}
use copa_new.Double.{Double, ◌⊕◌, ◌⊖◌, ◌<?◌, ◌≤?◌, ◌≡?◌, lit}
use copa_new.Copa.Frame.{if_elim, OnSome}
use copa_new.Ctcp.{
  Controller, Setup, Flow, Header, Reply, silent, heard, Round, Outcome, goes_on, leaves, aborts,
  progress,
}
use copa_new.Ctcp.Send.{
  is_admitted, in_train, send_packet, send_loop, start_round, started_again, is_hopeless, give_up,
}
use copa_new.Ctcp.Receive.{
  no_reply, estimate_rate, tally, with_ack, pass_ack, got_reply, take_reply, end_round,
  continue_round, round, rounds,
}

module _ {W : Type 0} where
  -- One for a reply with the sender's number and the flow's, and how many of these some rounds have.
  abbrev pub own_reply : Setup W → Reply W → ℕ
  own_reply s (silent now) = 0
  own_reply s (heard h now) = if eqb_ℤ h.src_id s.src_id && eqb_ℤ h.flow_id s.flow_id then 1 else 0

  abbrev pub own_replies : Setup W → List (Round W) → ℕ
  own_replies s [] = 0
  own_replies s (r ∷ rs) = own_reply s r.reply + own_replies s rs

module _ {C W : Type 0} where
  -- The packets counted in the flow, and in all flows, are `n` more than before.
  abbrev pub Adds : ℕ → Flow C W → Flow C W → Type 0
  Adds n f g =
      (g.num_packets_transmitted ≡ f.num_packets_transmitted + n)
      × (g.tot_packets_transmitted ≡ f.tot_packets_transmitted + n)

  -- A step that adds `n` if the loop goes on, and none if it is left.
  abbrev OnStep : ℕ → Flow C W → Outcome (Flow C W) → Type 0
  OnStep n f (goes_on g) = Adds n f g
  OnStep n f (leaves g) = Adds 0 f g
  OnStep n f aborts = Unit

  -- Some rounds: all the replies of them are counted, or, if the loop is left, those of the first.
  abbrev pub OnRounds : Setup W → List (Round W) → Flow C W → Outcome (Flow C W) → Type 0
  OnRounds s rs f (goes_on g) = Adds (own_replies s rs) f g
  OnRounds s rs f (leaves g) =
      (ps : List (Round W)) × (qs : List (Round W)) × (rs ≡ ps ++ qs) × Adds (own_replies s ps) f g
  OnRounds s rs f aborts = Unit

  Adds-trans : (a b : ℕ) (f g h : Flow C W) → Adds a f g → Adds b g h → Adds (a + b) f h
  Adds-trans a b f g h (x, y) (x', y') = (omega arith, omega arith)

  Adds-behind : (n : ℕ) (f g h : Flow C W) → Adds 0 f g → Adds n g h → Adds n f h
  Adds-behind n f g h (x, y) (x', y') = (omega arith, omega arith)

  OnStep-trans :
      (n : ℕ) (f g : Flow C W) (o : Outcome (Flow C W)) → Adds 0 f g → OnStep n g o → OnStep n f o
  OnStep-trans n f g (goes_on x) h k = Adds-behind n f g x h k
  OnStep-trans n f g (leaves x) h k = Adds-behind 0 f g x h k
  OnStep-trans n f g aborts h k = tt

module _ {C W : Type 0} ⦃d : Double W⦄ ⦃k : Controller C W⦄ (s : Setup W) where
  same : (f : Flow C W) → Adds 0 f f
  same f = (omega arith, omega arith)

  send_loop-Adds :
      (fuel : ℕ) (stamp : ℕ → ℕ) (f : Flow C W) → OnSome (Adds 0 f) (send_loop fuel s stamp f)
  unfolding send_loop send_packet
  send_loop-Adds zero stamp f =
      if_elim (OnSome (Adds 0 f)) (is_admitted s f || in_train s f) tt (same f)
  send_loop-Adds (suc n) stamp f =
      if_elim (OnSome (Adds 0 f)) (is_admitted s f || in_train s f)
        (send_loop-Adds n stamp (send_packet s stamp f)) (same f)

  give_up-Adds : (stamp : ℕ) (f : Flow C W) → Adds 0 f (give_up s stamp f)
  unfolding give_up
  give_up-Adds stamp f = if_elim (Adds 0 f) (is_hopeless s f) (same f) (same f)

  no_reply-Adds : (f : Flow C W) (now : W) → Adds 0 f (no_reply f now)
  unfolding no_reply
  no_reply-Adds f now =
      if_elim (Adds 0 f) (f.last_send_time ⊕ k.timeout f.congctrl <? now) (same f) (same f)

  estimate_rate-Adds : (seq : ℤ) (f : Flow C W) → Adds 0 f (estimate_rate s seq f)
  unfolding estimate_rate
  estimate_rate-Adds seq f =
      if_elim (Adds 0 f)
        (not (abs (seq -ℤ pos 1) % s.train_length == 0) && not (f.last_recv_time ≡? lit 0 1))
        (same f) (same f)

  tally-Adds : (t : W) (f : Flow C W) → Adds 1 f (tally t f)
  unfolding tally
  tally-Adds t f = (refl, refl)

  with_ack-OnStep :
      (n : ℕ) (seq : ℤ) (f g : Flow C W) (c : Option C) → Adds n f g → OnStep n f (with_ack seq g c)
  unfolding with_ack
  with_ack-OnStep n seq f g none h = tt
  with_ack-OnStep n seq f g (some c) h = h

  -- A reply is counted if both numbers are those of the flow, and only then.
  got_reply-OnStep :
      (h : Header W) (now : W) (f : Flow C W)
      → OnStep (own_reply s (heard h now)) f (got_reply s h now f)
  unfolding got_reply pass_ack
  got_reply-OnStep h now f =
      let seq : ℤ = h.seq_num +ℤ pos 1 in
      let at_now : Flow C W = record f { cur_time = now; last_ack_time = now } in
      let rated : Flow C W = estimate_rate s seq at_now in
      let counted : Adds 1 f (tally h.sender_timestamp rated) =
        Adds-behind 1 f rated (tally h.sender_timestamp rated) (estimate_rate-Adds seq at_now)
          (tally-Adds h.sender_timestamp rated) in
      elim (Bool-cases (eqb_ℤ h.src_id s.src_id)) [
        | inl a ↦ elim (Bool-cases (eqb_ℤ h.flow_id s.flow_id)) [
          | inl b ↦ rw (a, b) (with_ack-OnStep 1 seq f _ _ counted)
          | inr b ↦ rw (a, b) (same f)
        ]
        | inr a ↦ rw a (same f)
      ]

  take_reply-OnStep : (f : Flow C W) (r : Reply W) → OnStep (own_reply s r) f (take_reply s f r)
  unfolding take_reply
  take_reply-OnStep f (silent now) = no_reply-Adds f now
  take_reply-OnStep f (heard h now) = got_reply-OnStep h now f

  end_round-OnStep :
      (r : Round W) (f : Flow C W) (x : Option (Flow C W))
      → OnSome (Adds 0 f) x
      → OnStep (own_reply s r.reply) f (end_round s r x)
  unfolding end_round
  end_round-OnStep r f none h = tt
  end_round-OnStep r f (some g) h =
      let g' : Flow C W = record (give_up s r.short_stamp g) { cur_time = r.before_wait } in
      OnStep-trans (own_reply s r.reply) f g' (take_reply s g' r.reply)
        (Adds-behind 0 f g g' h (give_up-Adds r.short_stamp g)) (take_reply-OnStep g' r.reply)

  started_again-OnStep : (f : Flow C W) (c : Option C) → OnStep 0 f (started_again f c)
  unfolding started_again
  started_again-OnStep f none = tt
  started_again-OnStep f (some c) = same f

  start_round-OnStep : (f : Flow C W) (now : W) → OnStep 0 f (start_round s f now)
  unfolding start_round
  start_round-OnStep f now =
      let g : Flow C W = record f { cur_time = now } in
      if_elim (OnStep 0 f) (lit 2000 1 <? now ⊖ f.last_ack_time)
        (if_elim (OnStep 0 f) (s.flow_size ≤? progress s g) (same f)
          (started_again-OnStep g (k.init (k.set_timestamp g.congctrl now))))
        (same f)

  continue_round-OnStep :
      (fuel : ℕ) (r : Round W) (f : Flow C W) (o : Outcome (Flow C W))
      → OnStep 0 f o
      → OnStep (own_reply s r.reply) f (continue_round fuel s r o)
  unfolding continue_round
  continue_round-OnStep fuel r f aborts h = tt
  continue_round-OnStep fuel r f (leaves g) h = h
  continue_round-OnStep fuel r f (goes_on g) h =
      let sent : Option (Flow C W) = send_loop fuel s r.stamp g in
      OnStep-trans (own_reply s r.reply) f g (end_round s r sent) h
        (end_round-OnStep r g sent (send_loop-Adds fuel r.stamp g))

  OnRounds-cons :
      (r : Round W) (rs : List (Round W)) (f g : Flow C W) (o : Outcome (Flow C W))
      → Adds (own_reply s r.reply) f g
      → OnRounds s rs g o
      → OnRounds s (r ∷ rs) f o
  OnRounds-cons r rs f g (goes_on x) h k =
      Adds-trans (own_reply s r.reply) (own_replies s rs) f g x h k
  OnRounds-cons r rs f g (leaves x) h (ps, qs, e, k) = (
    r ∷ ps,
    qs,
    ap (λ xs. r ∷ xs) e,
    Adds-trans (own_reply s r.reply) (own_replies s ps) f g x h k,
  )
  OnRounds-cons r rs f g aborts h k = tt

  rounds_left :
      (fuel : ℕ) (rs ts : List (Round W)) (f g : Flow C W)
      → Adds 0 f g
      → OnRounds s ts f (rounds fuel s rs (leaves g))
  unfolding rounds
  rounds_left fuel [] ts f g h = ([], ts, refl, h)
  rounds_left fuel (r ∷ rs) ts f g h = ([], ts, refl, h)

  rounds_aborted :
      (fuel : ℕ) (rs ts : List (Round W)) (f : Flow C W) → OnRounds s ts f (rounds fuel s rs aborts)
  unfolding rounds
  rounds_aborted fuel [] ts f = tt
  rounds_aborted fuel (r ∷ rs) ts f = tt

  rest-OnRounds :
      (fuel : ℕ) (r : Round W) (rs : List (Round W)) (f : Flow C W) (o : Outcome (Flow C W))
      → ((g : Flow C W) → OnRounds s rs g (rounds fuel s rs (goes_on g)))
      → OnStep (own_reply s r.reply) f o
      → OnRounds s (r ∷ rs) f (rounds fuel s rs o)
  rest-OnRounds fuel r rs f (goes_on g) rest h =
      OnRounds-cons r rs f g (rounds fuel s rs (goes_on g)) h (rest g)
  rest-OnRounds fuel r rs f (leaves g) rest h = rounds_left fuel rs (r ∷ rs) f g h
  rest-OnRounds fuel r rs f aborts rest h = rounds_aborted fuel rs (r ∷ rs) f

  pub rounds-OnRounds :
      (fuel : ℕ) (rs : List (Round W)) (f : Flow C W)
      → OnRounds s rs f (rounds fuel s rs (goes_on f))
  unfolding rounds round
  rounds-OnRounds fuel [] f = same f
  rounds-OnRounds fuel (r ∷ rs) f = rest-OnRounds fuel r rs f _ (rounds-OnRounds fuel rs) (
      if_elim (OnStep (own_reply s r.reply) f) (progress s f <? s.flow_size)
        (continue_round-OnStep fuel r f (start_round s f r.now) (start_round-OnStep f r.now))
        (same f))
