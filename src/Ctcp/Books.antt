-- ===== src/Ctcp/Books.antt =====
-- What the rounds of a sender keep: the numbers of the packets that were sent, whole trains, and the
-- packets and bytes that were acknowledged.
use copa_new.Prelude.{
  ℕ, zero, suc, ◌+◌, ◌*◌, ◌%◌, ◌≡◌, ap, ◌∙◌, List, [], ◌∷◌, ◌&&◌, ◌||◌, not, Option, none, some,
  ◌==◌, Bool-cases, inl, inr, arith,
}
use copa_new.Prelude.Int.{ℤ, pos, negsuc, ◌+ℤ◌, ◌-ℤ◌, abs, eqb_ℤ}
use copa_new.Prelude.Word.{as_int}
use copa_new.Double.{Double, ◌⊕◌, ◌⊖◌, ◌<?◌, ◌≤?◌, ◌≡?◌, lit}
use copa_new.Copa.Frame.{if_elim, OnSome}
use copa_new.Ctcp.{
  Controller, Setup, Flow, Header, Reply, silent, heard, Round, Outcome, goes_on, leaves, aborts,
  progress, data_size,
}
use copa_new.Ctcp.Send.{
  is_admitted, in_train, send_packet, send_loop, start_round, started_again, is_hopeless, give_up,
}
use copa_new.Ctcp.Receive.{
  add_data, no_reply, estimate_rate, tally, with_ack, pass_ack, got_reply, take_reply, end_round,
  continue_round, round, rounds,
}
use copa_new.Ctcp.Train.{or_not}

-- The numbers of the data packets of a list, and the numbers below `n`, the largest first.
abbrev number_of : ℤ → List ℕ → List ℕ
number_of (pos n) ns = n ∷ ns
number_of (negsuc n) ns = ns

abbrev pub data_numbers : {W : Type 0} → List (Header W) → List ℕ
data_numbers [] = []
data_numbers (h ∷ hs) = number_of h.seq_num (data_numbers hs)

abbrev pub down_from : ℕ → List ℕ
down_from zero = []
down_from (suc n) = n ∷ down_from n

down_from-suc : (n : ℕ) → n ∷ down_from n ≡ down_from (n + 1)
down_from-suc n = let e : suc n ≡ n + 1 = omega arith in ap down_from e

add_data-as_int : (n : ℕ) → add_data (as_int (n * data_size)) ≡ as_int ((n + 1) * data_size)
unfolding add_data
add_data-as_int n = ground arith

module _ {C W : Type 0} where
  -- The data packets on the wire are numbered from 0 without a gap, each once and in order, and the
  -- bytes are those of the replies.
  pub record IsBooked (f : Flow C W) : Type 0 where
    pub wired : data_numbers f.wire ≡ down_from f.seq_num
    pub bytes : f.transmitted_bytes ≡ as_int (f.num_packets_transmitted * data_size)
    pub total : f.tot_bytes_transmitted ≡ as_int (f.tot_packets_transmitted * data_size)

  -- The books of a state behind a whole train.
  abbrev pub IsWhole : Setup W → Flow C W → Type 0
  IsWhole s f = IsBooked f × (f.seq_num % s.train_length ≡ 0)

  abbrev pub OnOutcome : (Flow C W → Type 0) → Outcome (Flow C W) → Type 0
  OnOutcome P (goes_on f) = P f
  OnOutcome P (leaves f) = P f
  OnOutcome P aborts = Unit

module _ {C W : Type 0} ⦃d : Double W⦄ ⦃k : Controller C W⦄ where
  send_packet-IsBooked :
      (s : Setup W) (stamp : ℕ → ℕ) (f : Flow C W) → IsBooked f → IsBooked (send_packet s stamp f)
  unfolding send_packet
  send_packet-IsBooked s stamp f h = record {
    wired = ap (λ ns. f.seq_num ∷ ns) h.wired ∙ down_from-suc f.seq_num;
    bytes = h.bytes;
    total = h.total;
  }

  send_loop-IsWhole :
      (fuel : ℕ) (s : Setup W) (stamp : ℕ → ℕ) (f : Flow C W)
      → IsBooked f
      → OnSome (IsWhole s) (send_loop fuel s stamp f)
  unfolding send_loop
  send_loop-IsWhole zero s stamp f h = elim (Bool-cases (is_admitted s f || in_train s f)) [
    | inl e ↦ rw e tt
    | inr e ↦ rw e (h, ground (arith, or_not (is_admitted s f) (f.seq_num % s.train_length == 0) e))
  ]
  send_loop-IsWhole (suc n) s stamp f h = elim (Bool-cases (is_admitted s f || in_train s f)) [
    | inl e ↦
        rw e
          (send_loop-IsWhole n s stamp (send_packet s stamp f) (send_packet-IsBooked s stamp f h))
    | inr e ↦ rw e (h, ground (arith, or_not (is_admitted s f) (f.seq_num % s.train_length == 0) e))
  ]

  module _ (s : Setup W) where
    give_up-IsWhole : (stamp : ℕ) (f : Flow C W) → IsWhole s f → IsWhole s (give_up s stamp f)
    unfolding give_up
    give_up-IsWhole stamp f (h, z) =
        if_elim (IsWhole s) (is_hopeless s f)
          (record { wired = h.wired; bytes = h.bytes; total = h.total }, z) (h, z)

    at_time : (now : W) (f : Flow C W) → IsWhole s f → IsWhole s (record f { cur_time = now })
    at_time now f (h, z) = (record { wired = h.wired; bytes = h.bytes; total = h.total }, z)

    no_reply-IsWhole : (f : Flow C W) (now : W) → IsWhole s f → IsWhole s (no_reply f now)
    unfolding no_reply
    no_reply-IsWhole f now (h, z) =
        if_elim (IsWhole s) (f.last_send_time ⊕ k.timeout f.congctrl <? now)
          (record { wired = h.wired; bytes = h.bytes; total = h.total }, z) (at_time now f (h, z))

    estimate_rate-IsWhole :
        (seq : ℤ) (f : Flow C W) → IsWhole s f → IsWhole s (estimate_rate s seq f)
    unfolding estimate_rate
    estimate_rate-IsWhole seq f (h, z) =
        if_elim (IsWhole s)
          (not (abs (seq -ℤ pos 1) % s.train_length == 0) && not (f.last_recv_time ≡? lit 0 1))
          (record { wired = h.wired; bytes = h.bytes; total = h.total }, z)
          (record { wired = h.wired; bytes = h.bytes; total = h.total }, z)

    tally-IsWhole : (t : W) (f : Flow C W) → IsWhole s f → IsWhole s (tally t f)
    unfolding tally
    tally-IsWhole t f (h, z) = (
      record {
        wired = h.wired;
        bytes = ap add_data h.bytes ∙ add_data-as_int f.num_packets_transmitted;
        total = ap add_data h.total ∙ add_data-as_int f.tot_packets_transmitted;
      },
      z,
    )

    with_ack-IsWhole :
        (seq : ℤ) (f : Flow C W) (c : Option C)
        → IsWhole s f
        → OnOutcome (IsWhole s) (with_ack seq f c)
    unfolding with_ack
    with_ack-IsWhole seq f none h = tt
    with_ack-IsWhole seq f (some c) (h, z) =
        (record { wired = h.wired; bytes = h.bytes; total = h.total }, z)

    got_reply-IsWhole :
        (h : Header W) (now : W) (f : Flow C W)
        → IsWhole s f
        → OnOutcome (IsWhole s) (got_reply s h now f)
    unfolding got_reply pass_ack
    got_reply-IsWhole h now f b =
        if_elim (OnOutcome (IsWhole s))
          (not (eqb_ℤ h.src_id s.src_id) || not (eqb_ℤ h.flow_id s.flow_id)) b
          (with_ack-IsWhole (h.seq_num +ℤ pos 1) _ _ (
            tally-IsWhole h.sender_timestamp _ (
              estimate_rate-IsWhole (h.seq_num +ℤ pos 1) _
                (record { wired = b.0.wired; bytes = b.0.bytes; total = b.0.total }, b.1))))

    take_reply-IsWhole :
        (f : Flow C W) (r : Reply W) → IsWhole s f → OnOutcome (IsWhole s) (take_reply s f r)
    unfolding take_reply
    take_reply-IsWhole f (silent now) h = no_reply-IsWhole f now h
    take_reply-IsWhole f (heard x now) h = got_reply-IsWhole x now f h

    end_round-IsWhole :
        (r : Round W) (f : Option (Flow C W))
        → OnSome (IsWhole s) f
        → OnOutcome (IsWhole s) (end_round s r f)
    unfolding end_round
    end_round-IsWhole r none h = tt
    end_round-IsWhole r (some f) h =
        take_reply-IsWhole _ r.reply
          (at_time r.before_wait (give_up s r.short_stamp f) (give_up-IsWhole r.short_stamp f h))

    continue_round-IsWhole :
        (fuel : ℕ) (r : Round W) (o : Outcome (Flow C W))
        → OnOutcome (IsWhole s) o
        → OnOutcome (IsWhole s) (continue_round fuel s r o)
    unfolding continue_round
    continue_round-IsWhole fuel r aborts h = tt
    continue_round-IsWhole fuel r (leaves f) h = h
    continue_round-IsWhole fuel r (goes_on f) h =
        end_round-IsWhole r (send_loop fuel s r.stamp f) (send_loop-IsWhole fuel s r.stamp f h.0)

    started_again-IsWhole :
        (f : Flow C W) (c : Option C) → IsWhole s f → OnOutcome (IsWhole s) (started_again f c)
    unfolding started_again
    started_again-IsWhole f none h = tt
    started_again-IsWhole f (some c) (h, z) =
        (record { wired = h.wired; bytes = h.bytes; total = h.total }, z)

    start_round-IsWhole :
        (f : Flow C W) (now : W) → IsWhole s f → OnOutcome (IsWhole s) (start_round s f now)
    unfolding start_round
    start_round-IsWhole f now h =
        let g : Flow C W = record f { cur_time = now } in
        if_elim (OnOutcome (IsWhole s)) (lit 2000 1 <? now ⊖ f.last_ack_time)
          (if_elim (OnOutcome (IsWhole s)) (s.flow_size ≤? progress s g) (at_time now f h)
            (started_again-IsWhole g (k.init (k.set_timestamp g.congctrl now)) (at_time now f h)))
          (at_time now f h)

    pub rounds-OnOutcome :
        (fuel : ℕ) (rs : List (Round W)) (o : Outcome (Flow C W))
        → OnOutcome (IsWhole s) o
        → OnOutcome (IsWhole s) (rounds fuel s rs o)
    unfolding rounds round
    rounds-OnOutcome fuel [] o h = h
    rounds-OnOutcome fuel (r ∷ rs) aborts h = tt
    rounds-OnOutcome fuel (r ∷ rs) (leaves f) h = h
    rounds-OnOutcome fuel (r ∷ rs) (goes_on f) h = rounds-OnOutcome fuel rs _ (
        if_elim (OnOutcome (IsWhole s)) (progress s f <? s.flow_size)
          (continue_round-IsWhole fuel r (start_round s f r.now) (start_round-IsWhole f r.now h)) h)
