-- ===== src/Ctcp/Account.antt =====
-- The books of a flow from its start on, and its counts against the replies.
use copa_new.Prelude.{ℕ, ◌+◌, ◌*◌, ◌≡◌, refl, List, ◌++◌, Option, none, some, arith}
use native.Mathlib.Nat.{zero-mod}
use copa_new.Prelude.Word.{as_int}
use copa_new.Double.{Double}
use copa_new.Copa.Frame.{OnSome, OnSome-map}
use copa_new.Ctcp.{Controller, Setup, Flow, Round, Outcome, goes_on, leaves, aborts, data_size}
use copa_new.Ctcp.Receive.{rounds, begin, begin_flow}
use copa_new.Ctcp.Replies.{own_replies, OnRounds, rounds-OnRounds}
use copa_new.Ctcp.Books.{IsWhole, OnOutcome, rounds-OnOutcome}

module _ {C W : Type 0} where
  -- The counts of a flow behind some rounds: its own packets are their replies, and all the packets
  -- are as many more than before.
  abbrev HasReplies : Setup W → List (Round W) → ℕ → Flow C W → Type 0
  HasReplies s rs total g =
      (g.num_packets_transmitted ≡ own_replies s rs)
      × (g.tot_packets_transmitted ≡ total + own_replies s rs)

  -- The books behind these rounds, or, if the loop was left, behind the first ones of them.
  abbrev pub IsAccounted : Setup W → List (Round W) → ℕ → Outcome (Flow C W) → Type 0
  IsAccounted s rs total (goes_on g) = IsWhole s g × HasReplies s rs total g
  IsAccounted s rs total (leaves g) =
      IsWhole s g
      × (ps : List (Round W)) × (qs : List (Round W)) × (rs ≡ ps ++ qs)
      × HasReplies s ps total g
  IsAccounted s rs total aborts = Unit

  -- A flow before its first round.
  IsBegun : Setup W → ℕ → Flow C W → Type 0
  IsBegun s total g =
      IsWhole s g × (g.num_packets_transmitted ≡ 0) × (g.tot_packets_transmitted ≡ total)

  begun-IsAccounted :
      (s : Setup W) (rs : List (Round W)) (total : ℕ) (f : Flow C W) (o : Outcome (Flow C W))
      → f.num_packets_transmitted ≡ 0
      → f.tot_packets_transmitted ≡ total
      → OnOutcome (IsWhole s) o
      → OnRounds s rs f o
      → IsAccounted s rs total o
  begun-IsAccounted s rs total f (goes_on g) e t w (n, m) = (w, (omega arith, omega arith))
  begun-IsAccounted s rs total f (leaves g) e t w (ps, qs, eq, (n, m)) =
      (w, ps, qs, eq, (omega arith, omega arith))
  begun-IsAccounted s rs total f aborts e t w r = tt

module _ {C W : Type 0} ⦃d : Double W⦄ ⦃k : Controller C W⦄ where
  begin-IsBegun :
      (s : Setup W) (first now : W) (f : Flow C W) (c : Option C)
      → f.tot_bytes_transmitted ≡ as_int (f.tot_packets_transmitted * data_size)
      → OnSome (IsBegun s f.tot_packets_transmitted) (begin first now f c)
  unfolding begin IsBegun
  begin-IsBegun s first now f none h = tt
  begin-IsBegun s first now f (some c) h =
      ((record { wired = refl; bytes = refl; total = h }, zero-mod s.train_length), refl, refl)

  -- A flow that was begun, behind any number of rounds. The data packets on the wire are numbered from
  -- 0 to the next number, each once and in order, and the next number is at the end of a train. If
  -- the loop goes on, the packets counted for this flow are the replies of these rounds that have
  -- the sender's number and the flow's, no others, and the packets counted for all flows are as many
  -- more than before; if the loop was left, so it is for a first part of the rounds. The bytes of
  -- the flow are those of its counted packets, as signed 32-bit numbers; so are the bytes of all
  -- flows, if they were before.
  pub begin_flow-rounds :
      (fuel : ℕ) (s : Setup W) (first now : W) (rs : List (Round W)) (f : Flow C W)
      → f.tot_bytes_transmitted ≡ as_int (f.tot_packets_transmitted * data_size)
      → OnSome
          (λ g. IsAccounted s rs f.tot_packets_transmitted (rounds fuel s rs (goes_on g)))
          (begin_flow first now f)
  unfolding IsBegun
  begin_flow-rounds fuel s first now rs f h =
      OnSome-map (IsBegun s f.tot_packets_transmitted)
        (λ g. IsAccounted s rs f.tot_packets_transmitted (rounds fuel s rs (goes_on g)))
        (λ g (w, n, t).
          begun-IsAccounted s rs f.tot_packets_transmitted g (rounds fuel s rs (goes_on g)) n t
            (rounds-OnOutcome s fuel rs (goes_on g) w) (rounds-OnRounds s fuel rs g))
        (begin_flow first now f)
        (begin-IsBegun s first now f (k.init (k.set_timestamp f.congctrl now)) h)
