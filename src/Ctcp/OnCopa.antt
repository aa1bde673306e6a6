-- ===== src/Ctcp/OnCopa.antt =====
-- The sender with the controllers of the program: Copa, and the one that follows rules.
use copa_new.Prelude.{ℕ, ◌+◌, ◌%◌, ◌≤◌, ◌≡◌, refl, ap, List, Bool, Option, none, some, arith}
use copa_new.Prelude.Int.{pos}
use copa_new.Double.{Double, IsOrdered}
use copa_new.Copa.{Copa, init, set_timestamp, set_min_rtt}
use copa_new.Copa.Ack.{on_ack, on_pkt_sent}
use copa_new.Copa.Frame.{OnSome}
use copa_new.Copa.Reach.{
  IsSound, ticked, Step-IsSound, init-IsSound, acked-IsSound, sent-IsSound, on_pkt_sent-standing,
}
use copa_new.Remy.Controller.{RemyCc, init_remy, on_link_rate}
use copa_new.DefaultCc.{DefaultCc, init_default, on_ack_default, on_timeout_default}
use copa_new.Ctcp.{Controller, Setup, Flow, Round, goes_on}
use copa_new.Ctcp.Train.{IsSteady, IsLimited, limit, Ends, send_loop-Ends}
use copa_new.Ctcp.Send.{send_loop}
use copa_new.Ctcp.Receive.{rounds, begin_flow}
use copa_new.Ctcp.Books.{OnOutcome}
use copa_new.Ctcp.Controlled.{Keeps, begin_flow-IsControlled}

module _ {W : Type 0} ⦃d : Double W⦄ where
  -- `MarkovianCC`; its `close` and `onTimeout` are empty, and it has no `onLinkRateMeasurement`.
  abbrev pub copa_controller : Bool → Controller (Copa W) W
  copa_controller late = record {
    window = λ c. c.the_window;
    intersend = λ c. c.intersend_time;
    timeout = λ c. c.timeout;
    set_timestamp = set_timestamp;
    set_min_rtt = set_min_rtt;
    init = λ c. some (init c);
    close = λ c. c;
    on_pkt_sent = on_pkt_sent late;
    on_ack = λ c ack receiver_timestamp sent_time adjust_us. on_ack c ack sent_time adjust_us;
    on_timeout = λ c. c;
    on_link_rate = λ c rate. c;
  }

  -- `RemyCC`; the rest is that of `CCC`. `training` is TRAINING_LINK_RATE.
  abbrev pub remy_controller : W → Controller (RemyCc W) W
  remy_controller training = record {
    window = λ c. c.the_window;
    intersend = λ c. c.intersend_time;
    timeout = λ c. c.timeout;
    set_timestamp = copa_new.Remy.Controller.set_timestamp;
    set_min_rtt = λ c rtt. c;
    init = init_remy;
    close = λ c. c;
    on_pkt_sent = copa_new.Remy.Controller.on_pkt_sent;
    on_ack = λ c ack receiver_timestamp sent_time adjust_us.
        copa_new.Remy.Controller.on_ack training c ack receiver_timestamp;
    on_timeout = λ c. c;
    on_link_rate = on_link_rate;
  }

  -- `DefaultCC`; the rest is that of `CCC`, whose `set_timestamp` does nothing.
  abbrev pub default_controller : Controller (DefaultCc W) W
  default_controller = record {
    window = λ c. c.the_window;
    intersend = λ c. c.intersend_time;
    timeout = λ c. c.timeout;
    set_timestamp = λ c t. c;
    set_min_rtt = λ c rtt. c;
    init = λ c. some (init_default c);
    close = λ c. c;
    on_pkt_sent = λ c seq_num. c;
    on_ack = λ c ack receiver_timestamp sent_time adjust_us. some (on_ack_default c ack);
    on_timeout = on_timeout_default;
    on_link_rate = λ c rate. c;
  }

  copa-IsSteady : (late : Bool) → IsSteady (copa_controller late)
  copa-IsSteady late c t n = ap (λ x. x.3) (on_pkt_sent-standing late (set_timestamp c t) n)

OnSome-by : {A : Type 0} (P : A → Type 0) (o : Option A) → ((a : A) → o ≡ some a → P a) → OnSome P o
OnSome-by P none f = tt
OnSome-by P (some a) f = f a refl

module _ {W : Type 0} ⦃d : Double W⦄ (o : IsOrdered W) where
  copa-Keeps : (late : Bool) → Keeps {C = Copa W} {W = W} (copa_controller late) (λ c. Unit) IsSound
  copa-Keeps late = record {
    tick = λ c t h. Step-IsSound o c _ (ticked c t) h;
    ready = λ c t h. tt;
    start = λ c u. init-IsSound o c;
    sent = λ c n h. sent-IsSound o late c (pos n) (omega arith) h;
    acked =
        λ c a r t j h. OnSome-by IsSound (on_ack c a t j) (λ c' e. acked-IsSound o c c' a t j e h);
    timed_out = λ c h. h;
    rated = λ c x h. h;
  }

  -- A flow of the sender with Copa, behind its start and any number of rounds: the window is a number
  -- that is at least 2, the packets that wait for an acknowledgement stand in the order of their
  -- numbers, none negative, and with those counted as lost they are no more than those sent.
  pub copa_flow-IsSound :
      (late : Bool) (s : Setup W) (fuel : ℕ) (first now : W) (rs : List (Round W))
      (f : Flow (Copa W) W)
      → OnSome
          (λ g.
            OnOutcome
              (λ x. IsSound x.congctrl)
              (rounds ⦃k = copa_controller late⦄ fuel s rs (goes_on g)))
          (begin_flow ⦃k = copa_controller late⦄ first now f)
  copa_flow-IsSound late s fuel first now rs f =
      begin_flow-IsControlled ⦃k = copa_controller late⦄ (λ c. Unit) IsSound (copa-Keeps late) s
        fuel first now rs f tt

  -- In a sender with Copa, where a train ends at `last`, not behind the next number, and the window
  -- admits no number from there on, the loop that sends ends with fuel for the numbers up to `last`,
  -- at the end of a train not behind `last`, with the window as it was.
  pub copa_send_loop-Ends :
      (late : Bool) (s : Setup W) (stamp : ℕ → ℕ) (last fuel : ℕ) (f : Flow (Copa W) W)
      → IsLimited last (limit ⦃k = copa_controller late⦄ f)
      → last % s.train_length ≡ 0
      → f.seq_num ≤ last
      → last ≤ f.seq_num + fuel
      → Ends ⦃k = copa_controller late⦄ s last f
          (send_loop ⦃k = copa_controller late⦄ fuel s stamp f)
  copa_send_loop-Ends late s stamp last fuel f lim whole le enough =
      send_loop-Ends ⦃k = copa_controller late⦄ s stamp last fuel f (copa-IsSteady late) lim whole
        le enough
