-- ===== src/Ctcp/OnRemy.antt =====
-- The sender with a controller that follows rules: what stays of its tree and its window.
use copa_new.Prelude.{
  ℕ, ◌+◌, ◌%◌, ◌^◌, ◌≡◌, refl, ◌⊎◌, inl, inr, true, Bool-cases, List, [], ◌∷◌, Option, none, some,
  ◌==◌, length, arith,
}
use copa_new.Prelude.Int.{ℤ, pos, ◌-ℤ◌}
use copa_new.Double.{Double, ◌<?◌, ◌⊗◌, ◌⊘◌, lit}
use copa_new.Copa.Frame.{if_elim, OnSome, OnSome-map, OnSome-both}
use copa_new.Remy.{Memory, Packet}
use copa_new.Remy.Whisker.{Whisker}
use copa_new.Remy.Tree.{WhiskerTree, use_whisker}
use copa_new.Remy.Tree.Search.{IsCovering}
use copa_new.Remy.Tree.Covering.{IsUsed, use_whisker-IsUsed}
use copa_new.Remy.Rat.{Rat, follow, with_memory, packets_received, reset_rat, last_flow, no_flow}
use copa_new.Remy.Rat.Sending.{IsWindowed, follow-IsWindowed}
use copa_new.Remy.Controller.{
  RemyCc, init_with, init_remy, scaled, unscaled, reply_packet, answered, reply, on_ack,
  on_pkt_sent, erase,
}
use copa_new.Ctcp.{Setup, Flow, Round, goes_on}
use copa_new.Ctcp.Receive.{rounds, begin_flow}
use copa_new.Ctcp.Books.{OnOutcome}
use copa_new.Ctcp.Controlled.{Keeps, begin_flow-IsControlled}
use copa_new.Ctcp.OnCopa.{remy_controller}

module _ {W : Type 0} ⦃d : Double W⦄ where
  -- The tree is one whose children cover their parents, and its rules give a window of at most 1000000.
  abbrev pub IsRuled : Rat W → Type 0
  IsRuled r = IsCovering r.whiskers × IsWindowed r

  -- The controller's window is 2, as at the start, or the one that its rules give, as it is or scaled
  -- by a positive rate over the one the rules were learnt for.
  abbrev HasWindow : W → RemyCc W → Type 0
  HasWindow training c =
      (c.the_window ≡ lit 2 1)
      ⊎ (c.the_window ≡ d.of_int (pos c.rat.the_window))
      ⊎ ((rate : W) × ((lit 0 1 <? rate) ≡ true)
          × (c.the_window ≡ d.of_int (pos c.rat.the_window) ⊗ rate ⊘ training))

  abbrev pub IsGuided : W → RemyCc W → Type 0
  IsGuided training c = IsRuled c.rat × HasWindow training c

  follow-IsCovering :
      (r : Rat W) (x : Option (Whisker W × WhiskerTree W))
      → OnSome (λ x. IsCovering x.1) x
      → OnSome (λ r'. IsCovering r'.whiskers) (follow r x)
  unfolding follow
  follow-IsCovering r none h = tt
  follow-IsCovering r (some (w, t)) h = h

  with_memory-IsRuled :
      (r : Rat W) (m : Option (Memory W)) → IsRuled r → OnSome IsRuled (with_memory r m)
  unfolding with_memory
  with_memory-IsRuled r none h = tt
  with_memory-IsRuled r (some m) h =
      let found = use_whisker r.whiskers m r.track in
      OnSome-both (λ r'. IsCovering r'.whiskers) IsWindowed (follow (record r { memory = m }) found)
        (follow-IsCovering (record r { memory = m }) found
          (OnSome-map (λ x. IsUsed r.whiskers x.1) (λ x. IsCovering x.1) (λ x u. u.1 h.0) found
            (use_whisker-IsUsed r.whiskers m r.track)))
        (follow-IsWindowed (record r { memory = m }) found)

  packets_received-IsRuled :
      (r : Rat W) (packets : List (Packet W)) (factor : W)
      → IsRuled r
      → OnSome IsRuled (packets_received r packets factor)
  unfolding packets_received
  packets_received-IsRuled r packets factor h = if_elim (OnSome IsRuled) (length packets == 0) tt (
      if_elim (OnSome IsRuled) (last_flow no_flow packets == no_flow) tt
        (with_memory-IsRuled _ _ h))

  scaled-IsGuided :
      (training : W) (c : RemyCc W) (r : Option (Rat W))
      → (lit 0 1 <? c.measured_link_rate) ≡ true
      → OnSome IsRuled r
      → OnSome (IsGuided training) (scaled training c r)
  unfolding scaled
  scaled-IsGuided training c none e h = tt
  scaled-IsGuided training c (some r) e h = (h, inr (inr (c.measured_link_rate, e, refl)))

  unscaled-IsGuided :
      (training : W) (c : RemyCc W) (r : Option (Rat W))
      → OnSome IsRuled r
      → OnSome (IsGuided training) (unscaled c r)
  unfolding unscaled
  unscaled-IsGuided training c none h = tt
  unscaled-IsGuided training c (some r) h = (h, inr (inl refl))

  answered-IsGuided :
      (training : W) (c : RemyCc W) (p : Packet W)
      → IsRuled c.rat
      → OnSome (IsGuided training) (answered training c p)
  unfolding answered
  answered-IsGuided training c p h = elim (Bool-cases (lit 0 1 <? c.measured_link_rate)) [
    | inl e ↦ rw e (
        scaled-IsGuided training c _ e
          (packets_received-IsRuled c.rat (p ∷ []) (lit 1 1 ⊗ training ⊘ c.measured_link_rate) h))
    | inr e ↦
        rw e (unscaled-IsGuided training c _ (packets_received-IsRuled c.rat (p ∷ []) (lit 1 1) h))
  ]

  reply-IsGuided :
      (training : W) (c : RemyCc W) (seq : ℤ) (stamp : W) (sent : Option W)
      → IsGuided training c
      → OnSome (IsGuided training) (reply training c seq stamp sent)
  unfolding reply
  reply-IsGuided training c seq stamp none h = h
  reply-IsGuided training c seq stamp (some t) h =
      answered-IsGuided training
        (record c { unacknowledged_packets = erase seq c.unacknowledged_packets })
        (reply_packet c seq t stamp) h.0

  on_ack-IsGuided :
      (training : W) (c : RemyCc W) (ack : ℤ) (stamp : W)
      → IsGuided training c
      → OnSome (IsGuided training) (on_ack training c ack stamp)
  unfolding on_ack
  on_ack-IsGuided training c ack stamp h = reply-IsGuided training c (ack -ℤ pos 1) stamp _ h

  reset_rat-IsRuled : (r : Rat W) → IsRuled r → OnSome IsRuled (reset_rat r)
  unfolding reset_rat
  reset_rat-IsRuled r h =
      if_elim (OnSome IsRuled) ((r.flow_id + 1) % 2 ^ 32 == 0) tt (h.0, omega arith)

  init_with-IsGuided :
      (training : W) (c : RemyCc W) (r : Option (Rat W))
      → OnSome IsRuled r
      → OnSome (IsGuided training) (init_with c r)
  unfolding init_with
  init_with-IsGuided training c none h = tt
  init_with-IsGuided training c (some r) h = (h, inl refl)

  init_remy-IsGuided :
      (training : W) (c : RemyCc W) → IsRuled c.rat → OnSome (IsGuided training) (init_remy c)
  unfolding init_remy
  init_remy-IsGuided training c h =
      init_with-IsGuided training c (reset_rat c.rat) (reset_rat-IsRuled c.rat h)

  on_pkt_sent-IsGuided :
      (training : W) (c : RemyCc W) (n : ℤ)
      → IsGuided training c
      → IsGuided training (on_pkt_sent c n)
  unfolding on_pkt_sent
  on_pkt_sent-IsGuided training c n h = h

  remy-Keeps :
      (training : W)
      → Keeps {C = RemyCc W} {W = W}
          (remy_controller training)
          (λ c. IsRuled c.rat)
          (IsGuided training)
  remy-Keeps training = record {
    ready = λ c t h. h.0;
    tick = λ c t h. h;
    start = λ c h. init_remy-IsGuided training c h;
    sent = λ c n h. on_pkt_sent-IsGuided training c (pos n) h;
    acked = λ c a r t j h. on_ack-IsGuided training c a r h;
    timed_out = λ c h. h;
    rated = λ c x h. h;
  }

  -- A flow of the sender with a controller that follows rules, whose tree has children that cover their
  -- parents, and whose rules give a window of at most 1000000. Behind the start of the flow and any
  -- number of rounds both hold again, and the controller's window is 2, as at the start, or the
  -- window that the rules give, as it is or multiplied by a positive rate and divided by the one
  -- the rules were learnt for.
  pub remy_flow-IsGuided :
      (training : W) (s : Setup W) (fuel : ℕ) (first now : W) (rs : List (Round W))
      (f : Flow (RemyCc W) W)
      → IsRuled f.congctrl.rat
      → OnSome
          (λ g.
            OnOutcome
              (λ x. IsGuided training x.congctrl)
              (rounds ⦃k = remy_controller training⦄ fuel s rs (goes_on g)))
          (begin_flow ⦃k = remy_controller training⦄ first now f)
  remy_flow-IsGuided training s fuel first now rs f h =
      begin_flow-IsControlled ⦃k = remy_controller training⦄ (λ c. IsRuled c.rat)
        (IsGuided training) (remy-Keeps training) s fuel first now rs f h
