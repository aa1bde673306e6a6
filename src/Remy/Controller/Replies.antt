-- ===== src/Remy/Controller/Replies.antt =====
-- Acknowledgements that come again or for a packet that was not sent.
use copa_new.Prelude.{◌≡◌, refl, ◌∙◌, ap, List, [], ◌∷◌, Option, none, some, Bool-cases, inl, inr}
use copa_new.Prelude.Int.{ℤ, pos, ◌-ℤ◌, eqb_ℤ}
use copa_new.Double.{Double, ◌<?◌, lit}
use copa_new.Copa.Frame.{if_elim, OnSome, OnSome-of, OnSome-map}
use copa_new.Remy.{Packet}
use copa_new.Remy.Rat.{Rat}
use copa_new.Remy.Controller.{
  RemyCc, Sent, time_of, erase, set_timestamp, scaled, unscaled, answered, reply, reply_packet,
  on_ack,
}

module _ {W : Type 0} where
  time_of-erase : (seq : ℤ) (xs : List (Sent W)) → time_of seq (erase seq xs) ≡ none
  unfolding time_of erase
  time_of-erase seq [] = refl
  time_of-erase seq (x ∷ xs) = elim (Bool-cases (eqb_ℤ seq x.seq)) [
    | inl e ↦ rw e (time_of-erase seq xs)
    | inr e ↦ rw (e, e) (time_of-erase seq xs)
  ]

  -- The packets a controller waits for.
  abbrev IsListed : List (Sent W) → RemyCc W → Type 0
  IsListed xs c = c.unacknowledged_packets ≡ xs

  abbrev IsWithout : ℤ → RemyCc W → Type 0
  IsWithout seq c = time_of seq c.unacknowledged_packets ≡ none

module _ {W : Type 0} ⦃d : Double W⦄ where
  -- The controller keeps its list of packets when the rules give the window.
  scaled-list :
      (training : W) (c : RemyCc W) (r : Option (Rat W))
      → OnSome (IsListed c.unacknowledged_packets) (scaled training c r)
  unfolding scaled
  scaled-list training c none = tt
  scaled-list training c (some r) = refl

  unscaled-list :
      (c : RemyCc W) (r : Option (Rat W))
      → OnSome (IsListed c.unacknowledged_packets) (unscaled c r)
  unfolding unscaled
  unscaled-list c none = tt
  unscaled-list c (some r) = refl

  answered-list :
      (training : W) (c : RemyCc W) (p : Packet W)
      → OnSome (IsListed c.unacknowledged_packets) (answered training c p)
  unfolding answered
  answered-list training c p =
      if_elim (OnSome (IsListed c.unacknowledged_packets)) (lit 0 1 <? c.measured_link_rate)
        (scaled-list training c _) (unscaled-list c _)

  reply-forgets :
      (training : W) (c : RemyCc W) (seq : ℤ) (stamp : W) (sent : Option W)
      → time_of seq c.unacknowledged_packets ≡ sent
      → OnSome (IsWithout seq) (reply training c seq stamp sent)
  unfolding reply
  reply-forgets training c seq stamp none h = h
  reply-forgets training c seq stamp (some t) h =
      OnSome-map (IsListed (erase seq c.unacknowledged_packets)) (IsWithout seq)
        (λ c' e. ap (time_of seq) e ∙ time_of-erase seq c.unacknowledged_packets)
        (answered training
          (record c { unacknowledged_packets = erase seq c.unacknowledged_packets })
          (reply_packet c seq t stamp))
        (answered-list training
          (record c { unacknowledged_packets = erase seq c.unacknowledged_packets })
          (reply_packet c seq t stamp))

  reply-unknown :
      (training : W) (c : RemyCc W) (seq : ℤ) (stamp : W)
      → time_of seq c.unacknowledged_packets ≡ none
      → reply training c seq stamp (time_of seq c.unacknowledged_packets) ≡ some c
  unfolding reply
  reply-unknown training c seq stamp h = rw h refl

  -- Once a packet was acknowledged, another acknowledgement of it changes nothing, at whatever time
  -- and with whatever stamp it comes.
  pub on_ack-again :
      (training : W) (c : RemyCc W) (ack : ℤ) (stamp : W) (c' : RemyCc W) (t stamp' : W)
      → on_ack training c ack stamp ≡ some c'
      → on_ack training (set_timestamp c' t) ack stamp' ≡ some (set_timestamp c' t)
  unfolding on_ack
  on_ack-again training c ack stamp c' t stamp' e =
      let gone =
        OnSome-of (IsWithout (ack -ℤ pos 1)) c'
          (reply-forgets training c (ack -ℤ pos 1) stamp _ refl) e in
      reply-unknown training (set_timestamp c' t) (ack -ℤ pos 1) stamp' gone
