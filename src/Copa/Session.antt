-- ===== src/Copa/Session.antt =====
-- Runs of the controller over events with their times, as the sender gives them: it sets the time and
-- then calls `onACK` or `onPktSent`.
use copa_new.Prelude.{ℕ, suc, ◌≡◌, List, [], ◌∷◌, Bool, true, Option, none, some}
use copa_new.Prelude.Int.{ℤ, negsuc, ◌<ℤ◌}
use copa_new.Double.{Double, ◌⊖◌, ◌⊘◌, ◌<?◌, lit, greatest}
use copa_new.RttWindow.{Sample}
use copa_new.Copa.{Copa, set_timestamp}
use copa_new.Copa.Ack.{on_ack, on_pkt_sent}

-- The time first: an acknowledgement with its number, the time of its packet and its adjustment; a
-- packet that is sent.
pub data Event (W : Type 0) : Type 0 where
  ack_event : W → ℤ → W → ℤ → Event W
  send_event : W → ℤ → Event W

unfoldable pub and_then : {A B : Type 0} → Option A → (A → Option B) → Option B
and_then none f = none
and_then (some a) f = f a

module _ {W : Type 0} ⦃d : Double W⦄ where
  unfoldable pub handle : Bool → Copa W → Event W → Option (Copa W)
  handle late c (ack_event now ack sent_time adjust_us) =
      on_ack (set_timestamp c now) ack sent_time adjust_us
  handle late c (send_event now seq) = some (on_pkt_sent late (set_timestamp c now) seq)

  unfoldable pub run : Bool → Copa W → List (Event W) → Option (Copa W)
  run late c [] = some c
  run late c (e ∷ es) = and_then (handle late c e) (λ c'. run late c' es)

  -- The round-trip times of the acknowledgements.
  unfoldable pub samples : List (Event W) → List (Sample W)
  samples [] = []
  samples (ack_event now ack sent_time adjust_us ∷ es) =
      record { time = now; val = now ⊖ sent_time ⊖ d.of_int adjust_us ⊘ lit 1000 1 } ∷ samples es
  samples (send_event now seq ∷ es) = samples es

  unfoldable pub num_sends : List (Event W) → ℕ
  num_sends [] = 0
  num_sends (ack_event now ack sent_time adjust_us ∷ es) = num_sends es
  num_sends (send_event now seq ∷ es) = suc (num_sends es)

  -- The packet of an acknowledgement was sent before it; a number is not negative.
  unfoldable pub IsTimely : Event W → Type 0
  IsTimely (ack_event now ack sent_time adjust_us) = (sent_time <? now) ≡ true
  IsTimely (send_event now seq) = negsuc 0 <ℤ seq

  -- The first sample is below the greatest double.
  unfoldable pub Starts : List (Sample W) → Type 0
  Starts [] = Unit
  Starts (s ∷ ss) = (s.val <? greatest) ≡ true
