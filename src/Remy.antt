-- ===== src/Remy.antt =====
-- The controller that follows rules learnt beforehand: memory-default.hh, memory-default.cc,
-- memoryrange.hh, memoryrange.cc, whisker.hh, whisker.cc, whiskertree.hh, whiskertree.cc, rat.hh,
-- rat.cc, remycc.hh, remycc.cc. This file is the memory of a sender.
pub mod Range
pub mod Whisker
pub mod Tree
pub mod Rat
pub mod Controller
mod Runs
use copa_new.Prelude.{
  ℕ, zero, suc, ◌+◌, List, [], ◌∷◌, Bool, true, false, ◌&&◌, ◌||◌, not, Option, none, some,
  if◌then◌else◌, ◌==◌,
}
use copa_new.Prelude.Int.{ℤ, pos, ◌-ℤ◌, eqb_ℤ, ltb_ℤ}
use copa_new.Double.{Double, ◌⊕◌, ◌⊖◌, ◌⊗◌, ◌⊘◌, ◌<?◌, ◌≤?◌, ◌≡?◌, lit, least}

pub record Packet (W : Type 0) : Type 0 where
  pub src : ℕ
  pub flow_id : ℕ
  pub tick_sent : W
  pub tick_received : W
  pub receiver_timestamp : W
  pub seq_num : ℤ

pub record Memory (W : Type 0) : Type 0 where
  pub rec_send_ewma : W
  pub rec_rec_ewma : W
  pub rtt_ratio : W
  pub slow_rec_rec_ewma : W
  pub loss_rate : W
  pub last_tick_sent : W
  pub last_tick_received : W
  pub last_receiver_timestamp : W
  pub min_rtt : W
  pub rtt_estimate : W
  pub largest_ack : ℤ

-- A message of the saved rules; a field may be missing.
pub record MemoryDna (W : Type 0) : Type 0 where
  pub rec_send_ewma : Option W
  pub rec_rec_ewma : Option W
  pub rtt_ratio : Option W
  pub slow_rec_rec_ewma : Option W

abbrev pub datasize : ℕ
datasize = 4

abbrev or_else {ℓ} : {A : Type ℓ} → Option A → A → A
or_else none a = a
or_else (some b) a = b

module _ {W : Type 0} where
  abbrev pub field : Memory W → ℕ → W
  field m zero = m.rec_send_ewma
  field m (suc zero) = m.rec_rec_ewma
  field m (suc (suc zero)) = m.rtt_ratio
  field m (suc (suc (suc n))) = m.slow_rec_rec_ewma

  -- `mutable_field(num) = x`.
  abbrev pub set_field : Memory W → ℕ → W → Memory W
  set_field m zero x = record m { rec_send_ewma = x }
  set_field m (suc zero) x = record m { rec_rec_ewma = x }
  set_field m (suc (suc zero)) x = record m { rtt_ratio = x }
  set_field m (suc (suc (suc n))) x = record m { slow_rec_rec_ewma = x }

  abbrev pub memory_dna : Memory W → MemoryDna W
  memory_dna m = record {
    rec_send_ewma = some m.rec_send_ewma;
    rec_rec_ewma = some m.rec_rec_ewma;
    rtt_ratio = some m.rtt_ratio;
    slow_rec_rec_ewma = some m.slow_rec_rec_ewma;
  }

module _ {W : Type 0} ⦃d : Double W⦄ where
  -- The constructor from the four fields that are tracked.
  abbrev pub memory_of : W → W → W → W → Memory W
  memory_of a b c e = record {
    rec_send_ewma = a;
    rec_rec_ewma = b;
    rtt_ratio = c;
    slow_rec_rec_ewma = e;
    loss_rate = lit 0 1;
    last_tick_sent = lit 0 1;
    last_tick_received = lit 0 1;
    last_receiver_timestamp = lit 0 1;
    min_rtt = lit 0 1;
    rtt_estimate = lit 0 1;
    largest_ack = pos 0;
  }

  abbrev pub new_memory : Memory W
  new_memory = memory_of (lit 0 1) (lit 0 1) (lit 0 1) (lit 0 1)

  abbrev pub max_memory : Memory W
  max_memory = memory_of (lit 163840 1) (lit 163840 1) (lit 163840 1) (lit 163840 1)

  -- The time of the receiver's last stamp is kept.
  unfoldable pub reset : Memory W → Memory W
  reset m = record new_memory { last_receiver_timestamp = m.last_receiver_timestamp }

  -- `a >= b`, `a < b` and `a == b`, as the operators are written: the last one compares
  -- `_rec_rec_ewma` of `a` with itself.
  abbrev pub at_least : Memory W → Memory W → Bool
  at_least a b =
      (b.rec_send_ewma ≤? a.rec_send_ewma)
      && (b.rec_rec_ewma ≤? a.rec_rec_ewma)
      && (b.rtt_ratio ≤? a.rtt_ratio)
      && (b.slow_rec_rec_ewma ≤? a.slow_rec_rec_ewma)

  abbrev pub is_below : Memory W → Memory W → Bool
  is_below a b =
      (a.rec_send_ewma <? b.rec_send_ewma)
      && (a.rec_rec_ewma <? b.rec_rec_ewma)
      && (a.rtt_ratio <? b.rtt_ratio)
      && (a.slow_rec_rec_ewma <? b.slow_rec_rec_ewma)

  abbrev pub same_memory : Memory W → Memory W → Bool
  same_memory a b =
      (a.rec_send_ewma ≡? b.rec_send_ewma)
      && (a.rec_rec_ewma ≡? a.rec_rec_ewma)
      && (a.rtt_ratio ≡? b.rtt_ratio)
      && (a.slow_rec_rec_ewma ≡? b.slow_rec_rec_ewma)

  abbrev pub val_or_default : Option W → Bool → W
  val_or_default x is_lower_limit = or_else x (if is_lower_limit then lit 0 1 else lit 163840 1)

  abbrev pub memory_of_dna : Bool → MemoryDna W → Memory W
  memory_of_dna is_lower_limit dna =
      memory_of (val_or_default dna.rec_send_ewma is_lower_limit)
        (val_or_default dna.rec_rec_ewma is_lower_limit)
        (val_or_default dna.rtt_ratio is_lower_limit)
        (val_or_default dna.slow_rec_rec_ewma is_lower_limit)

  -- (1 - 1/n) * old + 1/n * new * factor.
  abbrev pub mix : ℕ → W → W → W → W
  mix n old new factor = (lit 1 1 ⊖ lit 1 n) ⊗ old ⊕ lit 1 n ⊗ new ⊗ factor

  -- The averages, for a packet that follows the last one.
  unfoldable pub update_ewmas : Memory W → Packet W → W → Memory W
  update_ewmas m x factor =
      let gap : W = x.receiver_timestamp ⊖ m.last_receiver_timestamp in
      record m {
        rec_send_ewma = mix 8 m.rec_send_ewma (x.tick_sent ⊖ m.last_tick_sent) factor;
        rec_rec_ewma = mix 8 m.rec_rec_ewma gap factor;
        slow_rec_rec_ewma = mix 256 m.slow_rec_rec_ewma gap factor;
        last_tick_sent = x.tick_sent;
        last_tick_received = x.tick_received;
        last_receiver_timestamp = x.receiver_timestamp;
      }

  unfoldable pub first_packet : Memory W → Packet W → W → Memory W
  first_packet m x rtt = record m {
    last_tick_sent = x.tick_sent;
    last_tick_received = x.tick_received;
    last_receiver_timestamp = x.receiver_timestamp;
    min_rtt = rtt;
    rtt_estimate = rtt;
  }

  -- A later packet; `none` is the failed assertion on the ratio.
  unfoldable pub later_packet : Memory W → Packet W → W → W → Option (Memory W)
  later_packet m x rtt factor =
      let u : Memory W =
        if eqb_ℤ (x.seq_num -ℤ pos 1) m.largest_ack then update_ewmas m x factor else m in
      let low : W = least u.min_rtt rtt in
      let ratio : W = rtt ⊘ low in
      if lit 1 1 ≤? ratio
      then some (record u {
        min_rtt = low;
        rtt_ratio = ratio;
        rtt_estimate = (lit 1 1 ⊖ lit 1 8) ⊗ u.rtt_estimate ⊕ lit 1 8 ⊗ rtt;
      })
      else none

  unfoldable pub note_ack : Packet W → Option (Memory W) → Option (Memory W)
  note_ack x none = none
  note_ack x (some m) = some (record m {
    largest_ack = if ltb_ℤ m.largest_ack x.seq_num then x.seq_num else m.largest_ack;
  })

  unfoldable pub packet_received : Memory W → Packet W → W → Option (Memory W)
  packet_received m x factor =
      let rtt : W = x.tick_received ⊖ x.tick_sent in
      note_ack x (
        if (m.last_tick_sent ≡? lit 0 1) || (m.last_tick_received ≡? lit 0 1)
        then some (first_packet m x rtt)
        else later_packet m x rtt factor)

  -- The loop over the packets, of which those of another flow are passed over.
  unfoldable pub receive_one : Option (Memory W) → Packet W → ℕ → W → Option (Memory W)
  receive_one none x flow_id factor = none
  receive_one (some m) x flow_id factor =
      if x.flow_id == flow_id then packet_received m x factor else some m

  unfoldable pub receive_all : Option (Memory W) → List (Packet W) → ℕ → W → Option (Memory W)
  receive_all m [] flow_id factor = m
  receive_all m (x ∷ xs) flow_id factor =
      receive_all (receive_one m x flow_id factor) xs flow_id factor

  abbrev pub memory_received : Memory W → List (Packet W) → ℕ → W → Option (Memory W)
  memory_received m packets flow_id factor = receive_all (some m) packets flow_id factor
