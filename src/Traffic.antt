-- ===== src/Traffic.antt =====
-- traffic-generator.hh: how often and how long a sender sends. The samples of the random numbers are
-- parameters, and so is `atoi`; what is printed is left out.
pub mod Params
pub mod Cycles
mod Runs
use copa_new.Prelude.{
  ℕ, zero, suc, ◌+◌, ◌-◌, ◌%◌, ◌^◌, List, [], ◌∷◌, Bool, true, false, Option, none, some,
  if◌then◌else◌, leb, ◌==◌, take, drop,
}
use copa_new.Prelude.Int.{ℤ, pos_part, neg_part}
use copa_new.Copa.Config.{codes, same_text, starts}

pub data TrafficType : Type 0 where
  exponential_on_off deterministic_on_off : TrafficType

pub record TrafficGenerator (W : Type 0) : Type 0 where
  pub traffic_type : TrafficType
  pub byte_switched : Bool
  pub mean_off_unit : W
  pub mean_on_unit : W
  pub num_cycles : ℕ

-- A flow: the pause in front of it, its duration or size, and its number.
pub record OneFlow (W : Type 0) : Type 0 where
  pub pause : W
  pub size : W
  pub by_bytes : Bool
  pub flow_id : ℕ

-- (unsigned int) of an int.
abbrev pub as_unsigned : ℤ → ℕ
as_unsigned x = (pos_part x + (2 ^ 32 - neg_part x % 2 ^ 32)) % 2 ^ 32

module _ {W : Type 0} where
  -- Without a number of cycles it is -1, as an unsigned int.
  abbrev pub new_traffic : W → W → TrafficGenerator W
  new_traffic mean_on mean_off = record {
    traffic_type = exponential_on_off;
    byte_switched = false;
    mean_off_unit = mean_off;
    mean_on_unit = mean_on;
    num_cycles = 4294967295;
  }

  unfoldable pub read_arg : (List ℕ → ℤ) → TrafficGenerator W → List ℕ → TrafficGenerator W
  read_arg atoi g arg =
      if same_text arg (codes "exponential")
      then record g { traffic_type = exponential_on_off }
      else if same_text arg (codes "deterministic")
      then record g { traffic_type = deterministic_on_off }
      else if same_text arg (codes "byte_switched")
      then record g { byte_switched = true }
      else if starts 11 "num_cycles=" arg
      then record g { num_cycles = as_unsigned (atoi (drop 11 arg)) }
      else g

-- The text up to the next comma, and the text behind that.
abbrev pub comma : ℕ
comma = 44

unfoldable pub before_comma : List ℕ → List ℕ
before_comma [] = []
before_comma (c ∷ cs) = let rest = before_comma cs in if c == comma then [] else c ∷ rest

unfoldable pub after_comma : List ℕ → List ℕ
after_comma [] = []
after_comma (c ∷ cs) = let rest = after_comma cs in if c == comma then cs else rest

module _ {W : Type 0} where
  -- The loop over the arguments; `text` is what stands from `start_pos` on.
  unfoldable pub read_params :
      (List ℕ → ℤ) → ℕ → TrafficGenerator W → List ℕ → Option (TrafficGenerator W)
  read_params atoi fuel g [] = some g
  read_params atoi zero g (c ∷ cs) = none
  read_params atoi (suc fuel) g (c ∷ cs) =
      read_params atoi fuel (read_arg atoi g (before_comma (c ∷ cs))) (after_comma (c ∷ cs))

  abbrev pub by_type : TrafficType → TrafficGenerator W → W → W → W × W
  by_type exponential_on_off g off on = (off, on)
  by_type deterministic_on_off g off on = (g.mean_off_unit, g.mean_on_unit)

  unfoldable pub durations : TrafficGenerator W → W → W → W × W
  durations g off on = by_type g.traffic_type g off on

  abbrev pub one_flow : TrafficGenerator W → W × W → ℕ → OneFlow W
  one_flow g times flow_id = record {
    pause = times.0;
    size = times.1;
    by_bytes = g.byte_switched;
    flow_id = flow_id;
  }

  abbrev pub add_flow : OneFlow W → Option (List (OneFlow W)) → Option (List (OneFlow W))
  add_flow x none = none
  add_flow x (some xs) = some (x ∷ xs)

  -- The loop of `send_data`, with the samples of each flow; `none` is the end of the fuel.
  unfoldable pub send_flows :
      (ℕ → W) → (ℕ → W) → TrafficGenerator W → ℕ → ℕ → Option (List (OneFlow W))
  send_flows off on g zero flow_id = none
  send_flows off on g (suc fuel) flow_id =
      let rest = send_flows off on g fuel ((flow_id + 1) % 2 ^ 32) in
      add_flow (one_flow g (durations g (off flow_id) (on flow_id)) flow_id)
        (if leb g.num_cycles ((flow_id + 1) % 2 ^ 32) then some [] else rest)
