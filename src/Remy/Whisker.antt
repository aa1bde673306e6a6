-- ===== src/Remy/Whisker.antt =====
-- whisker.hh and whisker.cc: a rule, with the range of memories for which it holds.
pub mod Next
use copa_new.Prelude.{ℕ, List, map, Option, none, some, min, max}
use copa_new.Prelude.Int.{ℤ, pos, pos_part}
use copa_new.Double.{Double, ◌⊕◌, ◌⊗◌, lit}
use copa_new.Remy.{Memory}
use copa_new.Remy.Range.{
  MemoryRange, RangeDna, use_range, reset_count, track, range_dna, range_of_dna, bisect_range,
}

pub record Whisker (W : Type 0) : Type 0 where
  pub generation : ℕ
  pub window_increment : ℤ
  pub window_multiple : W
  pub intersend : W
  pub domain : MemoryRange W

pub record WhiskerDna (W : Type 0) : Type 0 where
  pub window_increment : ℤ
  pub window_multiple : W
  pub intersend : W
  pub domain : RangeDna W

module _ {W : Type 0} where
  abbrev pub use_rule : Whisker W → Whisker W
  use_rule w = record w { domain = use_range w.domain }

  abbrev pub track_rule : Whisker W → Memory W → Whisker W
  track_rule w m = record w { domain = track w.domain m }

  abbrev pub reset_rule_count : Whisker W → Whisker W
  reset_rule_count w = record w { domain = reset_count w.domain }

  abbrev pub promote_rule : Whisker W → ℕ → Whisker W
  promote_rule w generation = record w { generation = max w.generation generation }

  abbrev pub demote_rule : Whisker W → ℕ → Whisker W
  demote_rule w generation = record w { generation = generation }

  abbrev pub rule_dna : Whisker W → WhiskerDna W
  rule_dna w = record {
    window_increment = w.window_increment;
    window_multiple = w.window_multiple;
    intersend = w.intersend;
    domain = range_dna w.domain;
  }

  abbrev pub rules_of_parts : Whisker W → Option (List (MemoryRange W)) → Option (List (Whisker W))
  rules_of_parts w none = none
  rules_of_parts w (some parts) = some (map (λ x. record w { domain = x }) parts)

module _ {W : Type 0} ⦃d : Double W⦄ where
  abbrev pub new_rule : MemoryRange W → Whisker W
  new_rule domain = record {
    generation = 0;
    window_increment = pos 1;
    window_multiple = lit 1 1;
    intersend = lit 3 1;
    domain = domain;
  }

  -- The window after `previous`: from 0 to 1000000.
  unfoldable pub next_window : Whisker W → ℕ → ℕ
  next_window w previous =
      min
        (pos_part
          (d.trunc (d.of_int (pos previous) ⊗ w.window_multiple ⊕ d.of_int w.window_increment)))
        1000000

  abbrev pub rule_of_dna : WhiskerDna W → Whisker W
  rule_of_dna dna = record {
    generation = 0;
    window_increment = dna.window_increment;
    window_multiple = dna.window_multiple;
    intersend = dna.intersend;
    domain = range_of_dna dna.domain;
  }

  unfoldable pub bisect_rule : (List W → W) → Whisker W → Option (List (Whisker W))
  bisect_rule median w = rules_of_parts w (bisect_range median w.domain)
