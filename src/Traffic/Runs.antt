-- ===== src/Traffic/Runs.antt =====
-- The arguments of a text, and the flows of three cycles.
use copa_new.Prelude.{ℕ, ◌-◌, ◌≡◌, refl, List, [], ◌∷◌, some, arith}
use copa_new.Prelude.Int.{ℤ, pos}
use copa_new.Copa.Config.{codes, same_text, starts}
use copa_new.Traffic.{TrafficGenerator, new_traffic, deterministic_on_off, read_params, read_arg}
use copa_new.Traffic.Params.{join, read_each, read_params-join}

-- A number of one digit.
abbrev digit : List ℕ → ℤ
digit [] = pos 0
digit (c ∷ cs) = pos (c - 48)

abbrev start : TrafficGenerator ℕ
start = new_traffic 5000 100

abbrev generator : TrafficGenerator ℕ
generator = record start { traffic_type = deterministic_on_off; num_cycles = 3 }

read_params-join_example :
    read_params digit 5 start (join (codes "deterministic") (codes "num_cycles=3" ∷ []))
    ≡ some (read_each digit start (codes "deterministic" ∷ codes "num_cycles=3" ∷ []))
read_params-join_example =
    read_params-join digit 5 start (codes "deterministic") (codes "num_cycles=3" ∷ [])
      (ground arith) (omega arith)

reads_three_cycles :
    read_each digit start (codes "deterministic" ∷ codes "num_cycles=3" ∷ []) ≡ generator
unfolding read_arg same_text starts
reads_three_cycles = refl
