-- ===== src/Copa/Config.antt =====
-- markoviancc.cc, lines 343-428: the configuration of the controller by a text. `atof` and `stof` are
-- the library's: `stof` may throw.
use Prim.Native.Char.{code}
use Prim.Native.String.{String}
use copa_new.Prelude.{
  ℕ, List, [], ◌∷◌, Bool, true, false, ◌&&◌, Option, none, some, if◌then◌else◌, ◌==◌, ltb, length,
  take, drop,
}
use copa_new.Double.{Double, ◌⊗◌, lit}
use copa_new.Copa.{
  Copa, UtilityMode, constant_delta, pfabric_fct, bounded_delay, bounded_delay_end, max_throughput,
  bounded_qdelay_end, bounded_fdelay_end, tcp_coop, const_behavior, auto_mode,
}

-- The characters of an ASCII text.
abbrev pub codes : String → List ℕ
codes String.[] = []
codes (String.◌∷◌ c s) = code c ∷ codes s

unfoldable pub same_text : List ℕ → List ℕ → Bool
same_text [] [] = true
same_text [] (y ∷ ys) = false
same_text (x ∷ xs) [] = false
same_text (x ∷ xs) (y ∷ ys) = (x == y) && same_text xs ys

-- `config.substr(0, n) == text`.
unfoldable pub starts : ℕ → String → List ℕ → Bool
starts n text config = same_text (take n config) (codes text)

-- `config.substr(n, npos)`: past the end it throws.
unfoldable pub substr : ℕ → List ℕ → Option (List ℕ)
substr n config = if ltb (length config) n then none else some (drop n config)

module _ {W : Type 0} ⦃d : Double W⦄ where
  unfoldable pub read_do_ss : Copa W → List ℕ → Copa W × List ℕ
  read_do_ss c config =
      if starts 6 "do_ss:" config
      then (record c { do_slow_start = true }, drop 6 config)
      else (c, config)

  unfoldable pub read_keep_ext_min_rtt : Copa W → List ℕ → Copa W × List ℕ
  read_keep_ext_min_rtt c config =
      if starts 17 "keep_ext_min_rtt:" config
      then (record c { keep_ext_min_rtt = true }, drop 17 config)
      else (c, config)

  module _ (atof : List ℕ → W) (stof : List ℕ → Option W) where
    -- A mode with a bound on the delay, which stands after `n` characters.
    unfoldable pub set_bound : Copa W → UtilityMode → Option W → Option (Copa W)
    set_bound c mode none = none
    set_bound c mode (some x) = some (record c { utility_mode = mode; delay_bound = x })

    unfoldable pub set_behavior : Copa W → Option W → Option (Copa W)
    set_behavior c none = none
    set_behavior c (some x) = some (record c { utility_mode = const_behavior; behavior = x })

    unfoldable pub read_behavior : Copa W → Option (List ℕ) → Option (Copa W)
    read_behavior c none = none
    read_behavior c (some text) = set_behavior c (stof text)

    -- The last branches.
    unfoldable pub choose_other : Copa W → List ℕ → Option (Copa W)
    choose_other c config =
        if starts 14 "max_throughput" config
        then some (record c { utility_mode = max_throughput })
        else if starts 16 "different_deltas" config
        then some (record c { utility_mode = constant_delta; delta = d.of_int c.flow_id ⊗ lit 1 2 })
        else if starts 8 "tcp_coop" config
        then some (record c { utility_mode = tcp_coop })
        else if starts 14 "const_behavior" config
        then read_behavior c (substr 15 config)
        else if starts 5 "auto:" config
        then some (record c {
          utility_mode = auto_mode;
          default_delta = atof (drop 5 config);
          delta = atof (drop 5 config);
        })
        else some (record c { utility_mode = constant_delta; delta = lit 1 1 })

    unfoldable pub choose_mode : Copa W → List ℕ → Option (Copa W)
    choose_mode c config =
        if starts 15 "constant_delta:" config
        then some (record c { utility_mode = constant_delta; delta = atof (drop 15 config) })
        else if starts 11 "pfabric_fct" config
        then some (record c { utility_mode = pfabric_fct })
        else if starts 14 "bounded_delay:" config
        then set_bound c bounded_delay (stof (drop 14 config))
        else if starts 18 "bounded_delay_end:" config
        then set_bound c bounded_delay_end (stof (drop 18 config))
        else if starts 19 "bounded_qdelay_end:" config
        then set_bound c bounded_qdelay_end (stof (drop 19 config))
        else if starts 18 "bounded_fdelay_end:" config
        then set_bound c bounded_fdelay_end (stof (drop 18 config))
        else choose_other c config

    -- `none` is an exception.
    unfoldable pub interpret_config_str : Copa W → List ℕ → Option (Copa W)
    interpret_config_str c config =
        let first = read_do_ss c config in
        let second = read_keep_ext_min_rtt first.0 first.1 in
        choose_mode (record second.0 { delta = lit 1 1 }) second.1
