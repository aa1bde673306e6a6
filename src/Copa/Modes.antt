-- ===== src/Copa/Modes.antt =====
-- Which modes a configuration can choose.
use copa_new.Prelude.{
  ℕ, suc, ◌≡◌, ◌<◌, refl, ap, List, [], ◌∷◌, Bool, true, false, ◌&&◌, Option, none, some,
  if◌then◌else◌, ◌==◌, length, length-take, take, drop, Bool-cases, inl, inr, arith,
}
use Prim.Native.String.{String}
use copa_new.Double.{Double, lit}
use copa_new.Copa.{
  Copa, UtilityMode, bounded_delay, bounded_delay_end, bounded_qdelay_end, bounded_fdelay_end,
}
use copa_new.Copa.Config.{
  codes, same_text, starts, substr, set_bound, set_behavior, read_behavior, choose_other,
  choose_mode, interpret_config_str, read_do_ss, read_keep_ext_min_rtt,
}
use copa_new.Copa.Frame.{if_elim, OnSome, OnSome-of}

pub is_fdelay : UtilityMode → Bool
is_fdelay bounded_fdelay_end = true
is_fdelay _ = false

same_text-length : (xs ys : List ℕ) → same_text xs ys ≡ true → length xs ≡ length ys
unfolding same_text
same_text-length [] [] h = omega arith
same_text-length [] (y ∷ ys) h = absurd (ground (arith, h))
same_text-length (x ∷ xs) [] h = absurd (ground (arith, h))
same_text-length (x ∷ xs) (y ∷ ys) h =
    ap suc (same_text-length xs ys (and_right (x == y) (same_text xs ys) h))
  where
    and_right : (a b : Bool) → (a && b) ≡ true → b ≡ true
    and_right true b e = e
    and_right false b e = absurd (ground (arith, e))

-- A part that is shorter than the text is never the text.
starts-longer :
    (n : ℕ) (text : String) (config : List ℕ)
    → n < length (codes text)
    → starts n text config ≡ false
unfolding starts
starts-longer n text config h = elim (Bool-cases (same_text (take n config) (codes text))) [
  | inl e ↦
      absurd (omega (arith, same_text-length (take n config) (codes text) e, length-take n config))
  | inr e ↦ e
]

module _ {W : Type 0} ⦃d : Double W⦄ (atof : List ℕ → W) (stof : List ℕ → Option W) where
  abbrev IsOther : Copa W → Type 0
  IsOther c = is_fdelay c.utility_mode ≡ false

  set_bound-IsOther :
      (c : Copa W) (mode : UtilityMode) (x : Option W)
      → is_fdelay mode ≡ false
      → OnSome IsOther (set_bound atof stof c mode x)
  unfolding set_bound
  set_bound-IsOther c mode none h = tt
  set_bound-IsOther c mode (some x) h = h

  set_behavior-IsOther : (c : Copa W) (x : Option W) → OnSome IsOther (set_behavior atof stof c x)
  unfolding set_behavior is_fdelay
  set_behavior-IsOther c none = tt
  set_behavior-IsOther c (some x) = refl

  read_behavior-IsOther :
      (c : Copa W) (x : Option (List ℕ)) → OnSome IsOther (read_behavior atof stof c x)
  unfolding read_behavior
  read_behavior-IsOther c none = tt
  read_behavior-IsOther c (some x) = set_behavior-IsOther c (stof x)

  choose_other-IsOther :
      (c : Copa W) (config : List ℕ) → OnSome IsOther (choose_other atof stof c config)
  unfolding choose_other is_fdelay
  choose_other-IsOther c config =
      if_elim (OnSome IsOther) (starts 14 "max_throughput" config) refl (
        if_elim (OnSome IsOther) (starts 16 "different_deltas" config) refl (
          if_elim (OnSome IsOther) (starts 8 "tcp_coop" config) refl (
            if_elim (OnSome IsOther) (starts 14 "const_behavior" config)
              (read_behavior-IsOther c (substr 15 config))
              (if_elim (OnSome IsOther) (starts 5 "auto:" config) refl refl))))

  -- The branch that is never taken.
  no_fdelay :
      (c : Copa W) (config : List ℕ)
      → OnSome IsOther (
          if starts 18 "bounded_fdelay_end:" config
          then set_bound atof stof c bounded_fdelay_end (stof (drop 18 config))
          else choose_other atof stof c config)
  no_fdelay c config =
      rw (starts-longer 18 "bounded_fdelay_end:" config (omega arith))
        (choose_other-IsOther c config)

  choose_mode-IsOther :
      (c : Copa W) (config : List ℕ) → OnSome IsOther (choose_mode atof stof c config)
  unfolding choose_mode is_fdelay
  choose_mode-IsOther c config =
      if_elim (OnSome IsOther) (starts 15 "constant_delta:" config) refl (
        if_elim (OnSome IsOther) (starts 11 "pfabric_fct" config) refl (
          if_elim (OnSome IsOther) (starts 14 "bounded_delay:" config)
            (set_bound-IsOther c bounded_delay (stof (drop 14 config)) refl)
            (if_elim (OnSome IsOther) (starts 18 "bounded_delay_end:" config)
              (set_bound-IsOther c bounded_delay_end (stof (drop 18 config)) refl)
              (if_elim (OnSome IsOther) (starts 19 "bounded_qdelay_end:" config)
                (set_bound-IsOther c bounded_qdelay_end (stof (drop 19 config)) refl)
                (no_fdelay c config)))))

  -- No configuration text chooses the mode with a bound on the fraction of the delay.
  pub interpret_config_str-mode :
      (c c' : Copa W) (config : List ℕ)
      → interpret_config_str atof stof c config ≡ some c'
      → is_fdelay c'.utility_mode ≡ false
  unfolding interpret_config_str
  interpret_config_str-mode c c' config e =
      let first = read_do_ss c config in
      let second = read_keep_ext_min_rtt first.0 first.1 in
      OnSome-of IsOther c' (choose_mode-IsOther (record second.0 { delta = lit 1 1 }) second.1) e
