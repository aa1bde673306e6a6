-- ===== src/Copa/Pace.antt =====
-- markoviancc.cc, lines 131-220: the window and the time between two packets.
use copa_new.Prelude.{
  ◌+◌, ◌-◌, ◌*◌, Bool, false, ◌&&◌, ◌||◌, Option, none, some, ltb, if◌then◌else◌,
}
use copa_new.Prelude.Int.{ℤ, pos, ◌+ℤ◌, ◌-ℤ◌, ltb_ℤ}
use copa_new.Double.{Double, ◌⊕◌, ◌⊖◌, ◌⊗◌, ◌⊘◌, ◌<?◌, ◌≤?◌, ◌≡?◌, lit, greatest, most}
use copa_new.RttWindow.{get_unjittered_rtt, get_latest_rtt}
use copa_new.Copa.{Copa, num_probe_pkts}

-- `a * b > 0`.
abbrev pub same_sign : ℤ → ℤ → Bool
same_sign a b = (ltb_ℤ (pos 0) a && ltb_ℤ (pos 0) b) || (ltb_ℤ a (pos 0) && ltb_ℤ b (pos 0))

module _ {W : Type 0} ⦃d : Double W⦄ where
  unfoldable pub queuing_delay : Copa W → W
  queuing_delay c = get_unjittered_rtt c.rtt_window ⊖ c.min_rtt

  unfoldable pub target_window : Copa W → W
  target_window c =
      if queuing_delay c ≡? lit 0 1
      then greatest
      else get_unjittered_rtt c.rtt_window ⊘ (queuing_delay c ⊗ c.delta)

  -- The start: `none` is the failed assertion.
  unfoldable pub start_up : Copa W → Option (Copa W)
  start_up c =
      let window : W = c.the_window ⊕ lit 1 1 in
      if c.do_slow_start || (target_window c ≡? greatest)
      then some (record c {
        the_window = window;
        slow_start = if target_window c ≤? window then false else c.slow_start;
      })
      else none

  -- Once in a round-trip time: the amount grows while the direction stays the same.
  unfoldable pub new_round : Copa W → Copa W
  new_round c =
      let same : Bool = same_sign c.prev_update_dir c.update_dir in
      let grown : W =
        if c.update_amt <? lit 6 1000
        then c.update_amt ⊕ lit 5 1000
        else d.of_int (d.trunc c.update_amt +ℤ d.trunc c.update_amt) in
      if c.last_update_time ⊕ get_latest_rtt c.rtt_window <? c.cur_tick
      then record c {
        update_amt = if same then grown else lit 1 1;
        prev_update_dir = if same then c.prev_update_dir else pos 0 -ℤ c.prev_update_dir;
        last_update_time = c.cur_tick;
        pkts_per_rtt = 0;
        update_dir = pos 0;
      }
      else c

  unfoldable pub limit_amount : Copa W → Copa W
  limit_amount c = record c {
    update_amt =
        most
          (if c.the_window ⊗ c.delta <? c.update_amt then c.update_amt ⊘ lit 2 1 else c.update_amt)
          (lit 1 1);
    pkts_per_rtt = c.pkts_per_rtt + 1;
  }

  -- One step towards the target.
  unfoldable pub approach : Copa W → W → Copa W
  approach c target =
      let amount : W = c.update_amt ⊘ (c.delta ⊗ c.the_window) in
      if c.the_window <? target
      then record c { update_dir = c.update_dir +ℤ pos 1; the_window = c.the_window ⊕ amount }
      else record c { update_dir = c.update_dir -ℤ pos 1; the_window = c.the_window ⊖ amount }

  -- The end: the window is at least 2. `randomize_intersend` returns its argument.
  unfoldable pub set_intersend : Copa W → W → Copa W
  set_intersend c rtt =
      let window : W = most (lit 2 1) c.the_window in
      record c {
        the_window = window;
        cur_intersend_time = lit 1 2 ⊗ rtt ⊘ window;
        intersend_time = lit 1 2 ⊗ rtt ⊘ window;
      }

  unfoldable pub set_intersend? : Option (Copa W) → W → Option (Copa W)
  set_intersend? none rtt = none
  set_intersend? (some c) rtt = some (set_intersend c rtt)

  unfoldable pub move : Copa W → Option (Copa W)
  move c =
      if c.slow_start
      then start_up c
      else some (approach (limit_amount (new_round c)) (target_window c))

  unfoldable pub update_intersend_time : Copa W → Option (Copa W)
  update_intersend_time c =
      if ltb c.num_pkts_acked (2 * num_probe_pkts - 1)
      then some c
      else set_intersend? (move c) (get_unjittered_rtt c.rtt_window)
