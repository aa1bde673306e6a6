-- ===== src/DefaultCc/Runs.antt =====
-- A recovery on whole numbers.
use copa_new.Prelude.{ℕ, refl}
use copa_new.Prelude.Int.{pos, ◌≤ℤ◌}
use copa_new.Double.{whole}
use copa_new.DefaultCc.{DefaultCc, new_default, half_window, on_ack_default}
use copa_new.DefaultCc.Recovery.{InRecovery, IsOver, repeated, repeated-recovers}

-- The first acknowledgement comes twice, and then three times more.
abbrev twice : DefaultCc ℕ
twice = record new_default { last_ack = pos 4; dup_ack_count = 2; the_window = 20 }

repeated-recovers_example :
    (pos 2 ≤ℤ half_window twice)
    × InRecovery (half_window twice) (pos 4) 2 (repeated 3 twice (pos 4))
    × IsOver (half_window twice) (pos 5) (on_ack_default (repeated 3 twice (pos 4)) (pos 5))
repeated-recovers_example = repeated-recovers twice (pos 4) 2 (pos 5) refl refl refl
