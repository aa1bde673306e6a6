-- ===== src/RttWindow/Runs.antt =====
-- Runs of the windows on whole milliseconds, and their theorems at concrete inputs.
use copa_new.Prelude.{ℕ, ◌≡◌, refl, List, [], ◌∷◌, true, false, All}
use copa_new.Double.{whole, whole-IsOrdered, ◌≤?◌, ◌<?◌, ◌⊖◌}
use copa_new.RttWindow.{
  Sample, ExtremeWindow, empty_window, push_sample, clear_old_hist, clear_loop, front_val,
  pop_back_while, keep_front, new_sample, new_rtt_window, clear, get_min_rtt, get_unjittered_rtt,
}
use copa_new.RttWindow.Monotone.{IsBest, trim}
use copa_new.RttWindow.Extreme.{Tracks, kept, wins, new_sample-Tracks_first, new_sample_extreme}
use copa_new.RttWindow.Jitter.{new_rtt_samples, IsRun, min_rtt-le-unjittered_rtt}

abbrev sample : ℕ → ℕ → Sample ℕ
sample now val = record { time = now; val = val }

-- A window of 100 ms with one sample of 40 ms.
abbrev fresh : ExtremeWindow ℕ
fresh = record { find_min = true; max_time = 100; vals = []; extreme = 1000000000 }

abbrev window : ExtremeWindow ℕ
window = new_sample fresh 40 1000

-- A later sample of 50 ms does not change the minimum, until the first one is too old.
least_of_two : (new_sample window 50 1050).extreme ≡ 40
unfolding new_sample push_sample clear_old_hist clear_loop front_val pop_back_while keep_front
least_of_two = refl

least_after_a_while : (new_sample (new_sample window 50 1050) 60 1120).extreme ≡ 50
unfolding new_sample push_sample clear_old_hist clear_loop front_val pop_back_while keep_front
least_after_a_while = refl

window-Tracks : Tracks window (kept 900 [] (sample 1000 40))
window-Tracks = new_sample-Tracks_first whole-IsOrdered fresh 40 1000 refl refl refl refl refl

-- The greatest value of samples that are not positive stays at the least positive double.
greatest_of_zero : (new_sample {W = ℕ} (empty_window false) 0 1000).extreme ≡ 1
unfolding new_sample push_sample clear_old_hist clear_loop front_val pop_back_while keep_front
    empty_window
greatest_of_zero = refl

not_later : All (λ x. (1050 <? x.time) ≡ false) (kept {W = ℕ} 900 [] (sample 1000 40))
unfolding kept trim
not_later = (refl, tt)

new_sample_extreme_example :
    let h = kept {W = ℕ} (1050 ⊖ 100) (kept {W = ℕ} 900 [] (sample 1000 40)) (sample 1050 50) in
    Tracks (new_sample window 50 1050) h
    × ((x : Sample ℕ) × ((new_sample window 50 1050).extreme ≡ x.val) × IsBest (wins true) h x)
unfolding new_sample clear_old_hist push_sample
new_sample_extreme_example =
    new_sample_extreme whole-IsOrdered window (kept 900 [] (sample 1000 40)) 50 1050 window-Tracks
      refl (refl, refl, refl) refl not_later

abbrev three_samples : List (Sample ℕ)
three_samples = sample 1040 50 ∷ sample 1090 30 ∷ []

three_samples-IsRun : IsRun whole-IsOrdered (sample 1000 40 ∷ three_samples)
three_samples-IsRun = record {
  nums =
      ((refl, (refl, refl, refl)), ((refl, (refl, refl, refl)), ((refl, (refl, refl, refl)), tt)));
  sorted = ((refl, (refl, tt)), ((refl, tt), (tt, tt)));
}

min_rtt-le-unjittered_rtt_example :
    let r =
      new_rtt_samples whole-IsOrdered (clear new_rtt_window) (sample 1000 40 ∷ three_samples) in
    (get_min_rtt r ≤? get_unjittered_rtt r) ≡ true
unfolding new_rtt_window empty_window
min_rtt-le-unjittered_rtt_example =
    min_rtt-le-unjittered_rtt whole-IsOrdered new_rtt_window (sample 1000 40) three_samples refl
      refl three_samples-IsRun refl
