-- ===== src/RttWindow.antt =====
-- rtt-window.hh and rtt-window.cc: the least and greatest round-trip times of sliding windows, and
-- the test for the absence of other congestion controllers.
pub mod Monotone
pub mod Extreme
pub mod Jitter
mod Runs
use copa_new.Prelude.{List, [], ◌∷◌, ◌++◌, Bool, true, false, ◌||◌, not, if◌then◌else◌}
use copa_new.Double.{Double, ◌⊕◌, ◌⊖◌, ◌⊗◌, ◌⊘◌, ◌<?◌, ◌≤?◌, ◌≡?◌, lit, greatest, least, most}

-- An element of the deque: the time of a measurement, and its value.
pub record Sample (W : Type 0) : Type 0 where
  pub time : W
  pub val : W

-- The first element of `vals` is the front of the deque.
pub record ExtremeWindow (W : Type 0) : Type 0 where
  pub find_min : Bool
  pub max_time : W
  pub vals : List (Sample W)
  pub extreme : W

pub record RttWindow (W : Type 0) : Type 0 where
  pub srtt : W
  pub latest_rtt : W
  pub min_rtt : ExtremeWindow W
  pub unjittered_rtt : ExtremeWindow W
  pub is_copa_min : ExtremeWindow W
  pub is_copa_max : ExtremeWindow W

module _ {ℓ} {A : Type ℓ} where
  unfoldable pub keep_front : (A → Bool) → A → List A → List A
  keep_front p x [] = if p x then [] else x ∷ []
  keep_front p x (y ∷ ys) = x ∷ y ∷ ys

  -- `while (!vals.empty() && p(vals.back())) vals.pop_back();`
  unfoldable pub pop_back_while : (A → Bool) → List A → List A
  pop_back_while p [] = []
  pop_back_while p (x ∷ xs) = keep_front p x (pop_back_while p xs)

module _ {W : Type 0} ⦃d : Double W⦄ where
  -- The constructor; `clear` leaves the same state.
  unfoldable pub empty_window : Bool → ExtremeWindow W
  empty_window find_min = record {
    find_min = find_min;
    max_time = lit 10000 1;
    vals = [];
    extreme = if find_min then greatest else d.least_positive;
  }

  unfoldable pub clear_window : ExtremeWindow W → ExtremeWindow W
  clear_window w = record {
    find_min = w.find_min;
    max_time = lit 10000 1;
    vals = [];
    extreme = if w.find_min then greatest else d.least_positive;
  }

  -- The value `a` is more extreme than `b`, or as extreme.
  abbrev pub beats : Bool → W → W → Bool
  beats true a b = a <? b
  beats false a b = b <? a

  abbrev pub reaches : Bool → W → W → Bool
  reaches true a b = a ≤? b
  reaches false a b = b ≤? a

  -- The loop of `clear_old_hist`, with the limit `now - max_time`: the deque and `recompute`.
  unfoldable pub clear_loop : Bool → W → W → List (Sample W) → Bool → List (Sample W) × Bool
  clear_loop find_min extreme limit [] recompute = ([], recompute)
  clear_loop find_min extreme limit (x ∷ []) recompute = (x ∷ [], recompute)
  clear_loop find_min extreme limit (x ∷ y ∷ ys) recompute =
      if x.time <? limit
      then clear_loop find_min extreme limit (y ∷ ys) (recompute || reaches find_min x.val extreme)
      else (x ∷ y ∷ ys, recompute)

  -- `vals.front().second`; the deque is never empty where it is read.
  unfoldable pub front_val : W → List (Sample W) → W
  front_val extreme [] = extreme
  front_val extreme (x ∷ xs) = x.val

  unfoldable pub clear_old_hist : ExtremeWindow W → W → ExtremeWindow W
  clear_old_hist w now =
      let (vals, recompute) = clear_loop w.find_min w.extreme (now ⊖ w.max_time) w.vals false in
      record {
        find_min = w.find_min;
        max_time = w.max_time;
        vals = vals;
        extreme = if recompute then front_val w.extreme vals else w.extreme;
      }

  unfoldable pub push_sample : ExtremeWindow W → W → W → ExtremeWindow W
  push_sample w val now = record {
    find_min = w.find_min;
    max_time = w.max_time;
    vals =
        pop_back_while (λ s. beats w.find_min val s.val) w.vals
        ++ (record { time = now; val = val } ∷ []);
    extreme = if beats w.find_min val w.extreme then val else w.extreme;
  }

  unfoldable pub new_sample : ExtremeWindow W → W → W → ExtremeWindow W
  new_sample w val now = clear_old_hist (push_sample w val now) now

  unfoldable pub update_max_time : ExtremeWindow W → W → ExtremeWindow W
  update_max_time w t = record w { max_time = t }

  unfoldable pub new_rtt_window : RttWindow W
  new_rtt_window = record {
    srtt = lit 0 1;
    latest_rtt = lit 0 1;
    min_rtt = empty_window true;
    unjittered_rtt = empty_window true;
    is_copa_min = empty_window true;
    is_copa_max = empty_window false;
  }

  unfoldable pub clear : RttWindow W → RttWindow W
  clear r = record {
    srtt = lit 0 1;
    latest_rtt = r.latest_rtt;
    min_rtt = clear_window r.min_rtt;
    unjittered_rtt = clear_window r.unjittered_rtt;
    is_copa_min = clear_window r.is_copa_min;
    is_copa_max = clear_window r.is_copa_max;
  }

  -- `srtt_alpha` is 1. / 16.
  unfoldable pub smooth : W → W → W
  smooth srtt rtt = lit 1 16 ⊗ rtt ⊕ (lit 1 1 ⊖ lit 1 16) ⊗ (if srtt ≡? lit 0 1 then rtt else srtt)

  unfoldable pub new_rtt_sample : RttWindow W → W → W → RttWindow W
  new_rtt_sample r rtt now =
      let srtt : W = smooth r.srtt rtt in
      let max_time : W = most (lit 10000 1) (lit 20 1 ⊗ r.min_rtt.extreme) in
      record {
        srtt = srtt;
        latest_rtt = rtt;
        min_rtt = new_sample (update_max_time r.min_rtt max_time) rtt now;
        unjittered_rtt =
            new_sample (update_max_time r.unjittered_rtt (least max_time (srtt ⊗ lit 1 2))) rtt now;
        is_copa_min =
            new_sample (update_max_time r.is_copa_min (least max_time (srtt ⊗ lit 4 1))) rtt now;
        is_copa_max =
            new_sample (update_max_time r.is_copa_max (least max_time (srtt ⊗ lit 4 1))) rtt now;
      }

  abbrev pub get_min_rtt : RttWindow W → W
  get_min_rtt r = r.min_rtt.extreme

  abbrev pub get_unjittered_rtt : RttWindow W → W
  get_unjittered_rtt r = r.unjittered_rtt.extreme

  abbrev pub get_latest_rtt : RttWindow W → W
  get_latest_rtt r = r.latest_rtt

  unfoldable pub is_copa : RttWindow W → Bool
  is_copa r =
      let threshold : W =
        r.min_rtt.extreme ⊕ lit 1 10 ⊗ (r.is_copa_max.extreme ⊖ r.min_rtt.extreme) in
      r.is_copa_min.extreme <? threshold
