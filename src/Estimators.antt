-- ===== src/Estimators.antt =====
-- estimators.hh and estimators.cc: the averages and counters that the congestion controller keeps.
use copa_new.Prelude.{
  ℕ, ◌+◌, List, [], ◌∷◌, ◌++◌, Bool, true, false, ◌&&◌, ltb, leb, if◌then◌else◌, length,
}
use copa_new.Prelude.Int.{pos}
use copa_new.Double.{Double, ◌⊕◌, ◌⊖◌, ◌⊗◌, ◌⊘◌, ◌<?◌, lit, greatest}

pub record PlainEwma (W : Type 0) : Type 0 where
  pub ewma : W
  pub alpha : W
  pub valid : Bool

-- The window is a queue, its front first.
pub record Percentile (W : Type 0) : Type 0 where
  pub percentile : W
  pub window : List W

pub record LossRateEstimate : Type 0 where
  pub loss_events : List ℕ
  pub cur_loss_interval : ℕ

pub record ReduceOnLoss (W : Type 0) : Type 0 where
  pub num_lost : ℕ
  pub num_pkts : ℕ
  pub prev_win_time : W

pub record IsUniformDistr (W : Type 0) : Type 0 where
  pub window_len : ℕ
  pub window : List W
  pub sum : W

-- A value with its time, and the values of a time window, the front first.
pub record Timed (W : Type 0) : Type 0 where
  pub time : W
  pub data_point : W

pub record TimeWindow (W : Type 0) : Type 0 where
  pub window_size : W
  pub window : List (Timed W)

-- `pop` of a queue or list.
abbrev pub pop_front {ℓ} : {A : Type ℓ} → List A → List A
pop_front [] = []
pop_front (x ∷ xs) = xs

unfoldable pub loss_rate_reset : LossRateEstimate
loss_rate_reset = record { loss_events = []; cur_loss_interval = 0 }

-- At most 8 intervals are kept; one of 2 packets or less is not counted.
pub loss_rate_update : LossRateEstimate → Bool → LossRateEstimate
loss_rate_update l false = record l { cur_loss_interval = l.cur_loss_interval + 1 }
loss_rate_update l true =
    let events : List ℕ = l.loss_events ++ (l.cur_loss_interval ∷ []) in
    if leb l.cur_loss_interval 2 then l else record {
      loss_events = if ltb 8 (length events) then pop_front events else events;
      cur_loss_interval = 0;
    }

module _ {W : Type 0} ⦃d : Double W⦄ where
  unfoldable pub plain_ewma : W → PlainEwma W
  plain_ewma alpha = record { ewma = lit 0 1; alpha = alpha; valid = false }

  unfoldable pub force_set : PlainEwma W → W → PlainEwma W
  force_set e value = record e { ewma = value; valid = true }

  unfoldable pub ewma_update : PlainEwma W → W → PlainEwma W
  ewma_update e value = record {
    ewma = e.alpha ⊗ value ⊕ (lit 1 1 ⊖ e.alpha) ⊗ e.ewma;
    alpha = e.alpha;
    valid = true;
  }

  unfoldable pub ewma_reset : PlainEwma W → PlainEwma W
  ewma_reset e = record e { ewma = lit 0 1 }

  -- `window_len` is 100.
  unfoldable pub percentile_push : Percentile W → W → Percentile W
  percentile_push p val =
      let window : List W = p.window ++ (val ∷ []) in
      record p { window = if ltb 100 (length window) then pop_front window else window }

  unfoldable pub percentile_reset : Percentile W → Percentile W
  percentile_reset p = record p { window = [] }

  unfoldable pub reduce_reset : ReduceOnLoss W
  reduce_reset = record { num_lost = 0; num_pkts = 0; prev_win_time = lit 0 1 }

  -- The counters after a packet.
  unfoldable pub count_pkt : ReduceOnLoss W → Bool → ReduceOnLoss W
  count_pkt r loss = record r {
    num_lost = if loss then r.num_lost + 1 else r.num_lost;
    num_pkts = r.num_pkts + 1;
  }

  -- The end of a window of two round-trip times: whether to reduce, and the state.
  unfoldable pub reduce_update : ReduceOnLoss W → Bool → W → W → Bool × ReduceOnLoss W
  reduce_update r loss cur_time rtt =
      let c : ReduceOnLoss W = count_pkt r loss in
      let rate : W = lit 1 1 ⊗ d.of_int (pos c.num_lost) ⊘ d.of_int (pos c.num_pkts) in
      if (c.prev_win_time ⊕ lit 2 1 ⊗ rtt <? cur_time) && ltb 20 c.num_pkts
      then (lit 3 10 <? rate, record { num_lost = 0; num_pkts = 0; prev_win_time = cur_time })
      else (false, c)

  unfoldable pub pop_oldest : IsUniformDistr W → List W → W → IsUniformDistr W
  pop_oldest u [] sum = record u { sum = sum }
  pop_oldest u (y ∷ ys) sum =
      if ltb u.window_len (length (y ∷ ys))
      then record u { window = ys; sum = sum ⊖ y }
      else record u { window = y ∷ ys; sum = sum }

  -- `sum` follows the values that enter and leave.
  unfoldable pub is_uniform_update : IsUniformDistr W → W → IsUniformDistr W
  is_uniform_update u x = pop_oldest u (u.window ++ (x ∷ [])) (u.sum ⊕ x)

  unfoldable pub is_uniform_reset : IsUniformDistr W → IsUniformDistr W
  is_uniform_reset u = record u { window = []; sum = lit 0 1 }

  pop_before : W → List (Timed W) → List (Timed W)
  pop_before limit [] = []
  pop_before limit (x ∷ xs) = if x.time <? limit then pop_before limit xs else x ∷ xs

  pub time_window_update : TimeWindow W → W → W → TimeWindow W
  time_window_update t x time = record t {
    window =
        pop_before (time ⊖ t.window_size)
          (t.window ++ (record { time = time; data_point = x } ∷ []));
  }

  min_of : W → List (Timed W) → W
  min_of res [] = res
  min_of res (x ∷ xs) = min_of (if x.data_point <? res then x.data_point else res) xs

  max_of : W → List (Timed W) → W
  max_of res [] = res
  max_of res (x ∷ xs) = max_of (if res <? x.data_point then x.data_point else res) xs

  -- An empty window gives 0.
  if_any : List (Timed W) → W → W → W
  if_any [] nothing found = nothing
  if_any (x ∷ xs) nothing found = found

  pub time_window_get_min : TimeWindow W → W
  time_window_get_min t = if_any t.window (lit 0 1) (min_of greatest t.window)

  pub time_window_get_max : TimeWindow W → W
  time_window_get_max t = if_any t.window (lit 0 1) (max_of d.least_positive t.window)
