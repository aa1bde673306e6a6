-- ===== src/Copa/Delta.antt =====
-- markoviancc.cc, lines 82-129: how the controller sets delta, the weight of the delay.
use copa_new.Prelude.{Bool, true, false, not, ◌&&◌, ◌||◌, if◌then◌else◌}
use copa_new.Double.{Double, ◌⊕◌, ◌⊗◌, ◌⊘◌, ◌<?◌, ◌≡?◌, lit, least}
use copa_new.RttWindow.{is_copa, get_unjittered_rtt}
use copa_new.Estimators.{is_uniform_update}
use copa_new.Copa.{Copa, OperationMode, default_mode, loss_sensitive_mode, is_auto, is_tcp_coop}

unfoldable pub is_default : OperationMode → Bool
is_default default_mode = true
is_default _ = false

unfoldable pub is_loss_sensitive : OperationMode → Bool
is_loss_sensitive loss_sensitive_mode = true
is_loss_sensitive _ = false

module _ {W : Type 0} ⦃d : Double W⦄ where
  -- The first block: the mode of operation, in automatic mode.
  unfoldable pub set_operation_mode : Copa W → Bool → Copa W
  set_operation_mode c pkt_lost =
      if is_auto c.utility_mode
      then record c {
        is_uniform =
            if pkt_lost
            then is_uniform_update c.is_uniform (get_unjittered_rtt c.rtt_window)
            else c.is_uniform;
        operation_mode = if is_copa c.rtt_window then default_mode else loss_sensitive_mode;
      }
      else c

  -- The branch of the default mode.
  unfoldable pub default_update : Copa W → W → Copa W
  default_update c cur_rtt =
      if (c.prev_delta_update_time ≡? lit 0 1)
        || (c.prev_delta_update_time_loss ⊕ cur_rtt <? c.cur_tick)
      then record c {
        delta =
            least (if c.delta <? c.default_delta then c.default_delta else c.delta) c.default_delta;
        prev_delta_update_time = c.cur_tick;
      }
      else c

  -- The branch of the mode that is sensitive to losses: delta doubles at a loss, and otherwise falls
  -- once in a round-trip time.
  unfoldable pub raise_delta : Copa W → Copa W
  raise_delta c = record c { delta = c.delta ⊗ lit 2 1; prev_delta_update_time_loss = c.cur_tick }

  unfoldable pub lower_delta : Copa W → W → Copa W
  lower_delta c cur_rtt =
      if c.prev_delta_update_time ⊕ cur_rtt <? c.cur_tick
      then record c {
        delta = lit 1 1 ⊘ (lit 1 1 ⊘ c.delta ⊕ lit 1 1);
        prev_delta_update_time = c.cur_tick;
      }
      else c

  unfoldable pub start_delta : Copa W → Copa W
  start_delta c = record c {
    delta = if c.prev_delta_update_time ≡? lit 0 1 then c.default_delta else c.delta;
  }

  unfoldable pub cap_delta : Copa W → Copa W
  cap_delta c = record c { delta = least c.delta c.default_delta }

  unfoldable pub loss_sensitive_update : Copa W → Bool → W → Copa W
  loss_sensitive_update c pkt_lost cur_rtt =
      let s : Copa W = start_delta c in
      cap_delta (
        if pkt_lost && (s.prev_delta_update_time_loss ⊕ cur_rtt <? s.cur_tick)
        then raise_delta s
        else lower_delta s cur_rtt)

  unfoldable pub choose_update : Copa W → Bool → W → Copa W
  choose_update c pkt_lost cur_rtt =
      if is_default c.operation_mode && not (is_tcp_coop c.utility_mode)
      then default_update c cur_rtt
      else if is_tcp_coop c.utility_mode || is_loss_sensitive c.operation_mode
      then loss_sensitive_update c pkt_lost cur_rtt
      else c

  unfoldable pub update_delta : Copa W → Bool → W → Copa W
  update_delta c pkt_lost cur_rtt = choose_update (set_operation_mode c pkt_lost) pkt_lost cur_rtt
