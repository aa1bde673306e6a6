-- ===== src/Copa/Cap.antt =====
-- What delta can be after `update_delta`.
use copa_new.Prelude.{
  ◌≡◌, refl, sym, ap, ap₂, subst, ◌∙◌, ◌⊎◌, Bool, true, false, not, ◌||◌, ◌&&◌, if◌then◌else◌,
  Bool-cases, inl, inr,
}
use copa_new.Double.{Double, IsOrdered, ◌⊕◌, ◌<?◌, ◌≡?◌, lit, least}
use copa_new.Copa.{Copa, is_auto, is_tcp_coop}
use copa_new.Copa.Delta.{
  is_default, is_loss_sensitive, set_operation_mode, default_update, raise_delta, lower_delta,
  start_delta, cap_delta, loss_sensitive_update, choose_update, update_delta,
}
use copa_new.Copa.Frame.{if_elim}
use copa_new.Copa.Chosen.{
  if_true, loss_sensitive_update-first, set_operation_mode-delta, set_operation_mode-kept,
  choose_plain, choose_careful, choose_neither,
}

module _ {W : Type 0} ⦃d : Double W⦄ where
  abbrev HasDefault : Copa W → Copa W → Type 0
  HasDefault c m = m.default_delta ≡ c.default_delta

  start_delta-default : (c : Copa W) → HasDefault c (start_delta c)
  unfolding start_delta
  start_delta-default c = refl

  change-default :
      (c : Copa W) (lost : Bool) (rtt : W)
      → HasDefault c (
          if lost && (c.prev_delta_update_time_loss ⊕ rtt <? c.cur_tick)
          then raise_delta c
          else lower_delta c rtt)
  unfolding raise_delta lower_delta
  change-default c lost rtt =
      if_elim (HasDefault c) (lost && (c.prev_delta_update_time_loss ⊕ rtt <? c.cur_tick)) refl
        (if_elim (HasDefault c) (c.prev_delta_update_time ⊕ rtt <? c.cur_tick) refl refl)

  -- What the first update does in the mode of operation of `m`, which is `c` with its mode set, where
  -- `x` is any other value in place of the old delta.
  pub IsFirst : Copa W → W → Bool → W → Type 0
  IsFirst c x lost rtt =
      let m = set_operation_mode c lost in
      let delta = (update_delta c lost rtt).delta in
      let is_plain = is_default m.operation_mode && not (is_tcp_coop m.utility_mode) in
      let is_careful = is_tcp_coop m.utility_mode || is_loss_sensitive m.operation_mode in
      ((is_plain ≡ true)
        × ((delta <? c.default_delta) ≡ false)
        × ((c.default_delta <? delta) ≡ false))
      ⊎ ((is_plain ≡ false)
          × (is_careful ≡ true)
          × ((c.default_delta <? delta) ≡ false)
          × ((update_delta (record c { delta = x }) lost rtt).delta ≡ delta))
      ⊎ ((is_plain ≡ false) × (is_careful ≡ false) × (delta ≡ c.delta))

module _ {W : Type 0} ⦃d : Double W⦄ (o : IsOrdered W) where
  least_not_over : (a b : W) → (b <? least a b) ≡ false
  unfolding least
  least_not_over a b = elim (Bool-cases (b <? a)) [ inl e ↦ rw e (o.lt_irrefl b) | inr e ↦ rw e e ]

  -- Delta is not above the default, or it is the old one.
  abbrev IsCapped : W → W → Copa W → Type 0
  IsCapped top old m = ((top <? m.delta) ≡ false) ⊎ (m.delta ≡ old)

  default_update-IsCapped :
      (c : Copa W) (rtt : W) → IsCapped c.default_delta c.delta (default_update c rtt)
  unfolding default_update
  default_update-IsCapped c rtt =
      if_elim (IsCapped c.default_delta c.delta)
        ((c.prev_delta_update_time ≡? lit 0 1)
          || (c.prev_delta_update_time_loss ⊕ rtt <? c.cur_tick))
        (inl (
          least_not_over (if c.delta <? c.default_delta then c.default_delta else c.delta)
            c.default_delta))
        (inr refl)

  cap_delta-not_over : (c : Copa W) → (c.default_delta <? (cap_delta c).delta) ≡ false
  unfolding cap_delta
  cap_delta-not_over c = least_not_over c.delta c.default_delta

  loss_sensitive_update-not_over :
      (c : Copa W) (lost : Bool) (rtt : W)
      → (c.default_delta <? (loss_sensitive_update c lost rtt).delta) ≡ false
  unfolding loss_sensitive_update
  loss_sensitive_update-not_over c lost rtt =
      let s : Copa W = start_delta c in
      let m : Copa W =
        if lost && (s.prev_delta_update_time_loss ⊕ rtt <? s.cur_tick)
        then raise_delta s
        else lower_delta s rtt in
      subst (λ top. (top <? (cap_delta m).delta) ≡ false)
        (change-default s lost rtt ∙ start_delta-default c) (cap_delta-not_over m)

  choose_update-IsCapped :
      (c : Copa W) (lost : Bool) (rtt : W)
      → IsCapped c.default_delta c.delta (choose_update c lost rtt)
  unfolding choose_update
  choose_update-IsCapped c lost rtt =
      if_elim (IsCapped c.default_delta c.delta)
        (is_default c.operation_mode && not (is_tcp_coop c.utility_mode))
        (default_update-IsCapped c rtt)
        (if_elim (IsCapped c.default_delta c.delta)
          (is_tcp_coop c.utility_mode || is_loss_sensitive c.operation_mode)
          (inl (loss_sensitive_update-not_over c lost rtt)) (inr refl))

  -- In every mode: after an update, delta is not above its default, or it is what it was.
  pub update_delta-IsCapped :
      (c : Copa W) (lost : Bool) (rtt : W)
      → ((c.default_delta <? (update_delta c lost rtt).delta) ≡ false)
        ⊎ ((update_delta c lost rtt).delta ≡ c.delta)
  unfolding update_delta set_operation_mode
  update_delta-IsCapped c lost rtt =
      let s : Copa W = set_operation_mode c lost in
      let kept : (s.default_delta ≡ c.default_delta) × (s.delta ≡ c.delta) =
        if_elim {A = Copa W} (λ m. (m.default_delta ≡ c.default_delta) × (m.delta ≡ c.delta))
          (is_auto c.utility_mode) (refl, refl) (refl, refl) in
      elim (choose_update-IsCapped s lost rtt) [
        | inl h ↦ inl (subst (λ top. (top <? (choose_update s lost rtt).delta) ≡ false) kept.0 h)
        | inr h ↦ inr (h ∙ kept.1)
      ]

  -- The value of the first update.
  settled : (x top : W) → W
  settled x top = least (if x <? top then top else x) top

  settled-eq : (x top : W) → ((settled x top <? top) ≡ false) × ((top <? settled x top) ≡ false)
  unfolding settled least
  settled-eq x top = elim (Bool-cases (x <? top)) [
    | inl lt ↦ rw (lt, o.lt_irrefl top) (o.lt_irrefl top, o.lt_irrefl top)
    | inr ge ↦ elim (Bool-cases (top <? x)) [
      | inl gt ↦ rw (ge, gt) (o.lt_irrefl top, o.lt_irrefl top)
      | inr eq ↦ rw (ge, eq) (ge, eq)
    ]
  ]

  default_update-first :
      (c : Copa W) (rtt : W)
      → (c.prev_delta_update_time ≡? lit 0 1) ≡ true
      → (default_update c rtt).delta ≡ settled c.delta c.default_delta
  unfolding default_update settled
  default_update-first c rtt first =
      ap (λ (m : Copa W). m.delta)
        (if_true
          ((c.prev_delta_update_time ≡? lit 0 1)
            || (c.prev_delta_update_time_loss ⊕ rtt <? c.cur_tick))
          _ _ (ap (λ b. b || (c.prev_delta_update_time_loss ⊕ rtt <? c.cur_tick)) first))

  -- The first update, where the time of the last one is still 0, in every mode. In the default mode of operation without a cooperating TCP,
  -- delta is then neither below nor above its default, whatever it was configured to be. With a
  -- cooperating TCP or in the mode that is sensitive to losses, it is not above its default and is
  -- the same for every other value `x` that it could have been configured to be. In the mode that
  -- is left, delta stays. The mode of operation is the one that this update has set.
  pub update_delta-IsFirst :
      (c : Copa W) (x : W) (lost : Bool) (rtt : W)
      → (c.prev_delta_update_time ≡? lit 0 1) ≡ true
      → IsFirst c x lost rtt
  unfolding IsFirst update_delta
  update_delta-IsFirst c x lost rtt first =
      let m = set_operation_mode c lost in
      let (top, delta, time) = set_operation_mode-kept c lost in
      let first' : (m.prev_delta_update_time ≡? lit 0 1) ≡ true =
        ap (λ t. t ≡? lit 0 1) time ∙ first in
      elim (Bool-cases (is_default m.operation_mode && not (is_tcp_coop m.utility_mode))) [
        | inl plain ↦
            let value : (choose_update m lost rtt).delta ≡ settled c.delta c.default_delta =
              ap (λ (r : Copa W). r.delta) (choose_plain m lost rtt plain)
              ∙ default_update-first m rtt first'
              ∙ ap₂ settled delta top in
            let (below, above) = settled-eq c.delta c.default_delta in
            inl (
              plain,
              subst (λ v. (v <? c.default_delta) ≡ false) (sym value) below,
              subst (λ v. (c.default_delta <? v) ≡ false) (sym value) above,
            )
        | inr plain ↦
            elim (Bool-cases (is_tcp_coop m.utility_mode || is_loss_sensitive m.operation_mode)) [
              | inl careful ↦
                  let chosen = choose_careful m lost rtt plain careful in
                  let chosen' = choose_careful (record m { delta = x }) lost rtt plain careful in
                  inr (
                    inl (
                      plain,
                      careful,
                      subst (λ r. (c.default_delta <? r.delta) ≡ false) (sym chosen)
                          (subst (λ t. (t <? (loss_sensitive_update m lost rtt).delta) ≡ false) top
                            (loss_sensitive_update-not_over m lost rtt)),
                      ap (λ (r : Copa W). r.delta)
                          (ap (λ n. choose_update n lost rtt) (set_operation_mode-delta c x lost)
                            ∙ chosen'
                            ∙ loss_sensitive_update-first m x lost rtt first'
                            ∙ sym chosen),
                    ))
              | inr careful ↦ inr (
                  inr (
                    plain,
                    careful,
                    ap (λ (r : Copa W). r.delta) (choose_neither m lost rtt plain careful) ∙ delta,
                  ))
            ]
      ]
