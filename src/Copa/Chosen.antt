-- ===== src/Copa/Chosen.antt =====
-- Which update of delta the mode of operation chooses, and what the choice does not depend on.
use copa_new.Prelude.{
  ◌≡◌, refl, sym, ap, ◌∙◌, Bool, true, false, not, ◌||◌, ◌&&◌, if◌then◌else◌, arith,
}
use copa_new.Double.{Double, ◌⊕◌, ◌<?◌, ◌≡?◌, lit}
use copa_new.Copa.{Copa, is_auto, is_tcp_coop}
use copa_new.Copa.Delta.{
  is_default, is_loss_sensitive, set_operation_mode, default_update, raise_delta, lower_delta,
  start_delta, cap_delta, loss_sensitive_update, choose_update,
}
use copa_new.Copa.Frame.{if_elim}

pub if_true {ℓ} : {A : Type ℓ} (b : Bool) (x y : A) → b ≡ true → (if b then x else y) ≡ x
if_true true x y h = refl
if_true false x y h = absurd (ground (arith, h))

pub if_false {ℓ} : {A : Type ℓ} (b : Bool) (x y : A) → b ≡ false → (if b then x else y) ≡ y
if_false true x y h = absurd (ground (arith, h))
if_false false x y h = refl

map_if {ℓ κ} :
    {A : Type ℓ} {B : Type κ} (f : A → B) (b : Bool) (x y : A)
    → f (if b then x else y) ≡ (if b then f x else f y)
map_if f true x y = refl
map_if f false x y = refl

module _ {W : Type 0} ⦃d : Double W⦄ where
  start_delta-first :
      (c : Copa W) (x : W)
      → (c.prev_delta_update_time ≡? lit 0 1) ≡ true
      → start_delta (record c { delta = x }) ≡ start_delta c
  unfolding start_delta
  start_delta-first c x first =
      ap (λ b. record c { delta = if b then c.default_delta else x }) first
      ∙ sym (ap (λ b. record c { delta = if b then c.default_delta else c.delta }) first)

  pub loss_sensitive_update-first :
      (c : Copa W) (x : W) (lost : Bool) (rtt : W)
      → (c.prev_delta_update_time ≡? lit 0 1) ≡ true
      → loss_sensitive_update (record c { delta = x }) lost rtt ≡ loss_sensitive_update c lost rtt
  unfolding loss_sensitive_update
  loss_sensitive_update-first c x lost rtt first =
      ap
        (λ (s : Copa W). cap_delta (
          if lost && (s.prev_delta_update_time_loss ⊕ rtt <? s.cur_tick)
          then raise_delta s
          else lower_delta s rtt))
        (start_delta-first c x first)

  pub set_operation_mode-delta :
      (c : Copa W) (x : W) (lost : Bool)
      → set_operation_mode (record c { delta = x }) lost
        ≡ record (set_operation_mode c lost) { delta = x }
  unfolding set_operation_mode
  set_operation_mode-delta c x lost =
      sym (map_if (λ (m : Copa W). record m { delta = x }) (is_auto c.utility_mode) _ _)

  -- What setting the mode of operation leaves alone.
  pub set_operation_mode-kept :
      (c : Copa W) (lost : Bool)
      → let m = set_operation_mode c lost in
        (m.default_delta ≡ c.default_delta)
        × (m.delta ≡ c.delta)
        × (m.prev_delta_update_time ≡ c.prev_delta_update_time)
  unfolding set_operation_mode
  set_operation_mode-kept c lost =
      if_elim {A = Copa W}
        (λ m.
          (m.default_delta ≡ c.default_delta)
          × (m.delta ≡ c.delta)
          × (m.prev_delta_update_time ≡ c.prev_delta_update_time))
        (is_auto c.utility_mode) (refl, refl, refl) (refl, refl, refl)

  pub choose_plain :
      (m : Copa W) (lost : Bool) (rtt : W)
      → (is_default m.operation_mode && not (is_tcp_coop m.utility_mode)) ≡ true
      → choose_update m lost rtt ≡ default_update m rtt
  unfolding choose_update
  choose_plain m lost rtt plain = if_true _ _ _ plain

  pub choose_careful :
      (m : Copa W) (lost : Bool) (rtt : W)
      → (is_default m.operation_mode && not (is_tcp_coop m.utility_mode)) ≡ false
      → (is_tcp_coop m.utility_mode || is_loss_sensitive m.operation_mode) ≡ true
      → choose_update m lost rtt ≡ loss_sensitive_update m lost rtt
  unfolding choose_update
  choose_careful m lost rtt plain careful = if_false _ _ _ plain ∙ if_true _ _ _ careful

  pub choose_neither :
      (m : Copa W) (lost : Bool) (rtt : W)
      → (is_default m.operation_mode && not (is_tcp_coop m.utility_mode)) ≡ false
      → (is_tcp_coop m.utility_mode || is_loss_sensitive m.operation_mode) ≡ false
      → choose_update m lost rtt ≡ m
  unfolding choose_update
  choose_neither m lost rtt plain careful = if_false _ _ _ plain ∙ if_false _ _ _ careful
