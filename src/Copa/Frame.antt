-- ===== src/Copa/Frame.antt =====
-- What the operations of the controller leave alone: the numbers of packets, the packets that are not
-- acknowledged, the measurements and the time.
use copa_new.Prelude.{
  ℕ, ◌≡◌, refl, subst, ◌∙◌, List, Bool, true, false, not, ◌&&◌, ◌||◌, Option, none, some,
  if◌then◌else◌, ltb, ◌*◌, ◌-◌,
}
use copa_new.Double.{Double, ◌⊕◌, ◌<?◌, ◌≡?◌, lit, greatest}
use copa_new.RttWindow.{RttWindow, get_unjittered_rtt, get_latest_rtt}
use copa_new.Copa.{Copa, Unacked, is_auto, is_tcp_coop, num_probe_pkts}
use copa_new.Copa.Delta.{
  is_default, is_loss_sensitive, set_operation_mode, default_update, raise_delta, lower_delta,
  start_delta, cap_delta, loss_sensitive_update, choose_update, update_delta,
}
use copa_new.Copa.Pace.{
  start_up, move, new_round, limit_amount, approach, set_intersend, set_intersend?,
  update_intersend_time, target_window,
}
use copa_new.Copa.Ack.{note_arrival}

-- A property of both branches is one of the test.
pub if_elim {ℓ κ} :
    {A : Type ℓ} (P : A → Type κ) (b : Bool) {x y : A} → P x → P y → P (if b then x else y)
if_elim P true h k = h
if_elim P false h k = k

abbrev pub Books : Type 0 → Type 0
Books W = List (Unacked W) × ℕ × ℕ × ℕ × RttWindow W × W × W × Bool

module _ {W : Type 0} where
  -- The last one is the configuration's flag for a slow start.
  abbrev pub books : Copa W → Books W
  books c = (
    c.unacknowledged_packets, c.num_pkts_lost, c.num_pkts_acked, c.num_pkts_sent, c.rtt_window,
    c.cur_tick, c.min_rtt, c.do_slow_start,
  )

  -- The books and the window are those of another state.
  pub record IsKept (c c' : Copa W) : Type 0 where
    pub books_eq : books c' ≡ books c
    pub window_eq : c'.the_window ≡ c.the_window
    pub slow_start_eq : c'.slow_start ≡ c.slow_start

  IsKept-refl : (c : Copa W) → IsKept c c
  IsKept-refl c = record { books_eq = refl; window_eq = refl; slow_start_eq = refl }

  pub IsKept-trans : {a b c : Copa W} → IsKept a b → IsKept b c → IsKept a c
  IsKept-trans h k = record {
    books_eq = k.books_eq ∙ h.books_eq;
    window_eq = k.window_eq ∙ h.window_eq;
    slow_start_eq = k.slow_start_eq ∙ h.slow_start_eq;
  }

module _ {W : Type 0} ⦃d : Double W⦄ where
  set_operation_mode-IsKept : (c : Copa W) (lost : Bool) → IsKept c (set_operation_mode c lost)
  unfolding set_operation_mode
  set_operation_mode-IsKept c lost =
      if_elim (IsKept c) (is_auto c.utility_mode)
        (record { books_eq = refl; window_eq = refl; slow_start_eq = refl }) (IsKept-refl c)

  default_update-IsKept : (c : Copa W) (rtt : W) → IsKept c (default_update c rtt)
  unfolding default_update
  default_update-IsKept c rtt =
      if_elim (IsKept c)
        ((c.prev_delta_update_time ≡? lit 0 1)
          || (c.prev_delta_update_time_loss ⊕ rtt <? c.cur_tick))
        (record { books_eq = refl; window_eq = refl; slow_start_eq = refl }) (IsKept-refl c)

  start_delta-IsKept : (c : Copa W) → IsKept c (start_delta c)
  unfolding start_delta
  start_delta-IsKept c = record { books_eq = refl; window_eq = refl; slow_start_eq = refl }

  cap_delta-IsKept : (c : Copa W) → IsKept c (cap_delta c)
  unfolding cap_delta
  cap_delta-IsKept c = record { books_eq = refl; window_eq = refl; slow_start_eq = refl }

  raise_delta-IsKept : (c : Copa W) → IsKept c (raise_delta c)
  unfolding raise_delta
  raise_delta-IsKept c = record { books_eq = refl; window_eq = refl; slow_start_eq = refl }

  lower_delta-IsKept : (c : Copa W) (rtt : W) → IsKept c (lower_delta c rtt)
  unfolding lower_delta
  lower_delta-IsKept c rtt =
      if_elim (IsKept c) (c.prev_delta_update_time ⊕ rtt <? c.cur_tick)
        (record { books_eq = refl; window_eq = refl; slow_start_eq = refl }) (IsKept-refl c)

  loss_sensitive_update-IsKept :
      (c : Copa W) (lost : Bool) (rtt : W) → IsKept c (loss_sensitive_update c lost rtt)
  unfolding loss_sensitive_update
  loss_sensitive_update-IsKept c lost rtt =
      let s : Copa W = start_delta c in
      IsKept-trans (start_delta-IsKept c) (
        IsKept-trans
          (if_elim (IsKept s) (lost && (s.prev_delta_update_time_loss ⊕ rtt <? s.cur_tick))
            (raise_delta-IsKept s) (lower_delta-IsKept s rtt))
          (cap_delta-IsKept _))

  pub update_delta-IsKept :
      (c : Copa W) (lost : Bool) (rtt : W) → IsKept c (update_delta c lost rtt)
  unfolding update_delta choose_update
  update_delta-IsKept c lost rtt =
      let s : Copa W = set_operation_mode c lost in
      IsKept-trans (set_operation_mode-IsKept c lost) (
        if_elim (IsKept s) (is_default s.operation_mode && not (is_tcp_coop s.utility_mode))
          (default_update-IsKept s rtt)
          (if_elim (IsKept s) (is_tcp_coop s.utility_mode || is_loss_sensitive s.operation_mode)
            (loss_sensitive_update-IsKept s lost rtt) (IsKept-refl s)))

  pub note_arrival-IsKept : (c : Copa W) → IsKept c (note_arrival c)
  unfolding note_arrival
  note_arrival-IsKept c =
      if_elim (IsKept c) (c.prev_ack_time ≡? lit 0 1)
        (record { books_eq = refl; window_eq = refl; slow_start_eq = refl })
        (record { books_eq = refl; window_eq = refl; slow_start_eq = refl })

  new_round-IsKept : (c : Copa W) → IsKept c (new_round c)
  unfolding new_round
  new_round-IsKept c =
      if_elim (IsKept c) (c.last_update_time ⊕ get_latest_rtt c.rtt_window <? c.cur_tick)
        (record { books_eq = refl; window_eq = refl; slow_start_eq = refl }) (IsKept-refl c)

  limit_amount-IsKept : (c : Copa W) → IsKept c (limit_amount c)
  unfolding limit_amount
  limit_amount-IsKept c = record { books_eq = refl; window_eq = refl; slow_start_eq = refl }

module _ {ℓ κ} {A : Type ℓ} (P : A → Type κ) where
  -- A property of the result, if there is one.
  abbrev pub OnSome : Option A → Type κ
  OnSome none = Unit
  OnSome (some a) = P a

  pub OnSome-of : {o : Option A} (a : A) → OnSome o → o ≡ some a → P a
  OnSome-of a h e = subst OnSome e h

pub OnSome-map {ℓ κ μ} :
    {A : Type ℓ} (P : A → Type κ) (Q : A → Type μ)
    → ((a : A) → P a → Q a)
    → (o : Option A) → OnSome P o
    → OnSome Q o
OnSome-map P Q f none h = tt
OnSome-map P Q f (some a) h = f a h

pub OnSome-both {ℓ κ μ} :
    {A : Type ℓ} (P : A → Type κ) (Q : A → Type μ) (o : Option A)
    → OnSome P o
    → OnSome Q o
    → OnSome (λ a. P a × Q a) o
OnSome-both P Q none h k = tt
OnSome-both P Q (some a) h k = (h, k)

module _ {W : Type 0} ⦃d : Double W⦄ where
  -- The books alone.
  abbrev pub IsBooked : Copa W → Copa W → Type 0
  IsBooked c c' = books c' ≡ books c

  start_up-IsBooked : (c : Copa W) → OnSome (IsBooked c) (start_up c)
  unfolding start_up
  start_up-IsBooked c =
      if_elim (OnSome (IsBooked c)) (c.do_slow_start || (target_window c ≡? greatest)) refl tt

  approach-IsBooked : (c : Copa W) (target : W) → IsBooked c (approach c target)
  unfolding approach
  approach-IsBooked c target = if_elim (IsBooked c) (c.the_window <? target) refl refl

  pub set_intersend-IsBooked : (c : Copa W) (rtt : W) → IsBooked c (set_intersend c rtt)
  unfolding set_intersend
  set_intersend-IsBooked c rtt = refl

  move-IsBooked : (c : Copa W) → OnSome (IsBooked c) (move c)
  unfolding move
  move-IsBooked c = if_elim (OnSome (IsBooked c)) c.slow_start (start_up-IsBooked c) (
      approach-IsBooked (limit_amount (new_round c)) (target_window c)
      ∙ (limit_amount-IsKept (new_round c)).books_eq
      ∙ (new_round-IsKept c).books_eq)

  set_intersend?-IsBooked :
      (c : Copa W) (o : Option (Copa W)) (rtt : W)
      → OnSome (IsBooked c) o
      → OnSome (IsBooked c) (set_intersend? o rtt)
  unfolding set_intersend?
  set_intersend?-IsBooked c none rtt h = tt
  set_intersend?-IsBooked c (some a) rtt h = set_intersend-IsBooked a rtt ∙ h

  pub update_intersend_time-IsBooked : (c : Copa W) → OnSome (IsBooked c) (update_intersend_time c)
  unfolding update_intersend_time
  update_intersend_time-IsBooked c =
      if_elim (OnSome (IsBooked c)) (ltb c.num_pkts_acked (2 * num_probe_pkts - 1)) refl
        (set_intersend?-IsBooked c (move c) (get_unjittered_rtt c.rtt_window) (move-IsBooked c))
