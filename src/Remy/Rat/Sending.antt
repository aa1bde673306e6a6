-- ===== src/Remy/Rat/Sending.antt =====
-- When a sender with rules sends, and how large its window is.
use copa_new.Prelude.{
  ℕ, ◌+◌, ◌≤◌, ◌<◌, ◌≡◌, refl, ap, Bool, true, false, ◌&&◌, Option, none, some, if◌then◌else◌, ◌==◌,
  Bool-cases, inl, inr, arith,
}
use copa_new.Prelude.Int.{ℤ, pos, ◌+ℤ◌, leb_ℤ}
use copa_new.Double.{Double, IsOrdered, IsNum, ◌⊕◌, ◌≤?◌, greatest}
use copa_new.Copa.Frame.{if_elim, OnSome, OnSome-both}
use copa_new.Remy.{Memory}
use copa_new.Remy.Whisker.{Whisker, next_window}
use copa_new.Remy.Tree.{WhiskerTree, use_whisker}
use copa_new.Remy.Rat.{
  Rat, follow, with_memory, is_open, next_event_time, start_window, send_now, send,
}

module _ {W : Type 0} where
  -- What `send` returns, without the new state.
  abbrev pub answer : Option (Bool × Rat W) → Option Bool
  answer none = none
  answer (some x) = some x.0

module _ {W : Type 0} ⦃d : Double W⦄ ⦃o : IsOrdered W⦄ where
  -- A time that is a number below the greatest double.
  abbrev pub IsTime : W → Type 0
  IsTime t = IsNum t × ((greatest ≤? t) ≡ false)

  le_refl : (t : W) → IsNum t → (t ≤? t) ≡ true
  le_refl t h = o.le_of_not_lt t t h h (o.lt_irrefl t)

  soon : (t next : W) → IsNum t → ((if next ≤? t then t else next) ≤? t) ≡ (next ≤? t)
  soon t next h = elim (Bool-cases (next ≤? t)) [
    | inl e ↦ rw (e, le_refl t h) refl
    | inr e ↦ rw (e, e) refl
  ]

  -- For a sender whose window is set and that was acknowledged no packet it did not send, `send`
  -- fails no assertion and sends exactly if the time that `next_event_time` gives has come, where
  -- the clock is a number below the greatest double.
  pub send-next_event_time :
      (r : Rat W) (t : W)
      → IsTime t
      → 0 < r.the_window
      → leb_ℤ (r.largest_ack +ℤ pos 1) (pos r.packets_sent) ≡ true
      → answer (send r t) ≡ some (next_event_time r t ≤? t)
  unfolding next_event_time start_window send_now send
  send-next_event_time r t h set acked =
      let set' : (r.the_window == 0) ≡ false = ground (arith, set) in
      rw (acked, set')
        (elim (Bool-cases (is_open r)) [
          | inl e ↦
              rw (e, soon t (r.last_send_time ⊕ r.intersend_time) h.0)
                (elim (Bool-cases (r.last_send_time ⊕ r.intersend_time ≤? t)) [
                  | inl k ↦ rw k refl
                  | inr k ↦ rw k refl
                ])
          | inr e ↦ rw (e, h.1) refl
        ])

module _ {W : Type 0} ⦃d : Double W⦄ where
  -- The window of a rule, and the number of packets after one that was sent or not.
  abbrev pub IsWindowed : Rat W → Type 0
  IsWindowed r = r.the_window ≤ 1000000

  next_window-bound : (w : Whisker W) (previous : ℕ) → next_window w previous ≤ 1000000
  unfolding next_window
  next_window-bound w previous = ground arith

  pub follow-IsWindowed :
      (r : Rat W) (x : Option (Whisker W × WhiskerTree W)) → OnSome IsWindowed (follow r x)
  unfolding follow
  follow-IsWindowed r none = tt
  follow-IsWindowed r (some (w, t)) = next_window-bound w r.the_window

  with_memory-IsWindowed : (r : Rat W) (m : Option (Memory W)) → OnSome IsWindowed (with_memory r m)
  unfolding with_memory
  with_memory-IsWindowed r none = tt
  with_memory-IsWindowed r (some m) = follow-IsWindowed _ _

  -- The number of packets sent, the time of the last one and the acknowledgements.
  abbrev numbers : Rat W → ℕ × W × ℤ
  numbers r = (r.packets_sent, r.last_send_time, r.largest_ack)

  follow-numbers :
      (r : Rat W) (x : Option (Whisker W × WhiskerTree W))
      → OnSome (λ r'. numbers r' ≡ numbers r) (follow r x)
  unfolding follow
  follow-numbers r none = tt
  follow-numbers r (some (w, t)) = refl

  -- What a call of `send` did: one packet within the window at this time, or none.
  abbrev pub IsSent : Rat W → W → Bool × Rat W → Type 0
  IsSent r t (true, r') =
      (r'.packets_sent ≡ r.packets_sent + 1)
      × (r'.last_send_time ≡ t)
      × (r'.largest_ack ≡ r.largest_ack)
      × IsWindowed r'
      × (leb_ℤ (pos r'.packets_sent) (r'.largest_ack +ℤ pos 1 +ℤ pos r'.the_window) ≡ true)
  IsSent r t (false, r') =
      (r'.packets_sent ≡ r.packets_sent)
      × (r'.last_send_time ≡ r.last_send_time)
      × (r'.largest_ack ≡ r.largest_ack)
      × IsWindowed r'

  send_now-IsSent :
      (r : Rat W) (t : W) (x : Option (Rat W))
      → OnSome (λ r'. IsWindowed r' × (numbers r' ≡ numbers r)) x
      → OnSome (IsSent r t) (send_now t x)
  unfolding send_now
  send_now-IsSent r t none h = tt
  send_now-IsSent r t (some r') (w, e) =
      let sent : r'.packets_sent ≡ r.packets_sent = ap (λ x. x.0) e in
      let time : r'.last_send_time ≡ r.last_send_time = ap (λ x. x.1) e in
      let ack : r'.largest_ack ≡ r.largest_ack = ap (λ x. x.2) e in
      elim (Bool-cases (is_open r' && (r'.last_send_time ⊕ r'.intersend_time ≤? t))) [
        | inl k ↦ rw k (rw sent refl, refl, ack, w, ground (arith, k))
        | inr k ↦ rw k (sent, time, ack, w)
      ]

  start_window-kept :
      (r : Rat W)
      → IsWindowed r
      → OnSome (λ r'. IsWindowed r' × (numbers r' ≡ numbers r)) (start_window r)
  unfolding start_window
  start_window-kept r h =
      if_elim (OnSome (λ r'. IsWindowed r' × (numbers r' ≡ numbers r))) (r.the_window == 0)
        (OnSome-both _ _ _ (follow-IsWindowed r (use_whisker r.whiskers r.memory r.track))
          (follow-numbers r (use_whisker r.whiskers r.memory r.track)))
        (h, refl)

  -- From a window of at most 1000000 packets, `send` fails, or sends nothing and keeps the number of
  -- packets and the time, or counts one packet at the given time, with the number of packets
  -- within the window behind the largest acknowledged one; the window is again at most 1000000.
  pub send-IsSent : (r : Rat W) (t : W) → IsWindowed r → OnSome (IsSent r t) (send r t)
  unfolding send
  send-IsSent r t h =
      if_elim (OnSome (IsSent r t)) (leb_ℤ (r.largest_ack +ℤ pos 1) (pos r.packets_sent))
        (send_now-IsSent r t (start_window r) (start_window-kept r h)) tt
