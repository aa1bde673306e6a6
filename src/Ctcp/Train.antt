-- ===== src/Ctcp/Train.antt =====
-- The loop that sends: it ends, and behind a whole train.
use copa_new.Prelude.{
  ℕ, zero, suc, ◌+◌, ◌/◌, ◌%◌, ◌≤◌, ◌≡◌, refl, sym, ap, subst, ◌∙◌, Bool, true, false, ◌||◌, not,
  Option, some, ◌==◌, ltb, Bool-cases, inl, inr, arith,
}
use copa_new.Prelude.Int.{ℤ, pos, ◌+ℤ◌}
use copa_new.Double.{Double, ◌⊕◌, ◌⊗◌, ◌<?◌, lit}
use copa_new.Copa.Frame.{if_elim}
use copa_new.Ctcp.{Controller, Setup, Flow}
use copa_new.Ctcp.Send.{is_admitted, in_train, told, send_packet, send_loop}

pub or_not : (b c : Bool) → (b || not c) ≡ false → c ≡ true
or_not true c h = absurd (ground (arith, h))
or_not false true h = refl
or_not false false h = absurd (ground (arith, h))

-- A packet that is sent leaves the controller's window.
abbrev pub IsSteady : {C W : Type 0} → Controller C W → Type 0
IsSteady {C} {W} k =
    (c : C) (t : W) (n : ℤ) → k.window (k.on_pkt_sent (k.set_timestamp c t) n) ≡ k.window c

module _ {W : Type 0} ⦃d : Double W⦄ where
  abbrev pub IsLimited : ℕ → W → Type 0
  IsLimited bound x = (n : ℕ) → bound ≤ n → (d.of_int (pos n) <? x) ≡ false

module _ {C W : Type 0} ⦃d : Double W⦄ ⦃k : Controller C W⦄ where
  -- The numbers below which the window admits packets.
  abbrev pub limit : Flow C W → W
  limit f = d.of_int (f.largest_ack +ℤ pos 1) ⊕ lit 5 1 ⊗ k.window f.congctrl

  -- The loop left a train's end that is not behind `last`.
  abbrev pub Ends : Setup W → ℕ → Flow C W → Option (Flow C W) → Type 0
  Ends s last f o =
      (f' : Flow C W) × (o ≡ some f')
      × (f.seq_num ≤ f'.seq_num)
      × (f'.seq_num ≤ last)
      × (f'.seq_num % s.train_length ≡ 0)
      × (f'.largest_ack ≡ f.largest_ack)
      × (k.window f'.congctrl ≡ k.window f.congctrl)

  module _ (s : Setup W) (stamp : ℕ → ℕ) (last : ℕ) (whole : last % s.train_length ≡ 0)
      (steady : IsSteady k) where
    told-window : (f : Flow C W) → k.window (told s f) ≡ k.window f.congctrl
    unfolding told
    told-window f =
        if_elim (λ c. k.window c ≡ k.window f.congctrl) (f.seq_num % s.train_length == 0)
          (steady f.congctrl f.cur_time (pos (f.seq_num / s.train_length))) refl

    send_packet-limit : (f : Flow C W) → limit (send_packet s stamp f) ≡ limit f
    unfolding send_packet
    send_packet-limit f = ap (λ x. d.of_int (f.largest_ack +ℤ pos 1) ⊕ lit 5 1 ⊗ x) (told-window f)

    at_last :
        (f : Flow C W)
        → f.seq_num ≡ last
        → (d.of_int (pos f.seq_num) <? limit f) ≡ false
        → (is_admitted s f || in_train s f) ≡ false
    at_last f e h =
        let q : (f.seq_num % s.train_length == 0) ≡ true =
          ground (arith, ap (λ n. n % s.train_length) e ∙ whole) in
        rw (h, q) refl

    whole_train :
        (f : Flow C W) → (is_admitted s f || in_train s f) ≡ false → f.seq_num % s.train_length ≡ 0
    whole_train f e = ground (arith, or_not (is_admitted s f) (f.seq_num % s.train_length == 0) e)

    stop :
        (f : Flow C W)
        → f.seq_num ≤ last
        → (is_admitted s f || in_train s f) ≡ false
        → Ends s last f (some f)
    stop f le e = (f, refl, omega arith, le, ground (arith, whole_train f e), refl, refl)

    before_last :
        (f : Flow C W)
        → (is_admitted s f || in_train s f) ≡ true
        → IsLimited last (limit f)
        → f.seq_num ≤ last
        → f.seq_num + 1 ≤ last
    before_last f e lim le = elim (Bool-cases (ltb f.seq_num last)) [
      | inl b ↦ ground (arith, b)
      | inr b ↦
          let q : f.seq_num ≡ last = ground (arith, b, le) in
          let h = at_last f q (lim f.seq_num (omega (arith, q))) in
          absurd (ground (arith, sym e ∙ h))
    ]

    loop-Ends :
        (fuel : ℕ) (f : Flow C W)
        → IsLimited last (limit f)
        → f.seq_num ≤ last
        → last ≤ f.seq_num + fuel
        → Ends s last f (send_loop fuel s stamp f)
    unfolding send_loop send_packet
    loop-Ends zero f lim le enough =
        let e : f.seq_num ≡ last = omega (arith, le, enough) in
        let h = at_last f e (lim f.seq_num (omega (arith, e))) in rw h (stop f le h)
    loop-Ends (suc n) f lim le enough = elim (Bool-cases (is_admitted s f || in_train s f)) [
      | inl e ↦
          let g : Flow C W = send_packet s stamp f in
          let lim' : IsLimited last (limit g) =
            subst (IsLimited last) (sym (send_packet-limit f)) lim in
          let (f', q, lo, hi, z, ack, w) =
            loop-Ends n g lim' (before_last f e lim le) (omega (arith, enough)) in
          rw e (f', q, omega (arith, lo), hi, z, ack, w ∙ told-window f)
      | inr e ↦ rw e (stop f le e)
    ]

  -- If the window admits no number from `last` on, and a train ends at `last`, which is not behind the
  -- next number, then with fuel for the numbers up to `last` the loop ends, at the end of a train
  -- that is not behind `last`; the largest acknowledged number and the window are kept, for a
  -- controller whose window stays when a packet is sent.
  pub send_loop-Ends :
      (s : Setup W) (stamp : ℕ → ℕ) (last fuel : ℕ) (f : Flow C W)
      → IsSteady k
      → IsLimited last (limit f)
      → last % s.train_length ≡ 0
      → f.seq_num ≤ last
      → last ≤ f.seq_num + fuel
      → Ends s last f (send_loop fuel s stamp f)
  send_loop-Ends s stamp last fuel f steady lim whole le enough =
      loop-Ends s stamp last whole steady fuel f lim le enough
