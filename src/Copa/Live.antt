-- ===== src/Copa/Live.antt =====
-- A run with a slow start goes through.
use copa_new.Prelude.{
  ◌+◌, ◌≡◌, refl, sym, ap, ap₂, subst, ◌∙◌, List, [], ◌∷◌, ◌++◌, append_assoc, Bool, true, false,
  not, ◌||◌, some, Option-cases, inl, inr, arith, length, All,
}
use copa_new.Prelude.Int.{ℤ, negsuc, ◌<ℤ◌}
use copa_new.Double.{Double, IsOrdered, ◌<?◌, ◌≤?◌}
use copa_new.RttWindow.{Sample, RttWindow, clear, new_rtt_sample, get_min_rtt, get_unjittered_rtt}
use copa_new.RttWindow.Jitter.{
  new_rtt_samples, new_rtt_samples-append, new_rtt_samples-nil, IsRun, IsRun-front,
  min_rtt-le-unjittered_rtt,
}
use copa_new.Copa.{Copa, init, set_timestamp}
use copa_new.Copa.Ack.{on_ack, on_pkt_sent, curr_rtt, add_sample, measured}
use copa_new.Copa.Loss.{IsAbove}
use copa_new.Copa.Acked.{measured-tally, on_ack-tally}
use copa_new.Copa.Abort.{is_none, is_stuck-slow_start, on_ack-is_none}
use copa_new.Copa.Reach.{IsSound, acked-IsSound, sent-IsSound, init-IsSound, on_pkt_sent-standing}
use copa_new.Copa.Session.{
  Event, ack_event, send_event, and_then, handle, run, samples, num_sends, IsTimely, Starts,
}

module _ {W : Type 0} ⦃d : Double W⦄ where
  measured-slow_start : (c : Copa W) (rtt : W) → (measured c rtt).do_slow_start ≡ c.do_slow_start
  unfolding add_sample
  measured-slow_start c rtt = ap (λ t. t.5) (measured-tally c rtt)

  ack-goes :
      (c : Copa W) (ack : ℤ) (sent_time : W) (adjust_us : ℤ)
      → IsAbove (negsuc 0) c.unacknowledged_packets
      → c.do_slow_start ≡ true
      → (sent_time <? c.cur_tick) ≡ true
      → let r = new_rtt_sample c.rtt_window (curr_rtt c sent_time adjust_us) c.cur_tick in
        (get_min_rtt r ≤? get_unjittered_rtt r) ≡ true
        → (c' : Copa W) × (on_ack c ack sent_time adjust_us ≡ some c')
  unfolding add_sample
  ack-goes c ack sent_time adjust_us h slow before least =
      let rtt : W = curr_rtt c sent_time adjust_us in
      let goes : is_none (on_ack c ack sent_time adjust_us) ≡ false =
        on_ack-is_none c ack sent_time adjust_us h
        ∙ ap₂ ◌||◌ (ap₂ ◌||◌ (ap not before) (ap not least))
            (is_stuck-slow_start (measured c rtt) (measured-slow_start c rtt ∙ slow)) in
      elim (Option-cases (on_ack c ack sent_time adjust_us)) [
        | inl e ↦ let f : true ≡ false = sym (ap is_none e) ∙ goes in absurd (ground arith)
        | inr (c', e) ↦ (c', e)
      ]

module _ {W : Type 0} ⦃d : Double W⦄ (o : IsOrdered W) where
  -- The assertion on the windows, after one more sample.
  asserted :
      (r : RttWindow W) (xs : List (Sample W)) (s : Sample W)
      → r.min_rtt.find_min ≡ true
      → r.unjittered_rtt.find_min ≡ true
      → IsRun o (xs ++ (s ∷ []))
      → Starts (xs ++ (s ∷ []))
      → let r' = new_rtt_samples o (clear r) (xs ++ (s ∷ [])) in
        (get_min_rtt r' ≤? get_unjittered_rtt r') ≡ true
  unfolding Starts
  asserted r [] s lm um run start = min_rtt-le-unjittered_rtt o r s [] lm um run start
  asserted r (x ∷ xs) s lm um run start =
      min_rtt-le-unjittered_rtt o r x (xs ++ (s ∷ [])) lm um run start

  Starts-front :
      (xs ys : List (Sample W)) (s : Sample W) → Starts (xs ++ (s ∷ ys)) → Starts (xs ++ (s ∷ []))
  unfolding Starts
  Starts-front [] ys s h = h
  Starts-front (x ∷ xs) ys s h = h

  -- What a run has done.
  pub record IsServed (c : Copa W) (es : List (Event W)) (c' : Copa W) : Type 0 where
    pub sound : IsSound c'
    pub acked_eq : c'.num_pkts_acked ≡ c.num_pkts_acked + length (samples es)
    pub sent_eq : c'.num_pkts_sent ≡ c.num_pkts_sent + num_sends es

  -- The state of a run: its windows hold the samples so far.
  record IsReady (c : Copa W) (r : RttWindow W) (xs : List (Sample W)) : Type 0 where
    sound : IsSound c
    slow : c.do_slow_start ≡ true
    windows : c.rtt_window ≡ new_rtt_samples o (clear r) xs

  tick-IsSound : (c : Copa W) (t : W) → IsSound c → IsSound (set_timestamp c t)
  tick-IsSound c t h = record { full = h.full; ordered = h.ordered; counted = h.counted }

  ack-IsReady :
      (c c' : Copa W) (r : RttWindow W) (xs : List (Sample W)) (now : W) (ack : ℤ) (sent_time : W)
      (adjust_us : ℤ)
      → IsReady c r xs
      → on_ack (set_timestamp c now) ack sent_time adjust_us ≡ some c'
      → IsReady c' r (
          xs
          ++ (record { time = now; val = curr_rtt (set_timestamp c now) sent_time adjust_us } ∷ []))
  ack-IsReady c c' r xs now ack sent_time adjust_us h e =
      let t = on_ack-tally (set_timestamp c now) c' ack sent_time adjust_us h.sound.ordered e in
      let n : Sample W = record {
        time = now;
        val = curr_rtt (set_timestamp c now) sent_time adjust_us;
      } in
      record {
        sound =
            acked-IsSound o (set_timestamp c now) c' ack sent_time adjust_us e
              (tick-IsSound c now h.sound);
        slow = ap (λ t. t.5) t ∙ h.slow;
        windows =
            ap (λ t. t.4) t
            ∙ ap (λ w. new_rtt_sample w n.val now) h.windows
            ∙ sym (new_rtt_samples-append o (clear r) xs n);
      }

  send-IsReady :
      (late : Bool) (c : Copa W) (r : RttWindow W) (xs : List (Sample W)) (now : W) (seq : ℤ)
      → IsReady c r xs
      → negsuc 0 <ℤ seq
      → IsReady (on_pkt_sent late (set_timestamp c now) seq) r xs
  send-IsReady late c r xs now seq h b =
      let t = on_pkt_sent-standing late (set_timestamp c now) seq in
      record {
        sound = sent-IsSound o late (set_timestamp c now) seq b (tick-IsSound c now h.sound);
        slow = ap (λ t. t.6) t ∙ h.slow;
        windows = ap (λ t. t.5) t ∙ h.windows;
      }

  run-IsServed :
      (late : Bool) (es : List (Event W)) (c : Copa W) (r : RttWindow W) (xs : List (Sample W))
      → IsReady c r xs
      → r.min_rtt.find_min ≡ true
      → r.unjittered_rtt.find_min ≡ true
      → All IsTimely es
      → IsRun o (xs ++ samples es)
      → Starts (xs ++ samples es)
      → (c' : Copa W) × (run late c es ≡ some c') × IsServed c es c'
  unfolding run samples num_sends IsTimely handle and_then curr_rtt
  run-IsServed late [] c r xs h lm um t ss start =
      (c, refl, record { sound = h.sound; acked_eq = omega arith; sent_eq = omega arith })
  run-IsServed late (ack_event now ack sent_time adjust_us ∷ es) c r xs h lm um t ss start =
      let n : Sample W = record {
        time = now;
        val = curr_rtt (set_timestamp c now) sent_time adjust_us;
      } in
      let shift : (xs ++ (n ∷ [])) ++ samples es ≡ xs ++ (n ∷ samples es) =
        append_assoc xs (n ∷ []) (samples es) in
      let all : IsRun o ((xs ++ (n ∷ [])) ++ samples es) = subst (IsRun o) (sym shift) ss in
      let least : (get_min_rtt (new_rtt_sample c.rtt_window n.val now)
            ≤? get_unjittered_rtt (new_rtt_sample c.rtt_window n.val now))
          ≡ true =
        subst (λ w. (get_min_rtt w ≤? get_unjittered_rtt w) ≡ true)
          (new_rtt_samples-append o (clear r) xs n
            ∙ ap (λ w. new_rtt_sample w n.val now) (sym h.windows))
          (asserted r xs n lm um (IsRun-front o (xs ++ (n ∷ [])) (samples es) all)
            (Starts-front xs (samples es) n start)) in
      let (m, e) =
        ack-goes (set_timestamp c now) ack sent_time adjust_us h.sound.ordered h.slow t.0 least in
      let tally_m =
        on_ack-tally (set_timestamp c now) m ack sent_time adjust_us h.sound.ordered e in
      let acked : m.num_pkts_acked ≡ c.num_pkts_acked + 1 = ap (λ t. t.2) tally_m in
      let sent : m.num_pkts_sent ≡ c.num_pkts_sent = ap (λ t. t.3) tally_m in
      let (c', e', k) =
        run-IsServed late es m r (xs ++ (n ∷ []))
          (ack-IsReady c m r xs now ack sent_time adjust_us h e) lm um t.1 all
          (subst Starts (sym shift) start) in
      (
        c',
        rw (e, e'),
        record {
          sound = k.sound;
          acked_eq = omega (arith, k.acked_eq, acked);
          sent_eq = omega (arith, k.sent_eq, sent);
        },
      )
  run-IsServed late (send_event now seq ∷ es) c r xs h lm um t ss start =
      let m : Copa W = on_pkt_sent late (set_timestamp c now) seq in
      let standing_m = on_pkt_sent-standing late (set_timestamp c now) seq in
      let acked : m.num_pkts_acked ≡ c.num_pkts_acked = ap (λ t. t.4) standing_m in
      let sent : m.num_pkts_sent ≡ c.num_pkts_sent + 1 = ap (λ t. t.2) standing_m in
      let (c', e', k) =
        run-IsServed late es m r xs (send-IsReady late c r xs now seq h t.0) lm um t.1 ss start in
      (
        c',
        e',
        record {
          sound = k.sound;
          acked_eq = omega (arith, k.acked_eq, acked);
          sent_eq = omega (arith, k.sent_eq, sent);
        },
      )

  -- With a slow start asked for, and windows that look for the least times, a run from a reset goes
  -- through: no assertion fails, every event is counted, and the state is sound. The packets have
  -- numbers that are not negative, each acknowledgement comes after its packet, the adjusted
  -- round-trip times are numbers at finite times in their order, and the first of them is below the
  -- greatest double.
  pub init-run :
      (late : Bool) (c : Copa W) (es : List (Event W))
      → c.do_slow_start ≡ true
      → c.rtt_window.min_rtt.find_min ≡ true
      → c.rtt_window.unjittered_rtt.find_min ≡ true
      → All IsTimely es
      → IsRun o (samples es)
      → Starts (samples es)
      → (c' : Copa W) × (run late (init c) es ≡ some c')
        × IsSound c'
        × (c'.num_pkts_acked ≡ length (samples es))
        × (c'.num_pkts_sent ≡ num_sends es)
  unfolding init
  init-run late c es slow lm um t ss start =
      let ready : IsReady (init c) c.rtt_window [] = record {
        sound = init-IsSound o c;
        slow = slow;
        windows = sym (new_rtt_samples-nil o (clear c.rtt_window));
      } in
      let (c', e, k) = run-IsServed late es (init c) c.rtt_window [] ready lm um t ss start in
      (c', e, k.sound, omega (arith, k.acked_eq), omega (arith, k.sent_eq))
