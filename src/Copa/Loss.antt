-- ===== src/Copa/Loss.antt =====
-- The loop of `onACK` over the packets that are not acknowledged: what it removes and what it counts
-- as lost.
use copa_new.Prelude.{
  ℕ, ◌+◌, ◌≤◌, ◌≡◌, refl, sym, ◌∙◌, List, [], ◌∷◌, Bool, true, false, some, if◌then◌else◌,
  Bool-cases, inl, inr, arith, length,
}
use copa_new.Prelude.Int.{ℤ, ◌<ℤ◌, ◌≤ℤ◌, ltb_ℤ, leb_ℤ, ltb_ℤ→lt}
use copa_new.Double.{Double}
use copa_new.RttWindow.{RttWindow}
use copa_new.Copa.{Copa, Unacked}
use copa_new.Copa.Frame.{if_elim}
use copa_new.Copa.Ack.{Scan, take_entry, note_loss, note_packet, leave_entries, scan}

module _ {W : Type 0} where
  -- The entries have numbers above the bound, in their order.
  unfoldable pub IsAbove : ℤ → List (Unacked W) → Type 0
  IsAbove b [] = Unit
  IsAbove b (x ∷ xs) = (b <ℤ x.seq) × IsAbove x.seq xs

  unfoldable pub later : ℤ → List (Unacked W) → List (Unacked W)
  later seq [] = []
  later seq (x ∷ xs) = if ltb_ℤ seq x.seq then x ∷ later seq xs else later seq xs

  unfoldable pub num_below : ℤ → List (Unacked W) → ℕ
  num_below seq [] = 0
  num_below seq (x ∷ xs) = (if ltb_ℤ x.seq seq then 1 else 0) + num_below seq xs

  pub later-none : (seq b : ℤ) (xs : List (Unacked W)) → seq ≤ℤ b → IsAbove b xs → later seq xs ≡ xs
  unfolding later IsAbove
  later-none seq b [] h k = refl
  later-none seq b (x ∷ xs) h k =
      let t : ltb_ℤ seq x.seq ≡ true = ground (arith, k.0) in
      rw (t, later-none seq x.seq xs (omega (arith, k.0)) k.1)

  pub num_below-none :
      (seq b : ℤ) (xs : List (Unacked W)) → seq ≤ℤ b → IsAbove b xs → num_below seq xs ≡ 0
  unfolding num_below IsAbove
  num_below-none seq b [] h k = refl
  num_below-none seq b (x ∷ xs) h k =
      let t : ltb_ℤ x.seq seq ≡ false = ground (arith, k.0) in
      rw (t, num_below-none seq x.seq xs (omega (arith, k.0)) k.1)

  pub IsAbove-weaken : (a b : ℤ) (xs : List (Unacked W)) → a ≤ℤ b → IsAbove b xs → IsAbove a xs
  unfolding IsAbove
  IsAbove-weaken a b [] h k = tt
  IsAbove-weaken a b (x ∷ xs) h k = (omega (arith, k.0), k.1)

  pub later-IsAbove : (seq b : ℤ) (xs : List (Unacked W)) → IsAbove b xs → IsAbove b (later seq xs)
  unfolding later IsAbove
  later-IsAbove seq b [] h = tt
  later-IsAbove seq b (x ∷ xs) h =
      if_elim (IsAbove b) (ltb_ℤ seq x.seq) (h.0, later-IsAbove seq x.seq xs h.1)
        (later-IsAbove seq b xs (IsAbove-weaken b x.seq xs (omega (arith, h.0)) h.1))

  pub length-later :
      (seq : ℤ) (xs : List (Unacked W)) → num_below seq xs + length (later seq xs) ≤ length xs
  unfolding later num_below
  length-later seq [] = omega arith
  length-later seq (x ∷ xs) = elim (Bool-cases (ltb_ℤ seq x.seq)) [
    | inl e ↦
        let t : ltb_ℤ x.seq seq ≡ false = ground (arith, e) in
        rw (e, t) (omega (arith, length-later seq xs))
    | inr e ↦ rw e (ground (arith, length-later seq xs))
  ]

module _ {W : Type 0} where
  abbrev pub rest : Copa W → ℕ × ℕ × RttWindow W × W × W × Bool × W × Bool
  rest c = (
    c.num_pkts_acked, c.num_pkts_sent, c.rtt_window, c.cur_tick, c.min_rtt, c.do_slow_start,
    c.the_window, c.slow_start,
  )

  pub record IsScanned (s : Scan W) (seq : ℤ) (xs : List (Unacked W)) (s' : Scan W) : Type 0 where
    pub unacked_eq : s'.copa.unacknowledged_packets ≡ later seq xs
    pub lost_eq : s'.copa.num_pkts_lost ≡ s.copa.num_pkts_lost + num_below seq xs
    pub rest_eq : rest s'.copa ≡ rest s.copa

module _ {W : Type 0} ⦃d : Double W⦄ where
  take_entry-rest :
      (s : Scan W) (seq : ℤ) (x : Unacked W) → rest (take_entry s seq x).copa ≡ rest s.copa
  unfolding take_entry note_loss note_packet
  take_entry-rest s seq x = elim (Bool-cases (ltb_ℤ x.seq seq)) [ inl e ↦ rw e | inr e ↦ rw e ]

  take_entry-lost :
      (s : Scan W) (seq : ℤ) (x : Unacked W)
      → (take_entry s seq x).copa.num_pkts_lost
        ≡ s.copa.num_pkts_lost + (if ltb_ℤ x.seq seq then 1 else 0)
  unfolding take_entry note_loss note_packet
  take_entry-lost s seq x = elim (Bool-cases (ltb_ℤ x.seq seq)) [
    | inl e ↦ rw e
    | inr e ↦ rw e (omega arith)
  ]

  leave_entries-IsScanned :
      (s : Scan W) (seq : ℤ) (xs : List (Unacked W))
      → later seq xs ≡ xs
      → num_below seq xs ≡ 0
      → IsScanned s seq xs (leave_entries s xs)
  unfolding leave_entries
  leave_entries-IsScanned s seq xs h k = record {
    unacked_eq = sym h;
    lost_eq = omega (arith, k);
    rest_eq = refl;
  }

  take_entry-IsScanned :
      (s : Scan W) (seq : ℤ) (x : Unacked W) (xs : List (Unacked W)) (s' : Scan W)
      → ltb_ℤ seq x.seq ≡ false
      → IsScanned (take_entry s seq x) seq xs s'
      → IsScanned s seq (x ∷ xs) s'
  unfolding later num_below
  take_entry-IsScanned s seq x xs s' e h = record {
    unacked_eq = rw (e, h.unacked_eq);
    lost_eq = omega (arith, h.lost_eq, take_entry-lost s seq x);
    rest_eq = h.rest_eq ∙ take_entry-rest s seq x;
  }

  IsAbove-raise :
      (seq tmp : ℤ) (x : Unacked W) (xs : List (Unacked W))
      → ltb_ℤ seq x.seq ≡ true
      → IsAbove tmp (x ∷ xs)
      → IsAbove seq (x ∷ xs)
  unfolding IsAbove
  IsAbove-raise seq tmp x xs b h = (ltb_ℤ→lt seq x.seq b, h.1)

  -- The loop reaches its end, and no entry is out of order.
  pub scan-IsScanned :
      (s : Scan W) (seq tmp : ℤ) (xs : List (Unacked W))
      → IsAbove tmp xs
      → (s' : Scan W) × (scan s seq tmp xs ≡ some s') × IsScanned s seq xs s'
  unfolding scan IsAbove later num_below
  scan-IsScanned s seq tmp [] h =
      (leave_entries s [], refl, leave_entries-IsScanned s seq [] refl refl)
  scan-IsScanned s seq tmp (x ∷ xs) h =
      let t : leb_ℤ tmp x.seq ≡ true = ground (arith, h.0) in
      let (s', e, k) = scan-IsScanned (take_entry s seq x) seq x.seq xs h.1 in
      elim (Bool-cases (ltb_ℤ seq x.seq)) [
        | inl b ↦ (
          leave_entries s (x ∷ xs),
          rw (t, b),
          leave_entries-IsScanned s seq (x ∷ xs)
              (later-none seq seq (x ∷ xs) (omega arith) (IsAbove-raise seq tmp x xs b h))
              (num_below-none seq seq (x ∷ xs) (omega arith) (IsAbove-raise seq tmp x xs b h)),
        )
        | inr b ↦ (s', rw (t, b, e), take_entry-IsScanned s seq x xs s' b k)
      ]
