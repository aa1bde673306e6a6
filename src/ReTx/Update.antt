-- ===== src/ReTx/Update.antt =====
-- What an update of the reordering buffer by a trace does.
use copa_new.Prelude.{
  ℕ, zero, suc, ◌+◌, ◌≤◌, ◌<◌, ◌≡◌, ◌≢◌, refl, sym, ap, subst, ◌∙◌, ◌⊎◌, inl, inr, Bool, true,
  false, ◌||◌, if◌then◌else◌, get_or, Bool-cases, arith,
}
use copa_new.Prelude.Int.{◌≤ℤ◌, int_laws}
use copa_new.ReTx.{
  ReorderingBuf, CaTrace, activate_buf, set_retx_start_tti, set_retx_tti_in_burst, retx_at,
  already_seen, burst_over, round, update_loop, update_retx_buf,
}

-- An active buffer has seen a retransmission.
abbrev pub IsBuf : ReorderingBuf → Type 0
IsBuf q = q.buffer_active ≡ true → q.ready ≡ true

-- What holds between the buffer `start` and the buffer `q` and `found_reTx` of the loop.
pub record IsUpdate (start : ReorderingBuf) (found : Bool) (q : ReorderingBuf) : Type 0 where
  pub valid : IsBuf q
  pub active : found ≡ true → q.buffer_active ≡ true
  pub unchanged : found ≡ false → q ≡ start
  pub grows : start.buffer_active ≡ true → (q.buffer_active ≡ true) × (start.buf_size ≤ℤ q.buf_size)

retx_at-active : (q : ReorderingBuf) (t : CaTrace) (i : ℕ) → (retx_at q t i).buffer_active ≡ true
unfolding retx_at set_retx_start_tti set_retx_tti_in_burst activate_buf
retx_at-active q t i = ground arith

retx_at-ready : (q : ReorderingBuf) (t : CaTrace) (i : ℕ) → IsBuf q → (retx_at q t i).ready ≡ true
unfolding retx_at set_retx_start_tti set_retx_tti_in_burst activate_buf
retx_at-ready q t i v = ground arith

retx_at-le :
    (q : ReorderingBuf) (t : CaTrace) (i : ℕ)
    → q.buffer_active ≡ true
    → q.buf_size ≤ℤ (retx_at q t i).buf_size
unfolding retx_at set_retx_start_tti set_retx_tti_in_burst activate_buf
retx_at-le q t i h = grind int_laws

-- A retransmission that the loop takes up.
take_up :
    (start : ReorderingBuf) (found : Bool) (q : ReorderingBuf) (t : CaTrace) (i : ℕ)
    → IsUpdate start found q
    → IsUpdate start (found || true) (retx_at q t i)
take_up start found q t i u = record {
  valid = λ a. retx_at-ready q t i u.valid;
  active = λ f. retx_at-active q t i;
  unchanged = λ f. absurd (ground arith);
  grows = λ a.
      let (b, le) = u.grows a in
      (retx_at-active q t i, let more = retx_at-le q t i b in omega arith);
}

or_true : (b : Bool) → (b || true) ≡ true
or_true true = refl
or_true false = refl

or_false : (b : Bool) → (b || false) ≡ b
or_false true = refl
or_false false = refl

module _ (start : ReorderingBuf) (t : CaTrace) where
  take_up_if :
      (i : ℕ) (found : Bool) (q : ReorderingBuf) (retx : Bool)
      → IsUpdate start found q
      → IsUpdate start (found || retx) (if retx then retx_at q t i else q)
  take_up_if i found q true u = take_up start found q t i u
  take_up_if i found q false u = subst (λ b. IsUpdate start b q) (sym (or_false found)) u

  round-IsUpdate :
      (i : ℕ) (found : Bool) (q : ReorderingBuf)
      → IsUpdate start found q
      → IsUpdate start (round t i found q).found (round t i found q).buf
  unfolding round
  round-IsUpdate i found q u = elim (Bool-cases (already_seen q t i)) [
    | inl seen ↦ rw seen u
    | inr new ↦ rw new (take_up_if i found q (get_or t.retx i false) u)
  ]

  update_loop-IsUpdate :
      (n i : ℕ) (found : Bool) (q : ReorderingBuf)
      → IsUpdate start found q
      → IsUpdate start (update_loop t n i found q).0 (update_loop t n i found q).1
  unfolding update_loop
  update_loop-IsUpdate zero i found q u = u
  update_loop-IsUpdate (suc n) i found q u =
      let u' = round-IsUpdate i found q u in
      elim (Bool-cases (round t i found q).leave) [
        | inl stop ↦ rw stop u'
        | inr go ↦ rw go (update_loop-IsUpdate n (i + 1) _ _ u')
      ]

-- From a valid buffer, an update by a trace leads to a valid buffer; it is active when the update
-- reports a retransmission, and the same as before when it reports none; the update never ends a
-- burst or takes bits away from it.
pub update_retx_buf-IsUpdate :
    (q : ReorderingBuf) (t : CaTrace)
    → IsBuf q
    → IsUpdate q (update_retx_buf q t).0 (update_retx_buf q t).1
unfolding update_retx_buf
update_retx_buf-IsUpdate q t v = update_loop-IsUpdate q t t.size 0 false q (record {
  valid = v;
  active = λ f. absurd (ground arith);
  unchanged = λ f. refl;
  grows = λ a. (a, omega arith);
})

module _ (t : CaTrace) where
  round_keeps_found :
      (i : ℕ) (found : Bool) (q : ReorderingBuf) → found ≡ true → (round t i found q).found ≡ true
  unfolding round
  round_keeps_found i found q f = ground arith

  update_loop_keeps_found :
      (n i : ℕ) (found : Bool) (q : ReorderingBuf)
      → found ≡ true
      → (update_loop t n i found q).0 ≡ true
  unfolding update_loop
  update_loop_keeps_found zero i found q f = f
  update_loop_keeps_found (suc n) i found q f =
      let f' = round_keeps_found i found q f in
      elim (Bool-cases (round t i found q).leave) [
        | inl stop ↦ rw stop f'
        | inr go ↦ rw go (update_loop_keeps_found n (i + 1) _ _ f')
      ]

  -- A round of an inactive buffer reports a retransmission, or goes on with the same buffer.
  round_inactive :
      (i : ℕ) (found : Bool) (q : ReorderingBuf)
      → q.buffer_active ≡ false
      → ((round t i found q).found ≡ true)
        ⊎ (((round t i found q).leave ≡ false)
            × ((round t i found q).buf ≡ q)
            × ((already_seen q t i ≡ true) ⊎ (get_or t.retx i false ≡ false)))
  unfolding round burst_over
  round_inactive i found q a = elim (Bool-cases (already_seen q t i)) [
    | inl seen ↦ rw seen (inr (refl, refl, inl refl))
    | inr new ↦ elim (Bool-cases (get_or t.retx i false)) [
      | inl is_retx ↦ rw (new, is_retx) (inl (or_true found))
      | inr no_retx ↦ rw (new, no_retx, a) (inr (refl, refl, inr refl))
    ]
  ]

  update_loop_finds :
      (n i : ℕ) (found : Bool) (q : ReorderingBuf) (j : ℕ)
      → q.buffer_active ≡ false
      → i ≤ j
      → j < i + n
      → already_seen q t j ≡ false
      → get_or t.retx j false ≡ true
      → (update_loop t n i found q).0 ≡ true
  unfolding update_loop
  update_loop_finds zero i found q j a lo hi new is_retx = absurd (omega arith)
  update_loop_finds (suc n) i found q j a lo hi new is_retx = elim (round_inactive i found q a) [
    | inl f ↦ elim (Bool-cases (round t i found q).leave) [
      | inl stop ↦ rw stop f
      | inr go ↦ rw go (update_loop_keeps_found n (i + 1) _ _ f)
    ]
    | inr (go, same, skip) ↦
        let later : i ≢ j = λ e. elim skip [
          | inl seen ↦
              let both : true ≡ false = sym seen ∙ ap (already_seen q t) e ∙ new in
              absurd (ground arith)
          | inr no_retx ↦
              let both : true ≡ false =
                sym is_retx ∙ ap (λ k. get_or t.retx k false) (sym e) ∙ no_retx in
              absurd (ground arith)
        ] in
        rw (go, same)
          (update_loop_finds n (i + 1) (round t i found q).found q j a (omega (arith, later))
            (omega arith) new is_retx)
  ]

-- An inactive buffer takes up a new burst: if the trace has a retransmission that is later than the
-- last one seen, the update reports it and the buffer is active.
pub update_retx_buf_finds :
    (q : ReorderingBuf) (t : CaTrace) (j : ℕ)
    → IsBuf q
    → q.buffer_active ≡ false
    → j < t.size
    → already_seen q t j ≡ false
    → get_or t.retx j false ≡ true
    → ((update_retx_buf q t).0 ≡ true) × ((update_retx_buf q t).1.buffer_active ≡ true)
unfolding update_retx_buf
update_retx_buf_finds q t j v a h new is_retx =
    let f = update_loop_finds t t.size 0 false q j a (omega arith) (omega arith) new is_retx in
    (f, (update_retx_buf-IsUpdate q t v).active f)
