-- ===== src/ReTx/Burst.antt =====
-- When a retransmission begins a new burst, and the places of the subframes in a trace.
use copa_new.Prelude.{
  ℕ, zero, suc, ◌+◌, ◌-◌, ◌≤◌, ◌<◌, ◌≡◌, refl, sym, ap, ◌∙◌, inl, inr, ◌↔◌, List, Bool, true, false,
  not, ◌&&◌, get_or, lt_or_le, lt→ltb, le→ltb, lt→leb, le→leb, arith,
}
use copa_new.Tti.{max_tti, wrap_tti}
use copa_new.ReTx.{none_retx, is_new_burst, tti_to_idx}

-- The subframe that is `k` later than the oldest one of a trace has place `k`, across the wrap-around.
pub tti_to_idx-wrap_tti :
    (tail_tti k : ℕ)
    → tail_tti < max_tti
    → k < max_tti
    → tti_to_idx (wrap_tti (tail_tti + k)) tail_tti ≡ k
unfolding tti_to_idx wrap_tti
tti_to_idx-wrap_tti tail_tti k h lt = ground arith

none_retx_iff :
    (retx : List Bool) (n i : ℕ)
    → (none_retx retx n i ≡ true) ↔ ((j : ℕ) → i ≤ j → j < i + n → get_or retx j false ≡ false)
unfolding none_retx
none_retx_iff retx zero i = (λ e j a b. absurd (omega arith), λ f. refl)
none_retx_iff retx (suc n) i =
    let (to, from) = none_retx_iff retx n (i + 1) in
    (
      λ e j a b. elim (lt_or_le i j) [
        | inl later ↦ to (and_true e).1 j (omega arith) (omega arith)
        | inr ge ↦
            let same : i ≡ j = omega arith in
            ap (λ k. get_or retx k false) (sym same) ∙ (and_true e).0
      ],
      λ f.
          let first = f i (omega arith) (omega arith) in
          let rest = from λ j a b. f j (omega arith) (omega arith) in rw (first, rest),
    )
  where
    and_true : {a b : Bool} → (not a && b) ≡ true → (a ≡ false) × (b ≡ true)
    and_true {a = false} {b} e = (refl, e)
    and_true {a = true} {b} e = absurd (ground arith)

-- A retransmission begins a new burst exactly if its place lies in the trace and there is no
-- retransmission in the 8 subframes before it, or in those before it if they are fewer.
pub is_new_burst_iff :
    (retx : List Bool) (size index : ℕ)
    → (is_new_burst retx size index ≡ true)
      ↔ ((index < size) × ((j : ℕ) → j < index → index ≤ j + 8 → get_or retx j false ≡ false))
unfolding is_new_burst
is_new_burst_iff retx size index = elim (lt_or_le index size) [
  | inr ge ↦ rw (le→leb size index ge) (λ e. absurd (ground arith), λ (lt, f). absurd (omega arith))
  | inl lt ↦ elim (lt_or_le index 8) [
    | inl few ↦
        let (to, from) = none_retx_iff retx index 0 in
        rw (lt→leb size index lt, lt→ltb index 8 few)
          (
            λ e. (lt, λ j a b. to e j (omega arith) (omega arith)),
            λ (h, f). from (λ j a b. f j (omega arith) (omega arith)),
          )
    | inr many ↦
        let (to, from) = none_retx_iff retx 8 (index - 8) in
        rw (lt→leb size index lt, le→ltb index 8 many)
          (
            λ e. (lt, λ j a b. to e j (omega arith) (omega arith)),
            λ (h, f). from (λ j a b. f j (omega arith) (omega arith)),
          )
  ]
]
