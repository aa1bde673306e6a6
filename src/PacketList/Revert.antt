-- ===== src/PacketList/Revert.antt =====
-- The packets of a burst get the buffer's reference delay, for as many bits as the buffer holds.
use copa_new.Prelude.{
  ℕ, ◌+◌, ◌≤◌, ◌≡◌, refl, ap, ◌∙◌, ◌⊎◌, inl, inr, List, [], ◌∷◌, true, false, Bool, not, ◌&&◌, ◌==◌,
  leb, if◌then◌else◌, map, take, drop, ◌++◌, length, zero, suc, Bool-cases, arith,
}
use copa_new.Prelude.Int.{ℤ, pos, ◌+ℤ◌, ◌-ℤ◌, ◌≤ℤ◌, ◌<ℤ◌, leb_ℤ, int_laws}
use copa_new.ReTx.{ReorderingBuf, reset_buf}
use copa_new.PacketList.{
  PacketNode, bits, revert_node, revert_first, revert_later, revert_one, revert_delay,
}
use copa_new.PacketList.Balance.{
  node_bits, reverted_bits, Balanced, revert_one-Balanced, sum_at_empty, sum_below, sum_equal,
}

-- Behind a pass over some packets that did not reset the buffer, bits are left.
IsLeft : List PacketNode → ReorderingBuf → Type 0
IsLeft [] q = Unit
IsLeft (p ∷ ps) q = pos 0 <ℤ q.buf_size

left_from :
    (ps : List PacketNode) (q : ReorderingBuf)
    → leb_ℤ q.buf_size (pos 0) ≡ false
    → IsLeft ps (revert_delay ps q).1
    → pos 0 <ℤ (revert_delay ps q).1.buf_size
unfolding IsLeft revert_delay
left_from [] q e h = grind (int_laws, e)
left_from (p ∷ ps) q e h = h

-- How a pass over the list ends: with a reset buffer, once it holds no more bits than were
-- reverted, or, with bits left unless the list is empty, with exactly the rest of them.
pub IsDrained : List PacketNode → ReorderingBuf → List PacketNode → ReorderingBuf → Type 0
IsDrained ps q ps' q' =
    ((q'.buffer_active ≡ false)
      × (q'.buf_size ≡ pos 0)
      × (q.buf_size +ℤ pos (reverted_bits ps) ≤ℤ pos (reverted_bits ps')))
    ⊎ ((q'.buffer_active ≡ q.buffer_active)
        × (q'.buf_size +ℤ pos (reverted_bits ps') ≡ q.buf_size +ℤ pos (reverted_bits ps))
        × IsLeft ps q')

-- A pass over the list ends in one of two ways. Either the buffer is reset, inactive and empty, and
-- the bits of the packets that the pass reverted are as many as it held, or more; or its activity
-- is as before, exactly these bits were taken from it and, unless the list is empty, it still holds
-- more than 0.
pub revert_delay-IsDrained :
    (ps : List PacketNode) (q : ReorderingBuf)
    → IsDrained ps q (revert_delay ps q).0 (revert_delay ps q).1
unfolding IsDrained IsLeft revert_delay Balanced reset_buf
revert_delay-IsDrained [] q = inr (refl, refl, tt)
revert_delay-IsDrained (p ∷ ps) q =
    let q' : ReorderingBuf = (revert_one p q).1 in
    let one = revert_one-Balanced p q in
    let rest = revert_delay-IsDrained ps q' in
    elim (Bool-cases (leb_ℤ q'.buf_size (pos 0))) [
      | inl empty ↦ rw empty (
          inl (
            refl,
            refl,
            sum_at_empty q.buf_size q'.buf_size (node_bits p) (node_bits (revert_one p q).0)
                (reverted_bits ps) one.1 empty,
          ))
      | inr full ↦ rw full (elim rest [
        | inl (off, zero_size, le) ↦ inl (
          off,
          zero_size,
          sum_below q.buf_size q'.buf_size (node_bits p) (node_bits (revert_one p q).0)
              (reverted_bits ps) _ one.1 le,
        )
        | inr (same, eq, left) ↦ inr (
          same ∙ one.0,
          sum_equal q.buf_size q'.buf_size _ (node_bits p) (node_bits (revert_one p q).0)
              (reverted_bits ps) _ one.1 eq,
          left_from ps q' full left,
        )
      ])
    ]

-- What a packet becomes in a pass with an active buffer, if it was received at the start of the burst
-- or later and was not reverted before, and the bits that this takes from the buffer.
is_wanted : ReorderingBuf → PacketNode → Bool
is_wanted q p = q.buffer_active && not p.revert_flag && leb q.start_pkt_t p.recv_t_us

pub reverted : ReorderingBuf → PacketNode → PacketNode
reverted q p =
    if is_wanted q p
    then record p {
      oneway_us_new = q.ref_oneway;
      revert_flag = true;
      burst_start = if p.recv_t_us == q.start_pkt_t then true else p.burst_start;
    }
    else p

wanted_bits : ReorderingBuf → List PacketNode → ℕ
wanted_bits q [] = 0
wanted_bits q (p ∷ ps) = (if is_wanted q p then bits p else 0) + wanted_bits q ps

minus_none : (z : ℤ) → z ≡ z -ℤ pos 0
minus_none z = grind int_laws

revert_one-node :
    (p : PacketNode) (q : ReorderingBuf) (z : ℤ)
    → (revert_one p (record q { buf_size = z })).0 ≡ reverted q p
unfolding revert_one revert_first revert_later revert_node reverted is_wanted
revert_one-node p q z = ground arith

revert_one-buf :
    (p : PacketNode) (q : ReorderingBuf) (z : ℤ)
    → (revert_one p (record q { buf_size = z })).1
      ≡ record q { buf_size = z -ℤ pos (if is_wanted q p then bits p else 0) }
unfolding revert_one revert_first revert_later revert_node is_wanted
revert_one-buf p q z = ground (arith, minus_none z)

-- The number `n` of packets a pass looks at is no more than it takes: without the last of them, bits
-- are left.
NeedsAll : ReorderingBuf → ℤ → List PacketNode → ℕ → Type 0
NeedsAll q z ps zero = Unit
NeedsAll q z ps (suc zero) = Unit
NeedsAll q z ps (suc (suc m)) = pos (wanted_bits q (take (suc m) ps)) <ℤ z

NeedsAll-cons :
    (q : ReorderingBuf) (z : ℤ) (p : PacketNode) (ps : List PacketNode) (n : ℕ)
    → let z' = z -ℤ pos (if is_wanted q p then bits p else 0) in
      leb_ℤ z' (pos 0) ≡ false → NeedsAll q z' ps n → NeedsAll q z (p ∷ ps) (suc n)
unfolding NeedsAll wanted_bits
NeedsAll-cons q z p ps zero e h = tt
NeedsAll-cons q z p ps (suc zero) e h = grind (int_laws, e)
NeedsAll-cons q z p ps (suc (suc m)) e h = grind (int_laws, h)

-- The packets behind a pass with `z` bits in the buffer.
RevertsFrom : ReorderingBuf → ℤ → List PacketNode → List PacketNode → Type 0
RevertsFrom q z ps ps' =
    (n : ℕ) × (ps' ≡ map (reverted q) (take n ps) ++ drop n ps)
    × ((n ≡ length ps) ⊎ ((1 ≤ n) × (z ≤ℤ pos (wanted_bits q (take n ps)))))
    × NeedsAll q z ps n

pub IsReverted : ReorderingBuf → List PacketNode → List PacketNode → Type 0
IsReverted q ps ps' = RevertsFrom q q.buf_size ps ps'

RevertsFrom-cons :
    (q : ReorderingBuf) (z : ℤ) (p : PacketNode) (ps rest : List PacketNode)
    → let z' = z -ℤ pos (if is_wanted q p then bits p else 0) in
      leb_ℤ z' (pos 0) ≡ false
      → RevertsFrom q z' ps rest
      → RevertsFrom q z (p ∷ ps) (reverted q p ∷ rest)
unfolding RevertsFrom wanted_bits
RevertsFrom-cons q z p ps rest e (n, eq, stop, least) = (
  suc n,
  ap (λ xs. reverted q p ∷ xs) eq,
  elim stop [
    | inl all ↦ inl (ap suc all)
    | inr (some_seen, le) ↦ inr (omega arith, grind (int_laws, le))
  ],
  NeedsAll-cons q z p ps n e least,
)

revert_from :
    (ps : List PacketNode) (q : ReorderingBuf) (z : ℤ)
    → RevertsFrom q z ps (revert_delay ps (record q { buf_size = z })).0
unfolding RevertsFrom revert_delay NeedsAll wanted_bits
revert_from [] q z = (0, refl, inl refl, tt)
revert_from (p ∷ ps) q z =
    let z' : ℤ = z -ℤ pos (if is_wanted q p then bits p else 0) in
    let rest = revert_from ps q z' in
    rw (revert_one-node p q z, revert_one-buf p q z)
      (elim (Bool-cases (leb_ℤ z' (pos 0))) [
        | inl empty ↦ rw empty (1, refl, inr (omega arith, grind (int_laws, empty)), tt)
        | inr full ↦ rw full (RevertsFrom-cons q z p ps _ full rest)
      ])

-- A pass looks at the packets in order up to the first one behind which no bits are left in the
-- buffer, or at all of them, and at one at least. If the buffer is active, each of these that was
-- received at the start of the burst or later and that no pass has reverted before gets the
-- buffer's reference delay as its new delay and the mark of a reverted packet; the one received at
-- the start also gets the mark of a burst's start. No other packet, and nothing else, changes.
pub revert_delay-IsReverted :
    (ps : List PacketNode) (q : ReorderingBuf) → IsReverted q ps (revert_delay ps q).0
unfolding IsReverted
revert_delay-IsReverted ps q = revert_from ps q q.buf_size
