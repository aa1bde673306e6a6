-- ===== src/PacketList/Balance.antt =====
-- The bits that a packet takes from the buffer when it is reverted.
use copa_new.Prelude.{ℕ, ◌+◌, ◌≡◌, ◌∙◌, List, [], ◌∷◌, true, if◌then◌else◌}
use copa_new.Prelude.Int.{ℤ, pos, ◌+ℤ◌, ◌≤ℤ◌, leb_ℤ, int_laws}
use copa_new.ReTx.{ReorderingBuf}
use copa_new.PacketList.{PacketNode, bits, revert_node, revert_first, revert_later, revert_one}

-- The bits of a packet, if it is reverted, and those of all the reverted packets.
abbrev pub node_bits : PacketNode → ℕ
node_bits p = if p.revert_flag then bits p else 0

abbrev pub reverted_bits : List PacketNode → ℕ
reverted_bits [] = 0
reverted_bits (p ∷ ps) = node_bits p + reverted_bits ps

-- A buffer before and after some packets of these many bits more are reverted.
unfoldable pub Balanced : ReorderingBuf → ℕ → ReorderingBuf → ℕ → Type 0
Balanced q n q' n' =
    (q'.buffer_active ≡ q.buffer_active) × (q'.buf_size +ℤ pos n' ≡ q.buf_size +ℤ pos n)

revert_first-Balanced :
    (p : PacketNode) (q : ReorderingBuf)
    → Balanced q (node_bits p) (revert_first p q).1 (node_bits (revert_first p q).0)
unfolding Balanced revert_first revert_node
revert_first-Balanced p q = (grind int_laws, grind int_laws)

revert_later-Balanced :
    (p : PacketNode) (q : ReorderingBuf)
    → Balanced q (node_bits p) (revert_later p q).1 (node_bits (revert_later p q).0)
unfolding Balanced revert_later revert_node
revert_later-Balanced p q = (grind int_laws, grind int_laws)

pub revert_one-Balanced :
    (p : PacketNode) (q : ReorderingBuf)
    → Balanced q (node_bits p) (revert_one p q).1 (node_bits (revert_one p q).0)
unfolding Balanced revert_one
revert_one-Balanced p q =
    let (a, b) = revert_first-Balanced p q in
    let (c, d) = revert_later-Balanced (revert_first p q).0 (revert_first p q).1 in (c ∙ a, d ∙ b)

pub sum_at_empty :
    (a a' : ℤ) (m m' n : ℕ)
    → a' +ℤ pos m' ≡ a +ℤ pos m
    → leb_ℤ a' (pos 0) ≡ true
    → a +ℤ pos (m + n) ≤ℤ pos (m' + n)
unfolding ◌+ℤ◌
sum_at_empty a a' m m' n e h = grind int_laws

pub sum_below :
    (a a' : ℤ) (m m' n n' : ℕ)
    → a' +ℤ pos m' ≡ a +ℤ pos m
    → a' +ℤ pos n ≤ℤ pos n'
    → a +ℤ pos (m + n) ≤ℤ pos (m' + n')
unfolding ◌+ℤ◌
sum_below a a' m m' n n' e h = grind int_laws

pub sum_equal :
    (a a' b : ℤ) (m m' n n' : ℕ)
    → a' +ℤ pos m' ≡ a +ℤ pos m
    → b +ℤ pos n' ≡ a' +ℤ pos n
    → b +ℤ pos (m' + n') ≡ a +ℤ pos (m + n)
sum_equal a a' b m m' n n' e h = grind int_laws
