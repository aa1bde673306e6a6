-- ===== src/Client/Once.antt =====
-- Each packet is acknowledged at most once.
use copa_new.Prelude.{
  ℕ, ◌≡◌, refl, ap, ◌∙◌, List, [], ◌∷◌, map, true, false, if◌then◌else◌, Bool-cases, inl, inr,
}
use copa_new.ReTx.{ReorderingBuf}
use copa_new.PacketList.{PacketNode}
use copa_new.Client.{ack_of, is_due, send_loop, send_pkt_list, SendResult}

-- The packets that a pass over the list sends.
pub due : ReorderingBuf → List PacketNode → List PacketNode
due q [] = []
due q (p ∷ ps) = let rest : List PacketNode = due q ps in if is_due q p then p ∷ rest else rest

send_loop-due :
    (q : ReorderingBuf) (t : ℕ) (ps : List PacketNode)
    → (send_loop q t ps).1 ≡ map (ack_of t) (due q ps)
unfolding send_loop due
send_loop-due q t [] = refl
send_loop-due q t (p ∷ ps) =
    let rest = send_loop-due q t ps in
    elim (Bool-cases (is_due q p)) [
      | inl now ↦ rw now (ap (◌∷◌ (ack_of t p)) rest)
      | inr later ↦ rw later rest
    ]

acked_not_due : (q : ReorderingBuf) (p : PacketNode) → is_due q (record p { acked = true }) ≡ false
unfolding is_due
acked_not_due q p = refl

due-send_loop : (q : ReorderingBuf) (t : ℕ) (ps : List PacketNode) → due q (send_loop q t ps).0 ≡ []
unfolding send_loop due
due-send_loop q t [] = refl
due-send_loop q t (p ∷ ps) =
    let rest = due-send_loop q t ps in
    elim (Bool-cases (is_due q p)) [
      | inl now ↦ rw (now, acked_not_due q p) rest
      | inr later ↦ rw (later, later) rest
    ]

acks_due :
    (q : ReorderingBuf) (t last : ℕ) (ps : List PacketNode)
    → (send_pkt_list q t ps last).acks ≡ map (ack_of t) (due q ps)
unfolding send_pkt_list due
acks_due q t last [] = refl
acks_due q t last (p ∷ ps) = send_loop-due q t (p ∷ ps)

pkt_list_sent :
    (q : ReorderingBuf) (t last : ℕ) (ps : List PacketNode)
    → (send_pkt_list q t ps last).pkt_list ≡ (send_loop q t ps).0
unfolding send_pkt_list send_loop
pkt_list_sent q t last [] = refl
pkt_list_sent q t last (p ∷ ps) = refl

-- A pass over the list acknowledges exactly the packets that are due, in the order of the list, and
-- a further pass on the same state of the buffer, at any time, acknowledges none of the packets.
pub send_pkt_list_once :
    (q : ReorderingBuf) (t u last : ℕ) (ps : List PacketNode)
    → let r = send_pkt_list q t ps last in
      (r.acks ≡ map (ack_of t) (due q ps))
      × ((send_pkt_list q u r.pkt_list r.last_tx_pkt_t_us).acks ≡ [])
send_pkt_list_once q t u last ps =
    let r : SendResult = send_pkt_list q t ps last in
    let none_due : due q r.pkt_list ≡ [] =
      ap (due q) (pkt_list_sent q t last ps) ∙ due-send_loop q t ps in
    (
      acks_due q t last ps,
      acks_due q u r.last_tx_pkt_t_us r.pkt_list ∙ ap (map (ack_of u)) none_due,
    )
