-- ===== src/PacketList/Insert.antt =====
-- The insertion of a packet keeps the packets of the last second.
use copa_new.Prelude.{
  ℕ, ◌+◌, ◌-◌, ◌≤◌, ◌<◌, ◌≡◌, refl, ap, sym, subst, List, [], ◌∷◌, ◌++◌, ltb, if◌then◌else◌, All,
  All-append, All-map, lt_or_le, lt→ltb, le→ltb, inl, inr, arith,
}
use copa_new.Prelude.Word.{IsU64, sub64, sub64_of_le}
use copa_new.PacketList.{
  PacketNode, delay_thd_us, find_last_node, check_time_delay_w_time, insert_node_check_time,
}

-- The packets are in the order in which they were received, within one second.
unfoldable pub IsWindow : List PacketNode → Type 0
IsWindow [] = Unit {0}
IsWindow (p ∷ ps) =
    All (λ n. (p.recv_t_us ≤ n.recv_t_us) × (n.recv_t_us ≤ p.recv_t_us + delay_thd_us)) ps
    × IsWindow ps

-- The list `r` is `xs` without its packets that are more than a second older than `t`.
pub record IsCut (xs : List PacketNode) (t : ℕ) (r : List PacketNode) : Type 0 where
  pub removed : List PacketNode
  pub split : xs ≡ removed ++ r
  pub old : All (λ p. p.recv_t_us + delay_thd_us < t) removed
  pub recent : All (λ p. t ≤ p.recv_t_us + delay_thd_us) r

IsWindow-append :
    (ps : List PacketNode) (node : PacketNode)
    → IsWindow ps
    → All (λ p. (p.recv_t_us ≤ node.recv_t_us) × (node.recv_t_us ≤ p.recv_t_us + delay_thd_us)) ps
    → IsWindow (ps ++ (node ∷ []))
unfolding IsWindow
IsWindow-append [] node w h = (tt, tt)
IsWindow-append (p ∷ ps) node w h =
    (All-append _ ps (node ∷ []) w.0 (h.0, tt), IsWindow-append ps node w.1 h.1)

check_step :
    (p : PacketNode) (ps : List PacketNode) (node : PacketNode) (t : ℕ)
    → check_time_delay_w_time (p ∷ ps ++ (node ∷ [])) t ≡ (
        if ltb delay_thd_us (sub64 t p.recv_t_us)
        then check_time_delay_w_time (ps ++ (node ∷ [])) t
        else p ∷ ps ++ (node ∷ []))
unfolding check_time_delay_w_time
check_step p [] node t = refl
check_step p (n ∷ ns) node t = refl

module _ (node : PacketNode) (word : IsU64 node.recv_t_us) where
  -- What the check of the delay leaves of the list with the new packet.
  Checked : List PacketNode → List PacketNode → Type 0
  Checked ps r = IsCut (ps ++ (node ∷ [])) node.recv_t_us r × IsWindow r

  check-Checked :
      (ps : List PacketNode)
      → IsWindow ps
      → All (λ p. p.recv_t_us ≤ node.recv_t_us) ps
      → Checked ps (check_time_delay_w_time (ps ++ (node ∷ [])) node.recv_t_us)
  unfolding Checked IsWindow check_time_delay_w_time
  check-Checked [] w h =
      (record { removed = []; split = refl; old = tt; recent = (omega arith, tt) }, (tt, tt))
  check-Checked (p ∷ ps) w h =
      let plain = sub64_of_le node.recv_t_us p.recv_t_us h.0 word in
      rw (check_step p ps node node.recv_t_us)
        (elim (lt_or_le delay_thd_us (node.recv_t_us - p.recv_t_us)) [
          | inl far ↦
              let (c, window) = check-Checked ps w.1 h.1 in
              rw (plain, lt→ltb delay_thd_us (node.recv_t_us - p.recv_t_us) far)
                (
                  record {
                    removed = p ∷ c.removed;
                    split = ap (◌∷◌ p) c.split;
                    old = (omega arith, c.old);
                    recent = c.recent;
                  },
                  window,
                )
          | inr near ↦
              let all : All
                  (λ n.
                    (n.recv_t_us ≤ node.recv_t_us) × (node.recv_t_us ≤ n.recv_t_us + delay_thd_us))
                  (p ∷ ps) =
                ((h.0, omega arith), later p ps near w.0 h.1) in
              rw (plain, le→ltb delay_thd_us (node.recv_t_us - p.recv_t_us) near)
                (
                  record {
                    removed = [];
                    split = refl;
                    old = tt;
                    recent =
                        All-append _ (p ∷ ps) (node ∷ []) (All-map _ _ (λ n a. a.1) (p ∷ ps) all)
                          (omega arith, tt);
                  },
                  IsWindow-append (p ∷ ps) node w all,
                )
        ])
    where
      later :
          (p : PacketNode) (ps : List PacketNode)
          → node.recv_t_us - p.recv_t_us ≤ delay_thd_us
          → All (λ n. (p.recv_t_us ≤ n.recv_t_us) × (n.recv_t_us ≤ p.recv_t_us + delay_thd_us)) ps
          → All (λ n. n.recv_t_us ≤ node.recv_t_us) ps
          → All
              (λ n. (n.recv_t_us ≤ node.recv_t_us) × (node.recv_t_us ≤ n.recv_t_us + delay_thd_us))
              ps
      later p [] near a b = tt
      later p (n ∷ ns) near a b = ((b.0, omega arith), later p ns near a.1 b.1)

find_last_node-le :
    (p : PacketNode) (ps : List PacketNode) (t : ℕ)
    → All (λ n. n.recv_t_us ≤ t) (p ∷ ps)
    → (find_last_node p ps).recv_t_us ≤ t
find_last_node-le p [] t h = h.0
find_last_node-le p (n ∷ ns) t h = find_last_node-le n ns t h.1

le-find_last_node :
    (p : PacketNode) (ps : List PacketNode) (t : ℕ)
    → IsWindow (p ∷ ps)
    → (find_last_node p ps).recv_t_us ≤ t
    → All (λ n. n.recv_t_us ≤ t) (p ∷ ps)
unfolding IsWindow
le-find_last_node p [] t w h = (h, tt)
le-find_last_node p (n ∷ ns) t w h =
    let rest = le-find_last_node n ns t w.1 h in (omega (arith, w.0.0.0, rest.0), rest)

-- A packet that is not older than those in the list is put behind them, and exactly the packets
-- that are more than a second older than it are removed; what remains is in order and within a second.
pub insert_node_check_time-IsCut :
    (nodes : List PacketNode) (node : PacketNode)
    → IsWindow nodes
    → IsU64 node.recv_t_us
    → All (λ p. p.recv_t_us ≤ node.recv_t_us) nodes
    → IsCut (nodes ++ (node ∷ [])) node.recv_t_us (insert_node_check_time nodes node)
      × IsWindow (insert_node_check_time nodes node)
unfolding insert_node_check_time check_time_delay_w_time Checked
insert_node_check_time-IsCut [] node w word h = check-Checked node word [] w h
insert_node_check_time-IsCut (p ∷ ps) node w word h =
    rw
      (le→ltb node.recv_t_us (find_last_node p ps).recv_t_us
        (find_last_node-le p ps node.recv_t_us h))
      (check-Checked node word (p ∷ ps) w h)

insert_older :
    (p : PacketNode) (ps : List PacketNode) (node : PacketNode)
    → node.recv_t_us < (find_last_node p ps).recv_t_us
    → insert_node_check_time (p ∷ ps) node ≡ p ∷ ps
unfolding insert_node_check_time
insert_older p ps node lt = rw (lt→ltb node.recv_t_us (find_last_node p ps).recv_t_us lt)

-- An insertion, accepted or not, keeps the packets in the order in which they were received, and
-- within one second.
pub insert_node_check_time-IsWindow :
    (nodes : List PacketNode) (node : PacketNode)
    → IsWindow nodes
    → IsU64 node.recv_t_us
    → IsWindow (insert_node_check_time nodes node)
insert_node_check_time-IsWindow [] node w word = (insert_node_check_time-IsCut [] node w word tt).1
insert_node_check_time-IsWindow (p ∷ ps) node w word =
    elim (lt_or_le node.recv_t_us (find_last_node p ps).recv_t_us) [
      | inl older ↦ subst IsWindow (sym (insert_older p ps node older)) w
      | inr le ↦
          (insert_node_check_time-IsCut (p ∷ ps) node w word
            (le-find_last_node p ps node.recv_t_us w le)).1
    ]
