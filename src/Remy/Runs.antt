-- ===== src/Remy/Runs.antt =====
-- The theorems on rules at concrete inputs, with whole numbers.
use copa_new.Prelude.{List, [], ◌∷◌, ℕ, ◌≡◌, refl, true, false, Option, none, some, arith}
use copa_new.Prelude.Int.{pos, ◌+ℤ◌, ◌-ℤ◌}
use copa_new.Double.{whole, whole-IsOrdered, ◌≤?◌}
use copa_new.Copa.Frame.{OnSome}
use copa_new.Remy.{
  Memory, new_memory, max_memory, first_packet, note_ack, packet_received, receive_one, receive_all,
}
use copa_new.Remy.Range.{
  bisect_range, and_split, split_all, split_one, append_parts, halves, MemoryRange, memory_range,
}
use copa_new.Remy.Whisker.{bisect_rule, new_rule, next_window}
use copa_new.Remy.Tree.Bisected.{tree_of_rule-IsCovering}
use copa_new.Remy.Tree.{
  tree_of_rule, num_children, count_children, leaves_of, WhiskerTree, leaf, branch, end, child,
  whisker, most_used, dna_of_tree, use_whisker, in_branch, first_found,
}
use copa_new.Remy.Tree.Replace.{tree_of_dna}
use copa_new.Remy.Whisker.Next.{unsigned_number, window_increments, alternatives, changes}
use copa_new.Remy.Tree.Search.{IsCovering, in_some, Finds, whisker-Finds}
use copa_new.Remy.Tree.Saved.{IsProper, load-save, action_in, stay}
use copa_new.Remy.Tree.Used.{AllRules, IsChoice, IsNoMore, uses, most_used_lem}
use copa_new.Remy.Tree.Covering.{IsUsed, use_whisker-IsUsed}
use copa_new.Remy.Rat.{
  Rat, new_rat, send, next_event_time, packets_received, follow, with_memory, last_flow,
  largest_seq,
}
use copa_new.Remy.Rat.Sending.{answer, IsSent, send-IsSent, send-next_event_time}
use copa_new.Remy.Controller.{
  RemyCc, new_remy, on_pkt_sent, on_ack, reply, answered, scaled, unscaled, set_timestamp, put,
  erase, time_of,
}
use copa_new.Remy.Controller.Replies.{on_ack-again}

-- A tree with two rules: short times between packets, and long ones.
abbrev middle : Memory ℕ
middle = record new_memory { rec_send_ewma = 100 }

abbrev short : MemoryRange ℕ
short = memory_range new_memory (record max_memory { rec_send_ewma = 100 })

abbrev long : MemoryRange ℕ
long = memory_range middle max_memory

abbrev tree : WhiskerTree ℕ
tree = branch (memory_range new_memory max_memory) (
    child (leaf short (new_rule short))
      (child (leaf long (record (new_rule long) { window_increment = pos 3 })) end))

whisker-Finds_example : Finds (λ w. w) tree middle
unfolding IsCovering in_some
whisker-Finds_example =
    whisker-Finds tree (λ w. w) middle ((λ m h. ground (arith, h)), (tt, (tt, tt))) refl

load-save_example :
    (t' : WhiskerTree ℕ) × (tree_of_dna (dna_of_tree tree) ≡ some t')
    × ((m : Memory ℕ) → action_in (whisker stay t' m) ≡ action_in (whisker stay tree m))
unfolding IsProper
load-save_example = load-save tree (tt, (tt, (tt, tt)))

most_used_lem_example :
    IsChoice 5 (λ w. w.intersend ≡ 3) (most_used tree 5)
    × AllRules (IsNoMore 5 (uses (most_used tree 5))) tree
unfolding AllRules
most_used_lem_example = most_used_lem (λ w. w.intersend ≡ 3) tree 5 (refl, (refl, tt))

use_whisker-IsUsed_example : OnSome (λ x. IsUsed tree x.1) (use_whisker tree middle true)
use_whisker-IsUsed_example = use_whisker-IsUsed tree middle true

-- Two packets are on their way, and the window is five.
abbrev rat : Rat ℕ
rat = record (new_rat tree false) {
  packets_sent = 2;
  last_send_time = 10;
  the_window = 5;
  intersend_time = 3;
}

send-next_event_time_example : answer (send rat 14) ≡ some (next_event_time rat 14 ≤? 14)
unfolding ◌+ℤ◌
send-next_event_time_example =
    send-next_event_time ⦃o = whole-IsOrdered⦄ rat 14 (refl, refl) (omega arith) refl

send-IsSent_example : OnSome (IsSent rat 14) (send rat 14)
send-IsSent_example = send-IsSent rat 14 (omega arith)

-- A packet is sent, and its acknowledgement comes twice.
abbrev one_sent : RemyCc ℕ
one_sent = on_pkt_sent (set_timestamp (new_remy tree) 100) (pos 0)

abbrev some_or : Option (RemyCc ℕ) → RemyCc ℕ → RemyCc ℕ
some_or none c = c
some_or (some c) e = c

abbrev answered_once : RemyCc ℕ
answered_once = some_or (on_ack 2666 (set_timestamp one_sent 150) (pos 1) 120) one_sent

on_ack-again_example :
    on_ack 2666 (set_timestamp answered_once 160) (pos 1) 125
    ≡ some (set_timestamp answered_once 160)
unfolding on_ack on_pkt_sent reply answered scaled unscaled put erase time_of packets_received
    follow with_memory last_flow largest_seq next_window first_packet note_ack packet_received
    receive_one receive_all use_whisker whisker in_branch first_found ◌-ℤ◌
on_ack-again_example =
    on_ack-again 2666 (set_timestamp one_sent 150) (pos 1) 120 answered_once 160 125 refl

-- 1, 4 and 16 up and down, where that is eligible.
alternatives_of_seven :
    alternatives unsigned_number window_increments 40 7 ≡ some (7 ∷ 8 ∷ 6 ∷ 11 ∷ 3 ∷ 23 ∷ [])
unfolding alternatives changes
alternatives_of_seven = refl

-- Every field is cut at 50.
abbrev fifty : List ℕ → ℕ
fifty xs = 50

tree_of_rule-IsCovering_example : OnSome IsCovering (tree_of_rule fifty (new_rule short) true)
tree_of_rule-IsCovering_example =
    tree_of_rule-IsCovering whole-IsOrdered fifty (new_rule short) true (refl, refl) (refl, refl)
      (refl, refl) (refl, refl)

abbrev children_of : Option (WhiskerTree ℕ) → ℕ
children_of none = 0
children_of (some t) = num_children t

sixteen_children : children_of (tree_of_rule fifty (new_rule short) true) ≡ 16
unfolding num_children count_children tree_of_rule leaves_of bisect_rule bisect_range and_split
    split_all split_one append_parts halves
sixteen_children = refl
