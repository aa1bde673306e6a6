-- ===== src/Remy/Tree.antt =====
-- whiskertree.hh and whiskertree.cc: the tree of the rules, each leaf with one rule.
pub mod Replace
pub mod Search
pub mod Saved
pub mod Used
pub mod Covering
pub mod Bisected
use copa_new.Prelude.{
  ℕ, zero, suc, ◌+◌, ◌%◌, ◌^◌, List, [], ◌∷◌, Bool, true, false, ◌&&◌, not, Option, none, some,
  if◌then◌else◌, ltb, leb,
}
use copa_new.Double.{Double}
use copa_new.Remy.{Memory, new_memory, max_memory}
use copa_new.Remy.Range.{
  MemoryRange, RangeDna, memory_range, contains, same_range, range_median, range_dna, range_of_dna,
}
use copa_new.Remy.Whisker.{
  Whisker, WhiskerDna, new_rule, use_rule, track_rule, reset_rule_count, promote_rule, demote_rule,
  rule_dna, rule_of_dna, bisect_rule,
}

-- A node without a rule in `_leaf` is `branch`; the constructors of the class put one or none there.
mutual
  pub data WhiskerTree (W : Type 0) : Type 0 where
    leaf : MemoryRange W → Whisker W → WhiskerTree W
    branch : MemoryRange W → Children W → WhiskerTree W

  pub data Children (W : Type 0) : Type 0 where
    end : Children W
    child : WhiskerTree W → Children W → Children W

-- The message of a saved tree, and whether it has a leaf.
mutual
  pub data TreeDna (W : Type 0) : Type 0 where
    tree_dna : RangeDna W → Option (WhiskerDna W) → ChildrenDna W → TreeDna W

  pub data ChildrenDna (W : Type 0) : Type 0 where
    no_dna : ChildrenDna W
    next_dna : TreeDna W → ChildrenDna W → ChildrenDna W

-- What a search gives: it is not in this part of the tree, a result, or a failed assertion.
pub data Found (A : Type 0) : Type 0 where
  outside : Found A
  found : A → Found A
  stuck : Found A

abbrev pub found_only : {A : Type 0} → Found A → Option A
found_only outside = none
found_only (found a) = some a
found_only stuck = none

module _ {W : Type 0} where
  pub is_leaf : WhiskerTree W → Bool
  is_leaf (leaf domain w) = true
  is_leaf (branch domain cs) = false

  abbrev pub domain_of : WhiskerTree W → MemoryRange W
  domain_of (leaf domain w) = domain
  domain_of (branch domain cs) = domain

  -- A loop that changes the rule of every leaf.
  unfoldable mutual
    pub map_rules : (Whisker W → Whisker W) → WhiskerTree W → WhiskerTree W
    map_rules f (leaf domain w) = leaf domain (f w)
    map_rules f (branch domain cs) = branch domain (map_children f cs)

    pub map_children : (Whisker W → Whisker W) → Children W → Children W
    map_children f end = end
    map_children f (child x xs) = child (map_rules f x) (map_children f xs)

  abbrev pub reset_counts : WhiskerTree W → WhiskerTree W
  reset_counts t = map_rules reset_rule_count t

  abbrev pub promote : WhiskerTree W → ℕ → WhiskerTree W
  promote t generation = map_rules (λ w. promote_rule w generation) t

  abbrev pub reset_generation : WhiskerTree W → WhiskerTree W
  reset_generation t = map_rules (λ w. demote_rule w 0) t

  -- The candidate of a child replaces the best one so far, unless it is used less.
  unfoldable pub better : Option (Whisker W) → ℕ → ℕ × Option (Whisker W) → ℕ × Option (Whisker W)
  better none max_generation best = best
  better (some c) max_generation best =
      if leb c.generation max_generation && leb best.0 c.domain.count
      then (c.domain.count, some c)
      else best

  unfoldable mutual
    pub most_used : WhiskerTree W → ℕ → Option (Whisker W)
    most_used (leaf domain w) max_generation =
        if leb w.generation max_generation && ltb 0 w.domain.count then some w else none
    most_used (branch domain cs) max_generation = (most_used_child cs max_generation (0, none)).1

    pub most_used_child : Children W → ℕ → ℕ × Option (Whisker W) → ℕ × Option (Whisker W)
    most_used_child end max_generation best = best
    most_used_child (child x xs) max_generation best =
        most_used_child xs max_generation (better (most_used x max_generation) max_generation best)

  unfoldable mutual
    pub total_whisker_queries : WhiskerTree W → ℕ
    total_whisker_queries (leaf domain w) = w.domain.count
    total_whisker_queries (branch domain cs) = sum_queries cs 0

    pub sum_queries : Children W → ℕ → ℕ
    sum_queries end sum = sum
    sum_queries (child x xs) sum = sum_queries xs ((sum + total_whisker_queries x) % 2 ^ 32)

  unfoldable pub count_children : Children W → ℕ
  count_children end = 0
  count_children (child x xs) = count_children xs + 1

  unfoldable pub num_children : WhiskerTree W → ℕ
  num_children (leaf domain w) = 1
  num_children (branch domain cs) = count_children cs

  unfoldable mutual
    pub dna_of_tree : WhiskerTree W → TreeDna W
    dna_of_tree (leaf domain w) = tree_dna (range_dna domain) (some (rule_dna w)) no_dna
    dna_of_tree (branch domain cs) = tree_dna (range_dna domain) none (dna_of_children cs)

    pub dna_of_children : Children W → ChildrenDna W
    dna_of_children end = no_dna
    dna_of_children (child x xs) = next_dna (dna_of_tree x) (dna_of_children xs)

module _ {W : Type 0} ⦃d : Double W⦄ where
  abbrev pub new_tree : WhiskerTree W
  new_tree =
      let domain : MemoryRange W = memory_range new_memory max_memory in
      leaf domain (new_rule domain)

  unfoldable pub leaves_of : List (Whisker W) → Children W
  leaves_of [] = end
  leaves_of (w ∷ ws) = child (leaf w.domain w) (leaves_of ws)

  abbrev pub bisected : Whisker W → Option (List (Whisker W)) → Option (WhiskerTree W)
  bisected w none = none
  bisected w (some ws) = some (branch w.domain (leaves_of ws))

  unfoldable pub tree_of_rule : (List W → W) → Whisker W → Bool → Option (WhiskerTree W)
  tree_of_rule median w bisect =
      if bisect then bisected w (bisect_rule median w) else some (leaf w.domain w)

  -- The results of a child and of the children behind it: the loop stops at the first that is not
  -- `outside`. `before` and `behind` put the children together again.
  unfoldable pub first_found :
      Found (Whisker W × WhiskerTree W)
      → WhiskerTree W
      → Children W
      → Found (Whisker W × Children W)
      → Found (Whisker W × Children W)
  first_found outside x xs outside = outside
  first_found outside x xs (found (w, ys)) = found (w, child x ys)
  first_found outside x xs stuck = stuck
  first_found (found (w, t)) x xs rest = found (w, child t xs)
  first_found stuck x xs rest = stuck

  unfoldable pub in_branch :
      MemoryRange W → Found (Whisker W × Children W) → Found (Whisker W × WhiskerTree W)
  in_branch domain outside = outside
  in_branch domain (found (w, cs)) = found (w, branch domain cs)
  in_branch domain stuck = stuck

  -- `whisker` gives a pointer into the tree. Here what `use_whisker` does to the rule there is `f`,
  -- and the result is that rule with the tree that holds it.
  unfoldable mutual
    pub whisker :
        (Whisker W → Whisker W) → WhiskerTree W → Memory W → Found (Whisker W × WhiskerTree W)
    whisker f (leaf domain w) m =
        if contains domain m then found (f w, leaf domain (f w)) else outside
    whisker f (branch domain cs) m =
        let inside = in_branch domain (whisker_child f cs m) in
        if contains domain m then inside else outside

    -- Behind the last child is `assert(false)`.
    pub whisker_child :
        (Whisker W → Whisker W) → Children W → Memory W → Found (Whisker W × Children W)
    whisker_child f end m = stuck
    whisker_child f (child x xs) m = first_found (whisker f x m) x xs (whisker_child f xs m)

  abbrev pub mark : Bool → Memory W → Whisker W → Whisker W
  mark track m w = if track then track_rule (use_rule w) m else use_rule w

  -- `none` is the end of the program: no rule is found.
  unfoldable pub use_whisker : WhiskerTree W → Memory W → Bool → Option (Whisker W × WhiskerTree W)
  use_whisker t m track = found_only (whisker (mark track m) t m)
