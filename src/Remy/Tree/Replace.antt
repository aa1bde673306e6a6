-- ===== src/Remy/Tree/Replace.antt =====
-- whiskertree.cc, lines 137-180 and 254-268: a leaf of the tree is replaced; a tree is loaded.
use copa_new.Prelude.{Option, none, some, if◌then◌else◌}
use copa_new.Double.{Double}
use copa_new.Remy.Range.{MemoryRange, RangeDna, contains, same_range, range_median, range_of_dna}
use copa_new.Remy.Whisker.{Whisker, WhiskerDna, rule_of_dna}
use copa_new.Remy.Tree.{
  WhiskerTree, leaf, branch, Children, end, child, TreeDna, tree_dna, ChildrenDna, no_dna, next_dna,
  Found, outside, found, stuck,
}

module _ {W : Type 0} ⦃d : Double W⦄ where
  unfoldable pub first_replaced :
      Found (WhiskerTree W) → WhiskerTree W → Children W → Found (Children W) → Found (Children W)
  first_replaced outside x xs outside = outside
  first_replaced outside x xs (found ys) = found (child x ys)
  first_replaced outside x xs stuck = stuck
  first_replaced (found t) x xs rest = found (child t xs)
  first_replaced stuck x xs rest = stuck

  unfoldable pub branch_replaced : MemoryRange W → Found (Children W) → Found (WhiskerTree W)
  branch_replaced domain outside = outside
  branch_replaced domain (found cs) = found (branch domain cs)
  branch_replaced domain stuck = stuck

  -- Both forms of `replace`: the leaf for a range becomes `make` of the domain of its node.
  unfoldable mutual
    pub replace_by :
        MemoryRange W → (MemoryRange W → WhiskerTree W) → WhiskerTree W → Found (WhiskerTree W)
    replace_by range make (leaf domain w) =
        if contains domain (range_median range)
        then if same_range range w.domain then found (make domain) else stuck
        else outside
    replace_by range make (branch domain cs) =
        let inside = branch_replaced domain (replace_child range make cs) in
        if contains domain (range_median range) then inside else outside

    pub replace_child :
        MemoryRange W → (MemoryRange W → WhiskerTree W) → Children W → Found (Children W)
    replace_child range make end = stuck
    replace_child range make (child x xs) =
        first_replaced (replace_by range make x) x xs (replace_child range make xs)

  abbrev pub replace : Whisker W → WhiskerTree W → Found (WhiskerTree W)
  replace w t = replace_by w.domain (λ domain. leaf domain w) t

  abbrev pub replace_tree : Whisker W → WhiskerTree W → WhiskerTree W → Found (WhiskerTree W)
  replace_tree src dst t = replace_by src.domain (λ domain. dst) t

  unfoldable pub no_children : RangeDna W → WhiskerDna W → ChildrenDna W → Option (WhiskerTree W)
  no_children domain w no_dna = some (leaf (range_of_dna domain) (rule_of_dna w))
  no_children domain w (next_dna x xs) = none

  unfoldable pub some_children : RangeDna W → Option (Children W) → Option (WhiskerTree W)
  some_children domain none = none
  some_children domain (some end) = none
  some_children domain (some (child x xs)) = some (branch (range_of_dna domain) (child x xs))

  unfoldable pub cons_child : Option (WhiskerTree W) → Option (Children W) → Option (Children W)
  cons_child none xs = none
  cons_child (some x) none = none
  cons_child (some x) (some xs) = some (child x xs)

  -- `none` is a failed assertion: a node has either a leaf or children.
  unfoldable mutual
    pub tree_of_dna : TreeDna W → Option (WhiskerTree W)
    tree_of_dna (tree_dna domain (some w) cs) = no_children domain w cs
    tree_of_dna (tree_dna domain none cs) = some_children domain (children_of_dna cs)

    pub children_of_dna : ChildrenDna W → Option (Children W)
    children_of_dna no_dna = some end
    children_of_dna (next_dna x xs) = cons_child (tree_of_dna x) (children_of_dna xs)
