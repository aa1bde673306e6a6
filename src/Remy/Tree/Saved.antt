-- ===== src/Remy/Tree/Saved.antt =====
-- Trees that are saved and loaded again.
use copa_new.Prelude.{◌≡◌, refl, sym, ap₂, ◌∙◌, Bool, true, false, some, if◌then◌else◌}
use copa_new.Prelude.Int.{ℤ}
use copa_new.Double.{Double}
use copa_new.Remy.{Memory}
use copa_new.Remy.Range.{MemoryRange, contains, range_dna, range_of_dna}
use copa_new.Remy.Whisker.{Whisker, rule_dna, rule_of_dna}
use copa_new.Remy.Tree.{
  WhiskerTree, leaf, branch, Children, end, child, Found, outside, found, stuck, first_found,
  in_branch, whisker, whisker_child, dna_of_tree, dna_of_children,
}
use copa_new.Remy.Tree.Replace.{
  tree_of_dna, children_of_dna, no_children, some_children, cons_child,
}

module _ {W : Type 0} ⦃d : Double W⦄ where
  -- What is left of a tree: the counts and the estimators start anew.
  unfoldable mutual
    pub plain : WhiskerTree W → WhiskerTree W
    plain (leaf domain w) = leaf (range_of_dna (range_dna domain)) (rule_of_dna (rule_dna w))
    plain (branch domain cs) = branch (range_of_dna (range_dna domain)) (plain_children cs)

    plain_children : Children W → Children W
    plain_children end = end
    plain_children (child x xs) = child (plain x) (plain_children xs)

  -- Every inner node has a child.
  unfoldable mutual
    pub IsProper : WhiskerTree W → Type 0
    IsProper (leaf domain w) = Unit
    IsProper (branch domain cs) = HasChild cs × AreProper cs

    HasChild : Children W → Type 0
    HasChild end = ⊥
    HasChild (child x xs) = Unit

    AreProper : Children W → Type 0
    AreProper end = Unit
    AreProper (child x xs) = IsProper x × AreProper xs

  mutual
    unfolding tree_of_dna dna_of_tree plain IsProper no_children some_children cons_child

    loaded : (t : WhiskerTree W) → IsProper t → tree_of_dna (dna_of_tree t) ≡ some (plain t)
    loaded (leaf domain w) p = refl
    loaded (branch domain end) p = absurd p.0
    loaded (branch domain (child x xs)) p = rw (loaded x p.1.0, loaded_children xs p.1.1)

    loaded_children :
        (cs : Children W)
        → AreProper cs
        → children_of_dna (dna_of_children cs) ≡ some (plain_children cs)
    loaded_children end p = refl
    loaded_children (child x xs) p = rw (loaded x p.0, loaded_children xs p.1)

  -- What a rule says to do.
  abbrev pub action : Whisker W → ℤ × W × W
  action w = (w.window_increment, w.window_multiple, w.intersend)

  abbrev pub action_in : {A : Type 0} → Found (Whisker W × A) → Found (ℤ × W × W)
  action_in outside = outside
  action_in (found (w, a)) = found (action w)
  action_in stuck = stuck

  unfoldable pub either : Found (ℤ × W × W) → Found (ℤ × W × W) → Found (ℤ × W × W)
  either outside r = r
  either (found a) r = found a
  either stuck r = stuck

  action-in_branch :
      (domain : MemoryRange W) (r : Found (Whisker W × Children W))
      → action_in (in_branch domain r) ≡ action_in r
  unfolding in_branch
  action-in_branch domain outside = refl
  action-in_branch domain (found (w, a)) = refl
  action-in_branch domain stuck = refl

  action-first_found :
      (a : Found (Whisker W × WhiskerTree W)) (x : WhiskerTree W) (xs : Children W)
      (r : Found (Whisker W × Children W))
      → action_in (first_found a x xs r) ≡ either (action_in a) (action_in r)
  unfolding first_found either
  action-first_found outside x xs outside = refl
  action-first_found outside x xs (found (w, b)) = refl
  action-first_found outside x xs stuck = refl
  action-first_found (found (w, b)) x xs r = refl
  action-first_found stuck x xs r = refl

  abbrev pub stay : Whisker W → Whisker W
  stay w = w

  action-if :
      {A B : Type 0} (b : Bool) (x : Found (Whisker W × A)) (y : Found (Whisker W × B))
      → action_in x ≡ action_in y
      → action_in (if b then x else outside) ≡ action_in (if b then y else outside)
  action-if true x y h = h
  action-if false x y h = refl

  mutual
    unfolding whisker plain

    action-plain :
        (t : WhiskerTree W) (m : Memory W)
        → action_in (whisker stay (plain t) m) ≡ action_in (whisker stay t m)
    action-plain (leaf domain w) m = action-if (contains domain m) _ _ refl
    action-plain (branch domain cs) m = action-if (contains domain m) _ _ (
        action-in_branch (range_of_dna (range_dna domain))
          (whisker_child stay (plain_children cs) m)
        ∙ action-plain_children cs m
        ∙ sym (action-in_branch domain (whisker_child stay cs m)))

    action-plain_children :
        (cs : Children W) (m : Memory W)
        → action_in (whisker_child stay (plain_children cs) m) ≡ action_in (whisker_child stay cs m)
    action-plain_children end m = refl
    action-plain_children (child x xs) m =
        action-first_found (whisker stay (plain x) m) (plain x) (plain_children xs)
          (whisker_child stay (plain_children xs) m)
        ∙ ap₂ either (action-plain x m) (action-plain_children xs m)
        ∙ sym (action-first_found (whisker stay x m) x xs (whisker_child stay xs m))

  -- A tree in which every inner node has a child can be loaded again after it is saved, and then says
  -- for every memory what it said before.
  pub load-save :
      (t : WhiskerTree W)
      → IsProper t
      → (t' : WhiskerTree W) × (tree_of_dna (dna_of_tree t) ≡ some t')
        × ((m : Memory W) → action_in (whisker stay t' m) ≡ action_in (whisker stay t m))
  load-save t p = (plain t, loaded t p, λ m. action-plain t m)
