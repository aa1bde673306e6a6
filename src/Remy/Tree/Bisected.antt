-- ===== src/Remy/Tree/Bisected.antt =====
-- A rule that is bisected becomes a tree whose children cover it.
use copa_new.Prelude.{◌≡◌, refl, ap, ◌∙◌, List, [], ◌∷◌, map, Bool, true, ◌||◌, Option, none, some}
use copa_new.Double.{Double, IsOrdered}
use copa_new.Copa.Frame.{OnSome, if_elim}
use copa_new.Remy.{Memory}
use copa_new.Remy.Range.{MemoryRange, contains, bisect_range}
use copa_new.Remy.Range.Parts.{in_parts, IsCovered, IsCut, bisect_range-IsCovered}
use copa_new.Remy.Whisker.{Whisker, rules_of_parts, bisect_rule}
use copa_new.Remy.Tree.{leaves_of, bisected, tree_of_rule}
use copa_new.Remy.Tree.Search.{IsCovering, AreCovering, in_some}

module _ {W : Type 0} ⦃d : Double W⦄ where
  -- The rules of the parts.
  abbrev rules : Whisker W → List (MemoryRange W) → List (Whisker W)
  rules w parts = map (λ x. record w { domain = x }) parts

  in_some-leaves_of :
      (w : Whisker W) (parts : List (MemoryRange W)) (m : Memory W)
      → in_some (leaves_of (rules w parts)) m ≡ in_parts parts m
  unfolding in_some leaves_of
  in_some-leaves_of w [] m = refl
  in_some-leaves_of w (x ∷ xs) m = ap (λ b. contains x m || b) (in_some-leaves_of w xs m)

  leaves_of-AreCovering : (ws : List (Whisker W)) → AreCovering (leaves_of ws)
  unfolding IsCovering leaves_of
  leaves_of-AreCovering [] = tt
  leaves_of-AreCovering (w ∷ ws) = (tt, leaves_of-AreCovering ws)

  bisected-IsCovering :
      (w : Whisker W) (parts : Option (List (MemoryRange W)))
      → ((m : Memory W) → contains w.domain m ≡ true → OnSome (IsCovered m) parts)
      → OnSome IsCovering (bisected w (rules_of_parts w parts))
  unfolding IsCovering
  bisected-IsCovering w none h = tt
  bisected-IsCovering w (some parts) h =
      ((λ m k. in_some-leaves_of w parts m ∙ h m k), leaves_of-AreCovering (rules w parts))

module _ {W : Type 0} ⦃d : Double W⦄ (o : IsOrdered W) where
  -- The tree of a rule, bisected or not, is one whose children cover their parents, where the medians and
  -- midpoints of the rule's range are numbers; a bisection may fail an assertion instead.
  pub tree_of_rule-IsCovering :
      (median : List W → W) (w : Whisker W) (bisect : Bool)
      → IsCut median w.domain 0
      → IsCut median w.domain 1
      → IsCut median w.domain 2
      → IsCut median w.domain 3
      → OnSome IsCovering (tree_of_rule median w bisect)
  unfolding tree_of_rule bisect_rule IsCovering
  tree_of_rule-IsCovering median w bisect c0 c1 c2 c3 =
      if_elim (OnSome IsCovering) bisect
        (bisected-IsCovering w (bisect_range median w.domain)
          (λ m h. bisect_range-IsCovered o median w.domain m c0 c1 c2 c3 h))
        tt
