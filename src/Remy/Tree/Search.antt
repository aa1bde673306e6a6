-- ===== src/Remy/Tree/Search.antt =====
-- The search for a rule: it finds one in a tree whose children cover their parent.
use copa_new.Prelude.{◌≡◌, sym, ap, ◌∙◌, Bool, true, false, ◌||◌, Bool-cases, inl, inr, arith}
use copa_new.Double.{Double}
use copa_new.Remy.{Memory}
use copa_new.Remy.Range.{MemoryRange, contains}
use copa_new.Remy.Whisker.{Whisker}
use copa_new.Remy.Tree.{
  WhiskerTree, leaf, branch, Children, end, child, outside, found, domain_of, first_found,
  in_branch, whisker, whisker_child,
}

-- A leaf of the tree: the domain of its node, and its rule.
mutual
  pub data HasLeaf {W : Type 0} (domain : MemoryRange W) (w : Whisker W)
      : WhiskerTree W → Type 0 where
    at_leaf : HasLeaf domain w (leaf domain w)
    in_child :
        {d : MemoryRange W} {cs : Children W}
        → HasLeafIn domain w cs
        → HasLeaf domain w (branch d cs)

  pub data HasLeafIn {W : Type 0} (domain : MemoryRange W) (w : Whisker W)
      : Children W → Type 0 where
    first :
        {x : WhiskerTree W} {xs : Children W} → HasLeaf domain w x → HasLeafIn domain w (child x xs)
    behind :
        {x : WhiskerTree W} {xs : Children W}
        → HasLeafIn domain w xs
        → HasLeafIn domain w (child x xs)

module _ {W : Type 0} ⦃d : Double W⦄ where
  unfoldable pub in_some : Children W → Memory W → Bool
  in_some end m = false
  in_some (child x xs) m = contains (domain_of x) m || in_some xs m

  -- At every node, what the domain contains is in the domain of one of its children.
  unfoldable mutual
    pub IsCovering : WhiskerTree W → Type 0
    IsCovering (leaf domain w) = Unit
    IsCovering (branch domain cs) =
        ((m : Memory W) → contains domain m ≡ true → in_some cs m ≡ true) × AreCovering cs

    pub AreCovering : Children W → Type 0
    AreCovering end = Unit
    AreCovering (child x xs) = IsCovering x × AreCovering xs

  whisker-outside :
      (f : Whisker W → Whisker W) (t : WhiskerTree W) (m : Memory W)
      → contains (domain_of t) m ≡ false
      → whisker f t m ≡ outside
  unfolding whisker
  whisker-outside f (leaf domain w) m h = rw h
  whisker-outside f (branch domain cs) m h = rw h

  -- The rule that is found, in a leaf whose domain contains the memory.
  abbrev pub Finds : (Whisker W → Whisker W) → WhiskerTree W → Memory W → Type 0
  Finds f t m =
      (domain : MemoryRange W) × (w : Whisker W) × (t' : WhiskerTree W) × HasLeaf domain w t
      × (contains domain m ≡ true)
      × (whisker f t m ≡ found (f w, t'))

  abbrev FindsIn : (Whisker W → Whisker W) → Children W → Memory W → Type 0
  FindsIn f cs m =
      (domain : MemoryRange W) × (w : Whisker W) × (cs' : Children W) × HasLeafIn domain w cs
      × (contains domain m ≡ true)
      × (whisker_child f cs m ≡ found (f w, cs'))

  mutual
    unfolding whisker first_found in_branch IsCovering in_some

    node-Finds :
        (t : WhiskerTree W) (f : Whisker W → Whisker W) (m : Memory W)
        → IsCovering t
        → contains (domain_of t) m ≡ true
        → Finds f t m
    node-Finds (leaf domain w) f m c h = (domain, w, leaf domain (f w), HasLeaf.at_leaf, h, rw h)
    node-Finds (branch domain cs) f m c h =
        let (dom, w, cs', l, k, e) = child-FindsIn cs f m c.1 (c.0 m h) in
        (dom, w, branch domain cs', HasLeaf.in_child l, k, rw (h, e))

    child-FindsIn :
        (cs : Children W) (f : Whisker W → Whisker W) (m : Memory W)
        → AreCovering cs
        → in_some cs m ≡ true
        → FindsIn f cs m
    child-FindsIn end f m c h = absurd (ground (arith, h))
    child-FindsIn (child x xs) f m c h = elim (Bool-cases (contains (domain_of x) m)) [
      | inl b ↦
          let (dom, w, t, l, k, e) = node-Finds x f m c.0 b in
          (dom, w, child t xs, HasLeafIn.first l, k, rw e)
      | inr b ↦
          let (dom, w, cs', l, k, e) =
            child-FindsIn xs f m c.1 (sym (ap (λ t. t || in_some xs m) b) ∙ h) in
          (dom, w, child x cs', HasLeafIn.behind l, k, rw (whisker-outside f x m b, e))
    ]

  -- In a tree whose children cover their parents, the search for any memory in the domain of the root
  -- finds the rule of a leaf whose domain contains it, and no assertion fails.
  pub whisker-Finds :
      (t : WhiskerTree W) (f : Whisker W → Whisker W) (m : Memory W)
      → IsCovering t
      → contains (domain_of t) m ≡ true
      → Finds f t m
  whisker-Finds t f m c h = node-Finds t f m c h
