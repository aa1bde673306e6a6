-- ===== src/Remy/Tree/Used.antt =====
-- The counts of the rules: how a search changes their sum, and the rule that is used most.
use copa_new.Prelude.{
  ℕ, ◌≤◌, ◌<◌, ◌≡◌, refl, subst, true, ◌&&◌, Option, none, some, Bool-cases, inl, inr, arith, ltb,
  leb,
}
use copa_new.Remy.Whisker.{Whisker}
use copa_new.Remy.Tree.{
  WhiskerTree, leaf, branch, Children, end, child, better, most_used, most_used_child,
}

module _ {W : Type 0} where
  -- Every leaf's rule satisfies `P`.
  unfoldable mutual
    pub AllRules : (Whisker W → Type 0) → WhiskerTree W → Type 0
    AllRules P (leaf domain w) = P w
    AllRules P (branch domain cs) = AllRulesIn P cs

    pub AllRulesIn : (Whisker W → Type 0) → Children W → Type 0
    AllRulesIn P end = Unit
    AllRulesIn P (child x xs) = AllRules P x × AllRulesIn P xs

  module _ (P Q : Whisker W → Type 0) (f : (w : Whisker W) → P w → Q w) where
    mutual
      unfolding AllRules

      AllRules-imp : (t : WhiskerTree W) → AllRules P t → AllRules Q t
      AllRules-imp (leaf domain w) h = f w h
      AllRules-imp (branch domain cs) h = AllRulesIn-imp cs h

      AllRulesIn-imp : (cs : Children W) → AllRulesIn P cs → AllRulesIn Q cs
      AllRulesIn-imp end h = tt
      AllRulesIn-imp (child x xs) h = (AllRules-imp x h.0, AllRulesIn-imp xs h.1)

  -- A rule that may be chosen, and a choice: it may be chosen, and has the property `P`.
  abbrev pub IsEligible : ℕ → Whisker W → Type 0
  IsEligible g w = (w.generation ≤ g) × (0 < w.domain.count)

  abbrev pub IsChoice : ℕ → (Whisker W → Type 0) → Option (Whisker W) → Type 0
  IsChoice g P none = Unit
  IsChoice g P (some c) = IsEligible g c × P c

  -- How often a choice was used.
  abbrev pub uses : Option (Whisker W) → ℕ
  uses none = 0
  uses (some c) = c.domain.count

  abbrev pub IsNoMore : ℕ → ℕ → Whisker W → Type 0
  IsNoMore g n w = IsEligible g w → w.domain.count ≤ n

  module _ (g : ℕ) (P : Whisker W → Type 0) where
    -- The best of the children so far.
    record IsBest (best : ℕ × Option (Whisker W)) : Type 0 where
      uses_eq : best.0 ≡ uses best.1
      choice : IsChoice g P best.1

    better-IsBest :
        (c : Option (Whisker W)) (best : ℕ × Option (Whisker W))
        → IsChoice g P c
        → IsBest best
        → IsBest (better c g best) × (best.0 ≤ (better c g best).0) × (uses c ≤ (better c g best).0)
    unfolding better
    better-IsBest none best h k = (k, omega arith, omega arith)
    better-IsBest (some c) best h k =
        let young : leb c.generation g ≡ true = ground (arith, h.0.0) in
        elim (Bool-cases (leb best.0 c.domain.count)) [
          | inl e ↦
              rw (young, e) (record { uses_eq = refl; choice = h }, ground (arith, e), omega arith)
          | inr e ↦ rw (young, e) (k, omega arith, ground (arith, e))
        ]

    mutual
      unfolding most_used AllRules

      most_used-IsChoice :
          (t : WhiskerTree W)
          → AllRules P t
          → IsChoice g P (most_used t g) × AllRules (IsNoMore g (uses (most_used t g))) t
      most_used-IsChoice (leaf domain w) p =
          elim (Bool-cases (leb w.generation g && ltb 0 w.domain.count)) [
            | inl e ↦ rw e (((ground (arith, e), ground (arith, e)), p), λ h. omega arith)
            | inr e ↦ rw e (tt, λ h. absurd (ground (arith, e, h.0, h.1)))
          ]
      most_used-IsChoice (branch domain cs) p =
          let (b, le, all) =
            most_used_child-IsBest cs (0, none) p (record { uses_eq = refl; choice = tt }) in
          (
            b.choice,
            AllRulesIn-imp _ _ (λ w h k. subst (λ n. w.domain.count ≤ n) b.uses_eq (h k)) cs all,
          )

      most_used_child-IsBest :
          (cs : Children W) (best : ℕ × Option (Whisker W))
          → AllRulesIn P cs
          → IsBest best
          → IsBest (most_used_child cs g best)
            × (best.0 ≤ (most_used_child cs g best).0)
            × AllRulesIn (IsNoMore g (most_used_child cs g best).0) cs
      most_used_child-IsBest end best p b = (b, omega arith, tt)
      most_used_child-IsBest (child x xs) best p b =
          let (c, most) = most_used-IsChoice x p.0 in
          let (b', up, over) = better-IsBest (most_used x g) best c b in
          let (b2, up2, rest) = most_used_child-IsBest xs (better (most_used x g) g best) p.1 b' in
          (
            b2,
            omega (arith, up, up2),
            (AllRules-imp _ _ (λ w h k. omega (arith, h k, over, up2)) x most, rest),
          )

  -- The rule that the search for the most used one gives is of the wanted generation or an earlier
  -- one, was used, and has whatever property all the rules of the tree have; no rule of the tree
  -- that may be chosen was used more often, and it gives none only if no rule may be chosen.
  pub most_used_lem :
      (P : Whisker W → Type 0) (t : WhiskerTree W) (g : ℕ)
      → AllRules P t
      → IsChoice g P (most_used t g) × AllRules (IsNoMore g (uses (most_used t g))) t
  most_used_lem P t g p = most_used-IsChoice g P t p
