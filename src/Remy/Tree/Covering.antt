-- ===== src/Remy/Tree/Covering.antt =====
-- What a search that marks a rule does to the tree: it covers what it covered, and one rule more was
-- used.
use copa_new.Prelude.{ℕ, ◌+◌, ◌%◌, ◌^◌, ◌≡◌, refl, sym, ap, ◌∙◌, Bool, true, false, ◌||◌, arith}
use copa_new.Double.{Double}
use copa_new.Copa.Frame.{if_elim, OnSome}
use copa_new.Remy.{Memory}
use copa_new.Remy.Range.{MemoryRange, contains}
use copa_new.Remy.Whisker.{Whisker}
use copa_new.Remy.Tree.{
  WhiskerTree, leaf, branch, Children, end, child, Found, outside, found, stuck, found_only,
  domain_of, first_found, in_branch, whisker, whisker_child, total_whisker_queries, sum_queries,
  mark, use_whisker,
}
use copa_new.Remy.Tree.Search.{IsCovering, AreCovering, in_some}

shift : (a b : ℕ) → (a + (b + 1) % 2 ^ 32) % 2 ^ 32 ≡ (a + b + 1) % 2 ^ 32
shift a b = omega arith

shift_left : (a b : ℕ) → (a % 2 ^ 32 + b) % 2 ^ 32 ≡ (a + b) % 2 ^ 32
shift_left a b = omega arith

one_more : (a b : ℕ) → ((a + 1) % 2 ^ 32 + b) % 2 ^ 32 ≡ (a + b + 1) % 2 ^ 32
one_more a b = omega arith

module _ {W : Type 0} ⦃d : Double W⦄ where
  -- The rules' count is raised by one, modulo 2^32.
  abbrev IsMarking : (Whisker W → Whisker W) → Type 0
  IsMarking f = (w : Whisker W) → (f w).domain.count ≡ (w.domain.count + 1) % 2 ^ 32

  abbrev pub IsUsed : WhiskerTree W → WhiskerTree W → Type 0
  IsUsed t t' =
      (domain_of t' ≡ domain_of t)
      × (IsCovering t → IsCovering t')
      × (total_whisker_queries t' ≡ (total_whisker_queries t + 1) % 2 ^ 32)

  abbrev AreUsed : Children W → Children W → Type 0
  AreUsed cs cs' =
      ((m : Memory W) → in_some cs' m ≡ in_some cs m)
      × (AreCovering cs → AreCovering cs')
      × ((s : ℕ) → sum_queries cs' s ≡ (sum_queries cs s + 1) % 2 ^ 32)

  -- A property of the tree or the children a search gives back.
  abbrev OnFound : {A : Type 0} → (A → Type 0) → Found (Whisker W × A) → Type 0
  OnFound P outside = Unit
  OnFound P (found (w, a)) = P a
  OnFound P stuck = Unit

  -- One more before the sum is one more behind it.
  sum_queries-one :
      (cs : Children W) (s : ℕ)
      → sum_queries cs ((s + 1) % 2 ^ 32) ≡ (sum_queries cs (s % 2 ^ 32) + 1) % 2 ^ 32
  unfolding sum_queries
  sum_queries-one end s = omega arith
  sum_queries-one (child x xs) s =
      ap (sum_queries xs) (one_more s (total_whisker_queries x))
      ∙ sum_queries-one xs (s + total_whisker_queries x)
      ∙ ap (λ a. (sum_queries xs a + 1) % 2 ^ 32) (sym (shift_left s (total_whisker_queries x)))

  first_found-AreUsed :
      (x : WhiskerTree W) (xs : Children W) (a : Found (Whisker W × WhiskerTree W))
      (b : Found (Whisker W × Children W))
      → OnFound (IsUsed x) a
      → OnFound (AreUsed xs) b
      → OnFound (AreUsed (child x xs)) (first_found a x xs b)
  unfolding first_found in_some IsCovering total_whisker_queries
  first_found-AreUsed x xs outside outside h k = tt
  first_found-AreUsed x xs outside (found (w, ys)) h k = (
    (λ m. ap (λ b. contains (domain_of x) m || b) (k.0 m)),
    (λ c. (c.0, k.1 c.1)),
    (λ s. k.2 ((s + total_whisker_queries x) % 2 ^ 32)),
  )
  first_found-AreUsed x xs outside stuck h k = tt
  first_found-AreUsed x xs (found (w, t)) rest h k = (
    (λ m. ap (λ r. contains r m || in_some xs m) h.0),
    (λ c. (h.1 c.0, c.1)),
    (λ s.
        ap (λ q. sum_queries xs ((s + q) % 2 ^ 32)) h.2
        ∙ ap (sum_queries xs) (shift s (total_whisker_queries x))
        ∙ sum_queries-one xs (s + total_whisker_queries x)),
  )
  first_found-AreUsed x xs stuck rest h k = tt

  in_branch-IsUsed :
      (domain : MemoryRange W) (cs : Children W) (a : Found (Whisker W × Children W))
      → OnFound (AreUsed cs) a
      → OnFound (IsUsed (branch domain cs)) (in_branch domain a)
  unfolding in_branch IsCovering total_whisker_queries
  in_branch-IsUsed domain cs outside h = tt
  in_branch-IsUsed domain cs (found (w, ys)) h =
      (refl, (λ c. ((λ m k. h.0 m ∙ c.0 m k), h.1 c.1)), h.2 0)
  in_branch-IsUsed domain cs stuck h = tt

  module _ (f : Whisker W → Whisker W) (marking : IsMarking f) where
    mutual
      unfolding whisker total_whisker_queries IsCovering

      whisker-IsUsed : (t : WhiskerTree W) (m : Memory W) → OnFound (IsUsed t) (whisker f t m)
      whisker-IsUsed (leaf domain w) m =
          if_elim (OnFound (IsUsed (leaf domain w))) (contains domain m) (refl, (λ c. c), marking w)
            tt
      whisker-IsUsed (branch domain cs) m =
          if_elim (OnFound (IsUsed (branch domain cs))) (contains domain m)
            (in_branch-IsUsed domain cs (whisker_child f cs m) (whisker_child-AreUsed cs m)) tt

      whisker_child-AreUsed :
          (cs : Children W) (m : Memory W) → OnFound (AreUsed cs) (whisker_child f cs m)
      whisker_child-AreUsed end m = tt
      whisker_child-AreUsed (child x xs) m =
          first_found-AreUsed x xs (whisker f x m) (whisker_child f xs m) (whisker-IsUsed x m)
            (whisker_child-AreUsed xs m)

  mark-IsMarking : (track : Bool) (m : Memory W) → IsMarking (mark track m)
  mark-IsMarking true m w = refl
  mark-IsMarking false m w = refl

  found_only-IsUsed :
      (t : WhiskerTree W) (a : Found (Whisker W × WhiskerTree W))
      → OnFound (IsUsed t) a
      → OnSome (λ x. IsUsed t x.1) (found_only a)
  found_only-IsUsed t outside h = tt
  found_only-IsUsed t (found (w, t')) h = h
  found_only-IsUsed t stuck h = tt

  -- The use of a rule leaves the domain of the root, and a tree whose children cover their parents
  -- is one again; the total of the uses of all rules rises by one, as unsigned 32-bit numbers.
  pub use_whisker-IsUsed :
      (t : WhiskerTree W) (m : Memory W) (track : Bool)
      → OnSome (λ x. IsUsed t x.1) (use_whisker t m track)
  unfolding use_whisker
  use_whisker-IsUsed t m track =
      found_only-IsUsed t (whisker (mark track m) t m)
        (whisker-IsUsed (mark track m) (mark-IsMarking track m) t m)
