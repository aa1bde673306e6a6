-- ===== src/Remy/Whisker/Next.antt =====
-- whisker.hh, lines 56-71 and 106-113, and whisker.cc, lines 39-93 and 129-133: the rules that a search
-- for better ones tries next to a rule.
pub mod Bounds
use copa_new.Prelude.{
  ℕ, zero, suc, ◌+◌, ◌*◌, ◌-◌, ◌%◌, ◌^◌, List, [], ◌∷◌, ◌++◌, map, Bool, true, false, ◌&&◌, Option,
  none, some, if◌then◌else◌, leb,
}
use copa_new.Prelude.Int.{ℤ, pos, pos_part, neg_part}
use copa_new.Double.{Double, ◌⊕◌, ◌⊖◌, ◌⊗◌, ◌⊘◌, ◌≤?◌, lit}
use copa_new.Remy.Whisker.{Whisker}

-- What the template uses of its type.
pub record Number (T : Type 0) : Type 0 where
  pub add : T → T → T
  pub sub : T → T → T
  pub mul : T → T → T
  pub le : T → T → Bool

-- An unsigned int, and a double.
abbrev pub unsigned_number : Number ℕ
unsigned_number = record {
  add = λ a b. (a + b) % 2 ^ 32;
  sub = λ a b. (a + 2 ^ 32 - b) % 2 ^ 32;
  mul = λ a b. (a * b) % 2 ^ 32;
  le = leb;
}

abbrev pub double_number : {W : Type 0} → ⦃d : Double W⦄ → Number W
double_number {W} ⦃d⦄ = record { add = d.add; sub = d.sub; mul = d.mul; le = d.le }

pub record OptimizationSetting (T : Type 0) : Type 0 where
  pub min_value : T
  pub max_value : T
  pub min_change : T
  pub max_change : T
  pub multiplier : T
  pub default_value : T

module _ {T : Type 0} (n : Number T) (o : OptimizationSetting T) where
  abbrev pub eligible_value : T → Bool
  eligible_value value = n.le o.min_value value && n.le value o.max_value

  abbrev pub keep_eligible : T → List T → List T
  keep_eligible x xs = if eligible_value x then x ∷ xs else xs

  abbrev pub add_both : T → T → Option (List T) → Option (List T)
  add_both value change none = none
  add_both value change (some xs) =
      some (keep_eligible (n.add value change) (keep_eligible (n.sub value change) xs))

  -- The loop over the changes; `none` is the end of the fuel.
  unfoldable pub changes : ℕ → T → T → Option (List T)
  changes zero value change = if n.le change o.max_change then none else some []
  changes (suc fuel) value change =
      let rest = changes fuel value (n.mul change o.multiplier) in
      if n.le change o.max_change then add_both value change rest else some []

  abbrev pub with_value : T → Option (List T) → Option (List T)
  with_value value none = none
  with_value value (some xs) = some (value ∷ xs)

  -- `none` is also the failed assertion that the value is eligible.
  unfoldable pub alternatives : ℕ → T → Option (List T)
  alternatives fuel value =
      if eligible_value value then with_value value (changes fuel value o.min_change) else none

abbrev pub window_increments : OptimizationSetting ℕ
window_increments = record {
  min_value = 0;
  max_value = 256;
  min_change = 1;
  max_change = 32;
  multiplier = 4;
  default_value = 1;
}

-- A nested loop.
abbrev pub flat_map : {A B : Type 0} → (A → List B) → List A → List B
flat_map f [] = []
flat_map f (x ∷ xs) = f x ++ flat_map f xs

module _ {W : Type 0} ⦃d : Double W⦄ where
  abbrev pub window_multiples : OptimizationSetting W
  window_multiples = record {
    min_value = lit 0 1;
    max_value = lit 1 1;
    min_change = lit 1 100;
    max_change = lit 1 2;
    multiplier = lit 4 1;
    default_value = lit 1 1;
  }

  abbrev pub intersends : OptimizationSetting W
  intersends = record {
    min_value = lit 1 4;
    max_value = lit 3 1;
    min_change = lit 5 100;
    max_change = lit 1 1;
    multiplier = lit 4 1;
    default_value = lit 3 1;
  }

  -- (1.0/10000.0) * int( 10000 * x ).
  abbrev pub round_off : W → W
  round_off x = lit 1 1 ⊘ lit 10000 1 ⊗ d.of_int (d.trunc (lit 10000 1 ⊗ x))

  abbrev pub new_whisker : Whisker W → ℕ → W → W → Whisker W
  new_whisker w window multiple intersend = record w {
    generation = (w.generation + 1) % 2 ^ 32;
    window_increment = pos window;
    window_multiple = round_off multiple;
    intersend = round_off intersend;
  }

  abbrev pub all_rules :
      Whisker W → Option (List ℕ) → Option (List W) → Option (List W) → Option (List (Whisker W))
  all_rules w (some windows) (some multiples) (some intersends) =
      some (
        flat_map (λ i. flat_map (λ m. map (λ s. new_whisker w i m s) intersends) multiples) windows)
  all_rules w _ _ _ = none

  -- An int that is given as an unsigned int is taken modulo 2^32.
  unfoldable pub next_generation : ℕ → Whisker W → Option (List (Whisker W))
  next_generation fuel w =
      all_rules w
        (alternatives unsigned_number window_increments fuel
          ((pos_part w.window_increment + (2 ^ 32 - neg_part w.window_increment)) % 2 ^ 32))
        (alternatives double_number window_multiples fuel w.window_multiple)
        (alternatives double_number intersends fuel w.intersend)
