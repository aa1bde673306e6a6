-- ===== src/Double.antt =====
-- What the congestion controller does with a `double`. The type and its operations belong to the
-- language: they are a parameter, and `IsOrdered` states what its standard says of them.
use copa_new.Prelude.{
  ℕ, ◌+◌, ◌-◌, ◌*◌, ◌/◌, ◌≤◌, ◌≡◌, Bool, true, false, ltb, leb, ◌==◌, if◌then◌else◌, arith,
}
use copa_new.Prelude.Int.{ℤ, pos, pos_part}

-- `lit a b` is the double nearest to a / b, as a literal gives it; `greatest` and `least_positive`
-- are the values of `numeric_limits`; `trunc` is the conversion to int.
pub record Double (W : Type 0) : Type 0 where
  pub add : W → W → W
  pub sub : W → W → W
  pub mul : W → W → W
  pub div : W → W → W
  pub lt : W → W → Bool
  pub le : W → W → Bool
  pub eq : W → W → Bool
  pub lit : ℕ → ℕ → W
  pub of_int : ℤ → W
  pub trunc : W → ℤ
  pub greatest : W
  pub least_positive : W

module _ {W : Type 0} ⦃d : Double W⦄ where
  infixl 65 ◌⊕◌ ◌⊖◌
  infixl 70 ◌⊗◌ ◌⊘◌
  infix 50 ◌<?◌ ◌≤?◌ ◌≡?◌
  abbrev pub ◌⊕◌ : W → W → W
  a ⊕ b = d.add a b

  abbrev pub ◌⊖◌ : W → W → W
  a ⊖ b = d.sub a b

  abbrev pub ◌⊗◌ : W → W → W
  a ⊗ b = d.mul a b

  abbrev pub ◌⊘◌ : W → W → W
  a ⊘ b = d.div a b

  abbrev pub ◌<?◌ : W → W → Bool
  a <? b = d.lt a b

  abbrev pub ◌≤?◌ : W → W → Bool
  a ≤? b = d.le a b

  abbrev pub ◌≡?◌ : W → W → Bool
  a ≡? b = d.eq a b

  abbrev pub lit : ℕ → ℕ → W
  lit a b = d.lit a b

  abbrev pub greatest : W
  greatest = d.greatest

  -- `std::min` and `std::max`: of two that are equal, the first.
  unfoldable pub least : W → W → W
  least a b = if b <? a then b else a

  unfoldable pub most : W → W → W
  most a b = if a <? b then b else a

  -- Neither NaN nor, for `IsFinite`, an infinity.
  abbrev pub IsNum : W → Type 0
  IsNum x = (x ≡? x) ≡ true

  abbrev pub IsFinite : W → Type 0
  IsFinite x = IsNum x × ((x ≤? greatest) ≡ true) × ((lit 0 1 ⊖ greatest ≤? x) ≡ true)

pub record IsOrdered (W : Type 0) ⦃d : Double W⦄ : Type 0 where
  pub lt_irrefl : (x : W) → (x <? x) ≡ false
  pub lt_trans : (x y z : W) → (x <? y) ≡ true → (y <? z) ≡ true → (x <? z) ≡ true
  pub lt_num : (x y : W) → (x <? y) ≡ true → IsNum {W = W} x × IsNum {W = W} y
  -- Between numbers, "not below" is transitive.
  pub ge_trans :
      (x y z : W)
      → IsNum {W = W} x
      → IsNum {W = W} y
      → IsNum {W = W} z
      → (x <? y) ≡ false
      → (y <? z) ≡ false
      → (x <? z) ≡ false
  pub le_of_not_lt :
      (x y : W) → IsNum {W = W} x → IsNum {W = W} y → (y <? x) ≡ false → (x ≤? y) ≡ true
  pub lit_num : (a b : ℕ) → IsNum {W = W} (lit a (b + 1))
  pub lit_mono : (a b : ℕ) → b ≤ a → d.lt (d.lit a 1) (d.lit b 1) ≡ false
  pub sub_num : (x y : W) → IsFinite {W = W} x → IsNum {W = W} y → IsNum {W = W} (x ⊖ y)
  pub sub_anti :
      (x y z : W)
      → IsFinite {W = W} x
      → IsNum {W = W} y
      → IsNum {W = W} z
      → (y <? z) ≡ false
      → (x ⊖ z <? x ⊖ y) ≡ false

-- The laws can be met: whole numbers, on which subtraction stops at 0.
instance abbrev pub whole : Double ℕ
whole = record {
  add = λ a b. a + b;
  sub = λ a b. a - b;
  mul = λ a b. a * b;
  div = λ a b. a / b;
  lt = ltb;
  le = leb;
  eq = ◌==◌;
  lit = λ a b. a / b;
  of_int = pos_part;
  trunc = pos;
  greatest = 1000000000;
  least_positive = 1;
}

pub whole-IsOrdered : IsOrdered ℕ
whole-IsOrdered = record {
  lt_irrefl = λ x. ground arith;
  lt_trans = λ x y z h k. ground arith;
  lt_num = λ x y h. (ground arith, ground arith);
  ge_trans = λ x y z hx hy hz h k. ground arith;
  le_of_not_lt = λ x y hx hy h. ground arith;
  lit_num = λ a b. ground arith;
  lit_mono = λ a b h. ground arith;
  sub_num = λ x y h k. ground arith;
  sub_anti = λ x y z h hy hz k. ground arith;
}
