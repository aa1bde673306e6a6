-- ===== src/Traffic/Params.antt =====
-- The arguments of a text with commas are read one by one.
use copa_new.Prelude.{
  ℕ, zero, suc, ◌<◌, length-append, ◌≡◌, refl, ap, ap₂, ◌∙◌, List, [], ◌∷◌, ◌++◌, All, false, some,
  ◌==◌, length, arith,
}
use copa_new.Prelude.Int.{ℤ}
use copa_new.Traffic.{TrafficGenerator, read_arg, comma, before_comma, after_comma, read_params}

-- Arguments joined by commas, and read one behind the other.
abbrev pub join : List ℕ → List (List ℕ) → List ℕ
join x [] = x
join x (y ∷ ys) = x ++ (comma ∷ join y ys)

abbrev pub read_each :
    {W : Type 0} → (List ℕ → ℤ) → TrafficGenerator W → List (List ℕ) → TrafficGenerator W
read_each atoi g [] = g
read_each atoi g (x ∷ xs) = read_each atoi (read_arg atoi g x) xs

abbrev pub IsArg : List ℕ → Type 0
IsArg x = All (λ c. (c == comma) ≡ false) x

before_comma-append : (x rest : List ℕ) → IsArg x → before_comma (x ++ (comma ∷ rest)) ≡ x
unfolding before_comma
before_comma-append [] rest h = refl
before_comma-append (c ∷ cs) rest h = rw h.0 (ap (λ t. c ∷ t) (before_comma-append cs rest h.1))

after_comma-append : (x rest : List ℕ) → IsArg x → after_comma (x ++ (comma ∷ rest)) ≡ rest
unfolding after_comma
after_comma-append [] rest h = refl
after_comma-append (c ∷ cs) rest h = rw h.0 (after_comma-append cs rest h.1)

before_comma_all : (x : List ℕ) → IsArg x → before_comma x ≡ x
unfolding before_comma
before_comma_all [] h = refl
before_comma_all (c ∷ cs) h = rw h.0 (ap (λ t. c ∷ t) (before_comma_all cs h.1))

after_comma_all : (x : List ℕ) → IsArg x → after_comma x ≡ []
unfolding after_comma
after_comma_all [] h = refl
after_comma_all (c ∷ cs) h = rw h.0 (after_comma_all cs h.1)

module _ {W : Type 0} (atoi : List ℕ → ℤ) where
  -- One pass of the loop over a text that is not empty.
  pass :
      (fuel : ℕ) (g : TrafficGenerator W) (text x rest : List ℕ)
      → 0 < length text
      → before_comma text ≡ x
      → after_comma text ≡ rest
      → read_params atoi (suc fuel) g text ≡ read_params atoi fuel (read_arg atoi g x) rest
  unfolding read_params
  pass fuel g [] x rest p b a = absurd (omega (arith, p))
  pass fuel g (c ∷ cs) x rest p b a = ap₂ (λ x r. read_params atoi fuel (read_arg atoi g x) r) b a

  read_params-nil : (fuel : ℕ) (g : TrafficGenerator W) → read_params atoi fuel g [] ≡ some g
  unfolding read_params
  read_params-nil fuel g = refl

  -- Arguments without commas, none of them empty, that are joined by commas are read one behind the
  -- other, with fuel for one pass for each of them.
  pub read_params-join :
      (fuel : ℕ) (g : TrafficGenerator W) (x : List ℕ) (xs : List (List ℕ))
      → All (λ a. IsArg a × (0 < length a)) (x ∷ xs)
      → length xs < fuel
      → read_params atoi fuel g (join x xs) ≡ some (read_each atoi g (x ∷ xs))
  read_params-join zero g x xs h enough = absurd (omega (arith, enough))
  read_params-join (suc n) g x [] h enough =
      pass n g x x [] h.0.1 (before_comma_all x h.0.0) (after_comma_all x h.0.0)
      ∙ read_params-nil n (read_arg atoi g x)
  read_params-join (suc n) g x (y ∷ ys) h enough =
      pass n g (x ++ (comma ∷ join y ys)) x (join y ys)
        (omega (arith, length-append x (comma ∷ join y ys)))
        (before_comma-append x (join y ys) h.0.0) (after_comma-append x (join y ys) h.0.0)
      ∙ read_params-join n (read_arg atoi g x) y ys h.1 (omega (arith, enough))
