-- ===== src/Traffic/Cycles.antt =====
-- How many flows are sent.
use copa_new.Prelude.{ℕ, zero, suc, ◌+◌, List, [], ◌∷◌}

-- The numbers from `a` on, `n` of them.
abbrev pub numbers_from : ℕ → ℕ → List ℕ
numbers_from a zero = []
numbers_from a (suc n) = a ∷ numbers_from (a + 1) n
