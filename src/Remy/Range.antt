-- ===== src/Remy/Range.antt =====
-- memoryrange.hh and memoryrange.cc: a range of memories, closed below and open above. Its estimators
-- of the medians come from a library: the state of one is the list of what it was given, and `median`
-- is a parameter.
pub mod Parts
use copa_new.Prelude.{
  ℕ, ◌+◌, ◌%◌, ◌^◌, List, [], ◌∷◌, ◌++◌, Bool, true, false, ◌&&◌, not, Option, none, some,
  if◌then◌else◌, get_or,
}
use copa_new.Double.{Double, ◌⊕◌, ◌⊘◌, lit}
use copa_new.Remy.{
  Memory, MemoryDna, field, set_field, at_least, is_below, same_memory, memory_dna, memory_of_dna,
}

-- The lists of `acc` are those of the fields, the last value first.
pub record MemoryRange (W : Type 0) : Type 0 where
  pub lower : Memory W
  pub upper : Memory W
  pub acc : List (List W)
  pub count : ℕ

pub record RangeDna (W : Type 0) : Type 0 where
  pub lower : MemoryDna W
  pub upper : MemoryDna W

module _ {W : Type 0} where
  abbrev pub memory_range : Memory W → Memory W → MemoryRange W
  memory_range lower upper = record {
    lower = lower;
    upper = upper;
    acc = [] ∷ [] ∷ [] ∷ [] ∷ [];
    count = 0;
  }

  abbrev pub use_range : MemoryRange W → MemoryRange W
  use_range r = record r { count = (r.count + 1) % 2 ^ 32 }

  abbrev pub reset_count : MemoryRange W → MemoryRange W
  reset_count r = record r { count = 0 }

  unfoldable pub push_fields : Memory W → ℕ → List (List W) → List (List W)
  push_fields query i [] = []
  push_fields query i (xs ∷ acc) = (field query i ∷ xs) ∷ push_fields query (i + 1) acc

  abbrev pub track : MemoryRange W → Memory W → MemoryRange W
  track r query = record r { acc = push_fields query 0 r.acc }

  abbrev pub range_dna : MemoryRange W → RangeDna W
  range_dna r = record { lower = memory_dna r.lower; upper = memory_dna r.upper }

module _ {W : Type 0} ⦃d : Double W⦄ where
  abbrev pub range_of_dna : RangeDna W → MemoryRange W
  range_of_dna dna = memory_range (memory_of_dna true dna.lower) (memory_of_dna false dna.upper)

  abbrev pub contains : MemoryRange W → Memory W → Bool
  contains r query = at_least query r.lower && is_below query r.upper

  abbrev pub same_range : MemoryRange W → MemoryRange W → Bool
  same_range a b = same_memory a.lower b.lower && same_memory a.upper b.upper

  abbrev pub midpoint : MemoryRange W → ℕ → W
  midpoint r i = (field r.lower i ⊕ field r.upper i) ⊘ lit 2 1

  unfoldable pub range_median : MemoryRange W → Memory W
  range_median r =
      set_field
        (set_field (set_field (set_field r.lower 0 (midpoint r 0)) 1 (midpoint r 1)) 2
          (midpoint r 2))
        3 (midpoint r 3)

  -- The two halves of `x` at the value `v` of a field.
  unfoldable pub halves : MemoryRange W → ℕ → W → List (MemoryRange W)
  halves x i v =
      memory_range x.lower (set_field x.upper i v)
      ∷ memory_range (set_field x.lower i v) x.upper
      ∷ []

  -- When also the midpoint is the lower end, the range stays whole; `none` is a failed assertion.
  unfoldable pub keep_whole : MemoryRange W → ℕ → W → Option (List (MemoryRange W))
  keep_whole x i v =
      if not (same_memory (set_field x.lower i v) x.upper)
        && same_memory x.lower (set_field x.lower i v)
      then some (x ∷ [])
      else none

  unfoldable pub split_one : MemoryRange W → ℕ → W → Option (List (MemoryRange W))
  split_one x i v =
      if same_memory x.lower (set_field x.upper i v)
      then if same_memory x.lower (set_field x.upper i (midpoint x i))
        then keep_whole x i (midpoint x i)
        else some (halves x i (midpoint x i))
      else some (halves x i v)

  unfoldable pub append_parts :
      Option (List (MemoryRange W)) → Option (List (MemoryRange W)) → Option (List (MemoryRange W))
  append_parts none ys = none
  append_parts (some xs) none = none
  append_parts (some xs) (some ys) = some (xs ++ ys)

  unfoldable pub split_all : List (MemoryRange W) → ℕ → W → Option (List (MemoryRange W))
  split_all [] i v = some []
  split_all (x ∷ xs) i v = append_parts (split_one x i v) (split_all xs i v)

  unfoldable pub and_split : Option (List (MemoryRange W)) → ℕ → W → Option (List (MemoryRange W))
  and_split none i v = none
  and_split (some xs) i v = split_all xs i v

  module _ (median : List W → W) where
    abbrev pub pivot : MemoryRange W → ℕ → W
    pivot r i = median (get_or r.acc i [])

    -- Cut in two along each of the fields.
    unfoldable pub bisect_range : MemoryRange W → Option (List (MemoryRange W))
    bisect_range r =
        and_split
          (and_split (and_split (and_split (some (r ∷ [])) 0 (pivot r 0)) 1 (pivot r 1)) 2
            (pivot r 2))
          3 (pivot r 3)
