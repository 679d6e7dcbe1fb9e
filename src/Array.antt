-- ===== src/Array.antt =====
-- classes/array.cpp. The vector of a Ruby array is the list of its words; a call of `<=>` is a
-- function that answers an integer or raises, and leaves the array alone.
pub mod Swap
pub mod Sort
pub mod Index
pub mod Delete
use mirb.Prelude.Int.{ℤ, pos, negsuc}
use mirb.Prelude.Lists.{length, get_or, set}
use mirb.Prelude.{
  ℕ, zero, suc, ◌+◌, ◌-◌, ◌*◌, Bool, true, false, List, Option, none, some, ltb, if◌then◌else◌,
}

-- How `sort` ends: with the array sorted in place, by an exception out of `compare`, or, in the
-- model alone, without fuel.
pub data SortEnd : Type 0 where
  done : List ℕ → SortEnd
  raised : SortEnd
  unfinished : SortEnd

abbrev pub nonneg : ℤ → Bool
nonneg (pos n) = true
nonneg (negsuc n) = false

-- `std::swap(vector[i + 1], vector[i])`
unfoldable pub swap : List ℕ → ℕ → List ℕ
swap v i = set (set v (i + 1) (get_or v i 0)) i (get_or v (i + 1) 0)

module _ (compare : ℕ → ℕ → Option ℤ) where
  unfoldable pub sort_loop : ℕ → List ℕ → ℕ → SortEnd
  sort_loop zero v p = unfinished
  sort_loop (suc fuel) v p =
      if ltb p (length v)
      then elim (compare (get_or v p 0) (get_or v (p - 1) 0)) [
        | none ↦ raised
        | some result ↦
            (sort_loop fuel (if nonneg result then v else swap v (p - 1))
              (if nonneg result then p + 1 else if ltb 1 p then p - 1 else p + 1))
      ]
      else done v

  -- `sort`, with fuel for every swap and every step.
  unfoldable pub sort : List ℕ → SortEnd
  sort v = sort_loop (length v * length v * 2 + length v + 1) v 1
