-- ===== src/Array/Sort.antt =====
-- `Array::sort` is a gnome sort: it ends, sorted, with the elements that it began with.
use mathlib.Core.List.{Perm}
use mathlib.Core.List.Perm
use mirb.Array.{SortEnd, done, nonneg}
use mirb.Prelude.Int.{ℤ}
use mirb.Prelude.Lists.{length, get_or}
use mirb.Prelude.{
  ℕ, ◌+◌, ◌<◌, ◌≡◌, Bool, true, false, not, List, Option, none, some, ltb, if◌then◌else◌,
}

module _ (compare : ℕ → ℕ → Option ℤ) where
  -- `a <=> b` is negative.
  abbrev pub less : ℕ → ℕ → Bool
  less a b = elim (compare a b) [ none ↦ false | some r ↦ not (nonneg r) ]

  -- No element before index `p` comes before its neighbour on the left.
  abbrev pub IsSortedBelow : ℕ → List ℕ → Type 0
  IsSortedBelow p v = (i : ℕ) → i + 1 < p → less (get_or v (i + 1) 0) (get_or v i 0) ≡ false

  abbrev pub IsSorted : List ℕ → Type 0
  IsSorted v = IsSortedBelow (length v) v

  abbrev Sorts : List ℕ → SortEnd → Type 0
  Sorts v e = (w : List ℕ) × (e ≡ done w) × Perm w v × IsSorted w

  -- `<=>` answers, and of two elements not both come before the other.
  pub record IsOrder : Type 0 where
    pub answers : (a b : ℕ) → (r : ℤ) × (compare a b ≡ some r)
    pub flips : (a b : ℕ) → less a b ≡ true → less b a ≡ false

  module _ (order : IsOrder) where
    module _ (v : List ℕ) (q : ℕ) (inside : q + 1 < length v)
        (so_far : IsSortedBelow (q + 1) v) where
      next : ℕ
      next = if ltb 1 (q + 1) then q else q + 1 + 1
