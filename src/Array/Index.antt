-- ===== src/Array/Index.antt =====
-- `map_index` of runtime.cpp, and what classes/array.cpp does with indices.
use mirb.Prelude.Int.{ℤ, pos, negsuc, pos_part, neg_part}
use mirb.Prelude.Lists.{length, get_or, take, drop}
use mirb.Prelude.{
  ℕ, ◌+◌, ◌-◌, ◌≤◌, ◌<◌, ◌≡◌, ◌⊎◌, inl, inr, refl, Bool, List, Option, none, some, leb, ltb,
  if◌then◌else◌, arith, Bool-cases,
}
use mirb.Range.{convert_to_index}

unfoldable pub map_index : ℤ → ℕ → Option ℕ
map_index (negsuc n) size = if ltb size (n + 1) then none else some (size - (n + 1))
map_index (pos n) size = if leb size n then none else some n

abbrev pub value_nil : ℕ
value_nil = 2

-- `rb_get` with one fixnum; with a fixnum and a length, where none is nil; and with a range.
unfoldable pub rb_get : List ℕ → ℤ → ℕ
rb_get v index = elim (map_index index (length v)) [
  | none ↦ value_nil
  | some i ↦ get_or v i value_nil
]

unfoldable pub rb_get_slice : List ℕ → ℤ → ℤ → Option (List ℕ)
rb_get_slice v index (negsuc n) = none
rb_get_slice v index (pos size) = elim (map_index index (length v)) [
  | none ↦ none
  | some start ↦
      some (take (if ltb size (length v - start) then size else length v - start) (drop start v))
]

unfoldable pub rb_get_range : List ℕ → ℤ → ℤ → Bool → List ℕ
rb_get_range v low high flag =
    let span = convert_to_index low high flag (length v) in take span.1 (drop span.0 v)

-- What `map_index` may answer: an index in the sequence, counted from either end, or none for an
-- index that is outside of it.
abbrev pub Maps : ℤ → ℕ → Option ℕ → Type 0
Maps index size none = ((neg_part index ≡ 0) × (size ≤ pos_part index)) ⊎ (size < neg_part index)
Maps index size (some r) =
    (r < size) × ((index ≡ pos r) ⊎ ((0 < neg_part index) × (neg_part index + r ≡ size)))

-- `map_index` counts an index from the front, or from the back where it is negative, and refuses
-- just those that lead out of the sequence.
pub map_index-Maps : (index : ℤ) (size : ℕ) → Maps index size (map_index index size)
unfolding map_index
map_index-Maps (pos n) size = elim (Bool-cases (leb size n)) [
  | inl t ↦ rw t (inl (refl, ground arith))
  | inr t ↦ rw t (ground arith, inl refl)
]
map_index-Maps (negsuc n) size = elim (Bool-cases (ltb size (n + 1))) [
  | inl t ↦ rw t (inr (ground arith))
  | inr t ↦ rw t (ground arith, inr (omega arith, ground arith))
]
