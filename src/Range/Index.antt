-- ===== src/Range/Index.antt =====
-- The indices that a range stands for.
use mathlib.Core.Path.{subst}
use mathlib.Core.Option.{some-injective}
use mirb.Prelude.Int.{ℤ, pos, negsuc}
use mirb.Prelude.{
  ℕ, ◌+◌, ◌≤◌, ◌<◌, ◌≡◌, ◌↔◌, refl, sym, ap, inl, inr, ltb, Bool-cases, Bool, true, false, Option,
  none, some, arith, if◌then◌else◌,
}
use mirb.Range.{from_end, bounds, between_ends, convert_to_index}

-- Index `i` lies between the ends.
abbrev pub Between : Bool → ℕ → ℕ → ℕ → Type 0
Between flag left right i = (left ≤ i) × (if flag then i + 1 else i) ≤ right

bounds-inside :
    (size : ℕ) (flag : Bool) (left right : ℕ)
    → (bounds size flag left right).0 + (bounds size flag left right).1 ≤ size
unfolding bounds
bounds-inside size flag left right = ground arith

between_ends-inside :
    (size : ℕ) (flag : Bool) (low high : Option ℕ)
    → (between_ends size flag low high).0 + (between_ends size flag low high).1 ≤ size
unfolding between_ends
between_ends-inside size flag none high = omega arith
between_ends-inside size flag (some left) none = omega arith
between_ends-inside size flag (some left) (some right) = bounds-inside size flag left right

-- Index `i` is one of the `span.1` indices from `span.0`.
abbrev pub Within : ℕ × ℕ → ℕ → Type 0
Within span i = (span.0 ≤ i) × (i < span.0 + span.1)

bounds-Within :
    (size : ℕ) (flag : Bool) (left right i : ℕ)
    → Within (bounds size flag left right) i ↔ (Between flag left right i × (i < size))
unfolding bounds
bounds-Within size true left right i = ground arith
bounds-Within size false left right i = ground arith

spans :
    (size i : ℕ) (flag : Bool) (low high : Option ℕ)
    → Within (between_ends size flag low high) i ↔ (
        (left right : ℕ) × (low ≡ some left)
        × (high ≡ some right)
        × Between flag left right i
        × (i < size))
unfolding between_ends
spans size i flag none high = (λ h. absurd (omega arith), λ h. absurd (ground arith))
spans size i flag (some left) none = (λ h. absurd (omega arith), λ h. absurd (ground arith))
spans size i flag (some left) (some right) =
    let (there, back) = bounds-Within size flag left right i in
    (
      λ h. let (between, inside) = there h in (left, right, refl, refl, between, inside),
      λ (l, r, e, f, between, inside). back (
        subst (λ m. Between flag m right i) (sym (some-injective _ _ e))
            (subst (λ m. Between flag l m i) (sym (some-injective _ _ f)) between),
        inside,
      ),
    )

-- The index that an end of the range stands for: from the start of the sequence, or back from its
-- end.
unfoldable pub IsEnd : ℕ → ℤ → ℕ → Type 0
IsEnd size (pos n) place = place ≡ n
IsEnd size (negsuc n) place = place + (n + 1) ≡ size

from_end-IsEnd :
    (size : ℕ) (z : ℤ) (place : ℕ) → (from_end size z ≡ some place) ↔ IsEnd size z place
unfolding from_end IsEnd
from_end-IsEnd size (pos n) place = (λ e. sym (some-injective _ _ e), λ e. ap some (sym e))
from_end-IsEnd size (negsuc n) place = elim (Bool-cases (ltb size (n + 1))) [
  | inl t ↦ rw t (λ e. absurd (ground (arith, e)), λ e. absurd (ground (arith, t, e)))
  | inr t ↦ rw t (
    λ e. let place_is = some-injective _ _ e in ground (arith, t, place_is),
    λ e. ap some (ground (arith, t, e)),
  )
]

-- The span lies inside the sequence. It holds just the indices of the sequence that lie between
-- those of the two ends of the range, where a negative end counts back from the end of the
-- sequence, -1 for its last index, and none lies before the sequence. The last index is left out
-- where `flag` excludes it.
pub convert_to_index-Within :
    (low high : ℤ) (flag : Bool) (size : ℕ)
    → ((convert_to_index low high flag size).0 + (convert_to_index low high flag size).1 ≤ size)
      × ((i : ℕ)
          → Within (convert_to_index low high flag size) i ↔ (
              (left right : ℕ) × IsEnd size low left
              × IsEnd size high right
              × Between flag left right i
              × (i < size)))
unfolding convert_to_index
convert_to_index-Within low high flag size = (
  between_ends-inside size flag (from_end size low) (from_end size high),
  λ i.
      let (there, back) = spans size i flag (from_end size low) (from_end size high) in
      (
        λ h.
            let (left, right, l, r, between, inside) = there h in
            (
              left,
              right,
              (from_end-IsEnd size low left).0 l,
              (from_end-IsEnd size high right).0 r,
              between,
              inside,
            ),
        λ (left, right, l, r, between, inside). back (
          left,
          right,
          (from_end-IsEnd size low left).1 l,
          (from_end-IsEnd size high right).1 r,
          between,
          inside,
        ),
      ),
)
