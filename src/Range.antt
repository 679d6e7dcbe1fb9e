-- ===== src/Range.antt =====
-- classes/range.cpp, `convert_to_index`: a range of indices, counted from the end where negative,
-- becomes a start and a length in a sequence of `size` elements.
pub mod Index
use mirb.Prelude.Int.{ℤ, pos, negsuc}
use mirb.Prelude.{ℕ, ◌+◌, ◌-◌, Bool, Option, none, some, leb, ltb, if◌then◌else◌}

-- A negative end is counted from the end of the sequence; none where it lies before its start.
unfoldable pub from_end : ℕ → ℤ → Option ℕ
from_end size (pos n) = some n
from_end size (negsuc n) = if ltb size (n + 1) then none else some (size - (n + 1))

-- The start and the length; `flag` is a range that excludes its end. The two ends are those of
-- fixnums, and no sequence is so long that a sum leaves a `size_t`.
unfoldable pub bounds : ℕ → Bool → ℕ → ℕ → ℕ × ℕ
bounds size flag left right =
    if leb size left
    then (0, 0)
    else if ltb right left
    then (0, 0)
    else (let length = right - left + (if flag then 0 else 1) in
        if ltb size (left + length) then (left, size - left) else (left, length))

unfoldable pub between_ends : ℕ → Bool → Option ℕ → Option ℕ → ℕ × ℕ
between_ends size flag none high = (0, 0)
between_ends size flag (some left) none = (0, 0)
between_ends size flag (some left) (some right) = bounds size flag left right

unfoldable pub convert_to_index : ℤ → ℤ → Bool → ℕ → ℕ × ℕ
convert_to_index low high flag size =
    between_ends size flag (from_end size low) (from_end size high)
