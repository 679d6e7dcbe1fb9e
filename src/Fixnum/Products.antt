-- ===== src/Fixnum/Products.antt =====
-- Products of fixnums, below `sqrt_long_max` and by way of the class `Number`.
use mirb.Prelude.Int.{ℤ, pos, negsuc}
use mirb.Prelude.{ℕ, ◌+◌}

-- The size of an integer.
abbrev pub magnitude : ℤ → ℕ
magnitude (pos n) = n
magnitude (negsuc n) = n + 1
