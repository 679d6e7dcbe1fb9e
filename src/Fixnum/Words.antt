-- ===== src/Fixnum/Words.antt =====
-- The words of fixnums.
use mirb.Fixnum.{to_word, signed, wrap, low, high, fits, from_int, half, to_int}
use mirb.Prelude.Bits.{bit_and-mask}
use mirb.Prelude.Int.{ℤ, pos, negsuc, ◌≤ℤ◌, pos_part, neg_part}
use mirb.Prelude.{◌+◌, ◌*◌, ◌%◌, ◌^◌, ◌<◌, ◌≤◌, ◌≡◌, refl, true, arith}
use mirb.Value.{is_fixnum}

-- The range of an `int_t`.
abbrev pub IsInt : ℤ → Type 0
IsInt z = (pos_part z < 2 ^ 63) × (neg_part z ≤ 2 ^ 63)

pub wrap-IsInt : (z : ℤ) → IsInt z → wrap z ≡ z
unfolding wrap to_word signed
wrap-IsInt (pos n) h = ground arith
wrap-IsInt (negsuc n) h = ground arith

pub fits-range : (z : ℤ) → fits z ≡ true → (low ≤ℤ z) × (z ≤ℤ high)
unfolding fits
fits-range z h = ground arith

-- A fixnum comes back from its word.
pub to_int-from_int : (z : ℤ) → fits z ≡ true → to_int (from_int z) ≡ z
unfolding to_int from_int to_word signed half fits
to_int-from_int (pos n) h = ground arith
to_int-from_int (negsuc n) h = ground arith

pub is_fixnum-from_int : (z : ℤ) → is_fixnum (from_int z) ≡ true
unfolding is_fixnum from_int
is_fixnum-from_int z = ground (arith, bit_and-mask 1 (to_word z * 2 % 2 ^ 64 + 1) 1 refl)
