-- ===== src/Fixnum.antt =====
-- classes/fixnum.cpp and fixnum.hpp on 64 bits. An `int_t` is an integer, a `value_t` a word. A
-- new Bignum is what its constructor is called with. The functions of the library for big numbers
-- under the class `Number` are parameters.
pub mod Words
pub mod Arith
pub mod Products
pub mod Quotients
use Prim.Native.Nat.{bit_and}
use mirb.Prelude.Int.{ℤ, pos, negsuc, ◌+ℤ◌, ◌-ℤ◌, ◌*ℤ◌, ltb_ℤ}
use mirb.Prelude.{
  ℕ, zero, suc, ◌+◌, ◌-◌, ◌*◌, ◌/◌, ◌%◌, ◌^◌, Bool, true, false, not, ◌&&◌, ◌||◌, ◌==◌, ltb, leb,
  if◌then◌else◌,
}
use mirb.Value.{is_fixnum}

-- The 64 bits of an integer, and the integer that 64 bits are in two's complement.
unfoldable pub to_word : ℤ → ℕ
to_word (pos n) = n % 2 ^ 64
to_word (negsuc n) = 2 ^ 64 - 1 - n % 2 ^ 64

unfoldable pub signed : ℕ → ℤ
signed w = if ltb w (2 ^ 63) then pos w else negsuc (2 ^ 64 - 1 - w)

-- What is left of an integer in an `int_t`.
unfoldable pub wrap : ℤ → ℤ
wrap z = signed (to_word z)

abbrev pub high : ℤ
high = pos (2 ^ 62 - 1)

abbrev pub low : ℤ
low = negsuc (2 ^ 62 - 1)

unfoldable pub fits : ℤ → Bool
fits value = not (ltb_ℤ value low) && not (ltb_ℤ high value)

-- `(value << 1) | 1`
unfoldable pub from_int : ℤ → ℕ
from_int value = to_word value * 2 % 2 ^ 64 + 1

-- `>> 1` on an `int_t`
unfoldable pub half : ℤ → ℤ
half (pos n) = pos (n / 2)
half (negsuc n) = negsuc (n / 2)

unfoldable pub to_int : ℕ → ℤ
to_int obj = half (signed obj)

-- What an operation answers: a word, a new Bignum of an `int_t` or of a `Number`, what `coerce` makes
-- of the operands, or the error of a division by zero.
pub data Answer : Type 0 where
  word : ℕ → Answer
  bignum : ℤ → Answer
  number : ℤ → Answer
  coerced : ℤ → ℕ → Answer
  zero_division : Answer

unfoldable pub convert : ℤ → Answer
convert value = if fits value then word (from_int value) else bignum value

unfoldable pub coerce_op : ℤ → ℕ → (ℤ → Answer) → Answer
coerce_op obj other func = if is_fixnum other then func (to_int other) else coerced obj other

unfoldable pub add : ℤ → ℕ → Answer
add obj other = coerce_op obj other (λ right. convert (wrap (obj +ℤ right)))

unfoldable pub sub : ℤ → ℕ → Answer
sub obj other = coerce_op obj other (λ right. convert (wrap (obj -ℤ right)))

-- `sqrt_long_max`
abbrev pub sqrt_long_max : ℕ
sqrt_long_max = 2147483648

unfoldable pub fit_sqrt : ℤ → Bool
fit_sqrt (pos n) = ltb n sqrt_long_max
fit_sqrt (negsuc n) = ltb (n + 1) sqrt_long_max

-- A `Number` is the integer that its `mp_int` holds; the functions of libtommath that it calls are
-- parameters. An `int_t` is as wide as an `unsigned long`.
module _ (mp_set_int : ℕ → ℤ) (mp_get_int : ℤ → ℕ) (mp_neg : ℤ → ℤ) (mp_mul : ℤ → ℤ → ℤ) where
  -- `Number(intptr_t)`
  unfoldable pub number_of : ℤ → ℤ
  number_of (pos n) = mp_set_int n
  number_of (negsuc n) = mp_neg (mp_set_int (n + 1))

  unfoldable pub to_intptr : ℤ → ℤ
  to_intptr num = signed (mp_get_int num % 2 ^ 64)

  -- `can_be_fix`, where `mp_cmp` compares with the bounds of a fixnum.
  unfoldable pub to_value : ℤ → Answer
  to_value num = if fits num then word (from_int (to_intptr num)) else number num

  unfoldable pub mul : ℤ → ℕ → Answer
  mul obj other = coerce_op obj other (λ right.
      if fit_sqrt obj && fit_sqrt right
      then word (from_int (wrap (obj *ℤ right)))
      else to_value (mp_mul (number_of obj) (number_of right)))

-- `/` and `%` of C++, which cut towards zero.
unfoldable pub quotient : ℤ → ℤ → ℤ
quotient (pos a) (pos b) = pos (a / b)
quotient (pos a) (negsuc b) = pos 0 -ℤ pos (a / (b + 1))
quotient (negsuc a) (pos b) = pos 0 -ℤ pos ((a + 1) / b)
quotient (negsuc a) (negsuc b) = pos ((a + 1) / (b + 1))

unfoldable pub remainder : ℤ → ℤ → ℤ
remainder a b = a -ℤ quotient a b *ℤ b

unfoldable pub is_zero : ℤ → Bool
is_zero (pos n) = n == 0
is_zero (negsuc n) = false

unfoldable pub div : ℤ → ℕ → Answer
div obj other =
    coerce_op obj other (λ right.
      if is_zero right then zero_division else word (from_int (wrap (quotient obj right))))

unfoldable pub mod_value : ℤ → ℕ → Answer
mod_value obj other =
    coerce_op obj other (λ right.
      if is_zero right then zero_division else word (from_int (wrap (remainder obj right))))

unfoldable pub compare : ℤ → ℕ → Answer
compare obj other = coerce_op obj other (λ right.
    word
      (from_int (if ltb_ℤ obj right then negsuc 0 else if ltb_ℤ right obj then pos 1 else pos 0)))

unfoldable pub neg : ℤ → Answer
neg obj = word (from_int (wrap (pos 0 -ℤ obj)))

-- `~obj`
unfoldable pub invert : ℤ → Answer
invert (pos n) = word (from_int (negsuc n))
invert (negsuc n) = word (from_int (pos n))
