-- ===== src/Tests/Values.antt =====
-- Type tags, value words, fixnums and ranges.
use mirb.Fixnum.Arith.{value_of, Computes, add-Computes, sub-Computes, neg-Computes}
use mirb.Fixnum.Products.{magnitude}
use mirb.Fixnum.Quotients.{IsQuotient, div-Computes}
use mirb.Fixnum.Words.{to_int-from_int}
use mirb.Fixnum.{
  low, fits, from_int, to_int, add, sub, mul, zero_division, div, neg, word, coerce_op, to_word,
  signed, half, fit_sqrt, to_value, number_of, to_intptr,
}
use mirb.Prelude.Int.{ℤ, pos, negsuc, ◌+ℤ◌, ◌-ℤ◌, ◌*ℤ◌}
use mirb.Prelude.{
  ℕ, ◌+◌, ◌%◌, ◌^◌, ◌≤◌, ◌<◌, ◌≡◌, ◌≢◌, ◌⊎◌, ◌↔◌, inl, inr, refl, true, false, not, some, arith,
}
use mirb.Range.Index.{Within, Between, IsEnd, convert_to_index-Within}
use mirb.Range.{convert_to_index}
use mirb.Types.Cast.{derived_from, derived_pairs, listed, of_type}
use mirb.Types.Classes.{number, exception_class, break_exception_class, to_class}
use mirb.Types.Derived.{inherits, depth, left_out, of_type-inherits}
use mirb.Types.{Enum, object, break_exception}
use mirb.Value.Tags.{test-falsy, class_of_literal-type}
use mirb.Value.{
  is_fixnum, value_nil, value_false, object_ref, test, class_of_literal, type, immediate,
}

of_type-inherits_example :
    of_type exception_class break_exception
    ≡ some (inherits depth exception_class break_exception_class)
of_type-inherits_example =
    of_type-inherits exception_class break_exception break_exception_class
      (unfold derived_from derived_pairs listed number in refl) (unfold to_class in refl)
      (unfold left_out number in refl)

test-falsy_example : (test 6 ≡ false) ↔ ((6 ≡ value_nil) ⊎ (6 ≡ value_false))
test-falsy_example = test-falsy 6 (omega arith) (inr (inr (inr (inl refl))))

abbrev itself : Enum → Enum
itself t = t

abbrev object_at : ℕ → Enum
object_at v = object

class_of_literal-type_example :
    (immediate (type object_at 7) ≡ not (object_ref 7))
    × (object_ref 7 ≡ false → class_of_literal itself 7 ≡ some (itself (type object_at 7)))
class_of_literal-type_example =
    class_of_literal-type itself object_at 7 (inl refl) (unfold immediate in refl)

to_int-from_int_example : to_int (from_int (negsuc 41)) ≡ negsuc 41
to_int-from_int_example = to_int-from_int (negsuc 41) (unfold fits in refl)

abbrev highest : ℤ
highest = pos 4611686018427387903

highest_fits : fits highest ≡ true
unfolding fits
highest_fits = refl

add-Computes_example : Computes (add highest (from_int highest)) (highest +ℤ highest)
add-Computes_example = add-Computes highest highest highest_fits highest_fits

sub-Computes_example : Computes (sub highest (from_int highest)) (highest -ℤ highest)
sub-Computes_example = sub-Computes highest highest highest_fits highest_fits

-- A library of big numbers that sets and gets 32 bits.
abbrev set_32 : ℕ → ℤ
set_32 n = pos (n % 2 ^ 32)

abbrev get_32 : ℤ → ℕ
get_32 z = magnitude z % 2 ^ 32

abbrev negate : ℤ → ℤ
negate z = pos 0 -ℤ z

abbrev multiply : ℤ → ℤ → ℤ
multiply a b = a *ℤ b

-- 2 ^ 31 times -1: the product is a fixnum, and loses its sign.
mul_sign :
    mul set_32 get_32 negate multiply (pos 2147483648) (from_int (negsuc 0))
    ≡ word (from_int (pos 2147483648))
unfolding mul coerce_op is_fixnum from_int to_int to_word signed half fit_sqrt to_value number_of
    to_intptr fits ◌*ℤ◌ ◌-ℤ◌
mul_sign = refl

div-Computes_example :
    ((negsuc 6 ≡ pos 0) × (div (pos 20) (from_int (negsuc 6)) ≡ zero_division))
    ⊎ ((q : ℤ) × IsQuotient (pos 20) (negsuc 6) q × Computes (div (pos 20) (from_int (negsuc 6))) q)
div-Computes_example =
    div-Computes (pos 20) (negsuc 6) (unfold fits in refl) (unfold fits in refl)
      (inl (λ e. absurd (ground arith)))

neg-Computes_example :
    (highest ≢ low → Computes (neg highest) (pos 0 -ℤ highest)) × (value_of (neg low) ≡ some low)
neg-Computes_example = neg-Computes highest highest_fits

-- The indices 1 .. -2 of five elements
convert_to_index-Within_example :
    ((convert_to_index (pos 1) (negsuc 1) false 5).0
        + (convert_to_index (pos 1) (negsuc 1) false 5).1
      ≤ 5)
    × ((i : ℕ)
        → Within (convert_to_index (pos 1) (negsuc 1) false 5) i ↔ (
            (left right : ℕ) × IsEnd 5 (pos 1) left
            × IsEnd 5 (negsuc 1) right
            × Between false left right i
            × (i < 5)))
convert_to_index-Within_example = convert_to_index-Within (pos 1) (negsuc 1) false 5
