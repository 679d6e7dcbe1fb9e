-- ===== src/Fixnum/Arith.antt =====
-- Arithmetic on two fixnums against arithmetic on integers.
use mirb.Fixnum.Words.{IsInt, wrap-IsInt, to_int-from_int, is_fixnum-from_int}
use mirb.Fixnum.{
  low, fits, to_word, signed, half, from_int, to_int, wrap, Answer, word, bignum, coerced, number,
  zero_division, convert, coerce_op, add, sub, sqrt_long_max, fit_sqrt, neg,
}
use native.Mathlib.Nat.{mul-le-mul}
use mirb.Prelude.Int.{ℤ, pos, negsuc, ◌+ℤ◌, ◌-ℤ◌, ◌*ℤ◌}
use mirb.Prelude.{
  ℕ, ◌+◌, ◌-◌, ◌*◌, ◌^◌, ◌≤◌, ◌<◌, ◌≡◌, ◌≢◌, refl, ap, inl, inr, Bool, true, false, not, ◌&&◌,
  Option, none, some, arith, Bool-cases,
}
use mirb.Value.{is_fixnum}

-- The integer that an answer stands for, if it is a number. A new Bignum stands for the one that it
-- is made of.
unfoldable pub value_of : Answer → Option ℤ
value_of (word w) = some (to_int w)
value_of (bignum z) = some z
value_of (number z) = some z
value_of (coerced obj other) = none
value_of zero_division = none

-- Fixnums are tagged, and a Bignum holds what no fixnum can.
unfoldable pub is_normal : Answer → Bool
is_normal (word w) = is_fixnum w
is_normal (bignum z) = not (fits z)
is_normal (number z) = not (fits z)
is_normal (coerced obj other) = false
is_normal zero_division = false

abbrev pub Computes : Answer → ℤ → Type 0
Computes a z = (value_of a ≡ some z) × (is_normal a ≡ true)

pub word-Computes : (z : ℤ) → fits z ≡ true → Computes (word (from_int z)) z
unfolding value_of is_normal
word-Computes z h = (ap some (to_int-from_int z h), is_fixnum-from_int z)

convert-Computes : (z : ℤ) → Computes (convert z) z
unfolding convert
convert-Computes z = elim (Bool-cases (fits z)) [
  | inl t ↦ rw t (word-Computes z t)
  | inr t ↦ rw t (unfold value_of is_normal in (refl, rw t refl))
]

pub IsInt-of_fits : (z : ℤ) → fits z ≡ true → IsInt z
unfolding fits
IsInt-of_fits z h = ground arith

product-le : (a b : ℕ) → a < sqrt_long_max → b < sqrt_long_max → a * b ≤ 4611686014132420609
product-le a b h k =
    mul-le-mul {n₁ = a} {m₁ = b} {n₂ = 2147483647} {m₂ = 2147483647} (omega arith) (omega arith)

pub product-fits : (a b : ℤ) → (fit_sqrt a && fit_sqrt b) ≡ true → fits (a *ℤ b) ≡ true
unfolding fit_sqrt fits ◌*ℤ◌
product-fits (pos a) (pos b) h = ground (arith, product-le a b)
product-fits (pos a) (negsuc b) h = ground (arith, product-le a (b + 1))
product-fits (negsuc a) (pos b) h = ground (arith, product-le (a + 1) b)
product-fits (negsuc a) (negsuc b) h = ground (arith, product-le (a + 1) (b + 1))

module _ (func : ℤ → Answer) (obj right : ℤ) (h : fits right ≡ true) where
  pub coerce_op-fixnum : coerce_op obj (from_int right) func ≡ func right
  unfolding coerce_op
  coerce_op-fixnum = rw (is_fixnum-from_int right, to_int-from_int right h) refl

module _ (obj right : ℤ) (obj_fits : fits obj ≡ true) (right_fits : fits right ≡ true) where
  sum-IsInt : IsInt (obj +ℤ right)
  unfolding fits ◌+ℤ◌
  sum-IsInt = ground arith

  -- The sum of two fixnums is computed without a carry out of the `int_t`, and is a fixnum where
  -- it fits; otherwise a Bignum is made of it.
  pub add-Computes : Computes (add obj (from_int right)) (obj +ℤ right)
  unfolding add
  add-Computes =
      rw
        (
          coerce_op-fixnum (λ r. convert (wrap (obj +ℤ r))) obj right right_fits,
          wrap-IsInt (obj +ℤ right) sum-IsInt,
        )
        (convert-Computes (obj +ℤ right))

  difference-IsInt : IsInt (obj -ℤ right)
  unfolding fits ◌-ℤ◌
  difference-IsInt = ground arith

  -- The difference of two fixnums is computed without a carry out of the `int_t`, and is a fixnum
  -- where it fits; otherwise a Bignum is made of it.
  pub sub-Computes : Computes (sub obj (from_int right)) (obj -ℤ right)
  unfolding sub
  sub-Computes =
      rw
        (
          coerce_op-fixnum (λ r. convert (wrap (obj -ℤ r))) obj right right_fits,
          wrap-IsInt (obj -ℤ right) difference-IsInt,
        )
        (convert-Computes (obj -ℤ right))

negated-fits : (z : ℤ) → fits z ≡ true → z ≢ low → fits (pos 0 -ℤ z) ≡ true
unfolding fits ◌-ℤ◌
negated-fits (pos n) h other = ground arith
negated-fits (negsuc n) h other =
    let fewer : n ≢ 2 ^ 62 - 1 = λ e. other (ap negsuc e) in ground arith

-- Negation is exact but for the least fixnum, which it answers again.
pub neg-Computes :
    (obj : ℤ)
    → fits obj ≡ true
    → (obj ≢ low → Computes (neg obj) (pos 0 -ℤ obj)) × (value_of (neg low) ≡ some low)
unfolding neg
neg-Computes obj h = (
  λ other.
      let small = negated-fits obj h other in
      rw (wrap-IsInt (pos 0 -ℤ obj) (IsInt-of_fits (pos 0 -ℤ obj) small))
        (word-Computes (pos 0 -ℤ obj) small),
  unfold value_of wrap from_int to_int to_word signed half ◌-ℤ◌ in refl,
)
