-- ===== src/Fixnum/Quotients.antt =====
-- Quotients of fixnums, which are cut towards zero.
use mirb.Fixnum.Words.{wrap-IsInt}
use mirb.Fixnum.Arith.{Computes, word-Computes, IsInt-of_fits, coerce_op-fixnum}
use mirb.Fixnum.Products.{magnitude}
use mirb.Fixnum.{low, fits, from_int, zero_division, quotient, is_zero, div}
use native.Mathlib.Nat.{div-add-mod', mod-lt, div-mul-le_self, mul-le-mul}
use mirb.Prelude.Int.{ℤ, pos, negsuc, pos_part, neg_part, ◌-ℤ◌}
use mirb.Prelude.{
  ℕ, ◌+◌, ◌*◌, ◌/◌, ◌%◌, ◌^◌, ◌-◌, ◌≤◌, ◌<◌, ◌≡◌, ◌≢◌, ◌⊎◌, refl, sym, ap, inl, inr, true, false,
  arith, Bool-cases, leb,
}

-- The sign of a quotient: not below zero for operands on one side of zero, and not above it for
-- others.
unfoldable pub HasSign : ℤ → ℤ → ℤ → Type 0
HasSign (pos a) (pos b) q = neg_part q ≡ 0
HasSign (pos a) (negsuc b) q = pos_part q ≡ 0
HasSign (negsuc a) (pos b) q = pos_part q ≡ 0
HasSign (negsuc a) (negsuc b) q = neg_part q ≡ 0

-- The quotient cut towards zero: what is left of the size of the dividend is smaller than the
-- divisor.
unfoldable pub IsQuotient : ℤ → ℤ → ℤ → Type 0
IsQuotient a b q =
    (rest : ℕ) × (magnitude a ≡ magnitude q * magnitude b + rest)
    × (rest < magnitude b)
    × HasSign a b q

magnitude-negated : (n : ℕ) → magnitude (pos 0 -ℤ pos n) ≡ n
unfolding ◌-ℤ◌
magnitude-negated n = ground arith

pos_part-negated : (n : ℕ) → pos_part (pos 0 -ℤ pos n) ≡ 0
unfolding ◌-ℤ◌
pos_part-negated n = ground arith

quotient-IsQuotient : (a b : ℤ) → is_zero b ≡ false → IsQuotient a b (quotient a b)
unfolding quotient IsQuotient HasSign is_zero
quotient-IsQuotient (pos a) (pos b) h =
    (a % b, sym (div-add-mod' a b), mod-lt a (ground (arith, h)), refl)
quotient-IsQuotient (pos a) (negsuc b) h = (
  a % (b + 1),
  rw (magnitude-negated (a / (b + 1))) (sym (div-add-mod' a (b + 1))),
  mod-lt a (omega arith),
  pos_part-negated (a / (b + 1)),
)
quotient-IsQuotient (negsuc a) (pos b) h = (
  (a + 1) % b,
  rw (magnitude-negated ((a + 1) / b)) (sym (div-add-mod' (a + 1) b)),
  mod-lt (a + 1) (ground (arith, h)),
  pos_part-negated ((a + 1) / b),
)
quotient-IsQuotient (negsuc a) (negsuc b) h =
    ((a + 1) % (b + 1), sym (div-add-mod' (a + 1) (b + 1)), mod-lt (a + 1) (omega arith), refl)

div-le : (a b : ℕ) → 0 < b → a / b ≤ a
div-le a b h = omega (
  arith,
  div-mul-le_self a b,
  mul-le-mul {n₁ = a / b} {m₁ = 1} {n₂ = a / b} {m₂ = b} (omega arith) (omega arith),
)

div-half : (a b : ℕ) → 2 ≤ b → 2 * (a / b) ≤ a
div-half a b h = omega (
  arith,
  div-mul-le_self a b,
  mul-le-mul {n₁ = a / b} {m₁ = 2} {n₂ = a / b} {m₂ = b} (omega arith) h,
)

quotient-fits :
    (a b : ℤ)
    → fits a ≡ true
    → is_zero b ≡ false
    → (a ≢ low) ⊎ (b ≢ negsuc 0)
    → fits (quotient a b) ≡ true
unfolding quotient fits is_zero ◌-ℤ◌
quotient-fits (pos a) (pos b) h nz not_least = ground (arith, h, div-le a b (ground (arith, nz)))
quotient-fits (pos a) (negsuc b) h nz not_least = ground (arith, h, div-le a (b + 1) (omega arith))
quotient-fits (negsuc a) (pos b) h nz not_least =
    ground (arith, h, div-le (a + 1) b (ground (arith, nz)))
quotient-fits (negsuc a) (negsuc b) h nz not_least = elim (Bool-cases (leb 1 b)) [
  | inl t ↦ ground (arith, h, div-half (a + 1) (b + 1) (ground (arith, t)))
  | inr t ↦
      let small : a ≢ 2 ^ 62 - 1 = elim not_least [
        | inl m ↦ λ e. m (ap negsuc e)
        | inr m ↦ λ e. m (ap negsuc (ground (arith, t)))
      ] in
      ground (arith, h, small, div-le (a + 1) (b + 1) (omega arith))
]

is_zero-≡ : (z : ℤ) → is_zero z ≡ true → z ≡ pos 0
unfolding is_zero
is_zero-≡ (pos n) h = ap pos (ground (arith, h))
is_zero-≡ (negsuc n) h = absurd (ground (arith, h))

-- A fixnum over another is the quotient cut towards zero, as a fixnum, other than for the least one
-- over -1; a zero divisor is an error.
pub div-Computes :
    (obj right : ℤ)
    → fits obj ≡ true
    → fits right ≡ true
    → (obj ≢ low) ⊎ (right ≢ negsuc 0)
    → ((right ≡ pos 0) × (div obj (from_int right) ≡ zero_division))
      ⊎ ((q : ℤ) × IsQuotient obj right q × Computes (div obj (from_int right)) q)
unfolding div
div-Computes obj right obj_fits right_fits not_least = elim (Bool-cases (is_zero right)) [
  | inl t ↦ inl (is_zero-≡ right t, rw (coerce_op-fixnum _ obj right right_fits, t) refl)
  | inr t ↦
      let fine = quotient-fits obj right obj_fits t not_least in
      inr (
        quotient obj right,
        quotient-IsQuotient obj right t,
        rw
            (
              coerce_op-fixnum _ obj right right_fits,
              t,
              wrap-IsInt (quotient obj right) (IsInt-of_fits (quotient obj right) fine),
            )
            (word-Computes (quotient obj right) fine),
      )
]
