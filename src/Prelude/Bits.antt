-- ===== src/Prelude/Bits.antt =====
-- `&` with a mask, by halving both numbers.
use Prim.Native.Nat.{
  ℕ, zero, suc, ◌+◌, ◌*◌, ◌/◌, ◌%◌, ◌^◌, ◌≤◌, ◌<◌, min, bit_and, bitwise, digits, bit_and-bitwise,
}
use mathlib.Core.Path.{◌≡◌, refl, sym, ap, ◌∙◌}
use native.Mathlib.Nat.{mod-eq_of_lt, mul-add-mod_self_right, pow-suc}
use native.Mathlib.Omega.{arith}

pub pow_pos : (k : ℕ) → 0 < 2 ^ k
pow_pos zero = omega arith
pow_pos (suc k) = omega (arith, pow-suc 2 k, pow_pos k)

-- How many digits the recursion goes through does not matter, as long as they are all of `a`.
count_irrelevant :
    (bound : ℕ) (n : ℕ) (a : ℕ) (b : ℕ)
    → n ≤ bound
    → a ≤ n
    → digits (λ _. 0) min n a b ≡ bitwise (λ _. 0) min a b
count_irrelevant bound zero zero b within all = refl
count_irrelevant bound zero (suc a) b within all = absurd (omega arith)
count_irrelevant bound (suc n) zero b within all = refl
count_irrelevant zero (suc n) (suc a) b within all = absurd (omega arith)
count_irrelevant (suc bound) (suc n) (suc a) b within all =
    let half = suc a / 2 in
    let long = count_irrelevant bound n half (b / 2) (omega arith) (omega arith) in
    let short = count_irrelevant bound a half (b / 2) (omega arith) (omega arith) in
    ap (λ (t : ℕ). t * 2 + min (suc a % 2) (b % 2)) (long ∙ sym short)

none_left : (b : ℕ) → bit_and 0 b ≡ 0
none_left b = bit_and-bitwise 0 b

pub halve : (a b : ℕ) → bit_and a b ≡ bit_and (a / 2) (b / 2) * 2 + min (a % 2) (b % 2)
halve zero b = omega (arith, none_left (b / 2), none_left b)
halve (suc a) b =
    let enough = count_irrelevant a a (suc a / 2) (b / 2) (omega arith) (omega arith) in
    omega (arith, enough, bit_and-bitwise (suc a / 2) (b / 2), bit_and-bitwise (suc a) b)

-- Induction on the digits of the first number.
by_halves :
    (P : ℕ → ℕ → Type 0)
    → ((b : ℕ) → P 0 b)
    → ((a b : ℕ) → P (a / 2) (b / 2) → P a b)
    → (bound a b : ℕ) → a ≤ bound
    → P a b
by_halves P base more bound zero b h = base b
by_halves P base more zero (suc a) b h = absurd (omega arith)
by_halves P base more (suc bound) (suc a) b h =
    more (suc a) b (by_halves P base more bound (suc a / 2) (b / 2) (omega arith))

-- `a & b` is at most `b`.
pub bit_and-le : (a b : ℕ) → bit_and a b ≤ b
bit_and-le a b =
    by_halves (λ x y. bit_and x y ≤ y) (λ y. omega (arith, none_left y))
      (λ x y ih. omega (arith, halve x y, ih)) a a b (omega arith)

remainder_by_halves : (a p : ℕ) → 0 < p → a / 2 % p * 2 + a % 2 ≡ a % (p * 2)
remainder_by_halves a p h =
    let low = a / 2 % p * 2 + a % 2 in
    let small : low < p * 2 = omega arith in
    let whole : a / 2 / p * (p * 2) + low ≡ a = omega arith in
    sym (mod-eq_of_lt small)
    ∙ sym (mul-add-mod_self_right (a / 2 / p) (p * 2) low)
    ∙ ap (λ (t : ℕ). t % (p * 2)) whole

-- `a & (2 ^ k - 1)` is `a % 2 ^ k`; the mask is a variable with an equation.
pub bit_and-mask : (k a m : ℕ) → m + 1 ≡ 2 ^ k → bit_and a m ≡ a % 2 ^ k
bit_and-mask zero a m ones = omega (
  arith,
  by_halves (λ x y. y ≡ 0 → bit_and x y ≡ 0) (λ y z. none_left y)
      (λ x y ih z. omega (arith, halve x y, ih (omega arith))) a a m (omega arith) (omega arith),
)
bit_and-mask (suc k) a m ones =
    let size = pow-suc 2 k in
    let rest = bit_and-mask k (a / 2) (m / 2) (omega arith) in
    rw size (omega (arith, rest, halve a m, remainder_by_halves a (2 ^ k) (pow_pos k)))
