-- ===== src/Array/Swap.antt =====
-- What a swap of two neighbours does to an array, and to its inversions.
use mathlib.Core.List.{Perm}
use mathlib.Core.List.Perm
use mirb.Array.{swap}
use mirb.Prelude.Lists.{length, get_or, set, length-set, get_or-set}
use mirb.Prelude.{
  ℕ, zero, suc, ◌+◌, ◌*◌, ◌≤◌, ◌<◌, ◌≡◌, refl, Bool, true, false, List, [], ◌∷◌, arith, ◌==◌,
  if◌then◌else◌,
}

swap-cons : (x : ℕ) (xs : List ℕ) (i : ℕ) → swap (x ∷ xs) (suc i) ≡ x ∷ swap xs i
unfolding swap set get_or
swap-cons x xs i = let e : suc i + 1 ≡ suc (i + 1) = omega arith in rw e refl

swap-zero : (x y : ℕ) (r : List ℕ) → swap (x ∷ y ∷ r) 0 ≡ y ∷ x ∷ r
unfolding swap set get_or
swap-zero x y r = refl

pub length-swap : (v : List ℕ) (i : ℕ) → length (swap v i) ≡ length v
unfolding swap
length-swap v i = rw (length-set, length-set) refl

pub get_or-swap :
    (v : List ℕ) (i j : ℕ)
    → i + 1 < length v
    → get_or (swap v i) j 0
      ≡ (if j == i then get_or v (i + 1) 0 else if j == i + 1 then get_or v i 0 else get_or v j 0)
unfolding swap
get_or-swap v i j h = ground (
  arith,
  get_or-set (set v (i + 1) (get_or v i 0)) i j (get_or v (i + 1) 0) 0,
  get_or-set v (i + 1) j (get_or v i 0) 0,
  length-set v (i + 1) (get_or v i 0),
)

pub swap-perm : (v : List ℕ) (i : ℕ) → i + 1 < length v → Perm (swap v i) v
swap-perm [] i h = absurd (omega arith)
swap-perm (x ∷ []) i h = absurd (omega arith)
swap-perm (x ∷ y ∷ r) zero h = rw (swap-zero x y r) (Perm.swap x y r)
swap-perm (x ∷ y ∷ r) (suc i) h =
    rw (swap-cons x (y ∷ r) i) (Perm.cons x (swap-perm (y ∷ r) i (omega arith)))

-- The elements of a list that come before `x`, and the pairs that stand in the wrong order.
module _ (less : ℕ → ℕ → Bool) where
  abbrev one : Bool → ℕ
  one true = 1
  one false = 0

  pub count_less : ℕ → List ℕ → ℕ
  count_less x [] = 0
  count_less x (y ∷ r) = one (less y x) + count_less x r

  pub inversions : List ℕ → ℕ
  unfolding count_less
  inversions [] = 0
  inversions (x ∷ r) = count_less x r + inversions r

  count_less-swap :
      (x : ℕ) (v : List ℕ) (i : ℕ) → i + 1 < length v → count_less x (swap v i) ≡ count_less x v
  unfolding count_less
  count_less-swap x [] i h = absurd (omega arith)
  count_less-swap x (y ∷ []) i h = absurd (omega arith)
  count_less-swap x (y ∷ z ∷ r) zero h = rw (swap-zero y z r) (omega arith)
  count_less-swap x (y ∷ z ∷ r) (suc i) h =
      rw (swap-cons y (z ∷ r) i) (omega (arith, count_less-swap x (z ∷ r) i (omega arith)))

  -- Swapping neighbours that stand in the wrong order takes one inversion away.
  pub inversions-swap :
      (v : List ℕ) (i : ℕ)
      → i + 1 < length v
      → less (get_or v (i + 1) 0) (get_or v i 0) ≡ true
      → less (get_or v i 0) (get_or v (i + 1) 0) ≡ false
      → inversions (swap v i) + 1 ≡ inversions v
  unfolding inversions get_or
  inversions-swap [] i h a b = absurd (omega arith)
  inversions-swap (x ∷ []) i h a b = absurd (omega arith)
  inversions-swap (x ∷ y ∷ r) zero h a b = rw (swap-zero x y r) (ground arith)
  inversions-swap (x ∷ y ∷ r) (suc i) h a b =
      let e : suc i + 1 ≡ suc (i + 1) = omega arith in
      rw (swap-cons x (y ∷ r) i) (
        omega (
          arith,
          count_less-swap x (y ∷ r) i (omega arith),
          inversions-swap (y ∷ r) i (omega arith) (rw e at a) (rw e at b),
        ))

  count_less-le : (x : ℕ) (v : List ℕ) → count_less x v ≤ length v
  unfolding count_less
  count_less-le x [] = omega arith
  count_less-le x (y ∷ r) = ground (arith, count_less-le x r)

  pub inversions-le : (v : List ℕ) → inversions v ≤ length v * length v
  unfolding inversions
  inversions-le [] = omega arith
  inversions-le (x ∷ r) = grind (arith, count_less-le x r, inversions-le r)
