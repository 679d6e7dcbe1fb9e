-- ===== src/Tests/Arrays.antt =====
-- Array::sort on three numbers that are compared by subtraction.
use mirb.Array.Delete.{Removes, delete_if, delete_loop, rejected, some_hit, delete_if-rejected}
use mirb.Array.Index.{Maps, map_index, map_index-Maps}
use mirb.Array.{done, swap, sort_loop, sort}
use mirb.Prelude.Int.{ℤ, pos, negsuc}
use mirb.Prelude.Lists.{length, get_or, set}
use mirb.Prelude.{
  ℕ, zero, suc, ◌-◌, ◌≡◌, refl, ap, Bool, true, List, [], ◌∷◌, Option, some, ltb, if◌then◌else◌,
}

-- `a <=> b` on non-negative integers
abbrev difference : ℕ → ℕ → ℤ
difference a b = if ltb a b then negsuc (b - a - 1) else pos (a - b)

abbrev spaceship : ℕ → ℕ → Option ℤ
spaceship a b = some (difference a b)

abbrev three : List ℕ
three = 3 ∷ 1 ∷ 2 ∷ []

sorts_three : sort spaceship three ≡ done (1 ∷ 2 ∷ 3 ∷ [])
unfolding sort sort_loop swap set get_or length
sorts_three = refl

map_index-Maps_example : Maps (negsuc 0) 3 (map_index (negsuc 0) 3)
map_index-Maps_example = map_index-Maps (negsuc 0) 3

-- A vector that takes out the element at an index.
take_out : List ℕ → ℕ → List ℕ
take_out [] i = []
take_out (x ∷ xs) zero = xs
take_out (x ∷ xs) (suc i) = x ∷ take_out xs i

take_out-Removes : Removes take_out
unfolding take_out
take_out-Removes [] ys x = refl
take_out-Removes (z ∷ zs) ys x = ap (λ m. z ∷ m) (take_out-Removes zs ys x)

abbrev above_one : ℕ → Bool
above_one n = ltb 1 n

delete_if-rejected_example :
    delete_if above_one take_out three ≡ (some_hit above_one three, rejected above_one three)
delete_if-rejected_example = delete_if-rejected above_one take_out take_out-Removes three

delete_if-three : delete_if above_one take_out three ≡ (true, 1 ∷ [])
unfolding delete_if delete_loop take_out get_or
delete_if-three = refl
