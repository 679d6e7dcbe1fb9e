-- ===== src/Value/Tags.antt =====
-- What the tag bits of a value say.
use Prim.Native.Nat.{bit_and}
use mirb.Prelude.Bits.{bit_and-mask, halve}
use mirb.Prelude.{
  ℕ, ◌+◌, ◌*◌, ◌/◌, ◌%◌, ◌^◌, ◌<◌, ◌≡◌, ◌⊎◌, ◌↔◌, inl, inr, refl, false, not, some, arith, ◌==◌,
}
use mirb.Types.{Enum}
use mirb.Value.{
  value_nil, value_false, value_true, falsy_mask, object_ref, test, type_table, class_of_table,
  class_of_literal, type, immediate,
}

-- The words that stand for Ruby values: fixnums, references above 4, and three literals.
abbrev pub IsValue : ℕ → Type 0
IsValue v =
    (v % 2 ≡ 1) ⊎ ((v % 4 ≡ 0) × (4 < v)) ⊎ (v ≡ value_nil) ⊎ (v ≡ value_false) ⊎ (v ≡ value_true)

and_one : (v : ℕ) → bit_and v 1 ≡ v % 2
and_one v = bit_and-mask 1 v 1 refl

and_three : (v : ℕ) → bit_and v 3 ≡ v % 4
and_three v = bit_and-mask 2 v 3 refl

and_fifteen : (v : ℕ) → bit_and v 15 ≡ v % 16
and_fifteen v = bit_and-mask 4 v 15 refl

and_falsy : (v : ℕ) → v < 2 ^ 64 → bit_and v falsy_mask ≡ v / 8 * 8 + v % 2
and_falsy v small = omega (
  arith,
  halve v falsy_mask,
  halve (v / 2) (falsy_mask / 2),
  halve (v / 2 / 2) (falsy_mask / 2 / 2),
  bit_and-mask 61 (v / 2 / 2 / 2) (falsy_mask / 2 / 2 / 2) refl,
)

-- Of all values, `test` fails for nil and false alone.
pub test-falsy :
    (v : ℕ) → v < 2 ^ 64 → IsValue v → (test v ≡ false) ↔ ((v ≡ value_nil) ⊎ (v ≡ value_false))
unfolding test
test-falsy v small h = rw (and_falsy v small) (ground arith)

odd_low : (v : ℕ) → v % 2 ≡ 1 → (bit_and (v % 16) 1 == 0) ≡ false
odd_low v h = rw (and_one (v % 16)) (ground arith)

-- The two literal tables agree: the class of a value that is no reference is the class for its
-- type, and of the values exactly these have the type of an immediate, if no object's type is one.
pub class_of_literal-type :
    {C : Type 0} (class_for : Enum → C) (value_type : ℕ → Enum) (v : ℕ)
    → IsValue v
    → immediate (value_type v) ≡ false
    → (immediate (type value_type v) ≡ not (object_ref v))
      × (object_ref v ≡ false → class_of_literal class_for v ≡ some (class_for (type value_type v)))
unfolding object_ref type type_table class_of_table class_of_literal immediate
class_of_literal-type class_for value_type v (inl odd) heap =
    let ref : (v % 4 == 0) ≡ false = ground arith in
    (
      rw (and_three v, ref, and_fifteen v, odd_low v odd) refl,
      λ _. rw (and_three v, ref, and_fifteen v, odd_low v odd) refl,
    )
class_of_literal-type class_for value_type v (inr (inl (ref, above))) heap =
    (rw (and_three v, ref) heap, λ h. absurd (ground (arith, and_three v)))
class_of_literal-type class_for value_type v (inr (inr (inl e))) heap = (rw e refl, λ _. rw e refl)
class_of_literal-type class_for value_type v (inr (inr (inr (inl e)))) heap =
    (rw e refl, λ _. rw e refl)
class_of_literal-type class_for value_type v (inr (inr (inr (inr e)))) heap =
    (rw e refl, λ _. rw e refl)
