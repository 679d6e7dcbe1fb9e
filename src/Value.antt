-- ===== src/Value.antt =====
-- value.hpp and value.cpp: a Ruby value as a word. A fixnum has its lowest bit set, an object
-- reference is a multiple of 4, and the other words are the literals.
pub mod Tags
use Prim.Native.Nat.{bit_and}
use mirb.Prelude.{
  ℕ, ◌+◌, ◌*◌, ◌%◌, ◌<◌, ◌≡◌, ◌⊎◌, Bool, true, false, not, Option, none, some, ◌==◌, if◌then◌else◌,
}
use mirb.Types.{Enum, none_type, fixnum, true_type, false_type, nil}

abbrev pub fixnum_mask : ℕ
fixnum_mask = 1

abbrev pub object_ref_mask : ℕ
object_ref_mask = 3

abbrev pub literal_mask : ℕ
literal_mask = 15

abbrev pub value_nil : ℕ
value_nil = 2

abbrev pub value_false : ℕ
value_false = 6

abbrev pub value_true : ℕ
value_true = 10

-- `~(value_nil_num | value_false_num)` on 64 bits
abbrev pub falsy_mask : ℕ
falsy_mask = 18446744073709551609

unfoldable pub is_fixnum : ℕ → Bool
is_fixnum v = not (bit_and v fixnum_mask == 0)

unfoldable pub object_ref : ℕ → Bool
object_ref v = bit_and v object_ref_mask == 0

unfoldable pub test : ℕ → Bool
test v = not (bit_and v falsy_mask == 0)

unfoldable pub from_bool : Bool → ℕ
from_bool b = if b then value_true else value_false

-- What `initialize_type_table` stores at index `i`.
unfoldable pub type_table : ℕ → Enum
type_table i =
    if not (bit_and i fixnum_mask == 0)
    then fixnum
    else if i == value_nil
    then nil
    else if i == value_false
    then false_type
    else if i == value_true
    then true_type
    else none_type

-- What `initialize_class_table` stores at index `i`, given the classes of the context.
unfoldable pub class_of_table : {C : Type 0} → (Enum → C) → ℕ → Option C
class_of_table class_for i =
    if not (bit_and i fixnum_mask == 0)
    then some (class_for fixnum)
    else if i == value_nil
    then some (class_for nil)
    else if i == value_false
    then some (class_for false_type)
    else if i == value_true
    then some (class_for true_type)
    else none

unfoldable pub class_of_literal : {C : Type 0} → (Enum → C) → ℕ → Option C
class_of_literal class_for v = class_of_table class_for (bit_and v literal_mask)

-- `type`, where `value_type` is the field of the object that a reference leads to.
unfoldable pub type : (ℕ → Enum) → ℕ → Enum
type value_type v = if object_ref v then value_type v else type_table (bit_and v literal_mask)

unfoldable pub immediate : Enum → Bool
immediate fixnum = true
immediate true_type = true
immediate false_type = true
immediate nil = true
immediate _ = false
