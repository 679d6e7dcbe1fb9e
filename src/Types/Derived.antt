-- ===== src/Types/Derived.antt =====
-- type.hpp: the table of derived classes against the declarations of the classes.
use mathlib.Core.Path.{subst}
use mirb.Prelude.Lists.{get_or, length}
use mirb.Prelude.{
  ℕ, zero, suc, ◌<◌, ◌≡◌, refl, Bool, true, false, not, ◌&&◌, ◌||◌, List, [], ◌∷◌, Option, none,
  some, arith, if◌then◌else◌,
}
use mirb.Types.Cast.{derived_pairs, same, listed, derived_from, of_type}
use mirb.Types.Classes.{
  CppClass, value_map_class, stack_frame_class, object_tuple_class, value_tuple_class,
  variable_block_class, document_class, block_class, scope_class, global_class, float_class,
  range_class, immediate_fixnum_class, immediate_true_class, immediate_false_class,
  immediate_nil_class, class_class, module_class, object_class, symbol_class, string_class,
  regexp_class, bignum_class, array_class, hash_class, method_class, proc_class, exception_class,
  return_exception_class, break_exception_class, redo_exception_class, next_exception_class,
  system_exit_class, system_stack_error_class, syntax_error_class, io_class, free_block_class,
  value_class, pinned_header_class, number, to_class, superclass,
}
use mirb.Types.{
  Enum, none_type, free_block, internal_value_map, internal_stack_frame, internal_tuple,
  internal_value_tuple, internal_variable_block, internal_document, internal_block, internal_scope,
  internal_global, float, range, fixnum, true_type, false_type, nil, class_type, iclass,
  module_type, object, symbol, string, regexp, bignum, array, hash, method, proc, exception,
  return_exception, break_exception, next_exception, redo_exception, system_exit,
  system_stack_error, syntax_error, io, action,
}

-- Whether `base` is `class` or one of the bases that its declaration leads to.
unfoldable pub inherits : ℕ → CppClass → CppClass → Bool
inherits zero base class = false
inherits (suc depth) base class =
    same base class || elim (superclass class) [ none ↦ false | some p ↦ inherits depth base p ]

-- `Value` is reached after at most five bases.
abbrev pub depth : ℕ
depth = 6

-- A base that `cast` may name: the table has it as derived from itself.
abbrev pub IsCastable : CppClass → Type 0
IsCastable base = derived_from base base ≡ true

-- The classes whose bases the table leaves out.
unfoldable pub left_out : CppClass → Bool
left_out class = same next_exception_class class || same redo_exception_class class

classes : List CppClass
classes =
    value_map_class ∷ stack_frame_class ∷ object_tuple_class ∷ value_tuple_class
    ∷ variable_block_class ∷ document_class ∷ block_class ∷ scope_class ∷ global_class ∷ float_class
    ∷ range_class ∷ immediate_fixnum_class ∷ immediate_true_class ∷ immediate_false_class
    ∷ immediate_nil_class ∷ class_class ∷ module_class ∷ object_class ∷ symbol_class ∷ string_class
    ∷ regexp_class ∷ bignum_class ∷ array_class ∷ hash_class ∷ method_class ∷ proc_class
    ∷ exception_class ∷ return_exception_class ∷ break_exception_class ∷ redo_exception_class
    ∷ next_exception_class ∷ system_exit_class ∷ system_stack_error_class ∷ syntax_error_class
    ∷ io_class ∷ free_block_class ∷ value_class ∷ pinned_header_class ∷ []

all : (CppClass → Bool) → List CppClass → Bool
all f [] = true
all f (c ∷ cs) = f c && all f cs

at_number : (c : CppClass) → get_or classes (number c) value_class ≡ c
unfolding get_or classes number
at_number value_map_class = refl
at_number stack_frame_class = refl
at_number object_tuple_class = refl
at_number value_tuple_class = refl
at_number variable_block_class = refl
at_number document_class = refl
at_number block_class = refl
at_number scope_class = refl
at_number global_class = refl
at_number float_class = refl
at_number range_class = refl
at_number immediate_fixnum_class = refl
at_number immediate_true_class = refl
at_number immediate_false_class = refl
at_number immediate_nil_class = refl
at_number class_class = refl
at_number module_class = refl
at_number object_class = refl
at_number symbol_class = refl
at_number string_class = refl
at_number regexp_class = refl
at_number bignum_class = refl
at_number array_class = refl
at_number hash_class = refl
at_number method_class = refl
at_number proc_class = refl
at_number exception_class = refl
at_number return_exception_class = refl
at_number break_exception_class = refl
at_number redo_exception_class = refl
at_number next_exception_class = refl
at_number system_exit_class = refl
at_number system_stack_error_class = refl
at_number syntax_error_class = refl
at_number io_class = refl
at_number free_block_class = refl
at_number value_class = refl
at_number pinned_header_class = refl

number-lt : (c : CppClass) → number c < length classes
unfolding classes number
number-lt value_map_class = omega arith
number-lt stack_frame_class = omega arith
number-lt object_tuple_class = omega arith
number-lt value_tuple_class = omega arith
number-lt variable_block_class = omega arith
number-lt document_class = omega arith
number-lt block_class = omega arith
number-lt scope_class = omega arith
number-lt global_class = omega arith
number-lt float_class = omega arith
number-lt range_class = omega arith
number-lt immediate_fixnum_class = omega arith
number-lt immediate_true_class = omega arith
number-lt immediate_false_class = omega arith
number-lt immediate_nil_class = omega arith
number-lt class_class = omega arith
number-lt module_class = omega arith
number-lt object_class = omega arith
number-lt symbol_class = omega arith
number-lt string_class = omega arith
number-lt regexp_class = omega arith
number-lt bignum_class = omega arith
number-lt array_class = omega arith
number-lt hash_class = omega arith
number-lt method_class = omega arith
number-lt proc_class = omega arith
number-lt exception_class = omega arith
number-lt return_exception_class = omega arith
number-lt break_exception_class = omega arith
number-lt redo_exception_class = omega arith
number-lt next_exception_class = omega arith
number-lt system_exit_class = omega arith
number-lt system_stack_error_class = omega arith
number-lt syntax_error_class = omega arith
number-lt io_class = omega arith
number-lt free_block_class = omega arith
number-lt value_class = omega arith
number-lt pinned_header_class = omega arith

all-get_or :
    (f : CppClass → Bool) (cs : List CppClass) (i : ℕ)
    → all f cs ≡ true
    → i < length cs
    → f (get_or cs i value_class) ≡ true
unfolding all get_or
all-get_or f [] i h lt = absurd (omega arith)
all-get_or f (c ∷ cs) zero h lt = ground arith
all-get_or f (c ∷ cs) (suc i) h lt = all-get_or f cs i (ground arith) (omega arith)

everywhere : (f : CppClass → Bool) → all f classes ≡ true → (c : CppClass) → f c ≡ true
everywhere f h c =
    subst (λ x. f x ≡ true) (at_number c) (all-get_or f classes (number c) h (number-lt c))

-- The answer is there, and is this one.
says : Bool → Option Bool → Bool
says b none = false
says b (some answer) = if b then answer else not answer

says-some : (b : Bool) (o : Option Bool) → says b o ≡ true → o ≡ some b
unfolding says
says-some b none h = absurd (ground arith)
says-some true (some true) h = refl
says-some true (some false) h = absurd (ground arith)
says-some false (some true) h = absurd (ground arith)
says-some false (some false) h = refl

-- `of_type` and the declarations agree on a base and a tag.
agree : Enum → CppClass → Bool
agree t base = elim (to_class t) [
  | none ↦ true
  | some class ↦
      (not (derived_from base base)
        || left_out class
        || says (inherits depth base class) (of_type base t))
]

agree-all : (t : Enum) → all (agree t) classes ≡ true
unfolding all says agree classes number derived_from derived_pairs listed of_type action to_class
    inherits superclass left_out
agree-all none_type = refl
agree-all free_block = refl
agree-all internal_value_map = refl
agree-all internal_stack_frame = refl
agree-all internal_tuple = refl
agree-all internal_value_tuple = refl
agree-all internal_variable_block = refl
agree-all internal_document = refl
agree-all internal_block = refl
agree-all internal_scope = refl
agree-all internal_global = refl
agree-all float = refl
agree-all range = refl
agree-all fixnum = refl
agree-all true_type = refl
agree-all false_type = refl
agree-all nil = refl
agree-all class_type = refl
agree-all iclass = refl
agree-all module_type = refl
agree-all object = refl
agree-all symbol = refl
agree-all string = refl
agree-all regexp = refl
agree-all bignum = refl
agree-all array = refl
agree-all hash = refl
agree-all method = refl
agree-all proc = refl
agree-all exception = refl
agree-all return_exception = refl
agree-all break_exception = refl
agree-all next_exception = refl
agree-all redo_exception = refl
agree-all system_exit = refl
agree-all system_stack_error = refl
agree-all syntax_error = refl
agree-all io = refl

-- `of_type` asked about a castable base and a tag answers whether the base is the tag's class or
-- one of the bases that it declares, other than for `NextException` and `RedoException`.
pub of_type-inherits :
    (base : CppClass) (t : Enum) (class : CppClass)
    → IsCastable base
    → to_class t ≡ some class
    → left_out class ≡ false
    → of_type base t ≡ some (inherits depth base class)
unfolding agree
of_type-inherits base t class castable e kept =
    let h = everywhere (agree t) (agree-all t) base in
    says-some (inherits depth base class) (of_type base t) (rw (agree, e, castable, kept) at h)
