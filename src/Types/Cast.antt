-- ===== src/Types/Cast.antt =====
-- type.hpp and value.hpp: the table of derived classes, and the test and the cast that read it.
use mathlib.Core.Option
use mirb.Prelude.{◌==◌, Bool, false, ◌||◌, ◌&&◌, List, [], ◌∷◌, Option, none, some}
use mirb.Types.Classes.{
  CppClass, stack_frame_class, block_class, global_class, float_class, range_class, class_class,
  module_class, object_class, symbol_class, string_class, regexp_class, bignum_class, array_class,
  hash_class, method_class, proc_class, exception_class, return_exception_class,
  break_exception_class, system_exit_class, system_stack_error_class, syntax_error_class, io_class,
  number, to_class,
}
use mirb.Types.{Enum, action}

-- The `mirb_derived_from` lines: a base, and a class derived from it.
unfoldable pub derived_pairs : List (CppClass × CppClass)
derived_pairs =
    (stack_frame_class, stack_frame_class)
    ∷ (global_class, global_class)
    ∷ (block_class, block_class)
    ∷ (object_class, object_class)
    ∷ (object_class, module_class)
    ∷ (object_class, class_class)
    ∷ (object_class, array_class)
    ∷ (object_class, hash_class)
    ∷ (object_class, string_class)
    ∷ (object_class, symbol_class)
    ∷ (object_class, method_class)
    ∷ (object_class, proc_class)
    ∷ (object_class, exception_class)
    ∷ (object_class, return_exception_class)
    ∷ (object_class, break_exception_class)
    ∷ (object_class, system_exit_class)
    ∷ (object_class, system_stack_error_class)
    ∷ (object_class, syntax_error_class)
    ∷ (object_class, io_class)
    ∷ (object_class, float_class)
    ∷ (object_class, regexp_class)
    ∷ (object_class, range_class)
    ∷ (object_class, bignum_class)
    ∷ (bignum_class, bignum_class)
    ∷ (module_class, module_class)
    ∷ (module_class, class_class)
    ∷ (class_class, class_class)
    ∷ (string_class, string_class)
    ∷ (float_class, float_class)
    ∷ (range_class, range_class)
    ∷ (regexp_class, regexp_class)
    ∷ (symbol_class, symbol_class)
    ∷ (hash_class, hash_class)
    ∷ (proc_class, proc_class)
    ∷ (method_class, method_class)
    ∷ (exception_class, exception_class)
    ∷ (exception_class, return_exception_class)
    ∷ (exception_class, break_exception_class)
    ∷ (exception_class, system_exit_class)
    ∷ (exception_class, system_stack_error_class)
    ∷ (exception_class, syntax_error_class)
    ∷ (return_exception_class, return_exception_class)
    ∷ (return_exception_class, break_exception_class)
    ∷ (break_exception_class, break_exception_class)
    ∷ (system_stack_error_class, system_stack_error_class)
    ∷ (system_exit_class, system_exit_class)
    ∷ (syntax_error_class, syntax_error_class)
    ∷ (io_class, io_class)
    ∷ (array_class, array_class)
    ∷ []

abbrev pub same : CppClass → CppClass → Bool
same a b = number a == number b

unfoldable pub listed : CppClass → CppClass → List (CppClass × CppClass) → Bool
listed base class [] = false
listed base class ((b, d) ∷ ps) = (same base b && same class d) || listed base class ps

-- `DerivedFrom<base, class>::value`
unfoldable pub derived_from : CppClass → CppClass → Bool
derived_from base class = listed base class derived_pairs

-- `of_type`: none where `action` aborts.
unfoldable pub of_type : CppClass → Enum → Option Bool
of_type base t = elim (action t) [
  | none ↦ none
  | some u ↦ Option.map (derived_from base) (to_class u)
]
