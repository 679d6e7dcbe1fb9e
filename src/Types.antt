-- ===== src/Types.antt =====
-- type.hpp and type.cpp: the type tags, their names, and the dispatch on a tag.
pub mod Classes
pub mod Cast
pub mod Derived
use mirb.Prelude.Lists.{get_or}
use mirb.Prelude.{ℕ, List, [], ◌∷◌, Option, none, some}
use Prim.Native.String.{String}

pub data Enum : Type 0 where
  none_type : Enum
  free_block : Enum
  internal_value_map : Enum
  internal_stack_frame : Enum
  internal_tuple : Enum
  internal_value_tuple : Enum
  internal_variable_block : Enum
  internal_document : Enum
  internal_block : Enum
  internal_scope : Enum
  internal_global : Enum
  float : Enum
  range : Enum
  fixnum : Enum
  true_type : Enum
  false_type : Enum
  nil : Enum
  class_type : Enum
  iclass : Enum
  module_type : Enum
  object : Enum
  symbol : Enum
  string : Enum
  regexp : Enum
  bignum : Enum
  array : Enum
  hash : Enum
  method : Enum
  proc : Enum
  exception : Enum
  return_exception : Enum
  break_exception : Enum
  next_exception : Enum
  redo_exception : Enum
  system_exit : Enum
  system_stack_error : Enum
  syntax_error : Enum
  io : Enum

-- The position of a tag in the enumeration.
unfoldable pub position : Enum → ℕ
position none_type = 0
position free_block = 1
position internal_value_map = 2
position internal_stack_frame = 3
position internal_tuple = 4
position internal_value_tuple = 5
position internal_variable_block = 6
position internal_document = 7
position internal_block = 8
position internal_scope = 9
position internal_global = 10
position float = 11
position range = 12
position fixnum = 13
position true_type = 14
position false_type = 15
position nil = 16
position class_type = 17
position iclass = 18
position module_type = 19
position object = 20
position symbol = 21
position string = 22
position regexp = 23
position bignum = 24
position array = 25
position hash = 26
position method = 27
position proc = 28
position exception = 29
position return_exception = 30
position break_exception = 31
position next_exception = 32
position redo_exception = 33
position system_exit = 34
position system_stack_error = 35
position syntax_error = 36
position io = 37

unfoldable pub names : List String
names =
    "None" ∷ "FreeBlock" ∷ "InternalValueMap" ∷ "InternalStackFrame" ∷ "InternalTuple"
    ∷ "InternalValueTuple" ∷ "InternalVariableBlock" ∷ "InternalDocument" ∷ "InternalBlock"
    ∷ "InternalScope" ∷ "InternalGlobal" ∷ "Float" ∷ "Range" ∷ "Fixnum" ∷ "TrueClass" ∷ "FalseClass"
    ∷ "NilClass" ∷ "Class" ∷ "IClass" ∷ "Module" ∷ "Object" ∷ "Symbol" ∷ "String" ∷ "Regexp"
    ∷ "Bignum" ∷ "Array" ∷ "Hash" ∷ "Method" ∷ "Proc" ∷ "Exception" ∷ "ReturnException"
    ∷ "BreakException" ∷ "NextException" ∷ "RedoException" ∷ "SystemStackError" ∷ "SyntaxError"
    ∷ "IO" ∷ []

-- `names[type]`; there is no string behind the last one.
unfoldable pub type_name : Enum → String
unfolding get_or names position
type_name t = get_or names (position t) ""

-- `action`: the tag that its template argument is instantiated with, or none where it aborts.
unfoldable pub action : Enum → Option Enum
action none_type = none
action free_block = some free_block
action internal_value_map = some internal_value_map
action internal_stack_frame = some internal_stack_frame
action internal_tuple = some internal_tuple
action internal_value_tuple = some internal_value_tuple
action internal_variable_block = some internal_variable_block
action internal_document = some internal_document
action internal_block = some internal_block
action internal_scope = some internal_scope
action internal_global = some internal_global
action float = some float
action range = some range
action fixnum = some fixnum
action true_type = some true_type
action false_type = some false_type
action nil = some nil
action class_type = some class_type
action iclass = some iclass
action module_type = some module_type
action object = some object
action symbol = some symbol
action string = some string
action regexp = some regexp
action bignum = some bignum
action array = some array
action hash = some hash
action method = some method
action proc = some proc
action exception = some exception
action return_exception = some return_exception
action break_exception = some break_exception
action next_exception = some next_exception
action redo_exception = some redo_exception
action system_exit = some system_exit
action system_stack_error = some system_stack_error
action syntax_error = some syntax_error
action io = some io
