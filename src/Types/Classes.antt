-- ===== src/Types/Classes.antt =====
-- type.hpp: the C++ class that a tag stands for, and the bases that the classes declare.
use mirb.Prelude.{ℕ, Option, none, some}
use mirb.Types.{
  Enum, none_type, free_block, internal_value_map, internal_stack_frame, internal_tuple,
  internal_value_tuple, internal_variable_block, internal_document, internal_block, internal_scope,
  internal_global, float, range, fixnum, true_type, false_type, nil, class_type, iclass,
  module_type, object, symbol, string, regexp, bignum, array, hash, method, proc, exception,
  return_exception, break_exception, next_exception, redo_exception, system_exit,
  system_stack_error, syntax_error, io,
}

-- The C++ classes that the tags stand for, and their bases.
pub data CppClass : Type 0 where
  value_map_class : CppClass
  stack_frame_class : CppClass
  object_tuple_class : CppClass
  value_tuple_class : CppClass
  variable_block_class : CppClass
  document_class : CppClass
  block_class : CppClass
  scope_class : CppClass
  global_class : CppClass
  float_class : CppClass
  range_class : CppClass
  immediate_fixnum_class : CppClass
  immediate_true_class : CppClass
  immediate_false_class : CppClass
  immediate_nil_class : CppClass
  class_class : CppClass
  module_class : CppClass
  object_class : CppClass
  symbol_class : CppClass
  string_class : CppClass
  regexp_class : CppClass
  bignum_class : CppClass
  array_class : CppClass
  hash_class : CppClass
  method_class : CppClass
  proc_class : CppClass
  exception_class : CppClass
  return_exception_class : CppClass
  break_exception_class : CppClass
  redo_exception_class : CppClass
  next_exception_class : CppClass
  system_exit_class : CppClass
  system_stack_error_class : CppClass
  syntax_error_class : CppClass
  io_class : CppClass
  free_block_class : CppClass
  value_class : CppClass
  pinned_header_class : CppClass

-- A number of its own for each class.
unfoldable pub number : CppClass → ℕ
number value_map_class = 0
number stack_frame_class = 1
number object_tuple_class = 2
number value_tuple_class = 3
number variable_block_class = 4
number document_class = 5
number block_class = 6
number scope_class = 7
number global_class = 8
number float_class = 9
number range_class = 10
number immediate_fixnum_class = 11
number immediate_true_class = 12
number immediate_false_class = 13
number immediate_nil_class = 14
number class_class = 15
number module_class = 16
number object_class = 17
number symbol_class = 18
number string_class = 19
number regexp_class = 20
number bignum_class = 21
number array_class = 22
number hash_class = 23
number method_class = 24
number proc_class = 25
number exception_class = 26
number return_exception_class = 27
number break_exception_class = 28
number redo_exception_class = 29
number next_exception_class = 30
number system_exit_class = 31
number system_stack_error_class = 32
number syntax_error_class = 33
number io_class = 34
number free_block_class = 35
number value_class = 36
number pinned_header_class = 37

-- `ToClass` and `ToTag`.
unfoldable pub to_class : Enum → Option CppClass
to_class none_type = none
to_class free_block = some free_block_class
to_class internal_value_map = some value_map_class
to_class internal_stack_frame = some stack_frame_class
to_class internal_tuple = some object_tuple_class
to_class internal_value_tuple = some value_tuple_class
to_class internal_variable_block = some variable_block_class
to_class internal_document = some document_class
to_class internal_block = some block_class
to_class internal_scope = some scope_class
to_class internal_global = some global_class
to_class float = some float_class
to_class range = some range_class
to_class fixnum = some immediate_fixnum_class
to_class true_type = some immediate_true_class
to_class false_type = some immediate_false_class
to_class nil = some immediate_nil_class
to_class class_type = some class_class
to_class iclass = some class_class
to_class module_type = some module_class
to_class object = some object_class
to_class symbol = some symbol_class
to_class string = some string_class
to_class regexp = some regexp_class
to_class bignum = some bignum_class
to_class array = some array_class
to_class hash = some hash_class
to_class method = some method_class
to_class proc = some proc_class
to_class exception = some exception_class
to_class return_exception = some return_exception_class
to_class break_exception = some break_exception_class
to_class next_exception = some next_exception_class
to_class redo_exception = some redo_exception_class
to_class system_exit = some system_exit_class
to_class system_stack_error = some system_stack_error_class
to_class syntax_error = some syntax_error_class
to_class io = some io_class

unfoldable pub to_tag : CppClass → Option Enum
to_tag value_map_class = some internal_value_map
to_tag stack_frame_class = some internal_stack_frame
to_tag object_tuple_class = some internal_tuple
to_tag value_tuple_class = some internal_value_tuple
to_tag variable_block_class = some internal_variable_block
to_tag document_class = some internal_document
to_tag block_class = some internal_block
to_tag scope_class = some internal_scope
to_tag global_class = some internal_global
to_tag float_class = some float
to_tag range_class = some range
to_tag immediate_fixnum_class = some fixnum
to_tag immediate_true_class = some true_type
to_tag immediate_false_class = some false_type
to_tag immediate_nil_class = some nil
to_tag class_class = some class_type
to_tag module_class = some module_type
to_tag object_class = some object
to_tag symbol_class = some symbol
to_tag string_class = some string
to_tag regexp_class = some regexp
to_tag bignum_class = some bignum
to_tag array_class = some array
to_tag hash_class = some hash
to_tag method_class = some method
to_tag proc_class = some proc
to_tag exception_class = some exception
to_tag return_exception_class = some return_exception
to_tag break_exception_class = some break_exception
to_tag redo_exception_class = some redo_exception
to_tag next_exception_class = some next_exception
to_tag system_exit_class = some system_exit
to_tag system_stack_error_class = some system_stack_error
to_tag syntax_error_class = some syntax_error
to_tag io_class = some io
to_tag free_block_class = some free_block
to_tag value_class = none
to_tag pinned_header_class = none

-- The base that the declaration of a class names.
unfoldable pub superclass : CppClass → Option CppClass
superclass value_map_class = some value_class
superclass stack_frame_class = some value_class
superclass object_tuple_class = some pinned_header_class
superclass value_tuple_class = some pinned_header_class
superclass variable_block_class = some pinned_header_class
superclass document_class = some pinned_header_class
superclass block_class = some pinned_header_class
superclass scope_class = some pinned_header_class
superclass global_class = some value_class
superclass float_class = some object_class
superclass range_class = some object_class
superclass immediate_fixnum_class = some value_class
superclass immediate_true_class = some value_class
superclass immediate_false_class = some value_class
superclass immediate_nil_class = some value_class
superclass class_class = some module_class
superclass module_class = some object_class
superclass object_class = some value_class
superclass symbol_class = some object_class
superclass string_class = some object_class
superclass regexp_class = some object_class
superclass bignum_class = some object_class
superclass array_class = some object_class
superclass hash_class = some object_class
superclass method_class = some object_class
superclass proc_class = some object_class
superclass exception_class = some object_class
superclass return_exception_class = some next_exception_class
superclass break_exception_class = some return_exception_class
superclass redo_exception_class = some exception_class
superclass next_exception_class = some exception_class
superclass system_exit_class = some exception_class
superclass system_stack_error_class = some exception_class
superclass syntax_error_class = some exception_class
superclass io_class = some object_class
superclass free_block_class = some value_class
superclass value_class = none
superclass pinned_header_class = some value_class
