-- ===== src/Lib.antt =====
-- mirb, a Ruby interpreter in C++: the parts of it that keep state or decide something on their
-- own, as definitions in antt, and what holds of them. Paths are from the repository's root;
-- the sources are in src/.
--
-- The front end reads a file through src/lexer and src/parser: the lexer turns bytes into
-- lexemes (src/lexer/lexeme.hpp numbers them and src/lexer/lexeme.cpp names them), and the
-- parser builds a tree. src/codegen turns the tree into ops, which src/vm.cpp runs. At run time
-- a Ruby value is a word. Objects keep their instance variables, modules their constants and
-- methods, and the program its globals in open-addressing tables (src/value-map.hpp). The
-- classes of the language (src/classes) are written over these, and a collector frees what no
-- root reaches.
--
-- - Lexeme, Lexeme/Kind, Lexeme/Names: src/lexer/lexeme.hpp and lexeme.cpp, the enumeration of
--   lexemes, its casts between an operator and its assignment or unary form, and the names;
--   Lexeme/Casts compares the casts with the names.
--
-- - Parser: src/parser/parser.cpp, `parse_precedence_operator` and what it calls. The token
--   list stands for the lexer, `parse_unary` is a parameter that only must not lengthen the
--   input. The two nested loops run on fuel, two rounds for each lexeme, which is enough since
--   each round reads an operator. Parser/Climb says what a well-grouped tree is and Parser/Run
--   proves it of the result.
--
-- - ValueMap: src/value-map.hpp in its light mode, with `ValueMapData` as a record, the raw
--   tuple as a list, and `search`, `store`, `expand`, `get`, `has`, `set`, `remove` and
--   `each_pair`. A search has one round for each slot as fuel, which is enough while a slot is
--   free; `none` is a loop that does not end. ValueMap/Valid holds the invariant (a slot is
--   free, each key is once in the table and reachable from its hash); Probe, Write, Store,
--   Expand, Set, Restore and EachPair hold the proofs. The hash function is a parameter.
--   `remove_index` is translated as it stands, and the tests show an input on which it loses
--   another key.
--
-- - Array, Array/Sort: `Array::sort` of src/classes/array.cpp, with `<=>` as a parameter that
--   answers an integer or raises. Its fuel is twice the square of the length and more, which
--   bounds the swaps. Array/Index has `map_index` of src/runtime.cpp and the indexing that uses
--   it, Array/Delete has `delete_if` of src/classes/array.hpp, over the `remove` of the
--   library's vector.
--
-- - Types, Types/Classes, Types/Cast: src/type.hpp, src/type.cpp and the casts of
--   src/value.hpp, as tables: the tags, `action`, `ToClass` and `ToTag`, and the
--   `mirb_derived_from` lines. Types/Derived compares the latter with the bases that the
--   classes declare.
--
-- - Value: src/value.hpp and src/value.cpp, a Ruby value as a 64-bit word with its tag bits.
--
-- - Fixnum: src/classes/fixnum.cpp, an `int_t` as an integer and a `value_t` as a word;
--   Fixnum/Words and Fixnum/Arith hold the proofs, Fixnum/Products those of `mul` and
--   Fixnum/Quotients those of `div`. `mul` goes through the class `Number` of src/number.cpp, a
--   number being an integer; the functions of libtommath are parameters. A new Bignum is the
--   integer that its constructor is called with.
--
-- - Range: src/classes/range.cpp, `convert_to_index`.
--
-- - CharArray: src/char-array.cpp, byte strings that share buffers until one is written, over a
--   store of buffers and objects; a new buffer is always made where the code calls the
--   collector. CharArray/Sharing holds the invariant, CharArray/Text, CharArray/Append and
--   CharArray/Copies what each operation writes. The bytes of a new buffer are zeros until they
--   are written, which nothing depends on. CharArray/Bytes has the operations that only read,
--   as functions on bytes, and CharArray/Search is about `index_of`; `pad`, the loop of `ljust`
--   and `rjust`, runs on the width as fuel, since each round adds a byte if the padding has
--   one.
--
-- - Stream: src/stream.cpp, `gets`, over contents and a position; the virtual `read` and `seek`
--   are those of src/platform/posix.cpp on a regular file, which reads give in full and nobody
--   else moves. Its loop has one round more than there are bytes left as fuel, since each round
--   but the last reads some. Stream/Line says what a line is, Stream/Gets proves that `gets`
--   reads one.
--
-- - SourceLoc: src/generic/source-loc.hpp, the ranges that messages point at; SourceLoc/Columns
--   is about the indicator below a line.
--
-- - ByteCode, ByteCode/Convert: src/codegen/bytecode.cpp and bytecode.hpp with the nodes of
--   src/tree/nodes.hpp and the ops of src/codegen/opcodes.hpp, for nodes without blocks, heap
--   variables and exception handlers. The generator is a record that each `convert_` function
--   changes, with labels and variables as numbers; a position counts ops, where the code counts
--   bytes. Vm is src/vm.cpp, `evaluate_block` on these ops, with what a called method does as a
--   parameter, which raises nothing that this frame would catch; it runs on a number of
--   instructions. ByteCode/Meaning says what a node means, with a number of rounds for each
--   loop. ByteCode/Grows, Runs, Implements and Reuse hold what the proofs of the single nodes
--   share, ByteCode/Correct puts these together, and ByteCode/Evaluates is about whole blocks.
--
-- - Collector: src/collector-mark.cpp and src/collector-sweep.cpp, and `collect` of
--   src/collector.cpp where the heap is swept. An object is its address; its flag and its link
--   in the list of pending objects are functions of the address, and what the classes' `mark`
--   functions pass to the collector is a list of fields for each object, as are the roots.
--   Marking runs on as many rounds as there are objects, which is enough. Collector/Search is
--   the search without links, Roots proves it, Lists, Fields and Rounds lead from the links to
--   it, Marks and Sweeps are about whole marks and collections.
--
-- - Modules: `include_module`, `subclass_of` and `lookup_module_method` of src/runtime.cpp,
--   with `create_include_class` of src/classes/class.cpp, `get_methods` of
--   src/classes/module.cpp and `get_vars` for modules. A module is its address, each of its
--   fields a function of the address, a table of methods or variables a number, and 0 the null
--   pointer. The loops run on as many rounds as there are superclasses and included modules,
--   which is enough. Chains has the lists of addresses, Stores what the operations change,
--   Inserts a new include class in a chain, Rounds one round of the loop, Includes the whole of
--   it. Subclasses is about `subclass_of` and `real_class`, Lookups about `lookup_module` and
--   `lookup_module_method`, where the methods in the tables are a parameter and `none` stands
--   for the error that is raised.
--
-- - Prelude: lists, bits and integers that the parts share. Tests: the theorems at concrete
--   inputs, and runs of the definitions.
--
-- Words are natural numbers; a wrap-around is written out. The compacting collector, the rest
-- of the byte code generator and the virtual machine, the classes that wrap an operating system
-- service (files, directories, time), regular expressions and big numbers, which stand on
-- libraries outside the repository, and the parser outside of binary operators are not
-- modelled.
pub mod Prelude
pub mod Array
pub mod ByteCode
pub mod CharArray
pub mod Collector
pub mod Fixnum
pub mod Lexeme
pub mod Modules
pub mod Parser
pub mod Range
pub mod SourceLoc
pub mod Stream
pub mod Types
pub mod Value
pub mod ValueMap
pub mod Vm
pub mod Tests
