-- ===== src/ByteCode.antt =====
-- The byte code generator (src/codegen/bytecode.cpp, src/codegen/bytecode.hpp) for nodes without
-- blocks, heap variables and exception handlers. A position is the number of ops before it.
pub mod Convert
pub mod Meaning
pub mod Grows
pub mod Runs
pub mod Implements
pub mod Reuse
pub mod Loads
pub mod Branches
pub mod BooleanOps
pub mod Correct
pub mod Evaluates
pub mod Loops
pub mod Exits
pub mod Calls
pub mod Nots
pub mod Ifs
use mirb.Prelude.Maps.{put}
use mirb.Prelude.{ℕ, ◌+◌, Bool, true, false, Option, none, some, List, [], ◌∷◌, ◌++◌}
use mirb.Prelude.Lists.{length}

-- A node as the parser leaves it. `break_node` has a loop as its target, and `next_node` tells
-- whether it has one. A `variable` is the `loc` of a variable that is not on the heap.
mutual
  pub data Node : Type 0 where
    nil_node : Node
    true_node : Node
    false_node : Node
    self_node : Node
    integer : ℕ → Node
    variable : ℕ → Node
    assignment : ℕ → Node → Node
    boolean_not : Node → Node
    boolean_op : Bool → Node → Node → Node
    binary_op : ℕ → Node → Node → Node
    if_node : Bool → Node → Node → Node → Node
    loop_node : Bool → Node → Node → Node
    group : Nodes → Node
    return_node : Node → Node
    break_node : Node → Node
    next_node : Bool → Node → Node

  pub data Nodes : Type 0 where
    last : Nodes
    entry : Node → Nodes → Nodes

-- The ops of codegen/opcodes.hpp that these nodes need. `pos` is a label until `finalize`.
pub data Op : Type 0 where
  move : (dst src : ℕ) → Op
  load_nil : (var : ℕ) → Op
  load_true : (var : ℕ) → Op
  load_false : (var : ℕ) → Op
  load_fixnum : (var num : ℕ) → Op
  self_op : (var : ℕ) → Op
  call : (var : Option ℕ) → (obj method argc argv : ℕ) → Op
  branch_if : (pos var : ℕ) → Op
  branch_unless : (pos var : ℕ) → Op
  branch_op : (pos : ℕ) → Op
  return_op : (var : ℕ) → Op

-- A label is its number, and `labels` holds each one's `pos`.
pub record Generator : Type 0 where
  pub opcode : List Op
  pub labels : ℕ → ℕ
  pub label_count : ℕ
  pub var_count : ℕ

unfoldable pub gen : Op → Generator → Generator
gen op g = record g { opcode = g.opcode ++ op ∷ [] }

unfoldable pub gen_label : ℕ → Generator → Generator
gen_label label g = record g { labels = put g.labels label (length g.opcode) }

unfoldable pub create_label : Generator → ℕ × Generator
create_label g = (g.label_count, record g { label_count = g.label_count + 1 })

unfoldable pub create_var : Generator → ℕ × Generator
create_var g = (g.var_count, record g { var_count = g.var_count + 1 })

unfoldable pub reuse : Option ℕ → Generator → ℕ × Generator
reuse none g = create_var g
reuse (some var) g = (var, g)

-- Placing a label that nothing branches to.
unfoldable pub branch : ℕ → Generator → Generator
branch label g = let (unused, h) = create_label (gen (branch_op label) g) in gen_label unused h

unfoldable pub patch : (ℕ → ℕ) → Op → Op
patch labels (branch_if pos var) = branch_if (labels pos) var
patch labels (branch_unless pos var) = branch_unless (labels pos) var
patch labels (branch_op pos) = branch_op (labels pos)
patch labels op = op
