-- ===== src/ByteCode/Convert.antt =====
-- The `convert_` functions, each over the generators of the children, and `generate`.
use mirb.Prelude.{ℕ, Bool, true, false, Option, none, some, List, [], map, if◌then◌else◌}
use mirb.ByteCode.{
  Node, Nodes, nil_node, true_node, false_node, self_node, integer, variable, assignment,
  boolean_not, boolean_op, binary_op, if_node, loop_node, group, return_node, break_node, next_node,
  last, entry, Op, move, load_nil, load_true, load_false, load_fixnum, self_op, call, branch_if,
  branch_unless, branch_op, return_op, Generator, gen, gen_label, create_label, create_var, reuse,
  branch, patch,
}

-- `to_bytecode` on one node: the variable that takes the value, `none` for `no_var`.
abbrev pub Code : Type 0
Code = Option ℕ → Generator → Generator

unfoldable pub load : (ℕ → Op) → Code
load op none g = g
load op (some var) g = gen (op var) g

unfoldable pub convert_variable : ℕ → Code
convert_variable loc = load (λ var. move var loc)

-- `write_variable` and the move behind it.
unfoldable pub convert_assignment : ℕ → Code → Code
convert_assignment loc right var g =
    let (store, g1) = reuse var g in
    let g2 = gen (move loc store) (right (some store) g1) in load (λ v. move v store) var g2

unfoldable pub convert_boolean_not : Code → Code
convert_boolean_not value none g = value none g
convert_boolean_not value (some var) g =
    let (label_true, g1) = create_label (value (some var) g) in
    let (label_end, g2) = create_label g1 in
    let (label_false, g3) = create_label g2 in
    let g4 = gen_label label_false (gen (branch_if label_true var) g3) in
    let g5 = gen (branch_op label_end) (gen (load_true var) g4) in
    gen_label label_end (gen (load_false var) (gen_label label_true g5))

unfoldable pub branch_on : Bool → ℕ → ℕ → Op
branch_on true label var = branch_if label var
branch_on false label var = branch_unless label var

unfoldable pub convert_boolean_op : Bool → Code → Code → Code
convert_boolean_op is_or left right var g =
    let (temp, g1) = reuse var g in
    let (label_end, g2) = create_label (left (some temp) g1) in
    let (body, g3) = create_label g2 in
    let g4 = gen_label body (gen (branch_on is_or label_end temp) g3) in
    gen_label label_end (right var g4)

-- The argument stands alone in a `VariableGroup`.
unfoldable pub convert_binary_op : ℕ → Code → Code → Code
convert_binary_op method left right var g =
    let (obj, g1) = reuse var g in
    let (argv, g2) = create_var (left (some obj) g1) in
    gen (call var obj method 1 argv) (right (some argv) g2)

unfoldable pub convert_if : Bool → Code → Code → Code → Code
convert_if inverted left middle right var g =
    let (temp, g1) = reuse var g in
    let (label_else, g2) = create_label g1 in
    let (label_end, g3) = create_label g2 in
    let (body, g4) = create_label g3 in
    let g5 = gen_label body (gen (branch_on inverted label_else temp) (left (some temp) g4)) in
    let g6 = gen_label label_else (gen (branch_op label_end) (middle var g5)) in
    gen_label label_end (right var g6)

-- `block_body` is the generator's own label `body`, which stands in the place of one of the loop.
unfoldable pub convert_loop : ℕ → Bool → Code → (ℕ → ℕ → Code) → Code
convert_loop block_body inverted condition body var g =
    let (label_start, g1) = create_label g in
    let (label_body, g2) = create_label g1 in
    let (label_end, g3) = create_label g2 in
    let (temp, g4) = reuse var (gen_label label_start g3) in
    let g5 = gen_label label_body (condition (some temp) g4) in
    let g6 = body label_start label_end (some temp) (gen (branch_on inverted label_end temp) g5) in
    let g7 = gen (branch_op label_start) (gen_label block_body g6) in
    load load_nil var (gen_label label_end g7)

unfoldable pub convert_return : ℕ → ℕ → Code → Code
convert_return return_var epilog value var g =
    let (temp, g1) = reuse var g in
    branch epilog (gen (move return_var temp) (value (some temp) g1))

unfoldable pub convert_break : ℕ → Code → Code
convert_break target_end value var g =
    let (temp, g1) = reuse var g in gen (branch_op target_end) (value (some temp) g1)

-- With a loop as the target, the value is not converted.
unfoldable pub convert_next : ℕ → ℕ → ℕ → Bool → Code → Code
convert_next return_var epilog target_start has_target value var g =
    let (temp, g1) = reuse var g in
    if has_target
    then gen (branch_op target_start) g1
    else branch epilog (gen (move return_var temp) (value (some temp) g1))

-- The members of the generator that stay, and the labels of the loop around the node.
module _ (body epilog return_var : ℕ) where
  unfoldable mutual
    pub convert : Node → ℕ → ℕ → Code
    convert nil_node start end var = load load_nil var
    convert true_node start end var = load load_true var
    convert false_node start end var = load load_false var
    convert self_node start end var = load self_op var
    convert (integer num) start end var = load (λ v. load_fixnum v num) var
    convert (variable loc) start end var = convert_variable loc var
    convert (assignment loc right) start end var =
        convert_assignment loc (convert right start end) var
    convert (boolean_not value) start end var = convert_boolean_not (convert value start end) var
    convert (boolean_op is_or left right) start end var =
        convert_boolean_op is_or (convert left start end) (convert right start end) var
    convert (binary_op method left right) start end var =
        convert_binary_op method (convert left start end) (convert right start end) var
    convert (if_node inverted left middle right) start end var =
        convert_if inverted (convert left start end) (convert middle start end)
          (convert right start end) var
    convert (loop_node inverted condition inner) start end var =
        convert_loop body inverted (convert condition start end) (convert inner) var
    convert (group statements) start end var = convert_group statements start end var
    convert (return_node value) start end var =
        convert_return return_var epilog (convert value start end) var
    convert (break_node value) start end var = convert_break end (convert value start end) var
    convert (next_node has_target value) start end var =
        convert_next return_var epilog start has_target (convert value start end) var

    pub convert_group : Nodes → ℕ → ℕ → Code
    convert_group last start end var = load load_nil var
    convert_group (entry statement rest) start end var =
        convert_statements rest (convert statement start end) start end var

    -- Only the last statement has its value taken.
    pub convert_statements : Nodes → Code → ℕ → ℕ → Code
    convert_statements last statement start end var g = statement var g
    convert_statements (entry next rest) statement start end var g =
        convert_statements rest (convert next start end) start end var (statement none g)

-- A block without parameters, heap variables and breaks: its ops, the labels' positions, and the
-- number of variables.
unfoldable pub generate : ℕ → Node → Generator
generate variables scope_group =
    let (return_var, g1) =
      create_var
        (record { opcode = []; labels = λ _. 0; label_count = 0; var_count = variables }) in
    let (body, g2) = create_label g1 in
    let (epilog, g3) = create_label g2 in
    let g4 = convert body epilog return_var scope_group 0 0 (some return_var) (gen_label body g3) in
    gen (return_op return_var) (gen_label epilog g4)

unfoldable pub finalize : Generator → List Op
finalize g = map (patch g.labels) g.opcode
