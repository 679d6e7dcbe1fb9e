-- ===== src/Tests/Programs.antt =====
-- Blocks that are generated and run. The world counts the calls; method 0 adds, method 1 compares
-- and raises for the receiver 9.
use mirb.Prelude.Maps.{put}
use mirb.Value.{value_nil, test, from_bool}
use mirb.Vm.{
  Answer, answers, raises, fetch, arguments, set_var, take_answer, execute, execute_fetched, step,
  evaluate, evaluate_block,
}
use mirb.ByteCode.{
  Node, nil_node, integer, variable, assignment, boolean_op, binary_op, if_node, loop_node, group,
  break_node, last, entry, gen, gen_label, create_label, create_var, reuse, branch, patch,
}
use mirb.ByteCode.Convert.{
  load, convert_variable, convert_assignment, branch_on, convert_boolean_op, convert_binary_op,
  convert_if, convert_loop, convert_break, convert, convert_group, convert_statements, generate,
  finalize,
}
use mirb.ByteCode.Meaning.{
  value, and_then, passes, mean_assignment, mean_boolean_op, answered, mean_binary_op, mean_if,
  after_round, mean_loop, mean_break, constant, mean, mean_group, mean_statements,
}
use mirb.ByteCode.Correct.{IsScoped, AreScoped}
use mirb.ByteCode.Evaluates.{outcome, generate-Evaluates}
use mirb.Prelude.{
  ℕ, ◌+◌, ◌≡◌, ◌<◌, refl, true, false, some, List, [], ◌∷◌, arith, ◌==◌, ltb, if◌then◌else◌,
}

abbrev argument : List ℕ → ℕ
argument [] = value_nil
argument (x ∷ xs) = x

abbrev send : ℕ → ℕ → List ℕ → ℕ → Answer ℕ
send obj method args w =
    if obj == 9
    then raises 33 w
    else answers (if method == 0 then obj + argument args else from_bool (ltb obj (argument args)))
        (w + 1)

-- `x = 1; while x < 5; x = x + first; break if done; end; x or nil`
abbrev counting : ℕ → Node → Node
counting first done = group (
    entry (assignment 0 (integer 1)) (
      entry
        (loop_node false (binary_op 1 (variable 0) (integer 5)) (
          group (
            entry (assignment 0 (binary_op 0 (variable 0) (integer first)))
              (entry (if_node false done (break_node nil_node) nil_node) last))))
        (entry (boolean_op true (variable 0) nil_node) last)))

counts :
    evaluate_block 0 send 200 (finalize (generate 1 (counting 2 nil_node))) 0 ≡ some (answers 5 5)
unfolding evaluate_block evaluate step execute_fetched fetch arguments execute set_var take_answer
    finalize generate gen gen_label create_label create_var reuse branch patch convert convert_group
    convert_statements convert_boolean_op load convert_variable convert_assignment convert_binary_op
    convert_loop convert_if convert_break branch_on put test from_bool
counts = refl

counting-IsScoped : IsScoped 1 (counting 2 nil_node)
unfolding IsScoped AreScoped
counting-IsScoped =
    let z : 0 < 1 = omega arith in
    ((z, tt), (((z, tt), ((z, (z, tt)), ((tt, tt, tt), tt))), ((z, tt), tt)))

generate-Evaluates_example :
    (k : ℕ) × (evaluate_block 0 send k (finalize (generate 1 (counting 2 nil_node))) 0
      ≡ some (answers 5 5))
unfolding mean mean_group mean_statements mean_assignment mean_boolean_op mean_binary_op mean_if
    mean_loop mean_break after_round and_then passes answered constant put test from_bool outcome
generate-Evaluates_example =
    generate-Evaluates 0 send 1 (counting 2 nil_node) 3 0
      (value 5 (put (put (put (λ _. value_nil) 0 1) 0 3) 0 5) 5) (answers 5 5) counting-IsScoped
      refl refl
