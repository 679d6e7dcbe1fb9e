-- ===== src/Tests/Lexemes.antt =====
-- Names of operators.
use Prim.Native.String.{◌++◌}
use mirb.Lexeme.Casts.{name-operator_to_assign}
use mirb.Lexeme.Kind
use mirb.Lexeme.{operator_to_assign, assign_to_operator, name}
use mirb.Prelude.{◌≡◌, arith}

name-operator_to_assign_example :
    (name (operator_to_assign Kind.mul) ≡ name Kind.mul ++ "=")
    × (assign_to_operator (operator_to_assign Kind.mul) ≡ Kind.mul)
name-operator_to_assign_example = name-operator_to_assign Kind.mul (omega arith) (omega arith)
