-- ===== src/Tests/Operators.antt =====
-- Parsing binary operators where each operand is one lexeme.
use mirb.Lexeme.Kind
use mirb.Parser.Climb.{Chain, IsGrouped, first, rest}
use mirb.Parser.Run.{parse_precedence_operator-IsGrouped}
use mirb.Parser.{
  is_precedence_operator, precedence_of, Token, lexeme, step, skip_lines, Operand, node, null, Node,
  operand, binary_op, single, typecheck, typecheck_into, climb, extend, parse_precedence_operator,
}
use mirb.Prelude.Lists.{length}
use mirb.Prelude.{ℕ, ◌≤◌, ◌≡◌, refl, false, List, [], ◌∷◌, arith}

unary : List Token → Operand ℕ × List Token
unary [] = (null, [])
unary (t ∷ ts) = (node t.payload, ts)

unary-le : (s : List Token) → length (unary s).1 ≤ length s
unfolding unary
unary-le [] = omega arith
unary-le (t ∷ ts) = omega arith

abbrev number : ℕ → Token
number n = record { kind = Kind.integer; payload = n }

abbrev sign : ℕ → Token
sign op = record { kind = op; payload = 0 }

-- 1 - 2 * 3 - 4 followed by a newline
abbrev line_of_input : List Token
line_of_input =
    number 1
    ∷ sign Kind.sub
    ∷ number 2
    ∷ sign Kind.mul
    ∷ number 3
    ∷ sign Kind.sub
    ∷ number 4
    ∷ sign Kind.line
    ∷ []

abbrev leaf : ℕ → Node ℕ
leaf n = operand (node n)

runs : parse_precedence_operator unary line_of_input ≡ (
  binary_op Kind.sub (binary_op Kind.sub (leaf 1) (binary_op Kind.mul (leaf 2) (leaf 3))) (leaf 4),
  sign Kind.line ∷ [],
)
unfolding parse_precedence_operator climb extend unary is_precedence_operator precedence_of lexeme
    step skip_lines single typecheck typecheck_into
runs = refl

parse_precedence_operator-IsGrouped_example :
    (ps : List (ℕ × Node ℕ)) × Chain unary 0
      (unary line_of_input).1
      ps
      (parse_precedence_operator unary line_of_input).1
    × (is_precedence_operator (lexeme (parse_precedence_operator unary line_of_input).1) ≡ false)
    × IsGrouped (parse_precedence_operator unary line_of_input).0
    × (first (parse_precedence_operator unary line_of_input).0 ≡ operand (unary line_of_input).0)
    × (rest (parse_precedence_operator unary line_of_input).0 ≡ ps)
parse_precedence_operator-IsGrouped_example =
    parse_precedence_operator-IsGrouped unary unary-le line_of_input (unfold unary single in refl)
