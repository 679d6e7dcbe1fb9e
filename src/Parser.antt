-- ===== src/Parser.antt =====
-- parser/parser.cpp, the binary operators: `parse_precedence_operator` climbs by precedence.
pub mod Climb
pub mod Run
use mirb.Lexeme.Kind
use mirb.Prelude.Lists.{get_or}
use mirb.Prelude.{
  ℕ, zero, suc, ◌+◌, ◌-◌, ◌*◌, Bool, true, false, not, List, [], ◌∷◌, ◌&&◌, ltb, leb, ◌==◌,
  if◌then◌else◌,
}

unfoldable pub operator_precedences : List ℕ
operator_precedences =
    8 ∷ 8 ∷ 8 ∷ 7 ∷ 7 ∷ 6 ∷ 6 ∷ 5 ∷ 4 ∷ 4 ∷ 1 ∷ 0 ∷ 3 ∷ 3 ∷ 3 ∷ 3 ∷ 2 ∷ 2 ∷ 2 ∷ 2 ∷ 2 ∷ 2 ∷ []

unfoldable pub is_precedence_operator : ℕ → Bool
is_precedence_operator op = leb Kind.mul op && leb op Kind.not_matches

unfoldable pub precedence_of : ℕ → ℕ
unfolding get_or operator_precedences
precedence_of op = get_or operator_precedences (op - Kind.mul) 0

-- A lexeme: its kind, and what else the parser reads of it.
pub record Token : Type 0 where
  pub kind : ℕ
  pub payload : ℕ

-- The lexer's current lexeme and what follows; at the end of the input `step` stays there.
unfoldable pub lexeme : List Token → ℕ
lexeme [] = Kind.end
lexeme (t ∷ ts) = t.kind

unfoldable pub step : List Token → List Token
step [] = []
step (t ∷ ts) = ts

unfoldable pub skip_lines : List Token → List Token
skip_lines [] = []
skip_lines (t ∷ ts) = if t.kind == Kind.line then skip_lines ts else t ∷ ts

-- What `parse_unary` returns, as far as this part of the parser tells it apart: a node, a
-- `MultipleExpressionsNode`, or the null pointer.
pub data Operand (A : Type 0) : Type 0 where
  node : A → Operand A
  multiple_expressions : A → Operand A
  null : Operand A

pub data Node (A : Type 0) : Type 0 where
  operand : Operand A → Node A
  binary_op : ℕ → Node A → Node A → Node A

module _ {A : Type 0} where
  unfoldable pub single : Node A → Bool
  single (operand (node a)) = true
  single (operand (multiple_expressions a)) = false
  single (operand null) = true
  single (binary_op op l r) = true

  -- `typecheck(result)`
  unfoldable pub typecheck : Node A → Node A
  unfolding single
  typecheck n = if single n then n else operand null

  -- `typecheck(result, func)`: the function runs in both cases, its result is used in one.
  unfoldable pub typecheck_into : Node A → Node A → Node A
  typecheck_into result made = if single result then made else result

-- Fuel for the two loops: two rounds for each lexeme.
abbrev pub enough : List Token → ℕ
enough [] = 1
enough (t ∷ ts) = 2 + enough ts

module _ {A : Type 0} (parse_unary : List Token → Operand A × List Token) where
  -- The two loops, on fuel: the outer one of `parse_precedence_operator(left, min_precedence)`, and
  -- the inner one, which extends the right operand.

  unfoldable mutual
    pub climb : ℕ → Node A → ℕ → List Token → Node A × List Token
    climb zero left min s = (left, s)
    climb (suc fuel) left min s =
        let op = lexeme s in
        let precedence = precedence_of op in
        let start = parse_unary (skip_lines (step s)) in
        let body = extend fuel (typecheck (operand start.0)) precedence start.1 in
        let made = typecheck_into left (binary_op op left body.0) in
        let rest = climb fuel made min body.1 in
        if is_precedence_operator op && leb min precedence then rest else (left, s)

    pub extend : ℕ → Node A → ℕ → List Token → Node A × List Token
    extend zero right precedence s = (right, s)
    extend (suc fuel) right precedence s =
        let next_op = lexeme s in
        let next_precedence = precedence_of next_op in
        let inner = climb fuel right next_precedence s in
        let rest = extend fuel (typecheck inner.0) precedence inner.1 in
        if is_precedence_operator next_op && ltb precedence next_precedence
        then rest
        else (right, s)

  -- `parse_precedence_operator()`
  unfoldable pub parse_precedence_operator : List Token → Node A × List Token
  parse_precedence_operator s =
      let start = parse_unary s in climb (enough start.1) (operand start.0) 0 start.1
