-- ===== src/Lexeme.antt =====
-- lexer/lexeme.hpp and lexer/lexeme.cpp: the kinds of lexemes and the arithmetic on them.
pub mod Kind
pub mod Names
pub mod Casts
use Prim.Native.String.{String, ◌++◌}
use mirb.Lexeme.Kind
use mirb.Lexeme.Names.{names}
use mirb.Prelude.Lists.{get_or}
use mirb.Prelude.{ℕ, ◌+◌, ◌-◌, Bool, ◌&&◌, ◌||◌, leb, ltb, if◌then◌else◌}

-- The casts between an operator, its assignment and its unary form.
unfoldable pub operator_to_assign : ℕ → ℕ
operator_to_assign op = op + (Kind.assign_power - Kind.power)

unfoldable pub assign_to_operator : ℕ → ℕ
assign_to_operator op = op - (Kind.assign_power - Kind.power)

unfoldable pub operator_to_unary : ℕ → ℕ
operator_to_unary op = op + (Kind.unary_add - Kind.add)

-- `names[type]`
unfoldable pub name : ℕ → String
unfolding names get_or
name type = get_or names type ""

-- `describe_type`
unfoldable pub describe_type : ℕ → String
describe_type type =
    if leb Kind.none type && ltb type Kind.kw_if
    then "'" ++ name type ++ "'"
    else if leb Kind.kw_if type && leb type Kind.kw_end
    then "'" ++ name type ++ "' (keyword)"
    else name type
