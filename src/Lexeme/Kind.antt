-- ===== src/Lexeme/Kind.antt =====
-- lexer/lexeme.hpp: `Lexeme::Type`. A kind is its number in the enum, since the code computes with
-- the numbers; the constants that other modules name stand below the table.
use Prim.Native.String.{String}
use mirb.Prelude.{ℕ, List, [], ◌∷◌}

-- The enumerators in order.
unfoldable pub enumerators : List String
enumerators =
    "STRING" ∷ "ARRAY" ∷ "REGEXP" ∷ "COMMAND" ∷ "HEREDOC" ∷ "INTEGER" ∷ "OCTAL" ∷ "BINARY" ∷ "REAL"
    ∷ "HEX" ∷ "IVAR" ∷ "CVAR" ∷ "GLOBAL" ∷ "SYMBOL" ∷ "IDENT" ∷ "EXT_IDENT" ∷ "NONE" ∷ "ASSOC"
    ∷ "BACKTICK" ∷ "BLOCK_POINT" ∷ "POWER" ∷ "MUL" ∷ "DIV" ∷ "MOD" ∷ "ADD" ∷ "SUB" ∷ "LEFT_SHIFT"
    ∷ "RIGHT_SHIFT" ∷ "AMPERSAND" ∷ "BITWISE_XOR" ∷ "BITWISE_OR" ∷ "LOGICAL_AND" ∷ "LOGICAL_OR"
    ∷ "GREATER" ∷ "GREATER_OR_EQUAL" ∷ "LESS" ∷ "LESS_OR_EQUAL" ∷ "COMPARE" ∷ "EQUALITY"
    ∷ "CASE_EQUALITY" ∷ "NO_EQUALITY" ∷ "MATCHES" ∷ "NOT_MATCHES" ∷ "ASSIGN_POWER" ∷ "ASSIGN_MUL"
    ∷ "ASSIGN_DIV" ∷ "ASSIGN_MOD" ∷ "ASSIGN_ADD" ∷ "ASSIGN_SUB" ∷ "ASSIGN_LEFT_SHIFT"
    ∷ "ASSIGN_RIGHT_SHIFT" ∷ "ASSIGN_BITWISE_AND" ∷ "ASSIGN_BITWISE_XOR" ∷ "ASSIGN_BITWISE_OR"
    ∷ "ASSIGN_LOGICAL_AND" ∷ "ASSIGN_LOGICAL_OR" ∷ "BITWISE_NOT" ∷ "LOGICAL_NOT" ∷ "UNARY_ADD"
    ∷ "UNARY_SUB" ∷ "ASSIGN" ∷ "QUESTION" ∷ "DOT" ∷ "RANGE_INCL" ∷ "RANGE_EXCL" ∷ "COMMA" ∷ "COLON"
    ∷ "SCOPE" ∷ "SEMICOLON" ∷ "PARENT_OPEN" ∷ "PARENT_CLOSE" ∷ "SQUARE_OPEN" ∷ "SQUARE_CLOSE"
    ∷ "CURLY_OPEN" ∷ "CURLY_CLOSE" ∷ "LINE" ∷ "END" ∷ "KW_IF" ∷ "KW_UNLESS" ∷ "KW_ELSE" ∷ "KW_ELSIF"
    ∷ "KW_THEN" ∷ "KW_WHILE" ∷ "KW_UNTIL" ∷ "KW_FOR" ∷ "KW_IN" ∷ "KW_WHEN" ∷ "KW_CASE" ∷ "KW_BEGIN"
    ∷ "KW_ENSURE" ∷ "KW_RESCUE" ∷ "KW_CLASS" ∷ "KW_MODULE" ∷ "KW_DEF" ∷ "KW_ALIAS" ∷ "KW_UNDEF"
    ∷ "KW_DEFINED" ∷ "KW_SELF" ∷ "KW_DO" ∷ "KW_YIELD" ∷ "KW_RETURN" ∷ "KW_BREAK" ∷ "KW_NEXT"
    ∷ "KW_REDO" ∷ "KW_SUPER" ∷ "KW_TRUE" ∷ "KW_FALSE" ∷ "KW_NIL" ∷ "KW_NOT" ∷ "KW_AND" ∷ "KW_OR"
    ∷ "KW_SPECIAL_FILE" ∷ "KW_SPECIAL_LINE" ∷ "KW_SPECIAL_BEGIN" ∷ "KW_SPECIAL_END" ∷ "KW_END"
    ∷ "TYPES" ∷ []

abbrev pub none : ℕ
none = 16

abbrev pub power : ℕ
power = 20

abbrev pub mul : ℕ
mul = 21

abbrev pub div : ℕ
div = 22

abbrev pub modulo : ℕ
modulo = 23

abbrev pub add : ℕ
add = 24

abbrev pub sub : ℕ
sub = 25

abbrev pub left_shift : ℕ
left_shift = 26

abbrev pub right_shift : ℕ
right_shift = 27

abbrev pub ampersand : ℕ
ampersand = 28

abbrev pub bitwise_xor : ℕ
bitwise_xor = 29

abbrev pub bitwise_or : ℕ
bitwise_or = 30

abbrev pub logical_and : ℕ
logical_and = 31

abbrev pub logical_or : ℕ
logical_or = 32

abbrev pub greater : ℕ
greater = 33

abbrev pub greater_or_equal : ℕ
greater_or_equal = 34

abbrev pub less : ℕ
less = 35

abbrev pub less_or_equal : ℕ
less_or_equal = 36

abbrev pub compare : ℕ
compare = 37

abbrev pub equality : ℕ
equality = 38

abbrev pub case_equality : ℕ
case_equality = 39

abbrev pub no_equality : ℕ
no_equality = 40

abbrev pub matches : ℕ
matches = 41

abbrev pub not_matches : ℕ
not_matches = 42

abbrev pub assign_power : ℕ
assign_power = 43

abbrev pub unary_add : ℕ
unary_add = 58

abbrev pub integer : ℕ
integer = 5

abbrev pub octal : ℕ
octal = 6

abbrev pub binary : ℕ
binary = 7

abbrev pub real : ℕ
real = 8

abbrev pub hex : ℕ
hex = 9

abbrev pub range_incl : ℕ
range_incl = 63

abbrev pub range_excl : ℕ
range_excl = 64

abbrev pub dot : ℕ
dot = 62

abbrev pub line : ℕ
line = 75

abbrev pub end : ℕ
end = 76

abbrev pub kw_if : ℕ
kw_if = 77

abbrev pub kw_end : ℕ
kw_end = 115

abbrev pub types : ℕ
types = 116
