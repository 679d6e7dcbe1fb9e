-- ===== src/Lexeme/Names.antt =====
-- lexer/lexeme.cpp: the names of the kinds, in the order of the enum.
use Prim.Native.String.{String}
use mirb.Prelude.{List, [], ◌∷◌}

unfoldable pub names : List String
names =
    "string" ∷ "array" ∷ "regular expression" ∷ "command" ∷ "heredoc" ∷ "integer" ∷ "octal"
    ∷ "binary" ∷ "real" ∷ "hex" ∷ "instance variable" ∷ "class variable" ∷ "global variable"
    ∷ "symbol" ∷ "identifier" ∷ "extended identifier" ∷ "None" ∷ "=>" ∷ "`" ∷ "->" ∷ "**" ∷ "*"
    ∷ "/" ∷ "%" ∷ "+" ∷ "-" ∷ "<<" ∷ ">>" ∷ "&" ∷ "^" ∷ "|" ∷ "&&" ∷ "||" ∷ ">" ∷ ">=" ∷ "<" ∷ "<="
    ∷ "<=>" ∷ "==" ∷ "===" ∷ "!=" ∷ "=~" ∷ "!~" ∷ "**=" ∷ "*=" ∷ "/=" ∷ "%=" ∷ "+=" ∷ "-=" ∷ "<<="
    ∷ ">>=" ∷ "&=" ∷ "^=" ∷ "|=" ∷ "&&=" ∷ "||=" ∷ "~" ∷ "!" ∷ "+@" ∷ "-@" ∷ "=" ∷ "?" ∷ "." ∷ ".."
    ∷ "..." ∷ "," ∷ ":" ∷ "::" ∷ ";" ∷ "(" ∷ ")" ∷ "[" ∷ "]" ∷ "{" ∷ "}" ∷ "newline" ∷ "end of file"
    ∷ "if" ∷ "unless" ∷ "else" ∷ "elsif" ∷ "then" ∷ "while" ∷ "until" ∷ "for" ∷ "in" ∷ "when"
    ∷ "case" ∷ "begin" ∷ "ensure" ∷ "rescue" ∷ "class" ∷ "module" ∷ "def" ∷ "alias" ∷ "undef"
    ∷ "defined?" ∷ "self" ∷ "do" ∷ "yield" ∷ "return" ∷ "break" ∷ "next" ∷ "redo" ∷ "super" ∷ "true"
    ∷ "false" ∷ "nil" ∷ "not" ∷ "and" ∷ "or" ∷ "__FILE__" ∷ "__LINE__" ∷ "BEGIN" ∷ "END" ∷ "end"
    ∷ []
