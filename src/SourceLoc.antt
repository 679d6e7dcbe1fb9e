-- ===== src/SourceLoc.antt =====
-- generic/source-loc.hpp: a range of the source text and the line that it starts in. The text is a
-- list of bytes; behind its end stands the zero byte that ends the input.
pub mod Columns
use mirb.Prelude.Lists.{length, take, drop}
use mirb.Prelude.{
  ℕ, zero, suc, ◌+◌, ◌-◌, Bool, List, [], ◌∷◌, ◌++◌, map, ◌||◌, ◌==◌, leb, if◌then◌else◌,
}

pub record SourceLoc : Type 0 where
  pub input : List ℕ
  pub line_start : ℕ
  pub start : ℕ
  pub stop : ℕ

abbrev pub is_break : ℕ → Bool
is_break c = c == 0 || (c == 10 || c == 13)

-- The bytes up to a break, at most so many.
unfoldable pub until_break : ℕ → List ℕ → List ℕ
until_break zero cs = []
until_break (suc n) [] = []
until_break (suc n) (c ∷ cs) = let rest = until_break n cs in if is_break c then [] else c ∷ rest

-- `BasicRange::length`
unfoldable pub range_length : SourceLoc → ℕ
range_length loc = loc.stop - loc.start

unfoldable pub limited_string : SourceLoc → List ℕ
limited_string loc = until_break (range_length loc) (drop loc.start loc.input)

unfoldable pub get_line : SourceLoc → List ℕ
get_line loc = until_break (length loc.input) (drop loc.line_start loc.input)

-- A tab stays one, so that the mark below stands in its column.
abbrev pub blank : ℕ → ℕ
blank c = if c == 9 then 9 else 32

unfoldable pub margin : SourceLoc → List ℕ
margin loc = map blank (take (loc.start - loc.line_start) (drop loc.line_start loc.input))

-- The loop of `indicator` over so many bytes of the range, which stops at a break.
unfoldable pub tildes : ℕ → List ℕ → List ℕ
tildes zero cs = []
tildes (suc n) [] = []
tildes (suc n) (c ∷ cs) =
    let rest = tildes n cs in
    if c == 0 then [] else if c == 13 then [] else if c == 10 then [] else 126 ∷ rest

unfoldable pub indicator : SourceLoc → List ℕ
indicator loc =
    if leb (range_length loc) 1
    then margin loc ++ 94 ∷ []
    else margin loc ++ tildes (range_length loc) (drop loc.start loc.input)
