-- ===== src/Tests/Streams.antt =====
-- Lines of a stream and places in a source text.
use mirb.Prelude.Lists.{drop, take}
use mirb.Prelude.{◌≡◌, refl, [], ◌∷◌}
use mirb.SourceLoc.{SourceLoc, indicator, margin, tildes, range_length}
use mirb.Stream.Gets.{outcome, gets-line}
use mirb.Stream.Line.{line, line_feed}
use mirb.Stream.{Stream, left, gets}

-- "a", a carriage return, a newline and "b"
abbrev two_lines : Stream
two_lines = record { contents = 97 ∷ 13 ∷ 10 ∷ 98 ∷ []; pos = 0 }

gets-line_example : gets two_lines ≡ outcome [] two_lines (line (left two_lines))
gets-line_example = gets-line two_lines

line-two_lines : line (left two_lines) ≡ 97 ∷ 13 ∷ 10 ∷ []
unfolding line line_feed drop
line-two_lines = refl

-- A tab, "ab", a newline; the range is "ab".
abbrev tabbed : SourceLoc
tabbed = record { input = 9 ∷ 97 ∷ 98 ∷ 10 ∷ []; line_start = 0; start = 1; stop = 3 }

-- A tab and two tildes.
indicator-tabbed : indicator tabbed ≡ 9 ∷ 126 ∷ 126 ∷ []
unfolding indicator margin tildes range_length take drop
indicator-tabbed = refl
