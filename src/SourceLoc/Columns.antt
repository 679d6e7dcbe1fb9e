-- ===== src/SourceLoc/Columns.antt =====
-- The indicator stands below the text that it points at.
use mirb.Prelude.Lists.{length, get_or}
use mirb.Prelude.{◌≢◌, ℕ, ◌+◌, ◌-◌, ◌⊎◌, ◌≤◌, ◌<◌, ◌≡◌, List, [], ◌∷◌}
use mirb.SourceLoc.{SourceLoc}

-- The byte at an index of the input, 0 behind its end.
abbrev pub byte_at : SourceLoc → ℕ → ℕ
byte_at loc i = get_or loc.input i 0

-- A byte that ends a line, or the input.
unfoldable pub EndsLine : ℕ → Type 0
EndsLine c = (c ≡ 0) ⊎ ((c ≡ 10) ⊎ (c ≡ 13))

-- The marks are one tilde for each of at most `n` bytes, none of which ends the line, and stop only
-- there or at a byte that does.
unfoldable pub MarksUpTo : ℕ → (ℕ → ℕ) → List ℕ → Type 0
MarksUpTo n byte marks =
    (length marks ≤ n)
    × ((j : ℕ) → j < length marks → get_or marks j 0 ≡ 126)
    × ((j : ℕ) → j < length marks → ¬ EndsLine (byte j))
    × ((length marks ≡ n) ⊎ EndsLine (byte (length marks)))

-- The marks below the range: a single `^` if it has at most one byte, and else tildes.
unfoldable pub IsMark : SourceLoc → List ℕ → Type 0
IsMark loc marks =
    (loc.stop ≤ loc.start + 1 × (marks ≡ 94 ∷ []))
    ⊎ (loc.start + 1 < loc.stop
        × MarksUpTo (loc.stop - loc.start) (λ j. byte_at loc (loc.start + j)) marks)

-- The byte that stands below another: a tab below a tab, and else a space.
unfoldable pub IsBlank : ℕ → ℕ → Type 0
IsBlank c below = ((c ≡ 9) × (below ≡ 9)) ⊎ ((c ≢ 9) × (below ≡ 32))
