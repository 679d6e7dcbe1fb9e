-- ===== src/Stream/Line.antt =====
-- `gets` reads one line, whatever the size of its buffer.
use mirb.Prelude.Lists.{length, take, drop}
use mirb.Prelude.{
  ℕ, zero, suc, ◌+◌, ◌<◌, ◌≡◌, refl, ap, ◌∙◌, inl, inr, false, List, [], ◌∷◌, ◌++◌, ◌==◌,
  if◌then◌else◌, arith, Bool-cases,
}
use mirb.Stream.{Scan, nothing, newline, carriage_return, scan}

-- The newline that may follow a carriage return.
unfoldable pub line_feed : List ℕ → List ℕ
line_feed [] = []
line_feed (c ∷ cs) = if c == 10 then c ∷ [] else []

-- The first line of some bytes, with what ends it: a newline, a carriage return, or both.
unfoldable pub line : List ℕ → List ℕ
line [] = []
line (c ∷ cs) =
    let rest = line cs in if c == 13 then c ∷ line_feed cs else if c == 10 then c ∷ [] else c ∷ rest

-- What the loop over a buffer of `n` bytes says of the bytes that are left, from index `i` on.
abbrev pub Describes : ℕ → ℕ → List ℕ → Scan → Type 0
Describes i n rest nothing = line rest ≡ take n rest ++ line (drop n rest)
Describes i n rest (newline k) =
    (d : ℕ) × (k ≡ i + d) × (d < length (take n rest)) × (line rest ≡ take (suc d) rest)
Describes i n rest (carriage_return k) =
    (d : ℕ) × (k ≡ i + d)
    × (d < length (take n rest))
    × (line rest ≡ take (suc d) rest ++ line_feed (drop (suc d) rest))

module _ (i n c : ℕ) (cs : List ℕ) (cr : (c == 13) ≡ false) (lf : (c == 10) ≡ false) where
  longer : line (c ∷ cs) ≡ c ∷ line cs
  unfolding line
  longer = rw (cr, lf) refl

  step : (r : Scan) → Describes (suc i) n cs r → Describes i (suc n) (c ∷ cs) r
  unfolding take drop
  step nothing e = longer ∙ ap (λ t. c ∷ t) e
  step (newline k) (d, at, below, e) = (suc d, omega arith, omega arith, longer ∙ ap (λ t. c ∷ t) e)
  step (carriage_return k) (d, at, below, e) =
      (suc d, omega arith, omega arith, longer ∙ ap (λ t. c ∷ t) e)

pub scan-Describes : (n : ℕ) (rest : List ℕ) (i : ℕ) → Describes i n rest (scan i (take n rest))
unfolding scan take drop
scan-Describes zero rest i = refl
scan-Describes (suc n) [] i = unfold line in refl
scan-Describes (suc n) (c ∷ cs) i = elim (Bool-cases (c == 13)) [
  | inl t ↦ rw t (0, omega arith, omega arith, unfold line in rw t refl)
  | inr t ↦ elim (Bool-cases (c == 10)) [
    | inl u ↦ rw (t, u) (0, omega arith, omega arith, unfold line in rw (t, u) refl)
    | inr u ↦ rw (t, u) (step i n c cs t u (scan (suc i) (take n cs)) (scan-Describes n cs (suc i)))
  ]
]
