-- ===== src/Stream/Gets.antt =====
-- The rounds of `gets`.
use mathlib.Core.List.{append_assoc, append-nil}
use mirb.CharArray.Bytes.{copy}
use mirb.Prelude.Lists.{
  length, get_or, take, drop, length-append, length-take, length-drop, drop-drop, take-take,
  drop-short, length-take_le, length-take_all, take-length_take, drop-get_or, take-get_or,
}
use mirb.Prelude.{
  ℕ, zero, suc, ◌+◌, ◌≤◌, ◌<◌, ◌≡◌, refl, sym, ap, ◌∙◌, inl, inr, false, List, [], ◌∷◌, ◌++◌, ◌==◌,
  leb, ltb, if◌then◌else◌, arith, Bool-cases,
}
use mirb.Stream.Line.{line, line_feed, Describes, scan-Describes}
use mirb.Stream.{
  Stream, left, read, Scan, nothing, newline, carriage_return, scan, finish, finish_across,
  at_break, gets_round, gets_loop, gets,
}

abbrev put : List ℕ → Stream → List ℕ → ℕ → List ℕ × Stream
put result s xs p = (result ++ xs, record s { pos = p })

-- `xs` is read behind `result`, and the position is behind `xs`.
abbrev pub outcome : List ℕ → Stream → List ℕ → List ℕ × Stream
outcome result s xs = put result s xs (s.pos + length xs)

put_ap :
    (result : List ℕ) (s : Stream) {xs ys : List ℕ} {a b : ℕ}
    → xs ≡ ys
    → a ≡ b
    → put result s xs a ≡ put result s ys b
put_ap result s e f = λ i. put result s (e i) (f i)

abbrev raw : List ℕ → Stream → ℕ → List ℕ × Stream
raw xs s p = (xs, record s { pos = p })

raw_ap : (s : Stream) {xs ys : List ℕ} {a b : ℕ} → xs ≡ ys → a ≡ b → raw xs s a ≡ raw ys s b
raw_ap s e f = λ i. raw (e i) s (f i)

copy-take : (bytes : List ℕ) (i : ℕ) → i ≤ length bytes → copy bytes 0 i ≡ take i bytes
unfolding copy drop
copy-take bytes i h = elim (Bool-cases (leb (length bytes) 0)) [
  | inl t ↦ let none_at_all : i ≡ 0 = ground arith in rw (t, none_at_all) (unfold take in refl)
  | inr t ↦
      let fits : ltb (length bytes) i ≡ false = ground arith in
      let fits_there : ltb (length bytes) (0 + i) ≡ false = ground arith in
      rw (t, fits, fits_there) refl
]

across :
    (result buffer : List ℕ) (t : Stream) (more : List ℕ)
    → left t ≡ more
    → finish_across result buffer t
      ≡ put result t (buffer ++ line_feed more) (t.pos + length (line_feed more))
unfolding finish_across read line_feed take get_or
across result buffer t [] e = rw e (put_ap result t (sym (append-nil buffer)) (omega arith))
across result buffer t (c ∷ cs) e = elim (Bool-cases (c == 10)) [
  | inl u ↦ rw (e, u) refl
  | inr u ↦ rw (e, u) (put_ap result t (sym (append-nil buffer)) (omega arith))
]

module _ (size : ℕ) (result : List ℕ) (s : Stream) where
  abbrev buffer : List ℕ
  buffer = take size (left s)

  finish-outcome :
      (i : ℕ)
      → i ≤ length buffer
      → line (left s) ≡ take i (left s)
      → finish result (read s size).0 (read s size).1 s.pos i ≡ outcome result s (line (left s))
  unfolding finish read
  finish-outcome i h e =
      let inside : i ≤ size = omega (arith, length-take_le size (left s)) in
      let long = length-take i (left s) (omega (arith, length-take_all size (left s))) in
      put_ap result s (copy-take buffer i h ∙ take-take i size (left s) inside ∙ sym e)
        (ap (λ m. s.pos + m) (sym (ap length e ∙ long)))

  left-read : left (read s size).1 ≡ drop (length buffer) (left s)
  unfolding read
  left-read = sym (drop-drop s.pos (length buffer) s.contents)

  module _ (d : ℕ) (below : d < length buffer)
      (e : line (left s) ≡ take (suc d) (left s) ++ line_feed (drop (suc d) (left s))) where
    -- The byte behind the carriage return is in the buffer.
    inside-outcome :
        suc d < length buffer
        → finish result
            (read s size).0
            (read s size).1
            s.pos
            (if get_or buffer (suc d) 0 == 10 then suc d + 1 else suc d)
          ≡ outcome result s (line (left s))
    inside-outcome h =
        let head = drop-get_or size (suc d) (left s) 0 h in
        elim (Bool-cases (get_or buffer (suc d) 0 == 10)) [
          | inl u ↦
              let feed : line_feed (drop (suc d) (left s)) ≡ get_or buffer (suc d) 0 ∷ [] =
                ap line_feed head ∙ (unfold line_feed in rw u refl) in
              let whole =
                e
                ∙ ap (λ m. take (suc d) (left s) ++ m) feed
                ∙ take-get_or size (suc d) (left s) 0 h in
              let one_more : suc (suc d) ≡ suc d + 1 = omega arith in
              rw u (
                finish-outcome (suc d + 1) (omega arith)
                  (whole ∙ ap (λ m. take m (left s)) one_more))
          | inr u ↦
              let feed : line_feed (drop (suc d) (left s)) ≡ [] =
                ap line_feed head ∙ (unfold line_feed in rw u refl) in
              let whole =
                e
                ∙ ap (λ m. take (suc d) (left s) ++ m) feed
                ∙ append-nil (take (suc d) (left s)) in
              rw u (finish-outcome (suc d) (omega arith) whole)
        ]

    -- It is not: the buffer ends with the carriage return.
    across-outcome :
        suc d ≡ length buffer
        → finish_across result (read s size).0 (read s size).1 ≡ outcome result s (line (left s))
    unfolding read
    across-outcome h =
        let more = drop (length buffer) (left s) in
        let all = take-length_take size (left s) in
        let whole : line (left s) ≡ buffer ++ line_feed more =
          e
          ∙ ap (λ m. take m (left s) ++ line_feed (drop m (left s))) h
          ∙ ap (λ m. m ++ line_feed more) all in
        across result buffer (read s size).1 more left-read
        ∙ put_ap result s (sym whole)
            (omega (arith, ap length whole, length-append buffer (line_feed more)))

    at_break-outcome :
        at_break result (read s size).0 (read s size).1 s.pos (suc d)
        ≡ outcome result s (line (left s))
    unfolding at_break read
    at_break-outcome = elim (Bool-cases (ltb (suc d) (length buffer))) [
      | inl t ↦ rw t (inside-outcome (ground arith))
      | inr t ↦ rw t (across-outcome (ground arith))
    ]

  round :
      (rest : List ℕ × Stream) (r : Scan)
      → Describes 0 size (left s) r
      → (length buffer ≡ size
          → rest ≡ outcome (result ++ buffer) (read s size).1 (line (left (read s size).1)))
      → gets_round size result s rest r ≡ outcome result s (line (left s))
  unfolding gets_round read
  round rest (carriage_return k) (d, at, below, e) next =
      let here : k + 1 ≡ suc d = omega arith in rw here (at_break-outcome d below e)
  round rest (newline k) (d, at, below, e) next =
      let here : k + 1 ≡ suc d = omega arith in rw here (finish-outcome (suc d) below e)
  round rest nothing e next = elim (Bool-cases (ltb (length buffer) size)) [
    | inl t ↦
        let end = drop-short size (left s) (ground arith) in
        let whole : line (left s) ≡ buffer =
          e ∙ ap (λ m. buffer ++ line m) end ∙ unfold line in append-nil buffer in
        rw t (put_ap result s (sym whole) (ap (λ m. s.pos + length m) (sym whole)))
    | inr t ↦
        let full : length buffer ≡ size = ground (arith, length-take_le size (left s)) in
        let more = line (left (read s size).1) in
        let whole : line (left s) ≡ buffer ++ more =
          e ∙ ap (λ m. buffer ++ line m) (ap (λ m. drop m (left s)) (sym full) ∙ sym left-read) in
        rw t (
          next full
          ∙ raw_ap s (append_assoc result buffer more ∙ ap (λ m. result ++ m) (sym whole))
              (omega (arith, ap length whole, length-append buffer more)))
  ]

module _ (size : ℕ) (some_room : 0 < size) where
  gets_loop-outcome :
      (fuel : ℕ) (result : List ℕ) (s : Stream)
      → length (left s) < fuel
      → gets_loop size fuel result s ≡ outcome result s (line (left s))
  unfolding gets_loop read
  gets_loop-outcome zero result s h = absurd (omega arith)
  gets_loop-outcome (suc fuel) result s h =
      let t = (read s size).1 in
      let rest = gets_loop size fuel (result ++ take size (left s)) t in
      round size result s rest (scan 0 (take size (left s))) (scan-Describes size (left s) 0)
        (λ full. gets_loop-outcome fuel (result ++ take size (left s)) t (
          omega (
            arith,
            ap length (left-read size result s),
            length-drop (length (take size (left s))) (left s),
            length-take_all size (left s),
          )))

-- `gets` ends, answers the first line of what is left with the bytes that end it, and leaves the
-- stream behind it, also where the line or a pair of a carriage return and a newline goes across
-- the end of a buffer.
pub gets-line : (s : Stream) → gets s ≡ outcome [] s (line (left s))
unfolding gets
gets-line s = gets_loop-outcome 512 (omega arith) (length (left s) + 1) [] s (omega arith)
