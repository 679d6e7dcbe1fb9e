-- ===== src/Stream.antt =====
-- stream.cpp, `Stream::gets`, over a stream that is its contents and a position. `read` and `seek`
-- are those of platform/posix.cpp on a regular file that is read in full: `read` gives at most so
-- many bytes from the position and moves behind them, and `seek` goes anywhere.
pub mod Line
pub mod Gets
use mirb.CharArray.Bytes.{copy}
use mirb.Prelude.Lists.{length, get_or, take, drop}
use mirb.Prelude.{
  ℕ, zero, suc, ◌+◌, ◌-◌, Bool, true, false, List, [], ◌∷◌, ◌++◌, ◌==◌, ltb, if◌then◌else◌,
}

pub record Stream : Type 0 where
  pub contents : List ℕ
  pub pos : ℕ

-- What is left to read.
abbrev pub left : Stream → List ℕ
left s = drop s.pos s.contents

unfoldable pub read : Stream → ℕ → List ℕ × Stream
read s n = let bytes = take n (left s) in (bytes, record s { pos = s.pos + length bytes })

-- How the loop over a buffer ends: without a line break, at a newline, or at a carriage return.
pub data Scan : Type 0 where
  nothing : Scan
  newline : ℕ → Scan
  carriage_return : ℕ → Scan

unfoldable pub scan : ℕ → List ℕ → Scan
scan i [] = nothing
scan i (c ∷ cs) =
    let rest = scan (suc i) cs in
    if c == 13 then carriage_return i else if c == 10 then newline i else rest

-- The end of the line is in the buffer: seek behind it.
unfoldable pub finish : List ℕ → List ℕ → Stream → ℕ → ℕ → List ℕ × Stream
finish result buffer s p i = (result ++ copy buffer 0 i, record s { pos = p + i })

-- A carriage return was the last byte of the buffer: a newline behind it belongs to the line.
unfoldable pub finish_across : List ℕ → List ℕ → Stream → List ℕ × Stream
finish_across result buffer s =
    let (c, t) = read s 1 in
    if length c == 1
    then if get_or c 0 0 == 10
      then (result ++ (buffer ++ c), t)
      else (result ++ buffer, record t { pos = t.pos - length c })
    else (result ++ buffer, record t { pos = t.pos - length c })

unfoldable pub at_break : List ℕ → List ℕ → Stream → ℕ → ℕ → List ℕ × Stream
at_break result buffer s p i =
    if ltb i (length buffer)
    then finish result buffer s p (if get_or buffer i 0 == 10 then i + 1 else i)
    else finish_across result buffer s

-- What a round does for each way that the loop over its buffer ends; `rest` is what the next rounds
-- give.
unfoldable pub gets_round : ℕ → List ℕ → Stream → List ℕ × Stream → Scan → List ℕ × Stream
gets_round size result s rest (carriage_return i) =
    at_break result (read s size).0 (read s size).1 s.pos (i + 1)
gets_round size result s rest (newline i) =
    finish result (read s size).0 (read s size).1 s.pos (i + 1)
gets_round size result s rest nothing =
    if ltb (length (read s size).0) size then (result ++ (read s size).0, (read s size).1) else rest

-- The loop of `gets`, on fuel. A buffer has room for `size` bytes.
unfoldable pub gets_loop : ℕ → ℕ → List ℕ → Stream → List ℕ × Stream
gets_loop size zero result s = (result, s)
gets_loop size (suc fuel) result s =
    let (buffer, t) = read s size in
    let rest = gets_loop size fuel (result ++ buffer) t in
    gets_round size result s rest (scan 0 buffer)

-- Each round but the last moves the position.
unfoldable pub gets : Stream → List ℕ × Stream
gets s = gets_loop 512 (length (left s) + 1) [] s
