-- ===== src/CharArray/Bytes.antt =====
-- char-array.cpp and char-array.hpp: what the operations that write no buffer make of bytes.
use mirb.Prelude.Lists.{length, get_or, take, drop}
use mirb.Prelude.{
  ℕ, zero, suc, ◌+◌, ◌-◌, Bool, true, false, List, [], ◌∷◌, ◌++◌, Option, none, some, ◌&&◌, ◌||◌,
  ◌==◌, ltb, leb, if◌then◌else◌,
}

-- `memcmp` of two sequences of one length.
unfoldable pub same_bytes : List ℕ → List ℕ → Bool
same_bytes [] [] = true
same_bytes [] (y ∷ ys) = false
same_bytes (x ∷ xs) [] = false
same_bytes (x ∷ xs) (y ∷ ys) = x == y && same_bytes xs ys

unfoldable pub copy : List ℕ → ℕ → ℕ → List ℕ
copy bytes offset size =
    if leb (length bytes) offset
    then []
    else if ltb (length bytes) size || ltb (length bytes) (offset + size)
    then take (length bytes - offset) (drop offset bytes)
    else take size (drop offset bytes)

unfoldable pub equal : List ℕ → ℕ → ℕ → List ℕ → ℕ → Bool
equal bytes offset other_offset other size =
    if ltb (length bytes) (offset + size) || ltb (length other) (other_offset + size)
    then false
    else same_bytes (take size (drop offset bytes)) (take size (drop other_offset other))

-- The loop of `index_of`, with the rounds that are left.
unfoldable pub index_loop : ℕ → ℕ → List ℕ → List ℕ → Option ℕ
index_loop zero i bytes other = none
index_loop (suc rounds) i bytes other =
    let rest = index_loop rounds (suc i) bytes other in
    if equal bytes i 0 other (length other) then some i else rest

unfoldable pub index_of : List ℕ → List ℕ → Option ℕ
index_of bytes other =
    if ltb (length bytes) (length other)
    then none
    else index_loop (length bytes - length other + 1) 0 bytes other

-- `chomp` without and with a separator.
unfoldable pub drop_last : ℕ → List ℕ → List ℕ
drop_last c bytes =
    if ltb 0 (length bytes) && get_or bytes (length bytes - 1) 0 == c
    then take (length bytes - 1) bytes
    else bytes

unfoldable pub chomp : List ℕ → List ℕ
chomp bytes = drop_last 13 (drop_last 10 bytes)

unfoldable pub chomp_separator : List ℕ → List ℕ → List ℕ
chomp_separator bytes separator =
    if ltb (length bytes) (length separator)
    then bytes
    else if equal bytes (length bytes - length separator) 0 separator (length separator)
    then take (length bytes - length separator) bytes
    else bytes

unfoldable pub trim : List ℕ → ℕ → List ℕ → List ℕ
trim bytes cut append = if leb (length bytes) cut then bytes else copy bytes 0 cut ++ append

-- `operator *`
unfoldable pub times : List ℕ → ℕ → List ℕ
times bytes zero = []
times bytes (suc n) = times bytes n ++ bytes

-- The loop of `ljust`: `remaining` is taken of the original each time. On fuel.
unfoldable pub pad : ℕ → List ℕ → ℕ → List ℕ → ℕ → List ℕ
pad zero result width padding remaining = result
pad (suc fuel) result width padding remaining =
    let rest = pad fuel (result ++ copy padding 0 remaining) width padding remaining in
    if ltb (length result) width then rest else result

unfoldable pub ljust : List ℕ → ℕ → List ℕ → List ℕ
ljust bytes width padding = pad width bytes width padding (width - length bytes)

unfoldable pub rjust : List ℕ → ℕ → List ℕ → List ℕ
rjust bytes width padding =
    if leb width (length bytes)
    then bytes
    else pad width [] (width - length bytes) padding (width - length bytes) ++ bytes
