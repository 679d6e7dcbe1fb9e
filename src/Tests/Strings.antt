-- ===== src/Tests/Strings.antt =====
-- Byte strings that share a buffer.
use mirb.CharArray.Bytes.{same_bytes, equal, index_loop, index_of}
use mirb.CharArray.Copies.{assign-Writes}
use mirb.CharArray.Search.{IsFirst, index_of-IsFirst}
use mirb.CharArray.Sharing.{IsValid, initial, initial-IsValid, allocate-IsValid}
use mirb.CharArray.Text.{Writes, upcase-Writes, downcase-Writes}
use mirb.CharArray.{
  Store, text, allocate, assign, append, is_lower, is_upper, to_upper, to_lower, any_byte, upcase,
  downcase, object, buffer, set_object, shared_copy, localize, write_bytes, grow, new_buffer,
  copy_to,
}
use mirb.Prelude.Lists.{replicate, get_or, set, take, drop}
use mirb.Prelude.{◌≡◌, refl, [], ◌∷◌, ◌++◌, map, arith, some}

-- Object 0 holds "ab", and object 1 becomes a copy of it.
abbrev before : Store
before = allocate (initial 3) 0 (97 ∷ 98 ∷ [])

before_IsValid : IsValid before
before_IsValid =
    allocate-IsValid (initial 3) (initial-IsValid 3) 0 (unfold initial replicate in omega arith)
      (97 ∷ 98 ∷ [])

assign-Writes_example : Writes before (assign before 1 0) 1 (text before 0)
assign-Writes_example =
    assign-Writes before before_IsValid 1 0 (unfold allocate initial replicate set in omega arith)
      (unfold allocate initial replicate set in omega arith) (omega arith)

abbrev both : Store
both = assign before 1 0

upcase-Writes_example :
    ((upcase both 1).0 ≡ any_byte is_lower (text both 1))
    × Writes both (upcase both 1).1 1 (map to_upper (text both 1))
upcase-Writes_example = upcase-Writes both assign-Writes_example.valid 1 (
    unfold assign shared_copy object set_object allocate initial replicate set get_or in
    omega arith)

downcase-Writes_example :
    ((downcase both 0).0 ≡ any_byte is_upper (text both 0))
    × Writes both (downcase both 0).1 0 (map to_lower (text both 0))
downcase-Writes_example = downcase-Writes both assign-Writes_example.valid 0 (
    unfold assign shared_copy object set_object allocate initial replicate set get_or in
    omega arith)

-- "abab" for the copy, and still "ab" for its source.
append-both :
    text (append both 1 1) 1 ++ text (append both 1 1) 0 ≡ 97 ∷ 98 ∷ 97 ∷ 98 ∷ 97 ∷ 98 ∷ []
unfolding append grow new_buffer copy_to assign shared_copy object set_object allocate initial
    replicate set get_or text take drop buffer
append-both = refl

-- "AB" for the copy, and still "ab" for its source.
upcase-both : text (upcase both 1).1 1 ++ text (upcase both 1).1 0 ≡ 65 ∷ 66 ∷ 97 ∷ 98 ∷ []
unfolding upcase localize write_bytes assign shared_copy object set_object allocate initial
    replicate set get_or text take drop buffer
upcase-both = refl

index_of-IsFirst_example :
    IsFirst (98 ∷ 97 ∷ 98 ∷ []) (97 ∷ 98 ∷ []) (index_of (98 ∷ 97 ∷ 98 ∷ []) (97 ∷ 98 ∷ []))
index_of-IsFirst_example = index_of-IsFirst (98 ∷ 97 ∷ 98 ∷ []) (97 ∷ 98 ∷ [])

index_of-found : index_of (98 ∷ 97 ∷ 98 ∷ []) (97 ∷ 98 ∷ []) ≡ some 1
unfolding index_of index_loop equal same_bytes take drop
index_of-found = refl
