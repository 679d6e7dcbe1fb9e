-- ===== src/CharArray/Append.antt =====
-- `append` copies both texts into a new buffer, also of an object that shares its own or is put
-- behind itself.
use mirb.CharArray.Sharing.{IsObject, IsValid}
use mirb.CharArray.{CharArray, Store, object, buffer, copy_to, set_object}
use mirb.Prelude.Lists.{length, take}
use mirb.Prelude.{ℕ, ◌+◌, false, List, [], ◌∷◌, ◌++◌}

-- The store with a new last buffer.
abbrev with_buffer : Store → List ℕ → Store
with_buffer s bytes = record s { buffers = s.buffers ++ bytes ∷ [] }

module _ (s : Store) (valid : IsValid s) (this other : ℕ) (here : IsObject s this)
    (there : IsObject s other) where
  abbrev size : ℕ
  size = (object s this).length + (object s other).length

  -- The object on its new buffer, with its old length.
  abbrev moved : CharArray
  moved = record (object s this) { place = length s.buffers; shared = false }

  abbrev with_length : Store → Store
  with_length v = set_object v this (record (object v this) { length = size })

  -- What `append` does with the buffer of `grow`.
  abbrev goes_on : ℕ × Store → Store
  goes_on (block, t) =
      let u = set_object t this (record (object s this) { place = block; shared = false }) in
      with_length (
        copy_to u block (object s this).length
          (take (object s other).length (buffer u (object s other).place)))
