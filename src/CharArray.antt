-- ===== src/CharArray.antt =====
-- char-array.cpp: byte strings that share their buffers until one of them is written. The heap is a
-- list of buffers, and a `CharArray` is a length, the index of its buffer (`data`; the null pointer
-- is buffer 0) and the flag `shared`; the objects of a program are numbered. A buffer is never given
-- back, and `reallocate` makes a new one. Static data are buffers like others, which only shared
-- objects have.
pub mod Text
pub mod Sharing
pub mod Append
pub mod Copies
pub mod Bytes
pub mod Search
use mirb.Prelude.Lists.{length, get_or, set, take, drop, replicate}
use mirb.Prelude.{
  ℕ, zero, suc, ◌+◌, ◌-◌, Bool, true, false, List, [], ◌∷◌, ◌++◌, map, ◌&&◌, ◌||◌, ◌==◌, ltb, leb,
  if◌then◌else◌, not,
}

pub record CharArray : Type 0 where
  pub length : ℕ
  pub place : ℕ
  pub shared : Bool

pub record Store : Type 0 where
  pub buffers : List (List ℕ)
  pub objects : List CharArray

-- `CharArray()`
abbrev pub empty_array : CharArray
empty_array = record { length = 0; place = 0; shared = false }

unfoldable pub object : Store → ℕ → CharArray
object s i = get_or s.objects i empty_array

unfoldable pub buffer : Store → ℕ → List ℕ
buffer s b = get_or s.buffers b []

unfoldable pub set_object : Store → ℕ → CharArray → Store
set_object s i c = record s { objects = set s.objects i c }

-- The bytes of an object.
unfoldable pub text : Store → ℕ → List ℕ
text s i = let c = object s i in take c.length (buffer s c.place)

-- `Collector::allocate` and the `memcpy` behind it: object `i` gets a buffer of its own.
unfoldable pub allocate : Store → ℕ → List ℕ → Store
allocate s i bytes = record {
  buffers = s.buffers ++ bytes ∷ [];
  objects =
      set s.objects i (record { length = length bytes; place = length s.buffers; shared = false });
}

-- The members that `operator=` copies, with both `shared` flags set.
unfoldable pub shared_copy : Store → ℕ → CharArray
shared_copy s other = record (object s other) { shared = true }

-- `operator=(const CharArray &)`: both share the buffer from now on.
unfoldable pub assign : Store → ℕ → ℕ → Store
assign s this other =
    if this == other
    then s
    else set_object (set_object s this (shared_copy s other)) other (shared_copy s other)

unfoldable pub localize : Store → ℕ → Store
localize s i = if (object s i).shared then allocate s i (text s i) else s

abbrev pub is_lower : ℕ → Bool
is_lower c = leb 97 c && leb c 122

abbrev pub is_upper : ℕ → Bool
is_upper c = leb 65 c && leb c 90

abbrev pub to_upper : ℕ → ℕ
to_upper c = if is_lower c then 65 + (c - 97) else c

abbrev pub to_lower : ℕ → ℕ
to_lower c = if is_upper c then 97 + (c - 65) else c

unfoldable pub any_byte : (ℕ → Bool) → List ℕ → Bool
any_byte p [] = false
any_byte p (c ∷ cs) = p c || any_byte p cs

-- The loop of `upcase` and `downcase`, which writes the first `length` bytes of the buffer.
unfoldable pub write_bytes : (ℕ → ℕ) → Store → ℕ → Store
write_bytes f s i =
    let c = object s i in
    let b = buffer s c.place in
    record s { buffers = set s.buffers c.place (map f (take c.length b) ++ drop c.length b) }

unfoldable pub upcase : Store → ℕ → Bool × Store
upcase s i = let l = localize s i in (any_byte is_lower (text l i), write_bytes to_upper l i)

unfoldable pub downcase : Store → ℕ → Bool × Store
downcase s i = let l = localize s i in (any_byte is_upper (text l i), write_bytes to_lower l i)

-- `Collector::allocate`: a new buffer, with bytes that do not matter.
unfoldable pub new_buffer : Store → ℕ → ℕ × Store
new_buffer s size = (length s.buffers, record s { buffers = s.buffers ++ replicate size 0 ∷ [] })

-- `memcpy` to `offset` of a buffer.
unfoldable pub copy_to : Store → ℕ → ℕ → List ℕ → Store
copy_to s b offset bytes = record s {
  buffers =
      set s.buffers b
        (take offset (buffer s b) ++ (bytes ++ drop (offset + length bytes) (buffer s b)));
}

-- `Collector::reallocate`
unfoldable pub reallocate : Store → ℕ → ℕ → ℕ → ℕ × Store
reallocate s memory old_size size =
    let (result, t) = new_buffer s size in
    (result, copy_to t result 0 (take old_size (buffer t memory)))

-- The first half of `append`: the buffer that the object goes on with.
unfoldable pub grow : Store → CharArray → ℕ → ℕ × Store
grow s c size =
    if c.shared
    then (let (block, t) = new_buffer s size in
        (block, copy_to t block 0 (take c.length (buffer t c.place))))
    else reallocate s c.place c.length size

-- `append`, also for an object to itself: the buffers are those from before, the lengths too.
unfoldable pub append : Store → ℕ → ℕ → Store
append s this other =
    let c = object s this in
    let o = object s other in
    let (block, t) = grow s c (c.length + o.length) in
    let u = set_object t this (record c { place = block; shared = false }) in
    let v = copy_to u block c.length (take o.length (buffer u o.place)) in
    set_object v this (record (object v this) { length = c.length + o.length })

-- `shrink`
unfoldable pub shrink : Store → ℕ → ℕ → Store
shrink s i new_size = set_object s i (record (object s i) { length = new_size })
