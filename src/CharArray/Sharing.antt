-- ===== src/CharArray/Sharing.antt =====
-- Which objects may share a buffer.
use mirb.CharArray.{CharArray, Store, empty_array, object, buffer, set_object, text, allocate}
use mirb.Prelude.Lists.{
  length, get_or, replicate, get_or-replicate, length-append, length-set, get_or-set, get_or-append,
  take-length,
}
use mirb.Prelude.{
  ℕ, ◌+◌, ◌≤◌, ◌<◌, ◌≡◌, ◌≢◌, refl, ◌∙◌, ==_iff, true, false, List, [], ◌∷◌, inl, inr, arith, ◌==◌,
  if◌then◌else◌, Bool-cases,
}

abbrev pub IsObject : Store → ℕ → Type 0
IsObject s i = i < length s.objects

-- Objects stand on buffers that reach as far as they do, and of two objects on one buffer both
-- know that they share it, unless they are empty.
pub record IsValid (s : Store) : Type 0 where
  pub placed : (i : ℕ) → IsObject s i → (object s i).place < length s.buffers
  pub inside : (i : ℕ) → IsObject s i → (object s i).length ≤ length (buffer s (object s i).place)
  pub apart :
      (i j : ℕ)
      → IsObject s i
      → IsObject s j
      → i ≢ j
      → 0 < (object s i).length
      → (object s i).place ≡ (object s j).place
      → (object s i).shared ≡ true

pub object-set_object :
    (s : Store) (i j : ℕ) (c : CharArray)
    → IsObject s i
    → object (set_object s i c) j ≡ (if i == j then c else object s j)
unfolding object set_object
object-set_object s i j c h = get_or-set s.objects i j c _ h

-- What `allocate` makes of an object.
abbrev pub fresh : Store → List ℕ → CharArray
fresh s bytes = record { length = length bytes; place = length s.buffers; shared = false }

pub object-allocate :
    (s : Store) (i j : ℕ) (bytes : List ℕ)
    → IsObject s i
    → object (allocate s i bytes) j ≡ (if i == j then fresh s bytes else object s j)
unfolding object allocate
object-allocate s i j bytes h = get_or-set s.objects i j _ _ h

pub buffer-allocate :
    (s : Store) (i b : ℕ) (bytes : List ℕ)
    → b < length s.buffers + 1
    → buffer (allocate s i bytes) b ≡ (if b == length s.buffers then bytes else buffer s b)
unfolding buffer allocate
buffer-allocate s i b bytes h = get_or-append s.buffers bytes b [] h

buffer-fresh :
    (s : Store) (i : ℕ) (bytes : List ℕ) → buffer (allocate s i bytes) (length s.buffers) ≡ bytes
buffer-fresh s i bytes =
    buffer-allocate s i (length s.buffers) bytes (omega arith)
    ∙ rw ((==_iff (length s.buffers) (length s.buffers)).1 refl) refl

buffer-old :
    (s : Store) (i b : ℕ) (bytes : List ℕ)
    → b < length s.buffers
    → buffer (allocate s i bytes) b ≡ buffer s b
buffer-old s i b bytes h =
    let other : (b == length s.buffers) ≡ false = ground arith in
    buffer-allocate s i b bytes (omega arith) ∙ rw other refl

length-allocate :
    (s : Store) (i : ℕ) (bytes : List ℕ)
    → length (allocate s i bytes).buffers ≡ length s.buffers + 1
unfolding allocate
length-allocate s i bytes = omega (arith, length-append s.buffers (bytes ∷ []))

pub IsObject-allocate :
    (s : Store) (i j : ℕ) (bytes : List ℕ) → IsObject (allocate s i bytes) j → IsObject s j
unfolding allocate
IsObject-allocate s i j bytes h = omega (arith, length-set s.objects i (fresh s bytes))

module _ (s : Store) (valid : IsValid s) (i : ℕ) (here : IsObject s i) (bytes : List ℕ) where
  old : (j : ℕ) → IsObject (allocate s i bytes) j → IsObject s j
  old j h = IsObject-allocate s i j bytes h

  allocate-apart :
      (j k : ℕ)
      → IsObject s j
      → IsObject s k
      → j ≢ k
      → 0 < (object (allocate s i bytes) j).length
      → (object (allocate s i bytes) j).place ≡ (object (allocate s i bytes) k).place
      → (object (allocate s i bytes) j).shared ≡ true
  allocate-apart j k h h' differ = elim (Bool-cases (i == j)) [
    | inl t ↦ elim (Bool-cases (i == k)) [
      | inl u ↦ absurd (ground arith)
      | inr u ↦
          rw (object-allocate s i j bytes here, object-allocate s i k bytes here, t, u)
            (λ long same. absurd (omega (arith, valid.placed k h')))
    ]
    | inr t ↦ elim (Bool-cases (i == k)) [
      | inl u ↦
          rw (object-allocate s i j bytes here, object-allocate s i k bytes here, t, u)
            (λ long same. absurd (omega (arith, valid.placed j h)))
      | inr u ↦
          rw (object-allocate s i j bytes here, object-allocate s i k bytes here, t, u)
            (valid.apart j k h h' differ)
    ]
  ]

  -- A buffer of its own for one object leaves the others as they are.
  pub allocate-IsValid : IsValid (allocate s i bytes)
  allocate-IsValid = record {
    placed = λ j h. elim (Bool-cases (i == j)) [
      | inl t ↦ rw (object-allocate s i j bytes here, t, length-allocate s i bytes) (omega arith)
      | inr t ↦
          rw (object-allocate s i j bytes here, t, length-allocate s i bytes)
            (omega (arith, valid.placed j (old j h)))
    ];
    inside = λ j h. elim (Bool-cases (i == j)) [
      | inl t ↦ rw (object-allocate s i j bytes here, t, buffer-fresh s i bytes) (omega arith)
      | inr t ↦
          rw
            (
              object-allocate s i j bytes here,
              t,
              buffer-old s i (object s j).place bytes (valid.placed j (old j h)),
            )
            (valid.inside j (old j h))
    ];
    apart = λ j k h h'. allocate-apart j k (old j h) (old k h');
  }

  pub text-allocate : (j : ℕ) → IsObject s j → i ≢ j → text (allocate s i bytes) j ≡ text s j
  unfolding text
  text-allocate j h differ =
      let other : (i == j) ≡ false = ground arith in
      rw
        (
          object-allocate s i j bytes here,
          other,
          buffer-old s i (object s j).place bytes (valid.placed j h),
        )
        refl

  pub text-allocate_self : text (allocate s i bytes) i ≡ bytes
  unfolding text
  text-allocate_self =
      rw (object-allocate s i i bytes here, (==_iff i i).1 refl, buffer-fresh s i bytes)
        (take-length bytes)

  pub shared-allocate : (object (allocate s i bytes) i).shared ≡ false
  shared-allocate = rw (object-allocate s i i bytes here, (==_iff i i).1 refl) refl

pub length-objects-allocate :
    (s : Store) (i : ℕ) (bytes : List ℕ) → length (allocate s i bytes).objects ≡ length s.objects
unfolding allocate
length-objects-allocate s i bytes = length-set s.objects i (fresh s bytes)

-- A program's objects before anything is written: all empty, on the null pointer.
unfoldable pub initial : ℕ → Store
initial n = record { buffers = [] ∷ []; objects = replicate n empty_array }

pub initial-IsValid : (n : ℕ) → IsValid (initial n)
unfolding initial object buffer get_or
initial-IsValid n = record {
  placed = λ i h. rw (get_or-replicate n i empty_array) (omega arith);
  inside = λ i h. rw (get_or-replicate n i empty_array) (omega arith);
  apart = λ i j h h' differ. rw (get_or-replicate n i empty_array) (λ long. absurd (omega arith));
}
