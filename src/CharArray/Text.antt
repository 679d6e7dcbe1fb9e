-- ===== src/CharArray/Text.antt =====
-- Each operation writes the text of one object, and of no other.
use mathlib.Core.Path.{subst}
use mirb.CharArray.Sharing.{
  IsObject, IsValid, allocate-IsValid, text-allocate, text-allocate_self, shared-allocate,
  length-objects-allocate,
}
use mirb.CharArray.{
  Store, object, buffer, text, allocate, localize, write_bytes, any_byte, is_lower, is_upper,
  to_upper, to_lower, upcase, downcase,
}
use mirb.Prelude.Lists.{
  length, take, drop, length-append, length-set, get_or-set, take-append, length-take, length-drop,
}
use mirb.Prelude.{
  ℕ, zero, suc, ◌≤◌, ◌<◌, ◌≡◌, ◌≢◌, refl, sym, ap, ◌∙◌, false, List, [], ◌∷◌, ◌++◌, map, inl, inr,
  arith, ◌==◌, ==_iff, if◌then◌else◌, Bool-cases,
}

-- `e` is `s` with `bytes` as the text of object `i`.
pub record Writes (s e : Store) (i : ℕ) (bytes : List ℕ) : Type 0 where
  pub valid : IsValid e
  pub count : length e.objects ≡ length s.objects
  pub written : text e i ≡ bytes
  pub others : (j : ℕ) → IsObject s j → i ≢ j → text e j ≡ text s j

module _ (s : Store) (valid : IsValid s) (i : ℕ) (here : IsObject s i) where
  pub allocate-Writes : (bytes : List ℕ) → Writes s (allocate s i bytes) i bytes
  allocate-Writes bytes = record {
    valid = allocate-IsValid s valid i here bytes;
    count = length-objects-allocate s i bytes;
    written = text-allocate_self s valid i here bytes;
    others = text-allocate s valid i here bytes;
  }

  localize-Writes :
      Writes s (localize s i) i (text s i) × ((object (localize s i) i).shared ≡ false)
  unfolding localize
  localize-Writes = elim (Bool-cases (object s i).shared) [
    | inl t ↦ rw t (allocate-Writes (text s i), shared-allocate s valid i here (text s i))
    | inr t ↦
        rw t (record { valid = valid; count = refl; written = refl; others = λ j h n. refl }, t)
  ]

length-map : (f : ℕ → ℕ) (xs : List ℕ) → length (map f xs) ≡ length xs
length-map f [] = refl
length-map f (x ∷ xs) = ap suc (length-map f xs)

take-prefix : (n : ℕ) (xs ys : List ℕ) → length xs ≡ n → take n (xs ++ ys) ≡ xs
take-prefix n xs ys e = subst (λ m. take m (xs ++ ys) ≡ xs) e (take-append xs ys)

-- The first `n` bytes, and all of them, after the loop.
abbrev mapped : (ℕ → ℕ) → ℕ → List ℕ → List ℕ
mapped f n xs = map f (take n xs) ++ drop n xs

mapped-none : (f : ℕ → ℕ) (n : ℕ) (xs : List ℕ) → n ≡ 0 → mapped f n xs ≡ xs
unfolding take drop
mapped-none f zero xs e = refl
mapped-none f (suc n) xs e = absurd (omega arith)

length-mapped :
    (f : ℕ → ℕ) (n : ℕ) (xs : List ℕ) → n ≤ length xs → length (mapped f n xs) ≡ length xs
length-mapped f n xs h = omega (
  arith,
  length-append (map f (take n xs)) (drop n xs),
  length-map f (take n xs),
  length-take n xs h,
  length-drop n xs,
)

module _ (f : ℕ → ℕ) (s : Store) (valid : IsValid s) (i : ℕ) (here : IsObject s i) where
  abbrev bytes_of : List ℕ
  bytes_of = buffer s (object s i).place

  abbrev new_bytes : List ℕ
  new_bytes = mapped f (object s i).length bytes_of

  object-write_bytes : (j : ℕ) → object (write_bytes f s i) j ≡ object s j
  unfolding object write_bytes
  object-write_bytes j = refl

  buffer-write_bytes :
      (b : ℕ)
      → buffer (write_bytes f s i) b ≡ (if (object s i).place == b then new_bytes else buffer s b)
  unfolding buffer write_bytes
  buffer-write_bytes b =
      get_or-set s.buffers (object s i).place b new_bytes [] (valid.placed i here)

  length-buffer : (b : ℕ) → length (buffer (write_bytes f s i) b) ≡ length (buffer s b)
  length-buffer b = elim (Bool-cases ((object s i).place == b)) [
    | inl t ↦
        let same = (==_iff (object s i).place b).0 t in
        rw (buffer-write_bytes b, t)
          (length-mapped f (object s i).length bytes_of (valid.inside i here)
            ∙ ap (λ m. length (buffer s m)) same)
    | inr t ↦ rw (buffer-write_bytes b, t) refl
  ]

  still : (j : ℕ) → IsObject (write_bytes f s i) j → IsObject s j
  unfolding write_bytes
  still j h = h

  length-write_bytes : length (write_bytes f s i).buffers ≡ length s.buffers
  unfolding write_bytes
  length-write_bytes = length-set s.buffers (object s i).place new_bytes

  write_bytes-IsValid : IsValid (write_bytes f s i)
  write_bytes-IsValid = record {
    placed = λ j h. rw (object-write_bytes j, length-write_bytes) (valid.placed j (still j h));
    inside = λ j h.
        rw (object-write_bytes j, length-buffer (object s j).place) (valid.inside j (still j h));
    apart = λ j k h h'.
        rw (object-write_bytes j, object-write_bytes k) (valid.apart j k (still j h) (still k h'));
  }

  text-write_bytes : text (write_bytes f s i) i ≡ map f (text s i)
  unfolding text
  text-write_bytes =
      let whole =
        length-map f (take (object s i).length bytes_of)
        ∙ length-take (object s i).length bytes_of (valid.inside i here) in
      rw
        (
          object-write_bytes i,
          buffer-write_bytes (object s i).place,
          (==_iff (object s i).place (object s i).place).1 refl,
        )
        (take-prefix (object s i).length (map f (take (object s i).length bytes_of))
          (drop (object s i).length bytes_of) whole)

  module _ (alone : (object s i).shared ≡ false) where
    buffer-other :
        (j : ℕ)
        → IsObject s j
        → i ≢ j
        → buffer (write_bytes f s i) (object s j).place ≡ buffer s (object s j).place
    buffer-other j h differ = elim (Bool-cases ((object s i).place == (object s j).place)) [
      | inl t ↦
          let same = (==_iff (object s i).place (object s j).place).0 t in
          let empty : (object s i).length ≡ 0 = ground (arith, valid.apart i j here h differ) in
          rw (buffer-write_bytes (object s j).place, t)
            (mapped-none f (object s i).length bytes_of empty ∙ ap (buffer s) same)
      | inr t ↦ rw (buffer-write_bytes (object s j).place, t) refl
    ]

    write_bytes-Writes : Writes s (write_bytes f s i) i (map f (text s i))
    write_bytes-Writes = record {
      valid = write_bytes-IsValid;
      count = unfold write_bytes in refl;
      written = text-write_bytes;
      others = λ j h differ. unfold text in rw (object-write_bytes j, buffer-other j h differ) refl;
    }

-- A second write to the same object.
Writes-trans :
    {s e u : Store} {i : ℕ} {xs ys : List ℕ} → Writes s e i xs → Writes e u i ys → Writes s u i ys
Writes-trans {s} {e} {u} {i} w v = record {
  valid = v.valid;
  count = v.count ∙ w.count;
  written = v.written;
  others =
      λ j h differ. v.others j (subst (λ m. j < m) (sym w.count) h) differ ∙ w.others j h differ;
}

module _ (s : Store) (valid : IsValid s) (i : ℕ) (here : IsObject s i) where
  localized-Writes : (f : ℕ → ℕ) → Writes s (write_bytes f (localize s i) i) i (map f (text s i))
  localized-Writes f =
      let (w, alone) = localize-Writes s valid i here in
      let there = subst (λ m. i < m) (sym w.count) here in
      let v = write_bytes-Writes f (localize s i) w.valid i there alone in
      Writes-trans w (
        subst (λ t. Writes (localize s i) (write_bytes f (localize s i) i) i (map f t)) w.written v)

  -- On valid objects `upcase` maps the bytes of one, and tells whether one of them was a letter
  -- of the other case. The objects stay valid, and no other object changes, also none that shared
  -- the buffer.
  pub upcase-Writes :
      ((upcase s i).0 ≡ any_byte is_lower (text s i))
      × Writes s (upcase s i).1 i (map to_upper (text s i))
  unfolding upcase
  upcase-Writes =
      (ap (any_byte is_lower) (localize-Writes s valid i here).0.written, localized-Writes to_upper)

  -- On valid objects `downcase` maps the bytes of one, and tells whether one of them was a letter
  -- of the other case. The objects stay valid, and no other object changes, also none that shared
  -- the buffer.
  pub downcase-Writes :
      ((downcase s i).0 ≡ any_byte is_upper (text s i))
      × Writes s (downcase s i).1 i (map to_lower (text s i))
  unfolding downcase
  downcase-Writes =
      (ap (any_byte is_upper) (localize-Writes s valid i here).0.written, localized-Writes to_lower)
