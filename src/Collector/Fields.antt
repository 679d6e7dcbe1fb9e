-- ===== src/Collector/Fields.antt =====
-- The fields that a class's `mark` visits, as the objects they refer to.
use mathlib.Core.Option.{some-injective}
use mirb.Prelude.Maps.{has}
use mirb.Value.{object_ref}
use mirb.Collector.Search.{Search, add, scan}
use mirb.Collector.Lists.{Links, mark_pointer-Links}
use mirb.Collector.{
  Field, pointer, word, storage, text, list_end, Marker, mark_pointer, mark_value, from_memory,
  mark_field, mark_fields,
}
use mirb.Prelude.{
  ℕ, ◌≡◌, ◌≢◌, refl, Bool, true, false, ◌||◌, Option, none, some, List, [], ◌∷◌, arith, ◌==◌,
  if◌then◌else◌,
}

module _ (header_size : ℕ) where
  -- The object that a field refers to.
  unfoldable pub target : Field → Option ℕ
  target (pointer obj) = some obj
  target (word obj) = if object_ref obj then some obj else none
  target (storage array) = some array
  target (text bytes static_data) =
      if (bytes == 0) || static_data then none else some (from_memory header_size bytes)

  unfoldable pub cons_target : Option ℕ → List ℕ → List ℕ
  cons_target none bs = bs
  cons_target (some a) bs = a ∷ bs

  unfoldable pub targets : List Field → List ℕ
  targets [] = []
  targets (f ∷ fs) = cons_target (target f) (targets fs)

  unfoldable pub mark_target : Marker → Option ℕ → Bool × Marker
  mark_target s none = (false, s)
  mark_target s (some a) = mark_pointer s a

  pub mark_field-target :
      (s : Marker) (f : Field) → mark_field header_size s f ≡ mark_target s (target f)
  unfolding mark_field mark_value target mark_target
  mark_field-target s (pointer obj) = refl
  mark_field-target s (word obj) = ground arith
  mark_field-target s (storage array) = refl
  mark_field-target s (text bytes static_data) = ground arith

  -- No field refers to the end of a list.
  abbrev pub IsSound : List ℕ → Type 0
  IsSound bs = (b : ℕ) → has b bs ≡ true → b ≢ list_end

  pub IsSound-cons :
      {o : Option ℕ} (bs : List ℕ)
      → IsSound (cons_target o bs)
      → IsSound bs × ((a : ℕ) → o ≡ some a → a ≢ list_end)
  unfolding cons_target has
  IsSound-cons {o = none} bs sound = (sound, λ a e. ground arith)
  IsSound-cons {o = some c} bs sound =
      (λ b i. sound b (ground arith), λ a e. sound a (ground (arith, some-injective _ _ e)))

  unfoldable add_target : Search → Option ℕ → Search
  add_target w none = w
  add_target w (some a) = add w a

  scan-cons :
      (w : Search) (o : Option ℕ) (bs : List ℕ)
      → scan w (cons_target o bs) ≡ scan (add_target w o) bs
  unfolding scan cons_target add_target
  scan-cons w none bs = refl
  scan-cons w (some a) bs = refl

  mark_target-Links :
      (s : Marker) (w : Search) (o : Option ℕ)
      → ((a : ℕ) → o ≡ some a → a ≢ list_end)
      → Links s w
      → Links (mark_target s o).1 (add_target w o)
  unfolding mark_target add_target
  mark_target-Links s w none sound h = h
  mark_target-Links s w (some a) sound h = (mark_pointer-Links s w a (sound a refl) h).0

  pub mark_fields-Links :
      (s : Marker) (w : Search) (fs : List Field)
      → IsSound (targets fs)
      → Links s w
      → Links (mark_fields header_size s fs) (scan w (targets fs))
  unfolding mark_fields scan targets
  mark_fields-Links s w [] sound h = h
  mark_fields-Links s w (f ∷ fs) sound h =
      let (later, now) = IsSound-cons (targets fs) sound in
      rw (mark_field-target s f, scan-cons w (target f) (targets fs))
        (mark_fields-Links (mark_target s (target f)).1 (add_target w (target f)) fs later
          (mark_target-Links s w (target f) now h))
