-- ===== src/CharArray/Copies.antt =====
-- A copy shares the buffer of its source.
use mirb.CharArray.Sharing.{IsObject, IsValid, object-set_object}
use mirb.CharArray.Text.{Writes}
use mirb.CharArray.{Store, object, buffer, set_object, text, assign, shared_copy}
use mirb.Prelude.Lists.{length, get_or, set, length-set}
use mirb.Prelude.{
  ℕ, ◌<◌, ◌≡◌, ◌≢◌, ◌⊎◌, refl, ap, ◌∙◌, true, false, [], inl, inr, arith, ◌==◌, ==_iff,
  if◌then◌else◌, Bool-cases,
}

module _ (s : Store) (valid : IsValid s) (this other : ℕ) (here : IsObject s this)
    (there : IsObject s other) (differ : this ≢ other) where
  apart_test : (this == other) ≡ false
  apart_test = ground arith

  object-assign :
      (k : ℕ)
      → object (assign s this other) k ≡ (
          if other == k
          then shared_copy s other
          else if this == k
          then shared_copy s other
          else object s k)
  unfolding assign
  object-assign k =
      let inner = set_object s this (shared_copy s other) in
      let there' : IsObject inner other =
        unfold set_object in omega (arith, length-set s.objects this (shared_copy s other)) in
      rw
        (
          apart_test,
          object-set_object inner other k (shared_copy s other) there',
          object-set_object s this k (shared_copy s other) here,
        )
        refl

  -- After the copy an object is one of the two, or what it was.
  abbrev Kinds : ℕ → Type 0
  Kinds k =
      (object (assign s this other) k ≡ shared_copy s other)
      ⊎ ((object (assign s this other) k ≡ object s k) × (k ≢ other))

  kinds : (k : ℕ) → Kinds k
  kinds k = elim (Bool-cases (other == k)) [
    | inl t ↦ inl (object-assign k ∙ rw t refl)
    | inr t ↦ elim (Bool-cases (this == k)) [
      | inl u ↦ inl (object-assign k ∙ rw (t, u) refl)
      | inr u ↦ inr (object-assign k ∙ rw (t, u) refl, ground arith)
    ]
  ]

  count : length (assign s this other).objects ≡ length s.objects
  unfolding assign set_object
  count = rw apart_test (
      omega (
        arith,
        length-set (set s.objects this (shared_copy s other)) other (shared_copy s other),
        length-set s.objects this (shared_copy s other),
      ))

  old : (k : ℕ) → IsObject (assign s this other) k → IsObject s k
  old k h = omega (arith, count)

  buffers : (assign s this other).buffers ≡ s.buffers
  unfolding assign set_object
  buffers = rw apart_test refl

  same_buffer : (b : ℕ) → buffer (assign s this other) b ≡ buffer s b
  unfolding buffer
  same_buffer b = ap (λ bs. get_or bs b []) buffers

  assign-apart :
      (j k : ℕ)
      → IsObject s j
      → IsObject s k
      → j ≢ k
      → 0 < (object (assign s this other) j).length
      → (object (assign s this other) j).place ≡ (object (assign s this other) k).place
      → (object (assign s this other) j).shared ≡ true
  unfolding shared_copy
  assign-apart j k h h' different = elim (kinds j) [
    | inl e ↦ λ long same. rw e refl
    | inr (e, differs) ↦ elim (kinds k) [
      | inl e' ↦ rw (e, e') (valid.apart j other h there differs)
      | inr (e', differs') ↦ rw (e, e') (valid.apart j k h h' different)
    ]
  ]

  assign-IsValid : IsValid (assign s this other)
  unfolding shared_copy
  assign-IsValid = record {
    placed = λ k h. elim (kinds k) [
      | inl e ↦ rw (e, buffers) (valid.placed other there)
      | inr (e, differs) ↦ rw (e, buffers) (valid.placed k (old k h))
    ];
    inside = λ k h. elim (kinds k) [
      | inl e ↦ rw (e, same_buffer (object s other).place) (valid.inside other there)
      | inr (e, differs) ↦ rw (e, same_buffer (object s k).place) (valid.inside k (old k h))
    ];
    apart = λ j k h h'. assign-apart j k (old j h) (old k h');
  }

  text-assign : text (assign s this other) this ≡ text s other
  unfolding text shared_copy
  text-assign =
      let unlike : (other == this) ≡ false = ground arith in
      rw (object-assign this, unlike, (==_iff this this).1 refl, same_buffer (object s other).place)
        refl

  text-assign_other : (j : ℕ) → IsObject s j → this ≢ j → text (assign s this other) j ≡ text s j
  unfolding text shared_copy
  text-assign_other j h differs = elim (Bool-cases (other == j)) [
    | inl t ↦
        rw (object-assign j, t, same_buffer (object s other).place)
          (ap (text s) ((==_iff other j).0 t))
    | inr t ↦
        let u : (this == j) ≡ false = ground arith in
        rw (object-assign j, t, u, same_buffer (object s j).place) refl
  ]

  -- On valid objects, after `operator=` between two of them the one has the text of the other,
  -- and every other object keeps its own; the objects stay valid, so that of two on one buffer
  -- both know it unless they are empty.
  pub assign-Writes : Writes s (assign s this other) this (text s other)
  assign-Writes = record {
    valid = assign-IsValid;
    count = count;
    written = text-assign;
    others = text-assign_other;
  }
