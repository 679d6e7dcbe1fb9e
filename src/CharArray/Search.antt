-- ===== src/CharArray/Search.antt =====
-- `index_of` finds the first place where one byte string stands in another.
use mirb.CharArray.Bytes.{same_bytes, equal, index_loop, index_of}
use mathlib.Core.Path.{subst}
use mirb.Prelude.Lists.{
  length, take, drop, take-drop, take-length, take-append, length-append, length-take,
}
use mirb.Prelude.{
  ℕ, zero, suc, ◌+◌, ◌-◌, ◌≤◌, ◌<◌, ◌≡◌, inl, inr, Bool, true, false, List, [], ◌∷◌, ◌++◌, refl,
  sym, ap, ◌∙◌, ◌||◌, Option, none, some, ltb, arith, Bool-cases,
}

-- Whether `other` stands at index `i`.
abbrev at : List ℕ → List ℕ → ℕ → Bool
at bytes other i = equal bytes i 0 other (length other)

-- An answer for the indices from `i` below `stop`: the first at which `other` stands, or none.
abbrev FirstTest : List ℕ → List ℕ → ℕ → ℕ → Option ℕ → Type 0
FirstTest bytes other i stop none = (j : ℕ) → i ≤ j → j < stop → at bytes other j ≡ false
FirstTest bytes other i stop (some k) =
    (i ≤ k)
    × (k < stop)
    × (at bytes other k ≡ true)
    × ((j : ℕ) → i ≤ j → j < k → at bytes other j ≡ false)

module _ (bytes other : List ℕ) where
  widen :
      (i stop : ℕ) (r : Option ℕ)
      → at bytes other i ≡ false
      → i < stop
      → FirstTest bytes other (suc i) stop r
      → FirstTest bytes other i stop r
  widen i stop none e lt h = λ j le below. elim (Bool-cases (ltb i j)) [
    | inl t ↦ h j (ground arith) below
    | inr t ↦ let same : j ≡ i = ground arith in rw same e
  ]
  widen i stop (some k) e lt (le, below, found, before) = (
    omega arith,
    below,
    found,
    λ j ge under. elim (Bool-cases (ltb i j)) [
      | inl t ↦ before j (ground arith) under
      | inr t ↦ let same : j ≡ i = ground arith in rw same e
    ],
  )

  index_loop-FirstTest :
      (rounds i stop : ℕ)
      → i + rounds ≡ stop
      → FirstTest bytes other i stop (index_loop rounds i bytes other)
  unfolding index_loop
  index_loop-FirstTest zero i stop e = λ j le lt. absurd (omega arith)
  index_loop-FirstTest (suc rounds) i stop e = elim (Bool-cases (at bytes other i)) [
    | inl t ↦ rw t (omega arith, omega arith, t, λ j le lt. absurd (omega arith))
    | inr t ↦ rw t (
        widen i stop (index_loop rounds (suc i) bytes other) t (omega arith)
          (index_loop-FirstTest rounds (suc i) stop (omega arith)))
  ]

  extend :
      (i stop further : ℕ) (r : Option ℕ)
      → stop ≤ further
      → ((j : ℕ) → stop ≤ j → at bytes other j ≡ false)
      → FirstTest bytes other i stop r
      → FirstTest bytes other i further r
  extend i stop further none le nowhere h = λ j ge below. elim (Bool-cases (ltb j stop)) [
    | inl t ↦ h j ge (ground arith)
    | inr t ↦ nowhere j (ground arith)
  ]
  extend i stop further (some k) le nowhere (ge, below, found, before) =
      (ge, omega arith, found, before)

  too_far : (j : ℕ) → length bytes < j + length other → at bytes other j ≡ false
  unfolding equal
  too_far j h = ground arith

  index_of-FirstTest : FirstTest bytes other 0 (length bytes + 1) (index_of bytes other)
  unfolding index_of
  index_of-FirstTest = elim (Bool-cases (ltb (length bytes) (length other))) [
    | inl t ↦ rw t (λ j le lt. too_far j (ground arith))
    | inr t ↦
        let stop = length bytes - length other + 1 in
        rw t (
          extend 0 stop (length bytes + 1) (index_loop stop 0 bytes other) (ground arith)
            (λ j le. too_far j (ground arith)) (index_loop-FirstTest stop 0 stop (omega arith)))
  ]

-- The other string stands at an index: so many bytes go before it, and some behind it.
unfoldable pub StandsAt : List ℕ → List ℕ → ℕ → Type 0
StandsAt bytes other i =
    (before behind : List ℕ) × (length before ≡ i) × (bytes ≡ before ++ (other ++ behind))

-- The first index at which the other string stands, or none where it stands nowhere.
unfoldable pub IsFirst : List ℕ → List ℕ → Option ℕ → Type 0
IsFirst bytes other none = (j : ℕ) → ¬ StandsAt bytes other j
IsFirst bytes other (some k) = StandsAt bytes other k × ((j : ℕ) → j < k → ¬ StandsAt bytes other j)

same_bytes-≡ : (xs ys : List ℕ) → same_bytes xs ys ≡ true → xs ≡ ys
unfolding same_bytes
same_bytes-≡ [] [] h = refl
same_bytes-≡ [] (y ∷ ys) h = absurd (ground arith)
same_bytes-≡ (x ∷ xs) [] h = absurd (ground arith)
same_bytes-≡ (x ∷ xs) (y ∷ ys) h =
    let head : x ≡ y = ground (arith, h) in rw (head, same_bytes-≡ xs ys (ground (arith, h))) refl

same_bytes_refl : (xs : List ℕ) → same_bytes xs xs ≡ true
unfolding same_bytes
same_bytes_refl [] = refl
same_bytes_refl (x ∷ xs) = ground (arith, same_bytes_refl xs)

drop-append : (xs ys : List ℕ) → drop (length xs) (xs ++ ys) ≡ ys
unfolding drop
drop-append [] ys = refl
drop-append (x ∷ xs) ys = drop-append xs ys

at-StandsAt : (bytes other : List ℕ) (i : ℕ) → at bytes other i ≡ true → StandsAt bytes other i
unfolding equal StandsAt
at-StandsAt bytes other i h =
    let fits : i + length other ≤ length bytes = ground (arith, h) in
    let same : same_bytes (take (length other) (drop i bytes)) (take (length other) (drop 0 other))
        ≡ true =
      ground (arith, h) in
    let middle : take (length other) (drop i bytes) ≡ other =
      same_bytes-≡ (take (length other) (drop i bytes)) other (
        subst (λ ys. same_bytes (take (length other) (drop i bytes)) ys ≡ true) (take-length other)
          (unfold drop in same)) in
    (
      take i bytes,
      drop (length other) (drop i bytes),
      length-take i bytes (omega arith),
      sym (
          ap (λ ys. take i bytes ++ (ys ++ drop (length other) (drop i bytes))) (sym middle)
          ∙ ap (λ ys. take i bytes ++ ys) (take-drop (length other) (drop i bytes))
          ∙ take-drop i bytes),
    )

StandsAt-at : (bytes other : List ℕ) (i : ℕ) → StandsAt bytes other i → at bytes other i ≡ true
unfolding equal StandsAt
StandsAt-at bytes other i (before, behind, place, whole) =
    let long : i + length other ≤ length bytes =
      subst (λ ys. i + length other ≤ length ys) (sym whole)
        (omega
          (arith, length-append before (other ++ behind), length-append other behind, place)) in
    let middle : take (length other) (drop i bytes) ≡ other =
      ap (λ ys. take (length other) (drop i ys)) whole
      ∙ ap (take (length other)) (
          subst (λ n. drop n (before ++ (other ++ behind)) ≡ other ++ behind) place
            (drop-append before (other ++ behind)))
      ∙ take-append other behind in
    let all : take (length other) (drop 0 other) ≡ other = unfold drop in take-length other in
    let fits : (ltb (length bytes) (i + length other) || ltb (length other) (0 + length other))
        ≡ false =
      ground (arith, long) in
    rw (fits, middle, all) (same_bytes_refl other)

StandsAt-below : (bytes other : List ℕ) (i : ℕ) → StandsAt bytes other i → i < length bytes + 1
unfolding StandsAt
StandsAt-below bytes other i (before, behind, place, whole) =
    subst (λ ys. i < length ys + 1) (sym whole)
      (omega (arith, length-append before (other ++ behind), place))

FirstTest-IsFirst :
    (bytes other : List ℕ) (r : Option ℕ)
    → FirstTest bytes other 0 (length bytes + 1) r
    → IsFirst bytes other r
unfolding IsFirst
FirstTest-IsFirst bytes other none h = λ j stands. ground (
  arith,
  h j (omega arith) (StandsAt-below bytes other j stands),
  StandsAt-at bytes other j stands,
)
FirstTest-IsFirst bytes other (some k) (ge, below, found, before) = (
  at-StandsAt bytes other k found,
  λ j lt stands. ground (arith, before j (omega arith) lt, StandsAt-at bytes other j stands),
)

-- `index_of` answers the first index at which the other string stands in the bytes, and none only
-- if it stands nowhere.
pub index_of-IsFirst : (bytes other : List ℕ) → IsFirst bytes other (index_of bytes other)
index_of-IsFirst bytes other =
    FirstTest-IsFirst bytes other (index_of bytes other) (index_of-FirstTest bytes other)
