-- ===== src/ValueMap/EachPair.antt =====
-- `each_pair` visits every entry once.
use mirb.Prelude.Lists.{length}
use mirb.Prelude.{
  ℕ, zero, suc, ◌+◌, ◌≤◌, ◌<◌, ◌≡◌, ◌≢◌, refl, sym, ◌∙◌, inl, inr, List, [], ◌∷◌, Option, none,
  some, arith, ◌==◌, ==_iff, if◌then◌else◌, Bool-cases,
}
use mirb.ValueMap.Probe.{key_at, value_at, Outcome, ne_of_test, Reaches-unique}
use mirb.ValueMap.Valid.{
  view, count_below, home, IsValid, IsTable-unique, Reaches-le, search-Outcome,
}
use mirb.ValueMap.Store.{view-free, view-matched}
use mirb.ValueMap.{
  ValueMapData, value_undef, Found, free, matched, stuck, search, pairs_loop, each_pair,
}

-- The first value under `k` in a list of entries.
abbrev pub find_pair : ℕ → List (ℕ × ℕ) → Option ℕ
find_pair k [] = none
find_pair k ((j, v) ∷ r) = if j == k then some v else find_pair k r

find_pair-at :
    (d : ValueMapData) (k p rounds i : ℕ)
    → k ≢ value_undef
    → i ≤ p
    → p < i + rounds
    → key_at d p ≡ k
    → ((q : ℕ) → q < i + rounds → key_at d q ≡ k → q ≡ p)
    → find_pair k (pairs_loop rounds i d) ≡ some (value_at d p)
unfolding pairs_loop key_at value_at
find_pair-at d k p zero i nu a b e only = absurd (omega arith)
find_pair-at d k p (suc rounds) i nu a b e only = elim (Bool-cases (i == p)) [
  | inl t ↦ rw ((==_iff i p).0 t) (ground arith)
  | inr t ↦
      let other : i ≢ p = ne_of_test i p t in
      let ne : key_at d i ≢ k = λ w. other (only i (omega arith) w) in
      let later =
        find_pair-at d k p rounds (suc i) nu (omega arith) (omega arith) e
          (λ q lt w. only q (omega arith) w) in
      ground (arith, later, ne)
]

find_pair-absent :
    (d : ValueMapData) (k rounds i : ℕ)
    → ((q : ℕ) → q < i + rounds → key_at d q ≢ k)
    → find_pair k (pairs_loop rounds i d) ≡ none
unfolding pairs_loop key_at
find_pair-absent d k zero i other = refl
find_pair-absent d k (suc rounds) i other =
    ground (arith, other i, find_pair-absent d k rounds (suc i) (λ q lt. other q (omega arith)))

count_below-zero : (d : ValueMapData) → count_below d 0 ≡ 0
unfolding count_below
count_below-zero d = refl

count_below-suc :
    (d : ValueMapData) (n : ℕ)
    → count_below d (suc n) ≡ (if key_at d n == value_undef then 0 else 1) + count_below d n
unfolding count_below
count_below-suc d n = refl

length-pairs_loop :
    (d : ValueMapData) (rounds i : ℕ)
    → length (pairs_loop rounds i d) + count_below d i ≡ count_below d (i + rounds)
unfolding pairs_loop key_at
length-pairs_loop d zero i = let e : i + 0 ≡ i = omega arith in rw e (omega arith)
length-pairs_loop d (suc rounds) i =
    let e : i + suc rounds ≡ suc i + rounds = omega arith in
    rw e (ground (arith, count_below-suc d i, length-pairs_loop d rounds (suc i)))

module _ (hash_value : ℕ → ℕ) {d : ValueMapData} (v : IsValid hash_value d) where
  find_pair-Outcome :
      (k : ℕ)
      → k ≢ value_undef
      → (f : Found) → Outcome d k (home hash_value d k) f
      → find_pair k (pairs_loop (d.mask + 1) 0 d) ≡ view d k
  find_pair-Outcome k nu (free i) (p, i_is, r, e) =
      rw (view-free hash_value v.laid_out k nu p r e) (
        find_pair-absent d k (d.mask + 1) 0 λ q lt same.
          let full : key_at d q ≢ value_undef = λ u. nu (sym same ∙ u) in
          let there = rw same at (v.laid_out.placed q (omega arith) full) in
          let at_p = Reaches-unique d k (home hash_value d k) p q r there (inl e) (inr same) in
          full (rw (← at_p) e))
  find_pair-Outcome k nu (matched i) (p, i_is, r, e, _) =
      let le = Reaches-le hash_value v.laid_out k p r in
      rw (view-matched hash_value v.laid_out k nu p le e) (
        find_pair-at d k p (d.mask + 1) 0 nu (omega arith) (omega arith) e λ q lt same.
          IsTable-unique hash_value v.laid_out p q le (omega arith) (λ u. nu (sym e ∙ u))
            (same ∙ sym e))
  find_pair-Outcome k nu stuck o = absurd o

  -- On a valid table `each_pair` visits as many entries as `entries` says, and under each key it
  -- visits what `get` finds there.
  pub each_pair-view :
      (length (each_pair d) ≡ d.entries)
      × ((k : ℕ) → k ≢ value_undef → find_pair k (each_pair d) ≡ view d k)
  unfolding each_pair
  each_pair-view = (
    let e : 0 + (d.mask + 1) ≡ d.mask + 1 = omega arith in
        omega (
          arith,
          rw e at (length-pairs_loop d (d.mask + 1) 0),
          v.laid_out.counted,
          count_below-zero d,
        ),
    λ k nu.
        find_pair-Outcome k nu (search hash_value d k)
          (search-Outcome hash_value v.laid_out k v.room),
  )
