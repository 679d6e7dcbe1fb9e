-- ===== src/Modules/Chains.antt =====
-- An element that is put into a chain, and the inner loop of `include_module` on one.
use mathlib.Core.Path.{subst}
use mirb.Prelude.Maps.{put, has}
use mirb.Prelude.Lists.{length}
use mirb.Prelude.Chains.{Chain, Distinct, Chain-put}
use mirb.Modules.{Store, is_iclass, is_class, find_included}
use mirb.Prelude.{
  ℕ, zero, suc, ◌≤◌, ◌<◌, ◌≡◌, ◌≢◌, refl, sym, ap, ◌∙◌, inl, inr, Bool, true, false, ◌&&◌, ◌||◌,
  some, List, [], ◌∷◌, not, arith, ◌==◌, ltb, if◌then◌else◌, Bool-cases,
}

unfoldable pub insert_after : ℕ → ℕ → List ℕ → List ℕ
insert_after c n [] = []
insert_after c n (x ∷ xs) = if x == c then x ∷ n ∷ xs else x ∷ insert_after c n xs

-- The addresses below a bound, in their order.
unfoldable pub below : ℕ → List ℕ → List ℕ
below k [] = []
below k (x ∷ xs) = if ltb x k then x ∷ below k xs else below k xs

pub Chain-insert :
    (up : ℕ → ℕ) (h c n : ℕ) (xs : List ℕ)
    → Chain up h xs
    → Distinct xs
    → has c xs ≡ true
    → has n xs ≡ false
    → n ≢ 0
    → Chain (put (put up n (up c)) c n) h (insert_after c n xs)
unfolding Chain Distinct has insert_after put
Chain-insert up h c n [] chain d in_c out nz = ground arith
Chain-insert up h c n (x ∷ xs) (at, x_nz, chain) (fresh, d) in_c out nz =
    elim (Bool-cases (x == c)) [
      | inl t ↦
          let is_c : x ≡ c = ground (arith, t) in
          let tail =
            Chain-put (put up n (up c)) (up x) c n xs (ground (arith, fresh, is_c))
              (Chain-put up (up x) n (up c) xs (ground (arith, out)) chain) in
          rw t (
            at,
            x_nz,
            (
              ground (arith, is_c),
              nz,
              subst (λ y. Chain (put (put up n (up c)) c n) y xs) (ground (arith, is_c, out)) tail,
            ),
          )
      | inr t ↦ rw t (
        at,
        x_nz,
        subst (λ y. Chain (put (put up n (up c)) c n) y (insert_after c n xs))
            (ground (arith, out, t))
            (Chain-insert up (up x) c n xs chain d (ground (arith, t)) (ground (arith, out)) nz),
      )
    ]

pub has-insert_after :
    (c n a : ℕ) (xs : List ℕ)
    → has c xs ≡ true
    → has a (insert_after c n xs) ≡ ((a == n) || has a xs)
unfolding has insert_after
has-insert_after c n a [] in_c = ground arith
has-insert_after c n a (x ∷ xs) in_c = ground (arith, has-insert_after c n a xs)

pub Distinct-insert_after :
    (c n : ℕ) (xs : List ℕ)
    → Distinct xs
    → has c xs ≡ true
    → has n xs ≡ false
    → Distinct (insert_after c n xs)
unfolding Distinct insert_after has
Distinct-insert_after c n [] d in_c out = tt
Distinct-insert_after c n (x ∷ xs) (fresh, d) in_c out = elim (Bool-cases (x == c)) [
  | inl t ↦ rw t (ground (arith, out, fresh), (ground (arith, out), d))
  | inr t ↦
      let more : has c xs ≡ true = ground (arith, t) in
      rw t (
        ground (arith, has-insert_after c n x xs more, out, fresh),
        Distinct-insert_after c n xs d more (ground (arith, out)),
      )
]

pub below-insert_after :
    (k c n : ℕ) (xs : List ℕ) → k ≤ n → below k (insert_after c n xs) ≡ below k xs
unfolding below insert_after
below-insert_after k c n [] h = refl
below-insert_after k c n (x ∷ xs) h = ground (arith, below-insert_after k c n xs h)

-- What the inner loop finds: an include class with the variables, and where to go on.
unfoldable pub Finds : Store → ℕ → List ℕ → ℕ → Bool × ℕ → Type 0
Finds s vars os c (true, found) =
    ((x : ℕ) × (has x os ≡ true) × (is_iclass (s.type x) ≡ true) × (s.vars x ≡ vars))
    × (((found == c) || has found os) ≡ true)
Finds s vars os c (false, same) = same ≡ c

Finds-more :
    (s : Store) (vars c x : ℕ) (os : List ℕ) (r : Bool × ℕ)
    → Finds s vars os c r
    → Finds s vars (x ∷ os) c r
unfolding Finds has
Finds-more s vars c x os (true, found) ((y, member, kind, table), place) =
    ((y, ground (arith, member), kind, table), ground (arith, place))
Finds-more s vars c x os (false, same) e = e

pub find_included-Finds :
    (fuel : ℕ) (s : Store) (vars i c : ℕ) (above : Bool) (os : List ℕ)
    → Chain s.superclass i os
    → length os ≤ fuel
    → (r : Bool × ℕ) × (find_included fuel s vars i c above ≡ some r) × Finds s vars os c r
unfolding find_included Finds Chain has
find_included-Finds zero s vars i c above [] at room = ((false, c), rw at refl, refl)
find_included-Finds zero s vars i c above (x ∷ os) chain room = absurd (omega arith)
find_included-Finds (suc fuel) s vars i c above [] at room = ((false, c), rw at refl, refl)
find_included-Finds (suc fuel) s vars i c above (x ∷ os) (at, nz, chain) room =
    let (r, run, found) =
      find_included-Finds fuel s vars (s.superclass i) c (above || is_class (s.type i)) os
        (subst (λ y. Chain s.superclass (s.superclass y) os) (sym at) chain) (omega arith) in
    let there : (i == 0) ≡ false = ground (arith, at, nz) in
    elim (Bool-cases (is_iclass (s.type i) && (s.vars i == vars))) [
      | inl t ↦ (
        (true, if above then c else i),
        rw (there, t) refl,
        (
          (
            x,
            ground arith,
            ap (λ y. is_iclass (s.type y)) (sym at) ∙ ground (arith, t),
            ap s.vars (sym at) ∙ ground (arith, t),
          ),
          ground (arith, at),
        ),
      )
      | inr t ↦ (r, rw (there, t) run, Finds-more s vars c x os r found)
    ]

unfoldable pub all_below : ℕ → List ℕ → Bool
all_below k [] = true
all_below k (x ∷ xs) = ltb x k && all_below k xs

-- No element of the first list is in the second.
unfoldable pub disjoint : List ℕ → List ℕ → Bool
disjoint [] ys = true
disjoint (x ∷ xs) ys = not (has x ys) && disjoint xs ys

pub all_below-more : (k l : ℕ) (xs : List ℕ) → k ≤ l → all_below k xs ≡ true → all_below l xs ≡ true
unfolding all_below
all_below-more k l [] h ok = refl
all_below-more k l (x ∷ xs) h ok = ground (arith, all_below-more k l xs h (ground (arith, ok)), ok)

pub all_below-insert_after :
    (k c n : ℕ) (xs : List ℕ)
    → n < k
    → all_below k xs ≡ true
    → all_below k (insert_after c n xs) ≡ true
unfolding all_below insert_after
all_below-insert_after k c n [] h ok = refl
all_below-insert_after k c n (x ∷ xs) h ok =
    ground (arith, all_below-insert_after k c n xs h (ground (arith, ok)), ok)

pub all_below-has : (k a : ℕ) (xs : List ℕ) → all_below k xs ≡ true → has a xs ≡ true → a < k
unfolding all_below has
all_below-has k a [] ok member = ground arith
all_below-has k a (x ∷ xs) ok member = elim (Bool-cases (x == a)) [
  | inl t ↦ ground (arith, ok, t)
  | inr t ↦ all_below-has k a xs (ground (arith, ok)) (ground (arith, member, t))
]

pub all_below-fresh : (k : ℕ) (xs : List ℕ) → all_below k xs ≡ true → has k xs ≡ false
unfolding all_below has
all_below-fresh k [] ok = refl
all_below-fresh k (x ∷ xs) ok = ground (arith, all_below-fresh k xs (ground (arith, ok)), ok)

pub below-all_below : (k : ℕ) (xs : List ℕ) → all_below k xs ≡ true → below k xs ≡ xs
unfolding all_below below
below-all_below k [] ok = refl
below-all_below k (x ∷ xs) ok = ground (arith, below-all_below k xs (ground (arith, ok)), ok)

pub disjoint-has :
    (c : ℕ) (xs ys : List ℕ) → disjoint xs ys ≡ true → has c ys ≡ true → has c xs ≡ false
unfolding disjoint has
disjoint-has c [] ys ok member = refl
disjoint-has c (x ∷ xs) ys ok member = elim (Bool-cases (x == c)) [
  | inl t ↦ let e : x ≡ c = ground (arith, t) in ground (arith, ok, member, e)
  | inr t ↦ ground (arith, disjoint-has c xs ys (ground (arith, ok)) member, t)
]

pub disjoint-insert_after :
    (c n : ℕ) (xs ys : List ℕ)
    → disjoint xs ys ≡ true
    → has c ys ≡ true
    → has n xs ≡ false
    → disjoint xs (insert_after c n ys) ≡ true
unfolding disjoint has
disjoint-insert_after c n [] ys ok member out = refl
disjoint-insert_after c n (x ∷ xs) ys ok member out =
    let rest = disjoint-insert_after c n xs ys (ground (arith, ok)) member (ground (arith, out)) in
    ground (arith, rest, has-insert_after c n x ys member, ok, out)
