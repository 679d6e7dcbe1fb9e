-- ===== src/Modules/Subclasses.antt =====
-- `subclass_of` and `real_class` (src/runtime.cpp) on a chain of superclasses.
use mathlib.Core.Path.{subst}
use mirb.Prelude.Maps.{has}
use mirb.Prelude.Lists.{length}
use mirb.Prelude.Chains.{Chain}
use mirb.Modules.{Store, is_real_class, real_class, subclass_from, subclass_of}
use mirb.Prelude.{
  ℕ, zero, suc, ◌≤◌, ◌<◌, ◌≡◌, ◌≢◌, refl, sym, inl, inr, ◌⊎◌, true, false, some, List, [], ◌∷◌,
  arith, ◌==◌, if◌then◌else◌, Bool-cases,
}

-- The classes of a list that a program sees.
unfoldable pub reals : Store → List ℕ → List ℕ
reals s [] = []
reals s (x ∷ xs) = if is_real_class s x then x ∷ reals s xs else reals s xs

-- What `real_class` finds in a chain: its first class that is seen, and the chain above it.
unfoldable First : Store → List ℕ → ℕ → Type 0
First s xs r =
    ((r ≡ 0) × (reals s xs ≡ []))
    ⊎ ((ys : List ℕ) × (r ≢ 0)
        × (reals s xs ≡ r ∷ reals s ys)
        × Chain s.superclass (s.superclass r) ys
        × (length ys < length xs))

First-more :
    (s : Store) (x : ℕ) (xs : List ℕ) (r : ℕ)
    → is_real_class s x ≡ false
    → First s xs r
    → First s (x ∷ xs) r
unfolding First reals
First-more s x xs r hidden (inl (z, empty)) = inl (z, rw hidden empty)
First-more s x xs r hidden (inr (ys, nz, e, chain, less)) =
    inr (ys, nz, rw hidden e, chain, omega arith)

real_class-First :
    (fuel : ℕ) (s : Store) (c : ℕ) (xs : List ℕ)
    → Chain s.superclass c xs
    → length xs ≤ fuel
    → (r : ℕ) × (real_class fuel s c ≡ some r) × First s xs r
unfolding real_class Chain reals First
real_class-First zero s c [] at room = (0, rw at refl, inl (refl, refl))
real_class-First zero s c (x ∷ xs) chain room = absurd (omega arith)
real_class-First (suc fuel) s c [] at room = (0, rw at refl, inl (refl, refl))
real_class-First (suc fuel) s c (x ∷ xs) (at, nz, chain) room =
    let (r, run, first) =
      real_class-First fuel s (s.superclass c) xs
        (subst (λ y. Chain s.superclass (s.superclass y) xs) (sym at) chain) (omega arith) in
    let there : (x == 0) ≡ false = ground (arith, nz) in
    elim (Bool-cases (is_real_class s x)) [
      | inl t ↦ (x, rw (at, there, t) refl, inr (xs, nz, rw t refl, chain, omega arith))
      | inr t ↦ (
        r,
        rw (at, there, t) (subst (λ y. real_class fuel s (s.superclass y) ≡ some r) at run),
        First-more s x xs r t first,
      )
    ]

reals-[] : (s : Store) → reals s [] ≡ []
unfolding reals
reals-[] s = refl

First-split :
    (s : Store) (xs : List ℕ) (r : ℕ)
    → First s xs r
    → ((r ≡ 0) × (reals s xs ≡ []))
      ⊎ ((ys : List ℕ) × ((r == 0) ≡ false)
          × (reals s xs ≡ r ∷ reals s ys)
          × Chain s.superclass (s.superclass r) ys
          × (length ys < length xs))
unfolding First
First-split s xs r (inl e) = inl e
First-split s xs r (inr (ys, nz, e, chain, less)) = inr (ys, ground (arith, nz), e, chain, less)

has-first : (a r : ℕ) (ys : List ℕ) → has a (r ∷ ys) ≡ (if r == a then true else has a ys)
unfolding has
has-first a r ys = ground arith

subclass_from-reals :
    (depth fuel : ℕ) (s : Store) (super c : ℕ) (xs : List ℕ)
    → Chain s.superclass c xs
    → length xs ≤ fuel
    → fuel ≤ depth
    → subclass_from depth fuel s super c ≡ some (has super (reals s xs))
unfolding subclass_from Chain has mathlib.Core.Option.bind
subclass_from-reals depth zero s super c [] at room deep = rw (at, reals-[] s) refl
subclass_from-reals depth zero s super c (x ∷ xs) chain room deep = absurd (omega arith)
subclass_from-reals depth (suc fuel) s super c [] at room deep = rw (at, reals-[] s) refl
subclass_from-reals depth (suc fuel) s super c (x ∷ xs) (at, nz, chain) room deep =
    let (r, run, first) = real_class-First depth s c (x ∷ xs) (at, nz, chain) (omega arith) in
    let there : (c == 0) ≡ false = ground (arith, at, nz) in
    elim (First-split s (x ∷ xs) r first) [
      | inl (z, e) ↦ rw (there, run, e, z) refl
      | inr (ys, live, e, above, less) ↦
          let rest =
            subclass_from-reals depth fuel s super (s.superclass r) ys above (omega arith)
              (omega arith) in
          rw (there, run, e, live, rest) (ground arith)
    ]

-- With rounds for the chain of superclasses that begins with `c`, `subclass_of` ends, and answers
-- whether `super` is one of the classes in the chain that are neither singletons nor include
-- classes.
pub subclass_of-reals :
    (fuel : ℕ) (s : Store) (super c : ℕ) (xs : List ℕ)
    → Chain s.superclass c xs
    → length xs ≤ fuel
    → subclass_of fuel s super c ≡ some (has super (reals s xs))
unfolding subclass_of
subclass_of-reals fuel s super c xs chain room =
    subclass_from-reals fuel fuel s super c xs chain room (omega arith)
