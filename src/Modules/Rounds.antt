-- ===== src/Modules/Rounds.antt =====
-- One round of `include_module` (src/runtime.cpp).
use mathlib.Core.Path.{subst}
use mirb.Prelude.Maps.{put, has}
use mirb.Prelude.Lists.{length}
use mirb.Prelude.Chains.{Chain, Chain-put}
use mirb.Modules.{Store, is_iclass, include_one}
use mirb.Modules.Chains.{
  below, all_below, disjoint, Finds, has-insert_after, all_below-fresh, disjoint-has,
  below-insert_after,
}
use mirb.Modules.Stores.{
  insert_class-new, insert_class-superclass, insert_class-next_object, tabled, mirrors,
}
use mirb.Prelude.{
  ℕ, ◌+◌, ◌≤◌, ◌<◌, ◌≡◌, ◌≢◌, refl, sym, inl, inr, Bool, true, false, ◌||◌, List, [], ◌∷◌, arith,
  ◌==◌, Bool-cases,
}
use mirb.Modules.Inserts.{
  Ready, Included, insert_tail, insert_after-∷, length-insert_after, insert_class-Ready,
  insert_class-Included, insert_class-includes,
}

-- The superclasses below the class after a round of the loop.
unfoldable pub grown : Store → ℕ → List ℕ → Bool × ℕ → List ℕ
grown s target os (true, found) = os
grown s target os (false, same) = insert_tail same s.next_object target os

Ready-found :
    (s : Store) (target c m found : ℕ) (os ms : List ℕ)
    → Ready s target c (target ∷ os) (m ∷ ms)
    → ((found == c) || has found os) ≡ true
    → Ready s target found (target ∷ os) ms
unfolding Ready all_below disjoint mirrors has
Ready-found s target c m found os ms (chain, d, in_c, low, low_ms, apart, tables, mirror, next)
      place =
    (
      chain,
      d,
      elim (Bool-cases (found == c)) [
        | inl t ↦
            let e : c ≡ found = ground (arith, t) in subst (λ x. has x (target ∷ os) ≡ true) e in_c
        | inr t ↦ ground (arith, place, t)
      ],
      low,
      ground (arith, low_ms),
      ground (arith, apart),
      tables,
      ground (arith, mirror),
      next,
    )

pub include_one-Ready :
    (s : Store) (target c m : ℕ) (os ms : List ℕ) (r : Bool × ℕ)
    → Ready s target c (target ∷ os) (m ∷ ms)
    → Finds s (s.vars m) os c r
    → Ready (include_one s c m r).1 target (include_one s c m r).0 (target ∷ grown s target os r) ms
unfolding include_one grown Finds
include_one-Ready s target c m os ms (true, found) ready (x, place) =
    Ready-found s target c m found os ms ready place
include_one-Ready s target c m os ms (false, same) ready e =
    rw (e, insert_class-new s c m, sym (insert_after-∷ c s.next_object target os))
      (insert_class-Ready s target c m (target ∷ os) ms ready)

tabled-has :
    (s : Store) (x : ℕ) (os : List ℕ)
    → tabled s os ≡ true
    → has x os ≡ true
    → is_iclass (s.type x) ≡ true
    → s.vars x ≢ 0
unfolding tabled has
tabled-has s x [] ok member kind = ground arith
tabled-has s x (y ∷ ys) ok member kind = elim (Bool-cases (y == x)) [
  | inl t ↦
      let e : y ≡ x = ground (arith, t) in
      ground (arith, subst (λ z. tabled s (z ∷ ys) ≡ true) e ok, kind)
  | inr t ↦ tabled-has s x ys (ground (arith, ok)) (ground (arith, member, t)) kind
]

Finds-same :
    (s : Store) (vars : ℕ) (os : List ℕ) (c same : ℕ) → Finds s vars os c (false, same) → same ≡ c
unfolding Finds
Finds-same s vars os c same e = e

Included-found :
    (s : Store) (target c m found : ℕ) (os ms : List ℕ)
    → Ready s target c (target ∷ os) (m ∷ ms)
    → Finds s (s.vars m) os c (true, found)
    → Included s (target ∷ os) m
unfolding Finds Included Ready has
Included-found s target c m found os ms (chain, d, in_c, low, low_ms, apart, tables, mirror, next)
      ((x, member, kind, same), place) =
    let there : has x (target ∷ os) ≡ true = ground (arith, member) in
    (x, there, kind, same, tabled-has s x (target ∷ os) tables there kind)

-- After its round the module is included.
pub include_one-includes :
    (s : Store) (target c m : ℕ) (os ms : List ℕ) (r : Bool × ℕ)
    → Ready s target c (target ∷ os) (m ∷ ms)
    → Finds s (s.vars m) os c r
    → Included (include_one s c m r).1 (target ∷ grown s target os r) m
unfolding include_one grown
include_one-includes s target c m os ms (true, found) ready finds =
    Included-found s target c m found os ms ready finds
include_one-includes s target c m os ms (false, same) ready finds =
    rw (Finds-same s (s.vars m) os c same finds, sym (insert_after-∷ c s.next_object target os))
      (insert_class-includes s target c m (target ∷ os) ms ready)

-- A module that is included stays so.
pub include_one-Included :
    (s : Store) (target c obj m : ℕ) (os : List ℕ) (r : Bool × ℕ)
    → has c (target ∷ os) ≡ true
    → all_below s.next_object (target ∷ os) ≡ true
    → m < s.next_object
    → Finds s (s.vars obj) os c r
    → Included s (target ∷ os) m
    → Included (include_one s c obj r).1 (target ∷ grown s target os r) m
unfolding include_one grown Finds
include_one-Included s target c obj m os (true, found) in_c low low_m place inc = inc
include_one-Included s target c obj m os (false, same) in_c low low_m e inc =
    rw (e, sym (insert_after-∷ c s.next_object target os))
      (insert_class-Included s c obj m (target ∷ os) in_c low low_m inc)

pub length-grown :
    (s : Store) (target : ℕ) (os : List ℕ) (r : Bool × ℕ)
    → length (grown s target os r) ≤ length os + 1
unfolding grown insert_tail
length-grown s target os (true, found) = omega arith
length-grown s target os (false, same) = ground (arith, length-insert_after same s.next_object os)

pub below-grown :
    (k : ℕ) (s : Store) (target : ℕ) (os : List ℕ) (r : Bool × ℕ)
    → k ≤ s.next_object
    → below k (grown s target os r) ≡ below k os
unfolding grown insert_tail below
below-grown k s target os (true, found) h = refl
below-grown k s target os (false, same) h =
    ground (arith, below-insert_after k same s.next_object os h)

pub include_one-next_object :
    (s : Store) (c obj : ℕ) (r : Bool × ℕ) → s.next_object ≤ (include_one s c obj r).1.next_object
unfolding include_one
include_one-next_object s c obj (true, found) = omega arith
include_one-next_object s c obj (false, same) = ground (arith, insert_class-next_object s same obj)

has-apart : (c a : ℕ) (xs : List ℕ) → has c xs ≡ true → has a xs ≡ false → c ≢ a
has-apart c a xs in_c out e = ground (arith, subst (λ x. has x xs ≡ true) e in_c, out)

put-outside :
    (up : ℕ → ℕ) (n c a : ℕ) (xs : List ℕ)
    → has c xs ≡ true
    → has a xs ≡ false
    → a < n
    → put (put up n (up c)) c n a ≡ up a
unfolding put
put-outside up n c a xs in_c out low = ground (arith, has-apart c a xs in_c out)

-- An address outside the chain keeps its superclass.
pub include_one-superclass :
    (s : Store) (target c obj a : ℕ) (os : List ℕ) (r : Bool × ℕ)
    → has c (target ∷ os) ≡ true
    → Finds s (s.vars obj) os c r
    → has a (target ∷ os) ≡ false
    → a < s.next_object
    → (include_one s c obj r).1.superclass a ≡ s.superclass a
unfolding include_one Finds
include_one-superclass s target c obj a os (true, found) in_c place out low = refl
include_one-superclass s target c obj a os (false, same) in_c e out low =
    rw (e, insert_class-superclass s c obj)
      (put-outside s.superclass s.next_object c a (target ∷ os) in_c out low)

-- So does the rest of the modules.
pub include_one-Chain :
    (s : Store) (target c obj h : ℕ) (os ms : List ℕ) (r : Bool × ℕ)
    → has c (target ∷ os) ≡ true
    → Finds s (s.vars obj) os c r
    → all_below s.next_object ms ≡ true
    → disjoint ms (target ∷ os) ≡ true
    → Chain s.superclass h ms
    → Chain (include_one s c obj r).1.superclass h ms
unfolding include_one Finds
include_one-Chain s target c obj h os ms (true, found) in_c place low apart chain = chain
include_one-Chain s target c obj h os ms (false, same) in_c e low apart chain =
    rw (e, insert_class-superclass s c obj)
      (Chain-put (put s.superclass s.next_object (s.superclass c)) h c s.next_object ms
        (disjoint-has c ms (target ∷ os) apart in_c)
        (Chain-put s.superclass h s.next_object (s.superclass c) ms
          (all_below-fresh s.next_object ms low) chain))

pub has-grown :
    (s : Store) (target c obj a : ℕ) (os : List ℕ) (r : Bool × ℕ)
    → has c (target ∷ os) ≡ true
    → Finds s (s.vars obj) os c r
    → has a (target ∷ os) ≡ false
    → a < s.next_object
    → has a (target ∷ grown s target os r) ≡ false
unfolding grown Finds
has-grown s target c obj a os (true, found) in_c place out low = out
has-grown s target c obj a os (false, same) in_c e out low =
    rw (e, sym (insert_after-∷ c s.next_object target os))
      (ground (arith, has-insert_after c s.next_object a (target ∷ os) in_c, out))
