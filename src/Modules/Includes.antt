-- ===== src/Modules/Includes.antt =====
-- `include_module` (src/runtime.cpp): it ends, the superclasses keep their order, and each module of
-- the chain has an include class among them.
use mathlib.Core.Path.{subst}
use mirb.Prelude.Maps.{has}
use mirb.Prelude.Lists.{length}
use mirb.Prelude.Chains.{Chain, Distinct}
use mirb.Modules.{Store, include_one, include_from, include_module, find_included}
use mirb.Modules.Chains.{
  below, all_below, disjoint, Finds, find_included-Finds, below-all_below, all_below-has,
}
use mirb.Modules.Inserts.{Ready, Included}
use mirb.Modules.Rounds.{
  grown, include_one-Ready, include_one-includes, include_one-Included, length-grown, below-grown,
  include_one-next_object, include_one-superclass, include_one-Chain, has-grown,
}
use mirb.Prelude.{
  ℕ, zero, suc, ◌+◌, ◌≤◌, ◌<◌, ◌≡◌, refl, sym, ◌∙◌, inl, inr, ◌⊎◌, Bool, true, false, Option, some,
  List, [], ◌∷◌, arith, ◌==◌, Bool-cases,
}

-- What a run of the loop gives: its superclasses `new`, of those from before the run the list `old`
-- in its order, the module `m` included, and `a` with the superclass that it had.
unfoldable pub Ends : Store → Option Store → ℕ → ℕ → List ℕ → ℕ → ℕ → Type 0
Ends s run target k old m a =
    (t : Store) × (new : List ℕ) × (run ≡ some t)
    × Chain t.superclass target (target ∷ new)
    × Distinct (target ∷ new)
    × (below k new ≡ below k old)
    × Included t (target ∷ new) m
    × (t.superclass a ≡ s.superclass a)

-- No rounds are left to do.
Ends-last :
    (s : Store) (target c m a k : ℕ) (os : List ℕ)
    → Ready s target c (target ∷ os) []
    → Included s (target ∷ os) m ⊎ (has m [] ≡ true)
    → Ends s (some s) target k os m a
unfolding Ends Ready has
Ends-last s target c m a k os (chain, d, in_c, low, low_ms, apart, tables, mirror, next) (inl inc) =
    (s, os, refl, chain, d, refl, inc, refl)
Ends-last s target c m a k os ready (inr member) = ground arith

Ends-next :
    (s t : Store) (run : Option Store) (target k : ℕ) (os more : List ℕ) (m a : ℕ)
    → below k more ≡ below k os
    → t.superclass a ≡ s.superclass a
    → Ends t run target k more m a
    → Ends s run target k os m a
unfolding Ends
Ends-next s t run target k os more m a kept same (u, new, ran, chain, d, order, inc, up) =
    (u, new, ran, chain, d, order ∙ kept, inc, up ∙ same)

-- The loop with modules left, `m` included or among them, and `a` outside the superclasses.
unfoldable Loops : Store → ℕ → ℕ → ℕ → List ℕ → List ℕ → ℕ → ℕ → Type 0
Loops s target c obj os ms m a =
    Ready s target c (target ∷ os) ms
    × Chain s.superclass obj ms
    × (Included s (target ∷ os) m ⊎ (has m ms ≡ true))
    × (m < s.next_object)
    × (has a (target ∷ os) ≡ false)
    × (a < s.next_object)

Included-next :
    (s : Store) (target c obj m : ℕ) (os ms : List ℕ) (r : Bool × ℕ)
    → Ready s target c (target ∷ os) (obj ∷ ms)
    → Finds s (s.vars obj) os c r
    → m < s.next_object
    → Included s (target ∷ os) m ⊎ (has m (obj ∷ ms) ≡ true)
    → Included (include_one s c obj r).1 (target ∷ grown s target os r) m ⊎ (has m ms ≡ true)
unfolding Ready has
Included-next s target c obj m os ms r (chain, d, in_c, low, low_ms, rest1, rest2, rest3, rest4)
      finds low_m (inl inc) =
    inl (include_one-Included s target c obj m os r in_c low low_m finds inc)
Included-next s target c obj m os ms r ready finds low_m (inr member) =
    elim (Bool-cases (obj == m)) [
      | inl t ↦
          let e : obj ≡ m = ground (arith, t) in
          inl (
            subst (λ y. Included (include_one s c obj r).1 (target ∷ grown s target os r) y) e
              (include_one-includes s target c obj os ms r ready finds))
      | inr t ↦ inr (ground (arith, member, t))
    ]

include_one-Loops :
    (s : Store) (target c obj m a : ℕ) (os ms : List ℕ) (r : Bool × ℕ)
    → Loops s target c obj os (obj ∷ ms) m a
    → Finds s (s.vars obj) os c r
    → Loops
        (include_one s c obj r).1
        target
        (include_one s c obj r).0
        ((include_one s c obj r).1.superclass obj)
        (grown s target os r)
        ms
        m
        a
unfolding Loops Ready Chain all_below disjoint
include_one-Loops s target c obj m a os ms r (ready, (at, nz, links), inc, low_m, out, low_a)
      finds =
    let (chain, d, in_c, low, low_ms, apart, tables, mirror, next) = ready in
    let more = include_one-next_object s c obj r in
    let same =
      include_one-superclass s target c obj obj os r in_c finds (ground (arith, apart))
        (ground (arith, low_ms)) in
    (
      include_one-Ready s target c obj os ms r ready finds,
      subst (λ h. Chain (include_one s c obj r).1.superclass h ms) (sym same)
          (include_one-Chain s target c obj (s.superclass obj) os ms r in_c finds
            (ground (arith, low_ms)) (ground (arith, apart)) links),
      Included-next s target c obj m os ms r ready finds low_m inc,
      omega (arith),
      has-grown s target c obj a os r in_c finds out low_a,
      omega (arith),
    )

include_one-same :
    (s : Store) (target c obj m a : ℕ) (os ms : List ℕ) (r : Bool × ℕ)
    → Loops s target c obj os (obj ∷ ms) m a
    → Finds s (s.vars obj) os c r
    → (include_one s c obj r).1.superclass a ≡ s.superclass a
unfolding Loops Ready
include_one-same s target c obj m a os ms r
      ((chain, d, in_c, low, low_ms, apart, tables, mirror, next), links, inc, low_m, out, low_a)
      finds =
    include_one-superclass s target c obj a os r in_c finds out low_a

Loops-start :
    (s : Store) (target c obj x m a : ℕ) (os ms : List ℕ)
    → Loops s target c obj os (x ∷ ms) m a
    → Loops s target c obj os (obj ∷ ms) m a × ((obj == 0) ≡ false)
unfolding Loops Chain
Loops-start s target c obj x m a os ms loop =
    let (ready, (at, nz, links), inc, low_m, out, low_a) = loop in
    (subst (λ y. Loops s target c obj os (y ∷ ms) m a) (sym at) loop, ground (arith, at, nz))

Loops-last :
    (s : Store) (target c obj m a k : ℕ) (os : List ℕ)
    → Loops s target c obj os [] m a
    → (obj ≡ 0) × Ends s (some s) target k os m a
unfolding Loops Chain
Loops-last s target c obj m a k os (ready, at, inc, low_m, out, low_a) =
    (at, Ends-last s target c m a k os ready inc)

Loops-Finds :
    (s : Store) (target c obj m a depth : ℕ) (os ms : List ℕ)
    → Loops s target c obj os (obj ∷ ms) m a
    → length os ≤ depth
    → (r : Bool × ℕ) × (find_included depth s (s.vars obj) (s.superclass target) c false ≡ some r)
      × Finds s (s.vars obj) os c r
unfolding Loops Ready Chain
Loops-Finds s target c obj m a depth os ms
      (
        ((at, nz, chain), d, in_c, low, low_ms, apart, tables, mirror, next),
        links,
        inc,
        low_m,
        out,
        low_a,
      )
      room =
    find_included-Finds depth s (s.vars obj) (s.superclass target) c false os chain room

include_from-Ends :
    (depth fuel : ℕ) (s : Store) (target c obj m a k : ℕ) (os ms : List ℕ)
    → Loops s target c obj os ms m a
    → length ms ≤ fuel
    → length os + length ms ≤ depth
    → k ≤ s.next_object
    → Ends s (include_from depth fuel target s c obj) target k os m a
unfolding include_from mathlib.Core.Option.bind
include_from-Ends depth zero s target c obj m a k os [] loop room deep low =
    let (at, done) = Loops-last s target c obj m a k os loop in rw at done
include_from-Ends depth zero s target c obj m a k os (x ∷ ms) loop room deep low =
    absurd (omega arith)
include_from-Ends depth (suc fuel) s target c obj m a k os [] loop room deep low =
    let (at, done) = Loops-last s target c obj m a k os loop in rw at done
include_from-Ends depth (suc fuel) s target c obj m a k os (x ∷ ms) loop room deep low =
    let (here, there) = Loops-start s target c obj x m a os ms loop in
    let (r, run, finds) = Loops-Finds s target c obj m a depth os ms here (omega arith) in
    let longer = length-grown s target os r in
    let more = include_one-next_object s c obj r in
    rw (there, run)
      (Ends-next s (include_one s c obj r).1 _ target k os (grown s target os r) m a
        (below-grown k s target os r low) (include_one-same s target c obj m a os ms r here finds)
        (include_from-Ends depth fuel (include_one s c obj r).1 target (include_one s c obj r).0
          ((include_one s c obj r).1.superclass obj) m a k (grown s target os r) ms
          (include_one-Loops s target c obj m a os ms r here finds) (omega arith) (omega arith)
          (omega arith)))

-- With rounds for the superclasses of the class and for the modules, the loop of `include_module`
-- ends. In the chain that then begins with the class, no address is there twice; the superclasses
-- from before are its addresses that are not new, in the order that they had; and a module `m` of
-- the included chain has an include class with its variables. An address `a` outside the chain from
-- before keeps its superclass.
-- `Ready` asks that the superclasses of the class and the included modules are distinct addresses in
-- use, none in both, and that an include class among them has a table of variables, in the included
-- modules the table of its original module.
pub include_module-Includes :
    (fuel : ℕ) (s : Store) (target obj m a : ℕ) (os ms : List ℕ)
    → Ready s target target (target ∷ os) ms
    → Chain s.superclass obj ms
    → length os + length ms ≤ fuel
    → has m ms ≡ true
    → has a (target ∷ os) ≡ false
    → a < s.next_object
    → (t : Store) × (new : List ℕ) × (include_module fuel s target obj ≡ some t)
      × Chain t.superclass target (target ∷ new)
      × Distinct (target ∷ new)
      × (below s.next_object new ≡ os)
      × Included t (target ∷ new) m
      × (t.superclass a ≡ s.superclass a)
unfolding include_module Ends Loops Ready all_below
include_module-Includes fuel s target obj m a os ms ready links room member out low_a =
    let (chain, d, in_c, low, low_ms, apart, tables, mirror, next) = ready in
    let low_m = all_below-has s.next_object m ms low_ms member in
    let (t, new, run, chain1, d1, order, inc, same) =
      include_from-Ends fuel fuel s target target obj m a s.next_object os ms
        (ready, links, inr member, low_m, out, low_a) (omega arith) room (omega arith) in
    (t, new, run, chain1, d1, order ∙ below-all_below s.next_object os (ground arith), inc, same)
