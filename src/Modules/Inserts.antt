-- ===== src/Modules/Inserts.antt =====
-- A new include class in the chain of superclasses, where `include_module` puts it.
use mathlib.Core.Path.{subst}
use mirb.Prelude.Maps.{has}
use mirb.Prelude.Lists.{length}
use mirb.Prelude.Chains.{Chain, Distinct}
use mirb.Modules.{Store, is_iclass, insert_class}
use mirb.Modules.Chains.{
  insert_after, all_below, disjoint, Chain-insert, Distinct-insert_after, has-insert_after,
  all_below-insert_after, all_below-more, all_below-fresh, disjoint-insert_after, all_below-has,
}
use mirb.Modules.Stores.{
  insert_class-superclass, insert_class-next_object, insert_class-next_table, insert_class-type,
  insert_class-vars, insert_class-iclass, insert_class-new_vars, insert_class-has_vars,
  insert_class-tabled, insert_class-mirrors, tabled, mirrors, tabled-insert_after, origin-low,
  insert_class-origin,
}
use mirb.Prelude.{
  ℕ, ◌+◌, ◌≤◌, ◌<◌, ◌≡◌, ◌≢◌, sym, ◌∙◌, true, false, List, [], ◌∷◌, arith, ◌==◌, if◌then◌else◌,
}

-- The part of `insert_after` behind the head.
unfoldable pub insert_tail : ℕ → ℕ → ℕ → List ℕ → List ℕ
insert_tail c n x xs = if x == c then n ∷ xs else insert_after c n xs

pub insert_after-∷ :
    (c n x : ℕ) (xs : List ℕ) → insert_after c n (x ∷ xs) ≡ x ∷ insert_tail c n x xs
unfolding insert_after insert_tail
insert_after-∷ c n x xs = ground arith

pub length-insert_after : (c n : ℕ) (xs : List ℕ) → length (insert_after c n xs) ≤ length xs + 1
unfolding insert_after
length-insert_after c n [] = omega arith
length-insert_after c n (x ∷ xs) = ground (arith, length-insert_after c n xs)

-- The superclasses of a class, itself included, where an include class goes behind `c`, with the
-- modules that are not in them.
unfoldable pub Ready : Store → ℕ → ℕ → List ℕ → List ℕ → Type 0
Ready s target c os ms =
    Chain s.superclass target os
    × Distinct os
    × (has c os ≡ true)
    × (all_below s.next_object os ≡ true)
    × (all_below s.next_object ms ≡ true)
    × (disjoint ms os ≡ true)
    × (tabled s os ≡ true)
    × (mirrors s ms ≡ true)
    × (0 < s.next_table)

-- An include class of the list has the variables of the module.
unfoldable pub Included : Store → List ℕ → ℕ → Type 0
Included s os m =
    (x : ℕ) × (has x os ≡ true)
    × (is_iclass (s.type x) ≡ true)
    × (s.vars x ≡ s.vars m)
    × (s.vars x ≢ 0)

pub insert_class-Ready :
    (s : Store) (target c m : ℕ) (os ms : List ℕ)
    → Ready s target c os (m ∷ ms)
    → Ready (insert_class s c m).1 target s.next_object (insert_after c s.next_object os) ms
unfolding Ready all_below disjoint mirrors
insert_class-Ready s target c m os ms (chain, d, in_c, low, low_ms, apart, tables, mirror, next) =
    let n = s.next_object in
    let out : has n os ≡ false = all_below-fresh n os low in
    let low_rest : all_below n ms ≡ true = ground arith in
    let nz : n ≢ 0 = ground (arith, all_below-has n c os low in_c) in
    let more = insert_class-next_object s c m in
    (
      subst (λ up. Chain up target (insert_after c n os)) (sym (insert_class-superclass s c m))
          (Chain-insert s.superclass target c n os chain d in_c out nz),
      Distinct-insert_after c n os d in_c out,
      ground (arith, has-insert_after c n n os in_c),
      subst (λ k. all_below k (insert_after c n os) ≡ true) (sym more)
          (all_below-insert_after (n + 1) c n os (omega arith)
            (all_below-more n (n + 1) os (omega arith) low)),
      subst (λ k. all_below k ms ≡ true) (sym more)
          (all_below-more n (n + 1) ms (omega arith) low_rest),
      disjoint-insert_after c n ms os (ground arith) in_c (all_below-fresh n ms low_rest),
      tabled-insert_after (insert_class s c m).1 c n os (insert_class-tabled s c m os low tables)
          (insert_class-has_vars s c m next),
      insert_class-mirrors s c m ms low_rest (ground arith),
      ground (arith, insert_class-next_table s c m),
    )

pub insert_class-Included :
    (s : Store) (c obj m : ℕ) (os : List ℕ)
    → has c os ≡ true
    → all_below s.next_object os ≡ true
    → m < s.next_object
    → Included s os m
    → Included (insert_class s c obj).1 (insert_after c s.next_object os) m
unfolding Included
insert_class-Included s c obj m os in_c low low_m (x, member, kind, same, nz) =
    let low_x = all_below-has s.next_object x os low member in
    let kept = insert_class-vars s c obj x low_x nz in
    (
      x,
      ground (arith, has-insert_after c s.next_object x os in_c, member),
      rw (insert_class-type s c obj x low_x) kind,
      kept ∙ same ∙ sym (insert_class-vars s c obj m low_m (ground (arith, same, nz))),
      rw kept nz,
    )

pub insert_class-includes :
    (s : Store) (target c m : ℕ) (os ms : List ℕ)
    → Ready s target c os (m ∷ ms)
    → Included (insert_class s c m).1 (insert_after c s.next_object os) m
unfolding Ready Included all_below mirrors
insert_class-includes s target c m os ms
      (chain, d, in_c, low, low_ms, apart, tables, mirror, next) =
    let n = s.next_object in
    let low_m : m < n = ground arith in
    (
      n,
      ground (arith, has-insert_after c n n os in_c),
      insert_class-iclass s c m,
      insert_class-new_vars s c m (origin-low s m ms low_m mirror)
          ∙ insert_class-origin s c m ms low_m mirror,
      insert_class-has_vars s c m next,
    )
