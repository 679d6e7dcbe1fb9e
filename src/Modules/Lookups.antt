-- ===== src/Modules/Lookups.antt =====
-- `lookup_module` and `lookup_module_method` (src/runtime.cpp) on a chain of superclasses.
use mathlib.Core.Path.{subst}
use mirb.ValueMap.{value_undef}
use mirb.Prelude.Maps.{put}
use mirb.Prelude.Lists.{length}
use mirb.Prelude.Chains.{Chain}
use mirb.Modules.{
  Store, get_methods, get_method, lookup_module, lookup_module_method, found_method, is_module,
}
use mirb.Prelude.{
  ℕ, zero, suc, ◌≤◌, ◌<◌, ◌≡◌, refl, sym, ap, ◌∙◌, inl, inr, false, ◌&&◌, Option, none, some, List,
  [], ◌∷◌, not, arith, ◌==◌, if◌then◌else◌, Bool-cases,
}

module _ (contents : ℕ → ℕ → ℕ) where
  -- What a module says of a name, without the table being made.
  unfoldable pub entry : Store → ℕ → ℕ → ℕ
  entry s name x = if s.methods x == 0 then 0 else contents (s.methods x) name

  -- The first entry of the modules for a name, where `undef` hides the later ones.
  unfoldable pub first_method : Store → ℕ → List ℕ → ℕ
  first_method s name [] = 0
  first_method s name (x ∷ xs) =
      if entry s name x == 0
      then first_method s name xs
      else if entry s name x == value_undef
      then 0
      else entry s name x

  -- The tables that are not made yet are empty.
  unfoldable pub Fresh : Store → ℕ → Type 0
  Fresh s name = (0 < s.next_table) × ((table : ℕ) → s.next_table ≤ table → contents table name ≡ 0)

  get_method-entry :
      (s : Store) (obj name : ℕ)
      → Fresh s name
      → (get_method contents s obj name).0 ≡ entry s name obj
  unfolding get_method get_methods entry Fresh
  get_method-entry s obj name (live, fresh) = ground (arith, fresh s.next_table (omega arith))

  get_method-keeps :
      (s : Store) (obj name x : ℕ)
      → Fresh s name
      → entry (get_method contents s obj name).1 name x ≡ entry s name x
  unfolding get_method get_methods entry Fresh put
  get_method-keeps s obj name x (live, fresh) = elim (Bool-cases (obj == x)) [
    | inl t ↦
        let e : obj ≡ x = ground (arith, t) in
        let empty = fresh s.next_table (omega arith) in rw e (ground (arith, empty))
    | inr t ↦ ground (arith, t)
  ]

  get_method-superclass :
      (s : Store) (obj name : ℕ) → (get_method contents s obj name).1.superclass ≡ s.superclass
  unfolding get_method get_methods
  get_method-superclass s obj name = ground arith

  get_method-type : (s : Store) (obj name : ℕ) → (get_method contents s obj name).1.type ≡ s.type
  unfolding get_method get_methods
  get_method-type s obj name = ground arith

  get_method-next_table :
      (s : Store) (obj name : ℕ) → s.next_table ≤ (get_method contents s obj name).1.next_table
  unfolding get_method get_methods
  get_method-next_table s obj name = ground arith

  get_method-Fresh :
      (s : Store) (obj name : ℕ) → Fresh s name → Fresh (get_method contents s obj name).1 name
  unfolding Fresh
  get_method-Fresh s obj name (live, fresh) =
      let more = get_method-next_table s obj name in
      (omega arith, λ table above. fresh table (omega arith))

  first_method-same :
      (s t : Store) (name : ℕ) (xs : List ℕ)
      → ((x : ℕ) → entry t name x ≡ entry s name x)
      → first_method t name xs ≡ first_method s name xs
  unfolding first_method
  first_method-same s t name [] same = refl
  first_method-same s t name (x ∷ xs) same = rw (same x, first_method-same s t name xs same) refl

  -- The lookup gives `result`, and changes no superclass, type or entry.
  unfoldable pub FindsMethod : Store → ℕ → Option (ℕ × Store) → ℕ → Type 0
  FindsMethod s name run result =
      (t : Store) × (run ≡ some (result, t))
      × (t.superclass ≡ s.superclass)
      × (t.type ≡ s.type)
      × Fresh t name
      × ((x : ℕ) → entry t name x ≡ entry s name x)

  FindsMethod-next :
      (s : Store) (obj name result : ℕ) (run : Option (ℕ × Store))
      → Fresh s name
      → FindsMethod (get_method contents s obj name).1 name run result
      → FindsMethod s name run result
  unfolding FindsMethod
  FindsMethod-next s obj name result run fresh (t, e, up, kind, more, same) = (
    t,
    e,
    up ∙ get_method-superclass s obj name,
    kind ∙ get_method-type s obj name,
    more,
    λ x. same x ∙ get_method-keeps s obj name x fresh,
  )

  FindsMethod-as :
      (s : Store) (name : ℕ) (run : Option (ℕ × Store)) (a b : ℕ)
      → a ≡ b
      → FindsMethod s name run a
      → FindsMethod s name run b
  FindsMethod-as s name run a b e = subst (λ r. FindsMethod s name run r) e

  FindsMethod-last :
      (s : Store) (name : ℕ)
      → Fresh s name
      → FindsMethod s name (some (0, s)) (first_method s name [])
  unfolding FindsMethod first_method
  FindsMethod-last s name fresh = (s, refl, refl, refl, fresh, λ x. refl)

  FindsMethod-step :
      (s : Store) (x name : ℕ) (xs : List ℕ) (rest : Option (ℕ × Store))
      → Fresh s name
      → FindsMethod s name rest (first_method s name xs)
      → let (result, s1) = get_method contents s x name in
        FindsMethod s name
          (if result == 0 then rest else some (if result == value_undef then 0 else result, s1))
          (first_method s name (x ∷ xs))
  unfolding FindsMethod first_method
  FindsMethod-step s x name xs rest fresh found =
      rw (get_method-entry s x name fresh) (elim (Bool-cases (entry s name x == 0)) [
        | inl t ↦ rw t found
        | inr t ↦ rw t (
          (get_method contents s x name).1,
          refl,
          get_method-superclass s x name,
          get_method-type s x name,
          get_method-Fresh s x name fresh,
          λ y. get_method-keeps s x name y fresh,
        )
      ])

  -- The rest of the chain, after the table of a module was made.
  Chain-next :
      (s : Store) (obj x name : ℕ) (xs : List ℕ)
      → obj ≡ x
      → Chain s.superclass (s.superclass x) xs
      → Chain
          (get_method contents s obj name).1.superclass
          ((get_method contents s obj name).1.superclass obj)
          xs
  Chain-next s obj x name xs at chain =
      rw (get_method-superclass s obj name)
        (subst (λ y. Chain s.superclass (s.superclass y) xs) (sym at) chain)

  lookup_module-FindsMethod :
      (fuel : ℕ) (s : Store) (obj name : ℕ) (xs : List ℕ)
      → Chain s.superclass obj xs
      → length xs ≤ fuel
      → Fresh s name
      → FindsMethod s name (lookup_module contents fuel s obj name) (first_method s name xs)
  unfolding lookup_module Chain
  lookup_module-FindsMethod zero s obj name [] at room fresh = rw at (FindsMethod-last s name fresh)
  lookup_module-FindsMethod zero s obj name (x ∷ xs) chain room fresh = absurd (omega arith)
  lookup_module-FindsMethod (suc fuel) s obj name [] at room fresh =
      rw at (FindsMethod-last s name fresh)
  lookup_module-FindsMethod (suc fuel) s obj name (x ∷ xs) (at, nz, chain) room fresh =
      let there : (obj == 0) ≡ false = ground (arith, at, nz) in
      let s1 : Store = (get_method contents s obj name).1 in
      let rest =
        lookup_module-FindsMethod fuel s1 (s1.superclass obj) name xs
          (Chain-next s obj x name xs at chain) (omega arith) (get_method-Fresh s obj name fresh) in
      let same = first_method-same s s1 name xs (λ y. get_method-keeps s obj name y fresh) in
      rw there (
        FindsMethod-as s name _ (first_method s name (obj ∷ xs)) (first_method s name (x ∷ xs))
          (ap (λ y. first_method s name (y ∷ xs)) at)
          (FindsMethod-step s obj name xs _ fresh (
            FindsMethod-as s name _ (first_method s1 name xs) (first_method s name xs) same
              (FindsMethod-next s obj name _ _ fresh rest))))

  -- With rounds for the two chains and empty tables for those that are to be made,
  -- `lookup_module_method` ends with the method that the chain of the module has first for the name,
  -- where an `undef` hides the later ones. Without it, it gives for a module, but not for a class,
  -- what the chain of `Object` has first, and otherwise it raises. Superclasses stay as they are.
  pub lookup_module_method-first :
      (fuel : ℕ) (s : Store) (object_class obj name : ℕ) (os xs : List ℕ)
      → Chain s.superclass obj xs
      → Chain s.superclass object_class os
      → length xs ≤ fuel
      → length os ≤ fuel
      → Fresh s name
      → (t : Store) × (lookup_module_method contents fuel s object_class obj name
          ≡ some (
            (if first_method s name xs == 0
                then (if is_module (s.type obj) && not (first_method s name os == 0)
                    then some (first_method s name os)
                    else none)
                else some (first_method s name xs)),
            t,
          ))
        × (t.superclass ≡ s.superclass)
  unfolding lookup_module_method found_method FindsMethod mathlib.Core.Option.bind
  lookup_module_method-first fuel s object_class obj name os xs chain others room deep fresh =
      let (t, run, up, kind, more, same) =
        lookup_module-FindsMethod fuel s obj name xs chain room fresh in
      let (u, run2, up2, kind2, more2, same2) =
        lookup_module-FindsMethod fuel t object_class name os
          (subst (λ f. Chain f object_class os) (sym up) others) deep more in
      let as_before = first_method-same s t name os same in
      elim (Bool-cases ((first_method s name xs == 0) && is_module (s.type obj))) [
        | inl h ↦ (u, rw (run, kind, h, run2, as_before) (ground (arith, h)), up2 ∙ up)
        | inr h ↦ (t, rw (run, kind, h) (ground (arith, h)), up)
      ]
