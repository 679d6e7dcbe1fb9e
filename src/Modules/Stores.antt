-- ===== src/Modules/Stores.antt =====
-- What the operations of a `Store` change of it.
use mirb.Prelude.Maps.{put}
use mirb.Modules.{
  Store, is_iclass, get_vars, get_methods, origin, create_include_class, insert_class,
}
use mirb.Modules.Chains.{insert_after, all_below}
use mirb.Prelude.{
  ℕ, ◌+◌, ◌≤◌, ◌<◌, ◌≡◌, ◌≢◌, refl, inl, inr, Bool, true, ◌&&◌, ◌||◌, arith, List, [], ◌∷◌, not,
  ◌==◌, ltb, Bool-cases,
}

pub insert_class-new : (s : Store) (c obj : ℕ) → (insert_class s c obj).0 ≡ s.next_object
unfolding insert_class create_include_class get_methods get_vars
insert_class-new s c obj = ground arith

pub insert_class-superclass :
    (s : Store) (c obj : ℕ)
    → (insert_class s c obj).1.superclass
      ≡ put (put s.superclass s.next_object (s.superclass c)) c s.next_object
unfolding insert_class create_include_class get_methods get_vars
insert_class-superclass s c obj = ground arith

pub insert_class-next_object :
    (s : Store) (c obj : ℕ) → (insert_class s c obj).1.next_object ≡ s.next_object + 1
unfolding insert_class create_include_class get_methods get_vars
insert_class-next_object s c obj = ground arith

pub insert_class-next_table :
    (s : Store) (c obj : ℕ) → s.next_table ≤ (insert_class s c obj).1.next_table
unfolding insert_class create_include_class get_methods get_vars
insert_class-next_table s c obj = ground arith

pub insert_class-type :
    (s : Store) (c obj a : ℕ) → a < s.next_object → (insert_class s c obj).1.type a ≡ s.type a
unfolding insert_class create_include_class get_methods get_vars put
insert_class-type s c obj a h = ground arith

pub insert_class-original_module :
    (s : Store) (c obj a : ℕ)
    → a < s.next_object
    → (insert_class s c obj).1.original_module a ≡ s.original_module a
unfolding insert_class create_include_class get_methods get_vars put
insert_class-original_module s c obj a h = ground arith

-- A table that a module has stays.
pub insert_class-vars :
    (s : Store) (c obj a : ℕ)
    → a < s.next_object
    → s.vars a ≢ 0
    → (insert_class s c obj).1.vars a ≡ s.vars a
unfolding insert_class create_include_class get_methods get_vars put
insert_class-vars s c obj a h nz = ground arith

-- The new address is an include class with the variables of the module it stands for.
pub insert_class-iclass :
    (s : Store) (c obj : ℕ) → is_iclass ((insert_class s c obj).1.type s.next_object) ≡ true
unfolding insert_class create_include_class get_methods get_vars put is_iclass
insert_class-iclass s c obj = ground arith

pub insert_class-new_vars :
    (s : Store) (c obj : ℕ)
    → origin s obj < s.next_object
    → (insert_class s c obj).1.vars s.next_object ≡ (insert_class s c obj).1.vars (origin s obj)
unfolding insert_class create_include_class get_methods get_vars put
insert_class-new_vars s c obj h = ground arith

pub insert_class-has_vars :
    (s : Store) (c obj : ℕ) → 0 < s.next_table → (insert_class s c obj).1.vars s.next_object ≢ 0
unfolding insert_class create_include_class get_methods get_vars put
insert_class-has_vars s c obj h = ground arith

-- Every include class of the list has its variables.
unfoldable pub tabled : Store → List ℕ → Bool
tabled s [] = true
tabled s (x ∷ xs) = not (is_iclass (s.type x) && (s.vars x == 0)) && tabled s xs

-- An include class shares the variables of the module that it stands for.
unfoldable pub mirrors : Store → List ℕ → Bool
mirrors s [] = true
mirrors s (x ∷ xs) =
    (not (is_iclass (s.type x))
      || (not (s.vars x == 0)
          && (s.vars (s.original_module x) == s.vars x)
          && ltb (s.original_module x) s.next_object))
    && mirrors s xs

pub insert_class-tabled :
    (s : Store) (c obj : ℕ) (xs : List ℕ)
    → all_below s.next_object xs ≡ true
    → tabled s xs ≡ true
    → tabled (insert_class s c obj).1 xs ≡ true
unfolding all_below tabled
insert_class-tabled s c obj [] h ok = refl
insert_class-tabled s c obj (x ∷ xs) h ok =
    let low : x < s.next_object = ground arith in
    let rest = insert_class-tabled s c obj xs (ground arith) (ground (arith, ok)) in
    elim (Bool-cases (s.vars x == 0)) [
      | inl t ↦ rw (insert_class-type s c obj x low, rest) (ground (arith, ok, t))
      | inr t ↦
          rw
            (
              insert_class-type s c obj x low,
              insert_class-vars s c obj x low (ground (arith, t)),
              rest,
            )
            (ground (arith, ok, t))
    ]

pub tabled-insert_after :
    (s : Store) (c n : ℕ) (xs : List ℕ)
    → tabled s xs ≡ true
    → s.vars n ≢ 0
    → tabled s (insert_after c n xs) ≡ true
unfolding tabled insert_after
tabled-insert_after s c n [] ok nz = refl
tabled-insert_after s c n (x ∷ xs) ok nz =
    let rest = tabled-insert_after s c n xs (ground (arith, ok)) nz in ground (arith, ok, rest)

pub insert_class-mirrors :
    (s : Store) (c obj : ℕ) (xs : List ℕ)
    → all_below s.next_object xs ≡ true
    → mirrors s xs ≡ true
    → mirrors (insert_class s c obj).1 xs ≡ true
unfolding all_below mirrors
insert_class-mirrors s c obj [] h ok = refl
insert_class-mirrors s c obj (x ∷ xs) h ok =
    let low : x < s.next_object = ground arith in
    let rest = insert_class-mirrors s c obj xs (ground arith) (ground (arith, ok)) in
    elim (Bool-cases (is_iclass (s.type x))) [
      | inl t ↦
          let source : s.original_module x < s.next_object = ground (arith, ok, t) in
          let same : s.vars (s.original_module x) ≡ s.vars x = ground (arith, ok, t) in
          let nz : s.vars x ≢ 0 = ground (arith, ok, t) in
          rw
            (
              insert_class-type s c obj x low,
              insert_class-original_module s c obj x low,
              insert_class-vars s c obj x low nz,
              insert_class-vars s c obj (s.original_module x) source (ground (arith, same, nz)),
              insert_class-next_object s c obj,
              rest,
            )
            (ground (arith, ok, t))
      | inr t ↦ rw (insert_class-type s c obj x low, t, rest) refl
    ]

pub origin-low :
    (s : Store) (obj : ℕ) (xs : List ℕ)
    → obj < s.next_object
    → mirrors s (obj ∷ xs) ≡ true
    → origin s obj < s.next_object
unfolding origin mirrors
origin-low s obj xs low ok = ground (arith, ok)

pub insert_class-origin :
    (s : Store) (c obj : ℕ) (xs : List ℕ)
    → obj < s.next_object
    → mirrors s (obj ∷ xs) ≡ true
    → (insert_class s c obj).1.vars (origin s obj) ≡ (insert_class s c obj).1.vars obj
unfolding origin mirrors
insert_class-origin s c obj xs low ok = elim (Bool-cases (is_iclass (s.type obj))) [
  | inl t ↦
      let source : s.original_module obj < s.next_object = ground (arith, ok, t) in
      let same : s.vars (s.original_module obj) ≡ s.vars obj = ground (arith, ok, t) in
      let nz : s.vars obj ≢ 0 = ground (arith, ok, t) in
      rw
        (
          t,
          insert_class-vars s c obj obj low nz,
          insert_class-vars s c obj (s.original_module obj) source (ground (arith, same, nz)),
        )
        same
  | inr t ↦ rw t refl
]
