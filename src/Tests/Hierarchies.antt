-- ===== src/Tests/Hierarchies.antt =====
-- A class with an included module, and a module that includes the same one.
use mirb.Prelude.Maps.{put, has}
use mirb.Prelude.Chains.{Chain, Distinct}
use mirb.Types.{class_type, iclass, module_type}
use mirb.Modules.Subclasses.{reals, subclass_of-reals}
use mirb.Modules.Lookups.{lookup_module_method-first, first_method, entry, Fresh}
use mirb.Modules.{
  lookup_module_method, is_module, subclass_of, subclass_from, real_class, is_real_class, Store,
  include_module, include_from, find_included, is_iclass, include_one, insert_class,
  create_include_class, get_vars, get_methods, origin,
}
use mathlib.Core.Option
use mirb.Modules.Chains.{below, all_below, disjoint}
use mirb.Modules.Stores.{tabled, mirrors}
use mirb.Modules.Inserts.{Included, Ready}
use mirb.Modules.Includes.{include_module-Includes}
use mirb.Prelude.{
  ℕ, ◌≡◌, refl, false, Option, none, some, List, [], ◌∷◌, arith, Option, ◌≤◌, ◌==◌, if◌then◌else◌,
}

abbrev supers : ℕ → ℕ
supers = put (put (put (λ a. 0) 1 5) 5 2) 3 6

abbrev tables : ℕ → ℕ
tables = put (put (put (λ a. 0) 4 9) 5 9) 6 9

-- The class 1, its superclass 2, and the modules 3 and 4: 5 and 6 are include classes of 4, in the
-- class and in 3.
abbrev classes : Store
classes = record {
  type = put (put (put (put (λ a. module_type) 1 class_type) 2 class_type) 5 iclass) 6 iclass;
  singleton = λ a. false;
  superclass = supers;
  methods = λ a. 0;
  vars = tables;
  original_module = put (put (λ a. 0) 5 4) 6 4;
  next_object = 7;
  next_table = 10;
}

abbrev supers_of : Option Store → List ℕ
supers_of (some t) = t.superclass 1 ∷ t.superclass 7 ∷ t.superclass 5 ∷ []
supers_of none = []

chain_after : supers_of (include_module 4 classes 1 3) ≡ 7 ∷ 5 ∷ 2 ∷ []
unfolding include_module include_from Option.bind find_included put is_iclass include_one
    insert_class create_include_class get_vars get_methods origin
chain_after = refl

include_module-Includes_example :
    (t : Store) × (new : List ℕ) × (include_module 4 classes 1 3 ≡ some t)
    × Chain t.superclass 1 (1 ∷ new)
    × Distinct (1 ∷ new)
    × (below 7 new ≡ 5 ∷ 2 ∷ [])
    × Included t (1 ∷ new) 3
    × (t.superclass 3 ≡ 6)
unfolding put has Chain Distinct Ready all_below disjoint tabled mirrors is_iclass
include_module-Includes_example =
    include_module-Includes 4 classes 1 3 3 3 (5 ∷ 2 ∷ []) (3 ∷ 6 ∷ [])
      (
        (refl, omega arith, (refl, omega arith, (refl, omega arith, refl))),
        (refl, (refl, (refl, tt))),
        refl,
        refl,
        refl,
        refl,
        refl,
        refl,
        omega arith,
      )
      (refl, omega arith, (refl, omega arith, refl)) (omega arith) refl refl (omega arith)

subclass_of-reals_example :
    subclass_of 3 classes 2 1 ≡ some (has 2 (reals classes (1 ∷ 5 ∷ 2 ∷ [])))
unfolding put Chain
subclass_of-reals_example =
    subclass_of-reals 3 classes 2 1 (1 ∷ 5 ∷ 2 ∷ [])
      (refl, omega arith, (refl, omega arith, (refl, omega arith, refl))) (omega arith)

include_class_hidden : subclass_of 3 classes 5 1 ≡ some false
unfolding subclass_of subclass_from real_class is_real_class is_iclass put Option.bind
include_class_hidden = refl

-- The include class 5 shares the methods of 4, with one for the name 100.
abbrev methods_of : ℕ → ℕ → ℕ
methods_of table name = if table == 9 then (if name == 100 then 50 else 0) else 0

abbrev with_methods : Store
with_methods = record classes { methods = put (put (λ a. 0) 4 9) 5 9 }

with_methods-Fresh : (table : ℕ) → 10 ≤ table → methods_of table 100 ≡ 0
with_methods-Fresh table above = ground arith

lookup_module_method-first_example :
    (t : Store) × (lookup_module_method methods_of 3 with_methods 2 1 100 ≡ some (some 50, t))
    × (t.superclass ≡ supers)
unfolding first_method entry put Chain is_module Fresh
lookup_module_method-first_example =
    lookup_module_method-first methods_of 3 with_methods 2 1 100 (2 ∷ []) (1 ∷ 5 ∷ 2 ∷ [])
      (refl, omega arith, (refl, omega arith, (refl, omega arith, refl))) (refl, omega arith, refl)
      (omega arith) (omega arith) (omega arith, with_methods-Fresh)
