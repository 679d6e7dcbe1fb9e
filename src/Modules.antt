-- ===== src/Modules.antt =====
-- The chains of superclasses (src/runtime.cpp, src/classes/class.cpp, src/classes/module.cpp). A
-- module is its address, and each of its fields a function of the address; a `ValueMap` is a number,
-- made when it is first asked for. 0 is the null pointer.
pub mod Chains
pub mod Stores
pub mod Inserts
pub mod Rounds
pub mod Includes
pub mod Subclasses
pub mod Lookups
use mathlib.Core.Option
use mirb.Prelude.Maps.{put}
use mirb.Prelude.{
  ℕ, zero, suc, ◌+◌, Bool, true, false, ◌&&◌, ◌||◌, not, Option, none, some, ◌==◌, if◌then◌else◌,
}
use mirb.Types.{Enum, class_type, iclass, module_type}
use mirb.ValueMap.{value_undef}

pub record Store : Type 0 where
  pub type : ℕ → Enum
  pub singleton : ℕ → Bool
  pub superclass : ℕ → ℕ
  pub methods : ℕ → ℕ
  pub vars : ℕ → ℕ
  pub original_module : ℕ → ℕ
  pub next_object : ℕ
  pub next_table : ℕ

unfoldable pub is_iclass : Enum → Bool
is_iclass iclass = true
is_iclass other = false

unfoldable pub is_class : Enum → Bool
is_class class_type = true
is_class other = false

unfoldable pub is_real_class : Store → ℕ → Bool
is_real_class s obj = not (s.singleton obj) && not (is_iclass (s.type obj))

-- `none` when the rounds are used up, here and below.
unfoldable pub real_class : ℕ → Store → ℕ → Option ℕ
real_class zero s obj = if not (obj == 0) && not (is_real_class s obj) then none else some obj
real_class (suc fuel) s obj =
    let rest = real_class fuel s (s.superclass obj) in
    if not (obj == 0) && not (is_real_class s obj) then rest else some obj

-- The loop of `subclass_of`; `depth` bounds that of `real_class`.
unfoldable pub subclass_from : ℕ → ℕ → Store → ℕ → ℕ → Option Bool
subclass_from depth zero s super c = if c == 0 then some false else none
subclass_from depth (suc fuel) s super c =
    if c == 0
    then some false
    else Option.bind (real_class depth s c) (λ real.
      let rest = subclass_from depth fuel s super (s.superclass real) in
      if real == 0 then some false else if real == super then some true else rest)

unfoldable pub subclass_of : ℕ → Store → ℕ → ℕ → Option Bool
subclass_of fuel s super c = subclass_from fuel fuel s super c

unfoldable pub get_vars : Store → ℕ → ℕ × Store
get_vars s obj =
    if s.vars obj == 0
    then (
      s.next_table,
      record s { vars = put s.vars obj s.next_table; next_table = s.next_table + 1 },
    )
    else (s.vars obj, s)

unfoldable pub get_methods : Store → ℕ → ℕ × Store
get_methods s obj =
    if s.methods obj == 0
    then (
      s.next_table,
      record s { methods = put s.methods obj s.next_table; next_table = s.next_table + 1 },
    )
    else (s.methods obj, s)

unfoldable pub origin : Store → ℕ → ℕ
origin s obj = if is_iclass (s.type obj) then s.original_module obj else obj

unfoldable pub create_include_class : Store → ℕ → ℕ → ℕ × Store
create_include_class s obj superclass =
    let source = origin s obj in
    let (methods, s1) = get_methods s source in
    let (vars, s2) = get_vars s1 source in
    (
      s2.next_object,
      record {
        type = put s2.type s2.next_object iclass;
        singleton = put s2.singleton s2.next_object false;
        superclass = put s2.superclass s2.next_object superclass;
        methods = put s2.methods s2.next_object methods;
        vars = put s2.vars s2.next_object vars;
        original_module = put s2.original_module s2.next_object source;
        next_object = s2.next_object + 1;
        next_table = s2.next_table;
      },
    )

-- The loop of `include_module` over the superclasses from `i`: whether it meets `vars`, and `c`
-- then. `none` when the rounds are used up.
unfoldable pub find_included : ℕ → Store → ℕ → ℕ → ℕ → Bool → Option (Bool × ℕ)
find_included zero s vars i c found_superclass = if i == 0 then some (false, c) else none
find_included (suc fuel) s vars i c found_superclass =
    let rest =
      find_included fuel s vars (s.superclass i) c (found_superclass || is_class (s.type i)) in
    if i == 0
    then some (false, c)
    else if is_iclass (s.type i) && (s.vars i == vars)
    then some (true, if found_superclass then c else i)
    else rest

-- A new include class behind `c`.
unfoldable pub insert_class : Store → ℕ → ℕ → ℕ × Store
insert_class s c obj =
    let (new, s1) = create_include_class s obj (s.superclass c) in
    (new, record s1 { superclass = put s1.superclass c new })

-- One round of `include_module`, without the step to the superclass of `module`.
unfoldable pub include_one : Store → ℕ → ℕ → Bool × ℕ → ℕ × Store
include_one s c obj (true, found) = (found, s)
include_one s c obj (false, same) = insert_class s same obj

-- The outer loop, with `c` and `module` as they stand; `depth` bounds the inner loop.
unfoldable pub include_from : ℕ → ℕ → ℕ → Store → ℕ → ℕ → Option Store
include_from depth zero target s c obj = if obj == 0 then some s else none
include_from depth (suc fuel) target s c obj =
    if obj == 0
    then some s
    else Option.bind (find_included depth s (s.vars obj) (s.superclass target) c false) (λ found.
      let (c1, t) = include_one s c obj found in
      include_from depth fuel target t c1 (t.superclass obj))

unfoldable pub include_module : ℕ → Store → ℕ → ℕ → Option Store
include_module fuel s target obj = include_from fuel fuel target s target obj

unfoldable pub is_module : Enum → Bool
is_module module_type = true
is_module other = false

-- The methods in the tables, with 0 for a name that is not in one.
module _ (contents : ℕ → ℕ → ℕ) where
  unfoldable pub get_method : Store → ℕ → ℕ → ℕ × Store
  get_method s obj name = let (table, s1) = get_methods s obj in (contents table name, s1)

  -- The method, or 0.
  unfoldable pub lookup_module : ℕ → Store → ℕ → ℕ → Option (ℕ × Store)
  lookup_module zero s obj name = if obj == 0 then some (0, s) else none
  lookup_module (suc fuel) s obj name =
      let (result, s1) = get_method s obj name in
      let rest = lookup_module fuel s1 (s1.superclass obj) name in
      if obj == 0
      then some (0, s)
      else if result == 0
      then rest
      else some (if result == value_undef then 0 else result, s1)

  -- `none` in the place of the method where `method_error` raises.
  unfoldable pub found_method : ℕ × Store → Option ℕ × Store
  found_method (result, s) = (if result == 0 then none else some result, s)

  unfoldable pub lookup_module_method : ℕ → Store → ℕ → ℕ → ℕ → Option (Option ℕ × Store)
  lookup_module_method fuel s object_class obj name =
      Option.bind (lookup_module fuel s obj name) (λ first.
        let (result, s1) = first in
        if (result == 0) && is_module (s1.type obj)
        then Option.bind (lookup_module fuel s1 object_class name)
            (λ second. some (found_method second))
        else some (found_method first))
