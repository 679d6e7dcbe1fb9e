-- ===== src/ValueMap.antt =====
-- value-map.hpp: the open-addressing table behind instance variables, constants, methods and
-- globals. A `value_t` is the word that it is; `value_undef` marks a free slot. The template
-- argument `light` is true here: keys are compared as words. The table is the raw tuple, two words
-- to a slot, so that `remove_index` can be read as it stands.
pub mod Probe
pub mod Valid
pub mod Write
pub mod Store
pub mod Expand
pub mod EachPair
pub mod Set
pub mod Restore
use Prim.Native.Nat.{bit_and}
use mathlib.Core.Option
use mirb.Prelude.{
  ℕ, zero, suc, ◌+◌, ◌-◌, ◌*◌, Bool, List, [], ◌∷◌, Option, none, some, ◌==◌, ltb, if◌then◌else◌,
}
use mirb.Prelude.Lists.{get_or, set, replicate}

abbrev pub value_undef : ℕ
value_undef = 14

abbrev pub value_false : ℕ
value_false = 6

abbrev pub value_true : ℕ
value_true = 10

pub record ValueMapData : Type 0 where
  pub table : List ℕ
  pub mask : ℕ
  pub entries : ℕ

-- `ValueMapData(size_t initial)`
unfoldable pub new : ℕ → ValueMapData
new initial = record {
  table = replicate (initial * 2) value_undef;
  mask = initial - 1;
  entries = 0;
}

-- `key_slot` and `value_slot` take an index into the raw tuple.
unfoldable pub key_slot : ValueMapData → ℕ → ℕ
key_slot d index = get_or d.table index value_undef

unfoldable pub value_slot : ValueMapData → ℕ → ℕ
value_slot d index = get_or d.table (index + 1) value_undef

unfoldable pub set_key_slot : ValueMapData → ℕ → ℕ → ValueMapData
set_key_slot d index key = record d { table = set d.table index key }

unfoldable pub set_value_slot : ValueMapData → ℕ → ℕ → ValueMapData
set_value_slot d index value = record d { table = set d.table (index + 1) value }

-- How `search` leaves its loop: by `free(index)` or by `match(index)`. `stuck` is a loop that has
-- used up its fuel.
pub data Found : Type 0 where
  free : ℕ → Found
  matched : ℕ → Found
  stuck : Found

-- `while(true)` in `search`, from `current`.
unfoldable pub search_loop : ℕ → ValueMapData → ℕ → ℕ → Found
search_loop zero d key current = stuck
search_loop (suc fuel) d key current =
    let index = current * 2 in
    let slot = key_slot d index in
    let rest = search_loop fuel d key (bit_and (current + 1) d.mask) in
    if slot == value_undef then free index else if slot == key then matched index else rest

-- `size_t(index)` at a free slot, and at a slot that matched: what `store` writes before it looks
-- at the load.
unfoldable pub store_free : ValueMapData → ℕ → ℕ → ℕ → ValueMapData
store_free d index key value =
    let e = set_value_slot (set_key_slot d index key) index value in
    record e { entries = d.entries + 1 }

module _ (hash_value : ℕ → ℕ) where
  -- One round for each slot is enough fuel while a slot is free.
  unfoldable pub search : ValueMapData → ℕ → Found
  search d key = search_loop (d.mask + 1) d key (bit_and (hash_value key) d.mask)

  -- `store<false>`, which never expands; `none` is a search that does not end.
  unfoldable pub store_at : ValueMapData → ℕ → ℕ → Found → Option (ℕ × ValueMapData)
  store_at d key value (free index) = some (value_false, store_free d index key value)
  store_at d key value (matched index) = some (value_true, set_value_slot d index value)
  store_at d key value stuck = none

  -- One round of the loop in `expand`: slot `i` of the old table goes into the new one.
  unfoldable pub expand_slot : ValueMapData → ℕ → ValueMapData → Option ValueMapData
  expand_slot d i new_data =
      let key = key_slot d (i * 2) in
      if key == value_undef
      then some new_data
      else (Option.map (λ (r : ℕ × ValueMapData). r.1)
          (store_at new_data key (value_slot d (i * 2)) (search new_data key)))

  unfoldable pub expand_loop : ℕ → ℕ → ValueMapData → ValueMapData → Option ValueMapData
  expand_loop zero i d new_data = some new_data
  expand_loop (suc rounds) i d new_data = elim (expand_slot d i new_data) [
    | none ↦ none
    | some new_data' ↦ expand_loop rounds (suc i) d new_data'
  ]

  unfoldable pub expand : ValueMapData → Option ValueMapData
  expand d = let size = d.mask + 1 in expand_loop size 0 d (new (size * 2))

  -- `store<true>` behind its search. `fails` says that `expand` throws, which it does before it
  -- has changed the owner: then the slot is restored.
  unfoldable pub set_at : Bool → ValueMapData → ℕ → ℕ → Found → Option (ℕ × ValueMapData)
  set_at fails d key value (free index) =
      let e = store_free d index key value in
      if ltb d.mask e.entries
      then (if fails
          then (let f = set_value_slot (set_key_slot e index value_undef) index value_undef in
              some (value_false, record f { entries = e.entries - 1 }))
          else Option.map (λ (f : ValueMapData). (value_true, f)) (expand e))
      else some (value_false, e)
  set_at fails d key value (matched index) = some (value_true, set_value_slot d index value)
  set_at fails d key value stuck = none

  -- `set`, `get` and `has`. `create_value` is what the caller of `get` computes for a missing key.
  unfoldable pub set_value : Bool → ValueMapData → ℕ → ℕ → Option (ℕ × ValueMapData)
  set_value fails d key value = set_at fails d key value (search d key)

  unfoldable pub get : ValueMapData → ℕ → ℕ → Option ℕ
  get d key create_value = elim (search d key) [
    | free _ ↦ some create_value
    | matched index ↦ some (value_slot d index)
    | stuck ↦ none
  ]

  unfoldable pub has : ValueMapData → ℕ → Option ℕ
  has d key = elim (search d key) [
    | free _ ↦ some value_false
    | matched _ ↦ some value_true
    | stuck ↦ none
  ]

  -- The loop of `remove_index`, index by index as the source has it: `current` is an index into the
  -- raw tuple and still steps by one under `mask`.
  unfoldable pub remove_loop : ℕ → ValueMapData → ℕ → ℕ → ℕ → Option ValueMapData
  remove_loop zero d hash free_index current = none
  remove_loop (suc fuel) d hash free_index current =
      let next = bit_and (current + 1) d.mask in
      let current_key = key_slot d next in
      let cleared = set_value_slot (set_key_slot d free_index value_undef) free_index value_undef in
      let moved =
        set_value_slot (set_key_slot d free_index current_key) free_index
          (value_slot (set_key_slot d free_index current_key) next) in
      let shift = hash_value current_key == hash in
      let rest =
        remove_loop fuel (if shift then moved else d) hash (if shift then next else free_index)
          next in
      if current_key == value_undef then some cleared else rest

  unfoldable pub remove : ℕ → ValueMapData → ℕ → Option (ℕ × ValueMapData)
  remove fuel d key = elim (search d key) [
    | free _ ↦ some (value_undef, d)
    | matched index ↦
        (Option.map (λ (e : ValueMapData). (value_slot d index, e))
          (remove_loop fuel (record d { entries = d.entries - 1 }) (hash_value key) index index))
    | stuck ↦ none
  ]

-- `each_pair` hands these to its callback, in this order, as long as that returns true.
unfoldable pub pairs_loop : ℕ → ℕ → ValueMapData → List (ℕ × ℕ)
pairs_loop zero i d = []
pairs_loop (suc rounds) i d =
    let rest = pairs_loop rounds (suc i) d in
    if key_slot d (i * 2) == value_undef
    then rest
    else (key_slot d (i * 2), value_slot d (i * 2)) ∷ rest

unfoldable pub each_pair : ValueMapData → List (ℕ × ℕ)
each_pair d = pairs_loop (d.mask + 1) 0 d
