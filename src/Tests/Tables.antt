-- ===== src/Tests/Tables.antt =====
-- value-map.hpp on a table of eight slots whose keys are their own hashes.
use mirb.Prelude.Lists.{length, get_or, set, replicate}
use mirb.Prelude.{false, ℕ, ◌+◌, ◌*◌, ◌≡◌, ◌≢◌, refl, Option, none, some, arith}
use mirb.ValueMap.EachPair.{find_pair, each_pair-view}
use mirb.ValueMap.Expand.{new-IsValid, expand-view}
use mirb.ValueMap.Set.{Sets, set_value-Sets}
use mirb.ValueMap.Store.{was_there, or_create, get-view, has-view}
use mirb.ValueMap.Valid.{view, IsValid}
use mirb.ValueMap.{
  ValueMapData, value_undef, new, key_slot, value_slot, set_key_slot, set_value_slot, search_loop,
  store_free, search, expand, set_at, set_value, get, has, remove_loop, remove, each_pair,
}

abbrev itself : ℕ → ℕ
itself k = k

eight_IsValid : IsValid itself (new 8)
eight_IsValid = new-IsValid itself 3 8 refl

abbrev key : ℕ
key = 21

key_named : key ≢ value_undef
key_named = omega arith

set_value-Sets_example :
    (r : ℕ) × (e : ValueMapData) × (set_value itself false (new 8) key 33 ≡ some (r, e))
    × Sets itself (new 8) key 33 e
set_value-Sets_example = set_value-Sets itself eight_IsValid key 33 key_named

abbrev sample : ValueMapData
sample = set_value-Sets_example.1

sample_IsValid : IsValid itself sample
sample_IsValid = set_value-Sets_example.3.valid

get-view_example : get itself sample key 99 ≡ some (or_create 99 (view sample key))
get-view_example = get-view itself sample_IsValid key 99 key_named

has-view_example : has itself sample 29 ≡ some (was_there (view sample 29))
has-view_example = has-view itself sample_IsValid 29 (omega arith)

expand-view_example :
    (f : ValueMapData) × (expand itself sample ≡ some f)
    × IsValid itself f
    × (f.mask + 1 ≡ (sample.mask + 1) * 2)
    × (f.entries ≡ sample.entries)
    × ((j : ℕ) → j ≢ value_undef → view f j ≡ view sample j)
expand-view_example = expand-view itself sample_IsValid.laid_out

each_pair-view_example :
    (length (each_pair sample) ≡ sample.entries)
    × ((k : ℕ) → k ≢ value_undef → find_pair k (each_pair sample) ≡ view sample k)
each_pair-view_example = each_pair-view itself sample_IsValid

abbrev after :
    Option (ℕ × ValueMapData)
    → (ValueMapData → Option (ℕ × ValueMapData))
    → Option (ℕ × ValueMapData)
after none f = none
after (some (r, d)) f = f d

abbrev read : ℕ → Option (ℕ × ValueMapData) → Option ℕ
read k none = none
read k (some (r, d)) = get itself d k 0

-- Keys 1 and 9 start at one slot.
abbrev crowded : Option (ℕ × ValueMapData)
crowded = after (set_value itself false (new 8) 1 101) (λ d. set_value itself false d 9 109)

get-crowded : read 9 crowded ≡ some 109
unfolding set_value set_at get search search_loop store_free set_key_slot set_value_slot key_slot
    value_slot new replicate get_or set expand
get-crowded = refl

-- After the removal of key 1 the table no longer finds key 9.
get-remove-crowded : read 9 (after crowded (λ d. remove itself 100 d 1)) ≡ some 0
unfolding set_value set_at get search search_loop store_free set_key_slot set_value_slot key_slot
    value_slot new replicate get_or set expand remove remove_loop
get-remove-crowded = refl
