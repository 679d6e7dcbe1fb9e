-- ===== src/ValueMap/Restore.antt =====
-- A growth that throws: `store` frees the slot again, and the table is what it was.
use mirb.Prelude.Lists.{length}
use mirb.Prelude.{ℕ, ◌-◌, ◌≡◌, ◌≢◌}
use mirb.ValueMap.Probe.{key_at, value_at}
use mirb.ValueMap.Valid.{view, IsValid}
use mirb.ValueMap.{ValueMapData, value_undef, store_free, set_key_slot, set_value_slot}

-- Two tables with the same keys, and the same values under them.
record Alike (d e : ValueMapData) : Type 0 where
  mask_kept : e.mask ≡ d.mask
  entries_kept : e.entries ≡ d.entries
  size_kept : length e.table ≡ length d.table
  keys : (q : ℕ) → key_at e q ≡ key_at d q
  values : (q : ℕ) → key_at d q ≢ value_undef → value_at e q ≡ value_at d q

-- The table after the `catch`.
abbrev restored : ValueMapData → ℕ → ℕ → ℕ → ValueMapData
restored d index key value =
    let e = store_free d index key value in
    let f = set_value_slot (set_key_slot e index value_undef) index value_undef in
    record f { entries = e.entries - 1 }

module _ (hash_value : ℕ → ℕ) {d : ValueMapData} (v : IsValid hash_value d) (key value : ℕ)
    (named : key ≢ value_undef) where
  abbrev pub Restores : ValueMapData → Type 0
  Restores e = IsValid hash_value e × (e.entries ≡ d.entries) × ((j : ℕ) → view e j ≡ view d j)
