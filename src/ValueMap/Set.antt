-- ===== src/ValueMap/Set.antt =====
-- `set`: the view is updated at the key, whether or not the table grows; a growth that fails leaves
-- the table as it was.
use mirb.Prelude.{
  ℕ, ◌+◌, ◌*◌, ◌≤◌, ◌≡◌, ◌≢◌, ◌∙◌, inl, inr, false, none, some, arith, ◌==◌, ltb, if◌then◌else◌,
  Bool-cases,
}
use mirb.ValueMap.Probe.{Outcome}
use mirb.ValueMap.Valid.{view, home, IsValid, search-Outcome}
use mirb.ValueMap.Store.{fresh, Stored, store_free-Stored, set_value_slot-Stored}
use mirb.ValueMap.Expand.{expand-view}
use mirb.ValueMap.{
  ValueMapData, value_undef, value_false, value_true, Found, free, matched, stuck, store_free,
  search, expand, set_at, set_value, set_value_slot,
}

module _ (hash_value : ℕ → ℕ) where
  -- `e` is a valid table with `value` under `key` and all else as in `d`.
  pub record Sets (d : ValueMapData) (key value : ℕ) (e : ValueMapData) : Type 0 where
    pub valid : IsValid hash_value e
    pub grows : e.entries ≡ d.entries + fresh (view d key)
    pub reads : (j : ℕ) → j ≢ value_undef → view e j ≡ (if j == key then some value else view d j)

  module _ {d : ValueMapData} (v : IsValid hash_value d) (key value : ℕ)
      (named : key ≢ value_undef) where
    -- A new key fills the last slot that the load allows.
    abbrev IsFull : Type 0
    IsFull = (view d key ≡ none) × (d.entries ≡ d.mask)

    Stored-Sets :
        {e : ValueMapData}
        → Stored hash_value d key value e
        → e.entries ≤ e.mask
        → Sets d key value e
    Stored-Sets st room = record {
      valid = record { laid_out = st.laid_out; room = room };
      grows = st.grows;
      reads = st.reads;
    }

    expand-Sets :
        {e : ValueMapData}
        → Stored hash_value d key value e
        → (f : ValueMapData) × (expand hash_value e ≡ some f) × Sets d key value f
    expand-Sets {e} st =
        let (f, run, valid, _, entries, reads) = expand-view hash_value st.laid_out in
        (
          f,
          run,
          record {
            valid = valid;
            grows = entries ∙ st.grows;
            reads = λ j nu. reads j nu ∙ st.reads j nu;
          },
        )

    set_at-Sets :
        (f : Found)
        → Outcome d key (home hash_value d key) f
        → (r : ℕ) × (e : ValueMapData) × (set_at hash_value false d key value f ≡ some (r, e))
          × Sets d key value e
    unfolding set_at
    set_at-Sets (free i) (p, i_is, reach, e) =
        let g = store_free d (p * 2) key value in
        let (mask, st) = store_free-Stored hash_value v.laid_out key named value p reach e in
        elim (Bool-cases (ltb d.mask g.entries)) [
          | inl t ↦ let (f, run, s) = expand-Sets st in (value_true, f, rw (i_is, t, run), s)
          | inr t ↦ (value_false, g, rw (i_is, t), Stored-Sets st (ground arith))
        ]
    set_at-Sets (matched i) (p, i_is, reach, e, _) =
        let (mask, there, st) =
          set_value_slot-Stored hash_value v.laid_out key named value p reach e in
        (
          value_true,
          set_value_slot d (p * 2) value,
          rw i_is,
          Stored-Sets st (ground (arith, st.grows, v.room, mask, there)),
        )
    set_at-Sets stuck o = absurd o

    -- On a valid table `set` ends with a valid table that has the value under the key and is
    -- otherwise unchanged, also when it has to grow; a new key counts as one more entry.
    pub set_value-Sets :
        (r : ℕ) × (e : ValueMapData) × (set_value hash_value false d key value ≡ some (r, e))
        × Sets d key value e
    unfolding set_value
    set_value-Sets =
        set_at-Sets (search hash_value d key) (search-Outcome hash_value v.laid_out key v.room)
