-- ===== src/ValueMap/Store.antt =====
-- `store<false>`, `get` and `has` against the view.
use mirb.Prelude.{
  ℕ, ◌+◌, ◌*◌, ◌≤◌, ◌≡◌, ◌≢◌, refl, sym, ◌∙◌, inl, inr, Option, none, some, arith, ◌==◌,
  if◌then◌else◌,
}
use mirb.ValueMap.Probe.{key_at, value_at, Reaches, Outcome, Reaches-unique}
use mirb.ValueMap.Valid.{
  view, home, IsTable, IsValid, view_below-at, view_below-absent, IsTable-unique, Reaches-le,
  search-Outcome,
}
use mirb.ValueMap.Write.{
  store_free-Writes, set_value_slot-Writes, taken_by, IsTable-Writes, view-Writes,
}
use mirb.ValueMap.{
  ValueMapData, value_undef, value_false, value_true, value_slot, set_value_slot, Found, free,
  matched, stuck, store_free, search, store_at, get, has,
}

-- One more entry if the key was absent.
abbrev pub fresh : Option ℕ → ℕ
fresh none = 1
fresh (some _) = 0

-- What `store` answers: whether the key was there.
abbrev pub was_there : Option ℕ → ℕ
was_there none = value_false
was_there (some _) = value_true

-- What a caller of `get` sees.
abbrev pub or_create : ℕ → Option ℕ → ℕ
or_create c none = c
or_create c (some v) = v

module _ (hash_value : ℕ → ℕ) where
  -- `e` is a table with `value` under `key` and all else as in `d`.
  pub record Stored (d : ValueMapData) (key value : ℕ) (e : ValueMapData) : Type 0 where
    pub laid_out : IsTable hash_value e
    pub grows : e.entries ≡ d.entries + fresh (view d key)
    pub reads : (j : ℕ) → j ≢ value_undef → view e j ≡ (if j == key then some value else view d j)

  module _ {d : ValueMapData} (v : IsTable hash_value d) (key : ℕ) (named : key ≢ value_undef) where
    pub view-free :
        (p : ℕ)
        → Reaches d key (home hash_value d key) p
        → key_at d p ≡ value_undef
        → view d key ≡ none
    unfolding view
    view-free p r e = view_below-absent d key (d.mask + 1) λ q lt same.
        let full : key_at d q ≢ value_undef = λ u. named (sym same ∙ u) in
        let there = rw same at (v.placed q (omega arith) full) in
        let at_p = Reaches-unique d key (home hash_value d key) p q r there (inl e) (inr same) in
        full (rw (← at_p) e)

    pub view-matched : (p : ℕ) → p ≤ d.mask → key_at d p ≡ key → view d key ≡ some (value_at d p)
    unfolding view
    view-matched p le e = view_below-at d key p (d.mask + 1) named (omega arith) e λ q lt same.
        IsTable-unique hash_value v p q le (omega arith) (λ u. named (sym e ∙ u)) (same ∙ sym e)

    abbrev Stores : ℕ → Option (ℕ × ValueMapData) → Type 0
    Stores value o =
        (e : ValueMapData) × (o ≡ some (was_there (view d key), e))
        × (e.mask ≡ d.mask)
        × Stored d key value e

    counts_free :
        (p : ℕ)
        → key_at d p ≡ value_undef
        → (store_free d (p * 2) key 0).entries ≡ d.entries + taken_by d p
    unfolding store_free taken_by
    counts_free p e = ground arith

    counts_matched : (p : ℕ) → key_at d p ≡ key → d.entries ≡ d.entries + taken_by d p
    unfolding taken_by
    counts_matched p e = ground arith

    pub store_free-Stored :
        (value p : ℕ)
        → Reaches d key (home hash_value d key) p
        → key_at d p ≡ value_undef
        → ((store_free d (p * 2) key value).mask ≡ d.mask)
          × Stored d key value (store_free d (p * 2) key value)
    unfolding store_free
    store_free-Stored value p r e =
        let w =
          store_free-Writes d p key value (Reaches-le hash_value v key p r) named v.filled e in
        let absent = view-free p r e in
        (
          w.mask_kept,
          record {
            laid_out = IsTable-Writes w hash_value v r (counts_free p e);
            grows = rw absent refl;
            reads = view-Writes w hash_value v r (counts_free p e);
          },
        )

    pub set_value_slot-Stored :
        (value p : ℕ)
        → Reaches d key (home hash_value d key) p
        → key_at d p ≡ key
        → ((set_value_slot d (p * 2) value).mask ≡ d.mask)
          × (view d key ≡ some (value_at d p))
          × Stored d key value (set_value_slot d (p * 2) value)
    unfolding set_value_slot
    set_value_slot-Stored value p r e =
        let le = Reaches-le hash_value v key p r in
        let w = set_value_slot-Writes d p key value le named v.filled e in
        let there = view-matched p le e in
        (
          w.mask_kept,
          there,
          record {
            laid_out = IsTable-Writes w hash_value v r (counts_matched p e);
            grows = rw there (omega arith);
            reads = view-Writes w hash_value v r (counts_matched p e);
          },
        )

    pub store_at-Stored :
        (value : ℕ) (f : Found)
        → Outcome d key (home hash_value d key) f
        → Stores value (store_at hash_value d key value f)
    unfolding store_at
    store_at-Stored value (free i) (p, i_is, r, e) =
        let (mask, st) = store_free-Stored value p r e in
        rw (i_is, view-free p r e) (store_free d (p * 2) key value, refl, mask, st)
    store_at-Stored value (matched i) (p, i_is, r, e, _) =
        let (mask, there, st) = set_value_slot-Stored value p r e in
        rw (i_is, there) (set_value_slot d (p * 2) value, refl, mask, st)
    store_at-Stored value stuck o = absurd o

    -- `search` finds a key exactly when some slot holds it.
    abbrev pub Finds : Found → Type 0
    Finds (free i) = view d key ≡ none
    Finds (matched i) = view d key ≡ some (value_slot d i)
    Finds stuck = ⊥

    pub Outcome-Finds : (f : Found) → Outcome d key (home hash_value d key) f → Finds f
    unfolding value_at
    Outcome-Finds (free i) (p, i_is, r, e) = view-free p r e
    Outcome-Finds (matched i) (p, i_is, r, e, _) =
        rw i_is (view-matched p (Reaches-le hash_value v key p r) e)
    Outcome-Finds stuck o = absurd o

module _ (hash_value : ℕ → ℕ) {d : ValueMapData} (v : IsValid hash_value d) where
  -- On a valid table `get` ends, and gives what a look at every slot finds under the key, or what
  -- the caller creates if no slot holds it.
  pub get-view :
      (key create_value : ℕ)
      → key ≢ value_undef
      → get hash_value d key create_value ≡ some (or_create create_value (view d key))
  unfolding get
  get-view key c named = ground (
    arith,
    Outcome-Finds hash_value v.laid_out key named (search hash_value d key)
        (search-Outcome hash_value v.laid_out key v.room),
  )

  -- On a valid table `has` ends, and tells whether a look at every slot finds the key.
  pub has-view :
      (key : ℕ) → key ≢ value_undef → has hash_value d key ≡ some (was_there (view d key))
  unfolding has
  has-view key named = ground (
    arith,
    Outcome-Finds hash_value v.laid_out key named (search hash_value d key)
        (search-Outcome hash_value v.laid_out key v.room),
  )
