-- ===== src/ValueMap/Write.antt =====
-- A write of one slot, as `store` makes it at a free slot and at the slot of its key.
use mirb.Prelude.Lists.{length, set, length-set, get_or-set}
use mirb.Prelude.{
  ℕ, zero, suc, ◌+◌, ◌*◌, ◌≤◌, ◌≡◌, ◌≢◌, refl, sym, ◌∙◌, ap, ◌⊎◌, inl, inr, true, some, arith, ◌==◌,
  ==_iff, if◌then◌else◌, Bool-cases, ltb,
}
use Prim.Native.Nat.{bit_and}
use mathlib.Core.Path.{subst}
use mirb.ValueMap.Probe.{key_at, value_at, probe, Reaches, Taken, ne_of_test}
use mirb.ValueMap.Valid.{
  view_below, view, count_below, home, IsTable, view_below-at, IsTable-unique,
}
use mirb.ValueMap.{
  ValueMapData, value_undef, key_slot, value_slot, set_key_slot, set_value_slot, store_free,
}

-- `e` is `d` with `key` and `value` in slot `p`, which was free or held `key` already.
pub record Writes (d : ValueMapData) (p key value : ℕ) (e : ValueMapData) : Type 0 where
  pub inside : p ≤ d.mask
  pub named : key ≢ value_undef
  pub before : (key_at d p ≡ value_undef) ⊎ (key_at d p ≡ key)
  pub mask_kept : e.mask ≡ d.mask
  pub size_kept : length e.table ≡ length d.table
  pub keys : (q : ℕ) → key_at e q ≡ (if q == p then key else key_at d q)
  pub values : (q : ℕ) → value_at e q ≡ (if q == p then value else value_at d q)

module _ (d : ValueMapData) (p key value : ℕ) (inside : p ≤ d.mask) (named : key ≢ value_undef)
    (filled : length d.table ≡ (d.mask + 1) * 2) where
  pub store_free-Writes :
      key_at d p ≡ value_undef → Writes d p key value (store_free d (p * 2) key value)
  unfolding store_free set_key_slot set_value_slot key_at value_at key_slot value_slot
  store_free-Writes e = record {
    inside = inside;
    named = named;
    before = inl e;
    mask_kept = refl;
    size_kept = length-set _ _ value ∙ length-set d.table (p * 2) key;
    keys = λ q. ground (
      arith,
      get_or-set (set d.table (p * 2) key) (p * 2 + 1) (q * 2) value value_undef,
      get_or-set d.table (p * 2) (q * 2) key value_undef,
      length-set d.table (p * 2) key,
    );
    values = λ q. ground (
      arith,
      get_or-set (set d.table (p * 2) key) (p * 2 + 1) (q * 2 + 1) value value_undef,
      get_or-set d.table (p * 2) (q * 2 + 1) key value_undef,
      length-set d.table (p * 2) key,
    );
  }

  pub set_value_slot-Writes :
      key_at d p ≡ key → Writes d p key value (set_value_slot d (p * 2) value)
  unfolding set_value_slot key_at value_at key_slot value_slot
  set_value_slot-Writes e = record {
    inside = inside;
    named = named;
    before = inr e;
    mask_kept = refl;
    size_kept = length-set d.table (p * 2 + 1) value;
    keys = λ q. ground (arith, get_or-set d.table (p * 2 + 1) (q * 2) value value_undef);
    values = λ q. ground (arith, get_or-set d.table (p * 2 + 1) (q * 2 + 1) value value_undef);
  }

==_refl : (a : ℕ) → (a == a) ≡ true
==_refl a = ground arith

-- How many slots the write takes: one, if the slot was free.
unfoldable pub taken_by : ValueMapData → ℕ → ℕ
taken_by d p = if key_at d p == value_undef then 1 else 0

module _ {d e : ValueMapData} {p key value : ℕ} (w : Writes d p key value e) where
  pub view_below-Writes_ne : (n j : ℕ) → j ≢ key → view_below e n j ≡ view_below d n j
  unfolding view_below
  view_below-Writes_ne zero j ne = refl
  view_below-Writes_ne (suc n) j ne =
      ground
        (arith, w.keys n, w.values n, view_below-Writes_ne n j ne, w.before, w.named, ==_iff n p)

  pub count_below-Writes :
      (n : ℕ) → count_below e n ≡ count_below d n + (if ltb p n then taken_by d p else 0)
  unfolding count_below taken_by
  count_below-Writes zero = ground arith
  count_below-Writes (suc n) =
      ground (arith, w.keys n, count_below-Writes n, w.before, w.named, ==_iff n p)

  -- A slot on the way of another key stays on its way.
  Taken-Writes : (j x : ℕ) → Taken d j x → Taken e j x
  Taken-Writes j x t = ground (arith, t.0, t.1, w.keys x, w.before, w.named, ==_iff x p)

  Reaches-Writes : (j h q : ℕ) → Reaches d j h q → Reaches e j h q
  Reaches-Writes j h q r = record {
    offset = r.offset;
    below = rw w.mask_kept r.below;
    arrives = ap (λ m. probe m h r.offset) w.mask_kept ∙ r.arrives;
    clear = λ i lt. simp w.mask_kept (Taken-Writes j (probe d.mask h i) (r.clear i lt));
  }

  module _ (hash_value : ℕ → ℕ) (v : IsTable hash_value d)
      (r : Reaches d key (home hash_value d key) p)
      (counts : e.entries ≡ d.entries + taken_by d p) where
    placed-Writes :
        (q : ℕ)
        → q ≤ d.mask
        → key_at e q ≢ value_undef
        → Reaches e (key_at e q) (home hash_value d (key_at e q)) q
    placed-Writes q le full = elim (Bool-cases (q == p)) [
      | inl t ↦
          let at_p : q ≡ p = (==_iff q p).0 t in
          let e' : key_at e q ≡ key = w.keys q ∙ rw t in
          rw (e', at_p) (Reaches-Writes key (home hash_value d key) p r)
      | inr t ↦
          let e' : key_at e q ≡ key_at d q = w.keys q ∙ rw t in
          rw e' (
            Reaches-Writes (key_at d q) (home hash_value d (key_at d q)) q
              (v.placed q le (λ u. full (e' ∙ u))))
    ]

    pub IsTable-Writes : IsTable hash_value e
    IsTable-Writes = record {
      width = v.width;
      sized = rw w.mask_kept v.sized;
      filled = w.size_kept ∙ rw w.mask_kept v.filled;
      counted =
          ap (λ m. count_below e (m + 1)) w.mask_kept
          ∙ ground (arith, count_below-Writes (d.mask + 1), v.counted, counts, w.inside);
      placed =
          subst
            (λ m.
              (q : ℕ)
              → q ≤ m
              → key_at e q ≢ value_undef
              → Reaches e (key_at e q) (bit_and (hash_value (key_at e q)) m) q)
            (sym w.mask_kept) placed-Writes;
    }

    -- The view gets the new value under `key`, and nothing else changes.
    pub view-Writes :
        (j : ℕ) → j ≢ value_undef → view e j ≡ (if j == key then some value else view d j)
    unfolding view
    view-Writes j nu = elim (Bool-cases (j == key)) [
      | inl t ↦
          let is_key : j ≡ key = (==_iff j key).0 t in
          let at_p : key_at e p ≡ key = w.keys p ∙ rw (==_refl p) in
          let full : key_at e p ≢ value_undef = λ u. w.named (sym at_p ∙ u) in
          let le : p ≤ e.mask = omega (arith, w.inside, w.mask_kept) in
          rw (t, is_key)
            (view_below-at e key p (e.mask + 1) w.named (omega arith) at_p (λ q lt u.
                IsTable-unique hash_value IsTable-Writes p q le (omega arith) full (u ∙ sym at_p))
              ∙ ap some (w.values p ∙ rw (==_refl p)))
      | inr t ↦ rw t (
          ap (λ m. view_below e (m + 1) j) w.mask_kept
          ∙ view_below-Writes_ne (d.mask + 1) j (ne_of_test j key t))
    ]
