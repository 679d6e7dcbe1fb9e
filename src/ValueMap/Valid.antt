-- ===== src/ValueMap/Valid.antt =====
-- What a table holds, slot by slot, and the invariant of the operations.
use mirb.Prelude.{
  ℕ, zero, suc, ◌+◌, ◌*◌, ◌^◌, ◌≤◌, ◌<◌, ◌≡◌, ◌≢◌, refl, sym, ◌∙◌, inl, inr, Option, none, some,
  arith, ◌==◌, ==_iff, if◌then◌else◌, Bool-cases,
}
use Prim.Native.Nat.{bit_and}
use mirb.Prelude.Bits.{bit_and-le}
use mirb.Prelude.Lists.{length}
use mirb.ValueMap.{ValueMapData, value_undef, search}
use mirb.ValueMap.Probe.{
  key_at, value_at, probe, probe-le, probe_onto, Reaches, Outcome, search_loop-Outcome,
  Reaches-unique, ne_of_test,
}

-- The slots below `n`, read from the top: the value under `k`.
unfoldable pub view_below : ValueMapData → ℕ → ℕ → Option ℕ
view_below d zero k = none
view_below d (suc n) k =
    if key_at d n == value_undef
    then view_below d n k
    else if key_at d n == k
    then some (value_at d n)
    else view_below d n k

-- What the table holds under `k`, found by looking at every slot.
unfoldable pub view : ValueMapData → ℕ → Option ℕ
view d = view_below d (d.mask + 1)

-- The taken slots below `n`.
unfoldable pub count_below : ValueMapData → ℕ → ℕ
count_below d zero = 0
count_below d (suc n) = (if key_at d n == value_undef then 0 else 1) + count_below d n

module _ (hash_value : ℕ → ℕ) where
  abbrev pub home : ValueMapData → ℕ → ℕ
  home d k = bit_and (hash_value k) d.mask

  -- The size is a power of two, the tuple has two words for each slot, `entries` counts the taken
  -- slots, and the probe sequence of each stored key leads to its slot.
  pub record IsTable (d : ValueMapData) : Type 0 where
    pub width : ℕ
    pub sized : d.mask + 1 ≡ 2 ^ width
    pub filled : length d.table ≡ (d.mask + 1) * 2
    pub counted : count_below d (d.mask + 1) ≡ d.entries
    pub placed :
        (p : ℕ)
        → p ≤ d.mask
        → key_at d p ≢ value_undef
        → Reaches d (key_at d p) (home d (key_at d p)) p

  -- Between two operations a slot is free.
  pub record IsValid (d : ValueMapData) : Type 0 where
    pub laid_out : IsTable d
    pub room : d.entries ≤ d.mask

-- A table with fewer taken slots than slots has a free one.
pub free_slot :
    (d : ValueMapData) (n : ℕ)
    → count_below d n < n
    → (p : ℕ) × (p < n) × (key_at d p ≡ value_undef)
unfolding count_below
free_slot d zero h = absurd (omega arith)
free_slot d (suc n) h = elim (Bool-cases (key_at d n == value_undef)) [
  | inl e ↦ (n, omega arith, (==_iff (key_at d n) value_undef).0 e)
  | inr e ↦ let (p, lt, k) = free_slot d n (ground arith) in (p, omega arith, k)
]

-- A slot that holds `k` and is the only such slot below `n` is the one that `view_below` reads.
pub view_below-at :
    (d : ValueMapData) (k p n : ℕ)
    → k ≢ value_undef
    → p < n
    → key_at d p ≡ k
    → ((q : ℕ) → q < n → key_at d q ≡ k → q ≡ p)
    → view_below d n k ≡ some (value_at d p)
unfolding view_below
view_below-at d k p zero nu h e only = absurd (omega arith)
view_below-at d k p (suc n) nu h e only = elim (Bool-cases (n == p)) [
  | inl t ↦ rw ((==_iff n p).0 t) (ground arith)
  | inr t ↦
      let other : n ≢ p = ne_of_test n p t in
      let ne : key_at d n ≢ k = λ w. other (only n (omega arith) w) in
      ground (arith, view_below-at d k p n nu (omega arith) e (λ q lt w. only q (omega arith) w))
]

pub view_below-absent :
    (d : ValueMapData) (k n : ℕ) → ((q : ℕ) → q < n → key_at d q ≢ k) → view_below d n k ≡ none
unfolding view_below
view_below-absent d k zero none_at = refl
view_below-absent d k (suc n) none_at =
    ground (arith, none_at n, view_below-absent d k n (λ q h. none_at q (omega arith)))

module _ (hash_value : ℕ → ℕ) {d : ValueMapData} (v : IsTable hash_value d) where
  -- A key is stored once.
  pub IsTable-unique :
      (p q : ℕ)
      → p ≤ d.mask
      → q ≤ d.mask
      → key_at d p ≢ value_undef
      → key_at d q ≡ key_at d p
      → q ≡ p
  IsTable-unique p q hp hq full e =
      let rp = v.placed p hp full in
      let rq = v.placed q hq (λ w. full (sym e ∙ w)) in
      Reaches-unique d (key_at d p) (home hash_value d (key_at d p)) q p (rw e at rq) rp (inr e)
        (inr refl)

  pub Reaches-le : (k p : ℕ) → Reaches d k (home hash_value d k) p → p ≤ d.mask
  Reaches-le k p r =
      let h = home hash_value d k in
      rw (← r.arrives)
        (probe-le v.width d.mask v.sized h r.offset (bit_and-le (hash_value k) d.mask))

  -- `search` ends while a slot is free.
  pub search-Outcome :
      (k : ℕ) → d.entries ≤ d.mask → Outcome d k (home hash_value d k) (search hash_value d k)
  unfolding search probe
  search-Outcome k room =
      let (p, lt, e) = free_slot d (d.mask + 1) (rw v.counted (omega arith)) in
      let h = home hash_value d k in
      let (o, le, at_p) =
        probe_onto v.width d.mask v.sized h p (bit_and-le (hash_value k) d.mask) (omega arith) in
      search_loop-Outcome d k h (d.mask + 1) 0 o (omega arith) (omega arith) le (rw at_p e)
        (λ j lt. absurd (omega arith))
