-- ===== src/ValueMap/Expand.antt =====
-- `expand` keeps every entry, and the table doubles.
use mirb.Prelude.Lists.{length-replicate, get_or-replicate}
use native.Mathlib.Nat.{pow-suc}
use mirb.Prelude.Bits.{pow_pos}
use mirb.Prelude.{
  ℕ, zero, suc, ◌+◌, ◌-◌, ◌*◌, ◌^◌, ◌≤◌, ◌<◌, ◌≡◌, ◌≢◌, refl, sym, ◌∙◌, ap, inl, inr, none, some,
  arith, ◌==◌, Bool-cases,
}
use mirb.ValueMap.Probe.{key_at, value_at, ne_of_test}
use mirb.ValueMap.Valid.{
  view_below, view, count_below, IsTable, IsValid, view_below-absent, IsTable-unique,
  search-Outcome,
}
use mirb.ValueMap.Store.{store_at-Stored}
use mirb.ValueMap.{ValueMapData, value_undef, new, key_slot, expand_slot, expand_loop, expand}

key_at-new : (n p : ℕ) → key_at (new n) p ≡ value_undef
unfolding key_at key_slot new
key_at-new n p = get_or-replicate (n * 2) (p * 2) value_undef

count_below-new : (n m : ℕ) → count_below (new n) m ≡ 0
unfolding count_below
count_below-new n zero = refl
count_below-new n (suc m) = rw (key_at-new n m, count_below-new n m) refl

view-new : (n j : ℕ) → j ≢ value_undef → view (new n) j ≡ none
unfolding view
view-new n j nu =
    view_below-absent (new n) j ((new n).mask + 1) (λ q lt e. nu (sym e ∙ key_at-new n q))

count_below-le : (d : ValueMapData) (n : ℕ) → count_below d n ≤ n
unfolding count_below
count_below-le d zero = omega arith
count_below-le d (suc n) = ground (arith, count_below-le d n)

module _ (hash_value : ℕ → ℕ) where
  -- A new table is valid and empty.
  pub new-IsValid : (k n : ℕ) → n ≡ 2 ^ k → IsValid hash_value (new n)
  unfolding new
  new-IsValid k n e =
      let pos : 0 < 2 ^ k = pow_pos k in
      let size : n - 1 + 1 ≡ n = omega arith in
      record {
        laid_out = record {
          width = k;
          sized = size ∙ e;
          filled = rw size (length-replicate (n * 2) value_undef);
          counted = count_below-new n (n - 1 + 1);
          placed = λ p h full. absurd (full (key_at-new n p));
        };
        room = omega arith;
      }

  module _ {d : ValueMapData} (v : IsTable hash_value d) where
    -- After the slots below `i` the new table holds what they hold.
    record Copied (i : ℕ) (e : ValueMapData) : Type 0 where
      laid_out : IsTable hash_value e
      doubled : e.mask + 1 ≡ (d.mask + 1) * 2
      counted : e.entries ≡ count_below d i
      reads : (j : ℕ) → j ≢ value_undef → view e j ≡ view_below d i j

    new-Copied : (k : ℕ) → (d.mask + 1) * 2 ≡ 2 ^ k → Copied 0 (new ((d.mask + 1) * 2))
    unfolding new count_below view_below
    new-Copied k e = record {
      laid_out = (new-IsValid k ((d.mask + 1) * 2) e).laid_out;
      doubled = omega arith;
      counted = refl;
      reads = view-new ((d.mask + 1) * 2);
    }

    -- The slots below a taken one do not hold its key.
    below_absent :
        (i : ℕ) → i ≤ d.mask → key_at d i ≢ value_undef → view_below d i (key_at d i) ≡ none
    below_absent i le full = view_below-absent d (key_at d i) i λ q lt e.
        let same : q ≡ i = IsTable-unique hash_value v i q le (omega arith) full e in
        absurd (omega arith)

    expand_slot-Copied :
        (i : ℕ) (e : ValueMapData)
        → i ≤ d.mask
        → Copied i e
        → (f : ValueMapData) × (expand_slot hash_value d i e ≡ some f) × Copied (suc i) f
    unfolding expand_slot key_at value_at
    expand_slot-Copied i e le c = elim (Bool-cases (key_at d i == value_undef)) [
      | inl t ↦ (
        e,
        rw t,
        record {
          laid_out = c.laid_out;
          doubled = c.doubled;
          counted = unfold count_below in ground (arith, c.counted);
          reads = λ j nu. unfold view_below in ground (arith, c.reads j nu);
        },
      )
      | inr t ↦
          let full : key_at d i ≢ value_undef = ne_of_test (key_at d i) value_undef t in
          let room : e.entries ≤ e.mask = omega (arith, c.counted, count_below-le d i, c.doubled) in
          let absent : view e (key_at d i) ≡ none = c.reads _ full ∙ below_absent i le full in
          let (f, run, mask, st) =
            store_at-Stored hash_value c.laid_out (key_at d i) full (value_at d i) _
              (search-Outcome hash_value c.laid_out (key_at d i) room) in
          (
            f,
            rw (t, run),
            record {
              laid_out = st.laid_out;
              doubled = ap (λ (m : ℕ). m + 1) mask ∙ c.doubled;
              counted = unfold count_below in ground (arith, st.grows, c.counted, absent);
              reads = λ j nu. unfold view_below in ground (arith, st.reads j nu, c.reads j nu);
            },
          )
    ]

    expand_loop-Copied :
        (rounds i : ℕ) (e : ValueMapData)
        → i + rounds ≡ d.mask + 1
        → Copied i e
        → (f : ValueMapData) × (expand_loop hash_value rounds i d e ≡ some f)
          × Copied (d.mask + 1) f
    unfolding expand_loop
    expand_loop-Copied zero i e h c =
        let all : i ≡ d.mask + 1 = omega arith in (e, refl, rw (← all) c)
    expand_loop-Copied (suc rounds) i e h c =
        let (f, run, c') = expand_slot-Copied i e (omega arith) c in
        let (g, run', c'') = expand_loop-Copied rounds (suc i) f (omega arith) c' in
        (g, rw (run, expand_loop) run', c'')

    -- `expand` ends, doubles the table, and keeps the entry count and what is under each key.
    pub expand-view :
        (f : ValueMapData) × (expand hash_value d ≡ some f)
        × IsValid hash_value f
        × (f.mask + 1 ≡ (d.mask + 1) * 2)
        × (f.entries ≡ d.entries)
        × ((j : ℕ) → j ≢ value_undef → view f j ≡ view d j)
    unfolding expand view
    expand-view =
        let n = (d.mask + 1) * 2 in
        let (f, run, c) =
          expand_loop-Copied (d.mask + 1) 0 (new n) (omega arith)
            (new-Copied (suc v.width) (ap (λ (m : ℕ). m * 2) v.sized ∙ sym (pow-suc 2 v.width))) in
        let entries : f.entries ≡ d.entries = c.counted ∙ v.counted in
        let few = count_below-le d (d.mask + 1) in
        (
          f,
          run,
          record { laid_out = c.laid_out; room = omega (arith, c.counted, c.doubled) },
          c.doubled,
          entries,
          c.reads,
        )
