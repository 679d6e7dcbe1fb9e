-- ===== src/ValueMap/Probe.antt =====
-- The probe sequence of `search`, and where it ends.
use Prim.Native.Nat.{bit_and}
use native.Mathlib.Nat.{mod-eq_of_lt}
use mirb.Prelude.Bits.{bit_and-mask, bit_and-le}
use mirb.Prelude.{
  ℕ, zero, suc, ◌+◌, ◌-◌, ◌*◌, ◌^◌, ◌≤◌, ◌<◌, ◌≡◌, ◌≢◌, refl, sym, ◌∙◌, ap, ◌⊎◌, inl, inr, false,
  arith, ◌==◌, ==_iff, if◌then◌else◌, ltb, leb, Bool-cases,
}
use mirb.ValueMap.{
  ValueMapData, value_undef, key_slot, value_slot, Found, free, matched, stuck, search_loop,
}

-- The two words of slot `p`.
unfoldable pub key_at : ValueMapData → ℕ → ℕ
key_at d p = key_slot d (p * 2)

unfoldable pub value_at : ValueMapData → ℕ → ℕ
value_at d p = value_slot d (p * 2)

-- The slot that `search` looks at in round `e` from `home`.
unfoldable pub probe : ℕ → ℕ → ℕ → ℕ
probe mask home zero = home
probe mask home (suc e) = bit_and (probe mask home e + 1) mask

pub ne_of_test : (a b : ℕ) → (a == b) ≡ false → a ≢ b
ne_of_test a b h = ground arith

module _ (k mask : ℕ) (sized : mask + 1 ≡ 2 ^ k) where
  next-mask : (c : ℕ) → c ≤ mask → bit_and (c + 1) mask ≡ (if c == mask then 0 else c + 1)
  next-mask c h = elim (Bool-cases (c == mask)) [
    | inl e ↦
        let e' : c ≡ mask = (==_iff c mask).0 e in
        rw e (bit_and-mask k (c + 1) mask sized ∙ rw (← sized, e') (grind arith))
    | inr e ↦
        let ne : c ≢ mask = ne_of_test c mask e in
        rw e (bit_and-mask k (c + 1) mask sized ∙ mod-eq_of_lt (omega arith))
  ]

  -- Without a wrap the sequence is `home + e`, with one it starts again at 0.
  pub probe_lem :
      (home e : ℕ)
      → home ≤ mask
      → e ≤ mask
      → probe mask home e ≡ (if ltb mask (home + e) then home + e - (mask + 1) else home + e)
  unfolding probe
  probe_lem home zero h b = ground arith
  probe_lem home (suc e) h b =
      ground (arith, probe_lem home e h (omega arith), next-mask (probe mask home e))

  -- Every slot comes up within one round trip.
  pub probe_onto :
      (home p : ℕ) → home ≤ mask → p ≤ mask → (e : ℕ) × (e ≤ mask) × (probe mask home e ≡ p)
  probe_onto home p h b = elim (Bool-cases (leb home p)) [
    | inl e ↦ (p - home, omega arith, ground (arith, probe_lem home (p - home) h (omega arith)))
    | inr e ↦
        let lt : p < home = ground arith in
        (
          p + (mask + 1) - home,
          omega arith,
          ground (arith, probe_lem home (p + (mask + 1) - home) h (omega arith)),
        )
  ]

  pub probe-le : (home e : ℕ) → home ≤ mask → probe mask home e ≤ mask
  unfolding probe
  probe-le home zero h = h
  probe-le home (suc e) h = bit_and-le (probe mask home e + 1) mask

-- The probe sequence of `key` comes to slot `p`, over slots that other keys have taken.
pub record Reaches (d : ValueMapData) (key home p : ℕ) : Type 0 where
  pub offset : ℕ
  pub below : offset ≤ d.mask
  pub arrives : probe d.mask home offset ≡ p
  pub clear :
      (e : ℕ)
      → e < offset
      → (key_at d (probe d.mask home e) ≢ value_undef) × (key_at d (probe d.mask home e) ≢ key)

-- What `search` promises of its end.
abbrev pub Outcome : ValueMapData → ℕ → ℕ → Found → Type 0
Outcome d key home (free i) =
    (p : ℕ) × (i ≡ p * 2) × Reaches d key home p × (key_at d p ≡ value_undef)
Outcome d key home (matched i) =
    (p : ℕ) × (i ≡ p * 2) × Reaches d key home p × (key_at d p ≡ key) × (key ≢ value_undef)
Outcome d key home stuck = ⊥

-- Slot `p` is taken by a key other than `key`.
abbrev pub Taken : ValueMapData → ℕ → ℕ → Type 0
Taken d key p = (key_at d p ≢ value_undef) × (key_at d p ≢ key)

module _ (d : ValueMapData) (key home : ℕ) where
  Taken-suc :
      (e : ℕ)
      → ((j : ℕ) → j < e → Taken d key (probe d.mask home j))
      → Taken d key (probe d.mask home e)
      → (j : ℕ) → j < suc e
      → Taken d key (probe d.mask home j)
  Taken-suc e clear t j h = elim (Bool-cases (j == e)) [
    | inl same ↦ rw ((==_iff j e).0 same) t
    | inr other ↦ let ne : j ≢ e = ne_of_test j e other in clear j (omega arith)
  ]

  -- The loop ends before its fuel does if a free slot lies ahead.
  pub search_loop-Outcome :
      (fuel e last : ℕ)
      → e ≤ last
      → last < e + fuel
      → last ≤ d.mask
      → key_at d (probe d.mask home last) ≡ value_undef
      → ((j : ℕ) → j < e → Taken d key (probe d.mask home j))
      → Outcome d key home (search_loop fuel d key (probe d.mask home e))
  unfolding search_loop key_at probe
  search_loop-Outcome zero e last a b c empty clear = absurd (omega arith)
  search_loop-Outcome (suc fuel) e last a b c empty clear =
      let p = probe d.mask home e in
      let r : Reaches d key home p = record {
        offset = e;
        below = omega arith;
        arrives = refl;
        clear = clear;
      } in
      elim (Bool-cases (key_at d p == value_undef)) [
        | inl t ↦ rw t (p, refl, r, (==_iff (key_at d p) value_undef).0 t)
        | inr t ↦
            let full : key_at d p ≢ value_undef = ne_of_test (key_at d p) value_undef t in
            elim (Bool-cases (key_at d p == key)) [
              | inl u ↦
                  let same : key_at d p ≡ key = (==_iff (key_at d p) key).0 u in
                  rw (t, u) (p, refl, r, same, λ w. full (same ∙ w))
              | inr u ↦
                  let ne : key_at d p ≢ key = ne_of_test (key_at d p) key u in
                  let ahead : e ≢ last = λ w. full (rw w empty) in
                  rw (t, u)
                    (search_loop-Outcome fuel (suc e) last (omega arith) (omega arith) c empty
                      (Taken-suc e clear (full, ne)))
            ]
      ]

  abbrev pub Ends : ℕ → Type 0
  Ends p = (key_at d p ≡ value_undef) ⊎ (key_at d p ≡ key)

  not-Ends : (p q : ℕ) → Taken d key p → Ends q → p ≢ q
  not-Ends p q t (inl e) w = t.0 (rw w e)
  not-Ends p q t (inr e) w = t.1 (rw w e)

  not-earlier :
      (p q : ℕ) (r : Reaches d key home p) (s : Reaches d key home q)
      → Ends p
      → ¬ (r.offset < s.offset)
  not-earlier p q r s e lt = not-Ends _ p (s.clear r.offset lt) e r.arrives

  -- The sequence ends in one slot only.
  pub Reaches-unique :
      (p q : ℕ) → Reaches d key home p → Reaches d key home q → Ends p → Ends q → p ≡ q
  Reaches-unique p q r s ep eq =
      let same : r.offset ≡ s.offset =
        omega (arith, not-earlier p q r s ep, not-earlier q p s r eq) in
      sym r.arrives ∙ ap (probe d.mask home) same ∙ s.arrives
