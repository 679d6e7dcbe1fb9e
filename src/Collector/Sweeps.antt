-- ===== src/Collector/Sweeps.antt =====
-- Sweeping, and a whole collection.
use mirb.Prelude.Maps.{put, has}
use mirb.Prelude.Chains.{Distinct}
use mirb.Prelude.Lists.{length}
use mirb.Collector.Search.{Reaches, child}
use mirb.Collector.Fields.{targets}
use mirb.Collector.Rounds.{edges}
use mirb.Collector.Marks.{IsHeap, IsIdle, Reaches-live, mark-Reaches}
use mirb.Collector.{Field, Marker, sweep_heap, sweep_symbols, sweep, collect}
use mirb.Prelude.{
  ℕ, ◌≡◌, ◌∙◌, sym, refl, inl, inr, Bool, true, false, not, ◌&&◌, ◌||◌, List, [], ◌∷◌, ◌++◌, some,
  ◌↔◌, arith, Bool-cases,
}

sweep_heap-kept :
    (objs : List ℕ) (marked : ℕ → Bool) (a : ℕ)
    → Distinct objs
    → has a (sweep_heap objs marked).0 ≡ (has a objs && marked a)
unfolding sweep_heap has put Distinct
sweep_heap-kept [] marked a d = refl
sweep_heap-kept (b ∷ objs) marked a d =
    let kept = sweep_heap-kept objs (put marked b false) a d.1 in
    let plain = sweep_heap-kept objs marked a d.1 in ground (arith, kept, plain)

sweep_heap-flags :
    (objs : List ℕ) (marked : ℕ → Bool) (a : ℕ)
    → (sweep_heap objs marked).1 a ≡ (marked a && not (has a objs))
unfolding sweep_heap has put
sweep_heap-flags [] marked a = ground arith
sweep_heap-flags (b ∷ objs) marked a =
    ground (arith, sweep_heap-flags objs (put marked b false) a, sweep_heap-flags objs marked a)

sweep_symbols-flags :
    (objs : List ℕ) (marked : ℕ → Bool) (a : ℕ)
    → sweep_symbols objs marked a ≡ (marked a && not (has a objs))
unfolding sweep_symbols has put
sweep_symbols-flags [] marked a = ground arith
sweep_symbols-flags (b ∷ objs) marked a =
    ground (arith, sweep_symbols-flags objs (put marked b false) a)

sweep_heap-Distinct :
    (objs : List ℕ) (marked : ℕ → Bool) → Distinct objs → Distinct (sweep_heap objs marked).0
unfolding sweep_heap Distinct
sweep_heap-Distinct [] marked d = tt
sweep_heap-Distinct (b ∷ objs) marked d =
    let fewer = sweep_heap-kept objs (put marked b false) b d.1 in
    elim (Bool-cases (marked b)) [
      | inl t ↦ rw t (ground (arith, fewer, d.0), sweep_heap-Distinct objs (put marked b false) d.1)
      | inr t ↦ rw t (sweep_heap-Distinct objs marked d.1)
    ]

has-append : (a : ℕ) (bs cs : List ℕ) → has a (bs ++ cs) ≡ (has a bs || has a cs)
unfolding has
has-append a [] cs = refl
has-append a (b ∷ bs) cs = ground (arith, has-append a bs cs)

module _ (header_size : ℕ) (fields : ℕ → List Field) where
  -- What a collection leaves: exactly the objects of the heap that the roots reach, with everything
  -- they refer to, in a state from which the next collection can start.
  pub record Keeps (heap symbols : List ℕ) (roots : List Field) (kept : List ℕ) (t : Marker)
      : Type 0 where
    pub exact :
        (a : ℕ)
        → (has a kept ≡ true)
          ↔ ((has a heap ≡ true) × Reaches (edges header_size fields) (targets header_size roots) a)
    pub whole :
        (a b : ℕ)
        → has a kept ≡ true
        → has b (edges header_size fields a) ≡ true
        → (has b kept || has b symbols) ≡ true
    pub distinct : Distinct kept
    pub idle : IsIdle t

  -- From an idle state, and on a heap that holds all that its objects and the roots refer to, a
  -- collection by mark and sweep ends within as many rounds as there are objects. It keeps exactly
  -- the objects of the heap list that the roots reach, loses nothing that a kept object refers to,
  -- and leaves an idle state.
  pub collect-Keeps :
      (heap symbols : List ℕ) (roots : List Field) (s : Marker)
      → IsHeap header_size fields (heap ++ symbols) roots
      → IsIdle s
      → Distinct heap
      → (kept : List ℕ) × (t : Marker) × (collect header_size fields
            (length (heap ++ symbols))
            heap
            symbols
            roots
            s
          ≡ some (kept, t))
        × Keeps heap symbols roots kept t
  unfolding collect sweep
  collect-Keeps heap symbols roots s h idle d =
      let (t, run, reached, empty, unlinked) =
        mark-Reaches header_size fields (heap ++ symbols) roots s h idle in
      let kept = (sweep_heap heap t.marked).0 in
      let flags = sweep_symbols symbols (sweep_heap heap t.marked).1 in
      let in_live : (a : ℕ) → t.marked a ≡ true → (has a heap || has a symbols) ≡ true = λ a m.
        sym (has-append a heap symbols) ∙ Reaches-live header_size fields h ((reached a).0 m) in
      (
        kept,
        record t { marked = flags },
        rw run refl,
        record {
          exact = λ a. (
            (λ i. (
              ground (arith, sweep_heap-kept heap t.marked a d),
              (reached a).0 (ground (arith, sweep_heap-kept heap t.marked a d)),
            )),
            λ (i, r). ground (arith, (reached a).1 r, sweep_heap-kept heap t.marked a d),
          );
          whole = λ a b i e.
              let m =
                (reached b).1
                  (child ((reached a).0 (ground (arith, sweep_heap-kept heap t.marked a d))) e) in
              ground (arith, m, in_live b m, sweep_heap-kept heap t.marked b d);
          distinct = sweep_heap-Distinct heap t.marked d;
          idle = record {
            clear = λ a. ground (
              arith,
              sweep_symbols-flags symbols (sweep_heap heap t.marked).1 a,
              sweep_heap-flags heap t.marked a,
              in_live a,
            );
            unlinked = unlinked;
            empty = empty;
          };
        },
      )
