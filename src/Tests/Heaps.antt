-- ===== src/Tests/Heaps.antt =====
-- Collections of a heap of five objects.
use mathlib.Core.Option
use mirb.Prelude.Maps.{put, has}
use mirb.Prelude.Lists.{length}
use mirb.Collector.Search.{Search, search, add, scan, visit, drain, Reaches}
use mirb.Prelude.Chains.{Chain, Distinct}
use mirb.Collector.Lists.{Links}
use mirb.Collector.Fields.{target, cons_target, targets}
use mirb.Collector.Rounds.{edges, mark-Links}
use mirb.Collector.Marks.{IsHeap, IsIdle, mark-Reaches}
use mirb.Collector.Sweeps.{Keeps, collect-Keeps}
use mirb.Collector.{
  Field, pointer, word, text, list_end, Marker, mark_pointer, mark_value, mark_field, mark_fields,
  mark_current, mark_children, mark_root, mark, from_memory, sweep, sweep_heap, collect,
}
use mirb.Value.{object_ref}
use mirb.Prelude.{
  ℕ, ◌≡◌, ◌≢◌, ◌↔◌, refl, inl, inr, true, false, ◌||◌, some, List, [], ◌∷◌, ◌++◌, arith, ◌==◌,
  if◌then◌else◌, Bool-cases,
}

-- 8 and 16 refer to each other, 16 also to the symbol 24, and nothing to 32. The word 21 is a
-- Fixnum, and the bytes of 40 follow a header of 8 bytes.
abbrev slots : ℕ → List Field
slots a =
    if a == 8
    then pointer 16 ∷ word 21 ∷ []
    else if a == 16
    then word 24 ∷ pointer 8 ∷ text 48 false ∷ []
    else []

abbrev heap : List ℕ
heap = 8 ∷ 16 ∷ 32 ∷ 40 ∷ []

abbrev symbols : List ℕ
symbols = 24 ∷ []

abbrev roots : List Field
roots = word 21 ∷ word 8 ∷ pointer 16 ∷ []

abbrev rest_state : Marker
rest_state = record { marked = λ _. false; next = λ _. list_end; mark_list = list_end }

rest_state-IsIdle : IsIdle rest_state
rest_state-IsIdle = record { clear = λ a. refl; unlinked = λ a. refl; empty = refl }

has-live :
    (b : ℕ)
    → has b (heap ++ symbols)
      ≡ ((b == 8) || ((b == 16) || ((b == 32) || ((b == 40) || ((b == 24) || false)))))
unfolding has
has-live b = refl

slots-IsHeap : IsHeap 8 slots (heap ++ symbols) roots
unfolding has targets target cons_target object_ref from_memory
slots-IsHeap = record {
  closed = λ a b i. elim (Bool-cases (a == 8)) [
    | inl t ↦ ground (arith, rw t at i, has-live b)
    | inr t ↦ elim (Bool-cases (a == 16)) [
      | inl u ↦ ground (arith, rw (t, u) at i, has-live b)
      | inr u ↦ ground (arith, rw (t, u) at i, has-live b)
    ]
  ];
  rooted = λ b. ground (arith, has-live b);
  no_end = refl;
}

heap-Distinct : Distinct heap
unfolding Distinct has
heap-Distinct = (refl, (refl, (refl, (refl, tt))))

swept_heap :
    Option.map (λ r. r.0) (collect 8 slots 5 heap symbols roots rest_state)
    ≡ some (8 ∷ 16 ∷ 40 ∷ [])
unfolding collect mark Option.bind mark_root mark_field mark_value object_ref mark_pointer
    mark_children mark_current mark_fields put from_memory sweep sweep_heap
swept_heap = refl

collect-Keeps_example :
    (kept : List ℕ) × (t : Marker) × (collect 8 slots
        (length (heap ++ symbols))
        heap
        symbols
        roots
        rest_state
      ≡ some (kept, t))
    × Keeps 8 slots heap symbols roots kept t
collect-Keeps_example =
    collect-Keeps 8 slots heap symbols roots rest_state slots-IsHeap rest_state-IsIdle heap-Distinct

mark-Reaches_example :
    (t : Marker) × (mark 8 slots (length (heap ++ symbols)) rest_state roots ≡ some t)
    × ((a : ℕ) → (t.marked a ≡ true) ↔ Reaches (edges 8 slots) (targets 8 roots) a)
    × (t.mark_list ≡ list_end)
    × ((a : ℕ) → t.next a ≡ list_end)
mark-Reaches_example =
    mark-Reaches 8 slots (heap ++ symbols) roots rest_state slots-IsHeap rest_state-IsIdle

abbrev found : Search
found = record {
  marked = put (put (put (put (λ _. false) 8 true) 16 true) 24 true) 40 true;
  pending = [];
}

slots_sound : (b : ℕ) → has b (heap ++ symbols) ≡ true → b ≢ list_end
slots_sound b i e = ground (arith, has-live b, e)

mark-Links_example : (t : Marker) × (mark 8 slots 4 rest_state roots ≡ some t) × Links t found
unfolding Chain Distinct has targets target cons_target object_ref search Option.bind drain visit
    scan add put from_memory
mark-Links_example =
    mark-Links 8 slots (λ a b i. slots_sound b (slots-IsHeap.closed a b i)) 4 rest_state
      (record { marked = λ _. false; pending = [] }) found roots
      (λ b i. slots_sound b (slots-IsHeap.rooted b i)) refl
      (record {
        flags = refl;
        chain = refl;
        distinct = tt;
        queued = λ b. ground arith;
        idle = λ b _. refl;
      })
      refl
