-- ===== src/Collector.antt =====
-- The collector's mark and sweep (src/collector-mark.cpp, src/collector-sweep.cpp). An object is its
-- address; `fields` gives for each what its class's `mark` passes to `MarkFunc`.
pub mod Search
mod Roots
pub mod Lists
pub mod Fields
pub mod Rounds
pub mod Marks
pub mod Sweeps
use mathlib.Core.Option
use mirb.Prelude.Maps.{put}
use mirb.Prelude.{
  ℕ, zero, suc, ◌-◌, Bool, true, false, ◌||◌, Option, none, some, List, [], ◌∷◌, ◌==◌,
  if◌then◌else◌,
}
use mirb.Value.{object_ref}

-- The arguments of `MarkFunc::operator()`: a pointer to an object, a `value_t`, the array of a
-- vector, and the bytes of a `CharArray` with its `static_data`.
pub data Field : Type 0 where
  pointer : ℕ → Field
  word : ℕ → Field
  storage : ℕ → Field
  text : ℕ → Bool → Field

-- The end of a list through the objects.
abbrev pub list_end : ℕ
list_end = 0

-- `marked` and `next` are fields of each object, `mark_list` is the global head.
pub record Marker : Type 0 where
  pub marked : ℕ → Bool
  pub next : ℕ → ℕ
  pub mark_list : ℕ

unfoldable pub mark_pointer : Marker → ℕ → Bool × Marker
mark_pointer s obj = if s.marked obj then (false, s) else (
  true,
  record { marked = put s.marked obj true; next = put s.next obj s.mark_list; mark_list = obj },
)

unfoldable pub mark_value : Marker → ℕ → Bool × Marker
mark_value s obj = if object_ref obj then mark_pointer s obj else (false, s)

-- `header_size` is the size of the block in front of allocated bytes.
module _ (header_size : ℕ) where
  unfoldable pub from_memory : ℕ → ℕ
  from_memory memory = memory - header_size

  -- Whether the callback is called, and the state before that call.
  unfoldable pub mark_field : Marker → Field → Bool × Marker
  mark_field s (pointer obj) = mark_pointer s obj
  mark_field s (word obj) = mark_value s obj
  mark_field s (storage array) = mark_pointer s array
  mark_field s (text bytes static_data) =
      if (bytes == 0) || static_data then (false, s) else mark_pointer s (from_memory bytes)

  -- A class's `mark`, with the callback `dummy`.
  unfoldable pub mark_fields : Marker → List Field → Marker
  mark_fields s [] = s
  mark_fields s (f ∷ fs) = mark_fields (mark_field s f).1 fs

  module _ (fields : ℕ → List Field) where
    -- One round of `mark_children`.
    unfoldable pub mark_current : Marker → Marker
    mark_current s =
        mark_fields
          (record s { next = put s.next s.mark_list list_end; mark_list = s.next s.mark_list })
          (fields s.mark_list)

    -- `none` when the rounds are used up.
    unfoldable pub mark_children : ℕ → Marker → Option Marker
    mark_children zero s = if s.mark_list == list_end then some s else none
    mark_children (suc fuel) s =
        let rest = mark_children fuel (mark_current s) in
        if s.mark_list == list_end then some s else rest

    unfoldable pub mark_root : ℕ → Bool × Marker → Option Marker
    mark_root fuel (called, s) = if called then mark_children fuel s else some s

    unfoldable pub mark : ℕ → Marker → List Field → Option Marker
    mark fuel s [] = some s
    mark fuel s (f ∷ roots) = Option.bind (mark_root fuel (mark_field s f)) (λ t. mark fuel t roots)

-- The objects that stay in the heap list, and the flags afterwards.
unfoldable pub sweep_heap : List ℕ → (ℕ → Bool) → List ℕ × (ℕ → Bool)
sweep_heap [] marked = ([], marked)
sweep_heap (obj ∷ objs) marked =
    let (kept, flags) = sweep_heap objs (put marked obj false) in
    if marked obj then (obj ∷ kept, flags) else sweep_heap objs marked

unfoldable pub sweep_symbols : List ℕ → (ℕ → Bool) → ℕ → Bool
sweep_symbols [] marked = marked
sweep_symbols (obj ∷ objs) marked = sweep_symbols objs (put marked obj false)

unfoldable pub sweep : List ℕ → List ℕ → (ℕ → Bool) → List ℕ × (ℕ → Bool)
sweep heap_list symbol_pool_list marked =
    let (kept, flags) = sweep_heap heap_list marked in (kept, sweep_symbols symbol_pool_list flags)

-- `Collector::collect` where the heap is swept and no interrupt is pending: the heap list and the
-- state after it.
unfoldable pub collect :
    (header_size : ℕ) (fields : ℕ → List Field) (fuel : ℕ) (heap_list symbol_pool_list : List ℕ)
    → List Field
    → Marker
    → Option (List ℕ × Marker)
collect header_size fields fuel heap_list symbol_pool_list roots s =
    Option.map
      (λ t.
        let (kept, flags) = sweep heap_list symbol_pool_list t.marked in
        (kept, record t { marked = flags }))
      (mark header_size fields fuel s roots)
