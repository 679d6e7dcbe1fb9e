-- ===== src/Collector/Marks.antt =====
-- A whole mark: the bounded loops end, and the flags that are set are those of what the roots reach.
use mathlib.Core.Path.{subst}
use mirb.Prelude.Maps.{has}
use mirb.Prelude.Lists.{length}
use mirb.Collector.Search.{Search, Reaches, root, child}
use mirb.Collector.Roots.{search-Reaches}
use mirb.Prelude.Chains.{Chain, Distinct}
use mirb.Collector.Lists.{Links}
use mirb.Collector.Fields.{targets, IsSound}
use mirb.Collector.Rounds.{edges, mark-Links}
use mirb.Collector.{Field, list_end, Marker, mark}
use mirb.Prelude.{ℕ, ◌≡◌, refl, sym, ap, ◌↔◌, true, false, some, List, [], arith}

-- `live` holds every object that the roots or other objects refer to, and no object stands at the
-- end of the lists.
pub record IsHeap (header_size : ℕ) (fields : ℕ → List Field) (live : List ℕ) (roots : List Field)
    : Type 0 where
  pub closed : (a b : ℕ) → has b (edges header_size fields a) ≡ true → has b live ≡ true
  pub rooted : (b : ℕ) → has b (targets header_size roots) ≡ true → has b live ≡ true
  pub no_end : has list_end live ≡ false

-- Between collections no object is marked or in the list.
pub record IsIdle (s : Marker) : Type 0 where
  pub clear : (a : ℕ) → s.marked a ≡ false
  pub unlinked : (a : ℕ) → s.next a ≡ list_end
  pub empty : s.mark_list ≡ list_end

module _ (header_size : ℕ) (fields : ℕ → List Field) where
  IsHeap-IsSound :
      {live : List ℕ} {roots : List Field} (bs : List ℕ)
      → IsHeap header_size fields live roots
      → ((b : ℕ) → has b bs ≡ true → has b live ≡ true)
      → IsSound header_size bs
  IsHeap-IsSound {live} bs h in_live b i e =
      ground (arith, in_live b i, ap (λ c. has c live) e, h.no_end)

  pub Reaches-live :
      {live : List ℕ} {roots : List Field} {a : ℕ}
      → IsHeap header_size fields live roots
      → Reaches (edges header_size fields) (targets header_size roots) a
      → has a live ≡ true
  Reaches-live {a = a} h (root i) = h.rooted a i
  Reaches-live {a = b} h (child {a = a} _ i) = h.closed a b i

  -- On a heap that holds all that its objects and the roots refer to, marking from an idle state
  -- ends within as many rounds as there are objects. An object is then marked exactly when the
  -- roots reach it, and the mark list is empty again: neither its head nor any object leads on.
  pub mark-Reaches :
      (live : List ℕ) (roots : List Field) (s : Marker)
      → IsHeap header_size fields live roots
      → IsIdle s
      → (t : Marker) × (mark header_size fields (length live) s roots ≡ some t)
        × ((a : ℕ)
            → (t.marked a ≡ true)
              ↔ Reaches (edges header_size fields) (targets header_size roots) a)
        × (t.mark_list ≡ list_end)
        × ((a : ℕ) → t.next a ≡ list_end)
  unfolding Chain Distinct has
  mark-Reaches live roots s h idle =
      let w : Search = record { marked = s.marked; pending = [] } in
      let (u, run, done, marked) =
        search-Reaches (edges header_size fields) live w (targets header_size roots) h.closed
          h.rooted idle.clear refl in
      let start : Links s w = record {
        flags = refl;
        chain = idle.empty;
        distinct = tt;
        queued = λ b. ground arith;
        idle = λ b _. idle.unlinked b;
      } in
      let (t, ends, links) =
        mark-Links header_size fields
          (λ a. IsHeap-IsSound (edges header_size fields a) h (h.closed a)) (length live) s w u
          roots (IsHeap-IsSound (targets header_size roots) h h.rooted) refl start run in
      (
        t,
        ends,
        λ a.
            subst
              (λ f. (f a ≡ true) ↔ Reaches (edges header_size fields) (targets header_size roots) a)
              (sym links.flags) (marked a),
        subst (λ p. Chain t.next t.mark_list p) done links.chain,
        λ a. links.idle a (ground (arith, ap (λ p. has a p) done)),
      )
