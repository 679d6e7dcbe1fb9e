-- ===== src/Collector/Lists.antt =====
-- The list of pending objects through their own fields, and that marking with it is the search.
use mathlib.Core.Path.{subst}
use mirb.Prelude.Maps.{put, has}
use mirb.Prelude.Chains.{Chain, Distinct, Chain-put, put-same}
use mirb.Collector.Search.{Search, add}
use mirb.Collector.{list_end, Marker, mark_pointer}
use mirb.Prelude.{ℕ, ◌≡◌, ◌≢◌, refl, sym, ap, inl, inr, true, false, not, arith, Bool-cases}

-- The fields of the objects and the head hold the search `w`.
pub record Links (s : Marker) (w : Search) : Type 0 where
  pub flags : s.marked ≡ w.marked
  pub chain : Chain s.next s.mark_list w.pending
  pub distinct : Distinct w.pending
  pub queued : (b : ℕ) → has b w.pending ≡ true → w.marked b ≡ true
  pub idle : (b : ℕ) → has b w.pending ≡ false → s.next b ≡ list_end

pub mark_pointer-Links :
    (s : Marker) (w : Search) (obj : ℕ)
    → obj ≢ list_end
    → Links s w
    → Links (mark_pointer s obj).1 (add w obj) × ((mark_pointer s obj).0 ≡ not (w.marked obj))
unfolding mark_pointer add Chain Distinct has put
mark_pointer-Links s w obj nz h =
    let same = ap (λ f. f obj) h.flags in
    elim (Bool-cases (w.marked obj)) [
      | inl t ↦ rw (same, t) (h, refl)
      | inr t ↦
          let out : has obj w.pending ≡ false = ground (arith, h.queued obj) in
          let chain : Chain (put s.next obj s.mark_list) (put s.next obj s.mark_list obj)
              w.pending =
            subst (λ n. Chain (put s.next obj s.mark_list) n w.pending)
              (sym (put-same s.next obj s.mark_list))
              (Chain-put s.next s.mark_list obj s.mark_list w.pending out h.chain) in
          rw (same, t)
            (
              record {
                flags = ap (λ f. put f obj true) h.flags;
                chain = (refl, nz, chain);
                distinct = (out, h.distinct);
                queued = λ b. ground (arith, h.queued b);
                idle = λ b. ground (arith, h.idle b);
              },
              refl,
            )
    ]
