-- ===== src/Collector/Rounds.antt =====
-- The rounds of marking are those of the search.
use mathlib.Core.Option
use mathlib.Core.Option.{some-injective}
use mathlib.Core.Path.{subst}
use mirb.Prelude.Maps.{put, has}
use mirb.Collector.Search.{Search, add, visit, drain, search, drain_rule}
use mirb.Prelude.Chains.{Chain, Distinct, Chain-put}
use mirb.Collector.Lists.{Links, mark_pointer-Links}
use mirb.Collector.Fields.{
  target, cons_target, targets, mark_target, mark_field-target, IsSound, IsSound-cons,
  mark_fields-Links,
}
use mirb.Collector.{
  Field, list_end, Marker, mark_pointer, mark_current, mark_children, mark_root, mark,
}
use mirb.Prelude.{
  ℕ, zero, suc, ◌≡◌, ◌≢◌, refl, ◌∙◌, inl, inr, Bool, some, List, [], ◌∷◌, arith, Bool-cases,
  Option-cases,
}

module _ (header_size : ℕ) where
  module _ (fields : ℕ → List Field) where
    abbrev pub edges : ℕ → List ℕ
    edges a = targets header_size (fields a)

    popped-Links :
        (s : Marker) (marked : ℕ → Bool) (a : ℕ) (rest : List ℕ)
        → Links s (record { marked = marked; pending = a ∷ rest })
        → (s.mark_list ≡ a)
          × Links
              (record s { next = put s.next s.mark_list list_end; mark_list = s.next s.mark_list })
              (record { marked = marked; pending = rest })
    unfolding Chain Distinct has put
    popped-Links s marked a rest h =
        let (at, _, chain) = h.chain in
        let (out, distinct) = h.distinct in
        let put_chain = Chain-put s.next (s.next a) a list_end rest out chain in
        (
          at,
          record {
            flags = h.flags;
            chain = rw at put_chain;
            distinct = distinct;
            queued = λ b. ground (arith, h.queued b);
            idle = λ b. ground (arith, h.idle b, at);
          },
        )

    mark_current-Links :
        (s : Marker) (w : Search) (a : ℕ) (rest : List ℕ)
        → IsSound header_size (edges a)
        → w.pending ≡ a ∷ rest
        → Links s w
        → Links (mark_current header_size fields s) (visit edges w a rest)
    unfolding mark_current visit
    mark_current-Links s w a rest sound e h =
        let (at, popped) =
          popped-Links s w.marked a rest
            (subst (λ p. Links s (record { marked = w.marked; pending = p })) e h) in
        rw at (mark_fields-Links header_size _ _ (fields a) sound (rw at at popped))

    head_end : {s : Marker} {w : Search} → Links s w → w.pending ≡ [] → s.mark_list ≡ list_end
    unfolding Chain
    head_end {s} {w} h e = subst (λ p. Chain s.next s.mark_list p) e h.chain

    head_pending :
        {s : Marker} {w : Search} {a : ℕ} {rest : List ℕ}
        → Links s w
        → w.pending ≡ a ∷ rest
        → s.mark_list ≢ list_end
    unfolding Chain
    head_pending {s} {w} h e =
        let (at, nz, _) = subst (λ p. Chain s.next s.mark_list p) e h.chain in
        ground (arith, at, nz)

    mark_children-end :
        (fuel : ℕ) (s : Marker)
        → s.mark_list ≡ list_end
        → mark_children header_size fields fuel s ≡ some s
    unfolding mark_children
    mark_children-end zero s e = ground arith
    mark_children-end (suc fuel) s e = ground arith

    mark_children-suc :
        (fuel : ℕ) (s : Marker)
        → s.mark_list ≢ list_end
        → mark_children header_size fields (suc fuel) s
          ≡ mark_children header_size fields fuel (mark_current header_size fields s)
    unfolding mark_children
    mark_children-suc fuel s n = ground arith

    -- The bounded loop takes the same rounds as the search.
    mark_children-Links :
        ((a : ℕ) → IsSound header_size (edges a))
        → (fuel : ℕ) (s : Marker) (w u : Search) (pending : List ℕ) → w.pending ≡ pending
        → Links s w
        → drain edges fuel w pending ≡ some u
        → (t : Marker) × (mark_children header_size fields fuel s ≡ some t) × Links t u
    unfolding drain
    mark_children-Links sound fuel s w u [] e h run = (
      s,
      mark_children-end fuel s (head_end h e),
      subst (λ v. Links s v) (some-injective _ _ run) h,
    )
    mark_children-Links sound zero s w u (a ∷ rest) e h run = ground arith
    mark_children-Links sound (suc fuel) s w u (a ∷ rest) e h run =
        let next = visit edges w a rest in
        let (t, ends, links) =
          mark_children-Links sound fuel (mark_current header_size fields s) next u next.pending
            refl (mark_current-Links s w a rest (sound a) e h) run in
        (t, mark_children-suc fuel s (head_pending h e) ∙ ends, links)

    mark_root-children :
        (fuel : ℕ) (s : Marker) (a : ℕ)
        → s.mark_list ≡ list_end
        → mark_root header_size fields fuel (mark_pointer s a)
          ≡ mark_children header_size fields fuel (mark_pointer s a).1
    unfolding mark_root mark_pointer
    mark_root-children fuel s a e =
        let ends = mark_children-end fuel s e in
        elim (Bool-cases (s.marked a)) [ inl t ↦ rw (t, ends) refl | inr t ↦ rw t refl ]

    mark_root-Links :
        ((a : ℕ) → IsSound header_size (edges a))
        → (fuel : ℕ) (s : Marker) (w u : Search) (a : ℕ) → a ≢ list_end
        → w.pending ≡ []
        → Links s w
        → drain edges fuel (add w a) (add w a).pending ≡ some u
        → (t : Marker) × (mark_root header_size fields fuel (mark_pointer s a) ≡ some t) × Links t u
    unfolding mark_root
    mark_root-Links sound fuel s w u a nz e h run =
        let (links, _) = mark_pointer-Links s w a nz h in
        let (t, ends, after) =
          mark_children-Links sound fuel (mark_pointer s a).1 (add w a) u _ refl links run in
        (t, mark_root-children fuel s a (head_end h e) ∙ ends, after)

    drain_idle :
        (fuel : ℕ) (w t : Search) (pending : List ℕ)
        → w.pending ≡ pending
        → drain edges fuel w pending ≡ some t
        → t.pending ≡ []
    drain_idle fuel w t pending e run =
        (drain_rule edges (λ _. ℕ) (λ _ _ _ _ n. n) fuel w t pending e 0 run).1

    -- Marking with a list that runs through the objects' own fields implements the search with a
    -- list of pending objects: where the search from the targets of the roots ends, so does
    -- marking within the same rounds, in a state whose flags and links hold the result of the
    -- search. No field may refer to the end of the list.
    pub mark-Links :
        ((a : ℕ) → IsSound header_size (edges a))
        → (fuel : ℕ) (s : Marker) (w u : Search) (roots : List Field)
        → IsSound header_size (targets header_size roots)
        → w.pending ≡ []
        → Links s w
        → search edges fuel w (targets header_size roots) ≡ some u
        → (t : Marker) × (mark header_size fields fuel s roots ≡ some t) × Links t u
    unfolding mark search targets cons_target mark_target mark_root Option.bind
    mark-Links sound fuel s w u [] ok e h run =
        (s, refl, subst (λ v. Links s v) (some-injective _ _ run) h)
    mark-Links sound fuel s w u (f ∷ roots) ok e h run =
        let (later, now) = IsSound-cons header_size (targets header_size roots) ok in
        elim (Option-cases (target header_size f)) [
          | inl nothing ↦
              let (t, ends, links) =
                mark-Links sound fuel s w u roots later e h (rw nothing at run) in
              (t, rw (mark_field-target header_size s f, nothing) ends, links)
          | inr (a, at) ↦ elim (Option-cases (drain edges fuel (add w a) (add w a).pending)) [
            | inl out ↦ ground (arith, at, out)
            | inr (v, drained) ↦
                let (t1, root_ends, after) =
                  mark_root-Links sound fuel s w v a (now a at) e h drained in
                let (t, ends, links) =
                  mark-Links sound fuel t1 v u roots later
                    (drain_idle fuel (add w a) v (add w a).pending refl drained) after
                    (rw (at, drained) at run) in
                (t, rw (mark_field-target header_size s f, at, root_ends) ends, links)
          ]
        ]
