-- ===== src/Collector/Roots.antt =====
-- The search from one root after the other: it ends, and what it marks is what the roots reach.
use mathlib.Core.Option
use mathlib.Core.Option.{some-injective}
use mathlib.Core.Path.{subst}
use mirb.Prelude.Maps.{put, has}
use mirb.Prelude.Lists.{length}
use mirb.Collector.Search.{
  Search, add, visit, drain, search, Reaches, root, child, scan-marked, unseen_le, Tracks,
  visit-Tracks, drain_rule, drain_ends, add-unseen,
}
use mirb.Prelude.{
  Option-cases, ◌==◌, ℕ, ◌≤◌, ◌≡◌, refl, ap, ◌↔◌, inl, inr, true, false, ◌||◌, some, List, [], ◌∷◌,
  arith, Bool-cases,
}

add-marked : (w : Search) (a b : ℕ) → (add w a).marked b ≡ (w.marked b || (b == a))
unfolding add put
add-marked w a b = ground arith

module _ (edges : ℕ → List ℕ) where
  -- What one root leaves: the invariant with nothing pending, and more marked than before.
  pub record Advances (roots : List ℕ) (w t : Search) : Type 0 where
    pub tracks : Tracks edges roots t
    pub idle : t.pending ≡ []
    pub kept : (b : ℕ) → w.marked b ≡ true → t.marked b ≡ true

  add-Tracks :
      {roots : List ℕ} (w : Search) (a : ℕ)
      → Tracks edges roots w
      → has a roots ≡ true
      → Tracks edges roots (add w a)
  unfolding add put has
  add-Tracks {roots} w a h i = record {
    queued = λ b. ground (arith, h.queued b);
    closed = λ b c. ground (arith, h.closed b c);
    sound = λ b m. elim (Bool-cases (w.marked b)) [
      | inl t ↦ h.sound b t
      | inr t ↦ root (subst (λ c. has c roots ≡ true) (ground arith) i)
    ];
  }

  drain-Advances :
      {roots : List ℕ} (fuel : ℕ) (w t : Search)
      → Tracks edges roots w
      → drain edges fuel w w.pending ≡ some t
      → Advances roots w t
  unfolding visit
  drain-Advances {roots} fuel w t h run =
      let ((tracks, kept), idle) =
        drain_rule edges
          (λ u. Tracks edges roots u × ((b : ℕ) → w.marked b ≡ true → u.marked b ≡ true))
          (λ u a rest e g. (
            visit-Tracks edges a rest g.0 e,
            λ b m. ground (arith, g.1 b m, scan-marked (record u { pending = rest }) (edges a) b),
          ))
          fuel w t w.pending refl (h, λ b m. m) run in
      record { tracks = tracks; idle = idle; kept = kept }

  search-Advances :
      {all : List ℕ} (fuel : ℕ) (w t : Search) (roots : List ℕ)
      → Tracks edges all w
      → w.pending ≡ []
      → ((b : ℕ) → has b roots ≡ true → has b all ≡ true)
      → search edges fuel w roots ≡ some t
      → Advances all w t × ((b : ℕ) → has b roots ≡ true → t.marked b ≡ true)
  unfolding search Option.bind has add put
  search-Advances {all} fuel w t [] h idle i run =
      let same = some-injective _ _ run in
      (
        subst (λ u. Advances all w u) same record { tracks = h; idle = idle; kept = λ b m. m },
        λ b none_in. ground arith,
      )
  search-Advances {all} fuel w t (a ∷ roots) h idle i run =
      let started = add-Tracks w a h (i a (ground arith)) in
      elim (Option-cases (drain edges fuel (add w a) (add w a).pending)) [
        | inl e ↦ ground arith
        | inr (u, e) ↦
            let first = drain-Advances fuel (add w a) u started e in
            let (rest, all_in) =
              search-Advances fuel u t roots first.tracks first.idle (λ b m. i b (ground arith))
                (rw e at run) in
            let now : (b : ℕ) → (add w a).marked b ≡ true → t.marked b ≡ true =
              λ b m. rest.kept b (first.kept b m) in
            (
              record {
                tracks = rest.tracks;
                idle = rest.idle;
                kept = λ b m. now b (ground (arith, add-marked w a b));
              },
              λ b m. elim (Bool-cases (has b roots)) [
                | inl t ↦ all_in b t
                | inr t ↦ now b (ground (arith, add-marked w a b))
              ],
            )
      ]

  Tracks-marked :
      {roots : List ℕ} {t : Search}
      → Tracks edges roots t
      → t.pending ≡ []
      → ((b : ℕ) → has b roots ≡ true → t.marked b ≡ true)
      → (a : ℕ) → Reaches edges roots a
      → t.marked a ≡ true
  unfolding has
  Tracks-marked h idle r a (root i) = r a i
  Tracks-marked h idle r a (child {a = b} from i) =
      h.closed b a (Tracks-marked h idle r b from) (ground (arith, idle)) i

  -- The heap holds what its objects hold.
  abbrev pub IsClosed : List ℕ → Type 0
  IsClosed live = (a b : ℕ) → has b (edges a) ≡ true → has b live ≡ true

  search_ends :
      {all : List ℕ} (live : List ℕ) (fuel : ℕ) (w : Search) (roots : List ℕ)
      → IsClosed live
      → length live ≤ fuel
      → Tracks edges all w
      → w.pending ≡ []
      → ((b : ℕ) → has b roots ≡ true → has b all ≡ true)
      → ((b : ℕ) → has b roots ≡ true → has b live ≡ true)
      → (t : Search) × (search edges fuel w roots ≡ some t)
  unfolding search Option.bind has
  search_ends live fuel w [] closed room h idle i in_live = (w, refl)
  search_ends live fuel w (a ∷ roots) closed room h idle i in_live =
      let started = add-Tracks w a h (i a (ground arith)) in
      let (u, e) = drain_ends edges live closed fuel (add w a) (add w a).pending refl (
        omega (
          arith,
          unseen_le w.marked live,
          ap length idle,
          add-unseen edges live w a (in_live a (ground arith)),
        )) in
      let first = drain-Advances fuel (add w a) u started e in
      let (t, run) =
        search_ends live fuel u roots closed room first.tracks first.idle
          (λ b m. i b (ground arith)) (λ b m. in_live b (ground arith)) in
      (t, rw e run)

  -- From a search with nothing marked.
  pub search-Reaches :
      (live : List ℕ) (w : Search) (roots : List ℕ)
      → IsClosed live
      → ((b : ℕ) → has b roots ≡ true → has b live ≡ true)
      → ((a : ℕ) → w.marked a ≡ false)
      → w.pending ≡ []
      → (t : Search) × (search edges (length live) w roots ≡ some t)
        × (t.pending ≡ [])
        × ((a : ℕ) → (t.marked a ≡ true) ↔ Reaches edges roots a)
  unfolding has
  search-Reaches live w roots closed in_live clear idle =
      let start : Tracks edges roots w = record {
        queued = λ b. ground (arith, idle);
        closed = λ b c. ground (arith, clear b);
        sound = λ a m. absurd (ground (arith, clear a));
      } in
      let (t, run) =
        search_ends live (length live) w roots closed (omega arith) start idle (λ b m. m) in_live in
      let (end, all_in) = search-Advances (length live) w t roots start idle (λ b m. m) run in
      (t, run, end.idle, λ a. (end.tracks.sound a, Tracks-marked end.tracks end.idle all_in a))
