-- ===== src/Collector/Search.antt =====
-- The search that marking carries out, with the pending objects as a list: what is marked at the end
-- is what the roots reach, and a bound on its rounds.
use mathlib.Core.Option
use mathlib.Core.Option.{some-injective}
use mathlib.Core.Path.{subst}
use mirb.Prelude.Maps.{put, has}
use mirb.Prelude.Lists.{length}
use mirb.Prelude.{
  ℕ, zero, suc, ◌+◌, ◌≤◌, ◌≡◌, refl, sym, ap, ◌∙◌, inl, inr, Bool, true, false, not, ◌&&◌, ◌||◌,
  Option, none, some, List, [], ◌∷◌, arith, if◌then◌else◌, Bool-cases,
}

pub record Search : Type 0 where
  pub marked : ℕ → Bool
  pub pending : List ℕ

unfoldable pub add : Search → ℕ → Search
add w a = if w.marked a then w else record { marked = put w.marked a true; pending = a ∷ w.pending }

unfoldable pub scan : Search → List ℕ → Search
scan w [] = w
scan w (a ∷ bs) = scan (add w a) bs

module _ (edges : ℕ → List ℕ) where
  unfoldable pub visit : Search → ℕ → List ℕ → Search
  visit w a rest = scan (record w { pending = rest }) (edges a)

  -- `none` when the rounds are used up.
  unfoldable pub drain : ℕ → Search → List ℕ → Option Search
  drain fuel w [] = some w
  drain zero w (a ∷ rest) = none
  drain (suc fuel) w (a ∷ rest) = let next = visit w a rest in drain fuel next next.pending

  unfoldable pub search : ℕ → Search → List ℕ → Option Search
  search fuel w [] = some w
  search fuel w (a ∷ roots) =
      let next = add w a in Option.bind (drain fuel next next.pending) (λ t. search fuel t roots)

  pub data Reaches (roots : List ℕ) : ℕ → Type 0 where
    root : {a : ℕ} → has a roots ≡ true → Reaches roots a
    child : {a b : ℕ} → Reaches roots a → has b (edges a) ≡ true → Reaches roots b

pub scan-marked :
    (w : Search) (bs : List ℕ) (b : ℕ) → (scan w bs).marked b ≡ (w.marked b || has b bs)
unfolding scan add put has
scan-marked w [] b = ground arith
scan-marked w (a ∷ bs) b = ground (arith, scan-marked (add w a) bs b)

pub scan-pending :
    (w : Search) (bs : List ℕ) (b : ℕ)
    → has b (scan w bs).pending ≡ (has b w.pending || (has b bs && not (w.marked b)))
unfolding scan add put has
scan-pending w [] b = ground arith
scan-pending w (a ∷ bs) b = ground (arith, scan-pending (add w a) bs b)

-- Objects among `live` that are not marked.
unfoldable pub unseen : (ℕ → Bool) → List ℕ → ℕ
unseen marked [] = 0
unseen marked (a ∷ bs) = if marked a then unseen marked bs else suc (unseen marked bs)

pub unseen_le : (marked : ℕ → Bool) (live : List ℕ) → unseen marked live ≤ length live
unfolding unseen
unseen_le marked [] = omega arith
unseen_le marked (a ∷ live) = ground (arith, unseen_le marked live)

unseen-put_le :
    (marked : ℕ → Bool) (a : ℕ) (live : List ℕ)
    → unseen (put marked a true) live ≤ unseen marked live
unfolding unseen put
unseen-put_le marked a [] = omega arith
unseen-put_le marked a (b ∷ live) = ground (arith, unseen-put_le marked a live)

unseen-put :
    (marked : ℕ → Bool) (a : ℕ) (live : List ℕ)
    → has a live ≡ true
    → marked a ≡ false
    → suc (unseen (put marked a true) live) ≤ unseen marked live
unfolding unseen put has
unseen-put marked a [] h e = ground arith
unseen-put marked a (b ∷ live) h e =
    ground (arith, unseen-put marked a live, unseen-put_le marked a live)

module _ (edges : ℕ → List ℕ) where
  -- What marking keeps: pending objects are marked, the others among the marked have all that they
  -- hold marked, and only what is reached is marked.
  pub record Tracks (roots : List ℕ) (w : Search) : Type 0 where
    pub queued : (b : ℕ) → has b w.pending ≡ true → w.marked b ≡ true
    pub closed :
        (a b : ℕ)
        → w.marked a ≡ true
        → has a w.pending ≡ false
        → has b (edges a) ≡ true
        → w.marked b ≡ true
    pub sound : (a : ℕ) → w.marked a ≡ true → Reaches edges roots a

  pub visit-Tracks :
      {roots : List ℕ} {w : Search} (a : ℕ) (rest : List ℕ)
      → Tracks roots w
      → w.pending ≡ a ∷ rest
      → Tracks roots (visit edges w a rest)
  unfolding visit has
  visit-Tracks {roots} {w} a rest h e =
      let flags = scan-marked (record w { pending = rest }) (edges a) in
      let queue = scan-pending (record w { pending = rest }) (edges a) in
      let first = h.queued a (rw e (ground arith)) in
      record {
        queued = λ b. ground (arith, flags b, queue b, h.queued b, e);
        closed = λ c b. ground (arith, flags b, flags c, queue c, h.closed c b, e);
        sound = λ c m. elim (Bool-cases (w.marked c)) [
          | inl t ↦ h.sound c t
          | inr t ↦ child (h.sound a first) (ground (arith, flags c))
        ];
      }

  -- What a round keeps holds at the end, where nothing is pending.
  pub drain_rule :
      (P : Search → Type 0)
      → ((w : Search) (a : ℕ) (rest : List ℕ)
          → w.pending ≡ a ∷ rest
          → P w
          → P (visit edges w a rest))
      → (fuel : ℕ) (w t : Search) (pending : List ℕ) → w.pending ≡ pending
      → P w
      → drain edges fuel w pending ≡ some t
      → P t × (t.pending ≡ [])
  unfolding drain
  drain_rule P keep fuel w t [] e h run =
      let same = some-injective _ _ run in (subst P same h, sym (ap (λ u. u.pending) same) ∙ e)
  drain_rule P keep zero w t (a ∷ rest) e h run = ground arith
  drain_rule P keep (suc fuel) w t (a ∷ rest) e h run =
      let next = visit edges w a rest in
      drain_rule P keep fuel next t next.pending refl (keep w a rest e h) run

  module _ (live : List ℕ) where
    pub add-unseen :
        (w : Search) (a : ℕ)
        → has a live ≡ true
        → unseen (add w a).marked live + length (add w a).pending
          ≤ unseen w.marked live + length w.pending
    unfolding add
    add-unseen w a h = ground (arith, unseen-put w.marked a live h)

    scan-unseen :
        (w : Search) (bs : List ℕ)
        → ((b : ℕ) → has b bs ≡ true → has b live ≡ true)
        → unseen (scan w bs).marked live + length (scan w bs).pending
          ≤ unseen w.marked live + length w.pending
    unfolding scan has
    scan-unseen w [] h = omega arith
    scan-unseen w (a ∷ bs) h = omega (
      arith,
      add-unseen w a (h a (ground arith)),
      scan-unseen (add w a) bs (λ b i. h b (ground arith)),
    )

    pub drain_ends :
        ((a b : ℕ) → has b (edges a) ≡ true → has b live ≡ true)
        → (fuel : ℕ) (w : Search) (pending : List ℕ) → w.pending ≡ pending
        → unseen w.marked live + length pending ≤ fuel
        → (t : Search) × (drain edges fuel w pending ≡ some t)
    unfolding drain visit
    drain_ends h fuel w [] e room = (w, refl)
    drain_ends h zero w (a ∷ rest) e room = absurd (omega arith)
    drain_ends h (suc fuel) w (a ∷ rest) e room =
        let next = visit edges w a rest in
        let (t, run) =
          drain_ends h fuel next next.pending refl
            (omega (arith, scan-unseen (record w { pending = rest }) (edges a) (h a))) in
        (t, run)
