-- ===== src/ByteCode/Ifs.antt =====
-- `if` and `unless`.
use mirb.Prelude.Lists.{length}
use mirb.Vm.{Machine, continues, execute}
use mirb.ByteCode.{Op, branch_op, Generator, gen, gen_label, create_label, reuse, patch}
use mirb.ByteCode.Convert.{Code, branch_on, convert_if}
use mirb.ByteCode.Grows.{
  Grows, Grows-gen, Grows-gen_label, Grows-trans, Grows-reuse, Grows-within, three-Grows,
}
use mirb.ByteCode.Meaning.{Result, Meaning, passes, mean_if}
use mirb.ByteCode.Reuse.{is_target_self, reuse-Ready, reuse-apart, reuse-counts, Ready-Grows}
use mirb.ByteCode.Runs.{
  Setting, Within, Within-Grows, step-gen, Ready, Fits, Fits-inner, Held, Leaves,
}
use mirb.ByteCode.Branches.{branch-Passes, placed-here}
use mirb.ByteCode.Implements.{inner-Ends, Ends, Implements, after-Ends, and_then-Ends, jump-Ends}
use mirb.Prelude.{
  ℕ, ◌+◌, ◌≤◌, ◌<◌, ◌≡◌, ◌≢◌, refl, sym, ap, ◌∙◌, inl, inr, Bool, Option, some, List, arith,
  if◌then◌else◌, Bool-cases,
}

module _ {W : Type 0} (b : Setting W) (inverted : Bool) (middle right : ℕ → ℕ → Code) where
  -- From behind the condition, with the labels `l` and the two after it.
  abbrev behind : ℕ → ℕ → Generator → Generator
  behind l temp g = gen_label (l + 1 + 1) (gen (branch_on inverted l temp) g)

  abbrev between : ℕ → Generator → Generator
  between l g = gen_label l (gen (branch_op (l + 1)) g)

  abbrev whole : ℕ → ℕ → ℕ → ℕ → Option ℕ → Generator → Generator
  whole s e l temp var g =
      gen_label (l + 1) (right s e var (between l (middle s e var (behind l temp g))))

  module _ {mean_middle mean_right : Meaning W} (hm : Implements b middle mean_middle)
      (hr : Implements b right mean_right) where
    -- A window that the three labels are not in.
    abbrev Out : ℕ → ℕ → ℕ → Type 0
    Out l low high = (x : ℕ) → low ≤ x → x < high → (x ≢ l) × (x ≢ l + 1) × (x ≢ l + 1 + 1)

    end-Grows :
        {low high : ℕ} (s e l : ℕ) (var : Option ℕ) (g : Generator)
        → Out l low high
        → high ≤ g.label_count
        → Grows b.body low high g (gen_label (l + 1) (right s e var g))
    end-Grows s e l var g out under =
        Grows-trans b.body (Grows-within b.body (hr.grows s e var g) (omega arith) under)
          (Grows-gen_label b.body (l + 1) (right s e var g) (λ x i j n. (out x i j).1))

    between-Grows :
        {low high : ℕ} (l : ℕ) (g : Generator)
        → Out l low high
        → Grows b.body low high g (between l g)
    between-Grows l g out =
        Grows-trans b.body (Grows-gen b.body (branch_op (l + 1)) g)
          (Grows-gen_label b.body l (gen (branch_op (l + 1)) g) (λ x i j n. (out x i j).0))

    behind-Grows :
        {low high : ℕ} (l temp : ℕ) (g : Generator)
        → Out l low high
        → Grows b.body low high g (behind l temp g)
    behind-Grows l temp g out =
        Grows-trans b.body (Grows-gen b.body (branch_on inverted l temp) g) (
          Grows-gen_label b.body (l + 1 + 1) (gen (branch_on inverted l temp) g)
            (λ x i j n. (out x i j).2))

    -- From behind the middle part.
    rest-Grows :
        {low high : ℕ} (s e l : ℕ) (var : Option ℕ) (g : Generator)
        → Out l low high
        → high ≤ g.label_count
        → Grows b.body low high g (gen_label (l + 1) (right s e var (between l g)))
    rest-Grows s e l var g out under =
        let first = between-Grows l g out in
        Grows-trans b.body first
          (end-Grows s e l var (between l g) out (omega (arith, under, first.label_count)))

    whole-Grows :
        {low high : ℕ} (s e l temp : ℕ) (var : Option ℕ) (g : Generator)
        → Out l low high
        → high ≤ g.label_count
        → Grows b.body low high g (whole s e l temp var g)
    whole-Grows s e l temp var g out under =
        let first = behind-Grows l temp g out in
        let grown = hm.grows s e var (behind l temp g) in
        Grows-trans b.body first (
          Grows-trans b.body
            (Grows-within b.body grown (omega arith) (omega (arith, under, first.label_count)))
            (rest-Grows s e l var (middle s e var (behind l temp g)) out
              (omega (arith, under, first.label_count, grown.label_count))))

    -- The positions of the labels for the two jumps.
    labels-are :
        (s e l temp : ℕ) (var : Option ℕ) (g0 g : Generator) (ops : List Op) (labels : ℕ → ℕ)
        → b.body < g0.label_count
        → g0.label_count ≤ l
        → l + 3 ≤ g.label_count
        → Fits b g0 (whole s e l temp var g) ops labels
        → (labels l ≡ length (between l (middle s e var (behind l temp g))).opcode)
          × (labels (l + 1) ≡ length (whole s e l temp var g).opcode)
    unfolding gen_label gen
    labels-are s e l temp var g0 g ops labels own under over fits =
        let gm = middle s e var (behind l temp g) in
        let grown = hm.grows s e var (behind l temp g) in
        let last = hr.grows s e var (between l gm) in
        (
          fits.placed l under (omega (arith, grown.label_count, last.label_count))
              ∙ (Grows-gen_label b.body {low = l} {high = l + 1} (l + 1)
                    (right s e var (between l gm)) (λ x i j n. omega arith)).labels
                  l (omega arith) (omega arith) (omega arith)
              ∙ last.labels l (omega arith) (omega (arith, grown.label_count)) (omega arith)
              ∙ placed-here b l (gen (branch_op (l + 1)) gm),
          fits.placed (l + 1) (omega arith) (omega (arith, grown.label_count, last.label_count))
              ∙ placed-here b (l + 1) (right s e var (between l gm)),
        )

    -- With the value of the condition in `temp`.
    behind-Ends :
        (s e l temp v : ℕ) (var : Option ℕ) (g0 g : Generator) (ops : List Op) (labels : ℕ → ℕ)
        → Ready b var g0
        → Ready b var g
        → g0.label_count ≤ l
        → l + 3 ≤ g.label_count
        → g0.var_count ≤ g.var_count
        → Fits b g0 (whole s e l temp var g) ops labels
        → (m : Machine W) (env : ℕ → ℕ) (w : W) → m.ip ≡ length g.opcode
        → Held b env w m
        → m.vars temp ≡ v
        → (r : Result W)
        → (if passes inverted v then mean_right env w else mean_middle env w) ≡ some r
        → Ends b ops labels s e g0 (whole s e l temp var g) var m r
    unfolding gen_label gen Leaves patch execute
    behind-Ends s e l temp v var g0 g ops labels ready0 ready under over room fits m env w at held
          is_v r run =
        let h = whole s e l temp var g in
        let g5 = behind l temp g in
        let gm = middle s e var g5 in
        let g6 = between l gm in
        let gr = right s e var g6 in
        let grown = hm.grows s e var g5 in
        let last = hr.grows s e var g6 in
        let (else_is, end_is) =
          labels-are s e l temp var g0 g ops labels ready0.labelled under over fits in
        let no_window : (x y : ℕ) → x ≡ y → Out l x y = λ x y same z i j. absurd (omega arith) in
        let within6 : Within g6 ops =
          Within-Grows {low = 0} {high = 0}
            (end-Grows s e l var g6 (no_window 0 0 refl) (omega arith)) fits.within in
        let within5 : Within g5 ops =
          Within-Grows {low = 0} {high = 0} (Grows-within b.body grown (omega arith) (omega arith))
            (Within-Grows {low = 0} {high = 0} (between-Grows l gm (no_window 0 0 refl)) within6) in
        let tested = branch-Passes b inverted l temp v var g0 g ops labels m within5 at is_v in
        elim (Bool-cases (passes inverted v)) [
          | inl t ↦ after-Ends b ops labels s e g0 h var r (rw t at tested) (
              inner-Ends b ops labels s e g0 g6 h var _ r (omega (arith, room, grown.var_count)) (
                hr.runs s e var g6 ops labels
                  (Ready-Grows b (Ready-Grows b ready (behind-Grows l temp g (no_window 0 0 refl)))
                    (Grows-trans b.body (Grows-within b.body grown (omega arith) (omega arith))
                      (between-Grows l gm (no_window 0 0 refl))))
                  (Fits-inner b fits ready0.labelled (omega (arith, grown.label_count)) (
                    Grows-gen_label b.body (l + 1) gr
                      (λ x i j n. omega (arith, grown.label_count))))
                  (record m { ip = labels l }) env w else_is
                  (record { vars = held.vars; world = held.world }) r (rw t at run)))
          | inr t ↦ after-Ends b ops labels s e g0 h var r (rw t at tested) (
              jump-Ends b ops labels s e g0 h g5 gm var var room (λ x i n. n) _ r (λ x i. i)
                (λ m1 at1.
                  step-gen b (branch_op (l + 1)) gm ops labels m1 within6 at1
                  ∙ ap (λ x. continues (record m1 { ip = x })) end_is)
                (hm.runs s e var g5 ops labels
                  (Ready-Grows b ready (behind-Grows l temp g (no_window 0 0 refl)))
                  (Fits-inner b fits ready0.labelled (omega arith) (
                    rest-Grows s e l var gm (λ x i j. (omega arith, omega arith, omega arith))
                      (omega arith)))
                  (record m { ip = length g5.opcode }) env w refl
                  (record { vars = held.vars; world = held.world }) r (rw t at run)))
        ]

    pub if-Implements :
        (f : ℕ → ℕ → Code) (left : Meaning W)
        → Implements b f left
        → Implements b
            (λ s e. convert_if inverted (f s e) (middle s e) (right s e))
            (mean_if inverted left mean_middle mean_right)
    unfolding convert_if mean_if create_label gen_label gen
    if-Implements f left hl = record {
      grows = λ s e var g.
          let (temp, g1) = reuse var g in
          let (same, _, under) = reuse-counts b var g in
          let g4 = record g1 { label_count = g1.label_count + 1 + 1 + 1 } in
          let grown = hl.grows s e (some temp) g4 in
          Grows-trans b.body (Grows-reuse b.body var g) (
            Grows-trans b.body (three-Grows b.body g1) (
              Grows-trans b.body (Grows-within b.body grown (omega arith) (omega (arith, same))) (
                whole-Grows s e g1.label_count temp var (f s e (some temp) g4)
                  (λ x i j. (omega (arith, same), omega (arith, same), omega (arith, same)))
                  (omega (arith, same, grown.label_count)))));
      runs = λ s e var g ops labels ready fits m env w at held r run.
          let (temp, g1) = reuse var g in
          let (same, ops_same, under) = reuse-counts b var g in
          let g4 = record g1 { label_count = g1.label_count + 1 + 1 + 1 } in
          let gl = f s e (some temp) g4 in
          let grown = hl.grows s e (some temp) g4 in
          let first = reuse-Ready b var g ready in
          and_then-Ends b ops labels s e g (whole s e g1.label_count temp var gl) g4 gl var
            (some temp) under (reuse-apart b var g) (left env w) _ m r
            (λ r1 e1.
              hl.runs s e (some temp) g4 ops labels
                (Ready-Grows b first (three-Grows b.body {low = 0} {high = 0} g1))
                (Fits-inner b fits ready.labelled (omega (arith, same)) (
                  whole-Grows s e g1.label_count temp var gl
                    (λ x i j. (omega (arith, i), omega (arith, i), omega (arith, i)))
                    (omega arith)))
                m env w (at ∙ ap (λ t. length t) (sym ops_same)) held r1 e1)
            (λ v env1 w1 m1 at1 held1 gives p run1.
              behind-Ends s e g1.label_count temp v var g gl ops labels ready
                (Ready-Grows b
                  (Ready-Grows b
                    (Ready-Grows b ready (Grows-reuse b.body {low = 0} {high = 0} var g))
                    (three-Grows b.body {low = 0} {high = 0} g1))
                  grown)
                (omega (arith, same)) (omega (arith, grown.label_count))
                (omega (arith, under, grown.var_count)) fits m1 env1 w1 at1 held1
                (gives temp (is_target_self temp)) r run1)
            run;
    }
