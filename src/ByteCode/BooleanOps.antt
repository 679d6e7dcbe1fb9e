-- ===== src/ByteCode/BooleanOps.antt =====
-- `and` and `or`.
use mathlib.Core.Option.{some-injective}
use mathlib.Core.Path.{subst}
use mirb.Prelude.Lists.{length}
use mirb.Vm.{Machine}
use mirb.ByteCode.{Op, Generator, gen, gen_label, create_label, reuse, patch}
use mirb.ByteCode.Convert.{Code, branch_on, convert_boolean_op}
use mirb.ByteCode.Grows.{
  Grows, Grows-refl, Grows-gen, Grows-gen_label, Grows-create_label, Grows-trans, Grows-reuse,
  Grows-within,
}
use mirb.ByteCode.Meaning.{Result, value, Meaning, passes, mean_boolean_op}
use mirb.ByteCode.Reuse.{
  is_target_self, reuse-Ready, reuse-apart, reuse-own, reuse-counts, Ready-Grows,
}
use mirb.ByteCode.Runs.{
  Setting, is_target, Within-Grows, Ready, Fits, Fits-inner, Held, Passes, Leaves,
}
use mirb.ByteCode.Branches.{branch-Passes, placed-here}
use mirb.ByteCode.Implements.{window, inner-Ends, Ends, Implements, after-Ends, and_then-Ends}
use mirb.Prelude.{
  ℕ, ◌+◌, ◌≤◌, ◌≡◌, refl, sym, ap, ◌∙◌, inl, inr, Bool, true, Option, some, List, map, arith,
  if◌then◌else◌, Bool-cases,
}

module _ {W : Type 0} (b : Setting W) (is_or : Bool) (right : ℕ → ℕ → Code) where
  -- From behind the left operand to the right one, and to the end.
  abbrev behind : ℕ → Generator → Generator
  behind temp g =
      let (label_end, g2) = create_label g in
      let (body, g3) = create_label g2 in gen_label body (gen (branch_on is_or label_end temp) g3)

  abbrev whole : ℕ → ℕ → ℕ → Option ℕ → Generator → Generator
  whole s e temp var g = gen_label g.label_count (right s e var (behind temp g))

  module _ {meaning : Meaning W} (h : Implements b right meaning) where
    behind-Grows :
        {low high : ℕ} (temp : ℕ) (g : Generator)
        → high ≤ g.label_count
        → Grows b.body low high g (behind temp g)
    unfolding create_label
    behind-Grows temp g under =
        let (body, g3) = create_label (create_label g).1 in
        Grows-trans b.body (Grows-create_label b.body g) (
          Grows-trans b.body (Grows-create_label b.body (create_label g).1) (
            Grows-trans b.body (Grows-gen b.body (branch_on is_or g.label_count temp) g3) (
              Grows-gen_label b.body body (gen (branch_on is_or g.label_count temp) g3)
                (λ l i j n. omega arith))))

    whole-Grows :
        {low high : ℕ} (s e temp : ℕ) (var : Option ℕ) (g : Generator)
        → high ≤ g.label_count
        → Grows b.body low high g (whole s e temp var g)
    whole-Grows s e temp var g under =
        let first = behind-Grows temp g under in
        Grows-trans b.body first (
          Grows-trans b.body
            (Grows-within b.body (h.grows s e var (behind temp g)) (omega arith)
              (omega (arith, first.label_count)))
            (Grows-gen_label b.body g.label_count (right s e var (behind temp g))
              (λ l i j n. omega arith)))

    -- With the value of the left operand in `temp`.
    right-Ends :
        (s e temp v : ℕ) (var : Option ℕ) (g0 g : Generator) (ops : List Op) (labels : ℕ → ℕ)
        → Ready b var g
        → ((t : ℕ) → is_target var t ≡ true → is_target (some temp) t ≡ true)
        → g0.var_count ≤ g.var_count
        → Fits b g (whole s e temp var g) ops labels
        → (m : Machine W) (env : ℕ → ℕ) (w : W) → m.ip ≡ length g.opcode
        → Held b env w m
        → ((t : ℕ) → is_target (some temp) t ≡ true → m.vars t ≡ v)
        → (r : Result W) → (if passes is_or v then some (value v env w) else meaning env w) ≡ some r
        → Ends b ops labels s e g0 (whole s e temp var g) var m r
    unfolding create_label gen_label gen Leaves window
    right-Ends s e temp v var g0 g ops labels ready own room fits m env w at held gives r run =
        let g4 = behind temp g in
        let gr = right s e var g4 in
        let grown = h.grows s e var g4 in
        let end_is : labels g.label_count ≡ length gr.opcode =
          fits.placed g.label_count (omega arith) (omega (arith, grown.label_count))
          ∙ placed-here b g.label_count gr in
        let tested : Passes b (map (patch labels) ops) var g0 m
            (record m { ip = if passes is_or v then labels g.label_count else length g4.opcode }) =
          branch-Passes b is_or g.label_count temp v var g0
            (record g { label_count = g.label_count + 1 + 1 }) ops labels m
            (Within-Grows {low = 0} {high = 0}
              (Grows-within b.body grown (omega arith) (omega arith)) fits.within)
            at (gives temp (is_target_self temp)) in
        elim (Bool-cases (passes is_or v)) [
          | inl t ↦
              subst (λ u. Ends b ops labels s e g0 (whole s e temp var g) var m u)
                (some-injective _ _ (rw t at run))
                (
                  record m { ip = labels g.label_count },
                  rw t at tested,
                  (
                    end_is,
                    record { vars = held.vars; world = held.world },
                    λ x i. gives x (own x i),
                  ),
                )
          | inr t ↦ after-Ends b ops labels s e g0 (whole s e temp var g) var r (rw t at tested) (
              inner-Ends b ops labels s e g0 g4 (whole s e temp var g) var _ r room (
                h.runs s e var g4 ops labels
                  (Ready-Grows b ready (behind-Grows {low = 0} {high = 0} temp g (omega arith)))
                  (Fits-inner b fits ready.labelled (omega arith)
                    (Grows-gen_label b.body g.label_count gr (λ l i j n. omega arith)))
                  (record m { ip = length g4.opcode }) env w refl
                  (record { vars = held.vars; world = held.world }) r (rw t at run)))
        ]

    pub boolean_op-Implements :
        (f : ℕ → ℕ → Code) (left : Meaning W)
        → Implements b f left
        → Implements b
            (λ s e. convert_boolean_op is_or (f s e) (right s e))
            (mean_boolean_op is_or left meaning)
    unfolding convert_boolean_op mean_boolean_op create_label gen_label gen
    boolean_op-Implements f left hl = record {
      grows = λ s e var g.
          let (temp, g1) = reuse var g in
          let (same, _, under) = reuse-counts b var g in
          let grown = hl.grows s e (some temp) g1 in
          Grows-trans b.body (Grows-reuse b.body var g) (
            Grows-trans b.body (Grows-within b.body grown (omega arith) (omega (arith, same))) (
              whole-Grows s e temp var (f s e (some temp) g1)
                (omega (arith, same, grown.label_count))));
      runs = λ s e var g ops labels ready fits m env w at held r run.
          let (temp, g1) = reuse var g in
          let (same, ops_same, under) = reuse-counts b var g in
          let gl = f s e (some temp) g1 in
          let grown = hl.grows s e (some temp) g1 in
          and_then-Ends b ops labels s e g (whole s e temp var gl) g1 gl var (some temp) under
            (reuse-apart b var g) (left env w) _ m r
            (λ r1 e1.
              hl.runs s e (some temp) g1 ops labels (reuse-Ready b var g ready)
                (Fits-inner b fits ready.labelled (omega (arith, same))
                  (whole-Grows s e temp var gl (omega arith)))
                m env w (at ∙ ap (λ t. length t) (sym ops_same)) held r1 e1)
            (λ v env1 w1 m1 at1 held1 gives p run1.
              right-Ends s e temp v var g gl ops labels
                (Ready-Grows b (Ready-Grows b ready (Grows-reuse b.body {low = 0} {high = 0} var g))
                  grown)
                (reuse-own b var g) (omega (arith, under, grown.var_count))
                (Fits-inner b fits ready.labelled (omega (arith, same, grown.label_count))
                  (Grows-refl b.body (whole s e temp var gl)))
                m1 env1 w1 at1 held1 gives r run1)
            run;
    }
