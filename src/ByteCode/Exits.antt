-- ===== src/ByteCode/Exits.antt =====
-- Nodes that leave a block or a loop.
use mathlib.Core.Option.{some-injective}
use mathlib.Core.Path.{subst}
use mirb.Prelude.Maps.{put}
use mirb.Prelude.Lists.{length}
use mirb.Vm.{Machine, set_var, execute}
use mirb.ByteCode.{
  branch, move, Op, branch_op, Generator, gen, gen_label, create_label, reuse, patch,
}
use mirb.ByteCode.Convert.{Code, convert_return, convert_break, convert_next}
use mirb.ByteCode.Grows.{
  Grows, Grows-gen, Grows-gen_label, Grows-create_label, Grows-trans, Grows-reuse, Grows-within,
}
use mirb.ByteCode.Meaning.{Meaning, returned, broke, mean_return, mean_break, mean_next}
use mirb.ByteCode.Reuse.{is_target_self, reuse-Ready, reuse-apart, reuse-counts}
use mirb.ByteCode.Runs.{Setting, Within, Within-Grows, Fits-inner, Held, Passes-trans, Leaves}
use mirb.ByteCode.Branches.{jump-Passes}
use mirb.ByteCode.Implements.{window, Ends, Implements, write-Passes, and_then-Ends}
use mirb.Prelude.{ℕ, ◌≤◌, ◌≡◌, refl, sym, ap, ◌∙◌, Bool, true, false, Option, some, List, arith}

module _ {W : Type 0} (b : Setting W) where
  branch-Grows :
      {low high : ℕ} (label : ℕ) (g : Generator)
      → high ≤ g.label_count
      → Grows b.body low high g (branch label g)
  unfolding branch create_label gen
  branch-Grows label g under =
      let g1 = gen (branch_op label) g in
      Grows-trans b.body (Grows-gen b.body (branch_op label) g) (
        Grows-trans b.body (Grows-create_label b.body g1)
          (Grows-gen_label b.body g1.label_count (create_label g1).1 (λ x i j n. omega arith)))

  -- From behind the value.
  abbrev whole : ℕ → Generator → Generator
  whole temp g = branch b.epilog (gen (move b.return_var temp) g)

  whole-Grows :
      {low high : ℕ} (temp : ℕ) (g : Generator)
      → high ≤ g.label_count
      → Grows b.body low high g (whole temp g)
  unfolding gen
  whole-Grows temp g under =
      Grows-trans b.body (Grows-gen b.body (move b.return_var temp) g)
        (branch-Grows b.epilog (gen (move b.return_var temp) g) under)

  whole-Ends :
      (s e temp v : ℕ) (var : Option ℕ) (g0 g : Generator) (ops : List Op) (labels : ℕ → ℕ)
      → Within (whole temp g) ops
      → (m : Machine W) (env : ℕ → ℕ) (w : W) → m.ip ≡ length g.opcode
      → Held b env w m
      → m.vars temp ≡ v
      → Ends b ops labels s e g0 (whole temp g) var m (returned v w)
  unfolding Leaves window patch execute put branch create_label gen_label gen
  whole-Ends s e temp v var g0 g ops labels within m env w at held is_v =
      let g1 = gen (move b.return_var temp) g in
      let g2 = gen (branch_op b.epilog) g1 in
      let m1 : Machine W = record {
        ip = length g1.opcode;
        vars = put m.vars b.return_var v;
        world = m.world;
      } in
      (
        record m1 { ip = labels b.epilog },
        Passes-trans b _
            (write-Passes b {var = var} {g0 = record g0 { var_count = 0 }} (move b.return_var temp)
              b.return_var v g ops labels m
              (Within-Grows (Grows-gen b.body {low = 0} {high = 0} (branch_op b.epilog) g1) within)
              at (ap (λ x. set_var b.return_var x (record m { ip = length g1.opcode })) is_v)
              (λ r i j n. absurd (omega arith)))
            (jump-Passes b b.epilog var (record g0 { var_count = 0 }) g1 ops labels m1 within refl),
        (refl, held.world, ground arith),
      )

  pub return-Implements :
      (f : ℕ → ℕ → Code) (operand : Meaning W)
      → Implements b f operand
      → Implements b (λ s e. convert_return b.return_var b.epilog (f s e)) (mean_return operand)
  unfolding convert_return mean_return
  return-Implements f operand h = record {
    grows = λ s e var g.
        let (temp, g1) = reuse var g in
        let (same, _, under) = reuse-counts b var g in
        let grown = h.grows s e (some temp) g1 in
        Grows-trans b.body (Grows-reuse b.body var g) (
          Grows-trans b.body (Grows-within b.body grown (omega arith) (omega (arith, same)))
            (whole-Grows temp (f s e (some temp) g1) (omega (arith, same, grown.label_count))));
    runs = λ s e var g ops labels ready fits m env w at held r run.
        let (temp, g1) = reuse var g in
        let (same, ops_same, under) = reuse-counts b var g in
        let gl = f s e (some temp) g1 in
        and_then-Ends b ops labels s e g (whole temp gl) g1 gl var (some temp) under
          (reuse-apart b var g) (operand env w) _ m r
          (λ r1 e1.
            h.runs s e (some temp) g1 ops labels (reuse-Ready b var g ready)
              (Fits-inner b fits ready.labelled (omega (arith, same))
                (whole-Grows temp gl (omega arith)))
              m env w (at ∙ ap (λ t. length t) (sym ops_same)) held r1 e1)
          (λ v env1 w1 m1 at1 held1 gives p run1.
            subst (λ u. Ends b ops labels s e g (whole temp gl) var m1 u) (some-injective _ _ run1)
              (whole-Ends s e temp v var g gl ops labels fits.within m1 env1 w1 at1 held1
                (gives temp (is_target_self temp))))
          run;
  }

  -- A jump to a label of the loop around.
  break-Ends :
      (s e : ℕ) (var : Option ℕ) (g0 g : Generator) (ops : List Op) (labels : ℕ → ℕ)
      → Within (gen (branch_op e) g) ops
      → (m : Machine W) (env : ℕ → ℕ) (w : W) → m.ip ≡ length g.opcode
      → Held b env w m
      → Ends b ops labels s e g0 (gen (branch_op e) g) var m (broke env w)
  unfolding Leaves window
  break-Ends s e var g0 g ops labels within m env w at held = (
    record m { ip = labels e },
    jump-Passes b e var g0 g ops labels m within at,
    (refl, record { vars = held.vars; world = held.world }),
  )

  pub break-Implements :
      (f : ℕ → ℕ → Code) (operand : Meaning W)
      → Implements b f operand
      → Implements b (λ s e. convert_break e (f s e)) (mean_break operand)
  unfolding convert_break mean_break
  break-Implements f operand h = record {
    grows = λ s e var g.
        let (temp, g1) = reuse var g in
        let (same, _, under) = reuse-counts b var g in
        let grown = h.grows s e (some temp) g1 in
        Grows-trans b.body (Grows-reuse b.body var g) (
          Grows-trans b.body (Grows-within b.body grown (omega arith) (omega (arith, same)))
            (Grows-gen b.body (branch_op e) (f s e (some temp) g1)));
    runs = λ s e var g ops labels ready fits m env w at held r run.
        let (temp, g1) = reuse var g in
        let (same, ops_same, under) = reuse-counts b var g in
        let gl = f s e (some temp) g1 in
        and_then-Ends b ops labels s e g (gen (branch_op e) gl) g1 gl var (some temp) under
          (reuse-apart b var g) (operand env w) _ m r
          (λ r1 e1.
            h.runs s e (some temp) g1 ops labels (reuse-Ready b var g ready)
              (Fits-inner b fits ready.labelled (omega (arith, same))
                (Grows-gen b.body (branch_op e) gl))
              m env w (at ∙ ap (λ t. length t) (sym ops_same)) held r1 e1)
          (λ v env1 w1 m1 at1 held1 gives p run1.
            subst (λ u. Ends b ops labels s e g (gen (branch_op e) gl) var m1 u)
              (some-injective _ _ run1)
              (break-Ends s e var g gl ops labels fits.within m1 env1 w1 at1 held1))
          run;
  }

  pub next-Implements :
      (has_target : Bool) (f : ℕ → ℕ → Code) (operand : Meaning W)
      → Implements b f operand
      → Implements b
          (λ s e. convert_next b.return_var b.epilog s has_target (f s e))
          (mean_next has_target operand)
  unfolding convert_next mean_next Leaves window convert_return
  next-Implements true f operand h = record {
    grows = λ s e var g.
        Grows-trans b.body (Grows-reuse b.body var g)
          (Grows-gen b.body (branch_op s) (reuse var g).1);
    runs = λ s e var g ops labels ready fits m env w at held r run.
        let (temp, g1) = reuse var g in
        let (same, ops_same, under) = reuse-counts b var g in
        subst (λ u. Ends b ops labels s e g (gen (branch_op s) g1) var m u) (some-injective _ _ run)
          (
            record m { ip = labels s },
            jump-Passes b s var g g1 ops labels m fits.within
                (at ∙ ap (λ t. length t) (sym ops_same)),
            (refl, record { vars = held.vars; world = held.world }),
          );
  }
  next-Implements false f operand h =
      let same = return-Implements f operand h in record { grows = same.grows; runs = same.runs }
