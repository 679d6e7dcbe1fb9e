-- ===== src/ByteCode/Nots.antt =====
-- `not`.
use mathlib.Core.Option.{some-injective}
use mathlib.Core.Path.{subst}
use mirb.Prelude.Maps.{put}
use mirb.Prelude.Lists.{length}
use mirb.Value.{value_true, value_false, test}
use mirb.Vm.{Machine, continues, execute}
use mirb.ByteCode.{
  Op, load_true, load_false, branch_if, branch_op, Generator, gen, gen_label, create_label, patch,
}
use mirb.ByteCode.Convert.{Code, load, branch_on, convert_boolean_not}
use mirb.ByteCode.Grows.{Grows, Grows-gen, Grows-gen_label, Grows-trans, three-Grows}
use mirb.ByteCode.Meaning.{Result, value, Meaning, passes, mean_not}
use mirb.ByteCode.Reuse.{is_target_self, Ready-above}
use mirb.ByteCode.Runs.{
  Setting, is_target, Within, Within-Grows, step-gen, Ready, Fits, Fits-inner, Held, Leaves,
}
use mirb.ByteCode.Loads.{load-Ends}
use mirb.ByteCode.Branches.{branch-Passes}
use mirb.ByteCode.Implements.{
  window, Ends, Implements, here-Passes, after-Ends, and_then-Ends, jump-Ends,
}
use mirb.Prelude.{
  ℕ, ◌+◌, ◌≤◌, ◌<◌, ◌≡◌, ◌≢◌, refl, ap, ◌∙◌, inl, inr, true, Option, none, some, List, arith,
  if◌then◌else◌, Bool-cases,
}

module _ {W : Type 0} (b : Setting W) where
  -- From behind the operand, with the label `l` and the two after it.
  abbrev behind : ℕ → ℕ → Generator → Generator
  behind l var g =
      gen_label (l + 1 + 1)
        (gen (branch_if l var) (record g { label_count = g.label_count + 1 + 1 + 1 }))

  abbrev between : ℕ → ℕ → Generator → Generator
  between l var g = gen_label l (gen (branch_op (l + 1)) (gen (load_true var) (behind l var g)))

  abbrev whole : ℕ → ℕ → Generator → Generator
  whole l var g = gen_label (l + 1) (gen (load_false var) (between l var g))

  behind-Grows :
      {low high : ℕ} (l var : ℕ) (g : Generator)
      → l ≡ g.label_count
      → high ≤ g.label_count
      → Grows b.body low high g (behind l var g)
  behind-Grows l var g is under =
      let g3 = record g { label_count = g.label_count + 1 + 1 + 1 } in
      Grows-trans b.body (three-Grows b.body g) (
        Grows-trans b.body (Grows-gen b.body (branch_if l var) g3) (
          Grows-gen_label b.body (l + 1 + 1) (gen (branch_if l var) g3)
            (λ x i j n. omega (arith, is))))

  between-Grows :
      {low high : ℕ} (l var : ℕ) (g : Generator)
      → ((x : ℕ) → low ≤ x → x < high → x ≢ b.body → x ≢ l)
      → Grows b.body low high (behind l var g) (between l var g)
  between-Grows l var g out =
      let g4 = behind l var g in
      let g5 = gen (load_true var) g4 in
      Grows-trans b.body (Grows-gen b.body (load_true var) g4) (
        Grows-trans b.body (Grows-gen b.body (branch_op (l + 1)) g5)
          (Grows-gen_label b.body l (gen (branch_op (l + 1)) g5) out))

  last-Grows :
      {low high : ℕ} (l var : ℕ) (g : Generator)
      → ((x : ℕ) → low ≤ x → x < high → x ≢ b.body → x ≢ l + 1)
      → Grows b.body low high (between l var g) (whole l var g)
  last-Grows l var g out =
      Grows-trans b.body (Grows-gen b.body (load_false var) (between l var g))
        (Grows-gen_label b.body (l + 1) (gen (load_false var) (between l var g)) out)

  whole-Grows :
      {low high : ℕ} (l var : ℕ) (g : Generator)
      → l ≡ g.label_count
      → high ≤ g.label_count
      → Grows b.body low high g (whole l var g)
  whole-Grows l var g is under = Grows-trans b.body (behind-Grows l var g is under) (
      Grows-trans b.body (between-Grows l var g (λ x i j n. omega (arith, is)))
        (last-Grows l var g (λ x i j n. omega (arith, is))))

  -- With the value of the operand in `var`.
  behind-Ends :
      (s e l var v : ℕ) (g0 g : Generator) (ops : List Op) (labels : ℕ → ℕ)
      → Ready b (some var) g0
      → g0.label_count ≤ l
      → l ≡ g.label_count
      → Fits b g0 (whole l var g) ops labels
      → (m : Machine W) (env : ℕ → ℕ) (w : W) → m.ip ≡ length g.opcode
      → Held b env w m
      → m.vars var ≡ v
      → Ends b ops labels s e g0
          (whole l var g)
          (some var)
          m
          (value (if test v then value_false else value_true) env w)
  unfolding gen_label gen Leaves window patch execute put passes branch_on is_target load
  behind-Ends s e l var v g0 g ops labels ready under is fits m env w at held is_v =
      let h = whole l var g in
      let g4 = behind l var g in
      let g4b = gen (load_true var) g4 in
      let g6 = between l var g in
      let else_is : labels l ≡ length g6.opcode =
        ground (arith, fits.placed l, ready.labelled, is) in
      let end_is : labels (l + 1) ≡ length h.opcode =
        ground (arith, fits.placed (l + 1), ready.labelled, is) in
      let within6 : Within g6 ops =
        Within-Grows {low = 0} {high = 0} (last-Grows l var g (λ x i j n. omega arith))
          fits.within in
      let within4b : Within g4b ops =
        Within-Grows (Grows-gen b.body {low = 0} {high = 0} (branch_op (l + 1)) g4b) within6 in
      let within4 : Within g4 ops =
        Within-Grows (Grows-gen b.body {low = 0} {high = 0} (load_true var) g4) within4b in
      let above = (ready.target var (is_target_self var)).0 in
      let tested =
        branch-Passes b true l var v (some var) g0
          (record g { label_count = g.label_count + 1 + 1 + 1 }) ops labels m within4 at is_v in
      elim (Bool-cases (test v)) [
        | inl t ↦
            let m2 = record m { ip = labels l } in
            rw t (
              after-Ends b ops labels s e g0 h (some var) (value value_false env w) (rw t at tested)
                (load-Ends b (λ x. load_false x) value_false s e (some var) g0 g6 ops labels
                  (Ready-above b ready) fits.within m2 env w (λ x ip. refl) else_is
                  (record { vars = held.vars; world = held.world })))
        | inr t ↦
            let m2 = record m { ip = length g4.opcode } in
            rw t (
              after-Ends b ops labels s e g0 h (some var) (value value_true env w) (rw t at tested)
                (jump-Ends b ops labels s e g0 h g0 g4b (some var) (some var) (omega arith)
                  (λ x i n. n) m2 (value value_true env w) (λ x i. i)
                  (λ m1 at1.
                    step-gen b (branch_op (l + 1)) g4b ops labels m1 within6 at1
                    ∙ ap (λ x. continues (record m1 { ip = x })) end_is)
                  (load-Ends b (λ x. load_true x) value_true s e (some var) g0 g4 ops labels
                    (Ready-above b ready) within4b m2 env w (λ x ip. refl) refl
                    (record { vars = held.vars; world = held.world }))))
      ]

  not-Grows :
      (f : ℕ → ℕ → Code) (operand : Meaning W)
      → Implements b f operand
      → (s e : ℕ) (var : Option ℕ) (g : Generator)
      → Grows b.body 0 g.label_count g (convert_boolean_not (f s e) var g)
  unfolding convert_boolean_not create_label
  not-Grows f operand h s e none g = h.grows s e none g
  not-Grows f operand h s e (some var) g =
      let grown = h.grows s e (some var) g in
      Grows-trans b.body grown (
        whole-Grows (f s e (some var) g).label_count var (f s e (some var) g) refl
          grown.label_count)

  not-Ends :
      (f : ℕ → ℕ → Code) (operand : Meaning W)
      → Implements b f operand
      → (s e : ℕ) (var : Option ℕ) (g : Generator) (ops : List Op) (labels : ℕ → ℕ) → Ready b var g
      → Fits b g (convert_boolean_not (f s e) var g) ops labels
      → (m : Machine W) (env : ℕ → ℕ) (w : W) → m.ip ≡ length g.opcode
      → Held b env w m
      → (r : Result W) → mean_not operand env w ≡ some r
      → Ends b ops labels s e g (convert_boolean_not (f s e) var g) var m r
  unfolding convert_boolean_not mean_not create_label Leaves window is_target
  not-Ends f operand h s e none g ops labels ready fits m env w at held r run =
      let last = f s e none g in
      and_then-Ends b ops labels s e g last g last none none (omega arith) (λ t i n. n)
        (operand env w) _ m r
        (λ r1 e1. h.runs s e none g ops labels ready fits m env w at held r1 e1)
        (λ v env1 w1 m1 at1 held1 gives p run1.
          subst (λ u. Ends b ops labels s e g last none m1 u) (some-injective _ _ run1)
            (m1, here-Passes b m1, (at1, held1, λ t i. ground arith)))
        run
  not-Ends f operand h s e (some var) g ops labels ready fits m env w at held r run =
      let last = f s e (some var) g in
      let l = last.label_count in
      let grown = h.grows s e (some var) g in
      and_then-Ends b ops labels s e g (whole l var last) g last (some var) (some var) (omega arith)
        (λ t i n. n) (operand env w) _ m r
        (λ r1 e1.
          h.runs s e (some var) g ops labels ready
            (Fits-inner b fits ready.labelled (omega arith)
              (whole-Grows l var last refl (omega arith)))
            m env w at held r1 e1)
        (λ v env1 w1 m1 at1 held1 gives p run1.
          subst (λ u. Ends b ops labels s e g (whole l var last) (some var) m1 u)
            (some-injective _ _ run1)
            (behind-Ends s e l var v g last ops labels ready grown.label_count refl fits m1 env1 w1
              at1 held1 (gives var (is_target_self var))))
        run

  pub not-Implements :
      (f : ℕ → ℕ → Code) (operand : Meaning W)
      → Implements b f operand
      → Implements b (λ s e. convert_boolean_not (f s e)) (mean_not operand)
  not-Implements f operand h = record {
    grows = not-Grows f operand h;
    runs = λ s e var g. not-Ends f operand h s e var g;
  }
