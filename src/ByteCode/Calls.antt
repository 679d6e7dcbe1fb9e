-- ===== src/ByteCode/Calls.antt =====
-- Binary operators, which are calls.
use mathlib.Core.Option.{some-injective}
use mathlib.Core.Path.{subst}
use mirb.Prelude.Maps.{put}
use mirb.Prelude.Lists.{length}
use mirb.Vm.{take_answer, arguments, answers, raises, Answer, Machine, set_var, execute, step}
use mirb.ByteCode.{Op, call, create_var, Generator, gen, reuse, patch}
use mirb.ByteCode.Convert.{Code, convert_binary_op}
use mirb.ByteCode.Grows.{Grows, Grows-gen, Grows-trans, Grows-reuse, Grows-within, Grows-create_var}
use mirb.ByteCode.Meaning.{Result, Meaning, and_then, answered, mean_binary_op}
use mirb.ByteCode.Reuse.{is_target_self, reuse-Ready, reuse-apart, reuse-counts, Ready-above}
use mirb.ByteCode.Runs.{Setting, is_target, Within, step-gen, Ready, Fits, Fits-inner, Held, Leaves}
use mirb.ByteCode.Implements.{window, Ends, Implements, one-Passes, here-Passes, and_then-Ends}
use mirb.Prelude.{
  ℕ, ◌+◌, ◌≤◌, ◌<◌, ◌≡◌, refl, sym, ap, ◌∙◌, true, Option, none, some, List, [], ◌∷◌, map, arith,
}

module _ {W : Type 0} (b : Setting W) (method : ℕ) where
  -- What becomes of the answer.
  answer-Ends :
      (s e : ℕ) (var : Option ℕ) (g0 h : Generator) (ops : List Op) (labels : ℕ → ℕ)
      → ((t : ℕ) → is_target var t ≡ true → b.locals ≤ t)
      → (m : Machine W) (env : ℕ → ℕ) (w : W) → Held b env w m
      → (a : Answer W)
      → step b.self b.send (map (patch labels) ops) m
        ≡ take_answer var a (record m { ip = length h.opcode })
      → Ends b ops labels s e g0 h var m (answered env a)
  unfolding answered Leaves window take_answer set_var is_target put
  answer-Ends s e none g0 h ops labels above m env w held (answers v w1) stepped = (
    record { ip = length h.opcode; vars = m.vars; world = w1 },
    one-Passes b stepped (λ r i j n. refl),
    (refl, record { vars = held.vars; world = refl }, λ t i. ground arith),
  )
  answer-Ends s e (some x) g0 h ops labels above m env w held (answers v w1) stepped = (
    record { ip = length h.opcode; vars = put m.vars x v; world = w1 },
    one-Passes b stepped (λ r i j n. ground arith),
    (
      refl,
      record {
        vars = λ i j. ground (arith, held.vars i j, above x (is_target_self x));
        world = refl;
      },
      λ t i. ground arith,
    ),
  )
  answer-Ends s e none g0 h ops labels above m env w held (raises x w1) stepped =
      (m, here-Passes b m, stepped)
  answer-Ends s e (some t) g0 h ops labels above m env w held (raises x w1) stepped =
      (m, here-Passes b m, stepped)

  -- With the operands in `obj` and `argv`.
  call-Ends :
      (s e obj argv x y : ℕ) (var : Option ℕ) (g0 g : Generator) (ops : List Op) (labels : ℕ → ℕ)
      → ((t : ℕ) → is_target var t ≡ true → b.locals ≤ t)
      → Within (gen (call var obj method 1 argv) g) ops
      → (m : Machine W) (env : ℕ → ℕ) (w : W) → m.ip ≡ length g.opcode
      → Held b env w m
      → m.vars obj ≡ x
      → m.vars argv ≡ y
      → Ends b ops labels s e g0
          (gen (call var obj method 1 argv) g)
          var
          m
          (answered env (b.send x method (y ∷ []) w))
  unfolding patch execute arguments
  call-Ends s e obj argv x y var g0 g ops labels above within m env w at held is_x is_y =
      let h = gen (call var obj method 1 argv) g in
      let sent : b.send (m.vars obj) method (m.vars argv ∷ []) m.world
          ≡ b.send x method (y ∷ []) w =
        rw (is_x, is_y, held.world) refl in
      answer-Ends s e var g0 h ops labels above m env w held (b.send x method (y ∷ []) w) (
        step-gen b (call var obj method 1 argv) g ops labels m within at
        ∙ ap (λ a. take_answer var a (record m { ip = length h.opcode })) sent)

  -- From behind the left operand.
  abbrev whole : (ℕ → ℕ → Code) → ℕ → ℕ → ℕ → Option ℕ → Generator → Generator
  whole right s e obj var g =
      gen (call var obj method 1 g.var_count)
        (right s e (some g.var_count) (record g { var_count = g.var_count + 1 }))

  module _ (right : ℕ → ℕ → Code) (meaning : Meaning W) (h : Implements b right meaning) where
    whole-Grows :
        {low high : ℕ} (s e obj : ℕ) (var : Option ℕ) (g : Generator)
        → high ≤ g.label_count
        → Grows b.body low high g (whole right s e obj var g)
    unfolding create_var
    whole-Grows s e obj var g under =
        let g2 = record g { var_count = g.var_count + 1 } in
        Grows-trans b.body (Grows-create_var b.body g) (
          Grows-trans b.body
            (Grows-within b.body (h.grows s e (some g.var_count) g2) (omega arith) under)
            (Grows-gen b.body (call var obj method 1 g.var_count)
              (right s e (some g.var_count) g2)))

    -- With the left operand's value in `obj`.
    right-Ends :
        (s e obj x : ℕ) (var : Option ℕ) (g0 g : Generator) (ops : List Op) (labels : ℕ → ℕ)
        → Ready b var g0
        → g0.label_count ≤ g.label_count
        → g0.var_count ≤ g.var_count
        → b.locals ≤ obj
        → obj < g.var_count
        → Fits b g0 (whole right s e obj var g) ops labels
        → (m : Machine W) (env : ℕ → ℕ) (w : W) → m.ip ≡ length g.opcode
        → Held b env w m
        → m.vars obj ≡ x
        → (r : Result W)
        → and_then (meaning env w) (λ y env1 w1. some (answered env1 (b.send x method (y ∷ []) w1)))
          ≡ some r
        → Ends b ops labels s e g0 (whole right s e obj var g) var m r
    unfolding is_target gen
    right-Ends s e obj x var g0 g ops labels ready more under above below fits m env w at held is_x
          r run =
        let argv = g.var_count in
        let g2 = record g { var_count = g.var_count + 1 } in
        let last = right s e (some argv) g2 in
        let end_of = whole right s e obj var g in
        let inner : Ready b (some argv) g2 = record {
          labelled = omega (arith, ready.labelled);
          own = ready.own;
          room = omega (arith, ready.room);
          target = λ t i. ground (arith, ready.own, ready.room);
        } in
        and_then-Ends b ops labels s e g0 end_of g2 last var (some argv) (omega arith)
          (λ t i n. ground arith) (meaning env w) _ m r
          (λ r1 e1.
            h.runs s e (some argv) g2 ops labels inner
              (Fits-inner b fits ready.labelled more
                (Grows-gen b.body (call var obj method 1 argv) last))
              m env w at held r1 e1)
          (λ y env1 w1 m1 at1 held1 gives p run1.
            subst (λ u. Ends b ops labels s e g0 end_of var m1 u) (some-injective _ _ run1)
              (call-Ends s e obj argv x y var g0 last ops labels (Ready-above b ready) fits.within
                m1 env1 w1 at1 held1 (p.kept obj above (omega arith) (ground arith) ∙ is_x)
                (gives argv (is_target_self argv))))
          run

    pub binary_op-Implements :
        (f : ℕ → ℕ → Code) (left : Meaning W)
        → Implements b f left
        → Implements b
            (λ s e. convert_binary_op method (f s e) (right s e))
            (mean_binary_op b.send method left meaning)
    unfolding convert_binary_op mean_binary_op create_var
    binary_op-Implements f left hl = record {
      grows = λ s e var g.
          let (obj, g1) = reuse var g in
          let (same, _, under) = reuse-counts b var g in
          let grown = hl.grows s e (some obj) g1 in
          Grows-trans b.body (Grows-reuse b.body var g) (
            Grows-trans b.body (Grows-within b.body grown (omega arith) (omega (arith, same))) (
              whole-Grows s e obj var (f s e (some obj) g1)
                (omega (arith, same, grown.label_count))));
      runs = λ s e var g ops labels ready fits m env w at held r run.
          let (obj, g1) = reuse var g in
          let (same, ops_same, under) = reuse-counts b var g in
          let gl = f s e (some obj) g1 in
          let grown = hl.grows s e (some obj) g1 in
          let inner = reuse-Ready b var g ready in
          let own = inner.target obj (is_target_self obj) in
          and_then-Ends b ops labels s e g (whole right s e obj var gl) g1 gl var (some obj) under
            (reuse-apart b var g) (left env w) _ m r
            (λ r1 e1.
              hl.runs s e (some obj) g1 ops labels inner
                (Fits-inner b fits ready.labelled (omega (arith, same))
                  (whole-Grows s e obj var gl (omega arith)))
                m env w (at ∙ ap (λ t. length t) (sym ops_same)) held r1 e1)
            (λ x env1 w1 m1 at1 held1 gives p run1.
              right-Ends s e obj x var g gl ops labels ready
                (omega (arith, same, grown.label_count)) (omega (arith, under, grown.var_count))
                own.0 (omega (arith, own.1, grown.var_count)) fits m1 env1 w1 at1 held1
                (gives obj (is_target_self obj)) r run1)
            run;
    }
