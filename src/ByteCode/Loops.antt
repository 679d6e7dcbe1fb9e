-- ===== src/ByteCode/Loops.antt =====
-- `convert_loop` (src/codegen/bytecode.cpp): the condition and the body of a loop, round after round.
use mathlib.Core.Option.{some-injective}
use mathlib.Core.Path.{subst}
use mirb.Prelude.Lists.{length}
use mirb.Value.{value_nil}
use mirb.Vm.{Machine, execute}
use mirb.ByteCode.{load_nil, Op, branch_op, Generator, gen, gen_label, create_label, reuse, patch}
use mirb.ByteCode.Convert.{Code, load, branch_on, convert_loop}
use mirb.ByteCode.Grows.{
  Grows, Grows-gen, Grows-gen_label, Grows-trans, Grows-reuse, Grows-within, three-Grows,
}
use mirb.ByteCode.Meaning.{
  Result, value, Meaning, passes, raised, returned, broke, continued, after_round, mean_loop,
}
use mirb.ByteCode.Reuse.{
  is_target_self, reuse-Ready, reuse-apart, reuse-counts, Ready-above, Ready-Grows,
}
use mirb.ByteCode.Runs.{
  Setting, Within, Within-Grows, Ready, Fits, Fits-inner, Held, Passes, Passes-inner, Passes-trans,
  Leaves,
}
use mirb.ByteCode.Loads.{load-Ends, load-Grows}
use mirb.ByteCode.Branches.{branch-Passes, jump-Passes, placed-here}
use mirb.ByteCode.Implements.{window, Ends, Implements, after-Ends, and_then-Ends}
use mirb.Prelude.{
  ℕ, zero, suc, ◌+◌, ◌≤◌, ◌<◌, ◌≡◌, ◌≢◌, refl, sym, ap, ◌∙◌, inl, inr, Bool, Option, none, some,
  List, map, arith, if◌then◌else◌, Bool-cases,
}

module _ {W : Type 0} (b : Setting W) (inverted : Bool) (condition body : ℕ → ℕ → Code) where
  -- The states of the generator, with the labels `l` and the two after it.
  abbrev started : ℕ → Generator → Generator
  started l g = gen_label l (record g { label_count = g.label_count + 1 + 1 + 1 })

  abbrev tested : ℕ → ℕ → Generator → Generator
  tested l temp g = gen (branch_on inverted (l + 1 + 1) temp) (gen_label (l + 1) g)

  abbrev closed : ℕ → Generator → Generator
  closed l g = gen_label (l + 1 + 1) (gen (branch_op l) (gen_label b.body g))

  -- From behind the condition.
  abbrev rest : ℕ → ℕ → Option ℕ → Generator → Generator
  rest l temp var g =
      load (λ v. load_nil v) var (closed l (body l (l + 1 + 1) (some temp) (tested l temp g)))

  module _ {mean_condition mean_body : Meaning W} (hc : Implements b condition mean_condition)
      (hb : Implements b body mean_body) where
    -- A window that the labels behind the first are not in.
    abbrev Out : ℕ → ℕ → ℕ → Type 0
    Out l low high = (x : ℕ) → low ≤ x → x < high → (x ≢ l + 1) × (x ≢ l + 1 + 1)

    started-Grows :
        {low high : ℕ} (l : ℕ) (g : Generator)
        → ((x : ℕ) → low ≤ x → x < high → x ≢ l)
        → Grows b.body low high g (started l g)
    started-Grows l g out = Grows-trans b.body (three-Grows b.body g) (
        Grows-gen_label b.body l (record g { label_count = g.label_count + 1 + 1 + 1 })
          (λ x i j n. out x i j))

    tested-Grows :
        {low high : ℕ} (l temp : ℕ) (g : Generator)
        → Out l low high
        → Grows b.body low high g (tested l temp g)
    tested-Grows l temp g out =
        Grows-trans b.body (Grows-gen_label b.body (l + 1) g (λ x i j n. (out x i j).0))
          (Grows-gen b.body (branch_on inverted (l + 1 + 1) temp) (gen_label (l + 1) g))

    -- From behind the body.
    closed-Grows :
        {low high : ℕ} (l : ℕ) (var : Option ℕ) (g : Generator)
        → Out l low high
        → Grows b.body low high g (load (λ v. load_nil v) var (closed l g))
    closed-Grows l var g out =
        let g1 = gen_label b.body g in
        let g2 = gen (branch_op l) g1 in
        Grows-trans b.body (Grows-gen_label b.body b.body g (λ x i j n. n)) (
          Grows-trans b.body (Grows-gen b.body (branch_op l) g1) (
            Grows-trans b.body (Grows-gen_label b.body (l + 1 + 1) g2 (λ x i j n. (out x i j).1))
              (load-Grows b (λ v. load_nil v) var (closed l g))))

    rest-Grows :
        {low high : ℕ} (l temp : ℕ) (var : Option ℕ) (g : Generator)
        → Out l low high
        → high ≤ g.label_count
        → Grows b.body low high g (rest l temp var g)
    rest-Grows l temp var g out under =
        let first = tested-Grows l temp g out in
        Grows-trans b.body first (
          Grows-trans b.body
            (Grows-within b.body (hb.grows l (l + 1 + 1) (some temp) (tested l temp g))
              (omega arith) (omega (arith, under, first.label_count)))
            (closed-Grows l var (body l (l + 1 + 1) (some temp) (tested l temp g)) out))

    -- The variable for the parts, and the generator behind the condition.
    abbrev behind : ℕ → ℕ → Option ℕ → Generator → Generator
    behind s e var g =
        condition s e (some (reuse var (started g.label_count g)).0)
          (reuse var (started g.label_count g)).1

    abbrev whole : ℕ → ℕ → Option ℕ → Generator → Generator
    whole s e var g =
        rest g.label_count (reuse var (started g.label_count g)).0 var (behind s e var g)

    behind-Grows :
        {low high : ℕ} (s e : ℕ) (var : Option ℕ) (g : Generator)
        → high ≤ g.label_count + 1 + 1 + 1
        → Grows b.body low high (started g.label_count g) (behind s e var g)
    unfolding gen_label
    behind-Grows s e var g under =
        let (temp, g4) = reuse var (started g.label_count g) in
        let (same, _, _) = reuse-counts b var (started g.label_count g) in
        Grows-trans b.body (Grows-reuse b.body var (started g.label_count g))
          (Grows-within b.body (hc.grows s e (some temp) g4) (omega arith) (omega (arith, same)))

    whole-Grows :
        {low high : ℕ} (s e : ℕ) (var : Option ℕ) (g : Generator)
        → Out g.label_count low high
        → high ≤ g.label_count + 1 + 1 + 1
        → Grows b.body low high (started g.label_count g) (whole s e var g)
    unfolding gen_label
    whole-Grows s e var g out under =
        let first = behind-Grows s e var g under in
        Grows-trans b.body first (
          rest-Grows g.label_count (reuse var (started g.label_count g)).0 var (behind s e var g)
            out (omega (arith, under, first.label_count)))

    -- The positions of the labels for the jumps.
    labels-are :
        (s e : ℕ) (var : Option ℕ) (g : Generator) (ops : List Op) (labels : ℕ → ℕ)
        → b.body < g.label_count
        → Fits b g (whole s e var g) ops labels
        → (labels g.label_count ≡ length g.opcode)
          × (labels (g.label_count + 1 + 1)
              ≡ length
                  (closed g.label_count (
                    body g.label_count
                      (g.label_count + 1 + 1)
                      (some (reuse var (started g.label_count g)).0)
                      (tested g.label_count
                        (reuse var (started g.label_count g)).0
                        (behind s e var g)))).opcode)
    unfolding gen_label gen
    labels-are s e var g ops labels own fits =
        let l = g.label_count in
        let temp = (reuse var (started l g)).0 in
        let gb = body l (l + 1 + 1) (some temp) (tested l temp (behind s e var g)) in
        let all =
          whole-Grows {low = l} {high = l + 1} s e var g (λ x i j. (omega arith, omega arith))
            (omega arith) in
        let first = behind-Grows {low = 0} {high = 0} s e var g (omega arith) in
        let inner = hb.grows l (l + 1 + 1) (some temp) (tested l temp (behind s e var g)) in
        let ended = load-Grows b {low = 0} {high = l + 3} (λ v. load_nil v) var (closed l gb) in
        (
          fits.placed l (omega arith) (omega (arith, all.label_count))
              ∙ all.labels l (omega arith) (omega arith) (omega arith)
              ∙ placed-here b l (record g { label_count = l + 1 + 1 + 1 }),
          fits.placed (l + 1 + 1) (omega arith) (omega (arith, all.label_count))
              ∙ ended.labels (l + 1 + 1) (omega arith) (omega arith) (omega arith)
              ∙ placed-here b (l + 1 + 1) (gen (branch_op l) (gen_label b.body gb)),
        )

    -- One loop in the final ops.
    module _ (s e : ℕ) (var : Option ℕ) (g : Generator) (ops : List Op) (labels : ℕ → ℕ)
        (ready : Ready b var g) (fits : Fits b g (whole s e var g) ops labels) where
      abbrev l : ℕ
      l = g.label_count

      abbrev temp : ℕ
      temp = (reuse var (started l g)).0

      abbrev before_body : Generator
      before_body = tested l temp (behind s e var g)

      abbrev behind_body : Generator
      behind_body = body l (l + 1 + 1) (some temp) before_body

      abbrev Leads : Machine W → Result W → Type 0
      Leads = Ends b ops labels s e g (whole s e var g) var

      -- Behind the loop its value is nil.
      end-Ends :
          (m : Machine W) (env : ℕ → ℕ) (w : W)
          → m.ip ≡ length (closed l behind_body).opcode
          → Held b env w m
          → Leads m (value value_nil env w)
      unfolding patch execute
      end-Ends m env w at held =
          load-Ends b (λ v. load_nil v) value_nil s e var g (closed l behind_body) ops labels
            (Ready-above b ready) fits.within m env w (λ t ip. refl) at held

      vars-grow : (g.var_count ≤ before_body.var_count) × (l + 1 + 1 + 1 ≤ before_body.label_count)
      unfolding gen_label gen
      vars-grow =
          let first = behind-Grows {low = 0} {high = 0} s e var g (omega arith) in
          (first.var_count, first.label_count)

      part-Passes :
          {m m1 : Machine W}
          → Passes b (map (patch labels) ops) (some temp) before_body m m1
          → Passes b (map (patch labels) ops) var g m m1
      unfolding gen_label
      part-Passes p =
          Passes-inner b _ p vars-grow.0 (λ t i n. reuse-apart b var (started l g) t i n)

      -- What the body leaves, with the rounds that are left.
      round-Ends :
          (again : Meaning W) (r : Result W)
          → ((m : Machine W) (env : ℕ → ℕ) (w : W)
              → m.ip ≡ length g.opcode
              → Held b env w m
              → again env w ≡ some r
              → Leads m r)
          → (m : Machine W) (r1 : Result W)
          → Ends b ops labels l (l + 1 + 1) before_body behind_body (some temp) m r1
          → after_round (some r1) again ≡ some r
          → Leads m r
      unfolding after_round Leaves window gen_label gen
      round-Ends again r next m (value v env w) (m1, p, (at, held, gives)) run =
          let within : Within (closed l behind_body) ops =
            Within-Grows
              (load-Grows b {low = 0} {high = 0} (λ v. load_nil v) var (closed l behind_body))
              fits.within in
          let start_is = (labels-are s e var g ops labels ready.labelled fits).0 in
          after-Ends b ops labels s e g (whole s e var g) var r
            (Passes-trans b _ (part-Passes p)
              (jump-Passes b l var g (gen_label b.body behind_body) ops labels m1 within at))
            (next (record m1 { ip = labels l }) env w start_is
              (record { vars = held.vars; world = held.world }) run)
      round-Ends again r next m (continued env w) (m1, p, (at, held)) run =
          let start_is = (labels-are s e var g ops labels ready.labelled fits).0 in
          after-Ends b ops labels s e g (whole s e var g) var r (part-Passes p)
            (next m1 env w (at ∙ start_is) held run)
      round-Ends again r next m (broke env w) (m1, p, (at, held)) run =
          let end_is = (labels-are s e var g ops labels ready.labelled fits).1 in
          subst (λ u. Leads m u) (some-injective _ _ run)
            (after-Ends b ops labels s e g (whole s e var g) var (value value_nil env w)
              (part-Passes p) (end-Ends m1 env w (at ∙ end_is) held))
      round-Ends again r next m (raised x w) (m1, p, leaves) run =
          subst (λ u. Leads m u) (some-injective _ _ run) (m1, part-Passes p, leaves)
      round-Ends again r next m (returned v w) (m1, p, leaves) run =
          subst (λ u. Leads m u) (some-injective _ _ run)
            (m1, Passes-inner b _ p (omega arith) (λ t i n. absurd (omega arith)), leaves)

      body-Ends :
          (again : Meaning W) (r : Result W)
          → ((m : Machine W) (env : ℕ → ℕ) (w : W)
              → m.ip ≡ length g.opcode
              → Held b env w m
              → again env w ≡ some r
              → Leads m r)
          → (m : Machine W) (env : ℕ → ℕ) (w : W) → m.ip ≡ length before_body.opcode
          → Held b env w m
          → (o : Option (Result W)) → mean_body env w ≡ o
          → after_round o again ≡ some r
          → Leads m r
      unfolding after_round gen_label gen
      body-Ends again r next m env w at held none e1 run = ground arith
      body-Ends again r next m env w at held (some r1) e1 run =
          round-Ends again r next m r1
            (hb.runs l (l + 1 + 1) (some temp) before_body ops labels
              (Ready-Grows b
                (Ready-Grows b
                  (reuse-Ready b var (started l g) (
                    Ready-Grows b ready
                      (started-Grows {low = 0} {high = 0} l g (λ x i j. absurd (omega arith)))))
                  (hc.grows s e (some temp) (reuse var (started l g)).1))
                (tested-Grows {low = 0} {high = 0} l temp (behind s e var g)
                  (λ x i j. absurd (omega arith))))
              (Fits-inner b fits ready.labelled (omega (arith, vars-grow.1)) (
                closed-Grows l var behind_body
                  (λ x i j. (omega (arith, vars-grow.1), omega (arith, vars-grow.1)))))
              m env w at held r1 e1)
            run

      -- Behind the condition, which has left `v` in `temp`.
      tested-Ends :
          (again : Meaning W) (r : Result W)
          → ((m : Machine W) (env : ℕ → ℕ) (w : W)
              → m.ip ≡ length g.opcode
              → Held b env w m
              → again env w ≡ some r
              → Leads m r)
          → (m : Machine W) (env : ℕ → ℕ) (w : W) (v : ℕ) → m.ip ≡ length (behind s e var g).opcode
          → Held b env w m
          → m.vars temp ≡ v
          → (if passes inverted v
              then some (value value_nil env w)
              else after_round (mean_body env w) again)
            ≡ some r
          → Leads m r
      unfolding gen_label gen
      tested-Ends again r next m env w v at held is_v run =
          let grown = hb.grows l (l + 1 + 1) (some temp) before_body in
          let (start_is, end_is) = labels-are s e var g ops labels ready.labelled fits in
          let within : Within before_body ops =
            Within-Grows {low = 0} {high = 0}
              (Grows-trans b.body (Grows-within b.body grown (omega arith) (omega arith))
                (closed-Grows l var behind_body (λ x i j. absurd (omega arith))))
              fits.within in
          let branched =
            branch-Passes b inverted (l + 1 + 1) temp v var g (gen_label (l + 1) (behind s e var g))
              ops labels m within at is_v in
          elim (Bool-cases (passes inverted v)) [
            | inl t ↦
                subst (λ u. Leads m u) (some-injective _ _ (rw t at run))
                  (after-Ends b ops labels s e g (whole s e var g) var (value value_nil env w)
                    (rw t at branched)
                    (end-Ends (record m { ip = labels (l + 1 + 1) }) env w end_is
                      (record { vars = held.vars; world = held.world })))
            | inr t ↦ after-Ends b ops labels s e g (whole s e var g) var r (rw t at branched) (
                body-Ends again r next (record m { ip = length before_body.opcode }) env w refl
                  (record { vars = held.vars; world = held.world }) (mean_body env w) refl
                  (rw t at run))
          ]

    -- Rounds of the meaning are runs through the ops.
    rounds-Ends :
        (fuel : ℕ) (s e : ℕ) (var : Option ℕ) (g : Generator) (ops : List Op) (labels : ℕ → ℕ)
        → Ready b var g
        → Fits b g (whole s e var g) ops labels
        → (r : Result W) (m : Machine W) (env : ℕ → ℕ) (w : W) → m.ip ≡ length g.opcode
        → Held b env w m
        → mean_loop fuel inverted mean_condition mean_body env w ≡ some r
        → Ends b ops labels s e g (whole s e var g) var m r
    unfolding mean_loop gen_label
    rounds-Ends zero s e var g ops labels ready fits r m env w at held run = ground arith
    rounds-Ends (suc fuel) s e var g ops labels ready fits r m env w at held run =
        let gs = started g.label_count g in
        let (temp, g4) = reuse var gs in
        let (same, ops_same, under) = reuse-counts b var gs in
        let gc = behind s e var g in
        let ready_s =
          Ready-Grows b ready
            (started-Grows {low = 0} {high = 0} g.label_count g (λ x i j. absurd (omega arith))) in
        and_then-Ends b ops labels s e g (whole s e var g) g4 gc var (some temp) under
          (reuse-apart b var gs) (mean_condition env w) _ m r
          (λ r1 e1.
            hc.runs s e (some temp) g4 ops labels (reuse-Ready b var gs ready_s)
              (Fits-inner b fits ready.labelled (omega (arith, same)) (
                rest-Grows g.label_count temp var gc
                  (λ x i j. (omega (arith, same), omega (arith, same))) (omega arith)))
              m env w (at ∙ ap (λ t. length t) (sym ops_same)) held r1 e1)
          (λ v env1 w1 m1 at1 held1 gives p run1.
            tested-Ends s e var g ops labels ready fits
              (mean_loop fuel inverted mean_condition mean_body) r
              (λ m2 env2 w2 at2 held2 run2.
                rounds-Ends fuel s e var g ops labels ready fits r m2 env2 w2 at2 held2 run2)
              m1 env1 w1 v at1 held1 (gives temp (is_target_self temp)) run1)
          run

    pub loop-Implements :
        (fuel : ℕ)
        → Implements b
            (λ s e. convert_loop b.body inverted (condition s e) body)
            (mean_loop fuel inverted mean_condition mean_body)
    unfolding convert_loop create_label gen_label gen
    loop-Implements fuel = record {
      grows = λ s e var g.
          Grows-trans b.body (started-Grows g.label_count g (λ x i j. omega arith))
            (whole-Grows s e var g (λ x i j. (omega arith, omega arith)) (omega arith));
      runs = λ s e var g ops labels ready fits m env w at held r run.
          rounds-Ends fuel s e var g ops labels ready fits r m env w at held run;
    }
