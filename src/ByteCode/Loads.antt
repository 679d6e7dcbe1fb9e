-- ===== src/ByteCode/Loads.antt =====
-- Nodes that load a value, and assignments.
use mathlib.Core.Option.{some-injective}
use mathlib.Core.Path.{subst}
use mirb.Prelude.Maps.{put}
use mirb.Prelude.Lists.{length}
use mirb.Vm.{Machine, set_var, execute}
use mirb.ByteCode.{Op, move, Generator, gen, reuse, patch}
use mirb.ByteCode.Convert.{Code, load, convert_assignment}
use mirb.ByteCode.Grows.{Grows, Grows-refl, Grows-gen, Grows-trans, Grows-reuse, Grows-within}
use mirb.ByteCode.Meaning.{value, Meaning, mean_assignment}
use mirb.ByteCode.Reuse.{is_target_self, reuse-Ready, reuse-apart, reuse-counts, Ready-above}
use mirb.ByteCode.Runs.{Setting, is_target, Within, Within-Grows, Fits-inner, Held, Passes, Leaves}
use mirb.ByteCode.Implements.{
  window, Ends, Implements, write-Passes, Held-write, here-Passes, and_then-Ends, after-Ends,
}
use mirb.Prelude.{ℕ, ◌≤◌, ◌<◌, ◌≡◌, refl, sym, ap, ◌∙◌, true, Option, none, some, List, map, arith}

module _ {W : Type 0} (b : Setting W) where
  -- `op` loads what `v` is of the local variables.
  abbrev pub Loads : (ℕ → Op) → ((ℕ → ℕ) → ℕ) → Type 0
  Loads op v =
      (t ip : ℕ) (labels : ℕ → ℕ) (m : Machine W) (env : ℕ → ℕ) (w : W)
      → Held b env w m
      → execute b.self b.send (patch labels (op t)) (record m { ip = ip })
        ≡ set_var t (v env) (record m { ip = ip })

  -- From a state in which the op loads `v`.
  pub load-Ends :
      (op : ℕ → Op) (v : ℕ) (start end : ℕ) (var : Option ℕ) (g0 g : Generator) (ops : List Op)
      → (labels : ℕ → ℕ) → ((t : ℕ) → is_target var t ≡ true → b.locals ≤ t)
      → Within (load op var g) ops
      → (m : Machine W) (env : ℕ → ℕ) (w : W)
      → ((t ip : ℕ)
          → execute b.self b.send (patch labels (op t)) (record m { ip = ip })
            ≡ set_var t v (record m { ip = ip }))
      → m.ip ≡ length g.opcode
      → Held b env w m
      → Ends b ops labels start end g0 (load op var g) var m (value v env w)
  unfolding load Leaves window is_target put
  load-Ends op v start end none g0 g ops labels above within m env w loads at held =
      (m, here-Passes b m, (at, held, λ t i. ground arith))
  load-Ends op v start end (some t) g0 g ops labels above within m env w loads at held =
      let ip = length (gen (op t) g).opcode in
      (
        record { ip = ip; vars = put m.vars t v; world = m.world },
        write-Passes b (op t) t v g ops labels m within at (loads t ip) (λ r i j n. ground arith),
        (refl, Held-write b ip t v held (above t (ground arith)), λ r i. ground arith),
      )

  pub load-Grows :
      {low high : ℕ} (op : ℕ → Op) (var : Option ℕ) (g : Generator)
      → Grows b.body low high g (load op var g)
  unfolding load
  load-Grows op none g = Grows-refl b.body g
  load-Grows op (some t) g = Grows-gen b.body (op t) g

  pub load-Implements :
      (op : ℕ → Op) (v : (ℕ → ℕ) → ℕ)
      → Loads op v
      → Implements b (λ _ _. load op) (λ env w. some (value (v env) env w))
  load-Implements op v loads = record {
    grows = λ _ _ var g. load-Grows op var g;
    runs = λ start end var g ops labels ready fits m env w at held r run.
        subst (λ u. Ends b ops labels start end g (load op var g) var m u) (some-injective _ _ run)
          (load-Ends op (v env) start end var g g ops labels (λ t i. (ready.target t i).0)
            fits.within m env w (λ t ip. loads t ip labels m env w held) at held);
  }

  assignment-Grows :
      {low high : ℕ} (loc store : ℕ) (var : Option ℕ) (g : Generator)
      → Grows b.body low high g (load (λ v. move v store) var (gen (move loc store) g))
  assignment-Grows loc store var g =
      Grows-trans b.body (Grows-gen b.body (move loc store) g)
        (load-Grows (λ v. move v store) var (gen (move loc store) g))

  -- The value stands in `store`, which is none of the locals.
  assignment-Ends :
      (loc store v start end : ℕ) (var : Option ℕ) (g0 g : Generator) (ops : List Op)
      → (labels : ℕ → ℕ) → ((t : ℕ) → is_target var t ≡ true → b.locals ≤ t)
      → loc < b.locals
      → b.locals ≤ store
      → Within (load (λ t. move t store) var (gen (move loc store) g)) ops
      → (m : Machine W) (env : ℕ → ℕ) (w : W) → m.ip ≡ length g.opcode
      → Held b env w m
      → m.vars store ≡ v
      → Ends b ops labels start end g0
          (load (λ t. move t store) var (gen (move loc store) g))
          var
          m
          (value v (put env loc v) w)
  unfolding put patch execute
  assignment-Ends loc store v start end var g0 g ops labels above local apart within m env w at held
        is_v =
      let g1 = gen (move loc store) g in
      let m1 : Machine W = record {
        ip = length g1.opcode;
        vars = put m.vars loc v;
        world = m.world;
      } in
      let stored : Held b (put env loc v) w m1 = record {
        vars = λ i j. ground (arith, held.vars i j);
        world = held.world;
      } in
      let first : Passes b (map (patch labels) ops) var g0 m m1 =
        write-Passes b (move loc store) loc v g ops labels m
          (Within-Grows (load-Grows {low = 0} {high = 0} (λ t. move t store) var g1) within) at
          (ap (λ x. set_var loc x (record m { ip = length g1.opcode })) is_v)
          (λ r i j n. omega arith) in
      let kept : m1.vars store ≡ v = ground (arith, is_v) in
      after-Ends b ops labels start end g0 (load (λ t. move t store) var g1) var
        (value v (put env loc v) w) first
        (load-Ends (λ t. move t store) v start end var g0 g1 ops labels above within m1
          (put env loc v) w (λ t ip. ap (λ x. set_var t x (record m1 { ip = ip })) kept) refl
          stored)

  pub assignment-Implements :
      (loc : ℕ) (f : ℕ → ℕ → Code) (right : Meaning W)
      → loc < b.locals
      → Implements b f right
      → Implements b (λ s e. convert_assignment loc (f s e)) (mean_assignment loc right)
  unfolding convert_assignment mean_assignment
  assignment-Implements loc f right local h = record {
    grows = λ s e var g.
        let (store, g1) = reuse var g in
        let (same, _, under) = reuse-counts b var g in
        Grows-trans b.body (Grows-reuse b.body var g) (
          Grows-trans b.body
            (Grows-within b.body (h.grows s e (some store) g1) (omega arith) (omega (arith, same)))
            (assignment-Grows loc store var (f s e (some store) g1)));
    runs = λ s e var g ops labels ready fits m env w at held r run.
        let (store, g1) = reuse var g in
        let (same, ops_same, under) = reuse-counts b var g in
        let inner = reuse-Ready b var g ready in
        let last = f s e (some store) g1 in
        let after =
          assignment-Grows {low = g1.label_count} {high = last.label_count} loc store var last in
        and_then-Ends b ops labels s e g (convert_assignment loc (f s e) var g) g1 last var
          (some store) under (reuse-apart b var g) (right env w) _ m r
          (λ r1 e1.
            h.runs s e (some store) g1 ops labels inner
              (Fits-inner b fits ready.labelled (omega (arith, same)) after) m env w
              (at ∙ ap (λ t. length t) (sym ops_same)) held r1 e1)
          (λ v env1 w1 m1 at1 held1 gives p run1.
            subst (λ u. Ends b ops labels s e g (convert_assignment loc (f s e) var g) var m1 u)
              (some-injective _ _ run1)
              (assignment-Ends loc store v s e var g last ops labels (Ready-above b ready) local
                (inner.target store (is_target_self store)).0 fits.within m1 env1 w1 at1 held1
                (gives store (is_target_self store))))
          run;
  }
