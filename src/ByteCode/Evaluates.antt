-- ===== src/ByteCode/Evaluates.antt =====
-- A whole block, from the node to the answer.
use mirb.Prelude.Maps.{put}
use mirb.Prelude.Lists.{length}
use mirb.Value.{value_nil}
use mirb.Vm.{evaluate, evaluate_block, answers, raises, Answer, Machine, continues, execute, step}
use mirb.ByteCode.{return_op, Op, Node, create_var, Generator, gen, gen_label, create_label, patch}
use mirb.ByteCode.Convert.{generate, finalize, convert}
use mirb.ByteCode.Grows.{append-nil}
use mirb.ByteCode.Meaning.{Result, value, raised, returned, broke, continued, mean}
use mirb.ByteCode.Correct.{IsScoped, convert-Implements}
use mirb.ByteCode.Reuse.{is_target_self}
use mirb.ByteCode.Runs.{Setting, Steps, here, on, is_target, step-gen, Ready, Fits, Leaves}
use mirb.ByteCode.Branches.{placed-here}
use mirb.Prelude.{ℕ, suc, ◌+◌, ◌≡◌, refl, ap, ◌∙◌, Option, none, some, List, [], ◌∷◌, map, arith}

-- What a block answers or raises; a `break` or `next` for a loop has none to go to.
unfoldable pub outcome : {W : Type 0} → Result W → Option (Answer W)
outcome (value v env w) = some (answers v w)
outcome (returned v w) = some (answers v w)
outcome (raised x w) = some (raises x w)
outcome (broke env w) = none
outcome (continued env w) = none

module _ {W : Type 0} where
  Steps-evaluate :
      (b : Setting W) (code : List Op) (m m1 : Machine W) (j : ℕ) (a : Answer W)
      → Steps b code m m1
      → evaluate b.self b.send j code (step b.self b.send code m1) ≡ some a
      → (k : ℕ) × (evaluate b.self b.send k code (continues m) ≡ some a)
  unfolding evaluate
  Steps-evaluate b code m m1 j a here ends = (suc j, ends)
  Steps-evaluate b code m m1 j a (on {m1 = m2} e more) ends =
      let (k, runs) = Steps-evaluate b code m2 m1 j a more ends in
      (suc k, ap (λ x. evaluate b.self b.send k code x) e ∙ runs)

  module _ (self : ℕ) (send : ℕ → ℕ → List ℕ → W → Answer W) (locals : ℕ) where
    abbrev setting : Setting W
    setting = record {
      self = self;
      send = send;
      locals = locals;
      body = 0;
      epilog = 1;
      return_var = locals;
    }

    abbrev prolog : Generator
    prolog =
        gen_label 0
          (record { opcode = []; labels = λ _. 0; label_count = 2; var_count = locals + 1 })

    abbrev inner : Node → Generator
    inner node = convert 0 1 locals node 0 0 (some locals) prolog

    abbrev final : Node → Generator
    final node = gen (return_op locals) (gen_label 1 (inner node))

    prolog-Ready : Ready setting (some locals) prolog
    unfolding gen_label is_target
    prolog-Ready = record {
      labelled = omega arith;
      own = omega arith;
      room = omega arith;
      target = λ t i. ground arith;
    }

    inner-Fits :
        (node : Node) → Fits setting prolog (inner node) (final node).opcode (final node).labels
    unfolding gen gen_label put
    inner-Fits node = record {
      within = (return_op locals ∷ [], refl);
      placed = λ l i j. ground arith;
    }

    -- The op behind the epilog label.
    return-evaluate :
        (node : Node) (m : Machine W) (v : ℕ) (w : W)
        → m.ip ≡ length (inner node).opcode
        → m.vars locals ≡ v
        → m.world ≡ w
        → evaluate self send 0
            (map (patch (final node).labels) (final node).opcode)
            (step self send (map (patch (final node).labels) (final node).opcode) m)
          ≡ some (answers v w)
    unfolding evaluate patch execute gen gen_label
    return-evaluate node m v w at is_v is_w =
        ap (λ x. evaluate self send 0 (map (patch (final node).labels) (final node).opcode) x)
          (step-gen setting (return_op locals) (gen_label 1 (inner node)) (final node).opcode
            (final node).labels m ([], append-nil (final node).opcode) at)
        ∙ rw (is_v, is_w) refl

    Leaves-evaluate :
        (node : Node) (m : Machine W) (r : Result W) (a : Answer W)
        → Leaves setting
            (map (patch (final node).labels) (final node).opcode)
            0
            0
            (final node).labels
            (inner node)
            (some locals)
            r
            m
        → outcome r ≡ some a
        → evaluate self send 0
            (map (patch (final node).labels) (final node).opcode)
            (step self send (map (patch (final node).labels) (final node).opcode) m)
          ≡ some a
    unfolding Leaves outcome evaluate gen
    Leaves-evaluate node m (value v env w) a (at, held, gives) out =
        return-evaluate node m v w at (gives locals (is_target_self locals)) held.world ∙ out
    Leaves-evaluate node m (returned v w) a (at, is_w, is_v) out =
        return-evaluate node m v w (at ∙ placed-here setting 1 (inner node)) is_v is_w ∙ out
    Leaves-evaluate node m (raised x w) a leaves out =
        ap (λ t. evaluate self send 0 (map (patch (final node).labels) (final node).opcode) t)
          leaves
        ∙ out
    Leaves-evaluate node m (broke env w) a leaves out = ground arith
    Leaves-evaluate node m (continued env w) a leaves out = ground arith

    -- The ops generated for a node, run by `evaluate_block` from the start, answer or raise what
    -- the node means, and leave the world as it does, wherever the meaning ends within some number
    -- of rounds of its loops, and not in a `break` or `next` without a loop. The local variables
    -- of the node are among those that the block has, and a called method may answer or raise
    -- anything.
    pub generate-Evaluates :
        (node : Node) (fuel : ℕ) (w : W) (r : Result W) (a : Answer W)
        → IsScoped locals node
        → mean self send fuel node (λ _. value_nil) w ≡ some r
        → outcome r ≡ some a
        → (k : ℕ) × (evaluate_block self send k (finalize (generate locals node)) w ≡ some a)
    unfolding evaluate_block finalize generate create_label create_var gen_label
    generate-Evaluates node fuel w r a scoped means out =
        let m : Machine W = record { ip = 0; vars = λ _. value_nil; world = w } in
        let implements = convert-Implements setting fuel node scoped in
        let (m1, p, leaves) =
          implements.runs 0 0 (some locals) prolog (final node).opcode (final node).labels
            prolog-Ready (inner-Fits node) m (λ _. value_nil) w refl
            (record { vars = λ i j. refl; world = refl }) r means in
        Steps-evaluate setting (map (patch (final node).labels) (final node).opcode) m m1 0 a
          p.steps (Leaves-evaluate node m1 r a leaves out)
