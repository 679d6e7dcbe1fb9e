-- ===== src/ByteCode/Correct.antt =====
-- The generator implements the meaning of every node.
use mirb.Value.{value_nil, value_true, value_false}
use mirb.Vm.{set_var, execute}
use mirb.ByteCode.{
  load_nil, load_true, load_false, load_fixnum, self_op, move, Node, Nodes, nil_node, true_node,
  false_node, self_node, integer, variable, assignment, boolean_not, boolean_op, binary_op, if_node,
  loop_node, group, return_node, break_node, next_node, last, entry, patch,
}
use mirb.ByteCode.Convert.{Code, convert_variable, convert, convert_group, convert_statements}
use mirb.ByteCode.Grows.{Grows-refl, Grows-trans, Grows-within}
use mirb.ByteCode.Meaning.{Meaning, and_then, mean, mean_group, mean_statements, constant}
use mirb.ByteCode.Loads.{load-Implements, assignment-Implements}
use mirb.ByteCode.Nots.{not-Implements}
use mirb.ByteCode.BooleanOps.{boolean_op-Implements}
use mirb.ByteCode.Calls.{binary_op-Implements}
use mirb.ByteCode.Ifs.{if-Implements}
use mirb.ByteCode.Loops.{loop-Implements}
use mirb.ByteCode.Exits.{return-Implements, break-Implements, next-Implements}
use mirb.ByteCode.Reuse.{Ready-Grows}
use mirb.ByteCode.Runs.{Setting, is_target, Ready, Fits-inner}
use mirb.ByteCode.Implements.{inner-Ends, Implements, and_then-Ends}
use mirb.Prelude.{ℕ, ◌<◌, refl, ap, none, arith}

-- The local variables of a node are among the first `n`.
unfoldable mutual
  pub IsScoped : ℕ → Node → Type 0
  IsScoped n (variable loc) = loc < n
  IsScoped n (assignment loc right) = (loc < n) × IsScoped n right
  IsScoped n (boolean_not operand) = IsScoped n operand
  IsScoped n (boolean_op is_or left right) = IsScoped n left × IsScoped n right
  IsScoped n (binary_op method left right) = IsScoped n left × IsScoped n right
  IsScoped n (if_node inverted left middle right) =
      IsScoped n left × IsScoped n middle × IsScoped n right
  IsScoped n (loop_node inverted condition inner) = IsScoped n condition × IsScoped n inner
  IsScoped n (group statements) = AreScoped n statements
  IsScoped n (return_node operand) = IsScoped n operand
  IsScoped n (break_node operand) = IsScoped n operand
  IsScoped n (next_node has_target operand) = IsScoped n operand
  IsScoped n nil_node = Unit
  IsScoped n true_node = Unit
  IsScoped n false_node = Unit
  IsScoped n self_node = Unit
  IsScoped n (integer num) = Unit

  pub AreScoped : ℕ → Nodes → Type 0
  AreScoped n last = Unit
  AreScoped n (entry statement rest) = IsScoped n statement × AreScoped n rest

module _ {W : Type 0} (b : Setting W) where
  -- A statement whose value is dropped, and the rest.
  sequence-Implements :
      (f rest : ℕ → ℕ → Code) (first others : Meaning W)
      → Implements b f first
      → Implements b rest others
      → Implements b
          (λ s e var g. rest s e var (f s e none g))
          (λ env w. and_then (first env w) (λ _ env1 w1. others env1 w1))
  unfolding is_target
  sequence-Implements f rest first others hf hr = record {
    grows = λ s e var g.
        let grown = hf.grows s e none g in
        Grows-trans b.body grown
          (Grows-within b.body (hr.grows s e var (f s e none g)) (omega arith) grown.label_count);
    runs = λ s e var g ops labels ready fits m env w at held r run.
        let g1 = f s e none g in
        let grown = hf.grows s e none g in
        let after = hr.grows s e var g1 in
        let ready1 : Ready b none g = record {
          labelled = ready.labelled;
          own = ready.own;
          room = ready.room;
          target = λ t i. ground arith;
        } in
        and_then-Ends b ops labels s e g (rest s e var g1) g g1 var none (omega arith)
          (λ t i n. refl) (first env w) _ m r
          (λ r1 e1.
            hf.runs s e none g ops labels ready1
              (Fits-inner b fits ready.labelled (omega arith)
                (Grows-within b.body after (omega arith) (omega arith)))
              m env w at held r1 e1)
          (λ v env1 w1 m1 at1 held1 gives p run1.
            inner-Ends b ops labels s e g g1 (rest s e var g1) var m1 r grown.var_count (
              hr.runs s e var g1 ops labels (Ready-Grows b ready grown)
                (Fits-inner b fits ready.labelled grown.label_count
                  (Grows-refl b.body (rest s e var g1)))
                m1 env1 w1 at1 held1 r run1))
          run;
  }

  module _ (fuel : ℕ) where
    abbrev code : Node → ℕ → ℕ → Code
    code = convert b.body b.epilog b.return_var

    abbrev meaning : Node → Meaning W
    meaning = mean b.self b.send fuel

    mutual
      unfolding convert convert_group convert_statements mean mean_group mean_statements constant
          patch execute convert_variable IsScoped AreScoped

      pub convert-Implements :
          (node : Node) → IsScoped b.locals node → Implements b (code node) (meaning node)
      convert-Implements nil_node i =
          load-Implements b (λ v. load_nil v) (λ _. value_nil) (λ t ip labels m env w h. refl)
      convert-Implements true_node i =
          load-Implements b (λ v. load_true v) (λ _. value_true) (λ t ip labels m env w h. refl)
      convert-Implements false_node i =
          load-Implements b (λ v. load_false v) (λ _. value_false) (λ t ip labels m env w h. refl)
      convert-Implements self_node i =
          load-Implements b (λ v. self_op v) (λ _. b.self) (λ t ip labels m env w h. refl)
      convert-Implements (integer num) i =
          load-Implements b (λ v. load_fixnum v num) (λ _. num) (λ t ip labels m env w h. refl)
      convert-Implements (variable loc) i =
          load-Implements b (λ v. move v loc) (λ env. env loc)
            (λ t ip labels m env w h. ap (λ x. set_var t x (record m { ip = ip })) (h.vars loc i))
      convert-Implements (assignment loc right) i =
          assignment-Implements b loc (code right) (meaning right) i.0
            (convert-Implements right i.1)
      convert-Implements (boolean_not operand) i =
          not-Implements b (code operand) (meaning operand) (convert-Implements operand i)
      convert-Implements (boolean_op is_or left right) i =
          boolean_op-Implements b is_or (code right) (convert-Implements right i.1) (code left)
            (meaning left) (convert-Implements left i.0)
      convert-Implements (binary_op method left right) i =
          binary_op-Implements b method (code right) (meaning right) (convert-Implements right i.1)
            (code left) (meaning left) (convert-Implements left i.0)
      convert-Implements (if_node inverted left middle right) i =
          if-Implements b inverted (code middle) (code right) (convert-Implements middle i.1)
            (convert-Implements right i.2) (code left) (meaning left) (convert-Implements left i.0)
      convert-Implements (loop_node inverted condition inner) i =
          loop-Implements b inverted (code condition) (code inner)
            (convert-Implements condition i.0) (convert-Implements inner i.1) fuel
      convert-Implements (group statements) i = convert_group-Implements statements i
      convert-Implements (return_node operand) i =
          return-Implements b (code operand) (meaning operand) (convert-Implements operand i)
      convert-Implements (break_node operand) i =
          break-Implements b (code operand) (meaning operand) (convert-Implements operand i)
      convert-Implements (next_node has_target operand) i =
          next-Implements b has_target (code operand) (meaning operand)
            (convert-Implements operand i)

      convert_group-Implements :
          (statements : Nodes)
          → AreScoped b.locals statements
          → Implements b
              (convert_group b.body b.epilog b.return_var statements)
              (mean_group b.self b.send fuel statements)
      convert_group-Implements last i =
          load-Implements b (λ v. load_nil v) (λ _. value_nil) (λ t ip labels m env w h. refl)
      convert_group-Implements (entry statement rest) i =
          convert_statements-Implements rest i.1 (code statement) (meaning statement)
            (convert-Implements statement i.0)

      convert_statements-Implements :
          (rest : Nodes)
          → AreScoped b.locals rest
          → (f : ℕ → ℕ → Code) (first : Meaning W) → Implements b f first
          → Implements b
              (λ s e. convert_statements b.body b.epilog b.return_var rest (f s e) s e)
              (mean_statements b.self b.send fuel rest first)
      convert_statements-Implements last i f first h = h
      convert_statements-Implements (entry next rest) i f first h =
          sequence-Implements f
            (λ s e. convert_statements b.body b.epilog b.return_var rest (code next s e) s e) first
            (mean_statements b.self b.send fuel rest (meaning next)) h
            (convert_statements-Implements rest i.1 (code next) (meaning next)
              (convert-Implements next i.0))
