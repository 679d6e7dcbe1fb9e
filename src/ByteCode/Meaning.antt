-- ===== src/ByteCode/Meaning.antt =====
-- What a node means, without ops and variables for parts of it: a state of the local variables and
-- of the world goes through the parts in their order.
use mirb.Prelude.Maps.{put}
use mirb.Prelude.{
  ℕ, zero, suc, Bool, true, false, not, Option, none, some, List, [], ◌∷◌, if◌then◌else◌,
}
use mirb.Value.{value_nil, value_true, value_false, test}
use mirb.Vm.{Answer, answers, raises}
use mirb.ByteCode.{
  Node, Nodes, nil_node, true_node, false_node, self_node, integer, variable, assignment,
  boolean_not, boolean_op, binary_op, if_node, loop_node, group, return_node, break_node, next_node,
  last, entry,
}

-- How a node is left: with its value, by an exception, out of the block with its value, out of the
-- loop around it, or to the next round of that loop.
pub data Result (W : Type 0) : Type 0 where
  value : ℕ → (ℕ → ℕ) → W → Result W
  raised : ℕ → W → Result W
  returned : ℕ → W → Result W
  broke : (ℕ → ℕ) → W → Result W
  continued : (ℕ → ℕ) → W → Result W

-- `none` when a loop has used up its rounds.
abbrev pub Meaning : Type 0 → Type 0
Meaning W = (ℕ → ℕ) → W → Option (Result W)

-- Whether the second part is passed over.
unfoldable pub passes : Bool → ℕ → Bool
passes true v = test v
passes false v = not (test v)

module _ {W : Type 0} where
  unfoldable pub and_then : Option (Result W) → (ℕ → Meaning W) → Option (Result W)
  and_then (some (value v env w)) k = k v env w
  and_then other k = other

  unfoldable pub mean_assignment : ℕ → Meaning W → Meaning W
  mean_assignment loc right env w =
      and_then (right env w) (λ v env1 w1. some (value v (put env1 loc v) w1))

  unfoldable pub mean_not : Meaning W → Meaning W
  mean_not operand env w =
      and_then (operand env w)
        (λ v env1 w1. some (value (if test v then value_false else value_true) env1 w1))

  unfoldable pub mean_boolean_op : Bool → Meaning W → Meaning W → Meaning W
  mean_boolean_op is_or left right env w =
      and_then (left env w)
        (λ v env1 w1. if passes is_or v then some (value v env1 w1) else right env1 w1)

  unfoldable pub answered : (ℕ → ℕ) → Answer W → Result W
  answered env (answers v w) = value v env w
  answered env (raises exception w) = raised exception w

  unfoldable pub mean_binary_op :
      (ℕ → ℕ → List ℕ → W → Answer W) → ℕ → Meaning W → Meaning W → Meaning W
  mean_binary_op send method left right env w = and_then (left env w) (λ a env1 w1.
      and_then (right env1 w1) (λ b env2 w2. some (answered env2 (send a method (b ∷ []) w2))))

  unfoldable pub mean_if : Bool → Meaning W → Meaning W → Meaning W → Meaning W
  mean_if inverted left middle right env w =
      and_then (left env w)
        (λ v env1 w1. if passes inverted v then right env1 w1 else middle env1 w1)

  -- Whether a round ends the loop.
  unfoldable pub after_round : Option (Result W) → Meaning W → Option (Result W)
  after_round (some (value v env w)) again = again env w
  after_round (some (continued env w)) again = again env w
  after_round (some (broke env w)) again = some (value value_nil env w)
  after_round other again = other

  unfoldable pub mean_loop : ℕ → Bool → Meaning W → Meaning W → Meaning W
  mean_loop zero inverted condition body env w = none
  mean_loop (suc fuel) inverted condition body env w = and_then (condition env w) (λ v env1 w1.
      if passes inverted v
      then some (value value_nil env1 w1)
      else after_round (body env1 w1) (mean_loop fuel inverted condition body))

  unfoldable pub mean_return : Meaning W → Meaning W
  mean_return operand env w = and_then (operand env w) (λ v env1 w1. some (returned v w1))

  unfoldable pub mean_break : Meaning W → Meaning W
  mean_break operand env w = and_then (operand env w) (λ v env1 w1. some (broke env1 w1))

  -- In a loop the operand is not evaluated.
  unfoldable pub mean_next : Bool → Meaning W → Meaning W
  mean_next true operand env w = some (continued env w)
  mean_next false operand env w = mean_return operand env w

  unfoldable pub constant : ℕ → Meaning W
  constant v env w = some (value v env w)

  module _ (self : ℕ) (send : ℕ → ℕ → List ℕ → W → Answer W) (fuel : ℕ) where
    unfoldable mutual
      pub mean : Node → Meaning W
      mean nil_node = constant value_nil
      mean true_node = constant value_true
      mean false_node = constant value_false
      mean self_node = constant self
      mean (integer num) = constant num
      mean (variable loc) = λ env w. some (value (env loc) env w)
      mean (assignment loc right) = mean_assignment loc (mean right)
      mean (boolean_not operand) = mean_not (mean operand)
      mean (boolean_op is_or left right) = mean_boolean_op is_or (mean left) (mean right)
      mean (binary_op method left right) = mean_binary_op send method (mean left) (mean right)
      mean (if_node inverted left middle right) =
          mean_if inverted (mean left) (mean middle) (mean right)
      mean (loop_node inverted condition inner) =
          mean_loop fuel inverted (mean condition) (mean inner)
      mean (group statements) = mean_group statements
      mean (return_node operand) = mean_return (mean operand)
      mean (break_node operand) = mean_break (mean operand)
      mean (next_node has_target operand) = mean_next has_target (mean operand)

      pub mean_group : Nodes → Meaning W
      mean_group last = constant value_nil
      mean_group (entry statement rest) = mean_statements rest (mean statement)

      pub mean_statements : Nodes → Meaning W → Meaning W
      mean_statements last first = first
      mean_statements (entry next rest) first =
          λ env w. and_then (first env w) (λ _ env1 w1. mean_statements rest (mean next) env1 w1)
