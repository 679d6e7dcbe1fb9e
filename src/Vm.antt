-- ===== src/Vm.antt =====
-- `evaluate_block` (src/vm.cpp) on the ops of ByteCode, in a frame without exception blocks. What a
-- called method does is a parameter: it answers or raises, and leaves a new state of the world. Of
-- what it raises `handle_exception` would take `NextException` and `RedoException`, and a
-- `ReturnException` that aims at this very block: the first two end in the frame that raises them,
-- and the last comes from a block inside this one, of which there are none, so neither is among the
-- exceptions that the parameter raises.
use mirb.Prelude.Maps.{put}
use mirb.Prelude.{ℕ, zero, suc, ◌+◌, Option, none, some, List, [], ◌∷◌, if◌then◌else◌}
use mirb.Value.{value_nil, value_true, value_false, test}
use mirb.ByteCode.{
  Op, move, load_nil, load_true, load_false, load_fixnum, self_op, call, branch_if, branch_unless,
  branch_op, return_op,
}

pub data Answer (W : Type 0) : Type 0 where
  answers : ℕ → W → Answer W
  raises : ℕ → W → Answer W

pub record Machine (W : Type 0) : Type 0 where
  pub ip : ℕ
  pub vars : ℕ → ℕ
  pub world : W

-- One instruction goes on, leaves the block with a value, throws, or there is none.
pub data Next (W : Type 0) : Type 0 where
  continues : Machine W → Next W
  returns : ℕ → W → Next W
  throws : ℕ → W → Next W
  stuck : Next W

unfoldable pub fetch : List Op → ℕ → Option Op
fetch [] i = none
fetch (op ∷ ops) zero = some op
fetch (op ∷ ops) (suc i) = fetch ops i

unfoldable pub arguments : (ℕ → ℕ) → ℕ → ℕ → List ℕ
arguments vars argv zero = []
arguments vars argv (suc argc) = vars argv ∷ arguments vars (argv + 1) argc

module _ {W : Type 0} where
  unfoldable pub set_var : ℕ → ℕ → Machine W → Next W
  set_var var value m = continues (record m { vars = put m.vars var value })

  unfoldable pub take_answer : Option ℕ → Answer W → Machine W → Next W
  take_answer none (answers result w) m = continues (record m { world = w })
  take_answer (some var) (answers result w) m = set_var var result (record m { world = w })
  take_answer var (raises exception w) m = throws exception w

  -- `send obj method arguments` is `lookup` and `call_code`.
  module _ (self : ℕ) (send : ℕ → ℕ → List ℕ → W → Answer W) where
    -- An op, with `ip` behind it.
    unfoldable pub execute : Op → Machine W → Next W
    execute (move dst src) m = set_var dst (m.vars src) m
    execute (load_nil var) m = set_var var value_nil m
    execute (load_true var) m = set_var var value_true m
    execute (load_false var) m = set_var var value_false m
    execute (load_fixnum var num) m = set_var var num m
    execute (self_op var) m = set_var var self m
    execute (call var obj method argc argv) m =
        take_answer var (send (m.vars obj) method (arguments m.vars argv argc) m.world) m
    execute (branch_if pos var) m =
        continues (if test (m.vars var) then record m { ip = pos } else m)
    execute (branch_unless pos var) m =
        continues (if test (m.vars var) then m else record m { ip = pos })
    execute (branch_op pos) m = continues (record m { ip = pos })
    execute (return_op var) m = returns (m.vars var) m.world

    unfoldable pub execute_fetched : Option Op → Machine W → Next W
    execute_fetched none m = stuck
    execute_fetched (some op) m = execute op (record m { ip = m.ip + 1 })

    unfoldable pub step : List Op → Machine W → Next W
    step code m = execute_fetched (fetch code m.ip) m

    -- `none` when the instructions are used up, or there is none where `ip` stands.
    unfoldable pub evaluate : ℕ → List Op → Next W → Option (Answer W)
    evaluate fuel code (returns value w) = some (answers value w)
    evaluate fuel code (throws exception w) = some (raises exception w)
    evaluate fuel code stuck = none
    evaluate zero code (continues m) = none
    evaluate (suc fuel) code (continues m) = evaluate fuel code (step code m)

    -- All variables start as nil.
    unfoldable pub evaluate_block : ℕ → List Op → W → Option (Answer W)
    evaluate_block fuel code w =
        evaluate fuel code (continues (record { ip = 0; vars = λ _. value_nil; world = w }))
