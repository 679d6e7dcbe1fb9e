-- ===== src/ByteCode/Branches.antt =====
-- Jumps, and branches on a variable.
use mirb.Prelude.Maps.{put}
use mirb.Prelude.Lists.{length}
use mirb.Value.{test}
use mirb.Vm.{Machine, continues, execute}
use mirb.ByteCode.{Op, branch_op, Generator, gen, gen_label, patch}
use mirb.ByteCode.Convert.{branch_on}
use mirb.ByteCode.Meaning.{passes}
use mirb.ByteCode.Runs.{Setting, Within, step-gen, Passes}
use mirb.ByteCode.Implements.{one-Passes}
use mirb.Prelude.{
  ℕ, ◌≡◌, refl, ap, ◌∙◌, inl, inr, Bool, true, false, Option, List, map, arith, if◌then◌else◌,
  Bool-cases,
}

module _ {W : Type 0} (b : Setting W) where
  pub jump-Passes :
      (label : ℕ) (var : Option ℕ) (g0 g : Generator) (ops : List Op) (labels : ℕ → ℕ)
      → (m : Machine W) → Within (gen (branch_op label) g) ops
      → m.ip ≡ length g.opcode
      → Passes b (map (patch labels) ops) var g0 m (record m { ip = labels label })
  unfolding patch execute
  jump-Passes label var g0 g ops labels m within at =
      one-Passes b (step-gen b (branch_op label) g ops labels m within at) (λ r i j n. refl)

  branch_on-execute :
      (inverted : Bool) (label temp ip : ℕ) (labels : ℕ → ℕ) (m : Machine W)
      → execute b.self b.send (patch labels (branch_on inverted label temp)) (record m { ip = ip })
        ≡ continues (record m { ip = if passes inverted (m.vars temp) then labels label else ip })
  unfolding patch execute branch_on passes
  branch_on-execute true label temp ip labels m = elim (Bool-cases (test (m.vars temp))) [
    | inl t ↦ rw t refl
    | inr t ↦ rw t refl
  ]
  branch_on-execute false label temp ip labels m = elim (Bool-cases (test (m.vars temp))) [
    | inl t ↦ rw t refl
    | inr t ↦ rw t refl
  ]

  -- Behind a branch on a variable that holds `v`.
  pub branch-Passes :
      (inverted : Bool) (label temp v : ℕ) (var : Option ℕ) (g0 g : Generator) (ops : List Op)
      → (labels : ℕ → ℕ) (m : Machine W) → Within (gen (branch_on inverted label temp) g) ops
      → m.ip ≡ length g.opcode
      → m.vars temp ≡ v
      → Passes b (map (patch labels) ops) var g0 m (record m {
        ip =
            if passes inverted v
            then labels label
            else length (gen (branch_on inverted label temp) g).opcode;
      })
  branch-Passes inverted label temp v var g0 g ops labels m within at is_v =
      one-Passes b
        (step-gen b (branch_on inverted label temp) g ops labels m within at
          ∙ branch_on-execute inverted label temp
              (length (gen (branch_on inverted label temp) g).opcode) labels m
          ∙ ap
              (λ x. continues (record m {
                ip =
                    if passes inverted x
                    then labels label
                    else length (gen (branch_on inverted label temp) g).opcode;
              }))
              is_v)
        (λ r i j n. refl)

  pub placed-here : (label : ℕ) (g : Generator) → (gen_label label g).labels label ≡ length g.opcode
  unfolding gen_label put
  placed-here label g = ground arith
