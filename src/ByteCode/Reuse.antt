-- ===== src/ByteCode/Reuse.antt =====
-- The variable for a part of a node: the node's own, or a new one.
use mirb.ByteCode.{Generator, create_var, reuse}
use mirb.ByteCode.Grows.{Grows}
use mirb.ByteCode.Runs.{Setting, is_target, Ready}
use mirb.Prelude.{ℕ, ◌≤◌, ◌<◌, ◌≡◌, refl, true, false, Option, none, some, arith}

pub is_target_self : (t : ℕ) → is_target (some t) t ≡ true
unfolding is_target
is_target_self t = ground arith

module _ {W : Type 0} (b : Setting W) where
  pub reuse-counts :
      (var : Option ℕ) (g : Generator)
      → ((reuse var g).1.label_count ≡ g.label_count)
        × ((reuse var g).1.opcode ≡ g.opcode)
        × (g.var_count ≤ (reuse var g).1.var_count)
  unfolding reuse create_var
  reuse-counts none g = (refl, refl, omega arith)
  reuse-counts (some t) g = (refl, refl, omega arith)

  pub reuse-apart :
      (var : Option ℕ) (g : Generator) (t : ℕ)
      → t < g.var_count
      → is_target var t ≡ false
      → is_target (some (reuse var g).0) t ≡ false
  unfolding reuse create_var is_target
  reuse-apart none g t i n = ground arith
  reuse-apart (some s) g t i n = n

  -- What is in the new variable is what the node's own has to get.
  pub reuse-own :
      (var : Option ℕ) (g : Generator) (t : ℕ)
      → is_target var t ≡ true
      → is_target (some (reuse var g).0) t ≡ true
  unfolding reuse is_target
  reuse-own none g t i = ground arith
  reuse-own (some s) g t i = i

  pub Ready-above :
      {var : Option ℕ} {g : Generator}
      → Ready b var g
      → (t : ℕ) → is_target var t ≡ true
      → b.locals ≤ t
  Ready-above ready t i = (ready.target t i).0

  pub reuse-Ready :
      (var : Option ℕ) (g : Generator)
      → Ready b var g
      → Ready b (some (reuse var g).0) (reuse var g).1
  unfolding reuse create_var is_target
  reuse-Ready none g ready = record {
    labelled = ready.labelled;
    own = ready.own;
    room = omega (arith, ready.room);
    target = λ t i. ground (arith, ready.own, ready.room);
  }
  reuse-Ready (some s) g ready = ready

  pub Ready-Grows :
      {low high : ℕ} {var : Option ℕ} {g h : Generator}
      → Ready b var g
      → Grows b.body low high g h
      → Ready b var h
  Ready-Grows ready grows = record {
    labelled = omega (arith, ready.labelled, grows.label_count);
    own = ready.own;
    room = omega (arith, ready.room, grows.var_count);
    target = λ t i. ((ready.target t i).0, omega (arith, (ready.target t i).1, grows.var_count));
  }
