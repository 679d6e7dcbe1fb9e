-- ===== src/ByteCode/Grows.antt =====
-- Generation only adds: ops at the end, labels and variables above the old counts, and no position
-- of a label in a window changes.
use mirb.Prelude.Maps.{put}
use mirb.Prelude.{
  ℕ, ◌+◌, ◌≤◌, ◌<◌, ◌≡◌, ◌≢◌, refl, ap, ◌∙◌, Option, none, some, List, [], ◌∷◌, ◌++◌, arith,
}
use mirb.ByteCode.{Op, Generator, gen, gen_label, create_label, create_var, reuse}

pub append_assoc : (xs ys zs : List Op) → (xs ++ ys) ++ zs ≡ xs ++ (ys ++ zs)
append_assoc [] ys zs = refl
append_assoc (x ∷ xs) ys zs = ap (λ t. x ∷ t) (append_assoc xs ys zs)

pub append-nil : (xs : List Op) → xs ≡ xs ++ []
append-nil [] = refl
append-nil (x ∷ xs) = ap (λ t. x ∷ t) (append-nil xs)

-- The generator's own label is left out, since loops place it.
module _ (body : ℕ) where
  pub record Grows (low high : ℕ) (g h : Generator) : Type 0 where
    pub added : List Op
    pub opcode : h.opcode ≡ g.opcode ++ added
    pub label_count : g.label_count ≤ h.label_count
    pub var_count : g.var_count ≤ h.var_count
    pub labels : (l : ℕ) → low ≤ l → l < high → l ≢ body → h.labels l ≡ g.labels l

  pub Grows-trans :
      {low high : ℕ} {g h k : Generator}
      → Grows low high g h
      → Grows low high h k
      → Grows low high g k
  Grows-trans {g = g} a b = record {
    added = a.added ++ b.added;
    opcode = b.opcode ∙ ap (λ t. t ++ b.added) a.opcode ∙ append_assoc g.opcode a.added b.added;
    label_count = omega (arith, a.label_count, b.label_count);
    var_count = omega (arith, a.var_count, b.var_count);
    labels = λ l i j n. b.labels l i j n ∙ a.labels l i j n;
  }

  pub Grows-refl : {low high : ℕ} (g : Generator) → Grows low high g g
  Grows-refl g = record {
    added = [];
    opcode = append-nil g.opcode;
    label_count = omega arith;
    var_count = omega arith;
    labels = λ l i j n. refl;
  }

  pub Grows-within :
      {low high low1 high1 : ℕ} {g h : Generator}
      → Grows low high g h
      → low ≤ low1
      → high1 ≤ high
      → Grows low1 high1 g h
  Grows-within a under over = record {
    added = a.added;
    opcode = a.opcode;
    label_count = a.label_count;
    var_count = a.var_count;
    labels = λ l i j n. a.labels l (omega arith) (omega arith) n;
  }

  pub Grows-gen : {low high : ℕ} (op : Op) (g : Generator) → Grows low high g (gen op g)
  unfolding gen
  Grows-gen op g = record {
    added = op ∷ [];
    opcode = refl;
    label_count = omega arith;
    var_count = omega arith;
    labels = λ l i j n. refl;
  }

  -- A label outside of the window, or the generator's own.
  pub Grows-gen_label :
      {low high : ℕ} (label : ℕ) (g : Generator)
      → ((l : ℕ) → low ≤ l → l < high → l ≢ body → l ≢ label)
      → Grows low high g (gen_label label g)
  unfolding gen_label put
  Grows-gen_label label g out = record {
    added = [];
    opcode = append-nil g.opcode;
    label_count = omega arith;
    var_count = omega arith;
    labels = λ l i j n. ground (arith, out l i j n);
  }

  pub Grows-create_label : {low high : ℕ} (g : Generator) → Grows low high g (create_label g).1
  unfolding create_label
  Grows-create_label g = record {
    added = [];
    opcode = append-nil g.opcode;
    label_count = omega arith;
    var_count = omega arith;
    labels = λ l i j n. refl;
  }

  pub Grows-create_var : {low high : ℕ} (g : Generator) → Grows low high g (create_var g).1
  unfolding create_var
  Grows-create_var g = record {
    added = [];
    opcode = append-nil g.opcode;
    label_count = omega arith;
    var_count = omega arith;
    labels = λ l i j n. refl;
  }

  pub Grows-reuse :
      {low high : ℕ} (var : Option ℕ) (g : Generator) → Grows low high g (reuse var g).1
  unfolding reuse
  Grows-reuse none g = Grows-create_var g
  Grows-reuse (some var) g = Grows-refl g

  pub three-Grows :
      {low high : ℕ} (g : Generator)
      → Grows low high g (record g { label_count = g.label_count + 1 + 1 + 1 })
  three-Grows g = record {
    added = [];
    opcode = append-nil g.opcode;
    label_count = omega arith;
    var_count = omega arith;
    labels = λ l i j n. refl;
  }
