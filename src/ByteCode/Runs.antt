-- ===== src/ByteCode/Runs.antt =====
-- Runs of the machine through generated ops.
use mirb.Prelude.Lists.{length, length-append}
use mirb.Vm.{Answer, Machine, continues, throws, fetch, execute, execute_fetched, step}
use mirb.ByteCode.{Op, Generator, gen, patch}
use mirb.ByteCode.Grows.{Grows, append_assoc}
use mirb.ByteCode.Meaning.{Result, value, raised, returned, broke, continued}
use mirb.Prelude.{
  ℕ, ◌≤◌, ◌<◌, ◌≡◌, refl, ap, ◌∙◌, Bool, true, false, Option, none, some, List, [], ◌∷◌, ◌++◌, map,
  arith, ◌==◌,
}

unfoldable pub is_target : Option ℕ → ℕ → Bool
is_target none r = false
is_target (some t) r = r == t

-- The ops begin with those of `g`.
abbrev pub Within : Generator → List Op → Type 0
Within g ops = (rest : List Op) × (ops ≡ g.opcode ++ rest)

pub Within-Grows :
    {body low high : ℕ} {g h : Generator} {ops : List Op}
    → Grows body low high g h
    → Within h ops
    → Within g ops
Within-Grows {g = g} a (rest, e) =
    (a.added ++ rest, e ∙ ap (λ t. t ++ rest) a.opcode ∙ append_assoc g.opcode a.added rest)

fetch-append :
    (p : Op → Op) (xs : List Op) (op : Op) (ys : List Op)
    → fetch (map p (xs ++ op ∷ ys)) (length xs) ≡ some (p op)
unfolding fetch
fetch-append p [] op ys = refl
fetch-append p (x ∷ xs) op ys = fetch-append p xs op ys

-- What stays in a run: `self`, the calls, the number of local variables, and the generator's own
-- labels and variable.
pub record Setting (W : Type 0) : Type 0 where
  pub self : ℕ
  pub send : ℕ → ℕ → List ℕ → W → Answer W
  pub locals : ℕ
  pub body : ℕ
  pub epilog : ℕ
  pub return_var : ℕ

module _ {W : Type 0} (b : Setting W) where
  pub data Steps (code : List Op) : Machine W → Machine W → Type 0 where
    here : {m : Machine W} → Steps code m m
    on :
        {m m1 m2 : Machine W}
        → step b.self b.send code m ≡ continues m1
        → Steps code m1 m2
        → Steps code m m2

  pub Steps-trans :
      {code : List Op} {m m1 m2 : Machine W} → Steps code m m1 → Steps code m1 m2 → Steps code m m2
  Steps-trans here c = c
  Steps-trans (on e a) c = on e (Steps-trans a c)

  -- The machine at the end of `g` runs the op that is put there.
  pub step-gen :
      (op : Op) (g : Generator) (ops : List Op) (labels : ℕ → ℕ) (m : Machine W)
      → Within (gen op g) ops
      → m.ip ≡ length g.opcode
      → step b.self b.send (map (patch labels) ops) m
        ≡ execute b.self b.send (patch labels op) (record m { ip = length (gen op g).opcode })
  unfolding step execute_fetched gen
  step-gen op g ops labels m (rest, e) at =
      let found = fetch-append (patch labels) g.opcode op rest in
      let there : fetch (map (patch labels) ops) m.ip ≡ some (patch labels op) =
        ap (λ t. fetch (map (patch labels) t) m.ip) (e ∙ append_assoc g.opcode (op ∷ []) rest)
        ∙ ap (λ i. fetch (map (patch labels) (g.opcode ++ op ∷ rest)) i) at
        ∙ found in
      ap (λ o. execute_fetched b.self b.send o m) there
      ∙ ap (λ i. execute b.self b.send (patch labels op) (record m { ip = i }))
          (omega (arith, length-append g.opcode (op ∷ []), at))

  -- What a node may rely on: a variable that it is given is none of the b.locals'.
  pub record Ready (var : Option ℕ) (g : Generator) : Type 0 where
    pub labelled : b.body < g.label_count
    pub own : b.locals ≤ b.return_var
    pub room : b.return_var < g.var_count
    pub target : (t : ℕ) → is_target var t ≡ true → (b.locals ≤ t) × (t < g.var_count)

  -- The final ops and labels hold what was generated from `g` to `h`.
  pub record Fits (g h : Generator) (ops : List Op) (labels : ℕ → ℕ) : Type 0 where
    pub within : Within h ops
    pub placed : (l : ℕ) → g.label_count ≤ l → l < h.label_count → labels l ≡ h.labels l

  pub Fits-inner :
      {g g1 h1 h : Generator} {ops : List Op} {labels : ℕ → ℕ}
      → Fits g h ops labels
      → b.body < g.label_count
      → g.label_count ≤ g1.label_count
      → Grows b.body g1.label_count h1.label_count h1 h
      → Fits g1 h1 ops labels
  Fits-inner fits own under after = record {
    within = Within-Grows after fits.within;
    placed = λ l i j.
        fits.placed l (omega arith) (omega (arith, after.label_count))
        ∙ after.labels l i j (omega arith);
  }

  pub record Held (env : ℕ → ℕ) (w : W) (m : Machine W) : Type 0 where
    pub vars : (i : ℕ) → i < b.locals → m.vars i ≡ env i
    pub world : m.world ≡ w

  module _ (code : List Op) where
    -- Variables that stood for parts before are left alone.
    pub record Passes (var : Option ℕ) (g : Generator) (m m1 : Machine W) : Type 0 where
      pub steps : Steps code m m1
      pub kept :
          (r : ℕ) → b.locals ≤ r → r < g.var_count → is_target var r ≡ false → m1.vars r ≡ m.vars r

    pub Passes-trans :
        {var : Option ℕ} {g : Generator} {m m1 m2 : Machine W}
        → Passes var g m m1
        → Passes var g m1 m2
        → Passes var g m m2
    Passes-trans a c = record {
      steps = Steps-trans a.steps c.steps;
      kept = λ r i j n. c.kept r i j n ∙ a.kept r i j n;
    }

    pub Passes-inner :
        {var var1 : Option ℕ} {g g1 : Generator} {m m1 : Machine W}
        → Passes var1 g1 m m1
        → g.var_count ≤ g1.var_count
        → ((r : ℕ) → r < g.var_count → is_target var r ≡ false → is_target var1 r ≡ false)
        → Passes var g m m1
    Passes-inner a under apart = record {
      steps = a.steps;
      kept = λ r i j n. a.kept r i (omega arith) (apart r j n);
    }

    -- The machine in the place where a result leaves a node.
    unfoldable pub Leaves :
        (start end : ℕ) (labels : ℕ → ℕ) (h : Generator) (var : Option ℕ)
        → Result W
        → Machine W
        → Type 0
    Leaves start end labels h var (value v env w) m =
        (m.ip ≡ length h.opcode) × Held env w m × ((t : ℕ) → is_target var t ≡ true → m.vars t ≡ v)
    Leaves start end labels h var (raised exception w) m =
        step b.self b.send code m ≡ throws exception w
    Leaves start end labels h var (returned v w) m =
        (m.ip ≡ labels b.epilog) × (m.world ≡ w) × (m.vars b.return_var ≡ v)
    Leaves start end labels h var (broke env w) m = (m.ip ≡ labels end) × Held env w m
    Leaves start end labels h var (continued env w) m = (m.ip ≡ labels start) × Held env w m
