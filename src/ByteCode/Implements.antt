-- ===== src/ByteCode/Implements.antt =====
-- When a generator implements a meaning, and the lemmas on single ops and on parts in their order.
use mathlib.Core.Option.{some-injective}
use mathlib.Core.Path.{subst}
use mirb.Prelude.Maps.{put}
use mirb.Prelude.Lists.{length}
use mirb.Vm.{Machine, continues, set_var, execute, step}
use mirb.ByteCode.{Op, Generator, gen, patch}
use mirb.ByteCode.Convert.{Code}
use mirb.ByteCode.Grows.{Grows}
use mirb.ByteCode.Meaning.{Result, value, raised, returned, broke, continued, Meaning, and_then}
use mirb.ByteCode.Runs.{
  Setting, is_target, Within, here, on, step-gen, Ready, Fits, Held, Passes, Passes-trans,
  Passes-inner, Leaves,
}
use mirb.Prelude.{
  ℕ, ◌≤◌, ◌<◌, ◌≡◌, ◌≢◌, refl, ◌∙◌, true, false, Option, none, some, List, map, arith,
}

-- Behind a return no variable matters but the one for the result.
unfoldable pub window : {W : Type 0} → Result W → Generator → Generator
window (returned v w) g = record g { var_count = 0 }
window r g = g

module _ {W : Type 0} (b : Setting W) where
  -- The run of a node ends in the place for the result.
  abbrev pub Ends :
      (ops : List Op) (labels : ℕ → ℕ) (start end : ℕ) (g h : Generator) (var : Option ℕ)
      → Machine W
      → Result W
      → Type 0
  Ends ops labels start end g h var m r =
      (m1 : Machine W) × Passes b (map (patch labels) ops) var (window r g) m m1
      × Leaves b (map (patch labels) ops) start end labels h var r m1

  pub record Implements (f : ℕ → ℕ → Code) (meaning : Meaning W) : Type 0 where
    pub grows :
        (start end : ℕ) (var : Option ℕ) (g : Generator)
        → Grows b.body 0 g.label_count g (f start end var g)
    pub runs :
        (start end : ℕ) (var : Option ℕ) (g : Generator) (ops : List Op) (labels : ℕ → ℕ)
        → Ready b var g
        → Fits b g (f start end var g) ops labels
        → (m : Machine W) (env : ℕ → ℕ) (w : W) → m.ip ≡ length g.opcode
        → Held b env w m
        → (r : Result W) → meaning env w ≡ some r
        → Ends ops labels start end g (f start end var g) var m r

  pub one-Passes :
      {code : List Op} {var : Option ℕ} {g : Generator} {m m1 : Machine W}
      → step b.self b.send code m ≡ continues m1
      → ((r : ℕ) → b.locals ≤ r → r < g.var_count → is_target var r ≡ false → m1.vars r ≡ m.vars r)
      → Passes b code var g m m1
  one-Passes e kept = record { steps = on e here; kept = kept }

  -- The op at the end of `g` writes a variable that is free for it.
  pub write-Passes :
      {var : Option ℕ} {g0 : Generator} (op : Op) (t v : ℕ) (g : Generator) (ops : List Op)
      → (labels : ℕ → ℕ) (m : Machine W) → Within (gen op g) ops
      → m.ip ≡ length g.opcode
      → execute b.self b.send (patch labels op) (record m { ip = length (gen op g).opcode })
        ≡ set_var t v (record m { ip = length (gen op g).opcode })
      → ((r : ℕ) → b.locals ≤ r → r < g0.var_count → is_target var r ≡ false → r ≢ t)
      → Passes b
          (map (patch labels) ops)
          var
          g0
          m
          (record { ip = length (gen op g).opcode; vars = put m.vars t v; world = m.world })
  unfolding set_var put
  write-Passes op t v g ops labels m within at runs apart =
      one-Passes (step-gen b op g ops labels m within at ∙ runs)
        (λ r i j n. ground (arith, apart r i j n))

  pub Held-write :
      {env : ℕ → ℕ} {w : W} {m : Machine W} (ip t v : ℕ)
      → Held b env w m
      → b.locals ≤ t
      → Held b env w (record { ip = ip; vars = put m.vars t v; world = m.world })
  unfolding put
  Held-write ip t v h above = record { vars = λ i j. ground (arith, h.vars i j); world = h.world }

  pub here-Passes :
      {code : List Op} {var : Option ℕ} {g : Generator} (m : Machine W) → Passes b code var g m m
  here-Passes m = record { steps = here; kept = λ r i j n. refl }

  window-inner :
      {code : List Op} {var var1 : Option ℕ} (g g1 : Generator) {m m1 : Machine W} (r : Result W)
      → g.var_count ≤ g1.var_count
      → ((t : ℕ) → t < g.var_count → is_target var t ≡ false → is_target var1 t ≡ false)
      → Passes b code var1 (window r g1) m m1
      → Passes b code var (window r g) m m1
  unfolding window
  window-inner g g1 (value v env w) under apart p = Passes-inner b _ p under apart
  window-inner g g1 (raised x w) under apart p = Passes-inner b _ p under apart
  window-inner g g1 (returned v w) under apart p =
      Passes-inner b _ p (omega arith) (λ t i n. absurd (omega arith))
  window-inner g g1 (broke env w) under apart p = Passes-inner b _ p under apart
  window-inner g g1 (continued env w) under apart p = Passes-inner b _ p under apart

  Passes-window :
      {code : List Op} {var : Option ℕ} {g : Generator} {m m1 : Machine W} (r : Result W)
      → Passes b code var g m m1
      → Passes b code var (window r g) m m1
  unfolding window
  Passes-window (value v env w) p = p
  Passes-window (raised x w) p = p
  Passes-window (returned v w) p = Passes-inner b _ p (omega arith) (λ t i n. n)
  Passes-window (broke env w) p = p
  Passes-window (continued env w) p = p

  pub after-Ends :
      (ops : List Op) (labels : ℕ → ℕ) (start end : ℕ) (g h : Generator) (var : Option ℕ)
      → (r : Result W) {m m1 : Machine W} → Passes b (map (patch labels) ops) var g m m1
      → Ends ops labels start end g h var m1 r
      → Ends ops labels start end g h var m r
  after-Ends ops labels start end g h var r p (m2, q, leaves) =
      (m2, Passes-trans b _ (Passes-window r p) q, leaves)

  pub inner-Ends :
      (ops : List Op) (labels : ℕ → ℕ) (start end : ℕ) (g g1 h : Generator) (var : Option ℕ)
      → (m : Machine W) (r : Result W) → g.var_count ≤ g1.var_count
      → Ends ops labels start end g1 h var m r
      → Ends ops labels start end g h var m r
  inner-Ends ops labels start end g g1 h var m r under (m1, p, leaves) =
      (m1, window-inner g g1 r under (λ t i n. n) p, leaves)

  module _ (ops : List Op) (labels : ℕ → ℕ) (start end : ℕ) (g h g1 h1 : Generator)
      (var var1 : Option ℕ) (room : g.var_count ≤ g1.var_count)
      (apart : (t : ℕ) → t < g.var_count → is_target var t ≡ false → is_target var1 t ≡ false) where
    -- A part that is left otherwise than with a value leaves the whole.
    unfoldable IsExit : Result W → Type 0
    IsExit (value v env w) = ⊥
    IsExit r = Unit

    part-Ends :
        (m : Machine W) (r : Result W)
        → IsExit r
        → Ends ops labels start end g1 h1 var1 m r
        → Ends ops labels start end g h var m r
    unfolding Leaves IsExit
    part-Ends m (value v env w) exit e = absurd exit
    part-Ends m (raised x w) exit (m1, p, leaves) =
        (m1, window-inner g g1 (raised x w) room apart p, leaves)
    part-Ends m (returned v w) exit (m1, p, leaves) =
        (m1, window-inner g g1 (returned v w) room apart p, leaves)
    part-Ends m (broke env w) exit (m1, p, leaves) =
        (m1, window-inner g g1 (broke env w) room apart p, leaves)
    part-Ends m (continued env w) exit (m1, p, leaves) =
        (m1, window-inner g g1 (continued env w) room apart p, leaves)

    pub and_then-Ends :
        (o : Option (Result W)) (k : ℕ → Meaning W) (m : Machine W) (r : Result W)
        → ((r1 : Result W) → o ≡ some r1 → Ends ops labels start end g1 h1 var1 m r1)
        → ((v : ℕ) (env : ℕ → ℕ) (w : W) (m1 : Machine W)
            → m1.ip ≡ length h1.opcode
            → Held b env w m1
            → ((t : ℕ) → is_target var1 t ≡ true → m1.vars t ≡ v)
            → Passes b (map (patch labels) ops) var1 g1 m m1
            → k v env w ≡ some r
            → Ends ops labels start end g h var m1 r)
        → and_then o k ≡ some r
        → Ends ops labels start end g h var m r
    unfolding and_then Leaves IsExit window
    and_then-Ends none k m r first later run = ground arith
    and_then-Ends (some (value v env w)) k m r first later run =
        let (m1, p, (at, held, gives)) = first (value v env w) refl in
        after-Ends ops labels start end g h var r (Passes-inner b _ p room apart)
          (later v env w m1 at held gives p run)
    and_then-Ends (some (raised x w)) k m r first later run =
        subst (λ u. Ends ops labels start end g h var m u) (some-injective _ _ run)
          (part-Ends m (raised x w) tt (first (raised x w) refl))
    and_then-Ends (some (returned v w)) k m r first later run =
        subst (λ u. Ends ops labels start end g h var m u) (some-injective _ _ run)
          (part-Ends m (returned v w) tt (first (returned v w) refl))
    and_then-Ends (some (broke env w)) k m r first later run =
        subst (λ u. Ends ops labels start end g h var m u) (some-injective _ _ run)
          (part-Ends m (broke env w) tt (first (broke env w) refl))
    and_then-Ends (some (continued env w)) k m r first later run =
        subst (λ u. Ends ops labels start end g h var m u) (some-injective _ _ run)
          (part-Ends m (continued env w) tt (first (continued env w) refl))

    -- A part that ends with a jump to the end of the whole gives the value of the whole.
    pub jump-Ends :
        (m : Machine W) (r : Result W)
        → ((t : ℕ) → is_target var t ≡ true → is_target var1 t ≡ true)
        → ((m1 : Machine W)
            → m1.ip ≡ length h1.opcode
            → step b.self b.send (map (patch labels) ops) m1
              ≡ continues (record m1 { ip = length h.opcode }))
        → Ends ops labels start end g1 h1 var1 m r
        → Ends ops labels start end g h var m r
    unfolding Leaves IsExit window
    jump-Ends m (value v env w) own jump (m1, p, (at, held, gives)) = (
      record m1 { ip = length h.opcode },
      Passes-trans b _ (Passes-inner b _ p room apart) (one-Passes (jump m1 at) (λ r i j n. refl)),
      (refl, record { vars = held.vars; world = held.world }, λ t i. gives t (own t i)),
    )
    jump-Ends m (raised x w) own jump e = part-Ends m (raised x w) tt e
    jump-Ends m (returned v w) own jump e = part-Ends m (returned v w) tt e
    jump-Ends m (broke env w) own jump e = part-Ends m (broke env w) tt e
    jump-Ends m (continued env w) own jump e = part-Ends m (continued env w) tt e
