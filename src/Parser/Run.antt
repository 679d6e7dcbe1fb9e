-- ===== src/Parser/Run.antt =====
-- The two loops of `parse_precedence_operator`, by induction on their fuel.
use mathlib.Core.List.{append_assoc}
use mirb.Parser.Climb.{
  goes, level, IsGrouped, first, rest, step-lt, precedence-lt, Chain, stop, link, Chain-append,
  Chain-length, Climbed, Ready, Climbed-here, Climbed-trans,
}
use mirb.Prelude.Lists.{length}
use mirb.Prelude.{
  ℕ, zero, suc, ◌+◌, ◌*◌, ◌≤◌, ◌<◌, ◌≡◌, refl, ◌∙◌, ap, true, false, List, [], ◌∷◌, ◌++◌, ◌&&◌, inl,
  inr, arith, ltb, Bool-cases,
}
use mirb.Parser.{
  is_precedence_operator, precedence_of, Token, lexeme, step, skip_lines, Operand, node,
  multiple_expressions, null, Node, operand, binary_op, single, typecheck, typecheck_into, enough,
  climb, extend, parse_precedence_operator,
}

test-suc :
    (p : ℕ) (s : List Token)
    → (is_precedence_operator (lexeme s) && ltb p (precedence_of (lexeme s))) ≡ goes (suc p) s
test-suc p s = ground arith

goes-suc : (p : ℕ) (s : List Token) → goes (suc p) s ≡ true → suc p ≤ precedence_of (lexeme s)
goes-suc p s g = ground arith

goes_self :
    (p : ℕ) (s : List Token) → goes (suc p) s ≡ true → goes (precedence_of (lexeme s)) s ≡ true
goes_self p s g = ground arith

-- Where the loop for `q` has stopped, the next operator is looser than `q`.
fits-of :
    (q p : ℕ) (s : List Token) (l : ℕ)
    → goes q s ≡ false
    → q ≤ l
    → goes (suc p) s ≡ true
    → precedence_of (lexeme s) ≤ l
fits-of q p s l stopped le g = ground arith

module _ {A : Type 0} where
  typecheck-single : (n : Node A) → single n ≡ true → typecheck n ≡ n
  unfolding typecheck
  typecheck-single n e = ground (arith, e)

  typecheck_into-single : (n m : Node A) → single n ≡ true → typecheck_into n m ≡ m
  unfolding typecheck_into
  typecheck_into-single n m e = rw e

module _ {A : Type 0} (parse_unary : List Token → Operand A × List Token) where
  typecheck-Ready :
      (o : Operand A) (m : ℕ) (s : List Token)
      → m ≤ 9
      → Ready parse_unary (typecheck (operand o)) m s
  unfolding typecheck
  typecheck-Ready (node a) m s le = record {
    alone = unfold single in refl;
    grouped = tt;
    tight = le;
    fits = λ g. omega (arith, precedence-lt (lexeme s));
  }
  typecheck-Ready (multiple_expressions a) m s le = record {
    alone = unfold single in refl;
    grouped = tt;
    tight = le;
    fits = λ g. omega (arith, precedence-lt (lexeme s));
  }
  typecheck-Ready null m s le = record {
    alone = unfold single in refl;
    grouped = tt;
    tight = le;
    fits = λ g. omega (arith, precedence-lt (lexeme s));
  }

  first-typecheck : (o : Operand A) → first (typecheck (operand o)) ≡ typecheck (operand o)
  unfolding typecheck
  first-typecheck (node a) = refl
  first-typecheck (multiple_expressions a) = refl
  first-typecheck null = refl

  rest-typecheck : (o : Operand A) → rest (typecheck (operand o)) ≡ []
  unfolding typecheck
  rest-typecheck (node a) = refl
  rest-typecheck (multiple_expressions a) = refl
  rest-typecheck null = refl

  -- One operator with its right operand.
  module _ (left : Node A) (min : ℕ) (s : List Token) (g : goes min s ≡ true)
      (r : Ready parse_unary left min s) (body : Node A × List Token)
      (e : Climbed parse_unary
        (typecheck (operand (parse_unary (skip_lines (step s))).0))
        (suc (precedence_of (lexeme s)))
        (parse_unary (skip_lines (step s))).1
        body) where
    abbrev made : Node A
    made = binary_op (lexeme s) left body.0

    min-le : min ≤ precedence_of (lexeme s)
    min-le = ground arith

    made-Ready : Ready parse_unary made min body.1
    made-Ready = record {
      alone = unfold single in refl;
      grouped = (r.grouped, e.fine.grouped, r.fits g, e.fine.tight);
      tight = min-le;
      fits = λ h. ground (arith, e.stops);
    }

    made-Climbed :
        {t : Node A × List Token}
        → Climbed parse_unary made min body.1 t
        → Climbed parse_unary left min s t
    made-Climbed c =
        let o = (parse_unary (skip_lines (step s))).0 in
        let head : first body.0 ≡ typecheck (operand o) = e.fine.begins ∙ first-typecheck o in
        let tail : rest body.0 ≡ e.passed =
          e.fine.goes_on ∙ ap (λ t. t ++ e.passed) (rest-typecheck o) in
        record {
          passed = (lexeme s, _) ∷ (e.passed ++ c.passed);
          chain = link g (Chain-append parse_unary (omega (arith, min-le)) e.chain c.chain);
          stops = c.stops;
          fine = record {
            alone = c.fine.alone;
            grouped = c.fine.grouped;
            tight = c.fine.tight;
            begins = c.fine.begins;
            goes_on =
                c.fine.goes_on
                ∙ rw (head, tail) (append_assoc (rest left) ((lexeme s, _) ∷ e.passed) c.passed);
          };
        }

  module _ (parse_unary-le : (s : List Token) → length (parse_unary s).1 ≤ length s) where
    -- A run that had an operator to pass uses up a lexeme.
    Climbed-lt :
        {left : Node A} {min : ℕ} {s : List Token} {r : Node A × List Token}
        → goes min s ≡ true
        → Climbed parse_unary left min s r
        → length r.1 < length s
    Climbed-lt {min} {s} {r} g c = go c.chain c.stops
      where
        go :
            {ps : List (ℕ × Node A)} {s' : List Token}
            → Chain parse_unary min s ps s'
            → goes min s' ≡ false
            → length s' < length s
        go stop h = cc (g, h)
        go (link g' d) h = omega (
          arith,
          Chain-length parse_unary parse_unary-le d,
          parse_unary-le (skip_lines (step s)),
          step-lt _ s g,
        )

    mutual
      unfolding climb extend

      climb-Climbed :
          (fuel : ℕ) (left : Node A) (min : ℕ) (s : List Token)
          → length s * 2 < fuel
          → Ready parse_unary left min s
          → Climbed parse_unary left min s (climb parse_unary fuel left min s)
      climb-Climbed zero left min s h r = absurd (omega arith)
      climb-Climbed (suc fuel) left min s h r = elim (Bool-cases (goes min s)) [
        | inr e ↦ rw e (Climbed-here parse_unary left min s e r)
        | inl g ↦
            let t = parse_unary (skip_lines (step s)) in
            let p = precedence_of (lexeme s) in
            let lt = step-lt min s g in
            let le = parse_unary-le (skip_lines (step s)) in
            let e =
              extend-Climbed fuel (typecheck (operand t.0)) p t.1 (omega arith)
                (typecheck-Ready t.0 (suc p) t.1 (precedence-lt (lexeme s))) in
            let body = extend parse_unary fuel (typecheck (operand t.0)) p t.1 in
            let c =
              climb-Climbed fuel (made left min s g r body e) min body.1
                (omega (arith, Chain-length parse_unary parse_unary-le e.chain))
                (made-Ready left min s g r body e) in
            rw (g, typecheck_into-single left (made left min s g r body e) r.alone)
              (made-Climbed left min s g r body e c)
      ]

      extend-Climbed :
          (fuel : ℕ) (right : Node A) (p : ℕ) (s : List Token)
          → length s * 2 + 1 < fuel
          → Ready parse_unary right (suc p) s
          → Climbed parse_unary right (suc p) s (extend parse_unary fuel right p s)
      extend-Climbed zero right p s h r = absurd (omega arith)
      extend-Climbed (suc fuel) right p s h r = elim (Bool-cases (goes (suc p) s)) [
        | inr e ↦ rw (test-suc p s ∙ e) (Climbed-here parse_unary right (suc p) s e r)
        | inl g ↦
            let q = precedence_of (lexeme s) in
            let lt = goes-suc p s g in
            let gq = goes_self p s g in
            let inner = climb parse_unary fuel right q s in
            let c = climb-Climbed fuel right q s (omega arith) (record {
              alone = r.alone;
              grouped = r.grouped;
              tight = r.fits g;
              fits = λ _. r.fits g;
            }) in
            let e = extend-Climbed fuel inner.0 p inner.1 (omega (arith, Climbed-lt gq c)) (record {
              alone = c.fine.alone;
              grouped = c.fine.grouped;
              tight = omega (arith, c.fine.tight);
              fits = λ h. fits-of q p inner.1 (level inner.0) c.stops c.fine.tight h;
            }) in
            rw (test-suc p s ∙ g, typecheck-single inner.0 c.fine.alone)
              (Climbed-trans parse_unary lt c e)
      ]

    enough-length : (s : List Token) → length s * 2 < enough s
    enough-length [] = omega arith
    enough-length (t ∷ ts) = omega (arith, enough-length ts)

    -- From an operand that is no list of expressions, the parser reads on over every binary operator
    -- and stops at the first lexeme that is none. The tree holds the operands and operators in the
    -- order of the input, and below an operator stand no looser ones and, on its right, only tighter
    -- ones. `parse_unary` may read anything, as long as it does not lengthen the input.
    pub parse_precedence_operator-IsGrouped :
        (s : List Token)
        → single (operand (parse_unary s).0) ≡ true
        → (ps : List (ℕ × Node A)) × Chain parse_unary 0
            (parse_unary s).1
            ps
            (parse_precedence_operator parse_unary s).1
          × (is_precedence_operator (lexeme (parse_precedence_operator parse_unary s).1) ≡ false)
          × IsGrouped (parse_precedence_operator parse_unary s).0
          × (first (parse_precedence_operator parse_unary s).0 ≡ operand (parse_unary s).0)
          × (rest (parse_precedence_operator parse_unary s).0 ≡ ps)
    unfolding parse_precedence_operator
    parse_precedence_operator-IsGrouped s alone =
        let t = parse_unary s in
        let c = climb-Climbed (enough t.1) (operand t.0) 0 t.1 (enough-length t.1) (record {
          alone = alone;
          grouped = tt;
          tight = omega arith;
          fits = λ g. omega (arith, precedence-lt (lexeme t.1));
        }) in
        (c.passed, c.chain, ground (arith, c.stops), c.fine.grouped, c.fine.begins, c.fine.goes_on)
