-- ===== src/Parser/Climb.antt =====
-- What `parse_precedence_operator` builds: the operands and operators in the order of the input, in
-- a tree that respects the precedences and associates to the left.
use mathlib.Core.List.{append_assoc, append-nil}
use mirb.Lexeme.Kind
use mirb.Prelude.Lists.{length, get_or}
use mirb.Prelude.{
  ℕ, zero, suc, ◌-◌, ◌≤◌, ◌<◌, ◌≡◌, refl, sym, ◌∙◌, ap, Bool, true, false, List, [], ◌∷◌, ◌++◌,
  ◌&&◌, arith, ltb, leb,
}
use mirb.Parser.{
  operator_precedences, is_precedence_operator, precedence_of, Token, lexeme, step, skip_lines,
  Operand, Node, operand, binary_op, single, typecheck,
}

-- The loops go on while the lexeme is an operator of at least this precedence.
abbrev pub goes : ℕ → List Token → Bool
goes min s = is_precedence_operator (lexeme s) && leb min (precedence_of (lexeme s))

goes-le : (m n : ℕ) (s : List Token) → m ≤ n → goes n s ≡ true → goes m s ≡ true
goes-le m n s le g = ground arith

all_lt : ℕ → List ℕ → Bool
all_lt n [] = true
all_lt n (x ∷ xs) = ltb x n && all_lt n xs

get_or-all_lt : (n : ℕ) (xs : List ℕ) (i : ℕ) → 0 < n → all_lt n xs ≡ true → get_or xs i 0 < n
unfolding all_lt get_or
get_or-all_lt n [] i h a = h
get_or-all_lt n (x ∷ xs) zero h a = ground arith
get_or-all_lt n (x ∷ xs) (suc i) h a = get_or-all_lt n xs i h (ground arith)

pub precedence-lt : (op : ℕ) → precedence_of op < 9
unfolding precedence_of all_lt
precedence-lt op = get_or-all_lt 9 operator_precedences (op - Kind.mul) (omega arith) refl

length-skip_lines : (s : List Token) → length (skip_lines s) ≤ length s
unfolding skip_lines
length-skip_lines [] = omega arith
length-skip_lines (t ∷ ts) = ground (arith, length-skip_lines ts)

-- Passing an operator uses up a lexeme.
pub step-lt : (m : ℕ) (s : List Token) → goes m s ≡ true → length (skip_lines (step s)) < length s
unfolding step lexeme is_precedence_operator
step-lt m [] g = ground arith
step-lt m (t ∷ ts) g = omega (arith, length-skip_lines ts)

module _ {A : Type 0} where
  -- The precedence of a tree's root; an operand binds tighter than every operator.
  abbrev pub level : Node A → ℕ
  level (operand a) = 9
  level (binary_op op l r) = precedence_of op

  -- Below an operator of precedence p, the left operand has no operator looser than p at its root,
  -- and the right one only tighter operators.
  abbrev pub IsGrouped : Node A → Type 0
  IsGrouped (operand a) = Unit
  IsGrouped (binary_op op l r) =
      IsGrouped l × IsGrouped r × (precedence_of op ≤ level l) × (precedence_of op < level r)

  -- A tree from left to right: the first operand, and each operator with the operand behind it.
  abbrev pub first : Node A → Node A
  first (operand a) = operand a
  first (binary_op op l r) = first l

  abbrev pub rest : Node A → List (ℕ × Node A)
  rest (operand a) = []
  rest (binary_op op l r) = rest l ++ ((op, first r) ∷ rest r)

module _ {A : Type 0} (parse_unary : List Token → Operand A × List Token) where
  -- Reading on from `s` to `s'` passes these operators, all of at least this precedence, each with
  -- the operand that `parse_unary` reads behind it.
  pub data Chain (min : ℕ) : List Token → List (ℕ × Node A) → List Token → Type 0 where
    stop : {s : List Token} → Chain min s [] s
    link :
        {s s' : List Token} {ps : List (ℕ × Node A)}
        → goes min s ≡ true
        → Chain min (parse_unary (skip_lines (step s))).1 ps s'
        → Chain min s
            ((lexeme s, typecheck (operand (parse_unary (skip_lines (step s))).0)) ∷ ps)
            s'

  pub Chain-append :
      {min min' : ℕ} {s s' s'' : List Token} {ps qs : List (ℕ × Node A)}
      → min ≤ min'
      → Chain min' s ps s'
      → Chain min s' qs s''
      → Chain min s (ps ++ qs) s''
  Chain-append le stop d = d
  Chain-append {min} {min'} le (link {s} g c) d =
      link (goes-le min min' s le g) (Chain-append le c d)

  pub Chain-length :
      (parse_unary-le : (s : List Token) → length (parse_unary s).1 ≤ length s) {min : ℕ}
      {s s' : List Token} {ps : List (ℕ × Node A)}
      → Chain min s ps s'
      → length s' ≤ length s
  Chain-length le stop = omega arith
  Chain-length le (link {s} g c) =
      omega (arith, Chain-length le c, le (skip_lines (step s)), step-lt _ s g)

  -- What a run of the loops from `left` at `s` gives: where it ends, and the tree that it builds.
  pub record Fine (left : Node A) (ps : List (ℕ × Node A)) (min : ℕ) (r : Node A) : Type 0 where
    pub alone : single r ≡ true
    pub grouped : IsGrouped r
    pub tight : min ≤ level r
    pub begins : first r ≡ first left
    pub goes_on : rest r ≡ rest left ++ ps

  pub record Climbed (left : Node A) (min : ℕ) (s : List Token) (r : Node A × List Token)
      : Type 0 where
    pub passed : List (ℕ × Node A)
    pub chain : Chain min s passed r.1
    pub stops : goes min r.1 ≡ false
    pub fine : Fine left passed min r.0

  -- What the loops need of the tree so far.
  pub record Ready (left : Node A) (min : ℕ) (s : List Token) : Type 0 where
    pub alone : single left ≡ true
    pub grouped : IsGrouped left
    pub tight : min ≤ level left
    pub fits : goes min s ≡ true → precedence_of (lexeme s) ≤ level left

  pub Climbed-here :
      (left : Node A) (min : ℕ) (s : List Token)
      → goes min s ≡ false
      → Ready left min s
      → Climbed left min s (left, s)
  Climbed-here left min s e r = record {
    passed = [];
    chain = stop;
    stops = e;
    fine = record {
      alone = r.alone;
      grouped = r.grouped;
      tight = r.tight;
      begins = refl;
      goes_on = sym (append-nil (rest left));
    };
  }

  -- Two runs in a row, the first for operators of at least `q`, the second for those of `min`.
  pub Climbed-trans :
      {left mid : Node A} {min q : ℕ} {s s' : List Token} {r : Node A × List Token}
      → min ≤ q
      → (a : Climbed left q s (mid, s')) → Climbed mid min s' r
      → Climbed left min s r
  Climbed-trans le a b = record {
    passed = a.passed ++ b.passed;
    chain = Chain-append le a.chain b.chain;
    stops = b.stops;
    fine = record {
      alone = b.fine.alone;
      grouped = b.fine.grouped;
      tight = b.fine.tight;
      begins = b.fine.begins ∙ a.fine.begins;
      goes_on =
          b.fine.goes_on
          ∙ ap (λ t. t ++ b.passed) a.fine.goes_on
          ∙ append_assoc _ a.passed b.passed;
    };
  }
