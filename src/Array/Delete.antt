-- ===== src/Array/Delete.antt =====
-- `Array::delete_if` of classes/array.hpp, which walks from the back. `remove` is that of the
-- vector, which a library gives; the test is one that leaves the array alone.
use mathlib.Core.List.{append_assoc, append-nil}
use mirb.Prelude.Lists.{length, get_or}
use mirb.Prelude.{
  ℕ, zero, suc, ◌≡◌, refl, sym, ap, ◌∙◌, inl, inr, Bool, true, false, ◌||◌, List, [], ◌∷◌, ◌++◌,
  if◌then◌else◌, arith, Bool-cases,
}

unfoldable pub delete_loop : (ℕ → Bool) → (List ℕ → ℕ → List ℕ) → ℕ → List ℕ → Bool → Bool × List ℕ
delete_loop func remove zero v changed = (changed, v)
delete_loop func remove (suc i) v changed =
    let test = func (get_or v i 0) in
    delete_loop func remove i (if test then remove v i else v) (if test then true else changed)

unfoldable pub delete_if : (ℕ → Bool) → (List ℕ → ℕ → List ℕ) → List ℕ → Bool × List ℕ
delete_if func remove v = delete_loop func remove (length v) v false

-- What should be left, and whether anything goes.
unfoldable pub rejected : (ℕ → Bool) → List ℕ → List ℕ
rejected func [] = []
rejected func (x ∷ xs) = let rest = rejected func xs in if func x then rest else x ∷ rest

unfoldable pub some_hit : (ℕ → Bool) → List ℕ → Bool
some_hit func [] = false
some_hit func (x ∷ xs) = func x || some_hit func xs

-- `remove` takes one element out and keeps the order of the others.
abbrev pub Removes : (List ℕ → ℕ → List ℕ) → Type 0
Removes remove = (xs ys : List ℕ) (x : ℕ) → remove (xs ++ x ∷ ys) (length xs) ≡ xs ++ ys

abbrev answer : Bool → List ℕ → Bool × List ℕ
answer b v = (b, v)

answer_ap : {a b : Bool} {v w : List ℕ} → a ≡ b → v ≡ w → answer a v ≡ answer b w
answer_ap e f = λ i. answer (e i) (f i)

-- A list that is not empty has a last element.
last_of :
    (i : ℕ) (xs : List ℕ)
    → length xs ≡ suc i
    → (zs : List ℕ) × (x : ℕ) × (xs ≡ zs ++ x ∷ []) × (length zs ≡ i)
last_of i [] h = absurd (omega arith)
last_of zero (x ∷ []) h = ([], x, refl, refl)
last_of zero (x ∷ y ∷ ys) h = absurd (omega arith)
last_of (suc i) (x ∷ xs) h =
    let (zs, y, e, n) = last_of i xs (omega arith) in
    (x ∷ zs, y, ap (λ m. x ∷ m) e, omega (arith, n))

module _ (func : ℕ → Bool) where
  rejected-append :
      (xs : List ℕ) (x : ℕ)
      → rejected func (xs ++ x ∷ []) ≡ rejected func xs ++ (if func x then [] else x ∷ [])
  unfolding rejected
  rejected-append [] x = refl
  rejected-append (y ∷ ys) x = elim (Bool-cases (func y)) [
    | inl t ↦ rw t (rejected-append ys x)
    | inr t ↦ rw t (ap (λ m. y ∷ m) (rejected-append ys x))
  ]

  some_hit-append :
      (xs : List ℕ) (x : ℕ) → some_hit func (xs ++ x ∷ []) ≡ some_hit func xs || func x
  unfolding some_hit
  some_hit-append [] x = ground arith
  some_hit-append (y ∷ ys) x = ground (arith, some_hit-append ys x)

  module _ (remove : List ℕ → ℕ → List ℕ) (removes : Removes remove) where
    get_or-middle : (zs : List ℕ) (x : ℕ) (ys : List ℕ) → get_or (zs ++ x ∷ ys) (length zs) 0 ≡ x
    unfolding get_or
    get_or-middle [] x ys = refl
    get_or-middle (z ∷ zs) x ys = get_or-middle zs x ys

    -- What the loop makes of the elements before `ys`.
    abbrev Done : List ℕ → List ℕ → Bool → Type 0
    Done xs ys changed =
        delete_loop func remove (length xs) (xs ++ ys) changed
        ≡ (some_hit func xs || changed, rejected func xs ++ ys)

    delete_loop-suc :
        (i : ℕ) (v : List ℕ) (changed : Bool)
        → delete_loop func remove (suc i) v changed
          ≡ delete_loop func remove i
              (if func (get_or v i 0) then remove v i else v)
              (if func (get_or v i 0) then true else changed)
    unfolding delete_loop
    delete_loop-suc i v changed = refl

    delete_loop-step :
        (zs : List ℕ) (x : ℕ) (ys : List ℕ) (changed : Bool)
        → ((rest : List ℕ) (b : Bool) → Done zs rest b)
        → delete_loop func remove (suc (length zs)) (zs ++ x ∷ ys) changed
          ≡ (some_hit func (zs ++ x ∷ []) || changed, rejected func (zs ++ x ∷ []) ++ ys)
    delete_loop-step zs x ys changed ih = elim (Bool-cases (func x)) [
      | inl t ↦
          rw
            (
              delete_loop-suc (length zs) (zs ++ x ∷ ys) changed,
              get_or-middle zs x ys,
              t,
              removes zs ys x,
              some_hit-append zs x,
              rejected-append zs x,
              t,
            )
            (ih ys true
              ∙ answer_ap (ground arith) (ap (λ m. m ++ ys) (sym (append-nil (rejected func zs)))))
      | inr t ↦
          rw
            (
              delete_loop-suc (length zs) (zs ++ x ∷ ys) changed,
              get_or-middle zs x ys,
              t,
              some_hit-append zs x,
              rejected-append zs x,
              t,
            )
            (ih (x ∷ ys) changed
              ∙ answer_ap (ground arith) (sym (append_assoc (rejected func zs) (x ∷ []) ys)))
    ]

    delete_loop-Done :
        (i : ℕ) (xs ys : List ℕ) (changed : Bool)
        → length xs ≡ i
        → delete_loop func remove i (xs ++ ys) changed
          ≡ (some_hit func xs || changed, rejected func xs ++ ys)
    delete_loop-Done zero [] ys changed h = unfold delete_loop some_hit rejected in refl
    delete_loop-Done zero (x ∷ xs) ys changed h = absurd (omega arith)
    delete_loop-Done (suc i) xs ys changed h =
        let (zs, x, e, n) = last_of i xs h in
        let ih : (rest : List ℕ) (b : Bool) → Done zs rest b =
          λ rest b. rw n (delete_loop-Done i zs rest b n) in
        rw (e, append_assoc zs (x ∷ []) ys, sym n) (delete_loop-step zs x ys changed ih)

    -- When the vector's `remove` takes out one element and keeps the order of the others,
    -- `delete_if` leaves the elements that fail the test, in their order, and answers whether one
    -- passed it.
    pub delete_if-rejected :
        (v : List ℕ) → delete_if func remove v ≡ (some_hit func v, rejected func v)
    unfolding delete_if
    delete_if-rejected v =
        ap (λ m. delete_loop func remove (length v) m false) (sym (append-nil v))
        ∙ delete_loop-Done (length v) v [] false refl
        ∙ answer_ap (ground arith) (append-nil (rejected func v))
