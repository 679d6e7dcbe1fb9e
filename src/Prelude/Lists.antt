-- ===== src/Prelude/Lists.antt =====
-- Vectors as lists with native indices.
use Prim.Native.Nat.{ℕ, zero, suc, ◌+◌, ◌-◌, ◌≤◌, ◌<◌}
use mathlib.Core.List.{List, [], ◌∷◌, ◌++◌}
use mathlib.Core.Path.{◌≡◌, refl, sym, ap, ◌∙◌}
use native.Mathlib.Nat.{suc-add}
use native.Mathlib.Omega.{arith}
use mirb.Prelude.Tests.{◌==◌, if◌then◌else◌}

module _ {ℓ} {A : Type ℓ} where
  abbrev pub length : List A → ℕ
  length [] = 0
  length (x ∷ xs) = suc (length xs)

  unfoldable pub replicate : ℕ → A → List A
  replicate zero a = []
  replicate (suc n) a = a ∷ replicate n a

  -- A read out of bounds gives the default.
  unfoldable pub get_or : List A → ℕ → A → A
  get_or [] i d = d
  get_or (x ∷ xs) zero d = x
  get_or (x ∷ xs) (suc i) d = get_or xs i d

  -- A write out of bounds changes nothing.
  unfoldable pub set : List A → ℕ → A → List A
  set [] i v = []
  set (x ∷ xs) zero v = v ∷ xs
  set (x ∷ xs) (suc i) v = x ∷ set xs i v

  unfoldable pub take : ℕ → List A → List A
  take zero xs = []
  take (suc n) [] = []
  take (suc n) (x ∷ xs) = x ∷ take n xs

  unfoldable pub drop : ℕ → List A → List A
  drop zero xs = xs
  drop (suc n) [] = []
  drop (suc n) (x ∷ xs) = drop n xs

  pub length-append : (xs ys : List A) → length (xs ++ ys) ≡ length xs + length ys
  length-append [] ys = omega arith
  length-append (x ∷ xs) ys = omega (arith, length-append xs ys)

  pub length-set : (xs : List A) (i : ℕ) (v : A) → length (set xs i v) ≡ length xs
  unfolding set
  length-set [] i v = refl
  length-set (x ∷ xs) zero v = refl
  length-set (x ∷ xs) (suc i) v = ap suc (length-set xs i v)

  pub length-replicate : (n : ℕ) (a : A) → length (replicate n a) ≡ n
  unfolding replicate
  length-replicate zero a = refl
  length-replicate (suc n) a = ap suc (length-replicate n a)

  pub get_or-replicate : (n i : ℕ) (a : A) → get_or (replicate n a) i a ≡ a
  unfolding replicate get_or
  get_or-replicate zero i a = refl
  get_or-replicate (suc n) zero a = refl
  get_or-replicate (suc n) (suc i) a = get_or-replicate n i a

  pub get_or-set :
      (xs : List A) (i j : ℕ) (v d : A)
      → i < length xs
      → get_or (set xs i v) j d ≡ (if i == j then v else get_or xs j d)
  unfolding get_or set
  get_or-set [] i j v d h = absurd (omega arith)
  get_or-set (x ∷ xs) zero zero v d h = ground arith
  get_or-set (x ∷ xs) zero (suc j) v d h = ground arith
  get_or-set (x ∷ xs) (suc i) zero v d h = ground arith
  get_or-set (x ∷ xs) (suc i) (suc j) v d h = ground (arith, get_or-set xs i j v d)

  pub get_or-append :
      (xs : List A) (x : A) (i : ℕ) (d : A)
      → i < length xs + 1
      → get_or (xs ++ x ∷ []) i d ≡ (if i == length xs then x else get_or xs i d)
  unfolding get_or
  get_or-append [] x zero d h = refl
  get_or-append [] x (suc i) d h = absurd (omega arith)
  get_or-append (y ∷ ys) x zero d h = ground arith
  get_or-append (y ∷ ys) x (suc i) d h = ground (arith, get_or-append ys x i d)

  pub take-length : (xs : List A) → take (length xs) xs ≡ xs
  unfolding take
  take-length [] = refl
  take-length (x ∷ xs) = ap (λ t. x ∷ t) (take-length xs)

  pub take-append : (xs ys : List A) → take (length xs) (xs ++ ys) ≡ xs
  unfolding take
  take-append [] ys = refl
  take-append (x ∷ xs) ys = ap (λ t. x ∷ t) (take-append xs ys)

  pub length-take : (n : ℕ) (xs : List A) → n ≤ length xs → length (take n xs) ≡ n
  unfolding take
  length-take zero xs h = refl
  length-take (suc n) [] h = absurd (omega arith)
  length-take (suc n) (x ∷ xs) h = ap suc (length-take n xs (omega arith))

  pub length-drop : (n : ℕ) (xs : List A) → length (drop n xs) ≡ length xs - n
  unfolding drop
  length-drop zero xs = omega arith
  length-drop (suc n) [] = omega arith
  length-drop (suc n) (x ∷ xs) = omega (arith, length-drop n xs)

  drop-nil : (n : ℕ) → drop n [] ≡ []
  unfolding drop
  drop-nil zero = refl
  drop-nil (suc n) = refl

  pub drop-drop : (m n : ℕ) (xs : List A) → drop n (drop m xs) ≡ drop (m + n) xs
  unfolding drop
  drop-drop zero n xs = ap (λ t. drop t xs) (omega arith)
  drop-drop (suc m) n [] = drop-nil n ∙ sym (drop-nil (suc m + n))
  drop-drop (suc m) n (x ∷ xs) = drop-drop m n xs ∙ ap (λ t. drop t (x ∷ xs)) (sym (suc-add m n))

  pub take-take : (m n : ℕ) (xs : List A) → m ≤ n → take m (take n xs) ≡ take m xs
  unfolding take
  take-take zero n xs h = refl
  take-take (suc m) zero xs h = absurd (omega arith)
  take-take (suc m) (suc n) [] h = refl
  take-take (suc m) (suc n) (x ∷ xs) h = ap (λ t. x ∷ t) (take-take m n xs (omega arith))

  -- Fewer than asked for is all there is.
  pub drop-short : (n : ℕ) (xs : List A) → length (take n xs) < n → drop n xs ≡ []
  unfolding take drop
  drop-short zero xs h = absurd (omega arith)
  drop-short (suc n) [] h = refl
  drop-short (suc n) (x ∷ xs) h = drop-short n xs (omega arith)

  pub take-drop : (n : ℕ) (xs : List A) → take n xs ++ drop n xs ≡ xs
  unfolding take drop
  take-drop zero xs = refl
  take-drop (suc n) [] = refl
  take-drop (suc n) (x ∷ xs) = ap (λ t. x ∷ t) (take-drop n xs)

  pub length-take_le : (n : ℕ) (xs : List A) → length (take n xs) ≤ n
  unfolding take
  length-take_le zero xs = omega arith
  length-take_le (suc n) [] = omega arith
  length-take_le (suc n) (x ∷ xs) = omega (arith, length-take_le n xs)

  pub length-take_all : (n : ℕ) (xs : List A) → length (take n xs) ≤ length xs
  unfolding take
  length-take_all zero xs = omega arith
  length-take_all (suc n) [] = omega arith
  length-take_all (suc n) (x ∷ xs) = omega (arith, length-take_all n xs)

  pub take-length_take : (n : ℕ) (xs : List A) → take (length (take n xs)) xs ≡ take n xs
  unfolding take
  take-length_take zero xs = refl
  take-length_take (suc n) [] = refl
  take-length_take (suc n) (x ∷ xs) = ap (λ t. x ∷ t) (take-length_take n xs)

  -- The element behind the first `i`.
  pub drop-get_or :
      (n i : ℕ) (xs : List A) (d : A)
      → i < length (take n xs)
      → drop i xs ≡ get_or (take n xs) i d ∷ drop (suc i) xs
  unfolding take drop get_or
  drop-get_or zero i xs d h = absurd (omega arith)
  drop-get_or (suc n) i [] d h = absurd (omega arith)
  drop-get_or (suc n) zero (x ∷ xs) d h = refl
  drop-get_or (suc n) (suc i) (x ∷ xs) d h = drop-get_or n i xs d (omega arith)

  pub take-get_or :
      (n i : ℕ) (xs : List A) (d : A)
      → i < length (take n xs)
      → take i xs ++ get_or (take n xs) i d ∷ [] ≡ take (suc i) xs
  unfolding take get_or
  take-get_or zero i xs d h = absurd (omega arith)
  take-get_or (suc n) i [] d h = absurd (omega arith)
  take-get_or (suc n) zero (x ∷ xs) d h = refl
  take-get_or (suc n) (suc i) (x ∷ xs) d h = ap (λ t. x ∷ t) (take-get_or n i xs d (omega arith))
