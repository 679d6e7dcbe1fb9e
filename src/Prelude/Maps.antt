-- ===== src/Prelude/Maps.antt =====
-- Functions on addresses that are changed at one of them, and membership as a test.
use Prim.Native.Nat.{ℕ}
use mathlib.Core.Bool.{Bool, false, ◌||◌}
use mathlib.Core.List.{List, [], ◌∷◌}
use mirb.Prelude.Tests.{◌==◌, if◌then◌else◌}

unfoldable pub put {ℓ} : {A : Type ℓ} → (ℕ → A) → ℕ → A → ℕ → A
put f a v b = if b == a then v else f b

unfoldable pub has : ℕ → List ℕ → Bool
has a [] = false
has a (x ∷ xs) = (a == x) || has a xs
