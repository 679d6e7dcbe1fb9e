-- ===== src/Prelude/Chains.antt =====
-- Lists that run through a field of their elements, with 0 as their end.
use Prim.Native.Nat.{ℕ}
use native.Mathlib.Omega.{arith}
use mathlib.Core.Bool.{false}
use mathlib.Core.List.{List, [], ◌∷◌}
use mathlib.Core.Logic.{◌≢◌}
use mathlib.Core.Path.{◌≡◌, subst}
use mirb.Prelude.Maps.{put, has}

-- From `head`, the `next` fields lead through exactly these addresses to 0.
unfoldable pub Chain : (ℕ → ℕ) → ℕ → List ℕ → Type 0
Chain next head [] = head ≡ 0
Chain next head (a ∷ p) = (head ≡ a) × (a ≢ 0) × Chain next (next a) p

unfoldable pub Distinct : List ℕ → Type 0
Distinct [] = Unit
Distinct (a ∷ p) = (has a p ≡ false) × Distinct p

pub Chain-put :
    (next : ℕ → ℕ) (head a v : ℕ) (p : List ℕ)
    → has a p ≡ false
    → Chain next head p
    → Chain (put next a v) head p
unfolding Chain put has
Chain-put next head a v [] out c = c
Chain-put next head a v (b ∷ p) out (at, nz, c) =
    let rest : Chain (put next a v) (next b) p = Chain-put next (next b) a v p (ground arith) c in
    (at, nz, subst (λ h. Chain (put next a v) h p) (ground arith) rest)

pub put-same {ℓ} : {A : Type ℓ} (f : ℕ → A) (a : ℕ) (v : A) → put f a v a ≡ v
unfolding put
put-same f a v = ground arith
