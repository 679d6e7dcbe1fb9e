-- ===== src/Lexeme/Casts.antt =====
-- The casts between operators and their assignments against the names.
use Prim.Native.String.{◌++◌}
use mathlib.Core.Path.{subst}
use mirb.Lexeme.Kind
use mirb.Lexeme.Names.{names}
use mirb.Lexeme.{operator_to_assign, assign_to_operator, name}
use mirb.Prelude.Lists.{get_or}
use mirb.Prelude.{ℕ, zero, suc, ◌+◌, ◌-◌, ◌≤◌, ◌<◌, ◌≡◌, refl, arith}

-- The assignment is named after the operator, and leads back to it.
abbrev IsAssignable : ℕ → Type 0
IsAssignable op =
    (name (operator_to_assign op) ≡ name op ++ "=")
    × (assign_to_operator (operator_to_assign op) ≡ op)

casts_from_power : (d : ℕ) → d < 13 → IsAssignable (Kind.power + d)
unfolding name names get_or operator_to_assign assign_to_operator
casts_from_power zero h = (refl, refl)
casts_from_power (suc zero) h = (refl, refl)
casts_from_power (suc (suc zero)) h = (refl, refl)
casts_from_power (suc (suc (suc zero))) h = (refl, refl)
casts_from_power (suc (suc (suc (suc zero)))) h = (refl, refl)
casts_from_power (suc (suc (suc (suc (suc zero))))) h = (refl, refl)
casts_from_power (suc (suc (suc (suc (suc (suc zero)))))) h = (refl, refl)
casts_from_power (suc (suc (suc (suc (suc (suc (suc zero))))))) h = (refl, refl)
casts_from_power (suc (suc (suc (suc (suc (suc (suc (suc zero)))))))) h = (refl, refl)
casts_from_power (suc (suc (suc (suc (suc (suc (suc (suc (suc zero))))))))) h = (refl, refl)
casts_from_power (suc (suc (suc (suc (suc (suc (suc (suc (suc (suc zero)))))))))) h = (refl, refl)
casts_from_power (suc (suc (suc (suc (suc (suc (suc (suc (suc (suc (suc zero))))))))))) h =
    (refl, refl)
casts_from_power (suc (suc (suc (suc (suc (suc (suc (suc (suc (suc (suc (suc zero)))))))))))) h =
    (refl, refl)
casts_from_power (suc (suc (suc (suc (suc (suc (suc (suc (suc (suc (suc (suc (suc (n))))))))))))))
      h =
    absurd (omega arith)

-- From `POWER` to `LOGICAL_OR` the cast of an operator gives the lexeme that is named after it with
-- an equals sign, and the cast back gives the operator.
pub name-operator_to_assign :
    (op : ℕ)
    → Kind.power ≤ op
    → op ≤ Kind.logical_or
    → (name (operator_to_assign op) ≡ name op ++ "=")
      × (assign_to_operator (operator_to_assign op) ≡ op)
name-operator_to_assign op low high =
    let e : Kind.power + (op - Kind.power) ≡ op = omega arith in
    subst IsAssignable e (casts_from_power (op - Kind.power) (omega arith))
