-- ===== src/Common/Results.antt =====
-- `(value, error)` results: the value, or the error.
use mathlib.Core.Path.{◌≡◌, refl}
use mathlib.Core.Logic.{◌⊎◌, inl, inr}

pub data Result {ℓ κ} (E : Type κ) (A : Type ℓ) : Type (ℓ ⊔ κ) where
  ok : A → Result E A
  err : E → Result E A

-- `if err != nil { return err }` behind a step
infixl 5 ◌>>=◌ ◌>>◌
abbrev pub ◌>>=◌ {α β ε} :
    {Err : Type ε} {X : Type α} {Y : Type β} → Result Err X → (X → Result Err Y) → Result Err Y
err why >>= next = err why
ok x >>= next = next x

abbrev pub ◌>>◌ {β ε} :
    {Err : Type ε} {Y : Type β} → Result Err (Unit {0}) → Result Err Y → Result Err Y
step >> next = step >>= (λ done. next)

-- A chain that succeeds has succeeded at its first step.
pub both_ok {α β ε} :
    {Err : Type ε} {X : Type α} {Y : Type β} {y : Y} (step : Result Err X) (next : X → Result Err Y)
    → (step >>= next) ≡ ok y
    → (x : X) × (step ≡ ok x) × (next x ≡ ok y)
both_ok (err why) next h = cc
both_ok (ok x) next h = (x, refl, h)

-- the error of a result, wrapped
abbrev pub map_err {α ε φ} :
    {Err : Type ε} {Err' : Type φ} {X : Type α} → (Err → Err') → Result Err X → Result Err' X
map_err wrap (ok x) = ok x
map_err wrap (err why) = err (wrap why)

pub Result-cases {α ε} :
    {Err : Type ε} {X : Type α} (r : Result Err X)
    → ((x : X) × (r ≡ ok x)) ⊎ ((why : Err) × (r ≡ err why))
Result-cases (ok x) = inl (x, refl)
Result-cases (err why) = inr (why, refl)
