-- ===== src/Base/Results.antt =====
-- `Result` with its `?`, and the outcome of an idempotent command.
use mathlib.Core.Path.{◌≡◌, refl}
use native.Mathlib.Omega.{arith}

pub data Result {ℓ κ} (A : Type ℓ) (E : Type κ) : Type (ℓ ⊔ κ) where
  ok : A → Result A E
  err : E → Result A E

-- The rest of a function behind `?`.
abbrev pub and_then {ℓ κ μ} :
    {E : Type μ} {A : Type ℓ} {B : Type κ} → (A → Result B E) → Result A E → Result B E
and_then rest (err why) = err why
and_then rest (ok value) = rest value

infixl 5 ◌>>=◌ ◌>>◌
abbrev pub ◌>>=◌ {ℓ κ μ} :
    {E : Type μ} {A : Type ℓ} {B : Type κ} → Result A E → (A → Result B E) → Result B E
first >>= rest = and_then rest first

abbrev pub ◌>>◌ {κ μ} : {E : Type μ} {B : Type κ} → Result (Unit {0}) E → Result B E → Result B E
check >> rest = and_then (λ done. rest) check

-- A chain that succeeds has a first step that does.
pub ok_of_bind {ℓ κ μ} :
    {A : Type ℓ} {B : Type κ} {E : Type μ} (first : Result A E) (rest : A → Result B E) (b : B)
    → (first >>= rest) ≡ ok b
    → (a : A) × (first ≡ ok a) × (rest a ≡ ok b)
ok_of_bind (err why) rest b h = ground arith
ok_of_bind (ok a) rest b h = (a, refl, h)

-- `es_entity::Idempotent`
pub data Idempotent {ℓ} (A : Type ℓ) : Type ℓ where
  executed : A → Idempotent A
  already_applied : Idempotent A
