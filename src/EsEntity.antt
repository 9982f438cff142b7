-- ===== src/EsEntity.antt =====
-- The `idempotency_guard!` macro of the es-entity crate, which the entities' commands run over
-- their events, the newest first.
use kota.Base.{
  ◌≡◌, refl, Bool, true, false, List, [], ◌∷◌, ◌++◌, reverse, arith, any, any-append, if◌then◌else◌,
}
use mathlib.Core.List.{reverse-append, reverse-cons}

module _ {ℓ} {E : Type ℓ} where
  -- The documented loop: an event that `already_applied` fits ends the command, an event that
  -- `resets_on` fits ends the search.
  abbrev pub guard_loop : (E → Bool) → (E → Bool) → List E → Bool
  guard_loop applied resets [] = false
  guard_loop applied resets (e ∷ es) =
      if applied e then true else if resets e then false else guard_loop applied resets es

  abbrev pub never : E → Bool
  never e = false

  pub guard_loop-never : (p : E → Bool) (es : List E) → guard_loop p never es ≡ any p es
  guard_loop-never p [] = refl
  guard_loop-never p (e ∷ es) = ground (arith, guard_loop-never p es)

  pub reverse-push : (es : List E) (e : E) → reverse (es ++ e ∷ []) ≡ e ∷ reverse es
  reverse-push es e = reverse-append es (e ∷ [])

  pub any-reverse : (p : E → Bool) (es : List E) → any p (reverse es) ≡ any p es
  any-reverse p [] = refl
  any-reverse p (e ∷ es) =
      rw (reverse-cons e es, any-append p (reverse es) (e ∷ [])) (ground (arith, any-reverse p es))

-- The macro, with what the code relies on: whether the guard returns `AlreadyApplied`.
pub record IdempotencyGuard {ℓ} (E : Type ℓ) : Type ℓ where
  pub applied : (E → Bool) → (E → Bool) → List E → Bool
  pub applied_lem : (p r : E → Bool) (es : List E) → applied p r es ≡ guard_loop p r es

-- The macro as documented.
abbrev pub documented_guard {ℓ} : {E : Type ℓ} → IdempotencyGuard E
documented_guard = record { applied = guard_loop; applied_lem = λ p r es. refl }
