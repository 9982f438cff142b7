-- ===== src/Base/Actions.antt =====
-- Steps that change a state and may fail. What was written before a failure stays written, so the
-- state comes back beside the error too.
use mathlib.Core.Path.{◌≡◌, refl}
use mathlib.Core.Logic.{◌≢◌}
use mathlib.Core.Bool.{Bool, true, false}
use mathlib.Core.Option.{Option, none, some}
use native.Mathlib.Omega.{arith}
use kota.Base.Results.{Result, ok, err}

-- An error that the code returns, or a panic.
pub data Failure (E : Type 0) : Type 0 where
  raised : E → Failure E
  panicked : Failure E

abbrev pub Action : Type 0 → Type 0 → Type 0 → Type 0
Action S E A = S → Result A (Failure E) × S

module _ {S E A : Type 0} where
  abbrev pub pure : A → Action S E A
  pure a s = (ok a, s)

  abbrev pub raise : E → Action S E A
  raise e s = (err (raised e), s)

  abbrev pub panic : Action S E A
  panic s = (err panicked, s)

  abbrev pub gets : (S → A) → Action S E A
  gets f s = (ok (f s), s)

  -- `ok_or(e)?`
  abbrev pub or_raise : Option A → E → Action S E A
  or_raise none e = raise e
  or_raise (some a) e = pure a

  -- `expect(..)`
  abbrev pub or_panic : Option A → Action S E A
  or_panic none = panic
  or_panic (some a) = pure a

  -- `?` on a result whose error converts.
  abbrev pub lift : {F : Type 0} → (F → E) → Result A F → Action S E A
  lift f (ok a) = pure a
  lift f (err e) = raise (f e)

module _ {S E : Type 0} where
  abbrev pub raise_if : Bool → E → Action S E Unit
  raise_if true e = raise e
  raise_if false e = pure tt

module _ {S E A B : Type 0} where
  abbrev pub continue : Result A (Failure E) → (A → Action S E B) → Action S E B
  continue (ok a) f s = f a s
  continue (err e) f s = (err e, s)

  infixl 5 ◌>>=◌ ◌>>◌
  unfoldable pub ◌>>=◌ : Action S E A → (A → Action S E B) → Action S E B
  ◌>>=◌ m f s = continue (m s).0 f (m s).1

  abbrev pub ◌>>◌ : Action S E A → Action S E B → Action S E B
  m >> n = m >>= λ done. n

  -- A chain that succeeds has succeeded at its first step, and from there.
  pub bind_ok :
      (m : Action S E A) (f : A → Action S E B) (s t : S) (b : B)
      → (m >>= f) s ≡ (ok b, t)
      → (a : A) × (u : S) × (m s ≡ (ok a, u)) × (f a u ≡ (ok b, t))
  unfolding ◌>>=◌
  bind_ok m f s t b h = bind_from (m s) refl h
    where
      bind_from :
          (r : Result A (Failure E) × S)
          → m s ≡ r
          → continue r.0 f r.1 ≡ (ok b, t)
          → (a : A) × (u : S) × (m s ≡ (ok a, u)) × (f a u ≡ (ok b, t))
      bind_from (ok a, u) e k = (a, u, e, k)
      bind_from (err e, u) g k = ground arith

module _ {S E A B : Type 0} where
  -- A chain goes on from the value of its first step.
  pub bind_step :
      (m : Action S E A) (f : A → Action S E B) (s t : S) (a : A)
      → m s ≡ (ok a, t)
      → (m >>= f) s ≡ f a t
  unfolding ◌>>=◌
  bind_step m f s t a h = rw h refl

-- How a step ended: what holds of its value and of the state, or of its failure and of the state.
module _ {S E A : Type 0} where
  abbrev pub EndsBy :
      (A → S → Type 0) → (Failure E → S → Type 0) → Result A (Failure E) × S → Type 0
  EndsBy post fail (ok a, s) = post a s
  EndsBy post fail (err e, s) = fail e s

-- A record, so that the two predicates can be read off the type.
pub record Ends {S E A : Type 0} (post : A → S → Type 0) (fail : Failure E → S → Type 0)
    (r : Result A (Failure E) × S) : Type 0 where
  pub by : EndsBy post fail r

module _ {S E A : Type 0} (post : A → S → Type 0) (fail : Failure E → S → Type 0) where
  pub lift-Ends :
      {F : Type 0} (f : F → E) (r : Result A F) (s : S)
      → ((a : A) → r ≡ ok a → post a s)
      → ((e : F) → r ≡ err e → fail (raised (f e)) s)
      → Ends post fail (lift f r s)
  lift-Ends f (ok a) s p q = record { by = p a refl }
  lift-Ends f (err e) s p q = record { by = q e refl }

  pub or_raise-Ends :
      (o : Option A) (e : E) (s : S)
      → ((a : A) → o ≡ some a → post a s)
      → (o ≡ none → fail (raised e) s)
      → Ends post fail (or_raise o e s)
  or_raise-Ends none e s p q = record { by = q refl }
  or_raise-Ends (some a) e s p q = record { by = p a refl }

  pub or_panic-Ends :
      (o : Option A) (s : S)
      → ((a : A) → o ≡ some a → post a s)
      → o ≢ none
      → Ends post fail (or_panic o s)
  or_panic-Ends none s p q = absurd (q refl)
  or_panic-Ends (some a) s p q = record { by = p a refl }

module _ {S E A B : Type 0} where
  continue-Ends :
      (r : Result A (Failure E) × S) (f : A → Action S E B) (mid : A → S → Type 0)
      (post : B → S → Type 0) (fail : Failure E → S → Type 0)
      → EndsBy mid fail r
      → ((a : A) (t : S) → mid a t → Ends post fail (f a t))
      → Ends post fail (continue r.0 f r.1)
  continue-Ends (ok a, t) f mid post fail h k = k a t h
  continue-Ends (err e, t) f mid post fail h k = record { by = h }

  -- The rule for `m >>= f`.
  pub bind-Ends :
      (m : Action S E A) (f : A → Action S E B) (s : S) (mid : A → S → Type 0)
      (post : B → S → Type 0) (fail : Failure E → S → Type 0)
      → Ends mid fail (m s)
      → ((a : A) (t : S) → mid a t → Ends post fail (f a t))
      → Ends post fail ((m >>= f) s)
  unfolding ◌>>=◌
  bind-Ends m f s mid post fail h k = continue-Ends (m s) f mid post fail h.by k

module _ {S E : Type 0} (post : Unit {0} → S → Type 0) (fail : Failure E → S → Type 0) where
  pub raise_if-Ends :
      (b : Bool) (e : E) (s : S)
      → (b ≡ false → post tt s)
      → (b ≡ true → fail (raised e) s)
      → Ends post fail (raise_if b e s)
  raise_if-Ends true e s p q = record { by = q refl }
  raise_if-Ends false e s p q = record { by = p refl }

module _ {S E A : Type 0} {post : A → S → Type 0} {fail : Failure E → S → Type 0} where
  pub weaken_post :
      {wider : A → S → Type 0} (r : Result A (Failure E) × S)
      → ((a : A) (s : S) → post a s → wider a s)
      → Ends post fail r
      → Ends wider fail r
  weaken_post (ok a, s) k h = record { by = k a s h.by }
  weaken_post (err e, s) k h = record { by = h.by }
