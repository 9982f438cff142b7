-- ===== src/Platform/GenuineWallet.antt =====
-- Rows that accepted registrations and commands have written.
use kota.Base.{
  ◌≡◌, ◌≢◌, refl, sym, subst, ◌∙◌, Option, none, some, List, [], ◌∷◌, Result, ok, err, arith,
}
use kota.Primitives.{WalletId}
use kota.EsEntity.{IdempotencyGuard}
use kota.Wallet.Types.{Miniscript, WalletEvent, Wallet}
use kota.Wallet.Entity.{NewWallet, build, builder_from, try_from_events}
use kota.Wallet.Registered.{Command, execute, Reaches, here, next, IsRegistered, Reaches-SamePolicy}
use kota.Wallet.Replay.{execute-hydrates_wallet}
use kota.Platform.Repos.{FindError, hydration_failed, found_wallet}

no_rows_no_wallet : (w : Wallet) → try_from_events [] ≢ some w
unfolding try_from_events
no_rows_no_wallet w h = ground arith

-- Rows that hydrate are found as what they hydrate to.
pub found_of_rows :
    (id : WalletId) (w : Wallet) (rows : List WalletEvent)
    → try_from_events rows ≡ some w
    → found_wallet id rows ≡ ok w
found_of_rows id w [] h = absurd (no_rows_no_wallet w h)
found_of_rows id w (e ∷ es) h = rw (h, found_wallet) refl

-- A wallet that is found is what its rows hydrate to.
pub rows_of_found :
    (id : WalletId) (w : Wallet) (rows : List WalletEvent)
    → found_wallet id rows ≡ ok w
    → try_from_events rows ≡ some w
rows_of_found id w [] h = ground arith
rows_of_found id w (e ∷ es) h = hydrated (try_from_events (e ∷ es)) h
  where
    hydrated :
        (o : Option Wallet)
        → (elim o as (λ x. Result Wallet FindError) [ some v ↦ ok v | none ↦ err hydration_failed ])
          ≡ ok w
        → o ≡ some w
    hydrated none k = ground arith
    hydrated (some v) k = ground arith

build_keeps_events :
    (b : Option NewWallet) (es : List WalletEvent) (w : Wallet)
    → build b es ≡ some w
    → w.events ≡ es
build_keeps_events none es w h = ground arith
build_keeps_events (some n) es w h = ground arith

pub events_of_hydrated :
    (es : List WalletEvent) (w : Wallet) → try_from_events es ≡ some w → w.events ≡ es
unfolding try_from_events
events_of_hydrated es w h = build_keeps_events (builder_from none es) es w h

same_wallet : (r : Result Wallet FindError) (a b : Wallet) → r ≡ ok a → r ≡ ok b → a ≡ b
same_wallet r a b p q = cc

module _ (m : Miniscript) (guard : IdempotencyGuard WalletEvent) where
  -- A wallet that commands made of an accepted registration.
  pub record IsGenuine (id : WalletId) (w : Wallet) : Type 0 where
    pub registration : NewWallet
    pub born : Wallet
    pub registered : IsRegistered m guard registration born
    pub reached : Reaches m guard born w
    pub same_id : w.id ≡ id

  Reaches-hydrates :
      {v w : Wallet}
      → try_from_events v.events ≡ some v
      → Reaches m guard v w
      → try_from_events w.events ≡ some w
  Reaches-hydrates h here = h
  Reaches-hydrates h (next {v = u} c r) = execute-hydrates_wallet m guard c u (Reaches-hydrates h r)

  module _ (id : WalletId) (w : Wallet) (g : IsGenuine id w) where
    pub IsGenuine-hydrates : try_from_events w.events ≡ some w
    IsGenuine-hydrates =
        Reaches-hydrates
          (subst (λ es. try_from_events es ≡ some g.born)
            (sym (events_of_hydrated _ g.born g.registered.hydrated)) g.registered.hydrated)
          g.reached

    pub IsGenuine-execute : (c : Command) → IsGenuine id (execute m guard c w)
    IsGenuine-execute c =
        let step : Reaches m guard w (execute m guard c w) = next c here in
        record {
          registration = g.registration;
          born = g.born;
          registered = g.registered;
          reached = next c g.reached;
          same_id = (Reaches-SamePolicy m guard step).id ∙ g.same_id;
        }

  -- The rows of a wallet: they hydrate, if there are any, to a genuine wallet.
  pub record IsStored (id : WalletId) (rows : List WalletEvent) : Type 0 where
    pub hydrates : found_wallet id rows ≢ err hydration_failed
    pub genuine : (w : Wallet) → found_wallet id rows ≡ ok w → IsGenuine id w

  -- What the events of a genuine wallet are found as.
  pub found_of_genuine :
      (id : WalletId) (w t : Wallet) → IsGenuine id w → found_wallet id w.events ≡ ok t → w ≡ t
  found_of_genuine id w t g h =
      let found = found_of_rows id w w.events (IsGenuine-hydrates id w g) in
      same_wallet (found_wallet id w.events) w t found h

  pub IsStored-of_genuine : (id : WalletId) (w : Wallet) → IsGenuine id w → IsStored id w.events
  IsStored-of_genuine id w g =
      let found = found_of_rows id w w.events (IsGenuine-hydrates id w g) in
      record {
        hydrates = λ bad. cc;
        genuine = λ t f. subst (IsGenuine id) (found_of_genuine id w t g f) g;
      }
