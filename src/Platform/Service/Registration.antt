-- ===== src/Platform/Service/Registration.antt =====
-- `register_wallet`: an accepted policy is stored as a wallet.
use kota.Base.{ℕ, ◌<◌, ◌^◌, ◌≡◌, sym, ap, subst, some, List, ok, length, arith}
use kota.Base.Actions.{Ends, bind-Ends}
use kota.Primitives.{WalletId, UserId, Network}
use kota.Wallet.Types.{Wallet}
use kota.Wallet.Entity.{NewWallet, new, into_events, try_from_events, descriptor_fingerprint_of}
use kota.Wallet.Registered.{here}
use kota.Platform.Repos.{World, found_wallet}
use kota.Platform.GenuineWallet.{IsGenuine, rows_of_found}
use kota.Platform.Consistent.{IsConsistent}
use kota.Platform.Jobs.Types.{Services}
use kota.Platform.Jobs.Atomic.{Untouched, lift-Known}
use kota.Platform.Service.{wallet_error, wallet_create, not_hydrated, not_written, register_wallet}
use kota.Platform.Service.Wallets.{IsReturned, store_wallet-Ends}

-- An accepted policy holds its arguments as given.
new_fields :
    (id : WalletId) (network : Network) (threshold : ℕ) (ps : List UserId) (n : NewWallet)
    → new id network threshold ps ≡ ok n
    → (record { id = id; network = network; threshold = threshold; participants = ps }) ≡ n
unfolding new
new_fields id network threshold ps n h = ground arith

-- What the rows of a policy hydrate to.
abbrev first_wallet : NewWallet → Wallet
first_wallet n = record {
  id = n.id;
  network = n.network;
  threshold = n.threshold;
  participants = n.participants;
  events = into_events n;
}

first_wallet_hydrated :
    (n : NewWallet) (v : Wallet) → try_from_events (into_events n) ≡ some v → first_wallet n ≡ v
unfolding try_from_events
first_wallet_hydrated n v h = ground arith

module _ {Db : Type 0} (sv : Services Db) where
  -- The registered policy, as a new wallet.
  abbrev pub IsNew : WalletId → ℕ → List UserId → Wallet → Type 0
  IsNew id threshold ps v =
      (n : NewWallet) × (new id sv.network threshold ps ≡ ok n)
      × (try_from_events (into_events n) ≡ some v)

  registered-IsGenuine :
      (id : WalletId) (threshold : ℕ) (ps : List UserId) (n : NewWallet) (v : Wallet)
      → length ps < 2 ^ 32
      → new id sv.network threshold ps ≡ ok n
      → try_from_events (into_events n) ≡ some v
      → IsGenuine sv.miniscript sv.wallet_guard n.id v
  registered-IsGenuine id threshold ps n v s h k =
      let e = new_fields id sv.network threshold ps n h in
      record {
        registration = n;
        born = v;
        registered = record {
          accepted =
              subst (λ (x : NewWallet). new x.id x.network x.threshold x.participants ≡ ok n) e h;
          hydrated = k;
          countable = subst (λ (x : NewWallet). length x.participants < 2 ^ 32) e s;
        };
        reached = here;
        same_id = ap (λ (w : Wallet). w.id) (sym (first_wallet_hydrated n v k));
      }

  module _ (old : Db) (c : IsConsistent sv old) where
    -- On a consistent database, the registration of fewer than 2^32 participants that succeeds
    -- leaves the database consistent and the returned wallet stored, with the accepted policy, as
    -- its first rows say. One that fails is an error, no panic, and leaves the database as it was.
    pub register_wallet-Ends :
        (id : WalletId) (threshold : ℕ) (ps : List UserId) (w : World Db)
        → w.db ≡ old
        → length ps < 2 ^ 32
        → Ends
            (λ v u. IsReturned sv v u × IsNew id threshold ps v)
            (Untouched sv old)
            (register_wallet sv id threshold ps w)
    unfolding register_wallet descriptor_fingerprint_of
    register_wallet-Ends id threshold ps w e s =
        bind-Ends _ _ w _ _ _
          (lift-Known sv old c wallet_error (new id sv.network threshold ps) w e)
          (λ n u k.
            bind-Ends _ _ u _ _ _
              (lift-Known sv old c (λ why. wallet_create (not_hydrated why))
                (found_wallet n.id (into_events n)) u k.0)
              (λ v u m.
                let rows = rows_of_found n.id v (into_events n) m.1 in
                let same = first_wallet_hydrated n v rows in
                bind-Ends _ _ u _ _ _
                  (store_wallet-Ends sv old c (λ why. wallet_create (not_written why)) n.id
                    (first_wallet n) u m.0
                    (subst (IsGenuine sv.miniscript sv.wallet_guard n.id) (sym same)
                      (registered-IsGenuine id threshold ps n v s k.1 rows)))
                  (λ done t q. record {
                    by = (subst (λ x. IsReturned sv x t) same q, (n, k.1, rows));
                  })))
