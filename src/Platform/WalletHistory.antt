-- ===== src/Platform/WalletHistory.antt =====
-- The history of the stored wallets under all operations of the system.
use kota.Base.{
  ◌≡◌, ◌≢◌, refl, sym, ap, subst, ◌∙◌, Option, some, none, List, [], ◌∷◌, ◌++◌, Result, ok, err,
  arith,
}
use kota.Primitives.{WalletId}
use kota.Wallet.Types.{WalletEvent, Wallet}
use kota.Wallet.Entity.{try_from_events}
use kota.Wallet.Log.{IsLogged, IsLater, hydrated-IsLogged, Reaches-IsLogged, IsLater-of_logs}
use kota.Platform.Repos.{World, FindError, hydration_failed, found_wallet, find_wallet}
use kota.Platform.GenuineWallet.{rows_of_found, events_of_hydrated}
use kota.Platform.Consistent.{IsConsistent, found_wallet-IsGenuine}
use kota.Platform.History.{AppendOnly, Reaches-Extends}
use kota.Platform.Jobs.Types.{Services}
use kota.Platform.Steps.{Reaches, IsEmpty, IsConsistent-of_empty, Reaches-IsConsistent}

found_of_some :
    (id : WalletId) (e : WalletEvent) (es : List WalletEvent)
    → found_wallet id (e ∷ es) ≢ err hydration_failed
    → (w : Wallet) × (found_wallet id (e ∷ es) ≡ ok w)
found_of_some id e es h = of_result (try_from_events (e ∷ es)) h
  where
    of_result :
        (o : Option Wallet)
        → (elim o as (λ x. Result Wallet FindError) [ some w ↦ ok w | none ↦ err hydration_failed ])
          ≢ err hydration_failed
        → (w : Wallet) × ((elim o as (λ x. Result Wallet FindError) [
          | some w ↦ ok w
          | none ↦ err hydration_failed
        ])
            ≡ ok w)
    of_result none k = absurd (k refl)
    of_result (some w) k = (w, refl)

found_later :
    (id : WalletId) (v : Wallet) (rows new : List WalletEvent)
    → found_wallet id rows ≡ ok v
    → found_wallet id (rows ++ new) ≢ err hydration_failed
    → (w : Wallet) × (found_wallet id (rows ++ new) ≡ ok w)
found_later id v [] new f h = ground arith
found_later id v (e ∷ es) new f h = found_of_some id e (es ++ new) h

module _ {Db : Type 0} (sv : Services Db) (log : AppendOnly sv.database) where
  open sv use {database}

  stored-IsLogged :
      (db : Db) (id : WalletId) (v : Wallet)
      → IsConsistent sv db
      → find_wallet database db id ≡ ok v
      → IsLogged v
  stored-IsLogged db id v c f =
      let g = found_wallet-IsGenuine sv db id v c f in
      Reaches-IsLogged sv.miniscript sv.wallet_guard
        (hydrated-IsLogged g.registration g.born g.registered.hydrated) g.reached

  -- If event rows are only appended, then from a database without rows, whatever operations come, a
  -- wallet that is stored at some time is stored at every later time, with its policy and its
  -- events as they were, and with the descriptor and the content address that it had, if it had
  -- them.
  pub system_wallet_history :
      (w u v : World Db)
      → IsEmpty sv w.db
      → Reaches sv w u
      → Reaches sv u v
      → (id : WalletId) (s : Wallet) → find_wallet database u.db id ≡ ok s
      → (t : Wallet) × (find_wallet database v.db id ≡ ok t) × IsLater s t
  unfolding find_wallet
  system_wallet_history w u v e r q id s f =
      let cu = Reaches-IsConsistent sv (IsConsistent-of_empty sv w.db e) r in
      let cv = Reaches-IsConsistent sv cu q in
      let more = (Reaches-Extends sv log u q).wallets id in
      let later = found_later id s (database.wallet_events u.db id) more.0 f (
        subst (λ rows. found_wallet id rows ≢ err hydration_failed) more.1
          (cv.wallets id).stored.hydrates) in
      let found : found_wallet id (database.wallet_events v.db id) ≡ ok later.0 =
        subst (λ rows. found_wallet id rows ≡ ok later.0) (sym more.1) later.1 in
      (
        later.0,
        found,
        IsLater-of_logs s later.0 more.0 (stored-IsLogged u.db id s cu f)
            (stored-IsLogged v.db id later.0 cv found)
            (events_of_found id later.0 (database.wallet_events v.db id) found
              ∙ more.1
              ∙ ap (λ rows. rows ++ more.0)
                  (sym (events_of_found id s (database.wallet_events u.db id) f))),
      )
    where
      events_of_found :
          (id : WalletId) (s : Wallet) (rows : List WalletEvent)
          → found_wallet id rows ≡ ok s
          → s.events ≡ rows
      events_of_found id s rows h = events_of_hydrated rows s (rows_of_found id s rows h)
