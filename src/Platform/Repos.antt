-- ===== src/Platform/Repos.antt =====
-- The repositories: finding an entity hydrates it from its rows, creating and updating one writes
-- its events.
use kota.Base.{ℕ, Option, none, some, List, [], ◌∷◌, Result, ok, err}
use kota.Base.Actions.{Action, raised}
use kota.Primitives.{PsbtSessionId, WalletId}
use kota.Session.Types.{PsbtSessionEvent, PsbtSession}
use kota.Session.Hydrate.{try_from_events}
use kota.Wallet.Types.{WalletEvent, Wallet, DescriptorFingerprint}
use kota.Wallet.Entity
use kota.Platform.Database.{TransactionError, Database, Transaction, JobConfig}
use kota.Storage.Store.{InMemoryBlobStore}

-- `PsbtSessionFindError` and `WalletFindError`
pub data FindError : Type 0 where
  not_found : ℕ → FindError
  hydration_failed : FindError

-- The database and the blob store; each clone of the service shares them.
pub record World (Db : Type 0) : Type 0 where
  pub db : Db
  pub blobs : InMemoryBlobStore

-- The rows of an entity, hydrated.
abbrev pub found_session : PsbtSessionId → List PsbtSessionEvent → Result PsbtSession FindError
found_session id [] = err (not_found id)
found_session id (e ∷ es) = elim (try_from_events (e ∷ es)) [
  | ok s ↦ ok s
  | err why ↦ err hydration_failed
]

abbrev pub found_wallet : WalletId → List WalletEvent → Result Wallet FindError
found_wallet id [] = err (not_found id)
found_wallet id (e ∷ es) = elim (Entity.try_from_events (e ∷ es)) [
  | some w ↦ ok w
  | none ↦ err hydration_failed
]

module _ {Db : Type 0} (d : Database Db) where
  unfoldable pub find_session : Db → PsbtSessionId → Result PsbtSession FindError
  find_session db id = found_session id (d.session_events db id)

  unfoldable pub find_wallet : Db → WalletId → Result Wallet FindError
  find_wallet db id = found_wallet id (d.wallet_events db id)

  -- `maybe_find_by_descriptor_fingerprint`
  unfoldable pub find_wallet_by_fingerprint :
      Db → DescriptorFingerprint → Result (Option Wallet) FindError
  unfolding find_wallet
  find_wallet_by_fingerprint db fingerprint = elim (d.by_fingerprint db fingerprint) [
    | none ↦ ok none
    | some id ↦ elim (find_wallet db id) [ ok w ↦ ok (some w) | err e ↦ err e ]
  ]

  -- One transaction, begun, filled and committed.
  abbrev pub committed :
      {E : Type 0} → (TransactionError → E) → Result Db TransactionError → Action (World Db) E Unit
  committed f (ok db') w = (ok tt, record w { db = db' })
  committed f (err why) w = (err (raised (f why)), w)

  unfoldable pub transact :
      {E : Type 0} → (TransactionError → E) → Transaction → Action (World Db) E Unit
  transact f t w = committed f (d.commit w.db t) w

abbrev pub write_session : PsbtSession → List JobConfig → Transaction
write_session s jobs = record {
  session = some (s.id, s.events);
  wallet = none;
  fingerprint = none;
  spawned = jobs;
}

abbrev pub write_wallet : Wallet → Transaction
write_wallet w = record {
  session = none;
  wallet = some (w.id, w.events);
  fingerprint = Entity.descriptor_fingerprint_of w;
  spawned = [];
}

-- `create_in_op` of a wallet, with the column as its accessor `NewWallet::descriptor_fingerprint`
-- gives it.
abbrev pub create_wallet : Entity.NewWallet → Transaction
create_wallet n = record {
  session = none;
  wallet = some (n.id, Entity.into_events n);
  fingerprint = Entity.new_descriptor_fingerprint n;
  spawned = [];
}
