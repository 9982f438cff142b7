-- ===== src/Platform/Database.antt =====
-- What the repositories of core/coordination/src/psbt_session/repo.rs and wallet/repo.rs and the
-- job spawners take from es-entity, sqlx and the job crate: event rows, job rows and transactions.
use kota.Base.{ℕ, ◌≡◌, ◌≢◌, Option, none, some, List, ◌++◌, Result, ok, ◌==◌, if◌then◌else◌}
use kota.Primitives.{PsbtSessionId, WalletId, Text}
use kota.Session.Types.{PsbtSessionEvent}
use kota.Wallet.Types.{WalletEvent, DescriptorFingerprint}

-- `PsbtCreationJobConfig` and `FinalizationJobConfig`
pub data JobConfig : Type 0 where
  psbt_creation finalization : PsbtSessionId → JobConfig

-- What one transaction writes: the events of at most one entity of each kind, the column
-- `descriptor_fingerprint` of the wallet that it writes, and new jobs.
pub record Transaction : Type 0 where
  pub session : Option (PsbtSessionId × List PsbtSessionEvent)
  pub wallet : Option (WalletId × List WalletEvent)
  pub fingerprint : Option DescriptorFingerprint
  pub spawned : List JobConfig

-- Why a transaction failed: at the rows of an entity, at a job or at the transaction itself.
pub data TransactionError : Type 0 where
  rows_failed jobs_failed transaction_failed : Text → TransactionError

-- The rows of the entity `k` once a transaction has written.
abbrev pub rows_after : {E : Type 0} → Option (ℕ × List E) → ℕ → List E → List E
rows_after none k old = old
rows_after (some (id, es)) k old = if k == id then es else old

-- The column of the entity `k` once a transaction has written.
abbrev pub column_after : {E F : Type 0} → Option (ℕ × List E) → F → ℕ → F → F
column_after none value k old = old
column_after (some (id, es)) value k old = if k == id then value else old

-- An entity without rows is unknown. A transaction that fails, by a conflict or by a `UNIQUE`
-- column, leaves the database as it was; one that commits shows in every later query.
pub record Database (Db : Type 0) : Type 0 where
  pub session_events : Db → PsbtSessionId → List PsbtSessionEvent
  pub wallet_events : Db → WalletId → List WalletEvent
  pub fingerprint_column : Db → WalletId → Option DescriptorFingerprint
  -- the index of the column: the wallet whose column has the value
  pub by_fingerprint : Db → DescriptorFingerprint → Option WalletId
  pub jobs : Db → List JobConfig
  pub commit : Db → Transaction → Result Db TransactionError
  pub session_events-commit :
      (db db' : Db) (t : Transaction) (k : ℕ)
      → commit db t ≡ ok db'
      → session_events db' k ≡ rows_after t.session k (session_events db k)
  pub wallet_events-commit :
      (db db' : Db) (t : Transaction) (k : ℕ)
      → commit db t ≡ ok db'
      → wallet_events db' k ≡ rows_after t.wallet k (wallet_events db k)
  pub fingerprint_column-commit :
      (db db' : Db) (t : Transaction) (k : ℕ)
      → commit db t ≡ ok db'
      → fingerprint_column db' k ≡ column_after t.wallet t.fingerprint k (fingerprint_column db k)
  pub by_fingerprint_found :
      (db : Db) (fingerprint : DescriptorFingerprint) (id : WalletId)
      → by_fingerprint db fingerprint ≡ some id
      → fingerprint_column db id ≡ some fingerprint
  pub by_fingerprint_absent :
      (db : Db) (fingerprint : DescriptorFingerprint) (id : WalletId)
      → by_fingerprint db fingerprint ≡ none
      → fingerprint_column db id ≢ some fingerprint
  -- `descriptor_fingerprint VARCHAR UNIQUE` of the migration
  pub unique_fingerprint :
      (db : Db) (fingerprint : DescriptorFingerprint) (i j : WalletId)
      → fingerprint_column db i ≡ some fingerprint
      → fingerprint_column db j ≡ some fingerprint
      → i ≡ j
  pub jobs-commit :
      (db db' : Db) (t : Transaction) → commit db t ≡ ok db' → jobs db' ≡ jobs db ++ t.spawned
