-- ===== src/Platform/Jobs/Types.antt =====
-- The errors of core/coordination/src/jobs/mod.rs, and the crates that the jobs and the
-- application service run on.
use kota.Base.{ℕ, Option}
use kota.Base.Actions.{Action}
use kota.Primitives.{PsbtSessionId, WalletId, PsbtHash, Txid, BlockHash, Network, Text}
use kota.EsEntity.{IdempotencyGuard}
use kota.Session.Types.{PsbtSessionStatus, InvalidationReason, PsbtSessionEvent, PsbtSessionError}
use kota.Session.Propose.{Bitcoin}
use kota.Wallet.Types.{Miniscript, WalletEvent, WalletError}
use kota.Wallet.Build.{PsbtBuilder}
use kota.Psbt.Types.{Psbt, Crypto, PsbtValidationError}
use kota.Storage.Store.{Bytes, BlobFetchError}
use kota.Platform.Database.{TransactionError, Database}
use kota.Platform.Repos.{FindError, World}

pub data JobsError : Type 0 where
  session_error : PsbtSessionError → JobsError
  session_find : FindError → JobsError
  session_modify : TransactionError → JobsError
  wallet_find : FindError → JobsError
  wallet_error : WalletError → JobsError
  psbt_error : PsbtValidationError → JobsError
  funding_error : Text → JobsError
  wallet_not_active : WalletId → JobsError
  blob_fetch : BlobFetchError → JobsError
  unexpected_status : PsbtSessionId → PsbtSessionStatus → PsbtSessionStatus → JobsError
  threshold_not_met : PsbtSessionId → JobsError
  cannot_finalize : JobsError

-- What chain sync observes about a session's transaction.
pub data ChainObservation : Type 0 where
  broadcast_of : Txid → ChainObservation
  confirmed_of : Txid → ℕ → BlockHash → ChainObservation
  invalidated_of : InvalidationReason → ChainObservation

-- miniscript's `finalize` on a clone (`none` where it fails), `extract_tx`, the transaction's id
-- and its consensus encoding. Final documents and transactions are numbers.
pub record Finalizer : Type 0 where
  pub try_finalize : Psbt → Option ℕ
  pub extract_tx : ℕ → Option ℕ
  pub compute_txid : ℕ → Txid
  pub serialize_tx : ℕ → Bytes

-- The crates behind the jobs and the service, with the network of the configuration.
pub record Services (Db : Type 0) : Type 0 where
  pub database : Database Db
  pub session_guard : IdempotencyGuard PsbtSessionEvent
  pub wallet_guard : IdempotencyGuard WalletEvent
  pub miniscript : Miniscript
  pub bitcoin : Bitcoin
  pub builder : PsbtBuilder
  pub crypto : Crypto
  pub finalizer : Finalizer
  pub digest_of : Bytes → PsbtHash
  -- `Psbt::serialize`, of documents read back and of a document just built
  pub serialize_psbt : Psbt → Bytes
  pub serialize_built : ℕ → Bytes
  pub network : Network

abbrev pub Job : Type 0 → Type 0 → Type 0
Job Db A = Action (World Db) JobsError A
