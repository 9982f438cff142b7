-- ===== src/Platform/Service.antt =====
-- The use cases of `Coordination`, src/kota/app/src/lib.rs, and their errors, error.rs. A step
-- of a transaction fails with the error of the crate that runs it.
pub mod Wallets
pub mod Import
pub mod Reimport
pub mod Spends
pub mod Registration
pub mod Upload
pub mod Signing
pub mod Accepted
use kota.Base.{
  ℕ, Option, none, some, List, [], ◌∷◌, Result, ok, err, executed, already_applied, ◌==◌,
  if◌then◌else◌,
}
use kota.Base.Actions.{Action, Failure, pure, raise, or_raise, or_panic, lift, ◌>>=◌, ◌>>◌}
use kota.Primitives.{PsbtSessionId, WalletId, UserId, PsbtHash, KeyFingerprint, Text}
use kota.Session.Types.{PsbtSession, PsbtSessionError}
use kota.Session.Entity.{Outcome, add_signature}
use kota.Session.Propose.{SpendSpec, try_new, into_events}
use kota.Wallet.Types.{DescriptorPublicKey, Wallet, WalletError, DescriptorFingerprint}
use kota.Wallet.Entity
use kota.Wallet.Entity.{
  NewWallet, new, add_keystore, remove_keystore, cancel, keystore_fingerprint_of,
  descriptor_fingerprint_of,
}
use kota.Psbt.Types.{PsbtValidationError}
use kota.Psbt.Validate.{parse_psbt, validate_signed_submission, merge_partial_sigs}
use kota.Storage.Store.{Bytes, BlobFetchError, fetch_verified}
use kota.Platform.Database.{
  TransactionError, rows_failed, jobs_failed, transaction_failed, psbt_creation, finalization,
}
use kota.Platform.Repos.{
  FindError, World, found_session, found_wallet, find_session, find_wallet,
  find_wallet_by_fingerprint, transact, write_wallet, create_wallet,
}
use kota.Platform.Jobs.Types.{Services}
use kota.Platform.Jobs.Units.{put_blob}

-- `WalletCreateError` and `PsbtSessionCreateError`
pub data CreateError : Type 0 where
  not_written : TransactionError → CreateError
  not_hydrated : FindError → CreateError

pub data CoordinationError : Type 0 where
  sqlx_error : Text → CoordinationError
  job_error : Text → CoordinationError
  wallet_error : WalletError → CoordinationError
  psbt_session_error : PsbtSessionError → CoordinationError
  psbt_validation : PsbtValidationError → CoordinationError
  wallet_create : CreateError → CoordinationError
  wallet_find : FindError → CoordinationError
  wallet_query : FindError → CoordinationError
  wallet_modify : TransactionError → CoordinationError
  session_create : CreateError → CoordinationError
  session_find : FindError → CoordinationError
  session_modify : TransactionError → CoordinationError
  signer_not_bound : WalletId → UserId → CoordinationError
  unsigned_psbt_not_ready : PsbtSessionId → CoordinationError
  blob_fetch : BlobFetchError → CoordinationError

-- The error of `propose_spend` at each step of its transaction.
abbrev pub create_failed : TransactionError → CoordinationError
create_failed (rows_failed why) = session_create (not_written (rows_failed why))
create_failed (jobs_failed why) = job_error why
create_failed (transaction_failed why) = sqlx_error why

-- The error of `submit_signed_psbt` at each step of its transaction.
abbrev pub modify_failed : TransactionError → CoordinationError
modify_failed (rows_failed why) = session_modify (rows_failed why)
modify_failed (jobs_failed why) = job_error why
modify_failed (transaction_failed why) = sqlx_error why

abbrev pub UseCase : Type 0 → Type 0 → Type 0
UseCase Db A = Action (World Db) CoordinationError A

module _ {Db : Type 0} (sv : Services Db) where
  unfoldable pub find_wallet_or : WalletId → UseCase Db Wallet
  find_wallet_or id w = lift wallet_find (find_wallet sv.database w.db id) w

  unfoldable pub find_session_or : PsbtSessionId → UseCase Db PsbtSession
  find_session_or id w = lift session_find (find_session sv.database w.db id) w

  -- `wallets.update(..)`
  abbrev pub update_wallet : Wallet → UseCase Db Unit
  update_wallet v = transact sv.database wallet_modify (write_wallet v)

  -- The new rows, and the entity that they hydrate to.
  unfoldable pub register_wallet : WalletId → ℕ → List UserId → UseCase Db Wallet
  register_wallet id threshold participants = do
    n ← lift wallet_error (new id sv.network threshold participants)
    wallet ← lift (λ e. wallet_create (not_hydrated e)) (found_wallet n.id (Entity.into_events n))
    transact sv.database (λ e. wallet_create (not_written e)) (create_wallet n)
    pure wallet

  -- The collision that `resolve_fingerprint_collision` looks for: another wallet that was found.
  abbrev pub existing_wallet : WalletId → Result (Option Wallet) FindError → Option Wallet
  existing_wallet id (err e) = none
  existing_wallet id (ok none) = none
  existing_wallet id (ok (some existing)) = if existing.id == id then none else some existing

  abbrev pub collision : Db → WalletId → Option DescriptorFingerprint → Option Wallet
  collision db id none = none
  collision db id (some fingerprint) =
      existing_wallet id (find_wallet_by_fingerprint sv.database db fingerprint)

  unfoldable pub resolve_fingerprint_collision :
      Wallet → Failure CoordinationError → UseCase Db Wallet
  resolve_fingerprint_collision v e w = elim (collision w.db v.id (descriptor_fingerprint_of v)) [
    | some existing ↦ (ok existing, w)
    | none ↦ (err e, w)
  ]

  abbrev pub or_resolved :
      Wallet → Result (Unit {0}) (Failure CoordinationError) → UseCase Db Wallet
  or_resolved v (ok done) = pure v
  or_resolved v (err e) = resolve_fingerprint_collision v e

  -- `wallets.update(..)`, and what follows where it fails.
  abbrev pub update_or_resolve : Wallet → UseCase Db Wallet
  update_or_resolve v w = or_resolved v (update_wallet v w).0 (update_wallet v w).1

  -- What `submit_keystore` does with the outcome of `add_keystore`.
  abbrev pub keep_submission : Entity.Outcome → UseCase Db Wallet
  keep_submission (v, err e) = raise (wallet_error e)
  keep_submission (v, ok already_applied) = pure v
  keep_submission (v, ok (executed a)) = update_or_resolve v

  unfoldable pub submit_keystore : WalletId → UserId → DescriptorPublicKey → UseCase Db Wallet
  unfolding find_wallet_or resolve_fingerprint_collision
  submit_keystore id submitted_by keystore = do
    wallet ← find_wallet_or id
    keep_submission (add_keystore sv.miniscript wallet keystore submitted_by)

  abbrev pub keep_wallet : Entity.Outcome → UseCase Db Wallet
  keep_wallet (v, err e) = raise (wallet_error e)
  keep_wallet (v, ok already_applied) = pure v
  keep_wallet (v, ok (executed a)) = update_wallet v >> pure v

  unfoldable pub remove_keystore_of : WalletId → UserId → UserId → UseCase Db Wallet
  unfolding find_wallet_or
  remove_keystore_of id participant removed_by = do
    wallet ← find_wallet_or id
    keep_wallet (remove_keystore wallet participant removed_by)

  unfoldable pub cancel_wallet : WalletId → UserId → Text → UseCase Db Wallet
  unfolding find_wallet_or
  cancel_wallet id cancelled_by reason = do
    wallet ← find_wallet_or id
    keep_wallet (cancel sv.wallet_guard wallet cancelled_by reason)

  -- The session's events and the creation job commit together.
  unfoldable pub propose_spend :
      PsbtSessionId → WalletId → UserId → SpendSpec → UseCase Db PsbtSession
  unfolding find_wallet_or
  propose_spend session_id id proposed_by spend = do
    wallet ← find_wallet_or id
    p ←
        lift psbt_session_error
          (try_new sv.miniscript sv.bitcoin session_id wallet proposed_by spend)
    session ← lift (λ e. session_create (not_hydrated e)) (found_session p.id (into_events p))
    transact sv.database create_failed (record {
      session = some (p.id, into_events p);
      wallet = none;
      fingerprint = none;
      spawned = psbt_creation session.id ∷ [];
    })
    pure session

  unfoldable pub unsigned_psbt : PsbtSessionId → UseCase Db Bytes
  unfolding find_session_or
  unsigned_psbt id = do
    session ← find_session_or id
    hash ← or_raise session.unsigned_psbt_hash (unsigned_psbt_not_ready id)
    λ w. lift blob_fetch (fetch_verified sv.digest_of w.blobs hash) w

  -- The transaction of `submit_signed_psbt`: the signature if it executed, and the job always.
  abbrev pub keep_signature : Outcome Unit → UseCase Db PsbtSession
  keep_signature (s, err e) = raise (psbt_session_error e)
  keep_signature (s, ok already_applied) = do
    transact sv.database modify_failed (record {
      session = none;
      wallet = none;
      fingerprint = none;
      spawned = finalization s.id ∷ [];
    })
    pure s
  keep_signature (s, ok (executed a)) = do
    transact sv.database modify_failed (record {
      session = some (s.id, s.events);
      wallet = none;
      fingerprint = none;
      spawned = finalization s.id ∷ [];
    })
    pure s

  -- The checks of an upload against the stored original: the blob that is stored for it.
  unfoldable pub accept_upload : PsbtHash → KeyFingerprint → Bytes → UseCase Db PsbtHash
  unfolding put_blob
  accept_upload unsigned_hash fingerprint signed_psbt = do
    bytes ← λ w. lift blob_fetch (fetch_verified sv.digest_of w.blobs unsigned_hash) w
    original ← lift psbt_validation (parse_psbt sv.crypto bytes)
    signed ← lift psbt_validation (parse_psbt sv.crypto signed_psbt)
    extracted ←
        lift psbt_validation (validate_signed_submission sv.crypto original signed fingerprint)
    merged ← or_panic (merge_partial_sigs original extracted)
    put_blob sv (sv.serialize_psbt merged)

  unfoldable pub submit_signed_psbt : PsbtSessionId → UserId → Bytes → UseCase Db PsbtSession
  unfolding find_session_or find_wallet_or accept_upload
  submit_signed_psbt id submitted_by signed_psbt = do
    session ← find_session_or id
    wallet ← find_wallet_or session.wallet_id
    fingerprint ←
        or_raise (keystore_fingerprint_of sv.miniscript wallet submitted_by)
          (signer_not_bound wallet.id submitted_by)
    unsigned_hash ← or_raise session.unsigned_psbt_hash (unsigned_psbt_not_ready id)
    merged_hash ← accept_upload unsigned_hash fingerprint signed_psbt
    keep_signature (add_signature sv.session_guard session fingerprint merged_hash)

  unfoldable pub maybe_find_wallet_by_descriptor_fingerprint :
      DescriptorFingerprint → UseCase Db (Option Wallet)
  maybe_find_wallet_by_descriptor_fingerprint fingerprint w =
      lift wallet_query (find_wallet_by_fingerprint sv.database w.db fingerprint) w
