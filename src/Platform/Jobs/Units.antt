-- ===== src/Platform/Jobs/Units.antt =====
-- `apply_chain_observation`, jobs/mod.rs, and `run_psbt_creation` with its runner,
-- jobs/psbt_creation.rs.
use kota.Base.{not, Option, none, some, List, [], Result, ok, err, executed, already_applied}
use kota.Base.Actions.{Action, Failure, raised, pure, raise, or_raise, lift, raise_if, ◌>>=◌, ◌>>◌}
use kota.Primitives.{PsbtSessionId, PsbtHash}
use kota.Session.Types.{PsbtSession, OutPointRef, pending}
use kota.Session.Entity.{
  Outcome, status, is_pending, mark_broadcast_seen, confirm, invalidate, record_psbt_created,
}
use kota.Wallet.Types.{Wallet, invalid_address, amount_mismatch}
use kota.Wallet.Entity.{descriptor}
use kota.Wallet.Build.{FundingUtxo, build_unsigned_psbt}
use kota.Storage.Store.{Bytes, put}
use kota.Platform.Repos.{World, find_session, find_wallet, transact, write_session}
use kota.Platform.Jobs.Types.{
  JobsError, session_error, session_find, session_modify, wallet_find, wallet_error,
  wallet_not_active, unexpected_status, ChainObservation, broadcast_of, confirmed_of,
  invalidated_of, Services, Job,
}

-- `FundingUtxoProvider::funding_utxos`, with what the chain backend answers at this time.
abbrev pub FundingUtxoProvider : Type 0
FundingUtxoProvider = Wallet → List OutPointRef → Result (List FundingUtxo) JobsError

-- `JobCompletion::Complete`, or the error on which the executor retries.
pub data Completion : Type 0 where
  complete : Completion
  retry : Failure JobsError → Completion

module _ {Db : Type 0} (sv : Services Db) where
  -- `blobs.put(..)`
  unfoldable pub put_blob : {E : Type 0} → Bytes → Action (World Db) E PsbtHash
  put_blob bytes w = (
    ok (put sv.digest_of bytes w.blobs).1,
    record w { blobs = (put sv.digest_of bytes w.blobs).0 },
  )

  -- `find_by_id(session_id).await?`
  abbrev pub session_of : PsbtSessionId → Job Db PsbtSession
  session_of id w = lift session_find (find_session sv.database w.db id) w

  abbrev pub save : PsbtSession → Job Db Unit
  save s = transact sv.database session_modify (write_session s [])

  -- `sessions.update` behind `did_execute()`.
  abbrev pub save_executed : {A : Type 0} → Outcome A → Job Db Unit
  save_executed (s, err e) = raise (session_error e)
  save_executed (s, ok (executed a)) = save s
  save_executed (s, ok already_applied) = pure tt

  -- `sessions.update` whether or not the command executed.
  abbrev pub save_always : {A : Type 0} → Outcome A → Job Db Unit
  save_always (s, err e) = raise (session_error e)
  save_always (s, ok done) = save s

  unfoldable pub observe : ChainObservation → PsbtSession → Outcome Unit
  observe (broadcast_of txid) s = mark_broadcast_seen sv.session_guard s txid
  observe (confirmed_of txid height block_hash) s =
      confirm sv.session_guard s txid height block_hash
  observe (invalidated_of reason) s = invalidate sv.session_guard s reason

  unfoldable pub apply_chain_observation : PsbtSessionId → ChainObservation → Job Db Unit
  unfolding observe
  apply_chain_observation id observation = do
    session ← session_of id
    save_executed (observe observation session)

  -- The part of `run_psbt_creation` behind the status check.
  unfoldable pub create_psbt : FundingUtxoProvider → PsbtSession → Job Db PsbtHash
  unfolding put_blob
  create_psbt funding session = do
    wallet ← λ w. lift wallet_find (find_wallet sv.database w.db session.wallet_id) w
    utxos ← lift (λ e. e) (funding wallet session.inputs)
    d ← or_raise (descriptor wallet) (wallet_not_active wallet.id)
    psbt ← lift wallet_error (
        build_unsigned_psbt sv.builder d utxos
          (record {
            inputs = session.inputs;
            outputs = session.outputs;
            fee_sats = session.fee_sats;
            change_output = session.change_output;
          })
          sv.network)
    hash ← put_blob (sv.serialize_built psbt)
    save_always (record_psbt_created sv.session_guard session hash)
    pure hash

  abbrev pub create_unless :
      Option PsbtHash → FundingUtxoProvider → PsbtSessionId → PsbtSession → Job Db PsbtHash
  create_unless (some hash) funding id session = pure hash
  create_unless none funding id session = do
    raise_if (not (is_pending (status session))) (unexpected_status id (status session) pending)
    create_psbt funding session

  unfoldable pub run_psbt_creation : FundingUtxoProvider → PsbtSessionId → Job Db PsbtHash
  unfolding create_psbt
  run_psbt_creation funding id = do
    session ← session_of id
    create_unless session.unsigned_psbt_hash funding id session

-- The match of `PsbtCreationJobRunner::run`.
unfoldable pub creation_completion : Result PsbtHash (Failure JobsError) → Completion
creation_completion (ok hash) = complete
creation_completion (err (raised (unexpected_status id is expected))) = complete
creation_completion (err (raised (wallet_error (invalid_address why)))) = complete
creation_completion (err (raised (wallet_error (amount_mismatch i o f)))) = complete
creation_completion (err e) = retry e
