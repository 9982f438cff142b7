-- ===== src/Session/Types.antt =====
-- core/coordination/src/psbt_session/primitives.rs and error.rs, and the events and the entity of
-- psbt_session/entity.rs.
use kota.Base.{ℕ, Option, List}
use kota.Primitives.{
  PsbtSessionId, WalletId, UserId, PsbtHash, KeyFingerprint, Txid, BlockHash, Network,
  BitcoinAddress, Text, WalletStatus,
}

pub data PsbtSessionStatus : Type 0 where
  pending collecting finalized broadcast confirmed invalidated cancelled : PsbtSessionStatus

pub data InvalidationReason : Type 0 where
  reorged inputs_spent_externally replaced_by_fee_bump mempool_evicted : InvalidationReason

pub record OutPointRef : Type 0 where
  pub txid : Txid
  pub vout : ℕ  -- u32

pub record SpendOutput : Type 0 where
  pub address : BitcoinAddress
  pub amount_sats : ℕ  -- u64

pub record ChangeOutput : Type 0 where
  pub amount_sats : ℕ  -- u64
  pub derivation_index : ℕ  -- u32

pub record SignatureRecord : Type 0 where
  pub fingerprint : KeyFingerprint
  pub signed_psbt_hash : PsbtHash

pub record FinalizationRecord : Type 0 where
  pub txid : Txid
  pub final_tx_hash : PsbtHash
  pub sigs_used : List KeyFingerprint

-- What a session is created with; the fields of the `Initialized` event are the same nine.
pub record NewPsbtSession : Type 0 where
  pub id : PsbtSessionId
  pub wallet_id : WalletId
  pub proposed_by : UserId
  pub inputs : List OutPointRef
  pub outputs : List SpendOutput
  pub fee_sats : ℕ  -- u64
  pub change_output : Option ChangeOutput
  pub threshold : ℕ  -- u32
  pub keystores : List KeyFingerprint

pub data PsbtSessionEvent : Type 0 where
  initialized : NewPsbtSession → PsbtSessionEvent
  psbt_created : PsbtHash → PsbtSessionEvent
  signature_added : SignatureRecord → PsbtSessionEvent
  finalized_with : FinalizationRecord → PsbtSessionEvent
  broadcast_seen : Txid → PsbtSessionEvent
  confirmed_at : Txid → ℕ → BlockHash → PsbtSessionEvent
  invalidated_by : InvalidationReason → PsbtSessionEvent
  cancelled_by : UserId → Text → PsbtSessionEvent

-- The fields set by `Initialized` stand in `proposal`; no command writes them. `events` is what
-- `iter_all` yields, the oldest first.
pub record PsbtSession : Type 0 where
  pub proposal : NewPsbtSession
  pub open proposal use *
  pub unsigned_psbt_hash : Option PsbtHash
  pub signatures : List SignatureRecord
  pub finalization : Option FinalizationRecord
  pub events : List PsbtSessionEvent

-- The errors that the entity itself returns; those of the repository are not among them.
pub data PsbtSessionError : Type 0 where
  wallet_not_active : WalletId → WalletStatus → PsbtSessionError
  not_collecting : PsbtSessionId → PsbtSessionError
  unknown_keystore : KeyFingerprint → PsbtSessionError
  empty_inputs : PsbtSessionError
  empty_outputs : PsbtSessionError
  duplicate_input : Txid → ℕ → PsbtSessionError
  fee_exceeds_max : ℕ → ℕ → PsbtSessionError
  invalid_address : Network → Text → PsbtSessionError
  dust_output : ℕ → ℕ → PsbtSessionError
  too_many_inputs : ℕ → ℕ → PsbtSessionError
  too_many_outputs : ℕ → ℕ → PsbtSessionError
  cannot_attach_psbt : PsbtSessionId → PsbtSessionStatus → PsbtSessionError
  threshold_not_met : ℕ → ℕ → PsbtSessionError
  sigs_used_not_collected : PsbtSessionError
  duplicate_sigs_used : PsbtSessionError
  not_finalized : PsbtSessionId → PsbtSessionError
  txid_mismatch : PsbtSessionError
  cannot_cancel : PsbtSessionId → PsbtSessionStatus → PsbtSessionError
  cannot_invalidate : PsbtSessionId → PsbtSessionStatus → PsbtSessionError
