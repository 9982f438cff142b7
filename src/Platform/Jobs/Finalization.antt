-- ===== src/Platform/Jobs/Finalization.antt =====
-- `run_finalization` with its runner, core/coordination/src/jobs/finalization.rs.
use kota.Base.{
  ℕ, not, Option, none, some, List, [], ◌∷◌, ◌++◌, Result, ok, err, is_empty, if◌then◌else◌,
}
use kota.Base.Actions.{
  Failure, raised, pure, raise, or_raise, or_panic, lift, raise_if, ◌>>=◌, ◌>>◌,
}
use kota.Primitives.{PsbtSessionId, PsbtHash, KeyFingerprint, Txid}
use kota.Session.Types.{PsbtSession, SignatureRecord, FinalizationRecord, collecting}
use kota.Session.Entity.{status, is_collecting, threshold_met, finalize}
use kota.Psbt.Types.{PartialSig, PsbtInput, Psbt, contains_key, insert_sig}
use kota.Psbt.Validate.{parse_psbt, verify_merged_blob}
use kota.Storage.Store.{fetch_verified}
use kota.Platform.Jobs.Types.{
  JobsError, psbt_error, blob_fetch, unexpected_status, threshold_not_met, cannot_finalize,
  Services, Job,
}
use kota.Platform.Jobs.Units.{Completion, complete, retry, put_blob, session_of, save_always}

-- `entry(pk).or_insert(sig)` for each signature of an input.
unfoldable pub absorb_sigs : List PartialSig → List PartialSig → List PartialSig
absorb_sigs own [] = own
absorb_sigs own (e ∷ es) =
    absorb_sigs (if contains_key e.pubkey own then own else insert_sig e.pubkey e.signature own) es

-- The loop over the inputs of a merged blob. A signature at an input that the combined document
-- does not have is a panic, `none` here.
unfoldable pub absorb_inputs : List PsbtInput → List PsbtInput → Option (List PsbtInput)
unfolding absorb_sigs
absorb_inputs own [] = some own
absorb_inputs [] (s ∷ ss) =
    let rest = absorb_inputs [] ss in if is_empty s.partial_sigs then rest else none
absorb_inputs (o ∷ os) (s ∷ ss) = elim (absorb_inputs os ss) [
  | none ↦ none
  | some rest ↦ some (record o { partial_sigs = absorb_sigs o.partial_sigs s.partial_sigs } ∷ rest)
]

module _ {Db : Type 0} (sv : Services Db) where
  unfoldable pub load_psbt : PsbtHash → Job Db Psbt
  load_psbt hash = do
    bytes ← λ w. lift blob_fetch (fetch_verified sv.digest_of w.blobs hash) w
    lift psbt_error (parse_psbt sv.crypto bytes)

  -- Behind a `finalize` of the combined document that succeeded.
  unfoldable pub record_final : PsbtSession → List KeyFingerprint → ℕ → Job Db Txid
  unfolding put_blob
  record_final session sigs_used final_psbt = do
    tx ← or_raise (sv.finalizer.extract_tx final_psbt) cannot_finalize
    final_tx_hash ← put_blob sv (sv.finalizer.serialize_tx tx)
    save_always sv
        (finalize sv.session_guard session (sv.finalizer.compute_txid tx) final_tx_hash sigs_used)
    pure (sv.finalizer.compute_txid tx)

  -- The checks and the merge of one recorded signature: the combined document after it.
  unfoldable pub absorb : Psbt → Psbt → SignatureRecord → Job Db Psbt
  unfolding load_psbt absorb_inputs
  absorb unsigned combined r = do
    signed ← load_psbt r.signed_psbt_hash
    lift psbt_error (verify_merged_blob sv.crypto unsigned signed)
    inputs ← or_panic (absorb_inputs combined.inputs signed.inputs)
    pure (record combined { inputs = inputs })

  -- The loop over the recorded signatures.
  unfoldable pub finalize_loop :
      PsbtSession → Psbt → Psbt → List KeyFingerprint → List SignatureRecord → Job Db Txid
  unfolding absorb record_final
  finalize_loop session unsigned combined sigs_used [] = raise cannot_finalize
  finalize_loop session unsigned combined sigs_used (r ∷ rs) = do
    combined' ← absorb unsigned combined r
    elim (sv.finalizer.try_finalize combined') [
      | some final_psbt ↦ record_final session (sigs_used ++ r.fingerprint ∷ []) final_psbt
      | none ↦ finalize_loop session unsigned combined' (sigs_used ++ r.fingerprint ∷ []) rs
    ]

  abbrev pub finalize_unless : Option FinalizationRecord → PsbtSessionId → PsbtSession → Job Db Txid
  finalize_unless (some f) id session = pure f.txid
  finalize_unless none id session = do
    raise_if (not (is_collecting (status session)))
        (unexpected_status id (status session) collecting)
    raise_if (not (threshold_met session)) (threshold_not_met id)
    unsigned_hash ← or_panic session.unsigned_psbt_hash
    unsigned ← load_psbt unsigned_hash
    finalize_loop session unsigned unsigned [] session.signatures

  unfoldable pub run_finalization : PsbtSessionId → Job Db Txid
  unfolding finalize_loop
  run_finalization id = do
    session ← session_of sv id
    finalize_unless session.finalization id session

-- The match of `FinalizationJobRunner::run`.
unfoldable pub finalization_completion : Result Txid (Failure JobsError) → Completion
finalization_completion (ok txid) = complete
finalization_completion (err (raised (threshold_not_met id))) = complete
finalization_completion (err (raised (unexpected_status id is expected))) = complete
finalization_completion (err e) = retry e
