-- ===== src/Platform/Jobs/Finishes.antt =====
-- A finalization that is not refused: the first prefix of the recorded signatures that finalizes.
use kota.Base.{
  ℕ, ◌≡◌, refl, ap, subst, sym, ◌∙◌, executed, true, Option, some, none, List, [], ◌∷◌, ◌++◌, ok,
}
use kota.Base.Actions.{◌>>=◌, bind_step, or_panic}
use kota.Primitives.{PsbtSessionId, PsbtHash, KeyFingerprint}
use kota.Session.Types.{PsbtSession, SignatureRecord, FinalizationRecord}
use kota.Session.Entity.{threshold_met, finalize}
use kota.Session.After.{final_session, finalize_records}
use kota.Session.Commands.{complete, execute}
use kota.Session.Policy.{IsFinalizable}
use kota.Psbt.Types.{PsbtInput, Psbt}
use kota.Psbt.Validate.{parse_psbt, verify_merged_blob}
use kota.Storage.Store.{Bytes, put, fetch_verified}
use kota.Platform.Committed.{committed_command}
use kota.Platform.Consistent.{IsConsistent}
use kota.Platform.Repos.{World, find_session, write_session}
use kota.Platform.Jobs.Types.{JobsError, Services}
use kota.Platform.Jobs.Units.{put_blob, save_always}
use kota.Platform.Jobs.Finalization.{
  absorb_inputs, load_psbt, record_final, absorb, finalize_loop, finalize_unless, run_finalization,
}
use kota.Platform.Jobs.Accepted.{save_always_executed}

module _ {Db : Type 0} (sv : Services Db) (w : World Db) where
  -- The stored blob is this document.
  pub record IsLoaded (hash : PsbtHash) (d : Psbt) : Type 0 where
    pub bytes : Bytes
    pub fetched : fetch_verified sv.digest_of w.blobs hash ≡ ok bytes
    pub parsed : parse_psbt sv.crypto bytes ≡ ok d

  -- A recorded blob that loads, verifies and merges into `own`.
  pub record IsMerged (unsigned : Psbt) (own : List PsbtInput) (r : SignatureRecord)
      (inputs : List PsbtInput) : Type 0 where
    pub signed : Psbt
    pub loaded : IsLoaded r.signed_psbt_hash signed
    pub verified : verify_merged_blob sv.crypto unsigned signed ≡ ok tt
    pub absorbed : absorb_inputs own signed.inputs ≡ some inputs

  -- `used` are the signers, behind `ks`, of the shortest prefix of the signatures that finalizes, to
  -- `p`.
  pub data Finishes (unsigned : Psbt) (p : ℕ) (used : List KeyFingerprint)
      : List PsbtInput → List KeyFingerprint → List SignatureRecord → Type 0 where
    last :
        {own : List PsbtInput} {ks : List KeyFingerprint} {r : SignatureRecord}
        {rs : List SignatureRecord} (inputs : List PsbtInput)
        → IsMerged unsigned own r inputs
        → sv.finalizer.try_finalize (record unsigned { inputs = inputs }) ≡ some p
        → ks ++ r.fingerprint ∷ [] ≡ used
        → Finishes unsigned p used own ks (r ∷ rs)
    more :
        {own : List PsbtInput} {ks : List KeyFingerprint} {r : SignatureRecord}
        {rs : List SignatureRecord} (inputs : List PsbtInput)
        → IsMerged unsigned own r inputs
        → sv.finalizer.try_finalize (record unsigned { inputs = inputs }) ≡ none
        → Finishes unsigned p used inputs (ks ++ r.fingerprint ∷ []) rs
        → Finishes unsigned p used own ks (r ∷ rs)

  or_panic-some :
      {A : Type 0} (o : Option A) (a : A) → o ≡ some a → or_panic {E = JobsError} o w ≡ (ok a, w)
  or_panic-some o a h = rw h refl

  load_psbt-IsLoaded :
      (hash : PsbtHash) (d : Psbt) → IsLoaded hash d → load_psbt sv hash w ≡ (ok d, w)
  unfolding load_psbt ◌>>=◌
  load_psbt-IsLoaded hash d l = rw (l.fetched, l.parsed) refl

  absorb-IsMerged :
      (unsigned : Psbt) (own : List PsbtInput) (r : SignatureRecord) (inputs : List PsbtInput)
      → IsMerged unsigned own r inputs
      → absorb sv unsigned (record unsigned { inputs = own }) r w
        ≡ (ok (record unsigned { inputs = inputs }), w)
  unfolding absorb ◌>>=◌
  absorb-IsMerged unsigned own r inputs m =
      rw (load_psbt-IsLoaded r.signed_psbt_hash m.signed m.loaded, m.verified, m.absorbed) refl

  module _ (s : PsbtSession) (p tx : ℕ) (used : List KeyFingerprint) (db' : Db)
      (extracted : sv.finalizer.extract_tx p ≡ some tx) (allowed : IsFinalizable s used)
      (committed : sv.database.commit w.db (
          write_session
            (final_session s
              (sv.finalizer.compute_txid tx)
              (sv.digest_of (sv.finalizer.serialize_tx tx))
              used)
            [])
        ≡ ok db') where
    -- What a run that finalizes returns, and where it leaves the platform.
    abbrev pub final_state : World Db
    final_state = record {
      db = db';
      blobs = (put sv.digest_of (sv.finalizer.serialize_tx tx) w.blobs).0;
    }

    record_final-allowed :
        record_final sv s used p w ≡ (ok (sv.finalizer.compute_txid tx), final_state)
    unfolding record_final put_blob put ◌>>=◌
    record_final-allowed =
        let hash = sv.digest_of (sv.finalizer.serialize_tx tx) in
        let txid = sv.finalizer.compute_txid tx in
        let stored : World Db = record w {
          blobs = (put sv.digest_of (sv.finalizer.serialize_tx tx) w.blobs).0;
        } in
        let saved : save_always sv (finalize sv.session_guard s txid hash used) stored
            ≡ (ok tt, final_state) =
          subst (λ o. save_always sv o stored ≡ (ok tt, final_state))
            (sym (finalize_records sv.session_guard s txid hash used allowed))
            (save_always_executed sv w (final_session s txid hash used, ok (executed txid)) stored
              db' txid refl committed) in
        rw (extracted, saved) refl

    finalize_loop-Finishes :
        (unsigned : Psbt) (own : List PsbtInput) (ks : List KeyFingerprint)
        (rs : List SignatureRecord)
        → Finishes unsigned p used own ks rs
        → finalize_loop sv s unsigned (record unsigned { inputs = own }) ks rs w
          ≡ (ok (sv.finalizer.compute_txid tx), final_state)
    unfolding finalize_loop ◌>>=◌
    finalize_loop-Finishes unsigned own ks [] x = elim x [ ]
    finalize_loop-Finishes unsigned own ks (r ∷ rs) (last inputs m h e) =
        rw (absorb-IsMerged unsigned own r inputs m, h, e) record_final-allowed
    finalize_loop-Finishes unsigned own ks (r ∷ rs) (more inputs m h f) =
        rw (absorb-IsMerged unsigned own r inputs m, h)
          (finalize_loop-Finishes unsigned inputs (ks ++ r.fingerprint ∷ []) rs f)

    finalize_unless-none :
        (id : PsbtSessionId) (hash : PsbtHash) (unsigned : Psbt) (o : Option FinalizationRecord)
        → o ≡ none
        → threshold_met s ≡ true
        → s.unsigned_psbt_hash ≡ some hash
        → IsLoaded hash unsigned
        → Finishes unsigned p used unsigned.inputs [] s.signatures
        → finalize_unless sv o id s w ≡ (ok (sv.finalizer.compute_txid tx), final_state)
    unfolding ◌>>=◌
    finalize_unless-none id hash unsigned o n t h l f =
        let open_now = allowed.open_for_signatures in
        rw (n, open_now, t)
          (bind_step (or_panic s.unsigned_psbt_hash) _ w w hash
              (or_panic-some s.unsigned_psbt_hash hash h)
            ∙ bind_step (load_psbt sv hash) _ w w unsigned (load_psbt-IsLoaded hash unsigned l)
            ∙ finalize_loop-Finishes unsigned unsigned.inputs [] s.signatures f)

    -- On a consistent database, if a stored session that was not finalized has reached its
    -- threshold, its unsigned document is loaded, the recorded blobs load, verify and merge up to
    -- the first one with which the document finalizes, the signers up to there are enough for
    -- finalize, the transaction is extracted and the database commits the session with a
    -- finalization by the id of the transaction, the digest of its bytes and these signers in
    -- order, in the field and as a new last event and with all else unchanged, then
    -- run_finalization returns this id, stores the bytes and ends with the new database, in which
    -- exactly this session is found.
    pub run_finalization_accepted :
        (c : IsConsistent sv w.db) (id : PsbtSessionId) (hash : PsbtHash) (unsigned : Psbt)
        → find_session sv.database w.db id ≡ ok s
        → s.finalization ≡ none
        → threshold_met s ≡ true
        → s.unsigned_psbt_hash ≡ some hash
        → IsLoaded hash unsigned
        → Finishes unsigned p used unsigned.inputs [] s.signatures
        → (run_finalization sv id w ≡ (ok (sv.finalizer.compute_txid tx), final_state))
          × (find_session sv.database db' id
              ≡ ok (
                  final_session s
                    (sv.finalizer.compute_txid tx)
                    (sv.digest_of (sv.finalizer.serialize_tx tx))
                    used))
    unfolding run_finalization execute ◌>>=◌
    run_finalization_accepted c id hash unsigned e n t h l f =
        let final_hash = sv.digest_of (sv.finalizer.serialize_tx tx) in
        let txid = sv.finalizer.compute_txid tx in
        (
          rw e (finalize_unless-none id hash unsigned s.finalization n t h l f),
          committed_command sv w.db db' [] (complete txid final_hash used) id s
              (final_session s txid final_hash used) c e
              (ap (λ o. o.0) (finalize_records sv.session_guard s txid final_hash used allowed))
              committed,
        )
