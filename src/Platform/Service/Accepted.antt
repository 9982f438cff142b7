-- ===== src/Platform/Service/Accepted.antt =====
-- The requests that the use cases do not refuse: if the transaction commits, they succeed.
use kota.Base.{
  ◌≡◌, refl, ap, subst, sym, ◌∙◌, Option, true, false, some, [], ◌∷◌, ok, executed, contains,
  nat_order,
}
use kota.Base.Actions.{◌>>=◌, or_raise, bind_step}
use kota.Primitives.{PsbtSessionId, WalletId, UserId, PsbtHash, KeyFingerprint}
use kota.Session.Types.{PsbtSession}
use kota.Session.Entity.{Outcome, status, is_collecting, has_signed, add_signature}
use kota.Session.After.{signed_session, add_signature_signs}
use kota.Session.Commands.{sign, execute}
use kota.Session.Propose.{SpendSpec, into_events}
use kota.Session.Proposal.{session_of, IsProposable, proposal_of, try_new_iff}
use kota.Wallet.Types.{Wallet}
use kota.Wallet.Entity.{keystore_fingerprint_of}
use kota.Storage.Store.{Bytes, put}
use kota.Platform.Database.{psbt_creation, finalization}
use kota.Platform.Repos.{World, find_session, find_wallet, transact, write_session}
use kota.Platform.Genuine.{IsGenuine-IsSound, found_of_rows}
use kota.Platform.Committed.{committed_command}
use kota.Platform.Consistent.{IsConsistent, found_session-IsGenuine}
use kota.Platform.Jobs.Types.{Services}
use kota.Platform.Jobs.Units.{put_blob}
use kota.Platform.Service.{
  CoordinationError, unsigned_psbt_not_ready, find_wallet_or, find_session_or, propose_spend,
  keep_signature, accept_upload, submit_signed_psbt,
}
use kota.Platform.Service.Spends.{proposal_hydrates}
use kota.Platform.Service.Upload.{IsUpload}

module _ {Db : Type 0} (sv : Services Db) (w : World Db) (c : IsConsistent sv w.db) where
  -- On a consistent database, a spend that is proposable on the stored wallet is proposed if the
  -- transaction commits: the session of the spend and of a snapshot of the policy is returned,
  -- committed together with the job that builds its PSBT. That the amounts of the spend balance is
  -- not among the conditions.
  pub propose_spend_accepted :
      (session_id : PsbtSessionId) (id : WalletId) (user : UserId) (spend : SpendSpec) (v : Wallet)
      (db' : Db)
      → find_wallet sv.database w.db id ≡ ok v
      → IsProposable sv.miniscript sv.bitcoin v spend
      → sv.database.commit w.db (
          write_session
            (session_of (proposal_of sv.miniscript sv.bitcoin session_id v user spend))
            (psbt_creation session_id ∷ []))
        ≡ ok db'
      → propose_spend sv session_id id user spend w ≡ (
        ok (session_of (proposal_of sv.miniscript sv.bitcoin session_id v user spend)),
        record w { db = db' },
      )
  unfolding propose_spend find_wallet_or transact ◌>>=◌
  propose_spend_accepted session_id id user spend v db' f i h =
      let p = proposal_of sv.miniscript sv.bitcoin session_id v user spend in
      let accepted = (try_new_iff sv.miniscript sv.bitcoin session_id v user spend).1 i in
      let found =
        found_of_rows session_id (session_of p) (into_events p)
          (proposal_hydrates sv w.db c session_id id v user spend p f accepted) in
      rw (f, accepted, found, h) refl

  accept_upload_accepted :
      (hash : PsbtHash) (fp : KeyFingerprint) (upload : Bytes) (merged_hash : PsbtHash)
      (u : IsUpload sv w.blobs hash fp upload merged_hash)
      → accept_upload sv hash fp upload w ≡ (
        ok merged_hash,
        record w { blobs = (put sv.digest_of (sv.serialize_psbt u.merged) w.blobs).0 },
      )
  unfolding accept_upload put_blob put ◌>>=◌
  accept_upload_accepted hash fp upload merged_hash u =
      rw (u.fetched, u.parsed, u.upload_parsed, u.validated, u.merged_of, u.digest) refl

  or_raise-some :
      {A : Type 0} (o : Option A) (x : CoordinationError) (a : A)
      → o ≡ some a
      → or_raise o x w ≡ (ok a, w)
  or_raise-some o x a h = rw h refl

  keep_signature_executed :
      (o : Outcome Unit) (t : World Db) (db' : Db)
      → o.1 ≡ ok (executed tt)
      → sv.database.commit t.db (write_session o.0 (finalization o.0.id ∷ [])) ≡ ok db'
      → keep_signature sv o t ≡ (ok o.0, record t { db = db' })
  unfolding transact ◌>>=◌
  keep_signature_executed (s, r) t db' h k = rw (h, k) refl

  -- On a consistent database, the first upload of a user whose keystore is of the policy of the
  -- session, while the session collects signatures, is recorded if its signatures are validated and
  -- the database commits: the merged document is stored, and the session with the signature of this
  -- keystore over its digest, added to the signatures and as a new last event and with all else
  -- unchanged, is committed together with the finalization job, returned, and found in the new
  -- database.
  pub submit_signed_psbt_accepted :
      (id : PsbtSessionId) (user : UserId) (upload : Bytes) (s : PsbtSession) (v : Wallet)
      (fp : KeyFingerprint) (hash merged_hash : PsbtHash) (db' : Db)
      → find_session sv.database w.db id ≡ ok s
      → find_wallet sv.database w.db s.wallet_id ≡ ok v
      → keystore_fingerprint_of sv.miniscript v user ≡ some fp
      → contains s.keystores fp ≡ true
      → has_signed s fp ≡ false
      → is_collecting (status s) ≡ true
      → s.unsigned_psbt_hash ≡ some hash
      → (u : IsUpload sv w.blobs hash fp upload merged_hash)
      → sv.database.commit w.db
          (write_session (signed_session s fp merged_hash) (finalization s.id ∷ []))
        ≡ ok db'
      → (submit_signed_psbt sv id user upload w ≡ (
        ok (signed_session s fp merged_hash),
        record { db = db'; blobs = (put sv.digest_of (sv.serialize_psbt u.merged) w.blobs).0 },
      ))
        × (find_session sv.database db' id ≡ ok (signed_session s fp merged_hash))
  unfolding submit_signed_psbt find_session_or find_wallet_or execute ◌>>=◌
  submit_signed_psbt_accepted id user upload s v fp hash merged_hash db' f g bound member new
        collects attached u h =
      let sound =
        IsGenuine-IsSound sv.session_guard id s (found_session-IsGenuine sv w.db id s c f) in
      let signs = add_signature_signs sv.session_guard s fp merged_hash sound new collects member in
      let t : World Db = record w {
        blobs = (put sv.digest_of (sv.serialize_psbt u.merged) w.blobs).0;
      } in
      let kept : keep_signature sv (add_signature sv.session_guard s fp merged_hash) t
          ≡ (ok (signed_session s fp merged_hash), record t { db = db' }) =
        subst
          (λ o.
            keep_signature sv o t ≡ (ok (signed_session s fp merged_hash), record t { db = db' }))
          (sym signs)
          (keep_signature_executed (signed_session s fp merged_hash, ok (executed tt)) t db' refl
            h) in
      (
        rw (f, g, bound)
            (bind_step (or_raise s.unsigned_psbt_hash (unsigned_psbt_not_ready id)) _ w w hash
                (or_raise-some s.unsigned_psbt_hash (unsigned_psbt_not_ready id) hash attached)
              ∙ bind_step (accept_upload sv hash fp upload) _ w t merged_hash
                  (accept_upload_accepted hash fp upload merged_hash u)
              ∙ kept),
        committed_command sv w.db db' (finalization s.id ∷ []) (sign fp merged_hash) id s
            (signed_session s fp merged_hash) c f (ap (λ o. o.0) signs) h,
      )
