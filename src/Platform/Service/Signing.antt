-- ===== src/Platform/Service/Signing.antt =====
-- `submit_signed_psbt`: what is recorded for a signed upload, and the job queued with it.
use kota.Base.{
  ◌≡◌, refl, sym, subst, ap, ◌∙◌, true, Option, none, some, [], ◌∷◌, ◌++◌, Result, ok, err,
  Idempotent, executed, already_applied, any,
}
use kota.Base.Actions.{Ends, bind-Ends, weaken_post, lift, lift-Ends, or_raise, or_raise-Ends}
use kota.Primitives.{PsbtSessionId, WalletId, UserId, PsbtHash, KeyFingerprint}
use kota.Session.Types.{NewPsbtSession, PsbtSession}
use kota.Session.Entity.{Outcome, add_signature, has_signed}
use kota.Session.Commands.{sign, execute}
use kota.Session.Outcomes.{add_signature_sets, add_signature_applied}
use kota.Wallet.Types.{Wallet}
use kota.Wallet.Entity.{keystore_fingerprint_of}
use kota.Storage.Store.{Bytes, InMemoryBlobStore}
use kota.Platform.Database.{Transaction, finalization}
use kota.Platform.Repos.{World, found_session, find_session, find_wallet, transact}
use kota.Platform.Dispatch.{is_creation_of, IsDispatched-finalization}
use kota.Platform.Genuine.{execute-proposal, IsGenuine, IsGenuine-execute, IsGenuine-IsSound}
use kota.Platform.Consistent.{
  IsConsistent, commit-IsConsistent, transact-Ends, found_session-IsGenuine,
  found_session-IsDispatched,
}
use kota.Platform.Jobs.Types.{Services}
use kota.Platform.Jobs.Atomic.{Untouched, raised-ne-panicked}
use kota.Platform.Service.{
  CoordinationError, psbt_session_error, session_find, modify_failed, signer_not_bound,
  unsigned_psbt_not_ready, find_session_or, wallet_find, find_wallet_or, keep_signature,
  submit_signed_psbt,
}
use kota.Platform.Service.Upload.{IsUpload, accept_upload-Ends}
use kota.Platform.Service.Spends.{IsQueued, queue-Ends}

module _ {Db : Type 0} (sv : Services Db) (old : Db) where
  -- What a submission has recorded: the signature by the keystore that the stored wallet has
  -- for the user, over a blob that is the session's own unsigned document with the validated
  -- signatures of this keystore.
  pub record IsSigned (blobs : InMemoryBlobStore) (id : PsbtSessionId) (user : UserId)
      (upload : Bytes) (s : PsbtSession) : Type 0 where
    pub before : PsbtSession
    pub found : find_session sv.database old id ≡ ok before
    pub wallet : Wallet
    pub wallet_found : find_wallet sv.database old before.wallet_id ≡ ok wallet
    pub fingerprint : KeyFingerprint
    pub bound : keystore_fingerprint_of sv.miniscript wallet user ≡ some fingerprint
    pub unsigned_hash : PsbtHash
    pub attached : before.unsigned_psbt_hash ≡ some unsigned_hash
    pub merged_hash : PsbtHash
    pub accepted : IsUpload sv blobs unsigned_hash fingerprint upload merged_hash
    pub added : s ≡ (add_signature sv.session_guard before fingerprint merged_hash).0
    pub has_signed_now : has_signed s fingerprint ≡ true

  module _ (c : IsConsistent sv old) where
    sign-IsGenuine :
        (id : PsbtSessionId) (s : PsbtSession) (fp : KeyFingerprint) (h : PsbtHash)
        → IsGenuine sv.session_guard id s
        → IsGenuine sv.session_guard id (add_signature sv.session_guard s fp h).0
    unfolding execute
    sign-IsGenuine id s fp h g = IsGenuine-execute sv.session_guard id s g (sign fp h)

    -- The job that was spawned with the session.
    sign_dispatched :
        (id : PsbtSessionId) (s : PsbtSession) (fp : KeyFingerprint) (h : PsbtHash)
        → find_session sv.database old id ≡ ok s
        → any (is_creation_of (add_signature sv.session_guard s fp h).0.id) (sv.database.jobs old)
          ≡ true
    unfolding execute
    sign_dispatched id s fp h f =
        subst (λ (p : NewPsbtSession). any (is_creation_of p.id) (sv.database.jobs old) ≡ true)
          (sym (execute-proposal sv.session_guard (sign fp h) s))
          (found_session-IsDispatched sv old id s c f).creation

    -- A transaction that queues the finalization of a stored session, and writes no row.
    requeue-Ends :
        (id : PsbtSessionId) (s : PsbtSession) (w : World Db)
        → w.db ≡ old
        → find_session sv.database old id ≡ ok s
        → s.id ≡ id
        → Ends
            (λ done u. IsQueued sv old id s (finalization id ∷ []) u)
            (Untouched sv old)
            (transact sv.database modify_failed
              (record {
                session = none;
                wallet = none;
                fingerprint = none;
                spawned = finalization s.id ∷ [];
              })
              w)
    unfolding find_session
    requeue-Ends id s w e f i =
        let t : Transaction = record {
          session = none;
          wallet = none;
          fingerprint = none;
          spawned = finalization s.id ∷ [];
        } in
        transact-Ends sv (λ done u. IsQueued sv old id s (finalization id ∷ []) u)
          (Untouched sv old) modify_failed t w
          (λ db' h. (
            commit-IsConsistent sv w.db db' t (subst (IsConsistent sv) (sym e) c)
                (record { session_rows = tt; wallet_rows = tt }) h,
            subst (λ rows. found_session id rows ≡ ok s)
                (sym (
                  sv.database.session_events-commit w.db db' t id h
                  ∙ ap (λ db. sv.database.session_events db id) e))
                f,
            sv.database.jobs-commit w.db db' t h
                ∙ ap (λ db. sv.database.jobs db ++ finalization s.id ∷ []) e
                ∙ ap (λ n. sv.database.jobs old ++ finalization n ∷ []) i,
          ))
          (λ why. (e, raised-ne-panicked sv old (modify_failed why)))

    keep_signature-Ends :
        (id : PsbtSessionId) (o : Outcome Unit) (w : World Db)
        → w.db ≡ old
        → IsGenuine sv.session_guard id o.0
        → any (is_creation_of o.0.id) (sv.database.jobs old) ≡ true
        → (o.1 ≡ ok already_applied → find_session sv.database old id ≡ ok o.0)
        → Ends
            (λ s u.
              IsQueued sv old id s (finalization id ∷ []) u
              × (s ≡ o.0)
              × ((a : Idempotent Unit) × (o.1 ≡ ok a)))
            (Untouched sv old)
            (keep_signature sv o w)
    keep_signature-Ends id (s, err why) w e g d same = record {
      by = (e, raised-ne-panicked sv old (psbt_session_error why));
    }
    keep_signature-Ends id (s, ok already_applied) w e g d same =
        bind-Ends _ _ w _ _ _ (requeue-Ends id s w e (same refl) g.same_id)
          (λ done u k. record { by = (k, refl, (already_applied, refl)) })
    keep_signature-Ends id (s, ok (executed a)) w e g d same =
        bind-Ends _ _ w _ _ _
          (queue-Ends sv old c modify_failed id s (finalization s.id ∷ []) w e g
            (IsDispatched-finalization (sv.database.jobs old) s d))
          (λ done u k. record {
            by = (
              subst (λ n. IsQueued sv old id s (finalization n ∷ []) u) g.same_id k,
              refl,
              (executed a, refl),
            );
          })

    -- The steps before the upload read the state as it was.
    module _ (w : World Db) (e : w.db ≡ old) where
      unmoved : (u : World Db) → u ≡ w → u.db ≡ old
      unmoved u q = ap (λ (x : World Db). x.db) q ∙ e

      read-Ends :
          {A F : Type 0} (f : F → CoordinationError) (r : Result A F) (u : World Db)
          → u ≡ w
          → Ends (λ a t. (t ≡ w) × (r ≡ ok a)) (Untouched sv old) (lift f r u)
      read-Ends f r u q =
          lift-Ends (λ a t. (t ≡ w) × (r ≡ ok a)) (Untouched sv old) f r u (λ a h. (q, h))
            (λ why h. (unmoved u q, raised-ne-panicked sv old (f why)))

      require-Ends :
          {A : Type 0} (o : Option A) (x : CoordinationError) (u : World Db)
          → u ≡ w
          → Ends (λ a t. (t ≡ w) × (o ≡ some a)) (Untouched sv old) (or_raise o x u)
      require-Ends o x u q =
          or_raise-Ends (λ a t. (t ≡ w) × (o ≡ some a)) (Untouched sv old) o x u (λ a h. (q, h))
            (λ h. (unmoved u q, raised-ne-panicked sv old x))

      find_session-Ends :
          (id : PsbtSessionId) (u : World Db)
          → u ≡ w
          → Ends
              (λ s t. (t ≡ w) × (find_session sv.database old id ≡ ok s))
              (Untouched sv old)
              (find_session_or sv id u)
      unfolding find_session_or
      find_session-Ends id u q =
          subst
            (λ db.
              Ends (λ s t. (t ≡ w) × (find_session sv.database db id ≡ ok s)) (Untouched sv old)
                (lift session_find (find_session sv.database u.db id) u))
            (unmoved u q) (read-Ends session_find (find_session sv.database u.db id) u q)

      find_signer_wallet-Ends :
          (id : WalletId) (u : World Db)
          → u ≡ w
          → Ends
              (λ v t. (t ≡ w) × (find_wallet sv.database old id ≡ ok v))
              (Untouched sv old)
              (find_wallet_or sv id u)
      unfolding find_wallet_or
      find_signer_wallet-Ends id u q =
          subst
            (λ db.
              Ends (λ v t. (t ≡ w) × (find_wallet sv.database db id ≡ ok v)) (Untouched sv old)
                (lift wallet_find (find_wallet sv.database u.db id) u))
            (unmoved u q) (read-Ends wallet_find (find_wallet sv.database u.db id) u q)

      -- On a consistent database, a signed PSBT that is taken leaves the database consistent and
      -- the session stored as returned, with a signature by the keystore that the wallet records
      -- for this user, added (if the keystore had not signed yet) over the own unsigned document of
      -- the session with the signatures validated for this keystore; its finalization is queued in
      -- the same transaction. A submission that fails is an error, no panic, and leaves the
      -- database as it was.
      pub submit_signed_psbt-Ends :
          (id : PsbtSessionId) (user : UserId) (upload : Bytes)
          → Ends
              (λ s u.
                IsQueued sv old id s (finalization id ∷ []) u × IsSigned w.blobs id user upload s)
              (Untouched sv old)
              (submit_signed_psbt sv id user upload w)
      unfolding submit_signed_psbt
      submit_signed_psbt-Ends id user upload =
          bind-Ends _ _ w _ _ _ (find_session-Ends id w refl) (λ s u a.
            bind-Ends _ _ u _ _ _ (find_signer_wallet-Ends s.wallet_id u a.0) (λ v u b.
              bind-Ends _ _ u _ _ _
                (require-Ends (keystore_fingerprint_of sv.miniscript v user)
                  (signer_not_bound v.id user) u b.0)
                (λ fp u f.
                  bind-Ends _ _ u _ _ _
                    (require-Ends s.unsigned_psbt_hash (unsigned_psbt_not_ready id) u f.0)
                    (λ hash u h.
                      bind-Ends _ _ u _ _ _
                        (accept_upload-Ends sv old c hash fp upload u (unmoved u h.0))
                        (λ merged u m.
                          let g = found_session-IsGenuine sv old id s c a.1 in
                          weaken_post
                            (keep_signature sv (add_signature sv.session_guard s fp merged) u)
                            (λ r t k. (
                              k.0,
                              record {
                                before = s;
                                found = a.1;
                                wallet = v;
                                wallet_found = b.1;
                                fingerprint = fp;
                                bound = f.1;
                                unsigned_hash = hash;
                                attached = h.1;
                                merged_hash = merged;
                                accepted =
                                    subst
                                      (λ (x : World Db). IsUpload sv x.blobs hash fp upload merged)
                                      h.0 m.1;
                                added = k.1;
                                has_signed_now =
                                    subst (λ x. has_signed x fp ≡ true) (sym k.1)
                                      (add_signature_sets sv.session_guard s fp merged k.2.0
                                        (IsGenuine-IsSound sv.session_guard id s g).replays k.2.1);
                              },
                            ))
                            (keep_signature-Ends id (add_signature sv.session_guard s fp merged) u
                              m.0 (sign-IsGenuine id s fp merged g)
                              (sign_dispatched id s fp merged a.1)
                              (λ q.
                                subst (λ x. find_session sv.database old id ≡ ok x)
                                  (add_signature_applied sv.session_guard s fp merged q) a.1)))))))
