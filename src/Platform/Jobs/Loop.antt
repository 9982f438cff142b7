-- ===== src/Platform/Jobs/Loop.antt =====
-- The loop of `run_finalization` over the recorded signatures, up to the recorded transaction.
use kota.Base.{ℕ, ◌≡◌, refl, sym, subst, true, Option, none, some, List, [], ◌∷◌, ◌++◌, ok, length}
use kota.Base.Actions.{Ends, bind-Ends, weaken_post, or_panic-Ends, or_panic, lift}
use kota.Primitives.{PsbtSessionId, PsbtHash, KeyFingerprint, Txid}
use kota.Session.Types.{PsbtSession, SignatureRecord, FinalizationRecord}
use kota.Session.Entity.{finalize, finalization_record}
use kota.Session.Commands.{complete, execute}
use kota.Session.Outcomes.{finalize_sets}
use kota.Psbt.Types.{PsbtInput, Psbt}
use kota.Psbt.Validate.{parse_psbt, verify_merged_blob}
use kota.Psbt.Merged.{are_known}
use kota.Psbt.Verified.{verify_merged_blob_sound}
use kota.Storage.Store.{Bytes, InMemoryBlobStore, fetch_verified}
use kota.Platform.Repos.{World, find_session}
use kota.Platform.Genuine.{IsGenuine-IsSound}
use kota.Platform.Consistent.{IsConsistent}
use kota.Platform.Jobs.Types.{JobsError, psbt_error, blob_fetch, cannot_finalize, Services, Job}
use kota.Platform.Jobs.Finalization.{absorb_inputs, load_psbt, record_final, absorb, finalize_loop}
use kota.Platform.Jobs.Atomic.{
  Untouched, IsOurs, execute-IsOurs, Known, raised-ne-panicked, save_always-Ends, lift-Known,
  or_raise-Known, put_blob-Known,
}
use kota.Platform.Jobs.Absorb.{absorb_inputs_known}

module _ {Db : Type 0} (sv : Services Db) where
  -- The final transaction comes from a document that differs from the unsigned one in signatures
  -- only, each of them verified against the unsigned document's sighash.
  pub record IsMade (unsigned : Psbt) (txid : Txid) : Type 0 where
    pub inputs : List PsbtInput
    pub only_verified : are_known sv.crypto unsigned 0 unsigned.inputs inputs ≡ true
    pub final_psbt : ℕ
    pub finalized :
        sv.finalizer.try_finalize (record unsigned { inputs = inputs }) ≡ some final_psbt
    pub tx : ℕ
    pub extracted : sv.finalizer.extract_tx final_psbt ≡ some tx
    pub computed : txid ≡ sv.finalizer.compute_txid tx

  -- The session is stored with a finalization by this transaction.
  abbrev pub IsFinalized : PsbtSessionId → Txid → World Db → Type 0
  IsFinalized id txid u =
      IsConsistent sv u.db
      × ((s : PsbtSession) × (f : FinalizationRecord) × (find_session sv.database u.db id ≡ ok s)
          × (s.finalization ≡ some f)
          × (f.txid ≡ txid))

  module _ (old : Db) (c : IsConsistent sv old) where
    complete-IsOurs :
        (id : PsbtSessionId) (s : PsbtSession) (t : Txid) (h : PsbtHash) (ks : List KeyFingerprint)
        → IsOurs sv old c id s
        → IsOurs sv old c id (finalize sv.session_guard s t h ks).0
    unfolding execute
    complete-IsOurs id s t h ks g = execute-IsOurs sv old c (complete t h ks) id s tt g

    -- The document that a digest stands for.
    abbrev pub IsDocument : InMemoryBlobStore → PsbtHash → Psbt → Type 0
    IsDocument blobs hash p =
        (bytes : Bytes) × (fetch_verified sv.digest_of blobs hash ≡ ok bytes)
        × (parse_psbt sv.crypto bytes ≡ ok p)

    pub load_psbt-Ends :
        (hash : PsbtHash) (w : World Db)
        → w.db ≡ old
        → Ends (Known sv old (IsDocument w.blobs hash)) (Untouched sv old) (load_psbt sv hash w)
    unfolding load_psbt
    load_psbt-Ends hash w e =
        bind-Ends _ _ w _ _ _
          (lift-Known sv old c blob_fetch (fetch_verified sv.digest_of w.blobs hash) w e)
          (λ bytes u k.
            weaken_post (lift psbt_error (parse_psbt sv.crypto bytes) u)
              (λ p t m. (m.0, (bytes, k.1, m.1)))
              (lift-Known sv old c psbt_error (parse_psbt sv.crypto bytes) u k.0))

    record_final-Ends :
        (id : PsbtSessionId) (s : PsbtSession) (ks : List KeyFingerprint) (final_psbt : ℕ)
        (w : World Db)
        → w.db ≡ old
        → IsOurs sv old c id s
        → s.finalization ≡ none
        → Ends
            (λ txid u.
              IsFinalized id txid u
              × ((tx : ℕ) × (sv.finalizer.extract_tx final_psbt ≡ some tx)
                  × (txid ≡ sv.finalizer.compute_txid tx)))
            (Untouched sv old)
            (record_final sv s ks final_psbt w)
    unfolding record_final
    record_final-Ends id s ks final_psbt w e g n =
        bind-Ends _ _ w _ _ _
          (or_raise-Known sv old c (sv.finalizer.extract_tx final_psbt) cannot_finalize w e)
          (λ tx u k.
            bind-Ends _ _ u _ _ _
              (put_blob-Known sv old c JobsError (sv.finalizer.serialize_tx tx) u k.0)
              (λ h v m.
                bind-Ends _ _ v _ _ _
                  (save_always-Ends sv old c id
                    (finalize sv.session_guard s (sv.finalizer.compute_txid tx) h ks) v m.0
                    (complete-IsOurs id s (sv.finalizer.compute_txid tx) h ks g))
                  (λ done t q. record {
                    by = (
                      (
                        q.0.0,
                        (
                          (finalize sv.session_guard s (sv.finalizer.compute_txid tx) h ks).0,
                          finalization_record (sv.finalizer.compute_txid tx) h ks,
                          q.0.1,
                          finalize_sets sv.session_guard s (sv.finalizer.compute_txid tx) h ks q.1.0
                              (IsGenuine-IsSound sv.session_guard id s g.genuine).replays n q.1.1,
                          refl,
                        ),
                      ),
                      (tx, k.1, refl),
                    );
                  })))

    -- A combined document with verified signatures only.
    abbrev IsCombined : Psbt → Psbt → Type 0
    IsCombined unsigned d =
        (is : List PsbtInput) × (d ≡ record unsigned { inputs = is })
        × (length is ≡ length unsigned.inputs)
        × (are_known sv.crypto unsigned 0 unsigned.inputs is ≡ true)

    some_same :
        (o : Option (List PsbtInput)) (a b : List PsbtInput) → o ≡ some a → o ≡ some b → a ≡ b
    some_same o a b h k = cc

    combine-Ends :
        (unsigned signed : Psbt) (own : List PsbtInput) (w : World Db)
        → w.db ≡ old
        → length own ≡ length unsigned.inputs
        → are_known sv.crypto unsigned 0 unsigned.inputs own ≡ true
        → verify_merged_blob sv.crypto unsigned signed ≡ ok tt
        → Ends
            (Known sv old (λ is. IsCombined unsigned (record unsigned { inputs = is })))
            (Untouched sv old)
            (or_panic {E = JobsError} (absorb_inputs own signed.inputs) w)
    combine-Ends unsigned signed own w e l k v =
        let blob = verify_merged_blob_sound sv.crypto unsigned signed v in
        let all =
          absorb_inputs_known sv.crypto unsigned 0 unsigned.inputs own signed.inputs l blob.0 k
            blob.1 in
        or_panic-Ends (Known sv old (λ is. IsCombined unsigned (record unsigned { inputs = is })))
          (Untouched sv old) (absorb_inputs own signed.inputs) w
          (λ is h.
            let same = some_same (absorb_inputs own signed.inputs) all.0 is all.1 h in
            (
              e,
              (
                is,
                refl,
                subst (λ (x : List PsbtInput). length x ≡ length unsigned.inputs) same all.2,
                subst (λ x. are_known sv.crypto unsigned 0 unsigned.inputs x ≡ true) same all.3,
              ),
            ))
          (λ h. cc)

    absorb-Ends :
        (unsigned : Psbt) (own : List PsbtInput) (r : SignatureRecord) (w : World Db)
        → w.db ≡ old
        → length own ≡ length unsigned.inputs
        → are_known sv.crypto unsigned 0 unsigned.inputs own ≡ true
        → Ends
            (Known sv old (IsCombined unsigned))
            (Untouched sv old)
            (absorb sv unsigned (record unsigned { inputs = own }) r w)
    unfolding absorb
    absorb-Ends unsigned own r w e l known =
        bind-Ends _ _ w _ _ _ (load_psbt-Ends r.signed_psbt_hash w e) (λ signed u k.
          bind-Ends _ _ u _ _ _
            (lift-Known sv old c psbt_error (verify_merged_blob sv.crypto unsigned signed) u k.0)
            (λ done v m.
              bind-Ends _ _ v _ _ _ (combine-Ends unsigned signed own v m.0 l known m.1)
                (λ is t q. record { by = q })))

    module _ (id : PsbtSessionId) (s : PsbtSession) (g : IsOurs sv old c id s)
        (n : s.finalization ≡ none) (unsigned : Psbt) where
      abbrev pub Done : Txid → World Db → Type 0
      Done txid u = IsFinalized id txid u × IsMade unsigned txid

      finish-Ends :
          (is : List PsbtInput) (ks : List KeyFingerprint) (rest : Job Db Txid) (w : World Db)
          (o : Option ℕ)
          → w.db ≡ old
          → are_known sv.crypto unsigned 0 unsigned.inputs is ≡ true
          → sv.finalizer.try_finalize (record unsigned { inputs = is }) ≡ o
          → Ends Done (Untouched sv old) (rest w)
          → Ends Done (Untouched sv old) (
              elim o as (λ x. Job Db Txid) [
                | some final_psbt ↦ record_final sv s ks final_psbt
                | none ↦ rest
              ]
                w)
      finish-Ends is ks rest w none e k h ih = ih
      finish-Ends is ks rest w (some final_psbt) e k h ih =
          weaken_post (record_final sv s ks final_psbt w)
            (λ txid u m. (
              m.0,
              record {
                inputs = is;
                only_verified = k;
                final_psbt = final_psbt;
                finalized = h;
                tx = m.1.0;
                extracted = m.1.1;
                computed = m.1.2;
              },
            ))
            (record_final-Ends id s ks final_psbt w e g n)

      pub finalize_loop-Ends :
          (own : List PsbtInput) (ks : List KeyFingerprint) (rs : List SignatureRecord)
          (w : World Db)
          → w.db ≡ old
          → length own ≡ length unsigned.inputs
          → are_known sv.crypto unsigned 0 unsigned.inputs own ≡ true
          → Ends Done
              (Untouched sv old)
              (finalize_loop sv s unsigned (record unsigned { inputs = own }) ks rs w)
      unfolding finalize_loop
      finalize_loop-Ends own ks [] w e l known = record {
        by = (e, raised-ne-panicked sv old cannot_finalize);
      }
      finalize_loop-Ends own ks (r ∷ rs) w e l known =
          bind-Ends _ _ w _ _ _ (absorb-Ends unsigned own r w e l known) (λ d u k.
            subst
              (λ x. Ends Done (Untouched sv old) (
                elim (sv.finalizer.try_finalize x) as (λ o. Job Db Txid) [
                  | some final_psbt ↦ record_final sv s (ks ++ r.fingerprint ∷ []) final_psbt
                  | none ↦ finalize_loop sv s unsigned x (ks ++ r.fingerprint ∷ []) rs
                ]
                  u))
              (sym k.1.1)
              (finish-Ends k.1.0 (ks ++ r.fingerprint ∷ [])
                (finalize_loop sv s unsigned (record unsigned { inputs = k.1.0 })
                  (ks ++ r.fingerprint ∷ []) rs)
                u (sv.finalizer.try_finalize (record unsigned { inputs = k.1.0 })) k.0 k.1.3 refl
                (finalize_loop-Ends k.1.0 (ks ++ r.fingerprint ∷ []) rs u k.0 k.1.2 k.1.3)))
