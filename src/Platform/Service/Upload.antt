-- ===== src/Platform/Service/Upload.antt =====
-- The checks of a signed upload in `submit_signed_psbt`, up to the blob that is stored for it.
use kota.Base.{◌≡◌, sym, subst, ap, ◌∙◌, some, List, ok, arith}
use kota.Base.Actions.{Ends, bind-Ends, weaken_post, or_panic-Ends, or_panic}
use kota.Primitives.{PsbtHash, KeyFingerprint}
use kota.Psbt.Types.{Psbt, ExtractedSignature}
use kota.Psbt.Validate.{
  parse_psbt, validate_signed_submission, merge_partial_sigs, verify_merged_blob,
}
use kota.Psbt.Merged.{merge_partial_sigs-verified}
use kota.Storage.Store.{Bytes, InMemoryBlobStore, fetch_verified}
use kota.Platform.Repos.{World}
use kota.Platform.Consistent.{IsConsistent}
use kota.Platform.Jobs.Types.{Services}
use kota.Platform.Jobs.Atomic.{Untouched, Known, lift-Known, put_blob-Known}
use kota.Platform.Service.{CoordinationError, blob_fetch, psbt_validation, accept_upload}

module _ {Db : Type 0} (sv : Services Db) where
  -- The blob `merged_hash` that is stored for an upload: the stored original document, with the
  -- signatures that were validated for the keystore.
  pub record IsUpload (blobs : InMemoryBlobStore) (unsigned_hash : PsbtHash) (fp : KeyFingerprint)
      (upload : Bytes) (merged_hash : PsbtHash) : Type 0 where
    pub bytes : Bytes
    pub fetched : fetch_verified sv.digest_of blobs unsigned_hash ≡ ok bytes
    pub original : Psbt
    pub parsed : parse_psbt sv.crypto bytes ≡ ok original
    pub signed : Psbt
    pub upload_parsed : parse_psbt sv.crypto upload ≡ ok signed
    pub extracted : List ExtractedSignature
    pub validated : validate_signed_submission sv.crypto original signed fp ≡ ok extracted
    pub merged : Psbt
    pub merged_of : merge_partial_sigs original extracted ≡ some merged
    pub verified : verify_merged_blob sv.crypto original merged ≡ ok tt
    pub digest : merged_hash ≡ sv.digest_of (sv.serialize_psbt merged)

  module _ (old : Db) (c : IsConsistent sv old) where
    pub accept_upload-Ends :
        (unsigned_hash : PsbtHash) (fp : KeyFingerprint) (upload : Bytes) (w : World Db)
        → w.db ≡ old
        → Ends
            (Known sv old (IsUpload w.blobs unsigned_hash fp upload))
            (Untouched sv old)
            (accept_upload sv unsigned_hash fp upload w)
    unfolding accept_upload
    accept_upload-Ends unsigned_hash fp upload w e =
        bind-Ends _ _ w _ _ _
          (lift-Known sv old c blob_fetch (fetch_verified sv.digest_of w.blobs unsigned_hash) w e)
          (λ bytes u k.
            bind-Ends _ _ u _ _ _
              (lift-Known sv old c psbt_validation (parse_psbt sv.crypto bytes) u k.0)
              (λ original u p.
                bind-Ends _ _ u _ _ _
                  (lift-Known sv old c psbt_validation (parse_psbt sv.crypto upload) u p.0)
                  (λ signed u q.
                    bind-Ends _ _ u _ _ _
                      (lift-Known sv old c psbt_validation
                        (validate_signed_submission sv.crypto original signed fp) u q.0)
                      (λ xs u x.
                        let m = merge_partial_sigs-verified sv.crypto original signed fp xs x.1 in
                        bind-Ends _ _ u _ _ _ (merged_ends original xs m.0 m.1 u x.0) (λ merged u y.
                          weaken_post _
                            (λ h t z. (
                              z.0,
                              record {
                                bytes = bytes;
                                fetched = k.1;
                                original = original;
                                parsed = p.1;
                                signed = signed;
                                upload_parsed = q.1;
                                extracted = xs;
                                validated = x.1;
                                merged = merged;
                                merged_of = m.1 ∙ ap some (sym y.1);
                                verified =
                                    subst (λ d. verify_merged_blob sv.crypto original d ≡ ok tt)
                                      (sym y.1) m.2;
                                digest = z.1;
                              },
                            ))
                            (put_blob-Known sv old c CoordinationError (sv.serialize_psbt merged) u
                              y.0))))))
      where
        merged_ends :
            (original : Psbt) (xs : List ExtractedSignature) (m : Psbt)
            → merge_partial_sigs original xs ≡ some m
            → (u : World Db) → u.db ≡ old
            → Ends
                (Known sv old (λ d. d ≡ m))
                (Untouched sv old)
                (or_panic {E = CoordinationError} (merge_partial_sigs original xs) u)
        merged_ends original xs m h u e =
            or_panic-Ends (Known sv old (λ d. d ≡ m)) (Untouched sv old)
              (merge_partial_sigs original xs) u (λ d q. (e, ground arith)) (λ q. cc)
