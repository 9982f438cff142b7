-- ===== src/Platform/Jobs/Final.antt =====
-- What a finalization that returns leaves behind, and that none panics.
use kota.Base.{
  ◌≡◌, ◌≢◌, refl, sym, ap, subst, ◌∙◌, Bool, true, false, not, Option, none, some, [], ok, arith,
}
use kota.Base.Actions.{
  Ends, bind-Ends, weaken_post, or_panic-Ends, or_panic, raise_if, lift-Ends, raise_if-Ends,
}
use kota.Primitives.{PsbtSessionId, PsbtHash, Txid}
use kota.Session.Types.{PsbtSession, FinalizationRecord, collecting}
use kota.Session.Entity.{status, is_collecting, threshold_met}
use kota.Session.Lifecycle.{is_recorded}
use kota.Psbt.Types.{Psbt}
use kota.Psbt.Validate.{parse_psbt}
use kota.Psbt.Merged.{known_own}
use kota.Storage.Store.{Bytes, InMemoryBlobStore, fetch_verified}
use kota.Platform.Repos.{World, find_session}
use kota.Platform.Genuine.{IsGenuine, IsGenuine-IsPhased}
use kota.Platform.Consistent.{IsConsistent}
use kota.Platform.Jobs.Types.{
  JobsError, unexpected_status, threshold_not_met, Services, session_find,
}
use kota.Platform.Jobs.Finalization.{finalize_loop, finalize_unless, run_finalization}
use kota.Platform.Jobs.Atomic.{Untouched, found-IsOurs, raised-ne-panicked}
use kota.Platform.Jobs.Loop.{IsMade, IsFinalized, load_psbt-Ends, finalize_loop-Ends}

module _ {Db : Type 0} (sv : Services Db) where
  -- Where the transaction that a run returns comes from: the one recorded before, or a document
  -- made of the session's unsigned PSBT, fetched and parsed.
  abbrev pub Origin : Option FinalizationRecord → PsbtSession → InMemoryBlobStore → Txid → Type 0
  Origin (some f) s blobs txid = f.txid ≡ txid
  Origin none s blobs txid =
      (hash : PsbtHash) × (bytes : Bytes) × (unsigned : Psbt) × (s.unsigned_psbt_hash ≡ some hash)
      × (fetch_verified sv.digest_of blobs hash ≡ ok bytes)
      × (parse_psbt sv.crypto bytes ≡ ok unsigned)
      × IsMade sv unsigned txid

  raise_if_same :
      (old : Db) (w : World Db)
      → w.db ≡ old
      → (u : World Db) → u ≡ w
      → (b : Bool) (e : JobsError)
      → Ends (λ done v. (v ≡ w) × (b ≡ false)) (Untouched sv old) (raise_if b e u)
  raise_if_same old w d u q b e =
      raise_if-Ends (λ done v. (v ≡ w) × (b ≡ false)) (Untouched sv old) b e u (λ h. (q, h))
        (λ h. (ap (λ (x : World Db). x.db) q ∙ d, raised-ne-panicked sv old e))

  -- A collecting session has its unsigned PSBT, so `expect` does not panic.
  hash-Ends :
      (id : PsbtSessionId) (w : World Db) (s : PsbtSession)
      → IsGenuine sv.session_guard id s
      → (u : World Db) → u ≡ w
      → is_collecting (status s) ≡ true
      → Ends
          (λ hash v. (v ≡ w) × (s.unsigned_psbt_hash ≡ some hash))
          (Untouched sv w.db)
          (or_panic {E = JobsError} s.unsigned_psbt_hash u)
  hash-Ends id w s g u q h =
      or_panic-Ends (λ hash v. (v ≡ w) × (s.unsigned_psbt_hash ≡ some hash)) (Untouched sv w.db)
        s.unsigned_psbt_hash u (λ hash e. (q, e))
        (recorded-ne-none s.unsigned_psbt_hash
          ((IsGenuine-IsPhased sv.session_guard id s g).has_psbt h))
    where
      recorded-ne-none : (o : Option PsbtHash) → is_recorded o ≡ true → o ≢ none
      recorded-ne-none none h q = cc
      recorded-ne-none (some x) h q = cc

  finalize_unless-Ends :
      (id : PsbtSessionId) (w : World Db) (c : IsConsistent sv w.db) (s : PsbtSession)
      → find_session sv.database w.db id ≡ ok s
      → (o : Option FinalizationRecord) → s.finalization ≡ o
      → Ends
          (λ txid u. IsFinalized sv id txid u × Origin o s w.blobs txid)
          (Untouched sv w.db)
          (finalize_unless sv o id s w)
  finalize_unless-Ends id w c s found (some f) q = record {
    by = ((c, (s, f, found, q, refl)), refl);
  }
  finalize_unless-Ends id w c s found none q =
      let ours = found-IsOurs sv w.db c id s found in
      bind-Ends _ _ w _ _ _
        (raise_if_same w.db w refl w refl (not (is_collecting (status s)))
          (unexpected_status id (status s) collecting))
        (λ done u k.
          bind-Ends _ _ u _ _ _
            (raise_if_same w.db w refl u k.0 (not (threshold_met s)) (threshold_not_met id))
            (λ done v m.
              bind-Ends _ _ v _ _ _ (hash-Ends id w s ours.genuine v m.0 (ground (arith, k.1)))
                (λ hash t p.
                  bind-Ends _ _ t _ _ _
                    (load_psbt-Ends sv w.db c hash t (ap (λ (x : World Db). x.db) p.0))
                    (λ unsigned r n.
                      weaken_post (finalize_loop sv s unsigned unsigned [] s.signatures r)
                        (λ txid x d. (
                          d.0,
                          (
                            hash,
                            n.1.0,
                            unsigned,
                            p.1,
                            subst (λ b. fetch_verified sv.digest_of b hash ≡ ok n.1.0)
                                (ap (λ (x : World Db). x.blobs) p.0) n.1.1,
                            n.1.2,
                            d.1,
                          ),
                        ))
                        (finalize_loop-Ends sv w.db c id s ours q unsigned unsigned.inputs []
                          s.signatures r n.0 refl
                          (known_own sv.crypto unsigned 0 unsigned.inputs))))))

  -- On a consistent database, a run of the finalization job that returns a transaction id leaves
  -- the stored session finalized with it, and the database consistent, whether it is the first run
  -- or a retry; the id is the recorded one if there was one, and else that of a transaction made of
  -- the unsigned PSBT of the session and verified signatures only. A run that fails is no panic and
  -- leaves the database as it was.
  pub run_finalization-Ends :
      (id : PsbtSessionId) (w : World Db)
      → IsConsistent sv w.db
      → Ends
          (λ txid u.
            IsFinalized sv id txid u
            × ((s : PsbtSession) × (find_session sv.database w.db id ≡ ok s)
                × Origin s.finalization s w.blobs txid))
          (Untouched sv w.db)
          (run_finalization sv id w)
  unfolding run_finalization
  run_finalization-Ends id w c =
      bind-Ends _ _ w _ _ _
        (lift-Ends (λ s u. (u ≡ w) × (find_session sv.database w.db id ≡ ok s)) (Untouched sv w.db)
          session_find (find_session sv.database w.db id) w (λ s h. (refl, h))
          (λ why h. (refl, raised-ne-panicked sv w.db (session_find why))))
        (λ s u k.
          subst
            (λ x.
              Ends
                (λ txid t.
                  IsFinalized sv id txid t
                  × ((s : PsbtSession) × (find_session sv.database w.db id ≡ ok s)
                      × Origin s.finalization s w.blobs txid))
                (Untouched sv w.db) (finalize_unless sv s.finalization id s x))
            (sym k.0)
            (weaken_post (finalize_unless sv s.finalization id s w)
              (λ txid t m. (m.0, (s, k.1, m.1)))
              (finalize_unless-Ends id w c s k.1 s.finalization refl)))
