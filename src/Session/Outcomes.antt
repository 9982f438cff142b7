-- ===== src/Session/Outcomes.antt =====
-- What the commands of the jobs leave in the session when they do not fail.
use kota.Base.{
  ◌≡◌, refl, ap, true, false, ◌||◌, none, some, List, [], ◌∷◌, reverse, ok, arith, any, Idempotent,
  already_applied, any-append, ◌==◌,
}
use kota.Primitives.{PsbtHash, KeyFingerprint, Txid}
use kota.EsEntity.{IdempotencyGuard, never, guard_loop-never, any-reverse}
use kota.Session.Types.{SignatureRecord, PsbtSessionEvent, PsbtSession}
use kota.Session.Invariant.{guard-signed_by}
use kota.Session.Entity.{
  latest_status, status, is_pending, is_psbt_created, is_finalized_event, finalization_record,
  record_psbt_created, finalize, has_signed, add_signature,
}
use kota.Session.Hydrate.{SessionBuilder, empty_builder, apply_event, replay}
use kota.Session.Replay.{IsReplayed}
use kota.Session.Lifecycle.{is_recorded}

-- A pending session has no `PsbtCreated`.
pub pending_no_psbt :
    (es : List PsbtSessionEvent)
    → is_pending (latest_status es) ≡ true
    → any is_psbt_created es ≡ false
pending_no_psbt [] h = refl
pending_no_psbt (e ∷ es) h = ground (arith, pending_no_psbt es)

-- A `Finalized` event sets the finalization for good.
finalized-replay :
    (b : SessionBuilder) (es : List PsbtSessionEvent)
    → is_recorded (replay b es).finalization
      ≡ (is_recorded b.finalization || any is_finalized_event es)
finalized-replay b [] = ground arith
finalized-replay b (e ∷ es) = ground (arith, finalized-replay (apply_event b e) es)

module _ (guard : IdempotencyGuard PsbtSessionEvent) where
  -- In a pending session, `record_psbt_created` sets the hash.
  pub record_psbt_created_sets :
      (s : PsbtSession) (h : PsbtHash)
      → is_pending (status s) ≡ true
      → (record_psbt_created guard s h).0.unsigned_psbt_hash ≡ some h
  unfolding record_psbt_created
  record_psbt_created_sets s h p = ground (
    arith,
    pending_no_psbt (reverse s.events),
    guard.applied_lem is_psbt_created never (reverse s.events),
    guard_loop-never is_psbt_created (reverse s.events),
  )

  pub unfinalized_no_event :
      (s : PsbtSession)
      → IsReplayed s
      → s.finalization ≡ none
      → any is_finalized_event s.events ≡ false
  unfinalized_no_event s r h =
      let e : is_recorded (replay empty_builder s.events).finalization
          ≡ is_recorded s.finalization =
        ap (λ (b : SessionBuilder). is_recorded b.finalization) r.replayed in
      ground (arith, finalized-replay empty_builder s.events)

  -- Where no finalization is recorded, a `finalize` that does not fail records its own.
  pub finalize_sets :
      (s : PsbtSession) (t : Txid) (h : PsbtHash) (ks : List KeyFingerprint) (a : Idempotent Txid)
      → IsReplayed s
      → s.finalization ≡ none
      → (finalize guard s t h ks).1 ≡ ok a
      → (finalize guard s t h ks).0.finalization ≡ some (finalization_record t h ks)
  unfolding finalize
  finalize_sets s t h ks a r n k = ground (
    arith,
    unfinalized_no_event s r n,
    guard.applied_lem is_finalized_event never (reverse s.events),
    guard_loop-never is_finalized_event (reverse s.events),
    any-reverse is_finalized_event s.events,
  )

  -- After an `add_signature` that does not fail, the keystore has signed.
  pub add_signature_sets :
      (s : PsbtSession) (fp : KeyFingerprint) (h : PsbtHash) (a : Idempotent (Unit {0}))
      → IsReplayed s
      → (add_signature guard s fp h).1 ≡ ok a
      → has_signed (add_signature guard s fp h).0 fp ≡ true
  unfolding add_signature
  add_signature_sets s fp h a r q = ground (
    arith,
    guard-signed_by guard s fp r,
    any-append (λ (g : SignatureRecord). g.fingerprint == fp) s.signatures
        (record { fingerprint = fp; signed_psbt_hash = h } ∷ []),
  )

  -- An `add_signature` that was already applied leaves the session alone.
  pub add_signature_applied :
      (s : PsbtSession) (fp : KeyFingerprint) (h : PsbtHash)
      → (add_signature guard s fp h).1 ≡ ok already_applied
      → s ≡ (add_signature guard s fp h).0
  unfolding add_signature
  add_signature_applied s fp h q = ground arith
