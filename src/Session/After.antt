-- ===== src/Session/After.antt =====
-- The sessions that the commands of the use cases and jobs leave, written out field by field and
-- without the commands.
use kota.Base.{
  ◌≡◌, true, false, some, [], ◌∷◌, ◌++◌, List, reverse, ok, executed, arith, contains, nat_order,
}
use kota.Base.Sort.{sort, length-dedup-sort_iff, dedup-sort_of_IsDistinct, all-sort}
use kota.Primitives.{PsbtHash, KeyFingerprint, Txid}
use kota.EsEntity.{IdempotencyGuard, never, guard_loop-never, any-reverse}
use kota.Session.Types.{
  PsbtSessionEvent, psbt_created, signature_added, finalized_with, PsbtSession,
}
use kota.Session.Entity.{
  status, is_pending, is_collecting, has_signed, is_psbt_created, is_finalized_event,
  record_psbt_created, add_signature, finalize,
}
use kota.Session.Policy.{IsFinalizable}
use kota.Session.Invariant.{IsSound, guard-signed_by}
use kota.Session.Outcomes.{pending_no_psbt}

-- The session with its unsigned document.
abbrev pub attached_session : PsbtSession → PsbtHash → PsbtSession
attached_session s hash = record s {
  unsigned_psbt_hash = some hash;
  events = s.events ++ psbt_created hash ∷ [];
}

-- The session with one signature more.
abbrev pub signed_session : PsbtSession → KeyFingerprint → PsbtHash → PsbtSession
signed_session s fp hash = record s {
  signatures = s.signatures ++ record { fingerprint = fp; signed_psbt_hash = hash } ∷ [];
  events = s.events ++ signature_added (record { fingerprint = fp; signed_psbt_hash = hash }) ∷ [];
}

-- The session with its final transaction, and the signers in order.
abbrev pub final_session : PsbtSession → Txid → PsbtHash → List KeyFingerprint → PsbtSession
final_session s t hash ks = record s {
  finalization = some (record { txid = t; final_tx_hash = hash; sigs_used = sort ks });
  events =
      s.events
      ++ finalized_with (record { txid = t; final_tx_hash = hash; sigs_used = sort ks }) ∷ [];
}

module _ (guard : IdempotencyGuard PsbtSessionEvent) where
  -- On a pending session, `record_psbt_created` executes, and attaches the document.
  pub record_psbt_created_attaches :
      (s : PsbtSession) (h : PsbtHash)
      → is_pending (status s) ≡ true
      → record_psbt_created guard s h ≡ (attached_session s h, ok (executed tt))
  unfolding record_psbt_created
  record_psbt_created_attaches s h p = ground (
    arith,
    pending_no_psbt (reverse s.events),
    guard.applied_lem is_psbt_created never (reverse s.events),
    guard_loop-never is_psbt_created (reverse s.events),
  )

  -- While signatures are collected, `add_signature` executes for a keystore of the policy that has
  -- not signed, and adds its signature.
  pub add_signature_signs :
      (s : PsbtSession) (fp : KeyFingerprint) (h : PsbtHash)
      → IsSound s
      → has_signed s fp ≡ false
      → is_collecting (status s) ≡ true
      → contains s.keystores fp ≡ true
      → add_signature guard s fp h ≡ (signed_session s fp h, ok (executed tt))
  unfolding add_signature
  add_signature_signs s fp h i n o c = ground (arith, guard-signed_by guard s fp i.replays)

  -- With signers that are enough, `finalize` executes, and records the transaction.
  pub finalize_records :
      (s : PsbtSession) (t : Txid) (h : PsbtHash) (ks : List KeyFingerprint)
      → IsFinalizable s ks
      → finalize guard s t h ks ≡ (final_session s t h ks, ok (executed t))
  unfolding finalize
  finalize_records s t h ks i = rw (dedup-sort_of_IsDistinct ks i.distinct) (
      ground (
        arith,
        i,
        guard.applied_lem is_finalized_event never (reverse s.events),
        guard_loop-never is_finalized_event (reverse s.events),
        any-reverse is_finalized_event s.events,
        length-dedup-sort_iff ks,
        dedup-sort_of_IsDistinct ks,
        all-sort (has_signed s) ks,
      ))
