-- ===== src/Session/Completion.antt =====
-- An open session can always be completed: any quorum of its policy can bring it to a final
-- transaction, whatever commands came before.
use kota.Base.{
  ◌≤◌, ◌≡◌, refl, sym, ap, subst, ◌∙◌, true, none, some, List, [], ◌∷◌, reverse, ok, executed,
  arith, length, any-append, all, contains, IsDistinct, nat_order, ◌==◌, ==_iff,
}
use kota.Primitives.{PsbtHash, KeyFingerprint, Txid}
use kota.EsEntity.{IdempotencyGuard, never, guard_loop-never}
use kota.Session.Types.{
  pending, finalized, SignatureRecord, NewPsbtSession, PsbtSessionEvent, psbt_created,
  signature_added, finalized_with, PsbtSession,
}
use kota.Session.Entity.{
  status, is_psbt_created, is_collecting, has_signed, finalization_record, record_psbt_created,
  add_signature, finalize,
}
use kota.Session.Hydrate.{try_from_events}
use kota.Session.Commands.{attach, sign, complete, execute, Reaches, here, next}
use kota.Session.Invariant.{IsSound, IsSound-of_hydrated, guard-signed_by, Reaches-IsSound}
use kota.Session.Lifecycle.{is_early, status-push, Reaches-IsPhased}
use kota.Session.Outcomes.{pending_no_psbt, unfinalized_no_event}
use kota.Session.Policy.{IsFinalizable, finalize_iff, Reaches-proposal}

-- The session collects signatures and holds its invariants.
record IsOpen (p : NewPsbtSession) (s : PsbtSession) : Type 0 where
  sound : IsSound s
  collects : is_collecting (status s) ≡ true
  unfinalized : s.finalization ≡ none
  same_proposal : s.proposal ≡ p

module _ (guard : IdempotencyGuard PsbtSessionEvent) where
  -- The quorum signs, one keystore after the other.
  abbrev pub sign_all :
      (KeyFingerprint → PsbtHash) → List KeyFingerprint → PsbtSession → PsbtSession
  sign_all blobs [] s = s
  sign_all blobs (k ∷ ks) s = sign_all blobs ks (execute guard (sign k (blobs k)) s)

  attach_collects :
      (s : PsbtSession) (h : PsbtHash)
      → is_early (status s) ≡ true
      → is_collecting (status (execute guard (attach h) s)) ≡ true
  unfolding execute record_psbt_created
  attach_collects s h e = ground (
    arith,
    status-push s.events (psbt_created h),
    pending_no_psbt (reverse s.events),
    guard.applied_lem is_psbt_created never (reverse s.events),
    guard_loop-never is_psbt_created (reverse s.events),
  )

  attach_unfinalized :
      (s : PsbtSession) (h : PsbtHash) → (execute guard (attach h) s).finalization ≡ s.finalization
  unfolding execute record_psbt_created
  attach_unfinalized s h = ground arith

  sign_keeps :
      (s : PsbtSession) (k : KeyFingerprint) (h : PsbtHash)
      → (status (execute guard (sign k h) s) ≡ status s)
        × ((execute guard (sign k h) s).finalization ≡ s.finalization)
  unfolding execute add_signature
  sign_keeps s k h = ground (
    arith,
    status-push s.events (signature_added (record { fingerprint = k; signed_psbt_hash = h })),
  )

  sign_signs :
      (p : NewPsbtSession) (s : PsbtSession) (k : KeyFingerprint) (h : PsbtHash)
      → IsOpen p s
      → contains p.keystores k ≡ true
      → has_signed (execute guard (sign k h) s) k ≡ true
  unfolding execute add_signature
  sign_signs p s k h o m = ground (
    arith,
    guard-signed_by guard s k o.sound.replays,
    any-append (λ (g : SignatureRecord). g.fingerprint == k) s.signatures
        (record { fingerprint = k; signed_psbt_hash = h } ∷ []),
    ap (λ (q : NewPsbtSession). contains q.keystores k) o.same_proposal,
    o.collects,
    ==_iff k k,
  )

  sign_kept :
      (s : PsbtSession) (k j : KeyFingerprint) (h : PsbtHash)
      → has_signed s j ≡ true
      → has_signed (execute guard (sign k h) s) j ≡ true
  unfolding execute add_signature
  sign_kept s k j h e = ground (
    arith,
    any-append (λ (g : SignatureRecord). g.fingerprint == j) s.signatures
        (record { fingerprint = k; signed_psbt_hash = h } ∷ []),
  )

  sign-IsOpen :
      (p : NewPsbtSession) (s : PsbtSession) (k : KeyFingerprint) (h : PsbtHash)
      → IsOpen p s
      → IsOpen p (execute guard (sign k h) s)
  sign-IsOpen p s k h o =
      let step : Reaches guard s (execute guard (sign k h) s) = next (sign k h) here in
      let kept = sign_keeps s k h in
      record {
        sound = Reaches-IsSound guard o.sound step;
        collects = ap is_collecting kept.0 ∙ o.collects;
        unfinalized = kept.1 ∙ o.unfinalized;
        same_proposal = Reaches-proposal guard step ∙ o.same_proposal;
      }

  module _ (blobs : KeyFingerprint → PsbtHash) where
    sign_all_kept :
        (ks : List KeyFingerprint) (s : PsbtSession) (j : KeyFingerprint)
        → has_signed s j ≡ true
        → has_signed (sign_all blobs ks s) j ≡ true
    sign_all_kept [] s j h = h
    sign_all_kept (k ∷ ks) s j h =
        sign_all_kept ks (execute guard (sign k (blobs k)) s) j (sign_kept s k j (blobs k) h)

    sign_all-IsOpen :
        (p : NewPsbtSession) (ks : List KeyFingerprint) (s : PsbtSession)
        → IsOpen p s
        → IsOpen p (sign_all blobs ks s)
    sign_all-IsOpen p [] s o = o
    sign_all-IsOpen p (k ∷ ks) s o =
        sign_all-IsOpen p ks (execute guard (sign k (blobs k)) s) (sign-IsOpen p s k (blobs k) o)

    sign_all_signs :
        (p : NewPsbtSession) (ks : List KeyFingerprint) (s : PsbtSession)
        → IsOpen p s
        → all (contains p.keystores) ks ≡ true
        → all (has_signed (sign_all blobs ks s)) ks ≡ true
    sign_all_signs p [] s o m = refl
    sign_all_signs p (k ∷ ks) s o m =
        let after = execute guard (sign k (blobs k)) s in
        ground (
          arith,
          sign_all_kept ks after k (sign_signs p s k (blobs k) o (ground arith)),
          sign_all_signs p ks after (sign-IsOpen p s k (blobs k) o),
        )

  complete_open :
      (p : NewPsbtSession) (s : PsbtSession) (ks : List KeyFingerprint) (t : Txid) (h : PsbtHash)
      → IsOpen p s
      → p.threshold ≤ length ks
      → IsDistinct ks
      → all (has_signed s) ks ≡ true
      → IsFinalizable s ks
  complete_open p s ks t h o n d a = record {
    first = unfinalized_no_event guard s o.sound.replays o.unfinalized;
    open_for_signatures = o.collects;
    enough = subst (λ (q : NewPsbtSession). q.threshold ≤ length ks) (sym o.same_proposal) n;
    distinct = d;
    collected = a;
  }

  completes :
      (s : PsbtSession) (ks : List KeyFingerprint) (t : Txid) (h : PsbtHash)
      → (finalize guard s t h ks).1 ≡ ok (executed t)
      → (status (execute guard (complete t h ks) s) ≡ finalized)
        × ((execute guard (complete t h ks) s).finalization ≡ some (finalization_record t h ks))
  unfolding execute finalize
  completes s ks t h e =
      ground (arith, status-push s.events (finalized_with (finalization_record t h ks)))

  -- Whatever commands a session that started pending and without a finalization has seen, while it
  -- is pending or collects signatures any quorum of its policy can complete it: once its PSBT is
  -- attached (again), distinct keystores of the policy, as many as the threshold or more, have all
  -- signed, and the final transaction is recorded with them, the session is finalized by exactly
  -- these keystores.
  pub Reaches_completes :
      (s t : PsbtSession)
      → try_from_events s.events ≡ ok s
      → status s ≡ pending
      → s.finalization ≡ none
      → Reaches guard s t
      → is_early (status t) ≡ true
      → (ks : List KeyFingerprint) → s.threshold ≤ length ks
      → IsDistinct ks
      → all (contains s.keystores) ks ≡ true
      → (unsigned final_hash : PsbtHash) (blobs : KeyFingerprint → PsbtHash) (txid : Txid)
      → (status (
            execute guard
              (complete txid final_hash ks)
              (sign_all blobs ks (execute guard (attach unsigned) t)))
          ≡ finalized)
        × ((execute guard
              (complete txid final_hash ks)
              (sign_all blobs ks (execute guard (attach unsigned) t))).finalization
            ≡ some (finalization_record txid final_hash ks))
  Reaches_completes s t h born blank r early ks n d m unsigned final_hash blobs txid =
      let start = execute guard (attach unsigned) t in
      let phased =
        Reaches-IsPhased guard {s = s}
          (record { unfinalized = λ e. blank; has_psbt = λ e. ground arith }) r in
      let opened : IsOpen s.proposal start = record {
        sound = Reaches-IsSound guard (IsSound-of_hydrated s h) (next (attach unsigned) r);
        collects = attach_collects t unsigned early;
        unfinalized = attach_unfinalized t unsigned ∙ phased.unfinalized early;
        same_proposal = Reaches-proposal guard (next (attach unsigned) r);
      } in
      let ready = sign_all blobs ks start in
      completes ready ks txid final_hash (
        (finalize_iff guard ready txid final_hash ks).1 (
          complete_open s.proposal ready ks txid final_hash
            (sign_all-IsOpen blobs s.proposal ks start opened) n d
            (sign_all_signs blobs s.proposal ks start opened m)))
