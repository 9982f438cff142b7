-- ===== src/Session/Policy.antt =====
-- The signing policy: what `finalize` and `add_signature` accept, and whose signatures a final
-- transaction can rest on.
use kota.Base.{
  ◌≤◌, ◌≡◌, refl, subst, ◌∙◌, ◌↔◌, true, false, some, List, [], ◌∷◌, reverse, ok, executed, arith,
  length, any, all, all_weaken, contains, IsDistinct, nat_order,
}
use kota.Base.Sort.{length-dedup-sort_iff, dedup-sort_of_IsDistinct, all-sort}
use kota.Primitives.{PsbtHash, KeyFingerprint, Txid}
use kota.EsEntity.{IdempotencyGuard, never, guard_loop-never, any-reverse}
use kota.Session.Types.{
  SignatureRecord, FinalizationRecord, NewPsbtSession, PsbtSessionEvent, PsbtSession,
}
use kota.Session.Entity.{
  status, is_collecting, signed_by, has_signed, is_finalized_event, record_psbt_created,
  add_signature, finalize, mark_broadcast_seen, mark_broadcast_seen_from, confirm, confirm_from,
  invalidate, cancel,
}
use kota.Session.Hydrate.{try_from_events}
use kota.Session.WellFormed.{signers, IsAuthorized}
use kota.Session.Commands.{
  Command, attach, sign, complete, see, confirm_tx, reverse_tx, abandon, execute, Reaches, here,
  next,
}
use kota.Session.Invariant.{IsSound, IsSound-of_hydrated, guard-signed_by, Reaches-IsSound}

-- A collected signature is by a keystore of the policy.
signed_by-contains :
    (ks : List KeyFingerprint) (gs : List SignatureRecord)
    → all (contains ks) (signers gs) ≡ true
    → (fp : KeyFingerprint) → signed_by gs fp ≡ true
    → contains ks fp ≡ true
signed_by-contains ks [] h fp s = cc
signed_by-contains ks (g ∷ gs) h fp s = ground (arith, signed_by-contains ks gs (ground arith) fp)

-- What `finalize` lets through, in words of its own.
pub record IsFinalizable (s : PsbtSession) (ks : List KeyFingerprint) : Type 0 where
  pub first : any is_finalized_event s.events ≡ false
  pub open_for_signatures : is_collecting (status s) ≡ true
  pub enough : s.threshold ≤ length ks
  pub distinct : IsDistinct ks
  pub collected : all (has_signed s) ks ≡ true

module _ (guard : IdempotencyGuard PsbtSessionEvent) where
  -- `finalize` executes exactly when the session collects signatures, was never finalized, and
  -- the given keystores reach the threshold, are distinct and have all signed.
  pub finalize_iff :
      (s : PsbtSession) (t : Txid) (h : PsbtHash) (ks : List KeyFingerprint)
      → ((finalize guard s t h ks).1 ≡ ok (executed t)) ↔ IsFinalizable s ks
  unfolding finalize
  finalize_iff s t h ks = ground (
    arith,
    guard.applied_lem is_finalized_event never (reverse s.events),
    guard_loop-never is_finalized_event (reverse s.events),
    any-reverse is_finalized_event s.events,
    length-dedup-sort_iff ks,
    dedup-sort_of_IsDistinct ks,
    all-sort (has_signed s) ks,
  )

  -- `add_signature` executes exactly for a keystore of the policy that has not signed yet, while
  -- the session collects signatures.
  pub add_signature_iff :
      (s : PsbtSession) (fp : KeyFingerprint) (h : PsbtHash)
      → IsSound s
      → ((add_signature guard s fp h).1 ≡ ok (executed tt)) ↔ (
          (has_signed s fp ≡ false)
          × (is_collecting (status s) ≡ true)
          × (contains s.keystores fp ≡ true))
  unfolding add_signature
  add_signature_iff s fp h i = ground (arith, guard-signed_by guard s fp i.replays)

  execute-proposal : (c : Command) (s : PsbtSession) → (execute guard c s).proposal ≡ s.proposal
  unfolding execute record_psbt_created add_signature finalize mark_broadcast_seen confirm
      invalidate cancel mark_broadcast_seen_from confirm_from
  execute-proposal (attach h) s = ground arith
  execute-proposal (sign fp h) s = ground arith
  execute-proposal (complete t h ks) s = ground arith
  execute-proposal (see t) s = ground arith
  execute-proposal (confirm_tx t n b) s = ground arith
  execute-proposal (reverse_tx r) s = ground arith
  execute-proposal (abandon u r) s = ground arith

  pub Reaches-proposal : {s t : PsbtSession} → Reaches guard s t → t.proposal ≡ s.proposal
  Reaches-proposal here = refl
  Reaches-proposal (next {t = u} c r) = execute-proposal c u ∙ Reaches-proposal r

  -- Whatever commands come, a recorded final transaction rests on at least `threshold` distinct
  -- keystores of the policy that the session was created with.
  pub sigs_used_within_policy :
      (s t : PsbtSession) (f : FinalizationRecord)
      → try_from_events s.events ≡ ok s
      → Reaches guard s t
      → t.finalization ≡ some f
      → (s.threshold ≤ length f.sigs_used)
        × IsDistinct f.sigs_used
        × (all (contains s.keystores) f.sigs_used ≡ true)
  sigs_used_within_policy s t f h r e =
      let i : IsSound t = Reaches-IsSound guard (IsSound-of_hydrated s h) r in
      let p : t.proposal ≡ s.proposal = Reaches-proposal r in
      let a : IsAuthorized t.threshold t.signatures (some f) =
        subst (IsAuthorized t.threshold t.signatures) e i.well_formed.authorized in
      (
        subst (λ (q : NewPsbtSession). q.threshold ≤ length f.sigs_used) p a.0,
        a.1,
        subst (λ (q : NewPsbtSession). all (contains q.keystores) f.sigs_used ≡ true) p
            (all_weaken (signed_by t.signatures) (contains t.keystores)
              (signed_by-contains t.keystores t.signatures i.well_formed.signers_known) f.sigs_used
              a.2),
      )
