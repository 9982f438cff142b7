-- ===== src/Session/Invariant.antt =====
-- Every command, accepted or refused, keeps a session that hydrates to itself.
use kota.Base.{
  ℕ, ◌≤◌, ◌≡◌, refl, sym, ap, ◌∙◌, true, false, ◌||◌, Option, none, some, List, [], ◌∷◌, ◌++◌,
  reverse, ok, arith, length, all, all-append, any-append, all_weaken, contains, IsDistinct,
  nat_order, ◌==◌,
}
use kota.Base.Sort.{
  IsDistinct-push, sort, dedup, length-dedup-sort_iff, dedup-sort_of_IsDistinct, sort-IsDistinct,
}
use kota.Primitives.{PsbtHash, KeyFingerprint, Txid, BlockHash}
use kota.EsEntity.{IdempotencyGuard, never, guard_loop-never, any-reverse}
use kota.Session.Types.{
  SignatureRecord, FinalizationRecord, PsbtSessionEvent, psbt_created, signature_added,
  finalized_with, broadcast_seen, confirmed_at, invalidated_by, cancelled_by, PsbtSession,
}
use kota.Session.Entity.{
  push, finalization_record, signed_by, has_signed, is_signature_of, record_psbt_created,
  add_signature, finalize, mark_broadcast_seen, mark_broadcast_seen_from, confirm, confirm_from,
  invalidate, cancel,
}
use kota.Session.Hydrate.{empty_builder, apply_event, replay, try_from_events}
use kota.Session.WellFormed.{signers, IsAuthorized, IsWellFormed}
use kota.Session.Replay.{
  IsReplayed, builder_of, replay-append, signed_by-iff-event, try_from_events_of_IsReplayed,
  IsReplayed-of_hydrated, IsWellFormed-of_hydrated,
}
use kota.Session.Commands.{
  Command, attach, sign, complete, see, confirm_tx, reverse_tx, abandon, execute, Reaches, here,
  next,
}

signers-push :
    (gs : List SignatureRecord) (g : SignatureRecord)
    → signers (gs ++ g ∷ []) ≡ signers gs ++ g.fingerprint ∷ []
signers-push [] g = refl
signers-push (k ∷ ks) g = ap (λ l. k.fingerprint ∷ l) (signers-push ks g)

pub contains-signers :
    (gs : List SignatureRecord) (fp : KeyFingerprint) → contains (signers gs) fp ≡ signed_by gs fp
contains-signers [] fp = refl
contains-signers (g ∷ gs) fp = ap (λ b. g.fingerprint == fp || b) (contains-signers gs fp)

-- More signatures leave a finalization authorized.
IsAuthorized-push :
    (n : ℕ) (gs : List SignatureRecord) (g : SignatureRecord) (f : Option FinalizationRecord)
    → IsAuthorized n gs f
    → IsAuthorized n (gs ++ g ∷ []) f
IsAuthorized-push n gs g none h = tt
IsAuthorized-push n gs g (some f) h = (
  h.0,
  h.1,
  all_weaken (signed_by gs) (signed_by (gs ++ g ∷ []))
      (λ x p. ground (arith, any-append (λ k. k.fingerprint == x) gs (g ∷ []))) f.sigs_used h.2,
)

-- A pushed event that says what changed.
push-IsReplayed :
    (s t : PsbtSession) (e : PsbtSessionEvent)
    → IsReplayed s
    → t.events ≡ s.events ++ e ∷ []
    → apply_event (builder_of s) e ≡ builder_of t
    → IsReplayed t
push-IsReplayed s t e r p q = record {
  replayed =
      ap (replay empty_builder) p
      ∙ replay-append empty_builder s.events (e ∷ [])
      ∙ ap (λ b. apply_event b e) r.replayed
      ∙ q;
}

pub record IsSound (s : PsbtSession) : Type 0 where
  pub replays : IsReplayed s
  pub well_formed : IsWellFormed s

module _ (s : PsbtSession) (i : IsSound s) where
  -- A new signature of a keystore of the policy.
  signed-IsSound :
      (g : SignatureRecord)
      → contains s.keystores g.fingerprint ≡ true
      → signed_by s.signatures g.fingerprint ≡ false
      → IsSound (push (record s { signatures = s.signatures ++ g ∷ [] }) (signature_added g))
  signed-IsSound g k n = record {
    replays = push-IsReplayed s _ (signature_added g) i.replays refl refl;
    well_formed = record {
      threshold_pos = i.well_formed.threshold_pos;
      threshold_fits = i.well_formed.threshold_fits;
      keystores_distinct = i.well_formed.keystores_distinct;
      signers_known = rw (signers-push s.signatures g) (
          ground (
            arith,
            i.well_formed.signers_known,
            all-append (contains s.keystores) (signers s.signatures) (g.fingerprint ∷ []),
          ));
      signers_distinct = rw (signers-push s.signatures g) (
          IsDistinct-push (signers s.signatures) g.fingerprint i.well_formed.signers_distinct
            (contains-signers s.signatures g.fingerprint ∙ n));
      authorized =
          IsAuthorized-push s.threshold s.signatures g s.finalization i.well_formed.authorized;
    };
  }

  -- A finalization that the checks of `finalize` let through.
  finalized-IsSound :
      (t : Txid) (h : PsbtHash) (ks : List KeyFingerprint)
      → s.threshold ≤ length ks
      → length (dedup (sort ks)) ≡ length ks
      → all (has_signed s) (dedup (sort ks)) ≡ true
      → IsSound (
          push
            (record s { finalization = some (finalization_record t h ks) })
            (finalized_with (finalization_record t h ks)))
  finalized-IsSound t h ks n d a =
      let distinct : IsDistinct ks = (length-dedup-sort_iff ks).0 d in
      record {
        replays =
            push-IsReplayed s _ (finalized_with (finalization_record t h ks)) i.replays refl refl;
        well_formed = record {
          threshold_pos = i.well_formed.threshold_pos;
          threshold_fits = i.well_formed.threshold_fits;
          keystores_distinct = i.well_formed.keystores_distinct;
          signers_known = i.well_formed.signers_known;
          signers_distinct = i.well_formed.signers_distinct;
          authorized = (
            omega arith,
            rw (dedup-sort_of_IsDistinct ks distinct) ((sort-IsDistinct ks).1 distinct),
            a,
          );
        };
      }

  -- An event that hydration reads no field from.
  noted-IsSound :
      (e : PsbtSessionEvent) → apply_event (builder_of s) e ≡ builder_of s → IsSound (push s e)
  noted-IsSound e q = record {
    replays = push-IsReplayed s _ e i.replays refl q;
    well_formed = record {
      threshold_pos = i.well_formed.threshold_pos;
      threshold_fits = i.well_formed.threshold_fits;
      keystores_distinct = i.well_formed.keystores_distinct;
      signers_known = i.well_formed.signers_known;
      signers_distinct = i.well_formed.signers_distinct;
      authorized = i.well_formed.authorized;
    };
  }

  attached-IsSound :
      (h : PsbtHash) → IsSound (push (record s { unsigned_psbt_hash = some h }) (psbt_created h))
  attached-IsSound h = record {
    replays = push-IsReplayed s _ (psbt_created h) i.replays refl refl;
    well_formed = record {
      threshold_pos = i.well_formed.threshold_pos;
      threshold_fits = i.well_formed.threshold_fits;
      keystores_distinct = i.well_formed.keystores_distinct;
      signers_known = i.well_formed.signers_known;
      signers_distinct = i.well_formed.signers_distinct;
      authorized = i.well_formed.authorized;
    };
  }

pub IsSound-of_hydrated : (s : PsbtSession) → try_from_events s.events ≡ ok s → IsSound s
IsSound-of_hydrated s h = record {
  replays = IsReplayed-of_hydrated s.events s h;
  well_formed = IsWellFormed-of_hydrated s.events s h;
}

module _ (guard : IdempotencyGuard PsbtSessionEvent) where
  -- Past its guard, `add_signature` has found no signature of the keystore.
  pub guard-signed_by :
      (s : PsbtSession) (fp : KeyFingerprint)
      → IsReplayed s
      → guard.applied (is_signature_of fp) never (reverse s.events) ≡ signed_by s.signatures fp
  guard-signed_by s fp r =
      guard.applied_lem (is_signature_of fp) never (reverse s.events)
      ∙ guard_loop-never (is_signature_of fp) (reverse s.events)
      ∙ any-reverse (is_signature_of fp) s.events
      ∙ sym (signed_by-iff-event s fp r)

  see-IsSound :
      (f : Option FinalizationRecord) (s : PsbtSession) (t : Txid)
      → IsSound s
      → IsSound (mark_broadcast_seen_from guard f s t).0
  unfolding mark_broadcast_seen_from
  see-IsSound none s t i = i
  see-IsSound (some f) s t i = ground (arith, noted-IsSound s i (broadcast_seen t) refl)

  confirm-IsSound :
      (f : Option FinalizationRecord) (s : PsbtSession) (t : Txid) (n : ℕ) (b : BlockHash)
      → IsSound s
      → IsSound (confirm_from guard f s t n b).0
  unfolding confirm_from
  confirm-IsSound none s t n b i = i
  confirm-IsSound (some f) s t n b i = ground (arith, noted-IsSound s i (confirmed_at t n b) refl)

  execute-IsSound : (c : Command) (s : PsbtSession) → IsSound s → IsSound (execute guard c s)
  unfolding execute record_psbt_created add_signature finalize mark_broadcast_seen confirm
      invalidate cancel
  execute-IsSound (attach h) s i = ground (arith, attached-IsSound s i h)
  execute-IsSound (sign fp h) s i = ground (
    arith,
    guard-signed_by s fp i.replays,
    signed-IsSound s i (record { fingerprint = fp; signed_psbt_hash = h }),
  )
  execute-IsSound (complete t h ks) s i = ground (arith, finalized-IsSound s i t h ks)
  execute-IsSound (see t) s i = see-IsSound s.finalization s t i
  execute-IsSound (confirm_tx t n b) s i = confirm-IsSound s.finalization s t n b i
  execute-IsSound (reverse_tx r) s i = ground (arith, noted-IsSound s i (invalidated_by r) refl)
  execute-IsSound (abandon u r) s i = ground (arith, noted-IsSound s i (cancelled_by u r) refl)

  -- Every command, whatever its result, takes a session that hydrates from its own events to one
  -- that does.
  pub execute-hydrates :
      (c : Command) (s : PsbtSession)
      → try_from_events s.events ≡ ok s
      → try_from_events (execute guard c s).events ≡ ok (execute guard c s)
  execute-hydrates c s h =
      let i : IsSound (execute guard c s) = execute-IsSound c s (IsSound-of_hydrated s h) in
      try_from_events_of_IsReplayed (execute guard c s) i.replays i.well_formed

  pub Reaches-IsSound : {s t : PsbtSession} → IsSound s → Reaches guard s t → IsSound t
  Reaches-IsSound i here = i
  Reaches-IsSound i (next {t = u} c r) = execute-IsSound c u (Reaches-IsSound i r)
