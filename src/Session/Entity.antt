-- ===== src/Session/Entity.antt =====
-- The accessors and the commands of `PsbtSession`, core/coordination/src/psbt_session/entity.rs.
-- A command returns the session after it beside its result.
use kota.Base.{
  ℕ, Bool, true, false, not, Option, none, some, List, [], ◌∷◌, ◌++◌, reverse, Result, ok, err,
  Idempotent, executed, already_applied, length, any, all, contains, nat_order, ltb, leb, ◌==◌,
  if◌then◌else◌,
}
use kota.Base.Sort.{sort, dedup}
use kota.Primitives.{UserId, PsbtHash, KeyFingerprint, Txid, BlockHash, Text}
use kota.EsEntity.{IdempotencyGuard, never}
use kota.Session.Types.{
  PsbtSessionStatus, pending, collecting, finalized, broadcast, confirmed, invalidated, cancelled,
  InvalidationReason, SignatureRecord, FinalizationRecord, PsbtSessionEvent, initialized,
  psbt_created, signature_added, finalized_with, broadcast_seen, confirmed_at, invalidated_by,
  cancelled_by, PsbtSession, PsbtSessionError, not_collecting, unknown_keystore, cannot_attach_psbt,
  threshold_not_met, sigs_used_not_collected, duplicate_sigs_used, not_finalized, txid_mismatch,
  cannot_cancel, cannot_invalidate,
}

-- The `for` loop of `status` over the events, the newest first.
abbrev pub latest_status : List PsbtSessionEvent → PsbtSessionStatus
latest_status [] = pending
latest_status (cancelled_by u r ∷ es) = cancelled
latest_status (confirmed_at t h b ∷ es) = confirmed
latest_status (invalidated_by r ∷ es) = invalidated
latest_status (broadcast_seen t ∷ es) = broadcast
latest_status (finalized_with f ∷ es) = finalized
latest_status (psbt_created h ∷ es) = collecting
latest_status (initialized p ∷ es) = latest_status es
latest_status (signature_added g ∷ es) = latest_status es

abbrev pub status : PsbtSession → PsbtSessionStatus
status s = latest_status (reverse s.events)

abbrev pub threshold_met : PsbtSession → Bool
threshold_met s = leb s.threshold (length s.signatures)

-- `signatures.iter().any(|s| s.fingerprint == fingerprint)`
abbrev pub signed_by : List SignatureRecord → KeyFingerprint → Bool
signed_by sigs fp = any (λ g. g.fingerprint == fp) sigs

abbrev pub has_signed : PsbtSession → KeyFingerprint → Bool
has_signed s fp = signed_by s.signatures fp

pub filter_keystores : (KeyFingerprint → Bool) → List KeyFingerprint → List KeyFingerprint
filter_keystores p [] = []
filter_keystores p (k ∷ ks) = let rest = filter_keystores p ks in if p k then k ∷ rest else rest

unfoldable pub missing_keystores : PsbtSession → List KeyFingerprint
unfolding filter_keystores
missing_keystores s = filter_keystores (λ fp. not (has_signed s fp)) s.keystores

abbrev pub is_pending : PsbtSessionStatus → Bool
is_pending pending = true
is_pending _ = false

abbrev pub is_collecting : PsbtSessionStatus → Bool
is_collecting collecting = true
is_collecting _ = false

abbrev pub is_confirmed : PsbtSessionStatus → Bool
is_confirmed confirmed = true
is_confirmed _ = false

-- The states in which `cancel` goes on.
abbrev pub is_cancellable : PsbtSessionStatus → Bool
is_cancellable pending = true
is_cancellable collecting = true
is_cancellable finalized = true
is_cancellable _ = false

-- The states in which `invalidate` goes on.
abbrev pub is_invalidatable : PsbtSessionStatus → Bool
is_invalidatable broadcast = true
is_invalidatable confirmed = true
is_invalidatable _ = false

-- The patterns of the guards.
abbrev pub is_psbt_created : PsbtSessionEvent → Bool
is_psbt_created (psbt_created h) = true
is_psbt_created _ = false

abbrev pub is_signature_of : KeyFingerprint → PsbtSessionEvent → Bool
is_signature_of fp (signature_added g) = g.fingerprint == fp
is_signature_of fp _ = false

abbrev pub is_finalized_event : PsbtSessionEvent → Bool
is_finalized_event (finalized_with f) = true
is_finalized_event _ = false

abbrev pub is_broadcast_seen : PsbtSessionEvent → Bool
is_broadcast_seen (broadcast_seen t) = true
is_broadcast_seen _ = false

abbrev pub is_confirmed_event : PsbtSessionEvent → Bool
is_confirmed_event (confirmed_at t h b) = true
is_confirmed_event _ = false

abbrev pub is_invalidated_event : PsbtSessionEvent → Bool
is_invalidated_event (invalidated_by r) = true
is_invalidated_event _ = false

abbrev pub is_cancelled_event : PsbtSessionEvent → Bool
is_cancelled_event (cancelled_by u r) = true
is_cancelled_event _ = false

-- What a command on `&mut self` yields.
abbrev pub Outcome : Type 0 → Type 0
Outcome A = PsbtSession × Result (Idempotent A) PsbtSessionError

-- `self.events.push(e)`
abbrev pub push : PsbtSession → PsbtSessionEvent → PsbtSession
push s e = record s { events = s.events ++ e ∷ [] }

-- The finalization with `sigs_used` as `finalize` rebinds it: sorted and deduplicated.
abbrev pub finalization_record : Txid → PsbtHash → List KeyFingerprint → FinalizationRecord
finalization_record txid final_tx_hash sigs_used = record {
  txid = txid;
  final_tx_hash = final_tx_hash;
  sigs_used = dedup (sort sigs_used);
}

module _ (guard : IdempotencyGuard PsbtSessionEvent) where
  unfoldable pub record_psbt_created : PsbtSession → PsbtHash → Outcome Unit
  record_psbt_created s hash =
      if guard.applied is_psbt_created never (reverse s.events)
      then (s, ok already_applied)
      else if not (is_pending (status s))
      then (s, err (cannot_attach_psbt s.id (status s)))
      else (
        push (record s { unsigned_psbt_hash = some hash }) (psbt_created hash),
        ok (executed tt),
      )

  unfoldable pub add_signature : PsbtSession → KeyFingerprint → PsbtHash → Outcome Unit
  add_signature s fp hash =
      let g : SignatureRecord = record { fingerprint = fp; signed_psbt_hash = hash } in
      if guard.applied (is_signature_of fp) never (reverse s.events)
      then (s, ok already_applied)
      else if not (is_collecting (status s))
      then (s, err (not_collecting s.id))
      else if not (contains s.keystores fp)
      then (s, err (unknown_keystore fp))
      else (
        push (record s { signatures = s.signatures ++ g ∷ [] }) (signature_added g),
        ok (executed tt),
      )

  unfoldable pub finalize : PsbtSession → Txid → PsbtHash → List KeyFingerprint → Outcome Txid
  finalize s txid final_tx_hash sigs_used =
      let f = finalization_record txid final_tx_hash sigs_used in
      if guard.applied is_finalized_event never (reverse s.events)
      then (s, ok already_applied)
      else if not (is_collecting (status s))
      then (s, err (not_collecting s.id))
      else if ltb (length sigs_used) s.threshold
      then (s, err (threshold_not_met (length sigs_used) s.threshold))
      else if not (length f.sigs_used == length sigs_used)
      then (s, err duplicate_sigs_used)
      else if not (all (has_signed s) f.sigs_used)
      then (s, err sigs_used_not_collected)
      else (push (record s { finalization = some f }) (finalized_with f), ok (executed txid))

  -- The tail of `mark_broadcast_seen` and of `confirm` past the look at the finalization.
  unfoldable pub mark_broadcast_seen_from :
      Option FinalizationRecord → PsbtSession → Txid → Outcome Unit
  mark_broadcast_seen_from none s txid = (s, err (not_finalized s.id))
  mark_broadcast_seen_from (some f) s txid =
      if not (f.txid == txid)
      then (s, err txid_mismatch)
      else if guard.applied is_broadcast_seen never (reverse s.events)
      then (s, ok already_applied)
      else if is_confirmed (status s)
      then (s, ok already_applied)
      else (push s (broadcast_seen txid), ok (executed tt))

  unfoldable pub mark_broadcast_seen : PsbtSession → Txid → Outcome Unit
  unfolding mark_broadcast_seen_from
  mark_broadcast_seen s txid = mark_broadcast_seen_from s.finalization s txid

  unfoldable pub confirm_from :
      Option FinalizationRecord → PsbtSession → Txid → ℕ → BlockHash → Outcome Unit
  confirm_from none s txid height block_hash = (s, err (not_finalized s.id))
  confirm_from (some f) s txid height block_hash =
      if not (f.txid == txid)
      then (s, err txid_mismatch)
      else if guard.applied is_confirmed_event is_invalidated_event (reverse s.events)
      then (s, ok already_applied)
      else (push s (confirmed_at txid height block_hash), ok (executed tt))

  unfoldable pub confirm : PsbtSession → Txid → ℕ → BlockHash → Outcome Unit
  unfolding confirm_from
  confirm s txid height block_hash = confirm_from s.finalization s txid height block_hash

  unfoldable pub invalidate : PsbtSession → InvalidationReason → Outcome Unit
  invalidate s reason =
      if guard.applied is_invalidated_event is_confirmed_event (reverse s.events)
      then (s, ok already_applied)
      else if not (is_invalidatable (status s))
      then (s, err (cannot_invalidate s.id (status s)))
      else (push s (invalidated_by reason), ok (executed tt))

  unfoldable pub cancel : PsbtSession → UserId → Text → Outcome Unit
  cancel s user reason =
      if guard.applied is_cancelled_event never (reverse s.events)
      then (s, ok already_applied)
      else if not (is_cancellable (status s))
      then (s, err (cannot_cancel s.id (status s)))
      else (push s (cancelled_by user reason), ok (executed tt))
