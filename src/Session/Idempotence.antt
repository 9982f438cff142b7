-- ===== src/Session/Idempotence.antt =====
-- Redelivery and the audit trail: a command that changes a session appends one event, and an
-- executed command that comes again changes nothing.
use kota.Base.{
  ℕ, ◌≡◌, refl, ap, subst, ◌∙◌, Bool, true, false, Option, none, some, List, [], ◌∷◌, ◌++◌, reverse,
  Result, ok, err, Idempotent, executed, already_applied, arith, any, any-append,
}
use kota.Primitives.{Txid, BlockHash}
use kota.EsEntity.{IdempotencyGuard, guard_loop, never, guard_loop-never, any-reverse, reverse-push}
use kota.Session.Types.{
  FinalizationRecord, PsbtSessionEvent, psbt_created, signature_added, finalized_with,
  broadcast_seen, confirmed_at, invalidated_by, cancelled_by, PsbtSession, PsbtSessionError,
}
use kota.Session.Entity.{
  finalization_record, is_psbt_created, is_signature_of, is_finalized_event, is_broadcast_seen,
  is_confirmed_event, is_invalidated_event, is_cancelled_event, record_psbt_created, add_signature,
  finalize, mark_broadcast_seen, mark_broadcast_seen_from, confirm, confirm_from, invalidate,
  cancel,
}
use kota.Session.Commands.{
  Command, attach, sign, complete, see, confirm_tx, reverse_tx, abandon, execute, reply, Reaches,
  here, next,
}

-- The event that a command records when it executes.
abbrev pub event_of : Command → PsbtSessionEvent
event_of (attach h) = psbt_created h
event_of (sign fp h) = signature_added (record { fingerprint = fp; signed_psbt_hash = h })
event_of (complete t h ks) = finalized_with (finalization_record t h ks)
event_of (see t) = broadcast_seen t
event_of (confirm_tx t n b) = confirmed_at t n b
event_of (reverse_tx r) = invalidated_by r
event_of (abandon u r) = cancelled_by u r

-- What the history says of a reply: an executed command has appended its event, and any other
-- answer leaves the whole session as it was.
abbrev pub Trail :
    PsbtSessionEvent
    → PsbtSession
    → PsbtSession
    → Result (Idempotent (Unit {0})) PsbtSessionError
    → Type 0
Trail e s t (ok (executed _)) = t.events ≡ s.events ++ e ∷ []
Trail e s t (ok already_applied) = t ≡ s
Trail e s t (err _) = t ≡ s

-- The commands whose guard has no reset and stands before every check.
abbrev pub is_once : Command → Bool
is_once (attach h) = true
is_once (sign fp h) = true
is_once (complete t h ks) = true
is_once (abandon u r) = true
is_once _ = false

-- The guard of such a command finds its event.
abbrev GuardedBy : Command → PsbtSession → Type 0
GuardedBy (attach h) s = any is_psbt_created s.events ≡ true
GuardedBy (sign fp h) s = any (is_signature_of fp) s.events ≡ true
GuardedBy (complete t h ks) s = any is_finalized_event s.events ≡ true
GuardedBy (abandon u r) s = any is_cancelled_event s.events ≡ true
GuardedBy _ s = ⊥

module _ (guard : IdempotencyGuard PsbtSessionEvent) where
  see-Trail :
      (f : Option FinalizationRecord) (s : PsbtSession) (t : Txid)
      → Trail
          (broadcast_seen t)
          s
          (mark_broadcast_seen_from guard f s t).0
          (mark_broadcast_seen_from guard f s t).1
  unfolding mark_broadcast_seen_from
  see-Trail none s t = refl
  see-Trail (some f) s t = ground arith

  confirm-Trail :
      (f : Option FinalizationRecord) (s : PsbtSession) (t : Txid) (n : ℕ) (b : BlockHash)
      → Trail
          (confirmed_at t n b)
          s
          (confirm_from guard f s t n b).0
          (confirm_from guard f s t n b).1
  unfolding confirm_from
  confirm-Trail none s t n b = refl
  confirm-Trail (some f) s t n b = ground arith

  -- The event log is an audit trail: a command appends exactly the event that describes it when it
  -- executes, and an error or a redelivery leaves every field of the session as it was.
  pub execute-Trail :
      (c : Command) (s : PsbtSession) → Trail (event_of c) s (execute guard c s) (reply guard c s)
  unfolding execute reply record_psbt_created add_signature finalize mark_broadcast_seen confirm
      invalidate cancel
  execute-Trail (attach h) s = ground arith
  execute-Trail (sign fp h) s = ground arith
  execute-Trail (complete t h ks) s = ground arith
  execute-Trail (see t) s = see-Trail s.finalization s t
  execute-Trail (confirm_tx t n b) s = confirm-Trail s.finalization s t n b
  execute-Trail (reverse_tx r) s = ground arith
  execute-Trail (abandon u r) s = ground arith

  any-events_grow :
      (p : PsbtSessionEvent → Bool) (e : PsbtSessionEvent) (s t : PsbtSession)
      (r : Result (Idempotent (Unit {0})) PsbtSessionError)
      → Trail e s t r
      → any p s.events ≡ true
      → any p t.events ≡ true
  any-events_grow p e s t (ok (executed _)) h a =
      ap (any p) h ∙ ground (arith, any-append p s.events (e ∷ []))
  any-events_grow p e s t (ok already_applied) h a = ap (λ u. any p u.events) h ∙ a
  any-events_grow p e s t (err _) h a = ap (λ u. any p u.events) h ∙ a

  -- Whatever comes after it, a recorded event is never lost.
  pub Reaches-any :
      (p : PsbtSessionEvent → Bool) {s t : PsbtSession}
      → any p s.events ≡ true
      → Reaches guard s t
      → any p t.events ≡ true
  Reaches-any p h here = h
  Reaches-any p h (next {t = u} c r) =
      any-events_grow p (event_of c) u (execute guard c u) (reply guard c u) (execute-Trail c u)
        (Reaches-any p h r)

  -- A guard with no reset sees its event wherever it stands.
  guard-any :
      (p : PsbtSessionEvent → Bool) (es : List PsbtSessionEvent)
      → guard.applied p never (reverse es) ≡ any p es
  guard-any p es =
      guard.applied_lem p never (reverse es) ∙ guard_loop-never p (reverse es) ∙ any-reverse p es

  already-reply :
      (c : Command) (s : PsbtSession) → GuardedBy c s → reply guard c s ≡ ok already_applied
  unfolding reply record_psbt_created add_signature finalize cancel
  already-reply (attach h) s a = ground (arith, guard-any is_psbt_created s.events)
  already-reply (sign fp h) s a = ground (arith, guard-any (is_signature_of fp) s.events)
  already-reply (complete t h ks) s a = ground (arith, guard-any is_finalized_event s.events)
  already-reply (abandon u r) s a = ground (arith, guard-any is_cancelled_event s.events)
  already-reply _ s a = absurd a

  Reaches-GuardedBy :
      (c : Command) {s t : PsbtSession} → GuardedBy c s → Reaches guard s t → GuardedBy c t
  Reaches-GuardedBy (attach h) a r = Reaches-any is_psbt_created a r
  Reaches-GuardedBy (sign fp h) a r = Reaches-any (is_signature_of fp) a r
  Reaches-GuardedBy (complete t h ks) a r = Reaches-any is_finalized_event a r
  Reaches-GuardedBy (abandon u n) a r = Reaches-any is_cancelled_event a r
  Reaches-GuardedBy (see t) a r = a
  Reaches-GuardedBy (confirm_tx t n b) a r = a
  Reaches-GuardedBy (reverse_tx n) a r = a

  executed-GuardedBy :
      (c : Command) (s : PsbtSession)
      → is_once c ≡ true
      → (execute guard c s).events ≡ s.events ++ event_of c ∷ []
      → GuardedBy c (execute guard c s)
  executed-GuardedBy (attach h) s o e =
      ap (any is_psbt_created) e
      ∙ ground (arith, any-append is_psbt_created s.events (event_of (attach h) ∷ []))
  executed-GuardedBy (sign fp h) s o e =
      ap (any (is_signature_of fp)) e
      ∙ ground (arith, any-append (is_signature_of fp) s.events (event_of (sign fp h) ∷ []))
  executed-GuardedBy (complete t h ks) s o e =
      ap (any is_finalized_event) e
      ∙ ground (arith, any-append is_finalized_event s.events (event_of (complete t h ks) ∷ []))
  executed-GuardedBy (abandon u r) s o e =
      ap (any is_cancelled_event) e
      ∙ ground (arith, any-append is_cancelled_event s.events (event_of (abandon u r) ∷ []))
  executed-GuardedBy _ s o e = cc

  -- A signature of a keystore, a PSBT, a finalization or a cancellation that was recorded once is
  -- answered with `AlreadyApplied` for ever after, whatever other commands come between.
  pub reply-once :
      (c : Command) (s : PsbtSession) {t : PsbtSession}
      → is_once c ≡ true
      → reply guard c s ≡ ok (executed tt)
      → Reaches guard (execute guard c s) t
      → reply guard c t ≡ ok already_applied
  reply-once c s {t} o e r = already-reply c t (
      Reaches-GuardedBy c
        (executed-GuardedBy c s o
          (subst (Trail (event_of c) s (execute guard c s)) e (execute-Trail c s)))
        r)

  see_again :
      (f : Option FinalizationRecord) (s : PsbtSession) (t : Txid)
      → (mark_broadcast_seen_from guard f s t).1 ≡ ok (executed tt)
      → (mark_broadcast_seen_from guard f (mark_broadcast_seen_from guard f s t).0 t).1
        ≡ ok already_applied
  unfolding mark_broadcast_seen_from
  see_again none s t h = cc
  see_again (some f) s t h = ground (
    arith,
    guard-any is_broadcast_seen (s.events ++ broadcast_seen t ∷ []),
    any-append is_broadcast_seen s.events (broadcast_seen t ∷ []),
  )

  confirm_again :
      (f : Option FinalizationRecord) (s : PsbtSession) (t : Txid) (n : ℕ) (b : BlockHash)
      → (confirm_from guard f s t n b).1 ≡ ok (executed tt)
      → (confirm_from guard f (confirm_from guard f s t n b).0 t n b).1 ≡ ok already_applied
  unfolding confirm_from
  confirm_again none s t n b h = cc
  confirm_again (some f) s t n b h = ground (
    arith,
    guard.applied_lem is_confirmed_event is_invalidated_event
        (reverse (s.events ++ confirmed_at t n b ∷ [])),
    ap (guard_loop is_confirmed_event is_invalidated_event)
        (reverse-push s.events (confirmed_at t n b)),
  )

  see_kept :
      (f : Option FinalizationRecord) (s : PsbtSession) (t : Txid)
      → (mark_broadcast_seen_from guard f s t).0.finalization ≡ s.finalization
  unfolding mark_broadcast_seen_from
  see_kept none s t = refl
  see_kept (some f) s t = ground arith

  confirm_kept :
      (f : Option FinalizationRecord) (s : PsbtSession) (t : Txid) (n : ℕ) (b : BlockHash)
      → (confirm_from guard f s t n b).0.finalization ≡ s.finalization
  unfolding confirm_from
  confirm_kept none s t n b = refl
  confirm_kept (some f) s t n b = ground arith

  -- The redelivery of any executed command, chain observations included, is answered with
  -- `AlreadyApplied`.
  pub reply_again :
      (c : Command) (s : PsbtSession)
      → reply guard c s ≡ ok (executed tt)
      → reply guard c (execute guard c s) ≡ ok already_applied
  unfolding reply execute mark_broadcast_seen confirm invalidate
  reply_again (see t) s h =
      ap
        (λ f.
          (mark_broadcast_seen_from guard f (mark_broadcast_seen_from guard s.finalization s t).0
            t).1)
        (see_kept s.finalization s t)
      ∙ see_again s.finalization s t h
  reply_again (confirm_tx t n b) s h =
      ap (λ f. (confirm_from guard f (confirm_from guard s.finalization s t n b).0 t n b).1)
        (confirm_kept s.finalization s t n b)
      ∙ confirm_again s.finalization s t n b h
  reply_again (reverse_tx r) s h = ground (
    arith,
    guard.applied_lem is_invalidated_event is_confirmed_event
        (reverse (s.events ++ invalidated_by r ∷ [])),
    ap (guard_loop is_invalidated_event is_confirmed_event)
        (reverse-push s.events (invalidated_by r)),
  )
  reply_again (attach x) s h = reply-once (attach x) s refl h here
  reply_again (sign fp x) s h = reply-once (sign fp x) s refl h here
  reply_again (complete t x ks) s h = reply-once (complete t x ks) s refl h here
  reply_again (abandon u r) s h = reply-once (abandon u r) s refl h here
