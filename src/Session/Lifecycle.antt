-- ===== src/Session/Lifecycle.antt =====
-- The state machine of a session: which status follows which, and what each status guarantees.
use kota.Base.{
  ℕ, ◌≡◌, ap, Bool, true, false, Option, none, some, List, [], ◌∷◌, ◌++◌, reverse, ok, arith,
  executed, any,
}
use kota.Primitives.{Txid, BlockHash}
use kota.EsEntity.{IdempotencyGuard, guard_loop, never, guard_loop-never, reverse-push}
use kota.Session.Types.{
  PsbtSessionStatus, pending, collecting, finalized, broadcast, confirmed, invalidated, cancelled,
  FinalizationRecord, PsbtSessionEvent, psbt_created, signature_added, finalized_with,
  broadcast_seen, confirmed_at, invalidated_by, cancelled_by, PsbtSession,
}
use kota.Session.Entity.{
  finalization_record, latest_status, status, is_pending, is_collecting, is_confirmed,
  is_cancellable, is_invalidatable, is_broadcast_seen, is_confirmed_event, is_invalidated_event,
  record_psbt_created, add_signature, finalize, mark_broadcast_seen, mark_broadcast_seen_from,
  confirm, confirm_from, invalidate, cancel,
}
use kota.Session.Commands.{
  Command, attach, sign, complete, see, confirm_tx, reverse_tx, abandon, execute, reply, Reaches,
  here, next,
}

-- Before a transaction exists.
abbrev pub is_early : PsbtSessionStatus → Bool
is_early pending = true
is_early collecting = true
is_early _ = false

abbrev pub is_recorded {ℓ} : {A : Type ℓ} → Option A → Bool
is_recorded none = false
is_recorded (some a) = true

pub record IsPhased (s : PsbtSession) : Type 0 where
  pub unfinalized : is_early (status s) ≡ true → s.finalization ≡ none
  pub has_psbt : is_collecting (status s) ≡ true → is_recorded s.unsigned_psbt_hash ≡ true

-- The pushed event decides the status, unless it is no lifecycle event.
pub status-push :
    (es : List PsbtSessionEvent) (e : PsbtSessionEvent)
    → latest_status (reverse (es ++ e ∷ [])) ≡ latest_status (e ∷ reverse es)
status-push es e = ap latest_status (reverse-push es e)

-- The statuses in which a final transaction exists and is not yet in the best chain.
pub data AwaitsChain : PsbtSessionStatus → Type 0 where
  signed_off : AwaitsChain finalized
  gone_back : AwaitsChain invalidated
  given_up : AwaitsChain cancelled

infix 40 ◌⟶◌
pub data ◌⟶◌ : PsbtSessionStatus → PsbtSessionStatus → Type 0 where
  open_collection : pending ⟶ collecting
  collect : collecting ⟶ collecting
  close_collection : collecting ⟶ finalized
  sight : {a : PsbtSessionStatus} → AwaitsChain a → a ⟶ broadcast
  mine : {a : PsbtSessionStatus} → AwaitsChain a → a ⟶ confirmed
  mine_seen : broadcast ⟶ confirmed
  evict : broadcast ⟶ invalidated
  unwind : confirmed ⟶ invalidated
  withdraw : pending ⟶ cancelled
  call_off : collecting ⟶ cancelled
  hold_back : finalized ⟶ cancelled

ruleset edges = (
  open_collection, collect, close_collection, sight, mine, mine_seen, evict, unwind, withdraw,
  call_off, hold_back, signed_off, gone_back, given_up,
)

abbrev is_broadcast : PsbtSessionStatus → Bool
is_broadcast broadcast = true
is_broadcast _ = false

see_edge :
    (a : PsbtSessionStatus)
    → is_early a ≡ false
    → is_broadcast a ≡ false
    → is_confirmed a ≡ false
    → a ⟶ broadcast
see_edge finalized _ _ _ = search edges
see_edge invalidated _ _ _ = search edges
see_edge cancelled _ _ _ = search edges
see_edge _ p q r = cc

confirm_edge : (a : PsbtSessionStatus) → is_early a ≡ false → is_confirmed a ≡ false → a ⟶ confirmed
confirm_edge finalized _ _ = search edges
confirm_edge invalidated _ _ = search edges
confirm_edge cancelled _ _ = search edges
confirm_edge broadcast _ _ = search edges
confirm_edge _ p q = cc

invalidate_edge : (a : PsbtSessionStatus) → is_invalidatable a ≡ true → a ⟶ invalidated
invalidate_edge broadcast _ = search edges
invalidate_edge confirmed _ = search edges
invalidate_edge _ p = cc

cancel_edge : (a : PsbtSessionStatus) → is_cancellable a ≡ true → a ⟶ cancelled
cancel_edge pending _ = search edges
cancel_edge collecting _ = search edges
cancel_edge finalized _ = search edges
cancel_edge _ p = cc

attach_edge : (a : PsbtSessionStatus) → is_pending a ≡ true → a ⟶ collecting
attach_edge pending _ = search edges
attach_edge _ p = cc

sign_edge : (a : PsbtSessionStatus) → is_collecting a ≡ true → a ⟶ a
sign_edge collecting _ = search edges
sign_edge _ p = cc

complete_edge : (a : PsbtSessionStatus) → is_collecting a ≡ true → a ⟶ finalized
complete_edge collecting _ = search edges
complete_edge _ p = cc

-- A session is `broadcast` only through its one sighting.
broadcast_needs_sighting :
    (es : List PsbtSessionEvent)
    → is_broadcast (latest_status es) ≡ true
    → any is_broadcast_seen es ≡ true
broadcast_needs_sighting [] h = cc
broadcast_needs_sighting (e ∷ es) h = ground (arith, broadcast_needs_sighting es)

-- In status `confirmed` the guard of `confirm` fires.
confirmed_guards :
    (es : List PsbtSessionEvent)
    → is_confirmed (latest_status es) ≡ true
    → guard_loop is_confirmed_event is_invalidated_event es ≡ true
confirmed_guards [] h = cc
confirmed_guards (e ∷ es) h = ground (arith, confirmed_guards es)

module _ (guard : IdempotencyGuard PsbtSessionEvent) where
  see-IsPhased :
      (f : Option FinalizationRecord) (s : PsbtSession) (t : Txid)
      → IsPhased s
      → IsPhased (mark_broadcast_seen_from guard f s t).0
  unfolding mark_broadcast_seen_from
  see-IsPhased none s t i = i
  see-IsPhased (some f) s t i = ground (arith, status-push s.events (broadcast_seen t))

  confirm-IsPhased :
      (f : Option FinalizationRecord) (s : PsbtSession) (t : Txid) (n : ℕ) (b : BlockHash)
      → IsPhased s
      → IsPhased (confirm_from guard f s t n b).0
  unfolding confirm_from
  confirm-IsPhased none s t n b i = i
  confirm-IsPhased (some f) s t n b i = ground (arith, status-push s.events (confirmed_at t n b))

  execute-IsPhased : (c : Command) (s : PsbtSession) → IsPhased s → IsPhased (execute guard c s)
  unfolding execute record_psbt_created add_signature finalize mark_broadcast_seen confirm
      invalidate cancel
  execute-IsPhased (attach h) s i = ground (arith, status-push s.events (psbt_created h))
  execute-IsPhased (sign fp h) s i = ground (
    arith,
    status-push s.events (signature_added (record { fingerprint = fp; signed_psbt_hash = h })),
  )
  execute-IsPhased (complete t h ks) s i =
      ground (arith, status-push s.events (finalized_with (finalization_record t h ks)))
  execute-IsPhased (see t) s i = see-IsPhased s.finalization s t i
  execute-IsPhased (confirm_tx t n b) s i = confirm-IsPhased s.finalization s t n b i
  execute-IsPhased (reverse_tx r) s i = ground (arith, status-push s.events (invalidated_by r))
  execute-IsPhased (abandon u r) s i = ground (arith, status-push s.events (cancelled_by u r))

  pub Reaches-IsPhased : {s t : PsbtSession} → IsPhased s → Reaches guard s t → IsPhased t
  Reaches-IsPhased i here = i
  Reaches-IsPhased i (next {t = u} c r) = execute-IsPhased c u (Reaches-IsPhased i r)

  see-⟶ :
      (f : Option FinalizationRecord) (s : PsbtSession) (t : Txid)
      → (is_early (status s) ≡ true → f ≡ none)
      → (mark_broadcast_seen_from guard f s t).1 ≡ ok (executed tt)
      → status s ⟶ status (mark_broadcast_seen_from guard f s t).0
  unfolding mark_broadcast_seen_from
  see-⟶ none s t p h = cc
  see-⟶ (some f) s t p h = ground (
    arith,
    see_edge (status s),
    broadcast_needs_sighting (reverse s.events),
    guard.applied_lem is_broadcast_seen never (reverse s.events),
    guard_loop-never is_broadcast_seen (reverse s.events),
    status-push s.events (broadcast_seen t),
  )

  confirm-⟶ :
      (f : Option FinalizationRecord) (s : PsbtSession) (t : Txid) (n : ℕ) (b : BlockHash)
      → (is_early (status s) ≡ true → f ≡ none)
      → (confirm_from guard f s t n b).1 ≡ ok (executed tt)
      → status s ⟶ status (confirm_from guard f s t n b).0
  unfolding confirm_from
  confirm-⟶ none s t n b p h = cc
  confirm-⟶ (some f) s t n b p h = ground (
    arith,
    confirm_edge (status s),
    confirmed_guards (reverse s.events),
    guard.applied_lem is_confirmed_event is_invalidated_event (reverse s.events),
    status-push s.events (confirmed_at t n b),
  )

  execute-⟶ :
      (c : Command) (s : PsbtSession)
      → IsPhased s
      → reply guard c s ≡ ok (executed tt)
      → status s ⟶ status (execute guard c s)
  unfolding execute reply record_psbt_created add_signature finalize mark_broadcast_seen confirm
      invalidate cancel
  execute-⟶ (attach h) s i e =
      ground (arith, attach_edge (status s), status-push s.events (psbt_created h))
  execute-⟶ (sign fp h) s i e = ground (
    arith,
    sign_edge (status s),
    status-push s.events (signature_added (record { fingerprint = fp; signed_psbt_hash = h })),
  )
  execute-⟶ (complete t h ks) s i e = ground (
    arith,
    complete_edge (status s),
    status-push s.events (finalized_with (finalization_record t h ks)),
  )
  execute-⟶ (see t) s i e = see-⟶ s.finalization s t i.unfinalized e
  execute-⟶ (confirm_tx t n b) s i e = confirm-⟶ s.finalization s t n b i.unfinalized e
  execute-⟶ (reverse_tx r) s i e =
      ground (arith, invalidate_edge (status s), status-push s.events (invalidated_by r))
  execute-⟶ (abandon u r) s i e =
      ground (arith, cancel_edge (status s), status-push s.events (cancelled_by u r))

  module _ (s : PsbtSession) (born : status s ≡ pending) (blank : s.finalization ≡ none) where
    born-IsPhased : IsPhased s
    born-IsPhased = ground arith

    -- Whatever commands a session that started pending has seen, a command that executes moves
    -- its status along an edge of `⟶`.
    pub Reaches-⟶ :
        (c : Command) (t : PsbtSession)
        → Reaches guard s t
        → reply guard c t ≡ ok (executed tt)
        → status t ⟶ status (execute guard c t)
    Reaches-⟶ c t r e = execute-⟶ c t (Reaches-IsPhased born-IsPhased r) e

    -- Whenever a session that started pending collects signatures, its unsigned PSBT is recorded,
    -- as `run_finalization` expects, and no final transaction is.
    pub collecting_has_psbt :
        (t : PsbtSession)
        → Reaches guard s t
        → is_collecting (status t) ≡ true
        → (is_recorded t.unsigned_psbt_hash ≡ true) × (t.finalization ≡ none)
    collecting_has_psbt t r e = ground (arith, Reaches-IsPhased born-IsPhased r)
