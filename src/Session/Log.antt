-- ===== src/Session/Log.antt =====
-- The events of a session are its log: the proposal, the signatures and the finalization can be read
-- off them, and a longer log keeps what a shorter one says.
use kota.Base.{
  ℕ, ◌≡◌, refl, sym, ap, ◌∙◌, Bool, true, false, Option, none, some, List, [], ◌∷◌, ◌++◌, reverse,
  arith, any,
}
use kota.Primitives.{Txid, BlockHash}
use kota.EsEntity.{IdempotencyGuard, never, guard_loop-never, any-reverse}
use kota.Session.Types.{
  SignatureRecord, FinalizationRecord, NewPsbtSession, PsbtSessionEvent, initialized, psbt_created,
  signature_added, finalized_with, broadcast_seen, confirmed_at, invalidated_by, cancelled_by,
  PsbtSession,
}
use kota.Session.Entity.{
  is_finalized_event, finalization_record, record_psbt_created, add_signature, finalize,
  mark_broadcast_seen, mark_broadcast_seen_from, confirm, confirm_from, invalidate, cancel,
}
use kota.Session.Commands.{
  Command, attach, sign, complete, see, confirm_tx, reverse_tx, abandon, execute, Reaches, here,
  next,
}
use kota.Session.Proposal.{session_of}

abbrev pub first_proposal : List PsbtSessionEvent → Option NewPsbtSession
first_proposal (initialized p ∷ es) = some p
first_proposal _ = none

abbrev pub signatures_in : List PsbtSessionEvent → List SignatureRecord
signatures_in [] = []
signatures_in (signature_added g ∷ es) = g ∷ signatures_in es
signatures_in (e ∷ es) = signatures_in es

abbrev pub first_final : List PsbtSessionEvent → Option FinalizationRecord
first_final [] = none
first_final (finalized_with f ∷ es) = some f
first_final (e ∷ es) = first_final es

signatures_in-append :
    (es fs : List PsbtSessionEvent)
    → signatures_in (es ++ fs) ≡ signatures_in es ++ signatures_in fs
signatures_in-append [] fs = refl
signatures_in-append (e ∷ es) fs = ground (arith, signatures_in-append es fs)

first_proposal-append :
    (es fs : List PsbtSessionEvent) (p : NewPsbtSession)
    → first_proposal es ≡ some p
    → first_proposal (es ++ fs) ≡ some p
first_proposal-append [] fs p h = ground arith
first_proposal-append (e ∷ es) fs p h = ground arith

first_final-append :
    (es fs : List PsbtSessionEvent) (f : FinalizationRecord)
    → first_final es ≡ some f
    → first_final (es ++ fs) ≡ some f
first_final-append [] fs f h = ground arith
first_final-append (e ∷ es) fs f h = ground (arith, first_final-append es fs f)

first_final-none :
    (es fs : List PsbtSessionEvent)
    → any is_finalized_event es ≡ false
    → first_final (es ++ fs) ≡ first_final fs
first_final-none [] fs h = refl
first_final-none (e ∷ es) fs h = ground (arith, first_final-none es fs)

-- An event that is no signature and no finalization.
abbrev is_plain : PsbtSessionEvent → Bool
is_plain (signature_added g) = false
is_plain (finalized_with f) = false
is_plain e = true

first_final-plain :
    (es : List PsbtSessionEvent) (e : PsbtSessionEvent)
    → is_plain e ≡ true
    → first_final (es ++ e ∷ []) ≡ first_final es
first_final-plain [] e h = ground arith
first_final-plain (d ∷ es) e h = ground (arith, first_final-plain es e)

signatures_in-plain :
    (es : List PsbtSessionEvent) (e : PsbtSessionEvent)
    → is_plain e ≡ true
    → signatures_in (es ++ e ∷ []) ≡ signatures_in es
signatures_in-plain [] e h = ground arith
signatures_in-plain (d ∷ es) e h = ground (arith, signatures_in-plain es e h)

first_final-sign :
    (es : List PsbtSessionEvent) (g : SignatureRecord)
    → first_final (es ++ signature_added g ∷ []) ≡ first_final es
first_final-sign [] g = refl
first_final-sign (d ∷ es) g = ground (arith, first_final-sign es g)

signatures_in-final :
    (es : List PsbtSessionEvent) (r : FinalizationRecord)
    → signatures_in (es ++ finalized_with r ∷ []) ≡ signatures_in es
signatures_in-final [] r = refl
signatures_in-final (d ∷ es) r = ground (arith, signatures_in-final es r)

-- The fields are what the log says.
pub record IsLog (es : List PsbtSessionEvent) (p : NewPsbtSession) (gs : List SignatureRecord)
    (f : Option FinalizationRecord) : Type 0 where
  pub proposal : first_proposal es ≡ some p
  pub signatures : signatures_in es ≡ gs
  pub finalization : first_final es ≡ f

abbrev pub IsLogged : PsbtSession → Type 0
IsLogged s = IsLog s.events s.proposal s.signatures s.finalization

module _ (es : List PsbtSessionEvent) (p : NewPsbtSession) (gs : List SignatureRecord)
    (f : Option FinalizationRecord) (i : IsLog es p gs f) where
  plain-IsLog : (e : PsbtSessionEvent) → is_plain e ≡ true → IsLog (es ++ e ∷ []) p gs f
  plain-IsLog e h = record {
    proposal = first_proposal-append es (e ∷ []) p i.proposal;
    signatures = signatures_in-plain es e h ∙ i.signatures;
    finalization = first_final-plain es e h ∙ i.finalization;
  }

  signature-IsLog : (g : SignatureRecord) → IsLog (es ++ signature_added g ∷ []) p (gs ++ g ∷ []) f
  signature-IsLog g = record {
    proposal = first_proposal-append es (signature_added g ∷ []) p i.proposal;
    signatures =
        signatures_in-append es (signature_added g ∷ []) ∙ ap (λ xs. xs ++ g ∷ []) i.signatures;
    finalization = first_final-sign es g ∙ i.finalization;
  }

  final-IsLog :
      (r : FinalizationRecord)
      → any is_finalized_event es ≡ false
      → IsLog (es ++ finalized_with r ∷ []) p gs (some r)
  final-IsLog r h = record {
    proposal = first_proposal-append es (finalized_with r ∷ []) p i.proposal;
    signatures = signatures_in-final es r ∙ i.signatures;
    finalization = first_final-none es (finalized_with r ∷ []) h;
  }

module _ (guard : IdempotencyGuard PsbtSessionEvent) where
  guard-finalized :
      (s : PsbtSession)
      → guard.applied is_finalized_event never (reverse s.events) ≡ any is_finalized_event s.events
  guard-finalized s =
      guard.applied_lem is_finalized_event never (reverse s.events)
      ∙ guard_loop-never is_finalized_event (reverse s.events)
      ∙ any-reverse is_finalized_event s.events

  see-IsLogged :
      (r : Option FinalizationRecord) (s : PsbtSession) (t : Txid)
      → IsLogged s
      → IsLogged (mark_broadcast_seen_from guard r s t).0
  unfolding mark_broadcast_seen_from
  see-IsLogged none s t i = i
  see-IsLogged (some f) s t i =
      ground
        (arith, plain-IsLog s.events s.proposal s.signatures s.finalization i (broadcast_seen t))

  confirm-IsLogged :
      (r : Option FinalizationRecord) (s : PsbtSession) (t : Txid) (n : ℕ) (b : BlockHash)
      → IsLogged s
      → IsLogged (confirm_from guard r s t n b).0
  unfolding confirm_from
  confirm-IsLogged none s t n b i = i
  confirm-IsLogged (some f) s t n b i =
      ground
        (arith, plain-IsLog s.events s.proposal s.signatures s.finalization i (confirmed_at t n b))

  execute-IsLogged : (c : Command) (s : PsbtSession) → IsLogged s → IsLogged (execute guard c s)
  unfolding execute record_psbt_created add_signature finalize mark_broadcast_seen confirm
      invalidate cancel
  execute-IsLogged (attach h) s i =
      ground (arith, plain-IsLog s.events s.proposal s.signatures s.finalization i (psbt_created h))
  execute-IsLogged (sign fp h) s i = ground (
    arith,
    signature-IsLog s.events s.proposal s.signatures s.finalization i
        (record { fingerprint = fp; signed_psbt_hash = h }),
  )
  execute-IsLogged (complete t h ks) s i = ground (
    arith,
    guard-finalized s,
    final-IsLog s.events s.proposal s.signatures s.finalization i (finalization_record t h ks),
  )
  execute-IsLogged (see t) s i = see-IsLogged s.finalization s t i
  execute-IsLogged (confirm_tx t n b) s i = confirm-IsLogged s.finalization s t n b i
  execute-IsLogged (reverse_tx r) s i =
      ground
        (arith, plain-IsLog s.events s.proposal s.signatures s.finalization i (invalidated_by r))
  execute-IsLogged (abandon u r) s i =
      ground
        (arith, plain-IsLog s.events s.proposal s.signatures s.finalization i (cancelled_by u r))

  pub Reaches-IsLogged :
      (n : NewPsbtSession) {s : PsbtSession} → Reaches guard (session_of n) s → IsLogged s
  Reaches-IsLogged n here = record { proposal = refl; signatures = refl; finalization = refl }
  Reaches-IsLogged n (next {t = u} c r) = execute-IsLogged c u (Reaches-IsLogged n r)

-- A later state of a session: nothing that was recorded is lost or changed.
pub record IsLater (s t : PsbtSession) : Type 0 where
  pub new_events : List PsbtSessionEvent
  pub events_kept : t.events ≡ s.events ++ new_events
  pub proposal_kept : t.proposal ≡ s.proposal
  pub new_signatures : List SignatureRecord
  pub signatures_kept : t.signatures ≡ s.signatures ++ new_signatures
  pub finalization_kept :
      (f : FinalizationRecord) → s.finalization ≡ some f → t.finalization ≡ some f

some_injective :
    (o : Option NewPsbtSession) (p q : NewPsbtSession) → o ≡ some p → o ≡ some q → p ≡ q
some_injective o p q h k = ground arith

pub IsLater-of_logs :
    (s t : PsbtSession) (new : List PsbtSessionEvent)
    → IsLogged s
    → IsLogged t
    → t.events ≡ s.events ++ new
    → IsLater s t
IsLater-of_logs s t new i j e = record {
  new_events = new;
  events_kept = e;
  proposal_kept =
      some_injective (first_proposal t.events) t.proposal s.proposal j.proposal
        (ap first_proposal e ∙ first_proposal-append s.events new s.proposal i.proposal);
  new_signatures = signatures_in new;
  signatures_kept =
      sym j.signatures
      ∙ ap signatures_in e
      ∙ signatures_in-append s.events new
      ∙ ap (λ gs. gs ++ signatures_in new) i.signatures;
  finalization_kept = λ f h.
      sym j.finalization
      ∙ ap first_final e
      ∙ first_final-append s.events new f (i.finalization ∙ h);
}
