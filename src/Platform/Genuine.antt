-- ===== src/Platform/Genuine.antt =====
-- Rows that accepted proposals and commands have written.
use kota.Base.{
  ℕ, ◌≡◌, ◌≢◌, refl, ap, subst, ◌∙◌, Option, none, some, List, [], ◌∷◌, Result, ok, err, arith,
}
use kota.Primitives.{PsbtSessionId, Txid, BlockHash}
use kota.EsEntity.{IdempotencyGuard}
use kota.Session.Types.{FinalizationRecord, NewPsbtSession, PsbtSessionEvent, PsbtSession}
use kota.Session.Entity.{
  record_psbt_created, add_signature, finalize, mark_broadcast_seen, mark_broadcast_seen_from,
  confirm, confirm_from, invalidate, cancel,
}
use kota.Session.Hydrate.{try_from_events}
use kota.Session.Propose.{into_events}
use kota.Session.Commands.{
  Command, attach, sign, complete, see, confirm_tx, reverse_tx, abandon, execute, Reaches, next,
}
use kota.Session.Replay.{try_from_events_of_IsReplayed}
use kota.Session.Invariant.{IsSound, IsSound-of_hydrated, Reaches-IsSound}
use kota.Session.Lifecycle.{IsPhased, Reaches-IsPhased}
use kota.Session.Proposal.{session_of}
use kota.Platform.Repos.{FindError, hydration_failed, found_session}

no_rows_no_session : (s : PsbtSession) → try_from_events [] ≢ ok s
unfolding try_from_events
no_rows_no_session s h = ground arith

-- Rows that hydrate are found as what they hydrate to.
pub found_of_rows :
    (id : PsbtSessionId) (s : PsbtSession) (rows : List PsbtSessionEvent)
    → try_from_events rows ≡ ok s
    → found_session id rows ≡ ok s
found_of_rows id s [] h = absurd (no_rows_no_session s h)
found_of_rows id s (e ∷ es) h = rw (h, found_session) refl

ok_same : (r : Result PsbtSession FindError) (a b : PsbtSession) → r ≡ ok a → r ≡ ok b → a ≡ b
ok_same r a b p q = cc

module _ (guard : IdempotencyGuard PsbtSessionEvent) where
  see-proposal :
      (f : Option FinalizationRecord) (s : PsbtSession) (t : Txid)
      → (mark_broadcast_seen_from guard f s t).0.proposal ≡ s.proposal
  unfolding mark_broadcast_seen_from
  see-proposal none s t = refl
  see-proposal (some f) s t = ground arith

  confirm-proposal :
      (f : Option FinalizationRecord) (s : PsbtSession) (t : Txid) (n : ℕ) (b : BlockHash)
      → (confirm_from guard f s t n b).0.proposal ≡ s.proposal
  unfolding confirm_from
  confirm-proposal none s t n b = refl
  confirm-proposal (some f) s t n b = ground arith

  -- No command changes what a session was created with.
  pub execute-proposal : (c : Command) (s : PsbtSession) → (execute guard c s).proposal ≡ s.proposal
  unfolding execute record_psbt_created add_signature finalize mark_broadcast_seen confirm
      invalidate cancel
  execute-proposal (attach h) s = ground arith
  execute-proposal (sign fp h) s = ground arith
  execute-proposal (complete t h ks) s = ground arith
  execute-proposal (see t) s = see-proposal s.finalization s t
  execute-proposal (confirm_tx t n b) s = confirm-proposal s.finalization s t n b
  execute-proposal (reverse_tx r) s = ground arith
  execute-proposal (abandon u r) s = ground arith

  -- A session that commands made of a hydrated proposal.
  pub record IsGenuine (id : PsbtSessionId) (s : PsbtSession) : Type 0 where
    pub born : NewPsbtSession
    pub born_hydrates : try_from_events (into_events born) ≡ ok (session_of born)
    pub reached : Reaches guard (session_of born) s
    pub same_id : s.id ≡ id

  module _ (id : PsbtSessionId) (s : PsbtSession) (g : IsGenuine id s) where
    pub IsGenuine-IsSound : IsSound s
    IsGenuine-IsSound =
        Reaches-IsSound guard (IsSound-of_hydrated (session_of g.born) g.born_hydrates) g.reached

    pub IsGenuine-IsPhased : IsPhased s
    IsGenuine-IsPhased =
        Reaches-IsPhased guard (record { unfinalized = λ h. refl; has_psbt = λ h. cc }) g.reached

    pub IsGenuine-hydrates : try_from_events s.events ≡ ok s
    IsGenuine-hydrates =
        let i = IsGenuine-IsSound in try_from_events_of_IsReplayed s i.replays i.well_formed

    pub IsGenuine-execute : (c : Command) → IsGenuine id (execute guard c s)
    IsGenuine-execute c = record {
      born = g.born;
      born_hydrates = g.born_hydrates;
      reached = next c g.reached;
      same_id = ap (λ (p : NewPsbtSession). p.id) (execute-proposal c s) ∙ g.same_id;
    }

  -- The rows of a session: they hydrate, if there are any, to a genuine session.
  pub record IsStored (id : PsbtSessionId) (rows : List PsbtSessionEvent) : Type 0 where
    pub hydrates : found_session id rows ≢ err hydration_failed
    pub genuine : (s : PsbtSession) → found_session id rows ≡ ok s → IsGenuine id s

  pub IsStored-of_genuine :
      (id : PsbtSessionId) (s : PsbtSession) → IsGenuine id s → IsStored id s.events
  IsStored-of_genuine id s g =
      let found = found_of_rows id s s.events (IsGenuine-hydrates id s g) in
      record {
        hydrates = λ bad. cc;
        genuine = λ t f. subst (IsGenuine id) (ok_same (found_session id s.events) s t found f) g;
      }
