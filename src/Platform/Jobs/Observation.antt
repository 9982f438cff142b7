-- ===== src/Platform/Jobs/Observation.antt =====
-- A chain observation is delivered to the stored session as the command that it stands for.
use kota.Base.{◌≡◌, refl, sym, subst, ◌∙◌, Result, ok, err, Idempotent, executed, already_applied}
use kota.Base.Actions.{Ends, bind-Ends, weaken_post}
use kota.Primitives.{PsbtSessionId}
use kota.Session.Types.{PsbtSessionEvent, PsbtSession, PsbtSessionError}
use kota.Session.Commands.{Command, see, confirm_tx, reverse_tx, execute, reply}
use kota.Session.Idempotence.{Trail, event_of, execute-Trail}
use kota.Platform.Dispatch.{KeepsSignatures}
use kota.Platform.Repos.{World, find_session}
use kota.Platform.Consistent.{IsConsistent}
use kota.Platform.Jobs.Types.{
  ChainObservation, broadcast_of, confirmed_of, invalidated_of, Services,
}
use kota.Platform.Jobs.Units.{save_executed, observe, apply_chain_observation}
use kota.Platform.Jobs.Atomic.{
  Untouched, IsOurs, found-IsOurs, execute-IsOurs, session_of-Ends, save_executed-Ends,
}

-- The command that an observation stands for.
abbrev pub command_of : ChainObservation → Command
command_of (broadcast_of txid) = see txid
command_of (confirmed_of txid height block_hash) = confirm_tx txid height block_hash
command_of (invalidated_of reason) = reverse_tx reason

command-KeepsSignatures : (o : ChainObservation) → KeepsSignatures (command_of o)
command-KeepsSignatures (broadcast_of txid) = tt
command-KeepsSignatures (confirmed_of txid n b) = tt
command-KeepsSignatures (invalidated_of reason) = tt

applied_unchanged :
    (e : PsbtSessionEvent) (s t : PsbtSession) (r : Result (Idempotent (Unit {0})) PsbtSessionError)
    → Trail e s t r
    → r ≡ ok already_applied
    → s ≡ t
applied_unchanged e s t (ok (executed a)) h q = cc
applied_unchanged e s t (ok already_applied) h q = sym h
applied_unchanged e s t (err why) h q = sym h

module _ {Db : Type 0} (sv : Services Db) where
  pub observe-eq :
      (o : ChainObservation) (s : PsbtSession)
      → (observe sv o s).0 ≡ execute sv.session_guard (command_of o) s
  unfolding observe execute
  observe-eq (broadcast_of txid) s = refl
  observe-eq (confirmed_of txid n b) s = refl
  observe-eq (invalidated_of reason) s = refl

  pub observe-reply :
      (o : ChainObservation) (s : PsbtSession)
      → (observe sv o s).1 ≡ reply sv.session_guard (command_of o) s
  unfolding observe reply
  observe-reply (broadcast_of txid) s = refl
  observe-reply (confirmed_of txid n b) s = refl
  observe-reply (invalidated_of reason) s = refl

  observe_applied :
      (o : ChainObservation) (s : PsbtSession)
      → (observe sv o s).1 ≡ ok already_applied
      → s ≡ (observe sv o s).0
  observe_applied o s h =
      applied_unchanged (event_of (command_of o)) s (execute sv.session_guard (command_of o) s)
        (reply sv.session_guard (command_of o) s) (execute-Trail sv.session_guard (command_of o) s)
        (sym (observe-reply o s) ∙ h)
      ∙ sym (observe-eq o s)

  -- On a consistent database, an observation that is applied leaves the stored session as the
  -- command that it stands for leaves it, and the database consistent; one that is refused is an
  -- error, no panic, and leaves the database as it was.
  pub apply_chain_observation-refines :
      (id : PsbtSessionId) (o : ChainObservation) (w : World Db)
      → IsConsistent sv w.db
      → Ends
          (λ done u.
            IsConsistent sv u.db
            × ((s : PsbtSession) × (find_session sv.database w.db id ≡ ok s)
                × (find_session sv.database u.db id
                    ≡ ok (execute sv.session_guard (command_of o) s))))
          (Untouched sv w.db)
          (apply_chain_observation sv id o w)
  unfolding apply_chain_observation
  apply_chain_observation-refines id o w c =
      bind-Ends _ _ w _ _ _ (session_of-Ends sv w.db c id w refl) (λ s u k.
        weaken_post (save_executed sv (observe sv o s) u)
          (λ done t h. (
            h.0,
            (s, k.1, subst (λ x. find_session sv.database t.db id ≡ ok x) (observe-eq o s) h.1),
          ))
          (save_executed-Ends sv w.db c id (observe sv o s) u k.0
            (subst (IsOurs sv w.db c id) (sym (observe-eq o s)) (
              execute-IsOurs sv w.db c (command_of o) id s (command-KeepsSignatures o)
                (found-IsOurs sv w.db c id s k.1)))
            (λ h.
              subst (λ x. find_session sv.database w.db id ≡ ok x) (observe_applied o s h) k.1)))
