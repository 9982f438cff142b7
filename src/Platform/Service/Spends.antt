-- ===== src/Platform/Service/Spends.antt =====
-- `propose_spend`: the new session and the job that builds its PSBT are committed together.
use kota.Base.{◌≡◌, refl, sym, subst, ap, ◌∙◌, List, [], ◌∷◌, ◌++◌, Result, ok}
use kota.Base.Actions.{Ends, bind-Ends}
use kota.Primitives.{PsbtSessionId, WalletId, UserId}
use kota.Session.Types.{NewPsbtSession, PsbtSession}
use kota.Session.Propose.{SpendSpec, try_new, into_events}
use kota.Session.Proposal.{
  session_of, IsProposable, proposal_of, try_new_iff, try_new-snapshot, try_new-hydrates,
}
use kota.Session.Commands.{here}
use kota.Session.Hydrate.{try_from_events}
use kota.Wallet.Types.{Wallet}
use kota.Platform.Database.{TransactionError, JobConfig, psbt_creation}
use kota.Platform.Repos.{
  World, FindError, found_session, find_session, find_wallet, transact, write_session,
}
use kota.Platform.Dispatch.{IsDispatched, IsDispatched-spawned}
use kota.Platform.Genuine.{IsGenuine, found_of_rows}
use kota.Platform.Committed.{committed_found}
use kota.Platform.Consistent.{
  IsConsistent, IsProper, commit-IsConsistent, transact-Ends, found_wallet-IsGenuine,
}
use kota.Platform.Jobs.Types.{Services}
use kota.Platform.Jobs.Atomic.{Untouched, raised-ne-panicked, session-IsProper, lift-Known}
use kota.Platform.Service.{
  CoordinationError, psbt_session_error, session_create, not_hydrated, create_failed, propose_spend,
}
use kota.Platform.Service.Wallets.{find_wallet_or-Ends}

same_session : (r : Result PsbtSession FindError) (a b : PsbtSession) → r ≡ ok a → r ≡ ok b → a ≡ b
same_session r a b p q = cc

module _ {Db : Type 0} (sv : Services Db) (old : Db) where
  -- The session is stored, and the jobs are queued behind the old ones.
  abbrev pub IsQueued : PsbtSessionId → PsbtSession → List JobConfig → World Db → Type 0
  IsQueued id s jobs u =
      IsConsistent sv u.db
      × (find_session sv.database u.db id ≡ ok s)
      × (sv.database.jobs u.db ≡ sv.database.jobs old ++ jobs)

  -- What `propose_spend` starts: the session of the proposal as given, on the stored wallet.
  abbrev pub IsProposed : PsbtSessionId → WalletId → UserId → SpendSpec → PsbtSession → Type 0
  IsProposed session_id id user spend s =
      (v : Wallet) × (find_wallet sv.database old id ≡ ok v)
      × IsProposable sv.miniscript sv.bitcoin v spend
      × (s ≡ session_of (proposal_of sv.miniscript sv.bitcoin session_id v user spend))

  module _ (c : IsConsistent sv old) where
    pub queue-Ends :
        (f : TransactionError → CoordinationError) (id : PsbtSessionId) (s : PsbtSession)
        (jobs : List JobConfig) (w : World Db)
        → w.db ≡ old
        → IsGenuine sv.session_guard id s
        → IsDispatched (sv.database.jobs old ++ jobs) s
        → Ends
            (λ done u. IsQueued id s jobs u)
            (Untouched sv old)
            (transact sv.database f (write_session s jobs) w)
    queue-Ends f id s jobs w e g d =
        transact-Ends sv (λ done u. IsQueued id s jobs u) (Untouched sv old) f
          (write_session s jobs) w
          (λ db' h. (
            commit-IsConsistent sv w.db db' (write_session s jobs)
                (subst (IsConsistent sv) (sym e) c)
                (subst (λ db. IsProper sv (sv.database.jobs db) (write_session s jobs)) (sym e)
                  (session-IsProper sv old c id s jobs g d))
                h,
            committed_found sv w.db db' jobs id s g h,
            subst (λ db. sv.database.jobs db' ≡ sv.database.jobs db ++ jobs) e
                (sv.database.jobs-commit w.db db' (write_session s jobs) h),
          ))
          (λ why. (e, raised-ne-panicked sv old (f why)))

    -- The proposal on a stored wallet hydrates.
    pub proposal_hydrates :
        (session_id : PsbtSessionId) (id : WalletId) (v : Wallet) (user : UserId)
        (spend : SpendSpec) (p : NewPsbtSession)
        → find_wallet sv.database old id ≡ ok v
        → try_new sv.miniscript sv.bitcoin session_id v user spend ≡ ok p
        → try_from_events (into_events p) ≡ ok (session_of p)
    proposal_hydrates session_id id v user spend p f h =
        let g = found_wallet-IsGenuine sv old id v c f in
        try_new-hydrates sv.miniscript sv.bitcoin sv.wallet_guard g.registration g.born v session_id
          user spend p g.registered g.reached h

    as_returned :
        (id : PsbtSessionId) (p : NewPsbtSession) (s : PsbtSession) (u : World Db)
        → session_of p ≡ s
        → p.id ≡ id
        → IsQueued p.id (session_of p) (psbt_creation s.id ∷ []) u
        → IsQueued id s (psbt_creation id ∷ []) u
    as_returned id p s u e i h =
        let same_id : s.id ≡ p.id = ap (λ (x : PsbtSession). x.id) (sym e) in
        subst (λ n. IsQueued n s (psbt_creation n ∷ []) u) (same_id ∙ i)
          (subst (λ x. IsQueued x.id x (psbt_creation x.id ∷ []) u) e
            (subst (λ n. IsQueued p.id (session_of p) (psbt_creation n ∷ []) u) same_id h))

    -- On a consistent database, a proposal that succeeds was proposable on the stored wallet; it
    -- leaves the database consistent, with the returned session stored under the given id as the
    -- spend and a snapshot of the policy of the wallet, and with the job that builds its PSBT
    -- queued. A proposal that fails is an error, no panic, and leaves the database as it was.
    pub propose_spend-Ends :
        (session_id : PsbtSessionId) (id : WalletId) (user : UserId) (spend : SpendSpec)
        (w : World Db)
        → w.db ≡ old
        → Ends
            (λ s u.
              IsQueued session_id s (psbt_creation session_id ∷ []) u
              × IsProposed session_id id user spend s)
            (Untouched sv old)
            (propose_spend sv session_id id user spend w)
    unfolding propose_spend
    propose_spend-Ends session_id id user spend w e =
        bind-Ends _ _ w _ _ _ (find_wallet_or-Ends sv old c id w e) (λ v u k.
          bind-Ends _ _ u _ _ _
            (lift-Known sv old c psbt_session_error
              (try_new sv.miniscript sv.bitcoin session_id v user spend) u k.0)
            (λ p u m.
              bind-Ends _ _ u _ _ _
                (lift-Known sv old c (λ why. session_create (not_hydrated why))
                  (found_session p.id (into_events p)) u m.0)
                (λ s u n.
                  let born = proposal_hydrates session_id id v user spend p k.1 m.1 in
                  let new =
                    try_new-snapshot sv.miniscript sv.bitcoin session_id v user spend p m.1 in
                  let same : session_of p ≡ s =
                    same_session (found_session p.id (into_events p)) (session_of p) s
                      (found_of_rows p.id (session_of p) (into_events p) born) n.1 in
                  bind-Ends _ _ u _ _ _
                    (queue-Ends create_failed p.id (session_of p) (psbt_creation s.id ∷ []) u n.0
                      (record { born = p; born_hydrates = born; reached = here; same_id = refl })
                      (subst
                        (λ n.
                          IsDispatched (sv.database.jobs old ++ psbt_creation n ∷ [])
                            (session_of p))
                        (ap (λ (x : PsbtSession). x.id) same)
                        (IsDispatched-spawned (sv.database.jobs old) (session_of p) refl)))
                    (λ done t q. record {
                      by = (
                        as_returned session_id p s t same
                            (ap (λ (x : NewPsbtSession). x.id) (sym new.1)) q,
                        (
                          v,
                          k.1,
                          (try_new_iff sv.miniscript sv.bitcoin session_id v user spend).0
                              (m.1 ∙ ap ok (sym new.1)),
                          sym same ∙ ap session_of (sym new.1),
                        ),
                      );
                    }))))
