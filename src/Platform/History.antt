-- ===== src/Platform/History.antt =====
-- The history of the stored sessions under all operations of the system.
use kota.Base.{◌≡◌, ◌≢◌, refl, sym, ap, subst, ◌∙◌, List, [], ◌∷◌, ◌++◌, Result, ok, err, arith}
use mathlib.Core.List.{append-nil, append_assoc}
use kota.Primitives.{PsbtSessionId, WalletId}
use kota.Wallet.Types.{WalletEvent}
use kota.Session.Types.{PsbtSessionEvent, PsbtSession}
use kota.Session.Hydrate.{HydrationError, try_from_events}
use kota.Session.Log.{IsLogged, IsLater, Reaches-IsLogged, IsLater-of_logs}
use kota.Session.Replay.{events_of_hydrated}
use kota.Platform.Database.{Database, Transaction}
use kota.Platform.Repos.{World, FindError, hydration_failed, found_session, find_session}
use kota.Platform.Consistent.{IsConsistent, found_session-IsGenuine}
use kota.Platform.Commits.{
  IsClosed, run_psbt_creation-Keeps, run_finalization-Keeps, apply_chain_observation-Keeps,
}
use kota.Platform.Commits.UseCases.{
  register_wallet-Keeps, submit_keystore-Keeps, remove_keystore_of-Keeps, cancel_wallet-Keeps,
  propose_spend-Keeps, submit_signed_psbt-Keeps,
}
use kota.Platform.Jobs.Types.{Services}
use kota.Platform.Steps.{
  Operation, register, submit, withdraw, abandon, propose, upload, create_job, finalize_job,
  observed, blobs_become, perform, Reaches, start, after, IsEmpty, IsConsistent-of_empty,
  Reaches-IsConsistent,
}

-- The event rows of es-entity are only inserted, behind those of the entity that are there:
-- `UNIQUE(id, sequence)`, and nothing updates or deletes them.
pub record AppendOnly {Db : Type 0} (d : Database Db) : Type 0 where
  pub appended :
      (db db' : Db) (t : Transaction) (id : PsbtSessionId)
      → d.commit db t ≡ ok db'
      → (new : List PsbtSessionEvent) × (d.session_events db' id ≡ d.session_events db id ++ new)
  pub appended_wallet :
      (db db' : Db) (t : Transaction) (id : WalletId)
      → d.commit db t ≡ ok db'
      → (new : List WalletEvent) × (d.wallet_events db' id ≡ d.wallet_events db id ++ new)

rows_of_found :
    (id : PsbtSessionId) (s : PsbtSession) (rows : List PsbtSessionEvent)
    → found_session id rows ≡ ok s
    → s.events ≡ rows
rows_of_found id s [] h = ground arith
rows_of_found id s (e ∷ es) h = hydrated (try_from_events (e ∷ es)) refl h
  where
    hydrated :
        (r : Result PsbtSession HydrationError)
        → try_from_events (e ∷ es) ≡ r
        → (elim r as (λ x. Result PsbtSession FindError) [
          | ok s ↦ ok s
          | err why ↦ err hydration_failed
        ])
          ≡ ok s
        → s.events ≡ e ∷ es
    hydrated (err why) q k = ground arith
    hydrated (ok t) q k = events_of_hydrated (e ∷ es) s (ground arith)

-- Rows that hold some and hydrate are found.
found_of_some :
    (id : PsbtSessionId) (e : PsbtSessionEvent) (es : List PsbtSessionEvent)
    → found_session id (e ∷ es) ≢ err hydration_failed
    → (s : PsbtSession) × (found_session id (e ∷ es) ≡ ok s)
found_of_some id e es h = of_result (try_from_events (e ∷ es)) h
  where
    of_result :
        (r : Result PsbtSession HydrationError)
        → (elim r as (λ x. Result PsbtSession FindError) [
          | ok s ↦ ok s
          | err why ↦ err hydration_failed
        ])
          ≢ err hydration_failed
        → (s : PsbtSession) × ((elim r as (λ x. Result PsbtSession FindError) [
          | ok s ↦ ok s
          | err why ↦ err hydration_failed
        ])
            ≡ ok s)
    of_result (err why) k = absurd (k refl)
    of_result (ok s) k = (s, refl)

found_later :
    (id : PsbtSessionId) (s : PsbtSession) (rows new : List PsbtSessionEvent)
    → found_session id rows ≡ ok s
    → found_session id (rows ++ new) ≢ err hydration_failed
    → (t : PsbtSession) × (found_session id (rows ++ new) ≡ ok t)
found_later id s [] new f h = ground arith
found_later id s (e ∷ es) new f h = found_of_some id e (es ++ new) h

module _ {Db : Type 0} (sv : Services Db) (log : AppendOnly sv.database) where
  open sv use {database}

  -- The event rows of the earlier database are the first ones still.
  pub record Extends (old db : Db) : Type 0 where
    pub sessions :
        (id : PsbtSessionId)
        → (new : List PsbtSessionEvent) × (database.session_events db id
            ≡ database.session_events old id ++ new)
    pub wallets :
        (id : WalletId)
        → (new : List WalletEvent) × (database.wallet_events db id
            ≡ database.wallet_events old id ++ new)

  Extends-refl : (db : Db) → Extends db db
  Extends-refl db = record {
    sessions = λ id. ([], sym (append-nil (database.session_events db id)));
    wallets = λ id. ([], sym (append-nil (database.wallet_events db id)));
  }

  Extends-IsClosed : (old : Db) → IsClosed database (Extends old)
  Extends-IsClosed old = record {
    by_commit = λ db db' t x h. record {
      sessions = λ id.
          let more = log.appended db db' t id h in
          let first = x.sessions id in
          (
            first.0 ++ more.0,
            more.1
                ∙ ap (λ rows. rows ++ more.0) first.1
                ∙ append_assoc (database.session_events old id) first.0 more.0,
          );
      wallets = λ id.
          let more = log.appended_wallet db db' t id h in
          let first = x.wallets id in
          (
            first.0 ++ more.0,
            more.1
                ∙ ap (λ rows. rows ++ more.0) first.1
                ∙ append_assoc (database.wallet_events old id) first.0 more.0,
          );
    };
  }

  perform-Extends :
      (old : Db) (o : Operation) (w : World Db)
      → Extends old w.db
      → Extends old (perform sv o w).0.db
  unfolding perform
  perform-Extends old (register id n ps) w x =
      register_wallet-Keeps sv (Extends old) (Extends-IsClosed old) id n ps w x
  perform-Extends old (submit id user k) w x =
      submit_keystore-Keeps sv (Extends old) (Extends-IsClosed old) id user k w x
  perform-Extends old (withdraw id user by) w x =
      remove_keystore_of-Keeps sv (Extends old) (Extends-IsClosed old) id user by w x
  perform-Extends old (abandon id user r) w x =
      cancel_wallet-Keeps sv (Extends old) (Extends-IsClosed old) id user r w x
  perform-Extends old (propose sid id user spend) w x =
      propose_spend-Keeps sv (Extends old) (Extends-IsClosed old) sid id user spend w x
  perform-Extends old (upload id user bytes) w x =
      submit_signed_psbt-Keeps sv (Extends old) (Extends-IsClosed old) id user bytes w x
  perform-Extends old (create_job funding id) w x =
      run_psbt_creation-Keeps sv (Extends old) (Extends-IsClosed old) funding id w x
  perform-Extends old (finalize_job id) w x =
      run_finalization-Keeps sv (Extends old) (Extends-IsClosed old) id w x
  perform-Extends old (observed id o) w x =
      apply_chain_observation-Keeps sv (Extends old) (Extends-IsClosed old) id o w x
  perform-Extends old (blobs_become blobs) w x = x

  pub Reaches-Extends : (w : World Db) {v : World Db} → Reaches sv w v → Extends w.db v.db
  Reaches-Extends w start = Extends-refl w.db
  Reaches-Extends w (after {v = u} o c r) = perform-Extends w.db o u (Reaches-Extends w r)

  stored-IsLogged :
      (db : Db) (id : PsbtSessionId) (s : PsbtSession)
      → IsConsistent sv db
      → find_session database db id ≡ ok s
      → IsLogged s
  stored-IsLogged db id s c f =
      let g = found_session-IsGenuine sv db id s c f in
      Reaches-IsLogged sv.session_guard g.born g.reached

  -- If event rows are only appended, then from a database without rows, whatever operations come, a
  -- session that is stored at some time is stored at every later time, with what it was proposed
  -- with, its events, its signatures in their order and its finalization as they were, and perhaps
  -- more.
  pub system_history :
      (w u v : World Db)
      → IsEmpty sv w.db
      → Reaches sv w u
      → Reaches sv u v
      → (id : PsbtSessionId) (s : PsbtSession) → find_session database u.db id ≡ ok s
      → (t : PsbtSession) × (find_session database v.db id ≡ ok t) × IsLater s t
  unfolding find_session
  system_history w u v e r q id s f =
      let cu = Reaches-IsConsistent sv (IsConsistent-of_empty sv w.db e) r in
      let cv = Reaches-IsConsistent sv cu q in
      let more = (Reaches-Extends u q).sessions id in
      let later = found_later id s (database.session_events u.db id) more.0 f (
        subst (λ rows. found_session id rows ≢ err hydration_failed) more.1
          (cv.sessions id).stored.hydrates) in
      let found : found_session id (database.session_events v.db id) ≡ ok later.0 =
        subst (λ rows. found_session id rows ≡ ok later.0) (sym more.1) later.1 in
      (
        later.0,
        found,
        IsLater-of_logs s later.0 more.0 (stored-IsLogged u.db id s cu f)
            (stored-IsLogged v.db id later.0 cv found)
            (rows_of_found id later.0 (database.session_events v.db id) found
              ∙ more.1
              ∙ ap (λ rows. rows ++ more.0)
                  (sym (rows_of_found id s (database.session_events u.db id) f))),
      )
