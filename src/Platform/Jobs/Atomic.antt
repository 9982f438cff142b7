-- ===== src/Platform/Jobs/Atomic.antt =====
-- A job that fails leaves the database as it was, and no job panics.
use kota.Base.{
  ◌≡◌, ◌≢◌, refl, sym, subst, Bool, false, Option, some, List, [], ◌++◌, Result, ok, err,
  Idempotent, executed, already_applied,
}
use kota.Base.Actions.{
  Failure, raised, panicked, Ends, lift-Ends, or_raise-Ends, raise_if-Ends, or_raise, lift,
  raise_if, weaken_post,
}
use kota.Primitives.{PsbtSessionId}
use kota.Session.Types.{PsbtSession}
use kota.Session.Entity.{Outcome}
use kota.Storage.Store.{Bytes, put}
use kota.Session.Commands.{Command, execute}
use kota.Platform.Dispatch.{
  IsDispatched, IsDispatched-append, KeepsSignatures, execute-IsDispatched,
}
use kota.Platform.Repos.{World, FindError, find_session, transact, write_session, found_session}
use kota.Platform.Genuine.{
  IsGenuine, IsStored-of_genuine, found_of_rows, IsGenuine-hydrates, IsGenuine-execute,
}
use kota.Platform.Database.{TransactionError, JobConfig, Transaction}
use kota.Platform.Committed.{committed_found}
use kota.Platform.Consistent.{
  IsSessionRow, IsConsistent, IsProper, commit-IsConsistent, transact-Ends, found_session-IsGenuine,
  found_session-IsDispatched,
}
use kota.Platform.Jobs.Types.{session_error, session_find, session_modify, Services}
use kota.Platform.Jobs.Units.{put_blob, session_of, save, save_executed, save_always}

found_same : (r : Result PsbtSession FindError) (a b : PsbtSession) → r ≡ ok a → r ≡ ok b → a ≡ b
found_same r a b p q = cc

module _ {Db : Type 0} (sv : Services Db) (old : Db) where
  -- A failure that is an error and has left the database alone.
  abbrev pub Untouched : {E : Type 0} → Failure E → World Db → Type 0
  Untouched e u = (u.db ≡ old) × (e ≢ panicked)

  -- A value with what is known of it, before anything is committed.
  abbrev pub Known : {A : Type 0} → (A → Type 0) → A → World Db → Type 0
  Known P a u = (u.db ≡ old) × P a

  abbrev pub Kept : {A : Type 0} → A → World Db → Type 0
  Kept a u = IsConsistent sv u.db

  -- The database is consistent and has the session.
  abbrev pub Saved : {A : Type 0} → PsbtSessionId → PsbtSession → A → World Db → Type 0
  Saved id s a u = IsConsistent sv u.db × (find_session sv.database u.db id ≡ ok s)

  pub raised-ne-panicked : {E : Type 0} (e : E) → raised e ≢ panicked
  raised-ne-panicked e h = cc

  module _ (c : IsConsistent sv old) where
    pub session_of-Ends :
        (id : PsbtSessionId) (w : World Db)
        → w.db ≡ old
        → Ends (Known (λ s. find_session sv.database old id ≡ ok s)) Untouched (session_of sv id w)
    session_of-Ends id w e =
        lift-Ends (Known (λ s. find_session sv.database old id ≡ ok s)) Untouched session_find
          (find_session sv.database w.db id) w
          (λ s h. (e, subst (λ db. find_session sv.database db id ≡ ok s) e h))
          (λ why h. (e, raised-ne-panicked (session_find why)))

    pub transact-Kept :
        {E : Type 0} (f : TransactionError → E) (t : Transaction) (w : World Db)
        → w.db ≡ old
        → IsProper sv (sv.database.jobs old) t
        → Ends Kept Untouched (transact sv.database f t w)
    transact-Kept f t w e p =
        transact-Ends sv Kept Untouched f t w
          (λ db' h.
            commit-IsConsistent sv w.db db' t (subst (IsConsistent sv) (sym e) c)
              (subst (λ db. IsProper sv (sv.database.jobs db) t) (sym e) p) h)
          (λ why. (e, raised-ne-panicked (f why)))

    pub session-IsProper :
        (id : PsbtSessionId) (s : PsbtSession) (jobs : List JobConfig)
        → IsGenuine sv.session_guard id s
        → IsDispatched (sv.database.jobs old ++ jobs) s
        → IsProper sv (sv.database.jobs old) (write_session s jobs)
    session-IsProper id s jobs g d = record {
      session_rows =
          subst (λ n. IsSessionRow sv (sv.database.jobs old ++ jobs) n s.events) (sym g.same_id)
            (record {
              stored = IsStored-of_genuine sv.session_guard id s g;
              dispatched = λ t h.
                  subst (IsDispatched (sv.database.jobs old ++ jobs))
                    (found_same (found_session id s.events) s t
                      (found_of_rows id s s.events (IsGenuine-hydrates sv.session_guard id s g)) h)
                    d;
            });
      wallet_rows = tt;
    }

    -- What the entity under a command is: genuine, with its jobs queued.
    pub record IsOurs (id : PsbtSessionId) (s : PsbtSession) : Type 0 where
      pub genuine : IsGenuine sv.session_guard id s
      pub dispatched : IsDispatched (sv.database.jobs old) s

    pub found-IsOurs :
        (id : PsbtSessionId) (s : PsbtSession)
        → find_session sv.database old id ≡ ok s
        → IsOurs id s
    found-IsOurs id s f = record {
      genuine = found_session-IsGenuine sv old id s c f;
      dispatched = found_session-IsDispatched sv old id s c f;
    }

    pub execute-IsOurs :
        (o : Command) (id : PsbtSessionId) (s : PsbtSession)
        → KeepsSignatures o
        → IsOurs id s
        → IsOurs id (execute sv.session_guard o s)
    execute-IsOurs o id s k g = record {
      genuine = IsGenuine-execute sv.session_guard id s g.genuine o;
      dispatched = execute-IsDispatched sv.session_guard o s (sv.database.jobs old) k g.dispatched;
    }

    -- The session is committed: it is found from now on.
    pub save-Ends :
        (id : PsbtSessionId) (s : PsbtSession) (w : World Db)
        → w.db ≡ old
        → IsOurs id s
        → Ends (Saved id s) Untouched (save sv s w)
    save-Ends id s w e g =
        transact-Ends sv (Saved id s) Untouched session_modify (write_session s []) w
          (λ db' h. (
            commit-IsConsistent sv w.db db' (write_session s []) (subst (IsConsistent sv) (sym e) c)
                (subst (λ db. IsProper sv (sv.database.jobs db) (write_session s [])) (sym e)
                  (session-IsProper id s [] g.genuine
                    (IsDispatched-append (sv.database.jobs old) [] s g.dispatched)))
                h,
            committed_found sv w.db db' [] id s g.genuine h,
          ))
          (λ why. (e, raised-ne-panicked (session_modify why)))

    pub save_executed-Ends :
        {A : Type 0} (id : PsbtSessionId) (o : Outcome A) (w : World Db)
        → w.db ≡ old
        → IsOurs id o.0
        → (o.1 ≡ ok already_applied → find_session sv.database old id ≡ ok o.0)
        → Ends (Saved id o.0) Untouched (save_executed sv o w)
    save_executed-Ends id (s, err why) w e g same = record {
      by = (e, raised-ne-panicked (session_error why));
    }
    save_executed-Ends id (s, ok (executed a)) w e g same = save-Ends id s w e g
    save_executed-Ends id (s, ok already_applied) w e g same = record {
      by = (
        subst (IsConsistent sv) (sym e) c,
        subst (λ db. find_session sv.database db id ≡ ok s) (sym e) (same refl),
      );
    }

    -- A command that did not fail has its session committed.
    pub save_always-Ends :
        {A : Type 0} (id : PsbtSessionId) (o : Outcome A) (w : World Db)
        → w.db ≡ old
        → IsOurs id o.0
        → Ends
            (λ done u. Saved id o.0 done u × ((a : Idempotent A) × (o.1 ≡ ok a)))
            Untouched
            (save_always sv o w)
    save_always-Ends id (s, err why) w e g = record {
      by = (e, raised-ne-panicked (session_error why));
    }
    save_always-Ends id (s, ok done) w e g =
        weaken_post (save sv s w) (λ d u k. (k, (done, refl))) (save-Ends id s w e g)

    pub lift-Known :
        {A F E : Type 0} (f : F → E) (r : Result A F) (w : World Db)
        → w.db ≡ old
        → Ends (Known (λ a. r ≡ ok a)) Untouched (lift f r w)
    lift-Known f r w e =
        lift-Ends (Known (λ a. r ≡ ok a)) Untouched f r w (λ a h. (e, h))
          (λ why h. (e, raised-ne-panicked (f why)))

    pub or_raise-Known :
        {A E : Type 0} (o : Option A) (x : E) (w : World Db)
        → w.db ≡ old
        → Ends (Known (λ a. o ≡ some a)) Untouched (or_raise o x w)
    or_raise-Known o x w e =
        or_raise-Ends (Known (λ a. o ≡ some a)) Untouched o x w (λ a h. (e, h))
          (λ h. (e, raised-ne-panicked x))

    pub put_blob-Known :
        (E : Type 0) (bytes : Bytes) (w : World Db)
        → w.db ≡ old
        → Ends {E = E} (Known (λ h. h ≡ sv.digest_of bytes)) Untouched (put_blob sv bytes w)
    unfolding put_blob put
    put_blob-Known E bytes w e = record { by = (e, refl) }

    pub raise_if-Known :
        {E : Type 0} (b : Bool) (x : E) (w : World Db)
        → w.db ≡ old
        → Ends (Known (λ done. b ≡ false)) Untouched (raise_if b x w)
    raise_if-Known b x w e =
        raise_if-Ends (Known (λ done. b ≡ false)) Untouched b x w (λ h. (e, h))
          (λ h. (e, raised-ne-panicked x))
