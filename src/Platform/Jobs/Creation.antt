-- ===== src/Platform/Jobs/Creation.antt =====
-- `run_psbt_creation` fails without a trace in the database, and records what it returns.
use kota.Base.{◌≡◌, refl, sym, subst, true, not, Option, none, some, ok, arith}
use kota.Base.Actions.{Ends, bind-Ends}
use kota.Primitives.{PsbtSessionId, PsbtHash}
use kota.Session.Types.{PsbtSession, pending}
use kota.Session.Entity.{status, is_pending, record_psbt_created}
use kota.Session.Commands.{attach, execute}
use kota.Wallet.Entity.{descriptor}
use kota.Session.Outcomes.{record_psbt_created_sets}
use kota.Platform.Repos.{World, find_wallet, find_session}
use kota.Platform.Consistent.{IsConsistent}
use kota.Platform.Jobs.Types.{
  JobsError, wallet_find, wallet_error, wallet_not_active, unexpected_status, Services,
}
use kota.Platform.Jobs.Units.{FundingUtxoProvider, create_psbt, create_unless, run_psbt_creation}
use kota.Platform.Jobs.Atomic.{
  Untouched, IsOurs, found-IsOurs, execute-IsOurs, session_of-Ends, save_always-Ends, lift-Known,
  or_raise-Known, put_blob-Known, raise_if-Known,
}

module _ {Db : Type 0} (sv : Services Db) where
  -- What a run that returns `hash` leaves behind.
  abbrev pub IsCreated : PsbtSessionId → PsbtHash → World Db → Type 0
  IsCreated id hash u =
      IsConsistent sv u.db
      × ((s : PsbtSession) × (find_session sv.database u.db id ≡ ok s)
          × (s.unsigned_psbt_hash ≡ some hash))

module _ {Db : Type 0} (sv : Services Db) (old : Db) (c : IsConsistent sv old) where
  attach-IsOurs :
      (id : PsbtSessionId) (s : PsbtSession) (h : PsbtHash)
      → IsOurs sv old c id s
      → IsOurs sv old c id (record_psbt_created sv.session_guard s h).0
  unfolding execute
  attach-IsOurs id s h g = execute-IsOurs sv old c (attach h) id s tt g

  create_psbt-Ends :
      (funding : FundingUtxoProvider) (id : PsbtSessionId) (s : PsbtSession) (w : World Db)
      → w.db ≡ old
      → IsOurs sv old c id s
      → is_pending (status s) ≡ true
      → Ends (IsCreated sv id) (Untouched sv old) (create_psbt sv funding s w)
  unfolding create_psbt
  create_psbt-Ends funding id s w e g p =
      bind-Ends _ _ w _ _ _
        (lift-Known sv old c wallet_find (find_wallet sv.database w.db s.wallet_id) w e)
        (λ v u k.
          bind-Ends _ _ u _ _ _ (lift-Known sv old c (λ x. x) (funding v s.inputs) u k.0)
            (λ utxos u k.
              bind-Ends _ _ u _ _ _
                (or_raise-Known sv old c (descriptor v) (wallet_not_active v.id) u k.0)
                (λ d u k.
                  bind-Ends _ _ u _ _ _ (lift-Known sv old c wallet_error _ u k.0) (λ psbt u k.
                    bind-Ends _ _ u _ _ _
                      (put_blob-Known sv old c JobsError (sv.serialize_built psbt) u k.0)
                      (λ hash u k.
                        bind-Ends _ _ u _ _ _
                          (save_always-Ends sv old c id
                            (record_psbt_created sv.session_guard s hash) u k.0
                            (attach-IsOurs id s hash g))
                          (λ done u k. record {
                            by = (
                              k.0.0,
                              (
                                (record_psbt_created sv.session_guard s hash).0,
                                k.0.1,
                                record_psbt_created_sets sv.session_guard s hash p,
                              ),
                            );
                          }))))))

  -- On a consistent database, a run of the PSBT job that returns a hash leaves the stored session
  -- with this unsigned PSBT, and the database consistent, whether it is the first run or a retry; a
  -- run that fails is no panic and leaves the database as it was.
  pub run_psbt_creation-Ends :
      (funding : FundingUtxoProvider) (id : PsbtSessionId) (w : World Db)
      → w.db ≡ old
      → Ends (IsCreated sv id) (Untouched sv old) (run_psbt_creation sv funding id w)
  unfolding run_psbt_creation
  run_psbt_creation-Ends funding id w e =
      bind-Ends _ _ w _ _ _ (session_of-Ends sv old c id w e)
        (λ s u k. unless s.unsigned_psbt_hash s u refl k.0 k.1)
    where
      unless :
          (o : Option PsbtHash) (s : PsbtSession) (u : World Db)
          → s.unsigned_psbt_hash ≡ o
          → u.db ≡ old
          → find_session sv.database old id ≡ ok s
          → Ends (IsCreated sv id) (Untouched sv old) (create_unless sv o funding id s u)
      unless (some hash) s u q k f = record {
        by = (
          subst (IsConsistent sv) (sym k) c,
          (s, subst (λ db. find_session sv.database db id ≡ ok s) (sym k) f, q),
        );
      }
      unless none s u q k f =
          bind-Ends _ _ u _ _ _
            (raise_if-Known sv old c (not (is_pending (status s)))
              (unexpected_status id (status s) pending) u k)
            (λ done t m.
              create_psbt-Ends funding id s t m.0 (found-IsOurs sv old c id s f) (ground arith))
