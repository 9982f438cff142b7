-- ===== src/Platform/Commits.antt =====
-- What holds of a database through every transaction that commits holds through every use case and
-- job, on all of their paths.
pub mod UseCases
use kota.Base.{
  ℕ, ◌≡◌, refl, Bool, true, false, Option, none, some, List, [], ◌∷◌, ◌++◌, Result, ok, err,
  Idempotent, executed, already_applied, is_empty,
}
use kota.Base.Actions.{
  Action, Failure, ◌>>=◌, ◌>>◌, pure, raise, lift, or_raise, or_panic, raise_if, continue,
}
use kota.Primitives.{PsbtSessionId, WalletId, UserId, PsbtHash, KeyFingerprint, Txid, Text}
use kota.Psbt.Types.{Psbt}
use kota.Session.Types.{PsbtSession, FinalizationRecord, SignatureRecord}
use kota.Session.Entity as Session
use kota.Storage.Store.{Bytes}
use kota.Wallet.Types.{Wallet}
use kota.Wallet.Entity
use kota.Platform.Database.{Database, Transaction, TransactionError}
use kota.Platform.Repos.{World, committed, transact}
use kota.Platform.Jobs.Types.{Services, ChainObservation, JobsError}
use kota.Platform.Jobs.Units.{
  FundingUtxoProvider, put_blob, save_executed, save_always, observe, apply_chain_observation,
  create_psbt, create_unless, run_psbt_creation,
}
use kota.Platform.Jobs.Finalization.{
  load_psbt, record_final, absorb, finalize_loop, finalize_unless, run_finalization,
}

module _ {Db : Type 0} (P : Db → Type 0) where
  abbrev pub Keeps : {E A : Type 0} → Action (World Db) E A → Type 0
  Keeps a = (w : World Db) → P w.db → P (a w).1.db

  module _ {E A B : Type 0} where
    continue-Keeps :
        (r : Result A (Failure E)) (f : A → Action (World Db) E B)
        → ((a : A) → Keeps (f a))
        → Keeps (continue r f)
    continue-Keeps (ok a) f k w p = k a w p
    continue-Keeps (err e) f k w p = p

    pub bind-Keeps :
        (m : Action (World Db) E A) (f : A → Action (World Db) E B)
        → Keeps m
        → ((a : A) → Keeps (f a))
        → Keeps (m >>= f)
    unfolding ◌>>=◌
    bind-Keeps m f h k w p = continue-Keeps (m w).0 f k (m w).1 (h w p)

  module _ {E A : Type 0} where
    pub lift-Keeps : {F : Type 0} (f : F → E) (r : Result A F) → Keeps (lift f r)
    lift-Keeps f (ok a) w p = p
    lift-Keeps f (err e) w p = p

    pub or_raise-Keeps : (o : Option A) (e : E) → Keeps (or_raise o e)
    or_raise-Keeps none e w p = p
    or_raise-Keeps (some a) e w p = p

  pub or_panic-Keeps : (E : Type 0) {A : Type 0} (o : Option A) → Keeps {E = E} (or_panic o)
  or_panic-Keeps E none w p = p
  or_panic-Keeps E (some a) w p = p

  pub raise_if-Keeps : {E : Type 0} (b : Bool) (e : E) → Keeps (raise_if b e)
  raise_if-Keeps true e w p = p
  raise_if-Keeps false e w p = p

-- A property that transactions keep.
pub record IsClosed {Db : Type 0} (d : Database Db) (P : Db → Type 0) : Type 0 where
  pub by_commit : (db db' : Db) (t : Transaction) → P db → d.commit db t ≡ ok db' → P db'

module _ {Db : Type 0} (sv : Services Db) (P : Db → Type 0) (closed : IsClosed sv.database P) where
  committed-Keeps :
      {E : Type 0} (f : TransactionError → E) (w : World Db) (r : Result Db TransactionError)
      → ((db' : Db) → r ≡ ok db' → P db')
      → P w.db
      → P (committed sv.database f r w).1.db
  committed-Keeps f w (ok db') k p = k db' refl
  committed-Keeps f w (err why) k p = p

  pub transact-Keeps :
      {E : Type 0} (f : TransactionError → E) (t : Transaction) → Keeps P (transact sv.database f t)
  unfolding transact
  transact-Keeps f t w p =
      committed-Keeps f w (sv.database.commit w.db t) (λ db' h. closed.by_commit w.db db' t p h) p

  save_executed-Keeps : {A : Type 0} (o : Session.Outcome A) → Keeps P (save_executed sv o)
  save_executed-Keeps (s, err e) w p = p
  save_executed-Keeps (s, ok (executed a)) w p = transact-Keeps _ _ w p
  save_executed-Keeps (s, ok already_applied) w p = p

  save_always-Keeps : {A : Type 0} (o : Session.Outcome A) → Keeps P (save_always sv o)
  save_always-Keeps (s, err e) w p = p
  save_always-Keeps (s, ok done) w p = transact-Keeps _ _ w p

  pub put_blob-Keeps : (E : Type 0) (bytes : Bytes) → Keeps P (put_blob sv {E = E} bytes)
  unfolding put_blob
  put_blob-Keeps E bytes w p = p

  pub apply_chain_observation-Keeps :
      (id : PsbtSessionId) (o : ChainObservation) → Keeps P (apply_chain_observation sv id o)
  unfolding apply_chain_observation
  apply_chain_observation-Keeps id o =
      bind-Keeps P _ _ (λ w p. lift-Keeps P _ _ w p) (λ s. save_executed-Keeps (observe sv o s))

  create_psbt-Keeps :
      (funding : FundingUtxoProvider) (s : PsbtSession) → Keeps P (create_psbt sv funding s)
  unfolding create_psbt
  create_psbt-Keeps funding s =
      bind-Keeps P _ _ (λ w p. lift-Keeps P _ _ w p)
        (λ wallet. bind-Keeps P _ _ (lift-Keeps P _ _) (λ utxos.
          bind-Keeps P _ _ (or_raise-Keeps P _ _) (λ d. bind-Keeps P _ _ (lift-Keeps P _ _) (λ psbt.
            bind-Keeps P _ _ (put_blob-Keeps JobsError (sv.serialize_built psbt)) (λ hash.
              bind-Keeps P _ _
                (save_always-Keeps (Session.record_psbt_created sv.session_guard s hash))
                (λ done w p. p))))))

  create_unless-Keeps :
      (o : Option PsbtHash) (funding : FundingUtxoProvider) (id : PsbtSessionId) (s : PsbtSession)
      → Keeps P (create_unless sv o funding id s)
  create_unless-Keeps (some hash) funding id s = λ w p. p
  create_unless-Keeps none funding id s =
      bind-Keeps P _ _ (raise_if-Keeps P _ _) (λ done. create_psbt-Keeps funding s)

  pub run_psbt_creation-Keeps :
      (funding : FundingUtxoProvider) (id : PsbtSessionId)
      → Keeps P (run_psbt_creation sv funding id)
  unfolding run_psbt_creation
  run_psbt_creation-Keeps funding id =
      bind-Keeps P _ _ (λ w p. lift-Keeps P _ _ w p)
        (λ s. create_unless-Keeps s.unsigned_psbt_hash funding id s)

  load_psbt-Keeps : (hash : PsbtHash) → Keeps P (load_psbt sv hash)
  unfolding load_psbt
  load_psbt-Keeps hash = bind-Keeps P _ _ (λ w p. lift-Keeps P _ _ w p) (λ bytes. lift-Keeps P _ _)

  absorb-Keeps : (u c : Psbt) (r : SignatureRecord) → Keeps P (absorb sv u c r)
  unfolding absorb
  absorb-Keeps u c r = bind-Keeps P _ _ (load_psbt-Keeps r.signed_psbt_hash) (λ signed.
      bind-Keeps P _ _ (lift-Keeps P _ _)
        (λ done. bind-Keeps P _ _ (or_panic-Keeps P JobsError _) (λ inputs w p. p)))

  record_final-Keeps :
      (s : PsbtSession) (used : List KeyFingerprint) (n : ℕ) → Keeps P (record_final sv s used n)
  unfolding record_final
  record_final-Keeps s used n = bind-Keeps P _ _ (or_raise-Keeps P _ _) (λ tx.
      bind-Keeps P _ _ (put_blob-Keeps JobsError (sv.finalizer.serialize_tx tx)) (λ hash.
        bind-Keeps P _ _
          (save_always-Keeps
            (Session.finalize sv.session_guard s (sv.finalizer.compute_txid tx) hash used))
          (λ done w p. p)))

  finalize_loop-Keeps :
      (s : PsbtSession) (u c : Psbt) (used : List KeyFingerprint) (rs : List SignatureRecord)
      → Keeps P (finalize_loop sv s u c used rs)
  unfolding finalize_loop
  finalize_loop-Keeps s u c used [] = λ w p. p
  finalize_loop-Keeps s u c used (r ∷ rs) = bind-Keeps P _ _ (absorb-Keeps u c r) (λ c'.
      from_document c' (sv.finalizer.try_finalize c')
        (finalize_loop-Keeps s u c' (used ++ r.fingerprint ∷ []) rs))
    where
      from_document :
          (c' : Psbt) (o : Option ℕ)
          → Keeps P (finalize_loop sv s u c' (used ++ r.fingerprint ∷ []) rs)
          → Keeps P (elim o as (λ x. Action (World Db) JobsError Txid) [
            | some final_psbt ↦ record_final sv s (used ++ r.fingerprint ∷ []) final_psbt
            | none ↦ finalize_loop sv s u c' (used ++ r.fingerprint ∷ []) rs
          ])
      from_document c' (some n) k = record_final-Keeps s (used ++ r.fingerprint ∷ []) n
      from_document c' none k = k

  finalize_unless-Keeps :
      (o : Option FinalizationRecord) (id : PsbtSessionId) (s : PsbtSession)
      → Keeps P (finalize_unless sv o id s)
  finalize_unless-Keeps (some f) id s = λ w p. p
  finalize_unless-Keeps none id s = bind-Keeps P _ _ (raise_if-Keeps P _ _) (λ done.
      bind-Keeps P _ _ (raise_if-Keeps P _ _) (λ done.
        bind-Keeps P _ _ (or_panic-Keeps P JobsError _) (λ hash.
          bind-Keeps P _ _ (load_psbt-Keeps hash)
            (λ u. finalize_loop-Keeps s u u [] s.signatures))))

  pub run_finalization-Keeps : (id : PsbtSessionId) → Keeps P (run_finalization sv id)
  unfolding run_finalization
  run_finalization-Keeps id =
      bind-Keeps P _ _ (λ w p. lift-Keeps P _ _ w p)
        (λ s. finalize_unless-Keeps s.finalization id s)
