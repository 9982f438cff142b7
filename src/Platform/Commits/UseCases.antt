-- ===== src/Platform/Commits/UseCases.antt =====
-- The use cases of `Coordination`, src/kota/app/src/lib.rs, keep what every transaction keeps.
use kota.Base.{ℕ, Option, none, some, List, Result, ok, err, executed, already_applied}
use kota.Base.Actions.{Failure}
use kota.Primitives.{PsbtSessionId, WalletId, UserId, PsbtHash, KeyFingerprint, Text}
use kota.Session.Entity as Session
use kota.Session.Propose.{SpendSpec}
use kota.Storage.Store.{Bytes}
use kota.Wallet.Types.{DescriptorPublicKey, Wallet}
use kota.Wallet.Entity
use kota.Platform.Repos.{World}
use kota.Platform.Jobs.Types.{Services}
use kota.Platform.Commits.{
  Keeps, IsClosed, bind-Keeps, lift-Keeps, or_raise-Keeps, or_panic-Keeps, transact-Keeps,
  put_blob-Keeps,
}
use kota.Platform.Service.{
  CoordinationError, wallet_modify, update_wallet, register_wallet, collision,
  resolve_fingerprint_collision, or_resolved, keep_submission, submit_keystore, keep_wallet,
  remove_keystore_of, cancel_wallet, propose_spend, keep_signature, accept_upload,
  submit_signed_psbt, find_wallet_or, find_session_or,
}

module _ {Db : Type 0} (sv : Services Db) (P : Db → Type 0) (closed : IsClosed sv.database P) where
  find_wallet_or-Keeps : (id : WalletId) → Keeps P (find_wallet_or sv id)
  unfolding find_wallet_or
  find_wallet_or-Keeps id w p = lift-Keeps P _ _ w p

  find_session_or-Keeps : (id : PsbtSessionId) → Keeps P (find_session_or sv id)
  unfolding find_session_or
  find_session_or-Keeps id w p = lift-Keeps P _ _ w p

  pub register_wallet-Keeps :
      (id : WalletId) (threshold : ℕ) (ps : List UserId)
      → Keeps P (register_wallet sv id threshold ps)
  unfolding register_wallet
  register_wallet-Keeps id threshold ps = bind-Keeps P _ _ (lift-Keeps P _ _) (λ n.
      bind-Keeps P _ _ (lift-Keeps P _ _)
        (λ v. bind-Keeps P _ _ (transact-Keeps sv P closed _ _) (λ done w p. p)))

  resolve-Keeps :
      (v : Wallet) (e : Failure CoordinationError) → Keeps P (resolve_fingerprint_collision sv v e)
  unfolding resolve_fingerprint_collision
  resolve-Keeps v e w p = of_collision (collision sv w.db v.id (Entity.descriptor_fingerprint_of v))
    where
      of_collision :
          (o : Option Wallet)
          → P
              (elim o as (λ x. Result Wallet (Failure CoordinationError) × World Db) [
                | some existing ↦ (ok existing, w)
                | none ↦ (err e, w)
              ]).1.db
      of_collision none = p
      of_collision (some existing) = p

  or_resolved-Keeps :
      (v : Wallet) (r : Result (Unit {0}) (Failure CoordinationError))
      → Keeps P (or_resolved sv v r)
  or_resolved-Keeps v (ok done) = λ w p. p
  or_resolved-Keeps v (err e) = resolve-Keeps v e

  keep_submission-Keeps : (o : Entity.Outcome) → Keeps P (keep_submission sv o)
  keep_submission-Keeps (v, err e) w p = p
  keep_submission-Keeps (v, ok already_applied) w p = p
  keep_submission-Keeps (v, ok (executed a)) w p =
      or_resolved-Keeps v (update_wallet sv v w).0 (update_wallet sv v w).1
        (transact-Keeps sv P closed wallet_modify _ w p)

  pub submit_keystore-Keeps :
      (id : WalletId) (user : UserId) (keystore : DescriptorPublicKey)
      → Keeps P (submit_keystore sv id user keystore)
  unfolding submit_keystore
  submit_keystore-Keeps id user keystore =
      bind-Keeps P _ _ (find_wallet_or-Keeps id)
        (λ v. keep_submission-Keeps (Entity.add_keystore sv.miniscript v keystore user))

  keep_wallet-Keeps : (o : Entity.Outcome) → Keeps P (keep_wallet sv o)
  keep_wallet-Keeps (v, err e) = λ w p. p
  keep_wallet-Keeps (v, ok already_applied) = λ w p. p
  keep_wallet-Keeps (v, ok (executed a)) =
      bind-Keeps P _ _ (transact-Keeps sv P closed _ _) (λ done w p. p)

  pub remove_keystore_of-Keeps :
      (id : WalletId) (user by : UserId) → Keeps P (remove_keystore_of sv id user by)
  unfolding remove_keystore_of
  remove_keystore_of-Keeps id user by =
      bind-Keeps P _ _ (find_wallet_or-Keeps id)
        (λ v. keep_wallet-Keeps (Entity.remove_keystore v user by))

  pub cancel_wallet-Keeps :
      (id : WalletId) (user : UserId) (reason : Text) → Keeps P (cancel_wallet sv id user reason)
  unfolding cancel_wallet
  cancel_wallet-Keeps id user reason =
      bind-Keeps P _ _ (find_wallet_or-Keeps id)
        (λ v. keep_wallet-Keeps (Entity.cancel sv.wallet_guard v user reason))

  pub propose_spend-Keeps :
      (session_id : PsbtSessionId) (id : WalletId) (user : UserId) (spend : SpendSpec)
      → Keeps P (propose_spend sv session_id id user spend)
  unfolding propose_spend
  propose_spend-Keeps session_id id user spend = bind-Keeps P _ _ (find_wallet_or-Keeps id) (λ v.
      bind-Keeps P _ _ (lift-Keeps P _ _) (λ n.
        bind-Keeps P _ _ (lift-Keeps P _ _)
          (λ s. bind-Keeps P _ _ (transact-Keeps sv P closed _ _) (λ done w p. p))))

  keep_signature-Keeps : (o : Session.Outcome Unit) → Keeps P (keep_signature sv o)
  keep_signature-Keeps (s, err e) = λ w p. p
  keep_signature-Keeps (s, ok already_applied) =
      bind-Keeps P _ _ (transact-Keeps sv P closed _ _) (λ done w p. p)
  keep_signature-Keeps (s, ok (executed a)) =
      bind-Keeps P _ _ (transact-Keeps sv P closed _ _) (λ done w p. p)

  accept_upload-Keeps :
      (hash : PsbtHash) (fp : KeyFingerprint) (bytes : Bytes)
      → Keeps P (accept_upload sv hash fp bytes)
  unfolding accept_upload
  accept_upload-Keeps hash fp bytes =
      bind-Keeps P _ _ (λ w p. lift-Keeps P _ _ w p)
        (λ b. bind-Keeps P _ _ (lift-Keeps P _ _) (λ original.
          bind-Keeps P _ _ (lift-Keeps P _ _) (λ signed.
            bind-Keeps P _ _ (lift-Keeps P _ _) (λ extracted.
              bind-Keeps P _ _ (or_panic-Keeps P CoordinationError _) (λ merged.
                put_blob-Keeps sv P closed CoordinationError (sv.serialize_psbt merged))))))

  pub submit_signed_psbt-Keeps :
      (id : PsbtSessionId) (user : UserId) (bytes : Bytes)
      → Keeps P (submit_signed_psbt sv id user bytes)
  unfolding submit_signed_psbt
  submit_signed_psbt-Keeps id user bytes = bind-Keeps P _ _ (find_session_or-Keeps id) (λ s.
      bind-Keeps P _ _ (find_wallet_or-Keeps s.wallet_id) (λ v.
        bind-Keeps P _ _ (or_raise-Keeps P _ _) (λ fp.
          bind-Keeps P _ _ (or_raise-Keeps P _ _) (λ hash.
            bind-Keeps P _ _ (accept_upload-Keeps hash fp bytes) (λ merged.
              keep_signature-Keeps (Session.add_signature sv.session_guard s fp merged))))))
