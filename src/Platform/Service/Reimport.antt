-- ===== src/Platform/Service/Reimport.antt =====
-- The idempotent import of `submit_keystore` and `resolve_fingerprint_collision`: a keystore that
-- completes the descriptor of another wallet leads to that wallet.
use kota.Base.{
  ◌≡◌, ◌≢◌, refl, sym, subst, ◌∙◌, Option, none, some, Result, ok, err, executed, already_applied,
  arith, ==_iff, ◌==◌, if◌then◌else◌,
}
use kota.Base.Actions.{◌>>=◌}
use kota.Primitives.{WalletId, UserId}
use kota.Wallet.Types.{DescriptorPublicKey, Wallet, DescriptorFingerprint}
use kota.Wallet.Entity.{Outcome, add_keystore, descriptor_fingerprint_of}
use kota.Wallet.Registered.{submit, execute}
use kota.Platform.Database.{TransactionError}
use kota.Platform.Repos.{
  World, found_wallet, find_wallet, find_wallet_by_fingerprint, transact, committed, write_wallet,
}
use kota.Platform.GenuineWallet.{IsGenuine-execute}
use kota.Platform.Consistent.{IsConsistent, found_wallet-IsGenuine, found_wallet-column}
use kota.Platform.Jobs.Types.{Services}
use kota.Platform.Service.{
  wallet_modify, find_wallet_or, collision, resolve_fingerprint_collision, or_resolved,
  update_or_resolve, keep_submission, submit_keystore,
}

module _ {Db : Type 0} (sv : Services Db) (w : World Db) (c : IsConsistent sv w.db) where
  open sv use {database}

  -- A stored wallet, and another wallet with its content address that is to be written.
  record IsCollision (v existing : Wallet) (f : DescriptorFingerprint) : Type 0 where
    stored : find_wallet database w.db existing.id ≡ ok existing
    other : existing.id ≢ v.id
    written : descriptor_fingerprint_of v ≡ some f
    held : descriptor_fingerprint_of existing ≡ some f

  module _ (v existing : Wallet) (f : DescriptorFingerprint) (h : IsCollision v existing f) where
    held_column : database.fingerprint_column w.db existing.id ≡ some f
    held_column = sym (found_wallet-column sv w.db existing.id existing c h.stored) ∙ h.held

    column_elsewhere :
        (if existing.id == v.id
          then descriptor_fingerprint_of v
          else database.fingerprint_column w.db existing.id)
        ≡ some f
    column_elsewhere = ground (arith, ==_iff existing.id v.id, held_column, h.other)

    -- The column is `UNIQUE`.
    commit_refused : (db' : Db) → database.commit w.db (write_wallet v) ≢ ok db'
    commit_refused db' k =
        let at_v : database.fingerprint_column db' v.id ≡ some f =
          database.fingerprint_column-commit w.db db' (write_wallet v) v.id k
          ∙ rw ((==_iff v.id v.id).1 refl) h.written in
        let at_existing : database.fingerprint_column db' existing.id ≡ some f =
          database.fingerprint_column-commit w.db db' (write_wallet v) existing.id k
          ∙ column_elsewhere in
        h.other (database.unique_fingerprint db' f existing.id v.id at_existing at_v)

    found_by_index :
        (o : Option WalletId)
        → database.by_fingerprint w.db f ≡ o
        → find_wallet_by_fingerprint database w.db f ≡ ok (some existing)
    unfolding find_wallet_by_fingerprint find_wallet
    found_by_index none q = absurd (database.by_fingerprint_absent w.db f existing.id q held_column)
    found_by_index (some i) q =
        let same : i ≡ existing.id =
          database.unique_fingerprint w.db f i existing.id
            (database.by_fingerprint_found w.db f i q) held_column in
        let row : found_wallet i (database.wallet_events w.db i) ≡ ok existing =
          subst (λ k. find_wallet database w.db k ≡ ok existing) (sym same) h.stored in
        rw (q, row, find_wallet_by_fingerprint, find_wallet) refl

    collision_found : collision sv w.db v.id (descriptor_fingerprint_of v) ≡ some existing
    collision_found =
        rw (h.written, found_by_index (database.by_fingerprint w.db f) refl)
          (ground (arith, ==_iff existing.id v.id, h.other))

    resolved :
        (r : Result Db TransactionError)
        → database.commit w.db (write_wallet v) ≡ r
        → or_resolved sv v
            (committed database wallet_modify r w).0
            (committed database wallet_modify r w).1
          ≡ (ok existing, w)
    unfolding resolve_fingerprint_collision
    resolved (ok db') q = absurd (commit_refused db' q)
    resolved (err why) q =
        rw (collision_found, resolve_fingerprint_collision, or_resolved, committed) refl

    update_or_resolve_existing : update_or_resolve sv v w ≡ (ok existing, w)
    unfolding transact
    update_or_resolve_existing = resolved (database.commit w.db (write_wallet v)) refl

  keep_submission_existing :
      (o : Outcome) (existing : Wallet) (f : DescriptorFingerprint)
      → o.1 ≡ ok (executed tt)
      → IsCollision o.0 existing f
      → keep_submission sv o w ≡ (ok existing, w)
  keep_submission_existing (v, err e) existing f q h = ground arith
  keep_submission_existing (v, ok already_applied) existing f q h = ground arith
  keep_submission_existing (v, ok (executed a)) existing f q h =
      update_or_resolve_existing v existing f h

  -- On a consistent database, a keystore that is accepted and gives the wallet a content address
  -- that another stored wallet already has changes nothing: the call returns that other wallet, and
  -- the database and the blobs stay as they were.
  pub submit_keystore_reimport :
      (id other : WalletId) (user : UserId) (keystore : DescriptorPublicKey) (v existing : Wallet)
      (f : DescriptorFingerprint)
      → find_wallet database w.db id ≡ ok v
      → find_wallet database w.db other ≡ ok existing
      → other ≢ id
      → (add_keystore sv.miniscript v keystore user).1 ≡ ok (executed tt)
      → descriptor_fingerprint_of (add_keystore sv.miniscript v keystore user).0 ≡ some f
      → descriptor_fingerprint_of existing ≡ some f
      → submit_keystore sv id user keystore w ≡ (ok existing, w)
  unfolding submit_keystore find_wallet_or ◌>>=◌ execute
  submit_keystore_reimport id other user keystore v existing f p q n a written held =
      let at_other = (found_wallet-IsGenuine sv w.db other existing c q).same_id in
      let at_id =
        (IsGenuine-execute sv.miniscript sv.wallet_guard id v
          (found_wallet-IsGenuine sv w.db id v c p) (submit keystore user)).same_id in
      rw p (
        keep_submission_existing (add_keystore sv.miniscript v keystore user) existing f a record {
          stored = subst (λ k. find_wallet database w.db k ≡ ok existing) (sym at_other) q;
          other = λ e. n (sym at_other ∙ e ∙ at_id);
          written = written;
          held = held;
        })
