-- ===== src/Platform/Service/Wallets.antt =====
-- The wallet use cases: each returns a wallet that is stored, or leaves the database alone.
use kota.Platform.Database.{TransactionError}
use kota.Base.{
  ◌≡◌, ◌≢◌, refl, sym, ap, subst, ◌∙◌, Option, none, some, Result, ok, err, executed,
  already_applied, arith, ==_iff,
}
use kota.Base.Actions.{Ends, bind-Ends, lift-Ends}
use kota.Primitives.{WalletId, UserId, Text}
use kota.EsEntity.{IdempotencyGuard}
use kota.Wallet.Types.{
  DescriptorPublicKey, Descriptor, DescriptorFingerprint, Miniscript, WalletEvent, Wallet,
  WalletError,
}
use kota.Wallet.Entity.{
  Outcome, Submission, submissions, find_submission, activation, record_keystore, add_keystore,
  descriptor_fingerprint_of, remove_found, remove_keystore, cancel,
}
use kota.Wallet.Registered.{withdraw, abandon, execute}
use kota.Platform.Repos.{World, found_wallet, find_wallet, write_wallet, transact}
use kota.Platform.GenuineWallet.{
  IsGenuine, IsGenuine-execute, IsGenuine-hydrates, IsStored-of_genuine, found_of_rows,
  found_of_genuine,
}
use kota.Platform.Consistent.{
  IsConsistent, IsProper, IsWalletRow, commit-IsConsistent, transact-Ends, found_wallet-IsGenuine,
}
use kota.Platform.Jobs.Types.{Services}
use kota.Platform.Jobs.Atomic.{Untouched, Known, raised-ne-panicked}
use kota.Platform.Service.{
  CoordinationError, wallet_error, wallet_find, wallet_modify, find_wallet_or, keep_wallet,
  remove_keystore_of, cancel_wallet,
}

record_keystore_applied :
    (m : Miniscript) (w : Wallet) (k : DescriptorPublicKey) (u : UserId)
    (r : Result (Option (Descriptor × DescriptorFingerprint)) WalletError)
    → (record_keystore m w k u r).1 ≢ ok already_applied
record_keystore_applied m w k u (err e) h = cc
record_keystore_applied m w k u (ok none) h = cc
record_keystore_applied m w k u (ok (some (d, f))) h = cc

pub add_keystore_applied :
    (m : Miniscript) (w : Wallet) (k : DescriptorPublicKey) (u : UserId)
    → (add_keystore m w k u).1 ≡ ok already_applied
    → w ≡ (add_keystore m w k u).0
unfolding add_keystore
add_keystore_applied m w k u h = ground (arith, record_keystore_applied m w k u (activation m w k))

remove_found_applied :
    (w : Wallet) (p by : UserId) (o : Option Submission)
    → (remove_found w p by o).1 ≡ ok already_applied
    → w ≡ (remove_found w p by o).0
remove_found_applied w p by none h = refl
remove_found_applied w p by (some (q, k)) h = cc

remove_keystore_applied :
    (w : Wallet) (p by : UserId)
    → (remove_keystore w p by).1 ≡ ok already_applied
    → w ≡ (remove_keystore w p by).0
unfolding remove_keystore
remove_keystore_applied w p by h =
    ground (arith, remove_found_applied w p by (find_submission p (submissions w)))

cancel_applied :
    (guard : IdempotencyGuard WalletEvent) (w : Wallet) (u : UserId) (r : Text)
    → (cancel guard w u r).1 ≡ ok already_applied
    → w ≡ (cancel guard w u r).0
unfolding cancel
cancel_applied guard w u r h = ground arith

module _ {Db : Type 0} (sv : Services Db) where
  -- The wallet is stored as it is returned.
  abbrev pub IsReturned : Wallet → World Db → Type 0
  IsReturned v u = IsConsistent sv u.db × (find_wallet sv.database u.db v.id ≡ ok v)

  module _ (old : Db) (c : IsConsistent sv old) where
    abbrev pub IsOurs : WalletId → Wallet → Type 0
    IsOurs id v = IsGenuine sv.miniscript sv.wallet_guard id v

    pub find_wallet_or-Ends :
        (id : WalletId) (w : World Db)
        → w.db ≡ old
        → Ends
            (Known sv old (λ v. find_wallet sv.database old id ≡ ok v))
            (Untouched sv old)
            (find_wallet_or sv id w)
    unfolding find_wallet_or
    find_wallet_or-Ends id w e =
        lift-Ends (Known sv old (λ v. find_wallet sv.database old id ≡ ok v)) (Untouched sv old)
          wallet_find (find_wallet sv.database w.db id) w
          (λ v h. (e, subst (λ db. find_wallet sv.database db id ≡ ok v) e h))
          (λ why h. (e, raised-ne-panicked sv old (wallet_find why)))

    pub wallet-IsProper :
        (id : WalletId) (v : Wallet)
        → IsOurs id v
        → IsProper sv (sv.database.jobs old) (write_wallet v)
    wallet-IsProper id v g = record {
      session_rows = tt;
      wallet_rows =
          subst (λ n. IsWalletRow sv n v.events (descriptor_fingerprint_of v)) (sym g.same_id)
            record {
              stored = IsStored-of_genuine sv.miniscript sv.wallet_guard id v g;
              agrees = λ u h.
                  ap descriptor_fingerprint_of
                    (sym (found_of_genuine sv.miniscript sv.wallet_guard id v u g h));
            };
    }

    -- What is committed is found.
    pub store_wallet-Ends :
        (f : TransactionError → CoordinationError) (id : WalletId) (v : Wallet) (w : World Db)
        → w.db ≡ old
        → IsOurs id v
        → Ends
            (λ done u. IsReturned v u)
            (Untouched sv old)
            (transact sv.database f (write_wallet v) w)
    unfolding find_wallet
    store_wallet-Ends f id v w e g =
        transact-Ends sv (λ done u. IsReturned v u) (Untouched sv old) f (write_wallet v) w
          (λ db' h. (
            commit-IsConsistent sv w.db db' (write_wallet v) (subst (IsConsistent sv) (sym e) c)
                (subst (λ db. IsProper sv (sv.database.jobs db) (write_wallet v)) (sym e)
                  (wallet-IsProper id v g))
                h,
            subst (λ rows. found_wallet v.id rows ≡ ok v)
                (sym (
                  sv.database.wallet_events-commit w.db db' (write_wallet v) v.id h
                  ∙ rw ((==_iff v.id v.id).1 refl) refl))
                (found_of_rows v.id v v.events
                  (IsGenuine-hydrates sv.miniscript sv.wallet_guard id v g)),
          ))
          (λ why. (e, raised-ne-panicked sv old (f why)))

    pub IsReturned-as_found :
        (id : WalletId) (v : Wallet) (w : World Db)
        → w.db ≡ old
        → find_wallet sv.database old id ≡ ok v
        → IsReturned v w
    IsReturned-as_found id v w e f = (
      subst (IsConsistent sv) (sym e) c,
      subst (λ db. find_wallet sv.database db v.id ≡ ok v) (sym e)
          (subst (λ n. find_wallet sv.database old n ≡ ok v)
            (sym (found_wallet-IsGenuine sv old id v c f).same_id) f),
    )

    keep_wallet-Ends :
        (id : WalletId) (o : Outcome) (w : World Db)
        → w.db ≡ old
        → IsOurs id o.0
        → (o.1 ≡ ok already_applied → find_wallet sv.database old id ≡ ok o.0)
        → Ends IsReturned (Untouched sv old) (keep_wallet sv o w)
    keep_wallet-Ends id (v, err why) w e g same = record {
      by = (e, raised-ne-panicked sv old (wallet_error why));
    }
    keep_wallet-Ends id (v, ok already_applied) w e g same = record {
      by = IsReturned-as_found id v w e (same refl);
    }
    keep_wallet-Ends id (v, ok (executed a)) w e g same =
        bind-Ends _ _ w _ _ _ (store_wallet-Ends wallet_modify id v w e g)
          (λ done u k. record { by = k })

    pub remove_keystore_of-Ends :
        (id : WalletId) (p by : UserId) (w : World Db)
        → w.db ≡ old
        → Ends IsReturned (Untouched sv old) (remove_keystore_of sv id p by w)
    unfolding remove_keystore_of execute
    remove_keystore_of-Ends id p by w e =
        bind-Ends _ _ w _ _ _ (find_wallet_or-Ends id w e) (λ v u k.
          keep_wallet-Ends id (remove_keystore v p by) u k.0
            (IsGenuine-execute sv.miniscript sv.wallet_guard id v
              (found_wallet-IsGenuine sv old id v c k.1) (withdraw p by))
            (λ h.
              subst (λ x. find_wallet sv.database old id ≡ ok x) (remove_keystore_applied v p by h)
                k.1))

    -- On a consistent database, a cancellation that succeeds, executed or already applied, leaves
    -- the returned wallet stored and the database consistent; one that fails is an error, no panic,
    -- and leaves the database as it was.
    pub cancel_wallet-Ends :
        (id : WalletId) (by : UserId) (reason : Text) (w : World Db)
        → w.db ≡ old
        → Ends IsReturned (Untouched sv old) (cancel_wallet sv id by reason w)
    unfolding cancel_wallet execute
    cancel_wallet-Ends id by reason w e =
        bind-Ends _ _ w _ _ _ (find_wallet_or-Ends id w e) (λ v u k.
          keep_wallet-Ends id (cancel sv.wallet_guard v by reason) u k.0
            (IsGenuine-execute sv.miniscript sv.wallet_guard id v
              (found_wallet-IsGenuine sv old id v c k.1) (abandon by reason))
            (λ h.
              subst (λ x. find_wallet sv.database old id ≡ ok x)
                (cancel_applied sv.wallet_guard v by reason h) k.1))
