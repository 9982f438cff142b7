-- ===== src/Platform/Service/Import.antt =====
-- `register_wallet` and `submit_keystore`, with the idempotent import.
use kota.Base.{
  ◌≡◌, ◌≢◌, refl, sym, subst, ◌∙◌, ◌⊎◌, inl, inr, Option, none, some, Result, ok, err, executed,
  already_applied, arith,
}
use kota.Base.Actions.{Failure, panicked, Ends, bind-Ends, weaken_post}
use kota.Primitives.{WalletId, UserId}
use kota.Wallet.Types.{DescriptorPublicKey, Wallet, DescriptorFingerprint}
use kota.Wallet.Entity.{Outcome, add_keystore, descriptor_fingerprint_of}
use kota.Wallet.Registered.{submit, execute}
use kota.Platform.Repos.{World, FindError, find_wallet, find_wallet_by_fingerprint}
use kota.Platform.GenuineWallet.{IsGenuine, IsGenuine-execute}
use kota.Platform.Consistent.{IsConsistent, found_wallet-IsGenuine, found_wallet-column}
use kota.Platform.Jobs.Types.{Services}
use kota.Platform.Jobs.Atomic.{Untouched, raised-ne-panicked}
use kota.Platform.Service.{
  CoordinationError, wallet_error, wallet_modify, update_wallet, existing_wallet, collision,
  resolve_fingerprint_collision, or_resolved, update_or_resolve, keep_submission, submit_keystore,
}
use kota.Platform.Service.Wallets.{
  IsReturned, add_keystore_applied, find_wallet_or-Ends, store_wallet-Ends, IsReturned-as_found,
}

module _ {Db : Type 0} (sv : Services Db) (db : Db) where
  -- Another wallet with the same content address, found.
  pub record IsTwin (v existing : Wallet) : Type 0 where
    pub other : existing.id ≢ v.id
    pub id : WalletId
    pub found : find_wallet sv.database db id ≡ ok existing
    pub same_address : descriptor_fingerprint_of existing ≡ descriptor_fingerprint_of v

  -- The wallet with the keystore added, stored; or, where the code found one, another stored wallet
  -- with the same content address.
  abbrev pub IsImported : Wallet → Wallet → World Db → Type 0
  IsImported v r u = IsReturned sv r u × ((r ≡ v) ⊎ IsTwin v r)

module _ {Db : Type 0} (sv : Services Db) (db : Db) (c : IsConsistent sv db) where
  by_fingerprint_sound :
      (fp : DescriptorFingerprint) (existing : Wallet)
      → find_wallet_by_fingerprint sv.database db fp ≡ ok (some existing)
      → (id : WalletId) × (find_wallet sv.database db id ≡ ok existing)
        × (descriptor_fingerprint_of existing ≡ some fp)
  unfolding find_wallet_by_fingerprint find_wallet
  by_fingerprint_sound fp existing h = of_row (sv.database.by_fingerprint db fp) refl h
    where
      of_wallet :
          (id : WalletId) (r : Result Wallet FindError)
          → sv.database.by_fingerprint db fp ≡ some id
          → find_wallet sv.database db id ≡ r
          → (elim r as (λ x. Result (Option Wallet) FindError) [
            | ok w ↦ ok (some w)
            | err e ↦ err e
          ])
            ≡ ok (some existing)
          → (id : WalletId) × (find_wallet sv.database db id ≡ ok existing)
            × (descriptor_fingerprint_of existing ≡ some fp)
      of_wallet id (err e) q k h = ground arith
      of_wallet id (ok w) q k h =
          let found : find_wallet sv.database db id ≡ ok existing = cc in
          (
            id,
            found,
            found_wallet-column sv db id existing c found
                ∙ sv.database.by_fingerprint_found db fp id q,
          )

      of_row :
          (o : Option WalletId)
          → sv.database.by_fingerprint db fp ≡ o
          → (elim o as (λ x. Result (Option Wallet) FindError) [
            | none ↦ ok none
            | some id ↦ elim (find_wallet sv.database db id) [ ok w ↦ ok (some w) | err e ↦ err e ]
          ])
            ≡ ok (some existing)
          → (id : WalletId) × (find_wallet sv.database db id ≡ ok existing)
            × (descriptor_fingerprint_of existing ≡ some fp)
      of_row none q h = ground arith
      of_row (some id) q h = of_wallet id (find_wallet sv.database db id) q refl h

  existing_wallet_other :
      (id : WalletId) (r : Result (Option Wallet) FindError) (existing : Wallet)
      → existing_wallet sv id r ≡ some existing
      → (r ≡ ok (some existing)) × (existing.id ≢ id)
  existing_wallet_other id (err e) existing h = ground arith
  existing_wallet_other id (ok none) existing h = ground arith
  existing_wallet_other id (ok (some x)) existing h = ground arith

  collision-IsTwin :
      (v existing : Wallet) (o : Option DescriptorFingerprint)
      → descriptor_fingerprint_of v ≡ o
      → collision sv db v.id o ≡ some existing
      → IsTwin sv db v existing
  collision-IsTwin v existing none q h = ground arith
  collision-IsTwin v existing (some fp) q h =
      let k =
        existing_wallet_other v.id (find_wallet_by_fingerprint sv.database db fp) existing h in
      let found = by_fingerprint_sound fp existing k.0 in
      record { other = k.1; id = found.0; found = found.1; same_address = found.2 ∙ sym q }

module _ {Db : Type 0} (sv : Services Db) (old : Db) (c : IsConsistent sv old) where
  resolve-Ends :
      (v : Wallet) (e : Failure CoordinationError) (w : World Db)
      → w.db ≡ old
      → e ≢ panicked
      → Ends (IsImported sv old v) (Untouched sv old) (resolve_fingerprint_collision sv v e w)
  unfolding resolve_fingerprint_collision
  resolve-Ends v e w d n = of_collision (collision sv w.db v.id (descriptor_fingerprint_of v)) refl
    where
      of_collision :
          (o : Option Wallet)
          → collision sv w.db v.id (descriptor_fingerprint_of v) ≡ o
          → Ends
              (IsImported sv old v)
              (Untouched sv old)
              (elim o as (λ x. Result Wallet (Failure CoordinationError) × World Db) [
                | some existing ↦ (ok existing, w)
                | none ↦ (err e, w)
              ])
      of_collision none q = record { by = (d, n) }
      of_collision (some existing) q =
          let twin =
            collision-IsTwin sv w.db (subst (IsConsistent sv) (sym d) c) v existing
              (descriptor_fingerprint_of v) refl q in
          let twin' = subst (λ db. IsTwin sv db v existing) d twin in
          record {
            by = (IsReturned-as_found sv old c twin'.id existing w d twin'.found, inr twin');
          }

  update_or_resolve-Ends :
      (id : WalletId) (v : Wallet) (w : World Db)
      → w.db ≡ old
      → IsGenuine sv.miniscript sv.wallet_guard id v
      → Ends (IsImported sv old v) (Untouched sv old) (update_or_resolve sv v w)
  update_or_resolve-Ends id v w d g =
      of_update (update_wallet sv v w) (store_wallet-Ends sv old c wallet_modify id v w d g)
    where
      of_update :
          (r : Result (Unit {0}) (Failure CoordinationError) × World Db)
          → Ends (λ done u. IsReturned sv v u) (Untouched sv old) r
          → Ends (IsImported sv old v) (Untouched sv old) (or_resolved sv v r.0 r.1)
      of_update (ok done, u) k = record { by = (k.by, inl refl) }
      of_update (err e, u) k = resolve-Ends v e u k.by.0 k.by.1

  keep_submission-Ends :
      (id : WalletId) (o : Outcome) (w : World Db)
      → w.db ≡ old
      → IsGenuine sv.miniscript sv.wallet_guard id o.0
      → (o.1 ≡ ok already_applied → find_wallet sv.database old id ≡ ok o.0)
      → Ends (IsImported sv old o.0) (Untouched sv old) (keep_submission sv o w)
  keep_submission-Ends id (v, err why) w e g same = record {
    by = (e, raised-ne-panicked sv old (wallet_error why));
  }
  keep_submission-Ends id (v, ok already_applied) w e g same = record {
    by = (IsReturned-as_found sv old c id v w e (same refl), inl refl);
  }
  keep_submission-Ends id (v, ok (executed a)) w e g same = update_or_resolve-Ends id v w e g

  pub submit_keystore-Ends :
      (id : WalletId) (submitted_by : UserId) (keystore : DescriptorPublicKey) (w : World Db)
      → w.db ≡ old
      → Ends
          (λ r u.
            (v : Wallet) × (find_wallet sv.database old id ≡ ok v)
            × IsImported sv old (add_keystore sv.miniscript v keystore submitted_by).0 r u)
          (Untouched sv old)
          (submit_keystore sv id submitted_by keystore w)
  unfolding submit_keystore execute
  submit_keystore-Ends id by keystore w e =
      bind-Ends _ _ w _ _ _ (find_wallet_or-Ends sv old c id w e) (λ v u k.
        weaken_post (keep_submission sv (add_keystore sv.miniscript v keystore by) u)
          (λ r t m. (v, k.1, m))
          (keep_submission-Ends id (add_keystore sv.miniscript v keystore by) u k.0
            (IsGenuine-execute sv.miniscript sv.wallet_guard id v
              (found_wallet-IsGenuine sv old id v c k.1) (submit keystore by))
            (λ h.
              subst (λ x. find_wallet sv.database old id ≡ ok x)
                (add_keystore_applied sv.miniscript v keystore by h) k.1)))
