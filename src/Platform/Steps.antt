-- ===== src/Platform/Steps.antt =====
-- The service and its jobs as one system: any sequence of calls, job runs and chain observations,
-- with whatever becomes of the blob store in between.
use kota.Base.{
  ℕ, ◌<◌, ◌^◌, ◌≡◌, refl, sym, subst, Bool, true, false, List, [], Result, ok, err, some, length,
  arith, any, is_empty, ◌||◌,
}
use kota.Base.Actions.{Failure, raised, panicked, Ends}
use kota.Primitives.{PsbtSessionId, WalletId, UserId, Text}
use kota.Session.Types.{PsbtSession}
use kota.Session.Propose.{SpendSpec}
use kota.Wallet.Types.{DescriptorPublicKey, Wallet, DescriptorFingerprint}
use kota.Wallet.Entity.{descriptor_fingerprint_of}
use kota.Storage.Store.{Bytes, InMemoryBlobStore}
use kota.Platform.Repos.{World, FindError, find_session, find_wallet}
use kota.Platform.Dispatch.{is_creation_of, is_finalization_of}
use kota.Platform.Consistent.{
  IsConsistent, found_session-IsGenuine, found_session-IsDispatched, found_wallet_unique,
}
use kota.Platform.Jobs.Types.{ChainObservation, Services}
use kota.Platform.Jobs.Units.{FundingUtxoProvider, run_psbt_creation, apply_chain_observation}
use kota.Platform.Jobs.Finalization.{run_finalization}
use kota.Platform.Jobs.Atomic.{Untouched}
use kota.Platform.Jobs.Observation.{apply_chain_observation-refines}
use kota.Platform.Jobs.Creation.{run_psbt_creation-Ends}
use kota.Platform.Jobs.Final.{run_finalization-Ends}
use kota.Platform.Service.{
  register_wallet, submit_keystore, remove_keystore_of, cancel_wallet, propose_spend,
  submit_signed_psbt,
}
use kota.Platform.Service.Wallets.{remove_keystore_of-Ends, cancel_wallet-Ends}
use kota.Platform.Service.Registration.{register_wallet-Ends}
use kota.Platform.Service.Import.{submit_keystore-Ends}
use kota.Platform.Service.Spends.{propose_spend-Ends}
use kota.Platform.Service.Signing.{submit_signed_psbt-Ends}

-- What changes the database, and a change of the blob store from outside.
pub data Operation : Type 0 where
  register : WalletId → ℕ → List UserId → Operation
  submit : WalletId → UserId → DescriptorPublicKey → Operation
  withdraw : WalletId → UserId → UserId → Operation
  abandon : WalletId → UserId → Text → Operation
  propose : PsbtSessionId → WalletId → UserId → SpendSpec → Operation
  upload : PsbtSessionId → UserId → Bytes → Operation
  create_job : FundingUtxoProvider → PsbtSessionId → Operation
  finalize_job : PsbtSessionId → Operation
  observed : PsbtSessionId → ChainObservation → Operation
  blobs_become : InMemoryBlobStore → Operation

-- A `Vec` of 2^32 ids does not fit the memory of the platform.
abbrev pub IsCountable : Operation → Type 0
IsCountable (register id threshold ps) = length ps < 2 ^ 32
IsCountable (submit id user keystore) = Unit
IsCountable (withdraw id user by) = Unit
IsCountable (abandon id user reason) = Unit
IsCountable (propose session_id id user spend) = Unit
IsCountable (upload id user bytes) = Unit
IsCountable (create_job funding id) = Unit
IsCountable (finalize_job id) = Unit
IsCountable (observed id o) = Unit
IsCountable (blobs_become blobs) = Unit

-- Whether a step returned: a value or an error, and no panic.
abbrev pub has_returned : {A E : Type 0} → Result A (Failure E) → Bool
has_returned (ok a) = true
has_returned (err (raised e)) = true
has_returned (err panicked) = false

module _ {Db : Type 0} (sv : Services Db) where
  -- The state after an operation, and whether the call returned.
  unfoldable pub perform : Operation → World Db → World Db × Bool
  perform (register id threshold ps) w =
      let r = register_wallet sv id threshold ps w in (r.1, has_returned r.0)
  perform (submit id user keystore) w =
      let r = submit_keystore sv id user keystore w in (r.1, has_returned r.0)
  perform (withdraw id user by) w =
      let r = remove_keystore_of sv id user by w in (r.1, has_returned r.0)
  perform (abandon id user reason) w =
      let r = cancel_wallet sv id user reason w in (r.1, has_returned r.0)
  perform (propose session_id id user spend) w =
      let r = propose_spend sv session_id id user spend w in (r.1, has_returned r.0)
  perform (upload id user bytes) w =
      let r = submit_signed_psbt sv id user bytes w in (r.1, has_returned r.0)
  perform (create_job funding id) w =
      let r = run_psbt_creation sv funding id w in (r.1, has_returned r.0)
  perform (finalize_job id) w = let r = run_finalization sv id w in (r.1, has_returned r.0)
  perform (observed id o) w = let r = apply_chain_observation sv id o w in (r.1, has_returned r.0)
  perform (blobs_become blobs) w = (record w { blobs = blobs }, true)

  -- The states that operations lead to, the last one first.
  pub data Reaches (w : World Db) : World Db → Type 0 where
    start : Reaches w w
    after : {v : World Db} (o : Operation) → IsCountable o → Reaches w v → Reaches w (perform o v).0

  -- A database without rows.
  pub record IsEmpty (db : Db) : Type 0 where
    pub no_sessions : (id : PsbtSessionId) → sv.database.session_events db id ≡ []
    pub no_wallets : (id : WalletId) → sv.database.wallet_events db id ≡ []

  pub IsConsistent-of_empty : (db : Db) → IsEmpty db → IsConsistent sv db
  IsConsistent-of_empty db e = record {
    sessions = λ id. rw (e.no_sessions id) record {
      stored = record { hydrates = λ h. cc; genuine = λ s h. ground arith };
      dispatched = λ s h. ground arith;
    };
    wallets = λ id. rw (e.no_wallets id) record {
      stored = record { hydrates = λ h. cc; genuine = λ v h. ground arith };
      agrees = λ v h. ground arith;
    };
  }

  abbrev Settles : {A E : Type 0} → Result A (Failure E) × World Db → Type 0
  Settles r = IsConsistent sv r.1.db × (has_returned r.0 ≡ true)

  settled :
      {A E : Type 0} (old : Db) (c : IsConsistent sv old) (post : A → World Db → Type 0)
      → ((a : A) (u : World Db) → post a u → IsConsistent sv u.db)
      → (r : Result A (Failure E) × World Db) → Ends post (Untouched sv old) r
      → Settles r
  settled old c post k (ok a, u) h = (k a u h.by, refl)
  settled old c post k (err (raised e), u) h = (subst (IsConsistent sv) (sym h.by.0) c, refl)
  settled old c post k (err panicked, u) h = absurd (h.by.1 refl)

  -- On a consistent database, every operation returns, without a panic, and leaves a consistent
  -- database, whatever it returns.
  pub perform-IsConsistent :
      (o : Operation) (w : World Db)
      → IsCountable o
      → IsConsistent sv w.db
      → IsConsistent sv (perform o w).0.db × ((perform o w).1 ≡ true)
  unfolding perform
  perform-IsConsistent (register id threshold ps) w s c =
      settled w.db c _ (λ v u h. h.0.0) _ (register_wallet-Ends sv w.db c id threshold ps w refl s)
  perform-IsConsistent (submit id user keystore) w s c =
      settled w.db c _ (λ v u h. h.2.0.0) _ (submit_keystore-Ends sv w.db c id user keystore w refl)
  perform-IsConsistent (withdraw id user by) w s c =
      settled w.db c _ (λ v u h. h.0) _ (remove_keystore_of-Ends sv w.db c id user by w refl)
  perform-IsConsistent (abandon id user reason) w s c =
      settled w.db c _ (λ v u h. h.0) _ (cancel_wallet-Ends sv w.db c id user reason w refl)
  perform-IsConsistent (propose session_id id user spend) w s c =
      settled w.db c _ (λ v u h. h.0.0) _
        (propose_spend-Ends sv w.db c session_id id user spend w refl)
  perform-IsConsistent (upload id user bytes) w s c =
      settled w.db c _ (λ v u h. h.0.0) _ (submit_signed_psbt-Ends sv w.db c w refl id user bytes)
  perform-IsConsistent (create_job funding id) w s c =
      settled w.db c _ (λ v u h. h.0) _ (run_psbt_creation-Ends sv w.db c funding id w refl)
  perform-IsConsistent (finalize_job id) w s c =
      settled w.db c _ (λ v u h. h.0.0) _ (run_finalization-Ends sv id w c)
  perform-IsConsistent (observed id o) w s c =
      settled w.db c _ (λ v u h. h.0) _ (apply_chain_observation-refines sv id o w c)
  perform-IsConsistent (blobs_become blobs) w s c = (c, refl)

  pub Reaches-IsConsistent :
      {w v : World Db} → IsConsistent sv w.db → Reaches w v → IsConsistent sv v.db
  Reaches-IsConsistent c start = c
  Reaches-IsConsistent c (after {v = u} o s r) =
      (perform-IsConsistent o u s (Reaches-IsConsistent c r)).0

  -- From a database without rows, whatever sequence of use cases, job runs and chain observations
  -- comes (with fewer than 2^32 participants to a registration) and whatever becomes of the blobs,
  -- the database stays consistent and the next operation returns without a panic: all that is
  -- stored hydrates, to sessions and wallets that accepted proposals, registrations and their
  -- commands have made, and the jobs of each session were spawned.
  pub system-IsConsistent :
      (w v : World Db)
      → IsEmpty w.db
      → Reaches w v
      → (o : Operation) → IsCountable o
      → IsConsistent sv v.db × ((perform o v).1 ≡ true)
  system-IsConsistent w v e r o s =
      let c = Reaches-IsConsistent (IsConsistent-of_empty w.db e) r in
      (c, (perform-IsConsistent o v s c).1)

  -- From a database without rows, whatever operations come, for every stored session the job that
  -- builds its PSBT was spawned, and as soon as it has a signature also a job that finalizes it.
  pub system_dispatches :
      (w v : World Db)
      → IsEmpty w.db
      → Reaches w v
      → (id : PsbtSessionId) (s : PsbtSession) → find_session sv.database v.db id ≡ ok s
      → (any (is_creation_of id) (sv.database.jobs v.db) ≡ true)
        × ((is_empty s.signatures || any (is_finalization_of id) (sv.database.jobs v.db)) ≡ true)
  system_dispatches w v e r id s f =
      let c = Reaches-IsConsistent (IsConsistent-of_empty w.db e) r in
      let d = found_session-IsDispatched sv v.db id s c f in
      let i = (found_session-IsGenuine sv v.db id s c f).same_id in
      (
        subst (λ n. any (is_creation_of n) (sv.database.jobs v.db) ≡ true) i d.creation,
        subst
            (λ n.
              (is_empty s.signatures || any (is_finalization_of n) (sv.database.jobs v.db)) ≡ true)
            i d.completion,
      )

  -- From a database without rows, whatever operations come, no two of the stored wallets have one
  -- content address: two that are found with the same address have one id, and are one wallet.
  pub system_wallets_unique :
      (w v : World Db)
      → IsEmpty w.db
      → Reaches w v
      → (i j : WalletId) (x y : Wallet) (f : DescriptorFingerprint)
      → find_wallet sv.database v.db i ≡ ok x
      → find_wallet sv.database v.db j ≡ ok y
      → descriptor_fingerprint_of x ≡ some f
      → descriptor_fingerprint_of y ≡ some f
      → (i ≡ j) × (x ≡ y)
  system_wallets_unique w v e r i j x y f p q a b =
      let c = Reaches-IsConsistent (IsConsistent-of_empty w.db e) r in
      let same = found_wallet_unique sv v.db i j x y f c p q a b in
      (
        same,
        same_found (find_wallet sv.database v.db j) x y
            (subst (λ k. find_wallet sv.database v.db k ≡ ok x) same p) q,
      )
    where
      same_found : (r : Result Wallet FindError) (x y : Wallet) → r ≡ ok x → r ≡ ok y → x ≡ y
      same_found r x y p q = cc
