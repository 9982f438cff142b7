-- ===== src/Wallet/Activation.antt =====
-- A wallet has a descriptor exactly while it is active, that of its keystores; retries and the
-- terminal states.
use kota.Base.{
  ◌≡◌, ◌≢◌, refl, ap, subst, ◌∙◌, ◌⊎◌, inl, inr, true, false, Option, none, some, List, [], ◌∷◌,
  ◌++◌, reverse, Result, ok, err, executed, already_applied, arith, any, nat_order, ◌==◌,
}
use kota.Primitives.{UserId, Text, WalletStatus, collecting_keystores, active, cancelled}
use kota.EsEntity.{IdempotencyGuard, never, guard_loop-never, any-reverse}
use kota.Wallet.Types.{
  DescriptorPublicKey, xpub, other, key_eq, Descriptor, DescriptorFingerprint, Miniscript,
  WalletEvent, initialized, keystore_added, keystore_removed, activated, cancelled_by, Wallet,
  WalletError,
}
use kota.Wallet.Descriptor.{sortedmulti_wsh_descriptor, descriptor_fingerprint}
use kota.Wallet.Entity.{
  status, status_step, status_from, Submission, submissions, keystores, keys, find_submission,
  first_activation, push, activation, record_keystore, add_collecting, add_keystore,
  remove_keystore, remove_found, cancel, is_cancelled_event, is_held,
}
use kota.Wallet.Submissions.{
  status_from-append, submissions_from-append, keys-push, find_submission-push,
}

key_eq_refl : (k : DescriptorPublicKey) → key_eq k k ≡ true
unfolding key_eq
key_eq_refl (xpub none k) = ground arith
key_eq_refl (xpub (some (f, p)) k) = ground arith
key_eq_refl (other k) = ground arith

module _ (m : Miniscript) where
  held_after :
      (w : Wallet) (k : DescriptorPublicKey) (u : UserId)
      (r : Result (Option (Descriptor × DescriptorFingerprint)) WalletError)
      → any (λ s. s.0 == u) (submissions w) ≡ false
      → (record_keystore m w k u r).1 ≡ ok (executed tt)
      → is_held (find_submission u (submissions (record_keystore m w k u r).0)) k ≡ true
  held_after w k u (err e) n h = cc
  held_after w k u (ok none) n h =
      rw
        (
          submissions_from-append [] w.events (keystore_added k u),
          find_submission-push (submissions w) u k n,
        )
        (key_eq_refl k)
  held_after w k u (ok (some (d, f))) n h =
      rw
        (
          submissions_from-append [] (w.events ++ keystore_added k u ∷ []) (activated d f),
          submissions_from-append [] w.events (keystore_added k u),
          find_submission-push (submissions w) u k n,
        )
        (key_eq_refl k)

  collecting_held :
      (w : Wallet) (k : DescriptorPublicKey) (u : UserId)
      → (add_collecting m w k u).1 ≡ ok (executed tt)
      → is_held (find_submission u (submissions (add_collecting m w k u).0)) k ≡ true
  unfolding add_collecting
  collecting_held w k u h = ground (arith, held_after w k u (activation m w k))

  executed_held :
      (w : Wallet) (k : DescriptorPublicKey) (u : UserId)
      → (add_keystore m w k u).1 ≡ ok (executed tt)
      → is_held (find_submission u (submissions (add_keystore m w k u).0)) k ≡ true
  unfolding add_keystore
  executed_held w k u h = ground (arith, collecting_held w k u)

  held_again :
      (w : Wallet) (k : DescriptorPublicKey) (u : UserId)
      → is_held (find_submission u (submissions w)) k ≡ true
      → add_keystore m w k u ≡ (w, ok already_applied)
  unfolding add_keystore
  held_again w k u h = rw h

  -- The retry of a recorded submission is a no-op, also of the one that activated the wallet.
  pub add_keystore_again :
      (w : Wallet) (k : DescriptorPublicKey) (u : UserId)
      → (add_keystore m w k u).1 ≡ ok (executed tt)
      → add_keystore m (add_keystore m w k u).0 k u ≡ ((add_keystore m w k u).0, ok already_applied)
  add_keystore_again w k u h = held_again (add_keystore m w k u).0 k u (executed_held w k u h)

  -- A wallet that is active or cancelled is closed: no command changes it.
  pub terminal_unchanged :
      (guard : IdempotencyGuard WalletEvent) (w : Wallet) (k : DescriptorPublicKey) (u by : UserId)
      (r : Text)
      → status w ≢ collecting_keystores
      → ((add_keystore m w k u).0 ≡ w)
        × ((remove_keystore w u by).0 ≡ w)
        × ((cancel guard w u r).0 ≡ w)
  unfolding add_keystore remove_keystore cancel
  terminal_unchanged guard w k u by r n = ground arith

-- What the `Activated` event of a wallet is to say.
abbrev pub IsDerived :
    Miniscript
    → Wallet
    → WalletStatus
    → List Submission
    → Option (Descriptor × DescriptorFingerprint)
    → Type 0
IsDerived m w active l none = ⊥
IsDerived m w active l (some p) =
    (sortedmulti_wsh_descriptor m w.threshold (keys l) ≡ ok p.0)
    × (p.1 ≡ descriptor_fingerprint m p.0 w.network)
IsDerived m w _ l p = p ≡ none

-- An active wallet records the descriptor of the keystores that it holds and its content address;
-- any other wallet has none.
abbrev pub HasDescriptor : Miniscript → Wallet → Type 0
HasDescriptor m w = IsDerived m w (status w) (submissions w) (first_activation w.events)

first_activation-append :
    (es : List WalletEvent) (e : WalletEvent)
    → first_activation es ≡ none
    → first_activation (es ++ e ∷ []) ≡ first_activation (e ∷ [])
first_activation-append [] e h = refl
first_activation-append (activated d f ∷ es) e h = cc
first_activation-append (initialized i n t ps ∷ es) e h = first_activation-append es e h
first_activation-append (keystore_added k u ∷ es) e h = first_activation-append es e h
first_activation-append (keystore_removed p k u ∷ es) e h = first_activation-append es e h
first_activation-append (cancelled_by u r ∷ es) e h = first_activation-append es e h

module _ (m : Miniscript) (w : Wallet) (i : HasDescriptor m w) where
  no_activation_yet : status w ≡ collecting_keystores → first_activation w.events ≡ none
  no_activation_yet s = subst (λ a. IsDerived m w a (submissions w) (first_activation w.events)) s i

  -- An event that leaves a collecting wallet collecting, or cancels it.
  open-HasDescriptor :
      (e : WalletEvent) (a : WalletStatus)
      → status w ≡ collecting_keystores
      → first_activation (e ∷ []) ≡ none
      → status_step collecting_keystores e ≡ a
      → a ≢ active
      → HasDescriptor m (push w e)
  open-HasDescriptor e a s f q n =
      let t : status (push w e) ≡ a =
        status_from-append collecting_keystores w.events e ∙ ap (λ b. status_step b e) s ∙ q in
      rw (t, first_activation-append w.events e (no_activation_yet s) ∙ f) (none_derived a n)
    where
      none_derived : (b : WalletStatus) → b ≢ active → IsDerived m w b (submissions (push w e)) none
      none_derived collecting_keystores n = refl
      none_derived cancelled n = refl
      none_derived active n = absurd (n refl)

  activation_derives :
      (k : DescriptorPublicKey) (p : Descriptor × DescriptorFingerprint)
      → activation m w k ≡ ok (some p)
      → (sortedmulti_wsh_descriptor m w.threshold (keystores w ++ k ∷ []) ≡ ok p.0)
        × (p.1 ≡ descriptor_fingerprint m p.0 w.network)
  unfolding activation
  activation_derives k p h = ground arith

  recorded-HasDescriptor :
      (k : DescriptorPublicKey) (u : UserId)
      (r : Result (Option (Descriptor × DescriptorFingerprint)) WalletError)
      → activation m w k ≡ r
      → status w ≡ collecting_keystores
      → HasDescriptor m (record_keystore m w k u r).0
  recorded-HasDescriptor k u (err e) q s = i
  recorded-HasDescriptor k u (ok none) q s =
      open-HasDescriptor (keystore_added k u) collecting_keystores s refl refl (λ e. cc)
  recorded-HasDescriptor k u (ok (some (d, f))) q s =
      rw
        (
          status_from-append collecting_keystores (w.events ++ keystore_added k u ∷ [])
              (activated d f),
          submissions_from-append [] (w.events ++ keystore_added k u ∷ []) (activated d f),
          submissions_from-append [] w.events (keystore_added k u),
          first_activation-append (w.events ++ keystore_added k u ∷ []) (activated d f)
              (first_activation-append w.events (keystore_added k u) (no_activation_yet s)),
          keys-push (submissions w) u k,
        )
        (activation_derives k (d, f) q)

  collecting-HasDescriptor :
      (k : DescriptorPublicKey) (u : UserId)
      → status w ≡ collecting_keystores
      → HasDescriptor m (add_collecting m w k u).0
  unfolding add_collecting
  collecting-HasDescriptor k u s =
      ground (arith, recorded-HasDescriptor k u (activation m w k) refl s)

  pub add_keystore-HasDescriptor :
      (k : DescriptorPublicKey) (u : UserId) → HasDescriptor m (add_keystore m w k u).0
  unfolding add_keystore
  add_keystore-HasDescriptor k u = ground (arith, collecting-HasDescriptor k u)

  found-HasDescriptor :
      (u by : UserId) (o : Option Submission)
      → status w ≡ collecting_keystores
      → HasDescriptor m (remove_found w u by o).0
  found-HasDescriptor u by none s = i
  found-HasDescriptor u by (some (p, k)) s =
      open-HasDescriptor (keystore_removed u k by) collecting_keystores s refl refl (λ e. cc)

  pub remove_keystore-HasDescriptor : (u by : UserId) → HasDescriptor m (remove_keystore w u by).0
  unfolding remove_keystore
  remove_keystore-HasDescriptor u by =
      ground (arith, found-HasDescriptor u by (find_submission u (submissions w)))

  pub cancel-HasDescriptor :
      (guard : IdempotencyGuard WalletEvent) (u : UserId) (r : Text)
      → HasDescriptor m (cancel guard w u r).0
  unfolding cancel
  cancel-HasDescriptor guard u r = ground (
    arith,
    λ (s : status w ≡ collecting_keystores).
        open-HasDescriptor (cancelled_by u r) cancelled s refl refl (λ e. cc),
  )

cancelled_has_event :
    (a : WalletStatus) (es : List WalletEvent)
    → status_from a es ≡ cancelled
    → (a ≡ cancelled) ⊎ (any is_cancelled_event es ≡ true)
cancelled_has_event a [] h = inl h
cancelled_has_event a (cancelled_by u r ∷ es) h = inr refl
cancelled_has_event a (activated d f ∷ es) h = ground (arith, cancelled_has_event active es h)
cancelled_has_event a (e ∷ es) h = cancelled_has_event a es h

-- On a cancelled wallet the guard of `cancel` returns, so its `unreachable!` is not reached.
pub cancel-cancelled :
    (guard : IdempotencyGuard WalletEvent) (w : Wallet) (u : UserId) (r : Text)
    → status w ≡ cancelled
    → (guard.applied is_cancelled_event never (reverse w.events) ≡ true)
      × (cancel guard w u r ≡ (w, ok already_applied))
unfolding cancel
cancel-cancelled guard w u r h = ground (
  arith,
  cancelled_has_event collecting_keystores w.events h,
  guard.applied_lem is_cancelled_event never (reverse w.events),
  guard_loop-never is_cancelled_event (reverse w.events),
  any-reverse is_cancelled_event w.events,
)
