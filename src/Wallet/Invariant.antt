-- ===== src/Wallet/Invariant.antt =====
-- What holds of a wallet whatever keystores are added and removed, and its policy once active.
use kota.Base.{
  ℕ, suc, ◌<◌, ◌^◌, ◌≡◌, refl, sym, subst, true, false, Option, none, some, List, [], ◌∷◌, ◌++◌,
  Result, ok, err, arith, length, length-append, all, all-append, any, contains, IsDistinct,
  nat_order, ◌==◌,
}
use kota.Base.Sort.{IsDistinct-push}
use kota.Primitives.{UserId, Text, WalletStatus, collecting_keystores, active, cancelled}
use kota.EsEntity.{IdempotencyGuard}
use kota.Wallet.Types.{
  DescriptorPublicKey, Descriptor, DescriptorFingerprint, Miniscript, WalletEvent, keystore_added,
  keystore_removed, activated, cancelled_by, Wallet, WalletError,
}
use kota.Wallet.Descriptor.{keystore_fingerprint}
use kota.Wallet.Entity.{
  status, status_step, submissions_step, Submission, submissions, keystores, submitters, keys,
  without, find_submission, push, fingerprints, activation, record_keystore, add_collecting,
  add_keystore, remove_keystore, remove_found, cancel,
}
use kota.Wallet.Submissions.{
  status_from-append, submissions_from-append, submitters-push, any-submitters,
  IsDistinct-submitters-without, all-submitters-without, length-keys, length-submissions-without,
  fingerprints-push, any-fingerprints, IsDistinct-fingerprints-without,
}

-- How many of the keystores are there.
abbrev pub IsFilled : WalletStatus → ℕ → ℕ → Type 0
IsFilled collecting_keystores held total = held < total
IsFilled active held total = held ≡ total
IsFilled cancelled held total = Unit

-- The state that the events amount to.
pub record Holds (m : Miniscript) (ps : List UserId) (a : WalletStatus) (l : List Submission)
    : Type 0 where
  pub known : all (contains ps) (submitters l) ≡ true
  pub one_each : IsDistinct (submitters l)
  pub distinct_devices : IsDistinct (fingerprints m l)
  pub filled : IsFilled a (length l) (length ps)

abbrev pub IsWellFormed : Miniscript → Wallet → Type 0
IsWellFormed m w = Holds m w.participants (status w) (submissions w)

module _ (m : Miniscript) (ps : List UserId) (l : List Submission) where
  Holds-push :
      (a b : WalletStatus) (u : UserId) (k : DescriptorPublicKey)
      → Holds m ps a l
      → contains ps u ≡ true
      → any (λ s. s.0 == u) l ≡ false
      → any (λ j. keystore_fingerprint m j == keystore_fingerprint m k) (keys l) ≡ false
      → IsFilled b (suc (length l)) (length ps)
      → Holds m ps b (l ++ (u, k) ∷ [])
  Holds-push a b u k h p n f c = record {
    known =
        rw (submitters-push l u k)
          (ground (arith, h.known, all-append (contains ps) (submitters l) (u ∷ [])));
    one_each =
        rw (submitters-push l u k)
          (IsDistinct-push (submitters l) u h.one_each (ground (arith, any-submitters l u)));
    distinct_devices = rw (fingerprints-push m l u k) (
        IsDistinct-push (fingerprints m l) (keystore_fingerprint m k) h.distinct_devices
          (ground (arith, any-fingerprints m l (keystore_fingerprint m k))));
    filled = subst (λ n. IsFilled b n (length ps)) (omega (arith, length-append l ((u, k) ∷ []))) c;
  }

  Holds-without :
      (u : UserId)
      → Holds m ps collecting_keystores l
      → Holds m ps collecting_keystores (without u l)
  Holds-without u h = record {
    known = all-submitters-without (contains ps) u l h.known;
    one_each = IsDistinct-submitters-without u l h.one_each;
    distinct_devices = IsDistinct-fingerprints-without m u l h.distinct_devices;
    filled = omega (arith, length-submissions-without u l);
  }

  -- Cancelling asks nothing of the keystores.
  Holds-cancelled : (a : WalletStatus) → Holds m ps a l → Holds m ps cancelled l
  Holds-cancelled a h = record {
    known = h.known;
    one_each = h.one_each;
    distinct_devices = h.distinct_devices;
    filled = tt;
  }

module _ (m : Miniscript) where
  push-IsWellFormed :
      (w : Wallet) (e : WalletEvent)
      → Holds m w.participants (status_step (status w) e) (submissions_step (submissions w) e)
      → IsWellFormed m (push w e)
  push-IsWellFormed w e h =
      rw (status_from-append collecting_keystores w.events e, submissions_from-append [] w.events e)
        h

  -- With fewer than 2³² participants the `u32` comparison of `activation` is one of numbers.
  activation_at_last :
      (w : Wallet) (k : DescriptorPublicKey) (p : Descriptor × DescriptorFingerprint)
      → length w.participants < 2 ^ 32
      → length (submissions w) < length w.participants
      → activation m w k ≡ ok (some p)
      → suc (length (submissions w)) ≡ length w.participants
  unfolding activation
  activation_at_last w k p small h e = ground (arith, length-keys (submissions w))

  no_activation_before :
      (w : Wallet) (k : DescriptorPublicKey)
      → length w.participants < 2 ^ 32
      → length (submissions w) < length w.participants
      → activation m w k ≡ ok none
      → suc (length (submissions w)) < length w.participants
  unfolding activation
  no_activation_before w k small h e = ground (arith, length-keys (submissions w))

  module _ (w : Wallet) (small : length w.participants < 2 ^ 32) (i : IsWellFormed m w) where
    is_short : status w ≡ collecting_keystores → length (submissions w) < length w.participants
    is_short s = subst (λ a. IsFilled a (length (submissions w)) (length w.participants)) s i.filled

    record_keystore-IsWellFormed :
        (k : DescriptorPublicKey) (u : UserId)
        (r : Result (Option (Descriptor × DescriptorFingerprint)) WalletError)
        → activation m w k ≡ r
        → status w ≡ collecting_keystores
        → contains w.participants u ≡ true
        → any (λ s. s.0 == u) (submissions w) ≡ false
        → any (λ j. keystore_fingerprint m j == keystore_fingerprint m k) (keystores w) ≡ false
        → IsWellFormed m (record_keystore m w k u r).0
    record_keystore-IsWellFormed k u (err e) q s p n f = i
    record_keystore-IsWellFormed k u (ok none) q s p n f =
        push-IsWellFormed w (keystore_added k u) (
          Holds-push m w.participants (submissions w) (status w) (status w) u k i p n f (
            subst (λ a. IsFilled a (suc (length (submissions w))) (length w.participants)) (sym s)
              (no_activation_before w k small (is_short s) q)))
    record_keystore-IsWellFormed k u (ok (some (d, g))) q s p n f =
        push-IsWellFormed (push w (keystore_added k u)) (activated d g) (
          rw (submissions_from-append [] w.events (keystore_added k u)) (
            Holds-push m w.participants (submissions w) (status w) active u k i p n f
              (activation_at_last w k (d, g) small (is_short s) q)))

    add_collecting-IsWellFormed :
        (k : DescriptorPublicKey) (u : UserId)
        → status w ≡ collecting_keystores
        → IsWellFormed m (add_collecting m w k u).0
    unfolding add_collecting
    add_collecting-IsWellFormed k u s =
        ground (arith, record_keystore-IsWellFormed k u (activation m w k) refl s)

    -- However a submission ends, the wallet still has at most one keystore for each participant,
    -- from distinct devices, and is active only with all of them.
    pub add_keystore-IsWellFormed :
        (k : DescriptorPublicKey) (u : UserId) → IsWellFormed m (add_keystore m w k u).0
    unfolding add_keystore
    add_keystore-IsWellFormed k u = ground (arith, add_collecting-IsWellFormed k u)

    removed-IsWellFormed :
        (k : DescriptorPublicKey) (u by : UserId)
        → status w ≡ collecting_keystores
        → IsWellFormed m (push w (keystore_removed u k by))
    removed-IsWellFormed k u by s = push-IsWellFormed w (keystore_removed u k by) (
        subst (λ a. Holds m w.participants a (without u (submissions w))) (sym s)
          (Holds-without m w.participants (submissions w) u
            (subst (λ a. Holds m w.participants a (submissions w)) s i)))

    found-IsWellFormed :
        (u by : UserId) (o : Option Submission)
        → status w ≡ collecting_keystores
        → IsWellFormed m (remove_found w u by o).0
    found-IsWellFormed u by none s = i
    found-IsWellFormed u by (some (p, k)) s = removed-IsWellFormed k u by s

    pub remove_keystore-IsWellFormed : (u by : UserId) → IsWellFormed m (remove_keystore w u by).0
    unfolding remove_keystore
    remove_keystore-IsWellFormed u by =
        ground (arith, found-IsWellFormed u by (find_submission u (submissions w)))

    pub cancel-IsWellFormed :
        (guard : IdempotencyGuard WalletEvent) (u : UserId) (r : Text)
        → IsWellFormed m (cancel guard w u r).0
    unfolding cancel
    cancel-IsWellFormed guard u r = ground (
      arith,
      push-IsWellFormed w (cancelled_by u r)
          (Holds-cancelled m w.participants (submissions w) (status w) i),
    )
