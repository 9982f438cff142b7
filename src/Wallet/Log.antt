-- ===== src/Wallet/Log.antt =====
-- The events of a wallet are its log: the policy and the descriptor can be read off them, and a
-- longer log keeps what a shorter one says.
use kota.Base.{◌≡◌, ap, ◌∙◌, Option, none, some, List, [], ◌∷◌, ◌++◌, Result, ok, err, arith}
use kota.Primitives.{UserId}
use kota.EsEntity.{IdempotencyGuard}
use kota.Wallet.Types.{
  DescriptorPublicKey, Descriptor, DescriptorFingerprint, Miniscript, WalletEvent, initialized,
  keystore_added, keystore_removed, activated, cancelled_by, Wallet, WalletError,
}
use kota.Wallet.Entity.{
  NewWallet, into_events, try_from_events, first_activation, descriptor, descriptor_fingerprint_of,
  activation, record_keystore, add_collecting, add_keystore, remove_keystore, cancel, Submission,
  submissions, find_submission, remove_found,
}
use kota.Wallet.Registered.{Command, submit, withdraw, abandon, execute, Reaches, here, next}

abbrev pub policy_of : Wallet → NewWallet
policy_of w = record {
  id = w.id;
  network = w.network;
  threshold = w.threshold;
  participants = w.participants;
}

abbrev pub first_policy : List WalletEvent → Option NewWallet
first_policy (initialized i n t ps ∷ es) =
    some (record { id = i; network = n; threshold = t; participants = ps })
first_policy _ = none

first_policy-append :
    (es fs : List WalletEvent) (p : NewWallet)
    → first_policy es ≡ some p
    → first_policy (es ++ fs) ≡ some p
first_policy-append [] fs p h = ground arith
first_policy-append (e ∷ es) fs p h = ground arith

first_activation-append :
    (es fs : List WalletEvent) (a : Descriptor × DescriptorFingerprint)
    → first_activation es ≡ some a
    → first_activation (es ++ fs) ≡ some a
first_activation-append [] fs a h = ground arith
first_activation-append (e ∷ es) fs a h = ground (arith, first_activation-append es fs a)

abbrev pub IsLogged : Wallet → Type 0
IsLogged w = first_policy w.events ≡ some (policy_of w)

push-IsLogged :
    (w : Wallet) (e : WalletEvent)
    → IsLogged w
    → first_policy (w.events ++ e ∷ []) ≡ some (policy_of w)
push-IsLogged w e h = first_policy-append w.events (e ∷ []) (policy_of w) h

remove_found-IsLogged :
    (w : Wallet) (p by : UserId) (o : Option Submission)
    → IsLogged w
    → IsLogged (remove_found w p by o).0
remove_found-IsLogged w p by none h = h
remove_found-IsLogged w p by (some (q, k)) h = push-IsLogged w (keystore_removed p k by) h

pub hydrated-IsLogged :
    (n : NewWallet) (w : Wallet) → try_from_events (into_events n) ≡ some w → IsLogged w
unfolding try_from_events
hydrated-IsLogged n w h = ground arith

module _ (m : Miniscript) where
  record_keystore-IsLogged :
      (w : Wallet) (k : DescriptorPublicKey) (u : UserId)
      (r : Result (Option (Descriptor × DescriptorFingerprint)) WalletError)
      → IsLogged w
      → IsLogged (record_keystore m w k u r).0
  record_keystore-IsLogged w k u (err e) h = h
  record_keystore-IsLogged w k u (ok none) h = push-IsLogged w (keystore_added k u) h
  record_keystore-IsLogged w k u (ok (some (d, f))) h =
      first_policy-append (w.events ++ keystore_added k u ∷ []) (activated d f ∷ []) (policy_of w)
        (push-IsLogged w (keystore_added k u) h)

  add_collecting-IsLogged :
      (w : Wallet) (k : DescriptorPublicKey) (u : UserId)
      → IsLogged w
      → IsLogged (add_collecting m w k u).0
  unfolding add_collecting
  add_collecting-IsLogged w k u h =
      ground (arith, record_keystore-IsLogged w k u (activation m w k) h)

  module _ (guard : IdempotencyGuard WalletEvent) where
    execute-IsLogged : (c : Command) (w : Wallet) → IsLogged w → IsLogged (execute m guard c w)
    unfolding execute add_keystore remove_keystore cancel
    execute-IsLogged (submit k u) w h = ground (arith, add_collecting-IsLogged w k u h)
    execute-IsLogged (withdraw p by) w h =
        ground (arith, remove_found-IsLogged w p by (find_submission p (submissions w)) h)
    execute-IsLogged (abandon u r) w h = ground (arith, push-IsLogged w (cancelled_by u r) h)

    pub Reaches-IsLogged : {w v : Wallet} → IsLogged w → Reaches m guard w v → IsLogged v
    Reaches-IsLogged h here = h
    Reaches-IsLogged h (next {v = u} c r) = execute-IsLogged c u (Reaches-IsLogged h r)

-- A later state of a wallet: its policy and, once it has one, its descriptor and content address
-- are as they were.
pub record IsLater (v w : Wallet) : Type 0 where
  pub new_events : List WalletEvent
  pub events_kept : w.events ≡ v.events ++ new_events
  pub policy_kept : policy_of w ≡ policy_of v
  pub descriptor_kept : (d : Descriptor) → descriptor v ≡ some d → descriptor w ≡ some d
  pub fingerprint_kept :
      (f : DescriptorFingerprint)
      → descriptor_fingerprint_of v ≡ some f
      → descriptor_fingerprint_of w ≡ some f

some_injective : (o : Option NewWallet) (p q : NewWallet) → o ≡ some p → o ≡ some q → p ≡ q
some_injective o p q h k = ground arith

activation_of :
    (o : Option (Descriptor × DescriptorFingerprint)) (d : Descriptor)
    → (elim o as (λ x. Option Descriptor) [ none ↦ none | some p ↦ some p.0 ]) ≡ some d
    → (f : DescriptorFingerprint) × (o ≡ some (d, f))
activation_of none d h = ground arith
activation_of (some (e, f)) d h = (f, ground arith)

address_of :
    (o : Option (Descriptor × DescriptorFingerprint)) (f : DescriptorFingerprint)
    → (elim o as (λ x. Option DescriptorFingerprint) [ none ↦ none | some p ↦ some p.1 ]) ≡ some f
    → (d : Descriptor) × (o ≡ some (d, f))
address_of none f h = ground arith
address_of (some (d, g)) f h = (d, ground arith)

pub IsLater-of_logs :
    (v w : Wallet) (new : List WalletEvent)
    → IsLogged v
    → IsLogged w
    → w.events ≡ v.events ++ new
    → IsLater v w
unfolding descriptor descriptor_fingerprint_of
IsLater-of_logs v w new i j e = record {
  new_events = new;
  events_kept = e;
  policy_kept =
      some_injective (first_policy w.events) (policy_of w) (policy_of v) j
        (ap first_policy e ∙ first_policy-append v.events new (policy_of v) i);
  descriptor_kept = λ d h.
      let found = activation_of (first_activation v.events) d h in
      ap (λ o. elim o as (λ x. Option Descriptor) [ none ↦ none | some p ↦ some p.0 ])
        (ap first_activation e ∙ first_activation-append v.events new (d, found.0) found.1);
  fingerprint_kept = λ f h.
      let found = address_of (first_activation v.events) f h in
      ap (λ o. elim o as (λ x. Option DescriptorFingerprint) [ none ↦ none | some p ↦ some p.1 ])
        (ap first_activation e ∙ first_activation-append v.events new (found.0, f) found.1);
}
