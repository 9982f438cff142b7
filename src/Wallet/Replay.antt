-- ===== src/Wallet/Replay.antt =====
-- A wallet comes back from its own events, whatever commands it has seen.
use kota.Base.{
  ◌↔◌, ◌≡◌, refl, ap, ◌∙◌, Option, none, some, List, [], ◌∷◌, ◌++◌, Result, ok, err, arith,
}
use kota.Primitives.{UserId, Text, WalletStatus, collecting_keystores, active, cancelled}
use kota.EsEntity.{IdempotencyGuard}
use kota.Wallet.Types.{
  DescriptorPublicKey, Descriptor, DescriptorFingerprint, Miniscript, WalletEvent, initialized,
  keystore_added, keystore_removed, activated, cancelled_by, Wallet, WalletError,
}
use kota.Wallet.Entity.{
  NewWallet, build, Submission, builder_from, push, status, submissions, find_submission,
  activation, record_keystore, add_collecting, add_keystore, remove_found, remove_keystore,
  cancel_at, cancel, try_from_events,
}
use kota.Wallet.Registered.{Command, submit, withdraw, abandon, execute}

-- The policy that a wallet's fields hold.
abbrev pub policy_of : Wallet → NewWallet
policy_of w = record {
  id = w.id;
  network = w.network;
  threshold = w.threshold;
  participants = w.participants;
}

-- The events set the wallet's policy.
abbrev pub IsReplayed : Wallet → Type 0
IsReplayed w = builder_from none w.events ≡ some (policy_of w)

builder_from-append :
    (b : Option NewWallet) (es fs : List WalletEvent)
    → builder_from b (es ++ fs) ≡ builder_from (builder_from b es) fs
builder_from-append b [] fs = refl
builder_from-append b (initialized i n t ps ∷ es) fs =
    builder_from-append (some (record { id = i; network = n; threshold = t; participants = ps })) es
      fs
builder_from-append b (keystore_added k u ∷ es) fs = builder_from-append b es fs
builder_from-append b (keystore_removed u k by ∷ es) fs = builder_from-append b es fs
builder_from-append b (activated d f ∷ es) fs = builder_from-append b es fs
builder_from-append b (cancelled_by u r ∷ es) fs = builder_from-append b es fs

-- Hydration succeeds with the wallet itself exactly if the events set its policy.
pub try_from_events_iff : (w : Wallet) → (try_from_events w.events ≡ some w) ↔ IsReplayed w
unfolding try_from_events
try_from_events_iff w = (builds w (builder_from none w.events), λ h. rw h refl)
  where
    builds :
        (w : Wallet) (b : Option NewWallet) → build b w.events ≡ some w → b ≡ some (policy_of w)
    builds w none h = ground arith
    builds w (some n) h = ground arith

module _ (m : Miniscript) where
  push-IsReplayed :
      (w : Wallet) (e : WalletEvent)
      → builder_from (some (policy_of w)) (e ∷ []) ≡ some (policy_of w)
      → IsReplayed w
      → IsReplayed (push w e)
  push-IsReplayed w e q h =
      builder_from-append none w.events (e ∷ []) ∙ ap (λ b. builder_from b (e ∷ [])) h ∙ q

  record_keystore-IsReplayed :
      (w : Wallet) (k : DescriptorPublicKey) (u : UserId)
      (r : Result (Option (Descriptor × DescriptorFingerprint)) WalletError)
      → IsReplayed w
      → IsReplayed (record_keystore m w k u r).0
  record_keystore-IsReplayed w k u (err e) h = h
  record_keystore-IsReplayed w k u (ok none) h = push-IsReplayed w (keystore_added k u) refl h
  record_keystore-IsReplayed w k u (ok (some (d, f))) h =
      push-IsReplayed (push w (keystore_added k u)) (activated d f) refl
        (push-IsReplayed w (keystore_added k u) refl h)

  add_collecting-IsReplayed :
      (w : Wallet) (k : DescriptorPublicKey) (u : UserId)
      → IsReplayed w
      → IsReplayed (add_collecting m w k u).0
  unfolding add_collecting
  add_collecting-IsReplayed w k u h =
      ground (arith, record_keystore-IsReplayed w k u (activation m w k) h)

  remove_found-IsReplayed :
      (w : Wallet) (p by : UserId) (o : Option Submission)
      → IsReplayed w
      → IsReplayed (remove_found w p by o).0
  remove_found-IsReplayed w p by none h = h
  remove_found-IsReplayed w p by (some (q, k)) h =
      push-IsReplayed w (keystore_removed p k by) refl h

  cancel_at-IsReplayed :
      (a : WalletStatus) (w : Wallet) (u : UserId) (r : Text)
      → IsReplayed w
      → IsReplayed (cancel_at a w u r).0
  cancel_at-IsReplayed collecting_keystores w u r h = push-IsReplayed w (cancelled_by u r) refl h
  cancel_at-IsReplayed active w u r h = h
  cancel_at-IsReplayed cancelled w u r h = h

  module _ (guard : IdempotencyGuard WalletEvent) where
    execute-IsReplayed :
        (c : Command) (w : Wallet) → IsReplayed w → IsReplayed (execute m guard c w)
    unfolding execute add_keystore remove_keystore cancel
    execute-IsReplayed (submit k u) w h = ground (arith, add_collecting-IsReplayed w k u h)
    execute-IsReplayed (withdraw p by) w h =
        ground (arith, remove_found-IsReplayed w p by (find_submission p (submissions w)) h)
    execute-IsReplayed (abandon u r) w h = ground (arith, cancel_at-IsReplayed (status w) w u r h)

    -- Every command, whatever its result, takes a wallet that hydrates from its own events to one
    -- that does.
    pub execute-hydrates_wallet :
        (c : Command) (w : Wallet)
        → try_from_events w.events ≡ some w
        → try_from_events (execute m guard c w).events ≡ some (execute m guard c w)
    execute-hydrates_wallet c w h =
        (try_from_events_iff (execute m guard c w)).1
          (execute-IsReplayed c w ((try_from_events_iff w).0 h))
