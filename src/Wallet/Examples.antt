-- ===== src/Wallet/Examples.antt =====
-- Runs of a wallet on concrete input, and the theorems at them.
use Prim.Native.Nat.{◌*◌}
use mathlib.Core.List.Perm
use native.Mathlib.Omega.{arith}
use kota.Base.{
  ℕ, ◌+◌, ◌≤◌, ◌<◌, ◌≡◌, ◌≢◌, ◌↔◌, refl, none, some, List, [], ◌∷◌, ok, err, length, IsDistinct,
  nat_order,
}
use kota.Base.Sort.{sort_by}
use kota.Primitives.{collecting_keystores, active, cancelled}
use kota.EsEntity.{IdempotencyGuard, documented_guard}
use kota.Wallet.Types.{
  DescriptorPublicKey, xpub, other, key_eq, Miniscript, WalletEvent, Wallet, duplicate_keystore,
}
use kota.Wallet.Descriptor.{sortedmulti_wsh_descriptor, keystore_fingerprint, string_leb}
use kota.Wallet.Entity.{
  status, submissions, keystores, fingerprints, activation, add_keystore, remove_keystore, cancel,
  NewWallet, new, into_events, try_from_events, descriptor,
}
use kota.Wallet.Activation.{HasDescriptor, terminal_unchanged}
use kota.Wallet.Canonical.{PrintsFaithfully, sortedmulti_wsh_descriptor-perm}
use kota.Wallet.Registered.{
  submit, abandon, execute, Reaches, here, next, IsRegistered, new_iff, active_policy,
}

-- A stand-in for miniscript that prints every part of a key.
abbrev pub key_print : DescriptorPublicKey → List ℕ
key_print (xpub none k) = 0 ∷ k ∷ []
key_print (xpub (some (f, p)) k) = 1 ∷ f ∷ p ∷ k ∷ []
key_print (other k) = 2 ∷ k ∷ []

abbrev pub total : List ℕ → ℕ
total [] = 0
total (x ∷ xs) = x + total xs

abbrev pub toy : Miniscript
toy = record {
  master_fingerprint = λ k. 0;
  key_string = key_print;
  threshold_new = λ n ks. ok (n, ks);
  new_wsh_sortedmulti = λ p. ok (p.0 * 100 + length p.1);
  descriptor_string = λ d. d ∷ 35 ∷ 7 ∷ [];
  keys_of = λ d. [];
  network_string = λ n. n ∷ [];
  sha256 = total;
}

abbrev pub guard : IdempotencyGuard WalletEvent
guard = documented_guard

abbrev pub first_key : DescriptorPublicKey
first_key = xpub (some (11, 48)) 1001

abbrev pub second_key : DescriptorPublicKey
second_key = xpub (some (12, 48)) 1002

-- Another key of the first device.
abbrev pub sibling_key : DescriptorPublicKey
sibling_key = xpub (some (11, 49)) 1003

abbrev pub policy : NewWallet
policy = record { id = 1; network = 4; threshold = 2; participants = 21 ∷ 22 ∷ [] }

abbrev pub registered : Wallet
registered = record {
  id = 1;
  network = 4;
  threshold = 2;
  participants = 21 ∷ 22 ∷ [];
  events = into_events policy;
}

abbrev pub half : Wallet
half = execute toy guard (submit first_key 21) registered

abbrev pub full : Wallet
full = execute toy guard (submit second_key 22) half

pub policy-IsRegistered : IsRegistered toy guard policy registered
unfolding new try_from_events
policy-IsRegistered = record { accepted = refl; hydrated = refl; countable = omega arith }

pub full-Reaches : Reaches toy guard registered full
full-Reaches = next (submit second_key 22) (next (submit first_key 21) here)

full_active : status full ≡ active
unfolding execute add_keystore activation key_eq keystore_fingerprint sortedmulti_wsh_descriptor
    sort_by string_leb
full_active = refl

full_described : descriptor full ≡ some 202
unfolding execute add_keystore activation key_eq keystore_fingerprint sortedmulti_wsh_descriptor
    sort_by string_leb descriptor
full_described = refl

same_device_refused : (add_keystore toy half sibling_key 22).1 ≡ err (duplicate_keystore 11)
unfolding execute add_keystore activation key_eq keystore_fingerprint
same_device_refused = refl

full_not_collecting : status full ≢ collecting_keystores
full_not_collecting e = cc (full_active, e)

abbrev pub dropped : Wallet
dropped = execute toy guard (abandon 21 "mistake") half

dropped_cancelled : status dropped ≡ cancelled
unfolding execute add_keystore activation key_eq keystore_fingerprint cancel
dropped_cancelled = refl

active_policy_example :
    (full.threshold ≡ policy.threshold)
    × (0 < full.threshold)
    × (full.threshold ≤ length (keystores full))
    × (length (keystores full) ≡ length policy.participants)
    × IsDistinct (fingerprints toy (submissions full))
    × HasDescriptor toy full
active_policy_example =
    active_policy toy guard policy registered full policy-IsRegistered full-Reaches full_active

new_iff_example :
    (new 1 4 2 (21 ∷ 22 ∷ [])
      ≡ ok (record { id = 1; network = 4; threshold = 2; participants = 21 ∷ 22 ∷ [] }))
    ↔ ((0 < policy.threshold)
        × (policy.threshold ≤ length policy.participants)
        × IsDistinct policy.participants)
new_iff_example = new_iff 1 4 2 (21 ∷ 22 ∷ [])

terminal_unchanged_example :
    ((add_keystore toy full sibling_key 21).0 ≡ full)
    × ((remove_keystore full 21 22).0 ≡ full)
    × ((cancel guard full 21 "late").0 ≡ full)
terminal_unchanged_example =
    terminal_unchanged toy guard full sibling_key 21 22 "late" full_not_collecting

toy_prints : PrintsFaithfully toy
toy_prints a b h = ground arith

sortedmulti_wsh_descriptor-perm_example :
    sortedmulti_wsh_descriptor toy 2 (second_key ∷ first_key ∷ [])
    ≡ sortedmulti_wsh_descriptor toy 2 (first_key ∷ second_key ∷ [])
sortedmulti_wsh_descriptor-perm_example =
    sortedmulti_wsh_descriptor-perm toy 2 (second_key ∷ first_key ∷ [])
      (first_key ∷ second_key ∷ []) toy_prints (Perm.swap first_key second_key [])
