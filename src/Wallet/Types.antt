-- ===== src/Wallet/Types.antt =====
-- The keys, events, entity and errors of core/coordination/src/wallet.rs and wallet/entity.rs, and
-- what they take from the miniscript and sha2 crates.
use kota.Base.{ℕ, Bool, true, false, ◌&&◌, Option, none, some, List, Result, ◌==◌}
use kota.Primitives.{WalletId, UserId, KeyFingerprint, Txid, Network, Text}

-- `miniscript::descriptor::DescriptorPublicKey`: an `XPub` with its optional origin, or one of the
-- other kinds. The parts that the code does not look into are numbers.
pub data DescriptorPublicKey : Type 0 where
  xpub : Option (KeyFingerprint × ℕ) → ℕ → DescriptorPublicKey
  other : ℕ → DescriptorPublicKey

same_origin : Option (KeyFingerprint × ℕ) → Option (KeyFingerprint × ℕ) → Bool
same_origin none none = true
same_origin (some (f, p)) (some (g, q)) = (f == g) && (p == q)
same_origin _ _ = false

-- `==` on keys, derived field by field.
unfoldable pub key_eq : DescriptorPublicKey → DescriptorPublicKey → Bool
unfolding same_origin
key_eq (xpub o k) (xpub p l) = same_origin o p && (k == l)
key_eq (other k) (other l) = k == l
key_eq _ _ = false

-- A parsed descriptor, which the code compares, prints and hands back to miniscript.
abbrev pub Descriptor : Type 0
Descriptor = ℕ

abbrev pub DescriptorFingerprint : Type 0
DescriptorFingerprint = ℕ

-- What the wallet takes from miniscript, bitcoin and sha2. Texts are their bytes.
pub record Miniscript : Type 0 where
  pub master_fingerprint : DescriptorPublicKey → KeyFingerprint
  pub key_string : DescriptorPublicKey → List ℕ
  pub threshold_new : ℕ → List DescriptorPublicKey → Result (ℕ × List DescriptorPublicKey) Text
  pub new_wsh_sortedmulti : ℕ × List DescriptorPublicKey → Result Descriptor Text
  pub descriptor_string : Descriptor → List ℕ
  pub keys_of : Descriptor → List DescriptorPublicKey
  pub network_string : Network → List ℕ
  pub sha256 : List ℕ → ℕ

pub data WalletEvent : Type 0 where
  initialized : WalletId → Network → ℕ → List UserId → WalletEvent
  keystore_added : DescriptorPublicKey → UserId → WalletEvent
  keystore_removed : UserId → DescriptorPublicKey → UserId → WalletEvent
  activated : Descriptor → DescriptorFingerprint → WalletEvent
  cancelled_by : UserId → Text → WalletEvent

-- `events` is what `iter_all` yields, the oldest first.
pub record Wallet : Type 0 where
  pub id : WalletId
  pub network : Network
  pub threshold : ℕ  -- u32
  pub participants : List UserId
  pub events : List WalletEvent

pub data WalletError : Type 0 where
  miniscript_error : Text → WalletError
  threshold_error : Text → WalletError
  non_definite_key : Text → WalletError
  missing_funding : Txid → ℕ → WalletError
  invalid_address : Text → WalletError
  amount_mismatch : ℕ → ℕ → ℕ → WalletError
  amount_overflow : WalletError
  psbt_error : Text → WalletError
  invalid_policy : ℕ → ℕ → WalletError
  duplicate_participant : UserId → WalletError
  not_a_participant : UserId → WalletError
  participant_already_submitted : UserId → WalletError
  already_active : WalletError
  duplicate_keystore : KeyFingerprint → WalletError
  was_cancelled : WalletError
  cannot_cancel_active : WalletError
  output_update : Text → WalletError
  utxo_update : Text → WalletError
