-- ===== src/Wallet/Descriptor.antt =====
-- Descriptors and fingerprints, core/coordination/src/wallet.rs.
use kota.Base.{
  ℕ, Bool, true, false, none, some, List, [], ◌∷◌, ◌++◌, Result, ok, err, ◌>>=◌, contains,
  nat_order, ltb, ◌==◌, if◌then◌else◌,
}
use kota.Base.Sort.{sort_by}
use kota.Primitives.{KeyFingerprint, Network, Text}
use kota.Wallet.Types.{
  DescriptorPublicKey, xpub, other, Descriptor, DescriptorFingerprint, Miniscript, WalletError,
  miniscript_error, threshold_error,
}

-- The order of `String`: byte by byte, a prefix first.
unfoldable pub string_leb : List ℕ → List ℕ → Bool
string_leb [] ys = true
string_leb (x ∷ xs) [] = false
string_leb (x ∷ xs) (y ∷ ys) = let rest = string_leb xs ys in if x == y then rest else ltb x y

-- The text before the first `#`, or the whole text.
unfoldable pub before_checksum : List ℕ → List ℕ
before_checksum [] = []
before_checksum (c ∷ cs) = let rest = before_checksum cs in if c == b'#' then [] else c ∷ rest

-- `?` on an error that `From` turns into a `WalletError`.
abbrev pub or_error : {A : Type 0} → (Text → WalletError) → Result A Text → Result A WalletError
or_error f (ok a) = ok a
or_error f (err e) = err (f e)

module _ (m : Miniscript) where
  abbrev pub key_leb : DescriptorPublicKey → DescriptorPublicKey → Bool
  key_leb a b = string_leb (m.key_string a) (m.key_string b)

  unfoldable pub sortedmulti_wsh_descriptor :
      ℕ → List DescriptorPublicKey → Result Descriptor WalletError
  sortedmulti_wsh_descriptor threshold keystores = do
    policy ← or_error threshold_error (m.threshold_new threshold (sort_by key_leb keystores))
    or_error miniscript_error (m.new_wsh_sortedmulti policy)

  unfoldable pub descriptor_fingerprint : Descriptor → Network → DescriptorFingerprint
  descriptor_fingerprint descriptor network =
      m.sha256 (m.network_string network ++ b':' ∷ before_checksum (m.descriptor_string descriptor))

  unfoldable pub keystore_fingerprint : DescriptorPublicKey → KeyFingerprint
  keystore_fingerprint (xpub (some (fingerprint, path)) k) = fingerprint
  keystore_fingerprint (xpub none k) = m.master_fingerprint (xpub none k)
  keystore_fingerprint (other k) = m.master_fingerprint (other k)

  -- The closure of `for_each_key`, over the keys left and the fingerprints found.
  unfoldable pub collect_fingerprints :
      List KeyFingerprint → List DescriptorPublicKey → List KeyFingerprint
  collect_fingerprints found [] = found
  collect_fingerprints found (k ∷ ks) =
      let fp = keystore_fingerprint k in
      collect_fingerprints (if contains found fp then found else found ++ fp ∷ []) ks

  unfoldable pub descriptor_fingerprints : Descriptor → List KeyFingerprint
  unfolding collect_fingerprints
  descriptor_fingerprints descriptor = collect_fingerprints [] (m.keys_of descriptor)
