-- ===== src/Primitives/Fingerprint.antt =====
-- `DescriptorFingerprint`, core/coordination/src/primitives.rs: the source writes the code of
-- `PsbtHash` once more for this type. A fingerprint is its bytes.
use kota.Base.{ℕ, ◌≡◌, true, Option, some, List, length, all}
use kota.Primitives.Hex
use kota.Primitives.Hex.{is_byte, from_str-display}
use kota.Primitives.Digest.{Sha256}

-- `digest_of`
unfoldable pub fingerprint_of : Sha256 → List ℕ → List ℕ
fingerprint_of sha bytes = sha.digest bytes

-- `Display`
unfoldable pub display_fingerprint : List ℕ → List ℕ
display_fingerprint bytes = Hex.display bytes

-- `FromStr`
unfoldable pub parse_fingerprint : List ℕ → Option (List ℕ)
parse_fingerprint s = Hex.from_str s

pub parse_fingerprint-display :
    (bs : List ℕ)
    → length bs ≡ 32
    → all is_byte bs ≡ true
    → parse_fingerprint (display_fingerprint bs) ≡ some bs
unfolding display_fingerprint parse_fingerprint
parse_fingerprint-display bs l h = from_str-display bs l h
