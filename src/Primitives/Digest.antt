-- ===== src/Primitives/Digest.antt =====
-- SHA-256 digests, core/coordination/src/primitives.rs: `PsbtHash::digest_of`.
-- A digest is its bytes.
use kota.Base.{ℕ, ◌≡◌, true, some, List, length, all}
use kota.Primitives.Hex
use kota.Primitives.Hex.{is_byte, from_str-display}

-- `sha2::Sha256::digest`, with what the code relies on: 32 bytes.
pub record Sha256 : Type 0 where
  pub digest : List ℕ → List ℕ
  pub length-digest : (bytes : List ℕ) → length (digest bytes) ≡ 32
  pub digest-bytes : (bytes : List ℕ) → all is_byte (digest bytes) ≡ true

module _ (sha : Sha256) where
  -- `copy_from_slice` into 32 bytes, which the digest has.
  unfoldable pub digest_of : List ℕ → List ℕ
  digest_of bytes = sha.digest bytes

  -- The printed digest of any bytes is parsed back to it.
  pub from_str-digest_of :
      (bytes : List ℕ) → Hex.from_str (Hex.display (digest_of bytes)) ≡ some (digest_of bytes)
  unfolding digest_of
  from_str-digest_of bytes =
      from_str-display (sha.digest bytes) (sha.length-digest bytes) (sha.digest-bytes bytes)
