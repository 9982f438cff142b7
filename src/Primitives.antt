-- ===== src/Primitives.antt =====
-- core/coordination/src/primitives.rs and wallet/primitives.rs: identifiers and statuses.
-- The code compares, orders and stores identifiers, digests and the values of the bitcoin crate
-- named here; each is the number that its bytes spell, so that equality and the derived order
-- (byte by byte, the first byte first) are those of numbers.
pub mod Hex
pub mod Digest
pub mod Fingerprint
pub mod Address
mod HexExamples
use Prim.Native.String.{String}
use kota.Base.{ℕ}

abbrev pub PsbtSessionId : Type 0
PsbtSessionId = ℕ

abbrev pub WalletId : Type 0
WalletId = ℕ

abbrev pub UserId : Type 0
UserId = ℕ

-- SHA-256 of a blob.
abbrev pub PsbtHash : Type 0
PsbtHash = ℕ

-- `bitcoin::bip32::Fingerprint`
abbrev pub KeyFingerprint : Type 0
KeyFingerprint = ℕ

abbrev pub Txid : Type 0
Txid = ℕ

abbrev pub BlockHash : Type 0
BlockHash = ℕ

abbrev pub Network : Type 0
Network = ℕ

-- A parsed address whose network is not checked yet.
abbrev pub BitcoinAddress : Type 0
BitcoinAddress = ℕ

abbrev pub Text : Type 0
Text = String

pub data WalletStatus : Type 0 where
  collecting_keystores active cancelled : WalletStatus
