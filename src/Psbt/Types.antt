-- ===== src/Psbt/Types.antt =====
-- PSBT documents and the errors of core/coordination/src/psbt.rs, with what the code takes from the
-- bitcoin and secp256k1 crates.
use kota.Base.{
  ℕ, Bool, true, false, ◌&&◌, ◌||◌, Option, none, some, List, [], ◌∷◌, Result, ltb, ◌==◌,
  if◌then◌else◌,
}
use kota.Primitives.{KeyFingerprint, Text}

-- A public key; its order as a map key is that of numbers.
abbrev pub PublicKey : Type 0
PublicKey = ℕ

pub data EcdsaSighashType : Type 0 where
  all none_type single all_plus_anyone none_plus_anyone single_plus_anyone : EcdsaSighashType

pub record EcdsaSignature : Type 0 where
  pub signature : ℕ
  pub sighash_type : EcdsaSighashType

-- An entry of `partial_sigs`, which is a `BTreeMap`: a list in the order of the keys.
pub record PartialSig : Type 0 where
  pub pubkey : PublicKey
  pub signature : EcdsaSignature

-- An entry of `bip32_derivation`; the key is the inner key of a `PublicKey`.
pub record KeySource : Type 0 where
  pub key : ℕ
  pub fingerprint : KeyFingerprint
  pub path : ℕ

-- `other` is the bytes of the fields that the code only compares.
pub record PsbtInput : Type 0 where
  pub partial_sigs : List PartialSig
  pub bip32_derivation : List KeySource
  pub other : ℕ

-- Transactions, output maps and the global maps are only compared.
pub record Psbt : Type 0 where
  pub unsigned_tx : ℕ
  pub version : ℕ
  pub xpub : ℕ
  pub proprietary : ℕ
  pub unknown : ℕ
  pub inputs : List PsbtInput
  pub outputs : List ℕ

pub data PsbtValidationError : Type 0 where
  deserialize_failed : Text → PsbtValidationError
  too_large : ℕ → ℕ → PsbtValidationError
  unsigned_tx_modified input_output_count_mismatch : PsbtValidationError
  partial_signature_removed : ℕ → PsbtValidationError
  no_new_signatures : PsbtValidationError
  incomplete_submission : ℕ → PsbtValidationError
  sighash_computation : ℕ → Text → PsbtValidationError
  non_sighash_all_sighash : ℕ → PsbtValidationError
  invalid_partial_signature : ℕ → PsbtValidationError
  signature_not_bound_to_signer : ℕ → PublicKey → KeyFingerprint → PsbtValidationError
  global_field_modified : PsbtValidationError
  input_field_modified : ℕ → PsbtValidationError
  output_field_modified : ℕ → PsbtValidationError

pub record ExtractedSignature : Type 0 where
  pub input_index : ℕ
  pub pubkey : PublicKey
  pub signature : EcdsaSignature

-- What the code takes from the crates: the decoder, `PublicKey::inner`, `PsbtExt::sighash_msg` and
-- `verify_ecdsa` on a message, a signature and an inner key.
pub record Crypto : Type 0 where
  pub deserialize : List ℕ → Result Psbt Text
  pub inner : PublicKey → ℕ
  pub sighash_msg : Psbt → ℕ → Result ℕ Text
  pub verify_ecdsa : ℕ → ℕ → ℕ → Bool

abbrev pub is_sighash_all : EcdsaSighashType → Bool
is_sighash_all all = true
is_sighash_all _ = false

abbrev sighash_code : EcdsaSighashType → ℕ
sighash_code all = 0
sighash_code none_type = 1
sighash_code single = 2
sighash_code all_plus_anyone = 3
sighash_code none_plus_anyone = 4
sighash_code single_plus_anyone = 5

-- The derived `==` of signatures, of both maps and of inputs.
abbrev pub signature_eq : EcdsaSignature → EcdsaSignature → Bool
signature_eq s t =
    (s.signature == t.signature) && (sighash_code s.sighash_type == sighash_code t.sighash_type)

abbrev pub partial_sigs_eq : List PartialSig → List PartialSig → Bool
partial_sigs_eq [] [] = true
partial_sigs_eq [] (f ∷ fs) = false
partial_sigs_eq (e ∷ es) [] = false
partial_sigs_eq (e ∷ es) (f ∷ fs) =
    ((e.pubkey == f.pubkey) && signature_eq e.signature f.signature) && partial_sigs_eq es fs

abbrev pub derivation_eq : List KeySource → List KeySource → Bool
derivation_eq [] [] = true
derivation_eq [] (l ∷ ls) = false
derivation_eq (k ∷ ks) [] = false
derivation_eq (k ∷ ks) (l ∷ ls) =
    ((k.key == l.key) && (k.fingerprint == l.fingerprint) && (k.path == l.path))
    && derivation_eq ks ls

abbrev pub input_eq : PsbtInput → PsbtInput → Bool
input_eq i j =
    partial_sigs_eq i.partial_sigs j.partial_sigs
    && derivation_eq i.bip32_derivation j.bip32_derivation
    && (i.other == j.other)

-- `get`, `contains_key` and `insert` of the maps.
abbrev pub get_sig : PublicKey → List PartialSig → Option EcdsaSignature
get_sig pk [] = none
get_sig pk (e ∷ es) = let rest = get_sig pk es in if pk == e.pubkey then some e.signature else rest

abbrev pub contains_key : PublicKey → List PartialSig → Bool
contains_key pk [] = false
contains_key pk (e ∷ es) = (pk == e.pubkey) || contains_key pk es

abbrev pub insert_sig : PublicKey → EcdsaSignature → List PartialSig → List PartialSig
insert_sig pk s [] = record { pubkey = pk; signature = s } ∷ []
insert_sig pk s (e ∷ es) =
    let rest = insert_sig pk s es in
    if ltb pk e.pubkey
    then record { pubkey = pk; signature = s } ∷ e ∷ es
    else if pk == e.pubkey
    then record { pubkey = pk; signature = s } ∷ es
    else e ∷ rest

abbrev pub get_source : ℕ → List KeySource → Option KeyFingerprint
get_source key [] = none
get_source key (k ∷ ks) =
    let rest = get_source key ks in if key == k.key then some k.fingerprint else rest
