-- ===== src/Psbt/Examples.antt =====
-- Submissions on concrete documents, and the theorems at them.
use kota.Base.{ℕ, ◌+◌, ◌≡◌, ◌↔◌, refl, some, [], ◌∷◌, ok, err, ◌==◌, List}
use kota.Psbt.Types.{
  EcdsaSignature, all, PartialSig, PsbtInput, Psbt, ExtractedSignature, Crypto,
  incomplete_submission, invalid_partial_signature, partial_signature_removed,
  signature_not_bound_to_signer,
}
use kota.Psbt.Validate.{validate_signed_submission, merge_partial_sigs, verify_merged_blob}
use kota.Psbt.Accepted.{IsAccepted, validate_signed_submission-IsAccepted}
use kota.Psbt.Complete.{new_signatures, IsSubmission}
use kota.Psbt.Exact.{validate_signed_submission_iff}
use kota.Psbt.Merged.{merge_partial_sigs-verified}

-- A stand-in for secp256k1: the signature of a message by a key is their sum.
abbrev pub toy : Crypto
toy = record {
  deserialize = λ bytes. err "not a psbt";
  inner = λ pk. pk;
  sighash_msg = λ p idx. ok (p.unsigned_tx + idx);
  verify_ecdsa = λ msg s key. s == msg + key;
}

abbrev pub signature : ℕ → ℕ → EcdsaSignature
signature idx key = record { signature = 100 + idx + key; sighash_type = all }

abbrev pub entry : ℕ → ℕ → PartialSig
entry idx key = record { pubkey = key; signature = signature idx key }

-- Keys 31 and 33 are of the keystore 11, key 32 is of the keystore 12.
abbrev pub input : ℕ → List PartialSig → PsbtInput
input utxo sigs = record {
  partial_sigs = sigs;
  bip32_derivation =
      record { key = 31; fingerprint = 11; path = 0 }
      ∷ record { key = 32; fingerprint = 12; path = 0 }
      ∷ record { key = 33; fingerprint = 11; path = 1 }
      ∷ [];
  other = utxo;
}

abbrev pub document : List PsbtInput → Psbt
document inputs = record {
  unsigned_tx = 100;
  version = 0;
  xpub = 0;
  proprietary = 0;
  unknown = 0;
  inputs = inputs;
  outputs = 8 ∷ 9 ∷ [];
}

-- A cosigner's signature stands at the first input already.
abbrev pub unsigned : Psbt
unsigned = document (input 1 (entry 0 32 ∷ []) ∷ input 2 [] ∷ [])

abbrev pub signed : Psbt
signed = document (input 1 (entry 0 31 ∷ entry 0 32 ∷ []) ∷ input 2 (entry 1 33 ∷ []) ∷ [])

abbrev pub added : List ExtractedSignature
added =
    record { input_index = 0; pubkey = 31; signature = signature 0 31 }
    ∷ record { input_index = 1; pubkey = 33; signature = signature 1 33 }
    ∷ []

submission_accepted : validate_signed_submission toy unsigned signed 11 ≡ ok added
unfolding validate_signed_submission
submission_accepted = refl

other_signer_refused :
    validate_signed_submission toy unsigned signed 12 ≡ err (signature_not_bound_to_signer 0 31 12)
unfolding validate_signed_submission
other_signer_refused = refl

partial_refused :
    validate_signed_submission toy unsigned
      (document (input 1 (entry 0 31 ∷ entry 0 32 ∷ []) ∷ input 2 [] ∷ []))
      11
    ≡ err (incomplete_submission 1)
unfolding validate_signed_submission
partial_refused = refl

stripped_refused :
    validate_signed_submission toy unsigned
      (document (input 1 (entry 0 31 ∷ []) ∷ input 2 (entry 1 33 ∷ []) ∷ []))
      11
    ≡ err (partial_signature_removed 0)
unfolding validate_signed_submission
stripped_refused = refl

swapped_blob_refused :
    verify_merged_blob toy unsigned
      (document (input 1 (entry 1 31 ∷ []) ∷ input 2 (entry 1 33 ∷ []) ∷ []))
    ≡ err (invalid_partial_signature 0)
unfolding verify_merged_blob
swapped_blob_refused = refl

merged_document : merge_partial_sigs unsigned added ≡ some signed
unfolding merge_partial_sigs
merged_document = refl

validate_signed_submission-IsAccepted_example : IsAccepted toy unsigned 11 added
validate_signed_submission-IsAccepted_example =
    validate_signed_submission-IsAccepted toy unsigned signed 11 added submission_accepted

merge_partial_sigs-verified_example :
    (merged : Psbt) × (merge_partial_sigs unsigned added ≡ some merged)
    × (verify_merged_blob toy unsigned merged ≡ ok tt)
merge_partial_sigs-verified_example =
    merge_partial_sigs-verified toy unsigned signed 11 added submission_accepted

validate_signed_submission_iff_example :
    (validate_signed_submission toy unsigned signed 11 ≡ ok added) ↔ (
      IsSubmission toy unsigned 11 signed
      × (added ≡ new_signatures 0 unsigned.inputs signed.inputs))
validate_signed_submission_iff_example = validate_signed_submission_iff toy unsigned 11 signed added
