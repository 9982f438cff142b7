-- ===== src/Psbt/Validate.antt =====
-- The functions of core/coordination/src/psbt.rs.
use kota.Base.{
  ℕ, zero, suc, ◌*◌, Bool, true, false, not, ◌||◌, Option, none, some, List, [], ◌∷◌, ◌++◌, Result,
  ok, err, ◌>>=◌, ◌>>◌, length, is_empty, ltb, ◌==◌, if◌then◌else◌,
}
use kota.Primitives.{KeyFingerprint, Text}
use kota.Psbt.Types.{
  PublicKey, EcdsaSignature, PartialSig, PsbtInput, Psbt, ExtractedSignature, Crypto,
  is_sighash_all, signature_eq, input_eq, get_sig, contains_key, insert_sig, get_source,
  PsbtValidationError, deserialize_failed, too_large, unsigned_tx_modified,
  input_output_count_mismatch, partial_signature_removed, no_new_signatures, incomplete_submission,
  sighash_computation, non_sighash_all_sighash, invalid_partial_signature,
  signature_not_bound_to_signer, global_field_modified, input_field_modified, output_field_modified,
}

abbrev pub Checked : Type 0
Checked = Result (Unit {0}) PsbtValidationError

-- `if b { return Err(e) }`
abbrev pub refuse_if : Bool → PsbtValidationError → Checked
refuse_if true e = err e
refuse_if false e = ok tt

-- Bytes accepted in a document: one MiB.
abbrev pub max_psbt_bytes : ℕ
max_psbt_bytes = 1024 * 1024

-- The loop over the outputs.
unfoldable pub check_outputs : ℕ → List ℕ → List ℕ → Checked
check_outputs idx (o ∷ os) (s ∷ ss) =
    let rest = check_outputs (suc idx) os ss in
    refuse_if (not (s == o)) (output_field_modified idx) >> rest
check_outputs idx _ _ = ok tt

abbrev pub is_kept : EcdsaSignature → Option EcdsaSignature → Bool
is_kept s none = false
is_kept s (some t) = signature_eq t s

-- The loop over the original's signatures of an input.
unfoldable pub check_kept : ℕ → List PartialSig → List PartialSig → Checked
check_kept idx [] signed = ok tt
check_kept idx (e ∷ es) signed =
    let rest = check_kept idx es signed in
    refuse_if (not (is_kept e.signature (get_sig e.pubkey signed))) (partial_signature_removed idx)
    >> rest

abbrev pub is_from : KeyFingerprint → Option KeyFingerprint → Bool
is_from expected none = false
is_from expected (some fp) = fp == expected

-- What the loop over the inputs keeps.
pub record Progress : Type 0 where
  pub extracted : List ExtractedSignature
  pub first_incomplete_input : Option ℕ

abbrev pub first_of : Option ℕ → ℕ → Option ℕ
first_of none idx = some idx
first_of (some i) idx = some i

abbrev pub update_at : ℕ → PublicKey → EcdsaSignature → List PsbtInput → List PsbtInput
update_at i pk s [] = []
update_at zero pk s (x ∷ xs) = record x { partial_sigs = insert_sig pk s x.partial_sigs } ∷ xs
update_at (suc i) pk s (x ∷ xs) = x ∷ update_at i pk s xs

-- An index outside of the inputs panics in the source; `none` stands for that.
unfoldable pub merge_from : List PsbtInput → List ExtractedSignature → Option (List PsbtInput)
merge_from inputs [] = some inputs
merge_from inputs (x ∷ xs) =
    let rest = merge_from (update_at x.input_index x.pubkey x.signature inputs) xs in
    if ltb x.input_index (length inputs) then rest else none

abbrev pub with_inputs : Psbt → Option (List PsbtInput) → Option Psbt
with_inputs original none = none
with_inputs original (some inputs) = some (record original { inputs = inputs })

unfoldable pub merge_partial_sigs : Psbt → List ExtractedSignature → Option Psbt
unfolding merge_from
merge_partial_sigs original new_sigs = with_inputs original (merge_from original.inputs new_sigs)

module _ (c : Crypto) where
  abbrev parsed : Result Psbt Text → Result Psbt PsbtValidationError
  parsed (ok p) = ok p
  parsed (err why) = err (deserialize_failed why)

  unfoldable pub parse_psbt : List ℕ → Result Psbt PsbtValidationError
  parse_psbt bytes =
      if ltb max_psbt_bytes (length bytes)
      then err (too_large (length bytes) max_psbt_bytes)
      else parsed (c.deserialize bytes)

  abbrev pub verify_message : Result ℕ Text → ℕ → PublicKey → EcdsaSignature → Checked
  verify_message (err why) index pk s = err (sighash_computation index why)
  verify_message (ok msg) index pk s =
      refuse_if (not (c.verify_ecdsa msg s.signature (c.inner pk)))
        (invalid_partial_signature index)

  unfoldable pub verify_partial_sig : Psbt → ℕ → PublicKey → EcdsaSignature → Checked
  verify_partial_sig original index pk s =
      refuse_if (not (is_sighash_all s.sighash_type)) (non_sighash_all_sighash index)
      >> verify_message (c.sighash_msg original index) index pk s

  abbrev pub extract_one :
      Psbt → KeyFingerprint → ℕ → PsbtInput → PublicKey → EcdsaSignature → Checked
  extract_one original expected idx orig_in pk s =
      refuse_if (not (is_from expected (get_source (c.inner pk) orig_in.bip32_derivation)))
        (signature_not_bound_to_signer idx pk expected)
      >> verify_partial_sig original idx pk s

  abbrev pub push :
      ExtractedSignature
      → List ExtractedSignature
      → Result (List ExtractedSignature) PsbtValidationError
  push x xs = ok (x ∷ xs)

  -- The loop over the submission's signatures of an input, to the signatures that it adds.
  unfoldable pub extract :
      Psbt
      → KeyFingerprint
      → ℕ
      → PsbtInput
      → List PartialSig
      → Result (List ExtractedSignature) PsbtValidationError
  unfolding verify_partial_sig
  extract original expected idx orig_in [] = ok []
  extract original expected idx orig_in (e ∷ es) =
      let rest = extract original expected idx orig_in es in
      if contains_key e.pubkey orig_in.partial_sigs
      then rest
      else (extract_one original expected idx orig_in e.pubkey e.signature
          >> (rest
              >>= push (record { input_index = idx; pubkey = e.pubkey; signature = e.signature })))

  unfoldable pub validate_input :
      Psbt
      → KeyFingerprint
      → ℕ
      → PsbtInput
      → PsbtInput
      → Result (List ExtractedSignature) PsbtValidationError
  unfolding check_kept extract
  validate_input original expected idx orig_in signed_in =
      check_kept idx orig_in.partial_sigs signed_in.partial_sigs
      >> refuse_if
          (not (input_eq (record signed_in { partial_sigs = orig_in.partial_sigs }) orig_in))
          (input_field_modified idx)
      >> extract original expected idx orig_in signed_in.partial_sigs

  abbrev pub advance : Progress → ℕ → List ExtractedSignature → Progress
  advance p idx added = record {
    extracted = p.extracted ++ added;
    first_incomplete_input =
        if is_empty added then first_of p.first_incomplete_input idx else p.first_incomplete_input;
  }

  -- The loop over the inputs.
  unfoldable pub validate_inputs :
      Psbt
      → KeyFingerprint
      → ℕ
      → List PsbtInput
      → List PsbtInput
      → Progress
      → Result Progress PsbtValidationError
  unfolding validate_input
  validate_inputs original expected idx (o ∷ os) (s ∷ ss) p =
      validate_input original expected idx o s >>= λ added.
      validate_inputs original expected (suc idx) os ss (advance p idx added)
  validate_inputs original expected idx _ _ p = ok p

  abbrev pub conclude_from :
      List ExtractedSignature → Option ℕ → Result (List ExtractedSignature) PsbtValidationError
  conclude_from xs (some idx) = err (incomplete_submission idx)
  conclude_from xs none = ok xs

  abbrev pub conclude : Progress → Result (List ExtractedSignature) PsbtValidationError
  conclude p =
      if is_empty p.extracted
      then err no_new_signatures
      else conclude_from p.extracted p.first_incomplete_input

  abbrev pub check_globals : Psbt → Psbt → Checked
  check_globals original signed =
      refuse_if (not (signed.unsigned_tx == original.unsigned_tx)) unsigned_tx_modified
      >> refuse_if
          (not (length signed.inputs == length original.inputs)
            || not (length signed.outputs == length original.outputs))
          input_output_count_mismatch
      >> refuse_if
          (not (signed.version == original.version)
            || not (signed.xpub == original.xpub)
            || not (signed.proprietary == original.proprietary)
            || not (signed.unknown == original.unknown))
          global_field_modified

  unfoldable pub validate_signed_submission :
      Psbt → Psbt → KeyFingerprint → Result (List ExtractedSignature) PsbtValidationError
  unfolding check_outputs validate_inputs
  validate_signed_submission original signed expected =
      check_globals original signed
      >> check_outputs 0 original.outputs signed.outputs
      >> (validate_inputs original expected 0 original.inputs signed.inputs
            (record { extracted = []; first_incomplete_input = none })
          >>= conclude)

  -- The loops of `verify_merged_blob`.
  unfoldable pub verify_added : Psbt → ℕ → PsbtInput → List PartialSig → Checked
  unfolding verify_partial_sig
  verify_added original idx orig_in [] = ok tt
  verify_added original idx orig_in (e ∷ es) =
      let rest = verify_added original idx orig_in es in
      if contains_key e.pubkey orig_in.partial_sigs
      then rest
      else (verify_partial_sig original idx e.pubkey e.signature >> rest)

  unfoldable pub verify_inputs : Psbt → ℕ → List PsbtInput → List PsbtInput → Checked
  unfolding verify_added
  verify_inputs original idx (o ∷ os) (m ∷ ms) =
      let rest = verify_inputs original (suc idx) os ms in
      verify_added original idx o m.partial_sigs >> rest
  verify_inputs original idx _ _ = ok tt

  unfoldable pub verify_merged_blob : Psbt → Psbt → Checked
  unfolding verify_inputs
  verify_merged_blob original merged =
      refuse_if (not (merged.unsigned_tx == original.unsigned_tx)) unsigned_tx_modified
      >> refuse_if (not (length merged.inputs == length original.inputs))
          input_output_count_mismatch
      >> verify_inputs original 0 original.inputs merged.inputs
