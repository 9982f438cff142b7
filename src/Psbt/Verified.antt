-- ===== src/Psbt/Verified.antt =====
-- What `verify_merged_blob` has established of a blob that it accepts.
use kota.Base.{ℕ, suc, ◌≡◌, refl, true, List, [], ◌∷◌, ok, arith, length, all}
use kota.Psbt.Types.{PartialSig, PsbtInput, Psbt, Crypto}
use kota.Psbt.Validate.{verify_added, verify_inputs, verify_merged_blob}
use kota.Psbt.Accepted.{verify_partial_sig_ok}
use kota.Psbt.Merged.{is_known, are_known}

module _ (c : Crypto) (original : Psbt) where
  verify_added_sound :
      (idx : ℕ) (o : PsbtInput) (es : List PartialSig)
      → verify_added c original idx o es ≡ ok tt
      → all (is_known c original idx o) es ≡ true
  unfolding verify_added
  verify_added_sound idx o [] h = refl
  verify_added_sound idx o (e ∷ es) h = ground (
    arith,
    verify_added_sound idx o es,
    verify_partial_sig_ok c original idx e.pubkey e.signature,
  )

  verify_inputs_sound :
      (idx : ℕ) (os ms : List PsbtInput)
      → verify_inputs c original idx os ms ≡ ok tt
      → are_known c original idx os ms ≡ true
  unfolding verify_inputs
  verify_inputs_sound idx [] ms h = refl
  verify_inputs_sound idx (o ∷ os) [] h = refl
  verify_inputs_sound idx (o ∷ os) (m ∷ ms) h =
      ground (arith, verify_added_sound idx o m.partial_sigs, verify_inputs_sound (suc idx) os ms)

  pub verify_merged_blob_sound :
      (merged : Psbt)
      → verify_merged_blob c original merged ≡ ok tt
      → (length merged.inputs ≡ length original.inputs)
        × (are_known c original 0 original.inputs merged.inputs ≡ true)
  unfolding verify_merged_blob
  verify_merged_blob_sound merged h =
      ground (arith, verify_inputs_sound 0 original.inputs merged.inputs)
