-- ===== src/Psbt/Additive.antt =====
-- How an accepted document differs from the original.
use kota.Base.{
  ok_of_bind, ℕ, suc, ◌≡◌, refl, Bool, true, false, ◌&&◌, List, [], ◌∷◌, map, ok, ◌>>=◌, arith,
  length, all,
}
use kota.Primitives.{KeyFingerprint}
use kota.Psbt.Types.{
  PartialSig, KeySource, PsbtInput, Psbt, ExtractedSignature, Crypto, derivation_eq, input_eq,
  get_sig,
}
use kota.Psbt.Validate.{
  is_kept, check_kept, check_outputs, Progress, validate_input, validate_inputs, advance, conclude,
  validate_signed_submission,
}
use kota.Psbt.Accepted.{start}

derivation_eq_sound : (ks ls : List KeySource) → derivation_eq ks ls ≡ true → ks ≡ ls
derivation_eq_sound [] [] h = refl
derivation_eq_sound [] (l ∷ ls) h = ground arith
derivation_eq_sound (k ∷ ks) [] h = ground arith
derivation_eq_sound (k ∷ ks) (l ∷ ls) h = ground (arith, derivation_eq_sound ks ls)

-- The fields that a signer must leave alone.
abbrev pub without_sigs : PsbtInput → PsbtInput
without_sigs i = record i { partial_sigs = [] }

input_eq_sound :
    (i j : PsbtInput)
    → input_eq (record i { partial_sigs = j.partial_sigs }) j ≡ true
    → without_sigs i ≡ without_sigs j
input_eq_sound i j h = ground (arith, derivation_eq_sound i.bip32_derivation j.bip32_derivation)

-- The submission has each of the original's signatures of an input.
abbrev pub keeps_sigs : PsbtInput → PsbtInput → Bool
keeps_sigs o s = all (λ e. is_kept e.signature (get_sig e.pubkey s.partial_sigs)) o.partial_sigs

abbrev pub all_keep : List PsbtInput → List PsbtInput → Bool
all_keep [] ss = true
all_keep (o ∷ os) [] = false
all_keep (o ∷ os) (s ∷ ss) = keeps_sigs o s && all_keep os ss

-- The documents agree but for the signatures, and those of the original are kept.
pub record IsAdditive (original signed : Psbt) : Type 0 where
  pub unchanged :
      record signed { inputs = map without_sigs signed.inputs }
      ≡ record original { inputs = map without_sigs original.inputs }
  pub kept : all_keep original.inputs signed.inputs ≡ true

check_outputs_sound :
    (idx : ℕ) (os ss : List ℕ) → length ss ≡ length os → check_outputs idx os ss ≡ ok tt → ss ≡ os
unfolding check_outputs
check_outputs_sound idx [] [] l h = refl
check_outputs_sound idx [] (s ∷ ss) l h = ground arith
check_outputs_sound idx (o ∷ os) [] l h = ground arith
check_outputs_sound idx (o ∷ os) (s ∷ ss) l h = ground (arith, check_outputs_sound (suc idx) os ss)

check_kept_sound :
    (idx : ℕ) (es signed : List PartialSig)
    → check_kept idx es signed ≡ ok tt
    → all (λ e. is_kept e.signature (get_sig e.pubkey signed)) es ≡ true
unfolding check_kept
check_kept_sound idx [] signed h = refl
check_kept_sound idx (e ∷ es) signed h = ground (arith, check_kept_sound idx es signed)

module _ (c : Crypto) (original : Psbt) (expected : KeyFingerprint) where
  validate_input_additive :
      (idx : ℕ) (o s : PsbtInput) (xs : List ExtractedSignature)
      → validate_input c original expected idx o s ≡ ok xs
      → (without_sigs s ≡ without_sigs o) × (keeps_sigs o s ≡ true)
  unfolding validate_input
  validate_input_additive idx o s xs h = (
    input_eq_sound s o (ground arith),
    check_kept_sound idx o.partial_sigs s.partial_sigs (ground arith),
  )

  validate_inputs_additive :
      (idx : ℕ) (os ss : List PsbtInput) (p q : Progress)
      → length ss ≡ length os
      → validate_inputs c original expected idx os ss p ≡ ok q
      → (map without_sigs ss ≡ map without_sigs os) × (all_keep os ss ≡ true)
  unfolding validate_inputs
  validate_inputs_additive idx [] [] p q l h = (refl, refl)
  validate_inputs_additive idx [] (s ∷ ss) p q l h = ground arith
  validate_inputs_additive idx (o ∷ os) [] p q l h = ground arith
  validate_inputs_additive idx (o ∷ os) (s ∷ ss) p q l h =
      let here =
        ok_of_bind (validate_input c original expected idx o s)
          (λ xs. validate_inputs c original expected (suc idx) os ss (advance c p idx xs)) q h in
      let rest =
        validate_inputs_additive (suc idx) os ss (advance c p idx here.0) q (omega arith) here.2 in
      ground (arith, validate_input_additive idx o s here.0 here.1, rest)

  pub checks_passed :
      (signed : Psbt) (xs : List ExtractedSignature)
      → validate_signed_submission c original signed expected ≡ ok xs
      → (length signed.inputs ≡ length original.inputs)
        × (length signed.outputs ≡ length original.outputs)
        × (check_outputs 0 original.outputs signed.outputs ≡ ok tt)
        × ((validate_inputs c original expected 0 original.inputs signed.inputs (start c)
              >>= conclude c)
            ≡ ok xs)
  unfolding validate_signed_submission
  checks_passed signed xs h = ground arith

  -- A document that `validate_signed_submission` accepts agrees with the original in every field
  -- but the partial signatures of the inputs, and has all of the original's signatures.
  pub validate_signed_submission-IsAdditive :
      (signed : Psbt) (xs : List ExtractedSignature)
      → validate_signed_submission c original signed expected ≡ ok xs
      → IsAdditive original signed
  unfolding validate_signed_submission
  validate_signed_submission-IsAdditive signed xs h =
      let passed = checks_passed signed xs h in
      let progress =
        ok_of_bind (validate_inputs c original expected 0 original.inputs signed.inputs (start c))
          (conclude c) xs passed.3 in
      let same =
        validate_inputs_additive 0 original.inputs signed.inputs (start c) progress.0 passed.0
          progress.1 in
      record {
        unchanged = ground (
          arith,
          same.0,
          check_outputs_sound 0 original.outputs signed.outputs passed.1 passed.2,
        );
        kept = same.1;
      }
