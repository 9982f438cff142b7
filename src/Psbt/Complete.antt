-- ===== src/Psbt/Complete.antt =====
-- The documents that `validate_signed_submission` accepts, and what it extracts of them.
use kota.Base.{
  ℕ, suc, ◌≡◌, refl, sym, ap, subst, Bool, true, false, not, ◌&&◌, ◌||◌, none, List, [], ◌∷◌, ◌++◌,
  map, ok, ◌∙◌, arith, length, length-map, all, is_empty, ==_iff, ◌==◌, if◌then◌else◌,
}
use mathlib.Core.List.{append-nil, append_assoc}
use kota.Primitives.{KeyFingerprint}
use kota.Psbt.Types.{
  PublicKey, EcdsaSignature, PartialSig, KeySource, PsbtInput, Psbt, ExtractedSignature, Crypto,
  derivation_eq, input_eq, partial_sigs_eq, signature_eq, get_sig, contains_key, get_source,
}
use kota.Psbt.Validate.{
  is_kept, is_from, check_kept, check_outputs, Progress, extract_one, extract, validate_input,
  validate_inputs, advance, check_globals, validate_signed_submission,
}
use kota.Psbt.Accepted.{start, is_valid, verify_partial_sig_of}
use kota.Psbt.Additive.{IsAdditive, without_sigs, keeps_sigs, all_keep}

beq_refl : (n : ℕ) → (n == n) ≡ true
beq_refl n = (==_iff n n).1 refl

check_outputs_refl : (idx : ℕ) (os : List ℕ) → check_outputs idx os os ≡ ok tt
unfolding check_outputs
check_outputs_refl idx [] = refl
check_outputs_refl idx (o ∷ os) = ground (arith, beq_refl o, check_outputs_refl (suc idx) os)

check_kept_complete :
    (idx : ℕ) (es signed : List PartialSig)
    → all (λ e. is_kept e.signature (get_sig e.pubkey signed)) es ≡ true
    → check_kept idx es signed ≡ ok tt
unfolding check_kept
check_kept_complete idx [] signed h = refl
check_kept_complete idx (e ∷ es) signed h = ground (arith, check_kept_complete idx es signed)

signature_eq_refl : (s : EcdsaSignature) → signature_eq s s ≡ true
signature_eq_refl s = ground (arith, beq_refl s.signature)

partial_sigs_eq_refl : (es : List PartialSig) → partial_sigs_eq es es ≡ true
partial_sigs_eq_refl [] = refl
partial_sigs_eq_refl (e ∷ es) =
    ground (arith, beq_refl e.pubkey, signature_eq_refl e.signature, partial_sigs_eq_refl es)

derivation_eq_refl : (ks : List KeySource) → derivation_eq ks ks ≡ true
derivation_eq_refl [] = refl
derivation_eq_refl (k ∷ ks) =
    ground (arith, beq_refl k.key, beq_refl k.fingerprint, beq_refl k.path, derivation_eq_refl ks)

input_eq_complete :
    (i j : PsbtInput)
    → without_sigs i ≡ without_sigs j
    → input_eq (record i { partial_sigs = j.partial_sigs }) j ≡ true
input_eq_complete i j h = ground (
  arith,
  partial_sigs_eq_refl j.partial_sigs,
  derivation_eq_refl j.bip32_derivation,
  beq_refl j.other,
  ap (λ (x : PsbtInput). x.bip32_derivation) h,
  ap (λ (x : PsbtInput). x.other) h,
)

-- The signatures that a submission adds at an input, and at all of them, in order.
abbrev pub new_at : ℕ → PsbtInput → List PartialSig → List ExtractedSignature
new_at idx o [] = []
new_at idx o (e ∷ es) =
    let rest = new_at idx o es in
    if contains_key e.pubkey o.partial_sigs
    then rest
    else record { input_index = idx; pubkey = e.pubkey; signature = e.signature } ∷ rest

abbrev pub new_signatures : ℕ → List PsbtInput → List PsbtInput → List ExtractedSignature
new_signatures idx (o ∷ os) (s ∷ ss) = new_at idx o s.partial_sigs ++ new_signatures (suc idx) os ss
new_signatures idx [] ss = []
new_signatures idx (o ∷ os) [] = []

module _ (c : Crypto) (original : Psbt) (expected : KeyFingerprint) where
  -- A signature of the submission is one of the original's, or the signer's own and valid.
  abbrev pub is_fresh : ℕ → PsbtInput → PartialSig → Bool
  is_fresh idx o e =
      contains_key e.pubkey o.partial_sigs
      || (is_from expected (get_source (c.inner e.pubkey) o.bip32_derivation)
          && is_valid c original idx e.pubkey e.signature)

  -- Every input has a new signature, and every new one is the signer's own and valid.
  abbrev pub all_signed : ℕ → List PsbtInput → List PsbtInput → Bool
  all_signed idx [] ss = true
  all_signed idx (o ∷ os) [] = false
  all_signed idx (o ∷ os) (s ∷ ss) =
      all (is_fresh idx o) s.partial_sigs
      && not (is_empty (new_at idx o s.partial_sigs))
      && all_signed (suc idx) os ss

  extract_one_of :
      (idx : ℕ) (i : PsbtInput) (pk : PublicKey) (s : EcdsaSignature)
      → (is_from expected (get_source (c.inner pk) i.bip32_derivation)
          && is_valid c original idx pk s)
        ≡ true
      → extract_one c original expected idx i pk s ≡ ok tt
  extract_one_of idx i pk s h = ground (arith, verify_partial_sig_of c original idx pk s)

  extract_complete :
      (idx : ℕ) (o : PsbtInput) (es : List PartialSig)
      → all (is_fresh idx o) es ≡ true
      → extract c original expected idx o es ≡ ok (new_at idx o es)
  unfolding extract
  extract_complete idx o [] h = refl
  extract_complete idx o (e ∷ es) h =
      ground (arith, extract_complete idx o es, extract_one_of idx o e.pubkey e.signature)

  validate_input_complete :
      (idx : ℕ) (o s : PsbtInput)
      → without_sigs s ≡ without_sigs o
      → keeps_sigs o s ≡ true
      → all (is_fresh idx o) s.partial_sigs ≡ true
      → validate_input c original expected idx o s ≡ ok (new_at idx o s.partial_sigs)
  unfolding validate_input
  validate_input_complete idx o s e k h = ground (
    arith,
    check_kept_complete idx o.partial_sigs s.partial_sigs,
    input_eq_complete s o e,
    extract_complete idx o s.partial_sigs,
  )

  -- Nothing is noted as incomplete, and the new signatures follow those so far.
  abbrev pub extended : Progress → List ExtractedSignature → Progress
  extended p xs = record p { extracted = p.extracted ++ xs }

  pub advance_new :
      (idx : ℕ) (p : Progress) (xs : List ExtractedSignature)
      → is_empty xs ≡ false
      → advance c p idx xs ≡ extended p xs
  advance_new idx p xs h = ground arith

  validate_inputs_complete :
      (idx : ℕ) (os ss : List PsbtInput) (p : Progress)
      → map without_sigs ss ≡ map without_sigs os
      → all_keep os ss ≡ true
      → all_signed idx os ss ≡ true
      → validate_inputs c original expected idx os ss p ≡ ok (extended p (new_signatures idx os ss))
  unfolding validate_inputs
  validate_inputs_complete idx [] [] p e k h = rw (append-nil p.extracted) refl
  validate_inputs_complete idx [] (s ∷ ss) p e k h = ground arith
  validate_inputs_complete idx (o ∷ os) [] p e k h = ground arith
  validate_inputs_complete idx (o ∷ os) (s ∷ ss) p e k h =
      let added = new_at idx o s.partial_sigs in
      rw
        (
          validate_input_complete idx o s (ground arith) (ground arith) (ground arith),
          advance_new idx p added (ground arith),
          validate_inputs_complete (suc idx) os ss (extended p added) (ground arith) (ground arith)
              (ground arith),
          append_assoc p.extracted added (new_signatures (suc idx) os ss),
        )
        refl

  -- A document that adds a valid signature of the signer to every input, and changes nothing else.
  pub record IsSubmission (signed : Psbt) : Type 0 where
    pub additive : IsAdditive original signed
    pub signs_all : all_signed 0 original.inputs signed.inputs ≡ true
    pub has_input : is_empty original.inputs ≡ false

  new_signatures_some :
      (idx : ℕ) (os ss : List PsbtInput)
      → is_empty os ≡ false
      → all_signed idx os ss ≡ true
      → is_empty (new_signatures idx os ss) ≡ false
  new_signatures_some idx [] ss e h = ground arith
  new_signatures_some idx (o ∷ os) [] e h = ground arith
  new_signatures_some idx (o ∷ os) (s ∷ ss) e h = ground arith

  same_length :
      (is js : List PsbtInput) → map without_sigs is ≡ map without_sigs js → length is ≡ length js
  same_length is js h = sym (length-map without_sigs is) ∙ ap length h ∙ length-map without_sigs js

  check_globals_of :
      (signed : Psbt) → IsAdditive original signed → check_globals c original signed ≡ ok tt
  check_globals_of signed a =
      let u = a.unchanged in
      ground (
        arith,
        same_length signed.inputs original.inputs (ap (λ (p : Psbt). p.inputs) u),
        ap (λ (p : Psbt). length p.outputs) u,
        ap (λ (p : Psbt). p.unsigned_tx) u,
        ap (λ (p : Psbt). p.version) u,
        ap (λ (p : Psbt). p.xpub) u,
        ap (λ (p : Psbt). p.proprietary) u,
        ap (λ (p : Psbt). p.unknown) u,
        beq_refl (length original.inputs),
        beq_refl (length original.outputs),
        beq_refl original.unsigned_tx,
        beq_refl original.version,
        beq_refl original.xpub,
        beq_refl original.proprietary,
        beq_refl original.unknown,
      )

  check_outputs_of :
      (signed : Psbt)
      → IsAdditive original signed
      → check_outputs 0 original.outputs signed.outputs ≡ ok tt
  check_outputs_of signed a =
      subst (λ os. check_outputs 0 original.outputs os ≡ ok tt)
        (sym (ap (λ (p : Psbt). p.outputs) a.unchanged)) (check_outputs_refl 0 original.outputs)

  pub validate_signed_submission_accepted :
      (signed : Psbt)
      → IsSubmission signed
      → validate_signed_submission c original signed expected
        ≡ ok (new_signatures 0 original.inputs signed.inputs)
  unfolding validate_signed_submission
  validate_signed_submission_accepted signed i =
      let u = i.additive.unchanged in
      let same_inputs = ap (λ (p : Psbt). p.inputs) u in
      let found : validate_inputs c original expected 0 original.inputs signed.inputs (start c)
          ≡ ok (record {
            extracted = new_signatures 0 original.inputs signed.inputs;
            first_incomplete_input = none;
          }) =
        validate_inputs_complete 0 original.inputs signed.inputs (start c) same_inputs
          i.additive.kept i.signs_all in
      rw (check_globals_of signed i.additive, check_outputs_of signed i.additive, found)
        (ground
          (arith, new_signatures_some 0 original.inputs signed.inputs, i.has_input, i.signs_all))
