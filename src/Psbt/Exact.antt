-- ===== src/Psbt/Exact.antt =====
-- `validate_signed_submission` accepts exactly the submissions, and extracts what they add.
use kota.Base.{
  ok_of_bind, ℕ, suc, ◌≡◌, ◌↔◌, refl, sym, ap, ◌∙◌, true, false, none, List, [], ◌∷◌, ◌++◌, Result,
  ok, err, ◌>>=◌, ◌>>◌, arith, length, all, is_empty, if◌then◌else◌,
}
use mathlib.Core.List.{append-nil, append_assoc}
use kota.Primitives.{KeyFingerprint}
use kota.Psbt.Types.{
  PartialSig, PsbtInput, Psbt, ExtractedSignature, Crypto, contains_key, PsbtValidationError,
}
use kota.Psbt.Validate.{
  Progress, push, extract_one, extract, validate_input, validate_inputs, advance, conclude,
  validate_signed_submission,
}
use kota.Psbt.Accepted.{start, extract_one_ok, none_noted, conclude_sound}
use kota.Psbt.Additive.{checks_passed, validate_signed_submission-IsAdditive}
use kota.Psbt.Complete.{
  new_at, new_signatures, is_fresh, all_signed, extended, advance_new, IsSubmission,
  validate_signed_submission_accepted,
}

module _ (c : Crypto) (original : Psbt) (expected : KeyFingerprint) where
  -- What one input adds.
  abbrev Adds : ℕ → PsbtInput → List PartialSig → List ExtractedSignature → Type 0
  Adds idx o es xs = (all (is_fresh c original expected idx o) es ≡ true) × (new_at idx o es ≡ xs)

  extract_exact_step :
      (idx : ℕ) (o : PsbtInput) (e : PartialSig) (es : List PartialSig)
      (rest : Result (List ExtractedSignature) PsbtValidationError)
      → ((ys : List ExtractedSignature) → rest ≡ ok ys → Adds idx o es ys)
      → (xs : List ExtractedSignature)
      → (if contains_key e.pubkey o.partial_sigs
          then rest
          else (extract_one c original expected idx o e.pubkey e.signature
              >> (rest
                  >>= push c
                      (record { input_index = idx; pubkey = e.pubkey; signature = e.signature }))))
        ≡ ok xs
      → Adds idx o (e ∷ es) xs
  extract_exact_step idx o e es (err why) ih xs h = ground arith
  extract_exact_step idx o e es (ok ys) ih xs h =
      ground (arith, ih ys refl, extract_one_ok c original expected idx o e.pubkey e.signature)

  extract_exact :
      (idx : ℕ) (o : PsbtInput) (es : List PartialSig) (xs : List ExtractedSignature)
      → extract c original expected idx o es ≡ ok xs
      → Adds idx o es xs
  unfolding extract
  extract_exact idx o [] xs h = ground arith
  extract_exact idx o (e ∷ es) xs h =
      extract_exact_step idx o e es (extract c original expected idx o es) (extract_exact idx o es)
        xs h

  validate_input_exact :
      (idx : ℕ) (o s : PsbtInput) (xs : List ExtractedSignature)
      → validate_input c original expected idx o s ≡ ok xs
      → Adds idx o s.partial_sigs xs
  unfolding validate_input
  validate_input_exact idx o s xs h = extract_exact idx o s.partial_sigs xs (ground arith)

  -- What the loop over the inputs adds, where it notes nothing as incomplete.
  abbrev AddsAll : ℕ → List PsbtInput → List PsbtInput → Progress → Progress → Type 0
  AddsAll idx os ss p q =
      (all_signed c original expected idx os ss ≡ true)
      × (q ≡ extended c original expected p (new_signatures idx os ss))
      × (p.first_incomplete_input ≡ none)

  AddsAll-step :
      (idx : ℕ) (o s : PsbtInput) (os ss : List PsbtInput) (p q : Progress)
      (xs : List ExtractedSignature)
      → Adds idx o s.partial_sigs xs
      → AddsAll (suc idx) os ss (advance c p idx xs) q
      → AddsAll idx (o ∷ os) (s ∷ ss) p q
  AddsAll-step idx o s os ss p q xs a r =
      let added = new_at idx o s.partial_sigs in
      let noted = none_noted c original expected (is_empty xs) p.first_incomplete_input idx r.2 in
      (
        ground (arith, a, r.0, ap is_empty a.1, noted),
        r.1
            ∙ ap (λ t. extended c original expected t (new_signatures (suc idx) os ss))
                (advance_new c original expected idx p xs noted.0)
            ∙ ap (λ ys. record p { extracted = ys })
                (append_assoc p.extracted xs (new_signatures (suc idx) os ss)
                  ∙ ap (λ ys. p.extracted ++ (ys ++ new_signatures (suc idx) os ss)) (sym a.1)),
        noted.1,
      )

  ok_injective :
      (p q : Progress) → ◌≡◌ {A = Result Progress PsbtValidationError} (ok p) (ok q) → p ≡ q
  ok_injective p q h = ground arith

  validate_inputs_exact :
      (idx : ℕ) (os ss : List PsbtInput) (p q : Progress)
      → length ss ≡ length os
      → validate_inputs c original expected idx os ss p ≡ ok q
      → q.first_incomplete_input ≡ none
      → AddsAll idx os ss p q
  unfolding validate_inputs
  validate_inputs_exact idx [] [] p q l h n =
      let same = ok_injective p q h in
      (
        refl,
        sym same ∙ rw (append-nil p.extracted) refl,
        ap (λ (x : Progress). x.first_incomplete_input) same ∙ n,
      )
  validate_inputs_exact idx [] (s ∷ ss) p q l h n = ground arith
  validate_inputs_exact idx (o ∷ os) [] p q l h n = ground arith
  validate_inputs_exact idx (o ∷ os) (s ∷ ss) p q l h n =
      let here =
        ok_of_bind (validate_input c original expected idx o s)
          (λ xs. validate_inputs c original expected (suc idx) os ss (advance c p idx xs)) q h in
      AddsAll-step idx o s os ss p q here.0 (validate_input_exact idx o s here.0 here.1)
        (validate_inputs_exact (suc idx) os ss (advance c p idx here.0) q (omega arith) here.2 n)

  some_input :
      (os ss : List PsbtInput) → is_empty (new_signatures 0 os ss) ≡ false → is_empty os ≡ false
  some_input [] ss h = ground arith
  some_input (o ∷ os) ss h = refl

  validate_signed_submission_exact :
      (signed : Psbt) (xs : List ExtractedSignature)
      → validate_signed_submission c original signed expected ≡ ok xs
      → IsSubmission c original expected signed
        × (xs ≡ new_signatures 0 original.inputs signed.inputs)
  validate_signed_submission_exact signed xs h =
      let passed = checks_passed c original expected signed xs h in
      let all_inputs =
        ok_of_bind (validate_inputs c original expected 0 original.inputs signed.inputs (start c))
          (conclude c) xs passed.3 in
      let concluded = conclude_sound c original expected all_inputs.0 xs all_inputs.2 in
      let added =
        validate_inputs_exact 0 original.inputs signed.inputs (start c) all_inputs.0 passed.0
          all_inputs.1 concluded.1 in
      let same : new_signatures 0 original.inputs signed.inputs ≡ xs =
        sym (ap (λ (q : Progress). q.extracted) added.1) ∙ concluded.0 in
      (
        record {
          additive = validate_signed_submission-IsAdditive c original expected signed xs h;
          signs_all = added.0;
          has_input = some_input original.inputs signed.inputs (ap is_empty same ∙ concluded.2);
        },
        sym same,
      )

  -- A signed document is accepted exactly if it agrees with the original but for signatures, keeps
  -- those of the original, and adds to every input, of which there is one, signatures that are all
  -- of keys that the original binds to the signer, use SIGHASH_ALL and verify against the sighash
  -- of the original; then all added signatures are extracted, in order, and only they.
  pub validate_signed_submission_iff :
      (signed : Psbt) (xs : List ExtractedSignature)
      → (validate_signed_submission c original signed expected ≡ ok xs) ↔ (
          IsSubmission c original expected signed
          × (xs ≡ new_signatures 0 original.inputs signed.inputs))
  validate_signed_submission_iff signed xs = (
    validate_signed_submission_exact signed xs,
    λ h. validate_signed_submission_accepted c original expected signed h.0 ∙ ap ok (sym h.1),
  )
