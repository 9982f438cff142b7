-- ===== src/Psbt/Accepted.antt =====
-- What an accepted submission holds.
use kota.Base.{
  ℕ, zero, suc, ◌+◌, ◌<◌, ◌≡◌, refl, sym, ap, subst, ◌∙◌, Bool, true, false, not, ◌&&◌, ◌||◌,
  Option, none, some, List, [], ◌∷◌, Result, ok, err, ◌>>=◌, ◌>>◌, arith, length, is_empty, any,
  all, any-append, all-append, ◌==◌, if◌then◌else◌,
}
use kota.Primitives.{KeyFingerprint, Text}
use kota.Psbt.Types.{
  PublicKey, EcdsaSignature, PartialSig, PsbtInput, Psbt, ExtractedSignature, Crypto,
  is_sighash_all, contains_key, get_source, PsbtValidationError,
}
use kota.Psbt.Validate.{
  first_of, is_from, push, Progress, verify_message, verify_partial_sig, extract_one, extract,
  validate_input, validate_inputs, advance, conclude, conclude_from, validate_signed_submission,
}

abbrev pub get_elem? : List PsbtInput → ℕ → Option PsbtInput
get_elem? [] n = none
get_elem? (x ∷ xs) zero = some x
get_elem? (x ∷ xs) (suc n) = get_elem? xs n

module _ (c : Crypto) where
  abbrev pub verifies : Result ℕ Text → PublicKey → EcdsaSignature → Bool
  verifies (err why) pk s = false
  verifies (ok msg) pk s = c.verify_ecdsa msg s.signature (c.inner pk)

  -- SIGHASH_ALL, and verified against the sighash of the original.
  abbrev pub is_valid : Psbt → ℕ → PublicKey → EcdsaSignature → Bool
  is_valid original idx pk s =
      is_sighash_all s.sighash_type && verifies (c.sighash_msg original idx) pk s

  verify_message_ok :
      (r : Result ℕ Text) (idx : ℕ) (pk : PublicKey) (s : EcdsaSignature)
      → verify_message c r idx pk s ≡ ok tt
      → verifies r pk s ≡ true
  verify_message_ok (err why) idx pk s h = ground arith
  verify_message_ok (ok msg) idx pk s h = ground arith

  pub verify_partial_sig_ok :
      (original : Psbt) (idx : ℕ) (pk : PublicKey) (s : EcdsaSignature)
      → verify_partial_sig c original idx pk s ≡ ok tt
      → is_valid original idx pk s ≡ true
  unfolding verify_partial_sig
  verify_partial_sig_ok original idx pk s h =
      ground (arith, verify_message_ok (c.sighash_msg original idx) idx pk s)

  verify_message_of :
      (r : Result ℕ Text) (idx : ℕ) (pk : PublicKey) (s : EcdsaSignature)
      → verifies r pk s ≡ true
      → verify_message c r idx pk s ≡ ok tt
  verify_message_of (err why) idx pk s h = ground arith
  verify_message_of (ok msg) idx pk s h = ground arith

  pub verify_partial_sig_of :
      (original : Psbt) (idx : ℕ) (pk : PublicKey) (s : EcdsaSignature)
      → is_valid original idx pk s ≡ true
      → verify_partial_sig c original idx pk s ≡ ok tt
  unfolding verify_partial_sig
  verify_partial_sig_of original idx pk s h =
      ground (arith, verify_message_of (c.sighash_msg original idx) idx pk s)

  -- New at this input of the original, of a key that the original binds to the signer, and valid.
  abbrev pub is_new_at : Psbt → KeyFingerprint → Option PsbtInput → ExtractedSignature → Bool
  is_new_at original expected none x = false
  is_new_at original expected (some i) x =
      not (contains_key x.pubkey i.partial_sigs)
      && is_from expected (get_source (c.inner x.pubkey) i.bip32_derivation)
      && is_valid original x.input_index x.pubkey x.signature

  abbrev pub is_authentic : Psbt → KeyFingerprint → ExtractedSignature → Bool
  is_authentic original expected x =
      is_new_at original expected (get_elem? original.inputs x.input_index) x

  abbrev pub is_at : ℕ → ExtractedSignature → Bool
  is_at i x = x.input_index == i

  module _ (original : Psbt) (expected : KeyFingerprint) where
    pub extract_one_ok :
        (idx : ℕ) (i : PsbtInput) (pk : PublicKey) (s : EcdsaSignature)
        → extract_one c original expected idx i pk s ≡ ok tt
        → (is_from expected (get_source (c.inner pk) i.bip32_derivation)
            && is_valid original idx pk s)
          ≡ true
    extract_one_ok idx i pk s h = ground (arith, verify_partial_sig_ok original idx pk s)

    -- What holds of the signatures that one input adds.
    abbrev is_added_at : ℕ → List ExtractedSignature → Bool
    is_added_at idx xs =
        all (is_authentic original expected) xs && (is_empty xs || any (is_at idx) xs)

    authentic_of :
        (idx : ℕ) (i : PsbtInput)
        → get_elem? original.inputs idx ≡ some i
        → (pk : PublicKey) (s : EcdsaSignature) → contains_key pk i.partial_sigs ≡ false
        → extract_one c original expected idx i pk s ≡ ok tt
        → is_authentic original expected (record { input_index = idx; pubkey = pk; signature = s })
          ≡ true
    authentic_of idx i g pk s k h =
        subst
          (λ o.
            is_new_at original expected o (record { input_index = idx; pubkey = pk; signature = s })
            ≡ true)
          (sym g) (ground (arith, extract_one_ok idx i pk s h))

    extract_step :
        (idx : ℕ) (i : PsbtInput)
        → get_elem? original.inputs idx ≡ some i
        → (pk : PublicKey) (s : EcdsaSignature)
          (rest : Result (List ExtractedSignature) PsbtValidationError)
        → ((ys : List ExtractedSignature) → rest ≡ ok ys → is_added_at idx ys ≡ true)
        → (xs : List ExtractedSignature)
        → (if contains_key pk i.partial_sigs
            then rest
            else (extract_one c original expected idx i pk s
                >> (rest >>= push c (record { input_index = idx; pubkey = pk; signature = s }))))
          ≡ ok xs
        → is_added_at idx xs ≡ true
    extract_step idx i g pk s (err why) ih xs h = ground arith
    extract_step idx i g pk s (ok ys) ih xs h =
        ground (arith, ih ys refl, authentic_of idx i g pk s)

    extract_sound :
        (idx : ℕ) (i : PsbtInput)
        → get_elem? original.inputs idx ≡ some i
        → (es : List PartialSig) (xs : List ExtractedSignature)
        → extract c original expected idx i es ≡ ok xs
        → is_added_at idx xs ≡ true
    unfolding extract
    extract_sound idx i g [] xs h = ground arith
    extract_sound idx i g (e ∷ es) xs h =
        extract_step idx i g e.pubkey e.signature (extract c original expected idx i es)
          (extract_sound idx i g es) xs h

    validate_input_sound :
        (idx : ℕ) (i j : PsbtInput)
        → get_elem? original.inputs idx ≡ some i
        → (xs : List ExtractedSignature) → validate_input c original expected idx i j ≡ ok xs
        → is_added_at idx xs ≡ true
    unfolding validate_input
    validate_input_sound idx i j g xs h = ground (arith, extract_sound idx i g j.partial_sigs xs)

    -- The signatures so far are authentic, and reach every input below `idx` unless one is noted.
    record IsOnTrack (idx : ℕ) (p : Progress) : Type 0 where
      pub authentic : all (is_authentic original expected) p.extracted ≡ true
      pub reached :
          p.first_incomplete_input ≡ none → (i : ℕ) → i < idx → any (is_at i) p.extracted ≡ true

    pub none_noted :
        (b : Bool) (o : Option ℕ) (idx : ℕ)
        → (if b then first_of o idx else o) ≡ none
        → (b ≡ false) × (o ≡ none)
    none_noted b none idx h = ground arith
    none_noted b (some i) idx h = ground arith

    any-is_at :
        (xs : List ExtractedSignature) (i j : ℕ) → i ≡ j → any (is_at j) xs ≡ any (is_at i) xs
    any-is_at xs i j e = cc

    advance_reached :
        (idx : ℕ) (p : Progress) (xs : List ExtractedSignature)
        → IsOnTrack idx p
        → is_added_at idx xs ≡ true
        → (advance c p idx xs).first_incomplete_input ≡ none
        → (i : ℕ) → i < suc idx
        → any (is_at i) (advance c p idx xs).extracted ≡ true
    advance_reached idx p xs t a n i l = ground (
      arith,
      none_noted (is_empty xs) p.first_incomplete_input idx n,
      any-append (is_at i) p.extracted xs,
      t.reached (none_noted (is_empty xs) p.first_incomplete_input idx n).1 i,
      any-is_at xs i idx,
    )

    advance-IsOnTrack :
        (idx : ℕ) (p : Progress) (xs : List ExtractedSignature)
        → IsOnTrack idx p
        → is_added_at idx xs ≡ true
        → IsOnTrack (suc idx) (advance c p idx xs)
    advance-IsOnTrack idx p xs t a = record {
      authentic =
          ground (arith, all-append (is_authentic original expected) p.extracted xs, t.authentic);
      reached = advance_reached idx p xs t a;
    }

    ok_injective :
        (r : Result Progress PsbtValidationError) (p q : Progress) → r ≡ ok p → r ≡ ok q → p ≡ q
    ok_injective r p q g h = cc

    after_input :
        (idx : ℕ) (r : Result (List ExtractedSignature) PsbtValidationError)
        → ((xs : List ExtractedSignature) → r ≡ ok xs → is_added_at idx xs ≡ true)
        → (rest : List ExtractedSignature → Result Progress PsbtValidationError) (q : Progress)
          (P : Type 0)
        → ((xs : List ExtractedSignature) → is_added_at idx xs ≡ true → rest xs ≡ ok q → P)
        → (r >>= rest) ≡ ok q
        → P
    after_input idx (err why) sound rest q P k h = ground arith
    after_input idx (ok xs) sound rest q P k h = k xs (sound xs refl) h

    validate_inputs_sound :
        (idx : ℕ) (os ss : List PsbtInput)
        → ((k : ℕ) → get_elem? original.inputs (idx + k) ≡ get_elem? os k)
        → length ss ≡ length os
        → (p q : Progress) → IsOnTrack idx p
        → validate_inputs c original expected idx os ss p ≡ ok q
        → IsOnTrack (idx + length os) q
    unfolding validate_inputs
    validate_inputs_sound idx [] [] at len p q t h =
        subst (IsOnTrack (idx + 0)) (ok_injective (ok p) p q refl h)
          (subst (λ n. IsOnTrack n p) (omega arith) t)
    validate_inputs_sound idx [] (s ∷ ss) at len p q t h = ground arith
    validate_inputs_sound idx (o ∷ os) [] at len p q t h = ground arith
    validate_inputs_sound idx (o ∷ os) (s ∷ ss) at len p q t h =
        after_input idx (validate_input c original expected idx o s)
          (validate_input_sound idx o s (ap (get_elem? original.inputs) (omega arith) ∙ at 0))
          (λ xs. validate_inputs c original expected (suc idx) os ss (advance c p idx xs)) q
          (IsOnTrack (idx + suc (length os)) q)
          (λ xs a g.
            subst (λ n. IsOnTrack n q) (omega arith)
              (validate_inputs_sound (suc idx) os ss
                (λ k. ap (get_elem? original.inputs) (omega arith) ∙ at (suc k)) (omega arith)
                (advance c p idx xs) q (advance-IsOnTrack idx p xs t a) g))
          h

    conclude_from_ok :
        (xs ys : List ExtractedSignature) (o : Option ℕ)
        → conclude_from c xs o ≡ ok ys
        → (xs ≡ ys) × (o ≡ none)
    conclude_from_ok xs ys none h = ground arith
    conclude_from_ok xs ys (some i) h = ground arith

    pub conclude_sound :
        (q : Progress) (xs : List ExtractedSignature)
        → conclude c q ≡ ok xs
        → (q.extracted ≡ xs) × (q.first_incomplete_input ≡ none) × (is_empty xs ≡ false)
    conclude_sound q xs h = ground (arith, conclude_from_ok q.extracted xs q.first_incomplete_input)

  -- What acceptance establishes of the extracted signatures.
  pub record IsAccepted (original : Psbt) (expected : KeyFingerprint) (xs : List ExtractedSignature)
      : Type 0 where
    pub authentic : all (is_authentic original expected) xs ≡ true
    pub complete : (i : ℕ) → i < length original.inputs → any (is_at i) xs ≡ true
    pub some_new : is_empty xs ≡ false

  IsAccepted-of_progress :
      (original : Psbt) (expected : KeyFingerprint) (r : Result Progress PsbtValidationError)
      → ((q : Progress) → r ≡ ok q → IsOnTrack original expected (length original.inputs) q)
      → (xs : List ExtractedSignature) → (r >>= conclude c) ≡ ok xs
      → IsAccepted original expected xs
  IsAccepted-of_progress original expected (err why) sound xs h = ground arith
  IsAccepted-of_progress original expected (ok q) sound xs h = record {
    authentic =
        subst (λ ys. all (is_authentic original expected) ys ≡ true)
          (conclude_sound original expected q xs h).0 (sound q refl).authentic;
    complete = λ i l.
        subst (λ ys. any (is_at i) ys ≡ true) (conclude_sound original expected q xs h).0
          ((sound q refl).reached (conclude_sound original expected q xs h).1 i l);
    some_new = (conclude_sound original expected q xs h).2;
  }

  abbrev pub start : Progress
  start = record { extracted = []; first_incomplete_input = none }

  checks_passed :
      (original signed : Psbt) (expected : KeyFingerprint) (xs : List ExtractedSignature)
      → validate_signed_submission c original signed expected ≡ ok xs
      → (length signed.inputs ≡ length original.inputs)
        × ((validate_inputs c original expected 0 original.inputs signed.inputs start
              >>= conclude c)
            ≡ ok xs)
  unfolding validate_signed_submission
  checks_passed original signed expected xs h = ground arith

  -- What `validate_signed_submission` accepts for a signer: each of the extracted signatures is
  -- new, of a key that the original binds to the signer at that input, uses SIGHASH_ALL and
  -- verifies against the sighash of the original; every input of the original gets one, and there
  -- is at least one.
  pub validate_signed_submission-IsAccepted :
      (original signed : Psbt) (expected : KeyFingerprint) (xs : List ExtractedSignature)
      → validate_signed_submission c original signed expected ≡ ok xs
      → IsAccepted original expected xs
  validate_signed_submission-IsAccepted original signed expected xs h =
      IsAccepted-of_progress original expected
        (validate_inputs c original expected 0 original.inputs signed.inputs start)
        (λ q g.
          subst (λ n. IsOnTrack original expected n q) (omega arith)
            (validate_inputs_sound original expected 0 original.inputs signed.inputs
              (λ k. ap (get_elem? original.inputs) (omega arith))
              (checks_passed original signed expected xs h).0 start q
              (record { authentic = refl; reached = λ n i l. ground arith }) g))
        xs (checks_passed original signed expected xs h).1
