-- ===== src/Psbt/Merged.antt =====
-- The merge of an accepted submission passes the check that finalization runs on it.
use kota.Base.{
  ℕ, zero, suc, ◌+◌, ◌<◌, ◌≡◌, refl, ap, subst, Bool, true, false, ◌&&◌, ◌||◌, Option, none, some,
  List, [], ◌∷◌, ok, arith, length, all, all_weaken, ◌==◌,
}
use kota.Primitives.{KeyFingerprint}
use kota.Psbt.Types.{
  PublicKey, EcdsaSignature, PartialSig, PsbtInput, Psbt, ExtractedSignature, Crypto, contains_key,
  insert_sig,
}
use kota.Psbt.Validate.{
  update_at, with_inputs, merge_from, merge_partial_sigs, verify_added, verify_inputs,
  verify_merged_blob, validate_signed_submission,
}
use kota.Psbt.Accepted.{
  get_elem?, is_valid, verify_partial_sig_of, is_new_at, is_authentic,
  validate_signed_submission-IsAccepted,
}

pub all-insert_sig :
    (p : PartialSig → Bool) (pk : PublicKey) (s : EcdsaSignature) (es : List PartialSig)
    → all p es ≡ true
    → p (record { pubkey = pk; signature = s }) ≡ true
    → all p (insert_sig pk s es) ≡ true
all-insert_sig p pk s [] h k = ground arith
all-insert_sig p pk s (e ∷ es) h k = ground (arith, all-insert_sig p pk s es)

contains_own :
    (ps es : List PartialSig)
    → ((pk : PublicKey) → contains_key pk es ≡ true → contains_key pk ps ≡ true)
    → all (λ e. contains_key e.pubkey ps) es ≡ true
contains_own ps [] h = refl
contains_own ps (e ∷ es) h =
    ground (arith, h e.pubkey, contains_own ps es (λ pk k. ground (arith, h pk)))

length-update_at :
    (i : ℕ) (pk : PublicKey) (s : EcdsaSignature) (ms : List PsbtInput)
    → length (update_at i pk s ms) ≡ length ms
length-update_at i pk s [] = refl
length-update_at zero pk s (m ∷ ms) = refl
length-update_at (suc i) pk s (m ∷ ms) = ap suc (length-update_at i pk s ms)

get_elem?-lt :
    (xs : List PsbtInput) (i : ℕ) (x : PsbtInput) → get_elem? xs i ≡ some x → i < length xs
get_elem?-lt [] i x h = ground arith
get_elem?-lt (y ∷ ys) zero x h = ground arith
get_elem?-lt (y ∷ ys) (suc i) x h = ground (arith, get_elem?-lt ys i x h)

module _ (c : Crypto) (original : Psbt) where
  -- Of the original's input, or valid.
  abbrev pub is_known : ℕ → PsbtInput → PartialSig → Bool
  is_known idx orig_in e =
      contains_key e.pubkey orig_in.partial_sigs || is_valid c original idx e.pubkey e.signature

  abbrev pub are_known : ℕ → List PsbtInput → List PsbtInput → Bool
  are_known idx [] ms = true
  are_known idx (o ∷ os) [] = true
  are_known idx (o ∷ os) (m ∷ ms) = all (is_known idx o) m.partial_sigs && are_known (suc idx) os ms

  verify_added_of :
      (idx : ℕ) (o : PsbtInput) (es : List PartialSig)
      → all (is_known idx o) es ≡ true
      → verify_added c original idx o es ≡ ok tt
  unfolding verify_added
  verify_added_of idx o [] h = refl
  verify_added_of idx o (e ∷ es) h =
      ground
        (arith, verify_added_of idx o es, verify_partial_sig_of c original idx e.pubkey e.signature)

  verify_inputs_of :
      (idx : ℕ) (os ms : List PsbtInput)
      → are_known idx os ms ≡ true
      → verify_inputs c original idx os ms ≡ ok tt
  unfolding verify_inputs
  verify_inputs_of idx [] ms h = ground arith
  verify_inputs_of idx (o ∷ os) [] h = ground arith
  verify_inputs_of idx (o ∷ os) (m ∷ ms) h =
      ground (arith, verify_added_of idx o m.partial_sigs, verify_inputs_of (suc idx) os ms)

  pub known_own : (idx : ℕ) (os : List PsbtInput) → are_known idx os os ≡ true
  known_own idx [] = refl
  known_own idx (o ∷ os) = ground (
    arith,
    known_own (suc idx) os,
    all_weaken (λ e. contains_key e.pubkey o.partial_sigs) (is_known idx o) (λ e h. ground arith)
        o.partial_sigs (contains_own o.partial_sigs o.partial_sigs (λ pk h. h)),
  )

  is_valid_at :
      (i j : ℕ) (pk : PublicKey) (s : EcdsaSignature)
      → is_valid c original i pk s ≡ true
      → i ≡ j
      → is_valid c original j pk s ≡ true
  is_valid_at i j pk s v e = subst (λ n. is_valid c original n pk s ≡ true) e v

  are_known-update_at :
      (idx k : ℕ) (pk : PublicKey) (s : EcdsaSignature) (os ms : List PsbtInput)
      → is_valid c original (idx + k) pk s ≡ true
      → are_known idx os ms ≡ true
      → are_known idx os (update_at k pk s ms) ≡ true
  are_known-update_at idx k pk s [] ms v h = ground arith
  are_known-update_at idx k pk s (o ∷ os) [] v h = ground arith
  are_known-update_at idx zero pk s (o ∷ os) (m ∷ ms) v h = ground (
    arith,
    all-insert_sig (is_known idx o) pk s m.partial_sigs,
    is_valid_at (idx + 0) idx pk s v (omega arith),
  )
  are_known-update_at idx (suc k) pk s (o ∷ os) (m ∷ ms) v h = ground (
    arith,
    are_known-update_at (suc idx) k pk s os ms
        (is_valid_at (idx + suc k) (suc idx + k) pk s v (omega arith)),
  )

  -- The inputs of a merge: all there, and with known signatures only.
  abbrev is_good : Option (List PsbtInput) → Bool
  is_good none = false
  is_good (some ms) = are_known 0 original.inputs ms && (length ms == length original.inputs)

  module _ (expected : KeyFingerprint) where
    new_valid :
        (o : Option PsbtInput) (x : ExtractedSignature)
        → is_new_at c original expected o x ≡ true
        → ((i : PsbtInput) × (o ≡ some i))
          × (is_valid c original x.input_index x.pubkey x.signature ≡ true)
    new_valid none x h = ground arith
    new_valid (some i) x h = ((i, refl), ground arith)

    index_in :
        (x : ExtractedSignature)
        → is_authentic c original expected x ≡ true
        → x.input_index < length original.inputs
    index_in x h =
        let found = new_valid (get_elem? original.inputs x.input_index) x h in
        get_elem?-lt original.inputs x.input_index found.0.0 found.0.1

    update_good :
        (x : ExtractedSignature) (ms : List PsbtInput)
        → is_authentic c original expected x ≡ true
        → is_good (some ms) ≡ true
        → is_good (some (update_at x.input_index x.pubkey x.signature ms)) ≡ true
    update_good x ms h g =
        let found = new_valid (get_elem? original.inputs x.input_index) x h in
        ground (
          arith,
          length-update_at x.input_index x.pubkey x.signature ms,
          are_known-update_at 0 x.input_index x.pubkey x.signature original.inputs ms (
              is_valid_at x.input_index (0 + x.input_index) x.pubkey x.signature found.1
                (omega arith)),
        )

    merge_from-is_good :
        (xs : List ExtractedSignature) (ms : List PsbtInput)
        → all (is_authentic c original expected) xs ≡ true
        → is_good (some ms) ≡ true
        → is_good (merge_from ms xs) ≡ true
    unfolding merge_from
    merge_from-is_good [] ms h g = g
    merge_from-is_good (x ∷ xs) ms h g = ground (
      arith,
      index_in x (ground arith),
      merge_from-is_good xs (update_at x.input_index x.pubkey x.signature ms),
      update_good x ms (ground arith),
    )

merged_from :
    (c : Crypto) (original : Psbt) (o : Option (List PsbtInput))
    → is_good c original o ≡ true
    → (merged : Psbt) × (with_inputs original o ≡ some merged)
      × (verify_merged_blob c original merged ≡ ok tt)
unfolding verify_merged_blob
merged_from c original none g = ground arith
merged_from c original (some ms) g = (
  record original { inputs = ms },
  refl,
  ground (arith, verify_inputs_of c original 0 original.inputs ms),
)

-- The signatures that `validate_signed_submission` accepts merge into the original without a
-- panic, and `verify_merged_blob` accepts the merged document.
pub merge_partial_sigs-verified :
    (c : Crypto) (original signed : Psbt) (expected : KeyFingerprint) (xs : List ExtractedSignature)
    → validate_signed_submission c original signed expected ≡ ok xs
    → (merged : Psbt) × (merge_partial_sigs original xs ≡ some merged)
      × (verify_merged_blob c original merged ≡ ok tt)
unfolding merge_partial_sigs
merge_partial_sigs-verified c original signed expected xs h =
    merged_from c original (merge_from original.inputs xs) (
      merge_from-is_good c original expected xs original.inputs
        (validate_signed_submission-IsAccepted c original signed expected xs h).authentic
        (ground (arith, known_own c original 0 original.inputs)))
