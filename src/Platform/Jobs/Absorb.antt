-- ===== src/Platform/Jobs/Absorb.antt =====
-- Combining a verified blob adds verified signatures only, and does not panic.
use kota.Base.{
  ℕ, suc, ◌≡◌, refl, ap, Bool, true, some, List, [], ◌∷◌, arith, length, all, if◌then◌else◌,
}
use kota.Psbt.Types.{PartialSig, PsbtInput, Psbt, Crypto, contains_key, insert_sig}
use kota.Psbt.Merged.{all-insert_sig, is_known, are_known}
use kota.Platform.Jobs.Finalization.{absorb_sigs, absorb_inputs}

all-absorb_sigs :
    (p : PartialSig → Bool) (own es : List PartialSig)
    → all p own ≡ true
    → all p es ≡ true
    → all p (absorb_sigs own es) ≡ true
unfolding absorb_sigs
all-absorb_sigs p own [] h k = h
all-absorb_sigs p own (e ∷ es) h k =
    all-absorb_sigs p
      (if contains_key e.pubkey own then own else insert_sig e.pubkey e.signature own) es
      (ground (arith, all-insert_sig p e.pubkey e.signature own)) (ground arith)

module _ (c : Crypto) (original : Psbt) where
  pub absorb_inputs_known :
      (idx : ℕ) (os own ss : List PsbtInput)
      → length own ≡ length os
      → length ss ≡ length os
      → are_known c original idx os own ≡ true
      → are_known c original idx os ss ≡ true
      → (rs : List PsbtInput) × (absorb_inputs own ss ≡ some rs)
        × (length rs ≡ length os)
        × (are_known c original idx os rs ≡ true)
  unfolding absorb_inputs
  absorb_inputs_known idx [] [] [] l m h k = ([], refl, refl, refl)
  absorb_inputs_known idx [] [] (s ∷ ss) l m h k = ground arith
  absorb_inputs_known idx [] (o ∷ own) ss l m h k = ground arith
  absorb_inputs_known idx (i ∷ os) [] ss l m h k = ground arith
  absorb_inputs_known idx (i ∷ os) (o ∷ own) [] l m h k = ground arith
  absorb_inputs_known idx (i ∷ os) (o ∷ own) (s ∷ ss) l m h k =
      let rest =
        absorb_inputs_known (suc idx) os own ss (ground arith) (ground arith) (ground arith)
          (ground arith) in
      (
        record o { partial_sigs = absorb_sigs o.partial_sigs s.partial_sigs } ∷ rest.0,
        ground (arith, rest.1),
        ap suc rest.2,
        ground (
          arith,
          rest.3,
          all-absorb_sigs (is_known c original idx i) o.partial_sigs s.partial_sigs,
        ),
      )
