-- ===== src/Session/WellFormed.antt =====
-- `verify_hydrated_invariants` decides an independent description of a sound session.
use kota.Base.{
  ℕ, ◌≤◌, ◌<◌, ◌≡◌, refl, ◌↔◌, true, false, Option, none, some, List, [], ◌∷◌, ok, arith, length,
  all, contains, IsDistinct, nat_order,
}
use kota.Base.Sort.{length-dedup-sort_iff}
use kota.Primitives.{KeyFingerprint}
use kota.Session.Types.{SignatureRecord, FinalizationRecord, PsbtSession}
use kota.Session.Entity.{signed_by}
use kota.Session.Hydrate.{
  verify_policy, verify_signatures, verify_finalization, verify_hydrated_invariants,
}

-- The keystores that signed, in the order of their signatures.
abbrev pub signers : List SignatureRecord → List KeyFingerprint
signers [] = []
signers (g ∷ gs) = g.fingerprint ∷ signers gs

-- A record of a finalization that the policy allows: enough keystores, none twice, and each with
-- a collected signature.
abbrev pub IsAuthorized : ℕ → List SignatureRecord → Option FinalizationRecord → Type 0
IsAuthorized threshold sigs none = Unit
IsAuthorized threshold sigs (some f) =
    (threshold ≤ length f.sigs_used)
    × IsDistinct f.sigs_used
    × (all (signed_by sigs) f.sigs_used ≡ true)

pub record IsWellFormed (s : PsbtSession) : Type 0 where
  pub threshold_pos : 0 < s.threshold
  pub threshold_fits : s.threshold ≤ length s.keystores
  pub keystores_distinct : IsDistinct s.keystores
  pub signers_known : all (contains s.keystores) (signers s.signatures) ≡ true
  pub signers_distinct : IsDistinct (signers s.signatures)
  pub authorized : IsAuthorized s.threshold s.signatures s.finalization

verify_policy_iff :
    (n : ℕ) (ks : List KeyFingerprint)
    → (verify_policy n ks ≡ ok tt) ↔ ((0 < n) × (n ≤ length ks) × IsDistinct ks)
unfolding verify_policy
verify_policy_iff n ks = ground (arith, length-dedup-sort_iff ks)

verify_finalization_iff :
    (n : ℕ) (sigs : List SignatureRecord) (f : Option FinalizationRecord)
    → (verify_finalization n sigs f ≡ ok tt) ↔ IsAuthorized n sigs f
unfolding verify_finalization
verify_finalization_iff n sigs none = ground arith
verify_finalization_iff n sigs (some f) = ground (arith, length-dedup-sort_iff f.sigs_used)

-- None of `xs` stands in `seen`.
abbrev IsFresh : List KeyFingerprint → List KeyFingerprint → Type 0
IsFresh seen [] = Unit
IsFresh seen (x ∷ xs) = (contains seen x ≡ false) × IsFresh seen xs

IsFresh-cons_iff :
    (seen : List KeyFingerprint) (x : KeyFingerprint) (xs : List KeyFingerprint)
    → IsFresh (x ∷ seen) xs ↔ ((contains xs x ≡ false) × IsFresh seen xs)
IsFresh-cons_iff seen x [] = ground arith
IsFresh-cons_iff seen x (y ∷ ys) = ground (arith, IsFresh-cons_iff seen x ys)

IsFresh-nil : (xs : List KeyFingerprint) → IsFresh [] xs
IsFresh-nil [] = tt
IsFresh-nil (x ∷ xs) = (refl, IsFresh-nil xs)

verify_signatures_iff :
    (ks seen : List KeyFingerprint) (gs : List SignatureRecord)
    → (verify_signatures ks seen gs ≡ ok tt) ↔ (
        (all (contains ks) (signers gs) ≡ true)
        × IsDistinct (signers gs)
        × IsFresh seen (signers gs))
unfolding verify_signatures
verify_signatures_iff ks seen [] = ground arith
verify_signatures_iff ks seen (g ∷ gs) = ground (
  arith,
  verify_signatures_iff ks (g.fingerprint ∷ seen) gs,
  IsFresh-cons_iff seen g.fingerprint (signers gs),
)

-- The check at load accepts exactly the well-formed sessions.
pub verify_hydrated_invariants_iff :
    (s : PsbtSession) → (verify_hydrated_invariants s ≡ ok tt) ↔ IsWellFormed s
unfolding verify_hydrated_invariants
verify_hydrated_invariants_iff s = ground (
  arith,
  verify_policy_iff s.threshold s.keystores,
  verify_signatures_iff s.keystores [] s.signatures,
  verify_finalization_iff s.threshold s.signatures s.finalization,
  IsFresh-nil (signers s.signatures),
)
