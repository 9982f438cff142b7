-- ===== src/Wallet/Submissions.antt =====
-- Lemmas on the fold over a wallet's events and on the list of submissions.
use kota.Base.{
  suc, ◌≤◌, ◌≡◌, refl, ap, Bool, true, false, ◌||◌, some, List, [], ◌∷◌, ◌++◌, arith, length, all,
  any, contains, IsDistinct, nat_order, ◌==◌,
}
use kota.Primitives.{UserId, KeyFingerprint, WalletStatus}
use kota.Wallet.Types.{DescriptorPublicKey, Miniscript, WalletEvent}
use kota.Wallet.Descriptor.{keystore_fingerprint}
use kota.Wallet.Entity.{
  status_step, status_from, Submission, without, submissions_step, submissions_from, keys,
  submitters, find_submission, fingerprints,
}

pub status_from-append :
    (a : WalletStatus) (es : List WalletEvent) (e : WalletEvent)
    → status_from a (es ++ e ∷ []) ≡ status_step (status_from a es) e
status_from-append a [] e = refl
status_from-append a (d ∷ es) e = status_from-append (status_step a d) es e

pub submissions_from-append :
    (l : List Submission) (es : List WalletEvent) (e : WalletEvent)
    → submissions_from l (es ++ e ∷ []) ≡ submissions_step (submissions_from l es) e
submissions_from-append l [] e = refl
submissions_from-append l (d ∷ es) e = submissions_from-append (submissions_step l d) es e

pub keys-push :
    (l : List Submission) (u : UserId) (k : DescriptorPublicKey)
    → keys (l ++ (u, k) ∷ []) ≡ keys l ++ k ∷ []
keys-push [] u k = refl
keys-push ((p, j) ∷ l) u k = ap (λ x. j ∷ x) (keys-push l u k)

pub submitters-push :
    (l : List Submission) (u : UserId) (k : DescriptorPublicKey)
    → submitters (l ++ (u, k) ∷ []) ≡ submitters l ++ u ∷ []
submitters-push [] u k = refl
submitters-push ((p, j) ∷ l) u k = ap (λ x. p ∷ x) (submitters-push l u k)

pub any-submitters :
    (l : List Submission) (u : UserId) → any (λ s. s.0 == u) l ≡ contains (submitters l) u
any-submitters [] u = refl
any-submitters ((p, k) ∷ l) u = ap (λ b. p == u || b) (any-submitters l u)

pub contains-submitters-without :
    (u : UserId) (l : List Submission) (a : UserId)
    → contains (submitters l) a ≡ false
    → contains (submitters (without u l)) a ≡ false
contains-submitters-without u [] a h = refl
contains-submitters-without u ((p, k) ∷ l) a h = ground (arith, contains-submitters-without u l a)

pub IsDistinct-submitters-without :
    (u : UserId) (l : List Submission)
    → IsDistinct (submitters l)
    → IsDistinct (submitters (without u l))
IsDistinct-submitters-without u [] h = tt
IsDistinct-submitters-without u ((p, k) ∷ l) h =
    ground (arith, IsDistinct-submitters-without u l, contains-submitters-without u l p)

pub all-submitters-without :
    (q : UserId → Bool) (u : UserId) (l : List Submission)
    → all q (submitters l) ≡ true
    → all q (submitters (without u l)) ≡ true
all-submitters-without q u [] h = refl
all-submitters-without q u ((p, k) ∷ l) h = ground (arith, all-submitters-without q u l)

pub length-keys : (l : List Submission) → length (keys l) ≡ length l
length-keys [] = refl
length-keys ((p, k) ∷ l) = ap suc (length-keys l)

pub length-submissions-without :
    (u : UserId) (l : List Submission) → length (without u l) ≤ length l
length-submissions-without u [] = omega arith
length-submissions-without u ((p, k) ∷ l) = ground (arith, length-submissions-without u l)

-- A participant who has not submitted is found once the submission is there.
pub find_submission-push :
    (l : List Submission) (u : UserId) (k : DescriptorPublicKey)
    → any (λ s. s.0 == u) l ≡ false
    → find_submission u (l ++ (u, k) ∷ []) ≡ some (u, k)
find_submission-push [] u k h = ground arith
find_submission-push ((p, j) ∷ l) u k h = ground (arith, find_submission-push l u k)

module _ (m : Miniscript) where
  pub fingerprints-push :
      (l : List Submission) (u : UserId) (k : DescriptorPublicKey)
      → fingerprints m (l ++ (u, k) ∷ []) ≡ fingerprints m l ++ keystore_fingerprint m k ∷ []
  fingerprints-push [] u k = refl
  fingerprints-push ((p, j) ∷ l) u k =
      ap (λ x. keystore_fingerprint m j ∷ x) (fingerprints-push l u k)

  pub any-fingerprints :
      (l : List Submission) (fp : KeyFingerprint)
      → any (λ k. keystore_fingerprint m k == fp) (keys l) ≡ contains (fingerprints m l) fp
  any-fingerprints [] fp = refl
  any-fingerprints ((p, k) ∷ l) fp =
      ap (λ b. keystore_fingerprint m k == fp || b) (any-fingerprints l fp)

  pub contains-fingerprints-without :
      (u : UserId) (l : List Submission) (a : KeyFingerprint)
      → contains (fingerprints m l) a ≡ false
      → contains (fingerprints m (without u l)) a ≡ false
  contains-fingerprints-without u [] a h = refl
  contains-fingerprints-without u ((p, k) ∷ l) a h =
      ground (arith, contains-fingerprints-without u l a)

  pub IsDistinct-fingerprints-without :
      (u : UserId) (l : List Submission)
      → IsDistinct (fingerprints m l)
      → IsDistinct (fingerprints m (without u l))
  IsDistinct-fingerprints-without u [] h = tt
  IsDistinct-fingerprints-without u ((p, k) ∷ l) h = ground (
    arith,
    IsDistinct-fingerprints-without u l,
    contains-fingerprints-without u l (keystore_fingerprint m k),
  )

  pub length-fingerprints : (l : List Submission) → length (fingerprints m l) ≡ length l
  length-fingerprints [] = refl
  length-fingerprints ((p, k) ∷ l) = ap suc (length-fingerprints l)
