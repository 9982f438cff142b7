-- ===== src/Wallet/Canonical.antt =====
-- The descriptor does not depend on the order in which keystores were submitted.
use mathlib.Core.List.{Perm, Permᴰ}
use mathlib.Core.List.Permᴰ.{nil, cons, swap, trans}
use mathlib.Core.Path.{ap₂}
use mathlib.Core.Logic.{∥∥₁_elim}
use kota.Base.{ℕ, ◌≡◌, refl, ap, ◌∙◌, Bool, true, false, List, [], ◌∷◌, arith}
use kota.Base.Sort.{sort_by, insert_by}
use kota.Wallet.Types.{DescriptorPublicKey, Miniscript}
use kota.Wallet.Descriptor.{string_leb, key_leb, sortedmulti_wsh_descriptor}

string_leb_total : (a b : List ℕ) → string_leb a b ≡ false → string_leb b a ≡ true
unfolding string_leb
string_leb_total [] b h = cc
string_leb_total (x ∷ xs) [] h = refl
string_leb_total (x ∷ xs) (y ∷ ys) h = ground (arith, string_leb_total xs ys)

string_leb_trans :
    (a b c : List ℕ) → string_leb a b ≡ true → string_leb b c ≡ true → string_leb a c ≡ true
unfolding string_leb
string_leb_trans [] b c h k = refl
string_leb_trans (x ∷ xs) [] c h k = cc
string_leb_trans (x ∷ xs) (y ∷ ys) [] h k = cc
string_leb_trans (x ∷ xs) (y ∷ ys) (z ∷ zs) h k = ground (arith, string_leb_trans xs ys zs)

string_leb_antisymm : (a b : List ℕ) → string_leb a b ≡ true → string_leb b a ≡ true → a ≡ b
unfolding string_leb
string_leb_antisymm [] [] h k = refl
string_leb_antisymm [] (y ∷ ys) h k = cc
string_leb_antisymm (x ∷ xs) [] h k = cc
string_leb_antisymm (x ∷ xs) (y ∷ ys) h k = ground (arith, string_leb_antisymm xs ys)

module _ {ℓ} {A : Type ℓ} (le : A → A → Bool) (total : (a b : A) → le a b ≡ false → le b a ≡ true)
    (transitive : (a b c : A) → le a b ≡ true → le b c ≡ true → le a c ≡ true)
    (antisymm : (a b : A) → le a b ≡ true → le b a ≡ true → a ≡ b) where
  insert_by_comm :
      (x y : A) (l : List A) → insert_by le x (insert_by le y l) ≡ insert_by le y (insert_by le x l)
  unfolding insert_by
  insert_by_comm x y [] = ground (arith, total x y, antisymm x y)
  insert_by_comm x y (z ∷ zs) = ground (
    arith,
    total x y,
    antisymm x y,
    total x z,
    total y z,
    transitive x y z,
    transitive y x z,
    insert_by_comm x y zs,
  )

  sort_by_permᴰ : {xs ys : List A} → Permᴰ xs ys → sort_by le xs ≡ sort_by le ys
  unfolding sort_by
  sort_by_permᴰ nil = refl
  sort_by_permᴰ (cons {a = a} {l₂ = l} e p) =
      ap (insert_by le a) (sort_by_permᴰ p) ∙ ap (λ x. insert_by le x (sort_by le l)) e
  sort_by_permᴰ (swap {a = a} {b = b} {a' = c} {b' = d} {l = l} p q) =
      insert_by_comm a b (sort_by le l)
      ∙ ap₂ (λ x y. insert_by le x (insert_by le y (sort_by le l))) q p
  sort_by_permᴰ (trans p q) = sort_by_permᴰ p ∙ sort_by_permᴰ q

key-set : IsSet DescriptorPublicKey
key-set = hlevel

keys-set : IsSet (List DescriptorPublicKey)
keys-set = hlevel key-set

-- Keys that print alike are the same key.
abbrev pub PrintsFaithfully : Miniscript → Type 0
PrintsFaithfully m = (a b : DescriptorPublicKey) → m.key_string a ≡ m.key_string b → a ≡ b

sort-perm :
    (m : Miniscript) (xs ys : List DescriptorPublicKey)
    → PrintsFaithfully m
    → Perm xs ys
    → sort_by (key_leb m) xs ≡ sort_by (key_leb m) ys
sort-perm m xs ys inj p = ∥∥₁_elim p (keys-set _ _) (
    sort_by_permᴰ (key_leb m) (λ a b. string_leb_total (m.key_string a) (m.key_string b))
      (λ a b c. string_leb_trans (m.key_string a) (m.key_string b) (m.key_string c))
      (λ a b h k. inj a b (string_leb_antisymm (m.key_string a) (m.key_string b) h k)))

-- The same keystores in another order have the same descriptor, or fail with the same error, if
-- keys that print alike are the same.
pub sortedmulti_wsh_descriptor-perm :
    (m : Miniscript) (threshold : ℕ) (xs ys : List DescriptorPublicKey)
    → PrintsFaithfully m
    → Perm xs ys
    → sortedmulti_wsh_descriptor m threshold xs ≡ sortedmulti_wsh_descriptor m threshold ys
unfolding sortedmulti_wsh_descriptor
sortedmulti_wsh_descriptor-perm m threshold xs ys inj p = rw (sort-perm m xs ys inj p)
