-- ===== src/Base/Sort.antt =====
-- `contains`, `sort` and `dedup` of the standard library's vectors, and what they say together:
-- a vector is free of duplicates exactly when sorting and deduplicating does not shorten it.
use Prim.Native.Nat.{suc, ◌≤◌}
use mathlib.Core.Path.{◌≡◌, refl, ap, ◌∙◌, sym}
use mathlib.Core.Logic.{◌↔◌}
use mathlib.Core.Bool.{Bool, true, false, ◌&&◌, ◌||◌}
use mathlib.Core.List.{List, [], ◌∷◌, ◌++◌}
use native.Mathlib.Omega.{arith}
use kota.Base.Tests.{if◌then◌else◌}
use kota.Base.Lists.{length, all}
use kota.Base.Ordering.{Order}

-- `sort_by_key` is stable, and so is insertion before the first element that is not smaller.
module _ {ℓ} {A : Type ℓ} (le : A → A → Bool) where
  unfoldable pub insert_by : A → List A → List A
  insert_by x [] = x ∷ []
  insert_by x (y ∷ ys) = if le x y then x ∷ y ∷ ys else y ∷ insert_by x ys

  unfoldable pub sort_by : List A → List A
  unfolding insert_by
  sort_by [] = []
  sort_by (x ∷ xs) = insert_by x (sort_by xs)

module _ {ℓ} {A : Type ℓ} ⦃o : Order A⦄ where
  abbrev pub contains : List A → A → Bool
  contains [] a = false
  contains (x ∷ xs) a = o.beq x a || contains xs a

  -- Removes consecutive repetitions.
  unfoldable pub dedup : List A → List A
  dedup [] = []
  dedup (x ∷ []) = x ∷ []
  dedup (x ∷ y ∷ ys) = let rest = dedup (y ∷ ys) in if o.beq x y then rest else x ∷ rest

  abbrev pub sort : List A → List A
  sort = sort_by o.leb

  -- No element occurs twice.
  abbrev pub IsDistinct : List A → Type 0
  IsDistinct [] = Unit
  IsDistinct (x ∷ xs) = (contains xs x ≡ false) × IsDistinct xs

  abbrev IsSorted : List A → Type 0
  IsSorted [] = Unit
  IsSorted (x ∷ xs) = (all (o.leb x) xs ≡ true) × IsSorted xs

  contains-insert_by :
      (x : A) (xs : List A) (a : A)
      → contains (insert_by o.leb x xs) a ≡ (o.beq x a || contains xs a)
  unfolding insert_by
  contains-insert_by x [] a = refl
  contains-insert_by x (y ∷ ys) a = ground (arith, contains-insert_by x ys a)

  pub contains-sort : (xs : List A) (a : A) → contains (sort xs) a ≡ contains xs a
  unfolding sort_by
  contains-sort [] a = refl
  contains-sort (x ∷ xs) a =
      contains-insert_by x (sort xs) a ∙ ap (λ b. o.beq x a || b) (contains-sort xs a)

  length-insert_by : (x : A) (xs : List A) → length (insert_by o.leb x xs) ≡ suc (length xs)
  unfolding insert_by
  length-insert_by x [] = refl
  length-insert_by x (y ∷ ys) = ground (arith, length-insert_by x ys)

  pub length-sort : (xs : List A) → length (sort xs) ≡ length xs
  unfolding sort_by
  length-sort [] = refl
  length-sort (x ∷ xs) = length-insert_by x (sort xs) ∙ ap suc (length-sort xs)

  pub beq_sym : (a b : A) → o.beq a b ≡ o.beq b a
  beq_sym a b = ground (arith, o.beq_iff a b, o.beq_iff b a)

  insert_by-IsDistinct :
      (x : A) (xs : List A)
      → IsDistinct (insert_by o.leb x xs) ↔ ((contains xs x ≡ false) × IsDistinct xs)
  unfolding insert_by
  insert_by-IsDistinct x [] = ground arith
  insert_by-IsDistinct x (y ∷ ys) =
      ground (arith, insert_by-IsDistinct x ys, contains-insert_by x ys y, beq_sym x y)

  pub sort-IsDistinct : (xs : List A) → IsDistinct (sort xs) ↔ IsDistinct xs
  unfolding sort_by
  sort-IsDistinct [] = ground arith
  sort-IsDistinct (x ∷ xs) =
      ground (arith, insert_by-IsDistinct x (sort xs), sort-IsDistinct xs, contains-sort xs x)

  dedup_of_IsDistinct : (xs : List A) → IsDistinct xs → dedup xs ≡ xs
  unfolding dedup
  dedup_of_IsDistinct [] h = refl
  dedup_of_IsDistinct (x ∷ []) h = refl
  dedup_of_IsDistinct (x ∷ y ∷ ys) h = ground (arith, dedup_of_IsDistinct (y ∷ ys), beq_sym x y)

  length-dedup-le : (xs : List A) → length (dedup xs) ≤ length xs
  unfolding dedup
  length-dedup-le [] = omega arith
  length-dedup-le (x ∷ []) = omega arith
  length-dedup-le (x ∷ y ∷ ys) = ground (arith, length-dedup-le (y ∷ ys))

  all-leb-insert_by :
      (z x : A) (xs : List A)
      → all (o.leb z) (insert_by o.leb x xs) ≡ (o.leb z x && all (o.leb z) xs)
  unfolding insert_by
  all-leb-insert_by z x [] = refl
  all-leb-insert_by z x (y ∷ ys) = ground (arith, all-leb-insert_by z x ys)

  all-leb_trans :
      (x y : A) (ys : List A) → o.leb x y ≡ true → all (o.leb y) ys ≡ true → all (o.leb x) ys ≡ true
  all-leb_trans x y [] h k = refl
  all-leb_trans x y (z ∷ zs) h k = ground (arith, all-leb_trans x y zs, o.leb_trans x y z)

  insert_by-IsSorted : (x : A) (xs : List A) → IsSorted xs → IsSorted (insert_by o.leb x xs)
  unfolding insert_by
  insert_by-IsSorted x [] h = ground arith
  insert_by-IsSorted x (y ∷ ys) h = ground (
    arith,
    all-leb_trans x y ys,
    all-leb-insert_by y x ys,
    o.leb_total x y,
    insert_by-IsSorted x ys,
  )

  pub sort-IsSorted : (xs : List A) → IsSorted (sort xs)
  unfolding sort_by
  sort-IsSorted [] = tt
  sort-IsSorted (x ∷ xs) = insert_by-IsSorted x (sort xs) (sort-IsSorted xs)

  -- Above a strictly smaller element nothing equals it.
  not-contains_above :
      (x y : A) (ys : List A)
      → o.leb x y ≡ true
      → o.beq x y ≡ false
      → all (o.leb y) ys ≡ true
      → contains ys x ≡ false
  not-contains_above x y [] h n k = refl
  not-contains_above x y (z ∷ zs) h n k =
      ground (arith, not-contains_above x y zs, o.beq_iff z x, o.beq_iff x y, o.leb_antisymm x y)

  IsDistinct-of_length-dedup :
      (xs : List A) → IsSorted xs → length (dedup xs) ≡ length xs → IsDistinct xs
  unfolding dedup
  IsDistinct-of_length-dedup [] s h = tt
  IsDistinct-of_length-dedup (x ∷ []) s h = ground arith
  IsDistinct-of_length-dedup (x ∷ y ∷ ys) s h = ground (
    arith,
    IsDistinct-of_length-dedup (y ∷ ys),
    not-contains_above x y ys,
    length-dedup-le (y ∷ ys),
    beq_sym x y,
  )

  -- The duplicate test of the source: sort, deduplicate, compare the lengths.
  pub length-dedup-sort_iff : (xs : List A) → (length (dedup (sort xs)) ≡ length xs) ↔ IsDistinct xs
  length-dedup-sort_iff xs = (
    λ h.
        (sort-IsDistinct xs).0
          (IsDistinct-of_length-dedup (sort xs) (sort-IsSorted xs) (h ∙ sym (length-sort xs))),
    λ d. ap length (dedup_of_IsDistinct (sort xs) ((sort-IsDistinct xs).1 d)) ∙ length-sort xs,
  )

  pub dedup-sort_of_IsDistinct : (xs : List A) → IsDistinct xs → dedup (sort xs) ≡ sort xs
  dedup-sort_of_IsDistinct xs d = dedup_of_IsDistinct (sort xs) ((sort-IsDistinct xs).1 d)

  all-insert_by :
      (p : A → Bool) (x : A) (xs : List A) → all p (insert_by o.leb x xs) ≡ (p x && all p xs)
  unfolding insert_by
  all-insert_by p x [] = refl
  all-insert_by p x (y ∷ ys) = ground (arith, all-insert_by p x ys)

  pub all-sort : (p : A → Bool) (xs : List A) → all p (sort xs) ≡ all p xs
  unfolding sort_by
  all-sort p [] = refl
  all-sort p (x ∷ xs) = all-insert_by p x (sort xs) ∙ ap (λ b. p x && b) (all-sort p xs)

  pub contains-push :
      (xs : List A) (x a : A) → contains (xs ++ x ∷ []) a ≡ (contains xs a || o.beq x a)
  contains-push [] x a = ground arith
  contains-push (y ∷ ys) x a = ground (arith, contains-push ys x a)

  pub IsDistinct-push :
      (xs : List A) (x : A) → IsDistinct xs → contains xs x ≡ false → IsDistinct (xs ++ x ∷ [])
  IsDistinct-push [] x d n = ground arith
  IsDistinct-push (y ∷ ys) x d n =
      ground (arith, IsDistinct-push ys x, contains-push ys x y, beq_sym x y)
