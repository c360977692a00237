-- ===== src/Prelude/Sort.antt =====
-- Python's `sorted`: a stable insertion sort under a Boolean order of the keys.
use josuke.Prelude.Tests.{if◌then◌else◌, Bool-cases}
use josuke.Prelude.Lists.{All}
use josuke.Prelude.Member.{In}
use mathlib.Core.Path.{◌≡◌, refl, ap, ◌∙◌}
use mathlib.Core.Logic.{inl, inr}
use mathlib.Core.Bool.{Bool, true, false}
use mathlib.Core.List.{List, [], ◌∷◌, Perm}
use mathlib.Core.List.Perm

module _ {ℓ} {A : Type ℓ} (le : A → A → Bool) where
  -- Before the first element that is not less, so equal keys keep their order.
  unfoldable pub insert_by : A → List A → List A
  insert_by x [] = x ∷ []
  insert_by x (y ∷ ys) = if le x y then x ∷ y ∷ ys else y ∷ insert_by x ys

  unfoldable pub sort_by : List A → List A
  unfolding insert_by
  sort_by [] = []
  sort_by (x ∷ xs) = insert_by x (sort_by xs)

  -- Neighbours are in order.
  abbrev pub IsSorted : List A → Type 0
  IsSorted [] = Unit
  IsSorted (x ∷ []) = Unit
  IsSorted (x ∷ y ∷ ys) = (le x y ≡ true) × IsSorted (y ∷ ys)

module _ {ℓ} {A : Type ℓ} (le : A → A → Bool) where
  insert_by_sorted : (x : A) (xs : List A) → IsSorted le (x ∷ xs) → insert_by le x xs ≡ x ∷ xs
  unfolding insert_by
  insert_by_sorted x [] h = refl
  insert_by_sorted x (y ∷ ys) h = rw h.0

  IsSorted-tail : (x : A) (xs : List A) → IsSorted le (x ∷ xs) → IsSorted le xs
  IsSorted-tail x [] h = tt
  IsSorted-tail x (y ∷ ys) h = h.1

  -- Sorting a sorted list changes nothing.
  pub sort_by_sorted : (xs : List A) → IsSorted le xs → sort_by le xs ≡ xs
  unfolding sort_by
  sort_by_sorted [] h = refl
  sort_by_sorted (x ∷ xs) h =
      ap (insert_by le x) (sort_by_sorted xs (IsSorted-tail x xs h)) ∙ insert_by_sorted x xs h

  insert_by-perm : (x : A) (xs : List A) → Perm (insert_by le x xs) (x ∷ xs)
  unfolding insert_by
  insert_by-perm x [] = Perm.refl (x ∷ [])
  insert_by-perm x (y ∷ ys) = elim (Bool-cases (le x y)) [
    | inl e ↦ rw e (Perm.refl (x ∷ y ∷ ys))
    | inr e ↦ rw e (Perm.trans (Perm.cons y (insert_by-perm x ys)) (Perm.swap x y ys))
  ]

  -- Sorting keeps every element, as often as it stands in the list.
  pub sort_by-perm : (xs : List A) → Perm (sort_by le xs) xs
  unfolding sort_by
  sort_by-perm [] = Perm.refl []
  sort_by-perm (x ∷ xs) =
      Perm.trans (insert_by-perm x (sort_by le xs)) (Perm.cons x (sort_by-perm xs))

module _ {A : Type 0} (le : A → A → Bool) where
  In-insert_by_tail :
      (a x y : A) (ys : List A)
      → In a (x ∷ y ∷ ys)
      → (In a (x ∷ ys) → In a (insert_by le x ys))
      → In a (y ∷ insert_by le x ys)
  In-insert_by_tail a x y ys (inl p) ih = inr (ih (inl p))
  In-insert_by_tail a x y ys (inr (inl p)) ih = inl p
  In-insert_by_tail a x y ys (inr (inr p)) ih = inr (ih (inr p))

  In-insert_by : (a x : A) (xs : List A) → In a (x ∷ xs) → In a (insert_by le x xs)
  unfolding insert_by
  In-insert_by a x [] h = h
  In-insert_by a x (y ∷ ys) h = elim (Bool-cases (le x y)) [
    | inl e ↦ rw e h
    | inr e ↦ rw e (In-insert_by_tail a x y ys h (In-insert_by a x ys))
  ]

  -- What stands in the list stands in the sorted list.
  pub In-sort_by : (a : A) (xs : List A) → In a xs → In a (sort_by le xs)
  unfolding sort_by
  In-sort_by a [] h = h
  In-sort_by a (x ∷ xs) (inl e) = In-insert_by a x (sort_by le xs) (inl e)
  In-sort_by a (x ∷ xs) (inr h) = In-insert_by a x (sort_by le xs) (inr (In-sort_by a xs h))

  pub In-insert_by_cases : (a x : A) (xs : List A) → In a (insert_by le x xs) → In a (x ∷ xs)
  unfolding insert_by
  In-insert_by_cases a x [] h = h
  In-insert_by_cases a x (y ∷ ys) h = go (le x y) refl (In-insert_by_cases a x ys) h
    where
      swap : In a (x ∷ ys) → In a (x ∷ y ∷ ys)
      swap (inl p) = inl p
      swap (inr p) = inr (inr p)

      go :
          (b : Bool)
          → le x y ≡ b
          → (In a (insert_by le x ys) → In a (x ∷ ys))
          → In a (if b then x ∷ y ∷ ys else y ∷ insert_by le x ys)
          → In a (x ∷ y ∷ ys)
      go true e ih h = h
      go false e ih (inl p) = inr (inl p)
      go false e ih (inr h) = swap (ih h)

  -- The sorted list holds nothing else.
  pub In-sort_by_cases : (a : A) (xs : List A) → In a (sort_by le xs) → In a xs
  unfolding sort_by
  In-sort_by_cases a [] h = h
  In-sort_by_cases a (x ∷ xs) h =
      go (In-insert_by_cases a x (sort_by le xs) h) (In-sort_by_cases a xs)
    where
      go : In a (x ∷ sort_by le xs) → (In a (sort_by le xs) → In a xs) → In a (x ∷ xs)
      go (inl e) ih = inl e
      go (inr m) ih = inr (ih m)

module _ {ℓ} {A : Type ℓ} (le : A → A → Bool)
    (total : (x y : A) → le x y ≡ false → le y x ≡ true) where
  insert_by_below :
      (x y : A) (ys : List A)
      → le y x ≡ true
      → IsSorted le (y ∷ ys)
      → IsSorted le (y ∷ insert_by le x ys)
  unfolding insert_by
  insert_by_below x y [] e h = (e, tt)
  insert_by_below x y (z ∷ zs) e h = elim (Bool-cases (le x z)) [
    | inl p ↦ rw p (e, (p, h.1))
    | inr p ↦ rw p (h.0, insert_by_below x z zs (total x z p) h.1)
  ]

  insert_by-IsSorted : (x : A) (xs : List A) → IsSorted le xs → IsSorted le (insert_by le x xs)
  unfolding insert_by
  insert_by-IsSorted x [] h = tt
  insert_by-IsSorted x (y ∷ ys) h = elim (Bool-cases (le x y)) [
    | inl p ↦ rw p (p, h)
    | inr p ↦ rw p (insert_by_below x y ys (total x y p) h)
  ]

  -- Under a total order the result is sorted.
  pub sort_by-IsSorted : (xs : List A) → IsSorted le (sort_by le xs)
  unfolding sort_by
  sort_by-IsSorted [] = tt
  sort_by-IsSorted (x ∷ xs) = insert_by-IsSorted x (sort_by le xs) (sort_by-IsSorted xs)

module _ {ℓ κ} {A : Type ℓ} (le : A → A → Bool) (P : A → Type κ) where
  All-insert_by : (x : A) (xs : List A) → P x → All P xs → All P (insert_by le x xs)
  unfolding insert_by
  All-insert_by x [] p h = (p, tt)
  All-insert_by x (y ∷ ys) p h = elim (Bool-cases (le x y)) [
    | inl e ↦ rw e (p, h)
    | inr e ↦ rw e (h.0, All-insert_by x ys p h.1)
  ]

  -- What every element satisfies, every element of the sorted list satisfies.
  pub All-sort_by : (xs : List A) → All P xs → All P (sort_by le xs)
  unfolding sort_by
  All-sort_by [] h = tt
  All-sort_by (x ∷ xs) h = All-insert_by x (sort_by le xs) h.0 (All-sort_by xs h.1)
