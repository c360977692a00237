-- ===== src/Prelude/Member.antt =====
-- Membership as a sum over the list, so that proofs split on it and keep the position.
use mathlib.Core.Path.{◌≡◌, refl, ap, ◌∙◌}
use mathlib.Core.Logic.{◌⊎◌, ◌↔◌, inl, inr}
use mathlib.Core.List.{List, [], ◌∷◌, ◌++◌, map}

module _ {A : Type 0} where
  abbrev pub In : A → List A → Type 0
  In a [] = ⊥
  In a (x ∷ xs) = (a ≡ x) ⊎ In a xs

  pub In-append_left : (a : A) (xs ys : List A) → In a xs → In a (xs ++ ys)
  In-append_left a [] ys h = absurd h
  In-append_left a (x ∷ xs) ys (inl e) = inl e
  In-append_left a (x ∷ xs) ys (inr h) = inr (In-append_left a xs ys h)

  pub In-append_right : (a : A) (xs ys : List A) → In a ys → In a (xs ++ ys)
  In-append_right a [] ys h = h
  In-append_right a (x ∷ xs) ys h = inr (In-append_right a xs ys h)

  pub In-append_cases : (a : A) (xs ys : List A) → In a (xs ++ ys) → In a xs ⊎ In a ys
  In-append_cases a [] ys h = inr h
  In-append_cases a (x ∷ xs) ys (inl e) = inl (inl e)
  In-append_cases a (x ∷ xs) ys (inr h) = elim (In-append_cases a xs ys h) [
    | inl l ↦ inl (inr l)
    | inr r ↦ inr r
  ]

module _ {A B : Type 0} (f : A → B) where
  pub In-map : (a : A) (xs : List A) → In a xs → In (f a) (map f xs)
  In-map a [] h = absurd h
  In-map a (x ∷ xs) (inl e) = inl (ap f e)
  In-map a (x ∷ xs) (inr h) = inr (In-map a xs h)

module _ {A B : Type 0} (f : A → List B) where
  -- What `f` gives for each element, one list after the other.
  abbrev pub concat_map : List A → List B
  concat_map [] = []
  concat_map (x ∷ xs) = f x ++ concat_map xs

module _ {A B : Type 0} (f : A → List B) where
  append-eq-nil : (xs ys : List B) → xs ++ ys ≡ [] → (xs ≡ []) × (ys ≡ [])
  append-eq-nil [] ys h = (refl, h)
  append-eq-nil (x ∷ xs) ys h = cc

  pub concat_map-eq-nil : (xs : List A) → (concat_map f xs ≡ []) ↔ ((x : A) → In x xs → f x ≡ [])
  concat_map-eq-nil [] = (λ _ x m. absurd m, λ _. refl)
  concat_map-eq-nil (x ∷ xs) = (
    λ h.
        let (here, later) = append-eq-nil (f x) (concat_map f xs) h in
        λ y m. elim m [ inl e ↦ ap f e ∙ here | inr n ↦ (concat_map-eq-nil xs).0 later y n ],
    λ h.
        ap (λ l. l ++ concat_map f xs) (h x (inl refl))
        ∙ (concat_map-eq-nil xs).1 (λ y m. h y (inr m)),
  )
