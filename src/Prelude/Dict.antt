-- ===== src/Prelude/Dict.antt =====
-- Python's `dict`: a list of entries in the order in which their keys were first set.
use josuke.Prelude.Tests.{if◌then◌else◌, Bool-cases, if_cases}
use josuke.Prelude.Member.{In}
use mathlib.Core.Logic.{inl, inr}
use josuke.Prelude.Eq.{Eq, ◌==◌}
use mathlib.Core.Path.{◌≡◌, refl, sym, ap, subst, ◌∙◌}
use mathlib.Core.Bool.{Bool, true, false, ◌||◌}
use mathlib.Core.Option.{Option, none, some}
use mathlib.Core.List.{List, [], ◌∷◌}
use native.Mathlib.Omega.{arith}

abbrev pub Dict : Type 0 → Type 0 → Type 0
Dict K V = List (K × V)

module _ {K V : Type 0} ⦃e : Eq K⦄ where
  -- d.get(k)
  unfoldable pub get : K → Dict K V → Option V
  get k [] = none
  get k ((j, v) ∷ d) = if j == k then some v else get k d

  -- d[k] = v: in place, or at the end.
  unfoldable pub put : K → V → Dict K V → Dict K V
  put k v [] = (k, v) ∷ []
  put k v ((j, w) ∷ d) = let rest = put k v d in if j == k then (j, v) ∷ d else (j, w) ∷ rest

  -- del d[k], d.pop(k, None)
  unfoldable pub remove : K → Dict K V → Dict K V
  remove k [] = []
  remove k ((j, v) ∷ d) = let rest = remove k d in if j == k then rest else (j, v) ∷ rest

  abbrev pub keys : Dict K V → List K
  keys [] = []
  keys ((k, v) ∷ d) = k ∷ keys d

  pub get-put :
      (k j : K) (v : V) (d : Dict K V) → get j (put k v d) ≡ (if k == j then some v else get j d)
  unfolding get put
  get-put k j v [] = refl
  get-put k j v ((i, w) ∷ d) =
      ground (arith, e.same_iff i k, e.same_iff i j, e.same_iff k j, get-put k j v d)

  pub get-remove :
      (k j : K) (d : Dict K V) → get j (remove k d) ≡ (if k == j then none else get j d)
  unfolding get remove
  get-remove k j [] = ground arith
  get-remove k j ((i, w) ∷ d) =
      ground (arith, e.same_iff i k, e.same_iff i j, e.same_iff k j, get-remove k j d)

  -- d | entries, d.update(entries)
  unfoldable pub update : Dict K V → List (K × V) → Dict K V
  update d [] = d
  update d ((k, v) ∷ items) = update (put k v d) items

  -- d.setdefault(k, v), without its result.
  unfoldable pub set_default : K → V → Dict K V → Dict K V
  set_default k v d = elim (get k d) [ some w ↦ d | none ↦ put k v d ]

  abbrev pub has : K → Dict K V → Bool
  has k [] = false
  has k ((j, v) ∷ d) = j == k || has k d

  -- No key stands twice.
  abbrev pub Distinct : Dict K V → Type 0
  Distinct [] = Unit
  Distinct ((k, v) ∷ d) = (get k d ≡ none) × Distinct d

none-some : {V : Type 0} {o : Option V} {v : V} → o ≡ none → o ≡ some v → ⊥
none-some p q = cc

pub some_injective {ℓ} : {V : Type ℓ} {x y : V} → some x ≡ some y → x ≡ y
some_injective p = cc

module _ {K V : Type 0} ⦃e : Eq K⦄ where
  pub put-Distinct : (k : K) (v : V) (d : Dict K V) → Distinct d → Distinct (put k v d)
  unfolding put get
  put-Distinct k v [] h = (refl, tt)
  put-Distinct k v ((j, w) ∷ d) h = elim (Bool-cases (j == k)) [
    | inl same ↦ rw same h
    | inr other ↦ rw other (get-put k j v d ∙ rw (differ other) h.0, put-Distinct k v d h.1)
  ]
    where
      differ : (j == k) ≡ false → (k == j) ≡ false
      differ o = ground (arith, e.same_iff j k, e.same_iff k j)

  pub update-Distinct :
      (d : Dict K V) (items : List (K × V)) → Distinct d → Distinct (update d items)
  unfolding update
  update-Distinct d [] h = h
  update-Distinct d ((k, v) ∷ items) h = update-Distinct (put k v d) items (put-Distinct k v d h)

  -- The entries of a dict are what its look-ups find.
  pub In-get : (k : K) (v : V) (d : Dict K V) → Distinct d → In (k, v) d → get k d ≡ some v
  unfolding get
  In-get k v [] h m = absurd m
  In-get k v ((j, w) ∷ d) h (inl same) =
      rw ((e.same_iff j k).1 (sym (ap (λ r. r.0) same))) (ap some (sym (ap (λ r. r.1) same)))
  In-get k v ((j, w) ∷ d) h (inr m) = elim (Bool-cases (j == k)) [
    | inl same ↦
        absurd (
          none-some (subst (λ i. get i d ≡ none) ((e.same_iff j k).0 same) h.0)
            (In-get k v d h.1 m))
    | inr other ↦ rw other (In-get k v d h.1 m)
  ]

  pub get-In : (k : K) (v : V) (d : Dict K V) → get k d ≡ some v → In (k, v) d
  unfolding get
  get-In k v [] h = cc
  get-In k v ((j, w) ∷ d) h = elim (if_cases (j == k) (some w) (get k d) h) [
    | inl (same, p) ↦ inl (cc (sym ((e.same_iff j k).0 same), some_injective p))
    | inr (_, p) ↦ inr (get-In k v d p)
  ]

  pub has-put : (a k : K) (v : V) (d : Dict K V) → has a (put k v d) ≡ (k == a || has a d)
  unfolding put
  has-put a k v [] = refl
  has-put a k v ((j, w) ∷ d) =
      ground (arith, e.same_iff j k, e.same_iff k a, e.same_iff j a, has-put a k v d)

  pub has-update : (a : K) (d items : Dict K V) → has a (update d items) ≡ (has a items || has a d)
  unfolding update
  has-update a d [] = refl
  has-update a d ((k, v) ∷ items) = ground (arith, has-update a (put k v d) items, has-put a k v d)

  -- Whether a key stands in the dict, by its look-up.
  pub has-get : (k : K) (d : Dict K V) → has k d ≡ true → (v : V) × (get k d ≡ some v)
  unfolding get
  has-get k [] h = cc
  has-get k ((j, v) ∷ d) h = elim (Bool-cases (j == k)) [
    | inl same ↦ rw same (v, refl)
    | inr other ↦ rw other (has-get k d (rw other at h))
  ]

  pub get-none-has : (k : K) (d : Dict K V) → get k d ≡ none → has k d ≡ false
  get-none-has k d h = elim (Bool-cases (has k d)) [
    | inl e ↦ absurd (none-some h (has-get k d e).1)
    | inr e ↦ e
  ]

module _ {K V W : Type 0} ⦃e : Eq K⦄ where
  -- The keys of the one dict that the other has not, in their order: `a.keys() - b.keys()`.
  unfoldable pub other_keys : Dict K V → Dict K W → List K
  other_keys [] b = []
  other_keys ((k, v) ∷ a) b = let rest = other_keys a b in if has k b then rest else k ∷ rest

  pub In-other_keys :
      (k : K) (v : V) (a : Dict K V) (b : Dict K W)
      → get k a ≡ some v
      → has k b ≡ false
      → In k (other_keys a b)
  unfolding get other_keys
  In-other_keys k v [] b h n = cc
  In-other_keys k v ((j, w) ∷ a) b h n = elim (if_cases (j == k) (some w) (get k a) h) [
    | inl (same, _) ↦
        rw ((ap (λ i. has i b) ((e.same_iff j k).0 same)) ∙ n) (inl (sym ((e.same_iff j k).0 same)))
    | inr (_, p) ↦ elim (Bool-cases (has j b)) [
      | inl t ↦ rw t (In-other_keys k v a b p n)
      | inr f ↦ rw f (inr (In-other_keys k v a b p n))
    ]
  ]

  pub In-other_keys_cases :
      (k : K) (a : Dict K V) (b : Dict K W)
      → In k (other_keys a b)
      → (has k a ≡ true) × (has k b ≡ false)
  unfolding other_keys
  In-other_keys_cases k [] b m = absurd m
  In-other_keys_cases k ((j, w) ∷ a) b m = elim (Bool-cases (has j b)) [
    | inl t ↦ later (In-other_keys_cases k a b (rw t at m))
    | inr f ↦ elim (rw f at m) [
      | inl same ↦ (rw ((e.same_iff j k).1 (sym same)) refl, ap (λ i. has i b) same ∙ f)
      | inr n ↦ later (In-other_keys_cases k a b n)
    ]
  ]
    where
      later : (has k a ≡ true) × (has k b ≡ false) → (has k ((j, w) ∷ a) ≡ true) × (has k b ≡ false)
      later (p, q) = (ground arith, q)
