-- ===== src/Selectors/Method.antt =====
-- erc8167.py: what the generated method lists, and how long it is.
use josuke.Prelude.{
  ℕ, zero, suc, ◌+◌, ◌*◌, ◌/◌, ◌%◌, ◌<◌, ◌≡◌, refl, sym, ap, ◌∙◌, ◌⊎◌, ◌↔◌, inl, inr, false, some,
  List, [], ◌∷◌, ◌++◌, arith, length, length-append, All, In, Bool-cases, Option-cases, if_cases,
  nat_beq,
}
use josuke.Prelude.Eq.{bytes_beq, bytes_eq, bytes_beq_iff}
use josuke.Prelude.Sort.{In-sort_by, In-sort_by_cases, IsSorted, sort_by-IsSorted}
use josuke.Prelude.Bytes.{Bytes, bytes_le, bytes_le_total}
use josuke.Prelude.Dict.{Dict, get, put, keys, set_default}
use josuke.Opcodes.{push, to_bytes, bytes_of}
use josuke.Deployment.{Selector, selectors_selector}
use josuke.Selectors.{
  own_selector, add_selectors, add_lists, generated_selectors, store_all, selectors_method,
}

-- The facets' lists hold the selector.
abbrev pub Exposed : Bytes → List Selector → Type 0
Exposed k [] = ⊥
Exposed k (s ∷ rest) = (k ≡ s.selector) ⊎ Exposed k rest

abbrev pub ExposedByAny : Bytes → List (List Selector) → Type 0
ExposedByAny k [] = ⊥
ExposedByAny k (selectors ∷ rest) = Exposed k selectors ⊎ ExposedByAny k rest

In-put :
    (k j : Bytes) (s : Selector) (d : Dict Bytes Selector)
    → In k (keys (put j s d)) ↔ ((k ≡ j) ⊎ In k (keys d))
unfolding put
In-put k j s [] = (λ m. m, λ m. m)
In-put k j s ((i, w) ∷ d) = elim (Bool-cases (bytes_beq i j)) [
  | inl e ↦
      rw e (λ m. inr m, λ x. elim x [ inl p ↦ inl (p ∙ sym ((bytes_beq_iff i j).0 e)) | inr m ↦ m ])
  | inr e ↦ rw e (
    λ m. elim m [
      | inl p ↦ inr (inl p)
      | inr n ↦ elim ((In-put k j s d).0 n) [ inl p ↦ inl p | inr q ↦ inr (inr q) ]
    ],
    λ x. elim x [
      | inl p ↦ inr ((In-put k j s d).1 (inl p))
      | inr (inl p) ↦ inl p
      | inr (inr q) ↦ inr ((In-put k j s d).1 (inr q))
    ],
  )
]

get-In-keys :
    (k : Bytes) (s : Selector) (d : Dict Bytes Selector) → get k d ≡ some s → In k (keys d)
unfolding get
get-In-keys k s [] h = cc
get-In-keys k s ((i, w) ∷ d) h = elim (if_cases (bytes_beq i k) (some w) (get k d) h) [
  | inl (e, _) ↦ inl (sym ((bytes_beq_iff i k).0 e))
  | inr (_, p) ↦ inr (get-In-keys k s d p)
]

In-set_default :
    (k j : Bytes) (s : Selector) (d : Dict Bytes Selector)
    → In k (keys (set_default j s d)) ↔ ((k ≡ j) ⊎ In k (keys d))
unfolding set_default
In-set_default k j s d = elim (Option-cases (get j d)) [
  | inl e ↦ rw (e, set_default) (In-put k j s d)
  | inr (w, e) ↦
      rw (e, set_default)
        (λ m. inr m, λ x. elim x [ inl p ↦ rw p (get-In-keys j w d e) | inr m ↦ m ])
]

bytes_of-zero : (fuel : ℕ) (tail : Bytes) → bytes_of fuel 0 tail ≡ tail
unfolding bytes_of
bytes_of-zero zero tail = refl
bytes_of-zero (suc fuel) tail = refl

bytes_of-small : (fuel n : ℕ) → 0 < n → n < 256 → length (bytes_of (suc fuel) n []) ≡ 1
unfolding bytes_of
bytes_of-small fuel n p q =
    let big : nat_beq n 0 ≡ false = ground arith in
    let less : n / 256 ≡ 0 = omega arith in
    rw (big, less) (ap length (bytes_of-zero fuel (n % 256 ∷ [])))

length-to_bytes : (n : ℕ) → 0 < n → n < 256 → length (to_bytes n) ≡ 1
unfolding to_bytes
length-to_bytes n p q = bytes_of-small 32 n p q

length-push : (n : ℕ) → 0 < n → n < 256 → length (push n) ≡ 2
unfolding push
length-push n p q =
    let big : nat_beq n 0 ≡ false = ground arith in rw big (ap suc (length-to_bytes n p q))

length-store_all :
    (s : Bytes) (rest : List Bytes)
    → length s ≡ 4
    → All (λ x. length x ≡ 4) rest
    → length (store_all (s ∷ rest)) ≡ 9 * length rest + 7
unfolding store_all
length-store_all s [] h hr = omega (arith, length-append s (0x81 ∷ 0x52 ∷ []))
length-store_all s (next ∷ rest) h hr =
    let later = length-store_all next rest hr.0 hr.1 in
    let split = length-append (s ++ (0x81 ∷ 0x52 ∷ [])) (0x81 ∷ 0x01 ∷ store_all (next ∷ rest)) in
    omega (arith, later, split, length-append s (0x81 ∷ 0x52 ∷ []))

-- The method for one to 255 selectors of four bytes has 9 n + 12 bytes.
pub length-selectors_method :
    (selectors : List Bytes)
    → All (λ s. length s ≡ 4) selectors
    → 0 < length selectors
    → length selectors < 256
    → length (selectors_method selectors) ≡ 9 * length selectors + 12
unfolding selectors_method
length-selectors_method [] h p q = absurd (omega arith)
length-selectors_method (s ∷ rest) h p q =
    let end : Bytes = 0x82 ∷ 0x52 ∷ 0x90 ∷ 0x5f ∷ 0x52 ∷ 0x59 ∷ 0x5f ∷ 0xf3 ∷ [] in
    omega (
      arith,
      length-store_all s rest h.0 h.1,
      length-append (store_all (s ∷ rest)) (push (suc (length rest)) ++ end),
      length-append (push (suc (length rest))) end,
      length-push (suc (length rest)) p q,
    )

In-add_selectors :
    (k : Bytes) (selectors : List Selector) (d : Dict Bytes Selector)
    → In k (keys (add_selectors selectors d)) ↔ (Exposed k selectors ⊎ In k (keys d))
unfolding add_selectors
In-add_selectors k [] d = (λ m. inr m, λ x. elim x [ inl p ↦ absurd p | inr m ↦ m ])
In-add_selectors k (s ∷ rest) d =
    let later = In-add_selectors k rest (set_default s.selector s d) in
    let here = In-set_default k s.selector s d in
    (
      λ m. elim (later.0 m) [
        | inl x ↦ inl (inr x)
        | inr n ↦ elim (here.0 n) [ inl p ↦ inl (inl p) | inr q ↦ inr q ]
      ],
      λ x. elim x [
        | inl (inl p) ↦ later.1 (inr (here.1 (inl p)))
        | inl (inr y) ↦ later.1 (inl y)
        | inr m ↦ later.1 (inr (here.1 (inr m)))
      ],
    )

In-add_lists :
    (k : Bytes) (lists : List (List Selector)) (d : Dict Bytes Selector)
    → In k (keys (add_lists lists d)) ↔ (ExposedByAny k lists ⊎ In k (keys d))
unfolding add_lists
In-add_lists k [] d = (λ m. inr m, λ x. elim x [ inl p ↦ absurd p | inr m ↦ m ])
In-add_lists k (selectors ∷ rest) d =
    let later = In-add_lists k rest (add_selectors selectors d) in
    let here = In-add_selectors k selectors d in
    (
      λ m. elim (later.0 m) [
        | inl x ↦ inl (inr x)
        | inr n ↦ elim (here.0 n) [ inl p ↦ inl (inl p) | inr q ↦ inr q ]
      ],
      λ x. elim x [
        | inl (inl p) ↦ later.1 (inr (here.1 (inl p)))
        | inl (inr y) ↦ later.1 (inl y)
        | inr m ↦ later.1 (inr (here.1 (inr m)))
      ],
    )

-- The generated list is sorted, and holds `selectors()`, every selector that a facet exposes, and
-- nothing else.
pub generated_selectors-Exposed :
    (lists : List (List Selector))
    → IsSorted bytes_le (generated_selectors lists)
      × ((k : Bytes)
          → In k (generated_selectors lists) ↔ (ExposedByAny k lists ⊎ (k ≡ selectors_selector)))
unfolding generated_selectors
generated_selectors-Exposed lists = (
  sort_by-IsSorted bytes_le bytes_le_total all,
  λ k.
      let each = In-add_lists k lists ((selectors_selector, own_selector) ∷ []) in
      (
        λ m. elim (each.0 (In-sort_by_cases bytes_le k all m)) [
          | inl x ↦ inl x
          | inr (inl p) ↦ inr p
          | inr (inr n) ↦ absurd n
        ],
        λ x. elim x [
          | inl y ↦ In-sort_by bytes_le k all (each.1 (inl y))
          | inr p ↦ In-sort_by bytes_le k all (each.1 (inr (inl p)))
        ],
      ),
)
  where
    all : List Bytes
    all = keys (add_lists lists ((selectors_selector, own_selector) ∷ []))
