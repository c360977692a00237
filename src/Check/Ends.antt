-- ===== src/Check/Ends.antt =====
-- check.py: why the comparison of two shapes ends: it takes up each pair of nodes once.
use josuke.Prelude.{
  ℕ, zero, suc, ◌+◌, ◌*◌, ◌≤◌, ◌<◌, ◌≡◌, refl, subst, ap, inl, inr, Bool, true, false, ◌&&◌, ◌||◌,
  not, Option, none, some, List, [], ◌∷◌, length, take, ltb, nat_beq, nat_beq_iff, if◌then◌else◌,
  Bool-cases, arith,
}
use josuke.Prelude.Eq.{◌==◌, string_eq, nat_eq}
use josuke.Check.{
  Member, Node, mapping, bytes, dynamic_array, struct, array, enum, function, value, Shape, size_of,
  get_elem?, was_at, Notes, Fit, reads, differs, out_of_range, stuck, Compare, and_then, grow,
  rename, was_compared, texts_beq, as_mapping, as_dynamic, as_array, as_enum, as_struct, elements,
  any_elsewhere, members, visit, mark, open_pair, fits, fit, no_notes,
}
use josuke.Check.Sound.{Visited, Visited-refl, Visited-rename, Visited-trans, Sound, fits-Sound}

-- How many pairs are yet to be compared.
abbrev row : ℕ → ℕ → List (ℕ × ℕ) → ℕ
row i zero c = 0
row i (suc m) c = (if was_compared i m c then 0 else 1) + row i m c

abbrev left : ℕ → ℕ → List (ℕ × ℕ) → ℕ
left zero m c = 0
left (suc n) m c = row n m c + left n m c

abbrev Kept : List (ℕ × ℕ) → List (ℕ × ℕ) → Type 0
Kept c d = (i j : ℕ) → was_compared i j c ≡ true → was_compared i j d ≡ true

row_mono : (i m : ℕ) (c d : List (ℕ × ℕ)) → Kept c d → row i m d ≤ row i m c
row_mono i zero c d k = omega arith
row_mono i (suc m) c d k = elim (Bool-cases (was_compared i m c)) [
  | inl t ↦ ground (arith, k i m t, row_mono i m c d k)
  | inr f ↦ ground (arith, f, row_mono i m c d k)
]

left_mono : (n m : ℕ) (c d : List (ℕ × ℕ)) → Kept c d → left n m d ≤ left n m c
left_mono zero m c d k = omega arith
left_mono (suc n) m c d k = omega (arith, row_mono n m c d k, left_mono n m c d k)

row-less :
    (i j m : ℕ) (c d : List (ℕ × ℕ))
    → Kept c d
    → j < m
    → was_compared i j c ≡ false
    → was_compared i j d ≡ true
    → row i m d < row i m c
row-less i j zero c d k l f t = omega arith
row-less i j (suc m) c d k l f t = elim (Bool-cases (nat_beq j m)) [
  | inl e ↦
      let p : j ≡ m = (nat_beq_iff j m).0 e in
      ground
        (arith, ap (λ x. was_compared i x c) p, ap (λ x. was_compared i x d) p, row_mono i m c d k)
  | inr e ↦ elim (Bool-cases (was_compared i m c)) [
    | inl u ↦ ground (arith, k i m u, row-less i j m c d k (ground (arith, e)) f t)
    | inr u ↦ ground (arith, u, row-less i j m c d k (ground (arith, e)) f t)
  ]
]

left-less :
    (i j n m : ℕ) (c d : List (ℕ × ℕ))
    → Kept c d
    → i < n
    → j < m
    → was_compared i j c ≡ false
    → was_compared i j d ≡ true
    → left n m d < left n m c
left-less i j zero m c d k a b f t = omega arith
left-less i j (suc n) m c d k a b f t = elim (Bool-cases (nat_beq i n)) [
  | inl e ↦
      let p : i ≡ n = (nat_beq_iff i n).0 e in
      omega (
        arith,
        subst (λ x. row x m d < row x m c) p (row-less i j m c d k b f t),
        left_mono n m c d k,
      )
  | inr e ↦ omega (arith, row_mono n m c d k, left-less i j n m c d k (ground (arith, e)) b f t)
]

row-le : (i m : ℕ) → row i m [] ≤ m
row-le i zero = omega arith
row-le i (suc m) = omega (arith, row-le i m)

left-le : (n m : ℕ) → left n m [] ≤ n * m
left-le zero m = omega arith
left-le (suc n) m = omega (arith, row-le n m, left-le n m)

get_elem?_lt : (i : ℕ) (shape : Shape) (a : Node) → get_elem? i shape ≡ some a → i < length shape
get_elem?_lt zero [] a h = cc
get_elem?_lt (suc i) [] a h = cc
get_elem?_lt zero (x ∷ shape) a h = omega arith
get_elem?_lt (suc i) (x ∷ shape) a h = omega (arith, get_elem?_lt i shape a h)

abbrev Ends : Fit → Type 0
Ends f = f ≡ stuck → ⊥

and_then-Ends :
    (f : Fit) (next : Notes → Fit)
    → Ends f
    → ((s : Notes) → f ≡ reads s → Ends (next s))
    → Ends (and_then f next)
unfolding and_then
and_then-Ends (reads s) next e k h = k s refl h
and_then-Ends (differs s) next e k h = cc
and_then-Ends out_of_range next e k h = cc
and_then-Ends stuck next e k h = e h

reads-Ends : (s : Notes) → Ends (reads s)
reads-Ends s h = cc

differs-Ends : (s : Notes) → Ends (differs s)
differs-Ends s h = cc

range-Ends : Ends out_of_range
range-Ends h = cc

if-Ends : (b : Bool) (f g : Fit) → Ends f → Ends g → Ends (if b then f else g)
if-Ends true f g p q = p
if-Ends false f g p q = q

module _ (old new : Shape) where
  -- The comparison of types inside ends, in `s` and later.
  abbrev Later : Compare → Notes → Type 0
  Later call s = (o n : ℕ) (t : Notes) → Visited old new s t → Ends (call o n t)

  Later-Visited : (call : Compare) (s t : Notes) → Visited old new s t → Later call s → Later call t
  Later-Visited call s t v l o n u w = l o n u (Visited-trans old new s t u v w)

  elements-Ends :
      (call : Compare) (size base size' base' : ℕ) (s : Notes)
      → Later call s
      → Ends (elements call old new size base size' base' s)
  unfolding elements
  elements-Ends call size base size' base' s l =
      elim (get_elem? base old)
        as (λ o. Ends (elim o as (λ _. Fit) [
          | none ↦ out_of_range
          | some x ↦ (elim (get_elem? base' new) as (λ _. Fit) [
            | none ↦ out_of_range
            | some y ↦
                (if not (nat_beq (size_of x) (size_of y)) || ltb size' size
                  then differs s
                  else call base base' s)
          ])
        ])) [
          | none ↦ range-Ends
          | some x ↦
              elim (get_elem? base' new)
                as (λ o. Ends (elim o as (λ _. Fit) [
                  | none ↦ out_of_range
                  | some y ↦
                      (if not (nat_beq (size_of x) (size_of y)) || ltb size' size
                        then differs s
                        else call base base' s)
                ])) [
                  | none ↦ range-Ends
                  | some y ↦
                      if-Ends _ (differs s) (call base base' s) (differs-Ends s)
                        (l base base' s (Visited-refl old new s))
                ]
        ]

  members-Ends :
      (call : Compare) (ms ms' : List Member) (s : Notes)
      → Sound old new call
      → Later call s
      → Ends (members call ms ms' s)
  unfolding members
  members-Ends call [] ms' s c l = reads-Ends s
  members-Ends call (m ∷ ms) [] s c l = reads-Ends s
  members-Ends call (m ∷ ms) (m' ∷ ms') s c l =
      if-Ends (not (nat_beq m.slot m'.slot && nat_beq m.offset m'.offset)) (differs s) _
        (differs-Ends s)
        (and_then-Ends (call m.kind m'.kind s) _ (l m.kind m'.kind s (Visited-refl old new s))
          (λ t h. members-Ends call ms ms' (rename (not (m.label == m'.label)) t) c (
            Later-Visited call s (rename (not (m.label == m'.label)) t)
              (Visited-trans old new s t (rename (not (m.label == m'.label)) t)
                (c m.kind m'.kind s t h).0 (Visited-rename old new (not (m.label == m'.label)) t))
              l)))

  visit-Ends :
      (call : Compare) (a b : Node) (s : Notes)
      → Sound old new call
      → Later call s
      → Ends (visit call old new a b s)
  unfolding visit
  visit-Ends call (mapping size k v) b s c l =
      elim (as_mapping b)
        as (λ o. Ends (elim o as (λ _. Fit) [
          | some (size', k', v') ↦ and_then (call k k' s) (call v v')
          | none ↦ differs s
        ])) [
          | none ↦ differs-Ends s
          | some (z, k', v') ↦
              and_then-Ends (call k k' s) (call v v') (l k k' s (Visited-refl old new s))
                (λ t h. l v v' t (c k k' s t h).0)
        ]
  visit-Ends call (dynamic_array size base) b s c l =
      elim (as_dynamic b)
        as (λ o. Ends (elim o as (λ _. Fit) [
          | some (size', base') ↦ elements call old new size base size' base' s
          | none ↦ differs s
        ])) [ none ↦ differs-Ends s | some (z, base') ↦ elements-Ends call size base z base' s l ]
  visit-Ends call (array size base count) b s c l =
      elim (as_array b)
        as (λ o. Ends (elim o as (λ _. Fit) [
          | some (size', base', count') ↦
              and_then (elements call old new size base size' base' s)
                (λ t. if ltb count' count then differs t else reads (grow (ltb count count') t))
          | none ↦ differs s
        ])) [
          | none ↦ differs-Ends s
          | some (z, base', n) ↦
              and_then-Ends (elements call old new size base z base' s) _
                (elements-Ends call size base z base' s l)
                (λ t h.
                  if-Ends (ltb n count) (differs t) (reads (grow (ltb count n) t)) (differs-Ends t)
                    (reads-Ends (grow (ltb count n) t)))
        ]
  visit-Ends call (enum size ms) b s c l =
      elim (as_enum b)
        as (λ o. Ends (elim o as (λ _. Fit) [
          | some (size', ms') ↦
              (if not (nat_beq size size') || not (texts_beq ms (take (length ms) ms'))
                then differs s
                else reads (grow (ltb (length ms) (length ms')) s))
          | none ↦ differs s
        ])) [
          | none ↦ differs-Ends s
          | some (z, ms') ↦ if-Ends _ (differs s) _ (differs-Ends s) (reads-Ends _)
        ]
  visit-Ends call (struct size ms) b s c l =
      elim (as_struct b)
        as (λ o. Ends (elim o as (λ _. Fit) [
          | some (size', ms') ↦
              (if ltb (length ms') (length ms) || any_elsewhere (was_at ms []) ms'
                then differs s
                else and_then (members call ms ms' s) (λ t.
                  reads (grow (not (nat_beq size size') || ltb (length ms) (length ms')) t)))
          | none ↦ differs s
        ])) [
          | none ↦ differs-Ends s
          | some (z, ms') ↦ if-Ends _ (differs s) _ (differs-Ends s) (
              and_then-Ends (members call ms ms' s) _ (members-Ends call ms ms' s c l)
                (λ t h. reads-Ends _))
        ]
  visit-Ends call (bytes size) b s c l =
      if-Ends _ (reads s) (differs s) (reads-Ends s) (differs-Ends s)
  visit-Ends call (function size internal) b s c l =
      if-Ends _ (reads s) (differs s) (reads-Ends s) (differs-Ends s)
  visit-Ends call (value size label) b s c l =
      if-Ends _ (reads s) (differs s) (reads-Ends s) (differs-Ends s)

  abbrev unseen : Notes → ℕ
  unseen s = left (length old) (length new) s.compared

  fits-Ends : (fuel o n : ℕ) (s : Notes) → unseen s < fuel → Ends (fits fuel old new o n s)
  unfolding fits open_pair
  fits-Ends zero o n s h = omega arith
  fits-Ends (suc fuel) o n s h = elim (Bool-cases (was_compared o n s.compared)) [
    | inl t ↦ rw t (reads-Ends s)
    | inr f ↦ rw f (go (get_elem? o old) refl f (λ i j t k. fits-Ends fuel i j t k))
  ]
    where
      go :
          (x : Option Node)
          → get_elem? o old ≡ x
          → was_compared o n s.compared ≡ false
          → ((i j : ℕ) (t : Notes) → unseen t < fuel → Ends (fits fuel old new i j t))
          → Ends (elim x as (λ _. Fit) [
            | none ↦ out_of_range
            | some a ↦ (elim (get_elem? n new) as (λ _. Fit) [
              | none ↦ out_of_range
              | some b ↦ visit (fits fuel old new) old new a b (mark o n s)
            ])
          ])
      go none e f ih = range-Ends
      go (some a) e f ih = deep (get_elem? n new) refl
        where
          fewer : n < length new → unseen (mark o n s) < fuel
          fewer m =
              let q =
                left-less o n (length old) (length new) s.compared ((o, n) ∷ s.compared)
                  (λ i j t. ground (arith, t)) (get_elem?_lt o old a e) m f (ground arith) in
              omega (arith, q)

          deep :
              (y : Option Node)
              → get_elem? n new ≡ y
              → Ends (elim y as (λ _. Fit) [
                | none ↦ out_of_range
                | some b ↦ visit (fits fuel old new) old new a b (mark o n s)
              ])
          deep none d = range-Ends
          deep (some b) d =
              visit-Ends (fits fuel old new) a b (mark o n s) (fits-Sound old new fuel) (λ i j t v.
                ih i j t (
                  omega (
                    arith,
                    fewer (get_elem?_lt n new b d),
                    left_mono (length old) (length new) ((o, n) ∷ s.compared) t.compared v.kept,
                  )))

-- The recursion of `_fit` is never out of fuel.
pub fit-ne-stuck : (old new : Shape) → fit old new ≡ stuck → ⊥
unfolding fit
fit-ne-stuck old new =
    fits-Ends old new (length old * length new + 1) 0 0 no_notes
      (omega (arith, left-le (length old) (length new)))
