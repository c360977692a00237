-- ===== src/Check/Dedupe.antt =====
-- check.py: the `dict` through which `_compare_storage` passes each list of declarations keeps one of
-- every start, end, label and shape.
use josuke.Prelude.{
  ◌≡◌, ◌↔◌, ◌⊎◌, refl, sym, subst, ◌∙◌, inl, inr, Bool, true, false, Bool-cases, List, [], ◌∷◌,
  nat_beq_iff, if◌then◌else◌, In, arith,
}
use josuke.Prelude.Eq.{string_eq}
use josuke.Check.{
  Member, Node, mapping, bytes, dynamic_array, struct, array, enum, function, value, Shape,
}
use josuke.Check.Kinds.{is_leaf-same_bytes, is_leaf-same_value, is_leaf-same_function, texts-beq_eq}
use josuke.Check.Storage.{Decl}
use josuke.Check.Compare.{
  members_beq, node_beq, shape_beq, same_key, put_decl, values_backwards, reverse_onto, dedupe,
}

members-beq_eq : (ms ns : List Member) → members_beq ms ns ≡ true → ms ≡ ns
members-beq_eq [] [] h = refl
members-beq_eq [] (n ∷ ns) h = cc
members-beq_eq (m ∷ ms) [] h = cc
members-beq_eq (m ∷ ms) (n ∷ ns) h =
    let l = (string_eq.same_iff m.label n.label).0 (ground (arith, h)) in
    let s = (nat_beq_iff m.slot n.slot).0 (ground (arith, h)) in
    let o = (nat_beq_iff m.offset n.offset).0 (ground (arith, h)) in
    let k = (nat_beq_iff m.kind n.kind).0 (ground (arith, h)) in
    let r = members-beq_eq ms ns (ground (arith, h)) in cc

node-beq_eq : (a b : Node) → node_beq a b ≡ true → a ≡ b
node-beq_eq (mapping x k v) (mapping y l w) h =
    let p = (nat_beq_iff x y).0 (ground (arith, h)) in
    let q = (nat_beq_iff k l).0 (ground (arith, h)) in
    let r = (nat_beq_iff v w).0 (ground (arith, h)) in cc
node-beq_eq (dynamic_array x a) (dynamic_array y b) h =
    let p = (nat_beq_iff x y).0 (ground (arith, h)) in
    let q = (nat_beq_iff a b).0 (ground (arith, h)) in cc
node-beq_eq (array x a n) (array y b m) h =
    let p = (nat_beq_iff x y).0 (ground (arith, h)) in
    let q = (nat_beq_iff a b).0 (ground (arith, h)) in
    let r = (nat_beq_iff n m).0 (ground (arith, h)) in cc
node-beq_eq (enum x a) (enum y b) h =
    let p = (nat_beq_iff x y).0 (ground (arith, h)) in
    let q = texts-beq_eq a b (ground (arith, h)) in cc
node-beq_eq (struct x a) (struct y b) h =
    let p = (nat_beq_iff x y).0 (ground (arith, h)) in
    let q = members-beq_eq a b (ground (arith, h)) in cc
node-beq_eq (bytes x) b h = sym (is_leaf-same_bytes x b h)
node-beq_eq (value x l) b h = sym (is_leaf-same_value x l b h)
node-beq_eq (function x i) b h = sym (is_leaf-same_function x i b h)
node-beq_eq (mapping x k v) (dynamic_array y b) h = cc
node-beq_eq (mapping x k v) (array y b m) h = cc
node-beq_eq (mapping x k v) (enum y b) h = cc
node-beq_eq (mapping x k v) (struct y b) h = cc
node-beq_eq (mapping x k v) (bytes y) h = cc
node-beq_eq (mapping x k v) (value y t) h = cc
node-beq_eq (mapping x k v) (function y true) h = cc
node-beq_eq (mapping x k v) (function y false) h = cc
node-beq_eq (dynamic_array x a) (mapping y l w) h = cc
node-beq_eq (dynamic_array x a) (array y b m) h = cc
node-beq_eq (dynamic_array x a) (enum y b) h = cc
node-beq_eq (dynamic_array x a) (struct y b) h = cc
node-beq_eq (dynamic_array x a) (bytes y) h = cc
node-beq_eq (dynamic_array x a) (value y t) h = cc
node-beq_eq (dynamic_array x a) (function y true) h = cc
node-beq_eq (dynamic_array x a) (function y false) h = cc
node-beq_eq (array x a n) (mapping y l w) h = cc
node-beq_eq (array x a n) (dynamic_array y b) h = cc
node-beq_eq (array x a n) (enum y b) h = cc
node-beq_eq (array x a n) (struct y b) h = cc
node-beq_eq (array x a n) (bytes y) h = cc
node-beq_eq (array x a n) (value y t) h = cc
node-beq_eq (array x a n) (function y true) h = cc
node-beq_eq (array x a n) (function y false) h = cc
node-beq_eq (enum x a) (mapping y l w) h = cc
node-beq_eq (enum x a) (dynamic_array y b) h = cc
node-beq_eq (enum x a) (array y b m) h = cc
node-beq_eq (enum x a) (struct y b) h = cc
node-beq_eq (enum x a) (bytes y) h = cc
node-beq_eq (enum x a) (value y t) h = cc
node-beq_eq (enum x a) (function y true) h = cc
node-beq_eq (enum x a) (function y false) h = cc
node-beq_eq (struct x a) (mapping y l w) h = cc
node-beq_eq (struct x a) (dynamic_array y b) h = cc
node-beq_eq (struct x a) (array y b m) h = cc
node-beq_eq (struct x a) (enum y b) h = cc
node-beq_eq (struct x a) (bytes y) h = cc
node-beq_eq (struct x a) (value y t) h = cc
node-beq_eq (struct x a) (function y true) h = cc
node-beq_eq (struct x a) (function y false) h = cc

shape-beq_eq : (a b : Shape) → shape_beq a b ≡ true → a ≡ b
shape-beq_eq [] [] h = refl
shape-beq_eq [] (y ∷ b) h = cc
shape-beq_eq (x ∷ a) [] h = cc
shape-beq_eq (x ∷ a) (y ∷ b) h =
    let p = node-beq_eq x y (ground (arith, h)) in
    let q = shape-beq_eq a b (ground (arith, h)) in cc

-- Two declarations with one start, end, label and shape; the contract and the type's name may differ.
abbrev pub Like : Decl → Decl → Type 0
Like a b = (a.start ≡ b.start) × (a.end ≡ b.end) × (a.label ≡ b.label) × (a.shape ≡ b.shape)

pub Like-refl : (a : Decl) → Like a a
Like-refl a = (refl, refl, refl, refl)

pub Like-sym : (a b : Decl) → Like a b → Like b a
Like-sym a b (p, q, r, s) = (sym p, sym q, sym r, sym s)

Like-trans : (a b c : Decl) → Like a b → Like b c → Like a c
Like-trans a b c (p, q, r, s) (p', q', r', s') = (p ∙ p', q ∙ q', r ∙ r', s ∙ s')

same_key-Like : (a b : Decl) → same_key a b ≡ true → Like a b
same_key-Like a b h = (
  (nat_beq_iff a.start b.start).0 (ground (arith, h)),
  (nat_beq_iff a.end b.end).0 (ground (arith, h)),
  (string_eq.same_iff a.label b.label).0 (ground (arith, h)),
  shape-beq_eq a.shape b.shape (ground (arith, h)),
)

-- Some declaration of the list is like it.
abbrev pub Represented : Decl → List Decl → Type 0
Represented d ds = (e : Decl) × In e ds × Like d e

put_decl-In : (d : Decl) (ds : List Decl) → In d (put_decl d ds)
unfolding put_decl
put_decl-In d [] = inl refl
put_decl-In d (x ∷ ds) = elim (Bool-cases (same_key x d)) [
  | inl t ↦ rw t (inl refl)
  | inr f ↦ rw f (inr (put_decl-In d ds))
]

put_decl-Represented : (d y : Decl) (ds : List Decl) → In y ds → Represented y (put_decl d ds)
unfolding put_decl
put_decl-Represented d y [] m = absurd m
put_decl-Represented d y (x ∷ ds) m = elim (Bool-cases (same_key x d)) [
  | inl t ↦ rw t (replaced t m)
  | inr f ↦ rw f (passed (λ n. put_decl-Represented d y ds n) m)
]
  where
    replaced : same_key x d ≡ true → In y (x ∷ ds) → Represented y (d ∷ ds)
    replaced t (inl e) = (d, inl refl, subst (λ z. Like z d) (sym e) (same_key-Like x d t))
    replaced t (inr n) = (y, inr n, Like-refl y)

    passed :
        (In y ds → Represented y (put_decl d ds))
        → In y (x ∷ ds)
        → Represented y (x ∷ put_decl d ds)
    passed ih (inl e) = (x, inl refl, subst (λ z. Like z x) (sym e) (Like-refl x))
    passed ih (inr n) = let (z, i, l) = ih n in (z, inr i, l)

In-put_decl : (d y : Decl) (ds : List Decl) → In y (put_decl d ds) → In y (d ∷ ds)
unfolding put_decl
In-put_decl d y [] m = m
In-put_decl d y (x ∷ ds) m = go (same_key x d) m (λ n. In-put_decl d y ds n)
  where
    go :
        (b : Bool)
        → In y (if b then d ∷ ds else x ∷ put_decl d ds)
        → (In y (put_decl d ds) → In y (d ∷ ds))
        → In y (d ∷ x ∷ ds)
    go true (inl e) ih = inl e
    go true (inr n) ih = inr (inr n)
    go false (inl e) ih = inr (inl e)
    go false (inr n) ih = elim (ih n) [ inl e ↦ inl e | inr i ↦ inr (inr i) ]

values_backwards-Represented :
    (d : Decl) (ds : List Decl) → In d ds → Represented d (values_backwards ds)
unfolding values_backwards
values_backwards-Represented d [] m = absurd m
values_backwards-Represented d (x ∷ ds) (inl e) =
    (x, put_decl-In x (values_backwards ds), subst (λ z. Like z x) (sym e) (Like-refl x))
values_backwards-Represented d (x ∷ ds) (inr m) =
    let (y, i, l) = values_backwards-Represented d ds m in
    let (z, j, k) = put_decl-Represented x y (values_backwards ds) i in (z, j, Like-trans d y z l k)

In-values_backwards : (d : Decl) (ds : List Decl) → In d (values_backwards ds) → In d ds
unfolding values_backwards
In-values_backwards d [] m = m
In-values_backwards d (x ∷ ds) m = elim (In-put_decl x d (values_backwards ds) m) [
  | inl e ↦ inl e
  | inr n ↦ inr (In-values_backwards d ds n)
]

In-reverse_onto :
    (d : Decl) (ds out : List Decl) → In d (reverse_onto ds out) ↔ (In d ds ⊎ In d out)
unfolding reverse_onto
In-reverse_onto d [] out = (λ m. inr m, back)
  where
    back : (⊥ ⊎ In d out) → In d out
    back (inl e) = absurd e
    back (inr m) = m
In-reverse_onto d (x ∷ ds) out =
    let ih = In-reverse_onto d ds (x ∷ out) in (λ m. there (ih.0 m), λ m. ih.1 (back m))
  where
    there : In d ds ⊎ In d (x ∷ out) → In d (x ∷ ds) ⊎ In d out
    there (inl m) = inl (inr m)
    there (inr (inl e)) = inl (inl e)
    there (inr (inr m)) = inr m

    back : In d (x ∷ ds) ⊎ In d out → In d ds ⊎ In d (x ∷ out)
    back (inl (inl e)) = inr (inl e)
    back (inl (inr m)) = inl m
    back (inr m) = inr (inr m)

-- What is kept was there.
pub In-dedupe : (d : Decl) (ds : List Decl) → In d (dedupe ds) → In d ds
unfolding dedupe
In-dedupe d ds m = elim ((In-reverse_onto d (values_backwards ds) []).0 m) [
  | inl n ↦ In-values_backwards d ds n
  | inr e ↦ absurd e
]

-- For each declaration one like it is kept.
pub dedupe-Represented : (d : Decl) (ds : List Decl) → In d ds → Represented d (dedupe ds)
unfolding dedupe
dedupe-Represented d ds m =
    let (e, i, l) = values_backwards-Represented d ds m in
    (e, (In-reverse_onto e (values_backwards ds) []).1 (inl i), l)
