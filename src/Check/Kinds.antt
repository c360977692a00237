-- ===== src/Check/Kinds.antt =====
-- check.py: what the tests of `_fit` on single nodes say of them.
use josuke.Prelude.{
  ℕ, ◌≡◌, refl, sym, ap, Bool, true, false, some, String, List, [], ◌∷◌, nat_beq_iff, arith,
}
use josuke.Prelude.Eq.{string_eq, nat_eq}
use josuke.Check.{
  Member, Node, mapping, bytes, dynamic_array, struct, array, enum, function, value, texts_beq,
  as_mapping, as_dynamic, as_array, as_enum, as_struct, is_leaf,
}

pub as_mapping-some :
    (b : Node) (size k v : ℕ) → as_mapping b ≡ some (size, k, v) → b ≡ mapping size k v
as_mapping-some (mapping z x y) size k v h = cc
as_mapping-some (bytes z) size k v h = cc
as_mapping-some (dynamic_array z a) size k v h = cc
as_mapping-some (struct z a) size k v h = cc
as_mapping-some (array z a c) size k v h = cc
as_mapping-some (enum z a) size k v h = cc
as_mapping-some (function z a) size k v h = cc
as_mapping-some (value z a) size k v h = cc

pub as_dynamic-some :
    (b : Node) (size base : ℕ) → as_dynamic b ≡ some (size, base) → b ≡ dynamic_array size base
as_dynamic-some (mapping z x y) size base h = cc
as_dynamic-some (bytes z) size base h = cc
as_dynamic-some (dynamic_array z a) size base h = cc
as_dynamic-some (struct z a) size base h = cc
as_dynamic-some (array z a c) size base h = cc
as_dynamic-some (enum z a) size base h = cc
as_dynamic-some (function z a) size base h = cc
as_dynamic-some (value z a) size base h = cc

pub as_array-some :
    (b : Node) (size base count : ℕ)
    → as_array b ≡ some (size, base, count)
    → b ≡ array size base count
as_array-some (mapping z x y) size base count h = cc
as_array-some (bytes z) size base count h = cc
as_array-some (dynamic_array z a) size base count h = cc
as_array-some (struct z a) size base count h = cc
as_array-some (array z a c) size base count h = cc
as_array-some (enum z a) size base count h = cc
as_array-some (function z a) size base count h = cc
as_array-some (value z a) size base count h = cc

pub as_enum-some :
    (b : Node) (size : ℕ) (ms : List String) → as_enum b ≡ some (size, ms) → b ≡ enum size ms
as_enum-some (mapping z x y) size ms h = cc
as_enum-some (bytes z) size ms h = cc
as_enum-some (dynamic_array z a) size ms h = cc
as_enum-some (struct z a) size ms h = cc
as_enum-some (array z a c) size ms h = cc
as_enum-some (enum z a) size ms h = cc
as_enum-some (function z a) size ms h = cc
as_enum-some (value z a) size ms h = cc

pub as_struct-some :
    (b : Node) (size : ℕ) (ms : List Member) → as_struct b ≡ some (size, ms) → b ≡ struct size ms
as_struct-some (mapping z x y) size ms h = cc
as_struct-some (bytes z) size ms h = cc
as_struct-some (dynamic_array z a) size ms h = cc
as_struct-some (struct z a) size ms h = cc
as_struct-some (array z a c) size ms h = cc
as_struct-some (enum z a) size ms h = cc
as_struct-some (function z a) size ms h = cc
as_struct-some (value z a) size ms h = cc

pub is_leaf-same_bytes : (size : ℕ) (b : Node) → is_leaf (bytes size) b ≡ true → b ≡ bytes size
is_leaf-same_bytes size (bytes z) h = ap bytes (sym ((nat_beq_iff size z).0 h))
is_leaf-same_bytes size (mapping z k v) h = cc
is_leaf-same_bytes size (dynamic_array z a) h = cc
is_leaf-same_bytes size (struct z a) h = cc
is_leaf-same_bytes size (array z a c) h = cc
is_leaf-same_bytes size (enum z a) h = cc
is_leaf-same_bytes size (function z true) h = cc
is_leaf-same_bytes size (function z false) h = cc
is_leaf-same_bytes size (value z a) h = cc

pub is_leaf-same_value :
    (size : ℕ) (label : String) (b : Node)
    → is_leaf (value size label) b ≡ true
    → b ≡ value size label
is_leaf-same_value size label (value z l) h =
    let p = (nat_beq_iff size z).0 (ground (arith, h)) in
    let q = (string_eq.same_iff label l).0 (ground (arith, h)) in cc
is_leaf-same_value size label (bytes z) h = cc
is_leaf-same_value size label (mapping z k v) h = cc
is_leaf-same_value size label (dynamic_array z a) h = cc
is_leaf-same_value size label (struct z a) h = cc
is_leaf-same_value size label (array z a c) h = cc
is_leaf-same_value size label (enum z a) h = cc
is_leaf-same_value size label (function z true) h = cc
is_leaf-same_value size label (function z false) h = cc

pub is_leaf-same_function :
    (size : ℕ) (internal : Bool) (b : Node)
    → is_leaf (function size internal) b ≡ true
    → b ≡ function size internal
is_leaf-same_function size true (function z true) h =
    ap (λ x. function x true) (sym ((nat_beq_iff size z).0 h))
is_leaf-same_function size false (function z false) h =
    ap (λ x. function x false) (sym ((nat_beq_iff size z).0 h))
is_leaf-same_function size true (function z false) h = cc
is_leaf-same_function size false (function z true) h = cc
is_leaf-same_function size true (value z l) h = cc
is_leaf-same_function size true (bytes z) h = cc
is_leaf-same_function size true (mapping z k v) h = cc
is_leaf-same_function size true (dynamic_array z a) h = cc
is_leaf-same_function size true (struct z a) h = cc
is_leaf-same_function size true (array z a c) h = cc
is_leaf-same_function size true (enum z a) h = cc
is_leaf-same_function size false (value z l) h = cc
is_leaf-same_function size false (bytes z) h = cc
is_leaf-same_function size false (mapping z k v) h = cc
is_leaf-same_function size false (dynamic_array z a) h = cc
is_leaf-same_function size false (struct z a) h = cc
is_leaf-same_function size false (array z a c) h = cc
is_leaf-same_function size false (enum z a) h = cc

pub texts-beq_eq : (xs ys : List String) → texts_beq xs ys ≡ true → xs ≡ ys
texts-beq_eq [] [] h = refl
texts-beq_eq [] (y ∷ ys) h = cc
texts-beq_eq (x ∷ xs) [] h = cc
texts-beq_eq (x ∷ xs) (y ∷ ys) h = ground (arith, string_eq.same_iff x y, texts-beq_eq xs ys)
