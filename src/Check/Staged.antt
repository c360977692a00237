-- ===== src/Check/Staged.antt =====
-- src/josuke/check.py: `_differences`, which compares the hashes at HEAD with a recorded set's.
use josuke.Prelude.{
  ◌≡◌, ◌↔◌, refl, sym, ap, ◌∙◌, inl, inr, Bool, true, false, Bool-cases, Option, none, some, String,
  List, [], ◌∷◌, ◌++◌, if◌then◌else◌, concat_map, concat_map-eq-nil, In, arith,
}
use josuke.Prelude.Bytes.{Bytes}
use josuke.Prelude.Eq.{◌==◌, string_eq, bytes_beq, bytes_beq_iff}
use josuke.Prelude.Dict.{Dict, get, has, Distinct, In-get, get-In, has-get, some_injective}

-- A source's hash, or none where it is not known or not recorded.
abbrev pub Hashes : Type 0
Hashes = Dict String (Option Bytes)

pub data Difference : Type 0 where
  adds : String → Difference
  changes : String → Difference
  drops : String → Difference

abbrev pub same_hash : Option Bytes → Option Bytes → Bool
same_hash none none = true
same_hash none (some h) = false
same_hash (some h) none = false
same_hash (some h) (some k) = bytes_beq h k

unfoldable pub added : Hashes → String × Option Bytes → List Difference
added reference (source_id, hash) = elim (get source_id reference) as (λ _. List Difference) [
  | none ↦ adds source_id ∷ []
  | some recorded ↦ (if same_hash recorded hash then [] else changes source_id ∷ [])
]

unfoldable pub dropped : Hashes → String × Option Bytes → List Difference
dropped head (source_id, recorded) = if has source_id head then [] else drops source_id ∷ []

-- `_differences`
unfoldable pub differences : Hashes → Hashes → List Difference
unfolding added dropped
differences head reference =
    concat_map (added reference) head ++ concat_map (dropped head) reference

same_hash_iff : (h k : Option Bytes) → (same_hash h k ≡ true) ↔ (h ≡ k)
same_hash_iff none none = (λ _. refl, λ _. refl)
same_hash_iff none (some k) = (λ e. cc, λ e. cc)
same_hash_iff (some h) none = (λ e. cc, λ e. cc)
same_hash_iff (some h) (some k) =
    (λ e. ap some ((bytes_beq_iff h k).0 e), λ e. (bytes_beq_iff h k).1 (some_injective e))

added-nil :
    (reference : Hashes) (source_id : String) (hash : Option Bytes)
    → (added reference (source_id, hash) ≡ []) ↔ (get source_id reference ≡ some hash)
unfolding added
added-nil reference source_id hash = go (get source_id reference)
  where
    clash : {b : Bool} → b ≡ true → b ≡ false → ⊥
    clash p q = cc

    go :
        (o : Option (Option Bytes))
        → ((elim o as (λ _. List Difference) [
          | none ↦ adds source_id ∷ []
          | some recorded ↦ (if same_hash recorded hash then [] else changes source_id ∷ [])
        ])
            ≡ [])
          ↔ (o ≡ some hash)
    go none = (λ e. cc, λ e. cc)
    go (some recorded) = elim (Bool-cases (same_hash recorded hash)) [
      | inl t ↦ rw t (λ e. ap some ((same_hash_iff recorded hash).0 t), λ e. refl)
      | inr f ↦
          rw f (λ e. cc, λ e. absurd (clash ((same_hash_iff recorded hash).1 (some_injective e)) f))
    ]

dropped-nil :
    (head : Hashes) (source_id : String) (recorded : Option Bytes)
    → (dropped head (source_id, recorded) ≡ []) ↔ (has source_id head ≡ true)
unfolding dropped
dropped-nil head source_id recorded = elim (Bool-cases (has source_id head)) [
  | inl t ↦ rw t (λ e. refl, λ e. refl)
  | inr f ↦ rw f (λ e. cc, λ e. cc)
]

append-nil_cases : (xs ys : List Difference) → xs ++ ys ≡ [] → (xs ≡ []) × (ys ≡ [])
append-nil_cases [] ys h = (refl, h)
append-nil_cases (x ∷ xs) ys h = cc

has-some : (s : String) (d : Hashes) (h : Option Bytes) → get s d ≡ some h → has s d ≡ true
unfolding get
has-some s [] h e = cc
has-some s ((j, v) ∷ d) h e = elim (Bool-cases (j == s)) [
  | inl t ↦ ground (arith, t)
  | inr f ↦ let r = has-some s d h (rw f at e) in ground (arith, r)
]

-- There is no difference exactly where HEAD and the reference have the same sources, each with the
-- same hash or none in both; where each source stands once in either.
pub differences-nil :
    (head reference : Hashes)
    → Distinct head
    → Distinct reference
    → (differences head reference ≡ [])
      ↔ ((source_id : String) → get source_id head ≡ get source_id reference)
unfolding differences
differences-nil head reference d r = (
  λ e.
      let (p, q) =
        append-nil_cases (concat_map (added reference) head) (concat_map (dropped head) reference)
          e in
      let a = (concat_map-eq-nil (added reference) head).0 p in
      let b = (concat_map-eq-nil (dropped head) reference).0 q in
      λ s. there s a b (get s head) refl,
  λ k.
      ap (λ l. l ++ concat_map (dropped head) reference)
        ((concat_map-eq-nil (added reference) head).1
          (λ x m. (added-nil reference x.0 x.1).1 (sym (k x.0) ∙ In-get x.0 x.1 head d m)))
      ∙ (concat_map-eq-nil (dropped head) reference).1 (λ x m.
          (dropped-nil head x.0 x.1).1
            (has-some x.0 head x.1 (k x.0 ∙ In-get x.0 x.1 reference r m))),
)
  where
    clash : {b : Bool} → b ≡ true → b ≡ false → ⊥
    clash p q = cc

    there :
        (s : String)
        → ((x : String × Option Bytes) → In x head → added reference x ≡ [])
        → ((x : String × Option Bytes) → In x reference → dropped head x ≡ [])
        → (o : Option (Option Bytes)) → get s head ≡ o
        → get s head ≡ get s reference
    there s a b (some h) e = e ∙ sym ((added-nil reference s h).0 (a (s, h) (get-In s h head e)))
    there s a b none e = e ∙ sym (absent (get s reference) refl)
      where
        absent : (o : Option (Option Bytes)) → get s reference ≡ o → get s reference ≡ none
        absent none p = p
        absent (some h) p =
            let t = (dropped-nil head s h).0 (b (s, h) (get-In s h reference p)) in
            let (v, q) = has-get s head t in cc
