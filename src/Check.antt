-- ===== src/Check.antt =====
-- src/josuke/check.py: the shape of a variable's type, a graph whose nodes name each other by index,
-- and whether storage of one shape reads back as another (`_fit`).
pub mod Ends
pub mod Complete
pub mod Reads
pub mod Compare
pub mod Dedupe
pub mod Passes
pub mod History
pub mod Storage
pub mod Staged
pub mod Declared
pub mod States
pub mod Recorded
pub mod Overlaps
pub mod Kinds
pub mod Sound
mod Tests
use josuke.Prelude.{
  ℕ, zero, suc, ◌+◌, ◌*◌, ◌≡◌, Bool, true, false, ◌&&◌, ◌||◌, not, Option, none, some, String, List,
  [], ◌∷◌, length, take, ltb, nat_beq, if◌then◌else◌,
}
use josuke.Prelude.Eq.{Eq, ◌==◌, string_eq, nat_eq}
use josuke.Prelude.Dict.{Dict, get, put}

-- A member of a struct: its label, slot and offset, and the index of its type.
pub record Member : Type 0 where
  pub label : String
  pub slot : ℕ
  pub offset : ℕ
  pub kind : ℕ

-- The nodes that `_shape` makes. A size comes first; a type inside is the index of its node.
pub data Node : Type 0 where
  mapping : ℕ → ℕ → ℕ → Node
  bytes : ℕ → Node
  dynamic_array : ℕ → ℕ → Node
  struct : ℕ → List Member → Node
  array : ℕ → ℕ → ℕ → Node
  enum : ℕ → List String → Node
  function : ℕ → Bool → Node
  value : ℕ → String → Node

abbrev pub Shape : Type 0
Shape = List Node

-- t[1]
abbrev pub size_of : Node → ℕ
size_of (mapping size k v) = size
size_of (bytes size) = size
size_of (dynamic_array size base) = size
size_of (struct size ms) = size
size_of (array size base count) = size
size_of (enum size ms) = size
size_of (function size internal) = size
size_of (value size label) = size

abbrev pub get_elem? : ℕ → Shape → Option Node
get_elem? i [] = none
get_elem? zero (a ∷ shape) = some a
get_elem? (suc i) (a ∷ shape) = get_elem? i shape

-- `compared`, and whether the notes hold "grown" and "renamed".
pub record Notes : Type 0 where
  pub compared : List (ℕ × ℕ)
  pub grown : Bool
  pub renamed : Bool

-- What a comparison comes to: true, false, an `IndexError`, or a recursion out of fuel.
pub data Fit : Type 0 where
  reads : Notes → Fit
  differs : Notes → Fit
  out_of_range : Fit
  stuck : Fit

abbrev pub Compare : Type 0
Compare = ℕ → ℕ → Notes → Fit

-- `x and y`
unfoldable pub and_then : Fit → (Notes → Fit) → Fit
and_then (reads s) next = next s
and_then (differs s) next = differs s
and_then out_of_range next = out_of_range
and_then stuck next = stuck

abbrev pub require : Bool → Notes → Fit
require test s = if test then reads s else differs s

abbrev pub grow : Bool → Notes → Notes
grow test s = if test then record s { grown = true } else s

abbrev pub rename : Bool → Notes → Notes
rename test s = if test then record s { renamed = true } else s

abbrev pub was_compared : ℕ → ℕ → List (ℕ × ℕ) → Bool
was_compared o n [] = false
was_compared o n ((i, j) ∷ pairs) = (nat_beq i o && nat_beq j n) || was_compared o n pairs

abbrev pub texts_beq : List String → List String → Bool
texts_beq [] [] = true
texts_beq [] (y ∷ ys) = false
texts_beq (x ∷ xs) [] = false
texts_beq (x ∷ xs) (y ∷ ys) = x == y && texts_beq xs ys

-- The node as one of a kind, where it is one.
abbrev pub as_mapping : Node → Option (ℕ × ℕ × ℕ)
as_mapping (mapping size k v) = some (size, k, v)
as_mapping _ = none

abbrev pub as_dynamic : Node → Option (ℕ × ℕ)
as_dynamic (dynamic_array size base) = some (size, base)
as_dynamic _ = none

abbrev pub as_array : Node → Option (ℕ × ℕ × ℕ)
as_array (array size base count) = some (size, base, count)
as_array _ = none

abbrev pub as_enum : Node → Option (ℕ × List String)
as_enum (enum size ms) = some (size, ms)
as_enum _ = none

abbrev pub as_struct : Node → Option (ℕ × List Member)
as_struct (struct size ms) = some (size, ms)
as_struct _ = none

abbrev pub is_leaf : Node → Node → Bool
is_leaf (bytes size) (bytes size') = nat_beq size size'
is_leaf (function size true) (function size' true) = nat_beq size size'
is_leaf (function size false) (function size' false) = nat_beq size size'
is_leaf (value size label) (value size' label') = nat_beq size size' && label == label'
is_leaf _ _ = false

-- Arrays: one stride, no fewer bytes, and elements that read back.
unfoldable pub elements : Compare → Shape → Shape → ℕ → ℕ → ℕ → ℕ → Notes → Fit
elements call old new size base size' base' s = elim (get_elem? base old) as (λ _. Fit) [
  | none ↦ out_of_range
  | some x ↦ (elim (get_elem? base' new) as (λ _. Fit) [
    | none ↦ out_of_range
    | some y ↦
        (if not (nat_beq (size_of x) (size_of y)) || ltb size' size
          then differs s
          else call base base' s)
  ])
]

-- `was_at`: the last place of each label.
unfoldable pub was_at : List Member → Dict String (ℕ × ℕ) → Dict String (ℕ × ℕ)
was_at [] d = d
was_at (m ∷ ms) d = was_at ms (put m.label (m.slot, m.offset) d)

abbrev pub elsewhere : Dict String (ℕ × ℕ) → Member → Bool
elsewhere d m = elim (get m.label d) [
  | some (slot, offset) ↦ not (nat_beq slot m.slot && nat_beq offset m.offset)
  | none ↦ false
]

unfoldable pub any_elsewhere : Dict String (ℕ × ℕ) → List Member → Bool
any_elsewhere d [] = false
any_elsewhere d (m ∷ ms) = elsewhere d m || any_elsewhere d ms

-- The loop over the members of both structs.
unfoldable pub members : Compare → List Member → List Member → Notes → Fit
unfolding and_then
members call [] ms s = reads s
members call (m ∷ ms) [] s = reads s
members call (m ∷ ms) (m' ∷ ms') s =
    let rest = λ (s' : Notes). members call ms ms' (rename (not (m.label == m'.label)) s') in
    if not (nat_beq m.slot m'.slot && nat_beq m.offset m'.offset)
    then differs s
    else and_then (call m.kind m'.kind s) rest

-- The comparison of two nodes; `call` is the comparison of the types inside them.
unfoldable pub visit : Compare → Shape → Shape → Node → Node → Notes → Fit
unfolding and_then elements members any_elsewhere was_at
visit call old new (mapping size k v) b s = elim (as_mapping b) as (λ _. Fit) [
  | some (size', k', v') ↦ and_then (call k k' s) (call v v')
  | none ↦ differs s
]
visit call old new (dynamic_array size base) b s = elim (as_dynamic b) as (λ _. Fit) [
  | some (size', base') ↦ elements call old new size base size' base' s
  | none ↦ differs s
]
visit call old new (array size base count) b s = elim (as_array b) as (λ _. Fit) [
  | some (size', base', count') ↦
      and_then (elements call old new size base size' base' s)
        (λ s'. if ltb count' count then differs s' else reads (grow (ltb count count') s'))
  | none ↦ differs s
]
visit call old new (enum size ms) b s = elim (as_enum b) as (λ _. Fit) [
  | some (size', ms') ↦
      (if not (nat_beq size size') || not (texts_beq ms (take (length ms) ms'))
        then differs s
        else reads (grow (ltb (length ms) (length ms')) s))
  | none ↦ differs s
]
visit call old new (struct size ms) b s = elim (as_struct b) as (λ _. Fit) [
  | some (size', ms') ↦
      (if ltb (length ms') (length ms) || any_elsewhere (was_at ms []) ms'
        then differs s
        else and_then (members call ms ms' s)
            (λ s'. reads (grow (not (nat_beq size size') || ltb (length ms) (length ms')) s')))
  | none ↦ differs s
]
visit call old new (bytes size) b s = require (is_leaf (bytes size) b) s
visit call old new (function size internal) b s = require (is_leaf (function size internal) b) s
visit call old new (value size label) b s = require (is_leaf (value size label) b) s

abbrev pub mark : ℕ → ℕ → Notes → Notes
mark o n s = record s { compared = (o, n) ∷ s.compared }

-- `a, b = old[old_id], new[new_id]`, and the comparison of the two.
unfoldable pub open_pair : Compare → Shape → Shape → ℕ → ℕ → Notes → Fit
unfolding visit
open_pair call old new o n s = elim (get_elem? o old) as (λ _. Fit) [
  | none ↦ out_of_range
  | some a ↦ (elim (get_elem? n new) as (λ _. Fit) [
    | none ↦ out_of_range
    | some b ↦ visit call old new a b s
  ])
]

unfoldable pub fits : ℕ → Shape → Shape → Compare
unfolding open_pair
fits zero old new o n s = stuck
fits (suc fuel) old new o n s =
    let call = fits fuel old new in
    if was_compared o n s.compared then reads s else open_pair call old new o n (mark o n s)

abbrev pub no_notes : Notes
no_notes = record { compared = []; grown = false; renamed = false }

-- `_fit`, with its notes. Every call but the last of a branch compares a pair for the first time.
unfoldable pub fit : Shape → Shape → Fit
unfolding fits
fit old new = fits (length old * length new + 1) old new 0 0 no_notes

-- Whether there is no note, where the shape reads back.
abbrev pub is_plain : Fit → Bool
is_plain (reads s) = not s.grown && not s.renamed
is_plain _ = false

abbrev pub is_reads : Fit → Bool
is_reads (reads s) = true
is_reads _ = false

-- `_same_shape`
unfoldable pub same_shape : Shape → Shape → Bool
unfolding fit
same_shape a b = is_plain (fit a b) && is_plain (fit b a)
