-- ===== src/Check/Reads.antt =====
-- check.py: what it is for storage of one shape to read back as another, said without an algorithm.
use josuke.Prelude.{ℕ, ◌≤◌, ◌≡◌, Bool, false, some, String, List, [], ◌∷◌, length, take, In}
use josuke.Prelude.Eq.{string_eq, nat_eq}
use josuke.Prelude.Dict.{get}
use josuke.Check.{
  Member, Node, mapping, bytes, dynamic_array, struct, array, enum, function, value, Shape, size_of,
  get_elem?, was_at,
}

-- Members that stand one under another: at one place, of related types, and under one label where
-- there is to be no renaming.
abbrev pub Paired : (ℕ → ℕ → Type 0) → Bool → List Member → List Member → Type 0
Paired R renamed [] ms' = Unit
Paired R renamed (m ∷ ms) [] = Unit
Paired R renamed (m ∷ ms) (m' ∷ ms') =
    (m.slot ≡ m'.slot)
    × (m.offset ≡ m'.offset)
    × R m.kind m'.kind
    × (renamed ≡ false → m.label ≡ m'.label)
    × Paired R renamed ms ms'

-- No label of the old members stands at another place.
abbrev pub InPlace : List Member → List Member → Type 0
InPlace ms ms' =
    (m : Member)
    → In m ms'
    → (slot offset : ℕ) → get m.label (was_at ms []) ≡ some (slot, offset)
    → (slot ≡ m.slot) × (offset ≡ m.offset)

-- Elements of related types and one stride.
abbrev pub SameStride : (ℕ → ℕ → Type 0) → Shape → Shape → ℕ → ℕ → Type 0
SameStride R old new base base' =
    (x : Node) × (y : Node) × (get_elem? base old ≡ some x)
    × (get_elem? base' new ≡ some y)
    × (size_of x ≡ size_of y)
    × R base base'

-- A node reads back as another, where related types inside do; it has not grown and no member is
-- renamed where `grown` and `renamed` are false.
abbrev pub Compatible : (ℕ → ℕ → Type 0) → Shape → Shape → Bool → Bool → Node → Node → Type 0
Compatible R old new grown renamed (mapping size k v) b =
    (size' : ℕ) × (k' : ℕ) × (v' : ℕ) × (b ≡ mapping size' k' v') × R k k' × R v v'
Compatible R old new grown renamed (dynamic_array size base) b =
    (size' : ℕ) × (base' : ℕ) × (b ≡ dynamic_array size' base')
    × (size ≤ size')
    × SameStride R old new base base'
Compatible R old new grown renamed (array size base count) b =
    (size' : ℕ) × (base' : ℕ) × (count' : ℕ) × (b ≡ array size' base' count')
    × (size ≤ size')
    × SameStride R old new base base'
    × (count ≤ count')
    × (grown ≡ false → count ≡ count')
Compatible R old new grown renamed (enum size ms) b =
    (ms' : List String) × (b ≡ enum size ms')
    × (ms ≡ take (length ms) ms')
    × (grown ≡ false → length ms' ≤ length ms)
Compatible R old new grown renamed (struct size ms) b =
    (size' : ℕ) × (ms' : List Member) × (b ≡ struct size' ms')
    × (length ms ≤ length ms')
    × InPlace ms ms'
    × Paired R renamed ms ms'
    × (grown ≡ false → (size ≡ size') × (length ms' ≤ length ms))
Compatible R old new grown renamed (bytes size) b = b ≡ bytes size
Compatible R old new grown renamed (function size internal) b = b ≡ function size internal
Compatible R old new grown renamed (value size label) b = b ≡ value size label

-- A relation of the two shapes' nodes under which related nodes read back.
abbrev pub Simulates : (ℕ → ℕ → Type 0) → Shape → Shape → Bool → Bool → Type 0
Simulates R old new grown renamed =
    (o n : ℕ)
    → R o n
    → (a : Node) × (b : Node) × (get_elem? o old ≡ some a)
      × (get_elem? n new ≡ some b)
      × Compatible R old new grown renamed a b

-- The variable of type `old` reads back as one of type `new`.
abbrev pub ReadsBack : Shape → Shape → Bool → Bool → Type 1
ReadsBack old new grown renamed = (R : ℕ → ℕ → Type 0) × Simulates R old new grown renamed × R 0 0

module _ (R S : ℕ → ℕ → Type 0) (old new : Shape) (g r g' r' : Bool)
    (wider : (o n : ℕ) → R o n → S o n) (quiet_g : g' ≡ false → g ≡ false)
    (quiet_r : r' ≡ false → r ≡ false) where
  pub Paired-wider : (ms ms' : List Member) → Paired R r ms ms' → Paired S r' ms ms'
  Paired-wider [] ms' h = tt
  Paired-wider (m ∷ ms) [] h = tt
  Paired-wider (m ∷ ms) (m' ∷ ms') (a, b, c, d, e) =
      (a, b, wider m.kind m'.kind c, λ q. d (quiet_r q), Paired-wider ms ms' e)

  pub Compatible-wider :
      (a b : Node) → Compatible R old new g r a b → Compatible S old new g' r' a b
  Compatible-wider (mapping size k v) b (z, k', v', e, p, q) =
      (z, k', v', e, wider k k' p, wider v v' q)
  Compatible-wider (dynamic_array size base) b (z, base', e, l, (x, y, p, q, t, h)) =
      (z, base', e, l, (x, y, p, q, t, wider base base' h))
  Compatible-wider (array size base count) b (z, base', c, e, l, (x, y, p, q, t, h), m, k) =
      (z, base', c, e, l, (x, y, p, q, t, wider base base' h), m, λ u. k (quiet_g u))
  Compatible-wider (enum size ms) b (ms', e, p, k) = (ms', e, p, λ u. k (quiet_g u))
  Compatible-wider (struct size ms) b (z, ms', e, l, i, p, k) =
      (z, ms', e, l, i, Paired-wider ms ms' p, λ u. k (quiet_g u))
  Compatible-wider (bytes size) b h = h
  Compatible-wider (function size internal) b h = h
  Compatible-wider (value size label) b h = h
