-- ===== src/Check/Complete.antt =====
-- check.py: `_fit` returns true wherever the old shape reads back as the new one.
use josuke.Prelude.{
  ℕ, zero, suc, ◌+◌, ◌*◌, ◌≤◌, ◌≡◌, refl, subst, inl, inr, Bool, true, false, ◌&&◌, ◌||◌, not,
  Option, none, some, String, List, [], ◌∷◌, length, take, ltb, nat_beq, if◌then◌else◌, Bool-cases,
  arith, In,
}
use josuke.Prelude.Eq.{◌==◌, string_eq, nat_eq}
use josuke.Prelude.Dict.{Dict, get}
use josuke.Check.{
  Member, Node, mapping, bytes, dynamic_array, struct, array, enum, function, value, Shape,
  get_elem?, was_at, Notes, Fit, reads, differs, out_of_range, stuck, Compare, and_then, grow,
  rename, was_compared, texts_beq, elements, elsewhere, any_elsewhere, members, visit, mark,
  open_pair, fits, fit, no_notes,
}
use josuke.Check.Reads.{Paired, SameStride, Compatible, Simulates, ReadsBack}
use josuke.Check.Sound.{fit-ReadsBack}
use josuke.Check.Ends.{fit-ne-stuck}

-- Neither false nor an `IndexError`.
abbrev Agrees : Fit → Type 0
Agrees (reads s) = Unit
Agrees (differs s) = ⊥
Agrees out_of_range = ⊥
Agrees stuck = Unit

and_then-Agrees :
    (f : Fit) (next : Notes → Fit)
    → Agrees f
    → ((s : Notes) → Agrees (next s))
    → Agrees (and_then f next)
unfolding and_then
and_then-Agrees (reads s) next a k = k s
and_then-Agrees (differs s) next a k = a
and_then-Agrees out_of_range next a k = a
and_then-Agrees stuck next a k = tt

if-Agrees : (b : Bool) (f g : Fit) → b ≡ false → Agrees g → Agrees (if b then f else g)
if-Agrees true f g e a = cc
if-Agrees false f g e a = a

texts_beq_refl : (xs : List String) → texts_beq xs xs ≡ true
texts_beq_refl [] = refl
texts_beq_refl (x ∷ xs) = ground (arith, (string_eq.same_iff x x).1 refl, texts_beq_refl xs)

module _ (R : ℕ → ℕ → Type 0) (old new : Shape) where
  abbrev Agreeing : Compare → Type 0
  Agreeing call = (o n : ℕ) (s : Notes) → R o n → Agrees (call o n s)

  elements-Agrees :
      (call : Compare) (size base size' base' : ℕ) (s : Notes)
      → Agreeing call
      → size ≤ size'
      → SameStride R old new base base'
      → Agrees (elements call old new size base size' base' s)
  unfolding elements
  elements-Agrees call size base size' base' s c l (x, y, p, q, e, h) =
      rw (p, q, elements)
        (if-Agrees _ (differs s) (call base base' s) (ground (arith, l, e)) (c base base' s h))

  members-Agrees :
      (call : Compare) (ms ms' : List Member) (renamed : Bool) (s : Notes)
      → Agreeing call
      → Paired R renamed ms ms'
      → Agrees (members call ms ms' s)
  unfolding members
  members-Agrees call [] ms' r s c h = tt
  members-Agrees call (m ∷ ms) [] r s c h = tt
  members-Agrees call (m ∷ ms) (m' ∷ ms') r s c (a, b, k, _, t) =
      if-Agrees _ (differs s) _ (ground (arith, a, b)) (
        and_then-Agrees (call m.kind m'.kind s) _ (c m.kind m'.kind s k)
          (λ u. members-Agrees call ms ms' r (rename (not (m.label == m'.label)) u) c t))

  any_elsewhere_lem :
      (d : Dict String (ℕ × ℕ)) (ms' : List Member)
      → ((m : Member)
          → In m ms'
          → (slot offset : ℕ) → get m.label d ≡ some (slot, offset)
          → (slot ≡ m.slot) × (offset ≡ m.offset))
      → any_elsewhere d ms' ≡ false
  unfolding any_elsewhere
  any_elsewhere_lem d [] h = refl
  any_elsewhere_lem d (m ∷ ms') h =
      let ih = any_elsewhere_lem d ms' (λ x i. h x (inr i)) in
      let e : elsewhere d m ≡ false = go (get m.label d) (λ i j. h m (inl refl) i j) in
      ground (arith, ih, e)
    where
      go :
          (o : Option (ℕ × ℕ))
          → ((slot offset : ℕ) → o ≡ some (slot, offset) → (slot ≡ m.slot) × (offset ≡ m.offset))
          → (elim o as (λ _. Bool) [
            | some (i, j) ↦ not (nat_beq i m.slot && nat_beq j m.offset)
            | none ↦ false
          ])
            ≡ false
      go none k = refl
      go (some (i, j)) k = let (p, q) = k i j refl in ground (arith, p, q)

  visit-Agrees :
      (call : Compare) (a b : Node) (grown renamed : Bool) (s : Notes)
      → Agreeing call
      → Compatible R old new grown renamed a b
      → Agrees (visit call old new a b s)
  unfolding visit
  visit-Agrees call (mapping size k v) b g r s c (z, k', v', e, p, q) =
      rw e (and_then-Agrees (call k k' s) (call v v') (c k k' s p) (λ t. c v v' t q))
  visit-Agrees call (dynamic_array size base) b g r s c (z, base', e, l, h) =
      rw e (elements-Agrees call size base z base' s c l h)
  visit-Agrees call (array size base count) b g r s c (z, base', n, e, l, h, m, _) = rw e (
      and_then-Agrees (elements call old new size base z base' s) _
        (elements-Agrees call size base z base' s c l h)
        (λ t. if-Agrees (ltb n count) (differs t) _ (ground (arith, m)) tt))
  visit-Agrees call (enum size ms) b g r s c (ms', e, p, _) = rw e (
      if-Agrees (not (nat_beq size size) || not (texts_beq ms (take (length ms) ms'))) (differs s)
        (reads (grow (ltb (length ms) (length ms')) s))
        (ground (arith, subst (λ x. texts_beq ms x ≡ true) p (texts_beq_refl ms))) tt)
  visit-Agrees call (struct size ms) b g r s c (z, ms', e, l, i, p, _) = rw e (
      if-Agrees (ltb (length ms') (length ms) || any_elsewhere (was_at ms []) ms') (differs s) _
        (ground (arith, l, any_elsewhere_lem (was_at ms []) ms' i))
        (and_then-Agrees (members call ms ms' s) _ (members-Agrees call ms ms' r s c p) (λ t. tt)))
  visit-Agrees call (bytes size) b g r s c e = rw e (ground arith)
  visit-Agrees call (function size true) b g r s c e = rw e (ground arith)
  visit-Agrees call (function size false) b g r s c e = rw e (ground arith)
  visit-Agrees call (value size label) b g r s c e =
      rw (e, (string_eq.same_iff label label).1 refl) (ground arith)

  open_pair-Agrees :
      (call : Compare) (o n : ℕ) (a b : Node) (s : Notes)
      → get_elem? o old ≡ some a
      → get_elem? n new ≡ some b
      → Agrees (visit call old new a b s)
      → Agrees (open_pair call old new o n s)
  unfolding open_pair
  open_pair-Agrees call o n a b s p q h = rw (p, q, open_pair) h

  fits-Agrees :
      (grown renamed : Bool)
      → Simulates R old new grown renamed
      → (fuel : ℕ) → Agreeing (fits fuel old new)
  unfolding fits
  fits-Agrees g r h zero o n s k = tt
  fits-Agrees g r h (suc fuel) o n s k = elim (Bool-cases (was_compared o n s.compared)) [
    | inl t ↦ rw t tt
    | inr f ↦
        let (a, b, p, q, d) = h o n k in
        rw f (
          open_pair-Agrees (fits fuel old new) o n a b (mark o n s) p q
            (visit-Agrees (fits fuel old new) a b g r (mark o n s) (fits-Agrees g r h fuel) d))
  ]

-- What `_fit` comes to: it returns true, with notes under which the old shape reads back, or the old
-- shape does not read back, and it returns false or meets an index out of range.
abbrev pub Fitting : Shape → Shape → Fit → Type 1
Fitting old new (reads s) = ReadsBack old new s.grown s.renamed
Fitting old new (differs s) = (grown renamed : Bool) → ReadsBack old new grown renamed → ⊥
Fitting old new out_of_range = (grown renamed : Bool) → ReadsBack old new grown renamed → ⊥
Fitting old new stuck = (A : Type 0) → A

-- `_fit` ends and decides whether the old shape reads back as the new one: it returns true exactly
-- where some relation of their nodes holds of the two roots and takes related nodes to nodes that
-- read back. The notes that it leaves are right: without "grown" nothing has grown, and without
-- "renamed" no member is renamed.
pub fit-Fitting : (old new : Shape) → Fitting old new (fit old new)
fit-Fitting old new = go (fit old new) refl
  where
    agrees : (g r : Bool) → ReadsBack old new g r → Agrees (fit old new)
    agrees g r (R, h, k) =
        unfold fit in fits-Agrees R old new g r h (length old * length new + 1) 0 0 no_notes k

    go : (f : Fit) → fit old new ≡ f → Fitting old new f
    go (reads s) e = fit-ReadsBack old new s e
    go (differs s) e = λ g r h. subst Agrees e (agrees g r h)
    go out_of_range e = λ g r h. subst Agrees e (agrees g r h)
    go stuck e = λ A. absurd (fit-ne-stuck old new e)
