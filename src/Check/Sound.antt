-- ===== src/Check/Sound.antt =====
-- check.py: where `_fit` returns true, what it compared is a relation under which the shapes read back.
use josuke.Prelude.{
  ℕ, zero, suc, ◌+◌, ◌*◌, ◌≤◌, ◌≡◌, refl, sym, subst, ap, ◌∙◌, ◌⊎◌, inl, inr, Bool, true, false,
  ◌&&◌, ◌||◌, not, Option, none, some, String, List, [], ◌∷◌, length, take, ltb, nat_beq,
  nat_beq_iff, if◌then◌else◌, if_cases, Bool-cases, arith, In,
}
use josuke.Prelude.Eq.{◌==◌, string_eq, nat_eq}
use josuke.Prelude.Dict.{Dict, get, some_injective}
use josuke.Check.{
  Member, Node, mapping, bytes, dynamic_array, struct, array, enum, function, value, Shape, size_of,
  get_elem?, was_at, Notes, Fit, reads, differs, out_of_range, stuck, Compare, and_then, require,
  grow, rename, was_compared, texts_beq, as_mapping, as_dynamic, as_array, as_enum, as_struct,
  is_leaf, elements, elsewhere, any_elsewhere, members, visit, mark, open_pair, fits, fit, no_notes,
}
use josuke.Check.Kinds.{
  as_mapping-some, as_dynamic-some, as_array-some, as_enum-some, as_struct-some, is_leaf-same_bytes,
  is_leaf-same_value, is_leaf-same_function, texts-beq_eq,
}
use josuke.Check.Reads.{Paired, SameStride, Compatible, ReadsBack, Compatible-wider}

abbrev pub Seen : Notes → ℕ → ℕ → Type 0
Seen s o n = was_compared o n s.compared ≡ true

abbrev pub Done : Shape → Shape → Notes → ℕ → ℕ → Type 0
Done old new s o n =
    (a : Node) × (b : Node) × (get_elem? o old ≡ some a)
    × (get_elem? n new ≡ some b)
    × Compatible (Seen s) old new s.grown s.renamed a b

-- From `s` to `s'` nothing is forgotten, and what was compared reads back.
pub record Visited (old : Shape) (new : Shape) (s : Notes) (s' : Notes) : Type 0 where
  pub kept : (o n : ℕ) → Seen s o n → Seen s' o n
  pub quiet_grown : s'.grown ≡ false → s.grown ≡ false
  pub quiet_renamed : s'.renamed ≡ false → s.renamed ≡ false
  pub done : (o n : ℕ) → Seen s' o n → Seen s o n ⊎ Done old new s' o n

reads_injective : {s s' : Notes} → reads s ≡ reads s' → s ≡ s'
reads_injective h = cc

and_then-reads :
    (f : Fit) (next : Notes → Fit) (s' : Notes)
    → and_then f next ≡ reads s'
    → (s : Notes) × (f ≡ reads s) × (next s ≡ reads s')
unfolding and_then
and_then-reads (reads s) next s' h = (s, refl, h)
and_then-reads (differs s) next s' h = cc
and_then-reads out_of_range next s' h = cc
and_then-reads stuck next s' h = cc

module _ (old new : Shape) where
  pub Visited-refl : (s : Notes) → Visited old new s s
  Visited-refl s = record {
    kept = λ o n h. h;
    quiet_grown = λ h. h;
    quiet_renamed = λ h. h;
    done = λ o n h. inl h;
  }

  pub Visited-trans :
      (s t u : Notes) → Visited old new s t → Visited old new t u → Visited old new s u
  Visited-trans s t u v w = record {
    kept = λ o n h. w.kept o n (v.kept o n h);
    quiet_grown = λ h. v.quiet_grown (w.quiet_grown h);
    quiet_renamed = λ h. v.quiet_renamed (w.quiet_renamed h);
    done = λ o n h. elim (w.done o n h) [
      | inr d ↦ inr d
      | inl k ↦ elim (v.done o n k) [
        | inl b ↦ inl b
        | inr (a, b, p, q, c) ↦ inr (
          a,
          b,
          p,
          q,
          Compatible-wider (Seen t) (Seen u) old new t.grown t.renamed u.grown u.renamed w.kept
              w.quiet_grown w.quiet_renamed a b c,
        )
      ]
    ];
  }

  -- Notes that differ in the flags alone.
  Visited-flags :
      (s t : Notes)
      → t.compared ≡ s.compared
      → (t.grown ≡ false → s.grown ≡ false)
      → (t.renamed ≡ false → s.renamed ≡ false)
      → Visited old new s t
  Visited-flags s t e g r = record {
    kept = λ o n h. ap (was_compared o n) e ∙ h;
    quiet_grown = g;
    quiet_renamed = r;
    done = λ o n h. inl (sym (ap (was_compared o n) e) ∙ h);
  }

  Visited-grow : (test : Bool) (s : Notes) → Visited old new s (grow test s)
  Visited-grow true s = Visited-flags s (grow true s) refl (λ h. cc) (λ h. h)
  Visited-grow false s = Visited-refl s

  pub Visited-rename : (test : Bool) (s : Notes) → Visited old new s (rename test s)
  Visited-rename true s = Visited-flags s (rename true s) refl (λ h. h) (λ h. cc)
  Visited-rename false s = Visited-refl s

  -- What a comparison promises where it returns true.
  abbrev pub Sound : Compare → Type 0
  Sound call = (o n : ℕ) (s s' : Notes) → call o n s ≡ reads s' → Visited old new s s' × Seen s' o n

  -- A node's comparison, with the notes that it leaves.
  abbrev Reads : Notes → Notes → Node → Node → Type 0
  Reads s s' a b = Visited old new s s' × Compatible (Seen s') old new s'.grown s'.renamed a b

  pub elements-Sound :
      (call : Compare) (size base size' base' : ℕ) (s s' : Notes)
      → Sound call
      → elements call old new size base size' base' s ≡ reads s'
      → Visited old new s s' × (size ≤ size') × SameStride (Seen s') old new base base'
  unfolding elements
  elements-Sound call size base size' base' s s' c h = go (get_elem? base old) refl h
    where
      go :
          (o : Option Node)
          → get_elem? base old ≡ o
          → (elim o as (λ _. Fit) [
            | none ↦ out_of_range
            | some x ↦ (elim (get_elem? base' new) as (λ _. Fit) [
              | none ↦ out_of_range
              | some y ↦
                  (if not (nat_beq (size_of x) (size_of y)) || ltb size' size
                    then differs s
                    else call base base' s)
            ])
          ])
            ≡ reads s'
          → Visited old new s s' × (size ≤ size') × SameStride (Seen s') old new base base'
      go none e k = cc
      go (some x) e k = deep (get_elem? base' new) refl k
        where
          deep :
              (o : Option Node)
              → get_elem? base' new ≡ o
              → (elim o as (λ _. Fit) [
                | none ↦ out_of_range
                | some y ↦
                    (if not (nat_beq (size_of x) (size_of y)) || ltb size' size
                      then differs s
                      else call base base' s)
              ])
                ≡ reads s'
              → Visited old new s s' × (size ≤ size') × SameStride (Seen s') old new base base'
          deep none f l = cc
          deep (some y) f l =
              elim (if_cases (not (nat_beq (size_of x) (size_of y)) || ltb size' size) (differs s) _
                l) [
                  | inl (_, m) ↦ cc
                  | inr (t, m) ↦
                      let (v, w) = c base base' s s' m in
                      (v, ground (arith, t), (x, y, e, f, ground (arith, t), w))
                ]

  pub members-Sound :
      (call : Compare) (ms ms' : List Member) (s s' : Notes)
      → Sound call
      → members call ms ms' s ≡ reads s'
      → Visited old new s s' × Paired (Seen s') s'.renamed ms ms'
  unfolding members
  members-Sound call [] ms' s s' c h =
      (subst (Visited old new s) (reads_injective h) (Visited-refl s), tt)
  members-Sound call (m ∷ ms) [] s s' c h =
      (subst (Visited old new s) (reads_injective h) (Visited-refl s), tt)
  members-Sound call (m ∷ ms) (m' ∷ ms') s s' c h =
      elim (if_cases (not (nat_beq m.slot m'.slot && nat_beq m.offset m'.offset)) (differs s) _ h) [
        | inl (_, k) ↦ cc
        | inr (t, k) ↦
            let (s1, p, q) = and_then-reads (call m.kind m'.kind s) _ s' k in
            let (v, n) = c m.kind m'.kind s s1 p in
            let s2 : Notes = rename (not (m.label == m'.label)) s1 in
            let (w, l) = members-Sound call ms ms' s2 s' c q in
            let r = Visited-rename (not (m.label == m'.label)) s1 in
            let u = Visited-trans s1 s2 s' r w in
            (
              Visited-trans s s1 s' v u,
              (
                ground (arith, t),
                ground (arith, t),
                u.kept m.kind m'.kind n,
                (λ e. named s1 (w.quiet_renamed e)),
                l,
              ),
            )
      ]
    where
      named :
          (s1 : Notes)
          → (rename (not (m.label == m'.label)) s1).renamed ≡ false
          → m.label ≡ m'.label
      named s1 e = elim (Bool-cases (m.label == m'.label)) [
        | inl y ↦ (string_eq.same_iff m.label m'.label).0 y
        | inr y ↦ absurd (clash (rw y at e))
      ]
        where
          clash : true ≡ false → ⊥
          clash x = cc

  elsewhere-place :
      (d : Dict String (ℕ × ℕ)) (m : Member) (slot offset : ℕ)
      → elsewhere d m ≡ false
      → get m.label d ≡ some (slot, offset)
      → (slot ≡ m.slot) × (offset ≡ m.offset)
  elsewhere-place d m slot offset h g = go (get m.label d) g h
    where
      go :
          (o : Option (ℕ × ℕ))
          → o ≡ some (slot, offset)
          → (elim o as (λ _. Bool) [
            | some (i, j) ↦ not (nat_beq i m.slot && nat_beq j m.offset)
            | none ↦ false
          ])
            ≡ false
          → (slot ≡ m.slot) × (offset ≡ m.offset)
      go none e t = cc
      go (some (i, j)) e t =
          let p = some_injective e in
          (
            sym (ap (λ (x : ℕ × ℕ). x.0) p) ∙ ground (arith, t),
            sym (ap (λ (x : ℕ × ℕ). x.1) p) ∙ ground (arith, t),
          )

  any_elsewhere-InPlace :
      (d : Dict String (ℕ × ℕ)) (ms' : List Member)
      → any_elsewhere d ms' ≡ false
      → (m : Member) → In m ms'
      → (slot offset : ℕ) → get m.label d ≡ some (slot, offset)
      → (slot ≡ m.slot) × (offset ≡ m.offset)
  unfolding any_elsewhere
  any_elsewhere-InPlace d [] h m i slot offset g = absurd i
  any_elsewhere-InPlace d (x ∷ ms') h m (inr i) slot offset g =
      any_elsewhere-InPlace d ms' (ground (arith, h)) m i slot offset g
  any_elsewhere-InPlace d (x ∷ ms') h m (inl e) slot offset g =
      elsewhere-place d m slot offset
        (subst (λ y. elsewhere d y ≡ false) (sym e) (ground (arith, h))) g

  require-reads :
      (test : Bool) (s s' : Notes) → require test s ≡ reads s' → (test ≡ true) × (s ≡ s')
  require-reads true s s' h = (refl, reads_injective h)
  require-reads false s s' h = cc

  -- Where nothing has grown, nothing grew here.
  grow-grown : (test : Bool) (s : Notes) → (grow test s).grown ≡ false → test ≡ false
  grow-grown true s h = cc
  grow-grown false s h = refl

  SameStride-wider :
      (s t : Notes) (base base' : ℕ)
      → Visited old new s t
      → SameStride (Seen s) old new base base'
      → SameStride (Seen t) old new base base'
  SameStride-wider s t base base' v (x, y, p, q, e, h) = (x, y, p, q, e, v.kept base base' h)

  Paired-grow :
      (ms ms' : List Member) (test : Bool) (s : Notes)
      → Paired (Seen s) s.renamed ms ms'
      → Paired (Seen (grow test s)) (grow test s).renamed ms ms'
  Paired-grow ms ms' true s h = h
  Paired-grow ms ms' false s h = h

  visit-Sound :
      (call : Compare) (a b : Node) (s s' : Notes)
      → Sound call
      → visit call old new a b s ≡ reads s'
      → Reads s s' a b
  unfolding visit
  visit-Sound call (mapping size k v) b s s' c h = go (as_mapping b) refl h
    where
      go :
          (o : Option (ℕ × ℕ × ℕ))
          → as_mapping b ≡ o
          → (elim o as (λ _. Fit) [
            | some (size', k', v') ↦ and_then (call k k' s) (call v v')
            | none ↦ differs s
          ])
            ≡ reads s'
          → Reads s s' (mapping size k v) b
      go none e l = cc
      go (some (z, k', v')) e l =
          let (s1, p, q) = and_then-reads (call k k' s) (call v v') s' l in
          let (x, n) = c k k' s s1 p in
          let (y, m) = c v v' s1 s' q in
          (Visited-trans s s1 s' x y, (z, k', v', as_mapping-some b z k' v' e, y.kept k k' n, m))
  visit-Sound call (dynamic_array size base) b s s' c h = go (as_dynamic b) refl h
    where
      go :
          (o : Option (ℕ × ℕ))
          → as_dynamic b ≡ o
          → (elim o as (λ _. Fit) [
            | some (size', base') ↦ elements call old new size base size' base' s
            | none ↦ differs s
          ])
            ≡ reads s'
          → Reads s s' (dynamic_array size base) b
      go none e l = cc
      go (some (z, base')) e l =
          let (v, p, q) = elements-Sound call size base z base' s s' c l in
          (v, (z, base', as_dynamic-some b z base' e, p, q))
  visit-Sound call (bytes size) b s s' c h =
      let (t, e) = require-reads (is_leaf (bytes size) b) s s' h in
      (subst (Visited old new s) e (Visited-refl s), is_leaf-same_bytes size b t)
  visit-Sound call (value size label) b s s' c h =
      let (t, e) = require-reads (is_leaf (value size label) b) s s' h in
      (subst (Visited old new s) e (Visited-refl s), is_leaf-same_value size label b t)
  visit-Sound call (function size internal) b s s' c h =
      let (t, e) = require-reads (is_leaf (function size internal) b) s s' h in
      (subst (Visited old new s) e (Visited-refl s), is_leaf-same_function size internal b t)
  visit-Sound call (array size base count) b s s' c h = go (as_array b) refl h
    where
      go :
          (o : Option (ℕ × ℕ × ℕ))
          → as_array b ≡ o
          → (elim o as (λ _. Fit) [
            | some (size', base', count') ↦
                and_then
                  (elements call old new size base size' base' s)
                  (λ t. if ltb count' count then differs t else reads (grow (ltb count count') t))
            | none ↦ differs s
          ])
            ≡ reads s'
          → Reads s s' (array size base count) b
      go none e l = cc
      go (some (z, base', n)) e l =
          let (s1, p, q) = and_then-reads (elements call old new size base z base' s) _ s' l in
          let (v, x, y) = elements-Sound call size base z base' s s1 c p in
          elim (if_cases (ltb n count) (differs s1) _ q) [
            | inl (_, r) ↦ cc
            | inr (t, r) ↦
                subst (λ u. Reads s u (array size base count) b) (reads_injective r)
                  (
                    Visited-trans s s1 (grow (ltb count n) s1) v (Visited-grow (ltb count n) s1),
                    (
                      z,
                      base',
                      n,
                      as_array-some b z base' n e,
                      x,
                      SameStride-wider s1 (grow (ltb count n) s1) base base'
                          (Visited-grow (ltb count n) s1) y,
                      ground (arith, t),
                      λ w. ground (arith, t, grow-grown (ltb count n) s1 w),
                    ),
                  )
          ]
  visit-Sound call (enum size ms) b s s' c h = go (as_enum b) refl h
    where
      go :
          (o : Option (ℕ × List String))
          → as_enum b ≡ o
          → (elim o as (λ _. Fit) [
            | some (size', ms') ↦
                (if not (nat_beq size size') || not (texts_beq ms (take (length ms) ms'))
                  then differs s
                  else reads (grow (ltb (length ms) (length ms')) s))
            | none ↦ differs s
          ])
            ≡ reads s'
          → Reads s s' (enum size ms) b
      go none e l = cc
      go (some (z, ms')) e l =
          elim (if_cases (not (nat_beq size z) || not (texts_beq ms (take (length ms) ms')))
            (differs s) _ l) [
              | inl (_, r) ↦ cc
              | inr (t, r) ↦
                  subst (λ u. Reads s u (enum size ms) b) (reads_injective r)
                    (
                      Visited-grow (ltb (length ms) (length ms')) s,
                      (
                        ms',
                        subst (λ y. b ≡ enum y ms')
                            (sym ((nat_beq_iff size z).0 (ground (arith, t))))
                            (as_enum-some b z ms' e),
                        texts-beq_eq ms (take (length ms) ms') (ground (arith, t)),
                        λ w. ground (arith, t, grow-grown (ltb (length ms) (length ms')) s w),
                      ),
                    )
            ]
  visit-Sound call (struct size ms) b s s' c h = go (as_struct b) refl h
    where
      go :
          (o : Option (ℕ × List Member))
          → as_struct b ≡ o
          → (elim o as (λ _. Fit) [
            | some (size', ms') ↦
                (if ltb (length ms') (length ms) || any_elsewhere (was_at ms []) ms'
                  then differs s
                  else and_then (members call ms ms' s) (λ t.
                    reads (grow (not (nat_beq size size') || ltb (length ms) (length ms')) t)))
            | none ↦ differs s
          ])
            ≡ reads s'
          → Reads s s' (struct size ms) b
      go none e l = cc
      go (some (z, ms')) e l =
          elim (if_cases (ltb (length ms') (length ms) || any_elsewhere (was_at ms []) ms')
            (differs s) _ l) [
              | inl (_, r) ↦ cc
              | inr (t, r) ↦
                  let (s1, p, q) = and_then-reads (members call ms ms' s) _ s' r in
                  let (v, y) = members-Sound call ms ms' s s1 c p in
                  let test : Bool = not (nat_beq size z) || ltb (length ms) (length ms') in
                  subst (λ u. Reads s u (struct size ms) b) (reads_injective q)
                    (
                      Visited-trans s s1 (grow test s1) v (Visited-grow test s1),
                      (
                        z,
                        ms',
                        as_struct-some b z ms' e,
                        ground (arith, t),
                        any_elsewhere-InPlace (was_at ms []) ms' (ground (arith, t)),
                        Paired-grow ms ms' test s1 y,
                        λ w.
                            let k = grow-grown test s1 w in
                            (ground (arith, t, k), ground (arith, t, k)),
                      ),
                    )
            ]

  open_pair-Sound :
      (call : Compare) (o n : ℕ) (s s' : Notes)
      → Sound call
      → open_pair call old new o n s ≡ reads s'
      → Visited old new s s' × Done old new s' o n
  unfolding open_pair
  open_pair-Sound call o n s s' c h = go (get_elem? o old) refl h
    where
      go :
          (x : Option Node)
          → get_elem? o old ≡ x
          → (elim x as (λ _. Fit) [
            | none ↦ out_of_range
            | some a ↦ (elim (get_elem? n new) as (λ _. Fit) [
              | none ↦ out_of_range
              | some b ↦ visit call old new a b s
            ])
          ])
            ≡ reads s'
          → Visited old new s s' × Done old new s' o n
      go none e k = cc
      go (some a) e k = deep (get_elem? n new) refl k
        where
          deep :
              (y : Option Node)
              → get_elem? n new ≡ y
              → (elim y as (λ _. Fit) [ none ↦ out_of_range | some b ↦ visit call old new a b s ])
                ≡ reads s'
              → Visited old new s s' × Done old new s' o n
          deep none f l = cc
          deep (some b) f l = let (v, r) = visit-Sound call a b s s' c l in (v, (a, b, e, f, r))

  was_compared-cons :
      (i j o n : ℕ) (pairs : List (ℕ × ℕ))
      → was_compared i j ((o, n) ∷ pairs) ≡ true
      → ((o ≡ i) × (n ≡ j)) ⊎ (was_compared i j pairs ≡ true)
  was_compared-cons i j o n pairs h = elim (Bool-cases (nat_beq o i && nat_beq n j)) [
    | inl t ↦ inl ((nat_beq_iff o i).0 (ground (arith, t)), (nat_beq_iff n j).0 (ground (arith, t)))
    | inr f ↦ inr (ground (arith, f, h))
  ]

  -- The pair is compared, and reads back.
  mark-Visited :
      (o n : ℕ) (s s' : Notes)
      → Visited old new (mark o n s) s'
      → Done old new s' o n
      → Visited old new s s' × Seen s' o n
  mark-Visited o n s s' v d = (
    record {
      kept = λ i j h. v.kept i j (later i j h);
      quiet_grown = v.quiet_grown;
      quiet_renamed = v.quiet_renamed;
      done = λ i j h. elim (v.done i j h) [
        | inr c ↦ inr c
        | inl k ↦ elim (was_compared-cons i j o n s.compared k) [
          | inl (p, q) ↦
              inr (subst (λ x. Done old new s' x j) p (subst (λ y. Done old new s' o y) q d))
          | inr m ↦ inl m
        ]
      ];
    },
    v.kept o n (ground (arith)),
  )
    where
      later : (i j : ℕ) → Seen s i j → Seen (mark o n s) i j
      later i j h = ground (arith, h)

  pub fits-Sound : (fuel : ℕ) → Sound (fits fuel old new)
  unfolding fits
  fits-Sound zero o n s s' h = cc
  fits-Sound (suc fuel) o n s s' h = elim (if_cases (was_compared o n s.compared) (reads s) _ h) [
    | inl (t, k) ↦
        subst (λ u. Visited old new s u × Seen u o n) (reads_injective k) (Visited-refl s, t)
    | inr (_, k) ↦
        let (v, d) = open_pair-Sound (fits fuel old new) o n (mark o n s) s' (fits-Sound fuel) k in
        mark-Visited o n s s' v d
  ]

-- Where `_fit` returns true, the old shape reads back as the new one; as one that has not grown,
-- or with no member renamed, if the notes do not say so.
pub fit-ReadsBack :
    (old new : Shape) (s : Notes) → fit old new ≡ reads s → ReadsBack old new s.grown s.renamed
unfolding fit
fit-ReadsBack old new s h =
    let (v, k) = fits-Sound old new (length old * length new + 1) 0 0 no_notes s h in
    (Seen s, (λ o n r. elim (v.done o n r) [ inl x ↦ absurd (none_compared x) | inr d ↦ d ]), k)
  where
    none_compared : false ≡ true → ⊥
    none_compared x = cc
