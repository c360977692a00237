-- ===== src/Check/Overlaps.antt =====
-- check.py: `_check_storage` finds every two facets that declare different variables over one byte.
use josuke.Prelude.{
  ◌≤◌, ◌<◌, ◌≡◌, ◌≢◌, ◌↔◌, refl, sym, subst, ap, ◌∙◌, inl, inr, Bool, true, false, ◌||◌, List, [],
  ◌∷◌, ◌++◌, leb, if◌then◌else◌, Bool-cases, concat_map, In, arith,
}
use josuke.Prelude.Eq.{◌==◌, string_eq, nat_eq}
use josuke.Prelude.Sort.{sort_by, insert_by, In-insert_by_cases}
use josuke.Check.{Shape, same_shape}
use josuke.Check.Storage.{
  Decl, Layouts, declared_by, decl_le, declarations, Message, overlapping, Findings, fail,
  has_message, warn, any_internal, internal_function, warn_internal, same_variable, Compared,
  compare_pair, compare_later, compare_each, check_storage,
}

-- Each declaration starts no later than those after it.
abbrev Ascending : List Decl → Type 0
Ascending [] = Unit
Ascending (a ∷ ds) = ((b : Decl) → In b ds → a.start ≤ b.start) × Ascending ds

decl_le-start : (a b : Decl) → decl_le a b ≡ true → a.start ≤ b.start
decl_le-start a b h = ground (arith, h)

decl_le-start_not : (a b : Decl) → decl_le a b ≡ false → b.start ≤ a.start
decl_le-start_not a b h = ground (arith, h)

insert_by-Ascending :
    (d : Decl) (ds : List Decl) → Ascending ds → Ascending (insert_by decl_le d ds)
unfolding insert_by
insert_by-Ascending d [] h = (λ b m. absurd m, tt)
insert_by-Ascending d (x ∷ ds) h = elim (Bool-cases (decl_le d x)) [
  | inl t ↦ rw t ((λ b m. first t b m), h)
  | inr f ↦
      rw f ((λ b m. after f b (In-insert_by_cases decl_le b d ds m)), insert_by-Ascending d ds h.1)
]
  where
    first : decl_le d x ≡ true → (b : Decl) → In b (x ∷ ds) → d.start ≤ b.start
    first t b (inl e) = omega (arith, decl_le-start d x t, ap (λ y. y.start) e)
    first t b (inr m) = omega (arith, decl_le-start d x t, h.0 b m)

    after : decl_le d x ≡ false → (b : Decl) → In b (d ∷ ds) → x.start ≤ b.start
    after f b (inl e) = omega (arith, decl_le-start_not d x f, ap (λ y. y.start) e)
    after f b (inr m) = h.0 b m

sort_by-Ascending : (ds : List Decl) → Ascending (sort_by decl_le ds)
unfolding sort_by
sort_by-Ascending [] = tt
sort_by-Ascending (d ∷ ds) = insert_by-Ascending d (sort_by decl_le ds) (sort_by-Ascending ds)

pub fail-ne-nil : (m : Message) (f : Findings) → (fail m f).failures ≡ [] → ⊥
unfolding fail
fail-ne-nil m f h = elim (Bool-cases (has_message m f.failures)) [
  | inl t ↦ held f.failures t (rw t at h)
  | inr e ↦ longer f.failures (rw e at h)
]
  where
    held : (ms : List Message) → has_message m ms ≡ true → ms ≡ [] → ⊥
    held [] t e = cc
    held (x ∷ ms) t e = cc

    longer : (ms : List Message) → ms ++ (m ∷ []) ≡ [] → ⊥
    longer [] e = cc
    longer (x ∷ ms) e = cc

warned-failures :
    (test : Bool) (m : Message) (f : Findings)
    → (if test then warn m f else f).failures ≡ f.failures
unfolding warn
warned-failures test m f = ground arith

warn_internal-failures :
    (ds : List Decl) (f : Findings) → (warn_internal ds f).failures ≡ f.failures
unfolding warn_internal
warn_internal-failures [] f = refl
warn_internal-failures (d ∷ ds) f =
    warn_internal-failures ds _ ∙ warned-failures (any_internal d.shape) (internal_function d) f

-- The code's own test of two declarations.
abbrev passes : Decl → Decl → Bool
passes a b = a.source == b.source || same_variable a b

abbrev Quiet : Compared → Type 0
Quiet c = c.findings.failures ≡ []

compare_pair-Quiet :
    (a b : Decl) (c : Compared) → Quiet (compare_pair a b c) ↔ (Quiet c × (passes a b ≡ true))
unfolding compare_pair
compare_pair-Quiet a b c = elim (Bool-cases (a.source == b.source)) [
  | inl t ↦ rw t (λ h. (h, refl), λ h. h.0)
  | inr f ↦ elim (Bool-cases (same_variable a b)) [
    | inl t ↦ rw (f, t) (λ h. (h, refl), λ h. h.0)
    | inr g ↦
        rw (f, g)
          (λ h. absurd (fail-ne-nil (overlapping b a) c.findings h), λ h. absurd (clash h.1))
  ]
]
  where
    clash : false ≡ true → ⊥
    clash e = cc

-- Every later declaration that starts before the end of `a` passes.
abbrev Clear : Decl → List Decl → Type 0
Clear a ds = (b : Decl) → In b ds → b.start < a.end → passes a b ≡ true

compare_later-Quiet :
    (a : Decl) (ds : List Decl) (c : Compared)
    → Ascending ds
    → Quiet (compare_later a ds c) ↔ (Quiet c × Clear a ds)
unfolding compare_later
compare_later-Quiet a [] c h = (λ q. (q, λ b m. absurd m), λ p. p.0)
compare_later-Quiet a (b ∷ ds) c h = elim (Bool-cases (leb a.end b.start)) [
  | inl t ↦ rw t (λ q. (q, past t), λ p. p.0)
  | inr f ↦
      let ih = compare_later-Quiet a ds (compare_pair a b c) h.1 in
      let pair = compare_pair-Quiet a b c in
      rw f (
        λ q. let (r, s) = ih.0 q in let (u, v) = pair.0 r in (u, later v s),
        λ p. ih.1 (pair.1 (p.0, p.1 b (inl refl) (ground (arith, f))), λ x m. p.1 x (inr m)),
      )
]
  where
    past : leb a.end b.start ≡ true → Clear a (b ∷ ds)
    past t x (inl e) l =
        let p : a.end ≤ b.start = ground (arith, t) in
        absurd (omega (arith, ap (λ y. y.start) e, p))
    past t x (inr m) l = absurd (ground (arith, t, h.0 x m))

    later : passes a b ≡ true → Clear a ds → Clear a (b ∷ ds)
    later p k x (inl e) l = subst (λ y. passes a y ≡ true) (sym e) p
    later p k x (inr m) l = k x m l

-- Every two of them do, in order.
abbrev AllClear : List Decl → Type 0
AllClear [] = Unit
AllClear (a ∷ ds) = Clear a ds × AllClear ds

compare_each-Quiet :
    (ds : List Decl) (c : Compared)
    → Ascending ds
    → Quiet (compare_each ds c) ↔ (Quiet c × AllClear ds)
unfolding compare_each
compare_each-Quiet [] c h = (λ q. (q, tt), λ p. p.0)
compare_each-Quiet (a ∷ ds) c h =
    let ih = compare_each-Quiet ds (compare_later a ds c) h.1 in
    let one = compare_later-Quiet a ds c h.1 in
    (
      λ q. let (r, s) = ih.0 q in let (u, v) = one.0 r in (u, (v, s)),
      λ p. ih.1 (one.1 (p.0, p.1.0), p.1.1),
    )

-- The same bytes, name and type.
abbrev pub SameVariable : Decl → Decl → Type 0
SameVariable a b =
    (a.start ≡ b.start)
    × (a.end ≡ b.end)
    × (a.label ≡ b.label)
    × (same_shape a.shape b.shape ≡ true)

same_shape_comm : (x y : Shape) → same_shape x y ≡ true → same_shape y x ≡ true
unfolding same_shape
same_shape_comm x y h = ground (arith, h)

SameVariable-sym : (a b : Decl) → SameVariable a b → SameVariable b a
SameVariable-sym a b (p, q, r, s) = (sym p, sym q, sym r, same_shape_comm a.shape b.shape s)

passes-SameVariable : (a b : Decl) → (passes a b ≡ true) ↔ (a.source ≢ b.source → SameVariable a b)
unfolding same_variable
passes-SameVariable a b = (there, back)
  where
    there : passes a b ≡ true → a.source ≢ b.source → SameVariable a b
    there h n = elim (Bool-cases (a.source == b.source)) [
      | inl t ↦ absurd (n ((string_eq.same_iff a.source b.source).0 t))
      | inr f ↦ (
        ground (arith, h, f),
        ground (arith, h, f),
        (string_eq.same_iff a.label b.label).0 (ground (arith, h, f)),
        ground (arith, h, f),
      )
    ]

    back : (a.source ≢ b.source → SameVariable a b) → passes a b ≡ true
    back k = elim (Bool-cases (a.source == b.source)) [
      | inl t ↦ ground (arith, t)
      | inr f ↦
          let (p, q, r, s) = k (λ e. clash ((string_eq.same_iff a.source b.source).1 e) f) in
          let l = (string_eq.same_iff a.label b.label).1 r in ground (arith, p, q, l, s)
    ]
      where
        clash : {x : Bool} → x ≡ true → x ≡ false → ⊥
        clash p q = cc

-- Two declarations share a byte.
abbrev pub Overlap : Decl → Decl → Type 0
Overlap a b = (a.start < b.end) × (b.start < a.end)

-- Different facets declare one variable wherever they share a byte.
abbrev pub Consistent : List Decl → Type 0
Consistent ds =
    (a b : Decl) → In a ds → In b ds → a.source ≢ b.source → Overlap a b → SameVariable a b

AllClear-Consistent : (ds : List Decl) → AllClear ds → Consistent ds
AllClear-Consistent [] h a b m n d o = absurd m
AllClear-Consistent (x ∷ ds) h a b (inl p) (inl q) d o = absurd (d (ap (λ y. y.source) (p ∙ sym q)))
AllClear-Consistent (x ∷ ds) h a b (inl p) (inr n) d o =
    (passes-SameVariable a b).0
      (subst (λ y. passes y b ≡ true) (sym p) (h.0 b n (subst (λ y. b.start < y.end) p o.1))) d
AllClear-Consistent (x ∷ ds) h a b (inr m) (inl q) d o = SameVariable-sym b a (
    (passes-SameVariable b a).0
      (subst (λ y. passes y a ≡ true) (sym q) (h.0 a m (subst (λ y. a.start < y.end) q o.0)))
      (λ e. d (sym e)))
AllClear-Consistent (x ∷ ds) h a b (inr m) (inr n) d o = AllClear-Consistent ds h.1 a b m n d o

-- Every variable has a byte.
abbrev pub Sized : List Decl → Type 0
Sized ds = (a : Decl) → In a ds → a.start < a.end

Consistent-AllClear : (ds : List Decl) → Ascending ds → Sized ds → Consistent ds → AllClear ds
Consistent-AllClear [] h z k = tt
Consistent-AllClear (x ∷ ds) h z k = (
  λ b m l.
      (passes-SameVariable x b).1
        (λ d. k x b (inl refl) (inr m) d (omega (arith, h.0 b m, z b (inr m)), l)),
  Consistent-AllClear ds h.1 (λ a m. z a (inr m)) (λ a b m n. k a b (inr m) (inr n)),
)

-- `_check_storage`, of the declarations of layouts whose variables each have a byte and where nothing
-- has failed before, reports no failure exactly where every two declarations of different sources that
-- share a byte are of one variable: they have the same first and last byte, label and shape.
pub check_storage-Consistent :
    (layouts : Layouts) (findings : Findings)
    → findings.failures ≡ []
    → Sized (declarations layouts)
    → ((check_storage (declarations layouts) findings).findings.failures ≡ [])
      ↔ Consistent (declarations layouts)
unfolding check_storage
check_storage-Consistent layouts findings e z =
    let ds = declarations layouts in
    let up = ascending in
    let f =
      compare_each-Quiet ds (record { findings = warn_internal ds findings; shared = [] }) up in
    (
      λ q. AllClear-Consistent ds (f.0 q).1,
      λ k. f.1 (warn_internal-failures ds findings ∙ e, Consistent-AllClear ds up z k),
    )
  where
    ascending : Ascending (declarations layouts)
    ascending = unfold declarations in sort_by-Ascending (concat_map declared_by layouts)
