-- ===== src/Check/History.antt =====
-- check.py: `_compare_storage` reports no failure exactly where the recorded variables read back at HEAD.
use josuke.Prelude.{
  ℕ, ◌≡◌, ◌↔◌, refl, sym, subst, ap, ◌∙◌, inl, inr, Bool, true, false, String, List, [], ◌∷◌,
  nat_beq, nat_beq_iff, Bool-cases, In, arith,
}
use josuke.Prelude.Eq.{◌==◌, string_eq, nat_eq}
use josuke.Check.{fit, Fit, reads, differs, out_of_range, stuck, is_reads}
use josuke.Check.Reads.{ReadsBack, Compatible-wider}
use josuke.Check.Complete.{Fitting, fit-Fitting}
use josuke.Check.Storage.{Decl, Findings}
use josuke.Check.Overlaps.{Overlap}
use josuke.Check.Dedupe.{Like, Like-refl, Like-sym, Represented, In-dedupe, dedupe-Represented}
use josuke.Check.Compare.{dedupe, where_at, has_start, compare_storage}
use josuke.Check.Passes.{placed, kept, Passes, compare_olds-Quiet}

-- A declaration of the label starts there.
abbrev Declares : String → ℕ → List Decl → Type 0
Declares label start ds = (d : Decl) × In d ds × (d.label ≡ label) × (d.start ≡ start)

In-where_at :
    (label : String) (start : ℕ) (ds : List Decl)
    → (has_start start (where_at label ds) ≡ true)
      ↔ ((d : Decl) × In d ds × (d.label ≡ label) × (d.start ≡ start))
unfolding where_at
In-where_at label start [] = (λ h. cc, λ h. absurd h.1)
In-where_at label start (x ∷ ds) =
    let ih = In-where_at label start ds in
    elim (Bool-cases (x.label == label)) [
      | inl t ↦ rw t (λ h. here ih t h, λ h. back ih h.0 h.1 h.2 h.3)
      | inr f ↦
          rw f (λ h. let (d, m, p, q) = ih.0 h in (d, inr m, p, q), λ h. skip ih f h.0 h.1 h.2 h.3)
    ]
  where
    here :
        (has_start start (where_at label ds) ≡ true) ↔ Declares label start ds
        → x.label == label ≡ true
        → has_start start (x.start ∷ where_at label ds) ≡ true
        → Declares label start (x ∷ ds)
    here ih t h = elim (Bool-cases (nat_beq x.start start)) [
      | inl e ↦
          (x, inl refl, (string_eq.same_iff x.label label).0 t, (nat_beq_iff x.start start).0 e)
      | inr e ↦ let (d, m, p, q) = ih.0 (ground (arith, h, e)) in (d, inr m, p, q)
    ]

    back :
        (has_start start (where_at label ds) ≡ true) ↔ Declares label start ds
        → (d : Decl) → In d (x ∷ ds)
        → d.label ≡ label
        → d.start ≡ start
        → has_start start (x.start ∷ where_at label ds) ≡ true
    back ih d (inl e) p q =
        let r = (nat_beq_iff x.start start).1 (ap (λ y. y.start) (sym e) ∙ q) in ground (arith, r)
    back ih d (inr m) p q = let r = ih.1 (d, m, p, q) in ground (arith, r)

    clash : {b : Bool} → b ≡ true → b ≡ false → ⊥
    clash u v = cc

    skip :
        (has_start start (where_at label ds) ≡ true) ↔ Declares label start ds
        → x.label == label ≡ false
        → (d : Decl) → In d (x ∷ ds)
        → d.label ≡ label
        → d.start ≡ start
        → has_start start (where_at label ds) ≡ true
    skip ih f d (inl e) p q =
        absurd (clash ((string_eq.same_iff x.label label).1 (ap (λ y. y.label) (sym e) ∙ p)) f)
    skip ih f d (inr m) p q = ih.1 (d, m, p, q)

-- Where HEAD declares the label at all, it declares it where it was.
abbrev pub Stays : List Decl → Decl → Type 0
Stays new o =
    ((d : Decl) × In d new × (d.label ≡ o.label))
    → (d : Decl) × In d new × (d.label ≡ o.label) × (d.start ≡ o.start)

placed-Stays : (new : List Decl) (o : Decl) → (placed (where_at o.label new) o ≡ true) ↔ Stays new o
placed-Stays new o = (there, λ k. back (where_at o.label new) refl k)
  where
    key :
        (starts : List ℕ) (n : ℕ)
        → has_start n starts ≡ true
        → placed starts o ≡ true
        → has_start o.start starts ≡ true
    key [] n h p = cc
    key (m ∷ ms) n h p = p

    there : placed (where_at o.label new) o ≡ true → Stays new o
    there p (d, m, l) =
        (In-where_at o.label o.start new).0 (
          key (where_at o.label new) d.start ((In-where_at o.label d.start new).1 (d, m, l, refl))
            p)

    back : (starts : List ℕ) → where_at o.label new ≡ starts → Stays new o → placed starts o ≡ true
    back [] e k = refl
    back (n ∷ ns) e k =
        let h = ap (has_start n) e ∙ ground (arith) in
        let (d, m, l, q) = (In-where_at o.label n new).0 h in
        sym (ap (has_start o.start) e) ∙ (In-where_at o.label o.start new).1 (k (d, m, l))

-- The old variable reads back as the new one, which starts where it did.
abbrev pub ReadsAs : Decl → Decl → Type 1
ReadsAs o n = (n.start ≡ o.start) × ReadsBack o.shape n.shape true true

kept-ReadsAs : (o n : Decl) → kept o n ≡ true → ReadsAs o n
kept-ReadsAs o n h =
    (ground (arith, h), go (fit o.shape n.shape) (fit-Fitting o.shape n.shape) (ground (arith, h)))
  where
    go :
        (f : Fit)
        → Fitting o.shape n.shape f
        → is_reads f ≡ true
        → ReadsBack o.shape n.shape true true
    go (reads s) (R, k, z) e = (
      R,
      (λ i j r.
          let (a, b, p, q, c) = k i j r in
          (
            a,
            b,
            p,
            q,
            Compatible-wider R R o.shape n.shape s.grown s.renamed true true (λ x y u. u) (λ u. cc)
                (λ u. cc) a b c,
          )),
      z,
    )
    go (differs s) k e = cc
    go out_of_range k e = cc
    go stuck k e = cc

ReadsAs-kept : (o n : Decl) → ReadsAs o n → kept o n ≡ true
ReadsAs-kept o n (e, r) =
    let p = go (fit o.shape n.shape) (fit-Fitting o.shape n.shape) in
    let q = (nat_beq_iff n.start o.start).1 e in ground (arith, p, q)
  where
    go : (f : Fit) → Fitting o.shape n.shape f → is_reads f ≡ true
    go (reads s) k = refl
    go (differs s) k = absurd (k true true r)
    go out_of_range k = absurd (k true true r)
    go stuck k = k (false ≡ true)

-- The old variable stays, and reads back as each variable at HEAD that shares a byte with it.
abbrev pub Preserved : List Decl → Decl → Type 1
Preserved new o = Stays new o × ((n : Decl) → In n new → Overlap n o → ReadsAs o n)

Passes-Preserved : (new : List Decl) (o : Decl) → Passes new o → Preserved new o
Passes-Preserved new o (p, k) =
    ((placed-Stays new o).0 p, λ n m v. kept-ReadsAs o n (k n m (ground (arith, v.0, v.1))))

Preserved-Passes : (new : List Decl) (o : Decl) → Preserved new o → Passes new o
Preserved-Passes new o (p, k) = (
  (placed-Stays new o).1 p,
  λ n m e. ReadsAs-kept o n (k n m (ground (arith, e), ground (arith, e))),
)

-- A failure found before stays.
pub compare_storage-failures :
    (against : String) (old new : List Decl) (findings : Findings)
    → (compare_storage against old new findings).findings.failures ≡ []
    → findings.failures ≡ []
unfolding compare_storage
compare_storage-failures against old new findings h =
    ((compare_olds-Quiet against (dedupe new) (dedupe old)
        (record { findings = findings; grown = 0; renamed = 0; dropped = 0 })).0
      h).0

-- Lists that represent each other preserve the same declarations.
Preserved-Like :
    (new new' : List Decl) (o o' : Decl)
    → ((d : Decl) → In d new → Represented d new')
    → ((d : Decl) → In d new' → Represented d new)
    → Like o o'
    → Preserved new o
    → Preserved new' o'
Preserved-Like new new' o o' to from l (stays, reads_as) = (
  λ (d, m, p).
      let (e, i, k) = from d m in
      let (n, j, q, r) = stays (e, i, sym k.2 ∙ p ∙ sym l.2) in
      let (n', j', k') = to n j in (n', j', sym k'.2 ∙ q ∙ l.2, sym k'.0 ∙ r ∙ l.0),
  λ n m v.
      let (e, i, k) = from n m in
      let (p, q) = reads_as e i (overlaps e n k v) in
      (
        k.0 ∙ p ∙ l.0,
        subst (λ s. ReadsBack s n.shape true true) l.3
            (subst (λ s. ReadsBack o.shape s true true) (sym k.3) q),
      ),
)
  where
    overlaps : (e n : Decl) → Like n e → Overlap n o' → Overlap e o
    overlaps e n k v =
        let a = k.0 in
        let b = k.1 in
        let c = l.0 in let d = l.1 in (ground (arith, a, d, v.0), ground (arith, b, c, v.1))

-- `_compare_storage`, where nothing has failed before, reports no failure exactly where every old
-- declaration stays and reads back: if HEAD declares its label, one declaration of it starts where the
-- old one did, and every declaration at HEAD that shares a byte with the old one starts where it does,
-- with a shape as which the old shape reads back. The declarations are all those of the two lists that
-- it is given, also those that its `dict`s leave out.
pub compare_storage-Preserved :
    (against : String) (old new : List Decl) (findings : Findings)
    → findings.failures ≡ []
    → ((compare_storage against old new findings).findings.failures ≡ []
        → (o : Decl) → In o old
        → Preserved new o)
      × (((o : Decl) → In o old → Preserved new o)
          → (compare_storage against old new findings).findings.failures ≡ [])
unfolding compare_storage
compare_storage-Preserved against old new findings e =
    let f =
      compare_olds-Quiet against (dedupe new) (dedupe old)
        (record { findings = findings; grown = 0; renamed = 0; dropped = 0 }) in
    (
      λ q o m.
          let (x, i, l) = dedupe-Represented o old m in
          Preserved-Like (dedupe new) new x o all_new kept_new (Like-sym o x l)
            (Passes-Preserved (dedupe new) x ((f.0 q).1 x i)),
      λ k. f.1 (
        e,
        λ o m. Preserved-Passes (dedupe new) o (
            Preserved-Like new (dedupe new) o o kept_new all_new (Like-refl o)
              (k o (In-dedupe o old m))),
      ),
    )
  where
    kept_new : (d : Decl) → In d new → Represented d (dedupe new)
    kept_new d m = dedupe-Represented d new m

    all_new : (d : Decl) → In d (dedupe new) → Represented d new
    all_new d m = (d, In-dedupe d new m, Like-refl d)
