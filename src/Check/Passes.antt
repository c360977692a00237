-- ===== src/Check/Passes.antt =====
-- check.py: which old declarations raise no failure in the loop of `_compare_storage`, by its own tests.
use josuke.Prelude.{
  ℕ, ◌≡◌, ◌↔◌, refl, sym, subst, ◌∙◌, inl, inr, Bool, true, false, ◌&&◌, ◌||◌, not, String, List,
  [], ◌∷◌, nat_beq, Bool-cases, In, arith,
}
use josuke.Prelude.Eq.{string_eq, nat_eq}
use josuke.Check.{fit, Fit, Notes, reads, differs, out_of_range, stuck, is_reads}
use josuke.Check.Storage.{Decl, Findings, warn, moved, replaced}
use josuke.Check.Overlaps.{fail-ne-nil}
use josuke.Check.Compare.{
  where_at, has_start, least, is_key, Tally, check_place, overlap, overlapping_with, note_renamed,
  note_grown, refuse, compare_new, compare_all, note_dropped, compare_old, compare_olds,
}

abbrev pub Quiet : Tally → Type 0
Quiet t = t.findings.failures ≡ []

-- The code's own tests of an old declaration, and of one at HEAD that overlaps it.
abbrev pub placed : List ℕ → Decl → Bool
placed starts o = not (is_key starts) || has_start o.start starts

abbrev pub kept : Decl → Decl → Bool
kept o n = nat_beq n.start o.start && is_reads (fit o.shape n.shape)

check_place-Quiet :
    (against : String) (starts : List ℕ) (o : Decl) (f : Findings)
    → ((check_place against starts o f).failures ≡ [])
      ↔ ((f.failures ≡ []) × (placed starts o ≡ true))
unfolding check_place
check_place-Quiet against [] o f = (λ h. (h, refl), λ h. h.0)
check_place-Quiet against (n ∷ starts) o f = elim (Bool-cases (has_start o.start (n ∷ starts))) [
  | inl t ↦ rw t (λ h. (h, refl), λ h. h.0)
  | inr e ↦
      rw e
        (λ h. absurd (fail-ne-nil (moved against o (least n starts)) f h), λ h. absurd (clash h.1))
]
  where
    clash : false ≡ true → ⊥
    clash e = cc

notes-failures :
    (against : String) (starts : List ℕ) (o n : Decl) (notes : Notes) (t : Tally)
    → (note_grown o n notes (note_renamed against starts o n notes t)).findings.failures
      ≡ t.findings.failures
unfolding note_grown note_renamed warn
notes-failures against starts o n notes t = ground arith

compare_new-Quiet :
    (against : String) (starts : List ℕ) (o n : Decl) (t : Tally)
    → Quiet (compare_new against starts o n t) ↔ (Quiet t × (kept o n ≡ true))
unfolding compare_new
compare_new-Quiet against starts o n t = elim (Bool-cases (nat_beq n.start o.start)) [
  | inr e ↦ rw e refused
  | inl e ↦ rw e (go (fit o.shape n.shape))
]
  where
    clash : false ≡ true → ⊥
    clash e = cc

    refused : Quiet (refuse against o n t) ↔ (Quiet t × (false ≡ true))
    refused =
        (λ h. absurd (fail-ne-nil (replaced against n o) t.findings h), λ h. absurd (clash h.1))

    go :
        (f : Fit)
        → Quiet (elim f as (λ _. Tally) [
          | reads notes ↦ note_grown o n notes (note_renamed against starts o n notes t)
          | differs notes ↦ refuse against o n t
          | out_of_range ↦ refuse against o n t
          | stuck ↦ refuse against o n t
        ])
          ↔ (Quiet t × (is_reads f ≡ true))
    go (reads notes) = (
      λ h. (sym (notes-failures against starts o n notes t) ∙ h, refl),
      λ h. notes-failures against starts o n notes t ∙ h.0,
    )
    go (differs notes) = refused
    go out_of_range = refused
    go stuck = refused

compare_all-Quiet :
    (against : String) (starts : List ℕ) (o : Decl) (ns : List Decl) (t : Tally)
    → Quiet (compare_all against starts o ns t)
      ↔ (Quiet t × ((n : Decl) → In n ns → kept o n ≡ true))
unfolding compare_all
compare_all-Quiet against starts o [] t = (λ h. (h, λ n m. absurd m), λ h. h.0)
compare_all-Quiet against starts o (x ∷ ns) t =
    let ih = compare_all-Quiet against starts o ns (compare_new against starts o x t) in
    let one = compare_new-Quiet against starts o x t in
    (
      λ h. let (p, q) = ih.0 h in let (r, s) = one.0 p in (r, both s q),
      λ h. ih.1 (one.1 (h.0, h.1 x (inl refl)), λ n m. h.1 n (inr m)),
    )
  where
    both :
        kept o x ≡ true
        → ((n : Decl) → In n ns → kept o n ≡ true)
        → (n : Decl) → In n (x ∷ ns)
        → kept o n ≡ true
    both s q n (inl e) = subst (λ y. kept o y ≡ true) (sym e) s
    both s q n (inr m) = q n m

note_dropped-failures :
    (against : String) (o : Decl) (ns : List Decl) (t : Tally)
    → (note_dropped against o ns t).findings.failures ≡ t.findings.failures
unfolding note_dropped warn
note_dropped-failures against o [] t = ground arith
note_dropped-failures against o (n ∷ ns) t = refl

In-overlapping_with :
    (o n : Decl) (new : List Decl)
    → In n (overlapping_with o new) ↔ (In n new × (overlap o n ≡ true))
unfolding overlapping_with
In-overlapping_with o n [] = (λ m. absurd m, λ h. h.0)
In-overlapping_with o n (x ∷ new) =
    let ih = In-overlapping_with o n new in
    elim (Bool-cases (overlap o x)) [
      | inl t ↦ rw t (λ m. keep ih t m, λ h. back ih h.0 h.1)
      | inr f ↦ rw f (λ m. let (i, e) = ih.0 m in (inr i, e), λ h. skip ih f h.0 h.1)
    ]
  where
    keep :
        In n (overlapping_with o new) ↔ (In n new × (overlap o n ≡ true))
        → overlap o x ≡ true
        → In n (x ∷ overlapping_with o new)
        → In n (x ∷ new) × (overlap o n ≡ true)
    keep ih t (inl e) = (inl e, subst (λ y. overlap o y ≡ true) (sym e) t)
    keep ih t (inr m) = let (i, e) = ih.0 m in (inr i, e)

    back :
        In n (overlapping_with o new) ↔ (In n new × (overlap o n ≡ true))
        → In n (x ∷ new)
        → overlap o n ≡ true
        → In n (x ∷ overlapping_with o new)
    back ih (inl e) t = inl e
    back ih (inr m) t = inr (ih.1 (m, t))

    clash : {b : Bool} → b ≡ true → b ≡ false → ⊥
    clash p q = cc

    skip :
        In n (overlapping_with o new) ↔ (In n new × (overlap o n ≡ true))
        → overlap o x ≡ false
        → In n (x ∷ new)
        → overlap o n ≡ true
        → In n (overlapping_with o new)
    skip ih f (inl e) t = absurd (clash (subst (λ y. overlap o y ≡ true) e t) f)
    skip ih f (inr m) t = ih.1 (m, t)

-- An old declaration that raises no failure.
abbrev pub Passes : List Decl → Decl → Type 0
Passes new o =
    (placed (where_at o.label new) o ≡ true)
    × ((n : Decl) → In n new → overlap o n ≡ true → kept o n ≡ true)

compare_old-Quiet :
    (against : String) (new : List Decl) (o : Decl) (t : Tally)
    → Quiet (compare_old against new o t) ↔ (Quiet t × Passes new o)
unfolding compare_old
compare_old-Quiet against new o t =
    let starts = where_at o.label new in
    let placed_t : Tally = record t { findings = check_place against starts o t.findings } in
    let dropped_t = note_dropped against o (overlapping_with o new) placed_t in
    let same = note_dropped-failures against o (overlapping_with o new) placed_t in
    let all = compare_all-Quiet against starts o (overlapping_with o new) dropped_t in
    let place = check_place-Quiet against starts o t.findings in
    (
      λ h.
          let (p, q) = all.0 h in
          let (r, s) = place.0 (sym same ∙ p) in
          (r, (s, λ n m e. q n ((In-overlapping_with o n new).1 (m, e)))),
      λ h. all.1 (
        same ∙ place.1 (h.0, h.1.0),
        λ n m. let (i, e) = (In-overlapping_with o n new).0 m in h.1.1 n i e,
      ),
    )

pub compare_olds-Quiet :
    (against : String) (new old : List Decl) (t : Tally)
    → Quiet (compare_olds against new old t) ↔ (Quiet t × ((o : Decl) → In o old → Passes new o))
unfolding compare_olds
compare_olds-Quiet against new [] t = (λ h. (h, λ o m. absurd m), λ h. h.0)
compare_olds-Quiet against new (x ∷ old) t =
    let ih = compare_olds-Quiet against new old (compare_old against new x t) in
    let one = compare_old-Quiet against new x t in
    (
      λ h. let (p, q) = ih.0 h in let (r, s) = one.0 p in (r, both s q),
      λ h. ih.1 (one.1 (h.0, h.1 x (inl refl)), λ o m. h.1 o (inr m)),
    )
  where
    both :
        Passes new x
        → ((o : Decl) → In o old → Passes new o)
        → (o : Decl) → In o (x ∷ old)
        → Passes new o
    both s q o (inl e) = subst (Passes new) (sym e) s
    both s q o (inr m) = q o m
