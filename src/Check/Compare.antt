-- ===== src/Check/Compare.antt =====
-- src/josuke/check.py: `_compare_storage`, which compares the variables of a recorded deployment with
-- those that HEAD declares.
use josuke.Prelude.{
  ℕ, ◌+◌, min, Bool, true, false, ◌&&◌, ◌||◌, not, String, List, [], ◌∷◌, ltb, nat_beq,
  if◌then◌else◌,
}
use josuke.Prelude.Eq.{◌==◌, string_eq, nat_eq}
use josuke.Check.{
  Member, Node, mapping, dynamic_array, struct, array, enum, Shape, texts_beq, is_leaf, fit, Notes,
  reads, differs, out_of_range, stuck,
}
use josuke.Check.Storage.{Decl, Findings, fail, warn, moved, undeclared, replaced, renamed_in}

abbrev pub members_beq : List Member → List Member → Bool
members_beq [] [] = true
members_beq [] (m ∷ ms) = false
members_beq (m ∷ ms) [] = false
members_beq (m ∷ ms) (n ∷ ns) =
    m.label == n.label
    && (nat_beq m.slot n.slot && (nat_beq m.offset n.offset && nat_beq m.kind n.kind))
    && members_beq ms ns

-- Equality of shapes, as tuples.
abbrev pub node_beq : Node → Node → Bool
node_beq (mapping x k v) (mapping y l w) = nat_beq x y && (nat_beq k l && nat_beq v w)
node_beq (dynamic_array x a) (dynamic_array y b) = nat_beq x y && nat_beq a b
node_beq (array x a n) (array y b m) = nat_beq x y && (nat_beq a b && nat_beq n m)
node_beq (enum x a) (enum y b) = nat_beq x y && texts_beq a b
node_beq (struct x a) (struct y b) = nat_beq x y && members_beq a b
node_beq a b = is_leaf a b

abbrev pub shape_beq : Shape → Shape → Bool
shape_beq [] [] = true
shape_beq [] (b ∷ bs) = false
shape_beq (a ∷ as') [] = false
shape_beq (a ∷ as') (b ∷ bs) = node_beq a b && shape_beq as' bs

abbrev pub same_key : Decl → Decl → Bool
same_key a b =
    nat_beq a.start b.start
    && (nat_beq a.end b.end && (a.label == b.label && shape_beq a.shape b.shape))

-- An entry of the `dict` under `(start, end, label, shape)`.
unfoldable pub put_decl : Decl → List Decl → List Decl
put_decl d [] = d ∷ []
put_decl d (x ∷ xs) = let rest = put_decl d xs in if same_key x d then d ∷ xs else x ∷ rest

-- The `values()` of the `dict` of the list reversed.
unfoldable pub values_backwards : List Decl → List Decl
unfolding put_decl
values_backwards [] = []
values_backwards (d ∷ ds) = put_decl d (values_backwards ds)

unfoldable pub reverse_onto : List Decl → List Decl → List Decl
reverse_onto [] out = out
reverse_onto (d ∷ ds) out = reverse_onto ds (d ∷ out)

-- One declaration for each start, end, label and shape.
unfoldable pub dedupe : List Decl → List Decl
unfolding values_backwards reverse_onto
dedupe ds = reverse_onto (values_backwards ds) []

-- `where[label]`, empty for a label that is no key.
unfoldable pub where_at : String → List Decl → List ℕ
where_at label [] = []
where_at label (d ∷ ds) =
    let rest = where_at label ds in if d.label == label then d.start ∷ rest else rest

abbrev pub has_start : ℕ → List ℕ → Bool
has_start n [] = false
has_start n (m ∷ ms) = nat_beq m n || has_start n ms

abbrev pub least : ℕ → List ℕ → ℕ
least n [] = n
least n (m ∷ ms) = least (min n m) ms

abbrev pub is_key : List ℕ → Bool
is_key [] = false
is_key (n ∷ ns) = true

-- The findings, with the counts.
pub record Tally : Type 0 where
  pub findings : Findings
  pub grown : ℕ
  pub renamed : ℕ
  pub dropped : ℕ

unfoldable pub check_place : String → List ℕ → Decl → Findings → Findings
unfolding fail
check_place against [] o f = f
check_place against (n ∷ starts) o f =
    if has_start o.start (n ∷ starts) then f else fail (moved against o (least n starts)) f

abbrev pub overlap : Decl → Decl → Bool
overlap o n = ltb n.start o.end && ltb o.start n.end

unfoldable pub overlapping_with : Decl → List Decl → List Decl
overlapping_with o [] = []
overlapping_with o (n ∷ new) =
    let rest = overlapping_with o new in if overlap o n then n ∷ rest else rest

unfoldable pub note_renamed : String → List ℕ → Decl → Decl → Notes → Tally → Tally
unfolding warn
note_renamed against starts o n notes t =
    if (not (n.label == o.label) && not (is_key starts)) || notes.renamed
    then record t { findings = warn (renamed_in against n o) t.findings; renamed = t.renamed + 1 }
    else t

unfoldable pub note_grown : Decl → Decl → Notes → Tally → Tally
note_grown o n notes t =
    if notes.grown || ltb o.end n.end then record t { grown = t.grown + 1 } else t

abbrev pub refuse : String → Decl → Decl → Tally → Tally
refuse against o n t = record t { findings = fail (replaced against n o) t.findings }

-- A declaration at HEAD that overlaps the old one. The indices of a shape are all in range, so that
-- no comparison of two raises an error.
unfoldable pub compare_new : String → List ℕ → Decl → Decl → Tally → Tally
unfolding note_renamed note_grown fail
compare_new against starts o n t =
    if not (nat_beq n.start o.start)
    then refuse against o n t
    else (elim (fit o.shape n.shape) as (λ _. Tally) [
      | reads notes ↦ note_grown o n notes (note_renamed against starts o n notes t)
      | differs notes ↦ refuse against o n t
      | out_of_range ↦ refuse against o n t
      | stuck ↦ refuse against o n t
    ])

unfoldable pub compare_all : String → List ℕ → Decl → List Decl → Tally → Tally
unfolding compare_new
compare_all against starts o [] t = t
compare_all against starts o (n ∷ ns) t =
    compare_all against starts o ns (compare_new against starts o n t)

-- No declaration overlaps the old one.
unfoldable pub note_dropped : String → Decl → List Decl → Tally → Tally
unfolding warn
note_dropped against o [] t = record t {
  findings = warn (undeclared against o) t.findings;
  dropped = t.dropped + 1;
}
note_dropped against o (n ∷ ns) t = t

-- The loop's body.
unfoldable pub compare_old : String → List Decl → Decl → Tally → Tally
unfolding check_place overlapping_with compare_all note_dropped where_at
compare_old against new o t =
    let starts = where_at o.label new in
    let t1 = record t { findings = check_place against starts o t.findings } in
    compare_all against starts o (overlapping_with o new)
      (note_dropped against o (overlapping_with o new) t1)

unfoldable pub compare_olds : String → List Decl → List Decl → Tally → Tally
unfolding compare_old
compare_olds against new [] t = t
compare_olds against new (o ∷ old) t = compare_olds against new old (compare_old against new o t)

-- `_compare_storage`, but for its line of the report.
unfoldable pub compare_storage : String → List Decl → List Decl → Findings → Tally
unfolding compare_olds dedupe
compare_storage against old new findings =
    compare_olds against (dedupe new) (dedupe old)
      (record { findings = findings; grown = 0; renamed = 0; dropped = 0 })
