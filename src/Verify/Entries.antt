-- ===== src/Verify/Entries.antt =====
-- verify.py: the dicts by selector in which `verify_migration` holds the entries of two scripts.
use josuke.Prelude.{
  ◌≡◌, refl, sym, subst, ap, ◌∙◌, true, Option, none, some, List, [], ◌∷◌, inl, inr, if_cases, In,
  arith,
}
use josuke.Prelude.Eq.{bytes_beq, bytes_eq, bytes_beq_iff}
use josuke.Prelude.Bytes.{Bytes}
use josuke.Prelude.Dict.{
  Dict, get, put, has, get-put, has-put, has-get, some_injective, Distinct, put-Distinct,
}
use josuke.Migration.{SetDelegate}

-- `{sd.selector: sd for sd in setdelegates}`, into `d`.
unfoldable pub by_selector : List SetDelegate → Dict Bytes SetDelegate → Dict Bytes SetDelegate
by_selector [] d = d
by_selector (sd ∷ sds) d = by_selector sds (put sd.selector4 sd d)

-- Both scripts have no entry for the selector, or both write the same address to the same slot.
abbrev pub SameEntry : Option SetDelegate → Option SetDelegate → Type 0
SameEntry none none = Unit {0}
SameEntry none (some want) = ⊥
SameEntry (some found) none = ⊥
SameEntry (some found) (some want) =
    (found.delegate.address ≡ want.delegate.address) × (found.storage_key32 ≡ want.storage_key32)

-- No two entries of a script have one selector.
abbrev pub OneEach : List SetDelegate → Type 0
OneEach sds = (x y : SetDelegate) → In x sds → In y sds → x.selector4 ≡ y.selector4 → x ≡ y

-- An entry of the script that writes the same address to the same slot, for the same selector.
abbrev pub HasLike : SetDelegate → List SetDelegate → Type 0
HasLike sd sds =
    (e : SetDelegate) × In e sds
    × (e.selector4 ≡ sd.selector4)
    × (e.delegate.address ≡ sd.delegate.address)
    × (e.storage_key32 ≡ sd.storage_key32)

by_selector-kept :
    (sds : List SetDelegate) (d : Dict Bytes SetDelegate) (k : Bytes)
    → has k d ≡ true
    → has k (by_selector sds d) ≡ true
unfolding by_selector
by_selector-kept [] d k h = h
by_selector-kept (sd ∷ sds) d k h =
    by_selector-kept sds (put sd.selector4 sd d) k (has-put k sd.selector4 sd d ∙ ground (arith, h))

by_selector-has :
    (sds : List SetDelegate) (d : Dict Bytes SetDelegate) (sd : SetDelegate)
    → In sd sds
    → has sd.selector4 (by_selector sds d) ≡ true
unfolding by_selector
by_selector-has [] d sd m = absurd m
by_selector-has (x ∷ sds) d sd (inl e) =
    let same = (bytes_beq_iff x.selector4 sd.selector4).1 (ap (λ y. y.selector4) (sym e)) in
    by_selector-kept sds (put x.selector4 x d) sd.selector4
      (has-put sd.selector4 x.selector4 x d ∙ ground (arith, same))
by_selector-has (x ∷ sds) d sd (inr m) = by_selector-has sds (put x.selector4 x d) sd m

-- What the dict has is an entry of the list, under its own selector.
abbrev Listed : List SetDelegate → Dict Bytes SetDelegate → Type 0
Listed sds d = (k : Bytes) (sd : SetDelegate) → get k d ≡ some sd → In sd sds × (sd.selector4 ≡ k)

by_selector-Listed :
    (sds all : List SetDelegate) (d : Dict Bytes SetDelegate)
    → ((sd : SetDelegate) → In sd sds → In sd all)
    → Listed all d
    → Listed all (by_selector sds d)
unfolding by_selector
by_selector-Listed [] all d i l = l
by_selector-Listed (x ∷ sds) all d i l =
    by_selector-Listed sds all (put x.selector4 x d) (λ sd m. i sd (inr m)) put_in
  where
    put_in : Listed all (put x.selector4 x d)
    put_in k sd g =
        elim (if_cases (bytes_beq x.selector4 k) (some x) (get k d)
          (sym (get-put x.selector4 k x d) ∙ g)) [
            | inl (t, p) ↦
                subst (λ y. In y all × (y.selector4 ≡ k)) (some_injective p)
                  (i x (inl refl), (bytes_beq_iff x.selector4 k).0 t)
            | inr (_, p) ↦ l k sd p
          ]

Listed-all : (sds : List SetDelegate) → Listed sds (by_selector sds [])
unfolding get
Listed-all sds = by_selector-Listed sds sds [] (λ y n. n) (λ k y g. absurd (clash g))
  where
    clash : {y : SetDelegate} → none ≡ some y → ⊥
    clash g = cc

-- Where no two entries have one selector, the dict gives an entry under its selector.
pub by_selector-In :
    (sds : List SetDelegate) (sd : SetDelegate)
    → OneEach sds
    → In sd sds
    → get sd.selector4 (by_selector sds []) ≡ some sd
by_selector-In sds sd one m =
    let (x, g) = has-get sd.selector4 (by_selector sds []) (by_selector-has sds [] sd m) in
    let (i, e) = Listed-all sds sd.selector4 x g in g ∙ ap some (one x sd i m e)

pub SameEntry-sym : (a b : Option SetDelegate) → SameEntry a b → SameEntry b a
SameEntry-sym none none h = h
SameEntry-sym none (some want) h = h
SameEntry-sym (some found) none h = h
SameEntry-sym (some found) (some want) h = (sym h.0, sym h.1)

-- Where the dicts of two lists have the same entries, an entry of the one list, none of whose selectors
-- stands twice, has one like it in the other.
pub SameEntry-HasLike :
    (xs ys : List SetDelegate)
    → OneEach xs
    → ((k : Bytes) → SameEntry (get k (by_selector ys [])) (get k (by_selector xs [])))
    → (sd : SetDelegate) → In sd xs
    → HasLike sd ys
SameEntry-HasLike xs ys one same sd m = go (get sd.selector4 (by_selector ys [])) refl (
    subst (SameEntry (get sd.selector4 (by_selector ys []))) (by_selector-In xs sd one m)
      (same sd.selector4))
  where
    go :
        (o : Option SetDelegate)
        → get sd.selector4 (by_selector ys []) ≡ o
        → SameEntry o (some sd)
        → HasLike sd ys
    go none e h = absurd h
    go (some found) e h = let (i, p) = Listed-all ys sd.selector4 found e in (found, i, p, h.0, h.1)

pub by_selector-Distinct :
    (sds : List SetDelegate) (d : Dict Bytes SetDelegate)
    → Distinct d
    → Distinct (by_selector sds d)
unfolding by_selector
by_selector-Distinct [] d h = h
by_selector-Distinct (sd ∷ sds) d h =
    by_selector-Distinct sds (put sd.selector4 sd d) (put-Distinct sd.selector4 sd d h)
