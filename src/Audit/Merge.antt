-- ===== src/Audit/Merge.antt =====
-- audit.py: `_merged`, the missing block ranges in order, those that touch joined.
use josuke.Prelude.{
  ℕ, ◌+◌, ◌≤◌, ◌<◌, max, ◌≡◌, refl, ◌⊎◌, inl, inr, ◌↔◌, List, [], ◌∷◌, Bool, arith, ltb, leb,
  nat_beq, if◌then◌else◌, ◌&&◌, ◌||◌, Bool-cases, In, false, true, leb→le,
}
use josuke.Prelude.Sort.{sort_by, In-sort_by, In-sort_by_cases, sort_by-IsSorted, IsSorted}
use josuke.Audit.Ranges.{Window, InWindow, InRanges}

-- Python's order on pairs of numbers.
abbrev pub window_le : Window → Window → Bool
window_le (a, b) (c, d) = ltb a c || (nat_beq a c && leb b d)

-- The loop over the sorted ranges. `(lo, hi)` is `merged[-1]`; what stands before it in `merged` no
-- longer changes, so it is what the call is prepended to.
unfoldable pub merge_from : ℕ → ℕ → List Window → List Window
merge_from lo hi [] = (lo, hi) ∷ []
merge_from lo hi ((a, b) ∷ rest) =
    let joined = merge_from lo (max hi b) rest in
    let apart = (lo, hi) ∷ merge_from a b rest in if leb a (hi + 1) then joined else apart

unfoldable pub merge_sorted : List Window → List Window
unfolding merge_from
merge_sorted [] = []
merge_sorted ((lo, hi) ∷ rest) = merge_from lo hi rest

unfoldable pub merged : List Window → List Window
unfolding sort_by merge_sorted
merged ranges = merge_sorted (sort_by window_le ranges)

-- The starts do not fall.
abbrev Ascends : List Window → Type 0
Ascends [] = Unit
Ascends (w ∷ []) = Unit
Ascends ((a, b) ∷ (c, d) ∷ rest) = (a ≤ c) × Ascends ((c, d) ∷ rest)

-- Between two ranges at least one block lies in neither.
abbrev pub Apart : List Window → Type 0
Apart [] = Unit
Apart (w ∷ []) = Unit
Apart ((a, b) ∷ (c, d) ∷ rest) = (b + 1 < c) × Apart ((c, d) ∷ rest)

IsSorted-Ascends : (ws : List Window) → IsSorted window_le ws → Ascends ws
IsSorted-Ascends [] h = tt
IsSorted-Ascends (w ∷ []) h = tt
IsSorted-Ascends ((a, b) ∷ (c, d) ∷ rest) h = (ground arith, IsSorted-Ascends ((c, d) ∷ rest) h.1)

InRanges-In :
    (block : ℕ) (w : Window) (ws : List Window) → In w ws → InWindow block w → InRanges block ws
InRanges-In block w [] m h = absurd m
InRanges-In block w (v ∷ ws) (inl e) h = inl (ground arith)
InRanges-In block w (v ∷ ws) (inr m) h = inr (InRanges-In block w ws m h)

Ascends-tail : (w : Window) (ws : List Window) → Ascends (w ∷ ws) → Ascends ws
Ascends-tail w [] h = tt
Ascends-tail w (v ∷ ws) h = h.1

-- A range with a higher end, in place of the two that it joins.
Ascends-join :
    (lo hi a b hi' : ℕ) (rest : List Window)
    → Ascends ((lo, hi) ∷ (a, b) ∷ rest)
    → Ascends ((lo, hi') ∷ rest)
Ascends-join lo hi a b hi' [] h = tt
Ascends-join lo hi a b hi' ((c, d) ∷ rest) h = (omega arith, h.1.1)

join_InRanges :
    (block lo hi a b : ℕ) (rest : List Window)
    → lo ≤ a
    → a ≤ hi + 1
    → InRanges block ((lo, hi) ∷ (a, b) ∷ rest)
    → InRanges block ((lo, max hi b) ∷ rest)
join_InRanges block lo hi a b rest p q (inl m) = inl (omega arith)
join_InRanges block lo hi a b rest p q (inr (inl m)) = inl (omega arith)
join_InRanges block lo hi a b rest p q (inr (inr m)) = inr m

split_window :
    (block lo hi a b : ℕ)
    → lo ≤ a
    → a ≤ hi + 1
    → InWindow block (lo, max hi b)
    → InWindow block (lo, hi) ⊎ InWindow block (a, b)
split_window block lo hi a b p q m = omega arith

split_InRanges :
    (block lo hi a b : ℕ) (rest : List Window)
    → lo ≤ a
    → a ≤ hi + 1
    → InRanges block ((lo, max hi b) ∷ rest)
    → InRanges block ((lo, hi) ∷ (a, b) ∷ rest)
split_InRanges block lo hi a b rest p q (inl m) = elim (split_window block lo hi a b p q m) [
  | inl l ↦ inl l
  | inr r ↦ inr (inl r)
]
split_InRanges block lo hi a b rest p q (inr m) = inr (inr m)

-- Joining keeps the blocks.
merge_from-InRanges :
    (block lo hi : ℕ) (rest : List Window)
    → Ascends ((lo, hi) ∷ rest)
    → InRanges block (merge_from lo hi rest) ↔ InRanges block ((lo, hi) ∷ rest)
unfolding merge_from
merge_from-InRanges block lo hi [] h = (λ m. m, λ m. m)
merge_from-InRanges block lo hi ((a, b) ∷ rest) h = elim (Bool-cases (leb a (hi + 1))) [
  | inl e ↦ rw e (
      joined (leb→le a (hi + 1) e)
        (merge_from-InRanges block lo (max hi b) rest (Ascends-join lo hi a b (max hi b) rest h)))
  | inr e ↦ rw e (rest_of (merge_from-InRanges block a b rest h.1))
]
  where
    joined :
        {P : Type 0}
        → a ≤ hi + 1
        → P ↔ InRanges block ((lo, max hi b) ∷ rest)
        → P ↔ InRanges block ((lo, hi) ∷ (a, b) ∷ rest)
    joined le ih = (
      λ m. split_InRanges block lo hi a b rest h.0 le (ih.0 m),
      λ m. ih.1 (join_InRanges block lo hi a b rest h.0 le m),
    )

    rest_of : {P Q R : Type 0} → P ↔ Q → (R ⊎ P) ↔ (R ⊎ Q)
    rest_of e =
        (elim [ inl r ↦ inl r | inr p ↦ inr (e.0 p) ], elim [ inl r ↦ inl r | inr q ↦ inr (e.1 q) ])

InRanges-mono :
    (block : ℕ) (ws vs : List Window)
    → ((w : Window) → In w ws → In w vs)
    → InRanges block ws
    → InRanges block vs
InRanges-mono block [] vs k m = absurd m
InRanges-mono block (w ∷ ws) vs k (inl m) = InRanges-In block w vs (k w (inl refl)) m
InRanges-mono block (w ∷ ws) vs k (inr m) = InRanges-mono block ws vs (λ v i. k v (inr i)) m

merge_sorted-InRanges :
    (block : ℕ) (ws : List Window)
    → Ascends ws
    → InRanges block (merge_sorted ws) ↔ InRanges block ws
unfolding merge_sorted
merge_sorted-InRanges block [] h = (λ m. m, λ m. m)
merge_sorted-InRanges block ((lo, hi) ∷ rest) h = merge_from-InRanges block lo hi rest h

window_le_total : (v w : Window) → window_le v w ≡ false → window_le w v ≡ true
window_le_total v w h = ground arith

-- A block lies in the merged ranges exactly when it lies in one of the ranges given.
pub merged-InRanges :
    (block : ℕ) (ranges : List Window) → InRanges block (merged ranges) ↔ InRanges block ranges
unfolding merged
merged-InRanges block ranges =
    let sorted : List Window = sort_by window_le ranges in
    let same =
      merge_sorted-InRanges block sorted
        (IsSorted-Ascends sorted (sort_by-IsSorted window_le window_le_total ranges)) in
    (
      λ m. InRanges-mono block sorted ranges (λ w. In-sort_by_cases window_le w ranges) (same.0 m),
      λ m. same.1 (InRanges-mono block ranges sorted (λ w. In-sort_by window_le w ranges) m),
    )

abbrev StartsFrom : ℕ → List Window → Type 0
StartsFrom lo [] = ⊥
StartsFrom lo ((a, b) ∷ ws) = lo ≡ a

merge_from-StartsFrom : (lo hi : ℕ) (rest : List Window) → StartsFrom lo (merge_from lo hi rest)
unfolding merge_from
merge_from-StartsFrom lo hi [] = refl
merge_from-StartsFrom lo hi ((a, b) ∷ rest) = elim (Bool-cases (leb a (hi + 1))) [
  | inl e ↦ rw e (merge_from-StartsFrom lo (max hi b) rest)
  | inr e ↦ rw e refl
]

Apart-cons :
    (lo hi a : ℕ) (ws : List Window)
    → hi + 1 < a
    → StartsFrom a ws
    → Apart ws
    → Apart ((lo, hi) ∷ ws)
Apart-cons lo hi a [] p s h = tt
Apart-cons lo hi a ((c, d) ∷ ws) p s h = (omega arith, h)

merge_from-Apart : (lo hi : ℕ) (rest : List Window) → Apart (merge_from lo hi rest)
unfolding merge_from
merge_from-Apart lo hi [] = tt
merge_from-Apart lo hi ((a, b) ∷ rest) = elim (Bool-cases (leb a (hi + 1))) [
  | inl e ↦ rw e (merge_from-Apart lo (max hi b) rest)
  | inr e ↦ rw e (
      Apart-cons lo hi a (merge_from a b rest) (ground arith) (merge_from-StartsFrom a b rest)
        (merge_from-Apart a b rest))
]

-- Each merged range ends at least two blocks before the next one starts.
pub merged-Apart : (ranges : List Window) → Apart (merged ranges)
unfolding merged
merged-Apart ranges = go (sort_by window_le ranges)
  where
    go : (ws : List Window) → Apart (merge_sorted ws)
    go [] = tt
    go ((lo, hi) ∷ rest) = merge_from-Apart lo hi rest
