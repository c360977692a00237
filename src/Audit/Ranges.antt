-- ===== src/Audit/Ranges.antt =====
-- audit.py: `_windows`, the block windows that split a range of an `eth_getLogs` query.
-- A window is a pair of its first and last block, both inclusive.
use josuke.Prelude.{
  ℕ, zero, suc, ◌+◌, ◌-◌, ◌*◌, ◌/◌, ◌≤◌, ◌<◌, min, ◌≡◌, refl, sym, subst, ◌⊎◌, inl, inr, List, [],
  ◌∷◌, map, arith, leb, length, length-map, All, ap, if◌then◌else◌, ◌&&◌,
}
use native.Mathlib.Nat.{add-div_right, div-add-mod, le-div_iff_mul-le, mod-lt}

abbrev pub Window : Type 0
Window = ℕ × ℕ

-- The numbers of Python's `range(start, stop, step)` for a positive step, of which there are
-- `(stop - start + step - 1) / step`.
unfoldable pub range_from : ℕ → ℕ → ℕ → List ℕ
range_from zero start step = []
range_from (suc n) start step = start ∷ range_from n (start + step) step

unfoldable pub range : ℕ → ℕ → ℕ → List ℕ
unfolding range_from
range start stop step = range_from ((stop - start + step - 1) / step) start step

unfoldable pub windows : ℕ → ℕ → ℕ → List Window
unfolding range
windows lo hi span = map (λ start. (start, min (start + span - 1) hi)) (range lo (hi + 1) span)

abbrev pub InWindow : ℕ → Window → Type 0
InWindow block (a, b) = (a ≤ block) × (block ≤ b)

-- The block lies in one of the windows.
abbrev pub InRanges : ℕ → List Window → Type 0
InRanges block [] = ⊥
InRanges block (w ∷ ws) = InWindow block w ⊎ InRanges block ws

-- The windows stand one behind the other, none is empty, and together they are `lo`..`hi`.
abbrev pub Tiles : ℕ → ℕ → List Window → Type 0
Tiles lo hi [] = lo ≡ hi + 1
Tiles lo hi ((a, b) ∷ ws) = (a ≡ lo) × (a ≤ b) × Tiles (b + 1) hi ws

-- How many of the windows hold the block.
abbrev pub times : ℕ → List Window → ℕ
times block [] = 0
times block ((a, b) ∷ ws) = (if leb a block && leb block b then 1 else 0) + times block ws

Tiles-bound : (lo hi : ℕ) (ws : List Window) → Tiles lo hi ws → lo ≤ hi + 1
Tiles-bound lo hi [] h = omega arith
Tiles-bound lo hi ((a, b) ∷ ws) h = omega (arith, Tiles-bound (b + 1) hi ws h.2)

pub times-Tiles :
    (block lo hi : ℕ) (ws : List Window)
    → Tiles lo hi ws
    → times block ws ≡ (if leb lo block && leb block hi then 1 else 0)
times-Tiles block lo hi [] h = ground arith
times-Tiles block lo hi ((a, b) ∷ ws) h =
    ground (arith, times-Tiles block (b + 1) hi ws h.2, Tiles-bound (b + 1) hi ws h.2)

pub InRanges-Tiles :
    (block lo hi : ℕ) (ws : List Window)
    → Tiles lo hi ws
    → lo ≤ block
    → block ≤ hi
    → InRanges block ws
InRanges-Tiles block lo hi [] h p q = absurd (omega arith)
InRanges-Tiles block lo hi ((a, b) ∷ ws) h p q = elim (cut block b) [
  | inl le ↦ inl (omega arith)
  | inr lt ↦ inr (InRanges-Tiles block (b + 1) hi ws h.2 (omega arith) q)
]
  where
    cut : (x y : ℕ) → (x ≤ y) ⊎ (y < x)
    cut x y = omega arith

windows_from : ℕ → ℕ → ℕ → ℕ → List Window
windows_from n lo hi span = map (λ start. (start, min (start + span - 1) hi)) (range_from n lo span)

-- `n + 1` starts reach `hi`, and `n` do not.
windows_from-Tiles :
    (n lo hi span : ℕ)
    → 0 < span
    → lo + n * span ≤ hi
    → hi < lo + suc n * span
    → Tiles lo hi (windows_from (suc n) lo hi span)
unfolding windows_from range_from
windows_from-Tiles zero lo hi span s p q = omega arith
windows_from-Tiles (suc n) lo hi span s p q =
    let e : min (lo + span - 1) hi + 1 ≡ lo + span = grind arith in
    (
      refl,
      grind arith,
      subst (λ t. Tiles t hi (windows_from (suc n) (lo + span) hi span)) (sym e)
          (windows_from-Tiles n (lo + span) hi span s (omega arith) (omega arith)),
    )

count_of_windows :
    (lo hi span : ℕ) → 0 < span → lo ≤ hi → (hi + 1 - lo + span - 1) / span ≡ suc ((hi - lo) / span)
count_of_windows lo hi span s h =
    let e : hi + 1 - lo + span - 1 ≡ hi - lo + span = omega arith in
    rw e (omega (arith, add-div_right (hi - lo) s))

-- The windows of a positive width tile a range that is not empty.
pub windows-Tiles : (lo hi span : ℕ) → 0 < span → lo ≤ hi → Tiles lo hi (windows lo hi span)
unfolding windows windows_from
windows-Tiles lo hi span s h = rw (count_of_windows lo hi span s h) (
    windows_from-Tiles ((hi - lo) / span) lo hi span s (grind (arith, div-add-mod (hi - lo) span))
      (grind (arith, div-add-mod (hi - lo) span, mod-lt (hi - lo) {m = span} s)))

length-range_from : (n start step : ℕ) → length (range_from n start step) ≡ n
unfolding range_from
length-range_from zero start step = refl
length-range_from (suc n) start step = ap suc (length-range_from n (start + step) step)

-- A width that is less than the range's gives at least two windows.
pub length-windows : (lo hi span : ℕ) → 0 < span → lo + span ≤ hi → 2 ≤ length (windows lo hi span)
unfolding windows
length-windows lo hi span s h =
    rw (count_of_windows lo hi span s (omega arith), length-map, length-range_from)
      (omega (arith, (le-div_iff_mul-le {k = span} {x = 1} {y = hi - lo} s).1 (omega arith)))

-- The sum of twice the widths, less one for each window.
abbrev pub weight : List Window → ℕ
weight [] = 0
weight ((a, b) ∷ ws) = 2 * (b - a) + 1 + weight ws

pub weight-Tiles :
    (lo hi : ℕ) (ws : List Window) → Tiles lo hi ws → weight ws + length ws + 2 * lo ≡ 2 * (hi + 1)
weight-Tiles lo hi [] h = omega arith
weight-Tiles lo hi ((a, b) ∷ ws) h = omega (arith, weight-Tiles (b + 1) hi ws h.2)

pub Tiles-Proper : (lo hi : ℕ) (ws : List Window) → Tiles lo hi ws → All (λ w. w.0 ≤ w.1) ws
Tiles-Proper lo hi [] h = tt
Tiles-Proper lo hi ((a, b) ∷ ws) h = (omega arith, Tiles-Proper (b + 1) hi ws h.2)
