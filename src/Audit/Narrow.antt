-- ===== src/Audit/Narrow.antt =====
-- audit.py: `_narrow`, the windows that take the place of one that the node rejected.
-- What the regular expressions find in the node's message stands for the message.
use josuke.Prelude.{
  ℕ, suc, ◌+◌, ◌-◌, ◌/◌, ◌≤◌, ◌<◌, ◌≡◌, refl, List, [], ◌∷◌, Option, none, some, Bool, arith, ltb,
  leb, nat_beq, if◌then◌else◌, ◌&&◌, length, subst, ◌≢◌, inl, inr, if_some_cases, tests, Bool-cases,
  nat_beq_iff,
}
use josuke.Audit.Scan.{Scan, ok, err, stuck, block_error}
use josuke.Audit.Ranges.{Window, windows, Tiles, windows-Tiles, length-windows}

-- A JSON-RPC error of the node, as the scan reads it.
pub record NodeError : Type 0 where
  -- For each pattern of `_STATED_RANGE_LIMITS`, in order, the number that it captures.
  pub stated_limits : List (Option ℕ)
  -- The two numbers of `_RETRY_RANGE`.
  pub retry_range : Option (ℕ × ℕ)
  -- `code` is `_PRUNED_HISTORY_CODE`, or `_MISSING_HISTORY` matches.
  pub missing_history : Bool
  -- The number of `_HISTORY_FROM`.
  pub history_from : Option ℕ

-- The first stated limit that is below the range's own width.
unfoldable pub stated_windows : List (Option ℕ) → ℕ → ℕ → Option (List Window)
stated_windows [] lo hi = none
stated_windows (none ∷ rest) lo hi = stated_windows rest lo hi
stated_windows (some n ∷ rest) lo hi =
    if ltb n (hi - lo) then some (windows lo hi (n + 1)) else stated_windows rest lo hi

unfoldable pub retry_windows : Option (ℕ × ℕ) → ℕ → ℕ → Option (List Window)
retry_windows none lo hi = none
retry_windows (some (retry_lo, retry_to)) lo hi =
    if nat_beq retry_lo lo && (leb lo retry_to && ltb retry_to hi)
    then some ((lo, retry_to) ∷ windows (retry_to + 1) hi (retry_to - lo + 1))
    else none

abbrev halves : ℕ → ℕ → List Window
halves lo hi = let half = (hi - lo + 1) / 2 in (lo, lo + half - 1) ∷ (lo + half, hi) ∷ []

abbrev halve : ℕ → ℕ → Scan (List Window)
halve lo hi = if nat_beq lo hi then err (block_error lo) else ok (halves lo hi)

abbrev retry_or_halve : Option (List Window) → ℕ → ℕ → Scan (List Window)
retry_or_halve (some ws) lo hi = ok ws
retry_or_halve none lo hi = halve lo hi

abbrev stated_or_retry : Option (List Window) → NodeError → ℕ → ℕ → Scan (List Window)
stated_or_retry (some ws) e lo hi = ok ws
stated_or_retry none e lo hi = retry_or_halve (retry_windows e.retry_range lo hi) lo hi

unfoldable pub narrow : NodeError → ℕ → ℕ → Scan (List Window)
unfolding stated_windows retry_windows
narrow e lo hi = stated_or_retry (stated_windows e.stated_limits lo hi) e lo hi

-- Two windows or more that tile the range.
abbrev pub Splits : ℕ → ℕ → List Window → Type 0
Splits lo hi ws = Tiles lo hi ws × (2 ≤ length ws)

windows-Splits : (n lo hi : ℕ) → n < hi - lo → Splits lo hi (windows lo hi (n + 1))
windows-Splits n lo hi h = (
  windows-Tiles lo hi (n + 1) (omega arith) (omega arith),
  length-windows lo hi (n + 1) (omega arith) (omega arith),
)

retry_Splits :
    (b lo hi : ℕ) → lo ≤ b → b < hi → Splits lo hi ((lo, b) ∷ windows (b + 1) hi (b - lo + 1))
retry_Splits b lo hi p q =
    let tiles = windows-Tiles (b + 1) hi (b - lo + 1) (omega arith) (omega arith) in
    ((refl, p, tiles), nonempty (windows (b + 1) hi (b - lo + 1)) tiles)
  where
    nonempty : (ws : List Window) → Tiles (b + 1) hi ws → 2 ≤ suc (length ws)
    nonempty [] t = absurd (omega arith)
    nonempty (w ∷ ws) t = omega arith

stated_windows-Splits :
    (limits : List (Option ℕ)) (lo hi : ℕ) {ws : List Window}
    → lo ≤ hi
    → stated_windows limits lo hi ≡ some ws
    → Splits lo hi ws
unfolding stated_windows
stated_windows-Splits [] lo hi h e = cc
stated_windows-Splits (none ∷ rest) lo hi h e = stated_windows-Splits rest lo hi h e
stated_windows-Splits (some n ∷ rest) lo hi h e =
    elim (if_some_cases (ltb n (hi - lo)) (windows lo hi (n + 1)) _ e) [
      | inl (fits, same) ↦ subst (Splits lo hi) same (windows-Splits n lo hi (omega tests))
      | inr (_, later) ↦ stated_windows-Splits rest lo hi h later
    ]

retry_windows-Splits :
    (range : Option (ℕ × ℕ)) (lo hi : ℕ) {ws : List Window}
    → lo ≤ hi
    → retry_windows range lo hi ≡ some ws
    → Splits lo hi ws
unfolding retry_windows
retry_windows-Splits none lo hi h e = cc
retry_windows-Splits (some (a, b)) lo hi h e =
    elim (if_some_cases _ ((lo, b) ∷ windows (b + 1) hi (b - lo + 1)) none e) [
      | inl (fits, same) ↦
          subst (Splits lo hi) same (retry_Splits b lo hi (ground arith) (ground arith))
      | inr (_, never) ↦ cc
    ]

halves-Splits : (lo hi : ℕ) → lo < hi → Splits lo hi (halves lo hi)
halves-Splits lo hi h = omega arith

-- What `narrow` promises of its result.
abbrev pub Narrowed : ℕ → ℕ → Scan (List Window) → Type 0
Narrowed lo hi (ok ws) = Splits lo hi ws
Narrowed lo hi (err x) = (lo ≡ hi) × (x ≡ block_error lo)
Narrowed lo hi stuck = ⊥

halve_lem : (lo hi : ℕ) → lo ≤ hi → Narrowed lo hi (halve lo hi)
halve_lem lo hi h = elim (Bool-cases (nat_beq lo hi)) [
  | inl e ↦ rw e ((nat_beq_iff lo hi).0 e, refl)
  | inr e ↦ rw e (halves-Splits lo hi (ground arith))
]

-- A range that the node rejected, and that is not empty, narrows to two windows or more, none empty, that stand one behind
-- the other and are together the range; only a range of one block fails, with its own error.
pub narrow_lem : (e : NodeError) (lo hi : ℕ) → lo ≤ hi → Narrowed lo hi (narrow e lo hi)
unfolding narrow
narrow_lem e lo hi h = go (stated_windows e.stated_limits lo hi) refl
  where
    last :
        (o : Option (List Window))
        → retry_windows e.retry_range lo hi ≡ o
        → Narrowed lo hi (retry_or_halve o lo hi)
    last (some ws) p = retry_windows-Splits e.retry_range lo hi h p
    last none p = halve_lem lo hi h

    go :
        (o : Option (List Window))
        → stated_windows e.stated_limits lo hi ≡ o
        → Narrowed lo hi (stated_or_retry o e lo hi)
    go (some ws) p = stated_windows-Splits e.stated_limits lo hi h p
    go none p = last (retry_windows e.retry_range lo hi) refl

pub narrow-Splits :
    (e : NodeError) (lo hi : ℕ) {ws : List Window}
    → lo ≤ hi
    → narrow e lo hi ≡ ok ws
    → Splits lo hi ws
narrow-Splits e lo hi h r = subst (Narrowed lo hi) r (narrow_lem e lo hi h)

pub narrow-ne-stuck : (e : NodeError) (lo hi : ℕ) → lo ≤ hi → narrow e lo hi ≢ stuck
narrow-ne-stuck e lo hi h r = subst (Narrowed lo hi) r (narrow_lem e lo hi h)
