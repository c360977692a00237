-- ===== src/Audit/Search.antt =====
-- audit.py: the two bisections, `find_deploy_block` and `_history_start`. A probe of the node is a
-- function of the block, which may fail.
use josuke.Prelude.{
  ℕ, zero, suc, ◌+◌, ◌-◌, ◌/◌, ◌≤◌, ◌<◌, min, max, ◌≡◌, refl, ◌≢◌, ◌⊎◌, inl, inr, Bool, true, false,
  not, ◌||◌, Option, none, some, String, arith, ltb, if◌then◌else◌, Bool-cases, subst, ◌∙◌,
  if_cases,
}
use josuke.Prelude.Eq.{◌==◌, string_eq}
use josuke.Audit.Scan.{
  Scan, ok, err, stuck, no_code, ok_injective, ◌>>=◌, >>=-eq-ok, >>=-ne-stuck, ok-ne-stuck,
}
use josuke.Audit.Narrow.{NodeError}

-- `while lo < hi`, the search for the first block with code.
unfoldable pub first_with_code : (ℕ → Scan Bool) → ℕ → ℕ → ℕ → Scan ℕ
first_with_code has_code zero lo hi = stuck
first_with_code has_code (suc fuel) lo hi =
    let mid : ℕ = (lo + hi) / 2 in
    let lower = first_with_code has_code fuel lo mid in
    let upper = first_with_code has_code fuel (mid + 1) hi in
    let round = has_code mid >>= λ found. if found then lower else upper in
    if ltb lo hi then round else ok lo

-- `has_code` over the answers of `eth_getCode`.
unfoldable pub has_code : (ℕ → Scan String) → ℕ → Scan Bool
has_code code_at block = do code ← code_at block; ok (not (code == "0x" || code == "0x0"))

unfoldable pub find_deploy_block : (ℕ → Scan String) → ℕ → Scan ℕ
unfolding first_with_code
find_deploy_block code_at latest = do
  found ← has_code code_at latest
  if found then first_with_code (has_code code_at) (latest + 1) 0 latest else err (no_code latest)

-- `while held - missing > 1`, the search for the first block that the node holds.
unfoldable pub first_held_above : (ℕ → Scan Bool) → ℕ → ℕ → ℕ → Scan ℕ
first_held_above holds zero missing held = stuck
first_held_above holds (suc fuel) missing held =
    let mid : ℕ = (missing + held) / 2 in
    let lower = first_held_above holds fuel missing mid in
    let upper = first_held_above holds fuel mid held in
    let round = holds mid >>= λ found. if found then lower else upper in
    if ltb 1 (held - missing) then round else ok held

probe_history : (ℕ → Scan Bool) → ℕ → ℕ → Scan ℕ
probe_history holds lo hi = do
  found ← holds hi
  if found then first_held_above holds (hi - lo + 1) lo hi else ok (hi + 1)

named_history : Option ℕ → (ℕ → Scan Bool) → ℕ → ℕ → Scan ℕ
unfolding probe_history
named_history (some n) holds lo hi = ok (min (max n (lo + 1)) (hi + 1))
named_history none holds lo hi = probe_history holds lo hi

unfoldable pub history_start : (ℕ → Scan Bool) → NodeError → ℕ → ℕ → Scan ℕ
unfolding named_history
history_start holds e lo hi = named_history e.history_from holds lo hi

-- Before the block the node does not hold what the search asks for, or there is no block before it.
abbrev pub Edge : (ℕ → Bool) → ℕ → Type 0
Edge held r = (r ≡ 0) ⊎ (held (r - 1) ≡ false)

-- `r` is a block of `lo`..`hi` that is held, and the block before it is not.
abbrev pub Boundary : (ℕ → Bool) → ℕ → ℕ → ℕ → Type 0
Boundary held lo hi r = (lo ≤ r) × (r ≤ hi) × (held r ≡ true) × Edge held r

abbrev pub Finds : (ℕ → Bool) → ℕ → ℕ → Scan ℕ → Type 0
Finds held lo hi s = (r : ℕ) × (s ≡ ok r) × Boundary held lo hi r

Finds-wider :
    (held : ℕ → Bool) (lo hi lo' hi' : ℕ) {s : Scan ℕ}
    → lo' ≤ lo
    → hi ≤ hi'
    → Finds held lo hi s
    → Finds held lo' hi' s
Finds-wider held lo hi lo' hi' p q (r, e, b) = (r, e, (omega arith, omega arith, b.2, b.3))

next_pred : (n : ℕ) → n + 1 - 1 ≡ n
next_pred n = omega arith

pred_of : (lo hi : ℕ) → lo < hi → hi - lo ≤ 1 → hi - 1 ≡ lo
pred_of lo hi h k = omega arith

le_cases : (lo hi : ℕ) → lo ≤ hi → (lo < hi) ⊎ (lo ≡ hi)
le_cases lo hi h = omega arith

end : (lo hi : ℕ) → lo ≤ hi → ltb lo hi ≡ false → hi ≡ lo
end lo hi h done = ground arith

module _ (probe : ℕ → Scan Bool) (held : ℕ → Bool) (answers : (b : ℕ) → probe b ≡ ok (held b)) where
  first_with_code_lem :
      (fuel lo hi : ℕ)
      → hi - lo < fuel
      → lo ≤ hi
      → held hi ≡ true
      → Edge held lo
      → Finds held lo hi (first_with_code probe fuel lo hi)
  unfolding first_with_code
  first_with_code_lem zero lo hi f h e d = absurd (omega arith)
  first_with_code_lem (suc fuel) lo hi f h e d = elim (Bool-cases (ltb lo hi)) [
    | inl more ↦ elim (Bool-cases (held ((lo + hi) / 2))) [
      | inl below ↦
          rw (more, answers ((lo + hi) / 2), below)
            (Finds-wider held lo ((lo + hi) / 2) lo hi (omega arith) (ground arith)
              (first_with_code_lem fuel lo ((lo + hi) / 2) (ground arith) (ground arith) below d))
      | inr above ↦
          rw (more, answers ((lo + hi) / 2), above)
            (Finds-wider held ((lo + hi) / 2 + 1) hi lo hi (omega arith) (omega arith) (
              first_with_code_lem fuel ((lo + hi) / 2 + 1) hi (ground arith) (ground arith) e
                (inr (rw (next_pred ((lo + hi) / 2)) above))))
    ]
    | inr done ↦
        rw done (lo, refl, (omega arith, h, subst (λ b. held b ≡ true) (end lo hi h done) e, d))
  ]

  -- The bisection ends at a block that is held while the block before it is not.
  first_held_above_lem :
      (fuel missing hi : ℕ)
      → hi - missing ≤ fuel
      → missing < hi
      → held missing ≡ false
      → held hi ≡ true
      → Finds held (missing + 1) hi (first_held_above probe fuel missing hi)
  unfolding first_held_above
  first_held_above_lem zero missing hi f h e d = absurd (omega arith)
  first_held_above_lem (suc fuel) missing hi f h e d = elim (Bool-cases (ltb 1 (hi - missing))) [
    | inl more ↦ elim (Bool-cases (held ((missing + hi) / 2))) [
      | inl below ↦
          rw (more, answers ((missing + hi) / 2), below)
            (Finds-wider held (missing + 1) ((missing + hi) / 2) (missing + 1) hi (omega arith)
              (ground arith)
              (first_held_above_lem fuel missing ((missing + hi) / 2) (ground arith) (ground arith)
                e below))
      | inr above ↦
          rw (more, answers ((missing + hi) / 2), above)
            (Finds-wider held ((missing + hi) / 2 + 1) hi (missing + 1) hi (ground arith)
              (omega arith)
              (first_held_above_lem fuel ((missing + hi) / 2) hi (ground arith) (ground arith) above
                d))
    ]
    | inr done ↦
        rw done (
          hi,
          refl,
          (omega arith, omega arith, d, inr (rw (pred_of missing hi h (ground arith)) e)),
        )
  ]

-- Where the node answers at every block and the proxy has code at `latest`, the search ends, and
-- at a block with code whose predecessor has none.
pub find_deploy_block-Boundary :
    (code_at : ℕ → Scan String) (held : ℕ → Bool) (latest : ℕ)
    → ((b : ℕ) → has_code code_at b ≡ ok (held b))
    → held latest ≡ true
    → Finds held 0 latest (find_deploy_block code_at latest)
unfolding find_deploy_block
find_deploy_block-Boundary code_at held latest answers h =
    rw (answers latest, h)
      (first_with_code_lem (has_code code_at) held answers (latest + 1) 0 latest (omega arith)
        (omega arith) h (inl refl))

-- What `_history_start` promises: the first block of `lo`..`hi` that the node holds, or `hi + 1` where it
-- holds none of them.
abbrev pub StartsHistory : (ℕ → Bool) → ℕ → ℕ → ℕ → Type 0
StartsHistory held lo hi r =
    (lo < r) × (r ≤ hi + 1) × (r ≤ hi → held r ≡ true) × ((b : ℕ) → lo ≤ b → b < r → held b ≡ false)

-- A block that the node's message names is the first one that it holds.
abbrev pub NamesFirst : Option ℕ → (ℕ → Bool) → Type 0
NamesFirst none held = Unit {0}
NamesFirst (some n) held = (held n ≡ true) × ((b : ℕ) → b < n → held b ≡ false)

-- Where the node answers every probe, lacks `lo`, holds every block from the first one on that it holds,
-- and names no other block in its message if it names one, the search ends with the first block of
-- `lo`..`hi` that the node holds, or with `hi + 1` where it holds none of them.
pub history_start-StartsHistory :
    (probe : ℕ → Scan Bool) (held : ℕ → Bool) (e : NodeError) (lo hi : ℕ)
    → ((b : ℕ) → probe b ≡ ok (held b))
    → ((b c : ℕ) → b ≤ c → held b ≡ true → held c ≡ true)
    → NamesFirst e.history_from held
    → lo ≤ hi
    → held lo ≡ false
    → (r : ℕ) × ((history_start probe e lo hi ≡ ok r) × StartsHistory held lo hi r)
unfolding history_start
history_start-StartsHistory probe held e lo hi answers later names h lacks = go e.history_from names
  where
    apart : held hi ≡ true → lo < hi
    apart t = elim (le_cases lo hi h) [ inl lt ↦ lt | inr same ↦ cc (same, lacks, t) ]

    here : Scan ℕ
    here = probe_history probe lo hi

    -- Before a block that is not held none is.
    before : (c b : ℕ) → held c ≡ false → b ≤ c → held b ≡ false
    before c b f k = elim (Bool-cases (held b)) [
      | inl t ↦ absurd (clash (later b c k t) f)
      | inr n ↦ n
    ]
      where
        clash : {x : Bool} → x ≡ true → x ≡ false → ⊥
        clash p q = cc

    found :
        here ≡ first_held_above probe (hi - lo + 1) lo hi
        → Finds held (lo + 1) hi (first_held_above probe (hi - lo + 1) lo hi)
        → (r : ℕ) × ((here ≡ ok r) × StartsHistory held lo hi r)
    found e (r, p, (a, b, t, inl z)) = absurd (omega arith)
    found e (r, p, (a, b, t, inr f)) =
        (r, (e ∙ p, (omega arith, omega arith, λ _. t, λ c m k. before (r - 1) c f (omega arith))))

    past : (n : ℕ) → held n ≡ true → lo < n
    past n t = elim (Bool-cases (ltb lo n)) [
      | inl lt ↦ ground (arith, lt)
      | inr ge ↦ absurd (clash (later n lo (ground (arith, ge)) t) lacks)
    ]
      where
        clash : {x : Bool} → x ≡ true → x ≡ false → ⊥
        clash p q = cc

    named :
        (n : ℕ)
        → held n ≡ true
        → ((b : ℕ) → b < n → held b ≡ false)
        → StartsHistory held lo hi (min (max n (lo + 1)) (hi + 1))
    named n t none_below = (
      omega (arith, past n t, h),
      omega arith,
      λ k. subst (λ x. held x ≡ true) (omega (arith, past n t, k)) t,
      λ b m k. none_below b (omega (arith, past n t, k)),
    )

    go :
        (o : Option ℕ)
        → NamesFirst o held
        → (r : ℕ) × ((named_history o probe lo hi ≡ ok r) × StartsHistory held lo hi r)
    go (some n) (t, none_below) = (min (max n (lo + 1)) (hi + 1), (refl, named n t none_below))
    go none _ = elim (Bool-cases (held hi)) [
      | inl t ↦ found (rw (answers hi, t)) (
          first_held_above_lem probe held answers (hi - lo + 1) lo hi (omega arith) (apart t) lacks
            t)
      | inr f ↦ (
        hi + 1,
        (
          rw (answers hi, f),
          (
            omega arith,
            omega arith,
            λ k. absurd (omega arith),
            λ b m k. before hi b f (omega arith),
          ),
        ),
      )
    ]

-- Whatever the probes answer, the search of the first held block stays in the range.
first_held_above_range :
    (probe : ℕ → Scan Bool) (fuel missing hi r : ℕ)
    → missing ≤ hi
    → first_held_above probe fuel missing hi ≡ ok r
    → (missing ≤ r) × (r ≤ hi) × (missing < hi → missing < r)
unfolding first_held_above
first_held_above_range probe zero missing hi r h e = cc
first_held_above_range probe (suc fuel) missing hi r h e =
    elim (if_cases (ltb 1 (hi - missing)) _ (ok hi) e) [
      | inr (_, q) ↦
          subst (λ t. (missing ≤ t) × (t ≤ hi) × (missing < hi → missing < t)) (ok_injective q)
            (h, omega arith, λ k. k)
      | inl (t, q) ↦
          let (found, _, u) = >>=-eq-ok (probe ((missing + hi) / 2)) _ q in
          elim (if_cases found (first_held_above probe fuel missing ((missing + hi) / 2)) _ u) [
            | inl (_, v) ↦ ground (
              arith,
              first_held_above_range probe fuel missing ((missing + hi) / 2) r (ground arith) v,
            )
            | inr (_, v) ↦ ground (
              arith,
              first_held_above_range probe fuel ((missing + hi) / 2) hi r (ground arith) v,
            )
          ]
    ]

-- Whatever the probes answer, the start found lies in `lo`..`hi + 1`, and past `lo` unless the range
-- is one block that a probe says is held.
abbrev pub StartRange : (ℕ → Scan Bool) → ℕ → ℕ → ℕ → Type 0
StartRange probe lo hi r = (lo ≤ r) × (r ≤ hi + 1) × ((lo < hi) ⊎ (probe hi ≢ ok true) → lo < r)

found_range :
    (probe : ℕ → Scan Bool) (lo hi r : ℕ) (found : Bool)
    → lo ≤ hi
    → probe hi ≡ ok found
    → (if found then first_held_above probe (hi - lo + 1) lo hi else ok (hi + 1)) ≡ ok r
    → StartRange probe lo hi r
found_range probe lo hi r true h p e =
    let (a, b, c) = first_held_above_range probe (hi - lo + 1) lo hi r h e in
    (a, omega arith, elim [ inl lt ↦ c lt | inr ne ↦ absurd (ne p) ])
found_range probe lo hi r false h p e =
    let q : hi + 1 ≡ r = ok_injective e in (omega arith, omega arith, λ _. omega arith)

pub history_start_range :
    (probe : ℕ → Scan Bool) (e : NodeError) (lo hi r : ℕ)
    → lo ≤ hi
    → history_start probe e lo hi ≡ ok r
    → StartRange probe lo hi r
unfolding history_start
history_start_range probe e lo hi r h q = go e.history_from q
  where
    go : (o : Option ℕ) → named_history o probe lo hi ≡ ok r → StartRange probe lo hi r
    go (some n) p =
        let same : min (max n (lo + 1)) (hi + 1) ≡ r = ok_injective p in
        (omega arith, omega arith, λ _. omega arith)
    go none p =
        let (found, a, b) = >>=-eq-ok (probe hi) _ p in found_range probe lo hi r found h a b

if-ne-stuck :
    (b : Bool) (x y : Scan ℕ)
    → (b ≡ true → x ≢ stuck)
    → (b ≡ false → y ≢ stuck)
    → (if b then x else y) ≢ stuck
if-ne-stuck true x y p q = p refl
if-ne-stuck false x y p q = q refl

-- The fuel is enough, whatever the probes answer.
first_held_above-ne-stuck :
    (probe : ℕ → Scan Bool) (fuel missing hi : ℕ)
    → ((b : ℕ) → probe b ≢ stuck)
    → hi - missing < fuel
    → first_held_above probe fuel missing hi ≢ stuck
unfolding first_held_above
first_held_above-ne-stuck probe zero missing hi p h = absurd (omega arith)
first_held_above-ne-stuck probe (suc fuel) missing hi p h =
    if-ne-stuck (ltb 1 (hi - missing)) _ (ok hi)
      (λ t. >>=-ne-stuck (probe ((missing + hi) / 2)) _ (p ((missing + hi) / 2)) (λ found _.
        if-ne-stuck found (first_held_above probe fuel missing ((missing + hi) / 2)) _
          (λ _. first_held_above-ne-stuck probe fuel missing ((missing + hi) / 2) p (ground arith))
          (λ _. first_held_above-ne-stuck probe fuel ((missing + hi) / 2) hi p (ground arith))))
      (λ _. ok-ne-stuck hi)

pub history_start-ne-stuck :
    (probe : ℕ → Scan Bool) (e : NodeError) (lo hi : ℕ)
    → ((b : ℕ) → probe b ≢ stuck)
    → history_start probe e lo hi ≢ stuck
unfolding history_start
history_start-ne-stuck probe e lo hi p = go e.history_from
  where
    go : (o : Option ℕ) → named_history o probe lo hi ≢ stuck
    go (some n) = ok-ne-stuck _
    go none = >>=-ne-stuck (probe hi) _ (p hi) (λ found _.
        if-ne-stuck found _ (ok (hi + 1))
          (λ _. first_held_above-ne-stuck probe (hi - lo + 1) lo hi p (omega arith))
          (λ _. ok-ne-stuck (hi + 1)))
