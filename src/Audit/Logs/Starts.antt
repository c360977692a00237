-- ===== src/Audit/Logs/Starts.antt =====
-- audit.py: the highest window of the missing start in `get_logs`, and the bounds of the search in it.
use josuke.Prelude.{
  ℕ, ◌+◌, ◌≤◌, ◌<◌, min, ◌≡◌, refl, subst, ◌⊎◌, inl, inr, Option, List, [], ◌∷◌, arith, leb,
  Bool-cases, All, leb→le,
}
use josuke.Audit.Scan.{ok, ok_injective, >>=-eq-ok}
use josuke.Audit.Ranges.{Window, times, InRanges}
use josuke.Audit.Merge.{window_le}
use josuke.Audit.Search.{history_start, history_start_range}
use josuke.Audit.Logs.{
  Lacking, max_window, min_start, start_windows, gaps, is_start, Node, holds, seek_start,
  split_start,
}
use josuke.Audit.Logs.Rounds.{Proper, lacking_windows, window_or_load}

-- No block stands in two of the windows.
abbrev pub Disjoint : List Window → Type 0
Disjoint ws = (block : ℕ) → times block ws ≤ 1

max_window-end :
    (best : Lacking) (ws : List Lacking)
    → All Proper (lacking_windows (best ∷ ws))
    → Disjoint (lacking_windows (best ∷ ws))
    → (block : ℕ) → 0 < times block (lacking_windows (best ∷ ws))
    → block ≤ (max_window best ws).0.1
unfolding max_window
max_window-end ((a, b), e) [] p d block h = ground arith
max_window-end ((a, b), e) (((c, d'), e') ∷ ws) p d block h =
    elim (Bool-cases (window_le (c, d') (a, b))) [
      | inl t ↦
          rw (t, max_window)
            (kept (ground arith)
              (max_window-end ((a, b), e) ws (p.0, p.1.1) (λ k. omega (arith, d k))))
      | inr f ↦
          rw (f, max_window)
            (taken (ground arith) (max_window-end ((c, d'), e') ws p.1 (λ k. omega (arith, d k))))
    ]
  where
    kept :
        {end : ℕ}
        → c ≤ a
        → ((k : ℕ) → 0 < times k ((a, b) ∷ lacking_windows ws) → k ≤ end)
        → block ≤ end
    kept le ih = ground (arith, d b, ih block, ih b)

    taken :
        {end : ℕ}
        → a ≤ c
        → ((k : ℕ) → 0 < times k ((c, d') ∷ lacking_windows ws) → k ≤ end)
        → block ≤ end
    taken le ih = ground (arith, d d', ih block, ih d')

-- No window of the missing start begins before its least start.
min_start-bound :
    (block least : ℕ) (ws : List Lacking)
    → (least ≤ block) ⊎ (0 < times block (lacking_windows ws))
    → min_start least ws ≤ block
unfolding min_start
min_start-bound block least [] (inl h) = h
min_start-bound block least [] (inr h) = absurd (omega arith)
min_start-bound block least (((a, b), e) ∷ ws) h = min_start-bound block (min least a) ws (either h)
  where
    either :
        (least ≤ block) ⊎ (0 < times block ((a, b) ∷ lacking_windows ws))
        → (min least a ≤ block) ⊎ (0 < times block (lacking_windows ws))
    either (inl p) = inl (omega arith)
    either (inr p) =
        elim (window_or_load block a b (times block (lacking_windows ws)) (omega arith)) [
          | inl w ↦ inl (omega arith)
          | inr l ↦ inr l
        ]

-- The start's windows and the gaps are together the lacking ones.
pub times-start_windows :
    (block : ℕ) (held : Option ℕ) (ws : List Lacking)
    → times block (lacking_windows (start_windows held ws)) + times block (gaps held ws)
      ≡ times block (lacking_windows ws)
unfolding start_windows gaps
times-start_windows block held [] = refl
times-start_windows block held (((a, b), e) ∷ ws) = elim (Bool-cases (is_start held ((a, b), e))) [
  | inl t ↦ rw t (omega (arith, times-start_windows block held ws))
  | inr f ↦ rw f (omega (arith, times-start_windows block held ws))
]

pub start_windows-Proper :
    (held : Option ℕ) (ws : List Lacking)
    → All Proper (lacking_windows ws)
    → All Proper (lacking_windows (start_windows held ws))
unfolding start_windows
start_windows-Proper held [] p = tt
start_windows-Proper held (((a, b), e) ∷ ws) p = elim (Bool-cases (is_start held ((a, b), e))) [
  | inl t ↦ rw t (p.0, start_windows-Proper held ws p.1)
  | inr f ↦ rw f (start_windows-Proper held ws p.1)
]

max_window-Proper :
    (best : Lacking) (ws : List Lacking)
    → All Proper (lacking_windows (best ∷ ws))
    → Proper (max_window best ws).0
unfolding max_window
max_window-Proper ((a, b), e) [] p = p.0
max_window-Proper ((a, b), e) (((c, d), e') ∷ ws) p = elim (Bool-cases (window_le (c, d) (a, b))) [
  | inl t ↦ rw (t, max_window) (max_window-Proper ((a, b), e) ws (p.0, p.1.1))
  | inr f ↦ rw (f, max_window) (max_window-Proper ((c, d), e') ws p.1)
]

max_window-times :
    (block : ℕ) (best : Lacking) (ws : List Lacking)
    → times block ((max_window best ws).0 ∷ []) ≤ times block (lacking_windows (best ∷ ws))
unfolding max_window
max_window-times block ((a, b), e) [] = omega arith
max_window-times block ((a, b), e) (((c, d), e') ∷ ws) =
    elim (Bool-cases (window_le (c, d) (a, b))) [
      | inl t ↦ rw (t, max_window) (omega (arith, max_window-times block ((a, b), e) ws))
      | inr f ↦ rw (f, max_window) (omega (arith, max_window-times block ((c, d), e') ws))
    ]

-- What the search of the start leaves: nothing twice, no empty window, and every block of the
-- start's windows either missing or in the window to send again.
pub record Sought (ws : List Lacking) (sought : List Window × List Window) : Type 0 where
  pub no_more : (block : ℕ) → times block sought.1 ≤ times block (lacking_windows ws)
  pub proper : All Proper sought.1
  pub kept :
      (block : ℕ)
      → 0 < times block (lacking_windows ws)
      → InRanges block sought.0 ⊎ (0 < times block sought.1)

split_start-Sought :
    (ws : List Lacking) (least start a b : ℕ)
    → a ≤ start
    → ((block : ℕ) → times block ((a, b) ∷ []) ≤ times block (lacking_windows ws))
    → ((block : ℕ) → 0 < times block (lacking_windows ws) → (least ≤ block) × (block ≤ b))
    → Sought ws (split_start least start (a, b))
split_start-Sought ws least start a b le inside bound = elim (Bool-cases (leb start b)) [
  | inl t ↦ rw t (record {
    no_more = λ block. ground (arith, inside block);
    proper = (leb→le start b t, tt);
    kept = λ block h. elim (cut block start) [
      | inl lt ↦ inl (inl (omega (arith, bound block h)))
      | inr ge ↦ inr (ground (arith, bound block h))
    ];
  })
  | inr f ↦ rw f (record {
    no_more = λ block. omega arith;
    proper = tt;
    kept = λ block h. inl (inl (ground (arith, bound block h)));
  })
]
  where
    cut : (x y : ℕ) → (x < y) ⊎ (y ≤ x)
    cut x y = omega arith

pub seek_start-Sought :
    (node : Node) (round : ℕ) (ws : List Lacking) (sought : List Window × List Window)
    → All Proper (lacking_windows ws)
    → Disjoint (lacking_windows ws)
    → seek_start node round ws ≡ ok sought
    → Sought ws sought
unfolding seek_start
seek_start-Sought node round [] sought p d h =
    subst (Sought []) (ok_injective h) (record {
      no_more = λ block. omega arith;
      proper = tt;
      kept = λ block h. absurd (omega arith);
    })
seek_start-Sought node round (((a, b), e) ∷ ws) sought p d h =
    let top : Lacking = max_window ((a, b), e) ws in
    let (start, q, t) = >>=-eq-ok (history_start (holds node round) top.1 top.0.0 top.0.1) _ h in
    subst (Sought (((a, b), e) ∷ ws)) (ok_injective t) (
      split_start-Sought (((a, b), e) ∷ ws) (min_start a ws) start top.0.0 top.0.1
        (history_start_range (holds node round) top.1 top.0.0 top.0.1 start
          (max_window-Proper ((a, b), e) ws p) q).0
        (λ block. max_window-times block ((a, b), e) ws)
        (λ block k.
          (min_start-bound block a ws (first block k), max_window-end ((a, b), e) ws p d block k)))
  where
    first :
        (block : ℕ)
        → 0 < times block ((a, b) ∷ lacking_windows ws)
        → (a ≤ block) ⊎ (0 < times block (lacking_windows ws))
    first block k =
        elim (window_or_load block a b (times block (lacking_windows ws)) (omega arith)) [
          | inl w ↦ inl w.0
          | inr l ↦ inr l
        ]
